-- ===== src/File/Descriptors.antt =====
-- Descriptors of a process, kernel/sysfile.c: taking one and clearing one.
use microkernal.Common.{
  Bool-cases, List, Option, Option-cases, [], ap, arith, bit, count_if-set, eq_of_==, find_index?,
  find_index?-some, get_elem?, get_elem?-of_lt, get_elem?-set, get_elem?-set_self, get_or,
  get_or-of_some, if◌then◌else◌, inl, inr, length, length-set, none, refl, set, some, suc, sym,
  zero, ℕ, ◌+◌, ◌<◌, ◌==◌, ◌^◌, ◌∙◌, ◌∷◌, ◌≡◌, ◌≢◌,
}
use microkernal.File.{flatten_null, Files, fdalloc, is_null, set_fd, descriptors, argfd, nofile}
use microkernal.File.Refs.{Counts, refs_to, refs_to-set, total, total-set, points, holds-cons}

in_range :
    (os : List (List (Option ℕ))) (me fd : ℕ) {o : Option ℕ}
    → get_elem? (get_or os me []) fd ≡ some o
    → me < length os
in_range [] me fd h = cc
in_range (x ∷ os) zero fd h = omega arith
in_range (x ∷ os) (suc me) fd h = omega (arith, in_range os me fd h)

descriptors-of_get :
    (s : Files) (me fd : ℕ) {o : Option ℕ}
    → get_elem? (descriptors s me) fd ≡ some o
    → get_elem? s.ofiles me ≡ some (descriptors s me)
descriptors-of_get s me fd at =
    let (os, q) = get_elem?-of_lt s.ofiles me (in_range s.ofiles me fd at) in
    q ∙ ap some (sym (get_or-of_some s.ofiles me [] q))

-- One descriptor of process `me` changes from `o` to `o'`.
pub set_fd-refs :
    (s : Files) (me fd i : ℕ) (o o' : Option ℕ)
    → get_elem? (descriptors s me) fd ≡ some o
    → refs_to i (set_fd s me fd o').ofiles + bit (points i o)
      ≡ refs_to i s.ofiles + bit (points i o')
set_fd-refs s me fd i o o' at = omega (
  arith,
  refs_to-set i s.ofiles me (descriptors s me) (set (descriptors s me) fd o')
      (descriptors-of_get s me fd at),
  count_if-set (points i) (descriptors s me) fd o' o at,
)

pub set_fd-total :
    (s : Files) (me fd : ℕ) (o o' : Option ℕ)
    → get_elem? (descriptors s me) fd ≡ some o
    → total (set_fd s me fd o').ofiles ≡ total s.ofiles
set_fd-total s me fd o o' at =
    total-set s.ofiles me (descriptors s me) (set (descriptors s me) fd o')
      (descriptors-of_get s me fd at) (length-set (descriptors s me) fd o')

-- A reference that code holds moves into a null descriptor.
pub set_fd-some-Counts :
    (s : Files) (held : List ℕ) (me fd i : ℕ)
    → get_elem? (descriptors s me) fd ≡ some none
    → Counts s (i ∷ held)
    → Counts (set_fd s me fd (some i)) held
set_fd-some-Counts s held me fd i at c = record {
  counted = λ j f q.
      omega (arith, c.counted j f q, set_fd-refs s me fd j none (some i) at, holds-cons i j held);
  exist =
      λ j h. c.exist j (omega (arith, set_fd-refs s me fd j none (some i) at, holds-cons i j held));
  few = omega (arith, set_fd-total s me fd none (some i) at, c.few);
}

-- A reference moves out of a descriptor to the code that clears it.
pub set_fd-none-Counts :
    (s : Files) (held : List ℕ) (me fd i : ℕ)
    → get_elem? (descriptors s me) fd ≡ some (some i)
    → total s.ofiles + length held + 1 < 2 ^ 31
    → Counts s held
    → Counts (set_fd s me fd none) (i ∷ held)
set_fd-none-Counts s held me fd i at few c = record {
  counted = λ j f q.
      omega (arith, c.counted j f q, set_fd-refs s me fd j (some i) none at, holds-cons i j held);
  exist =
      λ j h. c.exist j (omega (arith, set_fd-refs s me fd j (some i) none at, holds-cons i j held));
  few = omega (arith, set_fd-total s me fd (some i) none at);
}

-- `fdalloc` takes over its caller's reference, at the lowest null descriptor.
pub fdalloc-Counts :
    (s t : Files) (held : List ℕ) (me i fd : ℕ)
    → fdalloc s me i ≡ some (fd, t)
    → (get_elem? (descriptors s me) fd ≡ some none)
      × (t ≡ set_fd s me fd (some i))
      × (Counts s (i ∷ held) → Counts t held)
unfolding fdalloc
fdalloc-Counts s t held me i fd h = elim (Option-cases (find_index? is_null (descriptors s me))) [
  | inl n ↦ absurd (ground arith)
  | inr (k, e) ↦
      let (o, at, pass, before) = find_index?-some is_null (descriptors s me) k e in
      let out : (fd ≡ k) × (t ≡ set_fd s me k (some i)) = ground arith in
      let null : get_elem? (descriptors s me) k ≡ some none = ground arith in
      rw (out.0, out.1) (null, refl, set_fd-some-Counts s held me k i null)
]

-- What `argfd` returns is a descriptor of the process, in range.
pub argfd-some :
    (s : Files) (me fd i : ℕ)
    → argfd s me fd ≡ some i
    → (get_elem? (descriptors s me) fd ≡ some (some i)) × (fd < nofile)
unfolding argfd
argfd-some s me fd i h = ground arith

-- The file of a descriptor has a reference.
pub descriptor-refs :
    (s : Files) (me fd i : ℕ)
    → get_elem? (descriptors s me) fd ≡ some (some i)
    → 0 < refs_to i s.ofiles
descriptor-refs s me fd i at = ground (arith, set_fd-refs s me fd i (some i) none at)

pub descriptors-set_fd :
    (s : Files) (me fd : ℕ) (o o' : Option ℕ)
    → get_elem? (descriptors s me) fd ≡ some o
    → descriptors (set_fd s me fd o') me ≡ set (descriptors s me) fd o'
descriptors-set_fd s me fd o o' at =
    get_or-of_some (set_fd s me fd o').ofiles me []
      (get_elem?-set_self s.ofiles me (set (descriptors s me) fd o') (in_range s.ofiles me fd at))

pub flatten_null-some :
    (o : Option (Option ℕ)) (i : ℕ) → flatten_null o ≡ some i → o ≡ some (some i)
flatten_null-some none i h = cc
flatten_null-some (some o) i h = ap some h

-- The descriptors of `me` below `k` are null.
abbrev pub Cleared : Files → ℕ → ℕ → Type 0
Cleared s me k = (j i : ℕ) → j < k → get_elem? (descriptors s me) j ≢ some (some i)

pub Cleared-skip :
    (s : Files) (me fd : ℕ)
    → flatten_null (get_elem? (descriptors s me) fd) ≡ none
    → Cleared s me fd
    → Cleared s me (fd + 1)
Cleared-skip s me fd e clear j i h q = elim (Bool-cases (j == fd)) [
  | inl b ↦
      let z : j ≡ fd = eq_of_== j fd b in ground (arith, ap (λ k. get_elem? (descriptors s me) k) z)
  | inr b ↦ clear j i (ground arith) q
]

pub Cleared-set :
    (s t : Files) (me fd i : ℕ)
    → get_elem? (descriptors s me) fd ≡ some (some i)
    → t.ofiles ≡ (set_fd s me fd none).ofiles
    → Cleared s me fd
    → Cleared t me (fd + 1)
Cleared-set s t me fd i at same clear j k h q = elim (Bool-cases (fd == j)) [
  | inl b ↦ ground (arith, list, here)
  | inr b ↦ clear j k (ground arith) (ground (arith, list, here))
]
  where
    list : get_elem? (descriptors t me) j ≡ get_elem? (set (descriptors s me) fd none) j
    list =
        ap (λ os. get_elem? (get_or os me []) j) same
        ∙ ap (λ os. get_elem? os j) (descriptors-set_fd s me fd (some i) none at)

    here :
        get_elem? (set (descriptors s me) fd none) j
        ≡ (if fd == j then some none else get_elem? (descriptors s me) j)
    here = get_elem?-set (descriptors s me) fd j none (some i) at
