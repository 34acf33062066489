-- ===== src/File/Refs.antt =====
-- References to a file of kernel/file.c: descriptors, and those that running code holds.
use microkernal.Common.{
  ==-of_ne, ==-refl, Bool, Bool-cases, List, Option, Option-cases, [], add32, arith, bit, count_if,
  count_if-le-length, eq_of_==, false, find_index?, find_index?-some, get_elem?, get_elem?-of_lt,
  get_elem?-set, gt_int, if◌then◌else◌, inl, inr, length, length-set, lt_of_get_elem?, none, ok,
  refl, set, some, sub32, suc, sym, true, zero, ℕ, ◌+◌, ◌<◌, ◌==◌, ◌^◌, ◌∙◌, ◌∷◌, ◌≡◌, ◌≢◌, ◌≤◌,
}
use microkernal.File.{
  File, Files, filealloc, filedup, fileclose, is_unused, unreferenced, set_file, referenced,
  LastClose, nothing, last_close, fd_none,
}

abbrev pub points : ℕ → Option ℕ → Bool
points i none = false
points i (some j) = i == j

-- How many descriptors point at file `i`.
unfoldable pub refs_to : ℕ → List (List (Option ℕ)) → ℕ
refs_to i [] = 0
refs_to i (o ∷ os) = count_if (points i) o + refs_to i os

-- How many descriptors there are.
unfoldable pub total : List (List (Option ℕ)) → ℕ
total [] = 0
total (o ∷ os) = length o + total os

pub refs_to-le-total : (i : ℕ) (os : List (List (Option ℕ))) → refs_to i os ≤ total os
unfolding refs_to total
refs_to-le-total i [] = omega arith
refs_to-le-total i (o ∷ os) = omega (arith, count_if-le-length (points i) o, refs_to-le-total i os)

pub refs_to-set :
    (i : ℕ) (os : List (List (Option ℕ))) (me : ℕ) (o o' : List (Option ℕ))
    → get_elem? os me ≡ some o
    → refs_to i (set os me o') + count_if (points i) o ≡ refs_to i os + count_if (points i) o'
unfolding refs_to
refs_to-set i [] me o o' h = cc
refs_to-set i (x ∷ os) zero o o' h = let e : x ≡ o = ground arith in rw e (omega arith)
refs_to-set i (x ∷ os) (suc me) o o' h = omega (arith, refs_to-set i os me o o' h)

pub total-set :
    (os : List (List (Option ℕ))) (me : ℕ) (o o' : List (Option ℕ))
    → get_elem? os me ≡ some o
    → length o' ≡ length o
    → total (set os me o') ≡ total os
unfolding total
total-set [] me o o' h l = refl
total-set (x ∷ os) zero o o' h l = let e : x ≡ o = ground arith in rw e (omega arith)
total-set (x ∷ os) (suc me) o o' h l = omega (arith, total-set os me o o' h l)

abbrev pub holds : ℕ → List ℕ → ℕ
holds i held = count_if (λ j. i == j) held

pub holds-cons : (i j : ℕ) (held : List ℕ) → holds j (i ∷ held) ≡ bit (j == i) + holds j held
unfolding count_if
holds-cons i j held = refl

holds_self : (i : ℕ) (held : List ℕ) → holds i (i ∷ held) ≡ suc (holds i held)
unfolding count_if
holds_self i held = rw (==-refl i) (omega arith)

holds-ne : (i j : ℕ) (held : List ℕ) → i ≢ j → holds j (i ∷ held) ≡ holds j held
unfolding count_if
holds-ne i j held h = rw (==-of_ne j i (λ e. h (sym e))) (omega arith)

-- `held`: the files to which running code holds a reference, one entry for each.
pub record Counts (s : Files) (held : List ℕ) : Type 0 where
  pub counted :
      (i : ℕ) (f : File) → get_elem? s.ftable i ≡ some f → f.ref ≡ refs_to i s.ofiles + holds i held
  pub exist : (i : ℕ) → refs_to i s.ofiles + holds i held ≢ 0 → i < length s.ftable
  pub few : total s.ofiles + length held < 2 ^ 31

pub ref-lt :
    {s : Files} {held : List ℕ} (i : ℕ) (f : File)
    → Counts s held
    → get_elem? s.ftable i ≡ some f
    → f.ref < 2 ^ 31
ref-lt {s} {held} i f c at = omega (
  arith,
  c.counted i f at,
  c.few,
  refs_to-le-total i s.ofiles,
  count_if-le-length (λ j. i == j) held,
)

-- One file's record changes, with a count that fits `held'`; no other count changes.
set_file-Counts :
    (s : Files) (held held' : List ℕ) (i : ℕ) (f g : File)
    → get_elem? s.ftable i ≡ some f
    → g.ref ≡ refs_to i s.ofiles + holds i held'
    → ((j : ℕ) → i ≢ j → holds j held' ≡ holds j held)
    → total s.ofiles + length held' < 2 ^ 31
    → Counts s held
    → Counts (set_file s i g) held'
set_file-Counts s held held' i f g at new same few c = record {
  counted = λ j x q.
      ground (arith, get_elem?-set s.ftable i j g f at, c.counted j x, same j, eq_of_== i j);
  exist = λ j h. ground (
    arith,
    length-set s.ftable i g,
    lt_of_get_elem? s.ftable i at,
    c.exist j,
    same j,
    eq_of_== i j,
  );
  few = few;
}

-- The contents of a file that are no count may change freely.
pub update-Counts :
    (s : Files) (held : List ℕ) (i : ℕ) (f g : File)
    → get_elem? s.ftable i ≡ some f
    → g.ref ≡ f.ref
    → Counts s held
    → Counts (set_file s i g) held
update-Counts s held i f g at same c =
    set_file-Counts s held held i f g at (same ∙ c.counted i f at) (λ j h. refl) c.few c

-- `filealloc` hands out a file to which nothing refers, and its caller holds the one reference.
pub filealloc-Counts :
    (s t : Files) (held : List ℕ) (i : ℕ)
    → total s.ofiles + length held + 1 < 2 ^ 31
    → filealloc s ≡ some (i, t)
    → Counts s held
    → Counts t (i ∷ held) × (t.ofiles ≡ s.ofiles) × (refs_to i s.ofiles + holds i held ≡ 0)
unfolding filealloc
filealloc-Counts s t held i few h c = elim (Option-cases (find_index? is_unused s.ftable)) [
  | inl n ↦ absurd (ground arith)
  | inr (k, e) ↦
      let (f, at, pass, before) = find_index?-some is_unused s.ftable k e in
      let out : (i ≡ k) × (t ≡ set_file s k (referenced f 1)) = ground arith in
      rw (out.0, out.1)
        (
          set_file-Counts s held (k ∷ held) k f (referenced f 1) at
              (omega (arith, holds_self k held, none_yet f k at pass))
              (λ j ne. holds-ne k j held ne) (omega arith) c,
          refl,
          none_yet f k at pass,
        )
]
  where
    none_yet :
        (f : File) (k : ℕ)
        → get_elem? s.ftable k ≡ some f
        → is_unused f ≡ true
        → refs_to k s.ofiles + holds k held ≡ 0
    none_yet f k at pass = sym (c.counted k f at) ∙ eq_of_== f.ref 0 pass

filedup-live :
    (s : Files) (i : ℕ) (f : File)
    → get_elem? s.ftable i ≡ some f
    → unreferenced f ≡ false
    → filedup s i ≡ ok (set_file s i (referenced f (add32 f.ref 1)))
unfolding filedup
filedup-live s i f at live = rw (at, filedup) (rw live)

-- `filedup` looks at the table alone, not at the descriptors.
pub filedup-ofiles :
    (s u : Files) (os : List (List (Option ℕ))) (i : ℕ)
    → filedup s i ≡ ok u
    → filedup (record s { ofiles = os }) i ≡ ok (record u { ofiles = os })
unfolding filedup
filedup-ofiles s u os i h = ground arith

-- `filedup` of an existing reference never panics and adds one.
pub filedup-Counts :
    (s : Files) (held : List ℕ) (i : ℕ)
    → total s.ofiles + length held + 1 < 2 ^ 31
    → refs_to i s.ofiles + holds i held ≢ 0
    → Counts s held
    → (t : Files) × (filedup s i ≡ ok t) × Counts t (i ∷ held) × (t.ofiles ≡ s.ofiles)
filedup-Counts s held i few some_ref c =
    let (f, at) = get_elem?-of_lt s.ftable i (c.exist i some_ref) in
    let few' = ref-lt i f c at in
    let n = c.counted i f at in
    let live : unreferenced f ≡ false = ground arith in
    (
      set_file s i (referenced f (add32 f.ref 1)),
      filedup-live s i f at live,
      set_file-Counts s held (i ∷ held) i f _ at (omega (arith, holds_self i held))
          (λ j ne. holds-ne i j held ne) (omega arith) c,
      refl,
    )

-- The file that `fileclose` leaves: one reference fewer, or unused and of no kind.
abbrev pub closed : File → File
closed f =
    if gt_int (sub32 f.ref 1) 0
    then referenced f (sub32 f.ref 1)
    else record f { ref = 0; kind = fd_none }

fileclose-live :
    (s : Files) (i : ℕ) (f : File)
    → get_elem? s.ftable i ≡ some f
    → unreferenced f ≡ false
    → (e : LastClose) × (fileclose s i ≡ ok (set_file s i (closed f), e))
unfolding fileclose
fileclose-live s i f at live = elim (Bool-cases (gt_int (sub32 f.ref 1) 0)) [
  | inl h ↦ (nothing, rw (at, fileclose) (rw (live, h)))
  | inr h ↦ (last_close f f.kind, rw (at, fileclose) (rw (live, h)))
]

-- `fileclose` of a reference that its caller holds never panics and gives that reference up.
pub fileclose-Counts :
    (s : Files) (held : List ℕ) (i : ℕ)
    → Counts s (i ∷ held)
    → (r : Files × LastClose) × (fileclose s i ≡ ok r) × Counts r.0 held × (r.0.ofiles ≡ s.ofiles)
fileclose-Counts s held i c =
    let (f, at) = get_elem?-of_lt s.ftable i (c.exist i (omega (arith, holds_self i held))) in
    let small = ref-lt i f c at in
    let n = c.counted i f at in
    let one = holds_self i held in
    let live : unreferenced f ≡ false = ground arith in
    let (e, run) = fileclose-live s i f at live in
    let left : (closed f).ref ≡ refs_to i s.ofiles + holds i held = ground arith in
    (
      (set_file s i (closed f), e),
      run,
      set_file-Counts s (i ∷ held) held i f (closed f) at left (λ j ne. sym (holds-ne i j held ne))
          (omega (arith, c.few)) c,
      refl,
    )

-- `fileclose` looks at the table alone, not at the descriptors.
pub fileclose-ofiles :
    (s : Files) (r : Files × LastClose) (os : List (List (Option ℕ))) (i : ℕ)
    → fileclose s i ≡ ok r
    → fileclose (record s { ofiles = os }) i ≡ ok (record (r.0) { ofiles = os }, r.1)
unfolding fileclose
fileclose-ofiles s (t, e) os i h = ground arith
