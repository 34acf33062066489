-- ===== src/Vspace/Lookup.antt =====
-- va2vpage_info, kernel/vspace.c: the chain of pages as one array of entries.
use microkernal.Common.{
  ==-of_ne, Bool, Bool-cases, List, Option, Option-cases, Outcome, [], ap, arith, eq_of_==, false,
  get_elem?, get_elem?-of_lt, get_elem?-set_ne, get_elem?-set_self, get_or, get_or-set,
  if◌then◌else◌, inl, inr, length, length-replicate, length-set, lt_of_get_elem?, ne_of_==, none,
  ok, panic, refl, replicate, set, some, subst, suc, sym, true, zero, ℕ, ◌%◌, ◌/◌, ◌<◌, ◌==◌, ◌>>=◌,
  ◌∙◌, ◌∷◌, ◌≡◌, ◌≢◌, ◌≤◌, ◌⊎◌,
}
use microkernal.Kalloc.{Kmem, kalloc}
use microkernal.Kalloc.Invariant.{IsValid}
use microkernal.Kalloc.Alloc.{kalloc-IsValid}
use microkernal.Vspace.{
  vm, with_pages, set_info, first_page, walked, get_info, va2vpage_info, Region, Vpi, blank_vpi,
  vpippage, VpiPage, zero_page, Vm, va2vpi_idx, cons_page, walk,
}

-- Every page of the chain has room for all its entries.
abbrev pub IsChain : List VpiPage → Type 0
IsChain ps = (k : ℕ) (p : VpiPage) → get_elem? ps k ≡ some p → length p.infos ≡ vpippage

-- The entries of page `k`.
abbrev pub info_at : List VpiPage → (k x : ℕ) → Vpi
info_at ps k x = elim (get_elem? ps k) [ none ↦ blank_vpi | some p ↦ get_or p.infos x blank_vpi ]

get_or-replicate : (n x : ℕ) → get_or (replicate n blank_vpi) x blank_vpi ≡ blank_vpi
unfolding replicate
get_or-replicate zero x = refl
get_or-replicate (suc n) zero = refl
get_or-replicate (suc n) (suc x) = get_or-replicate n x

-- The chain `qs` has the entries of `ps`, and the pages behind it are blank.
pub record Extends (ps qs : List VpiPage) : Type 0 where
  pub same : (k x : ℕ) → info_at qs k x ≡ info_at ps k x
  pub chain : IsChain ps → IsChain qs
  pub longer : length ps ≤ length qs

pub Extends-refl : (ps : List VpiPage) → Extends ps ps
Extends-refl ps = record { same = λ k x. refl; chain = λ c. c; longer = omega arith }

Extends-cons : (q : VpiPage) (ps qs : List VpiPage) → Extends ps qs → Extends (q ∷ ps) (q ∷ qs)
Extends-cons q ps qs e = record { same = same; chain = chain; longer = omega (arith, e.longer) }
  where
    same : (k x : ℕ) → info_at (q ∷ qs) k x ≡ info_at (q ∷ ps) k x
    same zero x = refl
    same (suc k) x = e.same k x

    chain : IsChain (q ∷ ps) → IsChain (q ∷ qs)
    chain c zero p h = c zero p h
    chain c (suc k) p h = e.chain (λ j. c (suc j)) k p h

Extends-blank : (a : ℕ) (qs : List VpiPage) → Extends [] qs → Extends [] (zero_page a ∷ qs)
Extends-blank a qs e = record { same = same; chain = chain; longer = omega arith }
  where
    same : (k x : ℕ) → info_at (zero_page a ∷ qs) k x ≡ blank_vpi
    same zero x = get_or-replicate vpippage x
    same (suc k) x = e.same k x

    full :
        (k : ℕ) (p : VpiPage) → get_elem? (zero_page a ∷ qs) k ≡ some p → length p.infos ≡ vpippage
    full zero p h =
        let z : zero_page a ≡ p = ground arith in
        ap (λ y. length y.infos) (sym z) ∙ length-replicate vpippage blank_vpi
    full (suc k) p h = e.chain (λ j q g. cc g) k p h

    chain : IsChain [] → IsChain (zero_page a ∷ qs)
    chain c = full

-- What the walk leaves: the same entries; if it ends well it has reached page `n` of the rest, and no
-- call of `kalloc` has failed.
abbrev Walks : ℕ → List VpiPage → Kmem → Bool × Kmem × List VpiPage → Type 0
Walks n rest m r =
    Extends rest r.2
    × (r.0 ≡ true → (n ≤ length r.2) × (IsValid m → IsValid r.1))
    × (n ≤ length rest → r ≡ (true, m, rest))

walk-Walks : (n : ℕ) (rest : List VpiPage) (m : Kmem) → Walks n rest m (walk n rest m)
unfolding walk
walk-Walks zero rest m = (Extends-refl rest, λ e. (omega arith, λ v. v), λ h. refl)
walk-Walks (suc n) (q ∷ rest) m =
    let (same, good, there) = walk-Walks n rest m in
    (
      Extends-cons q rest (walk n rest m).2 same,
      λ e. (omega (arith, (good e).0), (good e).1),
      λ h. ap (cons_page q) (there (omega arith)),
    )
walk-Walks (suc n) [] m =
    let (same, good, there) = walk-Walks n [] (kalloc m).1 in
    elim (Bool-cases ((kalloc m).0 == 0)) [
      | inl z ↦ rw z (Extends-refl [], λ e. cc e, λ h. absurd (omega arith))
      | inr z ↦ rw z (
        Extends-blank (kalloc m).0 (walk n [] (kalloc m).1).2 same,
        λ e. (
          omega (arith, (good e).0),
          λ v. (good e).1 (kalloc-IsValid m v (ne_of_== (kalloc m).0 0 z)),
        ),
        λ h. absurd (omega arith),
      )
    ]

-- How a lookup of `va` ends. A null pointer and a found entry leave every entry as it was; of an entry
-- of a page that the chain has, nothing is allocated. It panics only on an empty chain with no memory.
abbrev pub Finds : Vm → ℕ → Outcome (Option ℕ × Vm) → Type 0
Finds s va panic = (s.region.pages ≡ []) × ((kalloc s.kmem).0 ≡ 0)
Finds s va (ok (o, t)) =
    Extends s.region.pages t.region.pages
    × (t.region ≡ with_pages s.region t.region.pages)
    × ((o ≡ none)
        ⊎ ((o ≡ some (va2vpi_idx s.region va))
            × (va2vpi_idx s.region va / vpippage < length t.region.pages)
            × (IsValid s.kmem → IsValid t.kmem)))

first-Extends :
    (m : Kmem)
    → (kalloc m).0 ≢ 0
    → (rest : List VpiPage) → Extends [] rest
    → Extends [] (zero_page (kalloc m).0 ∷ rest)
first-Extends m h rest e = Extends-blank (kalloc m).0 rest e

module _ (r : Region) (i : ℕ) (p : VpiPage) (rest : List VpiPage) (m : Kmem) where
  -- The walk from a first page `p` on.
  walked-Finds :
      (ps : List VpiPage)
      → r.pages ≡ ps
      → ((qs : List VpiPage) → Extends rest qs → Extends ps (p ∷ qs))
      → (m' : Kmem) → (IsValid m' → IsValid m)
      → Extends r.pages (walked r i p (walk (i / vpippage) rest m)).1.region.pages
        × (((walked r i p (walk (i / vpippage) rest m)).0 ≡ none)
            ⊎ (((walked r i p (walk (i / vpippage) rest m)).0 ≡ some i)
                × (i / vpippage < length (walked r i p (walk (i / vpippage) rest m)).1.region.pages)
                × (IsValid m' → IsValid (walked r i p (walk (i / vpippage) rest m)).1.kmem)))
  walked-Finds ps eq ext m' keep =
      let (same, good, there) = walk-Walks (i / vpippage) rest m in
      (
        subst (λ z. Extends z (p ∷ (walk (i / vpippage) rest m).2)) (sym eq)
            (ext (walk (i / vpippage) rest m).2 same),
        elim (Bool-cases (walk (i / vpippage) rest m).0) [
          | inl e ↦ inr (
            ap (λ b. if b then some i else none) e,
            omega (arith, (good e).0),
            λ v. (good e).1 (keep v),
          )
          | inr e ↦ inl (ap (λ b. if b then some i else none) e)
        ],
      )

pub va2vpage_info-Finds : (s : Vm) (va : ℕ) → Finds s va (va2vpage_info s va)
unfolding va2vpage_info first_page
va2vpage_info-Finds s va = go s.region.pages refl
  where
    i : ℕ
    i = va2vpi_idx s.region va

    go :
        (ps : List VpiPage)
        → s.region.pages ≡ ps
        → Finds s va
            (first_page s.kmem ps >>= λ f. ok (walked s.region i f.1 (walk (i / vpippage) f.2 f.0)))
    go (p ∷ rest) e =
        let (ext, ends) =
          walked-Finds s.region i p rest s.kmem (p ∷ rest) e (λ qs x. Extends-cons p rest qs x)
            s.kmem (λ v. v) in
        (ext, refl, ends)
    go [] e = elim (Bool-cases ((kalloc s.kmem).0 == 0)) [
      | inl z ↦ rw z (e, eq_of_== (kalloc s.kmem).0 0 z)
      | inr z ↦
          let ne = ne_of_== (kalloc s.kmem).0 0 z in
          let (ext, ends) =
            walked-Finds s.region i (zero_page (kalloc s.kmem).0) [] (kalloc s.kmem).1 [] e
              (λ qs x. first-Extends s.kmem ne qs x) s.kmem (λ v. kalloc-IsValid s.kmem v ne) in
          rw z (ext, refl, ends)
    ]

-- Reading an entry by its number is reading the one array that the chain stands for.
pub get_info-eq :
    (ps : List VpiPage) (i : ℕ) → get_info ps i ≡ info_at ps (i / vpippage) (i % vpippage)
get_info-eq ps i = refl

pub Extends-get_info :
    (ps qs : List VpiPage) → Extends ps qs → (i : ℕ) → get_info qs i ≡ get_info ps i
Extends-get_info ps qs e i = e.same (i / vpippage) (i % vpippage)

-- A write to entry `i` of a chain that has its page is read back, and no other entry changes.
pub get_info-set_info :
    (ps : List VpiPage) (i j : ℕ) (v : Vpi)
    → IsChain ps
    → i / vpippage < length ps
    → get_info (set_info ps i v) j ≡ (if i == j then v else get_info ps j)
get_info-set_info ps i j v c lt =
    let (p, at) = get_elem?-of_lt ps (i / vpippage) lt in
    let wide : i % vpippage < length p.infos = omega (arith, c (i / vpippage) p at) in
    let p' : VpiPage = record p { infos = set p.infos (i % vpippage) v } in
    let opened : set_info ps i v ≡ set ps (i / vpippage) p' = rw (at, set_info) refl in
    rw opened (elim (Bool-cases (i / vpippage == j / vpippage)) [
      | inl e ↦
          let k = eq_of_== (i / vpippage) (j / vpippage) e in
          let here : get_elem? (set ps (i / vpippage) p') (j / vpippage) ≡ some p' =
            ap (get_elem? (set ps (i / vpippage) p')) (sym k)
            ∙ get_elem?-set_self ps (i / vpippage) p' lt in
          let was : get_elem? ps (j / vpippage) ≡ some p = ap (get_elem? ps) (sym k) ∙ at in
          same_page p j p' here was
            (get_or-set p.infos (i % vpippage) (j % vpippage) v blank_vpi wide) k
      | inr e ↦
          let k = ne_of_== (i / vpippage) (j / vpippage) e in
          let other : get_elem? (set ps (i / vpippage) p') (j / vpippage)
              ≡ get_elem? ps (j / vpippage) =
            get_elem?-set_ne ps (i / vpippage) (j / vpippage) p' k in
          let apart : (i == j) ≡ false = ==-of_ne i j (λ z. k (ap (λ x. x / vpippage) z)) in
          rw apart (ap (λ o. entry o (j % vpippage)) other)
    ])
  where
    entry : Option VpiPage → ℕ → Vpi
    entry o x = elim o [ none ↦ blank_vpi | some q ↦ get_or q.infos x blank_vpi ]

    same_page :
        (p : VpiPage) (j : ℕ) (p' : VpiPage)
        → get_elem? (set ps (i / vpippage) p') (j / vpippage) ≡ some p'
        → get_elem? ps (j / vpippage) ≡ some p
        → get_or p'.infos (j % vpippage) blank_vpi
          ≡ (if i % vpippage == j % vpippage then v else get_or p.infos (j % vpippage) blank_vpi)
        → i / vpippage ≡ j / vpippage
        → get_info (set ps (i / vpippage) p') j ≡ (if i == j then v else get_info ps j)
    same_page p j p' here was g k =
        let cases : (i == j) ≡ (i % vpippage == j % vpippage) = ground arith in
        ap (λ o. entry o (j % vpippage)) here
        ∙ g
        ∙ ap (λ b. if b then v else get_or p.infos (j % vpippage) blank_vpi) (sym cases)
        ∙ ap (λ o. if i == j then v else entry o (j % vpippage)) (sym was)

pub set_info-IsChain :
    (ps : List VpiPage) (i : ℕ) (v : Vpi) → IsChain ps → IsChain (set_info ps i v)
set_info-IsChain ps i v c = elim (Option-cases (get_elem? ps (i / vpippage))) [
  | inl n ↦ rw (n, set_info) c
  | inr (p, at) ↦ rw (at, set_info) (go p at)
]
  where
    go :
        (p : VpiPage)
        → get_elem? ps (i / vpippage) ≡ some p
        → IsChain (set ps (i / vpippage) (record p { infos = set p.infos (i % vpippage) v }))
    go p at k q h = elim (Bool-cases (i / vpippage == k)) [
      | inl e ↦
          let z = eq_of_== (i / vpippage) k e in
          let p' : VpiPage = record p { infos = set p.infos (i % vpippage) v } in
          let here : p' ≡ q = ground (
            arith,
            get_elem?-set_self ps (i / vpippage) p',
            lt_of_get_elem? ps (i / vpippage) at,
          ) in
          ap (λ y. length y.infos) (sym here)
          ∙ length-set p.infos (i % vpippage) v
          ∙ c (i / vpippage) p at
      | inr e ↦
          c k q (sym (get_elem?-set_ne ps (i / vpippage) k _ (ne_of_== (i / vpippage) k e)) ∙ h)
    ]

-- A lookup of an entry whose page exists changes nothing.
pub va2vpage_info-there :
    (s : Vm) (va : ℕ)
    → va2vpi_idx s.region va / vpippage < length s.region.pages
    → va2vpage_info s va ≡ ok (some (va2vpi_idx s.region va), s)
unfolding va2vpage_info first_page
va2vpage_info-there s va lt = go s.region.pages refl
  where
    i : ℕ
    i = va2vpi_idx s.region va

    go :
        (ps : List VpiPage)
        → s.region.pages ≡ ps
        → (first_page s.kmem ps >>= λ f. ok (walked s.region i f.1 (walk (i / vpippage) f.2 f.0)))
          ≡ ok (some i, s)
    go [] e = absurd (omega (arith, lt, ap length e))
    go (p ∷ rest) e =
        let w = (walk-Walks (i / vpippage) rest s.kmem).2 (omega (arith, lt, ap length e)) in
        rw w (ap (λ ps. ok (some i, vm s.kmem (with_pages s.region ps))) (sym e))
