-- ===== src/Vspace/Copy/Spaces.antt =====
-- vspacecopy, kernel/vspace.c, as a whole.
use microkernal.Common.{
  Bool, Bool-cases, List, [], ap, false, get_elem?, inl, inr, ne_of_==, refl, subst, sym, true,
  ◌++◌, ◌==◌, ◌∙◌, ◌∷◌, ◌≡◌, ◌≢◌,
}
use microkernal.Kalloc.{Kmem, kalloc}
use microkernal.Kalloc.Invariant.{IsValid}
use microkernal.Kalloc.Alloc.{kalloc-IsValid}
use microkernal.Vspace.{Vpi, VpiPage, Region, Vspace, with_pages}
use microkernal.Vspace.Copy.{
  Copying, copying, cons_copy, copy_infos, copy_vpi_page, vspacecopy, info_page,
}
use microkernal.Vspace.Copy.Owners.{
  Keeps, Keeps-trans, Own, Own-append, Own-earlier, Own-nil, AllTaken, AllTaken-Keeps,
}
use microkernal.Vspace.Copy.Pages.{kalloc-Fresh, CopiesOf, CopiesOf-earlier, copy_infos-Copies}

-- The pages of the copy are taken, so what keeps them keeps the copy.
CopiesOf-later :
    (m m' m'' : Kmem) (vs ws : List Vpi) → Keeps m' m'' → CopiesOf m vs m' ws → CopiesOf m vs m'' ws
CopiesOf-later m m' m'' [] [] k c = tt
CopiesOf-later m m' m'' [] (w ∷ ws) k c = c
CopiesOf-later m m' m'' (v ∷ vs) [] k c = c
CopiesOf-later m m' m'' (v ∷ vs) (w ∷ ws) k ((same, copy), c) = (
  (
    same,
    λ u.
        let (p, wr, bytes, ne, taken) = copy u in
        (p, wr, (k w.ppn taken).1 ∙ bytes, ne, (k w.ppn taken).0),
  ),
  CopiesOf-later m m' m'' vs ws k c,
)

-- Page by page of a chain, and region by region of a space.
abbrev pub ChainOf : Kmem → List VpiPage → Kmem → List VpiPage → Type 0
ChainOf m [] m' [] = Unit {0}
ChainOf m [] m' (q ∷ qs) = ⊥
ChainOf m (p ∷ ps) m' [] = ⊥
ChainOf m (p ∷ ps) m' (q ∷ qs) = CopiesOf m p.infos m' q.infos × ChainOf m ps m' qs

abbrev pub ChainTaken : Kmem → List VpiPage → Type 0
ChainTaken m [] = Unit {0}
ChainTaken m (p ∷ ps) = AllTaken m p.infos × ChainTaken m ps

abbrev pub SpaceOf : Kmem → Vspace → Kmem → Vspace → Type 0
SpaceOf m [] m' [] = Unit {0}
SpaceOf m [] m' (q ∷ qs) = ⊥
SpaceOf m (r ∷ rs) m' [] = ⊥
SpaceOf m (r ∷ rs) m' (q ∷ qs) =
    ((q.dir ≡ r.dir) × (q.va_base ≡ r.va_base) × (q.size ≡ r.size) × ChainOf m r.pages m' q.pages)
    × SpaceOf m rs m' qs

abbrev pub SpaceTaken : Kmem → Vspace → Type 0
SpaceTaken m [] = Unit {0}
SpaceTaken m (r ∷ rs) = ChainTaken m r.pages × SpaceTaken m rs

ChainTaken-Keeps :
    (m m' : Kmem) (ps : List VpiPage) → Keeps m m' → ChainTaken m ps → ChainTaken m' ps
ChainTaken-Keeps m m' [] k a = tt
ChainTaken-Keeps m m' (p ∷ ps) k (h, a) =
    (AllTaken-Keeps m m' p.infos k h, ChainTaken-Keeps m m' ps k a)

SpaceTaken-Keeps : (m m' : Kmem) (rs : Vspace) → Keeps m m' → SpaceTaken m rs → SpaceTaken m' rs
SpaceTaken-Keeps m m' [] k a = tt
SpaceTaken-Keeps m m' (r ∷ rs) k (h, a) =
    (ChainTaken-Keeps m m' r.pages k h, SpaceTaken-Keeps m m' rs k a)

ChainOf-earlier :
    (m n m' : Kmem) (ps qs : List VpiPage)
    → Keeps m n
    → ChainTaken m ps
    → ChainOf n ps m' qs
    → ChainOf m ps m' qs
ChainOf-earlier m n m' [] [] k a c = tt
ChainOf-earlier m n m' [] (q ∷ qs) k a c = c
ChainOf-earlier m n m' (p ∷ ps) [] k a c = c
ChainOf-earlier m n m' (p ∷ ps) (q ∷ qs) k (h, a) (c, cs) =
    (CopiesOf-earlier m n m' p.infos q.infos k h c, ChainOf-earlier m n m' ps qs k a cs)

ChainOf-later :
    (m m' m'' : Kmem) (ps qs : List VpiPage)
    → Keeps m' m''
    → ChainOf m ps m' qs
    → ChainOf m ps m'' qs
ChainOf-later m m' m'' [] [] k c = tt
ChainOf-later m m' m'' [] (q ∷ qs) k c = c
ChainOf-later m m' m'' (p ∷ ps) [] k c = c
ChainOf-later m m' m'' (p ∷ ps) (q ∷ qs) k (c, cs) =
    (CopiesOf-later m m' m'' p.infos q.infos k c, ChainOf-later m m' m'' ps qs k cs)

SpaceOf-earlier :
    (m n m' : Kmem) (rs qs : Vspace)
    → Keeps m n
    → SpaceTaken m rs
    → SpaceOf n rs m' qs
    → SpaceOf m rs m' qs
SpaceOf-earlier m n m' [] [] k a c = tt
SpaceOf-earlier m n m' [] (q ∷ qs) k a c = c
SpaceOf-earlier m n m' (r ∷ rs) [] k a c = c
SpaceOf-earlier m n m' (r ∷ rs) (q ∷ qs) k (h, a) ((d, b, s, c), cs) =
    ((d, b, s, ChainOf-earlier m n m' r.pages q.pages k h c), SpaceOf-earlier m n m' rs qs k a cs)

kalloc-Keeps : (m : Kmem) → IsValid m → (kalloc m).0 ≢ 0 → Keeps m (kalloc m).1
kalloc-Keeps m v h ppn (e, at, used) =
    let f = kalloc-Fresh m v h in
    let other : f.number ≢ ppn = λ z. used (f.was_free e (ap (get_elem? m.core_map) z ∙ at)) in
    (f.rest ppn other (e, at, used), ap (λ g. g ppn) f.frames)

-- The entries of a chain, and of a space.
abbrev pub chain_infos : List VpiPage → List Vpi
chain_infos [] = []
chain_infos (p ∷ ps) = p.infos ++ chain_infos ps

abbrev pub space_infos : Vspace → List Vpi
space_infos [] = []
space_infos (r ∷ rs) = chain_infos r.pages ++ space_infos rs

-- A successful copy of the chain `ps` or of the space `rs` in `m`.
pub record Copied (m : Kmem) (ps : List VpiPage) (c : Copying VpiPage) : Type 0 where
  pub copies : ChainOf m ps c.kmem c.list
  pub own : Own m (chain_infos c.list) c.kmem
  pub keeps : Keeps m c.kmem
  pub valid : IsValid c.kmem

pub record SpaceCopied (m : Kmem) (rs : Vspace) (c : Copying Region) : Type 0 where
  pub copies : SpaceOf m rs c.kmem c.list
  pub own : Own m (space_infos c.list) c.kmem
  pub keeps : Keeps m c.kmem
  pub valid : IsValid c.kmem

false-ne-true : false ≡ true → ⊥
false-ne-true e = cc e

abbrev first_infos : VpiPage → Kmem → Copying Vpi
unfolding copy_infos
first_infos p m = copy_infos p.infos (kalloc m).1

abbrev chain_end : VpiPage → List VpiPage → Kmem → Bool → Copying VpiPage
unfolding first_infos copy_vpi_page
chain_end p ps m b = elim b [
  | false ↦
      copying false (first_infos p m).kmem (info_page (kalloc m).0 (first_infos p m).list ∷ [])
  | true ↦
      cons_copy (info_page (kalloc m).0 (first_infos p m).list)
        (copy_vpi_page ps (first_infos p m).kmem)
]

abbrev chain_step : VpiPage → List VpiPage → Kmem → Bool → Copying VpiPage
unfolding chain_end
chain_step p ps m z = elim z [
  | true ↦ copying false (kalloc m).1 []
  | false ↦ chain_end p ps m (first_infos p m).done
]

chain_step-Copied :
    (p : VpiPage) (ps : List VpiPage) (m : Kmem)
    → IsValid m
    → (kalloc m).0 ≢ 0
    → AllTaken m p.infos
    → ChainTaken m ps
    → (first_infos p m).done ≡ true
    → (IsValid (first_infos p m).kmem
        → ChainTaken (first_infos p m).kmem ps
        → Copied (first_infos p m).kmem ps (copy_vpi_page ps (first_infos p m).kmem))
    → Copied m (p ∷ ps) (chain_end p ps m true)
unfolding first_infos chain_end
chain_step-Copied p ps m valid ne h a y more =
    let c = first_infos p m in
    let k = kalloc-Keeps m valid ne in
    let first =
      copy_infos-Copies p.infos (kalloc m).1 (kalloc-IsValid m valid ne)
        (AllTaken-Keeps m (kalloc m).1 p.infos k h) y in
    let k' = Keeps-trans m (kalloc m).1 c.kmem k first.keeps in
    let later = more first.valid (ChainTaken-Keeps m c.kmem ps k' a) in
    record {
      copies = (
        CopiesOf-later m c.kmem (copy_vpi_page ps c.kmem).kmem p.infos c.list later.keeps
            (CopiesOf-earlier m (kalloc m).1 c.kmem p.infos c.list k h first.copies),
        ChainOf-earlier m c.kmem (copy_vpi_page ps c.kmem).kmem ps (copy_vpi_page ps c.kmem).list k'
            a later.copies,
      );
      own =
          Own-append m c.kmem (copy_vpi_page ps c.kmem).kmem c.list
            (chain_infos (copy_vpi_page ps c.kmem).list) k' later.keeps
            (Own-earlier m (kalloc m).1 c.kmem c.list k first.own) later.own;
      keeps = Keeps-trans m c.kmem (copy_vpi_page ps c.kmem).kmem k' later.keeps;
      valid = later.valid;
    }

copy_vpi_page-Copied :
    (ps : List VpiPage) (m : Kmem)
    → IsValid m
    → ChainTaken m ps
    → (copy_vpi_page ps m).done ≡ true
    → Copied m ps (copy_vpi_page ps m)
unfolding copy_vpi_page first_infos chain_end chain_step
copy_vpi_page-Copied [] m valid a d = record {
  copies = tt;
  own = Own-nil m m;
  keeps = λ ppn t. (t, refl);
  valid = valid;
}
copy_vpi_page-Copied (p ∷ ps) m valid (h, a) d = elim (Bool-cases ((kalloc m).0 == 0)) [
  | inl z ↦ absurd (false-ne-true (ap (λ c. c.done) (ap (chain_step p ps m) (sym z)) ∙ d))
  | inr z ↦ elim (Bool-cases (first_infos p m).done) [
    | inr y ↦ absurd (
        false-ne-true
          (ap (λ c. c.done) (sym (ap (chain_step p ps m) z ∙ ap (chain_end p ps m) y)) ∙ d))
    | inl y ↦
        let path : copy_vpi_page (p ∷ ps) m ≡ chain_end p ps m true =
          ap (chain_step p ps m) z ∙ ap (chain_end p ps m) y in
        subst (Copied m (p ∷ ps)) (sym path) (
          chain_step-Copied p ps m valid (ne_of_== (kalloc m).0 0 z) h a y (λ v t.
            copy_vpi_page-Copied ps (first_infos p m).kmem v t (ap (λ c. c.done) (sym path) ∙ d)))
  ]
]

unfoldable pub space_step : Region → Vspace → Copying VpiPage → Bool → Copying Region
unfolding vspacecopy
space_step r rs c b = elim b [
  | false ↦ copying false c.kmem (with_pages r c.list ∷ rs)
  | true ↦ cons_copy (with_pages r c.list) (vspacecopy rs c.kmem)
]

-- With a valid allocator that has given away every page in use of the space, a `vspacecopy` that
-- succeeds has, before it builds the page tables, given each of these pages a copy with the same contents
-- and permissions. The pages of the copies are all different, and none was taken before; no page that was
-- taken before is taken away or changes, and the allocator stays valid.
pub vspacecopy-SpaceCopied :
    (rs : Vspace) (m : Kmem)
    → IsValid m
    → SpaceTaken m rs
    → (vspacecopy rs m).done ≡ true
    → SpaceCopied m rs (vspacecopy rs m)
unfolding vspacecopy space_step
vspacecopy-SpaceCopied [] m valid a d = record {
  copies = tt;
  own = Own-nil m m;
  keeps = λ ppn t. (t, refl);
  valid = valid;
}
vspacecopy-SpaceCopied (r ∷ rs) m valid (h, a) d =
    elim (Bool-cases (copy_vpi_page r.pages m).done) [
      | inr y ↦ absurd (
          false-ne-true
            (ap (λ c. c.done) (ap (space_step r rs (copy_vpi_page r.pages m)) (sym y)) ∙ d))
      | inl y ↦
          let c = copy_vpi_page r.pages m in
          let first = copy_vpi_page-Copied r.pages m valid h y in
          let path : vspacecopy (r ∷ rs) m ≡ space_step r rs c true = ap (space_step r rs c) y in
          let later =
            vspacecopy-SpaceCopied rs c.kmem first.valid
              (SpaceTaken-Keeps m c.kmem rs first.keeps a) (ap (λ x. x.done) (sym path) ∙ d) in
          subst (SpaceCopied m (r ∷ rs)) (sym path) (record {
            copies = (
              (
                refl,
                refl,
                refl,
                ChainOf-later m c.kmem (vspacecopy rs c.kmem).kmem r.pages c.list later.keeps
                    first.copies,
              ),
              SpaceOf-earlier m c.kmem (vspacecopy rs c.kmem).kmem rs (vspacecopy rs c.kmem).list
                  first.keeps a later.copies,
            );
            own =
                Own-append m c.kmem (vspacecopy rs c.kmem).kmem (chain_infos c.list)
                  (space_infos (vspacecopy rs c.kmem).list) first.keeps later.keeps first.own
                  later.own;
            keeps = Keeps-trans m c.kmem (vspacecopy rs c.kmem).kmem first.keeps later.keeps;
            valid = later.valid;
          })
    ]
