-- ===== src/Vspace/Copy/Failure.antt =====
-- What a failed vspacecopy, kernel/vspace.c, leaves.
use microkernal.Common.{
  Bool-cases, List, [], ap, false, inl, inr, refl, sym, true, ◌++◌, ◌∙◌, ◌∷◌, ◌≡◌,
}
use microkernal.Kalloc.{Kmem}
use microkernal.Vspace.{VpiPage, Region, Vspace, with_pages}
use microkernal.Vspace.Copy.{Copying, cons_copy, copy_vpi_page, vspacecopy}
use microkernal.Vspace.Copy.Spaces.{space_step}

-- How a failed copy of the space `rs` ends: the regions `before` were copied, the copy of `r` failed, and
-- the regions `after` still have the pages of entries of the source.
pub record Shares (rs : Vspace) (m : Kmem) (c : Copying Region) : Type 0 where
  pub before : Vspace
  pub r : Region
  pub after : Vspace
  pub pages : List VpiPage
  pub split : rs ≡ before ++ (r ∷ after)
  pub copied : (vspacecopy before m).done ≡ true
  pub failed : (copy_vpi_page r.pages (vspacecopy before m).kmem).done ≡ false
  pub left : c.list ≡ (vspacecopy before m).list ++ (with_pages r pages ∷ after)

Shares-cons :
    (r : Region) (rs : Vspace) (m : Kmem)
    → (copy_vpi_page r.pages m).done ≡ true
    → Shares rs (copy_vpi_page r.pages m).kmem (vspacecopy rs (copy_vpi_page r.pages m).kmem)
    → Shares (r ∷ rs) m (vspacecopy (r ∷ rs) m)
unfolding vspacecopy space_step
Shares-cons r rs m y s =
    let c = copy_vpi_page r.pages m in
    let run : (qs : Vspace)
        → vspacecopy (r ∷ qs) m ≡ cons_copy (with_pages r c.list) (vspacecopy qs c.kmem) =
      λ qs. ap (space_step r qs c) y in
    record {
      before = r ∷ s.before;
      r = s.r;
      after = s.after;
      pages = s.pages;
      split = ap (λ l. r ∷ l) s.split;
      copied = ap (λ x. x.done) (run s.before) ∙ s.copied;
      failed =
          ap (λ (x : Copying Region). (copy_vpi_page s.r.pages x.kmem).done) (run s.before)
          ∙ s.failed;
      left =
          ap (λ (x : Copying Region). x.list) (run rs)
          ∙ ap (λ l. with_pages r c.list ∷ l) s.left
          ∙ sym (
              ap (λ (x : Copying Region). x.list ++ (with_pages s.r s.pages ∷ s.after))
                (run s.before));
    }

-- Whenever `vspacecopy` fails, the copy of some region has failed, and all regions behind that one are
-- left with the source's own pages of entries.
pub vspacecopy_failure-Shares :
    (rs : Vspace) (m : Kmem) → (vspacecopy rs m).done ≡ false → Shares rs m (vspacecopy rs m)
unfolding vspacecopy space_step
vspacecopy_failure-Shares [] m d = absurd (cc d)
vspacecopy_failure-Shares (r ∷ rs) m d = elim (Bool-cases (copy_vpi_page r.pages m).done) [
  | inr y ↦ record {
    before = [];
    r = r;
    after = rs;
    pages = (copy_vpi_page r.pages m).list;
    split = refl;
    copied = refl;
    failed = y;
    left = ap (λ b. (space_step r rs (copy_vpi_page r.pages m) b).list) y;
  }
  | inl y ↦ Shares-cons r rs m y (
      vspacecopy_failure-Shares rs (copy_vpi_page r.pages m).kmem
        (ap (λ b. (space_step r rs (copy_vpi_page r.pages m) b).done) (sym y) ∙ d))
]
