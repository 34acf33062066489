-- ===== src/PageTable/Writes.antt =====
-- What a write to one entry changes in the map that the page tables stand for.
use microkernal.Common.{
  ==-of_ne, ==-refl, Bool, Bool-cases, List, Option, ap, ap₂, arith, false, inl, inr, none, refl,
  some, suc, sym, true, zero, ℕ, ◌&&◌, ◌==◌, ◌∙◌, ◌≡◌, ◌≢◌,
}
use microkernal.Guest.{zero_pte}
use microkernal.PageTable.{TableEntry, Tables, clear, index, table_entry, write_entry}
use microkernal.PageTable.Frames.{IsTree, Owner, prefix_of, prefix_step, translate}

pub own_ne : (own : Owner) (a b : ℕ) {x y : Option (ℕ × ℕ)} → own a ≡ x → own b ≡ y → x ≢ y → a ≢ b
own_ne own a b ex ey ne e = ne (sym ex ∙ ap own e ∙ ey)

abbrev pub level_of : Option (ℕ × ℕ) → ℕ
level_of none = 0
level_of (some (l, x)) = l

abbrev pub prefix_part : Option (ℕ × ℕ) → ℕ
prefix_part none = 0
prefix_part (some (l, x)) = x

pub and_false : (a b : Bool) → a ≡ false → (a && b) ≡ false
and_false a b e = rw e refl

-- An entry that is not the one written, nor in the table cleared.
pub write_entry-other :
    (f i : ℕ) (e : TableEntry) (s : Tables) (h j : ℕ)
    → (h == f && j == i) ≡ false
    → (write_entry f i e s).entry h j ≡ s.entry h j
write_entry-other f i e s h j no_write = rw no_write refl

pub level_ne : (l : ℕ) {a b : ℕ} → ◌≢◌ {A = Option (ℕ × ℕ)} (some (suc l, a)) (some (0, b))
level_ne l q = absurd (omega (arith, ap level_of q))

same_number : (p v : ℕ) → prefix_of 0 p ≡ prefix_of 0 v → index 0 p ≡ index 0 v → p ≡ v
unfolding index
same_number p v e e' = omega arith

-- The entry of another page of a last table.
other_entry :
    (own : Owner) (f k v p : ℕ)
    → own k ≡ some (0, prefix_of 0 p)
    → own f ≡ some (0, prefix_of 0 v)
    → p ≢ v
    → (k == f && index 0 p == index 0 v) ≡ false
other_entry own f k v p ek ef ne = elim (Bool-cases (k == f)) [
  | inr e ↦ and_false _ _ e
  | inl e ↦
      let q : k ≡ f = ground arith in
      let x = ap prefix_part (sym ek ∙ ap own q ∙ ef) in
      rw e (==-of_ne _ _ (λ y. ne (same_number p v x y)))
]

-- From an empty table on nothing is mapped.
translate-empty :
    (level g p : ℕ) (s : Tables)
    → ((j : ℕ) → s.entry g j ≡ zero_pte)
    → translate level g p s ≡ zero_pte
unfolding translate
translate-empty zero g p s e = e (index 0 p)
translate-empty (suc level) g p s e = rw (e (index (suc level) p)) refl

pub same_entry : (s : Tables) (h j f i : ℕ) → (h == f && j == i) ≡ true → s.entry h j ≡ s.entry f i
same_entry s h j f i e =
    let a : h ≡ f = ground arith in let b : j ≡ i = ground arith in ap₂ s.entry a b

module _ (own : Owner) (s : Tables) (tree : IsTree own s) where
  -- The next table on the way to a page.
  pub below :
      (level h p : ℕ)
      → own h ≡ some (suc level, prefix_of (suc level) p)
      → (s.entry h (index (suc level) p)).present ≡ true
      → own (s.entry h (index (suc level) p)).ppn ≡ some (level, prefix_of level p)
  below level h p o there =
      tree.linked h level (prefix_of (suc level) p) (index (suc level) p) o there
      ∙ ap (λ n. some (level, n)) (prefix_step level p)

  module _ (s' : Tables) (p : ℕ)
      (same : (level h : ℕ)
        → own h ≡ some (suc level, prefix_of (suc level) p)
        → s'.entry h (index (suc level) p) ≡ s.entry h (index (suc level) p))
      (last : (h : ℕ)
        → own h ≡ some (0, prefix_of 0 p)
        → s'.entry h (index 0 p) ≡ s.entry h (index 0 p)) where
    -- The map is the same at a page where the entries on the way are.
    translate-same :
        (level h : ℕ)
        → own h ≡ some (level, prefix_of level p)
        → translate level h p s' ≡ translate level h p s
    unfolding translate
    translate-same zero h o = last h o
    translate-same (suc level) h o = elim (Bool-cases (s.entry h (index (suc level) p)).present) [
      | inl there ↦
          rw (same level h o) (rw there (translate-same level _ (below level h p o there)))
      | inr gone ↦ rw (same level h o) (rw gone refl)
    ]

  -- An entry of the last level is written: the map is as before at all other pages.
  pub translate-write_entry :
      (f v : ℕ) (e : TableEntry) (level h p : ℕ)
      → own f ≡ some (0, prefix_of 0 v)
      → p ≢ v
      → own h ≡ some (level, prefix_of level p)
      → translate level h p (write_entry f (index 0 v) e s) ≡ translate level h p s
  translate-write_entry f v e level h p here ne o =
      translate-same (write_entry f (index 0 v) e s) p
        (λ l k ok'.
          write_entry-other f (index 0 v) e s k (index (suc l) p)
            (and_false _ _ (==-of_ne k f (own_ne own k f ok' here (level_ne l)))))
        (λ k ok'.
          write_entry-other f (index 0 v) e s k (index 0 p) (other_entry own f k v p ok' here ne))
        level h o

  -- A new table, empty, is put at an entry above the last level: the map is as before.
  pub translate-new :
      (f i l x g : ℕ) (gs : List ℕ)
      → own f ≡ some (suc l, x)
      → own g ≡ none
      → (s.entry f i).present ≡ false
      → (level h p : ℕ) → own h ≡ some (level, prefix_of level p)
      → translate level h p (write_entry f i (table_entry g) (clear g (record s { free = gs })))
        ≡ translate level h p s
  unfolding translate
  translate-new f i l x g gs ef eg gone zero h p o =
      let h_f = ==-of_ne h f (own_ne own h f o ef (λ q. level_ne l (sym q))) in
      let h_g = ==-of_ne h g (own_ne own h g o eg (λ q. cc)) in rw h_f (rw h_g refl)
  translate-new f i l x g gs ef eg gone (suc level) h p o =
      let j = index (suc level) p in
      let h_g = ==-of_ne h g (own_ne own h g o eg (λ q. cc)) in
      let g_f = ==-of_ne g f (own_ne own g f eg ef (λ q. cc)) in
      let s' = write_entry f i (table_entry g) (clear g (record s { free = gs })) in
      elim (Bool-cases (h == f && j == i)) [
        | inl e ↦
            let at : s.entry h j ≡ s.entry f i = same_entry s h j f i e in
            let empty : (k : ℕ) → s'.entry g k ≡ zero_pte = λ k. rw g_f (rw (==-refl g) refl) in
            rw e (
              translate-empty level g p s' empty
              ∙ sym (rw (ap (λ (y : TableEntry). y.present) at ∙ gone) refl))
        | inr e ↦ rw e (
            rw h_g (elim (Bool-cases (s.entry h j).present) [
              | inl there ↦
                  rw there
                    (translate-new f i l x g gs ef eg gone level _ p (below level h p o there))
              | inr none_there ↦ rw none_there refl
            ]))
      ]
