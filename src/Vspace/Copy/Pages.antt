-- ===== src/Vspace/Copy/Pages.antt =====
-- What vspacecopy, kernel/vspace.c, does to the pages.
use microkernal.Common.{
  ==-of_ne, ==-refl, Bool, Bool-cases, List, [], ap, arith, false, get_elem?, get_elem?-set_ne,
  get_elem?-set_self, if◌then◌else◌, inl, inr, length, lt_of_get_elem?, ne_of_==, pgnum, refl,
  replicate, some, subst, sym, true, v2p, ℕ, ◌==◌, ◌∙◌, ◌∷◌, ◌≡◌, ◌≢◌,
}
use microkernal.Kalloc.{Kmem, kalloc, Entry}
use microkernal.Kalloc.Invariant.{IsValid}
use microkernal.Kalloc.Alloc.{kalloc-IsValid, kalloc-Allocates}
use microkernal.Vspace.{Vpi, blank_vpi}
use microkernal.Vspace.Mapping.{set_frame-IsValid}
use microkernal.Vspace.Copy.{
  failed_vpi, Copying, copying, cons_copy, copied_vpi, copy_frame, copy_infos,
}
use microkernal.Vspace.Copy.Owners.{
  Taken, Keeps, Keeps-trans, AllTaken, AllTaken-Keeps, Own, Own-nil, Own-append,
}

-- A page that `kalloc` has returned: its number, that it was available, and that it is taken.
pub record Fresh (m : Kmem) : Type 0 where
  pub number : ℕ
  pub is_number : pgnum (v2p (kalloc m).0) ≡ number
  pub was_free : (e : Entry) → get_elem? m.core_map number ≡ some e → e.available ≡ 1
  pub now_taken : Taken (kalloc m).1 number
  pub rest : (ppn : ℕ) → number ≢ ppn → Taken m ppn → Taken (kalloc m).1 ppn
  pub frames : (kalloc m).1.frame ≡ m.frame

pub kalloc-Fresh : (m : Kmem) → IsValid m → (kalloc m).0 ≢ 0 → Fresh m
kalloc-Fresh m v h = elim (kalloc-Allocates m) [
  | inr (n, r) ↦ absurd (h (ap (λ x. x.0) r))
  | inl (i, e, f, r) ↦
      let lt = lt_of_get_elem? m.core_map i f.0 in
      record {
        number = i;
        is_number = ap (λ x. pgnum (v2p x.0)) r ∙ omega (arith, v.sized, v.small);
        was_free = λ x at. ground (arith, f.0, f.1);
        now_taken =
            rw r (
              record e { available = 0; ref = 1 },
              get_elem?-set_self m.core_map i _ lt,
              λ z. cc z,
            );
        rest = λ ppn ne (x, at, used). rw r (x, get_elem?-set_ne m.core_map i ppn _ ne ∙ at, used);
        frames = ap (λ x. x.1.frame) r;
      }
]

-- `w` is a copy of `v`: the same flags, and a page that holds what the page of `v` held in `m`.
abbrev pub CopyOf : Kmem → Vpi → Kmem → Vpi → Type 0
CopyOf m v m' w =
    (w.used ≡ v.used)
    × (v.used ≡ true
        → (w.present ≡ v.present)
          × (w.writable ≡ v.writable)
          × (m'.frame w.ppn ≡ m.frame v.ppn)
          × (w.ppn ≢ v.ppn)
          × Taken m' w.ppn)

-- Entry by entry.
abbrev pub CopiesOf : Kmem → List Vpi → Kmem → List Vpi → Type 0
CopiesOf m [] m' [] = Unit {0}
CopiesOf m [] m' (w ∷ ws) = ⊥
CopiesOf m (v ∷ vs) m' [] = ⊥
CopiesOf m (v ∷ vs) m' (w ∷ ws) = CopyOf m v m' w × CopiesOf m vs m' ws

-- A copy of pages that are as they were is a copy of the pages as they were before.
pub CopiesOf-earlier :
    (m n m' : Kmem) (vs ws : List Vpi)
    → Keeps m n
    → AllTaken m vs
    → CopiesOf n vs m' ws
    → CopiesOf m vs m' ws
CopiesOf-earlier m n m' [] [] k a c = tt
CopiesOf-earlier m n m' [] (w ∷ ws) k a c = c
CopiesOf-earlier m n m' (v ∷ vs) [] k a c = c
CopiesOf-earlier m n m' (v ∷ vs) (w ∷ ws) k (h, a) ((same, copy), c) = (
  (
    same,
    λ u. let (p, wr, bytes, ne, taken) = copy u in (p, wr, bytes ∙ (k v.ppn (h u)).1, ne, taken),
  ),
  CopiesOf-earlier m n m' vs ws k a c,
)

-- One page copied: what was taken is kept, and the new page holds the contents of the old.
module _ (m : Kmem) (valid : IsValid m) (v : Vpi) (h : (kalloc m).0 ≢ 0) where
  fresh : Fresh m
  fresh = kalloc-Fresh m valid h

  other_frame : (ppn : ℕ) → fresh.number ≢ ppn → (copy_frame m v).frame ppn ≡ m.frame ppn
  other_frame ppn ne =
      ap (λ b. if b then m.frame v.ppn else (kalloc m).1.frame ppn)
        (==-of_ne (pgnum (v2p (kalloc m).0)) ppn (λ e. ne (sym fresh.is_number ∙ e)))
      ∙ ap (λ f. f ppn) fresh.frames

  not_fresh : (ppn : ℕ) → Taken m ppn → fresh.number ≢ ppn
  not_fresh ppn (e, at, used) z = used (fresh.was_free e (ap (get_elem? m.core_map) z ∙ at))

  copy_frame-Keeps : Keeps m (copy_frame m v)
  copy_frame-Keeps ppn t = (fresh.rest ppn (not_fresh ppn t) t, other_frame ppn (not_fresh ppn t))

  copy_frame-IsValid : IsValid (copy_frame m v)
  copy_frame-IsValid =
      set_frame-IsValid (kalloc m).1 (kalloc m).0 (m.frame v.ppn) (kalloc-IsValid m valid h)

  new_frame : (copy_frame m v).frame (pgnum (v2p (kalloc m).0)) ≡ m.frame v.ppn
  new_frame =
      ap (λ b. if b then m.frame v.ppn else (kalloc m).1.frame (pgnum (v2p (kalloc m).0)))
        (==-refl (pgnum (v2p (kalloc m).0)))

  new-Taken : Taken (copy_frame m v) (pgnum (v2p (kalloc m).0))
  new-Taken = subst (Taken (kalloc m).1) (sym fresh.is_number) fresh.now_taken

  new_free : ¬ Taken m (pgnum (v2p (kalloc m).0))
  new_free t = not_fresh _ t (sym fresh.is_number)

  new_ne : Taken m v.ppn → pgnum (v2p (kalloc m).0) ≢ v.ppn
  new_ne t z = not_fresh v.ppn t (sym fresh.is_number ∙ z)

pub record Copies (m : Kmem) (vs : List Vpi) (c : Copying Vpi) : Type 0 where
  pub copies : CopiesOf m vs c.kmem c.list
  pub own : Own m c.list c.kmem
  pub keeps : Keeps m c.kmem
  pub valid : IsValid c.kmem

abbrev copy_used : List Vpi → Kmem → Vpi → Bool → Copying Vpi
unfolding copy_infos
copy_used vs m v b = elim b [
  | true ↦ copying false (kalloc m).1 (failed_vpi v ∷ replicate (length vs) blank_vpi)
  | false ↦ cons_copy (copied_vpi (kalloc m).0 v) (copy_infos vs (copy_frame m v))
]

copy_infos-eq :
    (v : Vpi) (vs : List Vpi) (m : Kmem)
    → copy_infos (v ∷ vs) m ≡ elim v.used [
      | false ↦ cons_copy blank_vpi (copy_infos vs m)
      | true ↦ copy_used vs m v ((kalloc m).0 == 0)
    ]
unfolding copy_infos copy_used
copy_infos-eq v vs m = refl

abbrev pick : List Vpi → Kmem → Vpi → Bool → Copying Vpi
unfolding copy_used
pick vs m v b = elim b [
  | false ↦ cons_copy blank_vpi (copy_infos vs m)
  | true ↦ copy_used vs m v ((kalloc m).0 == 0)
]

unused-Copies :
    (v : Vpi) (vs : List Vpi) (m : Kmem)
    → v.used ≡ false
    → Copies m vs (copy_infos vs m)
    → Copies m (v ∷ vs) (cons_copy blank_vpi (copy_infos vs m))
unused-Copies v vs m u c = record {
  copies = ((sym u, λ z. absurd (cc z)), c.copies);
  own = record {
    new = (λ z. absurd (cc z), c.own.new);
    taken = (λ z. absurd (cc z), c.own.taken);
    distinct = (λ z. absurd (cc z), c.own.distinct);
  };
  keeps = c.keeps;
  valid = c.valid;
}

used-Copies :
    (v : Vpi) (vs : List Vpi) (m : Kmem) (valid : IsValid m)
    → v.used ≡ true
    → Taken m v.ppn
    → AllTaken m vs
    → (h : (kalloc m).0 ≢ 0) → Copies (copy_frame m v) vs (copy_infos vs (copy_frame m v))
    → Copies m (v ∷ vs) (cons_copy (copied_vpi (kalloc m).0 v) (copy_infos vs (copy_frame m v)))
used-Copies v vs m valid u t a h c =
    let n = copy_frame m v in
    let keep = copy_frame-Keeps m valid v h in
    let (kept, same) = c.keeps (pgnum (v2p (kalloc m).0)) (new-Taken m valid v h) in
    record {
      copies = (
        (refl, λ z. (refl, refl, same ∙ new_frame m valid v h, new_ne m valid v h t, kept)),
        CopiesOf-earlier m n (copy_infos vs n).kmem vs (copy_infos vs n).list keep a c.copies,
      );
      own =
          Own-append m n (copy_infos vs n).kmem (copied_vpi (kalloc m).0 v ∷ [])
            (copy_infos vs n).list keep c.keeps
            (record {
              new = (λ z f. new_free m valid v h f, tt);
              taken = (λ z. new-Taken m valid v h, tt);
              distinct = (λ z. tt, tt);
            })
            c.own;
      keeps = Keeps-trans m n (copy_infos vs n).kmem keep c.keeps;
      valid = c.valid;
    }

pub copy_infos-Copies :
    (vs : List Vpi) (m : Kmem)
    → IsValid m
    → AllTaken m vs
    → (copy_infos vs m).done ≡ true
    → Copies m vs (copy_infos vs m)
unfolding copy_infos pick copy_used
copy_infos-Copies [] m valid a d = record {
  copies = tt;
  own = Own-nil m m;
  keeps = λ ppn t. (t, refl);
  valid = valid;
}
copy_infos-Copies (v ∷ vs) m valid (h, a) d = elim (Bool-cases v.used) [
  | inr u ↦
      let run : copy_infos (v ∷ vs) m ≡ cons_copy blank_vpi (copy_infos vs m) =
        ap (pick vs m v) u in
      subst (Copies m (v ∷ vs)) (sym run)
        (unused-Copies v vs m u (copy_infos-Copies vs m valid a (ap (λ c. c.done) (sym run) ∙ d)))
  | inl u ↦ elim (Bool-cases ((kalloc m).0 == 0)) [
    | inl z ↦
        let run : copy_infos (v ∷ vs) m ≡ copy_used vs m v true =
          ap (pick vs m v) u ∙ ap (copy_used vs m v) z in
        absurd (false-ne-true (ap (λ c. c.done) (sym run) ∙ d))
    | inr z ↦
        let run : copy_infos (v ∷ vs) m ≡ copy_used vs m v false =
          ap (pick vs m v) u ∙ ap (copy_used vs m v) z in
        let ne = ne_of_== (kalloc m).0 0 z in
        subst (Copies m (v ∷ vs)) (sym run) (
          used-Copies v vs m valid u (h u) a ne (
            copy_infos-Copies vs (copy_frame m v) (copy_frame-IsValid m valid v ne)
              (AllTaken-Keeps m (copy_frame m v) vs (copy_frame-Keeps m valid v ne) a)
              (ap (λ c. c.done) (sym run) ∙ d)))
  ]
]
  where
    false-ne-true : false ≡ true → ⊥
    false-ne-true e = cc e
