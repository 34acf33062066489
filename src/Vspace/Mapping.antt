-- ===== src/Vspace/Mapping.antt =====
-- vregionaddmap, kernel/vspace.c.
use microkernal.Common.{
  ==-of_ne, ==-refl, Bool, Bool-cases, List, Option, Option-cases, Outcome, [], add64, ap, arith,
  eq_of_==, false, get_elem?, if◌then◌else◌, inl, inr, kernbase, leb, length, length-set, ltb,
  ne_of_==, none, ok, panic, pground_up, pgsize, refl, replicate, some, subst, suc, sym, true, zero,
  ℕ, ◌%◌, ◌*◌, ◌+◌, ◌-◌, ◌/◌, ◌<◌, ◌==◌, ◌>>=◌, ◌^◌, ◌∙◌, ◌≡◌, ◌≢◌, ◌≤◌, ◌⊎◌,
}
use microkernal.Kalloc.Invariant.{IsValid}
use microkernal.Kalloc.Alloc.{kalloc-IsValid}
use microkernal.Vspace.{
  vregionaddmap, result, minus_one, va2vpage_info, addmap_loop, map_at, vm, kalloc, mapped_vpi,
  map_page, set_frame, continue_if, Kmem, with_pages, Vpi, vpippage, VpiPage, Region, Vm,
  va2vpi_idx, get_info, set_info, put_info,
}
use microkernal.Vspace.Lookup.{
  va2vpage_info-Finds, set_info-IsChain, Finds, IsChain, Extends, Extends-get_info,
  get_info-set_info,
}

abbrev pub IsMapped : (present writable : Bool) → Vpi → Type 0
IsMapped present writable v = (v.used ≡ true) × (v.present ≡ present) × (v.writable ≡ writable)

-- `va` is one of the addresses that the loop from `a` visits before `end`.
abbrev pub Visits : (a end va : ℕ) → Type 0
Visits a end va = (a ≤ va) × (va < end) × ((va - a) % 4096 ≡ 0)

-- What the loop from `a` to `end` has done when it ends well.
pub record Mapped (s : Vm) (a end : ℕ) (present writable : Bool) (t : Vm) : Type 0 where
  pub chain : IsChain t.region.pages
  pub shape : t.region ≡ with_pages s.region t.region.pages
  pub mapped :
      (va : ℕ)
      → Visits a end va
      → IsMapped present writable (get_info t.region.pages (va2vpi_idx s.region va))
  pub others :
      (j : ℕ)
      → ((va : ℕ) → Visits a end va → va2vpi_idx s.region va ≢ j)
      → get_info t.region.pages j ≡ get_info s.region.pages j
  pub kept :
      (j : ℕ)
      → IsMapped present writable (get_info s.region.pages j)
      → IsMapped present writable (get_info t.region.pages j)
  pub valid : IsValid s.kmem → IsValid t.kmem

-- How the loop ends. Out of memory, `false`; a panic only in a region with no page of entries.
abbrev pub MapEnds : Vm → (a end : ℕ) → (present writable : Bool) → Outcome (Bool × Vm) → Type 0
MapEnds s a end present writable panic = s.region.pages ≡ []
MapEnds s a end present writable (ok (false, t)) = IsChain t.region.pages
MapEnds s a end present writable (ok (true, t)) = Mapped s a end present writable t

done-Mapped :
    (s : Vm) (a end : ℕ) (present writable : Bool)
    → IsChain s.region.pages
    → end ≤ a
    → Mapped s a end present writable s
done-Mapped s a end present writable c h = record {
  chain = c;
  shape = refl;
  mapped = λ va (lo, hi, z). absurd (omega arith);
  others = λ j n. refl;
  kept = λ j m. m;
  valid = λ v. v;
}

idx-same :
    (r q : Region) (va : ℕ) (ps : List VpiPage)
    → q ≡ with_pages r ps
    → va2vpi_idx q va ≡ va2vpi_idx r va
idx-same r q va ps e = ap (λ x. va2vpi_idx x va) e

-- The rest of the loop, after one page has been mapped in `t`, which the lookup has left.
next-Mapped :
    (s t u w : Vm) (a end i : ℕ) (present writable : Bool) (v : Vpi)
    → a < end
    → IsChain s.region.pages
    → Extends s.region.pages t.region.pages
    → t.region ≡ with_pages s.region t.region.pages
    → i ≡ va2vpi_idx s.region a
    → i / vpippage < length t.region.pages
    → IsMapped present writable v
    → u.region ≡ put_info t.region i v
    → (IsValid s.kmem → IsValid u.kmem)
    → Mapped u (a + 4096) end present writable w
    → Mapped s a end present writable w
next-Mapped s t u w a end i present writable v lt c ext shape is_i small is_mapped put valid m =
    record {
      chain = m.chain;
      shape =
          m.shape
          ∙ ap (λ r. with_pages r w.region.pages)
              (put ∙ ap (λ r. with_pages r (set_info t.region.pages i v)) shape);
      mapped = mapped;
      others = λ j n.
          m.others j (λ va (lo, hi, z). λ e. n va (omega arith, hi, omega arith) (sym (idx va) ∙ e))
          ∙ entries j
          ∙ ap (λ b. if b then v else get_info t.region.pages j)
              (==-of_ne i j (λ e. n a (omega arith, lt, omega arith) (sym is_i ∙ e)))
          ∙ Extends-get_info s.region.pages t.region.pages ext j;
      kept = λ j k. m.kept j (subst (IsMapped present writable) (sym (entries j)) (choose j k));
      valid = λ z. m.valid (valid z);
    }
  where
    idx : (va : ℕ) → va2vpi_idx u.region va ≡ va2vpi_idx s.region va
    idx va = ap (λ r. va2vpi_idx r va) put ∙ ap (λ r. va2vpi_idx r va) shape

    entries :
        (j : ℕ) → get_info u.region.pages j ≡ (if i == j then v else get_info t.region.pages j)
    entries j =
        ap (λ r. get_info r.pages j) put
        ∙ get_info-set_info t.region.pages i j v (ext.chain c) small

    choose :
        (j : ℕ)
        → IsMapped present writable (get_info s.region.pages j)
        → IsMapped present writable (if i == j then v else get_info t.region.pages j)
    choose j k = elim (Bool-cases (i == j)) [
      | inl e ↦ rw e is_mapped
      | inr e ↦ rw e (
          subst (IsMapped present writable)
            (sym (Extends-get_info s.region.pages t.region.pages ext j)) k)
    ]

    here : IsMapped present writable (get_info u.region.pages i)
    here =
        subst (IsMapped present writable)
          (sym (entries i ∙ ap (λ b. if b then v else get_info t.region.pages i) (==-refl i)))
          is_mapped

    mapped :
        (va : ℕ)
        → Visits a end va
        → IsMapped present writable (get_info w.region.pages (va2vpi_idx s.region va))
    mapped va (lo, hi, z) = elim (Bool-cases (va == a)) [
      | inl e ↦
          subst (λ k. IsMapped present writable (get_info w.region.pages k))
            (is_i ∙ ap (va2vpi_idx s.region) (sym (eq_of_== va a e))) (m.kept i here)
      | inr e ↦
          let ne = ne_of_== va a e in
          subst (λ k. IsMapped present writable (get_info w.region.pages k)) (idx va)
            (m.mapped va (omega arith, hi, omega arith))
    ]

pub set_frame-IsValid :
    (m : Kmem) (a : ℕ) (bytes : List ℕ) → IsValid m → IsValid (set_frame m a bytes)
set_frame-IsValid m a bytes v = record {
  sized = v.sized;
  small = v.small;
  in_use = v.in_use;
  counted = v.counted;
  clean = v.clean;
}

-- What the lookup of `a` and the mapping of its page leave for the rest of the loop.
abbrev Rest : (s : Vm) (a end : ℕ) (present writable : Bool) → (Vm → Outcome (Bool × Vm)) → Type 0
Rest s a end present writable next =
    (u : Vm) → IsChain u.region.pages → MapEnds u (a + 4096) end present writable (next u)

pages-ne_nil : (ps : List VpiPage) (k : ℕ) → k < length ps → ps ≢ []
pages-ne_nil ps k h e = omega (arith, ap length e)

set_info-length : (ps : List VpiPage) (i : ℕ) (v : Vpi) → length (set_info ps i v) ≡ length ps
set_info-length ps i v = elim (Option-cases (get_elem? ps (i / vpippage))) [
  | inl n ↦ rw (n, set_info) refl
  | inr (p, at) ↦ rw (at, set_info) (length-set ps (i / vpippage) _)
]

module _ (s t : Vm) (a end : ℕ) (present writable : Bool) (next : Vm → Outcome (Bool × Vm))
    (lt : a < end) (c : IsChain s.region.pages) (ext : Extends s.region.pages t.region.pages)
    (shape : t.region ≡ with_pages s.region t.region.pages)
    (rest : Rest s a end present writable next) where
  step-ends :
      va2vpi_idx s.region a / vpippage < length t.region.pages
      → (IsValid s.kmem → IsValid t.kmem)
      → MapEnds s a end present writable
          (continue_if next (map_page present writable (va2vpi_idx s.region a) t))
  step-ends small valid = elim (Bool-cases ((kalloc t.kmem).0 == 0)) [
    | inl z ↦ rw z (ext.chain c)
    | inr z ↦ rw z (ends (ne_of_== (kalloc t.kmem).0 0 z) (next u) (rest u chain))
  ]
    where
      i : ℕ
      i = va2vpi_idx s.region a

      v : Vpi
      v = mapped_vpi present writable (kalloc t.kmem).0 (get_info t.region.pages i)

      u : Vm
      u =
          vm (set_frame (kalloc t.kmem).1 (kalloc t.kmem).0 (replicate pgsize 0))
            (put_info t.region i v)

      chain : IsChain u.region.pages
      chain = set_info-IsChain t.region.pages i v (ext.chain c)

      keeps : (kalloc t.kmem).0 ≢ 0 → IsValid s.kmem → IsValid u.kmem
      keeps n z =
          set_frame-IsValid (kalloc t.kmem).1 (kalloc t.kmem).0 (replicate pgsize 0)
            (kalloc-IsValid t.kmem (valid z) n)

      ends :
          (kalloc t.kmem).0 ≢ 0
          → (r : Outcome (Bool × Vm)) → MapEnds u (a + 4096) end present writable r
          → MapEnds s a end present writable r
      ends n panic e = absurd (
          pages-ne_nil u.region.pages (i / vpippage)
            (omega (arith, set_info-length t.region.pages i v, small)) e)
      ends n (ok (false, w)) e = e
      ends n (ok (true, w)) e =
          next-Mapped s t u w a end i present writable v lt c ext shape refl small
            (refl, refl, refl) refl (keeps n) e

  lookup-ends :
      (o : Option ℕ)
      → ((o ≡ none)
          ⊎ ((o ≡ some (va2vpi_idx s.region a))
              × (va2vpi_idx s.region a / vpippage < length t.region.pages)
              × (IsValid s.kmem → IsValid t.kmem)))
      → MapEnds s a end present writable (continue_if next (map_at present writable (o, t)))
  lookup-ends o (inl e) = rw e (ext.chain c)
  lookup-ends o (inr (e, small, valid)) = rw e (step-ends small valid)

-- One round, with the rest of the loop as `next`.
round-ends :
    (s : Vm) (a end : ℕ) (present writable : Bool) (next : Vm → Outcome (Bool × Vm))
    → a < end
    → IsChain s.region.pages
    → Rest s a end present writable next
    → (r : Outcome (Option ℕ × Vm)) → Finds s a r
    → MapEnds s a end present writable (r >>= λ e. continue_if next (map_at present writable e))
round-ends s a end present writable next lt c rest panic f = f.0
round-ends s a end present writable next lt c rest (ok (o, t)) (ext, shape, ends) =
    lookup-ends s t a end present writable next lt c ext shape rest o ends

loop-ends :
    (fuel a end : ℕ) (present writable : Bool) (s : Vm)
    → IsChain s.region.pages
    → a < end
    → Rest s a end present writable (addmap_loop fuel (add64 a pgsize) end present writable)
    → MapEnds s a end present writable (addmap_loop (suc fuel) a end present writable s)
unfolding addmap_loop
loop-ends fuel a end present writable s c lt rest =
    let e : ltb a end ≡ true = ground arith in
    rw (e, addmap_loop)
      (round-ends s a end present writable (addmap_loop fuel (add64 a pgsize) end present writable)
        lt c rest (va2vpage_info s a) (va2vpage_info-Finds s a))

addmap_loop-MapEnds :
    (fuel a end : ℕ) (present writable : Bool) (s : Vm)
    → IsChain s.region.pages
    → end ≤ a + fuel * 4096
    → end < kernbase
    → MapEnds s a end present writable (addmap_loop (suc fuel) a end present writable s)
unfolding addmap_loop
addmap_loop-MapEnds zero a end present writable s c enough low =
    let e : ltb a end ≡ false = ground arith in
    rw (e, addmap_loop) (done-Mapped s a end present writable c (omega arith))
addmap_loop-MapEnds (suc fuel) a end present writable s c enough low =
    elim (Bool-cases (ltb a end)) [
      | inr e ↦ rw (e, addmap_loop) (done-Mapped s a end present writable c (ground arith))
      | inl e ↦
          let lt : a < end = ground arith in
          let next : add64 a pgsize ≡ a + 4096 = omega arith in
          loop-ends (suc fuel) a end present writable s c lt (λ u cu.
            rw next
              (addmap_loop-MapEnds fuel (a + 4096) end present writable u cu (omega arith) low))
    ]

-- How `vregionaddmap` ends: with -1, or with `sz` and every page mapped.
abbrev pub AddEnds : Vm → (from_va sz : ℕ) → (present writable : Bool) → Outcome (ℕ × Vm) → Type 0
AddEnds s from_va sz present writable panic = s.region.pages ≡ []
AddEnds s from_va sz present writable (ok (n, t)) =
    ((n ≡ minus_one) × IsChain t.region.pages)
    ⊎ ((n ≡ sz % 2 ^ 32) × Mapped s (pground_up from_va) (from_va + sz) present writable t)

result-ends :
    (s : Vm) (from_va sz : ℕ) (present writable : Bool) (r : Outcome (Bool × Vm))
    → MapEnds s (pground_up from_va) (from_va + sz) present writable r
    → AddEnds s from_va sz present writable (r >>= result sz)
result-ends s from_va sz present writable panic e = e
result-ends s from_va sz present writable (ok (false, t)) e = inl (refl, e)
result-ends s from_va sz present writable (ok (true, t)) e = inr (refl, e)

-- In a region whose pages of entries are full-sized, `vregionaddmap` over a range that does not
-- wrap ends within its fuel with -1, or with `sz`: then each page of the range is in use with the
-- permissions asked for, no other entry has changed, and a valid allocator is valid still. It
-- panics only in a region that has no page of entries yet.
pub vregionaddmap-AddEnds :
    (s : Vm) (from_va sz : ℕ) (present writable : Bool)
    → IsChain s.region.pages
    → from_va + sz < 2 ^ 64
    → AddEnds s from_va sz present writable (vregionaddmap s from_va sz present writable)
unfolding vregionaddmap
vregionaddmap-AddEnds s from_va sz present writable c small =
    let e1 : add64 sz from_va ≡ from_va + sz = omega arith in
    let e2 : add64 from_va sz ≡ from_va + sz = omega arith in
    elim (Bool-cases (leb kernbase (add64 sz from_va))) [
      | inl h ↦ rw h (inl (refl, c))
      | inr h ↦ elim (Bool-cases (sz == 0)) [
        | inl z ↦
            let zero_size = eq_of_== sz 0 z in
            rw (h, z)
              (inr (
                omega arith,
                done-Mapped s (pground_up from_va) (from_va + sz) present writable c (ground arith),
              ))
        | inr z ↦
            rw (h, z, e2)
              (result-ends s from_va sz present writable
                (addmap_loop (suc (suc (sz / pgsize))) (pground_up from_va) (from_va + sz) present
                  writable s)
                (addmap_loop-MapEnds (suc (sz / pgsize)) (pground_up from_va) (from_va + sz) present
                  writable s c (ground arith) (ground arith)))
      ]
    ]
