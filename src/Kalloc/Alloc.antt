-- ===== src/Kalloc/Alloc.antt =====
-- kalloc, kernel/kalloc.c.
use microkernal.Common.{
  ==-of_ne, Option-cases, arith, count_if, count_if-eq-zero, eq_of_==, find_index?,
  find_index?-none, find_index?-some, get_elem?, get_elem?-set_self, inl, inr, length, length-set,
  lt_of_get_elem?, ne_of_==, none, p2v, refl, set, some, subst, sym, ℕ, ◌-◌, ◌<◌, ◌^◌, ◌≡◌, ◌≢◌,
  ◌⊎◌,
}
use microkernal.Kalloc.{Entry, Kmem, is_available, kalloc, page2pa, taken, count_alloc}
use microkernal.Kalloc.Invariant.{IsValid, set-Clean, count-set, free_pages-lt}

-- The state after `kalloc` has taken entry `i`, which held `e`.
abbrev pub with_taken : Kmem → ℕ → Entry → Kmem
with_taken s i e = record (count_alloc s) {
  core_map = set s.core_map i (record e { available = 0; ref = 1 });
}

-- Entry `i` is the first available one, and `e` its contents.
abbrev pub FirstFree : Kmem → ℕ → Entry → Type 0
FirstFree s i e =
    (get_elem? s.core_map i ≡ some e)
    × (e.available ≡ 1)
    × ((j : ℕ) (x : Entry) → j < i → get_elem? s.core_map j ≡ some x → x.available ≢ 1)

kalloc-found :
    (s : Kmem) (i : ℕ) (e : Entry)
    → find_index? is_available s.core_map ≡ some i
    → get_elem? s.core_map i ≡ some e
    → kalloc s ≡ (p2v (page2pa i), with_taken s i e)
unfolding kalloc
kalloc-found s i e h q = rw (h, kalloc) (rw (q, taken))

kalloc-exhausted :
    (s : Kmem) → find_index? is_available s.core_map ≡ none → kalloc s ≡ (0, count_alloc s)
unfolding kalloc
kalloc-exhausted s h = rw (h, kalloc)

abbrev pub Allocates : Kmem → ℕ × Kmem → Type 0
Allocates s r =
    ((i : ℕ) × (e : Entry) × FirstFree s i e × (r ≡ (p2v (page2pa i), with_taken s i e)))
    ⊎ (((j : ℕ) (x : Entry) → get_elem? s.core_map j ≡ some x → x.available ≢ 1)
        × (r ≡ (0, count_alloc s)))

-- `kalloc` returns the lowest available page, marks it taken with one reference and leaves every
-- other entry alone; if no page is available it returns 0 and changes the counters alone.
pub kalloc-Allocates : (s : Kmem) → Allocates s (kalloc s)
kalloc-Allocates s = elim (Option-cases (find_index? is_available s.core_map)) [
  | inl n ↦ inr (
    λ j x q. ne_of_== x.available 1 (find_index?-none is_available s.core_map j x n q),
    kalloc-exhausted s n,
  )
  | inr (i, f) ↦
      let (e, at, pass, before) = find_index?-some is_available s.core_map i f in
      inl (
        i,
        e,
        (at, eq_of_== e.available 1 pass, λ j x l q. ne_of_== x.available 1 (before j x l q)),
        kalloc-found s i e f at,
      )
]

pub with_taken-IsValid :
    (s : Kmem) (i : ℕ) (e : Entry)
    → get_elem? s.core_map i ≡ some e
    → e.available ≡ 1
    → IsValid s
    → IsValid (with_taken s i e)
with_taken-IsValid s i e at a v = record {
  sized = omega (arith, length-set s.core_map i (record e { available = 0; ref = 1 }), v.sized);
  small = v.small;
  in_use = omega arith;
  counted =
      ground (
        arith,
        count-set s i (record e { available = 0; ref = 1 }) e at,
        free_pages-lt v,
        v.counted,
      );
  clean = set-Clean s.core_map i _ (λ z. absurd (omega arith)) v.clean;
}

-- The address of a page frame is never null.
page_address-ne-zero : {s : Kmem} (i : ℕ) → IsValid s → i < s.npages → p2v (page2pa i) ≢ 0
page_address-ne-zero {s} i v h = omega (arith, v.small)

-- `kalloc` keeps the allocator valid whenever it returns a page.
pub kalloc-IsValid : (s : Kmem) → IsValid s → (kalloc s).0 ≢ 0 → IsValid (kalloc s).1
kalloc-IsValid s v h = elim (kalloc-Allocates s) [
  | inl (i, e, f, r) ↦ rw r (with_taken-IsValid s i e f.0 f.1 v)
  | inr (n, r) ↦ absurd (h (ground arith))
]

-- Out of memory the call still moves the counters: `free_pages` no longer counts the available
-- pages, though no page changed hands.
pub kalloc_failure_drift :
    (s : Kmem)
    → IsValid s
    → (kalloc s).0 ≡ 0
    → ((kalloc s).1.core_map ≡ s.core_map)
      × (count_if is_available s.core_map ≡ 0)
      × ((kalloc s).1.free_pages ≡ 2 ^ 32 - 1)
kalloc_failure_drift s v h = elim (kalloc-Allocates s) [
  | inl (i, e, f, r) ↦ absurd (
      page_address-ne-zero i v (omega (arith, lt_of_get_elem? s.core_map i f.0, v.sized))
        (ground arith))
  | inr (n, r) ↦
      let none_left =
        count_if-eq-zero is_available s.core_map (λ j x q. ==-of_ne x.available 1 (n j x q)) in
      rw r (refl, none_left, omega (arith, v.counted, none_left))
]

-- The entry that was just taken is not available.
taken-FirstFree :
    (s : Kmem) (i : ℕ) (e x : Entry) → i < length s.core_map → ¬ FirstFree (with_taken s i e) i x
taken-FirstFree s i e x lt g =
    absurd
      (ground (arith, get_elem?-set_self s.core_map i (record e { available = 0; ref = 1 }) lt))

-- Two pages that are in use together are different: a second call never returns the page of the
-- first.
pub kalloc_twice :
    (s : Kmem) → IsValid s → (kalloc s).0 ≢ 0 → (kalloc (kalloc s).1).0 ≢ (kalloc s).0
kalloc_twice s v h = elim (kalloc-Allocates s) [
  | inl (i, e, f, r) ↦ elim (kalloc-Allocates (with_taken s i e)) [
    | inl (j, x, g, q) ↦
        rw (r, q)
          (λ same.
            let li : i < s.npages = omega (arith, lt_of_get_elem? s.core_map i f.0, v.sized) in
            let lj : j < s.npages = omega (
              arith,
              lt_of_get_elem? _ j g.0,
              length-set s.core_map i (record e { available = 0; ref = 1 }),
              v.sized,
            ) in
            let ji : j ≡ i = omega (arith, v.small) in
            taken-FirstFree s i e x (omega (arith, v.sized))
              (subst (λ k. FirstFree (with_taken s i e) k x) ji g))
    | inr (n, q) ↦
        rw (r, q)
          (λ same.
            page_address-ne-zero i v (omega (arith, lt_of_get_elem? s.core_map i f.0, v.sized))
              (sym same))
  ]
  | inr (n, r) ↦ absurd (h (ground arith))
]
