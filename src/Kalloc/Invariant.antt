-- ===== src/Kalloc/Invariant.antt =====
-- What a sound page table of the allocator is, and what the counters count.
use microkernal.Common.{
  Bool-cases, List, arith, bit, count_if, count_if-le-length, count_if-set, eq_of_==, get_elem?,
  get_elem?-set_ne, get_elem?-set_self, inl, inr, length, length-set, lt_of_get_elem?, set, some, ℕ,
  ◌+◌, ◌<◌, ◌==◌, ◌^◌, ◌≡◌,
}
use microkernal.Kalloc.{Entry, Kmem, is_available}

-- `counted`: `free_pages` is the number of available pages; `clean`: these have no reference.
pub record IsValid (s : Kmem) : Type 0 where
  pub sized : length s.core_map ≡ s.npages
  pub small : s.npages < 2 ^ 19
  pub in_use : s.pages_in_use < 2 ^ 32
  pub counted : s.free_pages ≡ count_if is_available s.core_map
  pub clean : (i : ℕ) (e : Entry) → get_elem? s.core_map i ≡ some e → e.available ≡ 1 → e.ref ≡ 0

abbrev pub Clean : List Entry → Type 0
Clean m = (i : ℕ) (e : Entry) → get_elem? m i ≡ some e → e.available ≡ 1 → e.ref ≡ 0

pub set-Clean :
    (m : List Entry) (i : ℕ) (v : Entry)
    → (v.available ≡ 1 → v.ref ≡ 0)
    → Clean m
    → Clean (set m i v)
set-Clean m i v new c j e q a = elim (Bool-cases (i == j)) [
  | inl h ↦ new_case (eq_of_== i j h)
  | inr h ↦ c j e (ground (arith, get_elem?-set_ne m i j v)) a
]
  where
    new_case : i ≡ j → e.ref ≡ 0
    new_case h =
        let here : v ≡ e =
          ground
            (arith, get_elem?-set_self m i v, lt_of_get_elem? (set m i v) j q, length-set m i v) in
        ground (arith, new)

-- A write to one entry changes the count by what it replaces.
pub count-set :
    (s : Kmem) (i : ℕ) (v e : Entry)
    → get_elem? s.core_map i ≡ some e
    → count_if is_available (set s.core_map i v) + bit (is_available e)
      ≡ count_if is_available s.core_map + bit (is_available v)
count-set s i v e = count_if-set is_available s.core_map i v e

pub free_pages-lt : {s : Kmem} → IsValid s → s.free_pages < 2 ^ 19
free_pages-lt {s} v =
    omega (arith, count_if-le-length is_available s.core_map, v.sized, v.small, v.counted)
