-- ===== src/Kalloc/Free.antt =====
-- kfree and kincref, kernel/kalloc.c.
use microkernal.Common.{
  Bool-cases, add32, ap, arith, false, get_elem?, get_elem?-of_lt, get_elem?-set_self, gt_int, inl,
  inr, leb-of_lt, length, length-set, lt_of_get_elem?, ok, p2v, panic, pgnum, refl, set, set_self,
  set-set, some, true, v2p, ℕ, ◌%◌, ◌*◌, ◌+◌, ◌-◌, ◌<◌, ◌>>=◌, ◌^◌, ◌↔◌, ◌∙◌, ◌≡◌, ◌≢◌, ◌≤◌, ◌⊎◌,
}
use microkernal.Kalloc.{
  Entry, Kmem, bad_address, kalloc, kfree, kincref, pa2page, lookup_page, drop_ref, freed, page2pa,
}
use microkernal.Kalloc.Invariant.{IsValid, set-Clean, count-set, free_pages-lt}
use microkernal.Kalloc.Alloc.{with_taken, with_taken-IsValid, kalloc-Allocates}

abbrev pub address : ℕ → ℕ
address i = p2v (page2pa i)

-- Page `i` is one that the kernel may free: it lies in memory, after the kernel's own image.
pub record IsPage (s : Kmem) (i : ℕ) (e : Entry) : Type 0 where
  pub entry : get_elem? s.core_map i ≡ some e
  pub after_kernel : s.end ≤ address i

address-good :
    (s : Kmem) (i : ℕ) (e : Entry) → IsValid s → IsPage s i e → bad_address s (address i) ≡ false
address-good s i e v p =
    let lt = lt_of_get_elem? s.core_map i p.entry in
    ground (arith, v.sized, v.small, p.after_kernel)

address-lookup :
    (s : Kmem) (i : ℕ) (e : Entry)
    → IsValid s
    → IsPage s i e
    → lookup_page s (v2p (address i)) ≡ ok (i, e)
unfolding lookup_page pa2page
address-lookup s i e v p =
    let lt = lt_of_get_elem? s.core_map i p.entry in
    let same : pgnum (v2p (address i)) ≡ i = omega (arith, v.sized, v.small) in
    rw (same, leb-of_lt s.npages i (omega (arith, v.sized)), p.entry)

-- On a page of the allocator `kfree` never panics.
kfree-page :
    (s : Kmem) (i : ℕ) (e : Entry)
    → IsValid s
    → IsPage s i e
    → kfree (address i) s ≡ drop_ref s (address i) (i, e)
unfolding kfree
kfree-page s i e v p = rw (address-good s i e v p, address-lookup s i e v p)

bad_address_iff :
    (s : Kmem) (a : ℕ)
    → IsValid s
    → (bad_address s a ≡ true) ↔ (((a % 4096 ≢ 0) ⊎ (a < s.end)) ⊎ (s.npages * 4096 ≤ v2p a))
bad_address_iff s a v = (λ h. ground (arith, v.small), λ h. ground (arith, v.small))

drop_ref-ne-panic : (s : Kmem) (a : ℕ) (r : ℕ × Entry) → drop_ref s a r ≢ panic
drop_ref-ne-panic s a (i, e) = elim (Bool-cases (gt_int e.ref 1)) [
  | inl h ↦ rw h (λ q. cc)
  | inr h ↦ rw h (λ q. cc)
]

good_address-ok : (s : Kmem) (a : ℕ) → IsValid s → bad_address s a ≡ false → kfree a s ≢ panic
unfolding kfree lookup_page pa2page
good_address-ok s a v h =
    let lt : pgnum (v2p a) < s.npages = ground (arith, v.small) in
    let (e, q) = get_elem?-of_lt s.core_map (pgnum (v2p a)) (omega (arith, v.sized)) in
    rw (h, leb-of_lt s.npages (pgnum (v2p a)) lt, q) (drop_ref-ne-panic s a (pgnum (v2p a), e))

bad_address-panic : (s : Kmem) (a : ℕ) → bad_address s a ≡ true → kfree a s ≡ panic
unfolding kfree
bad_address-panic s a h = rw h

-- `kfree` panics exactly at an address that is not page aligned, lies in the kernel's image or
-- lies past the end of memory.
pub kfree_panic :
    (s : Kmem) (a : ℕ)
    → IsValid s
    → (kfree a s ≡ panic) ↔ (((a % 4096 ≢ 0) ⊎ (a < s.end)) ⊎ (s.npages * 4096 ≤ v2p a))
kfree_panic s a v = (
  λ e. elim (Bool-cases (bad_address s a)) [
    | inl h ↦ (bad_address_iff s a v).0 h
    | inr h ↦ absurd (good_address-ok s a v h e)
  ],
  λ e. bad_address-panic s a ((bad_address_iff s a v).1 e),
)

-- Freeing a page with one reference, or with none yet, makes it available again, counts it once
-- and fills it with junk; the allocator stays valid.
pub kfree_last :
    (s : Kmem) (i : ℕ) (e : Entry)
    → IsValid s
    → IsPage s i e
    → e.available ≢ 1
    → e.ref ≤ 1
    → (kfree (address i) s ≡ ok (freed s (address i) i))
      × IsValid (freed s (address i) i)
      × (add32 s.free_pages 1 ≡ s.free_pages + 1)
kfree_last s i e v p a r = (
  kfree-page s i e v p ∙ ground arith,
  record {
    sized = omega (arith, length-set s.core_map i blank, v.sized);
    small = v.small;
    in_use = omega arith;
    counted = ground (arith, count-set s i blank e p.entry, free_pages-lt v, v.counted);
    clean = set-Clean s.core_map i _ (λ z. refl) v.clean;
  },
  omega (arith, free_pages-lt v),
)
  where
    blank : Entry
    blank = record { available = 1; user = 0; va = 0; ref = 0 }

-- Freeing a shared page drops one reference and touches nothing else, not even its contents.
pub kfree_shared :
    (s : Kmem) (i : ℕ) (e : Entry)
    → IsValid s
    → IsPage s i e
    → 1 < e.ref
    → e.ref < 2 ^ 31
    → kfree (address i) s
      ≡ ok (record s { core_map = set s.core_map i (record e { ref = e.ref - 1 }) })
kfree_shared s i e v p lo hi = kfree-page s i e v p ∙ ground arith

abbrev more_ref : Entry → Entry
more_ref e = record e { ref = add32 e.ref 1 }

abbrev pub referenced : Kmem → ℕ → Entry → Kmem
referenced s i e = record s { core_map = set s.core_map i (more_ref e) }

pub kincref-page :
    (s : Kmem) (i : ℕ) (e : Entry)
    → IsValid s
    → get_elem? s.core_map i ≡ some e
    → kincref (page2pa i) s ≡ ok (referenced s i e)
unfolding kincref lookup_page pa2page
kincref-page s i e v at =
    let lt = lt_of_get_elem? s.core_map i at in
    let same : pgnum (page2pa i) ≡ i = omega arith in
    rw (same, leb-of_lt s.npages i (omega (arith, v.sized)), at)

pub referenced-IsValid :
    (s : Kmem) (i : ℕ) (e : Entry)
    → IsValid s
    → get_elem? s.core_map i ≡ some e
    → e.available ≢ 1
    → IsValid (referenced s i e)
referenced-IsValid s i e v at a = record {
  sized = omega (arith, length-set s.core_map i (more_ref e), v.sized);
  small = v.small;
  in_use = v.in_use;
  counted = ground (arith, count-set s i (more_ref e) e at, v.counted);
  clean = set-Clean s.core_map i _ (λ z. absurd (a z)) v.clean;
}

-- A reference that `kincref` adds is the one that the next `kfree` of the page takes back.
pub kincref-kfree :
    (s : Kmem) (i : ℕ) (e : Entry)
    → IsValid s
    → IsPage s i e
    → 0 < e.ref
    → e.ref < 2 ^ 31 - 1
    → (kincref (page2pa i) s >>= kfree (address i)) ≡ ok s
unfolding kincref
kincref-kfree s i e v p lo hi =
    rw
      (
        kincref-page s i e v p.entry,
        kfree_shared t i (more_ref e) valid page (omega arith) (omega arith),
      )
      (ap (λ m. ok (record s { core_map = m })) restored)
  where
    t : Kmem
    t = referenced s i e

    lt : i < length s.core_map
    lt = lt_of_get_elem? s.core_map i p.entry

    valid : IsValid t
    valid = referenced-IsValid s i e v p.entry (λ a. absurd (omega (arith, v.clean i e p.entry a)))

    page : IsPage t i (more_ref e)
    page = record {
      entry = get_elem?-set_self s.core_map i (more_ref e) lt;
      after_kernel = p.after_kernel;
    }

    same : record (more_ref e) { ref = (more_ref e).ref - 1 } ≡ e
    same = ground arith

    restored : set t.core_map i (record (more_ref e) { ref = (more_ref e).ref - 1 }) ≡ s.core_map
    restored = rw (same, set-set s.core_map i (more_ref e) e) (set_self s.core_map i p.entry)

-- A page from `kalloc` that lies after the kernel's image can be freed at once: `kfree` does not
-- panic, the allocator stays valid, and both counters are what they were before the two calls.
pub kfree-kalloc :
    (s : Kmem)
    → IsValid s
    → (kalloc s).0 ≢ 0
    → s.end ≤ (kalloc s).0
    → (t : Kmem) × (kfree (kalloc s).0 (kalloc s).1 ≡ ok t)
      × IsValid t
      × (t.free_pages ≡ s.free_pages)
      × (t.pages_in_use ≡ s.pages_in_use)
kfree-kalloc s v h above = elim (kalloc-Allocates s) [
  | inl (i, e, f, r) ↦
      let t = with_taken s i e in
      let lt = lt_of_get_elem? s.core_map i f.0 in
      let below : s.end ≤ address i = ground (arith) in
      let (frees, valid, more) =
        kfree_last t i (record e { available = 0; ref = 1 }) (with_taken-IsValid s i e f.0 f.1 v)
          (record { entry = get_elem?-set_self s.core_map i _ lt; after_kernel = below })
          (omega arith) (omega arith) in
      rw r (
        freed t (address i) i,
        frees,
        valid,
        omega (arith, free_pages-lt v),
        omega (arith, v.in_use),
      )
  | inr (n, r) ↦ absurd (h (ground arith))
]
