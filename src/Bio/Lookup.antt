-- ===== src/Bio/Lookup.antt =====
-- bget, kernel/bio.c: which buffer it finds or recycles.
use microkernal.Common.{
  Bool-cases, List, Option-cases, [], add32, ap, ap₂, arith, bit, count_if, count_if-set,
  find_index?, find_index?-count, find_index?-some, get_elem?, inl, inr, none, ok, panic, refl,
  some, subst, suc, sym, true, ℕ, ◌∙◌, ◌∷◌, ◌≡◌, ◌≢◌, ◌≤◌, ◌⊎◌,
}
use microkernal.Bio.{Buf, Cache, is_for, is_unused, find_last, set_buf, recycled, change, bget}

-- No two buffers are for the same block of a device; device 0 stands for a buffer not yet used.
abbrev pub Unique : List Buf → Type 0
Unique bufs = (dev blockno : ℕ) → dev ≢ 0 → count_if (is_for dev blockno) bufs ≤ 1

find_last-some :
    (bufs : List Buf) (i : ℕ)
    → find_last bufs ≡ some i
    → (b : Buf) × (get_elem? bufs i ≡ some b) × (is_unused b ≡ true)
unfolding find_last
find_last-some [] i h = cc
find_last-some (x ∷ bufs) i h = elim (Option-cases (find_last bufs)) [
  | inr (j, e) ↦
      let z : suc j ≡ i = ground arith in
      subst (λ k. (b : Buf) × (get_elem? (x ∷ bufs) k ≡ some b) × (is_unused b ≡ true)) z
        (find_last-some bufs j e)
  | inl n ↦ elim (Bool-cases (is_unused x)) [
    | inl u ↦
        let z : 0 ≡ i = ground arith in
        subst (λ k. (b : Buf) × (get_elem? (x ∷ bufs) k ≡ some b) × (is_unused b ≡ true)) z
          (x, refl, u)
    | inr u ↦ absurd (ground arith)
  ]
]

-- No buffer may be recycled where the scan finds none.
find_last-none : (bufs : List Buf) → find_last bufs ≡ none → count_if is_unused bufs ≡ 0
unfolding find_last count_if
find_last-none [] h = refl
find_last-none (x ∷ bufs) h = elim (Option-cases (find_last bufs)) [
  | inr (j, e) ↦ absurd (ground arith)
  | inl n ↦ elim (Bool-cases (is_unused x)) [
    | inl u ↦ absurd (ground arith)
    | inr u ↦ rw u (omega (arith, find_last-none bufs n))
  ]
]

abbrev pub referenced : Buf → Buf
referenced b = record b { refcnt = add32 b.refcnt 1 }

-- The buffer in place `i` was the block's already, or it was recycled and no buffer was.
abbrev pub Finds : Cache → (dev blockno : ℕ) → ℕ × Cache → Type 0
Finds s dev blockno r =
    (i : ℕ) × (b : Buf) × (get_elem? s.bufs i ≡ some b)
    × (((is_for dev blockno b ≡ true) × (r ≡ (i, set_buf s i (referenced b))))
        ⊎ ((is_unused b ≡ true)
            × (count_if (is_for dev blockno) s.bufs ≡ 0)
            × (r ≡ (i, set_buf s i (recycled dev blockno b)))))

bget-hit :
    (s : Cache) (dev blockno i : ℕ) (b : Buf)
    → find_index? (is_for dev blockno) s.bufs ≡ some i
    → get_elem? s.bufs i ≡ some b
    → bget s dev blockno ≡ ok (i, set_buf s i (referenced b))
unfolding bget
bget-hit s dev blockno i b e here = rw (e, bget) (rw (here, change) refl)

bget-miss :
    (s : Cache) (dev blockno i : ℕ) (b : Buf)
    → find_index? (is_for dev blockno) s.bufs ≡ none
    → find_last s.bufs ≡ some i
    → get_elem? s.bufs i ≡ some b
    → bget s dev blockno ≡ ok (i, set_buf s i (recycled dev blockno b))
unfolding bget
bget-miss s dev blockno i b n e here = rw (n, bget) (rw e (rw (here, change) refl))

bget-full :
    (s : Cache) (dev blockno : ℕ)
    → find_index? (is_for dev blockno) s.bufs ≡ none
    → find_last s.bufs ≡ none
    → bget s dev blockno ≡ panic
unfolding bget
bget-full s dev blockno n e = rw (n, bget) (rw e refl)

-- `bget` returns the buffer of the block if there is one, and else recycles a buffer that is clean
-- and has no reference; it panics only if there is neither.
pub bget-Finds :
    (s : Cache) (dev blockno : ℕ)
    → ((r : ℕ × Cache) × (bget s dev blockno ≡ ok r) × Finds s dev blockno r)
      ⊎ ((bget s dev blockno ≡ panic)
          × (count_if (is_for dev blockno) s.bufs ≡ 0)
          × (count_if is_unused s.bufs ≡ 0))
bget-Finds s dev blockno = elim (Option-cases (find_index? (is_for dev blockno) s.bufs)) [
  | inr (i, e) ↦
      let (b, here, pass, before) = find_index?-some (is_for dev blockno) s.bufs i e in
      inl (
        (i, set_buf s i (referenced b)),
        bget-hit s dev blockno i b e here,
        (i, b, here, inl (pass, refl)),
      )
  | inl n ↦
      let none_for = (find_index?-count (is_for dev blockno) s.bufs).0 n in
      elim (Option-cases (find_last s.bufs)) [
        | inr (i, e) ↦
            let (b, here, clean) = find_last-some s.bufs i e in
            inl (
              (i, set_buf s i (recycled dev blockno b)),
              bget-miss s dev blockno i b n e here,
              (i, b, here, inr (clean, none_for, refl)),
            )
        | inl e ↦ inr (bget-full s dev blockno n e, none_for, find_last-none s.bufs e)
      ]
]

-- After `bget` the cache still has at most one buffer for each block.
pub Finds-Unique :
    (s : Cache) (dev blockno : ℕ) (r : ℕ × Cache)
    → Finds s dev blockno r
    → Unique s.bufs
    → Unique r.1.bufs
Finds-Unique s dev blockno r (i, b, here, inl (for_it, e)) u = λ d n nz.
    rw e (omega (arith, u d n nz, count_if-set (is_for d n) s.bufs i (referenced b) b here))
Finds-Unique s dev blockno r (i, b, here, inr (clean, none_for, e)) u = λ d n nz.
    rw e (elim (Bool-cases (is_for d n (recycled dev blockno b))) [
      | inl same ↦
          let ed : dev ≡ d = ground arith in
          let en : blockno ≡ n = ground arith in
          let zero_for : count_if (is_for d n) s.bufs ≡ 0 =
            ap₂ (λ x y. count_if (is_for x y) s.bufs) (sym ed) (sym en) ∙ none_for in
          omega (
            arith,
            zero_for,
            count_if-set (is_for d n) s.bufs i (recycled dev blockno b) b here,
            ap bit same,
          )
      | inr other ↦ omega (
        arith,
        u d n nz,
        count_if-set (is_for d n) s.bufs i (recycled dev blockno b) b here,
        ap bit other,
      )
    ])
