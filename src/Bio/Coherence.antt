-- ===== src/Bio/Coherence.antt =====
-- bread and bwrite, kernel/bio.c, over iderw of kernel/memide.c: what a buffer says of the disk.
use microkernal.Common.{
  ==-refl, Bool-cases, List, ap, ap₂, arith, bit, count_if, count_if-set, eq_of_==, false,
  get_elem?, get_elem?-set_ne, get_elem?-set_self, if◌then◌else◌, inl, inr, length-set,
  lt_of_get_elem?, ok, panic, refl, set, set-set, some, subst, true, ℕ, ◌&&◌, ◌==◌, ◌∙◌, ◌≡◌, ◌≢◌,
  ◌≤◌, ◌⊎◌,
}
use microkernal.Bio.{
  read_ended, Buf, Cache, is_for, set_buf, recycled, iderw, transfer, bad_request, Bread, got,
  bread_panics, read_if_stale,
}
use microkernal.Bio.Lookup.{Finds, referenced}

-- A buffer that no process has locked is clean, and holds what the disk holds if it is valid.
abbrev pub IsCoherent : (ℕ → List ℕ) → Buf → Type 0
IsCoherent disk b =
    b.locked ≡ false → (b.dirty ≡ false) × (b.valid ≡ true → b.bytes ≡ disk b.blockno)

abbrev pub Coherent : Cache → Type 0
Coherent s = (i : ℕ) (b : Buf) → get_elem? s.bufs i ≡ some b → IsCoherent s.disk b

pub set-Coherent :
    (s : Cache) (i : ℕ) (v : Buf) → IsCoherent s.disk v → Coherent s → Coherent (set_buf s i v)
set-Coherent s i v new c j b h = elim (Bool-cases (i == j)) [
  | inl e ↦
      let z = eq_of_== i j e in
      let here : v ≡ b = ground (
        arith,
        get_elem?-set_self s.bufs i v,
        lt_of_get_elem? (set s.bufs i v) j h,
        length-set s.bufs i v,
      ) in
      subst (IsCoherent s.disk) here new
  | inr e ↦ c j b (ground (arith, get_elem?-set_ne s.bufs i j v))
]

pub Finds-Coherent :
    (s : Cache) (dev blockno : ℕ) (r : ℕ × Cache)
    → Finds s dev blockno r
    → Coherent s
    → Coherent r.1
Finds-Coherent s dev blockno r (i, b, here, inl (for_it, e)) c =
    rw e (set-Coherent s i (referenced b) (c i b here) c)
Finds-Coherent s dev blockno r (i, b, here, inr (clean, none_for, e)) c =
    rw e (set-Coherent s i (recycled dev blockno b) (λ l. (refl, λ v. cc v)) c)

-- The buffer that `bget` returns is for the block asked for.
pub Finds-is_for :
    (s : Cache) (dev blockno : ℕ) (r : ℕ × Cache)
    → Finds s dev blockno r
    → (b : Buf) × (get_elem? r.1.bufs r.0 ≡ some b) × (is_for dev blockno b ≡ true)
Finds-is_for s dev blockno r (i, b, here, inl (for_it, e)) = rw e (
  referenced b,
  get_elem?-set_self s.bufs i (referenced b) (lt_of_get_elem? s.bufs i here),
  for_it,
)
Finds-is_for s dev blockno r (i, b, here, inr (clean, none_for, e)) = rw e (
  recycled dev blockno b,
  get_elem?-set_self s.bufs i (recycled dev blockno b) (lt_of_get_elem? s.bufs i here),
  rw (==-refl dev, ==-refl blockno),
)

-- The buffer in place `i` of `t` is locked, and holds the block of the disk.
abbrev pub Reads : Cache → (dev blockno : ℕ) → ℕ → Cache → Type 0
Reads s dev blockno i t =
    (b : Buf) × (get_elem? t.bufs i ≡ some b)
    × (b.locked ≡ true)
    × (b.valid ≡ true)
    × (is_for dev blockno b ≡ true)
    × (b.bytes ≡ s.disk blockno)
    × (t.disk ≡ s.disk)

pub iderw-eq :
    (s : Cache) (i : ℕ) (b : Buf)
    → get_elem? s.bufs i ≡ some b
    → iderw s i ≡ (if bad_request s b then panic else ok (transfer s i b))
unfolding iderw
iderw-eq s i b here = rw (here, iderw) refl

-- The request of a locked buffer is bad only outside the disk, or with nothing to do.
bad_request-lem :
    (s : Cache) (dev blockno : ℕ) (b : Buf)
    → b.locked ≡ true
    → b.valid ≡ false
    → is_for dev blockno b ≡ true
    → bad_request s b ≡ true
    → (dev ≢ 1) ⊎ (s.disksize ≤ blockno)
bad_request-lem s dev blockno b l v f h = ground arith

abbrev locked_buf : Buf → Buf
locked_buf b = record b { locked = true }

-- What the locking and the read of a stale buffer end in.
abbrev pub ReadEnds : Cache → (dev blockno : ℕ) → ℕ → Bread → Type 0
ReadEnds s dev blockno i r =
    ((r ≡ bread_panics) × ((dev ≢ 1) ⊎ (s.disksize ≤ blockno)))
    ⊎ ((t : Cache) × (r ≡ got i t)
        × Reads s dev blockno i t
        × Coherent t
        × ((d n : ℕ) → count_if (is_for d n) t.bufs ≡ count_if (is_for d n) s.bufs))

module _ (s : Cache) (dev blockno i : ℕ) (b : Buf) (here : get_elem? s.bufs i ≡ some b) where
  same_count :
      (v : Buf)
      → v.dev ≡ b.dev
      → v.blockno ≡ b.blockno
      → (d n : ℕ) → count_if (is_for d n) (set s.bufs i v) ≡ count_if (is_for d n) s.bufs
  same_count v ed en d n =
      let same : bit (is_for d n v) ≡ bit (is_for d n b) =
        ap₂ (λ x y. bit (x == d && y == n)) ed en in
      omega (arith, count_if-set (is_for d n) s.bufs i v b here, same)

  abbrev fresh_buf : Buf
  fresh_buf = record b { locked = true; bytes = s.disk b.blockno; valid = true }

  pub valid-ReadEnds :
      b.valid ≡ true
      → b.locked ≡ false
      → is_for dev blockno b ≡ true
      → Coherent s
      → ReadEnds s dev blockno i (read_if_stale i b (set_buf s i (locked_buf b)))
  valid-ReadEnds v free f c = inr (
    set_buf s i (locked_buf b),
    ap
        (λ x.
          if x
          then got i (set_buf s i (locked_buf b))
          else read_ended i (iderw (set_buf s i (locked_buf b)) i))
        v,
    (
      locked_buf b,
      get_elem?-set_self s.bufs i (locked_buf b) (lt_of_get_elem? s.bufs i here),
      refl,
      v,
      f,
      (c i b here free).1 v ∙ ap s.disk block,
      refl,
    ),
    set-Coherent s i (locked_buf b) (λ l. cc l) c,
    same_count (locked_buf b) refl refl,
  )
    where
      block : b.blockno ≡ blockno
      block = ground arith

  pub stale-ReadEnds :
      b.valid ≡ false
      → b.locked ≡ false
      → is_for dev blockno b ≡ true
      → Coherent s
      → ReadEnds s dev blockno i (read_if_stale i b (set_buf s i (locked_buf b)))
  stale-ReadEnds v free f c = elim (Bool-cases (bad_request l (locked_buf b))) [
    | inl h ↦ inl (
      runs ∙ ap (λ x. read_ended i (if x then panic else ok (transfer l i (locked_buf b)))) h,
      bad_request-lem l dev blockno (locked_buf b) refl v f h,
    )
    | inr h ↦ inr (
      set_buf s i fresh_buf,
      runs
          ∙ ap (λ x. read_ended i (if x then panic else ok (transfer l i (locked_buf b)))) h
          ∙ ap (got i) moved,
      (
        fresh_buf,
        get_elem?-set_self s.bufs i fresh_buf (lt_of_get_elem? s.bufs i here),
        refl,
        refl,
        f,
        ap s.disk block,
        refl,
      ),
      set-Coherent s i fresh_buf (λ z. cc z) c,
      same_count fresh_buf refl refl,
    )
  ]
    where
      l : Cache
      l = set_buf s i (locked_buf b)

      here' : get_elem? l.bufs i ≡ some (locked_buf b)
      here' = get_elem?-set_self s.bufs i (locked_buf b) (lt_of_get_elem? s.bufs i here)

      clean : b.dirty ≡ false
      clean = (c i b here free).0

      block : b.blockno ≡ blockno
      block = ground arith

      moved : transfer l i (locked_buf b) ≡ set_buf s i fresh_buf
      moved =
          ap
            (λ x.
              if x
              then record l {
                bufs = set l.bufs i (record (locked_buf b) { dirty = false; valid = true });
                disk = λ n. if n == b.blockno then b.bytes else l.disk n;
              }
              else set_buf l i fresh_buf)
            clean
          ∙ ap (λ m. record s { bufs = m }) (set-set s.bufs i (locked_buf b) fresh_buf)

      runs :
          read_if_stale i b l
          ≡ read_ended i
              (if bad_request l (locked_buf b) then panic else ok (transfer l i (locked_buf b)))
      runs =
          ap (λ x. if x then got i l else read_ended i (iderw l i)) v
          ∙ ap (read_ended i) (iderw-eq l i (locked_buf b) here')
