-- ===== src/Bio/Calls.antt =====
-- bread and bwrite, kernel/bio.c, as their callers see them.
use microkernal.Common.{
  Bool, Bool-cases, ap, arith, count_if, false, get_elem?, get_elem?-set_self, if◌then◌else◌, inl,
  inr, is_neg, lt_of_get_elem?, ok, panic, refl, set, set-set, some, sub32, subst, sym, true, ℕ,
  ◌<◌, ◌==◌, ◌∙◌, ◌≡◌, ◌≢◌, ◌≤◌, ◌⊎◌,
}
use microkernal.Bio.{
  Buf, Cache, is_for, is_unused, set_buf, iderw, transfer, bad_request, Bread, got, bread_sleeps,
  bread_panics, read_if_stale, lock_and_read, bread, written, reboots, Bwrite, bwrite_panics,
  write_ended, write_out, bwrite,
}
use microkernal.Bio.Lookup.{Unique, Finds, bget-Finds, Finds-Unique}
use microkernal.Bio.Coherence.{
  Coherent, Finds-Coherent, Finds-is_for, Reads, ReadEnds, valid-ReadEnds, stale-ReadEnds, iderw-eq,
}

-- A buffer for the block that another process has locked.
abbrev pub Busy : (dev blockno i : ℕ) → Cache → Type 0
Busy dev blockno i t =
    (b : Buf) × (get_elem? t.bufs i ≡ some b) × (b.locked ≡ true) × (is_for dev blockno b ≡ true)

abbrev pub BreadEnds : Cache → (dev blockno : ℕ) → Bread → Type 0
BreadEnds s dev blockno bread_panics =
    ((count_if (is_for dev blockno) s.bufs ≡ 0) × (count_if is_unused s.bufs ≡ 0))
    ⊎ ((dev ≢ 1) ⊎ (s.disksize ≤ blockno))
BreadEnds s dev blockno (bread_sleeps i t) =
    Busy dev blockno i t × Unique t.bufs × Coherent t × (t.disk ≡ s.disk)
BreadEnds s dev blockno (got i t) = Reads s dev blockno i t × Unique t.bufs × Coherent t

Finds-disk :
    (s : Cache) (dev blockno : ℕ) (r : ℕ × Cache)
    → Finds s dev blockno r
    → (r.1.disk ≡ s.disk) × (r.1.disksize ≡ s.disksize)
Finds-disk s dev blockno r (i, b, here, inl (f, e)) = rw e (refl, refl)
Finds-disk s dev blockno r (i, b, here, inr (f, z, e)) = rw e (refl, refl)

read-ends :
    (s u : Cache) (dev blockno i : ℕ) (r : Bread)
    → u.disk ≡ s.disk
    → u.disksize ≡ s.disksize
    → Unique u.bufs
    → ReadEnds u dev blockno i r
    → BreadEnds s dev blockno r
read-ends s u dev blockno i r same size un (inl (e, why)) =
    rw e (inr (elim why [ inl h ↦ inl h | inr h ↦ inr (omega arith) ]))
read-ends s u dev blockno i r same size un
      (inr (t, e, (b, here, l, v, f, bytes, kept), c, counts)) =
    rw e (
      (b, here, l, v, f, bytes ∙ ap (λ d. d blockno) same, kept ∙ same),
      (λ d n nz. omega (arith, counts d n, un d n nz)),
      c,
    )

lock_and_read-ends :
    (s u : Cache) (dev blockno i : ℕ) (b : Buf)
    → get_elem? u.bufs i ≡ some b
    → is_for dev blockno b ≡ true
    → u.disk ≡ s.disk
    → u.disksize ≡ s.disksize
    → Unique u.bufs
    → Coherent u
    → BreadEnds s dev blockno (lock_and_read i u)
unfolding lock_and_read
lock_and_read-ends s u dev blockno i b here f same size un c = elim (Bool-cases b.locked) [
  | inl l ↦ subst (BreadEnds s dev blockno) (sym (run ∙ ap step l)) ((b, here, l, f), un, c, same)
  | inr l ↦ subst (BreadEnds s dev blockno) (sym (run ∙ ap step l)) (
      read-ends s u dev blockno i (read_if_stale i b locked_cache) same size un
        (elim (Bool-cases b.valid) [
          | inl v ↦ valid-ReadEnds u dev blockno i b here v l f c
          | inr v ↦ stale-ReadEnds u dev blockno i b here v l f c
        ]))
]
  where
    locked_cache : Cache
    locked_cache = set_buf u i (record b { locked = true })

    step : Bool → Bread
    step x = if x then bread_sleeps i u else read_if_stale i b locked_cache

    run : lock_and_read i u ≡ step b.locked
    run = rw (here, lock_and_read) refl

-- `bread` returns a locked buffer that is for the block asked for and holds what the disk holds
-- there, or sleeps on the lock of a buffer for the block. It panics only if no buffer is for the block and
-- none is unused and clean, or if the block is not on the disk. The cache stays coherent, with one buffer at most for each block.
pub bread-BreadEnds :
    (s : Cache) (dev blockno : ℕ)
    → Unique s.bufs
    → Coherent s
    → BreadEnds s dev blockno (bread s dev blockno)
unfolding bread
bread-BreadEnds s dev blockno un c = elim (bget-Finds s dev blockno) [
  | inl (r, e, f) ↦
      let (b, here, for_it) = Finds-is_for s dev blockno r f in
      let (same, size) = Finds-disk s dev blockno r f in
      rw (e, bread)
        (lock_and_read-ends s r.1 dev blockno r.0 b here for_it same size
          (Finds-Unique s dev blockno r f un) (Finds-Coherent s dev blockno r f c))
  | inr (e, none_for, none_left) ↦ rw (e, bread) (inl (none_for, none_left))
]

-- The cache after the disk has the contents of the buffer `b` in place `i`.
abbrev pub flushed : Cache → ℕ → Buf → Cache
flushed s i b = record s {
  bufs = set s.bufs i (record b { dirty = false; valid = true });
  disk = λ n. if n == b.blockno then b.bytes else s.disk n;
}

-- `bwrite` of a locked buffer for a block on the disk puts the buffer's bytes there, changes no
-- other block and leaves the buffer valid and clean, when no crash is asked for.
pub bwrite-flushed :
    (s : Cache) (i : ℕ) (b : Buf)
    → s.crashn_enable ≡ false
    → get_elem? s.bufs i ≡ some b
    → b.locked ≡ true
    → b.dev ≡ 1
    → b.blockno < s.disksize
    → bwrite s i ≡ written (flushed s i b)
unfolding bwrite write_out
bwrite-flushed s i b off here l on_disk lt =
    ap (λ x. if x then crashes else write_out s i) off
    ∙ out
    ∙ ap (λ x. if x then write_ended (iderw d i) else bwrite_panics) l
    ∙ ap write_ended (iderw-eq d i b' here')
    ∙ ap (λ x. write_ended (if x then panic else ok (transfer d i b'))) good
    ∙ ap (λ m. written (record (flushed s i b) { bufs = m }))
        (set-set s.bufs i b' (record b { dirty = false; valid = true }))
  where
    b' : Buf
    b' = record b { dirty = true }

    d : Cache
    d = set_buf s i b'

    crashes : Bwrite
    crashes =
        if is_neg (sub32 s.crashn 1)
        then reboots
        else write_out (record s { crashn = sub32 s.crashn 1 }) i

    out : write_out s i ≡ (if b.locked then write_ended (iderw d i) else bwrite_panics)
    out = rw (here, write_out) refl

    here' : get_elem? d.bufs i ≡ some b'
    here' = get_elem?-set_self s.bufs i b' (lt_of_get_elem? s.bufs i here)

    good : bad_request d b' ≡ false
    good = ground arith
