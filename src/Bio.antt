-- ===== src/Bio.antt =====
-- The buffer cache of kernel/bio.c over the disk in memory of kernel/memide.c, with the sleep locks
-- of kernel/sleeplock.c on its buffers. Each function is one step up to its return or to the
-- `sleep` in `acquiresleep`.
pub mod Calls
pub mod Coherence
pub mod Lookup
pub mod Release
mod Tests
use microkernal.Common.{
  Bool, List, Option, Outcome, [], add32, false, find_index?, get_elem?, if◌then◌else◌, is_neg, leb,
  none, not, ok, panic, set, some, sub32, suc, true, zero, ℕ, ◌&&◌, ◌==◌, ◌||◌, ◌∷◌,
}

-- `struct buf` with `struct sleeplock`'s `locked`; `valid` and `dirty` are B_VALID and B_DIRTY.
pub record Buf : Type 0 where
  pub dev : ℕ
  pub blockno : ℕ
  pub valid : Bool
  pub dirty : Bool
  pub refcnt : ℕ
  pub locked : Bool
  pub bytes : List ℕ

-- `bufs` is the list from `head.next` on, the most recently used first; `disk` holds the blocks.
pub record Cache : Type 0 where
  pub bufs : List Buf
  pub disk : ℕ → List ℕ
  pub disksize : ℕ
  pub crashn_enable : Bool
  pub crashn : ℕ

abbrev pub is_for : (dev blockno : ℕ) → Buf → Bool
is_for dev blockno b = b.dev == dev && b.blockno == blockno

abbrev pub is_unused : Buf → Bool
is_unused b = b.refcnt == 0 && not b.dirty

-- The scan from `head.prev` backwards: the last buffer that may be recycled.
unfoldable pub find_last : List Buf → Option ℕ
find_last [] = none
find_last (b ∷ bs) = elim (find_last bs) [
  | some i ↦ some (suc i)
  | none ↦ if is_unused b then some zero else none
]

abbrev pub set_buf : Cache → ℕ → Buf → Cache
set_buf s i b = record s { bufs = set s.bufs i b }

abbrev pub recycled : (dev blockno : ℕ) → Buf → Buf
recycled dev blockno b = record b {
  dev = dev;
  blockno = blockno;
  valid = false;
  dirty = false;
  refcnt = 1;
}

abbrev pub change : Cache → ℕ → (Buf → Buf) → Outcome (ℕ × Cache)
change s i f = elim (get_elem? s.bufs i) [ none ↦ panic | some b ↦ ok (i, set_buf s i (f b)) ]

-- `bget` up to its call of `acquiresleep`: the place of the buffer in the list.
unfoldable pub bget : Cache → (dev blockno : ℕ) → Outcome (ℕ × Cache)
bget s dev blockno = elim (find_index? (is_for dev blockno) s.bufs) [
  | some i ↦ change s i (λ b. record b { refcnt = add32 b.refcnt 1 })
  | none ↦ elim (find_last s.bufs) [ some i ↦ change s i (recycled dev blockno) | none ↦ panic ]
]

-- `iderw` on the buffer `b` in place `i`.
abbrev pub transfer : Cache → ℕ → Buf → Cache
transfer s i b =
    if b.dirty
    then record s {
      bufs = set s.bufs i (record b { dirty = false; valid = true });
      disk = λ n. if n == b.blockno then b.bytes else s.disk n;
    }
    else set_buf s i (record b { bytes = s.disk b.blockno; valid = true })

abbrev pub bad_request : Cache → Buf → Bool
bad_request s b =
    not b.locked || (b.valid && not b.dirty || (not (b.dev == 1) || leb s.disksize b.blockno))

unfoldable pub iderw : Cache → ℕ → Outcome Cache
iderw s i = elim (get_elem? s.bufs i) [
  | none ↦ panic
  | some b ↦ if bad_request s b then panic else ok (transfer s i b)
]

-- `acquiresleep` on a buffer's lock goes to sleep if it is taken.
pub data Bread : Type 0 where
  got : ℕ → Cache → Bread
  bread_sleeps : ℕ → Cache → Bread
  bread_panics : Bread

abbrev pub read_ended : ℕ → Outcome Cache → Bread
read_ended i panic = bread_panics
read_ended i (ok t) = got i t

abbrev pub read_if_stale : ℕ → Buf → Cache → Bread
read_if_stale i b s = if b.valid then got i s else read_ended i (iderw s i)

-- The rest of `bread`, from `acquiresleep` in `bget` on.
unfoldable pub lock_and_read : ℕ → Cache → Bread
unfolding iderw
lock_and_read i s = elim (get_elem? s.bufs i) [
  | none ↦ bread_panics
  | some b ↦
      if b.locked
      then bread_sleeps i s
      else read_if_stale i b (set_buf s i (record b { locked = true }))
]

unfoldable pub bread : Cache → (dev blockno : ℕ) → Bread
unfolding bget lock_and_read
bread s dev blockno = elim (bget s dev blockno) [
  | panic ↦ bread_panics
  | ok r ↦ lock_and_read r.0 r.1
]

-- `reboots` is the crash that a test of the file system asks for.
pub data Bwrite : Type 0 where
  written : Cache → Bwrite
  reboots : Bwrite
  bwrite_panics : Bwrite

abbrev pub write_ended : Outcome Cache → Bwrite
write_ended panic = bwrite_panics
write_ended (ok t) = written t

abbrev pub write_out : Cache → ℕ → Bwrite
unfolding iderw
write_out s i = elim (get_elem? s.bufs i) [
  | none ↦ bwrite_panics
  | some b ↦
      if b.locked
      then write_ended (iderw (set_buf s i (record b { dirty = true })) i)
      else bwrite_panics
]

unfoldable pub bwrite : Cache → ℕ → Bwrite
unfolding write_out
bwrite s i =
    if s.crashn_enable
    then (if is_neg (sub32 s.crashn 1)
        then reboots
        else write_out (record s { crashn = sub32 s.crashn 1 }) i)
    else write_out s i

abbrev pub without : List Buf → ℕ → List Buf
without [] i = []
without (b ∷ bs) zero = bs
without (b ∷ bs) (suc i) = b ∷ without bs i

-- `brelse`: the lock is given up, and a buffer that nobody holds moves to the front.
unfoldable pub brelse : Cache → ℕ → Outcome Cache
brelse s i = elim (get_elem? s.bufs i) [
  | none ↦ panic
  | some b ↦
      let left = record b { locked = false; refcnt = sub32 b.refcnt 1 } in
      if b.locked
      then (if left.refcnt == 0
          then ok (record s { bufs = left ∷ without s.bufs i })
          else ok (set_buf s i left))
      else panic
]
