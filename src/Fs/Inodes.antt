-- ===== src/Fs/Inodes.antt =====
-- The cache of inodes, kernel/fs.c: iget, idup and irelease, on slots of a list. A slot
-- number stands for a pointer.
use microkernal.Common.{
  Bool, List, Option, Outcome, add32, find_index?, get_elem?, get_or, gt_int, if◌then◌else◌, none,
  ok, panic, set, some, sub32, suc, zero, ℕ, ◌&&◌, ◌*◌, ◌+◌, ◌==◌,
}
use microkernal.Fs.{Device, Extent, UserDisk, Inode, inodeoff, readi}

-- `struct dinode`
pub record Dinode : Type 0 where
  pub kind : ℕ
  pub devid : ℕ
  pub size : ℕ
  pub extent : Extent

abbrev pub le_number : List ℕ → (at n : ℕ) → ℕ
le_number bs at zero = 0
le_number bs at (suc n) = get_or bs at 0 + 256 * le_number bs (suc at) n

abbrev pub decode : List ℕ → Dinode
decode bs = record {
  kind = le_number bs 0 2;
  devid = le_number bs 2 2;
  size = le_number bs 4 4;
  extent = record { startblkno = le_number bs 8 4; nblocks = le_number bs 12 4 };
}

-- What `read_dinode` leaves in `dip`, which held `stack` before. Its result is not looked at.
abbrev pub read_dinode :
    (ℕ → Option Device) → (cid : ℕ) → UserDisk → (inum : ℕ) → (stack : List ℕ) → Dinode
read_dinode devsw cid s inum stack =
    decode (readi devsw s.disk cid s.inodefile (inodeoff inum) 64 stack).1

abbrev pub is_cached : (dev inum : ℕ) → Inode → Bool
is_cached dev inum ip = gt_int ip.ref 0 && ip.dev == dev && ip.inum == inum

abbrev pub is_empty_slot : Inode → Bool
is_empty_slot ip = ip.ref == 0

abbrev pub with_ref : Inode → ℕ → Inode
with_ref ip ref = record ip { ref = ref }

abbrev pub change_slot : List Inode → ℕ → (Inode → Inode) → List Inode
change_slot c i f = elim (get_elem? c i) [ none ↦ c | some ip ↦ set c i (f ip) ]

-- What `iget` writes to an empty slot before it releases icache.lock.
abbrev pub claimed : (dev inum : ℕ) → Inode → Inode
claimed dev inum ip = record ip { ref = 1; dev = dev; inum = inum }

-- What it copies to the slot from the `struct dinode`, without the lock.
abbrev pub filled : Dinode → Inode → Inode
filled d ip = record ip { kind = d.kind; devid = d.devid; size = d.size; extent = d.extent }

abbrev pub loaded_inode : (dev inum : ℕ) → Dinode → Inode → Inode
loaded_inode dev inum d ip = filled d (claimed dev inum ip)

abbrev pub grabbed : Inode → Inode
grabbed ip = with_ref ip (add32 ip.ref 1)

-- A slot that nobody uses gets what `read_dinode` has read.
abbrev pub recycle : List Inode → (dev inum : ℕ) → Dinode → Option ℕ → Outcome (ℕ × List Inode)
recycle c dev inum d none = panic
recycle c dev inum d (some i) =
    if d.kind == 0 then panic else ok (i, change_slot c i (loaded_inode dev inum d))

-- From the cached slot that the scan has found, or none.
abbrev pub take_slot : List Inode → (dev inum : ℕ) → Dinode → Option ℕ → Outcome (ℕ × List Inode)
take_slot c dev inum d (some i) = ok (i, change_slot c i grabbed)
take_slot c dev inum d none = recycle c dev inum d (find_index? is_empty_slot c)

-- The slot of the inode, and the cache. The scan looks at the slots in their order, and remembers the
-- first that is empty; `d` is what `read_dinode` would read. `iget` gives icache.lock up before it reads and fills
-- the slot; this is a call during which no other process uses the cache.
unfoldable pub iget : List Inode → (dev inum : ℕ) → Dinode → Outcome (ℕ × List Inode)
iget c dev inum d = take_slot c dev inum d (find_index? (is_cached dev inum) c)

unfoldable pub idup : List Inode → ℕ → List Inode
idup c i = change_slot c i grabbed

abbrev pub dropped : Inode → Inode
dropped ip = record ip { kind = if ip.ref == 1 then 0 else ip.kind; ref = sub32 ip.ref 1 }

unfoldable pub irelease : List Inode → ℕ → List Inode
irelease c i = change_slot c i dropped
