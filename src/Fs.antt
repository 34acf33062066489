-- ===== src/Fs.antt =====
-- The data of files, kernel/fs.c: readi and writei on the blocks of a container's user disk, and the
-- inode file. The disk is what the buffer cache answers for each block of ROOTDEV.
pub mod Cached
pub mod Inodes
pub mod Names
pub mod Paths
pub mod Reads
mod Tests
pub mod Updates
pub mod Walks
pub mod Writes
use microkernal.Common.{
  Bool, List, Option, add32, copy_in, get_or, if◌then◌else◌, leb, ltb, min, none, not, some, suc,
  zero, ℕ, ◌%◌, ◌&&◌, ◌*◌, ◌+◌, ◌-◌, ◌/◌, ◌==◌, ◌^◌, ◌||◌,
}

abbrev pub Disk : Type 0
Disk = ℕ → List ℕ

abbrev pub bsize : ℕ
bsize = 512

abbrev pub udisksize : ℕ
udisksize = 1000

-- `struct extent`
pub record Extent : Type 0 where
  pub startblkno : ℕ
  pub nblocks : ℕ

-- `struct inode` without its lock. `kind` is the field `type`; `ref` is the pattern of an `int`.
pub record Inode : Type 0 where
  pub dev : ℕ
  pub inum : ℕ
  pub ref : ℕ
  pub kind : ℕ
  pub devid : ℕ
  pub size : ℕ
  pub extent : Extent

abbrev pub t_dir : ℕ
t_dir = 1

abbrev pub t_file : ℕ
t_file = 2

abbrev pub t_dev : ℕ
t_dev = 3

-- The block of container `cid` that holds byte `off` of the file.
abbrev pub block_of : (cid : ℕ) → Inode → ℕ → ℕ
block_of cid ip off = (ip.extent.startblkno + (cid + 1) * udisksize + off / bsize) % 2 ^ 32

-- The copy of one round of `readi`: `m` bytes from the block, to byte `tot` of the destination.
abbrev pub read_chunk : Disk → (cid : ℕ) → Inode → (off tot m : ℕ) → List ℕ → List ℕ
read_chunk disk cid ip off tot m dst =
    copy_in dst tot m (λ j. get_or (disk (block_of cid ip off)) (off % bsize + j) 0)

-- The loop of `readi`, with `left` bytes to go; each round takes at least one.
unfoldable pub read_loop :
    (fuel : ℕ) → Disk → (cid : ℕ) → Inode → (off tot left : ℕ) → List ℕ → List ℕ
unfolding copy_in
read_loop zero disk cid ip off tot left dst = dst
read_loop (suc fuel) disk cid ip off tot left dst =
    let m = min left (bsize - off % bsize) in
    let rest =
      read_loop fuel disk cid ip (add32 off m) (add32 tot m) (left - m)
        (read_chunk disk cid ip off tot m dst) in
    if left == 0 then dst else rest

-- `min(n, ip->size - off)` once the range is found good.
abbrev pub clip : Inode → (off n : ℕ) → ℕ
clip ip off n = if ltb ip.size (add32 off n) then ip.size - off else n

-- `readi` of a file that is no device: the result, `none` for -1, and the destination.
unfoldable pub read_file : Disk → (cid : ℕ) → Inode → (off n : ℕ) → List ℕ → Option ℕ × List ℕ
unfolding read_loop
read_file disk cid ip off n dst =
    if ltb ip.size off || ltb (add32 off n) off
    then (none, dst)
    else (some (clip ip off n), read_loop (clip ip off n) disk cid ip off 0 (clip ip off n) dst)

-- The functions of a device in `devsw`: result and new destination of a read, result of a write.
pub record Device : Type 0 where
  pub read : (n : ℕ) → List ℕ → Option ℕ × List ℕ
  pub write : (n : ℕ) → (ℕ → ℕ) → Option ℕ

-- A `devid` is the pattern of a `short`; NDEV is 10, and `devsw` says which devices have functions.
abbrev pub device_of : (ℕ → Option Device) → Inode → Option Device
device_of devsw ip = if leb 10 ip.devid then none else devsw ip.devid

unfoldable pub readi :
    (ℕ → Option Device) → Disk → (cid : ℕ) → Inode → (off n : ℕ) → List ℕ → Option ℕ × List ℕ
unfolding read_file
readi devsw disk cid ip off n dst =
    if ip.kind == t_dev
    then elim (device_of devsw ip) [ none ↦ (none, dst) | some d ↦ d.read n dst ]
    else read_file disk cid ip off n dst

abbrev pub write_chunk : Disk → (cid : ℕ) → Inode → (off bn : ℕ) → (ℕ → ℕ) → Disk
write_chunk disk cid ip off bn src b =
    if block_of cid ip off == b then copy_in (disk b) (off % bsize) bn src else disk b

-- The loop of `writei`, with `n` bytes to go; `bwrite` puts each block on the disk.
unfoldable pub write_file_loop :
    (fuel : ℕ) → Disk → (cid : ℕ) → Inode → (off n : ℕ) → (ℕ → ℕ) → Disk
unfolding copy_in
write_file_loop zero disk cid ip off n src = disk
write_file_loop (suc fuel) disk cid ip off n src =
    let bn = if ltb n (bsize - off % bsize) then n else bsize - off % bsize in
    let rest =
      write_file_loop fuel (write_chunk disk cid ip off bn src) cid ip (add32 off bn) (n - bn)
        (λ j. src (bn + j)) in
    if n == 0 then disk else rest

-- `writei` of a file that is no device, up to the size: the disk and the inode.
unfoldable pub write_file : Disk → (cid : ℕ) → Inode → (off n : ℕ) → (ℕ → ℕ) → Disk × Inode
unfolding write_file_loop
write_file disk cid ip off n src = (
  write_file_loop n disk cid ip off n src,
  if ltb ip.size (add32 off n) then record ip { size = add32 off n } else ip,
)

-- The size has grown, and the inode file is to be told.
abbrev pub tells : Inode → (off n : ℕ) → Bool
tells ip off n = ltb ip.size (add32 off n) && (not (ip.inum == 0) || not (off == 0))

-- `w` bytes of `x`, the lowest first.
abbrev pub le_byte : (x i : ℕ) → ℕ
le_byte x i = x / 2 ^ (8 * i) % 256

-- Byte `i` of the `struct dinode` that `updateInodeFile` makes of `ip`. It leaves `devid` and the padding
-- as they are on the stack.
abbrev pub dinode_byte : Inode → (stack : ℕ → ℕ) → ℕ → ℕ
dinode_byte ip stack i =
    if ltb i 2
    then le_byte ip.kind i
    else if ltb i 4
    then stack i
    else if ltb i 8
    then le_byte ip.size (i - 4)
    else if ltb i 12
    then le_byte ip.extent.startblkno (i - 8)
    else if ltb i 16
    then le_byte ip.extent.nblocks (i - 12)
    else stack i

-- INODEOFF, with 64 bytes for an inode.
abbrev pub inodeoff : ℕ → ℕ
inodeoff inum = inum * 64 % 2 ^ 32

-- The disk and `icache.inodefile`, for the container `cid` of the process.
pub record UserDisk : Type 0 where
  pub disk : Disk
  pub inodefile : Inode

abbrev pub write_inodefile : (cid : ℕ) → UserDisk → (off : ℕ) → (ℕ → ℕ) → UserDisk
write_inodefile cid s off bytes =
    let w = write_file s.disk cid s.inodefile off 64 bytes in record { disk = w.0; inodefile = w.1 }

-- `updateInodeFile` writes to the inode file. If this makes it grow, `writei` calls it again for the
-- inode file itself, at offset 0, where the calls end.
unfoldable pub update_inode_file : (cid : ℕ) → UserDisk → Inode → (stack : ℕ → ℕ) → UserDisk
unfolding write_file
update_inode_file cid s ip stack =
    let t = write_inodefile cid s (inodeoff ip.inum) (dinode_byte ip stack) in
    if tells s.inodefile (inodeoff ip.inum) 64
    then write_inodefile cid t 0 (dinode_byte t.inodefile stack)
    else t

-- `writei` of an inode of the cache: the result, the disk and the inode.
unfoldable pub writei :
    (ℕ → Option Device)
    → (cid : ℕ) → UserDisk
    → Inode
    → (off n : ℕ) → (src stack : ℕ → ℕ) → Option ℕ × UserDisk × Inode
unfolding write_file update_inode_file
writei devsw cid s ip off n src stack =
    let w = write_file s.disk cid ip off n src in
    let t = record s { disk = w.0 } in
    if ip.kind == t_dev
    then (elim (device_of devsw ip) [ none ↦ none | some d ↦ d.write n src ], s, ip)
    else (some n, if tells ip off n then update_inode_file cid t w.1 stack else t, w.1)
