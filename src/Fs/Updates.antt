-- ===== src/Fs/Updates.antt =====
-- writei of kernel/fs.c with what updateInodeFile writes when the file has grown.
use microkernal.Common.{
  ==-of_ne, Bool-cases, List, Option, ap, arith, false, get_or, if◌then◌else◌, inl, inr, length,
  refl, some, subst, sym, ℕ, ◌%◌, ◌+◌, ◌-◌, ◌/◌, ◌<◌, ◌==◌, ◌^◌, ◌∙◌, ◌≡◌, ◌≢◌, ◌≤◌,
}
use microkernal.Fs.{
  Device, Inode, UserDisk, block_of, dinode_byte, inodeoff, readi, t_dev, tells, update_inode_file,
  write_file, write_inodefile, writei,
}
use microkernal.Fs.Reads.{byte_at}
use microkernal.Fs.Writes.{
  Below, IsWhole, WriteEnds, read_back, separate, write_file-WriteEnds, write_file_loop-other,
}

-- Block `b` holds no byte of the inode file that updateInodeFile writes for inode `inum`: its 64 bytes
-- and, for a grown inode file, the first 64.
abbrev pub Untouched : (cid : ℕ) → Inode → (inum b : ℕ) → Type 0
Untouched cid f inum b =
    ((k : ℕ) → inodeoff inum ≤ k → k < inodeoff inum + 64 → block_of cid f k ≢ b)
    × ((k : ℕ) → k < 64 → block_of cid f k ≢ b)

write_inodefile-other :
    (cid : ℕ) (s : UserDisk) (off : ℕ) (bytes : ℕ → ℕ) (b : ℕ)
    → off + 64 < 2 ^ 32
    → ((k : ℕ) → off ≤ k → k < off + 64 → block_of cid s.inodefile k ≢ b)
    → (write_inodefile cid s off bytes).disk b ≡ s.disk b
unfolding write_file
write_inodefile-other cid s off bytes b small far =
    write_file_loop-other 64 s.disk cid s.inodefile off 64 bytes b small far

-- The inode file may grow, but stays where it is.
write_inodefile-block_of :
    (cid : ℕ) (s : UserDisk) (off : ℕ) (bytes : ℕ → ℕ) (k : ℕ)
    → block_of cid (write_inodefile cid s off bytes).inodefile k ≡ block_of cid s.inodefile k
unfolding write_file
write_inodefile-block_of cid s off bytes k = ground arith

update_inode_file-other :
    (cid : ℕ) (s : UserDisk) (ip : Inode) (stack : ℕ → ℕ) (b : ℕ)
    → inodeoff ip.inum + 64 < 2 ^ 32
    → Untouched cid s.inodefile ip.inum b
    → (update_inode_file cid s ip stack).disk b ≡ s.disk b
unfolding update_inode_file
update_inode_file-other cid s ip stack b small (far, first) =
    let at = inodeoff ip.inum in
    let t = write_inodefile cid s at (dinode_byte ip stack) in
    let once : t.disk b ≡ s.disk b =
      write_inodefile-other cid s at (dinode_byte ip stack) b small far in
    elim (Bool-cases (tells s.inodefile at 64)) [
      | inr e ↦ rw e once
      | inl e ↦ rw e (
          write_inodefile-other cid t 0 (dinode_byte t.inodefile stack) b (omega arith)
            (λ k lo hi z.
              first k hi (sym (write_inodefile-block_of cid s at (dinode_byte ip stack) k) ∙ z))
          ∙ once)
    ]

-- What `writei` of a file leaves on the disk, with the inode file told or not.
abbrev told : (cid : ℕ) → UserDisk → (ip grown : Inode) → (off n : ℕ) → (stack : ℕ → ℕ) → UserDisk
told cid s ip grown off n stack = if tells ip off n then update_inode_file cid s grown stack else s

told-other :
    (cid : ℕ) (s : UserDisk) (ip grown : Inode) (off n : ℕ) (stack : ℕ → ℕ) (b : ℕ)
    → inodeoff grown.inum + 64 < 2 ^ 32
    → Untouched cid s.inodefile grown.inum b
    → (told cid s ip grown off n stack).disk b ≡ s.disk b
told-other cid s ip grown off n stack b small far = elim (Bool-cases (tells ip off n)) [
  | inl e ↦ rw e (update_inode_file-other cid s grown stack b small far)
  | inr e ↦ rw e refl
]

module _ (devsw : ℕ → Option Device) (cid : ℕ) (s : UserDisk) (ip : Inode) (off n : ℕ)
    (src stack : ℕ → ℕ) where
  abbrev data_written : UserDisk
  unfolding write_file
  data_written = record s { disk = (write_file s.disk cid ip off n src).0 }

  writei-file :
      ip.kind ≢ t_dev
      → writei devsw cid s ip off n src stack ≡ (
        some n,
        told cid data_written ip (write_file s.disk cid ip off n src).1 off n stack,
        (write_file s.disk cid ip off n src).1,
      )
  unfolding writei data_written
  writei-file file = rw (==-of_ne ip.kind t_dev file) refl

  -- On a disk of whole blocks, where neither the range nor its block numbers nor the place in the inode
  -- file wrap and the destination has room, a `writei` to a file that is no device, in blocks of which none
  -- is written by updateInodeFile for the same inode, answers `n`, and `readi` of the disk and the inode
  -- that it leaves reads back in full what it has written, also when the file has grown.
  pub readi-writei :
      (dst : List ℕ)
      → IsWhole s.disk
      → ip.kind ≢ t_dev
      → off + n < 2 ^ 32
      → Below cid ip (off + n)
      → inodeoff ip.inum + 64 < 2 ^ 32
      → ((k : ℕ) → off ≤ k → k < off + n → Untouched cid s.inodefile ip.inum (block_of cid ip k))
      → n ≤ length dst
      → ((writei devsw cid s ip off n src stack).0 ≡ some n)
        × ((out : List ℕ) × (readi devsw
                (writei devsw cid s ip off n src stack).1.disk
                cid
                (writei devsw cid s ip off n src stack).2
                off
                n
                dst
              ≡ (some n, out))
            × ((j : ℕ) → j < n → get_or out j 0 ≡ src j))
  unfolding readi data_written
  readi-writei dst whole file small below place far fits =
      let w = write_file s.disk cid ip off n src in
      let e : WriteEnds s.disk cid ip off n src w =
        write_file-WriteEnds s.disk cid ip off n src whole small below in
      let u = told cid data_written ip w.1 off n stack in
      let inum : w.1.inum ≡ ip.inum = ap (λ (x : Inode). x.inum) e.grown in
      let kind : (w.1.kind == t_dev) ≡ false =
        ap (λ (x : Inode). x.kind == t_dev) e.grown ∙ ==-of_ne ip.kind t_dev file in
      let same : (k : ℕ) → off ≤ k → k < off + n → byte_at u.disk cid w.1 k ≡ src (k - off) =
        λ k lo hi.
          let b : block_of cid w.1 k ≡ block_of cid ip k =
            ap (λ (x : Inode). block_of cid x k) e.grown in
          ap (λ bs. get_or bs (k % 512) 0)
            (told-other cid data_written ip w.1 off n stack (block_of cid w.1 k) (omega arith) (
              subst (λ i. Untouched cid s.inodefile i (block_of cid w.1 k)) (sym inum)
                (subst (Untouched cid s.inodefile ip.inum) (sym b) (far k lo hi))))
          ∙ e.written k lo hi in
      let read =
        read_back u.disk cid w.1 off n src dst small fits
          (omega (arith, ap (λ (x : Inode). x.size) e.grown)) same in
      rw (writei-file file) (refl, (rw kind read))

  -- A `writei` by one container, with its update of the inode file, changes no byte in the user disk of
  -- another, where the range written and the entry of the inode in the inode file lie within the 1000
  -- blocks of the container's user disk, the byte within those of the other's, the range does not wrap and
  -- both numbers of containers are below 2²⁰. A write to a device changes no byte.
  pub writei_isolated :
      (other k : ℕ) (ip' : Inode)
      → cid ≢ other
      → cid < 2 ^ 20
      → other < 2 ^ 20
      → off + n < 2 ^ 32
      → ip.extent.startblkno + (off + n) / 512 < 1000
      → s.inodefile.extent.startblkno + (inodeoff ip.inum + 64) / 512 < 1000
      → ip'.extent.startblkno + k / 512 < 1000
      → byte_at (writei devsw cid s ip off n src stack).1.disk other ip' k
        ≡ byte_at s.disk other ip' k
  unfolding write_file writei data_written
  writei_isolated other k ip' ne c o small inside entry inside' =
      let b = block_of other ip' k in
      let w = write_file s.disk cid ip off n src in
      let grown : w.1.inum ≡ ip.inum = ground arith in
      let wrote : data_written.disk b ≡ s.disk b =
        write_file_loop-other n s.disk cid ip off n src b small (λ j lo hi e.
          separate cid other ip.extent.startblkno ip'.extent.startblkno (j / 512) (k / 512) ne c o
            (omega arith) inside' e) in
      let apart : (j : ℕ) → j < inodeoff ip.inum + 64 → block_of cid s.inodefile j ≢ b = λ j hi e.
        separate cid other s.inodefile.extent.startblkno ip'.extent.startblkno (j / 512) (k / 512)
          ne c o (omega arith) inside' e in
      let rest = told-other cid data_written ip w.1 off n stack b (omega arith) (
        subst (λ i. Untouched cid s.inodefile i b) (sym grown)
          (λ j lo hi. apart j hi, λ j hi. apart j (omega arith))) in
      elim (Bool-cases (ip.kind == t_dev)) [
        | inl e ↦ rw e refl
        | inr e ↦ rw e (ap (λ bs. get_or bs (k % 512) 0) (rest ∙ wrote))
      ]
