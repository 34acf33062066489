-- ===== src/Fs/Reads.antt =====
-- What readi answers, kernel/fs.c: the bytes of the file.
use microkernal.Common.{
  Bool-cases, List, Option, add32, arith, get_or, get_or-copy_in, if◌then◌else◌, inl, inr, leb,
  length, length-copy_in, ltb, min, ne_of_==, none, refl, some, suc, zero, ℕ, ◌%◌, ◌&&◌, ◌+◌, ◌-◌,
  ◌/◌, ◌<◌, ◌==◌, ◌^◌, ◌||◌, ◌∙◌, ◌≡◌, ◌≢◌, ◌≤◌,
}
use microkernal.Fs.{Disk, Inode, block_of, bsize, clip, read_chunk, read_loop, read_file}

-- Byte `k` of the file `ip`, for container `cid`.
abbrev pub byte_at : Disk → (cid : ℕ) → Inode → ℕ → ℕ
byte_at disk cid ip k = get_or (disk (block_of cid ip k)) (k % bsize) 0

chunk_byte :
    (disk : Disk) (cid : ℕ) (ip : Inode) (off j : ℕ)
    → off % 512 + j < 512
    → get_or (disk (block_of cid ip off)) (off % bsize + j) 0 ≡ byte_at disk cid ip (off + j)
chunk_byte disk cid ip off j h =
    let d : off / 512 ≡ (off + j) / 512 = omega arith in
    let r : off % 512 + j ≡ (off + j) % 512 = omega arith in rw d (rw r refl)

-- `dst` holds the file's bytes from `off` on in `left` places from `tot` on, and is `old` elsewhere.
abbrev Filled : Disk → (cid : ℕ) → Inode → (off tot left : ℕ) → (old dst : List ℕ) → ℕ → Type 0
Filled disk cid ip off tot left old dst j = get_or dst j 0 ≡ (
    if leb tot j && ltb j (tot + left)
    then byte_at disk cid ip (off + (j - tot))
    else get_or old j 0)

-- One round of `m` bytes, and the rest.
Filled-step :
    (disk : Disk) (cid : ℕ) (ip : Inode) (off tot left m : ℕ) (old dst : List ℕ) (j : ℕ)
    → m ≤ left
    → off % 512 + m ≤ 512
    → tot + left ≤ length old
    → Filled disk cid ip (off + m) (tot + m) (left - m) (read_chunk disk cid ip off tot m old) dst j
    → Filled disk cid ip off tot left old dst j
Filled-step disk cid ip off tot left m old dst j le in_block fits rest =
    let c =
      get_or-copy_in old tot m (λ i. get_or (disk (block_of cid ip off)) (off % bsize + i) 0) j
        (omega arith) in
    rw rest (
      rw c (elim (Bool-cases (leb (tot + m) j)) [
        | inl e ↦
            let z : off + m + (j - (tot + m)) ≡ off + (j - tot) = ground arith in
            rw z (ground arith)
        | inr e ↦ elim (Bool-cases (leb tot j)) [
          | inl t ↦ rw (chunk_byte disk cid ip off (j - tot) (ground arith)) (ground arith)
          | inr t ↦ ground arith
        ]
      ]))

-- The loop fills `left` bytes of the destination with those of the file.
read_loop-Filled :
    (fuel : ℕ) (disk : Disk) (cid : ℕ) (ip : Inode) (off tot left : ℕ) (dst : List ℕ) (j : ℕ)
    → left ≤ fuel
    → off + left < 2 ^ 32
    → tot + left ≤ length dst
    → tot + left < 2 ^ 32
    → Filled disk cid ip off tot left dst (read_loop fuel disk cid ip off tot left dst) j
unfolding read_loop
read_loop-Filled zero disk cid ip off tot left dst j enough small fits short = ground arith
read_loop-Filled (suc fuel) disk cid ip off tot left dst j enough small fits short =
    elim (Bool-cases (left == 0)) [
      | inl e ↦ rw (e, read_loop) (ground arith)
      | inr e ↦
          let m = min left (bsize - off % bsize) in
          let o : add32 off m ≡ off + m = omega arith in
          let t : add32 tot m ≡ tot + m = omega arith in
          let ne : left ≢ 0 = ne_of_== left 0 e in
          let l =
            length-copy_in dst tot m
              (λ i. get_or (disk (block_of cid ip off)) (off % bsize + i) 0) in
          rw (e, read_loop)
            (rw o (
              rw t (
                Filled-step disk cid ip off tot left m dst _ j (omega arith) (omega arith) fits (
                  read_loop-Filled fuel disk cid ip (off + m) (tot + m) (left - m)
                    (read_chunk disk cid ip off tot m dst) j (omega arith) (omega arith)
                    (omega (arith, l)) (omega arith)))))
    ]

start-Filled :
    (disk : Disk) (cid : ℕ) (ip : Inode) (off k : ℕ) (old dst : List ℕ) (j : ℕ)
    → Filled disk cid ip off 0 k old dst j
    → get_or dst j 0 ≡ (if ltb j k then byte_at disk cid ip (off + j) else get_or old j 0)
start-Filled disk cid ip off k old dst j f =
    let z : j - 0 ≡ j = omega arith in f ∙ rw z (ground arith)

-- A read within the file answers the number of bytes up to its end, at most `n`, puts the file's bytes
-- from `off` on there, and leaves the rest of the destination; a read behind the end answers -1.
abbrev pub ReadEnds : Disk → (cid : ℕ) → Inode → (off n : ℕ) → List ℕ → Option ℕ × List ℕ → Type 0
ReadEnds disk cid ip off n old (none, dst) = (ip.size < off) × (dst ≡ old)
ReadEnds disk cid ip off n old (some k, dst) =
    (off ≤ ip.size)
    × (k ≡ min n (ip.size - off))
    × ((j : ℕ)
        → get_or dst j 0 ≡ (if ltb j k then byte_at disk cid ip (off + j) else get_or old j 0))

-- Where the range does not wrap and the destination has room, `readi` of a file that is no device
-- answers -1 behind the end, and else the number of bytes up to the end, at most `n`: it puts the
-- bytes of the flat file from `off` on there and leaves the rest of the destination.
pub read_file-ReadEnds :
    (disk : Disk) (cid : ℕ) (ip : Inode) (off n : ℕ) (dst : List ℕ)
    → off + n < 2 ^ 32
    → n ≤ length dst
    → ReadEnds disk cid ip off n dst (read_file disk cid ip off n dst)
unfolding read_file
read_file-ReadEnds disk cid ip off n dst small fits =
    let w : add32 off n ≡ off + n = omega arith in
    elim (Bool-cases (ltb ip.size off || ltb (add32 off n) off)) [
      | inl e ↦ rw e (ground arith, refl)
      | inr e ↦
          let k = clip ip off n in
          let c : k ≡ min n (ip.size - off) = ground arith in
          rw e (
            ground arith,
            c,
            λ j. start-Filled disk cid ip off k dst _ j (
                read_loop-Filled k disk cid ip off 0 k dst j (omega arith) (omega arith)
                  (omega arith) (omega arith)),
          )
    ]
