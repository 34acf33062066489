-- ===== src/Fs/Writes.antt =====
-- What writei does to the bytes of a file and to the rest of the disk, kernel/fs.c.
use microkernal.Common.{
  ==-of_ne, Bool-cases, List, Option, add32, ap, arith, eq_of_==, false, get_or, get_or-copy_in,
  if◌then◌else◌, inl, inr, leb, length, length-copy_in, ltb, max, ne_of_==, none, refl, some, subst,
  suc, sym, true, zero, ℕ, ◌%◌, ◌&&◌, ◌*◌, ◌+◌, ◌-◌, ◌/◌, ◌<◌, ◌==◌, ◌^◌, ◌∙◌, ◌≡◌, ◌≢◌, ◌≤◌, ◌⊎◌,
}
use microkernal.Fs.{
  Disk, Inode, block_of, bsize, write_chunk, write_file_loop, write_file, read_file,
}
use microkernal.Fs.Reads.{byte_at, read_file-ReadEnds, ReadEnds}

-- Every block of the disk is whole.
abbrev pub IsWhole : Disk → Type 0
IsWhole disk = (b : ℕ) → length (disk b) ≡ 512

-- The numbers of the file's blocks up to byte `k` do not wrap.
abbrev pub Below : (cid : ℕ) → Inode → ℕ → Type 0
Below cid ip k = ip.extent.startblkno + (cid + 1) * 1000 + k / 512 < 2 ^ 32

write_chunk-IsWhole :
    (disk : Disk) (cid : ℕ) (ip : Inode) (off m : ℕ) (src : ℕ → ℕ)
    → IsWhole disk
    → IsWhole (write_chunk disk cid ip off m src)
write_chunk-IsWhole disk cid ip off m src h b = elim (Bool-cases (block_of cid ip off == b)) [
  | inl e ↦ rw e (length-copy_in (disk b) (off % bsize) m src ∙ h b)
  | inr e ↦ rw e (h b)
]

-- Byte `k` of the file after `n` bytes of `src` went to `off`.
abbrev Put : Disk → (cid : ℕ) → Inode → (off n : ℕ) → (ℕ → ℕ) → Disk → ℕ → Type 0
Put disk cid ip off n src disk' k =
    byte_at disk' cid ip k
    ≡ (if leb off k && ltb k (off + n) then src (k - off) else byte_at disk cid ip k)

write_chunk-Put :
    (disk : Disk) (cid : ℕ) (ip : Inode) (off m : ℕ) (src : ℕ → ℕ) (k : ℕ)
    → IsWhole disk
    → off % 512 + m ≤ 512
    → Below cid ip off
    → Below cid ip k
    → Put disk cid ip off m src (write_chunk disk cid ip off m src) k
write_chunk-Put disk cid ip off m src k whole h b c =
    elim (Bool-cases (block_of cid ip off == block_of cid ip k)) [
      | inl e ↦
          let same : off / 512 ≡ k / 512 = omega (arith, eq_of_== _ _ e) in
          let z : k % 512 - off % 512 ≡ k - off = omega arith in
          let g =
            get_or-copy_in (disk (block_of cid ip k)) (off % 512) m src (k % 512)
              (omega (arith, whole (block_of cid ip k))) in
          let lo : leb (off % 512) (k % 512) ≡ leb off k = ground arith in
          let hi : ltb (k % 512) (off % 512 + m) ≡ ltb k (off + m) = ground arith in
          rw e (g ∙ rw z (rw lo (rw hi refl)))
      | inr e ↦
          let ne : block_of cid ip off ≢ block_of cid ip k = ne_of_== _ _ e in
          let other : off / 512 ≢ k / 512 = λ z. ne (rw z refl) in
          let out : (leb off k && ltb k (off + m)) ≡ false = ground arith in rw e (rw out refl)
    ]

-- One round of `m` bytes, and the rest.
Put-step :
    (disk : Disk) (cid : ℕ) (ip : Inode) (off n m : ℕ) (src : ℕ → ℕ) (disk' : Disk) (k : ℕ)
    → m ≤ n
    → Put disk cid ip off m src (write_chunk disk cid ip off m src) k
    → Put (write_chunk disk cid ip off m src) cid ip (off + m) (n - m) (λ j. src (m + j)) disk' k
    → Put disk cid ip off n src disk' k
Put-step disk cid ip off n m src disk' k le first rest = elim (Bool-cases (leb (off + m) k)) [
  | inl e ↦
      let z : m + (k - (off + m)) ≡ k - off = ground arith in rest ∙ rw first (rw z (ground arith))
  | inr e ↦ rest ∙ rw first (ground arith)
]

write_file_loop-Put :
    (fuel : ℕ) (disk : Disk) (cid : ℕ) (ip : Inode) (off n : ℕ) (src : ℕ → ℕ) (k : ℕ)
    → n ≤ fuel
    → off + n < 2 ^ 32
    → IsWhole disk
    → Below cid ip (off + n)
    → Below cid ip k
    → Put disk cid ip off n src (write_file_loop fuel disk cid ip off n src) k
unfolding write_file_loop
write_file_loop-Put zero disk cid ip off n src k enough small whole b c = ground arith
write_file_loop-Put (suc fuel) disk cid ip off n src k enough small whole b c =
    elim (Bool-cases (n == 0)) [
      | inl e ↦ rw (e, write_file_loop) (ground arith)
      | inr e ↦
          let m = if ltb n (bsize - off % bsize) then n else bsize - off % bsize in
          let room : off % 512 + m ≤ 512 = ground arith in
          let le : m ≤ n = ground arith in
          let pos : 0 < m = ground arith in
          let o : add32 off m ≡ off + m = omega arith in
          rw (e, write_file_loop)
            (rw o (
              Put-step disk cid ip off n m src
                (write_file_loop fuel (write_chunk disk cid ip off m src) cid ip (off + m) (n - m)
                  (λ j. src (m + j)))
                k le (write_chunk-Put disk cid ip off m src k whole room (omega arith) c)
                (write_file_loop-Put fuel (write_chunk disk cid ip off m src) cid ip (off + m)
                  (n - m) (λ j. src (m + j)) k (omega arith) (omega arith)
                  (write_chunk-IsWhole disk cid ip off m src whole) (omega arith) c)))
    ]

-- A block that holds no byte of the range is as before.
pub write_file_loop-other :
    (fuel : ℕ) (disk : Disk) (cid : ℕ) (ip : Inode) (off n : ℕ) (src : ℕ → ℕ) (b : ℕ)
    → off + n < 2 ^ 32
    → ((k : ℕ) → off ≤ k → k < off + n → block_of cid ip k ≢ b)
    → write_file_loop fuel disk cid ip off n src b ≡ disk b
unfolding write_file_loop
write_file_loop-other zero disk cid ip off n src b small far = refl
write_file_loop-other (suc fuel) disk cid ip off n src b small far = elim (Bool-cases (n == 0)) [
  | inl e ↦ rw (e, write_file_loop) refl
  | inr e ↦
      let m = if ltb n (bsize - off % bsize) then n else bsize - off % bsize in
      let le : m ≤ n = ground arith in
      let ne : n ≢ 0 = ne_of_== n 0 e in
      let o : add32 off m ≡ off + m = omega arith in
      let first : (block_of cid ip off == b) ≡ false =
        ==-of_ne _ _ (far off (omega arith) (omega arith)) in
      let rest =
        write_file_loop-other fuel (write_chunk disk cid ip off m src) cid ip (off + m) (n - m)
          (λ j. src (m + j)) b (omega arith) (λ k l h. far k (omega arith) (omega arith)) in
      rw (e, write_file_loop) (rw o (rest ∙ rw first refl))
]

-- What `writei` leaves up to its call of updateInodeFile: the bytes of the range are those of the source, the other bytes of the file are
-- as before, and the size covers the range.
pub record WriteEnds (disk : Disk) (cid : ℕ) (ip : Inode) (off n : ℕ) (src : ℕ → ℕ)
    (r : Disk × Inode) : Type 0 where
  pub written : (k : ℕ) → off ≤ k → k < off + n → byte_at r.0 cid r.1 k ≡ src (k - off)
  pub kept :
      (k : ℕ)
      → Below cid ip k
      → (k < off) ⊎ (off + n ≤ k)
      → byte_at r.0 cid r.1 k ≡ byte_at disk cid ip k
  pub grown : r.1 ≡ record ip { size = max ip.size (off + n) }

same_extent :
    (disk disk' : Disk) (cid : ℕ) (ip : Inode) (off n : ℕ) (src : ℕ → ℕ) (sz : ℕ)
    → ((k : ℕ) → Below cid ip k → Put disk cid ip off n src disk' k)
    → Below cid ip (off + n)
    → WriteEnds disk cid ip off n src (disk', record ip { size = max ip.size (off + n) })
same_extent disk disk' cid ip off n src sz p b = record {
  written = λ k lo hi. p k (omega arith) ∙ ground arith;
  kept = λ k c out. p k c ∙ ground arith;
  grown = refl;
}

grown_inode :
    (ip : Inode) (a b : ℕ)
    → b ≡ a
    → (if ltb ip.size b then record ip { size = b } else ip) ≡ record ip { size = max ip.size a }
grown_inode ip a b e = elim (Bool-cases (ltb ip.size b)) [
  | inl h ↦ let z : b ≡ max ip.size a = ground arith in rw h (ap (λ x. record ip { size = x }) z)
  | inr h ↦
      let z : ip.size ≡ max ip.size a = ground arith in rw h (ap (λ x. record ip { size = x }) z)
]

-- On a disk of whole blocks, where neither the range nor its block numbers wrap, `writei` to a file
-- that is no device, up to its call of updateInodeFile, puts the bytes of the source into the range, leaves the other bytes of the
-- file, and makes the size cover the range.
pub write_file-WriteEnds :
    (disk : Disk) (cid : ℕ) (ip : Inode) (off n : ℕ) (src : ℕ → ℕ)
    → IsWhole disk
    → off + n < 2 ^ 32
    → Below cid ip (off + n)
    → WriteEnds disk cid ip off n src (write_file disk cid ip off n src)
unfolding write_file
write_file-WriteEnds disk cid ip off n src whole small b =
    let w : add32 off n ≡ off + n = omega arith in
    let p : (k : ℕ)
        → Below cid ip k
        → Put disk cid ip off n src (write_file_loop n disk cid ip off n src) k =
      λ k c. write_file_loop-Put n disk cid ip off n src k (omega arith) small whole b c in
    let t = same_extent disk (write_file_loop n disk cid ip off n src) cid ip off n src 0 p b in
    let z : (if ltb ip.size (add32 off n) then record ip { size = add32 off n } else ip)
        ≡ record ip { size = max ip.size (off + n) } =
      grown_inode ip (off + n) (add32 off n) w in
    subst (λ i. WriteEnds disk cid ip off n src (write_file_loop n disk cid ip off n src, i))
      (sym z) t

-- Where the bytes of the range are those of the source, and the size covers it, readi reads them in full.
pub read_back :
    (disk : Disk) (cid : ℕ) (ip : Inode) (off n : ℕ) (src : ℕ → ℕ) (dst : List ℕ)
    → off + n < 2 ^ 32
    → n ≤ length dst
    → off + n ≤ ip.size
    → ((k : ℕ) → off ≤ k → k < off + n → byte_at disk cid ip k ≡ src (k - off))
    → (out : List ℕ) × (read_file disk cid ip off n dst ≡ (some n, out))
      × ((j : ℕ) → j < n → get_or out j 0 ≡ src j)
read_back disk cid ip off n src dst small fits covers written =
    go (read_file disk cid ip off n dst) refl (read_file-ReadEnds disk cid ip off n dst small fits)
  where
    go :
        (r : Option ℕ × List ℕ)
        → read_file disk cid ip off n dst ≡ r
        → ReadEnds disk cid ip off n dst r
        → (out : List ℕ) × (read_file disk cid ip off n dst ≡ (some n, out))
          × ((j : ℕ) → j < n → get_or out j 0 ≡ src j)
    go (none, out) q (lt, same) = absurd (omega arith)
    go (some k, out) q (le, count, at) =
        let c : k ≡ n = omega arith in
        (
          out,
          q ∙ ap (λ x. (some x, out)) c,
          λ j l.
              let z : off + j - off ≡ j = omega arith in
              let lt : ltb j k ≡ true = ground arith in
              at j ∙ rw lt (written (off + j) (omega arith) (omega arith) ∙ ap src z),
        )

pub separate :
    (cid other a b i j : ℕ)
    → cid ≢ other
    → cid < 2 ^ 20
    → other < 2 ^ 20
    → a + i < 1000
    → b + j < 1000
    → (a + (cid + 1) * 1000 + i) % 2 ^ 32 ≡ (b + (other + 1) * 1000 + j) % 2 ^ 32
    → ⊥
separate cid other a b i j ne c o x y e = omega (arith, ne)
