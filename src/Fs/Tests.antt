-- ===== src/Fs/Tests.antt =====
-- Witnesses on a disk of zeros, a file of ten bytes in block 50, and a cache that holds the inode of an
-- empty root directory.
use microkernal.Common.{
  List, [], arith, find_index?, get_or, length-replicate, none, ok, refl, replicate, some, ℕ, ◌+◌,
  ◌<◌, ◌∷◌, ◌≡◌,
}
use microkernal.Fs.{Disk, Inode, UserDisk, readi, t_dir, t_file, read_file, writei}
use microkernal.Fs.Reads.{ReadEnds, byte_at, read_file-ReadEnds}
use microkernal.Fs.Updates.{readi-writei, writei_isolated}
use microkernal.Fs.Writes.{IsWhole}
use microkernal.Fs.Inodes.{Dinode, idup, iget}
use microkernal.Fs.Names.{Env, dir_loop, dirlookup, namei, skip_slashes, skip_word, skipelem}
use microkernal.Fs.Paths.{TakesWord, skipelem-TakesWord}
use microkernal.Fs.Walks.{namei_missing_leaks}

abbrev zeros : Disk
zeros b = replicate 512 0

zeros-IsWhole : IsWhole zeros
zeros-IsWhole b = length-replicate 512 0

abbrev small_file : Inode
small_file = record {
  dev = 1;
  inum = 5;
  ref = 1;
  kind = t_file;
  devid = 0;
  size = 10;
  extent = record { startblkno = 50; nblocks = 20 };
}

abbrev four_bytes : List ℕ
four_bytes = 1 ∷ 2 ∷ 3 ∷ 4 ∷ []

read_file-ReadEnds_example :
    ReadEnds zeros 0 small_file 8 4 four_bytes (read_file zeros 0 small_file 8 4 four_bytes)
read_file-ReadEnds_example =
    read_file-ReadEnds zeros 0 small_file 8 4 four_bytes (omega arith) (omega arith)

-- The inode file has room for 24 inodes in the three blocks from block 20 on.
abbrev user_disk : UserDisk
user_disk = record {
  disk = zeros;
  inodefile = record {
    dev = 1;
    inum = 0;
    ref = 1;
    kind = t_file;
    devid = 0;
    size = 1536;
    extent = record { startblkno = 20; nblocks = 3 };
  };
}

readi-writei_example :
    ((writei (λ i. none) 0 user_disk small_file 510 4 (λ j. 97 + j) (λ j. 0)).0 ≡ some 4)
    × ((out : List ℕ) × (readi
            (λ i. none)
            (writei (λ i. none) 0 user_disk small_file 510 4 (λ j. 97 + j) (λ j. 0)).1.disk
            0
            (writei (λ i. none) 0 user_disk small_file 510 4 (λ j. 97 + j) (λ j. 0)).2
            510
            4
            four_bytes
          ≡ (some 4, out))
        × ((j : ℕ) → j < 4 → get_or out j 0 ≡ 97 + j))
readi-writei_example =
    readi-writei (λ i. none) 0 user_disk small_file 510 4 (λ j. 97 + j) (λ j. 0) four_bytes
      zeros-IsWhole (λ e. cc e) (omega arith) (omega arith) (omega arith)
      (λ k lo hi. (λ j l h e. absurd (omega arith), λ j h e. absurd (omega arith))) (omega arith)

writei_isolated_example :
    byte_at
      (writei (λ i. none) 0 user_disk small_file 510 4 (λ j. 97 + j) (λ j. 0)).1.disk
      1
      small_file
      511
    ≡ byte_at zeros 1 small_file 511
writei_isolated_example =
    writei_isolated (λ i. none) 0 user_disk small_file 510 4 (λ j. 97 + j) (λ j. 0) 1 511 small_file
      (λ e. cc e) (omega arith) (omega arith) (omega arith) (omega arith) (omega arith)
      (omega arith)

skipelem-TakesWord_example : TakesWord (47 ∷ 97 ∷ 47 ∷ 98 ∷ []) (skipelem (47 ∷ 97 ∷ 47 ∷ 98 ∷ []))
skipelem-TakesWord_example = skipelem-TakesWord (47 ∷ 97 ∷ 47 ∷ 98 ∷ [])

abbrev root : ℕ → Inode
root ref = record {
  dev = 1;
  inum = 1;
  ref = ref;
  kind = t_dir;
  devid = 0;
  size = 0;
  extent = record { startblkno = 40; nblocks = 20 };
}

abbrev cache : ℕ → List Inode
cache ref = root ref ∷ record small_file { ref = 0 } ∷ []

abbrev file_dinode : Dinode
file_dinode = record { kind = t_file; devid = 0; size = 10; extent = small_file.extent }

abbrev env : Env
env = record {
  devsw = λ d. none;
  cid = 0;
  files = record { disk = zeros; inodefile = small_file };
  dirent_stack = replicate 16 0;
  dinode_stack = replicate 64 0;
}

skipelem_a : skipelem (97 ∷ []) ≡ some ([], 97 ∷ [])
unfolding skipelem skip_slashes skip_word
skipelem_a = refl

missing_a : dirlookup env (idup (cache 2) 0) 0 (97 ∷ []) ≡ ok (none, idup (cache 2) 0)
unfolding dirlookup dir_loop idup
missing_a = refl

namei_missing_leaks_example : namei env (97 ∷ []) (cache 1) ≡ ok (none, cache 2)
unfolding iget find_index? idup
namei_missing_leaks_example =
    namei_missing_leaks env (cache 1) (cache 2) (97 ∷ []) [] (97 ∷ []) 0 (root 2) refl refl
      skipelem_a refl (omega arith) (omega arith) refl missing_a
