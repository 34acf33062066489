-- ===== src/Fs/Names.antt =====
-- Path names and directories, kernel/fs.c: skipelem, dirlookup and namex. A path is its characters up to
-- the NUL; a name is what the buffer of DIRSIZ bytes holds up to a NUL or its end.
use microkernal.Common.{
  Bool, List, Option, Outcome, [], add32, drop, false, get_elem?, get_or, if◌then◌else◌, is_nil,
  length, ltb, none, not, ok, panic, some, suc, take, true, zero, ℕ, ◌&&◌, ◌/◌, ◌==◌, ◌>>=◌, ◌∷◌,
}
use microkernal.Fs.{Device, UserDisk, Inode, readi, t_dir}
use microkernal.Fs.Inodes.{idup, iget, irelease, le_number, read_dinode}

abbrev pub slash : ℕ
slash = 47

abbrev pub dirsiz : ℕ
dirsiz = 14

-- `while (*path == '/') path++;`
unfoldable pub skip_slashes : List ℕ → List ℕ
skip_slashes [] = []
skip_slashes (c ∷ cs) = let rest = skip_slashes cs in if c == slash then rest else c ∷ cs

-- `while (*path != '/' && *path != 0) path++;`: what is passed, and the rest.
unfoldable pub skip_word : List ℕ → List ℕ × List ℕ
skip_word [] = ([], [])
skip_word (c ∷ cs) = let r = skip_word cs in if c == slash then ([], c ∷ cs) else (c ∷ r.0, r.1)

abbrev pub word_of : List ℕ → Option (List ℕ × List ℕ)
word_of [] = none
word_of (c ∷ cs) = some (skip_slashes (skip_word (c ∷ cs)).1, take dirsiz (skip_word (c ∷ cs)).0)

-- The path behind the next element, and its name.
unfoldable pub skipelem : List ℕ → Option (List ℕ × List ℕ)
unfolding skip_slashes skip_word
skipelem path = word_of (skip_slashes path)

-- `strncmp(s, t, n) == 0`; a character behind the end is NUL.
unfoldable pub names_agree : (n : ℕ) → (s t : List ℕ) → Bool
names_agree zero s t = true
names_agree (suc n) s t =
    let rest = names_agree n (drop 1 s) (drop 1 t) in
    let same = get_or s 0 0 == get_or t 0 0 in
    if not (get_or s 0 0 == 0) && same then rest else same

-- What lookups read: the devices, the container of the process, the disk, and what the stack holds where
-- `struct dirent` and `struct dinode` variables lie.
pub record Env : Type 0 where
  pub devsw : ℕ → Option Device
  pub cid : ℕ
  pub files : UserDisk
  pub dirent_stack : List ℕ
  pub dinode_stack : List ℕ

abbrev pub is_16 : Option ℕ → Bool
is_16 none = false
is_16 (some n) = n == 16

-- The loop of `dirlookup` from `off` on, an entry of 16 bytes in each round: the inode number and the
-- offset of the entry. `panic` also stands for fuel that ran out.
unfoldable pub dir_loop :
    (fuel : ℕ)
    → Env
    → Inode
    → (name : List ℕ) → (off : ℕ) → (de : List ℕ) → Outcome (Option (ℕ × ℕ))
unfolding readi names_agree
dir_loop zero env dp name off de = panic
dir_loop (suc fuel) env dp name off de =
    let r = readi env.devsw env.files.disk env.cid dp off 16 de in
    let rest = dir_loop fuel env dp name (add32 off 16) r.1 in
    let inum = le_number r.1 0 2 in
    if not (ltb off dp.size)
    then ok none
    else if not (is_16 r.0)
    then panic
    else if inum == 0
    then rest
    else if names_agree dirsiz name (drop 2 r.1)
    then ok (some (inum, off))
    else rest

abbrev pub lookup_inode : Env → List Inode → (dev inum : ℕ) → Outcome (ℕ × List Inode)
lookup_inode env c dev inum =
    iget c dev inum (read_dinode env.devsw env.cid env.files inum env.dinode_stack)

-- The slot that `iget` gives for an entry that was found, and the cache.
abbrev pub entry_inode : Env → List Inode → Inode → Option (ℕ × ℕ) → Outcome (Option ℕ × List Inode)
entry_inode env c dp none = ok (none, c)
entry_inode env c dp (some e) = lookup_inode env c dp.dev e.0 >>= λ g. ok (some g.0, g.1)

abbrev pub inode_or_panic : List Inode → ℕ → Outcome Inode
inode_or_panic c i = elim (get_elem? c i) [ none ↦ panic | some ip ↦ ok ip ]

unfoldable pub dirlookup :
    Env → List Inode → (i : ℕ) → (name : List ℕ) → Outcome (Option ℕ × List Inode)
unfolding dir_loop iget
dirlookup env c i name = inode_or_panic c i >>= λ dp.
    if dp.kind == t_dir
    then (dir_loop (suc (suc (dp.size / 16))) env dp name 0 env.dirent_stack
        >>= entry_inode env c dp)
    else panic

abbrev pub is_dir : List Inode → ℕ → Bool
is_dir c i = elim (get_elem? c i) [ none ↦ false | some ip ↦ ip.kind == t_dir ]

-- The slot, the last name, and the cache; `none` is the null pointer.
abbrev pub Found : Type 0
Found = Option (ℕ × List ℕ) × List Inode

-- `goto notfound`
abbrev pub not_found : List Inode → ℕ → Outcome Found
not_found c i = ok (none, irelease c i)

-- To the directory below, or back.
abbrev pub descend :
    (ℕ → List Inode → Option (Outcome Found))
    → ℕ
    → Outcome (Option ℕ × List Inode)
    → Option (Outcome Found)
descend next i panic = some panic
descend next i (ok (none, c)) = some (not_found c i)
descend next i (ok (some j, c)) = next j (irelease c i)

-- The loop of `namex`, in slot `i`; `name` is what the buffer holds. `none` says that it has not ended.
unfoldable pub namex_loop :
    (fuel : ℕ)
    → Env
    → (nameiparent : Bool) → (path name : List ℕ) → ℕ
    → List Inode
    → Option (Outcome Found)
unfolding skipelem dirlookup
namex_loop zero env nameiparent path name i c = none
namex_loop (suc fuel) env nameiparent path name i c = elim (skipelem path) [
  | none ↦ some (if nameiparent then not_found c i else ok (some (i, name), c))
  | some (rest, word) ↦
      if not (is_dir c i)
      then some (not_found c i)
      else if nameiparent && is_nil rest
      then some (ok (some (i, word), c))
      else descend (namex_loop fuel env nameiparent rest word) i (dirlookup env c i word)
]

-- ROOTDEV and ROOTINO.
abbrev pub root_inode : Env → List Inode → Outcome (ℕ × List Inode)
root_inode env c = lookup_inode env c 1 1

abbrev pub starts_with_slash : List ℕ → Bool
starts_with_slash [] = false
starts_with_slash (c ∷ cs) = c == slash

-- Where `namex` starts. For a relative path this is `idup(namei("/"))`, and `namei("/")` is `iget`.
abbrev pub first_inode : Env → (path : List ℕ) → List Inode → Outcome (ℕ × List Inode)
first_inode env path c =
    if starts_with_slash path
    then root_inode env c
    else (root_inode env c >>= λ g. ok (g.0, idup g.1 g.0))

-- A loop that never ends gives the same as a panic; `namex_loop-ends` excludes it.
abbrev pub loop_result : Option (Outcome Found) → Outcome Found
loop_result none = panic
loop_result (some o) = o

-- One round for each element of the path, and one that stops.
unfoldable pub namex :
    Env → (nameiparent : Bool) → (path name : List ℕ) → List Inode → Outcome Found
unfolding namex_loop
namex env nameiparent path name c = first_inode env path c >>= λ g.
    loop_result (namex_loop (suc (length path)) env nameiparent path name g.0 g.1)

unfoldable pub namei : Env → (path : List ℕ) → List Inode → Outcome Found
unfolding namex
namei env path c = namex env false path [] c

unfoldable pub nameiparent : Env → (path name : List ℕ) → List Inode → Outcome Found
unfolding namex
nameiparent env path name c = namex env true path name c
