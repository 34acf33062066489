-- ===== src/File.antt =====
-- The open file table of kernel/file.c, and the descriptors of kernel/sysfile.c that point into it.
-- The calls on a descriptor run as one step each: ftable.lock brackets every access to the table.
pub mod Calls
pub mod Descriptors
pub mod Fork
pub mod Refs
mod Tests
use microkernal.Common.{
  Bool, List, Option, Outcome, [], add32, false, find_index?, get_elem?, get_or, gt_int,
  if◌then◌else◌, is_neg, leb, none, not, ok, panic, set, some, sub32, suc, true, zero, ℕ, ◌%◌, ◌+◌,
  ◌/◌, ◌==◌, ◌>>=◌, ◌||◌, ◌∷◌,
}

pub data FdType : Type 0 where
  fd_none fd_pipe fd_inode : FdType

-- `struct file`; `pipe` and `ip` are the pointers' values.
pub record File : Type 0 where
  pub kind : FdType
  pub ref : ℕ
  pub readable : Bool
  pub writable : Bool
  pub pipe : ℕ
  pub ip : ℕ
  pub off : ℕ

-- `ftable.file`, and `ofile` of each process: a descriptor is null or the index of a file.
pub record Files : Type 0 where
  pub ftable : List File
  pub ofiles : List (List (Option ℕ))

-- `f->ref == 0`
abbrev pub is_unused : File → Bool
is_unused f = f.ref == 0

abbrev pub referenced : File → ℕ → File
referenced f n = record f { ref = n }

abbrev pub set_file : Files → ℕ → File → Files
set_file s i f = record s { ftable = set s.ftable i f }

-- The first unused file, now with one reference; `none` is the null pointer.
unfoldable pub filealloc : Files → Option (ℕ × Files)
filealloc s = elim (find_index? is_unused s.ftable) [
  | none ↦ none
  | some i ↦ elim (get_elem? s.ftable i) [
    | none ↦ none
    | some f ↦ some (i, set_file s i (referenced f 1))
  ]
]

-- `f->ref < 1` on an int
abbrev pub unreferenced : File → Bool
unreferenced f = not (gt_int f.ref 0)

unfoldable pub filedup : Files → ℕ → Outcome Files
filedup s i = elim (get_elem? s.ftable i) [
  | none ↦ panic
  | some f ↦ if unreferenced f then panic else ok (set_file s i (referenced f (add32 f.ref 1)))
]

-- What `fileclose` does with the last reference: `pipeclose` or `irelease`.
pub data LastClose : Type 0 where
  nothing : LastClose
  closes_pipe : (pipe : ℕ) (writable : Bool) → LastClose
  releases_inode : (ip : ℕ) → LastClose

abbrev pub last_close : File → FdType → LastClose
last_close f fd_none = nothing
last_close f fd_pipe = closes_pipe f.pipe f.writable
last_close f fd_inode = releases_inode f.ip

unfoldable pub fileclose : Files → ℕ → Outcome (Files × LastClose)
fileclose s i = elim (get_elem? s.ftable i) [
  | none ↦ panic
  | some f ↦
      if unreferenced f
      then panic
      else if gt_int (sub32 f.ref 1) 0
      then ok (set_file s i (referenced f (sub32 f.ref 1)), nothing)
      else ok (set_file s i (record f { ref = 0; kind = fd_none }), last_close f f.kind)
]

-- NOFILE
abbrev pub nofile : ℕ
nofile = 16

abbrev pub descriptors : Files → ℕ → List (Option ℕ)
descriptors s me = get_or s.ofiles me []

abbrev pub is_null : Option ℕ → Bool
is_null none = true
is_null (some i) = false

abbrev pub flatten_null : Option (Option ℕ) → Option ℕ
flatten_null none = none
flatten_null (some o) = o

-- `argfd`: the file of descriptor `fd`, an int, of process `me`.
unfoldable pub argfd : Files → ℕ → ℕ → Option ℕ
argfd s me fd =
    if is_neg fd || leb nofile fd then none else flatten_null (get_elem? (descriptors s me) fd)

abbrev pub set_fd : Files → ℕ → ℕ → Option ℕ → Files
set_fd s me fd o = record s { ofiles = set s.ofiles me (set (descriptors s me) fd o) }

-- The first null descriptor of process `me` is made to point at file `i`.
unfoldable pub fdalloc : Files → ℕ → ℕ → Option (ℕ × Files)
fdalloc s me i = elim (find_index? is_null (descriptors s me)) [
  | none ↦ none
  | some fd ↦ some (fd, set_fd s me fd (some i))
]

-- A system call's result is `none` where the code returns -1.
abbrev pub Reply : Type 0
Reply = Option ℕ × Files

unfoldable pub sys_dup : Files → ℕ → ℕ → Outcome Reply
sys_dup s me fd = elim (argfd s me fd) [
  | none ↦ ok (none, s)
  | some i ↦ elim (fdalloc s me i) [
    | none ↦ ok (none, s)
    | some (fd', t) ↦ (filedup t i >>= λ u. ok (some fd', u))
  ]
]

unfoldable pub sys_close : Files → ℕ → ℕ → Outcome (Reply × LastClose)
sys_close s me fd = elim (argfd s me fd) [
  | none ↦ ok ((none, s), nothing)
  | some i ↦ (fileclose (set_fd s me fd none) i >>= λ r. ok ((some 0, r.0), r.1))
]

-- `omode` bits: O_WRONLY is 1 and O_RDWR is 2.
abbrev pub o_wronly : ℕ → Bool
o_wronly omode = omode % 2 == 1

abbrev pub o_rdwr : ℕ → Bool
o_rdwr omode = omode / 2 % 2 == 1

abbrev pub opened : File → ℕ → ℕ → File
opened f ip omode = record f {
  kind = fd_inode;
  ip = ip;
  off = 0;
  readable = not (o_wronly omode);
  writable = o_wronly omode || o_rdwr omode;
}

abbrev pub update_file : Files → ℕ → (File → File) → Files
update_file s i g = elim (get_elem? s.ftable i) [ none ↦ s | some f ↦ set_file s i (g f) ]

-- `sys_open` from the call of `filealloc` on, with the inode that `namei` returned. Where it fails
-- it closes the file that it has, if any, and its caller releases the inode.
unfoldable pub open_inode : Files → ℕ → ℕ → ℕ → Outcome Reply
open_inode s me ip omode = elim (filealloc s) [
  | none ↦ ok (none, s)
  | some (i, t) ↦ elim (fdalloc t me i) [
    | none ↦ (fileclose t i >>= λ r. ok (none, r.0))
    | some (fd, u) ↦ ok (some fd, update_file u i (λ f. opened f ip omode))
  ]
]

-- The loop of `fork` over the parent's descriptors: the child's list, from an empty one.
unfoldable pub dup_all : Files → List (Option ℕ) → Outcome Files
dup_all s [] = ok s
dup_all s (none ∷ os) = dup_all s os
dup_all s (some i ∷ os) = filedup s i >>= λ t. dup_all t os

-- `fork`'s copy of the descriptors of `me` to process `child`, whose own are null.
unfoldable pub fork_files : Files → ℕ → ℕ → Outcome Files
unfolding dup_all
fork_files s me child = dup_all s (descriptors s me) >>= λ t.
    ok (record t { ofiles = set t.ofiles child (descriptors s me) })

-- The loop of `exit` over the descriptors from `fd` on, `n` of them.
unfoldable pub close_from : Files → ℕ → ℕ → ℕ → Outcome Files
close_from s me fd zero = ok s
close_from s me fd (suc n) = elim (flatten_null (get_elem? (descriptors s me) fd)) [
  | none ↦ close_from s me (fd + 1) n
  | some i ↦ fileclose s i >>= λ r. close_from (set_fd r.0 me fd none) me (fd + 1) n
]

unfoldable pub exit_files : Files → ℕ → Outcome Files
unfolding close_from
exit_files s me = close_from s me 0 nofile
