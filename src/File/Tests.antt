-- ===== src/File/Tests.antt =====
-- Witnesses on two processes that share a file.
use microkernal.Common.{
  Option, [], arith, count_if, false, get_elem?, length, none, ok, refl, set, some, suc, true, zero,
  ℕ, ◌+◌, ◌<◌, ◌^◌, ◌∷◌, ◌≡◌, ◌≢◌,
}
use microkernal.File.{
  fork_files, descriptors, File, Files, fd_inode, fd_pipe, fd_none, exit_files, nofile,
}
use microkernal.File.Refs.{Counts, total, refs_to, holds}
use microkernal.File.Descriptors.{Cleared}
use microkernal.File.Fork.{fork_files-Counts}
use microkernal.File.Calls.{exit_files-Counts}

abbrev shared_file : File
shared_file = record {
  kind = fd_inode;
  ref = 2;
  readable = true;
  writable = false;
  pipe = 0;
  ip = 5;
  off = 0;
}

abbrev pipe_file : File
pipe_file = record {
  kind = fd_pipe;
  ref = 1;
  readable = true;
  writable = false;
  pipe = 4096;
  ip = 0;
  off = 0;
}

abbrev unused_file : File
unused_file = record {
  kind = fd_none;
  ref = 0;
  readable = false;
  writable = false;
  pipe = 0;
  ip = 0;
  off = 0;
}

abbrev two_users : Files
two_users = record {
  ftable = shared_file ∷ pipe_file ∷ unused_file ∷ [];
  ofiles = (some 0 ∷ some 1 ∷ none ∷ []) ∷ (none ∷ some 0 ∷ []) ∷ [];
}

two_users-total : total two_users.ofiles ≡ 5
unfolding total
two_users-total = refl

refs-two : (i : ℕ) → refs_to (suc (suc i)) two_users.ofiles ≡ 0
unfolding refs_to count_if
refs-two i = ground arith

two_users-Counts : Counts two_users []
unfolding refs_to count_if
two_users-Counts = record { counted = counts; exist = exists; few = omega (arith, two_users-total) }
  where
    counts :
        (i : ℕ) (f : File)
        → get_elem? two_users.ftable i ≡ some f
        → f.ref ≡ refs_to i two_users.ofiles + holds i []
    counts zero f h = ground arith
    counts (suc zero) f h = ground arith
    counts (suc (suc zero)) f h = ground arith
    counts (suc (suc (suc i))) f h = cc h

    exists : (i : ℕ) → refs_to i two_users.ofiles + holds i [] ≢ 0 → i < length two_users.ftable
    exists zero h = omega arith
    exists (suc zero) h = omega arith
    exists (suc (suc i)) h = absurd (h (omega (arith, refs-two i)))

few_users : total two_users.ofiles + 1 < 2 ^ 31
few_users = omega (arith, two_users-total)

exit_files-Counts_example :
    (t : Files) × (exit_files two_users 0 ≡ ok t) × Counts t [] × Cleared t 0 nofile
exit_files-Counts_example = exit_files-Counts two_users 0 two_users-Counts few_users

null-old : (fd : ℕ) (o : Option ℕ) → get_elem? (none ∷ none ∷ none ∷ []) fd ≡ some o → o ≡ none
null-old zero o h = ground arith
null-old (suc zero) o h = ground arith
null-old (suc (suc zero)) o h = ground arith
null-old (suc (suc (suc fd))) o h = cc h

abbrev with_child : Files
with_child = record two_users {
  ofiles = (some 0 ∷ some 1 ∷ none ∷ []) ∷ (none ∷ some 0 ∷ []) ∷ (none ∷ none ∷ none ∷ []) ∷ [];
}

child_refs : (i : ℕ) → refs_to i with_child.ofiles ≡ refs_to i two_users.ofiles
unfolding refs_to count_if
child_refs i = omega arith

with_child-Counts : Counts with_child []
unfolding total
with_child-Counts = record {
  counted = λ i f h. omega (arith, two_users-Counts.counted i f h, child_refs i);
  exist = λ i h. two_users-Counts.exist i (omega (arith, child_refs i));
  few = omega arith;
}

fork_files-Counts_example :
    (t : Files) × (fork_files with_child 0 2 ≡ ok t)
    × Counts t []
    × (t.ofiles ≡ set with_child.ofiles 2 (descriptors with_child 0))
unfolding total
fork_files-Counts_example =
    fork_files-Counts with_child 0 2 (none ∷ none ∷ none ∷ []) with_child-Counts refl null-old refl
      (omega arith)
