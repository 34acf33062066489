-- ===== src/Fs/Walks.antt =====
-- Lookups of paths, kernel/fs.c: they end, and what they leave of the counts of the root's inode.
use microkernal.Common.{List, ap, false, get_elem?, none, ok, some, true, ℕ, ◌<◌, ◌^◌, ◌≡◌}
use microkernal.Fs.{Inode}
use microkernal.Fs.Inodes.{idup}
use microkernal.Fs.Cached.{irelease-idup}
use microkernal.Fs.Names.{
  Env, dirlookup, is_dir, namei, namex, namex_loop, root_inode, skipelem, starts_with_slash,
}

-- A relative lookup whose first name `dirlookup` does not find in the root fails, and leaves the
-- cache as `iget` of the root has made it, with the reference that this took.
pub namei_missing_leaks :
    (env : Env) (c c' : List Inode) (path rest word : List ℕ) (i : ℕ) (x : Inode)
    → starts_with_slash path ≡ false
    → root_inode env c ≡ ok (i, c')
    → skipelem path ≡ some (rest, word)
    → get_elem? c' i ≡ some x
    → 0 < x.ref
    → x.ref < 2 ^ 31
    → is_dir (idup c' i) i ≡ true
    → dirlookup env (idup c' i) i word ≡ ok (none, idup c' i)
    → namei env path c ≡ ok (none, c')
unfolding namei namex namex_loop
namei_missing_leaks env c c' path rest word i x rel root el at pos small dir missing = rw rel (
    rw root (
      rw (el, namex_loop)
        (rw dir (rw missing (ap (λ l. ok (none, l)) (irelease-idup c' i x at pos small))))))
