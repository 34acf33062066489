-- ===== src/File/Calls.antt =====
-- dup, close and open of kernel/sysfile.c, and the loop of exit over the descriptors.
use microkernal.Common.{
  Option-cases, [], ap, arith, get_elem?, get_or, inl, inr, none, ok, refl, set, some, subst, suc,
  sym, zero, ℕ, ◌+◌, ◌<◌, ◌^◌, ◌∙◌, ◌∷◌, ◌≡◌,
}
use microkernal.File.{
  Files, filealloc, filedup, fileclose, fdalloc, argfd, set_fd, descriptors, sys_dup, sys_close,
  open_inode, update_file, opened, LastClose, nothing, Reply, close_from, exit_files, flatten_null,
  nofile,
}
use microkernal.File.Refs.{
  Counts, total, filealloc-Counts, filedup-Counts, filedup-ofiles, fileclose-ofiles,
  fileclose-Counts, update-Counts,
}
use microkernal.File.Descriptors.{
  Cleared, Cleared-skip, Cleared-set, flatten_null-some, set_fd-some-Counts, set_fd-none-Counts,
  set_fd-total, fdalloc-Counts, argfd-some, descriptor-refs,
}

-- The descriptor that `dup` has filled takes the reference that `filedup` has counted.
dup-Counts :
    (s t u : Files) (me fd i : ℕ)
    → t ≡ set_fd s me fd (some i)
    → get_elem? (descriptors s me) fd ≡ some none
    → u.ofiles ≡ s.ofiles
    → Counts u (i ∷ [])
    → Counts (record u { ofiles = t.ofiles }) []
dup-Counts s t u me fd i is_t null same c = subst (λ v. Counts v []) path filled
  where
    null' : get_elem? (descriptors u me) fd ≡ some none
    null' = subst (λ os. get_elem? (get_or os me []) fd ≡ some none) (sym same) null

    filled : Counts (set_fd u me fd (some i)) []
    filled = set_fd-some-Counts u [] me fd i null' c

    path : set_fd u me fd (some i) ≡ record u { ofiles = t.ofiles }
    path =
        ap (λ os. record u { ofiles = set os me (set (get_or os me []) fd (some i)) }) same
        ∙ ap (λ v. record u { ofiles = v.ofiles }) (sym is_t)

-- `dup` never panics, and keeps every count equal to the number of descriptors, on each path.
pub sys_dup-Counts :
    (s : Files) (me fd : ℕ)
    → Counts s []
    → total s.ofiles + 1 < 2 ^ 31
    → (r : Reply) × (sys_dup s me fd ≡ ok r) × Counts r.1 []
unfolding sys_dup
sys_dup-Counts s me fd c few = elim (Option-cases (argfd s me fd)) [
  | inl n ↦ ((none, s), rw (n, sys_dup) refl, c)
  | inr (i, e) ↦ elim (Option-cases (fdalloc s me i)) [
    | inl n ↦ ((none, s), rw (e, sys_dup) (rw n refl), c)
    | inr ((fd', t), q) ↦
        let at = argfd-some s me fd i e in
        let live = descriptor-refs s me fd i at.0 in
        let (null, is_t, move) = fdalloc-Counts s t [] me i fd' q in
        let (u, run, after, same) = filedup-Counts s [] i (omega arith) (omega arith) c in
        let v : Files = record u { ofiles = t.ofiles } in
        let run' : filedup t i ≡ ok v =
          rw is_t (filedup-ofiles s u (set_fd s me fd' (some i)).ofiles i run) in
        (
          (some fd', v),
          rw (e, sys_dup) (rw q (rw run' refl)),
          dup-Counts s t u me fd' i is_t null same after,
        )
  ]
]

-- `close` never panics on a valid table, and keeps every count equal to the number of descriptors.
pub sys_close-Counts :
    (s : Files) (me fd : ℕ)
    → Counts s []
    → total s.ofiles + 1 < 2 ^ 31
    → (r : Reply × LastClose) × (sys_close s me fd ≡ ok r) × Counts r.0.1 []
unfolding sys_close
sys_close-Counts s me fd c few = elim (Option-cases (argfd s me fd)) [
  | inl n ↦ (((none, s), nothing), rw (n, sys_close) refl, c)
  | inr (i, e) ↦
      let at = argfd-some s me fd i e in
      let (r, run, after, same) =
        fileclose-Counts (set_fd s me fd none) [] i
          (set_fd-none-Counts s [] me fd i at.0 (omega arith) c) in
      (((some 0, r.0), r.1), rw (e, sys_close) (rw run refl), after)
]

update_file-Counts :
    (s : Files) (i ip omode : ℕ)
    → Counts s []
    → Counts (update_file s i (λ f. opened f ip omode)) []
update_file-Counts s i ip omode c = elim (Option-cases (get_elem? s.ftable i)) [
  | inl n ↦ rw (n, update_file) c
  | inr (f, e) ↦ rw (e, update_file) (update-Counts s [] i f (opened f ip omode) e refl c)
]

-- `open` never panics once it has its inode, and keeps every count equal to the number of
-- descriptors, also where it runs out of files or of descriptors.
pub open_inode-Counts :
    (s : Files) (me ip omode : ℕ)
    → Counts s []
    → total s.ofiles + 1 < 2 ^ 31
    → (r : Reply) × (open_inode s me ip omode ≡ ok r) × Counts r.1 []
unfolding open_inode
open_inode-Counts s me ip omode c few = elim (Option-cases (filealloc s)) [
  | inl n ↦ ((none, s), rw (n, open_inode) refl, c)
  | inr ((i, t), e) ↦
      let (held, same, fresh) = filealloc-Counts s t [] i (omega arith) e c in
      elim (Option-cases (fdalloc t me i)) [
        | inl n ↦
            let (r, run, after, z) = fileclose-Counts t [] i held in
            ((none, r.0), rw (e, open_inode) (rw n (rw run refl)), after)
        | inr ((fd, u), q) ↦ (
          (some fd, update_file u i (λ f. opened f ip omode)),
          rw (e, open_inode) (rw q refl),
          update_file-Counts u i ip omode ((fdalloc-Counts t u [] me i fd q).2 held),
        )
      ]
]

-- One round of the loop of `exit`: the file is closed, then the descriptor cleared.
close_one :
    (s : Files) (me fd i : ℕ)
    → get_elem? (descriptors s me) fd ≡ some (some i)
    → Counts s []
    → total s.ofiles + 1 < 2 ^ 31
    → (r : Files × LastClose) × (fileclose s i ≡ ok r)
      × Counts (set_fd r.0 me fd none) []
      × ((set_fd r.0 me fd none).ofiles ≡ (set_fd s me fd none).ofiles)
close_one s me fd i at c few =
    let s' = set_fd s me fd none in
    let (r, run, after, same) =
      fileclose-Counts s' [] i (set_fd-none-Counts s [] me fd i at (omega arith) c) in
    (
      (record (r.0) { ofiles = s.ofiles }, r.1),
      fileclose-ofiles s' r s.ofiles i run,
      subst (λ v. Counts v []) (ap (λ os. record (r.0) { ofiles = os }) same) after,
      refl,
    )

close_from-Counts :
    (s : Files) (me fd n : ℕ)
    → Counts s []
    → total s.ofiles + 1 < 2 ^ 31
    → Cleared s me fd
    → (t : Files) × (close_from s me fd n ≡ ok t) × Counts t [] × Cleared t me (fd + n)
unfolding close_from
close_from-Counts s me fd zero c few clear = (s, refl, c, λ j i h. clear j i (omega arith))
close_from-Counts s me fd (suc n) c few clear =
    elim (Option-cases (flatten_null (get_elem? (descriptors s me) fd))) [
      | inl e ↦
          let (t, run, after, done) =
            close_from-Counts s me (fd + 1) n c few (Cleared-skip s me fd e clear) in
          (t, rw (e, close_from) run, after, λ j i h. done j i (omega arith))
      | inr (i, e) ↦
          let at = flatten_null-some (get_elem? (descriptors s me) fd) i e in
          let (r, closes, after, same) = close_one s me fd i at c few in
          let (t, run, ended, done) =
            close_from-Counts (set_fd r.0 me fd none) me (fd + 1) n after
              (omega (arith, ap total same, set_fd-total s me fd (some i) none at))
              (Cleared-set s (set_fd r.0 me fd none) me fd i at same clear) in
          (t, rw (e, close_from) (rw closes run), ended, λ j i h. done j i (omega arith))
    ]

-- `exit` closes every descriptor of its process: no call panics, all 16 are null afterwards, and
-- every file's count is again the number of descriptors on it.
pub exit_files-Counts :
    (s : Files) (me : ℕ)
    → Counts s []
    → total s.ofiles + 1 < 2 ^ 31
    → (t : Files) × (exit_files s me ≡ ok t) × Counts t [] × Cleared t me nofile
unfolding exit_files
exit_files-Counts s me c few = close_from-Counts s me 0 nofile c few (λ j i h. elim h [ ])
