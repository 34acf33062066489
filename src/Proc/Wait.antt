-- ===== src/Proc/Wait.antt =====
-- wait, kernel/proc.c.
use microkernal.Common.{
  Bool, Bool-cases, Option-cases, ap, arith, false, find_index?, find_index?-none, find_index?-some,
  if◌then◌else◌, inl, inr, none, refl, some, true, ℕ, ◌≡◌, ◌≢◌, ◌⊎◌,
}
use microkernal.Proc.{
  Proc, Ptable, running, zombie, on_proc, set_proc, is_child_of, sleep, wait, WaitStop, reaped,
  no_children, waits, reap, is_dead_child_of,
}
use microkernal.Proc.Invariant.{Inv, At}
use microkernal.Proc.Change.{set-Inv, At-set}
use microkernal.Proc.Steps.{dead-no_child, sleep-Inv}

-- What a pass of `wait` by process `me` says and does, by what it returns.
abbrev pub WaitEnds : Ptable → ℕ → Bool → WaitStop × Ptable → Type 0
WaitEnds t me killed (reaped i pid kstack, u) =
    (p : Proc) × At t i p
    × (p.parent ≡ some me)
    × (p.state ≡ zombie)
    × (pid ≡ p.pid)
    × (kstack ≡ p.kstack)
    × (u ≡ set_proc t i (reap p))
WaitEnds t me killed (no_children, u) =
    (u ≡ t)
    × ((j : ℕ) (q : Proc) → At t j q → is_dead_child_of me q ≡ false)
    × ((killed ≡ true) ⊎ ((j : ℕ) (q : Proc) → At t j q → is_child_of me q ≡ false))
WaitEnds t me killed (waits, u) =
    (u ≡ sleep t me (on_proc me))
    × ((i : ℕ) × (c : Proc) × At t i c × (is_child_of me c ≡ true))
    × ((j : ℕ) (q : Proc) → At t j q → is_dead_child_of me q ≡ false)
    × (killed ≡ false)

wait-reaps :
    (t : Ptable) (me i : ℕ) (killed : Bool) (p : Proc)
    → find_index? (is_dead_child_of me) t.procs ≡ some i
    → At t i p
    → wait t me killed ≡ (reaped i p.pid p.kstack, set_proc t i (reap p))
unfolding wait
wait-reaps t me i killed p e was = rw (e, wait) (rw was refl)

wait-none :
    (t : Ptable) (me : ℕ) (killed : Bool)
    → find_index? (is_dead_child_of me) t.procs ≡ none
    → find_index? (is_child_of me) t.procs ≡ none
    → wait t me killed ≡ (no_children, t)
unfolding wait
wait-none t me killed e n = rw (e, wait) (rw n refl)

wait-some :
    (t : Ptable) (me j : ℕ) (killed : Bool)
    → find_index? (is_dead_child_of me) t.procs ≡ none
    → find_index? (is_child_of me) t.procs ≡ some j
    → wait t me killed ≡ (if killed then (no_children, t) else (waits, sleep t me (on_proc me)))
unfolding wait
wait-some t me j killed e n = rw (e, wait) (rw n refl)

-- `wait` reaps a dead child of the caller and clears its slot whenever there is one. It returns -1
-- only if no child is dead and the caller has no child or is killed, and sleeps only if it has a
-- child, none is dead and the caller is not killed.
pub wait-WaitEnds : (t : Ptable) (me : ℕ) (killed : Bool) → WaitEnds t me killed (wait t me killed)
wait-WaitEnds t me killed = elim (Option-cases (find_index? (is_dead_child_of me) t.procs)) [
  | inr (i, e) ↦
      let (p, was, pass, before) = find_index?-some (is_dead_child_of me) t.procs i e in
      let is_child : p.parent ≡ some me = ground arith in
      rw (wait-reaps t me i killed p e was) (p, was, is_child, ground arith, refl, refl, refl)
  | inl n ↦
      let alive_all = λ (j : ℕ) (q : Proc) (h : At t j q).
        find_index?-none (is_dead_child_of me) t.procs j q n h in
      elim (Option-cases (find_index? (is_child_of me) t.procs)) [
        | inl m ↦
            rw (wait-none t me killed n m)
              (refl, alive_all, inr (λ j q h. find_index?-none (is_child_of me) t.procs j q m h))
        | inr (j, m) ↦ elim (Bool-cases killed) [
          | inl k ↦ rw (wait-some t me j killed n m, k) (refl, alive_all, inl refl)
          | inr k ↦
              rw (wait-some t me j killed n m, k)
                (
                  refl,
                  (let f = find_index?-some (is_child_of me) t.procs j m in (j, f.0, f.1, f.2)),
                  alive_all,
                  refl,
                )
        ]
      ]
]

reap-Inv :
    (t : Ptable) (i : ℕ) (p : Proc)
    → At t i p
    → p.state ≡ zombie
    → Inv t
    → Inv (set_proc t i (reap p))
reap-Inv t i p was dead v =
    set-Inv t i p (reap p) was
      (record {
        pid_fresh = omega (arith, v.fresh i p was);
        pid_new = λ j q n h e. refl;
        parent_alive = λ j e. cc;
        still_alive = inr (
          none_of.0,
          λ j q h s. elim (At-set t i p (reap p) was j q h) [
            | inl (e, z) ↦ cc (ap (λ x. x.parent) z)
            | inr (n, a) ↦ none_of.1 j q a s
          ],
        );
        waits_well = λ j q w h s. cc (w.0);
        not_awaited = λ j q n h w e. cc;
        parent_other = λ e. cc;
        root_stays = λ e. refl;
        runs_alone = λ j q n h r. cc;
      })
      v
  where
    none_of : (i ≢ t.initproc) × ((j : ℕ) (q : Proc) → At t j q → q.parent ≢ some i)
    none_of = dead-no_child t i p was (ground arith) v

-- A pass of `wait` by the running process keeps the table sound.
pub wait-Inv :
    (t : Ptable) (me : ℕ) (killed : Bool) (p : Proc)
    → At t me p
    → p.state ≡ running
    → Inv t
    → Inv (wait t me killed).1
wait-Inv t me killed p was runs v =
    go (wait t me killed).0 (wait t me killed).1 (wait-WaitEnds t me killed)
  where
    go : (stop : WaitStop) (u : Ptable) → WaitEnds t me killed (stop, u) → Inv u
    go (reaped i pid kstack) u (q, h, c, z, x, y, e) = rw e (reap-Inv t i q h z v)
    go no_children u (e, n, w) = rw e v
    go waits u (e, some_child, n, k) =
        rw e (sleep-Inv t me p (on_proc me) was runs (λ s j q h c. quiet j q h c (n j q h)) v)
      where
        quiet :
            (j : ℕ) (q : Proc)
            → At t j q
            → q.parent ≡ some me
            → is_dead_child_of me q ≡ false
            → q.state ≢ zombie
        quiet j q h c d z = ground arith
