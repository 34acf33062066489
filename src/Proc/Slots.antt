-- ===== src/Proc/Slots.antt =====
-- How many slots each operation of kernel/proc.c leaves.
use microkernal.Common.{
  Bool, Bool-cases, Option, Option-cases, ap, arith, false, find_index?, get_elem?, if◌then◌else◌,
  inl, inr, length, length-map, length-set, none, ok, refl, some, suc, sym, true, zero, ℕ, ◌+◌,
  ◌==◌, ◌∙◌, ◌≡◌,
}
use microkernal.Proc.{
  sleep_tidy, no_chan, wakeup_children, Proc, Ptable, modify, wakeup1, wake, give_stack, allocproc,
  is_unused, spend_pid, embryo_proc, finish_fork, fork, set_parent, kill, killed_proc, findproc,
  adopted, adopt, adopt_from, exit, parent_chan, parent_of, nproc, sleep, yield, wait, is_child_of,
  is_zombie, is_dead_child_of, reap, WaitStop, no_children, waits, on_proc, dispatch, Chan, unused,
  runnable, running, sleeping, zombie,
}

pub modify-length :
    (t : Ptable) (i : ℕ) (f : Proc → Proc) → length (modify t i f).procs ≡ length t.procs
modify-length t i f = elim (Option-cases (get_elem? t.procs i)) [
  | inl n ↦ rw (n, modify) refl
  | inr (p, e) ↦ rw (e, modify) (length-set t.procs i (f p))
]

pub wakeup1-length : (t : Ptable) (c : Chan) → length (wakeup1 t c).procs ≡ length t.procs
unfolding wakeup1
wakeup1-length t c = length-map (wake c) t.procs

give_stack-length :
    (u : Ptable) (i stack : ℕ) → length (give_stack u i stack).1.procs ≡ length u.procs
give_stack-length u i stack = go (stack == 0)
  where
    go :
        (b : Bool)
        → length
            (if◌then◌else◌ {A = Option ℕ × Ptable} b
              (none, modify u i (λ p. record p { kstack = 0; state = unused }))
              (some i, modify u i (λ p. record p { kstack = stack }))).1.procs
          ≡ length u.procs
    go true = modify-length u i (λ p. record p { kstack = 0; state = unused })
    go false = modify-length u i (λ p. record p { kstack = stack })

allocproc-length :
    (t : Ptable) (cid stack : ℕ) → length (allocproc t cid stack).1.procs ≡ length t.procs
unfolding allocproc
allocproc-length t cid stack = elim (Option-cases (find_index? is_unused t.procs)) [
  | inl n ↦ rw (n, allocproc) refl
  | inr (i, e) ↦
      rw (e, allocproc)
        (give_stack-length (spend_pid t i cid) i stack
          ∙ modify-length t i (embryo_proc t.nextpid cid))
]

finish_fork-length :
    (u : Ptable) (me : ℕ) (copied : Bool) (r : Option ℕ)
    → length (finish_fork u me copied r).1.procs ≡ length u.procs
finish_fork-length u me copied none = refl
finish_fork-length u me true (some i) =
    modify-length (set_parent u i me) i (λ p. record p { state = runnable })
    ∙ modify-length u i (λ p. record p { parent = some me })
finish_fork-length u me false (some i) =
    modify-length u i (λ p. record p { kstack = 0; state = unused })

pub fork-length :
    (t : Ptable) (me cid stack : ℕ) (copied : Bool)
    → length (fork t me cid stack copied).1.procs ≡ length t.procs
unfolding fork
fork-length t me cid stack copied =
    finish_fork-length (allocproc t cid stack).1 me copied (allocproc t cid stack).0
    ∙ allocproc-length t cid stack

pub kill-length : (t : Ptable) (pid : ℕ) → length (kill t pid).1.procs ≡ length t.procs
unfolding kill
kill-length t pid = elim (Option-cases (findproc t pid)) [
  | inl n ↦ ground (arith, n)
  | inr (i, e) ↦ ground (arith, e, modify-length t i killed_proc)
]

adopted-length : (t : Ptable) (i : ℕ) (p : Proc) → length (adopted t i p).procs ≡ length t.procs
adopted-length t i p = length-set t.procs i (record p { parent = some t.initproc })

adopt-length : (t : Ptable) (me i : ℕ) → length (adopt t me i).procs ≡ length t.procs
unfolding adopt
adopt-length t me i = elim (Option-cases (get_elem? t.procs i)) [
  | inl n ↦ rw (n, adopt) refl
  | inr (p, e) ↦ rw (e, adopt) (go p (is_child_of me p) (is_zombie p))
]
  where
    go :
        (p : Proc) (b z : Bool)
        → length
            (if b
              then (if z then wakeup1 (adopted t i p) (on_proc t.initproc) else adopted t i p)
              else t).procs
          ≡ length t.procs
    go p true true = wakeup1-length (adopted t i p) (on_proc t.initproc) ∙ adopted-length t i p
    go p true false = adopted-length t i p
    go p false z = refl

adopt_from-length : (t : Ptable) (me i n : ℕ) → length (adopt_from t me i n).procs ≡ length t.procs
unfolding adopt_from
adopt_from-length t me i zero = refl
adopt_from-length t me i (suc n) =
    adopt_from-length (adopt t me i) me (i + 1) n ∙ adopt-length t me i

pub exit-length : (t u : Ptable) (me : ℕ) → exit t me ≡ ok u → length u.procs ≡ length t.procs
unfolding exit
exit-length t u me h = elim (Bool-cases (me == t.initproc)) [
  | inl e ↦ absurd (ground (arith, e))
  | inr e ↦
      let v = adopt_from (wakeup1 t (parent_chan (parent_of t me))) me 0 nproc in
      let same : modify v me (λ p. record p { state = zombie }) ≡ u = ground (arith, e) in
      ap (λ x. length x.procs) (sym same)
      ∙ modify-length v me (λ p. record p { state = zombie })
      ∙ adopt_from-length (wakeup1 t (parent_chan (parent_of t me))) me 0 nproc
      ∙ wakeup1-length t (parent_chan (parent_of t me))
]

pub sleep-length : (t : Ptable) (me : ℕ) (c : Chan) → length (sleep t me c).procs ≡ length t.procs
unfolding sleep
sleep-length t me c = modify-length t me (λ p. record p { chan = c; state = sleeping })

pub yield-length : (t : Ptable) (me : ℕ) → length (yield t me).procs ≡ length t.procs
unfolding yield
yield-length t me = modify-length t me (λ p. record p { state = runnable })

pub wait-length :
    (t : Ptable) (me : ℕ) (killed : Bool) → length (wait t me killed).1.procs ≡ length t.procs
unfolding wait
wait-length t me killed = elim (Option-cases (find_index? (is_dead_child_of me) t.procs)) [
  | inr (i, e) ↦
      rw (e, wait)
        (elim (Option-cases (get_elem? t.procs i)) [
          | inl n ↦ rw n refl
          | inr (p, h) ↦ rw h (length-set t.procs i (reap p))
        ])
  | inl n ↦
      rw (n, wait)
        (elim (Option-cases (find_index? (is_child_of me) t.procs)) [
          | inl m ↦ rw m refl
          | inr (j, e) ↦ rw e (go killed)
        ])
]
  where
    go :
        (b : Bool)
        → length
            (if◌then◌else◌ {A = WaitStop × Ptable} b
              (no_children, t)
              (waits, sleep t me (on_proc me))).1.procs
          ≡ length t.procs
    go true = refl
    go false = sleep-length t me (on_proc me)

pub dispatch-length :
    (t u : Ptable) (i : ℕ) → dispatch t i ≡ some u → length u.procs ≡ length t.procs
unfolding dispatch
dispatch-length t u i h = elim (Option-cases (get_elem? t.procs i)) [
  | inl n ↦ absurd (ground (arith, n))
  | inr (p, e) ↦ ground (arith, e, length-set t.procs i (record p { state = running }))
]

pub sleep_tidy-length : (t : Ptable) (me : ℕ) → length (sleep_tidy t me).procs ≡ length t.procs
unfolding sleep_tidy
sleep_tidy-length t me = modify-length t me (λ p. record p { chan = no_chan })

pub wakeup_children-length :
    (t : Ptable) (me : ℕ) → length (wakeup_children t me).procs ≡ length t.procs
unfolding wakeup_children
wakeup_children-length t me = length-map _ t.procs
