-- ===== src/Proc/Steps.antt =====
-- wakeup, kill, sleep, yield and the switch of the scheduler, kernel/proc.c.
use microkernal.Common.{
  Bool-cases, Option-cases, ap, arith, eq_of_==, false, get_elem?, if◌then◌else◌, inl, inr,
  ne_of_==, refl, some, subst, sym, true, ℕ, ◌&&◌, ◌==◌, ◌∙◌, ◌≡◌, ◌≢◌,
}
use microkernal.Proc.{
  wakeup_children, is_child_of, sleep_tidy, no_chan, sleeping, on_proc, findproc, dispatch, sleep,
  kill, killed_proc, Proc, Ptable, runnable, running, zombie, Chan, set_proc, wakeup1, wake,
  same_chan, is_sleeping, modify, yield,
}
use microkernal.Proc.Invariant.{Inv, At, is_alive, Waits, Woken, map-Inv}
use microkernal.Proc.Change.{At-set, Fits, set-Inv, Alive-set}

wake-Woken : (c : Chan) (p : Proc) → Woken p (wake c p)
wake-Woken c p = elim (Bool-cases (is_sleeping p && same_chan p.chan c)) [
  | inl e ↦ rw e (record {
    same_pid = refl;
    same_parent = refl;
    same_chan' = refl;
    state = inr (ground arith, refl);
  })
  | inr e ↦
      rw e (record { same_pid = refl; same_parent = refl; same_chan' = refl; state = inl refl })
]

-- `wakeup1` keeps the table sound, on any channel.
pub wakeup1-Inv : (t : Ptable) (c : Chan) → Inv t → Inv (wakeup1 t c)
unfolding wakeup1
wakeup1-Inv t c v = map-Inv (wake c) t (wake-Woken c) v

-- The contents of a slot may change in state and channel alone, from a live state to a live state
-- other than waiting.
pub restate-Fits :
    (t : Ptable) (i : ℕ) (p p' : Proc)
    → At t i p
    → p'.pid ≡ p.pid
    → p'.parent ≡ p.parent
    → is_alive p' ≡ true
    → ((j : ℕ) (q : Proc)
        → Waits i p'
        → At (set_proc t i p') j q
        → q.parent ≡ some i
        → q.state ≢ zombie)
    → ((j : ℕ) (q : Proc) → i ≢ j → At t j q → p'.state ≡ running → q.state ≢ running)
    → Inv t
    → Fits t i p'
restate-Fits t i p p' was pid parent live waits_well runs_alone v = record {
  pid_fresh = omega (arith, v.fresh i p was);
  pid_new = λ j q n h e. elim (Bool-cases (p.pid == 0)) [
    | inl z ↦ pid ∙ eq_of_== p.pid 0 z
    | inr z ↦ absurd (n (v.distinct i j p q was h (sym pid ∙ e) (ne_of_== p.pid 0 z)))
  ];
  parent_alive = λ j e. Alive-set t i p p' was j (λ z. live) (v.parents i j p was (sym parent ∙ e));
  still_alive = inl live;
  waits_well = waits_well;
  not_awaited = λ j q n h w e z. ground arith;
  parent_other = λ e. v.not_own i p was (sym parent ∙ e);
  root_stays = λ e. parent ∙ v.root p (subst (λ k. At t k p) e was);
  runs_alone = runs_alone;
}

-- The process on the CPU stops: it becomes runnable, and the table stays sound.
pub yield-Inv :
    (t : Ptable) (me : ℕ) (p : Proc) → At t me p → p.state ≡ running → Inv t → Inv (yield t me)
unfolding yield
yield-Inv t me p was runs v =
    rw (was, modify)
      (set-Inv t me p p' was
        (restate-Fits t me p p' was refl refl refl (λ j q w. cc (w.0)) (λ j q n h r. cc r) v) v)
  where
    p' : Proc
    p' = record p { state = runnable }

killed-Woken : (p : Proc) → Woken p (killed_proc p)
killed-Woken p = elim (Bool-cases (is_sleeping p)) [
  | inl e ↦ rw e (record {
    same_pid = refl;
    same_parent = refl;
    same_chan' = refl;
    state = inr (ground arith, refl);
  })
  | inr e ↦
      rw e (record { same_pid = refl; same_parent = refl; same_chan' = refl; state = inl refl })
]

-- A slot that is not alive is nobody's parent.
pub dead-no_child :
    (t : Ptable) (i : ℕ) (p : Proc)
    → At t i p
    → is_alive p ≡ false
    → Inv t
    → (i ≢ t.initproc) × ((j : ℕ) (q : Proc) → At t j q → q.parent ≢ some i)
dead-no_child t i p was dead v = (
  λ e. let (q, h, l) = v.init in ground (arith, ap (λ k. get_elem? t.procs k) e),
  λ j q h s. let (r, k, l) = v.parents j i q h s in ground arith,
)

-- Waking one process keeps the table sound.
set-Woken-Inv :
    (t : Ptable) (i : ℕ) (p p' : Proc) → At t i p → Woken p p' → Inv t → Inv (set_proc t i p')
set-Woken-Inv t i p p' was w v =
    set-Inv t i p p' was
      (record {
        pid_fresh = omega (arith, v.fresh i p was, w.same_pid);
        pid_new = λ j q n h e. elim (Bool-cases (p.pid == 0)) [
          | inl z ↦ w.same_pid ∙ eq_of_== p.pid 0 z
          | inr z ↦ absurd (n (v.distinct i j p q was h (sym w.same_pid ∙ e) (ne_of_== p.pid 0 z)))
        ];
        parent_alive = λ j e.
            let (q, h, l) = v.parents i j p was (sym w.same_parent ∙ e) in
            Alive-set t i p p' was j (λ z. ground (arith, ap (λ k. get_elem? t.procs k) z, w.state))
              (q, h, l);
        still_alive = elim (Bool-cases (is_alive p)) [
          | inl a ↦ inl (ground (arith, w.state))
          | inr d ↦
              let (other, none_of) = dead-no_child t i p was d v in
              inr (
                other,
                λ j q h s. elim (At-set t i p p' was j q h) [
                  | inl (e, z) ↦
                      v.not_own i p was (sym w.same_parent ∙ ap (λ x. x.parent) (sym z) ∙ s)
                  | inr (n, a) ↦ none_of j q a s
                ],
              )
        ];
        waits_well = λ j q g h s z. elim (At-set t i p p' was j q h) [
          | inl (e, y) ↦ v.not_own i p was (sym w.same_parent ∙ ap (λ x. x.parent) (sym y) ∙ s)
          | inr (n, a) ↦ ground (arith, v.waiting i j p q was a, w.state, w.same_chan')
        ];
        not_awaited =
            λ j q n h g e z. ground (arith, v.waiting j i q p h was g, w.state, w.same_parent);
        parent_other = λ e. v.not_own i p was (sym w.same_parent ∙ e);
        root_stays = λ e. w.same_parent ∙ v.root p (subst (λ k. At t k p) e was);
        runs_alone = λ j q n h r z. ground (arith, v.single i j p q was h, w.state);
      })
      v

-- `kill` keeps the table sound, whether it finds its process or not.
pub kill-Inv : (t : Ptable) (pid : ℕ) → Inv t → Inv (kill t pid).1
unfolding kill
kill-Inv t pid v = elim (Option-cases (findproc t pid)) [
  | inl n ↦ rw (n, kill) v
  | inr (i, e) ↦ elim (Option-cases (get_elem? t.procs i)) [
    | inl n ↦ rw (e, kill) (rw (n, modify) v)
    | inr (p, was) ↦
        rw (e, kill) (rw (was, modify) (set-Woken-Inv t i p (killed_proc p) was (killed-Woken p) v))
  ]
]

-- A process that goes to sleep on an address keeps the table sound.
pub sleep-Inv :
    (t : Ptable) (me : ℕ) (p : Proc) (c : Chan)
    → At t me p
    → p.state ≡ running
    → (c ≡ on_proc me → (j : ℕ) (q : Proc) → At t j q → q.parent ≡ some me → q.state ≢ zombie)
    → Inv t
    → Inv (sleep t me c)
unfolding sleep
sleep-Inv t me p c was runs quiet v =
    rw (was, modify)
      (set-Inv t me p p' was
        (restate-Fits t me p p' was refl refl refl children (λ j q n h r. cc r) v) v)
  where
    p' : Proc
    p' = record p { chan = c; state = sleeping }

    children :
        (j : ℕ) (q : Proc)
        → Waits me p'
        → At (set_proc t me p') j q
        → q.parent ≡ some me
        → q.state ≢ zombie
    children j q w h s = elim (At-set t me p p' was j q h) [
      | inl (e, z) ↦ absurd (v.not_own me p was (ap (λ x. x.parent) (sym z) ∙ s))
      | inr (n, a) ↦ quiet w.1 j q a s
    ]

-- The scheduler keeps the table sound when no process runs.
pub dispatch-Inv :
    (t u : Ptable) (i : ℕ)
    → dispatch t i ≡ some u
    → ((j : ℕ) (q : Proc) → At t j q → q.state ≢ running)
    → Inv t
    → Inv u
unfolding dispatch
dispatch-Inv t u i h idle v = elim (Option-cases (get_elem? t.procs i)) [
  | inl n ↦ absurd (ground arith)
  | inr (p, was) ↦
      let out : (p.state ≡ runnable) × (u ≡ set_proc t i (record p { state = running })) =
        ground arith in
      rw out.1 (
        set-Inv t i p (record p { state = running }) was
          (restate-Fits t i p (record p { state = running }) was refl refl refl (λ j q w. cc (w.0))
            (λ j q n k r. idle j q k) v)
          v)
]

-- Waking the children of a process keeps the table sound.
pub wakeup_children-Inv : (t : Ptable) (me : ℕ) → Inv t → Inv (wakeup_children t me)
unfolding wakeup_children
wakeup_children-Inv t me v =
    map-Inv (λ p. if is_sleeping p && is_child_of me p then record p { state = runnable } else p) t
      woken v
  where
    woken :
        (p : Proc)
        → Woken p (if is_sleeping p && is_child_of me p then record p { state = runnable } else p)
    woken p = elim (Bool-cases (is_sleeping p && is_child_of me p)) [
      | inl e ↦ rw e (record {
        same_pid = refl;
        same_parent = refl;
        same_chan' = refl;
        state = inr (ground arith, refl);
      })
      | inr e ↦
          rw e (record { same_pid = refl; same_parent = refl; same_chan' = refl; state = inl refl })
    ]

-- The running process forgets what it slept on, and the table stays sound.
pub sleep_tidy-Inv :
    (t : Ptable) (me : ℕ) (p : Proc) → At t me p → p.state ≡ running → Inv t → Inv (sleep_tidy t me)
unfolding sleep_tidy
sleep_tidy-Inv t me p was runs v =
    rw (was, modify)
      (set-Inv t me p p' was
        (restate-Fits t me p p' was refl refl (ground arith) (λ j q w. ground arith)
          (λ j q n h r z. n (v.single me j p q was h runs z)) v)
        v)
  where
    p' : Proc
    p' = record p { chan = no_chan }
