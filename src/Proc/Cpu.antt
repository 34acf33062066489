-- ===== src/Proc/Cpu.antt =====
-- Which process of the table is on the CPU, kernel/proc.c: no operation but the scheduler's switch makes a
-- process run, and `sleep`, `yield` and `exit` stop the one that calls them.
use microkernal.Common.{
  Bool, Bool-cases, Option, Option-cases, ap, arith, false, get_elem?, if◌then◌else◌, inl, inr, map,
  none, ok, refl, some, subst, suc, sym, true, zero, ℕ, ◌&&◌, ◌+◌, ◌==◌, ◌∙◌, ◌≡◌, ◌≢◌,
}
use microkernal.Proc.{
  Chan, Proc, Ptable, WaitStop, adopt, adopt_from, adopted, dispatch, exit, findproc, is_child_of,
  is_sleeping, is_zombie, kill, killed_proc, modify, no_children, nproc, on_proc, parent_chan,
  parent_of, reap, reaped, runnable, running, set_proc, sleep, sleeping, wait, waits, wake, wakeup1,
  wakeup_children, yield, zombie,
}
use microkernal.Proc.Invariant.{At, At-map}
use microkernal.Proc.Change.{At-set}
use microkernal.Proc.Wait.{WaitEnds, wait-WaitEnds}

-- Nobody runs but the process in slot `c`, if there is one.
abbrev pub Only : Ptable → (c : Option ℕ) → Type 0
Only t c = (j : ℕ) (q : Proc) → At t j q → q.state ≡ running → c ≡ some j

-- Whoever runs in `u` ran in `t`.
abbrev pub Quiet : Ptable → Ptable → Type 0
Quiet t u =
    (j : ℕ) (q : Proc) → At u j q → q.state ≡ running → (p : Proc) × At t j p × (p.state ≡ running)

pub Quiet-keeps : (t u : Ptable) (c : Option ℕ) → Quiet t u → Only t c → Only u c
Quiet-keeps t u c k o j q h r = let (p, a, s) = k j q h r in o j p a s

Quiet-trans : (t u v : Ptable) → Quiet t u → Quiet u v → Quiet t v
Quiet-trans t u v a b j q h r = let (p, k, s) = b j q h r in a j p k s

-- The process on the CPU has stopped, so nobody runs.
pub Quiet-leaves :
    (t u : Ptable) (me : ℕ)
    → Quiet t u
    → ((q : Proc) → At u me q → q.state ≢ running)
    → Only t (some me)
    → Only u none
Quiet-leaves t u me k stopped o j q h r =
    let (p, a, s) = k j q h r in
    let e : me ≡ j = ground (arith, o j p a s) in
    absurd (stopped q (subst (λ n. At u n q) (sym e) h) r)

set-Quiet :
    (t : Ptable) (i : ℕ) (p p' : Proc)
    → At t i p
    → (p'.state ≡ running → p.state ≡ running)
    → Quiet t (set_proc t i p')
set-Quiet t i p p' was keep j q h r = elim (At-set t i p p' was j q h) [
  | inl (e, z) ↦ (p, subst (λ n. At t n p) e was, keep (ap (λ x. x.state) (sym z) ∙ r))
  | inr (n, a) ↦ (q, a, r)
]

-- A change of slot `i` that makes nobody run.
pub modify-Quiet :
    (t : Ptable) (i : ℕ) (f : Proc → Proc)
    → ((p : Proc) → (f p).state ≡ running → p.state ≡ running)
    → Quiet t (modify t i f)
modify-Quiet t i f keep = elim (Option-cases (get_elem? t.procs i)) [
  | inl n ↦ rw (n, modify) (λ j q h r. (q, h, r))
  | inr (p, e) ↦ rw (e, modify) (set-Quiet t i p (f p) e (keep p))
]

-- What slot `i` holds after a change.
modify-stops :
    (t : Ptable) (i : ℕ) (f : Proc → Proc)
    → ((p : Proc) → (f p).state ≢ running)
    → (q : Proc) → At (modify t i f) i q
    → q.state ≢ running
modify-stops t i f stops q = elim (Option-cases (get_elem? t.procs i)) [
  | inl n ↦ rw (n, modify) (λ h. absurd (cc (sym n ∙ h)))
  | inr (p, e) ↦
      rw (e, modify)
        (λ h r. elim (At-set t i p (f p) e i q h) [
          | inl (z, w) ↦ stops p (ap (λ x. x.state) (sym w) ∙ r)
          | inr (n, a) ↦ n refl
        ])
]

map-Quiet :
    (t : Ptable) (f : Proc → Proc)
    → ((p : Proc) → (f p).state ≡ running → p.state ≡ running)
    → Quiet t (record t { procs = map f t.procs })
map-Quiet t f keep j q h r =
    let (p, a, e) = At-map f t j q h in (p, a, keep p (ap (λ x. x.state) (sym e) ∙ r))

-- Waking makes a process runnable.
woken-keeps :
    (b : Bool) (p : Proc)
    → (if b then record p { state = runnable } else p).state ≡ running
    → p.state ≡ running
woken-keeps true p h = absurd (cc h)
woken-keeps false p h = h

pub wakeup1-Quiet : (t : Ptable) (c : Chan) → Quiet t (wakeup1 t c)
unfolding wakeup1
wakeup1-Quiet t c = map-Quiet t (wake c) (λ p h. woken-keeps _ p h)

pub wakeup_children-Quiet : (t : Ptable) (me : ℕ) → Quiet t (wakeup_children t me)
unfolding wakeup_children
wakeup_children-Quiet t me =
    map-Quiet t _ (λ p h. woken-keeps (is_sleeping p && is_child_of me p) p h)

killed-keeps : (p : Proc) → (killed_proc p).state ≡ running → p.state ≡ running
killed-keeps p h = elim (Bool-cases (is_sleeping p)) [
  | inl e ↦ absurd (ground (arith, e))
  | inr e ↦ ground (arith, e)
]

pub kill-Quiet : (t : Ptable) (pid : ℕ) → Quiet t (kill t pid).1
unfolding kill
kill-Quiet t pid = elim (Option-cases (findproc t pid)) [
  | inl n ↦ rw (n, kill) (λ j q h r. (q, h, r))
  | inr (i, e) ↦ rw (e, kill) (modify-Quiet t i killed_proc killed-keeps)
]

adopt-Quiet : (t : Ptable) (me i : ℕ) → Quiet t (adopt t me i)
unfolding adopt
adopt-Quiet t me i = elim (Option-cases (get_elem? t.procs i)) [
  | inl n ↦ rw (n, adopt) (λ j q h r. (q, h, r))
  | inr (p, e) ↦ rw (e, adopt) (go p e (is_child_of me p) (is_zombie p))
]
  where
    go :
        (p : Proc)
        → At t i p
        → (b z : Bool)
        → Quiet t (
            if b
            then (if z then wakeup1 (adopted t i p) (on_proc t.initproc) else adopted t i p)
            else t)
    go p e true true =
        Quiet-trans t (adopted t i p) (wakeup1 (adopted t i p) (on_proc t.initproc))
          (set-Quiet t i p (record p { parent = some t.initproc }) e (λ h. h))
          (wakeup1-Quiet (adopted t i p) (on_proc t.initproc))
    go p e true false = set-Quiet t i p (record p { parent = some t.initproc }) e (λ h. h)
    go p e false z = λ j q h r. (q, h, r)

adopt_from-Quiet : (t : Ptable) (me i n : ℕ) → Quiet t (adopt_from t me i n)
unfolding adopt_from
adopt_from-Quiet t me i zero = λ j q h r. (q, h, r)
adopt_from-Quiet t me i (suc n) =
    Quiet-trans t (adopt t me i) (adopt_from (adopt t me i) me (i + 1) n) (adopt-Quiet t me i)
      (adopt_from-Quiet (adopt t me i) me (i + 1) n)

-- After `exit`, `sleep` and `yield` of the process on the CPU nobody runs.
pub exit-Only : (t u : Ptable) (me : ℕ) → exit t me ≡ ok u → Only t (some me) → Only u none
unfolding exit
exit-Only t u me h o = elim (Bool-cases (me == t.initproc)) [
  | inl e ↦ absurd (ground (arith, e))
  | inr e ↦
      let a = wakeup1 t (parent_chan (parent_of t me)) in
      let v = adopt_from a me 0 nproc in
      let f : Proc → Proc = λ p. record p { state = zombie } in
      let same : modify v me f ≡ u = ground (arith, e) in
      subst (λ x. Only x none) same
        (Quiet-leaves t (modify v me f) me
          (Quiet-trans t v (modify v me f)
            (Quiet-trans t a v (wakeup1-Quiet t (parent_chan (parent_of t me)))
              (adopt_from-Quiet a me 0 nproc))
            (modify-Quiet v me f (λ p r. absurd (cc r))))
          (modify-stops v me f (λ p r. cc r)) o)
]

pub sleep-Only : (t : Ptable) (me : ℕ) (c : Chan) → Only t (some me) → Only (sleep t me c) none
unfolding sleep
sleep-Only t me c =
    let f : Proc → Proc = λ p. record p { chan = c; state = sleeping } in
    Quiet-leaves t (modify t me f) me (modify-Quiet t me f (λ p r. absurd (cc r)))
      (modify-stops t me f (λ p r. cc r))

pub yield-Only : (t : Ptable) (me : ℕ) → Only t (some me) → Only (yield t me) none
unfolding yield
yield-Only t me =
    let f : Proc → Proc = λ p. record p { state = runnable } in
    Quiet-leaves t (modify t me f) me (modify-Quiet t me f (λ p r. absurd (cc r)))
      (modify-stops t me f (λ p r. cc r))

-- Who is on the CPU after a pass of `wait` by `me`.
abbrev pub after_wait : (me : ℕ) → WaitStop → Option ℕ
after_wait me (reaped i pid kstack) = some me
after_wait me no_children = some me
after_wait me waits = none

pub wait-Only :
    (t : Ptable) (me : ℕ) (killed : Bool)
    → Only t (some me)
    → Only (wait t me killed).1 (after_wait me (wait t me killed).0)
wait-Only t me killed o = go (wait t me killed).0 (wait t me killed).1 (wait-WaitEnds t me killed)
  where
    go :
        (stop : WaitStop) (u : Ptable)
        → WaitEnds t me killed (stop, u)
        → Only u (after_wait me stop)
    go (reaped i pid kstack) u (q, h, c, z, x, y, e) = rw e (
        Quiet-keeps t (set_proc t i (reap q)) (some me)
          (set-Quiet t i q (reap q) h (λ r. absurd (cc r))) o)
    go no_children u (e, n, w) = rw e o
    go waits u (e, some_child, n, k) = rw e (sleep-Only t me (on_proc me) o)

-- The scheduler switches to one process.
pub dispatch-Only : (t u : Ptable) (i : ℕ) → dispatch t i ≡ some u → Only t none → Only u (some i)
unfolding dispatch
dispatch-Only t u i h o j q a r = elim (Option-cases (get_elem? t.procs i)) [
  | inl n ↦ absurd (ground (arith, n))
  | inr (p, e) ↦
      let same : u ≡ set_proc t i (record p { state = running }) = ground (arith, e) in
      elim (At-set t i p (record p { state = running }) e j q (subst (λ x. At x j q) same a)) [
        | inl (z, w) ↦ ap some z
        | inr (n, b) ↦ absurd (cc (o j q b r))
      ]
]
