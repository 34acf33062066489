-- ===== src/Proc/System.antt =====
-- The process table of a running system: every operation, in any order, from the first process on.
use microkernal.Common.{
  ==-of_ne, Bool, Option, ap, arith, false, find_index?, find_index?-some, get_elem?, inr, length,
  length-replicate, none, ok, panic, refl, replicate, some, subst, suc, sym, zero, ℕ, ◌-◌, ◌<◌, ◌^◌,
  ◌∙◌, ◌∷◌, ◌≡◌, ◌≢◌, ◌≤◌, ◌⊎◌,
}
use microkernal.Proc.{
  sleep_tidy, wakeup_children, loaded, userinit, free_proc, no_chan, runnable, Proc, Ptable,
  running, Chan, on_address, wakeup1, sleep, embryo_proc, is_unused, set_stack, spend_pid, embryo,
  give_up, make_ready, on_self, set_parent, unused, exit, kill, wait, yield, dispatch, nproc,
}
use microkernal.Proc.Slots.{
  wakeup1-length, sleep_tidy-length, wakeup_children-length, modify-length, exit-length,
  kill-length, sleep-length, yield-length, wait-length, dispatch-length,
}
use microkernal.Proc.Invariant.{Inv, At}
use microkernal.Proc.Steps.{
  sleep_tidy-Inv, wakeup_children-Inv, wakeup1-Inv, kill-Inv, sleep-Inv, yield-Inv, dispatch-Inv,
}
use microkernal.Proc.Embryo.{
  spend_pid-Inv, set_stack-Inv, give_up-Inv, make_ready-Inv, set_parent-Inv,
}
use microkernal.Proc.Cpu.{
  Only, Quiet-keeps, after_wait, dispatch-Only, exit-Only, kill-Quiet, modify-Quiet, sleep-Only,
  wait-Only, wakeup1-Quiet, wakeup_children-Quiet, yield-Only,
}
use microkernal.Proc.Wait.{wait-Inv}
use microkernal.Proc.Exit.{exit-Inv}

abbrev pub Runs : Ptable → ℕ → Type 0
Runs t me = (p : Proc) × At t me p × (p.state ≡ running)

-- The slot is one that `allocproc` has claimed and that its fork has not finished.
abbrev pub IsEmbryo : Ptable → ℕ → Type 0
IsEmbryo t i = (p : Proc) × At t i p × (p.state ≡ embryo)

-- One operation, by the process on the CPU, by an interrupt handler (`wakeup`) or by the scheduler.
-- A fork claims an unused slot, which needs a pid below INT_MAX; later steps give the embryo its stack and
-- its parent and make it runnable, or give it up. The scheduler switches when it is on the CPU itself.
-- The process on the CPU, if there is one, stands beside the table before and after the step.
pub data Step (t : Ptable) : Option ℕ → Ptable → Option ℕ → Type 0 where
  claims :
      (me i cid : ℕ)
      → Runs t me
      → t.nextpid < 2 ^ 31 - 1
      → find_index? is_unused t.procs ≡ some i
      → Step t (some me) (spend_pid t i cid) (some me)
  gets_stack :
      (me i stack : ℕ) → Runs t me → IsEmbryo t i → Step t (some me) (set_stack t i stack) (some me)
  gets_parent :
      (me i : ℕ) → Runs t me → IsEmbryo t i → Step t (some me) (set_parent t i me) (some me)
  gets_ready : (me i : ℕ) → Runs t me → IsEmbryo t i → Step t (some me) (make_ready t i) (some me)
  is_given_up : (me i : ℕ) → Runs t me → IsEmbryo t i → Step t (some me) (give_up t i) (some me)
  exits : (me : ℕ) {u : Ptable} → Runs t me → exit t me ≡ ok u → Step t (some me) u none
  waits_for :
      (me : ℕ) (killed : Bool)
      → Runs t me
      → Step t (some me) (wait t me killed).1 (after_wait me (wait t me killed).0)
  kills : (me pid : ℕ) → Runs t me → Step t (some me) (kill t pid).1 (some me)
  sleeps_on : (me a : ℕ) → Runs t me → Step t (some me) (sleep t me (on_address a)) none
  sleeps_on_self : (me : ℕ) → Runs t me → Step t (some me) (sleep t me (on_self me)) none
  yields : (me : ℕ) → Runs t me → Step t (some me) (yield t me) none
  tidies : (me : ℕ) → Runs t me → Step t (some me) (sleep_tidy t me) (some me)
  wakes_children : (me : ℕ) {c : Option ℕ} → Step t c (wakeup_children t me) c
  wakes : (chan : Chan) {c : Option ℕ} → Step t c (wakeup1 t chan) c
  dispatches : (i : ℕ) {u : Ptable} → dispatch t i ≡ some u → Step t none u (some i)

exit-ne_init : (t u : Ptable) (me : ℕ) → exit t me ≡ ok u → me ≢ t.initproc
unfolding exit
exit-ne_init t u me h e = ground arith

-- Every step keeps the table sound.
Step-Inv :
    {t u : Ptable} {c d : Option ℕ}
    → length t.procs ≤ nproc
    → Step t c u d
    → Only t c
    → Inv t
    → Inv u
Step-Inv {t} small (claims me i cid r n e) o v =
    let (p, was, dead, before) = find_index?-some is_unused t.procs i e in
    spend_pid-Inv t i cid p was dead n v
Step-Inv {t} small (gets_stack me i stack r (p, was, made)) o v =
    set_stack-Inv t i p was made v stack
Step-Inv {t} small (gets_parent me i (r, here, runs) (p, was, made)) o v =
    set_parent-Inv t i p was made v me r here runs
Step-Inv {t} small (gets_ready me i r (p, was, made)) o v = make_ready-Inv t i p was made v
Step-Inv {t} small (is_given_up me i r (p, was, made)) o v = give_up-Inv t i p was made v
Step-Inv {t} small (sleeps_on_self me (p, h, r)) o v = sleep-Inv t me p (on_self me) h r (λ e. cc) v
Step-Inv {t} small (exits me {u} (p, h, r) e) o v =
    let (w, run, i, dead) = exit-Inv t me p h r (exit-ne_init t u me e) small v in
    let same : w ≡ u = ground arith in subst Inv same i
Step-Inv {t} small (waits_for me killed (p, h, r)) o v = wait-Inv t me killed p h r v
Step-Inv {t} small (kills me pid r) o v = kill-Inv t pid v
Step-Inv {t} small (sleeps_on me a (p, h, r)) o v = sleep-Inv t me p (on_address a) h r (λ e. cc) v
Step-Inv {t} small (yields me (p, h, r)) o v = yield-Inv t me p h r v
Step-Inv {t} small (tidies me (p, h, r)) o v = sleep_tidy-Inv t me p h r v
Step-Inv {t} small (wakes_children me) o v = wakeup_children-Inv t me v
Step-Inv {t} small (wakes chan) o v = wakeup1-Inv t chan v
Step-Inv {t} small (dispatches i {u} e) o v = dispatch-Inv t u i e (λ j q h r. cc (o j q h r)) v

-- Every step leaves nobody running but the process on the CPU.
Step-Only : {t u : Ptable} {c d : Option ℕ} → Step t c u d → Only t c → Only u d
unfolding sleep_tidy
Step-Only {t} (claims me i cid r n e) o =
    Quiet-keeps t (spend_pid t i cid) (some me)
      (modify-Quiet t i (embryo_proc t.nextpid cid) (λ p z. absurd (cc z))) o
Step-Only {t} (gets_stack me i stack r e) o =
    Quiet-keeps t (set_stack t i stack) (some me)
      (modify-Quiet t i (λ p. record p { kstack = stack }) (λ p z. z)) o
Step-Only {t} (gets_parent me i r e) o =
    Quiet-keeps t (set_parent t i me) (some me)
      (modify-Quiet t i (λ p. record p { parent = some me }) (λ p z. z)) o
Step-Only {t} (gets_ready me i r e) o =
    Quiet-keeps t (make_ready t i) (some me)
      (modify-Quiet t i (λ p. record p { state = runnable }) (λ p z. absurd (cc z))) o
Step-Only {t} (is_given_up me i r e) o =
    Quiet-keeps t (give_up t i) (some me)
      (modify-Quiet t i (λ p. record p { kstack = 0; state = unused }) (λ p z. absurd (cc z))) o
Step-Only {t} (exits me {u} r e) o = exit-Only t u me e o
Step-Only {t} (waits_for me killed r) o = wait-Only t me killed o
Step-Only {t} (kills me pid r) o = Quiet-keeps t (kill t pid).1 (some me) (kill-Quiet t pid) o
Step-Only {t} (sleeps_on me a r) o = sleep-Only t me (on_address a) o
Step-Only {t} (sleeps_on_self me r) o = sleep-Only t me (on_self me) o
Step-Only {t} (yields me r) o = yield-Only t me o
Step-Only {t} (tidies me r) o =
    Quiet-keeps t (sleep_tidy t me) (some me)
      (modify-Quiet t me (λ p. record p { chan = no_chan }) (λ p z. z)) o
Step-Only {t} (wakes_children me {c}) o =
    Quiet-keeps t (wakeup_children t me) c (wakeup_children-Quiet t me) o
Step-Only {t} (wakes chan {c}) o = Quiet-keeps t (wakeup1 t chan) c (wakeup1-Quiet t chan) o
Step-Only {t} (dispatches i {u} e) o = dispatch-Only t u i e o

Step-length : {t u : Ptable} {c d : Option ℕ} → Step t c u d → length u.procs ≡ length t.procs
Step-length {t} (claims me i cid r n e) = modify-length t i (embryo_proc t.nextpid cid)
Step-length {t} (gets_stack me i stack r e) = modify-length t i (λ p. record p { kstack = stack })
Step-length {t} (gets_parent me i r e) = modify-length t i (λ p. record p { parent = some me })
Step-length {t} (gets_ready me i r e) = modify-length t i (λ p. record p { state = runnable })
Step-length {t} (is_given_up me i r e) =
    modify-length t i (λ p. record p { kstack = 0; state = unused })
Step-length {t} (sleeps_on_self me r) = sleep-length t me (on_self me)
Step-length {t} (exits me {u} r e) = exit-length t u me e
Step-length {t} (waits_for me killed r) = wait-length t me killed
Step-length {t} (kills me pid r) = kill-length t pid
Step-length {t} (sleeps_on me a r) = sleep-length t me (on_address a)
Step-length {t} (yields me r) = yield-length t me
Step-length {t} (tidies me r) = sleep_tidy-length t me
Step-length {t} (wakes_children me) = wakeup_children-length t me
Step-length {t} (wakes chan) = wakeup1-length t chan
Step-length {t} (dispatches i {u} e) = dispatch-length t u i e

abbrev first : ℕ → Proc
first stack = record {
  state = runnable;
  pid = 1;
  cid = 0;
  parent = none;
  chan = no_chan;
  killed = false;
  kstack = stack;
}

-- The table that `userinit` leaves: the first process, in slot 0, and free slots.
abbrev boot : ℕ → Ptable
boot stack = record { procs = first stack ∷ replicate 63 free_proc; nextpid = 2; initproc = 0 }

userinit-boots : (n : ℕ) → userinit loaded (suc n) ≡ ok (boot (suc n))
unfolding userinit replicate find_index?
userinit-boots n = rw (==-of_ne (suc n) 0 (omega arith)) refl

userinit-panics : userinit loaded 0 ≡ panic
unfolding userinit replicate find_index?
userinit-panics = refl

userinit_lem : (stack : ℕ) (t : Ptable) → userinit loaded stack ≡ ok t → boot stack ≡ t
unfolding userinit
userinit_lem zero t h = absurd (ground (arith, userinit-panics))
userinit_lem (suc n) t h =
    ap (λ o. elim o [ panic ↦ loaded | ok x ↦ x ]) (sym (userinit-boots n) ∙ h)

replicate-At : (n i : ℕ) (p : Proc) → get_elem? (replicate n free_proc) i ≡ some p → p ≡ free_proc
unfolding replicate
replicate-At zero i p h = absurd (ground arith)
replicate-At (suc n) zero p h = ground arith
replicate-At (suc n) (suc i) p h = replicate-At n i p h

boot-At :
    (stack i : ℕ) (p : Proc)
    → At (boot stack) i p
    → (i ≡ 0) × (p.pid ≡ 1) × (p.state ≡ runnable) × (p.parent ≡ none) ⊎ (p ≡ free_proc)
boot-At stack zero p h = ground arith
boot-At stack (suc i) p h = inr (replicate-At 63 i p h)

boot-Inv : (stack : ℕ) → Inv (boot stack)
boot-Inv stack = record {
  fresh = λ i p h. ground (arith, boot-At stack i p h);
  distinct = λ i j p q h k e n. ground (arith, boot-At stack i p h, boot-At stack j q k);
  parents = λ i j p h e. absurd (ground (arith, boot-At stack i p h));
  init = (first stack, refl, refl);
  waiting = λ i j p q h k w e z. ground (arith, boot-At stack i p h);
  not_own = λ i p h e. ground (arith, boot-At stack i p h);
  root = λ p h. ground (arith, boot-At stack 0 p h);
  single = λ i j p q h k e n. ground (arith, boot-At stack i p h, boot-At stack j q k);
}

boot-Only : (stack : ℕ) → Only (boot stack) none
boot-Only stack j q h r = absurd (ground (arith, boot-At stack j q h))

-- `userinit` on the table as loaded, then any steps, from the scheduler on.
pub data Reach : Ptable → Option ℕ → Type 0 where
  booted : (stack : ℕ) {t : Ptable} → userinit loaded stack ≡ ok t → Reach t none
  later : {t u : Ptable} {c d : Option ℕ} → Reach t c → Step t c u d → Reach u d

Reach-length : {t : Ptable} {c : Option ℕ} → Reach t c → length t.procs ≡ nproc
Reach-length (booted stack {t} h) =
    ap (λ x. length x.procs) (sym (userinit_lem stack t h)) ∙ ap suc (length-replicate 63 free_proc)
Reach-length (later r s) = Step-length s ∙ Reach-length r

Reach-Only : {t : Ptable} {c : Option ℕ} → Reach t c → Only t c
Reach-Only (booted stack {t} h) =
    subst (λ x. Only x none) (userinit_lem stack t h) (boot-Only stack)
Reach-Only (later r s) = Step-Only s (Reach-Only r)

-- From `userinit` on, while pids stay below INT_MAX, whatever the order of the steps of fork, exit, wait,
-- kill, sleep and yield by the process on the CPU, of wakeups at any time, and of switches by the scheduler
-- when it is on the CPU, the process table stays sound: pids are distinct, every parent is alive, init
-- lives and has no parent, one process runs at most, and no process sleeps in `wait` while it has a dead
-- child. A fork is a chain of steps between which others run.
pub Reach-Inv : {t : Ptable} {c : Option ℕ} → Reach t c → Inv t
Reach-Inv (booted stack {t} h) = subst Inv (userinit_lem stack t h) (boot-Inv stack)
Reach-Inv (later r s) = Step-Inv (omega (arith, Reach-length r)) s (Reach-Only r) (Reach-Inv r)
