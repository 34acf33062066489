-- ===== src/Proc/Tests.antt =====
-- Witnesses on a table of four slots, and on the table after boot.
use microkernal.Common.{
  [], arith, false, find_index?, inl, inr, none, ok, refl, replicate, some, subst, suc, sym, zero,
  ℕ, ◌∷◌, ◌≡◌, ◌⊎◌,
}
use microkernal.Proc.{
  Proc, Ptable, sleeping, runnable, running, zombie, on_proc, no_chan, free_proc, loaded, userinit,
  is_unused, set_stack, spend_pid, dispatch, embryo, set_parent, wait, exit,
}
use microkernal.Proc.Invariant.{Inv, At, Alive}
use microkernal.Proc.Wait.{WaitEnds, wait-WaitEnds}
use microkernal.Proc.Exit.{exit-Inv}
use microkernal.Proc.System.{
  Reach-Inv, booted, later, dispatches, claims, gets_stack, gets_parent, Runs,
}

-- init, in slot 0, waits; slot 1 runs and has a dead child in slot 2; slot 3 is unused.
abbrev init_proc : Proc
init_proc = record {
  state = sleeping;
  pid = 1;
  cid = 0;
  parent = none;
  chan = on_proc 0;
  killed = false;
  kstack = 4096;
}

abbrev running_proc : Proc
running_proc = record {
  state = running;
  pid = 2;
  cid = 0;
  parent = some 0;
  chan = no_chan;
  killed = false;
  kstack = 8192;
}

abbrev dead_proc : Proc
dead_proc = record {
  state = zombie;
  pid = 3;
  cid = 0;
  parent = some 1;
  chan = no_chan;
  killed = false;
  kstack = 12288;
}

abbrev four_slots : Ptable
four_slots = record {
  procs = init_proc ∷ running_proc ∷ dead_proc ∷ free_proc ∷ [];
  nextpid = 4;
  initproc = 0;
}

-- What stands in each slot.
slot-cases :
    (i : ℕ) (p : Proc)
    → At four_slots i p
    → (((i ≡ 0) × (p ≡ init_proc)) ⊎ ((i ≡ 1) × (p ≡ running_proc)))
      ⊎ (((i ≡ 2) × (p ≡ dead_proc)) ⊎ ((i ≡ 3) × (p ≡ free_proc)))
slot-cases zero p h = inl (inl (refl, ground arith))
slot-cases (suc zero) p h = inl (inr (refl, ground arith))
slot-cases (suc (suc zero)) p h = inr (inl (refl, ground arith))
slot-cases (suc (suc (suc zero))) p h = inr (inr (refl, ground arith))
slot-cases (suc (suc (suc (suc i)))) p h = cc h

four_slots-Inv : Inv four_slots
four_slots-Inv = record {
  fresh = λ i p h. ground (arith, slot-cases i p h);
  distinct = λ i j p q h k e n. ground (arith, slot-cases i p h, slot-cases j q k);
  parents = λ i j p h e.
      let c : (j ≡ 0) ⊎ (j ≡ 1) = ground (arith, slot-cases i p h) in
      elim c [
        | inl z ↦ subst (Alive four_slots) (sym z) (init_proc, refl, refl)
        | inr z ↦ subst (Alive four_slots) (sym z) (running_proc, refl, refl)
      ];
  init = (init_proc, refl, refl);
  waiting = λ i j p q h k w e z. ground (arith, slot-cases i p h, slot-cases j q k);
  not_own = λ i p h e. ground (arith, slot-cases i p h);
  root = λ p h. ground arith;
  single = λ i j p q h k e n. ground (arith, slot-cases i p h, slot-cases j q k);
}

wait-WaitEnds_example : WaitEnds four_slots 1 false (wait four_slots 1 false)
wait-WaitEnds_example = wait-WaitEnds four_slots 1 false

exit-Inv_example :
    (u : Ptable) × (exit four_slots 1 ≡ ok u) × Inv u × ((q : Proc) × At u 1 q × (q.state ≡ zombie))
exit-Inv_example =
    exit-Inv four_slots 1 running_proc refl refl (λ e. cc e) (omega arith) four_slots-Inv

abbrev booted_table : Ptable
booted_table = record {
  procs = record free_proc { state = runnable; pid = 1; kstack = 4096 } ∷ replicate 63 free_proc;
  nextpid = 2;
  initproc = 0;
}

abbrev running_table : Ptable
running_table = record {
  procs = record free_proc { state = running; pid = 1; kstack = 4096 } ∷ replicate 63 free_proc;
  nextpid = 2;
  initproc = 0;
}

boots : userinit loaded 4096 ≡ ok booted_table
unfolding userinit find_index? replicate
boots = refl

switches : dispatch booted_table 0 ≡ some running_table
unfolding dispatch
switches = refl

Runs-first : Runs running_table 0
Runs-first = (record free_proc { state = running; pid = 1; kstack = 4096 }, refl, refl)

abbrev forking_table : Ptable
forking_table = set_stack (spend_pid running_table 1 0) 1 8192

abbrev embryo_slot : Proc
embryo_slot = record free_proc { state = embryo; pid = 2 }

first_free : find_index? is_unused running_table.procs ≡ some 1
unfolding find_index? replicate
first_free = refl

is_claimed : At (spend_pid running_table 1 0) 1 embryo_slot
unfolding replicate
is_claimed = refl

has_stack : At forking_table 1 (record embryo_slot { kstack = 8192 })
unfolding replicate
has_stack = refl

Runs-claimed : Runs (spend_pid running_table 1 0) 0
unfolding replicate
Runs-claimed = (record free_proc { state = running; pid = 1; kstack = 4096 }, refl, refl)

Runs-still : Runs forking_table 0
unfolding replicate
Runs-still = (record free_proc { state = running; pid = 1; kstack = 4096 }, refl, refl)

Reach-Inv_example : Inv (set_parent forking_table 1 0)
Reach-Inv_example = Reach-Inv (
    later
      (later
        (later (later (booted 4096 boots) (dispatches 0 switches))
          (claims 0 1 0 Runs-first (omega arith) first_free))
        (gets_stack 0 1 8192 Runs-claimed (embryo_slot, is_claimed, refl)))
      (gets_parent 0 1 Runs-still (record embryo_slot { kstack = 8192 }, has_stack, refl)))
