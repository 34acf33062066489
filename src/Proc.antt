-- ===== src/Proc.antt =====
-- The process table of kernel/proc.c: what fork, exit, wait, kill, sleep, wakeup, yield and the
-- scheduler do to it. Each runs as one step, up to the point where it gives up the CPU, with
-- ptable.lock held; fork, which holds the lock only in allocproc and at its end, is a chain of steps. Address spaces, files and the trap frame are no part of the table.
pub mod Change
pub mod Cpu
pub mod Embryo
pub mod Exit
pub mod Family
pub mod Invariant
pub mod Rounds
pub mod Slots
pub mod Steps
pub mod System
mod Tests
pub mod Wait
use microkernal.Common.{
  Bool, List, Option, Outcome, add32, count_if, false, find_index?, get_elem?, if◌then◌else◌, map,
  none, not, ok, panic, replicate, set, some, suc, true, zero, ℕ, ◌&&◌, ◌+◌, ◌==◌,
}

-- `enum procstate`
pub data ProcState : Type 0 where
  unused embryo sleeping runnable running zombie : ProcState

-- What a process can sleep on: nothing, a slot of the table (a `struct proc *`), or another address.
-- `on_self` is the sleeper's own slot too, but not in `wait`: kernel/guest.c sleeps so. The address is the
-- same.
pub data Chan : Type 0 where
  no_chan : Chan
  on_proc : ℕ → Chan
  on_self : ℕ → Chan
  on_address : ℕ → Chan

abbrev pub same_chan : Chan → Chan → Bool
same_chan no_chan no_chan = true
same_chan (on_proc i) (on_proc j) = i == j
same_chan (on_proc i) (on_self j) = i == j
same_chan (on_self i) (on_proc j) = i == j
same_chan (on_self i) (on_self j) = i == j
same_chan (on_address i) (on_address j) = i == j
same_chan _ _ = false

-- The fields of `struct proc` that the table's functions use; `parent` is a slot or null.
pub record Proc : Type 0 where
  pub state : ProcState
  pub pid : ℕ
  pub cid : ℕ
  pub parent : Option ℕ
  pub chan : Chan
  pub killed : Bool
  pub kstack : ℕ

-- `ptable`, `nextpid` and `initproc`, a slot.
pub record Ptable : Type 0 where
  pub procs : List Proc
  pub nextpid : ℕ
  pub initproc : ℕ

-- NPROC
abbrev pub nproc : ℕ
nproc = 64

abbrev pub is_unused : Proc → Bool
is_unused p = elim p.state [ unused ↦ true | _ ↦ false ]

abbrev pub is_zombie : Proc → Bool
is_zombie p = elim p.state [ zombie ↦ true | _ ↦ false ]

abbrev pub is_sleeping : Proc → Bool
is_sleeping p = elim p.state [ sleeping ↦ true | _ ↦ false ]

abbrev pub is_child_of : ℕ → Proc → Bool
is_child_of me p = elim p.parent [ none ↦ false | some j ↦ j == me ]

-- The slots and `nextpid` as the program is loaded; `initproc` is null, which no slot stands for.
abbrev pub free_proc : Proc
free_proc = record {
  state = unused;
  pid = 0;
  cid = 0;
  parent = none;
  chan = no_chan;
  killed = false;
  kstack = 0;
}

abbrev pub loaded : Ptable
loaded = record { procs = replicate nproc free_proc; nextpid = 1; initproc = nproc }

abbrev pub set_proc : Ptable → ℕ → Proc → Ptable
set_proc t i p = record t { procs = set t.procs i p }

-- One round of the loop of `wakeup1`.
abbrev pub wake : Chan → Proc → Proc
wake c p = if is_sleeping p && same_chan p.chan c then record p { state = runnable } else p

unfoldable pub wakeup1 : Ptable → Chan → Ptable
wakeup1 t c = record t { procs = map (wake c) t.procs }

-- `wakeup_children`: the sleeping children of `me`, whatever they sleep on.
unfoldable pub wakeup_children : Ptable → ℕ → Ptable
wakeup_children t me = record t {
  procs =
      map (λ p. if is_sleeping p && is_child_of me p then record p { state = runnable } else p)
        t.procs;
}

unfoldable pub findproc : Ptable → ℕ → Option ℕ
findproc t pid = find_index? (λ p. p.pid == pid) t.procs

abbrev pub killed_proc : Proc → Proc
killed_proc p = record p { killed = true; state = if is_sleeping p then runnable else p.state }

abbrev pub modify : Ptable → ℕ → (Proc → Proc) → Ptable
modify t i f = elim (get_elem? t.procs i) [ none ↦ t | some p ↦ set_proc t i (f p) ]

-- `true` is the result 0, and `false` the result -1.
unfoldable pub kill : Ptable → ℕ → Bool × Ptable
unfolding findproc
kill t pid = elim (findproc t pid) [ none ↦ (false, t) | some i ↦ (true, modify t i killed_proc) ]

abbrev pub embryo_proc : ℕ → ℕ → Proc → Proc
embryo_proc pid cid p = record p { state = embryo; pid = pid; cid = cid }

-- The slot is claimed with the next pid.
abbrev pub spend_pid : Ptable → (i cid : ℕ) → Ptable
spend_pid t i cid = record (modify t i (embryo_proc t.nextpid cid)) { nextpid = add32 t.nextpid 1 }

-- What `fork` and `allocproc` do to the slot `i` of a child that `spend_pid` has claimed, step by step;
-- between them ptable.lock is free.
abbrev pub set_stack : Ptable → (i stack : ℕ) → Ptable
set_stack t i stack = modify t i (λ p. record p { kstack = stack })

abbrev pub set_parent : Ptable → (i me : ℕ) → Ptable
set_parent t i me = modify t i (λ p. record p { parent = some me })

abbrev pub make_ready : Ptable → ℕ → Ptable
make_ready t i = modify t i (λ p. record p { state = runnable })

abbrev pub give_up : Ptable → ℕ → Ptable
give_up t i = modify t i (λ p. record p { kstack = 0; state = unused })

abbrev pub give_stack : Ptable → (i stack : ℕ) → Option ℕ × Ptable
give_stack u i stack = if stack == 0 then (none, give_up u i) else (some i, set_stack u i stack)

-- `allocproc`, where `kalloc` returns `stack`, 0 on failure. The pid is spent in any case.
unfoldable pub allocproc : Ptable → (cid stack : ℕ) → Option ℕ × Ptable
allocproc t cid stack = elim (find_index? is_unused t.procs) [
  | none ↦ (none, t)
  | some i ↦ give_stack (spend_pid t i cid) i stack
]

-- `initproc = p; p->state = RUNNABLE;` on the slot that `allocproc` found.
abbrev pub started : Ptable → Option ℕ → Outcome Ptable
started u none = panic
started u (some i) = ok (record (modify u i (λ p. record p { state = runnable })) { initproc = i })

-- What `userinit` does to the table. A null result of `allocproc` is dereferenced there: a panic here.
unfoldable pub userinit : Ptable → (stack : ℕ) → Outcome Ptable
unfolding allocproc
userinit t stack = started (allocproc t 0 stack).1 (allocproc t 0 stack).0

-- `fork` from the return of `allocproc` on.
abbrev pub finish_fork : Ptable → ℕ → Bool → Option ℕ → Option ℕ × Ptable
finish_fork u me copied none = (none, u)
finish_fork u me true (some i) = (some i, make_ready (set_parent u i me) i)
finish_fork u me false (some i) = (none, give_up u i)

-- What `fork` does to the table if no other process changes it meanwhile; `copied` says whether `vspacecopy` succeeded. The result is the
-- child's slot.
unfoldable pub fork : Ptable → (me cid stack : ℕ) → (copied : Bool) → Option ℕ × Ptable
unfolding allocproc
fork t me cid stack copied =
    finish_fork (allocproc t cid stack).1 me copied (allocproc t cid stack).0

abbrev pub adopted : Ptable → ℕ → Proc → Ptable
adopted t i p = set_proc t i (record p { parent = some t.initproc })

-- One round of the loop of `exit`: a child of `me` becomes one of init, which is told of a zombie.
unfoldable pub adopt : Ptable → ℕ → ℕ → Ptable
unfolding wakeup1
adopt t me i = elim (get_elem? t.procs i) [
  | none ↦ t
  | some p ↦
      if is_child_of me p
      then (if is_zombie p then wakeup1 (adopted t i p) (on_proc t.initproc) else adopted t i p)
      else t
]

-- The loop from slot `i` on, with `n` slots to go.
unfoldable pub adopt_from : Ptable → ℕ → ℕ → ℕ → Ptable
adopt_from t me i zero = t
adopt_from t me i (suc n) = adopt_from (adopt t me i) me (i + 1) n

-- The channel for `wakeup1(myproc()->parent)`.
abbrev pub parent_chan : Option ℕ → Chan
parent_chan none = no_chan
parent_chan (some j) = on_proc j

abbrev pub parent_of : Ptable → ℕ → Option ℕ
parent_of t me = elim (get_elem? t.procs me) [ none ↦ none | some p ↦ p.parent ]

-- `exit` from the acquisition of ptable.lock to the call of `sched`.
unfoldable pub exit : Ptable → ℕ → Outcome Ptable
unfolding adopt_from
exit t me =
    if me == t.initproc
    then panic
    else ok (
        modify (adopt_from (wakeup1 t (parent_chan (parent_of t me))) me 0 nproc) me
          (λ p. record p { state = zombie }))

unfoldable pub num_children : Ptable → ℕ → ℕ
num_children t me =
    count_if (λ p. is_child_of me p && (not (is_zombie p) && not (is_unused p))) t.procs

-- `sleep` on `c` up to its call of `sched`.
unfoldable pub sleep : Ptable → ℕ → Chan → Ptable
sleep t me c = modify t me (λ p. record p { chan = c; state = sleeping })

-- The rest of `sleep`, when the process runs again.
unfoldable pub sleep_tidy : Ptable → ℕ → Ptable
sleep_tidy t me = modify t me (λ p. record p { chan = no_chan })

-- How a pass of `wait` ends: a child reaped, with its pid and its kernel stack for `kfree`; -1; or
-- asleep on the caller's own slot.
pub data WaitStop : Type 0 where
  reaped : (slot pid kstack : ℕ) → WaitStop
  no_children : WaitStop
  waits : WaitStop

abbrev pub reap : Proc → Proc
reap p = record p { kstack = 0; pid = 0; parent = none; killed = false; state = unused }

abbrev pub is_dead_child_of : ℕ → Proc → Bool
is_dead_child_of me p = is_child_of me p && is_zombie p

-- One pass of the endless loop of `wait`: the scan for a dead child, and what follows it.
unfoldable pub wait : Ptable → ℕ → (killed : Bool) → WaitStop × Ptable
unfolding sleep
wait t me killed = elim (find_index? (is_dead_child_of me) t.procs) [
  | some i ↦ elim (get_elem? t.procs i) [
    | none ↦ (no_children, t)
    | some p ↦ (reaped i p.pid p.kstack, set_proc t i (reap p))
  ]
  | none ↦ elim (find_index? (is_child_of me) t.procs) [
    | none ↦ (no_children, t)
    | some j ↦ if killed then (no_children, t) else (waits, sleep t me (on_proc me))
  ]
]

-- `yield` up to its call of `sched`.
unfoldable pub yield : Ptable → ℕ → Ptable
yield t me = modify t me (λ p. record p { state = runnable })

-- The scheduler switches to slot `i` if it is runnable, in its scan of the table.
unfoldable pub dispatch : Ptable → ℕ → Option Ptable
dispatch t i = elim (get_elem? t.procs i) [
  | none ↦ none
  | some p ↦ elim p.state [
    | runnable ↦ some (set_proc t i (record p { state = running }))
    | _ ↦ none
  ]
]
