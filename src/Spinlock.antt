-- ===== src/Spinlock.antt =====
-- kernel/spinlock.c on the one CPU that `mycpu` of inc/proc.h knows: locks, and the nesting of
-- pushcli and popcli.
pub mod Nesting
mod Tests
use microkernal.Common.{
  Bool, List, Option, Outcome, add32, false, get_elem?, if◌then◌else◌, is_neg, none, ok, panic, set,
  some, sub32, true, ℕ, ◌&&◌, ◌==◌, ◌||◌,
}

-- `struct spinlock`; `cpu` is null or the number of a CPU.
pub record Lock : Type 0 where
  pub locked : Bool
  pub cpu : Option ℕ

-- The interrupt flag, two fields of `struct cpu`, and the locks of the kernel.
pub record Machine : Type 0 where
  pub interrupts : Bool
  pub ncli : ℕ
  pub intena : Bool
  pub locks : List Lock

-- `lock->cpu == mycpu()`, where `mycpu()` is CPU 0.
abbrev pub is_mine : Option ℕ → Bool
is_mine none = false
is_mine (some c) = c == 0

abbrev pub holding : Lock → Bool
holding l = l.locked && is_mine l.cpu

unfoldable pub pushcli : Machine → Machine
pushcli m = record m {
  interrupts = false;
  intena = if m.ncli == 0 then m.interrupts else m.intena;
  ncli = add32 m.ncli 1;
}

unfoldable pub popcli : Machine → Outcome Machine
popcli m =
    if m.interrupts || is_neg (sub32 m.ncli 1)
    then panic
    else ok (record m { ncli = sub32 m.ncli 1; interrupts = sub32 m.ncli 1 == 0 && m.intena })

-- How `acquire` ends; `spins` is the loop on `xchg` that no other CPU ends.
pub data Acquire : Type 0 where
  acquired : Machine → Acquire
  acquire_panics : Acquire
  spins : Acquire

abbrev pub free_lock : Lock
free_lock = record { locked = false; cpu = none }

abbrev pub held_lock : Lock
held_lock = record { locked = true; cpu = some 0 }

abbrev pub set_lock : Machine → ℕ → Lock → Machine
set_lock m i l = record m { locks = set m.locks i l }

abbrev pub try_lock : Machine → ℕ → Lock → Acquire
try_lock m i l =
    if holding l
    then acquire_panics
    else (if l.locked then spins else acquired (set_lock m i held_lock))

-- `acquire` of lock `i`.
unfoldable pub acquire : Machine → ℕ → Acquire
unfolding pushcli
acquire m i = elim (get_elem? m.locks i) [
  | none ↦ acquire_panics
  | some l ↦ try_lock (pushcli m) i l
]

unfoldable pub release : Machine → ℕ → Outcome Machine
unfolding popcli
release m i = elim (get_elem? m.locks i) [
  | none ↦ panic
  | some l ↦ if holding l then popcli (set_lock m i free_lock) else panic
]
