-- ===== src/Spinlock/Tests.antt =====
-- Witnesses on a machine with two locks, one of them held.
use microkernal.Common.{
  [], arith, count_if, false, get_elem?, ok, refl, set, some, suc, true, zero, ℕ, ◌∷◌, ◌≡◌,
}
use microkernal.Spinlock.{Lock, Machine, acquired, acquire, release, free_lock, held_lock}
use microkernal.Spinlock.Nesting.{Inv, release-acquire}

abbrev two_locks : Machine
two_locks = record {
  interrupts = false;
  ncli = 1;
  intena = true;
  locks = held_lock ∷ free_lock ∷ [];
}

two_locks-mine :
    (i : ℕ) (l : Lock) → get_elem? two_locks.locks i ≡ some l → l.locked ≡ true → l.cpu ≡ some 0
two_locks-mine zero l h k = ground arith
two_locks-mine (suc zero) l h k = ground arith
two_locks-mine (suc (suc i)) l h k = cc h

two_locks-Inv : Inv two_locks
unfolding count_if
two_locks-Inv = record { counted = refl; mine = two_locks-mine; off = λ n. refl; few = omega arith }

release-acquire_example :
    (u v : Machine) × (acquire two_locks 1 ≡ acquired u)
    × (release u 1 ≡ ok v)
    × (v.interrupts ≡ two_locks.interrupts)
    × (v.ncli ≡ two_locks.ncli)
    × (v.locks ≡ set two_locks.locks 1 free_lock)
release-acquire_example = release-acquire two_locks 1 free_lock two_locks-Inv refl refl
