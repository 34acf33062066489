-- ===== src/Spinlock/Nesting.antt =====
-- Locks taken and given back in any order, kernel/spinlock.c.
use microkernal.Common.{
  Bool, Bool-cases, ap, arith, bit, count_if, count_if-le-length, count_if-pos, count_if-set,
  eq_of_==, false, get_elem?, get_elem?-set_ne, get_elem?-set_self, inl, inr, is_neg, length,
  length-set, lt_of_get_elem?, ne_of_==, ok, panic, refl, set, set-set, some, sub32, true, ℕ, ◌&&◌,
  ◌+◌, ◌-◌, ◌<◌, ◌==◌, ◌^◌, ◌≡◌, ◌≢◌, ◌⊎◌,
}
use microkernal.Spinlock.{
  Lock, Machine, acquired, acquire_panics, acquire, release, pushcli, popcli, held_lock, free_lock,
  set_lock,
}

abbrev pub is_locked : Lock → Bool
is_locked l = l.locked

-- `counted`: the depth is the number of locks held. `off`: with a lock held interrupts are off.
pub record Inv (m : Machine) : Type 0 where
  pub counted : m.ncli ≡ count_if is_locked m.locks
  pub mine : (i : ℕ) (l : Lock) → get_elem? m.locks i ≡ some l → l.locked ≡ true → l.cpu ≡ some 0
  pub off : m.ncli ≢ 0 → m.interrupts ≡ false
  pub few : length m.locks < 2 ^ 31

set-mine :
    (m : Machine) (i : ℕ) (v : Lock)
    → (v.locked ≡ true → v.cpu ≡ some 0)
    → Inv m
    → (j : ℕ) (l : Lock) → get_elem? (set m.locks i v) j ≡ some l
    → l.locked ≡ true
    → l.cpu ≡ some 0
set-mine m i v ok_v inv j l h k = elim (Bool-cases (i == j)) [
  | inl e ↦
      let z = eq_of_== i j e in
      let here : v ≡ l = ground (
        arith,
        get_elem?-set_self m.locks i v,
        lt_of_get_elem? (set m.locks i v) j h,
        length-set m.locks i v,
      ) in
      ground (arith, ok_v)
  | inr e ↦ inv.mine j l (ground (arith, get_elem?-set_ne m.locks i j v)) k
]

module _ (m : Machine) (i : ℕ) (l : Lock) (inv : Inv m) (here : get_elem? m.locks i ≡ some l) where
  depth-set :
      (v : Lock) → count_if is_locked (set m.locks i v) + bit l.locked ≡ m.ncli + bit v.locked
  depth-set v = omega (arith, count_if-set is_locked m.locks i v l here, inv.counted)

  depth-lt : m.ncli < 2 ^ 31
  depth-lt = omega (arith, inv.counted, inv.few, count_if-le-length is_locked m.locks)

  abbrev entered : Machine
  entered = set_lock (pushcli m) i held_lock

  acquire-free : l.locked ≡ false → acquire m i ≡ acquired entered
  unfolding acquire
  acquire-free f = rw (here, acquire) (rw f refl)

  acquire-held : l.locked ≡ true → acquire m i ≡ acquire_panics
  unfolding acquire
  acquire-held f = let c = inv.mine i l here f in rw (here, acquire) (rw (f, c) refl)

  entered-Inv : l.locked ≡ false → Inv entered
  unfolding pushcli
  entered-Inv f = record {
    counted = omega (arith, depth-set held_lock, ap bit f, depth-lt);
    mine = set-mine m i held_lock (λ e. refl) inv;
    off = λ n. refl;
    few = omega (arith, length-set m.locks i held_lock, inv.few);
  }

  abbrev left : Machine
  left = record m {
    locks = set m.locks i free_lock;
    ncli = m.ncli - 1;
    interrupts = m.ncli - 1 == 0 && m.intena;
  }

  depth-pos : l.locked ≡ true → 0 < m.ncli
  depth-pos f = omega (arith, inv.counted, count_if-pos is_locked m.locks i l here f)

  release-held : l.locked ≡ true → release m i ≡ ok left
  unfolding release popcli
  release-held f =
      let c = inv.mine i l here f in
      let pos = depth-pos f in
      let off : m.interrupts ≡ false = inv.off (omega arith) in
      let less : sub32 m.ncli 1 ≡ m.ncli - 1 = omega (arith, depth-lt) in
      let small : is_neg (m.ncli - 1) ≡ false = ground (arith, depth-lt) in
      rw (here, release) (rw (f, c) (rw (off, less) (rw small refl)))

  release-free : l.locked ≡ false → release m i ≡ panic
  unfolding release
  release-free f = rw (here, release) (rw f refl)

  left-Inv : l.locked ≡ true → Inv left
  left-Inv f = record {
    counted = omega (arith, depth-set free_lock, ap bit f);
    mine = set-mine m i free_lock (λ e. cc e) inv;
    off = λ n. ground arith;
    few = omega (arith, length-set m.locks i free_lock, inv.few);
  }

-- `acquire` of a lock that this CPU holds panics; of any other it takes the lock at once, turns
-- interrupts off and keeps the nesting sound. It never spins.
pub acquire-Inv :
    (m : Machine) (i : ℕ) (l : Lock)
    → Inv m
    → get_elem? m.locks i ≡ some l
    → ((l.locked ≡ true) × (acquire m i ≡ acquire_panics))
      ⊎ ((u : Machine) × (acquire m i ≡ acquired u)
          × Inv u
          × (u.interrupts ≡ false)
          × (u.ncli ≡ m.ncli + 1))
unfolding pushcli
acquire-Inv m i l inv here = elim (Bool-cases l.locked) [
  | inl f ↦ inl (f, acquire-held m i l inv here f)
  | inr f ↦ inr (
    entered m i l inv here,
    acquire-free m i l inv here f,
    entered-Inv m i l inv here f,
    refl,
    omega (arith, depth-lt m i l inv here),
  )
]

-- `release` of a lock that is free panics. Of a held one it frees it and keeps the nesting sound;
-- interrupts come on only with the outermost lock, and then if they were on before it was taken.
pub release-Inv :
    (m : Machine) (i : ℕ) (l : Lock)
    → Inv m
    → get_elem? m.locks i ≡ some l
    → ((l.locked ≡ false) × (release m i ≡ panic))
      ⊎ ((u : Machine) × (release m i ≡ ok u)
          × Inv u
          × (u.ncli + 1 ≡ m.ncli)
          × (u.interrupts ≡ (u.ncli == 0 && m.intena)))
release-Inv m i l inv here = elim (Bool-cases l.locked) [
  | inl f ↦ inr (
    left m i l inv here,
    release-held m i l inv here f,
    left-Inv m i l inv here f,
    omega (arith, depth-pos m i l inv here f),
    refl,
  )
  | inr f ↦ inl (f, release-free m i l inv here f)
]

-- Taking a free lock and giving it back leaves the interrupt flag, the depth and the other locks as
-- they were.
pub release-acquire :
    (m : Machine) (i : ℕ) (l : Lock)
    → Inv m
    → get_elem? m.locks i ≡ some l
    → l.locked ≡ false
    → (u v : Machine) × (acquire m i ≡ acquired u)
      × (release u i ≡ ok v)
      × (v.interrupts ≡ m.interrupts)
      × (v.ncli ≡ m.ncli)
      × (v.locks ≡ set m.locks i free_lock)
unfolding pushcli
release-acquire m i l inv here f = (
  u,
  left u i held_lock inv' here',
  acquire-free m i l inv here f,
  release-held u i held_lock inv' here' refl,
  flag,
  omega (arith, depth-lt m i l inv here),
  set-set m.locks i held_lock free_lock,
)
  where
    u : Machine
    u = entered m i l inv here

    inv' : Inv u
    inv' = entered-Inv m i l inv here f

    here' : get_elem? u.locks i ≡ some held_lock
    here' = get_elem?-set_self m.locks i held_lock (lt_of_get_elem? m.locks i here)

    flag : (u.ncli - 1 == 0 && u.intena) ≡ m.interrupts
    flag = elim (Bool-cases (m.ncli == 0)) [
      | inl z ↦ ground (arith, eq_of_== m.ncli 0 z)
      | inr z ↦ ground (arith, inv.off (ne_of_== m.ncli 0 z), depth-lt m i l inv here)
    ]
