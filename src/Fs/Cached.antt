-- ===== src/Fs/Cached.antt =====
-- Each inode has at most one slot of the cache, kernel/fs.c.
use microkernal.Common.{
  Bool-cases, List, Outcome, add32, ap, arith, eq_of_==, false, get_elem?, get_elem?-set,
  get_elem?-set_self, if◌then◌else◌, inl, inr, lt_of_get_elem?, ok, panic, refl, set, set-set,
  set_self, some, sub32, subst, sym, true, ℕ, ◌+◌, ◌-◌, ◌<◌, ◌==◌, ◌^◌, ◌∙◌, ◌≡◌, ◌≢◌, ◌⊎◌,
}
use microkernal.Fs.{Inode}
use microkernal.Fs.Inodes.{Dinode, change_slot, dropped, grabbed, idup, irelease, is_cached}

-- The slots in use are for different inodes, and their counts are small.
pub record IsSound (c : List Inode) : Type 0 where
  pub unique :
      (i j : ℕ) (x y : Inode)
      → get_elem? c i ≡ some x
      → get_elem? c j ≡ some y
      → 0 < x.ref
      → 0 < y.ref
      → x.dev ≡ y.dev
      → x.inum ≡ y.inum
      → i ≡ j
  pub small : (i : ℕ) (x : Inode) → get_elem? c i ≡ some x → x.ref < 2 ^ 31

pub change_slot-eq :
    (c : List Inode) (i : ℕ) (f : Inode → Inode) (x : Inode)
    → get_elem? c i ≡ some x
    → change_slot c i f ≡ set c i (f x)
change_slot-eq c i f x at = rw (at, change_slot) refl

-- A new content for slot `i` keeps the cache sound if no other slot in use is for the same inode.
set-IsSound :
    (c : List Inode) (i : ℕ) (x v : Inode)
    → IsSound c
    → get_elem? c i ≡ some x
    → v.ref < 2 ^ 31
    → ((j : ℕ) (y : Inode)
        → get_elem? c j ≡ some y
        → 0 < y.ref
        → 0 < v.ref
        → y.dev ≡ v.dev
        → y.inum ≡ v.inum
        → i ≡ j)
    → IsSound (set c i v)
set-IsSound c i x v s at lt new = record { unique = unique; small = small }
  where
    read : (j : ℕ) → get_elem? (set c i v) j ≡ (if i == j then some v else get_elem? c j)
    read j = get_elem?-set c i j v x at

    small : (j : ℕ) (y : Inode) → get_elem? (set c i v) j ≡ some y → y.ref < 2 ^ 31
    small j y q = elim (Bool-cases (i == j)) [
      | inl e ↦ let z : v ≡ y = ground (arith, read j) in subst (λ u. u.ref < 2 ^ 31) z lt
      | inr e ↦ s.small j y (ground (arith, read j))
    ]

    unique :
        (j k : ℕ) (y z : Inode)
        → get_elem? (set c i v) j ≡ some y
        → get_elem? (set c i v) k ≡ some z
        → 0 < y.ref
        → 0 < z.ref
        → y.dev ≡ z.dev
        → y.inum ≡ z.inum
        → j ≡ k
    unique j k y z p q a b d n = elim (Bool-cases (i == j)) [
      | inl e ↦ elim (Bool-cases (i == k)) [
        | inl f ↦ sym (eq_of_== i j e) ∙ eq_of_== i k f
        | inr f ↦
            let w : v ≡ y = ground (arith, read j) in
            let old : get_elem? c k ≡ some z = ground (arith, read k) in
            sym (eq_of_== i j e)
            ∙ new k z old b (subst (λ u. 0 < u.ref) (sym w) a) (sym d ∙ ap (λ u. u.dev) (sym w))
                (sym n ∙ ap (λ u. u.inum) (sym w))
      ]
      | inr e ↦
          let old : get_elem? c j ≡ some y = ground (arith, read j) in
          elim (Bool-cases (i == k)) [
            | inl f ↦
                let w : v ≡ z = ground (arith, read k) in
                sym (
                  new j y old a (subst (λ u. 0 < u.ref) (sym w) b) (d ∙ ap (λ u. u.dev) (sym w))
                    (n ∙ ap (λ u. u.inum) (sym w)))
                ∙ eq_of_== i k f
            | inr f ↦ s.unique j k y z old (ground (arith, read k)) a b d n
          ]
    ]

-- A cached inode has one reference more.
abbrev pub Counted : List Inode → (dev inum i : ℕ) → Inode → Type 0
Counted c dev inum i slot =
    (x : Inode) × (get_elem? c i ≡ some x)
    × (is_cached dev inum x ≡ true)
    × (slot ≡ record x { ref = x.ref + 1 })

-- An inode that was not cached stands in a slot that was empty, as `read_dinode` has read it, with one
-- reference.
abbrev pub Loaded : List Inode → (dev inum : ℕ) → Dinode → ℕ → Inode → Type 0
Loaded c dev inum d i slot =
    ((j : ℕ) (y : Inode) → get_elem? c j ≡ some y → is_cached dev inum y ≡ false)
    × ((x : Inode) × (get_elem? c i ≡ some x) × (x.ref ≡ 0))
    × (d.kind ≢ 0)
    × (slot ≡ record {
      dev = dev;
      inum = inum;
      ref = 1;
      kind = d.kind;
      devid = d.devid;
      size = d.size;
      extent = d.extent;
    })

-- Slot `i` is in use for the inode `inum` of `dev`, and the other slots are as before.
pub record Got (c : List Inode) (dev inum : ℕ) (d : Dinode) (i : ℕ) (c' : List Inode) : Type 0 where
  pub slot : Inode
  pub at : get_elem? c' i ≡ some slot
  pub how : Counted c dev inum i slot ⊎ Loaded c dev inum d i slot
  pub others : (j : ℕ) → i ≢ j → get_elem? c' j ≡ get_elem? c j
  pub sound : IsSound c'

-- No slot is in use for the inode.
abbrev pub Missing : List Inode → (dev inum : ℕ) → Type 0
Missing c dev inum = (j : ℕ) (y : Inode) → get_elem? c j ≡ some y → is_cached dev inum y ≡ false

-- `iget` panics only for an inode that is not cached, when no slot is empty or the inode has no type.
abbrev pub IgetEnds : List Inode → (dev inum : ℕ) → Dinode → Outcome (ℕ × List Inode) → Type 0
IgetEnds c dev inum d panic =
    Missing c dev inum × (((j : ℕ) (y : Inode) → get_elem? c j ≡ some y → y.ref ≢ 0) ⊎ (d.kind ≡ 0))
IgetEnds c dev inum d (ok (i, c')) = Got c dev inum d i c'

-- Every count has room for one more.
abbrev pub HasRoom : List Inode → Type 0
HasRoom c = (i : ℕ) (x : Inode) → get_elem? c i ≡ some x → x.ref < 2 ^ 31 - 1

-- Giving back a reference that was taken to a slot in use leaves the cache as it was.
pub irelease-idup :
    (c : List Inode) (i : ℕ) (x : Inode)
    → get_elem? c i ≡ some x
    → 0 < x.ref
    → x.ref < 2 ^ 31
    → irelease (idup c i) i ≡ c
unfolding irelease idup
irelease-idup c i x at pos small =
    let lt = lt_of_get_elem? c i at in
    let r : add32 x.ref 1 ≡ x.ref + 1 = omega arith in
    let z : sub32 (x.ref + 1) 1 ≡ x.ref = omega arith in
    let n : (x.ref + 1 == 1) ≡ false = ground arith in
    let d : dropped (grabbed x) ≡ x = rw r (rw z (rw n refl)) in
    ap (λ l. change_slot l i dropped) (change_slot-eq c i grabbed x at)
    ∙ change_slot-eq (set c i (grabbed x)) i dropped (grabbed x)
        (get_elem?-set_self c i (grabbed x) lt)
    ∙ set-set c i (grabbed x) (dropped (grabbed x))
    ∙ ap (set c i) d
    ∙ set_self c i at

-- `irelease` of a slot in use keeps one slot for each inode.
pub irelease-IsSound :
    (c : List Inode) (i : ℕ) (x : Inode)
    → IsSound c
    → get_elem? c i ≡ some x
    → 0 < x.ref
    → IsSound (irelease c i)
unfolding irelease
irelease-IsSound c i x s at pos =
    let lt = s.small i x at in
    subst IsSound (sym (change_slot-eq c i dropped x at)) (
      set-IsSound c i x (dropped x) s at (omega arith)
        (λ j y q yp v yd yi. s.unique i j x y at q pos yp (sym yd) (sym yi)))
