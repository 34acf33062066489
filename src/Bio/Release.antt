-- ===== src/Bio/Release.antt =====
-- brelse, kernel/bio.c.
use microkernal.Common.{
  Bool, Bool-cases, List, Outcome, [], ap, arith, bit, count_if, count_if-set, false, get_elem?,
  get_elem?-set_self, lt_of_get_elem?, if◌then◌else◌, inl, inr, ok, panic, refl, some, sub32, subst,
  suc, sym, true, zero, ℕ, ◌+◌, ◌==◌, ◌∙◌, ◌∷◌, ◌≡◌,
}
use microkernal.Bio.{Buf, Cache, is_for, set_buf, without, brelse}
use microkernal.Bio.Lookup.{Unique}
use microkernal.Bio.Coherence.{IsCoherent, Coherent, set-Coherent}

count_if-without :
    (p : Buf → Bool) (bufs : List Buf) (i : ℕ) (b : Buf)
    → get_elem? bufs i ≡ some b
    → bit (p b) + count_if p (without bufs i) ≡ count_if p bufs
unfolding count_if
count_if-without p [] i b h = cc
count_if-without p (x ∷ bufs) zero b h =
    let e : x ≡ b = ground arith in ap (λ y. bit (p y) + count_if p bufs) (sym e)
count_if-without p (x ∷ bufs) (suc i) b h = omega (arith, count_if-without p bufs i b h)

get_elem?-without :
    (bufs : List Buf) (i j : ℕ) (b : Buf)
    → get_elem? (without bufs i) j ≡ some b
    → (k : ℕ) × (get_elem? bufs k ≡ some b)
get_elem?-without [] i j b h = (j, h)
get_elem?-without (x ∷ bufs) zero j b h = (suc j, h)
get_elem?-without (x ∷ bufs) (suc i) zero b h = (0, h)
get_elem?-without (x ∷ bufs) (suc i) (suc j) b h =
    let (k, e) = get_elem?-without bufs i j b h in (suc k, e)

abbrev left_buf : Buf → Buf
left_buf b = record b { locked = false; refcnt = sub32 b.refcnt 1 }

module _ (s : Cache) (i : ℕ) (b : Buf) (here : get_elem? s.bufs i ≡ some b) where
  front-Unique : Unique s.bufs → Unique (left_buf b ∷ without s.bufs i)
  unfolding count_if
  front-Unique u d n nz = omega (arith, u d n nz, count_if-without (is_for d n) s.bufs i b here)

  front-Coherent :
      IsCoherent s.disk (left_buf b)
      → Coherent s
      → Coherent (record s { bufs = left_buf b ∷ without s.bufs i })
  front-Coherent c cs zero x h =
      let e : left_buf b ≡ x = ground arith in subst (IsCoherent s.disk) e c
  front-Coherent c cs (suc j) x h = let (k, e) = get_elem?-without s.bufs i j x h in cs k x e

  released : Bool → Outcome Cache
  released moves =
      if moves
      then ok (record s { bufs = left_buf b ∷ without s.bufs i })
      else ok (set_buf s i (left_buf b))

  brelse-eq : b.locked ≡ true → brelse s i ≡ released (sub32 b.refcnt 1 == 0)
  unfolding brelse released
  brelse-eq l =
      rw (here, brelse) refl ∙ ap (λ x. if x then released (sub32 b.refcnt 1 == 0) else panic) l

-- What `brelse` of the buffer `b` in place `i` leaves: the buffer without its lock and with one
-- reference less, at the front if that was the last; of every kind there are as many other buffers as
-- before, and the disk is the same.
abbrev pub Released : Cache → ℕ → Buf → Cache → Type 0
Released s i b t =
    (get_elem? t.bufs (if sub32 b.refcnt 1 == 0 then 0 else i)
      ≡ some (record b { locked = false; refcnt = sub32 b.refcnt 1 }))
    × ((p : Buf → Bool)
        → count_if p t.bufs + bit (p b)
          ≡ count_if p s.bufs + bit (p (record b { locked = false; refcnt = sub32 b.refcnt 1 })))
    × (t.disk ≡ s.disk)

-- `brelse` of a locked buffer that is clean, and holds what the disk holds if it is valid, succeeds:
-- the buffer is unlocked with one reference less, in front if that was the last and else in its place,
-- the other buffers and the disk are as before, the cache stays coherent, with one buffer at most for each block, whether the buffer
-- moves to the front or another process still refers to it.
pub brelse-Coherent :
    (s : Cache) (i : ℕ) (b : Buf)
    → get_elem? s.bufs i ≡ some b
    → b.locked ≡ true
    → b.dirty ≡ false
    → (b.valid ≡ true → b.bytes ≡ s.disk b.blockno)
    → Unique s.bufs
    → Coherent s
    → (t : Cache) × (brelse s i ≡ ok t) × Released s i b t × Unique t.bufs × Coherent t
unfolding released count_if
brelse-Coherent s i b here l clean same u c = elim (Bool-cases (sub32 b.refcnt 1 == 0)) [
  | inl e ↦ (
    record s { bufs = left_buf b ∷ without s.bufs i },
    brelse-eq s i b here l ∙ ap (released s i b here) e,
    (rw e refl, (λ p. omega (arith, count_if-without p s.bufs i b here)), refl),
    front-Unique s i b here u,
    front-Coherent s i b here (λ z. (clean, same)) c,
  )
  | inr e ↦ (
    set_buf s i (left_buf b),
    brelse-eq s i b here l ∙ ap (released s i b here) e,
    (
      rw e (get_elem?-set_self s.bufs i (left_buf b) (lt_of_get_elem? s.bufs i here)),
      (λ p. omega (arith, count_if-set p s.bufs i (left_buf b) b here)),
      refl,
    ),
    (λ d n nz. omega (arith, u d n nz, count_if-set (is_for d n) s.bufs i (left_buf b) b here)),
    set-Coherent s i (left_buf b) (λ z. (clean, same)) c,
  )
]
