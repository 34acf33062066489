-- ===== src/Proc/Invariant.antt =====
-- What a sound process table is, and the two ways in which the code changes one.
use mathlib.Core.Option
use microkernal.Common.{
  Bool, List, Option-cases, [], ap, arith, false, get_elem?, inl, inr, map, none, refl, some, suc,
  true, zero, ℕ, ◌<◌, ◌∙◌, ◌∷◌, ◌≡◌, ◌≢◌, ◌⊎◌,
}
use microkernal.Proc.{Proc, Ptable, unused, embryo, sleeping, runnable, running, zombie, on_proc}

abbrev pub At : Ptable → ℕ → Proc → Type 0
At t i p = get_elem? t.procs i ≡ some p

-- In use, and neither a zombie nor a child that fork is still making.
abbrev pub is_alive : Proc → Bool
is_alive p = elim p.state [ unused ↦ false | embryo ↦ false | zombie ↦ false | _ ↦ true ]

abbrev pub Alive : Ptable → ℕ → Type 0
Alive t i = (p : Proc) × At t i p × (is_alive p ≡ true)

-- The process in slot `i` sleeps in `wait`, on its own slot.
abbrev pub Waits : ℕ → Proc → Type 0
Waits i p = (p.state ≡ sleeping) × (p.chan ≡ on_proc i)

-- `distinct`: no two slots share a pid, but for 0. `parents`: a parent is alive. `waiting`: whoever
-- waits has no dead child. `single`: one process runs at most. `root`: init has no parent.
pub record Inv (t : Ptable) : Type 0 where
  pub fresh : (i : ℕ) (p : Proc) → At t i p → p.pid < t.nextpid
  pub distinct : (i j : ℕ) (p q : Proc) → At t i p → At t j q → p.pid ≡ q.pid → p.pid ≢ 0 → i ≡ j
  pub parents : (i j : ℕ) (p : Proc) → At t i p → p.parent ≡ some j → Alive t j
  pub init : Alive t t.initproc
  pub waiting :
      (i j : ℕ) (p q : Proc)
      → At t i p
      → At t j q
      → Waits i p
      → q.parent ≡ some i
      → q.state ≢ zombie
  pub not_own : (i : ℕ) (p : Proc) → At t i p → p.parent ≢ some i
  pub root : (p : Proc) → At t t.initproc p → p.parent ≡ none
  pub single :
      (i j : ℕ) (p q : Proc) → At t i p → At t j q → p.state ≡ running → q.state ≡ running → i ≡ j

pub get_elem?-map {ℓ κ} :
    {A : Type ℓ} {B : Type κ} (f : A → B) (xs : List A) (i : ℕ)
    → get_elem? (map f xs) i ≡ Option.map f (get_elem? xs i)
get_elem?-map f [] i = refl
get_elem?-map f (x ∷ xs) zero = refl
get_elem?-map f (x ∷ xs) (suc i) = get_elem?-map f xs i

pub At-map :
    (f : Proc → Proc) (t : Ptable) (i : ℕ) (p : Proc)
    → At (record t { procs = map f t.procs }) i p
    → (q : Proc) × At t i q × (p ≡ f q)
At-map f t i p h = elim (Option-cases (get_elem? t.procs i)) [
  | inl n ↦ absurd (ground (arith, get_elem?-map f t.procs i))
  | inr (q, e) ↦ (q, e, ground (arith, get_elem?-map f t.procs i))
]

pub At-map_of :
    (f : Proc → Proc) (t : Ptable) (i : ℕ) (p : Proc)
    → At t i p
    → At (record t { procs = map f t.procs }) i (f p)
At-map_of f t i p h = get_elem?-map f t.procs i ∙ ap (Option.map f) h

-- `q` is `p`, but may have been woken.
pub record Woken (p q : Proc) : Type 0 where
  pub same_pid : q.pid ≡ p.pid
  pub same_parent : q.parent ≡ p.parent
  pub same_chan' : q.chan ≡ p.chan
  pub state : (q.state ≡ p.state) ⊎ ((p.state ≡ sleeping) × (q.state ≡ runnable))

-- Waking any processes keeps the table sound.
pub map-Inv :
    (f : Proc → Proc) (t : Ptable)
    → ((p : Proc) → Woken p (f p))
    → Inv t
    → Inv (record t { procs = map f t.procs })
map-Inv f t w v = record {
  fresh = λ i p h. let (p0, a, e) = At-map f t i p h in ground (arith, v.fresh i p0 a, w p0);
  distinct = λ i j p q h k s n.
      let (p0, a, e) = At-map f t i p h in
      let (q0, b, g) = At-map f t j q k in ground (arith, v.distinct i j p0 q0 a b, w p0, w q0);
  parents = λ i j p h s.
      let (p0, a, e) = At-map f t i p h in
      let (q, b, l) = v.parents i j p0 a (ground (arith, w p0)) in
      (f q, At-map_of f t j q b, ground (arith, w q));
  init = let (q, b, l) = v.init in (f q, At-map_of f t t.initproc q b, ground (arith, w q));
  waiting = λ i j p q h k s n.
      let (p0, a, e) = At-map f t i p h in
      let (q0, b, g) = At-map f t j q k in ground (arith, v.waiting i j p0 q0 a b, w p0, w q0);
  not_own = λ i p h s. let (p0, a, e) = At-map f t i p h in ground (arith, v.not_own i p0 a, w p0);
  root = λ p h. let (p0, a, e) = At-map f t t.initproc p h in ground (arith, v.root p0 a, w p0);
  single = λ i j p q h k s n.
      let (p0, a, e) = At-map f t i p h in
      let (q0, b, g) = At-map f t j q k in ground (arith, v.single i j p0 q0 a b, w p0, w q0);
}
