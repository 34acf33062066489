-- ===== src/Proc/Change.antt =====
-- Changing one slot of the process table: what the new contents must fit.
use mathlib.Core.Path.{subst₂}
use microkernal.Common.{
  Bool-cases, ap, arith, eq_of_==, get_elem?-set, get_elem?-set_ne, get_elem?-set_self, inl, inr,
  lt_of_get_elem?, ne_of_==, none, some, subst, sym, true, ℕ, ◌<◌, ◌==◌, ◌∙◌, ◌≡◌, ◌≢◌, ◌⊎◌,
}
use microkernal.Proc.{Proc, Ptable, running, zombie, set_proc}
use microkernal.Proc.Invariant.{Inv, At, Alive, is_alive, Waits}

-- What the new contents `p'` of slot `i` must satisfy.
pub record Fits (t : Ptable) (i : ℕ) (p' : Proc) : Type 0 where
  pub pid_fresh : p'.pid < t.nextpid
  pub pid_new : (j : ℕ) (q : Proc) → i ≢ j → At t j q → p'.pid ≡ q.pid → p'.pid ≡ 0
  pub parent_alive : (j : ℕ) → p'.parent ≡ some j → Alive (set_proc t i p') j
  pub still_alive :
      (is_alive p' ≡ true)
      ⊎ ((i ≢ t.initproc) × ((j : ℕ) (q : Proc) → At (set_proc t i p') j q → q.parent ≢ some i))
  pub waits_well :
      (j : ℕ) (q : Proc)
      → Waits i p'
      → At (set_proc t i p') j q
      → q.parent ≡ some i
      → q.state ≢ zombie
  pub not_awaited :
      (j : ℕ) (q : Proc) → i ≢ j → At t j q → Waits j q → p'.parent ≡ some j → p'.state ≢ zombie
  pub parent_other : p'.parent ≢ some i
  pub root_stays : i ≡ t.initproc → p'.parent ≡ none
  pub runs_alone : (j : ℕ) (q : Proc) → i ≢ j → At t j q → p'.state ≡ running → q.state ≢ running

module _ (t : Ptable) (i : ℕ) (p p' : Proc) (was : At t i p) where
  -- What a slot holds after the change: the new contents, or what it held.
  pub At-set :
      (j : ℕ) (q : Proc) → At (set_proc t i p') j q → ((i ≡ j) × (q ≡ p')) ⊎ ((i ≢ j) × At t j q)
  At-set j q h = elim (Bool-cases (i == j)) [
    | inl e ↦ inl (eq_of_== i j e, ground (arith, get_elem?-set t.procs i j p' p was))
    | inr e ↦ inr (ne_of_== i j e, ground (arith, get_elem?-set t.procs i j p' p was))
  ]

  pub At-set_self : At (set_proc t i p') i p'
  At-set_self = get_elem?-set_self t.procs i p' (lt_of_get_elem? t.procs i was)

  pub At-set_ne : (j : ℕ) (q : Proc) → i ≢ j → At t j q → At (set_proc t i p') j q
  At-set_ne j q ne h = get_elem?-set_ne t.procs i j p' ne ∙ h

  -- A slot stays alive unless it is the changed one.
  pub Alive-set : (j : ℕ) → ((i ≡ j) → is_alive p' ≡ true) → Alive t j → Alive (set_proc t i p') j
  Alive-set j keep (q, h, l) = elim (Bool-cases (i == j)) [
    | inl e ↦
        let z : i ≡ j = eq_of_== i j e in
        (p', subst (λ k. At (set_proc t i p') k p') z At-set_self, keep z)
    | inr e ↦ (q, At-set_ne j q (ne_of_== i j e) h, l)
  ]

  pub set-Inv : Fits t i p' → Inv t → Inv (set_proc t i p')
  set-Inv f v = record {
    fresh = λ j q h. elim (At-set j q h) [
      | inl (e, s) ↦ rw s f.pid_fresh
      | inr (n, h') ↦ v.fresh j q h'
    ];
    distinct = λ j k q r h h' s n. elim (At-set j q h) [
      | inl (e, z) ↦ elim (At-set k r h') [
        | inl (e', z') ↦ sym e ∙ e'
        | inr (n', b) ↦ absurd (ground (arith, f.pid_new k r n' b))
      ]
      | inr (n', a) ↦ elim (At-set k r h') [
        | inl (e', z') ↦ absurd (ground (arith, f.pid_new j q n' a))
        | inr (n'', b) ↦ v.distinct j k q r a b s n
      ]
    ];
    parents = λ j k q h s. elim (At-set j q h) [
      | inl (e, z) ↦ f.parent_alive k (ground arith)
      | inr (n, a) ↦ Alive-set k (λ e. alive_for k j q h s e) (v.parents j k q a s)
    ];
    init = Alive-set t.initproc alive_init v.init;
    waiting = λ j k q r h h' w s. elim (At-set j q h) [
      | inl (e, z) ↦ f.waits_well k r (subst₂ Waits (sym e) z w) h' (s ∙ ap some (sym e))
      | inr (n, a) ↦ elim (At-set k r h') [
        | inl (e', z') ↦ rw z' (f.not_awaited j q n a w (ap (λ x. x.parent) (sym z') ∙ s))
        | inr (n', b) ↦ v.waiting j k q r a b w s
      ]
    ];
    not_own = λ j q h s. elim (At-set j q h) [
      | inl (e, z) ↦ f.parent_other (ap (λ x. x.parent) (sym z) ∙ s ∙ ap some (sym e))
      | inr (n, a) ↦ v.not_own j q a s
    ];
    root = λ q h. elim (At-set t.initproc q h) [
      | inl (e, z) ↦ ap (λ x. x.parent) z ∙ f.root_stays e
      | inr (n, a) ↦ v.root q a
    ];
    single = λ j k q r h h' s n. elim (At-set j q h) [
      | inl (e, z) ↦ elim (At-set k r h') [
        | inl (e', z') ↦ sym e ∙ e'
        | inr (n', b) ↦ absurd (f.runs_alone k r n' b (ap (λ x. x.state) (sym z) ∙ s) n)
      ]
      | inr (n', a) ↦ elim (At-set k r h') [
        | inl (e', z') ↦ absurd (f.runs_alone j q n' a (ap (λ x. x.state) (sym z') ∙ n) s)
        | inr (n'', b) ↦ v.single j k q r a b s n
      ]
    ];
  }
    where
      alive_for :
          (k j : ℕ) (q : Proc)
          → At (set_proc t i p') j q
          → q.parent ≡ some k
          → i ≡ k
          → is_alive p' ≡ true
      alive_for k j q h s e = elim f.still_alive [
        | inl a ↦ a
        | inr b ↦ absurd (b.1 j q h (s ∙ ap some (sym e)))
      ]

      alive_init : i ≡ t.initproc → is_alive p' ≡ true
      alive_init e = elim f.still_alive [ inl a ↦ a | inr b ↦ absurd (b.0 e) ]
