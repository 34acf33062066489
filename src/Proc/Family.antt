-- ===== src/Proc/Family.antt =====
-- fork and allocproc, kernel/proc.c.
use microkernal.Common.{
  Bool, Bool-cases, Option, Option-cases, add32, ap, arith, false, find_index?, find_index?-none,
  find_index?-some, get_elem?, get_elem?-set_self, inl, inr, lt_of_get_elem?, none, refl, set-set,
  some, subst, sym, true, ℕ, ◌-◌, ◌<◌, ◌==◌, ◌^◌, ◌∙◌, ◌≡◌, ◌≢◌, ◌≤◌, ◌⊎◌,
}
use microkernal.Proc.{
  embryo, give_stack, make_ready, spend_pid, Proc, Ptable, unused, runnable, set_proc, modify,
  is_unused, allocproc, fork, finish_fork, embryo_proc,
}
use microkernal.Proc.Invariant.{Inv, At, Alive}
use microkernal.Proc.Change.{set-Inv, At-set, Alive-set}
use microkernal.Proc.Steps.{dead-no_child}

-- Changing a slot again is changing it once.
modify-set :
    (t : Ptable) (i n : ℕ) (p x : Proc) (f : Proc → Proc)
    → At t i p
    → modify (record (set_proc t i x) { nextpid = n }) i f
      ≡ record (set_proc t i (f x)) { nextpid = n }
modify-set t i n p x f was =
    rw (get_elem?-set_self t.procs i x (lt_of_get_elem? t.procs i was), modify)
      (ap (λ m. record t { procs = m; nextpid = n }) (set-set t.procs i x (f x)))

-- The new process, in the slot that held `p`.
abbrev pub newborn : Ptable → (me cid stack : ℕ) → Proc → Proc
newborn t me cid stack p = record p {
  state = runnable;
  pid = t.nextpid;
  cid = cid;
  parent = some me;
  kstack = stack;
}

-- What a failed call leaves in the slot that held `p`: the pid is spent.
abbrev pub stillborn : Ptable → (cid : ℕ) → Proc → Proc
stillborn t cid p = record p { state = unused; pid = t.nextpid; cid = cid; kstack = 0 }

abbrev pub with_slot : Ptable → ℕ → Proc → Ptable
with_slot t i p = record (set_proc t i p) { nextpid = add32 t.nextpid 1 }

abbrev pub Forks : Ptable → (me cid stack : ℕ) → Option ℕ × Ptable → Type 0
Forks t me cid stack r =
    ((r ≡ (none, t)) × ((j : ℕ) (q : Proc) → At t j q → is_unused q ≡ false))
    ⊎ ((i : ℕ) × (p : Proc) × At t i p
        × (is_unused p ≡ true)
        × ((r ≡ (none, with_slot t i (stillborn t cid p)))
            ⊎ (r ≡ (some i, with_slot t i (newborn t me cid stack p)))))

module _ (t : Ptable) (i : ℕ) (p : Proc) (was : At t i p) where
  abbrev pub born : ℕ → Proc
  born cid = embryo_proc t.nextpid cid p

  pub spend_pid-eq : (cid : ℕ) → spend_pid t i cid ≡ with_slot t i (born cid)
  spend_pid-eq cid = rw (was, modify)

  modify-spent :
      (cid : ℕ) (x : Proc) (f : Proc → Proc) → modify (with_slot t i x) i f ≡ with_slot t i (f x)
  modify-spent cid x f = modify-set t i (add32 t.nextpid 1) p x f was

  allocproc-eq :
      (cid stack : ℕ)
      → find_index? is_unused t.procs ≡ some i
      → allocproc t cid stack ≡ give_stack (with_slot t i (born cid)) i stack
  unfolding allocproc
  allocproc-eq cid stack e = rw (e, allocproc) (ap (λ u. give_stack u i stack) (spend_pid-eq cid))

  fork-slot :
      (me cid stack : ℕ) (copied : Bool)
      → find_index? is_unused t.procs ≡ some i
      → (fork t me cid stack copied ≡ (none, with_slot t i (stillborn t cid p)))
        ⊎ (fork t me cid stack copied ≡ (some i, with_slot t i (newborn t me cid stack p)))
  unfolding fork
  fork-slot me cid stack copied e = elim (Bool-cases (stack == 0)) [
    | inl z ↦ inl (
        run z
        ∙ ap (λ u. (none, u))
            (modify-spent cid (born cid) (λ q. record q { kstack = 0; state = unused })))
    | inr z ↦ elim (ends copied) [ inl q ↦ inl (kept_run z ∙ q) | inr q ↦ inr (kept_run z ∙ q) ]
  ]
    where
      kept : Proc
      kept = record (born cid) { kstack = stack }

      kept_run :
          stack == 0 ≡ false
          → fork t me cid stack copied ≡ finish_fork (with_slot t i kept) me copied (some i)
      kept_run z =
          ap (λ r. finish_fork r.1 me copied r.0) (allocproc-eq cid stack e)
          ∙ rw z (
              ap (λ u. finish_fork u me copied (some i))
                (modify-spent cid (born cid) (λ q. record q { kstack = stack })))

      ends :
          (c : Bool)
          → (finish_fork (with_slot t i kept) me c (some i)
              ≡ (none, with_slot t i (stillborn t cid p)))
            ⊎ (finish_fork (with_slot t i kept) me c (some i)
                ≡ (some i, with_slot t i (newborn t me cid stack p)))
      ends true = inr (
          ap (λ u. (some i, make_ready u i))
            (modify-spent cid kept (λ q. record q { parent = some me }))
          ∙ ap (λ u. (some i, u))
              (modify-spent cid (record kept { parent = some me })
                (λ q. record q { state = runnable })))
      ends false = inl (
          ap (λ u. (none, u))
            (modify-spent cid kept (λ q. record q { kstack = 0; state = unused })))

      run :
          stack == 0 ≡ true
          → fork t me cid stack copied ≡ (
            none,
            modify (with_slot t i (born cid)) i (λ q. record q { kstack = 0; state = unused }),
          )
      run z = ap (λ r. finish_fork r.1 me copied r.0) (allocproc-eq cid stack e) ∙ rw z

allocproc-none :
    (t : Ptable) (cid stack : ℕ)
    → find_index? is_unused t.procs ≡ none
    → allocproc t cid stack ≡ (none, t)
unfolding allocproc
allocproc-none t cid stack n = rw (n, allocproc)

-- `fork` fails with the table unchanged when no slot is unused. Else it takes an unused slot and
-- the next pid: the slot holds a runnable child of the caller, or is unused again on failure.
pub fork-Forks :
    (t : Ptable) (me cid stack : ℕ) (copied : Bool)
    → Forks t me cid stack (fork t me cid stack copied)
unfolding fork allocproc
fork-Forks t me cid stack copied = elim (Option-cases (find_index? is_unused t.procs)) [
  | inl n ↦ inl (
    ap (λ r. finish_fork r.1 me copied r.0) (allocproc-none t cid stack n),
    λ j q h. find_index?-none is_unused t.procs j q n h,
  )
  | inr (i, e) ↦
      let (p, was, pass, before) = find_index?-some is_unused t.procs i e in
      inr (i, p, was, pass, fork-slot t i p was me cid stack copied e)
]

-- A larger next pid keeps the table sound.
bump-Inv : (t : Ptable) (n : ℕ) → t.nextpid ≤ n → Inv t → Inv (record t { nextpid = n })
bump-Inv t n h v = record {
  fresh = λ i p a. omega (arith, v.fresh i p a);
  distinct = v.distinct;
  parents = v.parents;
  init = v.init;
  waiting = v.waiting;
  not_own = v.not_own;
  root = v.root;
  single = v.single;
}

-- A process with a new pid in a slot that was unused fits, if its parent is alive.
pub newcomer-Inv :
    (t : Ptable) (i : ℕ) (p p' : Proc)
    → At t i p
    → is_unused p ≡ true
    → p'.pid ≡ t.nextpid
    → t.nextpid < 2 ^ 31 - 1
    → (p'.state ≡ runnable) ⊎ ((p'.state ≡ unused) ⊎ (p'.state ≡ embryo))
    → ((j : ℕ) → p'.parent ≡ some j → (i ≢ j) × Alive t j)
    → Inv t
    → Inv (with_slot t i p')
newcomer-Inv t i p p' was dead pid small state parent v =
    set-Inv u i p p' was
      (record {
        pid_fresh = omega arith;
        pid_new = λ j q n h e. absurd (omega (arith, v.fresh j q h));
        parent_alive =
            λ j e. let (n, l) = parent j e in Alive-set u i p p' was j (λ z. absurd (n z)) l;
        still_alive = elim state [
          | inl r ↦ inl (ground arith)
          | inr d ↦ inr (
            none_of.0,
            λ j q h s. elim (At-set u i p p' was j q h) [
              | inl (e, z) ↦ (parent i (ap (λ x. x.parent) (sym z) ∙ s)).0 refl
              | inr (n, a) ↦ none_of.1 j q a s
            ],
          )
        ];
        waits_well = λ j q w h s z. ground arith;
        not_awaited = λ j q n h w e z. ground arith;
        parent_other = λ e. (parent i e).0 refl;
        root_stays = λ e. absurd (none_of.0 e);
        runs_alone = λ j q n h r z. ground arith;
      })
      (bump-Inv t (add32 t.nextpid 1) (omega arith) v)
  where
    u : Ptable
    u = record t { nextpid = add32 t.nextpid 1 }

    none_of : (i ≢ t.initproc) × ((j : ℕ) (q : Proc) → At t j q → q.parent ≢ some i)
    none_of = dead-no_child t i p was (ground arith) v

-- `fork` by a live process keeps the table sound on every path, while pids do not wrap.
pub fork-Inv :
    (t : Ptable) (me cid stack : ℕ) (copied : Bool)
    → Alive t me
    → t.nextpid < 2 ^ 31 - 1
    → Inv t
    → Inv (fork t me cid stack copied).1
fork-Inv t me cid stack copied (r, here, live) small v = elim (fork-Forks t me cid stack copied) [
  | inl (e, n) ↦ rw e v
  | inr (i, p, was, dead, ends) ↦ elim ends [
    | inl e ↦ rw e (
        newcomer-Inv t i p (stillborn t cid p) was dead refl small (inr (inl refl))
          (λ j s. (λ z. v.not_own i p was (s ∙ ap some (sym z)), v.parents i j p was s)) v)
    | inr e ↦ rw e (
        newcomer-Inv t i p (newborn t me cid stack p) was dead refl small (inl refl)
          (λ j s.
            let z : me ≡ j = ground arith in
            (
              λ y. ground (arith, ap (λ k. get_elem? t.procs k) (y ∙ sym z)),
              subst (Alive t) z (r, here, live),
            ))
          v)
  ]
]
