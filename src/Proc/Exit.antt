-- ===== src/Proc/Exit.antt =====
-- exit, kernel/proc.c, and its loop over the table.
use microkernal.Common.{
  ==-of_ne, Bool-cases, Option-cases, ap, arith, eq_of_==, false, get_elem?, get_elem?-set_self,
  if◌then◌else◌, inl, inr, length, lt_of_get_elem?, ne_of_==, none, ok, refl, some, subst, suc, sym,
  true, zero, ℕ, ◌+◌, ◌<◌, ◌==◌, ◌∙◌, ◌≡◌, ◌≢◌, ◌≤◌,
}
use microkernal.Proc.{
  wake, Proc, Ptable, running, zombie, on_proc, set_proc, wakeup1, is_child_of, modify, is_zombie,
  adopt, adopt_from, adopted, exit, parent_chan, parent_of, nproc,
}
use microkernal.Proc.Invariant.{At-map, Inv, At, Waits}
use microkernal.Proc.Change.{Alive-set, set-Inv, At-set}
use microkernal.Proc.Rounds.{
  Round, idle-Round, wakeup1-Round, adopted-Round, woken-quiet, reparent-Inv, zombie-Round,
}

module _ (t : Ptable) (me i : ℕ) where
  adopt-none : get_elem? t.procs i ≡ none → adopt t me i ≡ t
  unfolding adopt
  adopt-none e = rw (e, adopt)

  adopt-other : (p : Proc) → At t i p → is_child_of me p ≡ false → adopt t me i ≡ t
  unfolding adopt
  adopt-other p was e = rw (was, adopt) (rw e refl)

  adopt-child :
      (p : Proc)
      → At t i p
      → is_child_of me p ≡ true
      → adopt t me i
        ≡ (if is_zombie p then wakeup1 (adopted t i p) (on_proc t.initproc) else adopted t i p)
  unfolding adopt
  adopt-child p was e = rw (was, adopt) (rw e refl)

  -- A round on a child: it is init's now, and init is told if it is dead.
  child-Round :
      (p : Proc)
      → At t i p
      → p.parent ≡ some me
      → Inv t
      → Round t
          (if is_zombie p then wakeup1 (adopted t i p) (on_proc t.initproc) else adopted t i p)
          me
  child-Round p was child v = elim (Bool-cases (is_zombie p)) [
    | inl z ↦ rw z (zombie-Round t me i p was child (ground arith) not_init v)
    | inr z ↦ rw z (
        adopted-Round t me i p was child
          (reparent-Inv t i p was not_init (λ q h w. ground arith) v))
  ]
    where
      not_init : i ≢ t.initproc
      not_init e = let none_of = v.root p (subst (λ k. At t k p) e was) in cc

  adopted-parent : (p q : Proc) → At t i p → At (adopted t i p) i q → q.parent ≡ some t.initproc
  adopted-parent p q was h = elim (At-set t i p (record p { parent = some t.initproc }) was i q h) [
    | inl (e, z) ↦ ap (λ x. x.parent) z
    | inr (n, a) ↦ absurd (n refl)
  ]

  -- After the round the child is not a child of `me`.
  child-leaves :
      (p : Proc)
      → At t i p
      → me ≢ t.initproc
      → (q : Proc)
      → At (if is_zombie p then wakeup1 (adopted t i p) (on_proc t.initproc) else adopted t i p) i q
      → q.parent ≢ some me
  unfolding wakeup1
  child-leaves p was other q h s = elim (Bool-cases (is_zombie p)) [
    | inl z ↦
        let c = on_proc t.initproc in
        let (q0, a, e) =
          At-map (wake c) (adopted t i p) i q
            (subst (λ b. At (if b then wakeup1 (adopted t i p) c else adopted t i p) i q) z h) in
        ground (arith, adopted-parent p q0 was a)
    | inr z ↦
        let a =
          subst
            (λ b.
              At (if b then wakeup1 (adopted t i p) (on_proc t.initproc) else adopted t i p) i q)
            z h in
        ground (arith, adopted-parent p q was a)
  ]

  -- Every round of the loop keeps the table sound, and takes slot `i` off the children of `me`.
  adopt-Round :
      Inv t
      → me ≢ t.initproc
      → Round t (adopt t me i) me × ((q : Proc) → At (adopt t me i) i q → q.parent ≢ some me)
  adopt-Round v other = elim (Option-cases (get_elem? t.procs i)) [
    | inl n ↦ rw (adopt-none n) (idle-Round t me v, λ q h s. ground arith)
    | inr (p, was) ↦ elim (Bool-cases (is_child_of me p)) [
      | inl c ↦
          let child : p.parent ≡ some me = ground arith in
          rw (adopt-child p was c) (child-Round p was child v, child-leaves p was other)
      | inr c ↦ rw (adopt-other p was c) (idle-Round t me v, λ q h s. ground arith)
    ]
  ]

-- What holds before each round: `me` runs, nobody awaits it, and no slot below `i` is its child.
record Leaving (t : Ptable) (me i : ℕ) : Type 0 where
  sound : Inv t
  other : me ≢ t.initproc
  small : length t.procs ≤ nproc
  here : (p : Proc) × At t me p × (p.state ≡ running)
  unawaited : (j : ℕ) (p q : Proc) → At t me p → p.parent ≡ some j → At t j q → ¬ Waits j q
  done : (j : ℕ) (q : Proc) → j < i → At t j q → q.parent ≢ some me

-- A round that keeps the slots in that way, and takes one more child off.
Round-Leaving :
    (t u : Ptable) (me i : ℕ)
    → Round t u me
    → ((q : Proc) → At u i q → q.parent ≢ some me)
    → Leaving t me i
    → Leaving u me (i + 1)
Round-Leaving t u me i r off l = record {
  sound = r.sound;
  other = λ e. l.other (e ∙ r.same_init);
  small = omega (arith, r.same_length, l.small);
  here = let (p, a, run) = l.here in let (q, b, k) = r.fwd me p a in (q, b, k run);
  unawaited = λ j p' q' a s b w.
      let (p, a0, kp) = r.back me p' a in
      let (q, b0, kq) = r.back j q' b in
      elim (kp.0) [
        | inl e ↦ l.unawaited j p q a0 (sym e ∙ s) b0 (kq.1 j w)
        | inr e ↦ l.sound.not_own me p a0 e.0
      ];
  done = λ j q' h b s. elim (Bool-cases (j == i)) [
    | inl e ↦ off q' (subst (λ k. At u k q') (eq_of_== j i e) b) s
    | inr e ↦
        let (q, b0, kq) = r.back j q' b in
        let below : j < i = ground arith in
        elim (kq.0) [ inl z ↦ l.done j q below b0 (sym z ∙ s) | inr z ↦ l.done j q below b0 z.0 ]
  ];
}

adopt_from-Leaving :
    (t : Ptable) (me i n j : ℕ)
    → i + n ≡ j
    → Leaving t me i
    → Leaving (adopt_from t me i n) me j × ((adopt_from t me i n).initproc ≡ t.initproc)
unfolding adopt_from
adopt_from-Leaving t me i zero j e l =
    let z : i ≡ j = omega arith in (subst (Leaving t me) z l, refl)
adopt_from-Leaving t me i (suc n) j e l =
    let (r, off) = adopt-Round t me i l.sound l.other in
    let (after, same) =
      adopt_from-Leaving (adopt t me i) me (i + 1) n j (omega arith)
        (Round-Leaving t (adopt t me i) me i r off l) in
    (after, same ∙ r.same_init)

-- The end of `exit`: `me` is dead, nobody waits for it without being told, and it has no child.
die-Inv :
    (t : Ptable) (me : ℕ)
    → Leaving t me nproc
    → Inv (modify t me (λ p. record p { state = zombie }))
die-Inv t me l = let (p, was, runs) = l.here in rw (was, modify) (dies p was)
  where
    childless : (j : ℕ) (q : Proc) → At t j q → q.parent ≢ some me
    childless j q h = l.done j q (omega (arith, lt_of_get_elem? t.procs j h, l.small)) h

    dies : (p : Proc) → At t me p → Inv (set_proc t me (record p { state = zombie }))
    dies p was =
        set-Inv t me p p' was
          (record {
            pid_fresh = l.sound.fresh me p was;
            pid_new = λ j q n h e. elim (Bool-cases (p.pid == 0)) [
              | inl z ↦ eq_of_== p.pid 0 z
              | inr z ↦ absurd (n (l.sound.distinct me j p q was h e (ne_of_== p.pid 0 z)))
            ];
            parent_alive = λ j e.
                Alive-set t me p p' was j
                  (λ z. absurd (l.sound.not_own me p was (e ∙ ap some (sym z))))
                  (l.sound.parents me j p was e);
            still_alive = inr (l.other, orphaned);
            waits_well = λ j q w h s. cc (w.0);
            not_awaited = λ j q n h w e z. l.unawaited j p q was e h w;
            parent_other = l.sound.not_own me p was;
            root_stays = λ e. absurd (l.other e);
            runs_alone = λ j q n h r. cc r;
          })
          l.sound
      where
        p' : Proc
        p' = record p { state = zombie }

        orphaned : (j : ℕ) (q : Proc) → At (set_proc t me p') j q → q.parent ≢ some me
        orphaned j q h s = elim (At-set t me p p' was j q h) [
          | inl (e, z) ↦ l.sound.not_own me p was (ap (λ x. x.parent) (sym z) ∙ s)
          | inr (n, a) ↦ childless j q a s
        ]

-- After `wakeup1` on its parent nobody awaits the running process.
start-Leaving :
    (t : Ptable) (me : ℕ) (p : Proc)
    → At t me p
    → p.state ≡ running
    → me ≢ t.initproc
    → length t.procs ≤ nproc
    → Inv t
    → Leaving (wakeup1 t (parent_chan p.parent)) me 0
unfolding wakeup1
start-Leaving t me p was runs other small v = record {
  sound = r.sound;
  other = other;
  small = omega (arith, r.same_length);
  here = let (q, b, k) = r.fwd me p was in (q, b, k runs);
  unawaited = λ j p' q a s b w.
      let (p0, a0, kp) = r.back me p' a in
      let same : p0 ≡ p = ground arith in
      let parent : p.parent ≡ some j = elim (kp.0) [
        | inl e ↦ ap (λ x. x.parent) (sym same) ∙ sym e ∙ s
        | inr e ↦ absurd (v.not_own me p0 a0 e.0)
      ] in
      woken-quiet t j q (subst (λ x. At (wakeup1 t x) j q) (ap parent_chan parent) b) w;
  done = λ j q h. elim h [ ];
}
  where
    r : Round t (wakeup1 t (parent_chan p.parent)) me
    r = wakeup1-Round t me (parent_chan p.parent) v

exit-runs :
    (t : Ptable) (me : ℕ) (p : Proc)
    → At t me p
    → me ≢ t.initproc
    → exit t me
      ≡ ok (
          modify
            (adopt_from (wakeup1 t (parent_chan p.parent)) me 0 nproc)
            me
            (λ q. record q { state = zombie }))
unfolding exit
exit-runs t me p was other =
    let same : parent_of t me ≡ p.parent = rw (was, parent_of) in
    rw (==-of_ne me t.initproc other) (
      ap
        (λ c. ok (
          modify (adopt_from (wakeup1 t (parent_chan c)) me 0 nproc) me
            (λ q. record q { state = zombie })))
        same)

-- `exit` by the running process, which is not init, returns to the scheduler with the table sound:
-- every parent is alive, so all its children are init's, and no process in `wait` has a dead child
-- that it was not told of.
pub exit-Inv :
    (t : Ptable) (me : ℕ) (p : Proc)
    → At t me p
    → p.state ≡ running
    → me ≢ t.initproc
    → length t.procs ≤ nproc
    → Inv t
    → (u : Ptable) × (exit t me ≡ ok u) × Inv u × ((q : Proc) × At u me q × (q.state ≡ zombie))
exit-Inv t me p was runs other small v =
    let w = wakeup1 t (parent_chan p.parent) in
    let (l, same) =
      adopt_from-Leaving w me 0 nproc nproc refl (start-Leaving t me p was runs other small v) in
    (
      modify (adopt_from w me 0 nproc) me (λ q. record q { state = zombie }),
      exit-runs t me p was other,
      die-Inv (adopt_from w me 0 nproc) me l,
      dead_slot (adopt_from w me 0 nproc) l.here,
    )
  where
    dead_slot :
        (x : Ptable)
        → (q : Proc) × At x me q × (q.state ≡ running)
        → (q : Proc) × At (modify x me (λ q. record q { state = zombie })) me q × (q.state ≡ zombie)
    dead_slot x (q, a, run) =
        rw (a, modify)
          (
            record q { state = zombie },
            get_elem?-set_self x.procs me (record q { state = zombie })
                (lt_of_get_elem? x.procs me a),
            refl,
          )
