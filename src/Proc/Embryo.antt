-- ===== src/Proc/Embryo.antt =====
-- The steps of fork and allocproc, kernel/proc.c, on the slot of the child.
use microkernal.Common.{
  Bool-cases, ap, arith, eq_of_==, get_elem?, inl, inr, ne_of_==, refl, some, subst, sym, true, ℕ,
  ◌-◌, ◌<◌, ◌==◌, ◌^◌, ◌∙◌, ◌≡◌, ◌≢◌, ◌⊎◌,
}
use microkernal.Proc.{
  embryo, make_ready, set_parent, set_stack, give_up, spend_pid, Proc, Ptable, unused, runnable,
  running, set_proc, modify, is_unused,
}
use microkernal.Proc.Invariant.{Inv, At, Alive}
use microkernal.Proc.Change.{set-Inv, At-set, Alive-set}
use microkernal.Proc.Steps.{dead-no_child}
use microkernal.Proc.Family.{newcomer-Inv, spend_pid-eq, born}

-- The claim of an unused slot with a new pid keeps the table sound.
pub spend_pid-Inv :
    (t : Ptable) (i cid : ℕ) (p : Proc)
    → At t i p
    → is_unused p ≡ true
    → t.nextpid < 2 ^ 31 - 1
    → Inv t
    → Inv (spend_pid t i cid)
spend_pid-Inv t i cid p was dead small v = subst Inv (sym (spend_pid-eq t i p was cid)) (
    newcomer-Inv t i p (born t i p was cid) was dead refl small (inr (inr refl))
      (λ j s. (λ z. v.not_own i p was (s ∙ ap some (sym z)), v.parents i j p was s)) v)

module _ (t : Ptable) (i : ℕ) (p : Proc) (was : At t i p) (made : p.state ≡ embryo)
    (v : Inv t) where
  childless : (i ≢ t.initproc) × ((j : ℕ) (q : Proc) → At t j q → q.parent ≢ some i)
  childless = dead-no_child t i p was (ground arith) v

  -- A slot that is no parent may be rewritten, if it does not start to wait, run or die.
  remade-Inv :
      (p' : Proc)
      → p'.pid ≡ p.pid
      → (p'.state ≡ runnable) ⊎ ((p'.state ≡ unused) ⊎ (p'.state ≡ embryo))
      → ((j : ℕ) → p'.parent ≡ some j → (i ≢ j) × Alive t j)
      → Inv (set_proc t i p')
  remade-Inv p' pid state parent =
      set-Inv t i p p' was
        (record {
          pid_fresh = omega (arith, v.fresh i p was);
          pid_new = λ j q n h e. elim (Bool-cases (p.pid == 0)) [
            | inl z ↦ pid ∙ eq_of_== p.pid 0 z
            | inr z ↦ absurd (n (v.distinct i j p q was h (sym pid ∙ e) (ne_of_== p.pid 0 z)))
          ];
          parent_alive =
              λ j e. let (n, l) = parent j e in Alive-set t i p p' was j (λ z. absurd (n z)) l;
          still_alive = inr (
            childless.0,
            λ j q h s. elim (At-set t i p p' was j q h) [
              | inl (e, z) ↦ (parent i (ap (λ x. x.parent) (sym z) ∙ s)).0 refl
              | inr (n, a) ↦ childless.1 j q a s
            ],
          );
          waits_well = λ j q w h s z. ground arith;
          not_awaited = λ j q n h w e z. ground arith;
          parent_other = λ e. (parent i e).0 refl;
          root_stays = λ e. absurd (childless.0 e);
          runs_alone = λ j q n h r z. ground arith;
        })
        v

  own_parent : (j : ℕ) → p.parent ≡ some j → (i ≢ j) × Alive t j
  own_parent j s = (λ z. v.not_own i p was (s ∙ ap some (sym z)), v.parents i j p was s)

  -- The steps of `fork` on the embryo keep the table sound.
  pub set_parent-Inv : (me : ℕ) (r : Proc) → At t me r → r.state ≡ running → Inv (set_parent t i me)
  set_parent-Inv me r here runs =
      rw (was, modify)
        (remade-Inv (record p { parent = some me }) refl (inr (inr made))
          (λ j e.
            let z : me ≡ j = ground arith in
            (
              λ y. ground (arith, ap (λ k. get_elem? t.procs k) (y ∙ sym z)),
              subst (Alive t) z (r, here, ground arith),
            )))

  pub set_stack-Inv : (stack : ℕ) → Inv (set_stack t i stack)
  set_stack-Inv stack =
      rw (was, modify) (remade-Inv (record p { kstack = stack }) refl (inr (inr made)) own_parent)

  pub make_ready-Inv : Inv (make_ready t i)
  make_ready-Inv =
      rw (was, modify) (remade-Inv (record p { state = runnable }) refl (inl refl) own_parent)

  pub give_up-Inv : Inv (give_up t i)
  give_up-Inv =
      rw (was, modify)
        (remade-Inv (record p { kstack = 0; state = unused }) refl (inr (inl refl)) own_parent)
