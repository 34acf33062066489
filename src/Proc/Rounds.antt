-- ===== src/Proc/Rounds.antt =====
-- The rounds of the loop of exit, kernel/proc.c: what each may change.
use microkernal.Common.{
  Bool-cases, List, [], ap, arith, eq_of_==, get_elem?, inl, inr, length, length-map, length-set,
  map, ne_of_==, refl, set, some, subst, suc, sym, zero, ℕ, ◌&&◌, ◌==◌, ◌∙◌, ◌∷◌, ◌≡◌, ◌≢◌, ◌⊎◌,
}
use microkernal.Proc.{
  Proc, Ptable, running, zombie, Chan, on_proc, wakeup1, wake, is_sleeping, same_chan, adopted,
}
use microkernal.Proc.Invariant.{Inv, At, Alive, is_alive, Waits, At-map, At-map_of}
use microkernal.Proc.Change.{set-Inv, At-set, At-set_self, At-set_ne, Alive-set}
use microkernal.Proc.Steps.{wakeup1-Inv, dead-no_child}

-- After `wakeup1` on a slot nobody waits there.
pub woken-quiet : (t : Ptable) (k : ℕ) (q : Proc) → At (wakeup1 t (on_proc k)) k q → ¬ Waits k q
unfolding wakeup1
woken-quiet t k q h w = let (p, a, e) = At-map (wake (on_proc k)) t k q h in ground arith

-- A child of another process becomes init's, unless that hides a dead child from init.
pub reparent-Inv :
    (t : Ptable) (i : ℕ) (p : Proc)
    → At t i p
    → i ≢ t.initproc
    → ((q : Proc) → At t t.initproc q → Waits t.initproc q → p.state ≢ zombie)
    → Inv t
    → Inv (adopted t i p)
reparent-Inv t i p was other told v =
    set-Inv t i p p' was
      (record {
        pid_fresh = v.fresh i p was;
        pid_new = λ j q n h e. elim (Bool-cases (p.pid == 0)) [
          | inl z ↦ eq_of_== p.pid 0 z
          | inr z ↦ absurd (n (v.distinct i j p q was h e (ne_of_== p.pid 0 z)))
        ];
        parent_alive = λ j e.
            let z : t.initproc ≡ j = ground arith in
            Alive-set t i p p' was j (λ y. absurd (other (y ∙ sym z))) (subst (Alive t) z v.init);
        still_alive = elim (Bool-cases (is_alive p)) [
          | inl a ↦ inl a
          | inr d ↦ inr (
            other,
            λ j q h s. elim (At-set t i p p' was j q h) [
              | inl (e, z) ↦ not_self (ap (λ x. x.parent) (sym z) ∙ s)
              | inr (n, a) ↦ (dead-no_child t i p was d v).1 j q a s
            ],
          )
        ];
        waits_well = λ j q w h s. elim (At-set t i p p' was j q h) [
          | inl (e, z) ↦ absurd (not_self (ap (λ x. x.parent) (sym z) ∙ s))
          | inr (n, a) ↦ v.waiting i j p q was a w s
        ];
        not_awaited = λ j q n h w e.
            let z : j ≡ t.initproc = ground arith in
            told q (subst (λ k. At t k q) z h) (subst (λ k. Waits k q) z w);
        parent_other = not_self;
        root_stays = λ e. absurd (other e);
        runs_alone = λ j q n h r z. n (v.single i j p q was h r z);
      })
      v
  where
    p' : Proc
    p' = record p { parent = some t.initproc }

    not_self : some t.initproc ≢ some i
    not_self e = other (ground arith)

map-set {ℓ κ} :
    {A : Type ℓ} {B : Type κ} (f : A → B) (xs : List A) (i : ℕ) (x : A)
    → map f (set xs i x) ≡ set (map f xs) i (f x)
map-set f [] i x = refl
map-set f (y ∷ xs) zero x = refl
map-set f (y ∷ xs) (suc i) x = ap (◌∷◌ (f y)) (map-set f xs i x)

-- A dead process is not woken, so telling init may as well come first.
pub wakeup1-adopted :
    (t : Ptable) (i : ℕ) (p : Proc) (c : Chan)
    → p.state ≡ zombie
    → wakeup1 (adopted t i p) c ≡ adopted (wakeup1 t c) i p
unfolding wakeup1
wakeup1-adopted t i p c dead =
    ap (λ m. record t { procs = m })
      (map-set (wake c) t.procs i p' ∙ ap (set (map (wake c) t.procs) i) asleep)
  where
    p' : Proc
    p' = record p { parent = some t.initproc }

    asleep : wake c p' ≡ p'
    asleep = ground arith

-- What one round of the loop of `exit` may change in a slot.
abbrev pub Kept : (me init : ℕ) → Proc → Proc → Type 0
Kept me init q q' =
    ((q'.parent ≡ q.parent) ⊎ ((q.parent ≡ some me) × (q'.parent ≡ some init)))
    × ((j : ℕ) → Waits j q' → Waits j q)
    × (q.state ≡ running → q'.state ≡ running)

pub record Round (t u : Ptable) (me : ℕ) : Type 0 where
  pub same_init : u.initproc ≡ t.initproc
  pub same_length : length u.procs ≡ length t.procs
  pub sound : Inv u
  pub back : (j : ℕ) (q' : Proc) → At u j q' → (q : Proc) × At t j q × Kept me t.initproc q q'
  pub fwd :
      (j : ℕ) (q : Proc)
      → At t j q
      → (q' : Proc) × At u j q' × (q.state ≡ running → q'.state ≡ running)

pub idle-Round : (t : Ptable) (me : ℕ) → Inv t → Round t t me
idle-Round t me v = record {
  same_init = refl;
  same_length = refl;
  sound = v;
  back = λ j q h. (q, h, (inl refl, λ k w. w, λ r. r));
  fwd = λ j q h. (q, h, λ r. r);
}

wake-Kept : (me init : ℕ) (c : Chan) (q : Proc) → Kept me init q (wake c q)
wake-Kept me init c q = elim (Bool-cases (is_sleeping q && same_chan q.chan c)) [
  | inl e ↦ rw e (inl refl, λ j w. cc (w.0), λ r. ground arith)
  | inr e ↦ rw e (inl refl, λ j w. w, λ r. r)
]

pub wakeup1-Round : (t : Ptable) (me : ℕ) (c : Chan) → Inv t → Round t (wakeup1 t c) me
unfolding wakeup1
wakeup1-Round t me c v = record {
  same_init = refl;
  same_length = length-map (wake c) t.procs;
  sound = wakeup1-Inv t c v;
  back = λ j q' h.
      let (q, a, e) = At-map (wake c) t j q' h in
      (q, a, subst (Kept me t.initproc q) (sym e) (wake-Kept me t.initproc c q));
  fwd = λ j q h. (wake c q, At-map_of (wake c) t j q h, (wake-Kept me t.initproc c q).2);
}

pub adopted-Round :
    (t : Ptable) (me i : ℕ) (p : Proc)
    → At t i p
    → p.parent ≡ some me
    → Inv (adopted t i p)
    → Round t (adopted t i p) me
adopted-Round t me i p was child v = record {
  same_init = refl;
  same_length = length-set t.procs i (record p { parent = some t.initproc });
  sound = v;
  back = λ j q' h. elim (At-set t i p _ was j q' h) [
    | inl (e, z) ↦ (
      p,
      subst (λ k. At t k p) e was,
      subst (Kept me t.initproc p) (sym z) (inr (child, refl), λ k w. w, λ r. r),
    )
    | inr (n, a) ↦ (q', a, (inl refl, λ k w. w, λ r. r))
  ];
  fwd = λ j q h. elim (Bool-cases (i == j)) [
    | inl e ↦
        let z = eq_of_== i j e in
        (
          record p { parent = some t.initproc },
          subst (λ k. At (adopted t i p) k (record p { parent = some t.initproc })) z
              (At-set_self t i p _ was),
          λ r. ground (arith, ap (λ k. get_elem? t.procs k) z),
        )
    | inr e ↦ (q, At-set_ne t i p _ was j q (ne_of_== i j e) h, λ r. r)
  ];
}

Kept-trans : (me init : ℕ) (a b c : Proc) → Kept me init a b → Kept me init b c → Kept me init a c
Kept-trans me init a b c (p, w, r) (p', w', r') = (ends p p', λ j x. w j (w' j x), λ x. r' (r x))
  where
    ends :
        ((b.parent ≡ a.parent) ⊎ ((a.parent ≡ some me) × (b.parent ≡ some init)))
        → ((c.parent ≡ b.parent) ⊎ ((b.parent ≡ some me) × (c.parent ≡ some init)))
        → (c.parent ≡ a.parent) ⊎ ((a.parent ≡ some me) × (c.parent ≡ some init))
    ends (inl e) (inl f) = inl (f ∙ e)
    ends (inl e) (inr f) = inr (sym e ∙ f.0, f.1)
    ends (inr e) (inl f) = inr (e.0, f ∙ e.1)
    ends (inr e) (inr f) = inr (e.0, f.1)

pub Round-trans : {t u v : Ptable} {me : ℕ} → Round t u me → Round u v me → Round t v me
Round-trans {t} {u} {v} {me} r s = record {
  same_init = s.same_init ∙ r.same_init;
  same_length = s.same_length ∙ r.same_length;
  sound = s.sound;
  back = λ j q'' h.
      let (q', a, k) = s.back j q'' h in
      let (q, b, l) = r.back j q' a in
      (q, b, Kept-trans me t.initproc q q' q'' l (subst (λ x. Kept me x q' q'') r.same_init k));
  fwd = λ j q h.
      let (q', a, k) = r.fwd j q h in let (q'', b, l) = s.fwd j q' a in (q'', b, λ x. l (k x));
}

-- The round on a dead child: init's waiters are woken.
pub zombie-Round :
    (t : Ptable) (me i : ℕ) (p : Proc)
    → At t i p
    → p.parent ≡ some me
    → p.state ≡ zombie
    → i ≢ t.initproc
    → Inv t
    → Round t (wakeup1 (adopted t i p) (on_proc t.initproc)) me
unfolding wakeup1
zombie-Round t me i p was child dead other v =
    subst (λ u. Round t u me) (sym (wakeup1-adopted t i p c dead))
      (Round-trans (wakeup1-Round t me c v) (
        adopted-Round w me i p here child (
          reparent-Inv w i p here other (λ q h x. absurd (woken-quiet t t.initproc q h x))
            (wakeup1-Inv t c v))))
  where
    c : Chan
    c = on_proc t.initproc

    w : Ptable
    w = wakeup1 t c

    asleep : wake c p ≡ p
    asleep = ground arith

    here : At w i p
    here = At-map_of (wake c) t i p was ∙ ap some asleep
