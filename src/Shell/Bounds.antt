-- ===== src/Shell/Bounds.antt =====
-- The loops of the shell's parser end, and their commands have room for their arguments, user/sh.c.
use microkernal.Common.{
  Bool-cases, List, [], arith, inl, inr, leb, length, length-append, suc, zero, ℕ, ◌+◌, ◌<◌, ◌==◌,
  ◌∷◌, ◌≡◌, ◌≤◌,
}
use microkernal.Shell.{
  ◌>>=◌, Cmd, Parsed, gettoken, max_args, skip, next_in, exec, redir, pipe, list, back, ok, panics,
  tired,
}
use microkernal.Shell.Parse.{add_arg, parse_args, parse_backs, parseredirs, redirect}
use microkernal.Shell.Tokens.{length-gettoken_le, length-kind, length-next_in, length-skip}

-- There is a result or a panic. A result has the property, and is at most `n` characters from the end.
abbrev pub Ensures : {A : Type 0} → (A → Type 0) → (n : ℕ) → Parsed A → Type 0
Ensures P n (ok a s) = P a × (length s ≤ n)
Ensures P n (panics p) = Unit
Ensures P n tired = ⊥

module _ {A B : Type 0} (P : A → Type 0) (Q : B → Type 0) where
  pub Ensures->>= :
      (n k : ℕ) (m : Parsed A) (f : A → List ℕ → Parsed B)
      → Ensures P n m
      → ((a : A) (s : List ℕ) → P a → length s ≤ n → Ensures Q k (f a s))
      → Ensures Q k (m >>= f)
  Ensures->>= n k (ok a s) f (p, l) h = h a s p l
  Ensures->>= n k (panics x) f e h = tt
  Ensures->>= n k tired f e h = absurd e

pub Ensures-mono :
    {A : Type 0} (P : A → Type 0) (n k : ℕ) (m : Parsed A) → n ≤ k → Ensures P n m → Ensures P k m
Ensures-mono P n k (ok a s) le (p, l) = (p, omega arith)
Ensures-mono P n k (panics x) le e = tt
Ensures-mono P n k tired le e = e

module _ (P : Cmd → Type 0)
    (keeps : (c : Cmd) (file : List ℕ) (mode fd : ℕ) → P c → P (redir c file mode fd)) where
  redirect-keeps : (c : Cmd) (tok : ℕ) (file : List ℕ) → P c → P (redirect c tok file)
  redirect-keeps c tok file p = elim (Bool-cases (tok == 60)) [
    | inl e ↦ rw e (keeps c file _ _ p)
    | inr e ↦ rw e (keeps c file _ _ p)
  ]

  pub parseredirs-Ensures :
      (fuel : ℕ) (cmd : Cmd) (s : List ℕ)
      → length s < fuel
      → P cmd
      → Ensures P (length s) (parseredirs fuel cmd s)
  unfolding parseredirs
  parseredirs-Ensures zero cmd s l p = absurd (omega arith)
  parseredirs-Ensures (suc fuel) cmd s l p =
      let t = gettoken (skip s) in
      let u = gettoken t.after in
      elim (Bool-cases (next_in (60 ∷ 62 ∷ []) (skip s))) [
        | inr e ↦ rw (e, Ensures) (p, length-skip s)
        | inl e ↦
            rw (e, Ensures)
              (elim (Bool-cases (u.kind == 97)) [
                | inr e' ↦ rw (e', Ensures) tt
                | inl e' ↦
                    let less = length-next_in (60 ∷ 62 ∷ []) s e in
                    let le = length-gettoken_le t.after in
                    rw (e', Ensures)
                      (Ensures-mono P (length u.after) (length s) _ (omega arith) (
                        parseredirs-Ensures fuel (redirect cmd t.kind u.word) u.after (omega arith)
                          (redirect-keeps cmd t.kind u.word p)))
              ])
      ]

abbrev pub Simple : (argc : ℕ) → Cmd → Type 0
Simple argc (exec argv) = length argv ≡ argc
Simple argc (redir c file mode fd) = Simple argc c
Simple argc (pipe l r) = ⊥
Simple argc (list l r) = ⊥
Simple argc (back c) = ⊥

-- Each command has fewer than MAXARGS arguments, so that a null pointer ends its `argv`.
abbrev pub FewArgs : Cmd → Type 0
FewArgs (exec argv) = length argv < max_args
FewArgs (redir c file mode fd) = FewArgs c
FewArgs (pipe l r) = FewArgs l × FewArgs r
FewArgs (list l r) = FewArgs l × FewArgs r
FewArgs (back c) = FewArgs c

Simple-FewArgs : (argc : ℕ) (c : Cmd) → argc < 10 → Simple argc c → FewArgs c
Simple-FewArgs argc (exec argv) h e = omega arith
Simple-FewArgs argc (redir c file mode fd) h e = Simple-FewArgs argc c h e
Simple-FewArgs argc (pipe l r) h e = absurd e
Simple-FewArgs argc (list l r) h e = absurd e
Simple-FewArgs argc (back c) h e = absurd e

add_arg-Simple : (argc : ℕ) (c : Cmd) (w : List ℕ) → Simple argc c → Simple (argc + 1) (add_arg c w)
add_arg-Simple argc (exec argv) w e = omega (arith, length-append argv (w ∷ []))
add_arg-Simple argc (redir c file mode fd) w e = add_arg-Simple argc c w e
add_arg-Simple argc (pipe l r) w e = e
add_arg-Simple argc (list l r) w e = e
add_arg-Simple argc (back c) w e = e

pub parse_args-Ensures :
    (fuel argc : ℕ) (ret : Cmd) (s : List ℕ)
    → length s < fuel
    → argc < 10
    → Simple argc ret
    → Ensures FewArgs (length s) (parse_args fuel argc ret s)
unfolding parse_args
parse_args-Ensures zero argc ret s l a p = absurd (omega arith)
parse_args-Ensures (suc fuel) argc ret s l a p =
    let t = gettoken (skip s) in
    elim (Bool-cases (next_in (124 ∷ 41 ∷ 38 ∷ 59 ∷ []) (skip s))) [
      | inl e ↦ rw (e, Ensures) (Simple-FewArgs argc ret a p, length-skip s)
      | inr e ↦
          rw (e, Ensures)
            (elim (Bool-cases (t.kind == 0)) [
              | inl e' ↦
                  rw (e', Ensures)
                    (
                      Simple-FewArgs argc ret a p,
                      omega (arith, length-gettoken_le (skip s), length-skip s),
                    )
              | inr e' ↦
                  rw (e', Ensures)
                    (elim (Bool-cases (t.kind == 97)) [
                      | inr e'' ↦ rw (e'', Ensures) tt
                      | inl e'' ↦
                          rw (e'', Ensures)
                            (elim (Bool-cases (leb 10 (argc + 1))) [
                              | inl full ↦ rw (full, Ensures) tt
                              | inr more ↦
                                  let less = length-kind s e' in
                                  rw (more, Ensures)
                                    (Ensures->>= (Simple (argc + 1)) FewArgs (length t.after)
                                      (length s) _ _
                                      (parseredirs-Ensures (Simple (argc + 1))
                                        (λ c file mode fd q. q) fuel _ t.after (omega arith)
                                        (add_arg-Simple argc ret t.word p))
                                      (λ c r q le.
                                        Ensures-mono FewArgs (length r) (length s) _ (omega arith) (
                                          parse_args-Ensures fuel (argc + 1) c r (omega arith)
                                            (ground arith) q)))
                            ])
                    ])
            ])
    ]

pub parse_backs-Ensures :
    (fuel : ℕ) (cmd : Cmd) (s : List ℕ)
    → length s < fuel
    → FewArgs cmd
    → Ensures FewArgs (length s) (parse_backs fuel cmd s)
unfolding parse_backs
parse_backs-Ensures zero cmd s l p = absurd (omega arith)
parse_backs-Ensures (suc fuel) cmd s l p = elim (Bool-cases (next_in (38 ∷ []) (skip s))) [
  | inr e ↦ rw (e, Ensures) (p, length-skip s)
  | inl e ↦
      let less = length-next_in (38 ∷ []) s e in
      rw (e, Ensures)
        (Ensures-mono FewArgs _ (length s) _ (omega arith)
          (parse_backs-Ensures fuel (back cmd) (gettoken (skip s)).after (omega arith) p))
]

-- An operator between a command and the next: the rest starts behind it.
pub joined-Ensures :
    (join : Cmd → Cmd) (n : ℕ) (m : Parsed Cmd)
    → ((c : Cmd) → FewArgs c → FewArgs (join c))
    → Ensures FewArgs n m
    → Ensures FewArgs n (m >>= λ right. ok (join right))
joined-Ensures join n (ok c s) keeps (p, l) = (keeps c p, l)
joined-Ensures join n (panics x) keeps e = tt
joined-Ensures join n tired keeps e = e
