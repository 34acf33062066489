-- ===== src/Shell/Answers.antt =====
-- The shell's parser always gives an answer, and its commands have room for their arguments, user/sh.c.
use microkernal.Common.{
  Bool-cases, List, [], arith, inl, inr, length, refl, suc, zero, ℕ, ◌*◌, ◌+◌, ◌<◌, ◌∷◌,
}
use microkernal.Shell.{
  ◌>>=◌, Cmd, Parsed, gettoken, skip, next_in, exec, pipe, list, ok, panics, tired,
}
use microkernal.Shell.Bounds.{
  Ensures, Ensures->>=, Ensures-mono, FewArgs, Simple, joined-Ensures, parse_args-Ensures,
  parse_backs-Ensures, parseredirs-Ensures,
}
use microkernal.Shell.Parse.{parse_block, parsecmd, parseexec, parseline, parsepipe, no_leftovers}
use microkernal.Shell.Tokens.{length-next_in, length-skip}

mutual
  unfolding parseline parsepipe parseexec parse_block

  parseline-Ensures :
      (fuel : ℕ) (s : List ℕ)
      → 4 * length s + 4 < fuel
      → Ensures FewArgs (length s) (parseline fuel s)
  parseline-Ensures zero s l = absurd (omega arith)
  parseline-Ensures (suc fuel) s l =
      Ensures->>= FewArgs FewArgs (length s) (length s) _ _
        (Ensures->>= FewArgs FewArgs (length s) (length s) _ _
          (parsepipe-Ensures fuel s (omega arith))
          (λ first s' p l'.
            Ensures-mono FewArgs (length s') (length s) _ l'
              (parse_backs-Ensures (suc fuel) first s' (omega arith) p)))
        λ cmd s'' q l''. elim (Bool-cases (next_in (59 ∷ []) (skip s''))) [
          | inr e ↦ rw (e, Ensures) (q, omega (arith, length-skip s''))
          | inl e ↦
              let less = length-next_in (59 ∷ []) s'' e in
              rw (e, Ensures)
                (joined-Ensures (list cmd) (length s) _ (λ c r. (q, r))
                  (Ensures-mono FewArgs _ (length s) _ (omega arith)
                    (parseline-Ensures fuel (gettoken (skip s'')).after (omega arith))))
        ]

  parsepipe-Ensures :
      (fuel : ℕ) (s : List ℕ)
      → 4 * length s + 3 < fuel
      → Ensures FewArgs (length s) (parsepipe fuel s)
  parsepipe-Ensures zero s l = absurd (omega arith)
  parsepipe-Ensures (suc fuel) s l =
      Ensures->>= FewArgs FewArgs (length s) (length s) _ _ (parseexec-Ensures fuel s (omega arith))
        λ cmd s' q l'. elim (Bool-cases (next_in (124 ∷ []) (skip s'))) [
          | inr e ↦ rw (e, Ensures) (q, omega (arith, length-skip s'))
          | inl e ↦
              let less = length-next_in (124 ∷ []) s' e in
              rw (e, Ensures)
                (joined-Ensures (pipe cmd) (length s) _ (λ c r. (q, r))
                  (Ensures-mono FewArgs _ (length s) _ (omega arith)
                    (parsepipe-Ensures fuel (gettoken (skip s')).after (omega arith))))
        ]

  parseexec-Ensures :
      (fuel : ℕ) (s : List ℕ)
      → 4 * length s + 2 < fuel
      → Ensures FewArgs (length s) (parseexec fuel s)
  parseexec-Ensures zero s l = absurd (omega arith)
  parseexec-Ensures (suc fuel) s l = elim (Bool-cases (next_in (40 ∷ []) (skip s))) [
    | inl e ↦
        rw (e, Ensures)
          (Ensures-mono FewArgs (length (skip s)) (length s) _ (length-skip s)
            (parse_block-Ensures fuel (skip s) (omega (arith, length-skip s))))
    | inr e ↦
        let shorter = length-skip s in
        rw (e, Ensures)
          (Ensures->>= (Simple 0) FewArgs (length s) (length s) _ _
            (Ensures-mono (Simple 0) (length (skip s)) (length s) _ shorter (
              parseredirs-Ensures (Simple 0) (λ c file mode fd q. q) fuel (exec []) (skip s)
                (omega arith) refl))
            (λ c r q le.
              Ensures-mono FewArgs (length r) (length s) _ le
                (parse_args-Ensures fuel 0 c r (omega arith) (omega arith) q)))
  ]

  parse_block-Ensures :
      (fuel : ℕ) (s : List ℕ)
      → 4 * length s + 1 < fuel
      → Ensures FewArgs (length s) (parse_block fuel s)
  parse_block-Ensures zero s l = absurd (omega arith)
  parse_block-Ensures (suc fuel) s l = elim (Bool-cases (next_in (40 ∷ []) (skip s))) [
    | inr e ↦ rw (e, Ensures) tt
    | inl e ↦
        let less = length-next_in (40 ∷ []) s e in
        rw (e, Ensures)
          (Ensures->>= FewArgs FewArgs (length (gettoken (skip s)).after) (length s) _ _
            (parseline-Ensures fuel (gettoken (skip s)).after (omega arith))
            λ cmd s' q l'. elim (Bool-cases (next_in (41 ∷ []) (skip s'))) [
              | inr e' ↦ rw (e', Ensures) tt
              | inl e' ↦
                  let less' = length-next_in (41 ∷ []) s' e' in
                  rw (e', Ensures)
                    (Ensures-mono FewArgs _ (length s) _ (omega arith) (
                      parseredirs-Ensures FewArgs (λ c file mode fd r. r) (suc fuel) cmd
                        (gettoken (skip s')).after (omega arith) q))
            ])
  ]

no_leftovers_at : (c : Cmd) (r : List ℕ) → FewArgs c → Ensures FewArgs 0 (no_leftovers c r)
no_leftovers_at c [] p = (p, omega arith)
no_leftovers_at c (x ∷ r) p = tt

no_leftovers-Ensures :
    (n : ℕ) (m : Parsed Cmd)
    → Ensures FewArgs n m
    → Ensures FewArgs 0 (m >>= λ cmd s. no_leftovers cmd (skip s))
no_leftovers-Ensures n (ok c s) e = no_leftovers_at c (skip s) e.0
no_leftovers-Ensures n (panics p) e = tt
no_leftovers-Ensures n tired e = e

-- `parsecmd` ends on every line: it panics, or it has read the whole line and each command in the tree
-- that it returns has fewer than MAXARGS arguments, so that a null pointer ends its `argv`.
pub parsecmd-Ensures : (s : List ℕ) → Ensures FewArgs 0 (parsecmd s)
unfolding parsecmd
parsecmd-Ensures s =
    no_leftovers-Ensures (length s) _ (parseline-Ensures (4 * length s + 5) s (omega arith))
