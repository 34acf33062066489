-- ===== src/Shell/Tokens.antt =====
-- What the tokens of user/sh.c take from the text.
use microkernal.Common.{
  Bool-cases, List, [], ap, arith, false, inl, inr, length, refl, subst, true, ℕ, ◌<◌, ◌==◌, ◌∙◌,
  ◌∷◌, ◌≡◌, ◌≤◌,
}
use microkernal.Shell.{
  gettoken, greater, skip, span, token_at, next_in, strchr, single_symbols, is_space, is_word_char,
}

pub length-skip : (s : List ℕ) → length (skip s) ≤ length s
unfolding skip
length-skip [] = omega arith
length-skip (c ∷ s) = ground (arith, length-skip s)

length-span : (s : List ℕ) → length (span s).1 ≤ length s
unfolding span
length-span [] = omega arith
length-span (c ∷ s) = ground (arith, length-span s)

pub skip-skip : (s : List ℕ) → skip (skip s) ≡ skip s
unfolding skip
skip-skip [] = refl
skip-skip (c ∷ s) = elim (Bool-cases (is_space c)) [
  | inl e ↦ rw e (skip-skip s)
  | inr e ↦ rw e (rw e refl)
]

-- What `skip` stops at is no white space.
abbrev pub Tight : List ℕ → Type 0
Tight [] = Unit
Tight (c ∷ s) = is_space c ≡ false

pub skip-Tight : (s : List ℕ) → Tight (skip s)
unfolding skip
skip-Tight [] = tt
skip-Tight (c ∷ s) = elim (Bool-cases (is_space c)) [ inl e ↦ rw e (skip-Tight s) | inr e ↦ rw e e ]

-- A token that is not the end takes a character.
length-greater : (s : List ℕ) → length (greater s).after ≤ length s
length-greater [] = length-skip []
length-greater (c ∷ s) = elim (Bool-cases (c == 62)) [
  | inl e ↦ rw e (omega (arith, length-skip s))
  | inr e ↦ rw e (length-skip (c ∷ s))
]

length-token_at : (c : ℕ) (s : List ℕ) → Tight (c ∷ s) → length (token_at (c ∷ s)).after ≤ length s
unfolding span
length-token_at c s h = elim (Bool-cases (strchr single_symbols c)) [
  | inl e ↦ rw e (length-skip s)
  | inr e ↦ rw e (elim (Bool-cases (c == 62)) [
    | inl e' ↦ rw e' (length-greater s)
    | inr e' ↦
        let letter : is_word_char c ≡ true = ground (arith, e, e', h) in
        rw e' (rw letter (omega (arith, length-skip (span s).1, length-span s)))
  ])
]

pub length-gettoken :
    (s : List ℕ) {c : ℕ} {r : List ℕ} → skip s ≡ c ∷ r → length (gettoken s).after < length s
unfolding gettoken
length-gettoken s {c} {r} e =
    let l : length (token_at (c ∷ r)).after ≤ length r =
      length-token_at c r (subst Tight e (skip-Tight s)) in
    rw e (omega (arith, length-skip s, ap length e))

gettoken_le-at : (s r : List ℕ) → skip s ≡ r → length (token_at r).after ≤ length s
unfolding skip
gettoken_le-at s [] e = omega arith
gettoken_le-at s (c ∷ r) e =
    omega (arith, length-token_at c r (subst Tight e (skip-Tight s)), length-skip s, ap length e)

pub length-gettoken_le : (s : List ℕ) → length (gettoken s).after ≤ length s
unfolding gettoken
length-gettoken_le s = gettoken_le-at s (skip s) refl

next_in-at :
    (toks s r : List ℕ)
    → skip s ≡ r
    → next_in toks r ≡ true
    → length (gettoken (skip s)).after < length s
next_in-at toks s [] e h = cc
next_in-at toks s (c ∷ r) e h =
    omega (arith, length-skip s, length-gettoken (skip s) (skip-skip s ∙ e))

-- A test that succeeds has seen a character, which `gettoken` then takes.
pub length-next_in :
    (toks s : List ℕ) → next_in toks (skip s) ≡ true → length (gettoken (skip s)).after < length s
length-next_in toks s h = next_in-at toks s (skip s) refl h

kind-at :
    (s r : List ℕ)
    → skip s ≡ r
    → ((gettoken (skip s)).kind == 0) ≡ false
    → length (gettoken (skip s)).after < length s
unfolding gettoken
kind-at s [] e h = let h' = subst (λ z. ((token_at z).kind == 0) ≡ false) (skip-skip s ∙ e) h in cc
kind-at s (c ∷ r) e h = omega (arith, length-skip s, length-gettoken (skip s) (skip-skip s ∙ e))

-- A token that is not the end takes a character.
pub length-kind :
    (s : List ℕ)
    → ((gettoken (skip s)).kind == 0) ≡ false
    → length (gettoken (skip s)).after < length s
length-kind s h = kind-at s (skip s) refl h
