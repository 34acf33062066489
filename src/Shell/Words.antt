-- ===== src/Shell/Words.antt =====
-- How the tokens of a written line are read back, user/sh.c.
use microkernal.Common.{
  List, [], ap, arith, false, length, length-append, refl, suc, true, zero, ℕ, ◌++◌, ◌+◌, ◌==◌, ◌∙◌,
  ◌∷◌, ◌≡◌, ◌≤◌,
}
use microkernal.Shell.{
  gettoken, is_space, next_in, single_symbols, skip, span, strchr, token, token_at,
}
use microkernal.Shell.Spelling.{
  AreWordChars, IsWord, Operator, Redirection, Argument, spell_arguments, spell_redirections,
  spell_backs, spell_operator, input, output, append, AreArguments,
}

span-word : (w r : List ℕ) → AreWordChars w → span (w ++ (32 ∷ r)) ≡ (w, 32 ∷ r)
unfolding span
span-word [] r h = refl
span-word (c ∷ w) r (l, h) = rw l (ap (λ (p : List ℕ × List ℕ). (c ∷ p.0, p.1)) (span-word w r h))

pub skip-word : (w r : List ℕ) → IsWord w → skip (w ++ (32 ∷ r)) ≡ w ++ (32 ∷ r)
unfolding skip
skip-word [] r h = absurd h
skip-word (c ∷ w) r (l, h) = let e : is_space c ≡ false = ground arith in rw e refl

pub gettoken-word : (w r : List ℕ) → IsWord w → gettoken (w ++ (32 ∷ r)) ≡ token 97 w r
unfolding gettoken
gettoken-word [] r h = absurd h
gettoken-word (c ∷ w) r (l, h) =
    let e = skip-word (c ∷ w) r (l, h) in
    let e' : strchr single_symbols c ≡ false = ground arith in
    let e'' : (c == 62) ≡ false = ground arith in
    let s = span-word (c ∷ w) r (l, h) in
    ap token_at e ∙ rw e' (rw e'' (ap (λ (p : List ℕ × List ℕ). token 97 p.0 p.1) s))

pub redirects-word : (w r : List ℕ) → IsWord w → next_in (60 ∷ 62 ∷ []) (w ++ (32 ∷ r)) ≡ false
redirects-word [] r h = absurd h
redirects-word (c ∷ w) r (l, h) = ground arith

pub no_block-word : (w r : List ℕ) → IsWord w → next_in (40 ∷ []) (w ++ (32 ∷ r)) ≡ false
no_block-word [] r h = absurd h
no_block-word (c ∷ w) r (l, h) = ground arith

pub stops-word :
    (w r : List ℕ) → IsWord w → next_in (124 ∷ 41 ∷ 38 ∷ 59 ∷ []) (w ++ (32 ∷ r)) ≡ false
stops-word [] r h = absurd h
stops-word (c ∷ w) r (l, h) = ground arith

-- The text is at its end or goes on with one of `toks`.
abbrev pub Opens : (toks : List ℕ) → List ℕ → Type 0
Opens toks [] = Unit
Opens toks (c ∷ r) = strchr toks c ≡ true

pub skip-Opens : (r : List ℕ) → Opens (124 ∷ 41 ∷ 38 ∷ 59 ∷ []) r → skip r ≡ r
unfolding skip
skip-Opens [] h = refl
skip-Opens (c ∷ r) h = let e : is_space c ≡ false = ground arith in rw e refl

pub redirects-Opens :
    (r : List ℕ) → Opens (124 ∷ 41 ∷ 38 ∷ 59 ∷ []) r → next_in (60 ∷ 62 ∷ []) r ≡ false
redirects-Opens [] h = refl
redirects-Opens (c ∷ r) h = ground arith

pub no_block-Opens : (r : List ℕ) → Opens (124 ∷ 41 ∷ 38 ∷ 59 ∷ []) r → next_in (40 ∷ []) r ≡ false
no_block-Opens [] h = refl
no_block-Opens (c ∷ r) h = ground arith

pub bar-Opens :
    (r : List ℕ)
    → Opens (41 ∷ 38 ∷ 59 ∷ []) r
    → (next_in (124 ∷ []) r ≡ false) × Opens (124 ∷ 41 ∷ 38 ∷ 59 ∷ []) r
bar-Opens [] h = (refl, tt)
bar-Opens (c ∷ r) h = (ground arith, ground arith)

pub back-Opens :
    (r : List ℕ)
    → Opens (41 ∷ 59 ∷ []) r
    → (next_in (38 ∷ []) r ≡ false) × Opens (41 ∷ 38 ∷ 59 ∷ []) r
back-Opens [] h = (refl, tt)
back-Opens (c ∷ r) h = (ground arith, ground arith)

pub line-Opens :
    (r : List ℕ) → Opens (41 ∷ []) r → (next_in (59 ∷ []) r ≡ false) × Opens (41 ∷ 59 ∷ []) r
line-Opens [] h = (refl, tt)
line-Opens (c ∷ r) h = (ground arith, ground arith)

pub backs-Opens :
    (n : ℕ) (r : List ℕ) → Opens (41 ∷ 59 ∷ []) r → Opens (41 ∷ 38 ∷ 59 ∷ []) (spell_backs n r)
backs-Opens zero r h = (back-Opens r h).1
backs-Opens (suc n) r h = refl

-- Arguments do not begin with a redirection or a parenthesis.
pub arguments_start :
    (args : List Argument) (r : List ℕ)
    → AreArguments args
    → Opens (124 ∷ 41 ∷ 38 ∷ 59 ∷ []) r
    → (next_in (60 ∷ 62 ∷ []) (skip (spell_arguments args r)) ≡ false)
      × (next_in (40 ∷ []) (skip (spell_arguments args r)) ≡ false)
arguments_start [] r h o = (
  ap (next_in (60 ∷ 62 ∷ [])) (skip-Opens r o) ∙ redirects-Opens r o,
  ap (next_in (40 ∷ [])) (skip-Opens r o) ∙ no_block-Opens r o,
)
arguments_start (a ∷ args) r (w, f, h) o =
    let e = skip-word a.word (spell_redirections a.redirections (spell_arguments args r)) w in
    (
      ap (next_in (60 ∷ 62 ∷ [])) e ∙ redirects-word a.word _ w,
      ap (next_in (40 ∷ [])) e ∙ no_block-word a.word _ w,
    )

pub length-operator : (d : Operator) (r : List ℕ) → length r + 2 ≤ length (spell_operator d r)
length-operator input r = omega arith
length-operator output r = omega arith
length-operator append r = omega arith

-- What is written stands before the rest.
pub length-redirections :
    (rs : List Redirection) (r : List ℕ) → length r ≤ length (spell_redirections rs r)
length-redirections [] r = omega arith
length-redirections (x ∷ rs) r = omega (
  arith,
  length-operator x.operator (x.file ++ (32 ∷ spell_redirections rs r)),
  length-append x.file (32 ∷ spell_redirections rs r),
  length-redirections rs r,
)

pub length-arguments :
    (args : List Argument) (r : List ℕ) → length r ≤ length (spell_arguments args r)
length-arguments [] r = omega arith
length-arguments (a ∷ args) r = omega (
  arith,
  length-append a.word (32 ∷ spell_redirections a.redirections (spell_arguments args r)),
  length-redirections a.redirections (spell_arguments args r),
  length-arguments args r,
)

pub length-backs : (n : ℕ) (r : List ℕ) → length r ≤ length (spell_backs n r)
length-backs zero r = omega arith
length-backs (suc n) r = omega (arith, length-backs n r)
