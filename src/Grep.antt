-- ===== src/Grep.antt =====
-- The matcher of user/grep.c. A pattern and a text are their characters up to the NUL.
pub mod Meaning
mod Tests
use microkernal.Common.{Bool, List, [], false, if◌then◌else◌, is_nil, true, ℕ, ◌==◌, ◌||◌, ◌∷◌}

abbrev pub caret : ℕ
caret = 94

abbrev pub dot : ℕ
dot = 46

abbrev pub star : ℕ
star = 42

abbrev pub dollar : ℕ
dollar = 36

-- `c == '.'`, or `c` is the character.
abbrev pub takes : (c x : ℕ) → Bool
takes c x = c == dot || c == x

-- `matchstar`, with `matchhere` of the rest of the pattern as `here`.
unfoldable pub matchstar : (here : List ℕ → Bool) → (c : ℕ) → List ℕ → Bool
matchstar here c [] = here []
matchstar here c (x ∷ xs) =
    let rest = matchstar here c xs in
    if here (x ∷ xs) then true else if takes c x then rest else false

-- The last test of `matchhere`, with `matchhere` of the rest of the pattern.
abbrev pub matchone : (here : List ℕ → Bool) → (c : ℕ) → List ℕ → Bool
matchone here c [] = false
matchone here c (x ∷ xs) = if takes c x then here xs else false

unfoldable pub matchhere : (re text : List ℕ) → Bool
unfolding matchstar
matchhere [] text = true
matchhere (c ∷ []) text = if c == dollar then is_nil text else matchone (matchhere []) c text
matchhere (c ∷ d ∷ re) text = elim (d == star) [
  | true ↦ matchstar (matchhere re) c text
  | false ↦ matchone (matchhere (d ∷ re)) c text
]

-- The loop of `match` over the ends of the text, the empty one included.
unfoldable pub match_somewhere : (re text : List ℕ) → Bool
unfolding matchhere
match_somewhere re [] = matchhere re []
match_somewhere re (x ∷ xs) =
    let rest = match_somewhere re xs in if matchhere re (x ∷ xs) then true else rest

unfoldable pub match : (re text : List ℕ) → Bool
unfolding match_somewhere
match [] text = match_somewhere [] text
match (c ∷ re) text = if c == caret then matchhere re text else match_somewhere (c ∷ re) text
