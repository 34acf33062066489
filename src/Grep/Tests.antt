-- ===== src/Grep/Tests.antt =====
-- Witnesses on the pattern "a*b$".
use microkernal.Common.{List, [], refl, true, ℕ, ◌↔◌, ◌∷◌, ◌≡◌}
use microkernal.Grep.{match, match_somewhere, matchhere, matchstar}
use microkernal.Grep.Meaning.{Accepts, match_iff}

abbrev pattern : List ℕ
pattern = 97 ∷ 42 ∷ 98 ∷ 36 ∷ []

found_caab : match pattern (99 ∷ 97 ∷ 97 ∷ 98 ∷ []) ≡ true
unfolding match match_somewhere matchhere matchstar
found_caab = refl

match_iff_example : (match pattern (99 ∷ 97 ∷ 98 ∷ []) ≡ true) ↔ Accepts pattern (99 ∷ 97 ∷ 98 ∷ [])
match_iff_example = match_iff pattern (99 ∷ 97 ∷ 98 ∷ [])
