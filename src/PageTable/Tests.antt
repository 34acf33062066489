-- ===== src/PageTable/Tests.antt =====
-- Witnesses on a table without entries.
use microkernal.Common.{[], if◌then◌else◌, none, refl, some, true, ◌==◌, ◌∷◌, ◌≡◌}
use microkernal.Guest.{zero_pte}
use microkernal.PageTable.{Tables, found, mappages, uva2ka}
use microkernal.PageTable.Frames.{Owner}

abbrev empty : Tables
empty = record { entry = λ f i. zero_pte; free = 11 ∷ 12 ∷ 13 ∷ 14 ∷ 15 ∷ 16 ∷ []; marks = [] }

abbrev root_only : Owner
root_only f = if f == 10 then some (3, 0) else none

-- The two pages lie in different tables of the last level.
looked : uva2ka 10 512 (mappages 1024 2 true true true 10 511 40 empty).0 ≡ found 41
unfolding mappages uva2ka
looked = refl
