-- ===== src/Console/Tests.antt =====
-- Witnesses on a line that is typed, corrected and read.
use microkernal.Common.{List, [], arith, false, refl, replicate, true, ℕ, ◌-◌, ◌^◌, ◌∷◌, ◌≡◌}
use microkernal.Console.{
  Input, consoleintr, consoleread, ctrl_h, int_buffer, newline, printint, return_key,
}
use microkernal.Console.Format.{
  Directive, cprintf, cprintf-spelled_all, decimal, percent_sign, rendered_all, spelled_all, word,
}
use microkernal.Console.Lines.{consoleintr-Shows, keyed_all}
use microkernal.Console.Views.{IsSound, Shows, view}
use microkernal.Console.Numbers.{Prints, magnitude, negative, printint-Prints}
use microkernal.Console.Reads.{Takes, consoleread-Takes, take_line}

-- The counters start just before they wrap round.
abbrev fresh : Input
fresh = record { buf = replicate 128 0; r = 2 ^ 32 - 2; w = 2 ^ 32 - 2; e = 2 ^ 32 - 2 }

fresh-IsSound : IsSound fresh
unfolding replicate
fresh-IsSound = record {
  sized = refl;
  r_word = omega arith;
  w_word = omega arith;
  e_word = omega arith;
  ordered = omega arith;
  room = omega arith;
  one_line = λ k l. absurd (omega arith);
}

-- "ax^Hb\r"
abbrev keys : List ℕ
keys = 97 ∷ 120 ∷ ctrl_h ∷ 98 ∷ return_key ∷ []

abbrev line : Input
line = (consoleintr fresh keys).0

read_back : (consoleread line false 10).0 ≡ 97 ∷ 98 ∷ newline ∷ []
unfolding consoleintr consoleread replicate
read_back = refl

printed : printint 10 (2 ^ 32 - 17) true ≡ 45 ∷ 49 ∷ 55 ∷ []
unfolding printint
printed = refl

consoleintr-Shows_example : Shows (consoleintr fresh keys).0 (keyed_all (view fresh) keys)
consoleintr-Shows_example = consoleintr-Shows fresh keys fresh-IsSound

line-IsSound : IsSound line
line-IsSound = consoleintr-Shows_example.0

consoleread-Takes_example :
    Takes
      (consoleread line false 10)
      (take_line (view line).committed false true 10)
      (view line).edited
consoleread-Takes_example = consoleread-Takes line false 10 line-IsSound

printint-Prints_example :
    Prints 10
      (magnitude 32 (2 ^ 32 - 17) true)
      (negative 32 (2 ^ 32 - 17) true)
      16
      (int_buffer 16 32 10 (2 ^ 32 - 17) true)
      (printint 10 (2 ^ 32 - 17) true)
printint-Prints_example = printint-Prints (2 ^ 32 - 17) true (omega arith)

-- "%d%%"
abbrev directives : List Directive
directives = decimal false ∷ percent_sign ∷ []

cprintf-spelled_all_example :
    cprintf (spelled_all directives) (word 50 ∷ []) ≡ rendered_all directives (word 50 ∷ [])
cprintf-spelled_all_example = cprintf-spelled_all directives (word 50 ∷ []) tt
