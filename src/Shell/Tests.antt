-- ===== src/Shell/Tests.antt =====
-- Witnesses on the line "echo hi > f | grep h & " and on "ls x".
use microkernal.Common.{List, [], arith, refl, some, ℕ, ◌∷◌, ◌≡◌}
use microkernal.Guest.{Message}
use microkernal.Shell.{back, exec, ok, pipe, redir}
use microkernal.Shell.Answers.{parsecmd-Ensures}
use microkernal.Shell.Bounds.{Ensures, FewArgs}
use microkernal.Shell.Message.{Arg, app_message, guest_argv, run_line, run_line-delivers, sends}
use microkernal.Shell.Parse.{parsecmd}
use microkernal.Shell.RoundTrip.{parsecmd-spell_line}
use microkernal.Shell.Spelling.{
  IsLine, IsPipeline, IsStage, IsWord, Line, bar, last, line_tree, one, output, pipeline_tree,
  simple, spell_line, stage_tree,
}

abbrev echo : List ℕ
echo = b'e' ∷ b'c' ∷ b'h' ∷ b'o' ∷ []

abbrev hi : List ℕ
hi = b'h' ∷ b'i' ∷ []

abbrev file : List ℕ
file = b'f' ∷ []

abbrev line : Line
line =
    last
      (bar
        (simple [] (
          record { word = echo; redirections = [] }
          ∷ record { word = hi; redirections = record { operator = output; file = file } ∷ [] }
          ∷ []))
        (one (simple [] (record { word = hi; redirections = [] } ∷ []))))
      1

echo-IsWord : IsWord echo
echo-IsWord = (refl, (refl, (refl, (refl, tt))))

hi-IsWord : IsWord hi
hi-IsWord = (refl, (refl, tt))

file-IsWord : IsWord file
file-IsWord = (refl, tt)

line-IsLine : IsLine line
unfolding IsLine IsPipeline IsStage
line-IsLine = (
  (tt, (echo-IsWord, tt, (hi-IsWord, (file-IsWord, tt), tt)), omega arith),
  (tt, (hi-IsWord, tt, tt), omega arith),
)

line_tree_value :
    line_tree line ≡ back (pipe (redir (exec (echo ∷ hi ∷ [])) file 0x201 1) (exec (hi ∷ [])))
unfolding line_tree pipeline_tree stage_tree
line_tree_value = refl

parsecmd-spell_line_example : parsecmd (spell_line line []) ≡ ok (line_tree line) []
parsecmd-spell_line_example = parsecmd-spell_line line line-IsLine

-- "ls x\n"
abbrev typed : List ℕ
typed = b'l' ∷ b's' ∷ 32 ∷ b'x' ∷ 10 ∷ []

typed_parsed : parsecmd typed ≡ ok (exec ((b'l' ∷ b's' ∷ []) ∷ (b'x' ∷ []) ∷ [])) []
unfolding parsecmd
typed_parsed = refl

run_line-delivers_example :
    (args : List Arg) × (m : Message) × (run_line typed ≡ sends args)
    × (app_message 3 2 args ≡ some m)
    × (guest_argv m ≡ (b'l' ∷ b's' ∷ []) ∷ (b'x' ∷ []) ∷ [])
run_line-delivers_example =
    run_line-delivers typed (b'l' ∷ b's' ∷ []) ((b'x' ∷ []) ∷ []) 3 2 refl typed_parsed
      (omega arith) (omega arith)

parsecmd-Ensures_example : Ensures FewArgs 0 (parsecmd typed)
parsecmd-Ensures_example = parsecmd-Ensures typed
