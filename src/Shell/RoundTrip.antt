-- ===== src/Shell/RoundTrip.antt =====
-- A written line is read back as its tree, user/sh.c.
use mathlib.Core.List.{append-nil, append_assoc}
use microkernal.Common.{
  List, [], ap, ap₂, arith, false, length, refl, suc, sym, zero, ℕ, ◌*◌, ◌++◌, ◌+◌, ◌<◌, ◌∙◌, ◌∷◌,
  ◌≡◌, ◌≤◌,
}
use microkernal.Shell.{◌>>=◌, Cmd, Parsed, exec, list, next_in, ok, pipe, skip}
use microkernal.Shell.Parse.{
  add_arg, close_block, exec_step, right_step, semicolon, vertical_bar, parse_args, parse_backs,
  parse_block, parsecmd, parseexec, parseline, parsepipe, parseredirs, no_leftovers,
}
use microkernal.Shell.Spelling.{
  AreArguments, Argument, Operator, IsLine, IsPipeline, IsStage, Line, Pipeline, Redirection, Stage,
  append, bar, backs, block, input, last, line_tree, one, output, pipeline_tree, redirected,
  redirected_all, redirections_of, seq, simple, spell_arguments, spell_backs, spell_operator,
  spell_line, spell_pipeline, spell_redirections, spell_stage, stage_tree, words,
}
use microkernal.Shell.Loops.{
  parseredirs-skip, parse_args-skip, parsepipe-skip, parseline-skip, parseredirs-spelled,
  parse_args-spelled, parse_backs-spelled, args_tree,
}
use microkernal.Shell.Words.{
  Opens, arguments_start, back-Opens, backs-Opens, bar-Opens, length-arguments, length-backs,
  length-redirections, line-Opens, redirects-Opens, skip-Opens,
}

-- Where no operator follows, and where one does.
right_step-end :
    (join : Cmd → Cmd) (next : List ℕ → Parsed Cmd) (c : Cmd) (tok : ℕ) (r : List ℕ)
    → skip r ≡ r
    → next_in (tok ∷ []) r ≡ false
    → right_step join next c (skip r) (next_in (tok ∷ []) (skip r)) ≡ ok c r
right_step-end join next c tok r e stop =
    (λ i. right_step join next c (e i) (next_in (tok ∷ []) (e i)))
    ∙ (λ i. right_step join next c r (stop i))

add_arg-redirected :
    (c : Cmd) (d : Operator) (file w : List ℕ)
    → add_arg (redirected c (record { operator = d; file = file })) w
      ≡ redirected (add_arg c w) (record { operator = d; file = file })
add_arg-redirected c input file w = refl
add_arg-redirected c output file w = refl
add_arg-redirected c append file w = refl

add_arg-redirected_all :
    (c : Cmd) (rs : List Redirection) (w : List ℕ)
    → add_arg (redirected_all c rs) w ≡ redirected_all (add_arg c w) rs
add_arg-redirected_all c [] w = refl
add_arg-redirected_all c (x ∷ rs) w =
    add_arg-redirected_all (redirected c x) rs w
    ∙ ap (λ d. redirected_all d rs) (add_arg-redirected c x.operator x.file w)

redirected_all-append :
    (c : Cmd) (rs qs : List Redirection)
    → redirected_all c (rs ++ qs) ≡ redirected_all (redirected_all c rs) qs
redirected_all-append c [] qs = refl
redirected_all-append c (x ∷ rs) qs = redirected_all-append (redirected c x) rs qs

args_tree_lem :
    (ws : List (List ℕ)) (rs : List Redirection) (args : List Argument)
    → args_tree (redirected_all (exec ws) rs) args
      ≡ redirected_all (exec (ws ++ words args)) (rs ++ redirections_of args)
args_tree_lem ws rs [] = rw append-nil (rw append-nil refl)
args_tree_lem ws rs (a ∷ args) =
    ap (λ c. args_tree (redirected_all c a.redirections) args)
      (add_arg-redirected_all (exec ws) rs a.word)
    ∙ ap (λ c. args_tree c args)
        (sym (redirected_all-append (exec (ws ++ (a.word ∷ []))) rs a.redirections))
    ∙ args_tree_lem (ws ++ (a.word ∷ [])) (rs ++ a.redirections) args
    ∙ ap₂ (λ v q. redirected_all (exec v) q) (append_assoc ws (a.word ∷ []) (words args))
        (append_assoc rs a.redirections (redirections_of args))

mutual
  unfolding spell_line spell_pipeline spell_stage

  length-line : (l : Line) (r : List ℕ) → length r ≤ length (spell_line l r)
  length-line (last p n) r = omega (arith, length-pipeline p (spell_backs n r), length-backs n r)
  length-line (seq p n l) r =
      let s = 59 ∷ 32 ∷ spell_line l r in
      omega (arith, length-pipeline p (spell_backs n s), length-backs n s, length-line l r)

  length-pipeline : (p : Pipeline) (r : List ℕ) → length r ≤ length (spell_pipeline p r)
  length-pipeline (one s) r = length-stage s r
  length-pipeline (bar s p) r =
      omega (arith, length-stage s (124 ∷ 32 ∷ spell_pipeline p r), length-pipeline p r)

  length-stage : (s : Stage) (r : List ℕ) → length r ≤ length (spell_stage s r)
  length-stage (block l rs) r =
      omega (arith, length-line l (41 ∷ 32 ∷ spell_redirections rs r), length-redirections rs r)
  length-stage (simple rs args) r =
      omega (arith, length-redirections rs (spell_arguments args r), length-arguments args r)

operator_start : (d : Operator) (s : List ℕ) → next_in (40 ∷ []) (skip (spell_operator d s)) ≡ false
unfolding skip
operator_start input s = refl
operator_start output s = refl
operator_start append s = refl

-- A command that is no block does not begin with a parenthesis.
simple_start :
    (rs : List Redirection) (args : List Argument) (r : List ℕ)
    → AreArguments args
    → Opens (124 ∷ 41 ∷ 38 ∷ 59 ∷ []) r
    → next_in (40 ∷ []) (skip (spell_redirections rs (spell_arguments args r))) ≡ false
simple_start [] args r h o = (arguments_start args r h o).1
simple_start (x ∷ rs) args r h o =
    operator_start x.operator (x.file ++ (32 ∷ spell_redirections rs (spell_arguments args r)))

mutual
  unfolding parseline parsepipe parseexec parse_block spell_line spell_pipeline spell_stage
      line_tree pipeline_tree stage_tree IsLine IsPipeline IsStage

  line-spelled :
      (f : ℕ) (l : Line) (r : List ℕ)
      → 4 * length (spell_line l r) + 4 < f
      → IsLine l
      → Opens (41 ∷ []) r
      → parseline f (spell_line l r) ≡ ok (line_tree l) r
  line-spelled zero l r n h o = absurd (omega arith)
  line-spelled (suc f) (last p k) r n h o =
      let (stop, o') = line-Opens r o in
      ap (λ m. (m >>= parse_backs (suc f)) >>= semicolon (parseline f))
        (pipeline-spelled f p (spell_backs k r) (omega arith) h (backs-Opens k r o'))
      ∙ ap (λ m. m >>= semicolon (parseline f))
          (parse_backs-spelled (suc f) k (pipeline_tree p) r
            (omega (arith, length-pipeline p (spell_backs k r))) o')
      ∙ right_step-end _ (parseline f) _ 59 r (skip-Opens r (bar-Opens r (back-Opens r o').1).1)
          stop
  line-spelled (suc f) (seq p k l) r n (h, h') o =
      let s = 59 ∷ 32 ∷ spell_line l r in
      let shorter = length-pipeline p (spell_backs k s) in
      let shorter' = length-backs k s in
      ap (λ m. (m >>= parse_backs (suc f)) >>= semicolon (parseline f))
        (pipeline-spelled f p (spell_backs k s) (omega arith) h (backs-Opens k s refl))
      ∙ ap (λ m. m >>= semicolon (parseline f))
          (parse_backs-spelled (suc f) k (pipeline_tree p) s (omega arith) refl)
      ∙ ap (λ m. m >>= λ right. ok (list (backs k (pipeline_tree p)) right))
          (parseline-skip f (spell_line l r) ∙ line-spelled f l r (omega arith) h' o)

  pipeline-spelled :
      (f : ℕ) (p : Pipeline) (r : List ℕ)
      → 4 * length (spell_pipeline p r) + 3 < f
      → IsPipeline p
      → Opens (41 ∷ 38 ∷ 59 ∷ []) r
      → parsepipe f (spell_pipeline p r) ≡ ok (pipeline_tree p) r
  pipeline-spelled zero p r n h o = absurd (omega arith)
  pipeline-spelled (suc f) (one s) r n h o =
      let (stop, o') = bar-Opens r o in
      ap (λ m. m >>= vertical_bar (parsepipe f)) (stage-spelled f s r (omega arith) h o')
      ∙ right_step-end _ (parsepipe f) _ 124 r (skip-Opens r o') stop
  pipeline-spelled (suc f) (bar s p) r n (h, h') o =
      let shorter = length-stage s (124 ∷ 32 ∷ spell_pipeline p r) in
      ap (λ m. m >>= vertical_bar (parsepipe f))
        (stage-spelled f s (124 ∷ 32 ∷ spell_pipeline p r) (omega arith) h refl)
      ∙ ap (λ m. m >>= λ right. ok (pipe (stage_tree s) right))
          (parsepipe-skip f (spell_pipeline p r) ∙ pipeline-spelled f p r (omega arith) h' o)

  stage-spelled :
      (f : ℕ) (s : Stage) (r : List ℕ)
      → 4 * length (spell_stage s r) + 2 < f
      → IsStage s
      → Opens (124 ∷ 41 ∷ 38 ∷ 59 ∷ []) r
      → parseexec f (spell_stage s r) ≡ ok (stage_tree s) r
  stage-spelled zero s r n h o = absurd (omega arith)
  stage-spelled (suc zero) s r n h o = absurd (omega arith)
  stage-spelled (suc (suc f)) (block l rs) r n (h, h') o =
      let after = 41 ∷ 32 ∷ spell_redirections rs r in
      let shorter = length-line l after in
      ap (λ m. m >>= close_block (parseredirs (suc f)))
        (parseline-skip f (spell_line l after) ∙ line-spelled f l after (omega arith) h refl)
      ∙ parseredirs-skip (suc f) (line_tree l) (spell_redirections rs r)
      ∙ parseredirs-spelled (suc f) rs (line_tree l) r (omega arith) h'
          (ap (next_in (60 ∷ 62 ∷ [])) (skip-Opens r o) ∙ redirects-Opens r o)
      ∙ ap (ok (redirected_all (line_tree l) rs)) (skip-Opens r o)
  stage-spelled (suc (suc f)) (simple rs args) r n (h, h', few) o =
      let after = spell_arguments args r in
      let s = spell_redirections rs after in
      let shorter = length-redirections rs after in
      (λ i.
        exec_step (parse_block (suc f))
          (λ z. parseredirs (suc f) (exec []) z >>= parse_args (suc f) 0) (skip s)
          (simple_start rs args r h' o i))
      ∙ ap (λ m. m >>= parse_args (suc f) 0)
          (parseredirs-skip (suc f) (exec []) s
            ∙ parseredirs-spelled (suc f) rs (exec []) after (omega arith) h
                (arguments_start args r h' o).0)
      ∙ parse_args-skip (suc f) 0 _ after
      ∙ parse_args-spelled (suc f) 0 _ args r (omega arith) (omega arith) h' o
      ∙ ap (λ c. ok c r) (args_tree_lem [] rs args)

-- A command line that is written by the grammar, each token with a space behind it, with words that are
-- not empty and have neither white space nor symbols, and with fewer than MAXARGS of them in a command, is
-- parsed as its tree: "|" binds tighter than "&" and ";", the last redirection is the outermost, and
-- redirections may stand anywhere among the arguments.
pub parsecmd-spell_line : (l : Line) → IsLine l → parsecmd (spell_line l []) ≡ ok (line_tree l) []
unfolding parsecmd skip
parsecmd-spell_line l h =
    ap (λ m. m >>= λ cmd s. no_leftovers cmd (skip s)) (line-spelled _ l [] (omega arith) h tt)
