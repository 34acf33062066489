-- ===== src/Shell/Spelling.antt =====
-- Command lines by their grammar, how they are written and what tree they stand for, user/sh.c.
use microkernal.Common.{List, [], length, suc, true, zero, ℕ, ◌++◌, ◌<◌, ◌∷◌, ◌≡◌}
use microkernal.Shell.{Cmd, back, exec, is_word_char, list, max_args, pipe, redir}
use microkernal.Shell.Parse.{o_rdonly, o_wronly_create}

-- "<", ">" and ">>".
pub data Operator : Type 0 where
  input output append : Operator

pub record Redirection : Type 0 where
  pub operator : Operator
  pub file : List ℕ

-- An argument and the redirections after it.
pub record Argument : Type 0 where
  pub word : List ℕ
  pub redirections : List Redirection

mutual
  -- Pipelines with a number of "&" behind each, and ";" between them.
  pub data Line : Type 0 where
    last : Pipeline → (backs : ℕ) → Line
    seq : Pipeline → (backs : ℕ) → Line → Line

  pub data Pipeline : Type 0 where
    one : Stage → Pipeline
    bar : Stage → Pipeline → Pipeline

  pub data Stage : Type 0 where
    block : Line → List Redirection → Stage
    simple : List Redirection → List Argument → Stage

-- Each token is written with a space behind it, before the text `rest`.
abbrev pub spell_operator : Operator → List ℕ → List ℕ
spell_operator input rest = b'<' ∷ 32 ∷ rest
spell_operator output rest = b'>' ∷ 32 ∷ rest
spell_operator append rest = b'>' ∷ b'>' ∷ 32 ∷ rest

abbrev pub spell_redirections : List Redirection → List ℕ → List ℕ
spell_redirections [] rest = rest
spell_redirections (r ∷ rs) rest =
    spell_operator r.operator (r.file ++ (32 ∷ spell_redirections rs rest))

abbrev pub spell_arguments : List Argument → List ℕ → List ℕ
spell_arguments [] rest = rest
spell_arguments (a ∷ args) rest =
    a.word ++ (32 ∷ spell_redirections a.redirections (spell_arguments args rest))

abbrev pub spell_backs : ℕ → List ℕ → List ℕ
spell_backs zero rest = rest
spell_backs (suc n) rest = b'&' ∷ 32 ∷ spell_backs n rest

unfoldable mutual
  pub spell_line : Line → List ℕ → List ℕ
  spell_line (last p n) rest = spell_pipeline p (spell_backs n rest)
  spell_line (seq p n l) rest = spell_pipeline p (spell_backs n (b';' ∷ 32 ∷ spell_line l rest))

  pub spell_pipeline : Pipeline → List ℕ → List ℕ
  spell_pipeline (one s) rest = spell_stage s rest
  spell_pipeline (bar s p) rest = spell_stage s (b'|' ∷ 32 ∷ spell_pipeline p rest)

  pub spell_stage : Stage → List ℕ → List ℕ
  spell_stage (block l rs) rest = b'(' ∷ 32 ∷ spell_line l (b')' ∷ 32 ∷ spell_redirections rs rest)
  spell_stage (simple rs args) rest = spell_redirections rs (spell_arguments args rest)

-- What a redirection makes of a command.
abbrev pub redirected : Cmd → Redirection → Cmd
redirected cmd r = elim r.operator [
  | input ↦ redir cmd r.file o_rdonly 0
  | output ↦ redir cmd r.file o_wronly_create 1
  | append ↦ redir cmd r.file o_wronly_create 1
]

-- The first redirection is the innermost one.
abbrev pub redirected_all : Cmd → List Redirection → Cmd
redirected_all cmd [] = cmd
redirected_all cmd (r ∷ rs) = redirected_all (redirected cmd r) rs

abbrev pub words : List Argument → List (List ℕ)
words [] = []
words (a ∷ args) = a.word ∷ words args

abbrev pub redirections_of : List Argument → List Redirection
redirections_of [] = []
redirections_of (a ∷ args) = a.redirections ++ redirections_of args

abbrev pub backs : ℕ → Cmd → Cmd
backs zero cmd = cmd
backs (suc n) cmd = backs n (back cmd)

-- The tree of a line.
unfoldable mutual
  pub line_tree : Line → Cmd
  line_tree (last p n) = backs n (pipeline_tree p)
  line_tree (seq p n l) = list (backs n (pipeline_tree p)) (line_tree l)

  pub pipeline_tree : Pipeline → Cmd
  pipeline_tree (one s) = stage_tree s
  pipeline_tree (bar s p) = pipe (stage_tree s) (pipeline_tree p)

  pub stage_tree : Stage → Cmd
  stage_tree (block l rs) = redirected_all (line_tree l) rs
  stage_tree (simple rs args) = redirected_all (exec (words args)) (rs ++ redirections_of args)

-- A word has a character, and none of white space or a symbol.
abbrev pub AreWordChars : List ℕ → Type 0
AreWordChars [] = Unit
AreWordChars (c ∷ cs) = (is_word_char c ≡ true) × AreWordChars cs

abbrev pub IsWord : List ℕ → Type 0
IsWord [] = ⊥
IsWord (c ∷ cs) = AreWordChars (c ∷ cs)

abbrev pub AreFiles : List Redirection → Type 0
AreFiles [] = Unit
AreFiles (r ∷ rs) = IsWord r.file × AreFiles rs

abbrev pub AreArguments : List Argument → Type 0
AreArguments [] = Unit
AreArguments (a ∷ args) = IsWord a.word × AreFiles a.redirections × AreArguments args

-- Words are words, and no command has MAXARGS of them.
unfoldable mutual
  pub IsLine : Line → Type 0
  IsLine (last p n) = IsPipeline p
  IsLine (seq p n l) = IsPipeline p × IsLine l

  pub IsPipeline : Pipeline → Type 0
  IsPipeline (one s) = IsStage s
  IsPipeline (bar s p) = IsStage s × IsPipeline p

  pub IsStage : Stage → Type 0
  IsStage (block l rs) = IsLine l × AreFiles rs
  IsStage (simple rs args) = AreFiles rs × AreArguments args × (length args < max_args)
