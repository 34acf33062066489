-- ===== src/Shell/Loops.antt =====
-- The loops of the shell's parser on what is written, user/sh.c.
use microkernal.Common.{
  List, [], ap, arith, false, leb, length, length-append, refl, suc, true, zero, ℕ, ◌++◌, ◌+◌, ◌<◌,
  ◌∙◌, ◌∷◌, ◌≡◌,
}
use microkernal.Shell.{◌>>=◌, Cmd, Parsed, back, exec, gettoken, next_in, ok, skip, token}
use microkernal.Shell.Parse.{
  add_arg, args_step, backs_step, exec_step, redirs_step, semicolon, vertical_bar, parse_args,
  parse_backs, parse_block, parseexec, parseline, parsepipe, parseredirs, redirect,
}
use microkernal.Shell.Spelling.{
  AreArguments, AreFiles, Argument, Operator, IsWord, Redirection, append, backs, input, output,
  redirected, redirected_all, spell_arguments, spell_backs, spell_operator, spell_redirections,
}
use microkernal.Shell.Tokens.{skip-skip}
use microkernal.Shell.Words.{
  Opens, arguments_start, back-Opens, bar-Opens, gettoken-word, length-operator,
  length-redirections, skip-Opens, skip-word, stops-word,
}

-- The redirection that is read, from the spelling of one.
abbrev Read : Cmd → Redirection → (s r : List ℕ) → Type 0
Read c x s r =
    (next_in (60 ∷ 62 ∷ []) (skip s) ≡ true)
    × (gettoken (gettoken (skip s)).after ≡ token 97 x.file r)
    × ((w : List ℕ) → redirect c (gettoken (skip s)).kind w ≡ redirected c (record x { file = w }))

module _ (c : Cmd) (w r : List ℕ) (h : IsWord w) where
  file_read : gettoken (skip (w ++ (32 ∷ r))) ≡ token 97 w r
  file_read = ap gettoken (skip-word w r h) ∙ gettoken-word w r h

  operator-Read :
      (d : Operator)
      → Read c (record { operator = d; file = w }) (spell_operator d (w ++ (32 ∷ r))) r
  unfolding gettoken skip
  operator-Read input = (refl, file_read, λ v. refl)
  operator-Read output = (refl, file_read, λ v. refl)
  operator-Read append = (refl, file_read, λ v. refl)

-- The functions do not mind white space before them.
pub parseredirs-skip : (f : ℕ) (c : Cmd) (s : List ℕ) → parseredirs f c (skip s) ≡ parseredirs f c s
unfolding parseredirs
parseredirs-skip zero c s = refl
parseredirs-skip (suc f) c s =
    ap
      (λ z.
        redirs_step (parseredirs f) c z (next_in (60 ∷ 62 ∷ []) z) (gettoken z)
          (gettoken (gettoken z).after))
      (skip-skip s)

pub parse_args-skip :
    (f argc : ℕ) (c : Cmd) (s : List ℕ) → parse_args f argc c (skip s) ≡ parse_args f argc c s
unfolding parse_args
parse_args-skip zero argc c s = refl
parse_args-skip (suc f) argc c s =
    ap
      (λ z.
        args_step (parseredirs f) (parse_args f (argc + 1)) argc c z
          (next_in (124 ∷ 41 ∷ 38 ∷ 59 ∷ []) z) (gettoken z))
      (skip-skip s)

parse_backs-skip : (f : ℕ) (c : Cmd) (s : List ℕ) → parse_backs f c (skip s) ≡ parse_backs f c s
unfolding parse_backs
parse_backs-skip zero c s = refl
parse_backs-skip (suc f) c s =
    ap (λ z. backs_step (parse_backs f) c z (next_in (38 ∷ []) z)) (skip-skip s)

pub parseexec-skip : (f : ℕ) (s : List ℕ) → parseexec f (skip s) ≡ parseexec f s
unfolding parseexec
parseexec-skip zero s = refl
parseexec-skip (suc f) s =
    ap
      (λ z.
        exec_step (parse_block f) (λ y. parseredirs f (exec []) y >>= parse_args f 0) z
          (next_in (40 ∷ []) z))
      (skip-skip s)

pub parsepipe-skip : (f : ℕ) (s : List ℕ) → parsepipe f (skip s) ≡ parsepipe f s
unfolding parsepipe
parsepipe-skip zero s = refl
parsepipe-skip (suc f) s = ap (λ m. m >>= vertical_bar (parsepipe f)) (parseexec-skip f s)

pub parseline-skip : (f : ℕ) (s : List ℕ) → parseline f (skip s) ≡ parseline f s
unfolding parseline
parseline-skip zero s = refl
parseline-skip (suc f) s =
    ap (λ m. (m >>= parse_backs (suc f)) >>= semicolon (parseline f)) (parsepipe-skip f s)

pub parseredirs-spelled :
    (f : ℕ) (rs : List Redirection) (c : Cmd) (r : List ℕ)
    → length (spell_redirections rs r) < f
    → AreFiles rs
    → next_in (60 ∷ 62 ∷ []) (skip r) ≡ false
    → parseredirs f c (spell_redirections rs r) ≡ ok (redirected_all c rs) (skip r)
unfolding parseredirs
parseredirs-spelled zero rs c r l h stop = absurd (omega arith)
parseredirs-spelled (suc f) [] c r l h stop =
    let t = gettoken (skip r) in
    λ i. redirs_step (parseredirs f) c (skip r) (stop i) t (gettoken t.after)
parseredirs-spelled (suc f) (x ∷ rs) c r l (w, h) stop =
    let rest = spell_redirections rs r in
    let s = spell_redirections (x ∷ rs) r in
    let (seen, u, v) = operator-Read c x.file rest w x.operator in
    let n = length-operator x.operator (x.file ++ (32 ∷ rest)) in
    let m = length-append x.file (32 ∷ rest) in
    (λ i. redirs_step (parseredirs f) c (skip s) (seen i) (gettoken (skip s)) (u i))
    ∙ ap (λ d. parseredirs f d (skip rest)) (v x.file)
    ∙ parseredirs-skip f _ rest
    ∙ parseredirs-spelled f rs (redirected c x) r (omega arith) h stop

abbrev pub args_tree : Cmd → List Argument → Cmd
args_tree ret [] = ret
args_tree ret (a ∷ args) = args_tree (redirected_all (add_arg ret a.word) a.redirections) args

args_end :
    (f argc : ℕ) (ret : Cmd) (r : List ℕ)
    → Opens (124 ∷ 41 ∷ 38 ∷ 59 ∷ []) r
    → parse_args (suc f) argc ret r ≡ ok ret r
unfolding parse_args gettoken skip
args_end f argc ret [] o = refl
args_end f argc ret (c ∷ r) o =
    (λ i.
      args_step (parseredirs f) (parse_args f (argc + 1)) argc ret (skip-Opens (c ∷ r) o i)
        (next_in (124 ∷ 41 ∷ 38 ∷ 59 ∷ []) (skip-Opens (c ∷ r) o i))
        (gettoken (skip-Opens (c ∷ r) o i)))
    ∙ (λ i.
        args_step (parseredirs f) (parse_args f (argc + 1)) argc ret (c ∷ r) (o i)
          (gettoken (c ∷ r)))

-- A word that is not one too many.
args_step-word :
    (redirs next : Cmd → List ℕ → Parsed Cmd) (argc : ℕ) (ret : Cmd) (s w r : List ℕ)
    → argc + 1 < 10
    → args_step redirs next argc ret s false (token 97 w r)
      ≡ (redirs (add_arg ret w) (skip r) >>= next)
args_step-word redirs next argc ret s w r few =
    let more : leb 10 (argc + 1) ≡ false = ground arith in rw (more, args_step) refl

pub parse_args-spelled :
    (f argc : ℕ) (ret : Cmd) (args : List Argument) (r : List ℕ)
    → length (spell_arguments args r) < f
    → argc + length args < 10
    → AreArguments args
    → Opens (124 ∷ 41 ∷ 38 ∷ 59 ∷ []) r
    → parse_args f argc ret (spell_arguments args r) ≡ ok (args_tree ret args) r
unfolding parse_args
parse_args-spelled zero argc ret args r l few h o = absurd (omega arith)
parse_args-spelled (suc f) argc ret [] r l few h o = args_end f argc ret r o
parse_args-spelled (suc f) argc ret (a ∷ args) r l few (w, fs, h) o =
    let after = spell_arguments args r in
    let rest = spell_redirections a.redirections after in
    let s = spell_arguments (a ∷ args) r in
    let t = token 97 a.word rest in
    let n = length-append a.word (32 ∷ rest) in
    let m = length-redirections a.redirections after in
    let recur = parse_args f (argc + 1) in
    (λ i.
      args_step (parseredirs f) recur argc ret (skip s)
        ((ap (next_in (124 ∷ 41 ∷ 38 ∷ 59 ∷ [])) (skip-word a.word rest w)
            ∙ stops-word a.word rest w)
          i)
        (file_read ret a.word rest w i))
    ∙ args_step-word (parseredirs f) recur argc ret (skip s) a.word rest (omega arith)
    ∙ ap (λ z. z >>= recur)
        (parseredirs-skip f _ rest
          ∙ parseredirs-spelled f a.redirections _ after (omega arith) fs
              (arguments_start args r h o).0)
    ∙ parse_args-skip f (argc + 1) _ after
    ∙ parse_args-spelled f (argc + 1) _ args r (omega arith) (omega arith) h o

pub parse_backs-spelled :
    (f n : ℕ) (c : Cmd) (r : List ℕ)
    → length (spell_backs n r) < f
    → Opens (41 ∷ 59 ∷ []) r
    → parse_backs f c (spell_backs n r) ≡ ok (backs n c) r
unfolding parse_backs
parse_backs-spelled zero n c r l o = absurd (omega arith)
parse_backs-spelled (suc f) zero c r l o =
    let (no_back, o') = back-Opens r o in
    let e = skip-Opens r (bar-Opens r o').1 in
    (λ i. backs_step (parse_backs f) c (e i) (next_in (38 ∷ []) (e i)))
    ∙ (λ i. backs_step (parse_backs f) c r (no_back i))
parse_backs-spelled (suc f) (suc n) c r l o =
    parse_backs-skip f (back c) (spell_backs n r)
    ∙ parse_backs-spelled f n (back c) r (omega arith) o
