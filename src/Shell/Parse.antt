-- ===== src/Shell/Parse.antt =====
-- The parser of user/sh.c.
use microkernal.Common.{
  Bool, List, [], false, if◌then◌else◌, leb, length, suc, true, zero, ℕ, ◌*◌, ◌++◌, ◌+◌, ◌==◌, ◌∷◌,
}
use microkernal.Shell.{
  Token, ◌>>=◌, Cmd, Parsed, gettoken, max_args, skip, next_in, exec, redir, pipe, list, back, ok,
  panics, tired, bad_syntax, leftovers, missing_file, missing_paren, parseblock, too_many_args,
}

-- inc/fcntl.h
abbrev pub o_rdonly : ℕ
o_rdonly = 0

abbrev pub o_wronly_create : ℕ
o_wronly_create = 0x201

-- The switch of `parseredirs`: "<", ">" and ">>".
abbrev pub redirect : Cmd → (tok : ℕ) → (file : List ℕ) → Cmd
redirect cmd tok file =
    if tok == b'<' then redir cmd file o_rdonly 0 else redir cmd file o_wronly_create 1

-- A round of the loop of `parseredirs` at a position `s` behind white space: `t` is the token there and
-- `u` the next one.
abbrev pub redirs_step :
    (next : Cmd → List ℕ → Parsed Cmd)
    → Cmd
    → (s : List ℕ) → (more : Bool) → (t u : Token) → Parsed Cmd
redirs_step next cmd s more t u = elim more [
  | false ↦ ok cmd s
  | true ↦ elim (u.kind == b'a') [
    | false ↦ panics missing_file
    | true ↦ next (redirect cmd t.kind u.word) u.after
  ]
]

-- The loop of `parseredirs`, for at most `fuel` redirections.
unfoldable pub parseredirs : (fuel : ℕ) → Cmd → List ℕ → Parsed Cmd
unfolding gettoken skip
parseredirs zero cmd s = tired
parseredirs (suc fuel) cmd s =
    let t = gettoken (skip s) in
    redirs_step (parseredirs fuel) cmd (skip s) (next_in (b'<' ∷ b'>' ∷ []) (skip s)) t
      (gettoken t.after)

-- The arguments of the command itself, to which `cmd` of `parseexec` still points below the redirections
-- of `ret`.
abbrev pub add_arg : Cmd → (word : List ℕ) → Cmd
add_arg (exec argv) w = exec (argv ++ (w ∷ []))
add_arg (redir cmd file mode fd) w = redir (add_arg cmd w) file mode fd
add_arg (pipe l r) w = pipe l r
add_arg (list l r) w = list l r
add_arg (back c) w = back c

-- A round of the loop of `parseexec` at a position `s` behind white space, where the token is `t`.
abbrev pub args_step :
    (redirs next : Cmd → List ℕ → Parsed Cmd)
    → (argc : ℕ) → (ret : Cmd) → (s : List ℕ) → (stop : Bool) → (t : Token) → Parsed Cmd
args_step redirs next argc ret s stop t = elim stop [
  | true ↦ ok ret s
  | false ↦ elim (t.kind == 0) [
    | true ↦ ok ret t.after
    | false ↦ elim (t.kind == b'a') [
      | false ↦ panics bad_syntax
      | true ↦ elim (leb max_args (argc + 1)) [
        | true ↦ panics too_many_args
        | false ↦ redirs (add_arg ret t.word) t.after >>= next
      ]
    ]
  ]
]

-- The loop of `parseexec`, with `argc` arguments so far.
unfoldable pub parse_args : (fuel argc : ℕ) → (ret : Cmd) → List ℕ → Parsed Cmd
unfolding parseredirs
parse_args zero argc ret s = tired
parse_args (suc fuel) argc ret s =
    args_step (parseredirs fuel) (parse_args fuel (argc + 1)) argc ret (skip s)
      (next_in (b'|' ∷ b')' ∷ b'&' ∷ b';' ∷ []) (skip s)) (gettoken (skip s))

abbrev pub backs_step :
    (next : Cmd → List ℕ → Parsed Cmd) → Cmd → (s : List ℕ) → (more : Bool) → Parsed Cmd
backs_step next cmd s more = elim more [
  | true ↦ next (back cmd) (gettoken s).after
  | false ↦ ok cmd s
]

-- The loop of `parseline` over "&".
unfoldable pub parse_backs : (fuel : ℕ) → Cmd → List ℕ → Parsed Cmd
unfolding gettoken skip
parse_backs zero cmd s = tired
parse_backs (suc fuel) cmd s =
    backs_step (parse_backs fuel) cmd (skip s) (next_in (b'&' ∷ []) (skip s))

-- An operator after a command, and the command to its right, if there is one.
abbrev pub right_step :
    (join : Cmd → Cmd)
    → (next : List ℕ → Parsed Cmd) → Cmd
    → (s : List ℕ) → (more : Bool) → Parsed Cmd
right_step join next cmd s more = elim more [
  | true ↦ next (gettoken s).after >>= λ right. ok (join right)
  | false ↦ ok cmd s
]

abbrev pub semicolon : (next : List ℕ → Parsed Cmd) → Cmd → List ℕ → Parsed Cmd
semicolon next cmd s = right_step (list cmd) next cmd (skip s) (next_in (b';' ∷ []) (skip s))

abbrev pub vertical_bar : (next : List ℕ → Parsed Cmd) → Cmd → List ℕ → Parsed Cmd
vertical_bar next cmd s = right_step (pipe cmd) next cmd (skip s) (next_in (b'|' ∷ []) (skip s))

-- What `parseexec` does where a block opens, and where none does.
abbrev pub exec_step :
    (blocks commands : List ℕ → Parsed Cmd) → (s : List ℕ) → (opens : Bool) → Parsed Cmd
exec_step blocks commands s opens = elim opens [ true ↦ blocks s | false ↦ commands s ]

-- The end of a block.
abbrev pub close_step :
    (redirs : Cmd → List ℕ → Parsed Cmd) → Cmd → (s : List ℕ) → (closes : Bool) → Parsed Cmd
close_step redirs cmd s closes = elim closes [
  | false ↦ panics missing_paren
  | true ↦ redirs cmd (gettoken s).after
]

abbrev pub close_block : (redirs : Cmd → List ℕ → Parsed Cmd) → Cmd → List ℕ → Parsed Cmd
close_block redirs cmd s = close_step redirs cmd (skip s) (next_in (b')' ∷ []) (skip s))

abbrev pub block_step :
    (lines : List ℕ → Parsed Cmd)
    → (redirs : Cmd → List ℕ → Parsed Cmd) → (s : List ℕ) → (opens : Bool) → Parsed Cmd
block_step lines redirs s opens = elim opens [
  | false ↦ panics parseblock
  | true ↦ lines (gettoken s).after >>= close_block redirs
]

unfoldable mutual
  unfolding gettoken skip parseredirs parse_args parse_backs

  pub parseline : (fuel : ℕ) → List ℕ → Parsed Cmd
  parseline zero s = tired
  parseline (suc fuel) s =
      (parsepipe fuel s >>= parse_backs (suc fuel)) >>= semicolon (parseline fuel)

  pub parsepipe : (fuel : ℕ) → List ℕ → Parsed Cmd
  parsepipe zero s = tired
  parsepipe (suc fuel) s = parseexec fuel s >>= vertical_bar (parsepipe fuel)

  pub parseexec : (fuel : ℕ) → List ℕ → Parsed Cmd
  parseexec zero s = tired
  parseexec (suc fuel) s =
      exec_step (parse_block fuel) (λ z. parseredirs fuel (exec []) z >>= parse_args fuel 0)
        (skip s) (next_in (b'(' ∷ []) (skip s))

  pub parse_block : (fuel : ℕ) → List ℕ → Parsed Cmd
  parse_block zero s = tired
  parse_block (suc fuel) s =
      block_step (parseline fuel) (parseredirs (suc fuel)) (skip s) (next_in (b'(' ∷ []) (skip s))

-- The test for leftovers.
abbrev pub no_leftovers : Cmd → List ℕ → Parsed Cmd
no_leftovers cmd [] = ok cmd []
no_leftovers cmd (c ∷ s) = panics leftovers

-- `parsecmd`, with four calls of a parsing function for each character.
unfoldable pub parsecmd : List ℕ → Parsed Cmd
unfolding parseline
parsecmd s = parseline (4 * length s + 5) s >>= λ cmd s'. no_leftovers cmd (skip s')
