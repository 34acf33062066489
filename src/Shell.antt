-- ===== src/Shell.antt =====
-- The shell's commands and tokens, user/sh.c. A string is the list of its bytes before the zero byte, and
-- a position in it the list of the bytes from there on.
pub mod Answers
pub mod Bounds
pub mod Loops
pub mod Message
pub mod Parse
pub mod RoundTrip
pub mod Spelling
mod Tests
pub mod Tokens
pub mod Words
use microkernal.Common.{Bool, List, [], false, if◌then◌else◌, not, ℕ, ◌&&◌, ◌==◌, ◌||◌, ◌∷◌}

abbrev pub max_args : ℕ
max_args = 10

-- EXEC, REDIR, PIPE, LIST and BACK. A word is what stands between its two pointers, which `nulterminate`
-- makes a string.
pub data Cmd : Type 0 where
  exec : (argv : List (List ℕ)) → Cmd
  redir : Cmd → (file : List ℕ) → (mode fd : ℕ) → Cmd
  pipe : (left right : Cmd) → Cmd
  list : (left right : Cmd) → Cmd
  back : Cmd → Cmd

-- What `panic` is called with.
pub data Panic : Type 0 where
  missing_file parseblock missing_paren bad_syntax too_many_args leftovers : Panic

-- What a parsing function gives: a value and the position after it, a panic, or no result as the fuel ran
-- out.
pub data Parsed {ℓ} (A : Type ℓ) : Type ℓ where
  ok : A → List ℕ → Parsed A
  panics : Panic → Parsed A
  tired : Parsed A

infixl 5 ◌>>=◌
abbrev pub ◌>>=◌ {ℓ κ} : {A : Type ℓ} {B : Type κ} → Parsed A → (A → List ℕ → Parsed B) → Parsed B
ok a s >>= f = f a s
panics p >>= f = panics p
tired >>= f = tired

-- `strchr(toks, c)` of user/ulib.c, which does not find the zero byte.
abbrev pub strchr : (toks : List ℕ) → (c : ℕ) → Bool
strchr [] c = false
strchr (t ∷ toks) c = t == c || strchr toks c

-- " \t\r\n\v"
abbrev pub whitespace : List ℕ
whitespace = 32 ∷ 9 ∷ 13 ∷ 10 ∷ 11 ∷ []

-- "<|>&;()"
abbrev pub symbols : List ℕ
symbols = b'<' ∷ b'|' ∷ b'>' ∷ b'&' ∷ b';' ∷ b'(' ∷ b')' ∷ []

abbrev pub is_space : ℕ → Bool
is_space = strchr whitespace

abbrev pub is_word_char : ℕ → Bool
is_word_char c = not (is_space c) && not (strchr symbols c)

unfoldable pub skip : List ℕ → List ℕ
skip [] = []
skip (c ∷ s) = if is_space c then skip s else c ∷ s

-- The characters of a word, and the position after it.
unfoldable pub span : List ℕ → List ℕ × List ℕ
span [] = ([], [])
span (c ∷ s) = let rest = span s in if is_word_char c then (c ∷ rest.0, rest.1) else ([], c ∷ s)

-- A token: its kind, its text, and the position after it and the white space.
pub record Token : Type 0 where
  pub kind : ℕ
  pub word : List ℕ
  pub after : List ℕ

abbrev pub token : (kind : ℕ) → (word after : List ℕ) → Token
token kind word after = record { kind = kind; word = word; after = skip after }

-- What follows a '>'.
abbrev pub greater : List ℕ → Token
greater [] = token b'>' (b'>' ∷ []) []
greater (c ∷ s) =
    if c == b'>' then token b'+' (b'>' ∷ b'>' ∷ []) s else token b'>' (b'>' ∷ []) (c ∷ s)

-- "|();&<"
abbrev pub single_symbols : List ℕ
single_symbols = b'|' ∷ b'(' ∷ b')' ∷ b';' ∷ b'&' ∷ b'<' ∷ []

-- The switch of `gettoken`, at a position without white space.
abbrev pub token_at : List ℕ → Token
token_at [] = token 0 [] []
token_at (c ∷ s) =
    if strchr single_symbols c
    then token c (c ∷ []) s
    else if c == b'>'
    then greater s
    else token b'a' (span (c ∷ s)).0 (span (c ∷ s)).1

unfoldable pub gettoken : List ℕ → Token
unfolding skip span
gettoken s = token_at (skip s)

-- The test of `peek`, which moves the position behind the white space by `skip`.
abbrev pub next_in : (toks : List ℕ) → List ℕ → Bool
next_in toks [] = false
next_in toks (c ∷ s) = strchr toks c
