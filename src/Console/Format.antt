-- ===== src/Console/Format.antt =====
-- `cprintf` of kernel/console.c, whose output is the list of the arguments of consputc.
use mathlib.Core.Option as Option
use microkernal.Common.{
  ==-of_ne, Bool, List, Option, [], ap, false, if◌then◌else◌, none, not, refl, some, true, ℕ, ◌%◌,
  ◌++◌, ◌==◌, ◌^◌, ◌||◌, ◌∙◌, ◌∷◌, ◌≡◌, ◌≢◌,
}
use microkernal.Console.{printint, printint64}

-- What a caller passes: a word, or a pointer to a text, which may be null.
pub data Arg : Type 0 where
  word : ℕ → Arg
  text : Option (List ℕ) → Arg

-- Between the characters of the format: outside a conversion, or in one, with `lflag`.
pub data Mode : Type 0 where
  plain : Mode
  conversion : (lflag : Bool) → Mode

-- `va_arg` of an integer and of a string. Where the argument is missing or of the other kind, C leaves
-- open what happens, and there is no result.
abbrev pub word_arg : List Arg → Option (ℕ × List Arg)
word_arg [] = none
word_arg (word n ∷ args) = some (n, args)
word_arg (text t ∷ args) = none

abbrev pub text_arg : List Arg → Option (Option (List ℕ) × List Arg)
text_arg [] = none
text_arg (word n ∷ args) = none
text_arg (text t ∷ args) = some (t, args)

-- "(null)"
abbrev pub null_text : List ℕ
null_text = 40 ∷ 110 ∷ 117 ∷ 108 ∷ 108 ∷ 41 ∷ []

abbrev pub text_of : Option (List ℕ) → List ℕ
text_of none = null_text
text_of (some cs) = cs

abbrev pub signed_text : (lflag : Bool) → ℕ → List ℕ
signed_text lflag n =
    if lflag then printint64 10 (n % 2 ^ 64) true else printint 10 (n % 2 ^ 32) true

abbrev pub hex_text : (lflag : Bool) → ℕ → List ℕ
hex_text lflag n =
    if lflag then printint64 16 (n % 2 ^ 64) false else printint 16 (n % 2 ^ 32) false

-- What a character of the format prints, the mode after it, and the arguments that are left.
abbrev pub Printed : Type 0
Printed = Option (List ℕ × Mode × List Arg)

abbrev pub then_plain : {A : Type 0} → (A → List ℕ) → Option (A × List Arg) → Printed
then_plain f none = none
then_plain f (some (a, args)) = some (f a, plain, args)

-- The character after a '%', with `lflag` as it is.
abbrev pub convert : (lflag : Bool) → (c : ℕ) → List Arg → Printed
convert lflag c args =
    if c == b'd'
    then then_plain (signed_text lflag) (word_arg args)
    else if c == b'l'
    then some ([], conversion (not lflag), args)
    else if c == b'x' || c == b'p'
    then then_plain (hex_text lflag) (word_arg args)
    else if c == b's'
    then then_plain text_of (text_arg args)
    else if c == b'%'
    then some (b'%' ∷ [], plain, args)
    else some (b'%' ∷ c ∷ [], plain, args)

abbrev pub print_char : Mode → (c : ℕ) → List Arg → Printed
print_char plain c args =
    if c == b'%' then some ([], conversion false, args) else some (c ∷ [], plain, args)
print_char (conversion lflag) c args = convert lflag c args

-- The output of one character, and what follows.
abbrev pub followed : Printed → (Mode → List Arg → Option (List ℕ)) → Option (List ℕ)
followed none rest = none
followed (some (out, mode, args)) rest = Option.map (λ more. out ++ more) (rest mode args)

-- The loop over the format up to its zero byte, which also ends it within a conversion.
unfoldable pub format : (fmt : List ℕ) → Mode → List Arg → Option (List ℕ)
format [] mode args = some []
format (c ∷ fmt) mode args = followed (print_char mode c args) (format fmt)

unfoldable pub cprintf : (fmt : List ℕ) → List Arg → Option (List ℕ)
unfolding format
cprintf fmt args = format fmt plain args

-- What a format says, piece by piece.
pub data Directive : Type 0 where
  literal : ℕ → Directive
  decimal hexadecimal pointer : (long : Bool) → Directive
  string percent_sign : Directive

abbrev pub spelled : Directive → List ℕ
spelled (literal c) = c ∷ []
spelled (decimal long) = b'%' ∷ ((if long then b'l' ∷ [] else []) ++ (b'd' ∷ []))
spelled (hexadecimal long) = b'%' ∷ ((if long then b'l' ∷ [] else []) ++ (b'x' ∷ []))
spelled (pointer long) = b'%' ∷ ((if long then b'l' ∷ [] else []) ++ (b'p' ∷ []))
spelled string = b'%' ∷ b's' ∷ []
spelled percent_sign = b'%' ∷ b'%' ∷ []

abbrev pub spelled_all : List Directive → List ℕ
spelled_all [] = []
spelled_all (d ∷ ds) = spelled d ++ spelled_all ds

abbrev pub rendered : Directive → List Arg → Printed
rendered (literal c) args = some (c ∷ [], plain, args)
rendered (decimal long) args = then_plain (signed_text long) (word_arg args)
rendered (hexadecimal long) args = then_plain (hex_text long) (word_arg args)
rendered (pointer long) args = then_plain (hex_text long) (word_arg args)
rendered string args = then_plain text_of (text_arg args)
rendered percent_sign args = some (b'%' ∷ [], plain, args)

abbrev pub rendered_all : List Directive → List Arg → Option (List ℕ)
rendered_all [] args = some []
rendered_all (d ∷ ds) args = followed (rendered d args) (λ mode. rendered_all ds)

-- The literal characters are none of '%'.
abbrev pub ArePlain : List Directive → Type 0
ArePlain [] = Unit
ArePlain (literal c ∷ ds) = (c ≢ b'%') × ArePlain ds
ArePlain (d ∷ ds) = ArePlain ds

null_map : (r : Option (List ℕ)) → Option.map (λ more. [] ++ more) r ≡ r
null_map none = refl
null_map (some cs) = refl

-- A conversion of a word with its letter, then the rest.
word_piece :
    (f : ℕ → List ℕ) (ds : List Directive) (args : List Arg)
    → ((more : List Arg) → format (spelled_all ds) plain more ≡ rendered_all ds more)
    → followed (then_plain f (word_arg args)) (format (spelled_all ds))
      ≡ followed (then_plain f (word_arg args)) (λ mode. rendered_all ds)
word_piece f ds [] ih = refl
word_piece f ds (word n ∷ args) ih = ap (Option.map (λ more. f n ++ more)) (ih args)
word_piece f ds (text t ∷ args) ih = refl

text_piece :
    (ds : List Directive) (args : List Arg)
    → ((more : List Arg) → format (spelled_all ds) plain more ≡ rendered_all ds more)
    → followed (then_plain text_of (text_arg args)) (format (spelled_all ds))
      ≡ followed (then_plain text_of (text_arg args)) (λ mode. rendered_all ds)
text_piece ds [] ih = refl
text_piece ds (word n ∷ args) ih = refl
text_piece ds (text t ∷ args) ih = ap (Option.map (λ more. text_of t ++ more)) (ih args)

-- `cprintf` of a format spelled from directives, whose literal characters are none of '%', prints what
-- the directives say with the arguments in their order: a decimal or hexadecimal number of 32 bits, or of
-- 64 with an 'l', a text or "(null)", a percent sign; and has no result exactly where they have none.
pub cprintf-spelled_all :
    (ds : List Directive) (args : List Arg)
    → ArePlain ds
    → cprintf (spelled_all ds) args ≡ rendered_all ds args
unfolding cprintf
cprintf-spelled_all [] args h = refl
cprintf-spelled_all (literal c ∷ ds) args (ne, h) =
    rw (==-of_ne c 37 ne) (ap (Option.map (λ more. c ∷ more)) (cprintf-spelled_all ds args h))
cprintf-spelled_all (decimal true ∷ ds) args h =
    null_map _
    ∙ null_map _
    ∙ word_piece (signed_text true) ds args (λ more. cprintf-spelled_all ds more h)
cprintf-spelled_all (decimal false ∷ ds) args h =
    null_map _ ∙ word_piece (signed_text false) ds args (λ more. cprintf-spelled_all ds more h)
cprintf-spelled_all (hexadecimal true ∷ ds) args h =
    null_map _
    ∙ null_map _
    ∙ word_piece (hex_text true) ds args (λ more. cprintf-spelled_all ds more h)
cprintf-spelled_all (hexadecimal false ∷ ds) args h =
    null_map _ ∙ word_piece (hex_text false) ds args (λ more. cprintf-spelled_all ds more h)
cprintf-spelled_all (pointer true ∷ ds) args h =
    null_map _
    ∙ null_map _
    ∙ word_piece (hex_text true) ds args (λ more. cprintf-spelled_all ds more h)
cprintf-spelled_all (pointer false ∷ ds) args h =
    null_map _ ∙ word_piece (hex_text false) ds args (λ more. cprintf-spelled_all ds more h)
cprintf-spelled_all (string ∷ ds) args h =
    null_map _ ∙ text_piece ds args (λ more. cprintf-spelled_all ds more h)
cprintf-spelled_all (percent_sign ∷ ds) args h =
    null_map _ ∙ ap (Option.map (λ more. 37 ∷ more)) (cprintf-spelled_all ds args h)
