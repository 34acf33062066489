-- ===== src/Console.antt =====
-- The input line and the number printing of kernel/console.c. What goes to the screen and the serial
-- port is the list of the arguments of consputc.
pub mod Format
pub mod Lines
pub mod Numbers
pub mod Reads
pub mod Slices
mod Tests
pub mod Views
use mathlib.Core.List.{reverse}
use microkernal.Common.{
  Bool, List, [], add32, false, get_or, if◌then◌else◌, leb, ltb, not, set, sub32, suc, true, zero,
  ℕ, ◌%◌, ◌&&◌, ◌++◌, ◌+◌, ◌-◌, ◌/◌, ◌==◌, ◌^◌, ◌||◌, ◌∷◌,
}

abbrev pub input_buf : ℕ
input_buf = 128

-- The struct `input`, whose counters are `uint`s.
pub record Input : Type 0 where
  pub buf : List ℕ
  pub r : ℕ
  pub w : ℕ
  pub e : ℕ

abbrev pub newline : ℕ
newline = 10

abbrev pub return_key : ℕ
return_key = 13

-- C('D'), C('H'), C('P') and C('U'), and DEL.
abbrev pub ctrl_d : ℕ
ctrl_d = 4

abbrev pub ctrl_h : ℕ
ctrl_h = 8

abbrev pub ctrl_p : ℕ
ctrl_p = 16

abbrev pub ctrl_u : ℕ
ctrl_u = 21

abbrev pub del : ℕ
del = 127

abbrev pub backspace : ℕ
backspace = 256

-- What a character of input does: the new line buffer, what is echoed, and whether readers are woken.
abbrev pub Typed : Type 0
Typed = Input × List ℕ × Bool

abbrev pub silent : Input → Typed
silent s = (s, [], false)

abbrev pub echoed : ℕ → Typed → Typed
echoed c t = (t.0, c ∷ t.1, t.2)

abbrev pub step_back : Input → Input
step_back s = record s { e = sub32 s.e 1 }

-- The loop of C('U'), for at most `fuel` characters.
unfoldable pub kill_line : (fuel : ℕ) → Input → Typed
kill_line zero s = silent s
kill_line (suc fuel) s =
    let rest = kill_line fuel (step_back s) in
    if s.e == s.w
    then silent s
    else if get_or s.buf (sub32 s.e 1 % input_buf) 0 == newline
    then silent s
    else echoed backspace rest

abbrev pub rubout : Input → Typed
rubout s = if s.e == s.w then silent s else (step_back s, backspace ∷ [], false)

abbrev pub line_char : ℕ → ℕ
line_char c = if c == return_key then newline else c

abbrev pub put_char : Input → ℕ → Input
put_char s c = record s { buf = set s.buf (s.e % input_buf) c; e = add32 s.e 1 }

-- The line is complete, or the buffer full.
abbrev pub ends_line : Input → ℕ → Bool
ends_line s c = c == newline || c == ctrl_d || s.e == add32 s.r input_buf

abbrev pub commit : Input → ℕ → Typed
commit s c = if ends_line s c then (record s { w = s.e }, c ∷ [], true) else (s, c ∷ [], false)

abbrev pub insert_char : Input → ℕ → Typed
insert_char s c =
    if not (c == 0) && ltb (sub32 s.e s.r) input_buf
    then commit (put_char s (line_char c)) (line_char c)
    else silent s

-- One character in the loop of `consoleintr`. C('P') asks for a listing of the processes.
unfoldable pub type_char : Input → ℕ → Typed
unfolding kill_line
type_char s c =
    if c == ctrl_p
    then silent s
    else if c == ctrl_u
    then kill_line input_buf s
    else if c == ctrl_h || c == del
    then rubout s
    else insert_char s c

-- The loop over the characters that `getc` has.
unfoldable pub consoleintr : Input → List ℕ → Typed
unfolding type_char
consoleintr s [] = silent s
consoleintr s (c ∷ cs) =
    let t = type_char s c in let u = consoleintr t.0 cs in (u.0, t.1 ++ u.1, t.2 || u.2)

-- How a call of `consoleread` stops: it returns the number of bytes, it returns -1, or it waits for input.
pub data Stop : Type 0 where
  returned given_up waiting : Stop

-- The loop of `consoleread`, with `n` bytes to go: the bytes, the buffer, and how it stops. `killed`
-- is the caller's flag; `first` says that no byte has been stored yet.
unfoldable pub read_line : Input → (killed first : Bool) → (n : ℕ) → List ℕ × Input × Stop
read_line s killed first zero = ([], s, returned)
read_line s killed first (suc n) =
    let c = get_or s.buf (s.r % input_buf) 0 in
    let t = record s { r = add32 s.r 1 } in
    let rest = read_line t killed false n in
    if s.r == s.w
    then ([], s, if killed then given_up else waiting)
    else if c == ctrl_d
    then ([], if first then t else s, returned)
    else if c == newline
    then (c ∷ [], t, returned)
    else (c ∷ rest.0, rest.1, rest.2)

-- `consoleread`, up to where it sleeps.
unfoldable pub consoleread : Input → (killed : Bool) → (n : ℕ) → List ℕ × Input × Stop
unfolding read_line
consoleread s killed n = read_line s killed true n

-- `digits[x % base]`
abbrev pub digit : ℕ → ℕ
digit d = if ltb d 10 then 48 + d else 87 + d

-- The digits of a number from the last one on, as the loop of `printint` stores them.
unfoldable pub digits_from : (fuel base x : ℕ) → List ℕ
digits_from zero base x = []
digits_from (suc fuel) base x =
    let rest = digits_from fuel base (x / base) in
    if x / base == 0 then digit (x % base) ∷ [] else digit (x % base) ∷ rest

abbrev pub minus_sign : ℕ
minus_sign = 45

-- The characters in `buf` for an integer of `bits` bits, in the order of their indices. The buffer's
-- size is the fuel.
unfoldable pub int_buffer : (size bits base xx : ℕ) → (sign : Bool) → List ℕ
unfolding digits_from
int_buffer size bits base xx sign =
    if sign && leb (2 ^ (bits - 1)) xx
    then digits_from size base (2 ^ bits - xx) ++ (minus_sign ∷ [])
    else digits_from size base xx

-- What is printed: `buf` from its end.
unfoldable pub printint : (base xx : ℕ) → (sign : Bool) → List ℕ
unfolding int_buffer
printint base xx sign = reverse (int_buffer 16 32 base xx sign)

unfoldable pub printint64 : (base xx : ℕ) → (sign : Bool) → List ℕ
unfolding int_buffer
printint64 base xx sign = reverse (int_buffer 32 64 base xx sign)
