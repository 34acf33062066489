-- ===== src/Shell/Message.antt =====
-- What the shell does with a line, user/sh.c, and how the arguments of a program reach the guest
-- operating system, kernel/guest.c and user/guest_os.c.
use native.Mathlib.Nat.{zero-add}
use microkernal.Common.{
  Bool, List, Option, [], ap, arith, drop, false, get_or, if◌then◌else◌, leb, length, length-map,
  ltb, map, none, refl, some, take, take-of_length_le, true, ℕ, ◌&&◌, ◌+◌, ◌-◌, ◌<◌, ◌==◌, ◌∙◌, ◌∷◌,
  ◌≡◌, ◌≤◌,
}
use microkernal.Guest.{Message}
use microkernal.Shell.{
  Cmd, Panic, Parsed, exec, redir, pipe, list, back, ok, panics, tired, max_args,
}
use microkernal.Shell.Parse.{parsecmd}

-- `struct arg`: its type, and its value as a single number or as the bytes of a string.
pub record Arg : Type 0 where
  pub arg_type : ℕ
  pub arg_val : List ℕ

abbrev pub int_type : ℕ
int_type = 2

abbrev pub string_type : ℕ
string_type = 13

-- The entries of a message's `args`, and the bytes of a value's `string`.
abbrev pub message_args : ℕ
message_args = 6

abbrev pub max_string_size : ℕ
max_string_size = 64

-- What the shell does with a line: it changes its directory, goes on to the next line, ends with a panic,
-- asks the guest operating system for a program, writes past the end of `args` or of a string in it, or
-- its parser finds no end.
pub data Action : Type 0 where
  changes_dir : (path : List ℕ) → Action
  goes_on : Action
  ends : Panic → Action
  sends : List Arg → Action
  overruns : Action
  parses_on : Action

-- The loop that counts the arguments.
unfoldable pub count_args : (argc : ℕ) → (argv : List (List ℕ)) → ℕ
count_args argc [] = argc
count_args argc (w ∷ argv) =
    let rest = count_args (argc + 1) argv in if ltb max_args argc then argc else rest

abbrev pub string_arg : List ℕ → Arg
string_arg w = record { arg_type = string_type; arg_val = w }

abbrev pub int_arg : ℕ → Arg
int_arg n = record { arg_type = int_type; arg_val = n ∷ [] }

-- Every string fits with its zero byte.
abbrev pub all_fit : List (List ℕ) → Bool
all_fit [] = true
all_fit (w ∷ argv) = ltb (length w) max_string_size && all_fit argv

-- The request for a program, for which the shell has room for MAX_ARGS + 1 values.
unfoldable pub init_app : (argv : List (List ℕ)) → Action
unfolding count_args
init_app argv =
    let argc = count_args 0 argv in
    if leb argc message_args && all_fit (take argc argv)
    then sends (int_arg argc ∷ map string_arg (take argc argv))
    else overruns

abbrev pub run_command : Cmd → Action
run_command (exec []) = goes_on
run_command (exec (w ∷ argv)) = init_app (w ∷ argv)
run_command (redir cmd file mode fd) = goes_on
run_command (pipe l r) = goes_on
run_command (list l r) = goes_on
run_command (back cmd) = goes_on

abbrev pub run_parsed : Parsed Cmd → Action
run_parsed (ok cmd s) = run_command cmd
run_parsed (panics p) = ends p
run_parsed tired = parses_on

-- "cd "
abbrev pub is_cd : (buf : List ℕ) → Bool
is_cd buf = get_or buf 0 0 == b'c' && get_or buf 1 0 == b'd' && get_or buf 2 0 == 32

-- A round of the loop of `main`, up to its call of app_syscall.
unfoldable pub run_line : (buf : List ℕ) → Action
unfolding parsecmd init_app
run_line buf =
    if is_cd buf
    then changes_dir (drop 3 (take (length buf - 1) buf))
    else run_parsed (parsecmd buf)

-- The values that `sys_app_syscall` copies into a message; there is none where they are more than the
-- caller has or the message holds, which the code does not check.
abbrev pub new_message : (pid sys_num num_args : ℕ) → (values : List Arg) → Option Message
new_message pid sys_num num_args values =
    if leb num_args message_args && leb num_args (length values)
    then some (record {
      pid = pid;
      syscall_index = sys_num;
      num_args = num_args;
      args = map (λ (a : Arg). a.arg_val) (take num_args values);
    })
    else none

unfoldable pub app_message : (pid sys_num : ℕ) → (args : List Arg) → Option Message
app_message pid sys_num [] = none
app_message pid sys_num (count ∷ values) = new_message pid sys_num (get_or count.arg_val 0 0) values

-- The `argv` that `guest_init_app` makes of a message.
unfoldable pub guest_argv : Message → List (List ℕ)
guest_argv m = take m.num_args m.args

abbrev pub AreShort : List (List ℕ) → Type 0
AreShort [] = Unit
AreShort (w ∷ argv) = (length w < 64) × AreShort argv

count_args-eq :
    (argc : ℕ) (argv : List (List ℕ))
    → argc + length argv ≤ 11
    → count_args argc argv ≡ argc + length argv
unfolding count_args
count_args-eq argc [] h = omega arith
count_args-eq argc (w ∷ argv) h = ground (arith, count_args-eq (argc + 1) argv)

all_fit_lem : (argv : List (List ℕ)) → AreShort argv → all_fit argv ≡ true
all_fit_lem [] h = refl
all_fit_lem (w ∷ argv) (l, h) =
    let e : ltb (length w) 64 ≡ true = ground arith in rw e (all_fit_lem argv h)

map-values : (argv : List (List ℕ)) → map (λ (a : Arg). a.arg_val) (map string_arg argv) ≡ argv
map-values [] = refl
map-values (w ∷ argv) = ap (◌∷◌ w) (map-values argv)

module _ (argv : List (List ℕ)) (few : length argv ≤ 6) (short : AreShort argv) where
  init_app-sends : init_app argv ≡ sends (int_arg (length argv) ∷ map string_arg argv)
  unfolding init_app
  init_app-sends =
      let n : count_args 0 argv ≡ length argv =
        count_args-eq 0 argv (omega arith) ∙ zero-add (length argv) in
      let all : take (length argv) argv ≡ argv =
        take-of_length_le argv (length argv) (omega arith) in
      let small : leb (length argv) 6 ≡ true = ground arith in
      let fit = all_fit_lem argv short in rw n (rw all (rw small (rw fit refl)))

  app_message-copies :
      (pid sys_num : ℕ)
      → (m : Message) × (app_message pid sys_num (int_arg (length argv) ∷ map string_arg argv)
          ≡ some m)
        × (guest_argv m ≡ argv)
  unfolding app_message guest_argv
  app_message-copies pid sys_num =
      let values = map string_arg argv in
      let all : take (length argv) values ≡ values =
        take-of_length_le values (length argv) (omega (arith, length-map string_arg argv)) in
      let small : leb (length argv) 6 ≡ true = ground arith in
      let there : leb (length argv) (length values) ≡ true =
        ground (arith, length-map string_arg argv) in
      let copies : app_message pid sys_num (int_arg (length argv) ∷ values)
          ≡ some
              (record { pid = pid; syscall_index = sys_num; num_args = length argv; args = argv }) =
        rw small (rw there (rw all (rw (map-values argv) refl))) in
      (
        record { pid = pid; syscall_index = sys_num; num_args = length argv; args = argv },
        copies,
        take-of_length_le argv (length argv) (omega arith),
      )

-- A program's arguments reach the guest operating system. Where a line is no "cd" and is parsed as a
-- command of one to MAX_ARGS words, each shorter than MAX_STRING_SIZE, the shell sends a list of
-- arguments of which sys_app_syscall, called by any process with any number, makes a message, and the
-- `argv` that guest_init_app makes of it are these words.
pub run_line-delivers :
    (s w : List ℕ) (argv : List (List ℕ)) (pid sys_num : ℕ)
    → is_cd s ≡ false
    → parsecmd s ≡ ok (exec (w ∷ argv)) []
    → length (w ∷ argv) ≤ 6
    → AreShort (w ∷ argv)
    → (args : List Arg) × (m : Message) × (run_line s ≡ sends args)
      × (app_message pid sys_num args ≡ some m)
      × (guest_argv m ≡ w ∷ argv)
unfolding run_line
run_line-delivers s w argv pid sys_num no_cd parsed few short =
    let (m, copied, same) = app_message-copies (w ∷ argv) few short pid sys_num in
    (
      int_arg (length (w ∷ argv)) ∷ map string_arg (w ∷ argv),
      m,
      rw no_cd (ap run_parsed parsed ∙ init_app-sends (w ∷ argv) few short),
      copied,
      same,
    )
