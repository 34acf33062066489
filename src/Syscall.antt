-- ===== src/Syscall.antt =====
-- The arguments of system calls, kernel/syscall.c: how they are fetched and checked against the
-- caller's regions. User memory is a function from addresses to bytes.
pub mod Pointers
pub mod Strings
mod Tests
use microkernal.Common.{
  Option, Outcome, [], add64, find_index?, gt_int, if◌then◌else◌, is_neg, ltb, map, none, ok, panic,
  some, suc, zero, ℕ, ◌%◌, ◌&&◌, ◌*◌, ◌+◌, ◌-◌, ◌==◌, ◌>>=◌, ◌^◌, ◌∷◌,
}
use mathlib.Core.Option
use microkernal.CString.{Memory}
use microkernal.Vspace.{Region, Vspace, minus_one, vr_top, vregioncontains}

-- The registers of the trap frame that carry arguments, and the number of the call.
pub record TrapFrame : Type 0 where
  pub rax : ℕ
  pub rdi : ℕ
  pub rsi : ℕ
  pub rdx : ℕ
  pub rcx : ℕ
  pub r8 : ℕ
  pub r9 : ℕ

unfoldable pub fetcharg : TrapFrame → ℕ → Outcome ℕ
fetcharg tf n =
    if n == 0
    then ok tf.rdi
    else if n == 1
    then ok tf.rsi
    else if n == 2
    then ok tf.rdx
    else if n == 3
    then ok tf.rcx
    else if n == 4
    then ok tf.r8
    else if n == 5
    then ok tf.r9
    else panic

-- The low 32 bits, as the pattern of an `int`; fetching never fails.
unfoldable pub argint : TrapFrame → ℕ → Outcome ℕ
unfolding fetcharg
argint tf n = fetcharg tf n >>= λ x. ok (x % 2 ^ 32)

-- The first region that `vregioncontains` accepts.
abbrev pub checked_region : Vspace → (va size : ℕ) → Option ℕ
checked_region vs va size = find_index? (λ r. vregioncontains r va size) vs

-- `size` is the pattern of an `int`. `none` stands for the result -1.
unfoldable pub argptr : TrapFrame → Vspace → (n size : ℕ) → Outcome (Option ℕ)
unfolding fetcharg
argptr tf vs n size = fetcharg tf n >>= λ i.
    ok (if is_neg size then none else Option.map (λ r. i) (checked_region vs i size))

-- `n` bytes from `a`, the lowest first.
unfoldable pub load : Memory → (a n : ℕ) → ℕ
load mem a zero = 0
load mem a (suc n) = mem a + 256 * load mem (add64 a 1) n

-- What `syscall_gen_fetcher` defines: `fetchint` for `size` 4 and `fetchint64_t` for 8.
unfoldable pub fetch : (size : ℕ) → Memory → Vspace → ℕ → Option ℕ
unfolding load
fetch size mem vs addr = Option.map (λ r. load mem addr size) (checked_region vs addr size)

-- The loops that look for the NUL within `n` bytes of `s`: its distance.
unfoldable pub string_length? : Memory → (s n : ℕ) → Option ℕ
string_length? mem s zero = none
string_length? mem s (suc n) =
    let rest = string_length? mem (add64 s 1) n in
    if mem s == 0 then some 0 else Option.map suc rest

-- The loop of `fetchstr` over the regions. A string that runs out of its region is looked for in the
-- next one.
unfoldable pub fetchstr : Memory → Vspace → ℕ → Option ℕ
unfolding string_length?
fetchstr mem [] addr = none
fetchstr mem (r ∷ vs) addr =
    let rest = fetchstr mem vs addr in
    if vregioncontains r addr 0
    then elim (string_length? mem addr (vr_top r - addr)) [
      | none ↦ rest
      | some k ↦ some (k % 2 ^ 32)
    ]
    else rest

-- The result of `argstr`: the length of the string, or -1.
unfoldable pub argstr : Memory → TrapFrame → ℕ → Outcome ℕ
unfolding fetcharg string_length?
argstr mem tf n = fetcharg tf n >>= λ p. ok (
    if p == 0 then minus_one else elim (string_length? mem p 510) [ none ↦ minus_one | some k ↦ k ])

-- `syscall` with the table of handlers `syscalls`, each with what it does to the trap frame and the rest
-- of the state. The result of a handler is an `int`, which is sign extended to `rax`.
abbrev pub Handler : Type 0 → Type 0
Handler S = TrapFrame × S → Outcome (ℕ × TrapFrame × S)

abbrev pub sign_extended : ℕ → ℕ
sign_extended x = if is_neg x then x + (2 ^ 64 - 2 ^ 32) else x

module _ {S : Type 0} (syscalls : ℕ → Option (Handler S)) (nelem : ℕ) where
  abbrev pub handler : ℕ → Option (Handler S)
  handler num = if gt_int num 0 && ltb num nelem then syscalls num else none

  unfoldable pub syscall : TrapFrame → S → Outcome (TrapFrame × S)
  syscall tf s = elim (handler (tf.rax % 2 ^ 32)) [
    | none ↦ ok (record tf { rax = 2 ^ 64 - 1 }, s)
    | some h ↦ h (tf, s) >>= λ q. ok (record q.1 { rax = sign_extended q.0 }, q.2)
  ]
