-- ===== src/Syscall/Tests.antt =====
-- Witnesses on a process with one region of a page at address 0, which holds the string "ab" at 100.
use microkernal.Common.{
  [], arith, if◌then◌else◌, kernbase, ok, refl, some, ℕ, ◌+◌, ◌-◌, ◌==◌, ◌^◌, ◌↔◌, ◌∷◌, ◌≡◌,
}
use microkernal.CString.{Memory}
use microkernal.Vspace.{Region, Direction}
use microkernal.Syscall.{TrapFrame, fetcharg, argptr, fetchstr, string_length?}
use microkernal.Syscall.Pointers.{Accessible, argptr_iff, argptr_wraps}

abbrev page : Region
page = record { dir = Direction.grows_up; va_base = 0; size = 4096; pages = [] }

abbrev with_args : (rdi rsi : ℕ) → TrapFrame
with_args rdi rsi = record { rax = 0; rdi = rdi; rsi = rsi; rdx = 0; rcx = 0; r8 = 0; r9 = 0 }

second_arg : (p : ℕ) → fetcharg (with_args 3 p) 1 ≡ ok p
unfolding fetcharg
second_arg p = refl

argptr_iff_example :
    (argptr (with_args 3 4000) (page ∷ []) 1 95 ≡ ok (some 4000)) ↔ Accessible (page ∷ []) 4000 95
argptr_iff_example =
    argptr_iff (with_args 3 4000) (page ∷ []) 1 95 4000 (omega arith) (second_arg 4000)
      (omega arith)

-- The address of a page of the kernel.
abbrev kernel_pointer : ℕ
kernel_pointer = kernbase + 8192

argptr_wraps_example :
    argptr (with_args 3 kernel_pointer) (page ∷ []) 1 (2 ^ 64 - kernel_pointer)
    ≡ ok (some kernel_pointer)
argptr_wraps_example =
    argptr_wraps (with_args 3 kernel_pointer) (page ∷ []) 1 kernel_pointer 0 page
      (second_arg kernel_pointer) (omega arith) (omega arith) refl (omega arith) (omega arith)

abbrev with_string : Memory
with_string a = if a == 100 then 97 else if a == 101 then 98 else 0

fetchstr_ab : fetchstr with_string (page ∷ []) 100 ≡ some 2
unfolding fetchstr string_length?
fetchstr_ab = refl
