-- ===== src/CString.antt =====
-- kernel/string.c and the string functions of user/ulib.c, on a memory of bytes. Pointers are 64-bit
-- words; characters are bytes, as every comparison of the code reads them.
pub mod Copy
pub mod Move
pub mod Order
mod Tests
use microkernal.Common.{
  add64, false, if◌then◌else◌, ltb, not, sub32, sub64, suc, true, zero, ℕ, ◌&&◌, ◌==◌,
}

abbrev pub Memory : Type 0
Memory = ℕ → ℕ

abbrev pub store : Memory → ℕ → ℕ → Memory
store mem d x a = if a == d then x else mem a

-- `while (n-- > 0) *d++ = *s++;`
unfoldable pub copy_up : Memory → (d s n : ℕ) → Memory
copy_up mem d s zero = mem
copy_up mem d s (suc n) = copy_up (store mem d (mem s)) (add64 d 1) (add64 s 1) n

-- `while (n-- > 0) *--d = *--s;`
unfoldable pub copy_down : Memory → (d s n : ℕ) → Memory
copy_down mem d s zero = mem
copy_down mem d s (suc n) =
    copy_down (store mem (sub64 d 1) (mem (sub64 s 1))) (sub64 d 1) (sub64 s 1) n

unfoldable pub memmove : Memory → (dst src n : ℕ) → Memory
unfolding copy_up copy_down
memmove mem dst src n =
    if ltb src dst && ltb dst (add64 src n)
    then copy_down mem (add64 dst n) (add64 src n) n
    else copy_up mem dst src n

-- An `int` difference of two bytes.
unfoldable pub memcmp : Memory → (v1 v2 n : ℕ) → ℕ
memcmp mem s1 s2 zero = 0
memcmp mem s1 s2 (suc n) =
    let rest = memcmp mem (add64 s1 1) (add64 s2 1) n in
    if mem s1 == mem s2 then rest else sub32 (mem s1) (mem s2)

-- The loop goes on while bytes are left, `*p` is not NUL and the characters agree.
unfoldable pub strncmp : Memory → (p q n : ℕ) → ℕ
strncmp mem p q zero = 0
strncmp mem p q (suc n) =
    let rest = strncmp mem (add64 p 1) (add64 q 1) n in
    if not (mem p == 0) && mem p == mem q then rest else sub32 (mem p) (mem q)

-- `while (n-- > 0) *s++ = 0;`
unfoldable pub pad : Memory → (s n : ℕ) → Memory
pad mem s zero = mem
pad mem s (suc n) = pad (store mem s 0) (add64 s 1) n

-- `n` characters to go. After the NUL is copied, the rest is padded; `n` is not negative here.
unfoldable pub strncpy : Memory → (s t n : ℕ) → Memory
unfolding pad
strncpy mem s t zero = mem
strncpy mem s t (suc n) = elim (mem t == 0) [
  | true ↦ pad (store mem s (mem t)) (add64 s 1) n
  | false ↦ strncpy (store mem s (mem t)) (add64 s 1) (add64 t 1) n
]

-- The loop of `safestrcpy`, where `n` is the number of characters that it may still copy, and the
-- NUL behind it.
unfoldable pub copy_string : Memory → (s t n : ℕ) → Memory
copy_string mem s t zero = store mem s 0
copy_string mem s t (suc n) = elim (mem t == 0) [
  | true ↦ store (store mem s (mem t)) (add64 s 1) 0
  | false ↦ copy_string (store mem s (mem t)) (add64 s 1) (add64 t 1) n
]

-- `n` is not negative.
unfoldable pub safestrcpy : Memory → (s t n : ℕ) → Memory
unfolding copy_string
safestrcpy mem s t zero = mem
safestrcpy mem s t (suc n) = copy_string mem s t n
