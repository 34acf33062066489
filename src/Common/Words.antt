-- ===== src/Common/Words.antt =====
-- Machine words: unsigned arithmetic with its wrap-around, signed tests on bit patterns.
use Prim.Native.Nat.{ℕ, ◌+◌, ◌-◌, ◌*◌, ◌/◌, ◌%◌, ◌^◌}
use mathlib.Core.Bool.{Bool, ◌&&◌}
use microkernal.Common.Compare.{ltb, leb}

abbrev pub add32 : ℕ → ℕ → ℕ
add32 a b = (a + b) % 2 ^ 32

abbrev pub sub32 : ℕ → ℕ → ℕ
sub32 a b = (a + 2 ^ 32 - b) % 2 ^ 32

abbrev pub add64 : ℕ → ℕ → ℕ
add64 a b = (a + b) % 2 ^ 64

abbrev pub sub64 : ℕ → ℕ → ℕ
sub64 a b = (a + 2 ^ 64 - b) % 2 ^ 64

-- `x > n` on the `int` with bit pattern `x`, for `n` from 0 to INT_MAX.
abbrev pub gt_int : ℕ → ℕ → Bool
gt_int x n = ltb n x && ltb x (2 ^ 31)

-- `x < 0` on the `int` with bit pattern `x`.
abbrev pub is_neg : ℕ → Bool
is_neg x = leb (2 ^ 31) x

-- PGSIZE and the kernel's direct map of inc/mmu.h and inc/memlayout.h.
abbrev pub pgsize : ℕ
pgsize = 4096

abbrev pub kernbase : ℕ
kernbase = 0xFFFFFFFF80000000

abbrev pub v2p : ℕ → ℕ
v2p a = sub64 a kernbase

abbrev pub p2v : ℕ → ℕ
p2v a = add64 a kernbase

-- PGNUM
abbrev pub pgnum : ℕ → ℕ
pgnum a = a / 4096

-- The macros PGROUNDUP and PGROUNDDOWN on uint64_t.
abbrev pub pground_up : ℕ → ℕ
pground_up a = add64 a 4095 / 4096 * 4096

abbrev pub pground_down : ℕ → ℕ
pground_down a = a / 4096 * 4096
