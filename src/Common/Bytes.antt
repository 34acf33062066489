-- ===== src/Common/Bytes.antt =====
-- Copies of bytes into an array.
use Prim.Native.Nat.{ℕ, zero, suc, ◌+◌, ◌-◌, ◌≤◌}
use mathlib.Core.Path.{◌≡◌, refl, ◌∙◌}
use mathlib.Core.Logic.{inl, inr}
use mathlib.Core.Bool.{◌&&◌}
use mathlib.Core.List.{List}
use native.Mathlib.Omega.{arith}
use microkernal.Common.Compare.{◌==◌, if◌then◌else◌, leb, ltb, Bool-cases}
use microkernal.Common.Lists.{get_or, set, length, length-set}
use microkernal.Common.Scan.{get_or-set}

-- `memmove` of `n` bytes to an array, from byte `off` on.
unfoldable pub copy_in : List ℕ → (off n : ℕ) → (ℕ → ℕ) → List ℕ
copy_in xs off zero bytes = xs
copy_in xs off (suc n) bytes = copy_in (set xs off (bytes 0)) (suc off) n (λ j. bytes (suc j))

pub length-copy_in :
    (xs : List ℕ) (off n : ℕ) (bytes : ℕ → ℕ) → length (copy_in xs off n bytes) ≡ length xs
unfolding copy_in
length-copy_in xs off zero bytes = refl
length-copy_in xs off (suc n) bytes =
    length-copy_in (set xs off (bytes 0)) (suc off) n (λ j. bytes (suc j))
    ∙ length-set xs off (bytes 0)

-- The bytes of an array after a copy that fits.
pub get_or-copy_in :
    (xs : List ℕ) (off n : ℕ) (bytes : ℕ → ℕ) (j : ℕ)
    → off + n ≤ length xs
    → get_or (copy_in xs off n bytes) j 0
      ≡ (if leb off j && ltb j (off + n) then bytes (j - off) else get_or xs j 0)
unfolding copy_in
get_or-copy_in xs off zero bytes j fits = ground arith
get_or-copy_in xs off (suc n) bytes j fits =
    let p = set xs off (bytes 0) in
    let t =
      get_or-copy_in p (suc off) n (λ i. bytes (suc i)) j
        (omega (arith, length-set xs off (bytes 0))) in
    let g = get_or-set xs off j (bytes 0) 0 (omega arith) in
    elim (Bool-cases (leb (suc off) j)) [
      | inl e ↦
          let z : suc (j - suc off) ≡ j - off = ground arith in rw t (rw g (rw z (ground arith)))
      | inr e ↦ elim (Bool-cases (off == j)) [
        | inl q ↦ let z : j - off ≡ 0 = ground arith in rw t (rw g (rw z (ground arith)))
        | inr q ↦ rw t (rw g (ground arith))
      ]
    ]
