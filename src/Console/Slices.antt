-- ===== src/Console/Slices.antt =====
-- The characters of the console's ring buffer from a counter on.
use microkernal.Common.{
  List, [], add32, ap, ap₂, arith, false, get_or, get_or-set, length, refl, set, sub32, suc, zero,
  ℕ, ◌%◌, ◌++◌, ◌+◌, ◌<◌, ◌==◌, ◌^◌, ◌∙◌, ◌∷◌, ◌≡◌, ◌≤◌,
}

-- `n` characters from counter `i` on.
unfoldable pub slice : List ℕ → (i n : ℕ) → List ℕ
slice b i zero = []
slice b i (suc n) = get_or b (i % 128) 0 ∷ slice b (add32 i 1) n

pub length-slice : (b : List ℕ) (i n : ℕ) → length (slice b i n) ≡ n
unfolding slice
length-slice b i zero = refl
length-slice b i (suc n) = ap suc (length-slice b (add32 i 1) n)

pub slice-append :
    (b : List ℕ) (i n m : ℕ) → i < 2 ^ 32 → slice b i (n + m) ≡ slice b i n ++ slice b (add32 i n) m
unfolding slice
slice-append b i zero m h =
    let z : 0 + m ≡ m = omega arith in let y : add32 i 0 ≡ i = omega arith in rw z (rw y refl)
slice-append b i (suc n) m h =
    let z : suc n + m ≡ suc (n + m) = omega arith in
    let y : add32 i (suc n) ≡ add32 (add32 i 1) n = omega arith in
    rw z (rw y (ap (◌∷◌ (get_or b (i % 128) 0)) (slice-append b (add32 i 1) n m (omega arith))))

pub slice-snoc :
    (b : List ℕ) (i n : ℕ)
    → i < 2 ^ 32
    → slice b i (suc n) ≡ slice b i n ++ (get_or b (add32 i n % 128) 0 ∷ [])
unfolding slice
slice-snoc b i n h =
    let z : suc n ≡ n + 1 = omega arith in ap (slice b i) z ∙ slice-append b i n 1 h

-- A write behind the slice, less than a whole buffer from its start, leaves it.
pub slice-set :
    (b : List ℕ) (i n j c : ℕ)
    → length b ≡ 128
    → i < 2 ^ 32
    → j < 2 ^ 32
    → n ≤ sub32 j i
    → sub32 j i < 128
    → slice (set b (j % 128) c) i n ≡ slice b i n
unfolding slice
slice-set b i zero j c sized hi hj le lt = refl
slice-set b i (suc n) j c sized hi hj le lt =
    let far : (j % 128 == i % 128) ≡ false = ground arith in
    let here : get_or (set b (j % 128) c) (i % 128) 0 ≡ get_or b (i % 128) 0 =
      get_or-set b (j % 128) (i % 128) c 0 (omega arith) ∙ rw far refl in
    ap₂ ◌∷◌ here (slice-set b (add32 i 1) n j c sized (omega arith) hj (omega arith) (omega arith))
