-- ===== src/Common/Scan.antt =====
-- The linear scans of the kernel's tables: the first entry that passes a test, and how many do.
use Prim.Native.Nat.{ℕ, zero, suc, ◌+◌, ◌≤◌, ◌<◌}
use mathlib.Core.Path.{◌≡◌, refl, subst}
use mathlib.Core.Bool.{Bool, true, false}
use mathlib.Core.List.{List, [], ◌∷◌}
use mathlib.Core.Option
use mathlib.Core.Option.{Option, none, some}
use native.Mathlib.Omega.{arith}
use microkernal.Common.Compare.{◌==◌, if◌then◌else◌, bit, Bool-cases, Option-cases}
use mathlib.Core.Logic.{inl, inr, ◌↔◌}
use microkernal.Common.Lists.{get_or, get_elem?, set, length}

module _ {ℓ} {A : Type ℓ} (p : A → Bool) where
  -- The index of the first entry that passes.
  unfoldable pub find_index? : List A → Option ℕ
  find_index? [] = none
  find_index? (x ∷ xs) = if p x then some 0 else Option.map suc (find_index? xs)

  unfoldable pub count_if : List A → ℕ
  count_if [] = 0
  count_if (x ∷ xs) = bit (p x) + count_if xs

  -- Entry `i` is the first that passes.
  abbrev pub IsFirst : List A → ℕ → Type ℓ
  IsFirst xs i =
      (x : A) × (get_elem? xs i ≡ some x)
      × (p x ≡ true)
      × ((j : ℕ) (y : A) → j < i → get_elem? xs j ≡ some y → p y ≡ false)

  IsFirst-cons :
      (x : A) (xs : List A) (i : ℕ) → p x ≡ false → IsFirst xs i → IsFirst (x ∷ xs) (suc i)
  IsFirst-cons x xs i e (y, at, pass, before) = (y, at, pass, early)
    where
      early : (j : ℕ) (z : A) → j < suc i → get_elem? (x ∷ xs) j ≡ some z → p z ≡ false
      early zero z h q = ground arith
      early (suc j) z h q = before j z (omega arith) q

  -- A scan that finds an entry finds the first.
  pub find_index?-some : (xs : List A) (i : ℕ) → find_index? xs ≡ some i → IsFirst xs i
  unfolding find_index?
  find_index?-some [] i h = cc
  find_index?-some (x ∷ xs) i h = elim (Bool-cases (p x)) [
    | inl e ↦
        let z : 0 ≡ i = ground arith in
        subst (IsFirst (x ∷ xs)) z (x, refl, e, λ j y l q. elim l [ ])
    | inr e ↦ elim (Option-cases (find_index? xs)) [
      | inl n ↦ absurd (ground arith)
      | inr (k, q) ↦
          let z : suc k ≡ i = ground arith in
          subst (IsFirst (x ∷ xs)) z (IsFirst-cons x xs k e (find_index?-some xs k q))
    ]
  ]

  -- A scan that finds nothing has seen every entry fail.
  pub find_index?-none :
      (xs : List A) (j : ℕ) (y : A) → find_index? xs ≡ none → get_elem? xs j ≡ some y → p y ≡ false
  unfolding find_index?
  find_index?-none [] j y h q = cc
  find_index?-none (x ∷ xs) zero y h q = ground arith
  find_index?-none (x ∷ xs) (suc j) y h q =
      find_index?-none xs j y (ground (arith, Option-cases (find_index? xs))) q

  -- Some entry passes, so the scan finds one.
  pub find_index?-found :
      (xs : List A) (j : ℕ) (y : A)
      → get_elem? xs j ≡ some y
      → p y ≡ true
      → (i : ℕ) × (find_index? xs ≡ some i)
  find_index?-found xs j y q pass = elim (Option-cases (find_index? xs)) [
    | inl n ↦ absurd (ground (arith, find_index?-none xs j y n q))
    | inr f ↦ f
  ]

  pub count_if-le-length : (xs : List A) → count_if xs ≤ length xs
  unfolding count_if
  count_if-le-length [] = omega arith
  count_if-le-length (x ∷ xs) = ground (arith, count_if-le-length xs)

  -- One write changes a count by the entry that it replaces.
  pub count_if-set :
      (xs : List A) (i : ℕ) (v x : A)
      → get_elem? xs i ≡ some x
      → count_if (set xs i v) + bit (p x) ≡ count_if xs + bit (p v)
  unfolding count_if
  count_if-set [] i v x h = cc
  count_if-set (y ∷ xs) zero v x h = let e : y ≡ x = ground arith in rw e (omega arith)
  count_if-set (y ∷ xs) (suc i) v x h = omega (arith, count_if-set xs i v x h)

  -- A scan finds nothing exactly when the count is zero.
  pub find_index?-count : (xs : List A) → (find_index? xs ≡ none) ↔ (count_if xs ≡ 0)
  unfolding find_index? count_if
  find_index?-count [] = (λ h. refl, λ h. refl)
  find_index?-count (x ∷ xs) = ground (arith, find_index?-count xs)

  pub count_if-eq-zero :
      (xs : List A) → ((j : ℕ) (y : A) → get_elem? xs j ≡ some y → p y ≡ false) → count_if xs ≡ 0
  unfolding count_if
  count_if-eq-zero [] h = refl
  count_if-eq-zero (x ∷ xs) h =
      rw (h 0 x refl) (omega (arith, count_if-eq-zero xs (λ j. h (suc j))))

  -- Where an entry passes, the count is positive.
  pub count_if-pos :
      (xs : List A) (j : ℕ) (y : A) → get_elem? xs j ≡ some y → p y ≡ true → 0 < count_if xs
  unfolding count_if
  count_if-pos [] j y q h = cc
  count_if-pos (x ∷ xs) zero y q h = ground arith
  count_if-pos (x ∷ xs) (suc j) y q h = omega (arith, count_if-pos xs j y q h)

-- Reading after a write, with the test in the statement.
pub get_elem?-set {ℓ} :
    {A : Type ℓ} (xs : List A) (i j : ℕ) (v x : A)
    → get_elem? xs i ≡ some x
    → get_elem? (set xs i v) j ≡ (if i == j then some v else get_elem? xs j)
get_elem?-set [] i j v x h = cc
get_elem?-set (y ∷ xs) zero zero v x h = refl
get_elem?-set (y ∷ xs) zero (suc j) v x h = ground arith
get_elem?-set (y ∷ xs) (suc i) zero v x h = ground arith
get_elem?-set (y ∷ xs) (suc i) (suc j) v x h = ground (arith, get_elem?-set xs i j v x h)

pub get_or-set {ℓ} :
    {A : Type ℓ} (xs : List A) (i j : ℕ) (v d : A)
    → i < length xs
    → get_or (set xs i v) j d ≡ (if i == j then v else get_or xs j d)
get_or-set [] i j v d h = elim h [ ]
get_or-set (x ∷ xs) zero zero v d h = refl
get_or-set (x ∷ xs) zero (suc j) v d h = ground arith
get_or-set (x ∷ xs) (suc i) zero v d h = ground arith
get_or-set (x ∷ xs) (suc i) (suc j) v d h = ground (arith, get_or-set xs i j v d)
