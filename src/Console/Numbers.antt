-- ===== src/Console/Numbers.antt =====
-- The numbers that kernel/console.c prints, read back.
use native.Mathlib.Nat.{
  div-eq_of_lt, div-lt_iff_lt-mul, mod-add-div, mod-eq_of_lt, mod-lt, one-mul, pow-suc, pow-zero,
  two-pow-succ,
}
use mathlib.Core.List.{reverse, reverse-append}
use microkernal.Common.{
  Bool, Bool-cases, List, [], ap, arith, if◌then◌else◌, inl, inr, leb, length, length-append, ltb,
  refl, subst, suc, true, zero, ℕ, ◌%◌, ◌&&◌, ◌*◌, ◌++◌, ◌+◌, ◌-◌, ◌/◌, ◌<◌, ◌==◌, ◌^◌, ◌∙◌, ◌∷◌,
  ◌≡◌, ◌≢◌, ◌≤◌, ◌⊎◌,
}
use microkernal.Console.{digit, digits_from, int_buffer, minus_sign, printint, printint64}

abbrev pub undigit : ℕ → ℕ
undigit c = if ltb c 97 then c - 48 else c - 87

-- The value of digits with the lowest first.
unfoldable pub low_first : (base : ℕ) → List ℕ → ℕ
low_first base [] = 0
low_first base (c ∷ cs) = undigit c + base * low_first base cs

undigit-digit : (d : ℕ) → d < 16 → undigit (digit d) ≡ d
undigit-digit d h = ground arith

-- A character that stands for a digit of the base.
abbrev pub IsDigit : (base c : ℕ) → Type 0
IsDigit base c = (undigit c < base) × (digit (undigit c) ≡ c)

abbrev pub AreDigits : (base : ℕ) → List ℕ → Type 0
AreDigits base [] = Unit
AreDigits base (c ∷ cs) = IsDigit base c × AreDigits base cs

-- There is a highest digit, and it is not '0'.
abbrev pub HasTop : List ℕ → Type 0
HasTop [] = ⊥
HasTop (c ∷ []) = c ≢ 48
HasTop (c ∷ d ∷ ds) = HasTop (d ∷ ds)

-- The digits of a number of the base, with the lowest first.
abbrev pub Spells : (base x : ℕ) → List ℕ → Type 0
Spells base x ds = AreDigits base ds × (low_first base ds ≡ x)

-- They are those that one writes: "0" for 0, and else no leading zero.
abbrev pub Writes : (base x : ℕ) → List ℕ → Type 0
Writes base x ds = Spells base x ds × ((x ≡ 0) × (ds ≡ 48 ∷ []) ⊎ (0 < x) × HasTop ds)

digit-IsDigit : (base d : ℕ) → d < base → base ≤ 16 → IsDigit base (digit d)
digit-IsDigit base d h small = let e = undigit-digit d (omega arith) in (rw e h, ap digit e)

one_digit : (base x : ℕ) → x < base ^ 1 → x < base
one_digit base x h =
    subst (λ n. x < n) (pow-suc base 0 ∙ ap (λ m. m * base) (pow-zero base) ∙ one-mul base) h

shorter : (base k x : ℕ) → 1 < base → x < base ^ suc (suc k) → x / base < base ^ suc k
shorter base k x big h =
    (div-lt_iff_lt-mul {k = base} {x = x} (omega arith)).1
      (subst (λ n. x < n) (pow-suc base (suc k)) h)

digits_from-Spells :
    (base fuel x : ℕ)
    → 1 < base
    → base ≤ 16
    → x < base ^ suc fuel
    → Spells base x (digits_from (suc fuel) base x)
unfolding digits_from low_first
digits_from-Spells base zero x big small h =
    let lt : x < base = one_digit base x h in
    let r : x % base ≡ x = mod-eq_of_lt lt in
    let z : base * 0 ≡ 0 = omega arith in
    elim (Bool-cases (x / base == 0)) [
      | inl e ↦ rw e (
        (digit-IsDigit base (x % base) (rw r lt) small, tt),
        rw (undigit-digit (x % base) (omega (arith, r))) (omega (arith, r, z)),
      )
      | inr e ↦ rw e (
        (digit-IsDigit base (x % base) (rw r lt) small, tt),
        rw (undigit-digit (x % base) (omega (arith, r))) (omega (arith, r, z)),
      )
    ]
digits_from-Spells base (suc fuel) x big small h =
    let lt : x % base < base = mod-lt x (omega arith) in
    let parts : x % base + base * (x / base) ≡ x = mod-add-div x base in
    let z : base * 0 ≡ 0 = omega arith in
    let (ds, v) = digits_from-Spells base fuel (x / base) big small (shorter base fuel x big h) in
    elim (Bool-cases (x / base == 0)) [
      | inl e ↦
          let e' : x / base ≡ 0 = ground arith in
          rw e (
            (digit-IsDigit base (x % base) lt small, tt),
            rw (undigit-digit (x % base) (omega arith)) (rw e' at parts),
          )
      | inr e ↦ rw e (
        (digit-IsDigit base (x % base) lt small, ds),
        rw (undigit-digit (x % base) (omega arith)) (ap (λ m. x % base + base * m) v ∙ parts),
      )
    ]

digit-ne-zero : (d : ℕ) → 0 < d → d < 16 → digit d ≢ 48
digit-ne-zero d pos small e = ground arith

digits_from-HasTop :
    (base fuel x : ℕ)
    → 1 < base
    → base ≤ 16
    → x < base ^ suc fuel
    → 0 < x
    → HasTop (digits_from (suc fuel) base x)
unfolding digits_from
digits_from-HasTop base zero x big small h pos =
    let lt : x < base = one_digit base x h in
    let r : x % base ≡ x = mod-eq_of_lt lt in
    let ne : digit (x % base) ≢ 48 =
      digit-ne-zero (x % base) (omega (arith, r)) (omega (arith, r)) in
    elim (Bool-cases (x / base == 0)) [ inl e ↦ rw e ne | inr e ↦ rw e ne ]
digits_from-HasTop base (suc fuel) x big small h pos =
    let parts : x % base + base * (x / base) ≡ x = mod-add-div x base in
    let lt : x % base < base = mod-lt x (omega arith) in
    let z : base * 0 ≡ 0 = omega arith in
    elim (Bool-cases (x / base == 0)) [
      | inl e ↦
          let q : x / base ≡ 0 = ground arith in
          let r : x % base + base * 0 ≡ x = rw q at parts in
          let ne : digit (x % base) ≢ 48 =
            digit-ne-zero (x % base) (omega (arith, r, z)) (omega arith) in
          rw e ne
      | inr e ↦
          let ih =
            digits_from-HasTop base fuel (x / base) big small (shorter base fuel x big h)
              (ground (arith, e)) in
          rw e (pushed (digit (x % base)) (digits_from (suc fuel) base (x / base)) ih)
    ]
  where
    pushed : (c : ℕ) (ds : List ℕ) → HasTop ds → HasTop (c ∷ ds)
    pushed c [] t = absurd t
    pushed c (d ∷ ds) t = t

digits_from-zero : (base fuel : ℕ) → 1 < base → digits_from (suc fuel) base 0 ≡ 48 ∷ []
unfolding digits_from
digits_from-zero base fuel big =
    let q : 0 / base ≡ 0 = div-eq_of_lt (omega arith) in
    let r : 0 % base ≡ 0 = mod-eq_of_lt (omega arith) in
    let e : (0 / base == 0) ≡ true = rw q refl in rw e (rw r refl)

digits_from-Writes :
    (base fuel x : ℕ)
    → 1 < base
    → base ≤ 16
    → x < base ^ suc fuel
    → Writes base x (digits_from (suc fuel) base x)
digits_from-Writes base fuel zero big small h =
    (digits_from-Spells base fuel zero big small h, inl (refl, digits_from-zero base fuel big))
digits_from-Writes base fuel (suc x) big small h = (
  digits_from-Spells base fuel (suc x) big small h,
  inr (omega arith, digits_from-HasTop base fuel (suc x) big small h (omega arith)),
)

length-digits_from :
    (base k fuel x : ℕ) → 1 < base → x < base ^ suc k → length (digits_from fuel base x) ≤ suc k
unfolding digits_from
length-digits_from base k zero x big h = omega arith
length-digits_from base zero (suc fuel) x big h =
    let z : x / base ≡ 0 = div-eq_of_lt (one_digit base x h) in
    let z' : (x / base == 0) ≡ true = rw z refl in rw z' (omega arith)
length-digits_from base (suc k) (suc fuel) x big h =
    let ih = length-digits_from base k fuel (x / base) big (shorter base k x big h) in
    elim (Bool-cases (x / base == 0)) [ inl e ↦ rw e (omega arith) | inr e ↦ rw e (omega arith) ]

-- What a number of `bits` bits, read as signed or not, amounts to.
abbrev pub negative : (bits xx : ℕ) → (sign : Bool) → Bool
negative bits xx sign = sign && leb (2 ^ (bits - 1)) xx

abbrev pub magnitude : (bits xx : ℕ) → (sign : Bool) → ℕ
magnitude bits xx sign = if negative bits xx sign then 2 ^ bits - xx else xx

-- The text `cs` is a minus sign if `minus` says so, and the digits of `x`, the highest first. In `room`
-- characters there is space for what is collected.
abbrev pub Prints : (base x : ℕ) → (minus : Bool) → (room : ℕ) → (collected cs : List ℕ) → Type 0
Prints base x minus room collected cs =
    ((ds : List ℕ) × Writes base x ds
      × (cs ≡ (if minus then minus_sign ∷ [] else []) ++ reverse ds))
    × (length collected ≤ room)

pow-pos : (n : ℕ) → 0 < 2 ^ n
pow-pos zero = omega arith
pow-pos (suc n) = omega (arith, pow-pos n, two-pow-succ n)

int_buffer-Prints :
    (size bits base k xx : ℕ) (sign : Bool)
    → 1 < base
    → base ≤ 16
    → k + 2 ≤ suc size
    → 2 ^ bits ≤ base ^ suc k
    → 2 ^ bits ≤ base ^ suc size
    → xx < 2 ^ bits
    → Prints base
        (magnitude bits xx sign)
        (negative bits xx sign)
        (suc size)
        (int_buffer (suc size) bits base xx sign)
        (reverse (int_buffer (suc size) bits base xx sign))
unfolding int_buffer
int_buffer-Prints size bits base k xx sign big small room few fits h =
    elim (Bool-cases (negative bits xx sign)) [
      | inl e ↦
          let pos : 0 < 2 ^ (bits - 1) = pow-pos (bits - 1) in
          let some_bit : 2 ^ (bits - 1) ≤ xx = ground (arith, e) in
          let lt : 2 ^ bits - xx < 2 ^ bits = omega arith in
          let ds = digits_from (suc size) base (2 ^ bits - xx) in
          let n : length ds ≤ suc k =
            length-digits_from base k (suc size) (2 ^ bits - xx) big (omega arith) in
          rw e (
            (
              ds,
              digits_from-Writes base size (2 ^ bits - xx) big small (omega arith),
              reverse-append ds (minus_sign ∷ []),
            ),
            omega (arith, n, length-append ds (minus_sign ∷ [])),
          )
      | inr e ↦ rw e (
        (
          digits_from (suc size) base xx,
          digits_from-Writes base size xx big small (omega arith),
          refl,
        ),
        omega (arith, length-digits_from base k (suc size) xx big (omega arith)),
      )
    ]

-- `printint` in base 10 prints a 32-bit number, signed or not, as a minus sign where it is negative and
-- the decimal digits of its absolute value, that of -2³¹ included, "0" for 0 and else with no leading
-- zero; the 16 characters of `buf` suffice.
pub printint-Prints :
    (xx : ℕ) (sign : Bool)
    → xx < 2 ^ 32
    → Prints 10
        (magnitude 32 xx sign)
        (negative 32 xx sign)
        16
        (int_buffer 16 32 10 xx sign)
        (printint 10 xx sign)
unfolding printint
printint-Prints xx sign h =
    int_buffer-Prints 15 32 10 9 xx sign (omega arith) (omega arith) (omega arith) (omega arith)
      (omega arith) h

-- `printint64` in base 10 prints a 64-bit number, signed or not, as a minus sign where it is negative and
-- the decimal digits of its absolute value, that of -2⁶³ included; the 32 characters of `buf` suffice.
pub printint64-Prints :
    (xx : ℕ) (sign : Bool)
    → xx < 2 ^ 64
    → Prints 10
        (magnitude 64 xx sign)
        (negative 64 xx sign)
        32
        (int_buffer 32 64 10 xx sign)
        (printint64 10 xx sign)
unfolding printint64
printint64-Prints xx sign h =
    int_buffer-Prints 31 64 10 19 xx sign (omega arith) (omega arith) (omega arith) (omega arith)
      (omega arith) h
