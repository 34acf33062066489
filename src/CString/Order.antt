-- ===== src/CString/Order.antt =====
-- memcmp and strncmp, kernel/string.c.
use microkernal.Common.{
  Bool-cases, add64, ap, arith, eq_of_==, inl, inr, ne_of_==, refl, sub32, suc, zero, ℕ, ◌+◌, ◌<◌,
  ◌==◌, ◌^◌, ◌↔◌, ◌∙◌, ◌≡◌, ◌≢◌,
}
use microkernal.CString.{Memory, memcmp, strncmp}

-- Every byte of the memory is below 256.
abbrev pub IsBytes : Memory → Type 0
IsBytes mem = (a : ℕ) → mem a < 256

-- The two areas of `n` bytes hold the same.
abbrev pub Same : Memory → (p q n : ℕ) → Type 0
Same mem p q n = (i : ℕ) → i < n → mem (p + i) ≡ mem (q + i)

-- The two strings agree in the first `n` characters, or up to the NUL that ends both.
abbrev pub SameString : Memory → (p q n : ℕ) → Type 0
SameString mem p q n =
    (i : ℕ) → i < n → ((j : ℕ) → j < i → mem (p + j) ≢ 0) → mem (p + i) ≡ mem (q + i)

sub32-ne-zero : (a b : ℕ) → a < 256 → b < 256 → a ≢ b → sub32 a b ≢ 0
sub32-ne-zero a b ha hb n e = n (omega arith)

module _ (mem : Memory) (p q n : ℕ) where
  Same-first : Same mem p q (suc n) → mem p ≡ mem q
  Same-first h = ap mem (omega arith) ∙ h 0 (omega arith) ∙ ap mem (omega arith)

  Same-rest : Same mem p q (suc n) → Same mem (suc p) (suc q) n
  Same-rest h i l = ap mem (omega arith) ∙ h (suc i) (omega arith) ∙ ap mem (omega arith)

  Same-cons : mem p ≡ mem q → Same mem (suc p) (suc q) n → Same mem p q (suc n)
  Same-cons e h zero l = ap mem (omega arith) ∙ e ∙ ap mem (omega arith)
  Same-cons e h (suc i) l = ap mem (omega arith) ∙ h i (omega arith) ∙ ap mem (omega arith)

  SameString-first : SameString mem p q (suc n) → mem p ≡ mem q
  SameString-first h =
      ap mem (omega arith) ∙ h 0 (omega arith) (λ j l. elim l [ ]) ∙ ap mem (omega arith)

  SameString-rest : mem p ≢ 0 → SameString mem p q (suc n) → SameString mem (suc p) (suc q) n
  SameString-rest live h i l before =
      ap mem (omega arith) ∙ h (suc i) (omega arith) before' ∙ ap mem (omega arith)
    where
      before' : (j : ℕ) → j < suc i → mem (p + j) ≢ 0
      before' zero l e = live (ap mem (omega arith) ∙ e)
      before' (suc j) l e = before j (omega arith) (ap mem (omega arith) ∙ e)

  SameString-cons :
      mem p ≡ mem q → (mem p ≢ 0 → SameString mem (suc p) (suc q) n) → SameString mem p q (suc n)
  SameString-cons e h zero l before = ap mem (omega arith) ∙ e ∙ ap mem (omega arith)
  SameString-cons e h (suc i) l before =
      ap mem (omega arith)
      ∙ h (λ z. before 0 (omega arith) (ap mem (omega arith) ∙ z)) i (omega arith)
          (λ j k z. before (suc j) (omega arith) (ap mem (omega arith) ∙ z))
      ∙ ap mem (omega arith)

-- `memcmp` is 0 exactly when the two areas hold the same bytes; neither area may wrap around.
pub memcmp_iff :
    (mem : Memory) (p q n : ℕ)
    → IsBytes mem
    → p + n < 2 ^ 64
    → q + n < 2 ^ 64
    → (memcmp mem p q n ≡ 0) ↔ Same mem p q n
unfolding memcmp
memcmp_iff mem p q zero b hp hq = (λ e i l. elim l [ ], λ h. refl)
memcmp_iff mem p q (suc n) b hp hq =
    let ep : add64 p 1 ≡ suc p = omega arith in
    let eq : add64 q 1 ≡ suc q = omega arith in
    let (to, from) = memcmp_iff mem (suc p) (suc q) n b (omega arith) (omega arith) in
    rw (ep, eq)
      (elim (Bool-cases (mem p == mem q)) [
        | inl e ↦ rw e (
          λ z. Same-cons mem p q n (eq_of_== (mem p) (mem q) e) (to z),
          λ h. from (Same-rest mem p q n h),
        )
        | inr e ↦
            let ne = ne_of_== (mem p) (mem q) e in
            rw e (
              λ z. absurd (sub32-ne-zero (mem p) (mem q) (b p) (b q) ne z),
              λ h. absurd (ne (Same-first mem p q n h)),
            )
      ])

-- `strncmp` is 0 exactly when the two strings agree in the first `n` characters or up to their
-- common NUL; what lies behind the NUL has no say. Neither area may wrap around.
pub strncmp_iff :
    (mem : Memory) (p q n : ℕ)
    → IsBytes mem
    → p + n < 2 ^ 64
    → q + n < 2 ^ 64
    → (strncmp mem p q n ≡ 0) ↔ SameString mem p q n
unfolding strncmp
strncmp_iff mem p q zero b hp hq = (λ e i l. elim l [ ], λ h. refl)
strncmp_iff mem p q (suc n) b hp hq =
    let ep : add64 p 1 ≡ suc p = omega arith in
    let eq : add64 q 1 ≡ suc q = omega arith in
    let (to, from) = strncmp_iff mem (suc p) (suc q) n b (omega arith) (omega arith) in
    rw (ep, eq)
      (elim (Bool-cases (mem p == 0)) [
        | inl z ↦ rw z (
          λ r. SameString-cons mem p q n (equal r) (λ live. absurd (live (eq_of_== (mem p) 0 z))),
          λ h. same_zero (SameString-first mem p q n h),
        )
        | inr z ↦ rw z (elim (Bool-cases (mem p == mem q)) [
          | inl e ↦ rw e (
            λ r. SameString-cons mem p q n (eq_of_== (mem p) (mem q) e) (λ live. to r),
            λ h. from (SameString-rest mem p q n (ne_of_== (mem p) 0 z) h),
          )
          | inr e ↦
              let ne = ne_of_== (mem p) (mem q) e in
              rw e (
                λ r. absurd (sub32-ne-zero (mem p) (mem q) (b p) (b q) ne r),
                λ h. absurd (ne (SameString-first mem p q n h)),
              )
        ])
      ])
  where
    equal : sub32 (mem p) (mem q) ≡ 0 → mem p ≡ mem q
    equal r = omega (arith, b p, b q)

    same_zero : mem p ≡ mem q → sub32 (mem p) (mem q) ≡ 0
    same_zero e = omega (arith, b p, b q)
