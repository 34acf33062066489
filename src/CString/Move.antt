-- ===== src/CString/Move.antt =====
-- memmove, kernel/string.c, also where its two areas overlap.
use microkernal.Common.{
  ==-of_ne, ==-refl, Bool-cases, add64, ap, arith, eq_of_==, inl, inr, ltb, ne_of_==, refl, sub64,
  suc, zero, ℕ, ◌&&◌, ◌+◌, ◌-◌, ◌<◌, ◌==◌, ◌^◌, ◌∙◌, ◌≡◌, ◌≢◌, ◌≤◌, ◌⊎◌,
}
use microkernal.CString.{Memory, store, copy_up, copy_down, memmove}

-- The memory after `n` bytes from `s` on have been moved to `d`.
abbrev pub Moved : Memory → (d s n : ℕ) → Memory → Type 0
Moved mem d s n after =
    (a : ℕ)
    → (d ≤ a → a < d + n → after a ≡ mem (s + (a - d))) × ((a < d) ⊎ (d + n ≤ a) → after a ≡ mem a)

pub store_self : (mem : Memory) (d x : ℕ) → store mem d x d ≡ x
store_self mem d x = rw (==-refl d)

pub store-ne : (mem : Memory) (d x a : ℕ) → a ≢ d → store mem d x a ≡ mem a
store-ne mem d x a h = rw (==-of_ne a d h)

-- The lowest byte first: what is read later is not overwritten.
first_byte :
    (mem after : Memory) (d s n : ℕ)
    → (d ≤ s) ⊎ (s + suc n ≤ d)
    → Moved (store mem d (mem s)) (suc d) (suc s) n after
    → Moved mem d s (suc n) after
first_byte mem after d s n apart later a = (inside, outside)
  where
    unread : d < a → a < d + suc n → suc s + (a - suc d) ≢ d
    unread lo hi e = elim apart [ inl h ↦ omega arith | inr h ↦ omega arith ]

    inside : d ≤ a → a < d + suc n → after a ≡ mem (s + (a - d))
    inside lo hi = elim (Bool-cases (a == d)) [
      | inl e ↦
          let z : a ≡ d = eq_of_== a d e in
          (later a).1 (inl (omega arith)) ∙ rw e (ap mem (omega arith))
      | inr e ↦
          let above : d < a = omega (arith, ne_of_== a d e) in
          (later a).0 above (omega arith)
          ∙ store-ne mem d (mem s) (suc s + (a - suc d)) (unread above hi)
          ∙ ap mem (omega arith)
    ]

    outside : ((a < d) ⊎ (d + suc n ≤ a)) → after a ≡ mem a
    outside h =
        (later a).1 (elim h [ inl b ↦ inl (omega arith) | inr b ↦ inr (omega arith) ])
        ∙ store-ne mem d (mem s) a (omega arith)

-- The highest byte first.
last_byte :
    (mem after : Memory) (d s n : ℕ)
    → s < d
    → Moved (store mem (d + n) (mem (s + n))) d s n after
    → Moved mem d s (suc n) after
last_byte mem after d s n below later a = (inside, outside)
  where
    inside : d ≤ a → a < d + suc n → after a ≡ mem (s + (a - d))
    inside lo hi = elim (Bool-cases (a == d + n)) [
      | inl e ↦
          let z : a ≡ d + n = eq_of_== a (d + n) e in
          (later a).1 (inr (omega arith)) ∙ rw e (ap mem (omega arith))
      | inr e ↦
          let under : a < d + n = omega (arith, ne_of_== a (d + n) e) in
          (later a).0 lo under ∙ store-ne mem (d + n) (mem (s + n)) (s + (a - d)) (omega arith)
    ]

    outside : ((a < d) ⊎ (d + suc n ≤ a)) → after a ≡ mem a
    outside h =
        (later a).1 (elim h [ inl b ↦ inl (omega arith) | inr b ↦ inr (omega arith) ])
        ∙ store-ne mem (d + n) (mem (s + n)) a (omega arith)

copy_up-Moved :
    (mem : Memory) (d s n : ℕ)
    → d + n < 2 ^ 64
    → s + n < 2 ^ 64
    → (d ≤ s) ⊎ (s + n ≤ d)
    → Moved mem d s n (copy_up mem d s n)
unfolding copy_up
copy_up-Moved mem d s zero hd hs apart = λ a. (λ lo hi. absurd (omega arith), λ h. refl)
copy_up-Moved mem d s (suc n) hd hs apart =
    let ed : add64 d 1 ≡ suc d = omega arith in
    let es : add64 s 1 ≡ suc s = omega arith in
    let apart' : (suc d ≤ suc s) ⊎ (suc s + n ≤ suc d) = elim apart [
      | inl h ↦ inl (omega arith)
      | inr h ↦ inr (omega arith)
    ] in
    rw (ed, es)
      (first_byte mem (copy_up (store mem d (mem s)) (suc d) (suc s) n) d s n apart
        (copy_up-Moved (store mem d (mem s)) (suc d) (suc s) n (omega arith) (omega arith) apart'))

copy_down-Moved :
    (mem : Memory) (d s n : ℕ)
    → d + n < 2 ^ 64
    → s < d
    → Moved mem d s n (copy_down mem (d + n) (s + n) n)
unfolding copy_down
copy_down-Moved mem d s zero hd below = λ a. (λ lo hi. absurd (omega arith), λ h. refl)
copy_down-Moved mem d s (suc n) hd below =
    let ed : sub64 (d + suc n) 1 ≡ d + n = omega arith in
    let es : sub64 (s + suc n) 1 ≡ s + n = omega arith in
    rw (ed, es)
      (last_byte mem (copy_down (store mem (d + n) (mem (s + n))) (d + n) (s + n) n) d s n below
        (copy_down-Moved (store mem (d + n) (mem (s + n))) d s n (omega arith) below))

-- `memmove` leaves in the destination the bytes that the source held before the call, whether the
-- areas overlap or not, and changes no other byte; neither area may wrap around.
pub memmove-Moved :
    (mem : Memory) (dst src n : ℕ)
    → dst + n < 2 ^ 64
    → src + n < 2 ^ 64
    → Moved mem dst src n (memmove mem dst src n)
unfolding memmove
memmove-Moved mem dst src n hd hs = elim (Bool-cases (ltb src dst && ltb dst (add64 src n))) [
  | inl e ↦
      let ed : add64 dst n ≡ dst + n = omega arith in
      let es : add64 src n ≡ src + n = omega arith in
      let below : src < dst = ground arith in
      rw (e, ed, es) (copy_down-Moved mem dst src n hd below)
  | inr e ↦
      let apart : (dst ≤ src) ⊎ (src + n ≤ dst) = ground arith in
      rw e (copy_up-Moved mem dst src n hd hs apart)
]
