-- ===== src/CString/Copy.antt =====
-- safestrcpy, kernel/string.c.
use microkernal.Common.{
  Bool-cases, add64, ap, arith, eq_of_==, inl, inr, ne_of_==, refl, suc, sym, zero, ℕ, ◌+◌, ◌<◌,
  ◌==◌, ◌^◌, ◌∙◌, ◌≡◌, ◌≢◌, ◌≤◌, ◌⊎◌,
}
use microkernal.CString.{Memory, store, copy_string, safestrcpy}
use microkernal.CString.Move.{store_self, store-ne}

-- In the `n + 1` bytes from `s` on, `after` holds a string: its NUL stands at `s + k`, behind `k`
-- characters of the source, none of them NUL; the source's own NUL is there or the room is used up.
-- No byte outside has changed.
pub record Holds (mem : Memory) (s t n : ℕ) (after : Memory) : Type 0 where
  pub k : ℕ
  pub fits : k ≤ n
  pub ended : after (s + k) ≡ 0
  pub copied : (i : ℕ) → i < k → (after (s + i) ≡ mem (t + i)) × (mem (t + i) ≢ 0)
  pub whole : (mem (t + k) ≡ 0) ⊎ (k ≡ n)
  pub outside : (a : ℕ) → (a < s) ⊎ (s + n < a) → after a ≡ mem a

-- The two areas do not overlap.
abbrev pub Apart : (s t n : ℕ) → Type 0
Apart s t n = (t + n ≤ s) ⊎ (s + n < t)

-- A source that ends at once: a NUL is copied, and a second one stored behind it.
empty-Holds :
    (mem : Memory) (s t n : ℕ)
    → mem t ≡ 0
    → Holds mem s t (suc n) (store (store mem s (mem t)) (suc s) 0)
empty-Holds mem s t n z = record {
  k = 0;
  fits = omega arith;
  ended =
      store-ne (store mem s (mem t)) (suc s) 0 (s + 0) (omega arith)
      ∙ ap (store mem s (mem t)) (omega arith)
      ∙ store_self mem s (mem t)
      ∙ z;
  copied = λ i l. elim l [ ];
  whole = inl (ap mem (omega arith) ∙ z);
  outside = λ a h.
      let (above, other) = away a h in
      store-ne (store mem s (mem t)) (suc s) 0 a above ∙ store-ne mem s (mem t) a other;
}
  where
    away : (a : ℕ) → ((a < s) ⊎ (s + suc n < a)) → (a ≢ suc s) × (a ≢ s)
    away a (inl h) = (λ e. omega arith, λ e. omega arith)
    away a (inr h) = (λ e. omega arith, λ e. omega arith)

full-Holds : (mem : Memory) (s t : ℕ) → Holds mem s t 0 (store mem s 0)
full-Holds mem s t = record {
  k = 0;
  fits = omega arith;
  ended = ap (store mem s 0) (omega arith) ∙ store_self mem s 0;
  copied = λ i l. elim l [ ];
  whole = inr refl;
  outside = λ a h. store-ne mem s 0 a (away a h);
}
  where
    away : (a : ℕ) → ((a < s) ⊎ (s + 0 < a)) → a ≢ s
    away a (inl h) e = omega arith
    away a (inr h) e = omega arith

-- One character is copied, and the rest from the next addresses on.
next-Holds :
    (mem after : Memory) (s t n : ℕ)
    → Apart s t (suc n)
    → mem t ≢ 0
    → Holds (store mem s (mem t)) (suc s) (suc t) n after
    → Holds mem s t (suc n) after
next-Holds mem after s t n apart live rest = record {
  k = suc rest.k;
  fits = omega (arith, rest.fits);
  ended = ap after (omega arith) ∙ rest.ended;
  copied = copied;
  whole = whole rest.whole;
  outside = λ a h.
      rest.outside a (elim h [ inl l ↦ inl (omega arith) | inr l ↦ inr (omega arith) ])
      ∙ store-ne mem s (mem t) a (away a h);
}
  where
    away : (a : ℕ) → ((a < s) ⊎ (s + suc n < a)) → a ≢ s
    away a (inl h) e = omega arith
    away a (inr h) e = omega arith

    unwritten : (i : ℕ) → i < n → suc t + i ≢ s
    unwritten i l e = elim apart [ inl h ↦ omega arith | inr h ↦ omega arith ]

    same : (i : ℕ) → i < n → store mem s (mem t) (suc t + i) ≡ mem (t + suc i)
    same i l = store-ne mem s (mem t) (suc t + i) (unwritten i l) ∙ ap mem (omega arith)

    copied : (i : ℕ) → i < suc rest.k → (after (s + i) ≡ mem (t + i)) × (mem (t + i) ≢ 0)
    copied zero l = (
      ap after (omega arith)
          ∙ rest.outside s (inl (omega arith))
          ∙ store_self mem s (mem t)
          ∙ ap mem (omega arith),
      λ z. live (ap mem (omega arith) ∙ z),
    )
    copied (suc i) l =
        let (got, ne) = rest.copied i (omega arith) in
        let moved = same i (omega (arith, rest.fits)) in
        (ap after (omega arith) ∙ got ∙ moved, λ z. ne (moved ∙ z))

    whole :
        ((store mem s (mem t) (suc t + rest.k) ≡ 0) ⊎ (rest.k ≡ n))
        → (mem (t + suc rest.k) ≡ 0) ⊎ (suc rest.k ≡ suc n)
    whole (inr e) = inr (ap suc e)
    whole (inl z) = elim (Bool-cases (rest.k == n)) [
      | inl e ↦ inr (ap suc (eq_of_== rest.k n e))
      | inr e ↦ inl (sym (same rest.k (omega (arith, rest.fits, ne_of_== rest.k n e))) ∙ z)
    ]

copy_string-Holds :
    (mem : Memory) (s t n : ℕ)
    → s + n < 2 ^ 64
    → t + n < 2 ^ 64
    → Apart s t n
    → Holds mem s t n (copy_string mem s t n)
unfolding copy_string
copy_string-Holds mem s t zero hs ht apart = full-Holds mem s t
copy_string-Holds mem s t (suc n) hs ht apart =
    let es : add64 s 1 ≡ suc s = omega arith in
    let et : add64 t 1 ≡ suc t = omega arith in
    let apart' : Apart (suc s) (suc t) n = elim apart [
      | inl h ↦ inl (omega arith)
      | inr h ↦ inr (omega arith)
    ] in
    elim (Bool-cases (mem t == 0)) [
      | inl z ↦ rw (z, copy_string, es) (empty-Holds mem s t n (eq_of_== (mem t) 0 z))
      | inr z ↦
          rw (z, copy_string, es, et)
            (next-Holds mem (copy_string (store mem s (mem t)) (suc s) (suc t) n) s t n apart
              (ne_of_== (mem t) 0 z)
              (copy_string-Holds (store mem s (mem t)) (suc s) (suc t) n (omega arith) (omega arith)
                apart'))
    ]

-- `safestrcpy` with room for `n + 1` bytes leaves a string that ends in a NUL within them: the
-- source up to its NUL, or as many of its characters as fit. No other byte changes. The areas do not
-- overlap or wrap around.
pub safestrcpy-Holds :
    (mem : Memory) (s t n : ℕ)
    → s + n < 2 ^ 64
    → t + n < 2 ^ 64
    → Apart s t n
    → Holds mem s t n (safestrcpy mem s t (suc n))
unfolding safestrcpy
safestrcpy-Holds mem s t n hs ht apart = copy_string-Holds mem s t n hs ht apart
