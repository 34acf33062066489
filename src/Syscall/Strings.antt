-- ===== src/Syscall/Strings.antt =====
-- Strings that the kernel takes from user memory, kernel/syscall.c.
use microkernal.Common.{
  ==-of_ne, Bool-cases, Option-cases, [], add64, arith, eq_of_==, get_elem?, inl, inr, ne_of_==, ok,
  refl, some, subst, suc, zero, ℕ, ◌%◌, ◌+◌, ◌-◌, ◌<◌, ◌==◌, ◌^◌, ◌∷◌, ◌≡◌, ◌≢◌, ◌≤◌,
}
use microkernal.CString.{Memory}
use microkernal.Vspace.{Region, Vspace, vr_bot, vr_top, vregioncontains}
use microkernal.Syscall.Pointers.{vregioncontains-bounds}
use microkernal.Syscall.{TrapFrame, fetcharg, fetchstr, argstr, string_length?}

-- The bytes at `s` are a string of `len` characters and its NUL.
abbrev pub IsString : Memory → (s len : ℕ) → Type 0
IsString mem s len = (mem (add64 s len) ≡ 0) × ((j : ℕ) → j < len → mem (add64 s j) ≢ 0)

IsString-cons :
    (mem : Memory) (s len : ℕ)
    → mem s ≢ 0
    → s < 2 ^ 64
    → IsString mem (add64 s 1) len
    → IsString mem s (suc len)
IsString-cons mem s len ne b (e, h) = (subst (λ a. mem a ≡ 0) (omega arith) e, at)
  where
    at : (j : ℕ) → j < suc len → mem (add64 s j) ≢ 0
    at zero l = let z : add64 s 0 ≡ s = omega arith in rw z ne
    at (suc j) l =
        let z : add64 s (suc j) ≡ add64 (add64 s 1) j = omega arith in rw z (h j (omega arith))

IsString-tail : (mem : Memory) (s len : ℕ) → IsString mem s (suc len) → IsString mem (add64 s 1) len
IsString-tail mem s len (e, h) = (
  subst (λ a. mem a ≡ 0) (omega arith) e,
  λ j l.
      let z : add64 (add64 s 1) j ≡ add64 s (suc j) = omega arith in rw z (h (suc j) (omega arith)),
)

-- A length that the loop finds is that of a string.
pub string_length?-IsString :
    (mem : Memory) (s n len : ℕ)
    → s < 2 ^ 64
    → string_length? mem s n ≡ some len
    → (len < n) × IsString mem s len
unfolding string_length?
string_length?-IsString mem s zero len b h = cc
string_length?-IsString mem s (suc n) len b h = elim (Bool-cases (mem s == 0)) [
  | inl e ↦
      let z : 0 ≡ len = ground arith in
      subst (λ l. (l < suc n) × IsString mem s l) z
        (
          omega arith,
          (subst (λ a. mem a ≡ 0) (omega arith) (eq_of_== _ _ e), λ j l. absurd (omega arith)),
        )
  | inr e ↦ elim (Option-cases (string_length? mem (add64 s 1) n)) [
    | inl q ↦ absurd (ground arith)
    | inr (k, q) ↦
        let z : suc k ≡ len = ground arith in
        let t = string_length?-IsString mem (add64 s 1) n k (omega arith) q in
        subst (λ l. (l < suc n) × IsString mem s l) z
          (omega arith, IsString-cons mem s k (ne_of_== _ _ e) b t.1)
  ]
]

-- A string shorter than the bound is found.
pub string_length?-of_IsString :
    (mem : Memory) (s n len : ℕ)
    → s < 2 ^ 64
    → len < n
    → IsString mem s len
    → string_length? mem s n ≡ some len
unfolding string_length?
string_length?-of_IsString mem s zero len b l h = absurd (omega arith)
string_length?-of_IsString mem s (suc n) zero b l (e, h) =
    let z : mem s ≡ 0 = subst (λ a. mem a ≡ 0) (omega arith) e in ground arith
string_length?-of_IsString mem s (suc n) (suc len) b l h =
    let ne : mem s ≢ 0 = λ z. h.1 0 (omega arith) (subst (λ a. mem a ≡ 0) (omega arith) z) in
    let t =
      string_length?-of_IsString mem (add64 s 1) n len (omega arith) (omega arith)
        (IsString-tail mem s len h) in
    rw (==-of_ne _ _ ne) (rw t refl)

-- `argstr` answers the length of any string of fewer than 510 characters that the argument points at.
pub argstr_lem :
    (mem : Memory) (tf : TrapFrame) (n p len : ℕ)
    → fetcharg tf n ≡ ok p
    → p < 2 ^ 64
    → p ≢ 0
    → IsString mem p len
    → len < 510
    → argstr mem tf n ≡ ok len
unfolding argstr
argstr_lem mem tf n p len f b ne h l =
    rw f (rw (==-of_ne _ _ ne) (rw (string_length?-of_IsString mem p 510 len b l h) refl))

-- The string lies in region `r`, its NUL below the top.
abbrev pub StringIn : Memory → Vspace → (addr len : ℕ) → Type 0
StringIn mem vs addr len =
    (i : ℕ) × (r : Region) × (get_elem? vs i ≡ some r)
    × (vr_bot r ≤ addr)
    × (addr + len < vr_top r)
    × IsString mem addr len

StringIn-cons :
    (mem : Memory) (vs : Vspace) (r : Region) (addr n : ℕ)
    → (len : ℕ) × (n ≡ len % 2 ^ 32) × StringIn mem vs addr len
    → (len : ℕ) × (n ≡ len % 2 ^ 32) × StringIn mem (r ∷ vs) addr len
StringIn-cons mem vs r addr n (len, e, (i, q, at, bot, top, str)) =
    (len, e, (suc i, q, at, bot, top, str))

-- A result that is not -1 is the length of a string that lies in a region, as an `int`.
pub fetchstr-StringIn :
    (mem : Memory) (vs : Vspace) (addr n : ℕ)
    → addr < 2 ^ 64
    → fetchstr mem vs addr ≡ some n
    → (len : ℕ) × (n ≡ len % 2 ^ 32) × StringIn mem vs addr len
unfolding fetchstr
fetchstr-StringIn mem [] addr n b h = cc
fetchstr-StringIn mem (r ∷ vs) addr n b h =
    let later : fetchstr mem vs addr ≡ some n
        → (len : ℕ) × (n ≡ len % 2 ^ 32) × StringIn mem (r ∷ vs) addr len =
      λ q. StringIn-cons mem vs r addr n (fetchstr-StringIn mem vs addr n b q) in
    elim (Bool-cases (vregioncontains r addr 0)) [
      | inr e ↦ later (ground arith)
      | inl e ↦ elim (Option-cases (string_length? mem addr (vr_top r - addr))) [
        | inl q ↦ later (ground arith)
        | inr (k, q) ↦
            let s = string_length?-IsString mem addr (vr_top r - addr) k b q in
            let c = vregioncontains-bounds r addr 0 (omega arith) e in
            (k, ground arith, (0, r, refl, c.0, omega arith, s.1))
      ]
    ]
