-- ===== src/Syscall/Pointers.antt =====
-- What the check of a pointer argument lets through, kernel/syscall.c.
use microkernal.Common.{
  IsFirst, Option-cases, add64, arith, false, find_index?-found, find_index?-some, get_elem?, inl,
  inr, is_neg, ok, refl, some, true, ℕ, ◌+◌, ◌-◌, ◌<◌, ◌^◌, ◌↔◌, ◌≡◌, ◌≤◌,
}
use mathlib.Core.Option
use microkernal.Vspace.{Region, Vspace, vr_top, vr_bot, vregioncontains}
use microkernal.Syscall.{TrapFrame, fetcharg, argptr, checked_region}

-- `size` bytes from `p` start in one of the regions and end before its top.
abbrev pub Accessible : Vspace → (p size : ℕ) → Type 0
Accessible vs p size =
    (i : ℕ) × (r : Region) × (get_elem? vs i ≡ some r) × (vr_bot r ≤ p) × (p + size < vr_top r)

pub vregioncontains-bounds :
    (r : Region) (p size : ℕ)
    → p + size < 2 ^ 64
    → vregioncontains r p size ≡ true
    → (vr_bot r ≤ p) × (p + size < vr_top r)
vregioncontains-bounds r p size h e =
    let w : add64 p size ≡ p + size = omega arith in (ground arith, ground arith)

pub vregioncontains-of_bounds :
    (r : Region) (p size : ℕ)
    → p + size < 2 ^ 64
    → vr_bot r ≤ p
    → p + size < vr_top r
    → vregioncontains r p size ≡ true
vregioncontains-of_bounds r p size h b t =
    let w : add64 p size ≡ p + size = omega arith in ground arith

pub checked_region-Accessible :
    (vs : Vspace) (p size : ℕ)
    → p + size < 2 ^ 64
    → ((i : ℕ) × (checked_region vs p size ≡ some i)) ↔ Accessible vs p size
checked_region-Accessible vs p size h = (
  λ f.
      let s : IsFirst (λ r. vregioncontains r p size) vs f.0 = find_index?-some _ vs f.0 f.1 in
      let b = vregioncontains-bounds s.0 p size h s.2 in (f.0, s.0, s.1, b.0, b.1),
  λ a. find_index?-found _ vs a.0 a.1 a.2 (vregioncontains-of_bounds a.1 p size h a.3 a.4),
)

-- With a size that is not negative, the call answers what the scan of the regions finds.
pub argptr_lem :
    (tf : TrapFrame) (vs : Vspace) (n size p : ℕ)
    → size < 2 ^ 31
    → fetcharg tf n ≡ ok p
    → argptr tf vs n size ≡ ok (Option.map (λ r. p) (checked_region vs p size))
unfolding argptr
argptr_lem tf vs n size p small f = let s : is_neg size ≡ false = ground arith in rw f (rw s refl)

-- The call succeeds, with the pointer as given, when the block is accessible, and only then.
pub argptr_iff :
    (tf : TrapFrame) (vs : Vspace) (n size p : ℕ)
    → size < 2 ^ 31
    → fetcharg tf n ≡ ok p
    → p + size < 2 ^ 64
    → (argptr tf vs n size ≡ ok (some p)) ↔ Accessible vs p size
argptr_iff tf vs n size p small f h =
    rw (argptr_lem tf vs n size p small f) (elim (Option-cases (checked_region vs p size)) [
      | inl e ↦ (
        λ q. absurd (ground (arith, e)),
        λ a. let g = (checked_region-Accessible vs p size h).1 a in absurd (ground (arith, e, g.1)),
      )
      | inr (i, e) ↦ (λ q. (checked_region-Accessible vs p size h).0 (i, e), λ a. rw e refl)
    ])

-- A pointer above the bottom of a region and less than 2^31 below the end of the address space passes
-- with the size that takes it to that end, wherever the region, if its top is not 0, ends.
pub argptr_wraps :
    (tf : TrapFrame) (vs : Vspace) (n p : ℕ) (i : ℕ) (r : Region)
    → fetcharg tf n ≡ ok p
    → p < 2 ^ 64
    → 2 ^ 64 - p < 2 ^ 31
    → get_elem? vs i ≡ some r
    → vr_bot r ≤ p
    → 0 < vr_top r
    → argptr tf vs n (2 ^ 64 - p) ≡ ok (some p)
argptr_wraps tf vs n p i r f b small at bot top =
    let w : add64 p (2 ^ 64 - p) ≡ 0 = omega arith in
    let c : vregioncontains r p (2 ^ 64 - p) ≡ true = ground arith in
    let g = find_index?-found (λ q. vregioncontains q p (2 ^ 64 - p)) vs i r at c in
    rw (argptr_lem tf vs n (2 ^ 64 - p) p small f) (rw g.1 refl)
