-- ===== src/PageTable/Frames.antt =====
-- The tables of kernel/x86_64vm.c form a tree, and stand for one map from page numbers to entries.
use native.Mathlib.Nat.{div-div-eq-div-mul, pow-suc}
use microkernal.Common.{
  List, Option, [], ap, arith, if◌then◌else◌, none, some, suc, sym, true, zero, ℕ, ◌*◌, ◌+◌, ◌/◌,
  ◌==◌, ◌^◌, ◌∙◌, ◌∷◌, ◌≡◌, ◌≢◌,
}
use microkernal.Guest.{zero_pte}
use microkernal.PageTable.{TableEntry, Tables, index}

-- The entry that the processor finds for a page, from a table of the given level on.
unfoldable pub translate : (level : ℕ) → (f p : ℕ) → Tables → TableEntry
unfolding index
translate zero f p s = s.entry f (index 0 p)
translate (suc level) f p s =
    let e = s.entry f (index (suc level) p) in
    let below = translate level e.ppn p s in if e.present then below else zero_pte

-- Which table a page is: its level, and the part of a page number that leads to it.
abbrev pub Owner : Type 0
Owner = ℕ → Option (ℕ × ℕ)

abbrev pub owned : (g level prefix : ℕ) → Owner → Owner
owned g level prefix own f = if f == g then some (level, prefix) else own f

-- Pages that are no tables yet, each at one place of the list.
abbrev pub NotIn : ℕ → List ℕ → Type 0
NotIn g [] = Unit
NotIn g (x ∷ xs) = (x ≢ g) × NotIn g xs

abbrev pub AreFresh : Owner → List ℕ → Type 0
AreFresh own [] = Unit
AreFresh own (g ∷ gs) = (own g ≡ none) × NotIn g gs × AreFresh own gs

-- Every entry that is present above the last level leads to the table of its place.
pub record IsTree (own : Owner) (s : Tables) : Type 0 where
  pub linked :
      (f level prefix i : ℕ)
      → own f ≡ some (suc level, prefix)
      → (s.entry f i).present ≡ true
      → own (s.entry f i).ppn ≡ some (level, prefix * 512 + i)
  pub fresh : AreFresh own s.free

-- The part of a page number that leads to a table of a level.
abbrev pub prefix_of : (level p : ℕ) → ℕ
prefix_of level p = p / 512 ^ suc level

pub prefix_step :
    (level p : ℕ) → prefix_of (suc level) p * 512 + index (suc level) p ≡ prefix_of level p
unfolding index
prefix_step level p =
    let q = p / 512 ^ suc level in
    let e : p / 512 ^ suc (suc level) ≡ q / 512 =
      ap (λ n. p / n) (pow-suc 512 (suc level))
      ∙ sym (div-div-eq-div-mul p (512 ^ suc level) 512) in
    omega (arith, e)
