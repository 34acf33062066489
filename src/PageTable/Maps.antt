-- ===== src/PageTable/Maps.antt =====
-- `mappages` of kernel/x86_64vm.c on the map that the page tables stand for.
use microkernal.Common.{
  Bool, if◌then◌else◌, leb, length, ltb, some, true, ℕ, ◌&&◌, ◌*◌, ◌+◌, ◌-◌, ◌<◌, ◌^◌, ◌∷◌, ◌≡◌,
  ◌≤◌,
}
use microkernal.PageTable.{Ended, TableEntry, Tables, enter, returns}
use microkernal.PageTable.Frames.{IsTree, Owner, translate}

abbrev pub user_entry : (w u : Bool) → (p : ℕ) → TableEntry
user_entry w u p = record { ppn = p; present = true; writable = w; user = u }

-- The map of `s` with `n` pages from `v` on mapped to those from `p` on.
abbrev pub with_pages : (n : ℕ) → (w u : Bool) → (root v p : ℕ) → Tables → (q : ℕ) → TableEntry
with_pages n w u root v p s q =
    if leb v q && ltb q (v + n) then user_entry w u (p + (q - v)) else translate 3 root q s

-- The tables after a call that has mapped its pages.
pub record Mapped (n : ℕ) (w u : Bool) (root v p : ℕ) (s : Tables) (out : Tables × Ended)
    : Type 0 where
  pub after : Tables
  pub owner : Owner
  pub ended : out ≡ (after, returns)
  pub tree : IsTree owner after
  pub rooted : owner root ≡ some (3, 0)
  pub room : length s.free ≤ length after.free + 3 * n
  pub maps : (q : ℕ) → q < 2 ^ 36 → translate 3 root q after ≡ with_pages n w u root v p s q

-- What mappages leaves for a page that it may map: the mark is left by all but the kernel's calls.
abbrev entered : (kern w u : Bool) → (v p f i : ℕ) → Tables → Tables
entered kern w u v p f i s =
    let t = enter w u p f i s in if kern then t else record t { marks = (p, v) ∷ t.marks }
