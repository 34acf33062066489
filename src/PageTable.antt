-- ===== src/PageTable.antt =====
-- The hardware page tables that kernel/x86_64vm.c builds.
pub mod Frames
pub mod Lookups
pub mod Maps
mod Tests
pub mod Walks
pub mod Writes
use microkernal.Common.{
  Bool, List, Option, [], false, if◌then◌else◌, leb, none, not, some, suc, true, zero, ℕ, ◌%◌, ◌&&◌,
  ◌+◌, ◌/◌, ◌==◌, ◌^◌, ◌∷◌,
}
use microkernal.Guest.{Pte, zero_pte}

-- An entry of any level holds the page that it points at, and PTE_P, PTE_W and PTE_U.
abbrev pub TableEntry : Type 0
TableEntry = Pte

-- The entries of each page, the pages that kalloc will give, after which it gives none, and the calls of
-- mark_user_mem so far, as pairs of a physical and a virtual page number.
pub record Tables : Type 0 where
  pub entry : (page index : ℕ) → TableEntry
  pub free : List ℕ
  pub marks : List (ℕ × ℕ)

abbrev pub write_entry : (page index : ℕ) → TableEntry → Tables → Tables
write_entry f i e s = record s { entry = λ g j. if g == f && j == i then e else s.entry g j }

-- `memset` of a table to 0.
abbrev pub clear : (page : ℕ) → Tables → Tables
clear f s = record s { entry = λ g j. if g == f then zero_pte else s.entry g j }

-- The index of a virtual page number at a level: PML4_INDEX at level 3, and so on to PT_INDEX at 0.
unfoldable pub index : (level p : ℕ) → ℕ
index level p = p / 512 ^ level % 512

abbrev pub table_entry : (page : ℕ) → TableEntry
table_entry g = record { ppn = g; present = true; writable = true; user = true }

-- A new table for an entry, from the pages that kalloc gives.
abbrev pub new_table : List ℕ → (f i : ℕ) → Tables → Tables × Option ℕ
new_table [] f i s = (s, none)
new_table (g ∷ gs) f i s =
    (write_entry f i (table_entry g) (clear g (record s { free = gs })), some g)

-- One level of the walk: the table that an entry points at, which `alloc` may make.
abbrev pub next_table : (alloc : Bool) → (f i : ℕ) → Tables → Tables × Option ℕ
next_table alloc f i s =
    if (s.entry f i).present
    then (s, some (s.entry f i).ppn)
    else if alloc
    then new_table s.free f i s
    else (s, none)

abbrev pub continue_at {ℓ} :
    {A : Type ℓ} → Tables × Option ℕ → (ℕ → Tables → Tables × Option A) → Tables × Option A
continue_at (s, none) next = (s, none)
continue_at (s, some f) next = next f s

-- The walk through `level` tables: the table that holds the entry of the page.
unfoldable pub walk_levels : (level : ℕ) → (alloc : Bool) → (f p : ℕ) → Tables → Tables × Option ℕ
unfolding index
walk_levels zero alloc f p s = (s, some f)
walk_levels (suc level) alloc f p s =
    continue_at (next_table alloc f (index (suc level) p) s) (λ g. walk_levels level alloc g p)

-- `walkpml4` of the page number `p`: the table and the index of the entry.
unfoldable pub walkpml4 : (alloc : Bool) → (pml4 p : ℕ) → Tables → Tables × Option (ℕ × ℕ)
unfolding walk_levels
walkpml4 alloc pml4 p s =
    continue_at (walk_levels 3 alloc pml4 p s) (λ f t. (t, some (f, index 0 p)))

-- How a call of `mappages` ends: it returns, or it panics: "not enough memory", "remap", or
-- pa2page's, for a page that `mark_user_mem` does not know.
pub data Ended : Type 0 where
  returns no_memory remap bad_page : Ended

-- What `mappages` does with the entry of one page: `w` and `u` are PTE_W and PTE_U in `perm`, which has
-- PTE_P too.
abbrev pub enter : (w u : Bool) → (p f i : ℕ) → Tables → Tables
enter w u p f i s = write_entry f i (record { ppn = p; present = true; writable = w; user = u }) s

-- PTE_ADDR keeps 40 bits of the page number, and PGNUM of the address 52. `npages` is the variable of
-- kalloc.c.
abbrev pub map_entry : (npages : ℕ) → (kern w u : Bool) → (v p f i : ℕ) → Tables → Tables × Ended
map_entry npages kern w u v p f i s =
    let t = enter w u (p % 2 ^ 40) f i s in
    if kern
    then (t, returns)
    else if leb npages (p % 2 ^ 52)
    then (t, bad_page)
    else (record t { marks = (p % 2 ^ 52, v) ∷ t.marks }, returns)

abbrev pub map_one :
    (npages : ℕ) → (kern w u : Bool) → (v p : ℕ) → Tables × Option (ℕ × ℕ) → Tables × Ended
map_one npages kern w u v p (s, none) = (s, no_memory)
map_one npages kern w u v p (s, some (f, i)) =
    if (s.entry f i).present then (s, remap) else map_entry npages kern w u v p f i s

abbrev pub and_then : Tables × Ended → (Tables → Tables × Ended) → Tables × Ended
and_then (s, returns) next = next s
and_then (s, no_memory) next = (s, no_memory)
and_then (s, remap) next = (s, remap)
and_then (s, bad_page) next = (s, bad_page)

unfoldable pub mappages :
    (npages n : ℕ) → (kern w u : Bool) → (pml4 v p : ℕ) → Tables → Tables × Ended
unfolding walkpml4
mappages npages zero kern w u pml4 v p s = (s, returns)
mappages npages (suc n) kern w u pml4 v p s =
    and_then (map_one npages kern w u v p (walkpml4 true pml4 v s))
      (mappages npages n kern w u pml4 (v + 1) (p + 1))

-- What `uva2ka` answers for a page: the walk found no table, so that the code reads through a null
-- pointer; the page is not there for the user, so 0; or the page that the entry points at.
pub data Looked : Type 0 where
  faults absent : Looked
  found : (page : ℕ) → Looked

abbrev pub look : Tables → Option (ℕ × ℕ) → Looked
look s none = faults
look s (some (f, i)) =
    let e = s.entry f i in
    if not e.present then absent else if not e.user then absent else found e.ppn

unfoldable pub uva2ka : (pml4 p : ℕ) → Tables → Looked
unfolding walkpml4
uva2ka pml4 p s = look s (walkpml4 false pml4 p s).1
