-- ===== src/Kalloc.antt =====
-- The physical page allocator of kernel/kalloc.c.
-- Each function runs as one step: `kmem.lock` brackets it, on one CPU with interrupts off.
pub mod Alloc
pub mod Free
pub mod Invariant
mod Tests
use microkernal.Common.{
  Bool, List, Option, Outcome, [], add32, add64, false, find_index?, get_elem?, gt_int,
  if◌then◌else◌, kernbase, leb, ltb, max, min, none, not, ok, p2v, panic, pgnum, pground_up, pgsize,
  replicate, set, some, sub32, sub64, suc, true, v2p, zero, ℕ, ◌%◌, ◌*◌, ◌+◌, ◌-◌, ◌/◌, ◌==◌, ◌>>=◌,
  ◌^◌, ◌||◌, ◌∷◌,
}

-- `struct core_map_entry`. `int` fields are 32-bit patterns.
pub record Entry : Type 0 where
  pub available : ℕ
  pub user : ℕ
  pub va : ℕ
  pub ref : ℕ

-- The globals of kalloc.c, the linker's `_end`, and the contents of each page frame.
pub record Kmem : Type 0 where
  pub npages : ℕ
  pub end : ℕ
  pub core_map : List Entry
  pub pages_in_use : ℕ
  pub free_pages : ℕ
  pub frame : ℕ → List ℕ

abbrev pub update {ℓ} : {A : Type ℓ} → (ℕ → A) → ℕ → A → ℕ → A
update f i a j = if i == j then a else f j

-- `(uint64_t)(npages * PGSIZE)`: an `int` product, then sign extension.
abbrev memory_size : ℕ → ℕ
memory_size npages =
    let n = npages * pgsize % 2 ^ 32 in if ltb n (2 ^ 31) then n else n + (2 ^ 64 - 2 ^ 32)

abbrev pub memory_end : Kmem → ℕ
memory_end s = memory_size s.npages

abbrev pub is_available : Entry → Bool
is_available e = e.available == 1

-- The index of the entry for a physical address.
pub pa2page : Kmem → ℕ → Outcome ℕ
pa2page s pa = if leb s.npages (pgnum pa) then panic else ok (pgnum pa)

-- The address that an entry stands for.
abbrev pub page2pa : ℕ → ℕ
page2pa i = i * 4096

abbrev pub entry_or_panic : Option Entry → Outcome Entry
entry_or_panic none = panic
entry_or_panic (some e) = ok e

-- The entry that `pa2page` points at, with its index.
abbrev pub lookup_page : Kmem → ℕ → Outcome (ℕ × Entry)
unfolding pa2page
lookup_page s pa = do i ← pa2page s pa; e ← entry_or_panic (get_elem? s.core_map i); ok (i, e)

abbrev pub taken : Option Entry → Entry
taken none = record { available = 0; user = 0; va = 0; ref = 1 }
taken (some e) = record e { available = 0; ref = 1 }

abbrev pub count_alloc : Kmem → Kmem
count_alloc s = record s {
  pages_in_use = add32 s.pages_in_use 1;
  free_pages = sub32 s.free_pages 1;
}

-- The counters move before the scan, also when it finds nothing. The address is 0 on failure.
unfoldable pub kalloc : Kmem → ℕ × Kmem
kalloc s = elim (find_index? is_available s.core_map) [
  | none ↦ (0, count_alloc s)
  | some i ↦ (
    p2v (page2pa i),
    record (count_alloc s) { core_map = set s.core_map i (taken (get_elem? s.core_map i)) },
  )
]

abbrev bad_address : Kmem → ℕ → Bool
bad_address s v = not (v % pgsize == 0) || (ltb v s.end || leb (memory_end s) (v2p v))

-- A page with no other reference is filled with junk and becomes available.
abbrev pub freed : Kmem → ℕ → ℕ → Kmem
freed s v i = record s {
  pages_in_use = sub32 s.pages_in_use 1;
  free_pages = add32 s.free_pages 1;
  frame = update s.frame (pgnum (v2p v)) (replicate pgsize 2);
  core_map = set s.core_map i (record { available = 1; user = 0; va = 0; ref = 0 });
}

-- A shared page loses one reference.
abbrev drop_ref : Kmem → ℕ → ℕ × Entry → Outcome Kmem
drop_ref s v (i, e) =
    if gt_int e.ref 1
    then ok (record s { core_map = set s.core_map i (record e { ref = sub32 e.ref 1 }) })
    else ok (freed s v i)

unfoldable pub kfree : ℕ → Kmem → Outcome Kmem
unfolding lookup_page
kfree v s = if bad_address s v then panic else (lookup_page s (v2p v) >>= drop_ref s v)

-- The loop frees every whole page from `p` up to `vend`; `panic` stands for fuel that ran out.
unfoldable pub freerange_from : ℕ → ℕ → ℕ → Kmem → Outcome Kmem
freerange_from zero p vend s = panic
freerange_from (suc fuel) p vend s = elim (leb (add64 p pgsize) vend) [
  | true ↦ kfree p s >>= freerange_from fuel (add64 p pgsize) vend
  | false ↦ ok s
]

-- One round for each page below `vend`, and one that stops.
unfoldable pub freerange : ℕ → ℕ → Kmem → Outcome Kmem
freerange vstart vend = freerange_from (suc ((vend - vstart) / pgsize)) (pground_up vstart) vend

-- `sizeof(struct core_map_entry)`: an int, a short, a uint64_t and an int, with padding.
abbrev pub entry_size : ℕ
entry_size = 24

-- `mem_init(_end)`, called with `npages` set.
unfoldable pub mem_init : (npages end : ℕ) → (ℕ → List ℕ) → Outcome Kmem
mem_init npages end frame = do
  let vstart = add64 end (pground_up (npages * entry_size))
  let vend = p2v (memory_size npages)
  s ← freerange vstart vend (record {
    npages = npages;
    end = end;
    core_map = replicate npages (record { available = 0; user = 0; va = 0; ref = 0 });
    pages_in_use = 0;
    free_pages = 0;
    frame = frame;
  })
  ok (record s { free_pages = sub64 vend vstart / 4096 % 2 ^ 32; pages_in_use = 0 })

-- `struct e820_entry`, without its type, which `detect_memory` does not read.
pub record E820Entry : Type 0 where
  pub addr : ℕ
  pub len : ℕ

-- `mem_max = -KERNBASE`
abbrev pub mem_max : ℕ
mem_max = 2 ^ 64 - kernbase

scan_memory : List E820Entry → ℕ → ℕ
scan_memory [] mem = mem
scan_memory (e ∷ es) mem =
    scan_memory es (if leb mem_max e.addr then mem else max mem (add64 e.addr e.len))

-- `detect_memory` returns `npages`.
unfoldable pub detect_memory : List E820Entry → ℕ
unfolding scan_memory
detect_memory es = min (scan_memory es 0) mem_max / pgsize

unfoldable pub kincref : ℕ → Kmem → Outcome Kmem
unfolding lookup_page
kincref pa s = do
  r ← lookup_page s pa
  ok (record s { core_map = set s.core_map r.0 (record r.1 { ref = add32 (r.1).ref 1 }) })

unfoldable pub mark_user_mem : ℕ → ℕ → Kmem → Outcome Kmem
unfolding lookup_page
mark_user_mem pa va s = do
  r ← lookup_page s pa
  ok (record s { core_map = set s.core_map r.0 (record r.1 { user = 1; va = va }) })

unfoldable pub mark_kernel_mem : ℕ → Kmem → Outcome Kmem
unfolding lookup_page
mark_kernel_mem pa s = do
  r ← lookup_page s pa
  ok (record s { core_map = set s.core_map r.0 (record r.1 { user = 0; va = 0 }) })
