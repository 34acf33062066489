-- ===== src/Vspace/Heap.antt =====
-- sbrk, kernel/sysproc.c, on the heap region: the pages of the heap stay mapped.
use microkernal.Common.{
  Bool, Outcome, [], add64, false, if◌then◌else◌, is_neg, not, ok, panic, true, ℕ, ◌%◌, ◌+◌, ◌-◌,
  ◌<◌, ◌>>=◌, ◌^◌, ◌≡◌, ◌≤◌, ◌⊎◌,
}
use microkernal.Vspace.{Region, Vm, vm, va2vpi_idx, get_info, minus_one, vregionaddmap}
use microkernal.Vspace.Mapping.{IsMapped}

-- `addr`, an `int`, as the `uint64_t` that `vregionaddmap` gets.
abbrev pub sbrk_address : Region → ℕ
sbrk_address r =
    let a = add64 r.va_base r.size % 2 ^ 32 in if is_neg a then a + (2 ^ 64 - 2 ^ 32) else a

-- `rebuilt` says whether `vspaceinvalidate` returns; it panics without memory for the page tables.
abbrev pub grow_heap : (rebuilt : Bool) → (addr n : ℕ) → ℕ × Vm → Outcome (ℕ × Vm)
grow_heap rebuilt addr n (r, s) =
    if is_neg r
    then ok (minus_one, s)
    else if not rebuilt
    then panic
    else ok (addr % 2 ^ 32, vm s.kmem (record s.region { size = add64 s.region.size n }))

-- `sys_sbrk` on the heap region; the page tables and their pages are no part of it. `n` is the pattern of
-- an `int`.
unfoldable pub sys_sbrk : Vm → (rebuilt : Bool) → (n : ℕ) → Outcome (ℕ × Vm)
unfolding vregionaddmap
sys_sbrk s rebuilt n =
    if is_neg n
    then ok (minus_one, s)
    else (vregionaddmap s (sbrk_address s.region) n true true
        >>= grow_heap rebuilt (sbrk_address s.region) n)

-- Every page that starts in the heap is in use, present and writable.
abbrev pub AllMapped : Region → Type 0
AllMapped r =
    (va : ℕ)
    → r.va_base ≤ va
    → va < r.va_base + r.size
    → va % 4096 ≡ 0
    → IsMapped true true (get_info r.pages (va2vpi_idx r va))

-- The result is -1, or the old end of the heap, which is `n` bytes larger and mapped throughout.
abbrev pub SbrkEnds : Vm → (rebuilt : Bool) → (n : ℕ) → Outcome (ℕ × Vm) → Type 0
SbrkEnds s rebuilt n panic = (s.region.pages ≡ []) ⊎ (rebuilt ≡ false)
SbrkEnds s rebuilt n (ok (r, t)) =
    (r ≡ minus_one)
    ⊎ ((r ≡ s.region.va_base + s.region.size)
        × (t.region.va_base ≡ s.region.va_base)
        × (t.region.size ≡ s.region.size + n)
        × AllMapped t.region)

abbrev sized : ℕ → Region → Region
sized n r = record r { size = n }
