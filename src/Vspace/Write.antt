-- ===== src/Vspace/Write.antt =====
-- The code of kernel/vspace.c that fills the pages of an address space, takes its lists of pages down,
-- and reads it out for the hardware: vradddata, vspaceinitcode, vspaceinitstack, vspacewritetova,
-- vspaceinvalidate, vspacefree. Data is a function from positions to bytes.
use microkernal.Common.{
  Bool, List, Option, Outcome, [], add64, copy_in, false, get_or, if◌then◌else◌, is_neg, kernbase,
  leb, ltb, min, none, ok, panic, pground_up, pgsize, set, some, sub64, suc, true, zero, ℕ, ◌%◌,
  ◌++◌, ◌+◌, ◌-◌, ◌/◌, ◌==◌, ◌>>=◌, ◌∷◌,
}
use microkernal.Kalloc.{Kmem, kfree, update}
use microkernal.Vspace.{
  Vpi, VpiPage, Region, Vm, vm, Vspace, vr_bot, vr_top, empty_region, Direction, get_info,
  va2vpage_info, va2vregion, vregionaddmap, x86perms,
}

-- The page frame of the entry, with the bytes in it.
abbrev pub write_frame : Vpi → (off n : ℕ) → (ℕ → ℕ) → Kmem → Kmem
write_frame v off n bytes m = record m {
  frame = update m.frame v.ppn (copy_in (m.frame v.ppn) off n bytes);
}

-- `assert(vpi->used)` on the entry that a lookup has found; a null pointer faults.
abbrev pub used_vpi : Option ℕ × Vm → Outcome (Vpi × Vm)
used_vpi (none, s) = panic
used_vpi (some i, s) =
    if (get_info s.region.pages i).used then ok (get_info s.region.pages i, s) else panic

-- The loop of `vradddata` from `i` on; `panic` stands for fuel that ran out.
unfoldable pub add_data_loop : (fuel i sz va : ℕ) → (ℕ → ℕ) → Vm → Outcome Vm
unfolding copy_in va2vpage_info
add_data_loop zero i sz va bytes s = panic
add_data_loop (suc fuel) i sz va bytes s = elim (ltb i sz) [
  | false ↦ ok s
  | true ↦ va2vpage_info s (add64 va i) >>= used_vpi >>= λ e.
      add_data_loop fuel (add64 i pgsize) sz va bytes
        (vm (write_frame e.0 0 (min (sub64 sz i) pgsize) (λ j. bytes (i + j)) e.1.kmem) e.1.region)
]

abbrev pub add_data : (sz va : ℕ) → (ℕ → ℕ) → ℕ × Vm → Outcome (ℕ × Vm)
add_data sz va bytes (n, s) =
    if is_neg n
    then ok (n, s)
    else (add_data_loop (suc (suc (sz / pgsize))) 0 sz va bytes s >>= λ t. ok (0, t))

-- `sz` is an `int` that is not negative.
unfoldable pub vradddata :
    Vm → (va : ℕ) → (ℕ → ℕ) → (sz : ℕ) → (present writable : Bool) → Outcome (ℕ × Vm)
unfolding vregionaddmap add_data_loop
vradddata s va bytes sz present writable =
    vregionaddmap s va sz present writable >>= add_data sz va bytes

-- The numbers of the regions.
abbrev pub vr_code : ℕ
vr_code = 0

abbrev pub vr_heap : ℕ
vr_heap = 1

abbrev pub vr_ustack : ℕ
vr_ustack = 2

abbrev pub region_at : Vspace → ℕ → Region
region_at vs i = get_or vs i (empty_region Direction.grows_up)

abbrev pub resized : (va_base size : ℕ) → Region → Region
resized va_base size r = record r { va_base = va_base; size = size }

-- `sz` is an `int` in `vradddata`, and the code asserts that it succeeds.
abbrev pub init_code_region : Vspace → Kmem → (ℕ → ℕ) → ℕ → Outcome Vm
init_code_region vs m bytes sz =
    vradddata (vm m (resized 0 (pground_up sz) (region_at vs vr_code))) 0 bytes sz true true
    >>= λ r. if r.0 == 0 then ok r.1 else panic

-- One page below `start`.
abbrev pub init_stack_region : Vspace → ℕ → Kmem → Outcome (ℕ × Vm)
init_stack_region vs start m =
    vregionaddmap (vm m (resized start pgsize (region_at vs vr_ustack))) (sub64 start pgsize) pgsize
      true true

-- What the page table is told of a page: its number, its frame and its permissions.
abbrev pub Mapping : Type 0
Mapping = ℕ × ℕ × ℕ

abbrev pub mapping_of : ℕ → Vpi → Mapping
mapping_of va v = (va / pgsize, v.ppn, x86perms v)

-- The entry of a lookup for `vspaceinvalidate`, which does not ask whether it is in use.
abbrev pub found_vpi : Option ℕ × Vm → Outcome (Vpi × Vm)
found_vpi (none, s) = panic
found_vpi (some i, s) = ok (get_info s.region.pages i, s)

-- The calls of `mappages` for a region from `start` on, in their order.
unfoldable pub region_mappings : (fuel start end : ℕ) → Vm → Outcome (Vm × List Mapping)
unfolding va2vpage_info
region_mappings zero start end s = panic
region_mappings (suc fuel) start end s = elim (ltb start end) [
  | false ↦ ok (s, [])
  | true ↦ va2vpage_info s start >>= found_vpi >>= λ e.
      region_mappings fuel (add64 start pgsize) end e.1 >>= λ r.
      ok (r.0, mapping_of start e.0 ∷ r.1)
]

-- `vspaceinvalidate` after the old entries are freed: what it maps, region by region.
unfoldable pub vspaceinvalidate : Vspace → Kmem → Outcome (Kmem × Vspace × List Mapping)
unfolding region_mappings
vspaceinvalidate [] m = ok (m, [], [])
vspaceinvalidate (r ∷ vs) m =
    (if vr_bot r % pgsize == 0
      then region_mappings (suc (suc ((vr_top r - vr_bot r) / pgsize))) (vr_bot r) (vr_top r)
          (vm m r)
      else panic)
    >>= λ a. vspaceinvalidate vs a.0.kmem >>= λ b. ok (b.0, a.0.region ∷ b.1, a.1 ++ b.2)

unfoldable pub vspaceinitcode : Vspace → (ℕ → ℕ) → ℕ → Kmem → Outcome (Kmem × Vspace × List Mapping)
unfolding vradddata vregionaddmap vspaceinvalidate
vspaceinitcode vs init size m = init_code_region vs m init size >>= λ c.
    init_stack_region vs (add64 (pground_up size) pgsize) c.kmem >>= λ s.
    if is_neg s.0
    then panic
    else vspaceinvalidate (set (set vs vr_code c.region) vr_ustack s.1.region) s.1.kmem

-- `false` stands for the result -1.
unfoldable pub vspaceinitstack : Vspace → ℕ → Kmem → Outcome (Bool × Kmem × Vspace × List Mapping)
unfolding vregionaddmap vspaceinvalidate
vspaceinitstack vs start m = init_stack_region vs start m >>= λ s.
    if is_neg s.0
    then ok (false, s.1.kmem, set vs vr_ustack s.1.region, [])
    else (vspaceinvalidate (set vs vr_ustack s.1.region) s.1.kmem >>= λ r. ok (true, r.0, r.1, r.2))

-- The number of bytes for one round of `vspacewritetova`.
abbrev pub write_size : (va sz : ℕ) → ℕ
write_size va sz = min (sub64 (pground_up va) va) sz

-- The state of the loop of `vspacewritetova`.
pub record Writing : Type 0 where
  pub kmem : Kmem
  pub regions : Vspace
  pub va : ℕ
  pub left : ℕ
  pub bytes : ℕ → ℕ

-- The copy of a round, and the step to the next; `none` is the result -1.
abbrev pub write_round : Writing → ℕ → Vpi × Vm → Option Writing
write_round w k (v, s) =
    let n = write_size w.va w.left in
    if v.writable
    then some (record {
      kmem = write_frame v (w.va % pgsize) n w.bytes s.kmem;
      regions = set w.regions k s.region;
      va = add64 w.va n;
      left = w.left - n;
      bytes = λ j. w.bytes (n + j);
    })
    else none

abbrev pub write_in : Writing → Option ℕ → Outcome (Option Writing)
write_in w none = ok none
write_in w (some k) = va2vpage_info (vm w.kmem (region_at w.regions k)) w.va >>= used_vpi >>= λ e.
    ok (write_round w k e)

-- One round: the region of the address, its entry, and the copy.
unfoldable pub write_step : Writing → Outcome (Option Writing)
unfolding va2vregion va2vpage_info copy_in
write_step w = write_in w (va2vregion w.regions w.va)

-- How far the loop has come.
pub data Written : Type 0 where
  finished running : Writing → Written
  failed : Written

-- The loop for at most `fuel` rounds up to `end`. It is `running` if it has not ended by then.
unfoldable pub write_loop : (fuel end : ℕ) → Writing → Outcome Written
unfolding write_step
write_loop zero end w = ok (running w)
write_loop (suc fuel) end w = elim (ltb w.va end) [
  | false ↦ ok (finished w)
  | true ↦ write_step w >>= λ r. elim r [ none ↦ ok failed | some w' ↦ write_loop fuel end w' ]
]

-- `vspacewritetova`, for an `int` size that is positive.
unfoldable pub vspacewritetova : (fuel : ℕ) → Writing → Outcome Written
unfolding write_loop
vspacewritetova fuel w =
    if w.left == 0
    then panic
    else if leb kernbase (add64 w.va w.left)
    then panic
    else write_loop fuel (add64 w.va w.left) w

-- The pages behind a page are freed before it.
unfoldable pub free_page_desc_list : List VpiPage → Kmem → Outcome Kmem
free_page_desc_list [] m = ok m
free_page_desc_list (p ∷ ps) m =
    if p.page % pgsize == 0 then (free_page_desc_list ps m >>= kfree p.page) else panic

-- `memset` leaves each region with direction 0, which is VRDIR_UP; `freevm` is left out.
unfoldable pub vspacefree : Vspace → Kmem → Outcome (Kmem × Vspace)
unfolding free_page_desc_list
vspacefree [] m = ok (m, [])
vspacefree (r ∷ vs) m = free_page_desc_list r.pages m >>= λ m'.
    vspacefree vs m' >>= λ t. ok (t.0, empty_region Direction.grows_up ∷ t.1)
