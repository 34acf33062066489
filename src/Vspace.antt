-- ===== src/Vspace.antt =====
-- Virtual address spaces, kernel/vspace.c: regions, the chained pages of page information, and their
-- use of the page allocator. The hardware page table is built from the regions afterwards.
pub mod Copy
pub mod Heap
pub mod Lookup
pub mod Mapping
pub mod Store
mod Tests
pub mod Write
use microkernal.Common.{
  Bool, List, Option, Outcome, [], add64, false, find_index?, get_elem?, get_or, if◌then◌else◌,
  kernbase, leb, ltb, none, ok, p2v, panic, pgnum, pground_up, pgsize, replicate, set, some, sub64,
  suc, true, v2p, zero, ℕ, ◌%◌, ◌&&◌, ◌*◌, ◌+◌, ◌-◌, ◌/◌, ◌==◌, ◌>>=◌, ◌^◌, ◌∷◌,
}
use microkernal.Kalloc.{kfree, Kmem, kalloc, update}

-- `struct vpage_info`; its shorts are used as truth values.
pub record Vpi : Type 0 where
  pub used : Bool
  pub ppn : ℕ
  pub present : Bool
  pub writable : Bool
  pub cow : Bool

abbrev pub blank_vpi : Vpi
blank_vpi = record { used = false; ppn = 0; present = false; writable = false; cow = false }

-- VPIPPAGE: an entry has 24 bytes, and one is left out for `next`.
abbrev pub vpippage : ℕ
vpippage = 169

-- `struct vpi_page` with its own address; `next` is the rest of the list that it stands in.
pub record VpiPage : Type 0 where
  pub page : ℕ
  pub infos : List Vpi

abbrev pub zero_page : ℕ → VpiPage
zero_page a = record { page = a; infos = replicate vpippage blank_vpi }

pub data Direction : Type 0 where
  grows_up grows_down : Direction

-- `struct vregion`
pub record Region : Type 0 where
  pub dir : Direction
  pub va_base : ℕ
  pub size : ℕ
  pub pages : List VpiPage

-- VRTOP and VRBOT
abbrev pub vr_top : Region → ℕ
vr_top r = elim r.dir [ grows_up ↦ add64 r.va_base r.size | grows_down ↦ r.va_base ]

abbrev pub vr_bot : Region → ℕ
vr_bot r = elim r.dir [ grows_up ↦ r.va_base | grows_down ↦ sub64 r.va_base r.size ]

-- The number of the page of `va` in the region, an `int`.
abbrev pub va2vpi_idx : Region → ℕ → ℕ
va2vpi_idx r va =
    elim r.dir [ grows_up ↦ sub64 va r.va_base | grows_down ↦ sub64 (sub64 r.va_base 1) va ]
    / pgsize
    % 2 ^ 32

-- PTE_P, PTE_W and PTE_U are 1, 2 and 4.
abbrev pub x86perms : Vpi → ℕ
x86perms i = (if i.present then 1 else 0) + (if i.writable then 2 else 0) + 4

abbrev pub cons_page : VpiPage → Bool × Kmem × List VpiPage → Bool × Kmem × List VpiPage
cons_page q s = (s.0, s.1, q ∷ s.2)

-- The loop of `va2vpage_info` over the pages behind the first, for `n` rounds: a page that is missing
-- is allocated, and `false` says that none was left.
unfoldable pub walk : ℕ → List VpiPage → Kmem → Bool × Kmem × List VpiPage
walk zero rest m = (true, m, rest)
walk (suc n) [] m =
    let more = cons_page (zero_page (kalloc m).0) (walk n [] (kalloc m).1) in
    if (kalloc m).0 == 0 then (false, (kalloc m).1, []) else more
walk (suc n) (q ∷ rest) m = cons_page q (walk n rest m)

-- The first page is not tested for null before it is cleared.
unfoldable pub first_page : Kmem → List VpiPage → Outcome (Kmem × VpiPage × List VpiPage)
first_page m (p ∷ rest) = ok (m, p, rest)
first_page m [] = if (kalloc m).0 == 0 then panic else ok ((kalloc m).1, zero_page (kalloc m).0, [])

abbrev pub with_pages : Region → List VpiPage → Region
with_pages r ps = record r { pages = ps }

-- The allocator and the region that a call works on.
pub record Vm : Type 0 where
  pub kmem : Kmem
  pub region : Region

abbrev pub vm : Kmem → Region → Vm
vm m r = record { kmem = m; region = r }

abbrev pub walked : Region → ℕ → VpiPage → Bool × Kmem × List VpiPage → Option ℕ × Vm
walked r i p s = (if s.0 then some i else none, vm s.1 (with_pages r (p ∷ s.2)))

-- The entry for `va`, by its number, and `none` for the null pointer. The loop takes VPIPPAGE off the
-- number in each round, so it makes `i / vpippage` of them.
unfoldable pub va2vpage_info : Vm → ℕ → Outcome (Option ℕ × Vm)
unfolding first_page walk
va2vpage_info s va = first_page s.kmem s.region.pages >>= λ f. ok (
    walked s.region (va2vpi_idx s.region va) f.1 (walk (va2vpi_idx s.region va / vpippage) f.2 f.0))

-- `info->infos[idx]` of entry number `i`, read and written.
abbrev pub get_info : List VpiPage → ℕ → Vpi
get_info ps i = elim (get_elem? ps (i / vpippage)) [
  | none ↦ blank_vpi
  | some p ↦ get_or p.infos (i % vpippage) blank_vpi
]

abbrev pub set_info : List VpiPage → ℕ → Vpi → List VpiPage
set_info ps i v = elim (get_elem? ps (i / vpippage)) [
  | none ↦ ps
  | some p ↦ set ps (i / vpippage) (record p { infos = set p.infos (i % vpippage) v })
]

-- -1 as an `int`.
abbrev pub minus_one : ℕ
minus_one = 2 ^ 32 - 1

abbrev pub set_frame : Kmem → ℕ → List ℕ → Kmem
set_frame m a bytes = record m { frame = update m.frame (pgnum (v2p a)) bytes }

-- The entry that `vregionaddmap` writes for the page at `mem`.
abbrev pub mapped_vpi : (present writable : Bool) → ℕ → Vpi → Vpi
mapped_vpi present writable mem v = record v {
  used = true;
  present = present;
  writable = writable;
  ppn = pgnum (v2p mem);
}

abbrev pub put_info : Region → ℕ → Vpi → Region
put_info r i v = with_pages r (set_info r.pages i v)

-- A fresh page of zeros for entry `i`; `false` if there is none.
abbrev pub map_page : (present writable : Bool) → ℕ → Vm → Bool × Vm
map_page present writable i s =
    if (kalloc s.kmem).0 == 0 then (false, vm (kalloc s.kmem).1 s.region) else (
      true,
      vm (set_frame (kalloc s.kmem).1 (kalloc s.kmem).0 (replicate pgsize 0)) (
          put_info s.region i
            (mapped_vpi present writable (kalloc s.kmem).0 (get_info s.region.pages i))),
    )

abbrev pub map_at : (present writable : Bool) → Option ℕ × Vm → Bool × Vm
map_at present writable (none, s) = (false, s)
map_at present writable (some i, s) = map_page present writable i s

abbrev pub continue_if : (Vm → Outcome (Bool × Vm)) → Bool × Vm → Outcome (Bool × Vm)
continue_if next (true, s) = next s
continue_if next (false, s) = ok (false, s)

-- The loop of `vregionaddmap` from `a` up to `end`; `panic` stands for fuel that ran out.
unfoldable pub addmap_loop : (fuel a end : ℕ) → (present writable : Bool) → Vm → Outcome (Bool × Vm)
unfolding va2vpage_info
addmap_loop zero a end present writable s = panic
addmap_loop (suc fuel) a end present writable s = elim (ltb a end) [
  | false ↦ ok (true, s)
  | true ↦ va2vpage_info s a >>= λ e.
      continue_if (addmap_loop fuel (add64 a pgsize) end present writable)
        (map_at present writable e)
]

abbrev pub result : ℕ → Bool × Vm → Outcome (ℕ × Vm)
result sz (done, s) = ok (if done then sz % 2 ^ 32 else minus_one, s)

-- The result is an `int`: `sz` cut to 32 bits, or -1. One round for each page, and one that stops.
unfoldable pub vregionaddmap : Vm → (from_va sz : ℕ) → (present writable : Bool) → Outcome (ℕ × Vm)
unfolding addmap_loop
vregionaddmap s from_va sz present writable =
    if leb kernbase (add64 sz from_va)
    then ok (minus_one, s)
    else (if sz == 0
        then ok (0, s)
        else (addmap_loop (suc (suc (sz / pgsize))) (pground_up from_va) (add64 from_va sz) present
              writable s
            >>= result sz))

-- `size` is an `int` that is not negative.
abbrev pub vregioncontains : Region → (va size : ℕ) → Bool
vregioncontains r va size = leb (vr_bot r) va && ltb (add64 va size) (vr_top r)

-- The address of the page of `ppn`.
abbrev pub frame_address : ℕ → ℕ
frame_address ppn = p2v (ppn * pgsize % 2 ^ 64)

abbrev pub unmapped_vpi : Vpi → Vpi
unmapped_vpi v = record v { used = false; present = false; writable = false }

-- One round of `vregiondelmap` on entry `i`, which must be in use.
abbrev pub unmap_at : Option ℕ × Vm → Outcome (Bool × Vm)
unmap_at (none, s) = ok (false, s)
unmap_at (some i, s) =
    if (get_info s.region.pages i).used
    then (kfree (frame_address (get_info s.region.pages i).ppn) s.kmem >>= λ m.
        ok (true, vm m (put_info s.region i (unmapped_vpi (get_info s.region.pages i)))))
    else panic

unfoldable pub delmap_loop : (fuel a end : ℕ) → Vm → Outcome (Bool × Vm)
unfolding va2vpage_info
delmap_loop zero a end s = panic
delmap_loop (suc fuel) a end s = elim (ltb a end) [
  | false ↦ ok (true, s)
  | true ↦ va2vpage_info s a >>= unmap_at >>= continue_if (delmap_loop fuel (add64 a pgsize) end)
]

unfoldable pub vregiondelmap : Vm → (from_va sz : ℕ) → Outcome (ℕ × Vm)
unfolding delmap_loop
vregiondelmap s from_va sz =
    if vregioncontains s.region (sub64 from_va sz) 0
    then (if sz == 0
        then ok (0, s)
        else (delmap_loop (suc (suc (sz / pgsize))) (pground_up (sub64 from_va sz)) from_va s
            >>= result sz))
    else ok (minus_one, s)

-- `struct vspace` without its page table: the regions in the order of their numbers.
abbrev pub Vspace : Type 0
Vspace = List Region

abbrev pub in_region : ℕ → Region → Bool
in_region va r = elim r.dir [
  | grows_up ↦ leb r.va_base va && ltb va (add64 r.va_base r.size)
  | grows_down ↦ leb (sub64 r.va_base r.size) va && ltb va r.va_base
]

-- The number of the first region that holds `va`.
unfoldable pub va2vregion : Vspace → ℕ → Option ℕ
va2vregion vs va = find_index? (in_region va) vs

unfoldable pub vspacecontains : Vspace → (va size : ℕ) → Bool
unfolding va2vregion
vspacecontains vs va size = elim (va2vregion vs va) [
  | none ↦ false
  | some i ↦ elim (get_elem? vs i) [ none ↦ false | some r ↦ vregioncontains r va size ]
]

abbrev pub empty_region : Direction → Region
empty_region d = record { dir = d; va_base = 0; size = 0; pages = [] }

-- `vspaceinit`: VR_CODE, VR_HEAP, VR_USTACK, VR_APP_HEAP and VR_APP_USTACK.
abbrev pub vspaceinit : Vspace
vspaceinit =
    empty_region grows_up
    ∷ empty_region grows_up
    ∷ empty_region grows_down
    ∷ empty_region grows_up
    ∷ empty_region grows_down
    ∷ []
