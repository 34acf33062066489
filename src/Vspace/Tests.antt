-- ===== src/Vspace/Tests.antt =====
-- Witnesses on a space of one region of code, with one page in use, and an allocator with three free
-- pages.
use microkernal.Common.{
  [], ap, arith, count_if, false, find_index?, kernbase, length, length-replicate, length-set, ok,
  pgsize, refl, replicate, set, suc, sym, true, zero, ℕ, ◌+◌, ◌∙◌, ◌∷◌, ◌≡◌,
}
use microkernal.Kalloc.{Entry, Kmem, kalloc}
use microkernal.Kalloc.Invariant.{IsValid, Clean}
use microkernal.Vspace.{
  Vpi, VpiPage, Region, Vm, vm, Vspace, Direction, blank_vpi, vpippage, vregionaddmap, va2vregion,
  va2vpi_idx, get_info,
}
use microkernal.Vspace.Lookup.{IsChain}
use microkernal.Vspace.Mapping.{AddEnds, vregionaddmap-AddEnds}
use microkernal.Vspace.Copy.{vspacecopy, copy_vpi_page, copy_infos}
use microkernal.Vspace.Copy.Failure.{Shares, vspacecopy_failure-Shares}
use microkernal.Vspace.Copy.Spaces.{SpaceCopied, SpaceTaken, vspacecopy-SpaceCopied}
use microkernal.Vspace.Write.{Writing, Written, vspacewritetova}
use microkernal.Vspace.Store.{Writable, Stored, vspacewritetova_hangs, vspacewritetova-Stored}

abbrev entry : (available ref : ℕ) → Entry
entry available ref = record { available = available; user = 0; va = 0; ref = ref }

-- Page 0 is the kernel's, page 1 a page of entries and page 2 a page of code.
abbrev six_pages : Kmem
six_pages = record {
  npages = 6;
  end = kernbase + 4096;
  core_map = entry 0 0 ∷ entry 0 1 ∷ entry 0 1 ∷ entry 1 0 ∷ entry 1 0 ∷ entry 1 0 ∷ [];
  pages_in_use = 2;
  free_pages = 3;
  frame = λ i. replicate pgsize i;
}

six_pages-Clean : Clean six_pages.core_map
six_pages-Clean zero e h a = ground arith
six_pages-Clean (suc zero) e h a = ground arith
six_pages-Clean (suc (suc zero)) e h a = ground arith
six_pages-Clean (suc (suc (suc zero))) e h a = ground arith
six_pages-Clean (suc (suc (suc (suc zero)))) e h a = ground arith
six_pages-Clean (suc (suc (suc (suc (suc zero))))) e h a = ground arith
six_pages-Clean (suc (suc (suc (suc (suc (suc i)))))) e h a = cc h

six_pages-IsValid : IsValid six_pages
unfolding count_if
six_pages-IsValid = record {
  sized = refl;
  small = omega arith;
  in_use = omega arith;
  counted = refl;
  clean = six_pages-Clean;
}

abbrev code_vpi : Vpi
code_vpi = record { used = true; ppn = 2; present = true; writable = true; cow = false }

abbrev code_page : VpiPage
code_page = record { page = kernbase + 4096; infos = set (replicate vpippage blank_vpi) 0 code_vpi }

abbrev code : Region
code = record { dir = Direction.grows_up; va_base = 0; size = 4096; pages = code_page ∷ [] }

code-IsChain : IsChain code.pages
code-IsChain zero p h =
    let z : code_page ≡ p = ground arith in
    ap (λ q. length q.infos) (sym z)
    ∙ length-set (replicate vpippage blank_vpi) 0 code_vpi
    ∙ length-replicate vpippage blank_vpi
code-IsChain (suc k) p h = cc h

abbrev code_vm : Vm
code_vm = vm six_pages code

vregionaddmap-AddEnds_example :
    AddEnds code_vm 4096 4096 true true (vregionaddmap code_vm 4096 4096 true true)
vregionaddmap-AddEnds_example =
    vregionaddmap-AddEnds code_vm 4096 4096 true true code-IsChain (omega arith)

-- The same with one entry to a page.
abbrev small_code : Region
small_code = record code {
  pages = record { page = kernbase + 4096; infos = code_vpi ∷ blank_vpi ∷ [] } ∷ [];
}

abbrev space : Vspace
space = small_code ∷ []

space-Taken : SpaceTaken six_pages space
space-Taken = (((λ u. (entry 0 1, refl, λ e. cc e), (λ u. cc u, tt)), tt), tt)

space_copied : (vspacecopy space six_pages).done ≡ true
unfolding vspacecopy copy_vpi_page copy_infos kalloc find_index? replicate
space_copied = refl

vspacecopy-SpaceCopied_example : SpaceCopied six_pages space (vspacecopy space six_pages)
vspacecopy-SpaceCopied_example =
    vspacecopy-SpaceCopied space six_pages six_pages-IsValid space-Taken space_copied

-- One free page: it becomes the page of entries, and the code finds none.
abbrev one_page : Kmem
one_page = record {
  npages = 4;
  end = kernbase + 4096;
  core_map = entry 0 0 ∷ entry 0 1 ∷ entry 0 1 ∷ entry 1 0 ∷ [];
  pages_in_use = 2;
  free_pages = 1;
  frame = λ i. [];
}

copy_fails : (vspacecopy (small_code ∷ space) one_page).done ≡ false
unfolding vspacecopy copy_vpi_page copy_infos kalloc find_index? replicate
copy_fails = refl

vspacecopy_failure-Shares_example :
    Shares (small_code ∷ space) one_page (vspacecopy (small_code ∷ space) one_page)
vspacecopy_failure-Shares_example =
    vspacecopy_failure-Shares (small_code ∷ space) one_page copy_fails

-- Three bytes to the start of the page of code, and to its second byte.
abbrev write_to : ℕ → Writing
write_to va = record {
  kmem = six_pages;
  regions = code ∷ [];
  va = va;
  left = 3;
  bytes = λ j. 97 + j;
}

write_to_start : Writable (write_to 0) 0 code
unfolding va2vregion find_index? replicate
write_to_start = record {
  found = refl;
  at = refl;
  listed = omega arith;
  used = refl;
  writable = refl;
}

write_to_second : Writable (write_to 1) 0 code
unfolding va2vregion find_index? replicate
write_to_second = record {
  found = refl;
  at = refl;
  listed = omega arith;
  used = refl;
  writable = refl;
}

vspacewritetova_hangs_example :
    vspacewritetova 1000 (write_to 0) ≡ ok (Written.running (write_to 0))
vspacewritetova_hangs_example =
    vspacewritetova_hangs (write_to 0) 0 code write_to_start refl (omega arith) (omega arith) 1000

vspacewritetova-Stored_example :
    (t : Writing) × (vspacewritetova 2 (write_to 1) ≡ ok (Written.finished t))
    × Stored (write_to 1) (get_info code.pages (va2vpi_idx code 1)) t
vspacewritetova-Stored_example =
    vspacewritetova-Stored (write_to 1) 0 code write_to_second (λ e. cc e) (omega arith)
      (omega arith) (omega arith) (length-replicate pgsize _) 0
