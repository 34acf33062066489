-- ===== src/Kalloc/Tests.antt =====
-- Witnesses on a machine of five pages, of which the kernel's image fills one, and on a full one.
use microkernal.Common.{
  [], arith, count_if, find_index?, kernbase, ok, refl, suc, zero, ◌+◌, ◌-◌, ◌^◌, ◌∷◌, ◌≡◌, ◌≢◌,
}
use microkernal.Kalloc.{is_available, Entry, Kmem, kalloc, kfree}
use microkernal.Kalloc.Invariant.{IsValid, Clean}
use microkernal.Kalloc.Alloc.{kalloc_failure_drift}
use microkernal.Kalloc.Free.{IsPage, kfree-kalloc}

abbrev kernel_entry : Entry
kernel_entry = record { available = 0; user = 0; va = 0; ref = 0 }

abbrev free_entry : Entry
free_entry = record { available = 1; user = 0; va = 0; ref = 0 }

abbrev used_entry : Entry
used_entry = record { available = 0; user = 1; va = 8192; ref = 1 }

abbrev shared_entry : Entry
shared_entry = record { available = 0; user = 1; va = 8192; ref = 2 }

-- Pages 2 and 4 are free.
abbrev five_pages : Kmem
five_pages = record {
  npages = 5;
  end = kernbase + 4096;
  core_map = kernel_entry ∷ used_entry ∷ free_entry ∷ shared_entry ∷ free_entry ∷ [];
  pages_in_use = 2;
  free_pages = 2;
  frame = λ i. [];
}

five_pages-Clean : Clean five_pages.core_map
five_pages-Clean zero e h a = ground arith
five_pages-Clean (suc zero) e h a = ground arith
five_pages-Clean (suc (suc zero)) e h a = ground arith
five_pages-Clean (suc (suc (suc zero))) e h a = ground arith
five_pages-Clean (suc (suc (suc (suc zero)))) e h a = ground arith
five_pages-Clean (suc (suc (suc (suc (suc i))))) e h a = cc h

five_pages-IsValid : IsValid five_pages
unfolding count_if
five_pages-IsValid = record {
  sized = refl;
  small = omega arith;
  in_use = omega arith;
  counted = refl;
  clean = five_pages-Clean;
}

-- Page 2 is the lowest free page.
kalloc_page : (kalloc five_pages).0 ≡ kernbase + 8192
unfolding kalloc find_index?
kalloc_page = refl

got_page : (kalloc five_pages).0 ≢ 0
got_page e = omega (arith, e, kalloc_page)

abbrev no_pages : Kmem
no_pages = record {
  npages = 2;
  end = kernbase + 4096;
  core_map = kernel_entry ∷ used_entry ∷ [];
  pages_in_use = 1;
  free_pages = 0;
  frame = λ i. [];
}

no_pages-Clean : Clean no_pages.core_map
no_pages-Clean zero e h a = ground arith
no_pages-Clean (suc zero) e h a = ground arith
no_pages-Clean (suc (suc i)) e h a = cc h

no_pages-IsValid : IsValid no_pages
unfolding count_if
no_pages-IsValid = record {
  sized = refl;
  small = omega arith;
  in_use = omega arith;
  counted = refl;
  clean = no_pages-Clean;
}

kalloc_fails : (kalloc no_pages).0 ≡ 0
unfolding kalloc find_index?
kalloc_fails = refl

kalloc_failure_drift_example :
    ((kalloc no_pages).1.core_map ≡ no_pages.core_map)
    × (count_if is_available no_pages.core_map ≡ 0)
    × ((kalloc no_pages).1.free_pages ≡ 2 ^ 32 - 1)
kalloc_failure_drift_example = kalloc_failure_drift no_pages no_pages-IsValid kalloc_fails

used-IsPage : IsPage five_pages 1 used_entry
used-IsPage = record { entry = refl; after_kernel = omega arith }

shared-IsPage : IsPage five_pages 3 shared_entry
shared-IsPage = record { entry = refl; after_kernel = omega arith }

kfree-kalloc_example :
    (t : Kmem) × (kfree (kalloc five_pages).0 (kalloc five_pages).1 ≡ ok t)
    × IsValid t
    × (t.free_pages ≡ five_pages.free_pages)
    × (t.pages_in_use ≡ five_pages.pages_in_use)
kfree-kalloc_example =
    kfree-kalloc five_pages five_pages-IsValid got_page (omega (arith, kalloc_page))
