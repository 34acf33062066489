-- ===== src/Vspace/Copy.antt =====
-- The copies of an address space that fork makes, kernel/vspace.c: vspacecopy, and cow_vspacecopy that
-- shares the pages.
pub mod Failure
pub mod Owners
pub mod Pages
pub mod Spaces
use microkernal.Common.{
  Bool, List, Outcome, [], false, length, ok, pgnum, pgsize, replicate, true, v2p, ℕ, ◌%◌, ◌*◌,
  ◌==◌, ◌>>=◌, ◌^◌, ◌∷◌,
}
use microkernal.Kalloc.{Kmem, kalloc, kincref}
use microkernal.Vspace.{
  Vpi, blank_vpi, vpippage, VpiPage, Region, Vspace, with_pages, set_frame, frame_address,
}

-- What a copy of pages leaves: whether it succeeded, the allocator, and the new list.
pub record Copying (A : Type 0) : Type 0 where
  pub done : Bool
  pub kmem : Kmem
  pub list : List A

abbrev pub copying : {A : Type 0} → Bool → Kmem → List A → Copying A
copying done m l = record { done = done; kmem = m; list = l }

abbrev pub cons_copy : {A : Type 0} → A → Copying A → Copying A
cons_copy x c = copying c.done c.kmem (x ∷ c.list)

-- The entry for a copy of `v` whose page lies at `mem`.
abbrev pub copied_vpi : ℕ → Vpi → Vpi
copied_vpi mem v = record {
  used = v.used;
  ppn = pgnum (v2p mem);
  present = v.present;
  writable = v.writable;
  cow = false;
}

-- Without a page the flags are set already.
abbrev pub failed_vpi : Vpi → Vpi
failed_vpi v = record {
  used = v.used;
  ppn = 0;
  present = v.present;
  writable = v.writable;
  cow = false;
}

-- `memmove(data, P2V(srcvpi->ppn << PT_SHIFT), PGSIZE)`, after `kalloc` has returned `data`.
abbrev pub copy_frame : Kmem → Vpi → Kmem
copy_frame m v = set_frame (kalloc m).1 (kalloc m).0 (m.frame v.ppn)

-- The loop of `copy_vpi_page` over the entries of a page.
unfoldable pub copy_infos : List Vpi → Kmem → Copying Vpi
copy_infos [] m = copying true m []
copy_infos (v ∷ vs) m = elim v.used [
  | false ↦ cons_copy blank_vpi (copy_infos vs m)
  | true ↦ elim ((kalloc m).0 == 0) [
    | true ↦ copying false (kalloc m).1 (failed_vpi v ∷ replicate (length vs) blank_vpi)
    | false ↦ cons_copy (copied_vpi (kalloc m).0 v) (copy_infos vs (copy_frame m v))
  ]
]

abbrev pub info_page : ℕ → List Vpi → VpiPage
info_page a infos = record { page = a; infos = infos }

unfoldable pub copy_vpi_page : List VpiPage → Kmem → Copying VpiPage
unfolding copy_infos
copy_vpi_page [] m = copying true m []
copy_vpi_page (p ∷ ps) m =
    let a = (kalloc m).0 in
    let c = copy_infos p.infos (kalloc m).1 in
    elim (a == 0) [
      | true ↦ copying false (kalloc m).1 []
      | false ↦ elim c.done [
        | false ↦ copying false c.kmem (info_page a c.list ∷ [])
        | true ↦ cons_copy (info_page a c.list) (copy_vpi_page ps c.kmem)
      ]
    ]

-- The loop of `vspacecopy` over the regions, which `memmove` has copied with their pointers: after a
-- failure the regions that are left still have the pages of the source. `vspaceinvalidate`, which
-- builds the page tables of the copy after a success, is no part of it.
unfoldable pub vspacecopy : Vspace → Kmem → Copying Region
unfolding copy_vpi_page
vspacecopy [] m = copying true m []
vspacecopy (r ∷ rs) m =
    let c = copy_vpi_page r.pages m in
    elim c.done [
      | false ↦ copying false c.kmem (with_pages r c.list ∷ rs)
      | true ↦ cons_copy (with_pages r c.list) (vspacecopy rs c.kmem)
    ]

-- An entry that two spaces share: not writable, and copied on a write.
abbrev pub shared_vpi : Vpi → Vpi
shared_vpi v = record v { writable = false; cow = true }

abbrev pub shared_dst : Vpi → Vpi
shared_dst v = record {
  used = v.used;
  ppn = v.ppn;
  present = v.present;
  writable = false;
  cow = true;
}

-- The loop of `cow_copy_vpi_page`: the entries of the source as they are now, and those of the copy.
unfoldable pub cow_infos : List Vpi → Kmem → Outcome (List Vpi × List Vpi × Kmem)
cow_infos [] m = ok ([], [], m)
cow_infos (v ∷ vs) m = elim v.used [
  | false ↦ (cow_infos vs m >>= λ r. ok (v ∷ r.0, blank_vpi ∷ r.1, r.2))
  | true ↦
      (kincref (v.ppn * pgsize % 2 ^ 64) m >>= λ m'.
      cow_infos vs m' >>= λ r. ok (shared_vpi v ∷ r.0, shared_dst v ∷ r.1, r.2))
]
