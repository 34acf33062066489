-- ===== src/Vspace/Store.antt =====
-- `vspacewritetova` of kernel/vspace.c: what it does within a page, and where it never ends.
use microkernal.Common.{
  ==-of_ne, ==-refl, Bool-cases, add64, ap, arith, copy_in, eq_of_==, false, get_elem?, get_or,
  get_or-copy_in, get_or-of_some, if◌then◌else◌, inl, inr, kernbase, leb, length, ltb, ok, pgsize,
  refl, set_self, some, suc, sym, true, zero, ℕ, ◌%◌, ◌&&◌, ◌+◌, ◌-◌, ◌/◌, ◌<◌, ◌==◌, ◌^◌, ◌∙◌, ◌≡◌,
  ◌≢◌, ◌≤◌,
}
use mathlib.Core.Path.{fun_ext}
use microkernal.Kalloc.{update}
use microkernal.Vspace.{Vpi, Region, vm, va2vpi_idx, va2vregion, vpippage, get_info}
use microkernal.Vspace.Lookup.{va2vpage_info-there}
use microkernal.Vspace.Write.{
  finished, running, Writing, write_frame, write_in, write_loop, write_size, write_step,
  vspacewritetova,
}

-- The address of the round lies in region `k`, in a page whose entry `v` is in use.
pub record Writable (w : Writing) (k : ℕ) (r : Region) : Type 0 where
  pub found : va2vregion w.regions w.va ≡ some k
  pub at : get_elem? w.regions k ≡ some r
  pub listed : va2vpi_idx r w.va / vpippage < length r.pages
  pub used : (get_info r.pages (va2vpi_idx r w.va)).used ≡ true
  pub writable : (get_info r.pages (va2vpi_idx r w.va)).writable ≡ true

-- The state after a round.
abbrev pub stored : Writing → Vpi → Writing
stored w v =
    let n = write_size w.va w.left in
    record w {
      kmem = write_frame v (w.va % pgsize) n w.bytes w.kmem;
      va = add64 w.va n;
      left = w.left - n;
      bytes = λ j. w.bytes (n + j);
    }

write_in_lem :
    (w : Writing) (k : ℕ) (r : Region)
    → Writable w k r
    → write_in w (some k) ≡ ok (some (stored w (get_info r.pages (va2vpi_idx r w.va))))
write_in_lem w k r h = rw (get_or-of_some w.regions k _ h.at) (
    rw (va2vpage_info-there (vm w.kmem r) w.va h.listed)
      (rw h.used (rw h.writable (rw (set_self w.regions k h.at) refl))))

pub write_step_lem :
    (w : Writing) (k : ℕ) (r : Region)
    → Writable w k r
    → write_step w ≡ ok (some (stored w (get_info r.pages (va2vpi_idx r w.va))))
unfolding write_step
write_step_lem w k r h = ap (write_in w) h.found ∙ write_in_lem w k r h

update_self : {A : Type 0} (f : ℕ → A) (i : ℕ) → update f i (f i) ≡ f
update_self f i = fun_ext update-same
  where
    update-same : (j : ℕ) → update f i (f i) j ≡ f j
    update-same j = elim (Bool-cases (i == j)) [
      | inl e ↦ rw e (ap f (eq_of_== i j e))
      | inr e ↦ rw e refl
    ]

-- A round at the start of a page copies nothing and moves nowhere.
aligned-Stuck : (w : Writing) (v : Vpi) → w.va % 4096 ≡ 0 → w.va < 2 ^ 64 → stored w v ≡ w
unfolding copy_in
aligned-Stuck w v al b =
    let n : write_size w.va w.left ≡ 0 = omega arith in
    let a : add64 w.va 0 ≡ w.va = omega arith in
    let l : w.left - 0 ≡ w.left = omega arith in
    let d : (λ j. w.bytes (0 + j)) ≡ w.bytes = fun_ext (λ j. ap w.bytes (omega arith)) in
    rw n (
      rw a (
        rw l (
          rw d (
            ap (λ f. record w { kmem = record w.kmem { frame = f } })
              (update_self w.kmem.frame v.ppn)))))

-- A loop whose round changes nothing never ends.
stuck-running :
    (fuel end : ℕ) (w : Writing)
    → w.va < end
    → write_step w ≡ ok (some w)
    → write_loop fuel end w ≡ ok (running w)
unfolding write_loop
stuck-running zero end w l e = refl
stuck-running (suc fuel) end w l e =
    let t : ltb w.va end ≡ true = ground arith in
    rw (t, write_loop) (rw e (stuck-running fuel end w l e))

-- From an address below KERNBASE at the start of a page that is in use and writable,
-- `vspacewritetova` of any bytes is running still after any number of rounds, in the state it
-- started from.
pub vspacewritetova_hangs :
    (w : Writing) (k : ℕ) (r : Region)
    → Writable w k r
    → w.va % 4096 ≡ 0
    → 0 < w.left
    → w.va + w.left < kernbase
    → (fuel : ℕ) → vspacewritetova fuel w ≡ ok (running w)
unfolding vspacewritetova
vspacewritetova_hangs w k r h al pos low fuel =
    let p : (w.left == 0) ≡ false = ground arith in
    let q : leb kernbase (add64 w.va w.left) ≡ false = ground arith in
    let e : ltb w.va (add64 w.va w.left) ≡ true = ground arith in
    rw p (
      rw q (
        stuck-running fuel (add64 w.va w.left) w (ground arith) (
          write_step_lem w k r h
          ∙ ap (λ x. ok (some x))
              (aligned-Stuck w (get_info r.pages (va2vpi_idx r w.va)) al (omega arith)))))

-- The string that `w` was to write is in the page of entry `v`, and the other page frames are as before.
abbrev pub Stored : Writing → Vpi → Writing → Type 0
Stored w v t =
    ((j : ℕ)
      → get_or (t.kmem.frame v.ppn) j 0 ≡ (
          if leb (w.va % 4096) j && ltb j (w.va % 4096 + w.left)
          then w.bytes (j - w.va % 4096)
          else get_or (w.kmem.frame v.ppn) j 0))
    × ((p : ℕ) → p ≢ v.ppn → t.kmem.frame p ≡ w.kmem.frame p)

write_frame-Stored :
    (w : Writing) (v : Vpi)
    → w.va % 4096 + w.left ≤ length (w.kmem.frame v.ppn)
    → write_size w.va w.left ≡ w.left
    → Stored w v (stored w v)
write_frame-Stored w v fits n = (
  λ j.
      rw (==-refl v.ppn)
        (rw n (get_or-copy_in (w.kmem.frame v.ppn) (w.va % 4096) w.left w.bytes j fits)),
  λ p ne. rw (==-of_ne v.ppn p (λ e. ne (sym e))) refl,
)

write_loop_done :
    (fuel end : ℕ) (w : Writing)
    → ltb w.va end ≡ false
    → write_loop (suc fuel) end w ≡ ok (finished w)
unfolding write_loop
write_loop_done fuel end w z = rw (z, write_loop) refl

-- From an address below KERNBASE that is not the start of a page, in a page that is in use and
-- writable, `vspacewritetova` of bytes that end in the same page finishes, writes them there, and
-- changes no other byte of the page and no other page.
pub vspacewritetova-Stored :
    (w : Writing) (k : ℕ) (r : Region)
    → Writable w k r
    → w.va % 4096 ≢ 0
    → w.va % 4096 + w.left ≤ 4096
    → 0 < w.left
    → w.va + w.left < kernbase
    → length (w.kmem.frame (get_info r.pages (va2vpi_idx r w.va)).ppn) ≡ 4096
    → (fuel : ℕ)
    → (t : Writing) × (vspacewritetova (suc (suc fuel)) w ≡ ok (finished t))
      × Stored w (get_info r.pages (va2vpi_idx r w.va)) t
unfolding vspacewritetova write_loop
vspacewritetova-Stored w k r h un fits pos low full fuel =
    let v = get_info r.pages (va2vpi_idx r w.va) in
    let n : write_size w.va w.left ≡ w.left = omega arith in
    let p : (w.left == 0) ≡ false = ground arith in
    let q : leb kernbase (add64 w.va w.left) ≡ false = ground arith in
    let e : ltb w.va (add64 w.va w.left) ≡ true = ground arith in
    let z : ltb (add64 w.va (write_size w.va w.left)) (add64 w.va w.left) ≡ false = ground arith in
    (
      stored w v,
      rw p (
          rw q (
            rw (e, write_loop)
              (rw (write_step_lem w k r h)
                (write_loop_done fuel (add64 w.va w.left) (stored w v) z)))),
      write_frame-Stored w v (omega arith) n,
    )
