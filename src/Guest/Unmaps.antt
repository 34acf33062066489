-- ===== src/Guest/Unmaps.antt =====
-- Taking a mapping back and changing its flags, kernel/guest.c.
use microkernal.Common.{
  ==-of_ne, ==-refl, ap, ap₂, arith, false, get_elem?, get_elem?-set_self, lt_of_get_elem?, ok,
  refl, some, subst, sym, true, ℕ, ◌==◌, ◌∙◌, ◌≡◌, ◌≢◌, ◌≤◌,
}
use microkernal.Kalloc.{update}
use microkernal.Guest.{
  Pte, Segment, Space, System, app_pte, arg_int, clear_map, guest_pte, page_number, set_flags,
  sys_gaddmap, sys_gremovemap, sys_gupdate_flags, zero_pte, flagged, same_page, set_pte,
}
use microkernal.Guest.Maps.{MayMap, sys_gaddmap-Mapped, outside-of_le, update_here}

-- `pid` is an application of the guest with `va` in its bounds, and both map the page of `e` there.
pub record IsMapped (s : System) (pid va : ℕ) (e : Pte) : Type 0 where
  pub segment : Segment
  pub listed : get_elem? s.app_processes pid ≡ some segment
  pub owns : segment.owned ≢ 0
  pub from : segment.base ≤ va
  pub to : va ≤ segment.bound
  pub space : Space
  pub found : s.app pid ≡ some space
  pub in_app : space.pgtbl (page_number va) ≡ some e
  pub guest_entry : Pte
  pub in_guest : s.guest.pgtbl (page_number va) ≡ some guest_entry
  pub same : guest_entry.ppn ≡ e.ppn

pub sys_gremovemap_lem :
    (a : ℕ → ℕ) (s : System) (e : Pte) (h : IsMapped s (arg_int a 0) (a 1) e) (o : ℕ)
    → get_elem? s.user_pages e.ppn ≡ some o
    → o ≢ 0
    → sys_gremovemap a s ≡ ok (e.ppn, clear_map (arg_int a 0) (a 1) e.ppn s h.space)
unfolding sys_gremovemap
sys_gremovemap_lem a s e h o known has_page =
    let eq : (h.guest_entry.ppn == e.ppn) ≡ true = ground (arith, h.same) in
    let known' : get_elem? s.user_pages h.guest_entry.ppn ≡ some o =
      subst (λ n. get_elem? s.user_pages n ≡ some o) (sym h.same) known in
    rw h.listed (
      rw (==-of_ne h.segment.owned 0 h.owns) (
        rw (outside-of_le h.segment (a 1) h.from h.to) (
          rw h.in_guest (
            rw known' (
              rw (==-of_ne o 0 has_page) (
                rw h.found (
                  rw h.in_app (
                    rw eq
                      (ap (λ n. ok (n, clear_map (arg_int a 0) (a 1) n s h.space)) h.same)))))))))

cleared :
    (p : Space) (v w : ℕ) → v ≡ w → (set_pte v zero_pte p).pgtbl (page_number w) ≡ some zero_pte
cleared p v w e =
    ap (λ x. (set_pte v zero_pte p).pgtbl (page_number x)) (sym e)
    ∙ update_here p.pgtbl (page_number v) (some zero_pte)

-- What `sys_gaddmap` has mapped, `sys_gremovemap` at the same address takes back: it answers the page,
-- which the guest can give away again, and clears both entries.
pub sys_gremovemap-sys_gaddmap :
    (a b : ℕ → ℕ) (s : System)
    → MayMap s (arg_int a 0) (arg_int a 1) (a 2)
    → arg_int b 0 ≡ arg_int a 0
    → b 1 ≡ a 2
    → (t u : System) × (sys_gaddmap true a s ≡ ok (0, t))
      × (sys_gremovemap b t ≡ ok (arg_int a 1, u))
      × (get_elem? u.user_pages (arg_int a 1) ≡ some 1)
      × (u.guest.pgtbl (page_number (a 2)) ≡ some zero_pte)
      × ((p : Space) × (u.app (arg_int a 0) ≡ some p)
          × (p.pgtbl (page_number (a 2)) ≡ some zero_pte))
sys_gremovemap-sys_gaddmap a b s h pid va =
    let (t, run, m) = sys_gaddmap-Mapped a s h in
    let e = app_pte (arg_int a 1) (arg_int a 3) (arg_int a 4) in
    let i : IsMapped t (arg_int b 0) (b 1) e = record {
      segment = h.segment;
      listed = ap₂ get_elem? m.segments pid ∙ h.listed;
      owns = h.owns;
      from = subst (λ v. h.segment.base ≤ v) (sym va) h.from;
      to = subst (λ v. v ≤ h.segment.bound) (sym va) h.to;
      space = m.space;
      found = ap t.app pid ∙ m.found;
      in_app = ap (λ v. m.space.pgtbl (page_number v)) va ∙ m.in_app.here;
      guest_entry = guest_pte (arg_int a 1);
      in_guest = ap (λ v. t.guest.pgtbl (page_number v)) va ∙ m.in_guest.here;
      same = refl;
    } in
    let c = sys_gremovemap_lem b t e i 2 m.status (λ z. cc z) in
    (
      t,
      clear_map (arg_int b 0) (b 1) (arg_int a 1) t m.space,
      run,
      c,
      get_elem?-set_self t.user_pages (arg_int a 1) 1
          (lt_of_get_elem? t.user_pages (arg_int a 1) m.status),
      cleared t.guest (b 1) (a 2) va,
      (
        set_pte (b 1) zero_pte m.space,
        ap (update t.app (arg_int b 0) (some (set_pte (b 1) zero_pte m.space))) (sym pid)
            ∙ update_here t.app (arg_int b 0) (some (set_pte (b 1) zero_pte m.space)),
        cleared m.space (b 1) (a 2) va,
      ),
    )

-- Whatever flags are asked for, a call of `sys_gupdate_flags` at an address whose low half is not 1, so at
-- the start of any page, takes the page from the application: neither present nor writable.
pub sys_gupdate_flags_clears :
    (a : ℕ → ℕ) (s : System) (e : Pte) (h : IsMapped s (arg_int a 0) (a 1) e)
    → arg_int a 1 ≢ 1
    → (t : System) × (sys_gupdate_flags a s ≡ ok (0, t))
      × ((p : Space) × (t.app (arg_int a 0) ≡ some p)
          × (p.pgtbl (page_number (a 1)) ≡ some (record e { present = false; writable = false })))
unfolding sys_gupdate_flags
sys_gupdate_flags_clears a s e h ne =
    let eq : (h.guest_entry.ppn == e.ppn) ≡ true = ground (arith, h.same) in
    let same : same_page (s.guest.pgtbl (page_number (a 1))) (h.space.pgtbl (page_number (a 1)))
        ≡ true =
      rw h.in_guest (rw h.in_app eq) in
    let n : (arg_int a 1 == 1) ≡ false = ==-of_ne (arg_int a 1) 1 ne in
    (
      set_flags (arg_int a 0) (a 1) (arg_int a 1) (arg_int a 1) s h.space e,
      rw h.listed (
          rw (==-of_ne h.segment.owned 0 h.owns) (
            rw (outside-of_le h.segment (a 1) h.from h.to)
              (rw h.found (rw same (rw h.in_app refl))))),
      (
        set_pte (a 1) (flagged (arg_int a 1) (arg_int a 1) e) h.space,
        rw (==-refl (arg_int a 0)) refl,
        rw (==-refl (page_number (a 1))) (rw n refl),
      ),
    )
