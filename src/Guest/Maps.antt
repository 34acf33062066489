-- ===== src/Guest/Maps.antt =====
-- What the mapping calls of kernel/guest.c do to the page tables and to the map of pages.
use microkernal.Common.{
  ==-of_ne, ==-refl, Bool-cases, ap, arith, false, get_elem?, get_elem?-set_ne, get_elem?-set_self,
  if◌then◌else◌, inl, inr, lt_of_get_elem?, ltb, ok, refl, some, subst, sym, true, ℕ, ◌/◌, ◌==◌,
  ◌∙◌, ◌≡◌, ◌≢◌, ◌≤◌,
}
use microkernal.Guest.{
  guest_pte, make_table, pte_or_zero, set_pte, page_number, app_pte, Pte, update, grow_region,
  Segment, Space, System, add_map, arg_int, outside, sys_gaddmap,
}

-- The guest may map page `ppn` at `va` for the application `pid`.
pub record MayMap (s : System) (pid ppn va : ℕ) : Type 0 where
  pub segment : Segment
  pub listed : get_elem? s.app_processes pid ≡ some segment
  pub owns : segment.owned ≢ 0
  pub status : ℕ
  pub known : get_elem? s.user_pages ppn ≡ some status
  pub has_page : status ≢ 0
  pub from : segment.base ≤ va
  pub to : va ≤ segment.bound
  pub space : Space
  pub found : s.app pid ≡ some space

pub outside-of_le : (g : Segment) (va : ℕ) → g.base ≤ va → va ≤ g.bound → outside g va ≡ false
outside-of_le g va lo hi = ground arith

pub sys_gaddmap_lem :
    (a : ℕ → ℕ) (s : System) (h : MayMap s (arg_int a 0) (arg_int a 1) (a 2))
    → sys_gaddmap true a s ≡ ok (0, add_map a s h.segment h.space)
unfolding sys_gaddmap
sys_gaddmap_lem a s h = rw h.listed (
    rw (==-of_ne h.segment.owned 0 h.owns) (
      rw h.known (
        rw (==-of_ne h.status 0 h.has_page)
          (rw (outside-of_le h.segment (a 2) h.from h.to) (rw h.found refl)))))

pgtbl-grow_region : (va midpoint : ℕ) (s : Space) → (grow_region va midpoint s).pgtbl ≡ s.pgtbl
pgtbl-grow_region va midpoint s = elim (Bool-cases (ltb va midpoint)) [
  | inl e ↦ rw e refl
  | inr e ↦ rw e refl
]

pub update_here : {A : Type 0} (f : ℕ → A) (i : ℕ) (x : A) → update f i x i ≡ x
update_here f i x = rw (==-refl i) refl

update_other : {A : Type 0} (f : ℕ → A) (i j : ℕ) (x : A) → i ≢ j → update f i x j ≡ f j
update_other f i j x ne = rw (==-of_ne i j ne) refl

-- Space `q` is `p` with `e` at `va`; if the page had no table, its other entries are there now, and empty.
pub record MapsAt (p : Space) (va : ℕ) (e : Pte) (q : Space) : Type 0 where
  pub here : q.pgtbl (page_number va) ≡ some e
  pub others :
      (n : ℕ)
      → page_number va ≢ n
      → q.pgtbl n
        ≡ (if page_number va / 512 == n / 512 then some (pte_or_zero (p.pgtbl n)) else p.pgtbl n)

mapped_space :
    (p : Space) (va midpoint : ℕ) (e : Pte)
    → MapsAt p va e (grow_region va midpoint (set_pte va e (make_table va p)))
mapped_space p va midpoint e =
    let g = pgtbl-grow_region va midpoint (set_pte va e (make_table va p)) in
    record {
      here =
          ap (λ f. f (page_number va)) g
          ∙ update_here (make_table va p).pgtbl (page_number va) (some e);
      others = λ n ne.
          ap (λ f. f n) g ∙ update_other (make_table va p).pgtbl (page_number va) n (some e) ne;
    }

-- What a mapping call for page `ppn` of the guest at `va` of `pid` leaves.
pub record Mapped (s : System) (pid ppn va : ℕ) (p : Space) (e : Pte) (t : System) : Type 0 where
  pub in_guest : MapsAt s.guest va (guest_pte ppn) t.guest
  pub space : Space
  pub found : t.app pid ≡ some space
  pub in_app : MapsAt p va e space
  pub others : (k : ℕ) → pid ≢ k → t.app k ≡ s.app k
  pub status : get_elem? t.user_pages ppn ≡ some 2
  pub pages : (n : ℕ) → ppn ≢ n → get_elem? t.user_pages n ≡ get_elem? s.user_pages n
  pub segments : t.app_processes ≡ s.app_processes

-- Where the guest owns the application and the page, the address lies within the application's bounds and
-- there is memory for the tables, the page is mapped at the address for both, as asked for the application
-- and writable for the guest. No other entry changes, but for the empty entries of a table that is made;
-- the other applications and the status of the other pages stay as they are.
pub sys_gaddmap-Mapped :
    (a : ℕ → ℕ) (s : System) (h : MayMap s (arg_int a 0) (arg_int a 1) (a 2))
    → (t : System) × (sys_gaddmap true a s ≡ ok (0, t))
      × Mapped s
          (arg_int a 0)
          (arg_int a 1)
          (a 2)
          h.space
          (app_pte (arg_int a 1) (arg_int a 3) (arg_int a 4))
          t
sys_gaddmap-Mapped a s h =
    let e = app_pte (arg_int a 1) (arg_int a 3) (arg_int a 4) in
    (
      add_map a s h.segment h.space,
      sys_gaddmap_lem a s h,
      record {
        in_guest = mapped_space s.guest (a 2) h.segment.midpoint (guest_pte (arg_int a 1));
        space = grow_region (a 2) h.segment.midpoint (set_pte (a 2) e (make_table (a 2) h.space));
        found = update_here s.app (arg_int a 0) _;
        in_app = mapped_space h.space (a 2) h.segment.midpoint e;
        others = λ k ne. update_other s.app (arg_int a 0) k _ ne;
        status =
            get_elem?-set_self s.user_pages (arg_int a 1) 2
              (lt_of_get_elem? s.user_pages (arg_int a 1) h.known);
        pages = λ n ne. get_elem?-set_ne s.user_pages (arg_int a 1) n 2 ne;
        segments = refl;
      },
    )

-- Where a guest may map one page for two of its applications, it can map it for both, one after the
-- other: then the page tables of both have it.
pub sys_gaddmap_shares :
    (a b : ℕ → ℕ) (s : System) (h : MayMap s (arg_int a 0) (arg_int a 1) (a 2))
    → MayMap s (arg_int b 0) (arg_int b 1) (b 2)
    → arg_int a 0 ≢ arg_int b 0
    → arg_int a 1 ≡ arg_int b 1
    → (t u : System) × (sys_gaddmap true a s ≡ ok (0, t))
      × (sys_gaddmap true b t ≡ ok (0, u))
      × ((p : Space) × (p' : Space) × (e : Pte) × (e' : Pte) × (u.app (arg_int a 0) ≡ some p)
          × (p.pgtbl (page_number (a 2)) ≡ some e)
          × (u.app (arg_int b 0) ≡ some p')
          × (p'.pgtbl (page_number (b 2)) ≡ some e')
          × (e.ppn ≡ e'.ppn))
sys_gaddmap_shares a b s h k ne same =
    let (t, run, m) = sys_gaddmap-Mapped a s h in
    let k' : MayMap t (arg_int b 0) (arg_int b 1) (b 2) = record {
      segment = k.segment;
      listed = ap (λ l. get_elem? l (arg_int b 0)) m.segments ∙ k.listed;
      owns = k.owns;
      status = 2;
      known = subst (λ n. get_elem? t.user_pages n ≡ some 2) same m.status;
      has_page = λ z. cc z;
      from = k.from;
      to = k.to;
      space = k.space;
      found = m.others (arg_int b 0) ne ∙ k.found;
    } in
    let (u, run', m') = sys_gaddmap-Mapped b t k' in
    (
      t,
      u,
      run,
      run',
      (
        m.space,
        m'.space,
        _,
        _,
        m'.others (arg_int a 0) (λ z. ne (sym z)) ∙ m.found,
        m.in_app.here,
        m'.found,
        m'.in_app.here,
        same,
      ),
    )
