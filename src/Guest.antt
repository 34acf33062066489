-- ===== src/Guest.antt =====
-- The system calls by which a guest operating system maps pages for its applications, kernel/guest.c,
-- and the queue of messages to it. A call's arguments are what fetcharg answers. The result `panic`
-- also stands for an index outside an array and a null pointer that is followed.
pub mod Maps
pub mod Queue
mod Tests
pub mod Unmaps
use microkernal.Common.{
  Bool, List, Option, Outcome, [], add64, false, get_elem?, if◌then◌else◌, ltb, none, not, ok,
  panic, pgsize, set, some, suc, true, ℕ, ◌%◌, ◌/◌, ◌==◌, ◌>>=◌, ◌^◌, ◌||◌, ◌∷◌,
}
use microkernal.Kalloc.{update}
use microkernal.Vspace.{minus_one}

-- `struct app_va_segment`
pub record Segment : Type 0 where
  pub owned : ℕ
  pub bound : ℕ
  pub midpoint : ℕ
  pub base : ℕ

-- An entry of a page table.
pub record Pte : Type 0 where
  pub ppn : ℕ
  pub present : Bool
  pub writable : Bool
  pub user : Bool

abbrev pub zero_pte : Pte
zero_pte = record { ppn = 0; present = false; writable = false; user = false }

-- The page table by page number, where `none` has no table yet, and the sizes of the regions for the
-- stack and the heap: VR_USTACK and VR_HEAP of an application, VR_APP_USTACK and VR_APP_HEAP of the guest.
pub record Space : Type 0 where
  pub pgtbl : ℕ → Option Pte
  pub stack_size : ℕ
  pub heap_size : ℕ

-- The guest's `user_pages` and `app_processes`, its space, and the spaces that `findproc` gives for its
-- applications, which are other processes.
pub record System : Type 0 where
  pub user_pages : List ℕ
  pub app_processes : List Segment
  pub guest : Space
  pub app : ℕ → Option Space

abbrev pub some_or_panic {ℓ} : {A : Type ℓ} → Option A → Outcome A
some_or_panic none = panic
some_or_panic (some a) = ok a

abbrev pub arg_int : (ℕ → ℕ) → ℕ → ℕ
arg_int a n = a n % 2 ^ 32

-- The four indices into the tables take 36 bits of the page's number.
abbrev pub page_number : ℕ → ℕ
page_number va = va / pgsize % 2 ^ 36

-- `va` is outside the application's addresses; `bound` itself is allowed.
abbrev pub outside : Segment → ℕ → Bool
outside g va = ltb va g.base || ltb g.bound va

abbrev pub pte_or_zero : Option Pte → Pte
pte_or_zero none = zero_pte
pte_or_zero (some e) = e

-- What walkpml4(pgtbl, va, 1) makes: a table of 512 entries, cleared, if there is none for the page yet.
abbrev pub make_table : ℕ → Space → Space
make_table va s = record s {
  pgtbl =
      λ n. if page_number va / 512 == n / 512 then some (pte_or_zero (s.pgtbl n)) else s.pgtbl n;
}

-- A write to the entry of an address whose table is there.
abbrev pub set_pte : ℕ → Pte → Space → Space
set_pte va e s = record s { pgtbl = update s.pgtbl (page_number va) (some e) }

abbrev pub grow_region : (va midpoint : ℕ) → Space → Space
grow_region va midpoint s =
    if ltb va midpoint
    then record s { stack_size = add64 s.stack_size pgsize }
    else record s { heap_size = add64 s.heap_size pgsize }

abbrev pub app_pte : (ppn present writable : ℕ) → Pte
app_pte ppn present writable = record {
  ppn = ppn;
  present = not (present == 0);
  writable = not (writable == 0);
  user = true;
}

abbrev pub guest_pte : ℕ → Pte
guest_pte ppn = record { ppn = ppn; present = true; writable = true; user = true }

-- The part of `sys_gaddmap` behind its checks.
abbrev pub add_map : (a : ℕ → ℕ) → System → Segment → Space → System
add_map a s g p = record {
  user_pages = set s.user_pages (arg_int a 1) 2;
  app_processes = s.app_processes;
  guest =
      grow_region (a 2) g.midpoint
        (set_pte (a 2) (guest_pte (arg_int a 1)) (make_table (a 2) s.guest));
  app = update s.app (arg_int a 0) (
      some (
        grow_region (a 2) g.midpoint (
          set_pte (a 2) (app_pte (arg_int a 1) (arg_int a 3) (arg_int a 4)) (make_table (a 2) p))));
}

-- `tables` says whether walkpml4 has the memory for the tables that it makes.
unfoldable pub sys_gaddmap : (tables : Bool) → (a : ℕ → ℕ) → System → Outcome (ℕ × System)
sys_gaddmap tables a s = some_or_panic (get_elem? s.app_processes (arg_int a 0)) >>= λ g.
    if g.owned == 0
    then ok (minus_one, s)
    else (some_or_panic (get_elem? s.user_pages (arg_int a 1)) >>= λ o.
        if o == 0
        then ok (minus_one, s)
        else if outside g (a 2)
        then ok (minus_one, s)
        else (some_or_panic (s.app (arg_int a 0)) >>= λ p.
            if tables then ok (0, add_map a s g p) else panic))

abbrev pub clear_map : (pid va ppn : ℕ) → System → Space → System
clear_map pid va ppn s p = record {
  user_pages = set s.user_pages ppn 1;
  app_processes = s.app_processes;
  guest = set_pte va zero_pte s.guest;
  app = update s.app pid (some (set_pte va zero_pte p));
}

-- The guest's entry is read before it is tested for null.
unfoldable pub sys_gremovemap : (a : ℕ → ℕ) → System → Outcome (ℕ × System)
sys_gremovemap a s = some_or_panic (get_elem? s.app_processes (arg_int a 0)) >>= λ g.
    if g.owned == 0
    then ok (minus_one, s)
    else if outside g (a 1)
    then ok (minus_one, s)
    else (some_or_panic (s.guest.pgtbl (page_number (a 1))) >>= λ e.
        some_or_panic (get_elem? s.user_pages e.ppn) >>= λ o.
        if o == 0
        then ok (minus_one, s)
        else (some_or_panic (s.app (arg_int a 0)) >>= λ p.
            some_or_panic (p.pgtbl (page_number (a 1))) >>= λ e'.
            if e.ppn == e'.ppn
            then ok (e.ppn, clear_map (arg_int a 0) (a 1) e.ppn s p)
            else ok (minus_one, s)))

abbrev pub flagged : (present writable : ℕ) → Pte → Pte
flagged present writable e = record e { present = present == 1; writable = writable == 1 }

abbrev pub same_page : Option Pte → Option Pte → Bool
same_page none e = false
same_page (some e) none = false
same_page (some e) (some e') = e.ppn == e'.ppn

abbrev pub set_flags : (pid va present writable : ℕ) → System → Space → Pte → System
set_flags pid va present writable s p e = record s {
  app = update s.app pid (some (set_pte va (flagged present writable e) p));
}

-- Both flags are read from argument 1, the low half of the address.
unfoldable pub sys_gupdate_flags : (a : ℕ → ℕ) → System → Outcome (ℕ × System)
sys_gupdate_flags a s = some_or_panic (get_elem? s.app_processes (arg_int a 0)) >>= λ g.
    if g.owned == 0
    then ok (minus_one, s)
    else if outside g (a 1)
    then ok (minus_one, s)
    else (some_or_panic (s.app (arg_int a 0)) >>= λ p.
        if same_page (s.guest.pgtbl (page_number (a 1))) (p.pgtbl (page_number (a 1)))
        then (some_or_panic (p.pgtbl (page_number (a 1))) >>= λ e.
            ok (0, set_flags (arg_int a 0) (a 1) (arg_int a 1) (arg_int a 1) s p e))
        else ok (minus_one, s))

-- `struct syscall_message` without its buffer.
pub record Message : Type 0 where
  pub pid : ℕ
  pub syscall_index : ℕ
  pub num_args : ℕ
  pub args : List (List ℕ)

-- The list of messages from `syscall_buffer` on; the loop goes to its last message.
unfoldable pub insert_syscall : Message → List Message → List Message
insert_syscall m [] = m ∷ []
insert_syscall m (x ∷ []) = x ∷ m ∷ []
insert_syscall m (x ∷ y ∷ ms) = x ∷ insert_syscall m (y ∷ ms)

-- The message that `sys_gnext_syscall` copies out, and the list behind it; `none` while the guest sleeps.
unfoldable pub next_syscall : List Message → Option (Message × List Message)
next_syscall [] = none
next_syscall (m ∷ ms) = some (m, ms)

-- The loop of `sys_gquery_user_pages`: how many pages the guest can give away, and the copy of the map.
unfoldable pub query_user_pages : List ℕ → ℕ × List ℕ
query_user_pages [] = (0, [])
query_user_pages (o ∷ os) =
    let r = query_user_pages os in ((if o == 1 then suc r.0 else r.0), o ∷ r.1)
