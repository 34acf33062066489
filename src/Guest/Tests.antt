-- ===== src/Guest/Tests.antt =====
-- Witnesses on a guest with two applications and four pages, of which one is mapped already.
use microkernal.Common.{
  [], arith, get_elem?, if◌then◌else◌, none, ok, refl, some, true, ℕ, ◌==◌, ◌∷◌, ◌≡◌,
}
use microkernal.Guest.{Pte, Segment, Space, System, app_pte, sys_gaddmap, sys_gremovemap, zero_pte}
use microkernal.Guest.Maps.{Mapped, MayMap, sys_gaddmap-Mapped}
use microkernal.Guest.Unmaps.{IsMapped, sys_gremovemap-sys_gaddmap}

abbrev segment : Segment
segment = record { owned = 1; bound = 65536; midpoint = 32768; base = 16384 }

abbrev free_segment : Segment
free_segment = record { owned = 0; bound = 0; midpoint = 0; base = 0 }

abbrev page_three : Pte
page_three = record { ppn = 3; present = true; writable = true; user = true }

-- Page 3 is at 32768.
abbrev space : Space
space = record {
  pgtbl = λ n. if n == 8 then some page_three else none;
  stack_size = 0;
  heap_size = 4096;
}

abbrev system : System
system = record {
  user_pages = 0 ∷ 1 ∷ 1 ∷ 2 ∷ [];
  app_processes = free_segment ∷ segment ∷ segment ∷ [];
  guest = space;
  app = λ pid. some space;
}

-- The arguments of a call.
abbrev args : (pid ppn va : ℕ) → ℕ → ℕ
args pid ppn va n = if n == 0 then pid else if n == 1 then ppn else if n == 2 then va else 1

abbrev may_map_first : MayMap system 1 2 40960
may_map_first = record {
  segment = segment;
  listed = refl;
  owns = λ e. cc e;
  status = 1;
  known = refl;
  has_page = λ e. cc e;
  from = omega arith;
  to = omega arith;
  space = space;
  found = refl;
}

may_map_second : MayMap system 2 2 20480
may_map_second = record {
  segment = segment;
  listed = refl;
  owns = λ e. cc e;
  status = 1;
  known = refl;
  has_page = λ e. cc e;
  from = omega arith;
  to = omega arith;
  space = space;
  found = refl;
}

sys_gaddmap-Mapped_example :
    (t : System) × (sys_gaddmap true (args 1 2 40960) system ≡ ok (0, t))
    × Mapped system 1 2 40960 space (app_pte 2 1 1) t
sys_gaddmap-Mapped_example = sys_gaddmap-Mapped (args 1 2 40960) system may_map_first

-- The address stands in argument 1 of the other calls.
sys_gremovemap-sys_gaddmap_example :
    (t u : System) × (sys_gaddmap true (args 1 2 40960) system ≡ ok (0, t))
    × (sys_gremovemap (args 1 40960 0) t ≡ ok (2, u))
    × (get_elem? u.user_pages 2 ≡ some 1)
    × (u.guest.pgtbl 10 ≡ some zero_pte)
    × ((p : Space) × (u.app 1 ≡ some p) × (p.pgtbl 10 ≡ some zero_pte))
sys_gremovemap-sys_gaddmap_example =
    sys_gremovemap-sys_gaddmap (args 1 2 40960) (args 1 40960 0) system may_map_first refl refl

page_three-IsMapped : IsMapped system 1 32768 page_three
page_three-IsMapped = record {
  segment = segment;
  listed = refl;
  owns = λ e. cc e;
  from = omega arith;
  to = omega arith;
  space = space;
  found = refl;
  in_app = refl;
  guest_entry = page_three;
  in_guest = refl;
  same = refl;
}
