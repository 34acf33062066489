-- ===== src/PageTable/Lookups.antt =====
-- `uva2ka` of kernel/x86_64vm.c after `mappages`.
use microkernal.Common.{if◌then◌else◌, not}
use microkernal.PageTable.{TableEntry, Looked, absent, found}

abbrev answer : TableEntry → Looked
answer e = if not e.present then absent else if not e.user then absent else found e.ppn
