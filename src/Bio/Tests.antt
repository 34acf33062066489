-- ===== src/Bio/Tests.antt =====
-- Witnesses on a cache of three buffers, one of them in use.
use microkernal.Common.{[], arith, count_if, false, ok, refl, suc, true, zero, ◌∷◌, ◌≡◌}
use microkernal.Bio.{Buf, Cache, bread, brelse}
use microkernal.Bio.Lookup.{Unique}
use microkernal.Bio.Coherence.{Coherent}
use microkernal.Bio.Release.{Released, brelse-Coherent}
use microkernal.Bio.Calls.{BreadEnds, bread-BreadEnds}

abbrev unused_buf : Buf
unused_buf = record {
  dev = 0;
  blockno = 0;
  valid = false;
  dirty = false;
  refcnt = 0;
  locked = false;
  bytes = [];
}

abbrev held_buf : Buf
held_buf = record {
  dev = 1;
  blockno = 7;
  valid = true;
  dirty = false;
  refcnt = 1;
  locked = true;
  bytes = 5 ∷ [];
}

abbrev three_bufs : Cache
three_bufs = record {
  bufs = held_buf ∷ unused_buf ∷ unused_buf ∷ [];
  disk = λ n. n ∷ [];
  disksize = 100;
  crashn_enable = false;
  crashn = 0;
}

three_bufs-Unique : Unique three_bufs.bufs
unfolding count_if
three_bufs-Unique d n nz = ground arith

three_bufs-Coherent : Coherent three_bufs
three_bufs-Coherent zero b h l = ground arith
three_bufs-Coherent (suc zero) b h l = ground arith
three_bufs-Coherent (suc (suc zero)) b h l = ground arith
three_bufs-Coherent (suc (suc (suc i))) b h l = cc h

bread-BreadEnds_example : BreadEnds three_bufs 1 8 (bread three_bufs 1 8)
bread-BreadEnds_example = bread-BreadEnds three_bufs 1 8 three_bufs-Unique three_bufs-Coherent

-- The same buffers over a disk that holds what the first of them does.
abbrev read_cache : Cache
read_cache = record three_bufs { disk = λ n. 5 ∷ [] }

read_cache-Coherent : Coherent read_cache
read_cache-Coherent zero b h l = ground arith
read_cache-Coherent (suc zero) b h l = ground arith
read_cache-Coherent (suc (suc zero)) b h l = ground arith
read_cache-Coherent (suc (suc (suc i))) b h l = cc h

held_buf_same : held_buf.valid ≡ true → held_buf.bytes ≡ read_cache.disk held_buf.blockno
held_buf_same v = refl

brelse-Coherent_example :
    (t : Cache) × (brelse read_cache 0 ≡ ok t)
    × Released read_cache 0 held_buf t
    × Unique t.bufs
    × Coherent t
brelse-Coherent_example =
    brelse-Coherent read_cache 0 held_buf refl refl refl held_buf_same three_bufs-Unique
      read_cache-Coherent
