-- ===== src/Pipe/Stream.antt =====
-- A pipe shared by any number of readers and writers, interleaved call by call.
use mathlib.Core.List.{append-nil, append_assoc}
use microkernal.Common.{
  Bool, List, [], ap, arith, false, if◌then◌else◌, inl, inr, length, length-append, refl, sym, take,
  take-append_left, take-of_length_le, true, ℕ, ◌++◌, ◌+◌, ◌-◌, ◌<◌, ◌∙◌, ◌≡◌, ◌≢◌, ◌⊎◌, ◌||◌,
}
use microkernal.Pipe.{
  Pipe, pipesize, is_full, is_empty, WriteStop, wrote, write_failed, write_sleeps, pipewrite,
  write_wakes, read_wakes, ReadStop, read_bytes, read_failed, read_sleeps, piperead, pipeclose,
  pipe_init,
}
use microkernal.Pipe.Ring.{IsValid, fill, contents, full_iff, pipe_init-IsValid, length-window}
use microkernal.Pipe.Transfer.{Wrote, WriteEnds, ReadEnds, pipewrite-Wrote, piperead-ReadEnds}

-- `missed` says that the call of a killed writer has failed since the sleeping readers were last woken.
-- `sent` and `received` are the bytes stored and fetched since the pipe was made; the two counts are
-- the processes that sleep on `nread` and on `nwrite`.
pub record System : Type 0 where
  pub pipe : Pipe
  pub sent : List ℕ
  pub received : List ℕ
  pub readers_asleep : ℕ
  pub writers_asleep : ℕ
  pub missed : Bool

abbrev sleeps_writer : WriteStop → ℕ
sleeps_writer (write_sleeps xs) = 1
sleeps_writer _ = 0

abbrev sleeps_reader : ReadStop → ℕ
sleeps_reader read_sleeps = 1
sleeps_reader _ = 0

abbrev received_by : ReadStop → List ℕ
received_by (read_bytes xs) = xs
received_by _ = []

-- The bytes for which the pipe has room.
abbrev pub fitting : Pipe → List ℕ → List ℕ
fitting p xs = take (pipesize - fill p) xs

-- The system after a call of `pipewrite` that stored `stored`.
abbrev pub after_write : System → (killed : Bool) → List ℕ → Pipe × WriteStop → System
after_write s killed stored (q, stop) = record {
  pipe = q;
  sent = s.sent ++ stored;
  received = s.received;
  readers_asleep = if write_wakes stop then 0 else s.readers_asleep;
  writers_asleep = s.writers_asleep + sleeps_writer stop;
  missed = if write_wakes stop then false else killed || s.missed;
}

abbrev pub after_read : System → Pipe × ReadStop → System
after_read s (q, stop) = record {
  pipe = q;
  sent = s.sent;
  received = s.received ++ received_by stop;
  readers_asleep = s.readers_asleep + sleeps_reader stop;
  writers_asleep = if read_wakes stop then 0 else s.writers_asleep;
  missed = s.missed;
}

-- `wakeup` on the counter of the end that closes; a process that sleeps in a call holds its own end
-- open.
abbrev pub after_close : System → Bool → System
after_close s true = record s {
  pipe = (pipeclose s.pipe true).0;
  readers_asleep = 0;
  missed = false;
}
after_close s false = record s { pipe = (pipeclose s.pipe false).0; writers_asleep = 0 }

-- A write by any process, killed or not; a read by any that holds the read end open; the close of an
-- end.
pub data Step (s : System) : System → Type 0 where
  write :
      (killed : Bool) (n : ℕ) (xs : List ℕ)
      → Step s (after_write s killed (fitting s.pipe xs) (pipewrite s.pipe killed n xs))
  read :
      (killed : Bool) (n : ℕ)
      → s.pipe.readopen ≡ true
      → Step s (after_read s (piperead s.pipe killed n))
  close_write : s.writers_asleep ≡ 0 → Step s (after_close s true)
  close_read : s.readers_asleep ≡ 0 → Step s (after_close s false)

-- The pipe holds what was sent and not received, in order. Whoever sleeps has reason to: readers, if
-- none has been missed, only at an empty pipe with its write end open, writers only at a full one with its read end open.
pub record Inv (s : System) : Type 0 where
  pub valid : IsValid s.pipe
  pub stream : s.sent ≡ s.received ++ contents s.pipe
  pub reader_waits :
      s.missed ≡ false
      → s.readers_asleep ≢ 0
      → (is_empty s.pipe ≡ true) × (s.pipe.writeopen ≡ true) × (s.pipe.readopen ≡ true)
  pub writer_waits : s.writers_asleep ≢ 0 → (is_full s.pipe ≡ true) × (s.pipe.readopen ≡ true)

fill-pipewrite :
    (p q : Pipe) (sent : List ℕ) → contents q ≡ contents p ++ sent → fill q ≡ fill p + length sent
fill-pipewrite p q sent h = omega (
  arith,
  ap length h,
  length-append (contents p) sent,
  length-window q.bytes q.nread (fill q),
  length-window p.bytes p.nread (fill p),
)

-- What a write stores is what fits.
pub pipewrite-fitting :
    (p : Pipe) (killed : Bool) (n : ℕ) (xs : List ℕ)
    → IsValid p
    → contents (pipewrite p killed n xs).0 ≡ contents p ++ fitting p xs
pipewrite-fitting p killed n xs v = w.bytes ∙ ap (λ l. contents p ++ l) (sym fits)
  where
    w : Wrote p killed n xs (pipewrite p killed n xs)
    w = pipewrite-Wrote p killed n xs v

    q : Pipe
    q = (pipewrite p killed n xs).0

    counts : fill q ≡ fill p + length w.sent
    counts = fill-pipewrite p q w.sent w.bytes

    full : is_full q ≡ true → fitting p xs ≡ w.sent
    full e =
        ap (take (pipesize - fill p)) w.split
        ∙ take-append_left w.sent w.rest (pipesize - fill p)
            (omega (arith, counts, (full_iff q w.valid).0 e))

    go : (stop : WriteStop) → WriteEnds q killed n w.rest stop → fitting p xs ≡ w.sent
    go (wrote m) e =
        let all : xs ≡ w.sent = w.split ∙ ap (λ l. w.sent ++ l) e.1 ∙ append-nil w.sent in
        take-of_length_le xs (pipesize - fill p)
          (omega (arith, counts, ap length all, w.valid.bounded))
        ∙ all
    go write_failed e = full e.0
    go (write_sleeps ys) e = full e.0

    fits : fitting p xs ≡ w.sent
    fits = go (pipewrite p killed n xs).1 w.ends

write-Inv :
    (s : System) (killed : Bool) (n : ℕ) (xs : List ℕ)
    → Inv s
    → Inv (after_write s killed (fitting s.pipe xs) (pipewrite s.pipe killed n xs))
unfolding write_wakes
write-Inv s killed n xs i = go (pipewrite s.pipe killed n xs).1 w.ends
  where
    w : Wrote s.pipe killed n xs (pipewrite s.pipe killed n xs)
    w = pipewrite-Wrote s.pipe killed n xs i.valid

    q : Pipe
    q = (pipewrite s.pipe killed n xs).0

    streams : s.sent ++ fitting s.pipe xs ≡ s.received ++ contents q
    streams =
        ap (λ l. l ++ fitting s.pipe xs) i.stream
        ∙ append_assoc s.received (contents s.pipe) (fitting s.pipe xs)
        ∙ ap (λ l. s.received ++ l) (sym (pipewrite-fitting s.pipe killed n xs i.valid))

    counts : fill q ≡ fill s.pipe + length w.sent
    counts = fill-pipewrite s.pipe q w.sent w.bytes

    open_reads : s.writers_asleep ≢ 0 → q.readopen ≡ true
    open_reads h = w.same_ends.0 ∙ (i.writer_waits h).1

    still_full : s.writers_asleep ≢ 0 → is_full q ≡ true
    still_full h =
        (full_iff q w.valid).1
          (omega (arith, counts, w.valid.bounded, (full_iff s.pipe i.valid).0 (i.writer_waits h).0))

    go :
        (stop : WriteStop)
        → WriteEnds q killed n w.rest stop
        → Inv (after_write s killed (fitting s.pipe xs) (q, stop))
    go (wrote m) e = record {
      valid = w.valid;
      stream = streams;
      reader_waits = λ m h. absurd (h refl);
      writer_waits =
          λ h. let h' : s.writers_asleep ≢ 0 = omega arith in (still_full h', open_reads h');
    }
    go write_failed (full, some_left, closed) = record {
      valid = w.valid;
      stream = streams;
      reader_waits = λ m h. absurd (alive (killed) m closed h);
      writer_waits =
          λ h. let h' : s.writers_asleep ≢ 0 = omega arith in (still_full h', open_reads h');
    }
      where
        alive :
            (k : Bool)
            → (k || s.missed) ≡ false
            → ((q.readopen ≡ false) ⊎ (k ≡ true))
            → s.readers_asleep ≢ 0
            → ⊥
        alive true m c h = cc
        alive false m (inl a) h = let b = w.same_ends.0 ∙ (i.reader_waits m h).2 in cc
        alive false m (inr a) h = cc
    go (write_sleeps ys) e = record {
      valid = w.valid;
      stream = streams;
      reader_waits = λ m h. absurd (h refl);
      writer_waits = λ h. (e.0, e.3);
    }

read-Inv :
    (s : System) (killed : Bool) (n : ℕ)
    → s.pipe.readopen ≡ true
    → Inv s
    → Inv (after_read s (piperead s.pipe killed n))
unfolding read_wakes
read-Inv s killed n opened i =
    go (piperead s.pipe killed n).0 (piperead s.pipe killed n).1
      (piperead-ReadEnds s.pipe killed n i.valid)
  where
    go :
        (q : Pipe) (stop : ReadStop)
        → ReadEnds s.pipe killed n (q, stop)
        → Inv (after_read s (q, stop))
    go q (read_bytes xs) e = record {
      valid = e.0;
      stream =
          i.stream ∙ ap (λ l. s.received ++ l) e.1 ∙ sym (append_assoc s.received xs (contents q));
      reader_waits = λ m h. absurd (shut e.3 (i.reader_waits m (omega arith)));
      writer_waits = λ h. absurd (h refl);
    }
      where
        shut :
            ((is_empty s.pipe ≡ false) ⊎ (s.pipe.writeopen ≡ false))
            → (is_empty s.pipe ≡ true) × (s.pipe.writeopen ≡ true) × (s.pipe.readopen ≡ true)
            → ⊥
        shut (inl a) b = cc (b.0)
        shut (inr a) b = cc (b.1)
    go q read_failed e =
        rw (e.0, append-nil)
          (record {
            valid = i.valid;
            stream = i.stream;
            reader_waits = λ m h. i.reader_waits m (omega arith);
            writer_waits = i.writer_waits;
          })
    go q read_sleeps e =
        rw (e.0, append-nil)
          (record {
            valid = i.valid;
            stream = i.stream;
            reader_waits = λ m h. (e.1, e.2, opened);
            writer_waits = i.writer_waits;
          })

close-Inv :
    (s : System) (writable : Bool)
    → (if writable then s.writers_asleep else s.readers_asleep) ≡ 0
    → Inv s
    → Inv (after_close s writable)
unfolding pipeclose
close-Inv s true h i = record {
  valid = ground (arith, i.valid);
  stream = i.stream;
  reader_waits = λ m z. absurd (z refl);
  writer_waits = λ z. absurd (z h);
}
close-Inv s false h i = record {
  valid = ground (arith, i.valid);
  stream = i.stream;
  reader_waits = λ m z. absurd (z h);
  writer_waits = λ z. absurd (z refl);
}

-- Every step keeps the invariant.
pub Step-Inv : {s t : System} → Step s t → Inv s → Inv t
Step-Inv {s} (write killed n xs) i = write-Inv s killed n xs i
Step-Inv {s} (read killed n opened) i = read-Inv s killed n opened i
Step-Inv {s} (close_write h) i = close-Inv s true h i
Step-Inv {s} (close_read h) i = close-Inv s false h i

abbrev pub start : List ℕ → System
start page = record {
  pipe = pipe_init page;
  sent = [];
  received = [];
  readers_asleep = 0;
  writers_asleep = 0;
  missed = false;
}

pub data Flows (page : List ℕ) : System → Type 0 where
  started : Flows page (start page)
  later : {s t : System} → Flows page s → Step s t → Flows page t

start-Inv : (page : List ℕ) → length page ≡ pipesize → Inv (start page)
unfolding pipe_init
start-Inv page h = record {
  valid = pipe_init-IsValid page h;
  stream = refl;
  reader_waits = λ m z. absurd (z refl);
  writer_waits = λ z. absurd (z refl);
}

-- On a new pipe with a page of 512 bytes, in whatever order calls of `piperead`, `pipewrite` and
-- `pipeclose` come, by killed processes too, where a process that reads or sleeps in a call holds its end
-- open: the bytes received and those in the pipe are the bytes sent, in order. A writer sleeps only while
-- the pipe is full and its read end open. A reader sleeps only while the pipe is empty and both ends are
-- open, unless the call of a killed writer has failed since the sleeping readers were last woken.
pub Flows-Inv : {page : List ℕ} {s : System} → length page ≡ pipesize → Flows page s → Inv s
Flows-Inv {page} h started = start-Inv page h
Flows-Inv h (later r st) = Step-Inv st (Flows-Inv h r)

-- A killed writer is the exception: at an empty open pipe, given more bytes than fit, the call fills
-- the pipe and fails with no wakeup, whoever sleeps on it.
pub killed_write_wakes_nobody :
    (p : Pipe) (n : ℕ) (xs : List ℕ)
    → IsValid p
    → is_empty p ≡ true
    → pipesize < length xs
    → (is_full (pipewrite p true n xs).0 ≡ true) × (write_wakes (pipewrite p true n xs).1 ≡ false)
unfolding write_wakes
killed_write_wakes_nobody p n xs v empty long = go (pipewrite p true n xs).1 w.ends
  where
    w : Wrote p true n xs (pipewrite p true n xs)
    w = pipewrite-Wrote p true n xs v

    q : Pipe
    q = (pipewrite p true n xs).0

    go :
        (stop : WriteStop)
        → WriteEnds q true n w.rest stop
        → (is_full q ≡ true) × (write_wakes stop ≡ false)
    go (wrote m) e = absurd (
        omega (
          arith,
          fill-pipewrite p q w.sent w.bytes,
          w.valid.bounded,
          ap length w.split,
          length-append w.sent w.rest,
          ap length e.1,
        ))
    go write_failed e = (e.0, refl)
    go (write_sleeps ys) e = absurd (cc (e.4))
