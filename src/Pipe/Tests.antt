-- ===== src/Pipe/Tests.antt =====
-- Witnesses on a new pipe, and on one with three bytes in it whose counter has wrapped.
use microkernal.Common.{
  List, [], arith, false, length, length-replicate, replicate, true, ℕ, ◌-◌, ◌^◌, ◌∷◌, ◌≡◌,
}
use microkernal.Pipe.{Pipe, pipesize, pipe_init, pipewrite, piperead}
use microkernal.Pipe.Ring.{IsValid, pipe_init-IsValid}
use microkernal.Pipe.Transfer.{pipewrite-Wrote}
use microkernal.Pipe.Stream.{
  System, Inv, Flows, Flows-Inv, start, started, later, write, read, after_write, after_read,
  fitting,
}

abbrev page : List ℕ
page = replicate 512 7

page-length : length page ≡ pipesize
page-length = length-replicate 512 7

abbrev three : List ℕ
three = 10 ∷ 11 ∷ 12 ∷ []

abbrev ones : List ℕ
ones = replicate 513 1

ones-length : length ones ≡ 513
ones-length = length-replicate 513 1

abbrev empty_pipe : Pipe
empty_pipe = pipe_init page

empty_pipe-IsValid : IsValid empty_pipe
empty_pipe-IsValid = pipe_init-IsValid page page-length

-- A new pipe on which the counters are about to wrap.
abbrev old_pipe : Pipe
old_pipe = record {
  bytes = page;
  nread = 2 ^ 32 - 2;
  nwrite = 1;
  readopen = true;
  writeopen = true;
}

old_pipe-IsValid : IsValid old_pipe
old_pipe-IsValid = record {
  sized = page-length;
  read_word = omega arith;
  write_word = omega arith;
  bounded = omega arith;
}

abbrev after_three : System
after_three =
    after_write (start page) false (fitting (start page).pipe three)
      (pipewrite (start page).pipe false 3 three)

wrote_three : Flows page after_three
wrote_three = later started (write false 3 three)

still_open : after_three.pipe.readopen ≡ true
unfolding pipe_init
still_open = (pipewrite-Wrote empty_pipe false 3 three empty_pipe-IsValid).same_ends.0

Flows-Inv_example : Inv (after_read after_three (piperead after_three.pipe false 2))
Flows-Inv_example = Flows-Inv page-length (later wrote_three (read false 2 still_open))
