-- ===== src/Pipe.antt =====
-- Pipes, kernel/pipe.c. Each function runs under `p->lock` and is one step up to its return or to a
-- `sleep`, where it gives the lock up; the caller resumes it with the bytes that are left.
pub mod Ring
pub mod Stream
mod Tests
pub mod Transfer
use microkernal.Common.{
  Bool, List, [], add32, false, get_or, if◌then◌else◌, not, set, suc, true, zero, ℕ, ◌%◌, ◌&&◌,
  ◌==◌, ◌||◌, ◌∷◌,
}

-- PIPESIZE
abbrev pub pipesize : ℕ
pipesize = 512

-- `struct pipe`, without its lock. The counters are `uint`.
pub record Pipe : Type 0 where
  pub bytes : List ℕ
  pub nread : ℕ
  pub nwrite : ℕ
  pub readopen : Bool
  pub writeopen : Bool

-- The part of `pipealloc` that sets up the page for the pipe, which `kalloc` has returned with any
-- contents.
unfoldable pub pipe_init : List ℕ → Pipe
pipe_init page = record { bytes = page; nread = 0; nwrite = 0; readopen = true; writeopen = true }

abbrev pub is_full : Pipe → Bool
is_full p = p.nwrite == add32 p.nread pipesize

abbrev pub is_empty : Pipe → Bool
is_empty p = p.nread == p.nwrite

-- `p->data[p->nwrite++ % PIPESIZE] = x`
unfoldable pub put : Pipe → ℕ → Pipe
put p x = record p { bytes = set p.bytes (p.nwrite % pipesize) x; nwrite = add32 p.nwrite 1 }

-- `p->data[p->nread++ % PIPESIZE]`
unfoldable pub take_byte : Pipe → ℕ × Pipe
take_byte p = (get_or p.bytes (p.nread % pipesize) 0, record p { nread = add32 p.nread 1 })

-- How a call of `pipewrite` ends or pauses. It sleeps on `nwrite` with the bytes that are left.
pub data WriteStop : Type 0 where
  wrote : ℕ → WriteStop
  write_failed : WriteStop
  write_sleeps : List ℕ → WriteStop

-- The loop of `pipewrite` over the bytes left, until it returns or sleeps. `killed` is
-- `myproc()->killed`, and `n` the number that it returns.
unfoldable pub pipewrite : Pipe → Bool → ℕ → List ℕ → Pipe × WriteStop
pipewrite p killed n [] = (p, wrote n)
pipewrite p killed n (x ∷ xs) = elim (is_full p) [
  | true ↦ (p, if not p.readopen || killed then write_failed else write_sleeps (x ∷ xs))
  | false ↦ pipewrite (put p x) killed n xs
]

-- Whether the call has done `wakeup(&p->nread)` by then.
unfoldable pub write_wakes : WriteStop → Bool
write_wakes (wrote n) = true
write_wakes write_failed = false
write_wakes (write_sleeps xs) = true

pub data ReadStop : Type 0 where
  read_bytes : List ℕ → ReadStop
  read_failed : ReadStop
  read_sleeps : ReadStop

-- The copy loop of `piperead`, with `n` bytes still wanted.
unfoldable pub copy_out : Pipe → ℕ → List ℕ × Pipe
copy_out p zero = ([], p)
copy_out p (suc n) = elim (is_empty p) [
  | true ↦ ([], p)
  | false ↦ let (xs, q) = copy_out (take_byte p).1 n in ((take_byte p).0 ∷ xs, q)
]

-- `piperead` from its `while` test on, until it returns or sleeps on `nread`.
unfoldable pub piperead : Pipe → Bool → ℕ → Pipe × ReadStop
unfolding copy_out
piperead p killed n =
    if is_empty p && p.writeopen
    then (p, if killed then read_failed else read_sleeps)
    else (let (xs, q) = copy_out p n in (q, read_bytes xs))

-- Whether the call has done `wakeup(&p->nwrite)` by then.
unfoldable pub read_wakes : ReadStop → Bool
read_wakes (read_bytes xs) = true
read_wakes read_failed = false
read_wakes read_sleeps = false

-- `pipeclose`: the pipe after it, and whether its page goes back to `kfree`.
unfoldable pub pipeclose : Pipe → (writable : Bool) → Pipe × Bool
pipeclose p writable =
    let q = if writable then record p { writeopen = false } else record p { readopen = false } in
    (q, not q.readopen && not q.writeopen)
