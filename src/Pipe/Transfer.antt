-- ===== src/Pipe/Transfer.antt =====
-- What one call of pipewrite or piperead moves, on every way that it ends.
use mathlib.Core.List.{append-nil, append_assoc}
use microkernal.Common.{
  Bool, Bool-cases, List, [], ap, arith, false, if◌then◌else◌, inl, inr, length, min, not, refl,
  suc, sym, true, zero, ℕ, ◌&&◌, ◌++◌, ◌||◌, ◌∙◌, ◌∷◌, ◌≡◌, ◌≢◌, ◌⊎◌,
}
use microkernal.Pipe.{
  Pipe, is_full, is_empty, put, take_byte, WriteStop, wrote, write_failed, write_sleeps, pipewrite,
  ReadStop, read_bytes, read_failed, read_sleeps, copy_out, piperead,
}
use microkernal.Pipe.Ring.{
  IsValid, fill, contents, put_lem, take_byte_lem, empty_iff, length-window,
}

-- What the end of a call says when `rest` was not stored.
abbrev pub WriteEnds : Pipe → Bool → ℕ → List ℕ → WriteStop → Type 0
WriteEnds q killed n rest (wrote m) = (m ≡ n) × (rest ≡ [])
WriteEnds q killed n rest write_failed =
    (is_full q ≡ true) × (rest ≢ []) × ((q.readopen ≡ false) ⊎ (killed ≡ true))
WriteEnds q killed n rest (write_sleeps ys) =
    (is_full q ≡ true) × (rest ≢ []) × (ys ≡ rest) × (q.readopen ≡ true) × (killed ≡ false)

-- The call stored `sent` and not `rest`.
pub record Wrote (p : Pipe) (killed : Bool) (n : ℕ) (xs : List ℕ) (r : Pipe × WriteStop)
    : Type 0 where
  pub sent : List ℕ
  pub rest : List ℕ
  pub split : xs ≡ sent ++ rest
  pub valid : IsValid r.0
  pub bytes : contents r.0 ≡ contents p ++ sent
  pub same_ends : (r.0.readopen ≡ p.readopen) × (r.0.writeopen ≡ p.writeopen)
  pub ends : WriteEnds r.0 killed n rest r.1

put_ends :
    (p : Pipe) (x : ℕ) → ((put p x).readopen ≡ p.readopen) × ((put p x).writeopen ≡ p.writeopen)
unfolding put
put_ends p x = (refl, refl)

take_byte_ends :
    (p : Pipe) → ((take_byte p).1.readopen ≡ p.readopen) × ((take_byte p).1.writeopen ≡ p.writeopen)
unfolding take_byte
take_byte_ends p = (refl, refl)

blocked-ends :
    (p : Pipe) (killed : Bool) (n x : ℕ) (xs : List ℕ)
    → is_full p ≡ true
    → WriteEnds p killed n
        (x ∷ xs)
        (if not p.readopen || killed then write_failed else write_sleeps (x ∷ xs))
blocked-ends p killed n x xs h = go p.readopen killed refl refl
  where
    go :
        (a b : Bool)
        → p.readopen ≡ a
        → killed ≡ b
        → WriteEnds p killed n (x ∷ xs) (if not a || b then write_failed else write_sleeps (x ∷ xs))
    go true true e f = (h, λ z. cc, inr f)
    go true false e f = (h, λ z. cc, refl, e, f)
    go false b e f = (h, λ z. cc, inl e)

-- `pipewrite` stores a prefix of its bytes in order behind those that the pipe holds, and keeps the
-- pipe valid. It returns `n` after storing all; else the pipe is full, and it fails if the read end
-- is closed or the process killed, and sleeps with the bytes that are left otherwise.
pub pipewrite-Wrote :
    (p : Pipe) (killed : Bool) (n : ℕ) (xs : List ℕ)
    → IsValid p
    → Wrote p killed n xs (pipewrite p killed n xs)
unfolding pipewrite
pipewrite-Wrote p killed n [] v = record {
  sent = [];
  rest = [];
  split = refl;
  valid = v;
  bytes = sym (append-nil (contents p));
  same_ends = (refl, refl);
  ends = (refl, refl);
}
pipewrite-Wrote p killed n (x ∷ xs) v = elim (Bool-cases (is_full p)) [
  | inl h ↦
      rw (h, pipewrite)
        (record {
          sent = [];
          rest = x ∷ xs;
          split = refl;
          valid = v;
          bytes = sym (append-nil (contents p));
          same_ends = (refl, refl);
          ends = blocked-ends p killed n x xs h;
        })
  | inr h ↦
      let stored = put_lem p x v h in
      let later = pipewrite-Wrote (put p x) killed n xs stored.0 in
      rw (h, pipewrite)
        (record {
          sent = x ∷ later.sent;
          rest = later.rest;
          split = ap (◌∷◌ x) later.split;
          valid = later.valid;
          bytes =
              later.bytes
              ∙ ap (λ l. l ++ later.sent) stored.1
              ∙ append_assoc (contents p) (x ∷ []) later.sent;
          same_ends = (later.same_ends.0 ∙ (put_ends p x).0, later.same_ends.1 ∙ (put_ends p x).1);
          ends = later.ends;
        })
]

pub record Copied (p : Pipe) (n : ℕ) (r : List ℕ × Pipe) : Type 0 where
  pub valid : IsValid r.1
  pub bytes : contents p ≡ r.0 ++ contents r.1
  pub count : length r.0 ≡ min n (fill p)
  pub same_ends : (r.1.readopen ≡ p.readopen) × (r.1.writeopen ≡ p.writeopen)

pub copy_out-Copied : (p : Pipe) (n : ℕ) → IsValid p → Copied p n (copy_out p n)
unfolding copy_out
copy_out-Copied p zero v = record {
  valid = v;
  bytes = refl;
  count = omega arith;
  same_ends = (refl, refl);
}
copy_out-Copied p (suc n) v = elim (Bool-cases (is_empty p)) [
  | inl h ↦
      rw (h, copy_out)
        (record {
          valid = v;
          bytes = refl;
          count = ground (arith, (empty_iff p v).0 h, length-window p.bytes p.nread (fill p));
          same_ends = (refl, refl);
        })
  | inr h ↦
      let got = take_byte_lem p v h in
      let later = copy_out-Copied (take_byte p).1 n got.0 in
      rw (h, copy_out)
        (record {
          valid = later.valid;
          bytes = got.1 ∙ ap (◌∷◌ (take_byte p).0) later.bytes;
          count = ground (
            arith,
            later.count,
            ap length got.1,
            length-window p.bytes p.nread (fill p),
            length-window (take_byte p).1.bytes (take_byte p).1.nread (fill (take_byte p).1),
          );
          same_ends =
              (later.same_ends.0 ∙ (take_byte_ends p).0, later.same_ends.1 ∙ (take_byte_ends p).1);
        })
]

abbrev pub ReadEnds : Pipe → Bool → ℕ → Pipe × ReadStop → Type 0
ReadEnds p killed n (q, read_bytes xs) =
    IsValid q
    × (contents p ≡ xs ++ contents q)
    × (length xs ≡ min n (fill p))
    × ((is_empty p ≡ false) ⊎ (p.writeopen ≡ false))
ReadEnds p killed n (q, read_failed) =
    (q ≡ p) × (is_empty p ≡ true) × (p.writeopen ≡ true) × (killed ≡ true)
ReadEnds p killed n (q, read_sleeps) =
    (q ≡ p) × (is_empty p ≡ true) × (p.writeopen ≡ true) × (killed ≡ false)

-- On an empty pipe whose write end is open `piperead` changes nothing, and fails if the process is
-- killed and sleeps if not. Else it takes the oldest bytes, as many as are wanted and there, in
-- order, and leaves the rest; at a closed empty pipe these are none.
pub piperead-ReadEnds :
    (p : Pipe) (killed : Bool) (n : ℕ) → IsValid p → ReadEnds p killed n (piperead p killed n)
unfolding piperead
piperead-ReadEnds p killed n v = go (is_empty p) p.writeopen killed refl refl refl
  where
    c : Copied p n (copy_out p n)
    c = copy_out-Copied p n v

    go :
        (a b k : Bool)
        → is_empty p ≡ a
        → p.writeopen ≡ b
        → killed ≡ k
        → ReadEnds p killed n (
            if a && b
            then (p, if k then read_failed else read_sleeps)
            else ((copy_out p n).1, read_bytes (copy_out p n).0))
    go true true true e f g = (refl, e, f, g)
    go true true false e f g = (refl, e, f, g)
    go true false k e f g = (c.valid, c.bytes, c.count, inr f)
    go false b k e f g = (c.valid, c.bytes, c.count, inl e)
