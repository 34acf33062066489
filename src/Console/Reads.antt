-- ===== src/Console/Reads.antt =====
-- What a call of `consoleread` takes from the complete lines, kernel/console.c.
use microkernal.Common.{
  ==-of_ne, Bool, Bool-cases, List, [], add32, ap, arith, false, get_or, if◌then◌else◌, inl, inr,
  length, refl, sub32, suc, sym, true, zero, ℕ, ◌%◌, ◌==◌, ◌∙◌, ◌∷◌, ◌≡◌, ◌≢◌,
}
use microkernal.Console.{
  Input, Stop, consoleread, ctrl_d, given_up, newline, read_line, returned, waiting,
}
use microkernal.Console.Views.{IsSound, Shows, shown, view}
use microkernal.Console.Slices.{slice, length-slice}

-- The bytes that a read of `n` bytes gives, the bytes that it leaves, and how it stops.
pub record Taken : Type 0 where
  pub bytes : List ℕ
  pub left : List ℕ
  pub stop : Stop

abbrev pub took : (bytes left : List ℕ) → Stop → Taken
took bytes left stop = record { bytes = bytes; left = left; stop = stop }

-- A read takes bytes until it has `n`, up to and with a newline, or up to a ^D, which it takes only as
-- its first byte; where the complete lines end it waits, or gives up if the caller is killed.
abbrev pub take_line : List ℕ → (killed first : Bool) → (n : ℕ) → Taken
take_line cs killed first zero = took [] cs returned
take_line [] killed first (suc n) = took [] [] (if killed then given_up else waiting)
take_line (c ∷ cs) killed first (suc n) =
    let rest = take_line cs killed false n in
    if c == ctrl_d
    then took [] (if first then cs else c ∷ cs) returned
    else if c == newline
    then took (c ∷ []) cs returned
    else took (c ∷ rest.bytes) rest.left rest.stop

abbrev tail : List ℕ → List ℕ
tail [] = []
tail (x ∷ xs) = xs

-- What a read gave and left.
abbrev pub Takes : List ℕ × Input × Stop → Taken → List ℕ → Type 0
Takes o t edited = (o.0 ≡ t.bytes) × (o.2 ≡ t.stop) × Shows o.1 (shown t.left edited)

-- The next byte is the first of the complete lines, and the rest of them follows.
head_committed :
    (s : Input)
    → IsSound s
    → s.r ≢ s.w
    → slice s.buf s.r (sub32 s.w s.r)
      ≡ get_or s.buf (s.r % 128) 0 ∷ slice s.buf (add32 s.r 1) (sub32 s.w (add32 s.r 1))
unfolding slice
head_committed s h ne =
    let n : sub32 s.w s.r ≡ suc (sub32 s.w (add32 s.r 1)) = omega (arith, h.r_word, h.w_word) in
    ap (slice s.buf s.r) n

next-IsSound : (s : Input) → IsSound s → s.r ≢ s.w → IsSound (record s { r = add32 s.r 1 })
next-IsSound s h ne = record {
  sized = h.sized;
  r_word = omega arith;
  w_word = h.w_word;
  e_word = h.e_word;
  ordered = omega (arith, h.ordered, h.r_word, h.w_word, h.e_word);
  room = omega (arith, h.ordered, h.room, h.r_word, h.w_word, h.e_word);
  one_line = h.one_line;
}

-- The committed bytes `cs` are given apart, so that they can be split.
read_line-Takes :
    (n : ℕ) (s : Input) (killed first : Bool) (cs : List ℕ)
    → IsSound s
    → slice s.buf s.r (sub32 s.w s.r) ≡ cs
    → Takes (read_line s killed first n) (take_line cs killed first n) (view s).edited
unfolding read_line
read_line-Takes zero s killed first cs h e = (refl, refl, (h, ap (λ x. shown x (view s).edited) e))
read_line-Takes (suc n) s killed first [] h e =
    let z : sub32 s.w s.r ≡ 0 = sym (length-slice s.buf s.r (sub32 s.w s.r)) ∙ ap length e in
    let stopped : (s.r == s.w) ≡ true = ground (arith, z, h.r_word, h.w_word) in
    rw stopped (refl, refl, (h, ap (λ x. shown x (view s).edited) e))
read_line-Takes (suc n) s killed first (c ∷ cs) h e =
    let z : sub32 s.w s.r ≡ suc (length cs) =
      sym (length-slice s.buf s.r (sub32 s.w s.r)) ∙ ap length e in
    let ne : s.r ≢ s.w = λ q. absurd (omega (arith, z, h.r_word)) in
    let e' = sym (head_committed s h ne) ∙ e in
    let here : get_or s.buf (s.r % 128) 0 ≡ c = ap (λ l. get_or l 0 0) e' in
    let after = ap tail e' in
    let h' = next-IsSound s h ne in
    let left = ap (λ x. shown x (view s).edited) after in
    let ih = read_line-Takes n (record s { r = add32 s.r 1 }) killed false cs h' after in
    rw (==-of_ne s.r s.w ne) (
      rw here (elim (Bool-cases (c == ctrl_d)) [
        | inl d ↦ rw d (elim (Bool-cases first) [
          | inl f ↦ rw f (refl, refl, (h', left))
          | inr f ↦ rw f (refl, refl, (h, ap (λ x. shown x (view s).edited) e))
        ])
        | inr d ↦ rw d (elim (Bool-cases (c == newline)) [
          | inl l ↦ rw l (refl, refl, (h', left))
          | inr l ↦ rw l (ap (◌∷◌ c) ih.0, ih.1, ih.2)
        ])
      ]))

-- Where the counters are in order, a read of the console that may take `n` bytes gives, takes and leaves
-- the bytes of the complete lines that `take_line` says: up to `n` of them, up to and with a newline, or
-- up to a ^D, which stays for the next read unless it comes first. At the end of the complete lines, if
-- nothing stopped it before, it waits, or answers -1 if the caller is killed; it keeps the counters in order and the edited line as it is.
pub consoleread-Takes :
    (s : Input) (killed : Bool) (n : ℕ)
    → IsSound s
    → Takes (consoleread s killed n) (take_line (view s).committed killed true n) (view s).edited
unfolding consoleread
consoleread-Takes s killed n h = read_line-Takes n s killed true (view s).committed h refl
