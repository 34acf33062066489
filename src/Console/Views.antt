-- ===== src/Console/Views.antt =====
-- What the console's ring buffer stands for, kernel/console.c: complete lines and a line that is edited,
-- and how characters are taken back from it.
use microkernal.Common.{
  ==-of_ne, Bool-cases, List, [], add32, ap, ap₂, arith, false, get_or, if◌then◌else◌, inl, inr,
  length, ltb, ne_of_==, not, refl, sub32, subst, suc, sym, zero, ℕ, ◌%◌, ◌&&◌, ◌++◌, ◌+◌, ◌<◌,
  ◌==◌, ◌^◌, ◌||◌, ◌∙◌, ◌∷◌, ◌≡◌, ◌≢◌, ◌≤◌,
}
use microkernal.Console.{
  Input, ctrl_d, ctrl_h, ctrl_p, ctrl_u, del, kill_line, line_char, newline, rubout, step_back,
  input_buf,
}
use microkernal.Console.Slices.{slice, slice-snoc}

-- The characters that readers may take, and those that can still be edited.
pub record View : Type 0 where
  pub committed : List ℕ
  pub edited : List ℕ

abbrev pub shown : (committed edited : List ℕ) → View
shown committed edited = record { committed = committed; edited = edited }

abbrev pub view : Input → View
view s = shown (slice s.buf s.r (sub32 s.w s.r)) (slice s.buf s.w (sub32 s.e s.w))

abbrev pub drop_last : List ℕ → List ℕ
drop_last [] = []
drop_last (x ∷ []) = []
drop_last (x ∷ y ∷ xs) = x ∷ drop_last (y ∷ xs)

-- A character that goes to the end of the line, which it completes if it is a newline or ^D, or if it
-- fills the buffer.
abbrev pub typed : View → ℕ → View
typed v c =
    if c == newline || c == ctrl_d || length v.committed + length v.edited == 127
    then record { committed = v.committed ++ (v.edited ++ (c ∷ [])); edited = [] }
    else record v { edited = v.edited ++ (c ∷ []) }

-- What a key means, without counters and without a ring.
abbrev pub keyed : View → ℕ → View
keyed v c =
    if c == ctrl_p
    then v
    else if c == ctrl_u
    then record v { edited = [] }
    else if c == ctrl_h || c == del
    then record v { edited = drop_last v.edited }
    else if not (c == 0) && ltb (length v.committed + length v.edited) 128
    then typed v (line_char c)
    else v

-- The counters are in order, at most a buffer apart, and no newline is in the edited line.
pub record IsSound (s : Input) : Type 0 where
  pub sized : length s.buf ≡ 128
  pub r_word : s.r < 2 ^ 32
  pub w_word : s.w < 2 ^ 32
  pub e_word : s.e < 2 ^ 32
  pub ordered : sub32 s.w s.r ≤ sub32 s.e s.r
  pub room : sub32 s.e s.r ≤ 128
  pub one_line : (k : ℕ) → k < sub32 s.e s.w → get_or s.buf (add32 s.w k % 128) 0 ≢ newline

-- A new state and the view of it.
abbrev pub Shows : Input → View → Type 0
Shows s v = IsSound s × (view s ≡ v)

drop_last-snoc : (xs : List ℕ) (x : ℕ) → drop_last (xs ++ (x ∷ [])) ≡ xs
drop_last-snoc [] x = refl
drop_last-snoc (y ∷ []) x = refl
drop_last-snoc (y ∷ z ∷ xs) x = ap (◌∷◌ y) (drop_last-snoc (z ∷ xs) x)

same_view : (a a' b b' : List ℕ) → a ≡ a' → b ≡ b' → shown a b ≡ shown a' b'
same_view a a' b b' e f = ap₂ shown e f

-- One character less in the edited line.
step_back-Shows :
    (s : Input)
    → IsSound s
    → s.e ≢ s.w
    → Shows (step_back s) (record (view s) { edited = drop_last (view s).edited })
step_back-Shows s h ne =
    let n = sub32 (sub32 s.e 1) s.w in
    let z : sub32 s.e s.w ≡ suc n = omega (arith, h.w_word, h.e_word) in
    (
      record {
        sized = h.sized;
        r_word = h.r_word;
        w_word = h.w_word;
        e_word = omega arith;
        ordered = omega (arith, h.ordered, h.r_word, h.w_word, h.e_word);
        room = omega (arith, h.ordered, h.room, h.r_word, h.w_word, h.e_word);
        one_line = λ k l. h.one_line k (omega arith);
      },
      ap (shown (view s).committed) (
          sym (
            ap (λ m. drop_last (slice s.buf s.w m)) z
            ∙ ap drop_last (slice-snoc s.buf s.w n h.w_word)
            ∙ drop_last-snoc (slice s.buf s.w n) _)),
    )

pub rubout-Shows :
    (s : Input)
    → IsSound s
    → Shows (rubout s).0 (record (view s) { edited = drop_last (view s).edited })
unfolding slice
rubout-Shows s h = elim (Bool-cases (s.e == s.w)) [
  | inl e ↦
      let z : sub32 s.e s.w ≡ 0 = ground (arith, h.w_word, h.e_word) in
      rw e (
        h,
        ap (λ n. shown (view s).committed (slice s.buf s.w n)) z
            ∙ sym (ap (λ n. shown (view s).committed (drop_last (slice s.buf s.w n))) z),
      )
  | inr e ↦ rw e (step_back-Shows s h (ne_of_== s.e s.w e))
]

-- With enough fuel the whole edited line goes.
pub kill_line-Shows :
    (fuel : ℕ) (s : Input)
    → IsSound s
    → sub32 s.e s.w ≤ fuel
    → Shows (kill_line fuel s).0 (record (view s) { edited = [] })
unfolding kill_line slice
kill_line-Shows zero s h le =
    let z : sub32 s.e s.w ≡ 0 = omega arith in
    (h, ap (λ n. shown (view s).committed (slice s.buf s.w n)) z)
kill_line-Shows (suc fuel) s h le = elim (Bool-cases (s.e == s.w)) [
  | inl e ↦
      let z : sub32 s.e s.w ≡ 0 = ground (arith, h.w_word, h.e_word) in
      rw e (h, ap (λ n. shown (view s).committed (slice s.buf s.w n)) z)
  | inr e ↦
      let ne : s.e ≢ s.w = ne_of_== s.e s.w e in
      let n = sub32 (sub32 s.e 1) s.w in
      let lt : n < sub32 s.e s.w = omega (arith, h.w_word, h.e_word) in
      let at : add32 s.w n ≡ sub32 s.e 1 = omega (arith, h.w_word, h.e_word) in
      let letter : (get_or s.buf (sub32 s.e 1 % input_buf) 0 == newline) ≡ false =
        ==-of_ne _ _ (subst (λ j. get_or s.buf (j % 128) 0 ≢ newline) at (h.one_line n lt)) in
      let (h', _) = step_back-Shows s h ne in
      let (h'', v') = kill_line-Shows fuel (step_back s) h' (omega arith) in
      rw e (rw letter (h'', v'))
]
