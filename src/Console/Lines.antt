-- ===== src/Console/Lines.antt =====
-- What typed characters do to the console's lines, kernel/console.c.
use microkernal.Common.{
  ==-of_ne, ==-refl, Bool-cases, List, [], add32, ap, ap₂, arith, false, get_or, get_or-set,
  if◌then◌else◌, inl, inr, length, length-set, ltb, not, refl, set, sub32, subst, suc, sym, ℕ, ◌%◌,
  ◌&&◌, ◌++◌, ◌+◌, ◌<◌, ◌==◌, ◌||◌, ◌∙◌, ◌∷◌, ◌≡◌, ◌≢◌,
}
use microkernal.Console.{
  consoleintr, Input, ctrl_d, ctrl_h, ctrl_p, ctrl_u, del, insert_char, kill_line, line_char,
  newline, put_char, type_char, commit,
}
use microkernal.Console.Slices.{slice, length-slice, slice-append, slice-set, slice-snoc}
use microkernal.Console.Views.{
  View, shown, view, typed, keyed, IsSound, Shows, rubout-Shows, kill_line-Shows,
}

-- The character stands behind the edited line, and the rest of the buffer is as before.
put_char-edited :
    (s : Input) (c : ℕ)
    → IsSound s
    → sub32 s.e s.r < 128
    → slice (put_char s c).buf s.w (suc (sub32 s.e s.w)) ≡ (view s).edited ++ (c ∷ [])
put_char-edited s c h lt =
    let n = sub32 s.e s.w in
    let b = set s.buf (s.e % 128) c in
    let j : add32 s.w n ≡ s.e = omega (arith, h.w_word, h.e_word) in
    let last : get_or b (add32 s.w n % 128) 0 ≡ c =
      ap (λ i. get_or b (i % 128) 0) j
      ∙ get_or-set s.buf (s.e % 128) (s.e % 128) c 0 (omega (arith, h.sized))
      ∙ rw (==-refl (s.e % 128)) refl in
    slice-snoc b s.w n h.w_word
    ∙ ap₂ (λ x y. x ++ (y ∷ []))
        (slice-set s.buf s.w n s.e c h.sized h.w_word h.e_word (omega arith)
          (omega (arith, h.ordered, h.r_word, h.w_word, h.e_word)))
        last

put_char-committed :
    (s : Input) (c : ℕ)
    → IsSound s
    → sub32 s.e s.r < 128
    → slice (put_char s c).buf s.r (sub32 s.w s.r) ≡ (view s).committed
put_char-committed s c h lt =
    slice-set s.buf s.r (sub32 s.w s.r) s.e c h.sized h.r_word h.e_word h.ordered lt

put_char-other :
    (s : Input) (c k : ℕ)
    → IsSound s
    → sub32 s.e s.r < 128
    → k < sub32 s.e s.w
    → get_or (put_char s c).buf (add32 s.w k % 128) 0 ≡ get_or s.buf (add32 s.w k % 128) 0
put_char-other s c k h lt l =
    let far : (s.e % 128 == add32 s.w k % 128) ≡ false =
      ==-of_ne _ _ (omega (arith, h.ordered, h.r_word, h.w_word, h.e_word)) in
    get_or-set s.buf (s.e % 128) (add32 s.w k % 128) c 0 (omega (arith, h.sized)) ∙ rw far refl

-- The character ends the line.
committed-Shows :
    (s : Input) (c : ℕ)
    → IsSound s
    → sub32 s.e s.r < 128
    → Shows
        (record (put_char s c) { w = add32 s.e 1 })
        (shown ((view s).committed ++ ((view s).edited ++ (c ∷ []))) [])
unfolding slice
committed-Shows s c h lt =
    let b = set s.buf (s.e % 128) c in
    let n : sub32 (add32 s.e 1) s.r ≡ sub32 s.w s.r + suc (sub32 s.e s.w) =
      omega (arith, h.ordered, h.r_word, h.w_word, h.e_word) in
    let z : sub32 (add32 s.e 1) (add32 s.e 1) ≡ 0 = omega arith in
    let at : add32 s.r (sub32 s.w s.r) ≡ s.w = omega (arith, h.r_word, h.w_word) in
    (
      record {
        sized = length-set s.buf (s.e % 128) c ∙ h.sized;
        r_word = h.r_word;
        w_word = omega arith;
        e_word = omega arith;
        ordered = omega arith;
        room = omega (arith, h.r_word, h.e_word);
        one_line = λ k l. absurd (omega (arith, z));
      },
      ap₂ shown
          (ap (slice b s.r) n
            ∙ slice-append b s.r (sub32 s.w s.r) (suc (sub32 s.e s.w)) h.r_word
            ∙ ap₂ ◌++◌ (put_char-committed s c h lt)
                (ap (λ i. slice b i (suc (sub32 s.e s.w))) at ∙ put_char-edited s c h lt))
          (ap (slice b (add32 s.e 1)) z),
    )

-- The line goes on.
edited-Shows :
    (s : Input) (c : ℕ)
    → IsSound s
    → sub32 s.e s.r < 128
    → c ≢ newline
    → Shows (put_char s c) (record (view s) { edited = (view s).edited ++ (c ∷ []) })
edited-Shows s c h lt letter =
    let n : sub32 (add32 s.e 1) s.w ≡ suc (sub32 s.e s.w) =
      omega (arith, h.ordered, h.r_word, h.w_word, h.e_word) in
    let b = set s.buf (s.e % 128) c in
    (
      record {
        sized = length-set s.buf (s.e % 128) c ∙ h.sized;
        r_word = h.r_word;
        w_word = h.w_word;
        e_word = omega arith;
        ordered = omega (arith, h.ordered, h.r_word, h.w_word, h.e_word);
        room = omega (arith, h.r_word, h.e_word);
        one_line = λ k l. elim (Bool-cases (ltb k (sub32 s.e s.w))) [
          | inl e ↦
              subst (λ x. x ≢ newline) (sym (put_char-other s c k h lt (ground arith)))
                (h.one_line k (ground arith))
          | inr e ↦
              let i : add32 s.w k % 128 ≡ s.e % 128 = ground (arith, n, h.w_word, h.e_word) in
              let at : get_or b (add32 s.w k % 128) 0 ≡ c =
                get_or-set s.buf (s.e % 128) (add32 s.w k % 128) c 0 (omega (arith, h.sized))
                ∙ rw i (rw (==-refl (s.e % 128)) refl) in
              subst (λ x. x ≢ newline) (sym at) letter
        ];
      },
      ap₂ shown (put_char-committed s c h lt) (ap (slice b s.w) n ∙ put_char-edited s c h lt),
    )

-- The test for a full buffer, after the character, counts 127 before it.
full_lem :
    (s : Input) (c : ℕ)
    → IsSound s
    → sub32 s.e s.r < 128
    → (add32 s.e 1 == add32 s.r 128) ≡ (sub32 s.e s.r == 127)
full_lem s c h lt = ground (arith, h.r_word, h.e_word)

commit-Shows :
    (s : Input) (c : ℕ)
    → IsSound s
    → sub32 s.e s.r < 128
    → length (view s).committed + length (view s).edited ≡ sub32 s.e s.r
    → Shows (commit (put_char s c) c).0 (typed (view s) c)
commit-Shows s c h lt total =
    elim (Bool-cases (c == newline || c == ctrl_d || sub32 s.e s.r == 127)) [
      | inl e ↦ rw (full_lem s c h lt) (rw total (rw e (committed-Shows s c h lt)))
      | inr e ↦ rw (full_lem s c h lt) (rw total (rw e (edited-Shows s c h lt (ground arith))))
    ]

insert_char-Shows :
    (s : Input) (c : ℕ)
    → IsSound s
    → Shows (insert_char s c).0 (
        if not (c == 0) && ltb (length (view s).committed + length (view s).edited) 128
        then typed (view s) (line_char c)
        else view s)
insert_char-Shows s c h =
    let total : length (view s).committed + length (view s).edited ≡ sub32 s.e s.r = omega (
      arith,
      length-slice s.buf s.r (sub32 s.w s.r),
      length-slice s.buf s.w (sub32 s.e s.w),
      h.ordered,
      h.r_word,
      h.w_word,
      h.e_word,
    ) in
    let same = ap (λ n. not (c == 0) && ltb n 128) total in
    elim (Bool-cases (not (c == 0) && ltb (sub32 s.e s.r) 128)) [
      | inr e ↦ rw e (rw (same ∙ e) (h, refl))
      | inl e ↦ rw e (rw (same ∙ e) (commit-Shows s (line_char c) h (ground (arith, e)) total))
    ]

kill_all-Shows :
    (s : Input) → IsSound s → Shows (kill_line 128 s).0 (record (view s) { edited = [] })
kill_all-Shows s h =
    kill_line-Shows 128 s h (omega (arith, h.ordered, h.room, h.r_word, h.w_word, h.e_word))

-- A character from the keyboard keeps the counters in order, and what the buffer stands for changes as
-- `keyed` says: C('P') changes nothing, C('U') clears the edited line, C('H') and DEL take its last
-- character, and any other one, unless it is 0 or 128 characters are waiting, goes to its end.
pub type_char-Shows : (s : Input) (c : ℕ) → IsSound s → Shows (type_char s c).0 (keyed (view s) c)
unfolding type_char
type_char-Shows s c h = elim (Bool-cases (c == ctrl_p)) [
  | inl e ↦ rw e (h, refl)
  | inr e ↦ elim (Bool-cases (c == ctrl_u)) [
    | inl e' ↦ rw e (rw e' (kill_all-Shows s h))
    | inr e' ↦ elim (Bool-cases (c == ctrl_h || c == del)) [
      | inl e'' ↦ rw e (rw e' (rw e'' (rubout-Shows s h)))
      | inr e'' ↦ rw e (rw e' (rw e'' (insert_char-Shows s c h)))
    ]
  ]
]

abbrev pub keyed_all : View → List ℕ → View
keyed_all v [] = v
keyed_all v (c ∷ cs) = keyed_all (keyed v c) cs

-- The characters of an interrupt keep the counters in order, and change what the buffer stands for one
-- after the other as `keyed` says.
pub consoleintr-Shows :
    (s : Input) (cs : List ℕ) → IsSound s → Shows (consoleintr s cs).0 (keyed_all (view s) cs)
unfolding consoleintr
consoleintr-Shows s [] h = (h, refl)
consoleintr-Shows s (c ∷ cs) h =
    let (h', v) = type_char-Shows s c h in
    let (h'', v') = consoleintr-Shows (type_char s c).0 cs h' in
    (h'', v' ∙ ap (λ x. keyed_all x cs) v)
