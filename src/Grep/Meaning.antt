-- ===== src/Grep/Meaning.antt =====
-- What the patterns of user/grep.c mean, with no search order, and that the matcher decides it.
use microkernal.Common.{
  Bool, Bool-cases, List, [], ap, arith, eq_of_==, false, if◌then◌else◌, inl, inr, is_nil, ne_of_==,
  refl, subst, sym, true, ℕ, ◌++◌, ◌==◌, ◌↔◌, ◌∷◌, ◌≡◌, ◌≢◌, ◌⊎◌,
}
use microkernal.Grep.{
  match, caret, match_somewhere, dollar, matchhere, matchone, matchstar, star, takes,
}

-- One character that `c` takes, or any number of them.
pub data Piece : Type 0 where
  one many : ℕ → Piece

-- The pieces of a pattern without its caret, and whether it ends in a dollar sign.
unfoldable pub compile : List ℕ → List Piece × Bool
compile [] = ([], false)
compile (c ∷ []) = if c == dollar then ([], true) else (one c ∷ [], false)
compile (c ∷ d ∷ re) = elim (d == star) [
  | true ↦ (many c ∷ (compile re).0, (compile re).1)
  | false ↦ (one c ∷ (compile (d ∷ re)).0, (compile (d ∷ re)).1)
]

-- The text starts with what the pieces stand for; with `to_end` nothing follows.
pub data Matches (to_end : Bool) : List Piece → List ℕ → Type 0 where
  over : {t : List ℕ} → to_end ≡ false → Matches to_end [] t
  at_end : to_end ≡ true → Matches to_end [] []
  step :
      {c x : ℕ} {ps : List Piece} {xs : List ℕ}
      → takes c x ≡ true
      → Matches to_end ps xs
      → Matches to_end (one c ∷ ps) (x ∷ xs)
  leave :
      {c : ℕ} {ps : List Piece} {t : List ℕ} → Matches to_end ps t → Matches to_end (many c ∷ ps) t
  more :
      {c x : ℕ} {ps : List Piece} {xs : List ℕ}
      → takes c x ≡ true
      → Matches to_end (many c ∷ ps) xs
      → Matches to_end (many c ∷ ps) (x ∷ xs)

-- `here` decides whether the text starts with the pieces.
abbrev Decides : (to_end : Bool) → List Piece → (List ℕ → Bool) → Type 0
Decides to_end ps here = (t : List ℕ) → (here t ≡ true) ↔ Matches to_end ps t

at_nil : {e : Bool} {c : ℕ} {ps : List Piece} → Matches e (many c ∷ ps) [] → Matches e ps []
at_nil (leave m) = m

many_inv :
    {e : Bool} {c x : ℕ} {ps : List Piece} {xs : List ℕ}
    → Matches e (many c ∷ ps) (x ∷ xs)
    → Matches e ps (x ∷ xs) ⊎ ((takes c x ≡ true) × Matches e (many c ∷ ps) xs)
many_inv (leave m) = inl m
many_inv (more h m) = inr (h, m)

one_inv :
    {e : Bool} {c x : ℕ} {ps : List Piece} {xs : List ℕ}
    → Matches e (one c ∷ ps) (x ∷ xs)
    → (takes c x ≡ true) × Matches e ps xs
one_inv (step h m) = (h, m)

not_one : {e : Bool} {c : ℕ} {ps : List Piece} → Matches e (one c ∷ ps) [] → ⊥
not_one m = elim m [ ]

to_end_inv : {t : List ℕ} → Matches true [] t → is_nil t ≡ true
to_end_inv (over h) = cc h
to_end_inv (at_end h) = refl

of_is_nil : (t : List ℕ) → is_nil t ≡ true → Matches true [] t
of_is_nil [] h = at_end refl
of_is_nil (x ∷ xs) h = cc h

matchstar-Decides :
    (e : Bool) (ps : List Piece) (here : List ℕ → Bool) (c : ℕ)
    → Decides e ps here
    → Decides e (many c ∷ ps) (matchstar here c)
unfolding matchstar
matchstar-Decides e ps here c d [] = (λ h. leave ((d []).0 h), λ m. (d []).1 (at_nil m))
matchstar-Decides e ps here c d (x ∷ xs) =
    let ih = matchstar-Decides e ps here c d xs in
    elim (Bool-cases (here (x ∷ xs))) [
      | inl h ↦ (λ r. leave ((d (x ∷ xs)).0 h), λ m. rw h refl)
      | inr h ↦ elim (Bool-cases (takes c x)) [
        | inl k ↦ rw h (
            rw k (
              λ r. more k (ih.0 r),
              λ m. elim (many_inv m) [
                | inl n ↦ absurd (ground (arith, (d (x ∷ xs)).1 n))
                | inr (l, n) ↦ ih.1 n
              ],
            ))
        | inr k ↦ rw h (
            rw k (
              λ r. absurd (ground (arith, r)),
              λ m. elim (many_inv m) [
                | inl n ↦ absurd (ground (arith, (d (x ∷ xs)).1 n))
                | inr (l, n) ↦ absurd (ground (arith, l))
              ],
            ))
      ]
    ]

matchone-Decides :
    (e : Bool) (ps : List Piece) (here : List ℕ → Bool) (c : ℕ)
    → Decides e ps here
    → Decides e (one c ∷ ps) (matchone here c)
matchone-Decides e ps here c d [] = (λ h. cc h, λ m. absurd (not_one m))
matchone-Decides e ps here c d (x ∷ xs) = elim (Bool-cases (takes c x)) [
  | inl k ↦ rw k (λ r. step k ((d xs).0 r), λ m. (d xs).1 (one_inv m).1)
  | inr k ↦ rw k (λ r. cc r, λ m. absurd (ground (arith, (one_inv m).0)))
]

matchhere-Decides : (re : List ℕ) → Decides (compile re).1 (compile re).0 (matchhere re)
unfolding compile matchhere
matchhere-Decides [] t = (λ h. over refl, λ m. refl)
matchhere-Decides (c ∷ []) t = elim (Bool-cases (c == dollar)) [
  | inl k ↦ rw k (of_is_nil t, to_end_inv)
  | inr k ↦ rw k (matchone-Decides false [] (matchhere []) c (λ u. (λ h. over refl, λ m. refl)) t)
]
matchhere-Decides (c ∷ d ∷ re) t = elim (Bool-cases (d == star)) [
  | inl k ↦
      rw (k, compile)
        (rw (k, matchhere)
          (matchstar-Decides (compile re).1 (compile re).0 (matchhere re) c (matchhere-Decides re)
            t))
  | inr k ↦
      rw (k, compile)
        (rw (k, matchhere)
          (matchone-Decides (compile (d ∷ re)).1 (compile (d ∷ re)).0 (matchhere (d ∷ re)) c
            (matchhere-Decides (d ∷ re)) t))
]

-- The text starts with what the pattern, which has no caret, stands for.
abbrev pub Starts : (re text : List ℕ) → Type 0
Starts re text = Matches (compile re).1 (compile re).0 text

-- Some end of the text starts so.
abbrev pub Somewhere : (re text : List ℕ) → Type 0
Somewhere re text = (pre post : List ℕ) × (text ≡ pre ++ post) × Starts re post

match_somewhere_iff : (re text : List ℕ) → (match_somewhere re text ≡ true) ↔ Somewhere re text
unfolding match_somewhere
match_somewhere_iff re [] = (
  λ h. ([], [], refl, (matchhere-Decides re []).0 h),
  λ (pre, post, e, m). (matchhere-Decides re []).1 (subst (Starts re) (sym (no_rest pre post e)) m),
)
  where
    no_rest : (pre post : List ℕ) → [] ≡ pre ++ post → [] ≡ post
    no_rest [] post e = e
    no_rest (x ∷ pre) post e = cc e
match_somewhere_iff re (x ∷ xs) =
    let ih = match_somewhere_iff re xs in
    elim (Bool-cases (matchhere re (x ∷ xs))) [
      | inl h ↦ rw h (λ r. ([], x ∷ xs, refl, (matchhere-Decides re (x ∷ xs)).0 h), λ s. refl)
      | inr h ↦ rw h (
        λ r. let (pre, post, e, m) = ih.0 r in (x ∷ pre, post, ap (◌∷◌ x) e, m),
        λ (pre, post, e, m). ih.1 (later pre post h e m),
      )
    ]
  where
    later :
        (pre post : List ℕ)
        → matchhere re (x ∷ xs) ≡ false
        → (x ∷ xs) ≡ pre ++ post
        → Starts re post
        → Somewhere re xs
    later [] post h e m =
        let y : matchhere re (x ∷ xs) ≡ true =
          (matchhere-Decides re (x ∷ xs)).1 (subst (Starts re) (sym e) m) in
        absurd (ground (arith, h, y))
    later (y ∷ pre) post h e m = (pre, post, cc e, m)

-- A pattern with a caret is looked for at the start of the text, any other anywhere.
abbrev pub Accepts : (re text : List ℕ) → Type 0
Accepts re text =
    ((r : List ℕ) × (re ≡ caret ∷ r) × Starts r text)
    ⊎ (((r : List ℕ) → re ≢ caret ∷ r) × Somewhere re text)

head_of : {c d : ℕ} {r s : List ℕ} → (c ∷ r) ≡ (d ∷ s) → c ≡ d
head_of e = cc e

tail_of : {c d : ℕ} {r s : List ℕ} → (c ∷ r) ≡ (d ∷ s) → r ≡ s
tail_of e = cc e

-- `match` answers whether the text has a part that the pattern stands for.
pub match_iff : (re text : List ℕ) → (match re text ≡ true) ↔ Accepts re text
unfolding match
match_iff [] text = (
  λ h. inr (λ r e. cc e, (match_somewhere_iff [] text).0 h),
  λ a. elim a [ inl (r, e, m) ↦ cc e | inr (n, m) ↦ (match_somewhere_iff [] text).1 m ],
)
match_iff (c ∷ re) text = elim (Bool-cases (c == caret)) [
  | inl k ↦ rw k (
    λ h. inl (re, ap (λ x. x ∷ re) (eq_of_== c caret k), (matchhere-Decides re text).0 h),
    λ a. elim a [
      | inl (r, e, m) ↦
          (matchhere-Decides re text).1 (subst (λ p. Starts p text) (sym (tail_of e)) m)
      | inr (n, m) ↦ absurd (n re (ap (λ x. x ∷ re) (eq_of_== c caret k)))
    ],
  )
  | inr k ↦ rw k (
    λ h. inr (λ r e. ne_of_== c caret k (head_of e), (match_somewhere_iff (c ∷ re) text).0 h),
    λ a. elim a [
      | inl (r, e, m) ↦ absurd (ne_of_== c caret k (head_of e))
      | inr (n, m) ↦ (match_somewhere_iff (c ∷ re) text).1 m
    ],
  )
]
