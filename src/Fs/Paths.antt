-- ===== src/Fs/Paths.antt =====
-- What the path functions of kernel/fs.c make of a path: its words, and no endless loop.
use microkernal.Common.{
  Bool-cases, List, Option, [], ap, arith, false, if◌then◌else◌, inl, inr, length, none, refl, some,
  sym, take, ℕ, ◌++◌, ◌<◌, ◌==◌, ◌∙◌, ◌∷◌, ◌≡◌, ◌≤◌,
}
use microkernal.Fs.Names.{skip_slashes, skip_word, skipelem, slash, word_of}

-- A word that has ended, if it has characters.
abbrev pub flush : (word : List ℕ) → List (List ℕ) → List (List ℕ)
flush [] ws = ws
flush (c ∷ cs) ws = (c ∷ cs) ∷ ws

-- The words of a path between its slashes, where `word` has been read.
unfoldable pub words : (word path : List ℕ) → List (List ℕ)
words word [] = flush word []
words word (c ∷ cs) =
    let ended = flush word (words [] cs) in
    let longer = words (word ++ (c ∷ [])) cs in if c == slash then ended else longer

words-skip_slashes : (p : List ℕ) → words [] (skip_slashes p) ≡ words [] p
unfolding words skip_slashes
words-skip_slashes [] = refl
words-skip_slashes (c ∷ cs) = elim (Bool-cases (c == slash)) [
  | inl e ↦ rw e (words-skip_slashes cs)
  | inr e ↦ ap (λ b. words [] (if b then skip_slashes cs else c ∷ cs)) e
]

append_nil : (xs : List ℕ) → xs ++ [] ≡ xs
append_nil [] = refl
append_nil (x ∷ xs) = ap (◌∷◌ x) (append_nil xs)

append_assoc : (xs ys zs : List ℕ) → (xs ++ ys) ++ zs ≡ xs ++ (ys ++ zs)
append_assoc [] ys zs = refl
append_assoc (x ∷ xs) ys zs = ap (◌∷◌ x) (append_assoc xs ys zs)

words-skip_word :
    (word p : List ℕ) → words word p ≡ flush (word ++ (skip_word p).0) (words [] (skip_word p).1)
unfolding words skip_word
words-skip_word word [] = rw (append_nil word) refl
words-skip_word word (c ∷ cs) = elim (Bool-cases (c == slash)) [
  | inl e ↦ rw e (rw (append_nil word) (rw e refl))
  | inr e ↦ rw e (
      words-skip_word (word ++ (c ∷ [])) cs ∙ rw (append_assoc word (c ∷ []) (skip_word cs).0) refl)
]

length-skip_slashes : (p : List ℕ) → length (skip_slashes p) ≤ length p
unfolding skip_slashes
length-skip_slashes [] = omega arith
length-skip_slashes (c ∷ cs) = ground (arith, length-skip_slashes cs)

length-skip_word : (p : List ℕ) → length (skip_word p).1 ≤ length p
unfolding skip_word
length-skip_word [] = omega arith
length-skip_word (c ∷ cs) = ground (arith, length-skip_word cs)

-- No slash at the start.
abbrev pub IsTrimmed : List ℕ → Type 0
IsTrimmed [] = Unit {0}
IsTrimmed (c ∷ cs) = (c == slash) ≡ false

skip_slashes-IsTrimmed : (p : List ℕ) → IsTrimmed (skip_slashes p)
unfolding skip_slashes
skip_slashes-IsTrimmed [] = tt
skip_slashes-IsTrimmed (c ∷ cs) = elim (Bool-cases (c == slash)) [
  | inl e ↦ rw e (skip_slashes-IsTrimmed cs)
  | inr e ↦ rw e e
]

-- There is no word left, or the first word is taken off: its name is its first DIRSIZ characters, and
-- the path that is left, without slashes at its start, has the other words.
abbrev pub TakesWord : List ℕ → Option (List ℕ × List ℕ) → Type 0
TakesWord path none = words [] path ≡ []
TakesWord path (some (rest, name)) =
    (w : List ℕ) × (words [] path ≡ w ∷ words [] rest)
    × (name ≡ take 14 w)
    × (length rest < length path)
    × IsTrimmed rest

word_of-TakesWord : (p : List ℕ) → IsTrimmed p → TakesWord p (word_of p)
unfolding words skip_word
word_of-TakesWord [] t = refl
word_of-TakesWord (c ∷ cs) t =
    let r = skip_word cs in
    rw t (
      c ∷ r.0,
      words-skip_word (c ∷ []) cs ∙ ap (λ ws. (c ∷ r.0) ∷ ws) (sym (words-skip_slashes r.1)),
      refl,
      omega (arith, length-skip_slashes r.1, length-skip_word cs),
      skip_slashes-IsTrimmed r.1,
    )

TakesWord-longer :
    (p q : List ℕ) (o : Option (List ℕ × List ℕ))
    → words [] q ≡ words [] p
    → length q ≤ length p
    → TakesWord q o
    → TakesWord p o
TakesWord-longer p q none e le t = sym e ∙ t
TakesWord-longer p q (some (rest, name)) e le (w, s, n, lt, i) = (w, sym e ∙ s, n, omega arith, i)

-- `skipelem` takes the first word of the path off.
pub skipelem-TakesWord : (path : List ℕ) → TakesWord path (skipelem path)
unfolding skipelem
skipelem-TakesWord path =
    TakesWord-longer path (skip_slashes path) (word_of (skip_slashes path))
      (words-skip_slashes path) (length-skip_slashes path)
      (word_of-TakesWord (skip_slashes path) (skip_slashes-IsTrimmed path))
