-- ===== src/Vspace/Copy/Owners.antt =====
-- Which pages the allocator has given away, and that the pages of a copy are its own, kernel/vspace.c.
use microkernal.Common.{List, [], get_elem?, some, subst, true, ℕ, ◌++◌, ◌∙◌, ◌∷◌, ◌≡◌, ◌≢◌}
use microkernal.Kalloc.{Kmem, Entry}
use microkernal.Vspace.{Vpi}

-- Page `ppn` is one that the allocator has given away.
abbrev pub Taken : Kmem → ℕ → Type 0
Taken m ppn = (e : Entry) × (get_elem? m.core_map ppn ≡ some e) × (e.available ≢ 1)

-- Pages that were taken are taken still, with the same contents.
abbrev pub Keeps : Kmem → Kmem → Type 0
Keeps m m' = (ppn : ℕ) → Taken m ppn → Taken m' ppn × (m'.frame ppn ≡ m.frame ppn)

pub Keeps-trans : (m n k : Kmem) → Keeps m n → Keeps n k → Keeps m k
Keeps-trans m n k a b ppn t = let (t', e) = a ppn t in let (t'', e') = b ppn t' in (t'', e' ∙ e)

-- The pages of the entries in use belong to somebody.
abbrev pub AllTaken : Kmem → List Vpi → Type 0
AllTaken m [] = Unit {0}
AllTaken m (v ∷ vs) = (v.used ≡ true → Taken m v.ppn) × AllTaken m vs

pub AllTaken-Keeps : (m m' : Kmem) (vs : List Vpi) → Keeps m m' → AllTaken m vs → AllTaken m' vs
AllTaken-Keeps m m' [] k a = tt
AllTaken-Keeps m m' (v ∷ vs) k (h, a) = (λ u. (k v.ppn (h u)).0, AllTaken-Keeps m m' vs k a)

-- The pages of the entries in use are nobody's.
abbrev pub NoneTaken : Kmem → List Vpi → Type 0
NoneTaken m [] = Unit {0}
NoneTaken m (w ∷ ws) = (w.used ≡ true → ¬ Taken m w.ppn) × NoneTaken m ws

-- No entry in use has page `ppn`.
abbrev pub Misses : ℕ → List Vpi → Type 0
Misses ppn [] = Unit {0}
Misses ppn (w ∷ ws) = (w.used ≡ true → ppn ≢ w.ppn) × Misses ppn ws

-- No two entries in use have the same page.
abbrev pub Distinct : List Vpi → Type 0
Distinct [] = Unit {0}
Distinct (w ∷ ws) = (w.used ≡ true → Misses w.ppn ws) × Distinct ws

-- The pages of `ws` were nobody's in `m`, belong to somebody in `m'`, and differ from one another.
pub record Own (m : Kmem) (ws : List Vpi) (m' : Kmem) : Type 0 where
  pub new : NoneTaken m ws
  pub taken : AllTaken m' ws
  pub distinct : Distinct ws

NoneTaken-earlier : (m n : Kmem) (ws : List Vpi) → Keeps m n → NoneTaken n ws → NoneTaken m ws
NoneTaken-earlier m n [] k a = tt
NoneTaken-earlier m n (w ∷ ws) k (h, a) = (λ u t. h u (k w.ppn t).0, NoneTaken-earlier m n ws k a)

NoneTaken-append :
    (m : Kmem) (xs ys : List Vpi) → NoneTaken m xs → NoneTaken m ys → NoneTaken m (xs ++ ys)
NoneTaken-append m [] ys a b = b
NoneTaken-append m (x ∷ xs) ys (h, a) b = (h, NoneTaken-append m xs ys a b)

AllTaken-append :
    (m : Kmem) (xs ys : List Vpi) → AllTaken m xs → AllTaken m ys → AllTaken m (xs ++ ys)
AllTaken-append m [] ys a b = b
AllTaken-append m (x ∷ xs) ys (h, a) b = (h, AllTaken-append m xs ys a b)

Misses-of_Taken :
    (m : Kmem) (ppn : ℕ) (ys : List Vpi) → Taken m ppn → NoneTaken m ys → Misses ppn ys
Misses-of_Taken m ppn [] t b = tt
Misses-of_Taken m ppn (y ∷ ys) t (h, b) =
    (λ u z. h u (subst (Taken m) z t), Misses-of_Taken m ppn ys t b)

Misses-append : (ppn : ℕ) (xs ys : List Vpi) → Misses ppn xs → Misses ppn ys → Misses ppn (xs ++ ys)
Misses-append ppn [] ys a b = b
Misses-append ppn (x ∷ xs) ys (h, a) b = (h, Misses-append ppn xs ys a b)

Distinct-append :
    (m : Kmem) (xs ys : List Vpi)
    → AllTaken m xs
    → NoneTaken m ys
    → Distinct xs
    → Distinct ys
    → Distinct (xs ++ ys)
Distinct-append m [] ys t b d e = e
Distinct-append m (x ∷ xs) ys (h, t) b (o, d) e = (
  λ u. Misses-append x.ppn xs ys (o u) (Misses-of_Taken m x.ppn ys (h u) b),
  Distinct-append m xs ys t b d e,
)

pub Own-nil : (m m' : Kmem) → Own m [] m'
Own-nil m m' = record { new = tt; taken = tt; distinct = tt }

-- First `xs`, and then `ys`.
pub Own-append :
    (m n m' : Kmem) (xs ys : List Vpi)
    → Keeps m n
    → Keeps n m'
    → Own m xs n
    → Own n ys m'
    → Own m (xs ++ ys) m'
Own-append m n m' xs ys k l a b = record {
  new = NoneTaken-append m xs ys a.new (NoneTaken-earlier m n ys k b.new);
  taken = AllTaken-append m' xs ys (AllTaken-Keeps n m' xs l a.taken) b.taken;
  distinct = Distinct-append n xs ys a.taken b.new a.distinct b.distinct;
}

pub Own-earlier : (m n m' : Kmem) (ws : List Vpi) → Keeps m n → Own n ws m' → Own m ws m'
Own-earlier m n m' ws k a = record {
  new = NoneTaken-earlier m n ws k a.new;
  taken = a.taken;
  distinct = a.distinct;
}

pub Own-later : (m n m' : Kmem) (ws : List Vpi) → Keeps n m' → Own m ws n → Own m ws m'
Own-later m n m' ws k a = record {
  new = a.new;
  taken = AllTaken-Keeps n m' ws k a.taken;
  distinct = a.distinct;
}
