-- ===== src/File/Fork.antt =====
-- The loop of fork, kernel/proc.c, that copies the parent's descriptors.
use microkernal.Common.{
  List, Option, [], ap, arith, count_if, count_if-eq-zero, get_elem?, length, none, ok, refl, set,
  some, subst, suc, sym, ℕ, ◌+◌, ◌<◌, ◌^◌, ◌∙◌, ◌∷◌, ◌≡◌, ◌≢◌,
}
use microkernal.File.{Files, descriptors, dup_all, fork_files}
use microkernal.File.Refs.{
  Counts, holds, holds-cons, points, refs_to, refs_to-set, total, total-set, filedup-Counts,
}
use microkernal.File.Descriptors.{descriptor-refs}

-- The files that the loop has reached hold one more reference for each descriptor on them.
dup_all-Counts :
    (s : Files) (held : List ℕ) (os : List (Option ℕ))
    → total s.ofiles + (length held + length os) < 2 ^ 31
    → ((fd i : ℕ) → get_elem? os fd ≡ some (some i) → refs_to i s.ofiles ≢ 0)
    → Counts s held
    → (t : Files) × (h : List ℕ) × (dup_all s os ≡ ok t)
      × Counts t h
      × (t.ofiles ≡ s.ofiles)
      × ((i : ℕ) → holds i h ≡ holds i held + count_if (points i) os)
unfolding dup_all count_if
dup_all-Counts s held [] few live c = (s, held, refl, c, refl, λ i. omega arith)
dup_all-Counts s held (none ∷ os) few live c =
    let (t, h, run, after, same, sum) =
      dup_all-Counts s held os (omega arith) (λ fd i e. live (suc fd) i e) c in
    (t, h, run, after, same, λ i. omega (arith, sum i))
dup_all-Counts s held (some j ∷ os) few live c =
    let (u, dup, mid, kept) =
      filedup-Counts s held j (omega arith) (λ z. live 0 j refl (omega arith)) c in
    let live' = λ (fd i : ℕ) (e : get_elem? os fd ≡ some (some i)).
      subst (λ x. refs_to i x ≢ 0) (sym kept) (live (suc fd) i e) in
    let (t, h, run, after, same, sum) =
      dup_all-Counts u (j ∷ held) os (omega (arith, ap total kept)) live' mid in
    (t, h, rw dup run, after, same ∙ kept, λ i. omega (arith, sum i, holds-cons j i held))

-- `fork` copies its parent's descriptors to a child whose own are all null: no call of `filedup`
-- panics, and afterwards every file's count is again the number of descriptors on it.
pub fork_files-Counts :
    (s : Files) (me child : ℕ) (old : List (Option ℕ))
    → Counts s []
    → get_elem? s.ofiles child ≡ some old
    → ((fd : ℕ) (o : Option ℕ) → get_elem? old fd ≡ some o → o ≡ none)
    → length old ≡ length (descriptors s me)
    → total s.ofiles + length (descriptors s me) < 2 ^ 31
    → (t : Files) × (fork_files s me child ≡ ok t)
      × Counts t []
      × (t.ofiles ≡ set s.ofiles child (descriptors s me))
unfolding fork_files
fork_files-Counts s me child old c at null long few =
    let (t, h, run, after, same, sum) =
      dup_all-Counts s [] (descriptors s me) (omega arith)
        (λ fd i e. let pos = descriptor-refs s me fd i e in omega arith) c in
    let at' : get_elem? t.ofiles child ≡ some old = ap (λ x. get_elem? x child) same ∙ at in
    let refs = λ (i : ℕ). refs_to-set i t.ofiles child old (descriptors s me) at' in
    let size = total-set t.ofiles child old (descriptors s me) at' (sym long) in
    (
      record t { ofiles = set t.ofiles child (descriptors s me) },
      rw run refl,
      record {
        counted = λ i f e. omega (arith, after.counted i f e, sum i, refs i, none_old i);
        exist = λ i n. after.exist i (omega (arith, sum i, refs i, none_old i));
        few = omega (arith, size, ap total same);
      },
      ap (λ x. set x child (descriptors s me)) same,
    )
  where
    none_old : (i : ℕ) → count_if (points i) old ≡ 0
    none_old i = count_if-eq-zero (points i) old (λ fd o e. ap (points i) (null fd o e))
