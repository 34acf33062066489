-- ===== src/PageTable/Walks.antt =====
-- The walk that makes the tables it misses, kernel/x86_64vm.c.
use microkernal.Common.{
  ==-of_ne, ==-refl, Bool, Bool-cases, List, Option, [], ap, ap₂, arith, false, inl, inr, length,
  ne_of_==, none, refl, some, subst, suc, sym, true, zero, ℕ, ◌&&◌, ◌*◌, ◌+◌, ◌<◌, ◌==◌, ◌∙◌, ◌∷◌,
  ◌≡◌, ◌≢◌, ◌≤◌,
}
use microkernal.Guest.{zero_pte}
use microkernal.PageTable.{
  TableEntry, Tables, clear, continue_at, index, new_table, table_entry, walk_levels, write_entry,
}
use microkernal.PageTable.Frames.{
  AreFresh, IsTree, NotIn, Owner, owned, prefix_of, prefix_step, translate,
}
use microkernal.PageTable.Writes.{and_false, below, level_of, own_ne, prefix_part, translate-new}

-- The tables on the way to a page are there, and the last one is `last`.
abbrev pub IsPath : (level h p last : ℕ) → Tables → Type 0
IsPath zero h p last s = h ≡ last
IsPath (suc level) h p last s =
    ((s.entry h (index (suc level) p)).present ≡ true)
    × IsPath level (s.entry h (index (suc level) p)).ppn p last s

pub not_false : ◌≢◌ {A = Bool} false true
not_false e = cc

owned-other : (own : Owner) (g level x f : ℕ) → f ≢ g → owned g level x own f ≡ own f
owned-other own g level x f ne = rw (==-of_ne f g ne) refl

owned-kept :
    (own : Owner) (g level x f : ℕ) {v : ℕ × ℕ}
    → own g ≡ none
    → own f ≡ some v
    → owned g level x own f ≡ some v
owned-kept own g level x f eg ef = owned-other own g level x f (own_ne own f g ef eg (λ q. cc)) ∙ ef

AreFresh-owned :
    (own : Owner) (g level x : ℕ) (gs : List ℕ)
    → NotIn g gs
    → AreFresh own gs
    → AreFresh (owned g level x own) gs
AreFresh-owned own g level x [] n fr = tt
AreFresh-owned own g level x (y ∷ gs) (ne, n) (e, m, fr) =
    (owned-other own g level x y ne ∙ e, m, AreFresh-owned own g level x gs n fr)

-- The tables with a new one, `g`, below the table `h` of level `level` + 1, and their owners.
abbrev new_state : Tables → (h level p g : ℕ) → List ℕ → Tables
new_state s h level p g gs =
    write_entry h (index (suc level) p) (table_entry g) (clear g (record s { free = gs }))

abbrev new_owner : Owner → (g level p : ℕ) → Owner
new_owner own g level p = owned g level (prefix_of level p) own

module _ (own : Owner) (s : Tables) (tree : IsTree own s) (h level p g : ℕ) (gs : List ℕ)
    (eh : own h ≡ some (suc level, prefix_of (suc level) p)) (eg : own g ≡ none) where
  new_in_g : (f i : ℕ) → (f == g) ≡ true → (new_state s h level p g gs).entry f i ≡ zero_pte
  new_in_g f i e =
      let q : f ≡ g = ground arith in
      let no_write = ==-of_ne f h (subst (λ k. k ≢ h) (sym q) (own_ne own g h eg eh (λ q'. cc))) in
      rw no_write (rw e refl)

  new_at :
      (f i : ℕ)
      → (f == h && i == index (suc level) p) ≡ true
      → (new_state s h level p g gs).entry f i ≡ table_entry g
  new_at f i e = rw e refl

  new_other :
      (f i : ℕ)
      → (f == g) ≡ false
      → (f == h && i == index (suc level) p) ≡ false
      → (new_state s h level p g gs).entry f i ≡ s.entry f i
  new_other f i e e' = rw e' (rw e refl)

  new_link :
      (f l x i : ℕ)
      → own f ≡ some (suc l, x)
      → (f == h && i == index (suc level) p) ≡ true
      → (new_owner own g level p) g ≡ some (l, x * 512 + i)
  new_link f l x i ef e =
      let f_h : f ≡ h = ground arith in
      let at : i ≡ index (suc level) p = ground arith in
      let same = sym ef ∙ ap own f_h ∙ eh in
      let l' : l ≡ level = omega (arith, ap level_of same) in
      let x' : x ≡ prefix_of (suc level) p = ap prefix_part same in
      let n : x * 512 + i ≡ prefix_of level p =
        ap₂ (λ y k. y * 512 + k) x' at ∙ prefix_step level p in
      rw (==-refl g) (ap₂ (λ a b. some (a, b)) (sym l') (sym n))

  new-linked :
      (f l x i : ℕ)
      → (new_owner own g level p) f ≡ some (suc l, x)
      → ((new_state s h level p g gs).entry f i).present ≡ true
      → (new_owner own g level p) ((new_state s h level p g gs).entry f i).ppn
        ≡ some (l, x * 512 + i)
  new-linked f l x i ef there = elim (Bool-cases (f == g)) [
    | inl e ↦
        let gone = sym (ap (λ (y : TableEntry). y.present) (new_in_g f i e)) ∙ there in
        absurd (not_false gone)
    | inr e ↦
        let ef' : own f ≡ some (suc l, x) =
          sym (owned-other own g level (prefix_of level p) f (ne_of_== f g e)) ∙ ef in
        elim (Bool-cases (f == h && i == index (suc level) p)) [
          | inl e' ↦
              subst (λ (y : TableEntry). (new_owner own g level p) y.ppn ≡ some (l, x * 512 + i))
                (sym (new_at f i e')) (new_link f l x i ef' e')
          | inr e' ↦
              let q = new_other f i e e' in
              subst (λ (y : TableEntry). (new_owner own g level p) y.ppn ≡ some (l, x * 512 + i))
                (sym q)
                (owned-kept own g level (prefix_of level p) (s.entry f i).ppn eg
                  (tree.linked f l x i ef' (sym (ap (λ (y : TableEntry). y.present) q) ∙ there)))
        ]
  ]

  new-IsTree :
      NotIn g gs → AreFresh own gs → IsTree (new_owner own g level p) (new_state s h level p g gs)
  new-IsTree n fr = record {
    linked = new-linked;
    fresh = AreFresh-owned own g level (prefix_of level p) gs n fr;
  }

-- What the walk leaves: the tables and their owners, the last table, which is on the page's way, the map
-- and the entries above as before, and pages for `level` tables fewer.
pub record Walked (own : Owner) (level h p : ℕ) (s : Tables) (out : Tables × Option ℕ)
    : Type 0 where
  pub after : Tables
  pub owner : Owner
  pub last : ℕ
  pub walked : out ≡ (after, some last)
  pub tree : IsTree owner after
  pub kept : (f : ℕ) {v : ℕ × ℕ} → own f ≡ some v → owner f ≡ some v
  pub reached : owner last ≡ some (0, prefix_of 0 p)
  pub path : IsPath level h p last after
  pub same :
      (l k q : ℕ) → own k ≡ some (l, prefix_of l q) → translate l k q after ≡ translate l k q s
  pub above : (l k x i : ℕ) → own k ≡ some (l, x) → level < l → after.entry k i ≡ s.entry k i
  pub room : length s.free ≤ length after.free + level
  pub marks : after.marks ≡ s.marks

module _ (own : Owner) (s : Tables) (tree : IsTree own s) (level h p : ℕ)
    (o : own h ≡ some (suc level, prefix_of (suc level) p)) where
  -- The table below is there.
  level_there :
      (out : Tables × Option ℕ)
      → (s.entry h (index (suc level) p)).present ≡ true
      → Walked own level (s.entry h (index (suc level) p)).ppn p s out
      → Walked own (suc level) h p s out
  level_there out there r =
      let same_link =
        r.above (suc level) h (prefix_of (suc level) p) (index (suc level) p) o (omega arith) in
      record {
        after = r.after;
        owner = r.owner;
        last = r.last;
        walked = r.walked;
        tree = r.tree;
        kept = r.kept;
        reached = r.reached;
        path =
            subst (λ (e : TableEntry). (e.present ≡ true) × IsPath level e.ppn p r.last r.after)
              (sym same_link) (there, r.path);
        same = r.same;
        above = λ l f x i e lt. r.above l f x i e (omega arith);
        room = omega (arith, r.room);
        marks = r.marks;
      }

  -- The table below is new.
  level_new :
      (g : ℕ) (gs : List ℕ) (out : Tables × Option ℕ)
      → s.free ≡ g ∷ gs
      → own g ≡ none
      → (s.entry h (index (suc level) p)).present ≡ false
      → Walked (new_owner own g level p) level g p (new_state s h level p g gs) out
      → Walked own (suc level) h p s out
  level_new g gs out ef eg gone r =
      let j = index (suc level) p in
      let keep : (f : ℕ) (v : ℕ × ℕ) → own f ≡ some v → new_owner own g level p f ≡ some v =
        λ f v e. owned-kept own g level (prefix_of level p) f eg e in
      let link : r.after.entry h j ≡ table_entry g =
        r.above (suc level) h (prefix_of (suc level) p) j (keep h _ o) (omega arith)
        ∙ new_at own s tree h level p g gs o eg h j (rw (==-refl h) (==-refl j)) in
      record {
        after = r.after;
        owner = r.owner;
        last = r.last;
        walked = r.walked;
        tree = r.tree;
        kept = λ f e. r.kept f (keep f _ e);
        reached = r.reached;
        path =
            subst (λ (e : TableEntry). (e.present ≡ true) × IsPath level e.ppn p r.last r.after)
              (sym link) (refl, r.path);
        same = λ l k q e.
            r.same l k q (keep k _ e)
            ∙ translate-new own s tree h j level (prefix_of (suc level) p) g gs o eg gone l k q e;
        above = λ l f x i e lt.
            r.above l f x i (keep f _ e) (omega arith)
            ∙ new_other own s tree h level p g gs o eg f i
                (==-of_ne f g (own_ne own f g e eg (λ q. cc)))
                (and_false _ _
                  (==-of_ne f h (own_ne own f h e o (λ q. absurd (omega (arith, ap level_of q))))));
        room = omega (arith, r.room, ap length ef);
        marks = r.marks;
      }

  level_new_or_none :
      (fs : List ℕ)
      → s.free ≡ fs
      → suc level ≤ length s.free
      → (s.entry h (index (suc level) p)).present ≡ false
      → ((own' : Owner) (s' : Tables) (g : ℕ)
          → IsTree own' s'
          → own' g ≡ some (level, prefix_of level p)
          → level ≤ length s'.free
          → Walked own' level g p s' (walk_levels level true g p s'))
      → Walked own
          (suc level)
          h
          p
          s
          (continue_at (new_table fs h (index (suc level) p) s) (λ g. walk_levels level true g p))
  level_new_or_none [] ef room gone ih = absurd (omega (arith, ap length ef))
  level_new_or_none (g ∷ gs) ef room gone ih =
      let (eg, n, fr) = subst (AreFresh own) ef tree.fresh in
      level_new g gs _ ef eg gone (
        ih (new_owner own g level p) (new_state s h level p g gs) g
          (new-IsTree own s tree h level p g gs o eg n fr) (rw (==-refl g) refl)
          (omega (arith, ap length ef)))

pub walk_levels-Walked :
    (level h p : ℕ) (own : Owner) (s : Tables)
    → IsTree own s
    → own h ≡ some (level, prefix_of level p)
    → level ≤ length s.free
    → Walked own level h p s (walk_levels level true h p s)
unfolding walk_levels
walk_levels-Walked zero h p own s t o room = record {
  after = s;
  owner = own;
  last = h;
  walked = refl;
  tree = t;
  kept = λ f e. e;
  reached = o;
  path = refl;
  same = λ l k q e. refl;
  above = λ l k x i e lt. refl;
  room = omega arith;
  marks = refl;
}
walk_levels-Walked (suc level) h p own s t o room =
    elim (Bool-cases (s.entry h (index (suc level) p)).present) [
      | inl there ↦ rw there (
          level_there own s t level h p o _ there (
            walk_levels-Walked level (s.entry h (index (suc level) p)).ppn p own s t
              (below own s t level h p o there) (omega arith)))
      | inr gone ↦ rw gone (
          level_new_or_none own s t level h p o s.free refl room gone
            (λ own' s' g t' o' room'. walk_levels-Walked level g p own' s' t' o' room'))
    ]
