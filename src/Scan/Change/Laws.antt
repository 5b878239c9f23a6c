-- ===== src/Scan/Change/Laws.antt =====
-- The changes between two sorted manifests take the first to the second.
use duet.Prelude.{
  [], ◌∷◌, false, ok, filter_map, push_some, All, true, Option, none, some, List, ◌≡◌, refl, arith,
  Bool-cases, ◌⊎◌, inl, inr,
}
use duet.Ord.{=?_iff}
use duet.FilePath.{FilePath, component_ord}
use duet.Ord.Lexicographic.{list_ord}
use duet.Sorted.{IsSorted, find}
use duet.MatchSorted.Merge.{IsKeyed, merge-IsSorted, find-merge}
use duet.MatchSorted.{Pair, matched}
use duet.MatchSorted.Pairs.{Agree, matched-Agree}
use duet.Scan.Entry.{Entry, same_entry}
use duet.Scan.Change.{
  Change, added, removed, modified, change_path, asserted_path, entry_path, change_between, changes,
}

-- The entry that a change starts from, and the one that it leads to.
abbrev pub before : Change → Option Entry
before (added e) = none
before (removed e) = some e
before (modified old new) = some old

abbrev pub after : Change → Option Entry
after (added e) = some e
after (removed e) = none
after (modified old new) = some new

change_between-IsKeyed : IsKeyed entry_path change_path change_between
unfolding change_between
change_between-IsKeyed = record {
  neither = refl;
  left = λ a b h. ground arith;
  right = λ a b h. ground arith;
  both = λ a c b e h. ground arith;
}

-- What a manifest holds at a path after the change found there, if any.
abbrev pub replay : Option Change → Option Entry → Option Entry
replay none old = old
replay (some c) old = after c

-- The entries are one, or two that the scan takes for unchanged.
abbrev pub Unchanged : Option Entry → Option Entry → Type 0
Unchanged none none = Unit
Unchanged (some a) (some b) = (a ≡ b) ⊎ (same_entry a b ≡ true)
Unchanged none (some b) = ⊥
Unchanged (some a) none = ⊥

-- The scan does not take the entries for unchanged.
abbrev pub Differ : Option Entry → Option Entry → Type 0
Differ none none = ⊥
Differ (some a) (some b) = same_entry a b ≡ false
Differ none (some b) = Unit
Differ (some a) none = Unit

-- What a change says of the old and the new entry of its path.
abbrev pub IsChange : Change → Option Entry → Option Entry → Type 0
IsChange c o n = (before c ≡ o) × (after c ≡ n) × Differ o n

change_between_lem :
    (a b : Option Entry)
    → Unchanged (replay (change_between a b) a) b
      × ((c : Change) → change_between a b ≡ some c → IsChange c a b)
unfolding change_between
change_between_lem none none = (tt, λ c h. cc)
change_between_lem none (some b) = (inl refl, λ c h. ground arith)
change_between_lem (some a) none = (tt, λ c h. ground arith)
change_between_lem (some a) (some b) = elim (Bool-cases (same_entry a b)) [
  | inl e ↦ rw (e, change_between) (inr e, λ c h. cc)
  | inr e ↦ rw (e, change_between) (inl refl, λ c h. ground arith)
]

pub changes-IsSorted :
    (old new : List Entry)
    → IsSorted entry_path old
    → IsSorted entry_path new
    → IsSorted change_path (changes old new)
unfolding changes
changes-IsSorted = merge-IsSorted entry_path change_path change_between change_between-IsKeyed

module _ (p : FilePath) (old new : List Entry) (s : IsSorted entry_path old)
    (t : IsSorted entry_path new) where
  pub find-changes :
      find change_path p (changes old new)
      ≡ change_between (find entry_path p old) (find entry_path p new)
  unfolding changes
  find-changes =
      find-merge entry_path change_path change_between change_between-IsKeyed p old new s t

pub changes_complete :
    (p : FilePath) (old new : List Entry)
    → IsSorted entry_path old
    → IsSorted entry_path new
    → IsSorted change_path (changes old new)
      × Unchanged
          (replay (find change_path p (changes old new)) (find entry_path p old))
          (find entry_path p new)
      × ((c : Change)
          → find change_path p (changes old new) ≡ some c
          → IsChange c (find entry_path p old) (find entry_path p new))
changes_complete p old new s t =
    let (unchanged, told) = change_between_lem (find entry_path p old) (find entry_path p new) in
    rw (find-changes p old new s t) (changes-IsSorted old new s t, unchanged, told)

-- A change, where there is one, tells the two entries.
abbrev pub Tells : Option Change → Option Entry → Option Entry → Type 0
Tells none o n = Unit
Tells (some c) o n = IsChange c o n

Tells-of :
    (found : Option Change) (o n : Option Entry)
    → ((c : Change) → found ≡ some c → IsChange c o n)
    → Tells found o n
Tells-of none o n h = tt
Tells-of (some c) o n h = h c refl

-- The changes between two manifests in strictly increasing path order are in that order; replaying
-- them on the old manifest gives the new one at every path, up to entries that the scan takes for
-- unchanged; and a change at a path tells the old and the new entry there, which
-- differ.
pub changes_lem :
    (p : FilePath) (old new : List Entry)
    → IsSorted entry_path old
    → IsSorted entry_path new
    → IsSorted change_path (changes old new)
      × Unchanged
          (replay (find change_path p (changes old new)) (find entry_path p old))
          (find entry_path p new)
      × Tells (find change_path p (changes old new)) (find entry_path p old) (find entry_path p new)
changes_lem p old new s t =
    let (a, b, c) = changes_complete p old new s t in (a, b, Tells-of _ _ _ c)

module _ {ℓ κ μ} {A : Type ℓ} {B : Type κ} (P : A → Type μ) (Q : B → Type μ) (f : A → Option B)
    (h : (a : A) (b : B) → P a → f a ≡ some b → Q b) where
  All-filter_map : (l : List A) → All P l → All Q (filter_map f l)
  All-filter_map [] a = tt
  All-filter_map (x ∷ l) (p, a) = pushed (All-filter_map l a) (f x) (λ b. h x b p)
    where
      pushed :
          All Q (filter_map f l)
          → (r : Option B) → ((b : B) → r ≡ some b → Q b)
          → All Q (push_some r (filter_map f l))
      pushed rest none q = rest
      pushed rest (some b) q = (q b refl, rest)

-- The assertion of `Change::path` does not fail.
abbrev pub HasPath : Change → Type 0
HasPath c = asserted_path c ≡ ok (change_path c)

modified-HasPath : (a b : Entry) → a.path ≡ b.path → HasPath (modified a b)
unfolding asserted_path
modified-HasPath a b e = rw (e, (=?_iff b.path b.path).1 refl) refl

change_between-HasPath :
    (p : Pair Entry) (c : Change) → Agree entry_path p → change_between p.0 p.1 ≡ some c → HasPath c
unfolding change_between asserted_path
change_between-HasPath (none, none) c a h = cc
change_between-HasPath (none, some b) c a h = ground (arith, h)
change_between-HasPath (some a, none) c _ h = ground (arith, h)
change_between-HasPath (some a, some b) c e h = ground (arith, h, modified-HasPath a b e)

-- For every change that is made from two manifests, whatever their order, the assertion on the
-- paths of its two entries holds.
pub changes-HasPath : (old new : List Entry) → All HasPath (changes old new)
unfolding changes
changes-HasPath old new =
    All-filter_map (Agree entry_path) HasPath (λ p. change_between p.0 p.1) change_between-HasPath
      (matched entry_path old new) (matched-Agree entry_path old new)
