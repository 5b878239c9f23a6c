-- ===== src/Manifest/Laws.antt =====
-- What a manifest holds after a scope of it is replaced.
use duet.Prelude.{
  All-of, ap, Bool, true, false, not, List, [], ◌∷◌, ◌++◌, filter, All, All-imp, All-append, ◌≡◌,
  ◌≢◌, refl, arith, if◌then◌else◌, Option, none, some, Bool-cases, inl, inr, ◌∙◌,
}
use duet.Ord.{Ord, ◌≺◌}
use duet.Scan.Entry.{Entry}
use duet.FilePath.{FilePath, component_ord}
use duet.Ord.Lexicographic.{list_ord}
use duet.Scan.Change.{entry_path}
use duet.Scan.Scope.{ScanScope, selected}
use duet.Sorted.{IsSorted, find}
use duet.Sorted.Sorting.{find-sort_by, sort_by-IsSorted, Distinct}
use duet.Manifest.{replace_scope}

o : Ord FilePath
o = list_ord

-- The first of two answers.
abbrev or_else : Option Entry → Option Entry → Option Entry
or_else none b = b
or_else (some a) b = some a

find-append :
    (p : FilePath) (xs ys : List Entry)
    → find entry_path p (xs ++ ys) ≡ or_else (find entry_path p xs) (find entry_path p ys)
unfolding find o
find-append p [] ys = refl
find-append p (x ∷ xs) ys = ground (arith, find-append p xs ys)

module _ (test : FilePath → Bool) where
  find-filter :
      (p : FilePath) (xs : List Entry)
      → find entry_path p (filter (λ e. test (entry_path e)) xs)
        ≡ (if test p then find entry_path p xs else none)
  unfolding find o
  find-filter p [] = ground arith
  find-filter p (x ∷ xs) = ground (arith, find-filter p xs, o.eq_of_cmp p (entry_path x))

  All-filter :
      (P : Entry → Type 0) (xs : List Entry)
      → All P xs
      → All (λ e. P e × (test (entry_path e) ≡ true)) (filter (λ e. test (entry_path e)) xs)
  All-filter P [] h = tt
  All-filter P (x ∷ xs) h = elim (Bool-cases (test (entry_path x))) [
    | inl y ↦ rw y ((h.0, y), All-filter P xs h.1)
    | inr n ↦ rw n (All-filter P xs h.1)
  ]

  Distinct-filter :
      (xs : List Entry)
      → Distinct entry_path xs
      → Distinct entry_path (filter (λ e. test (entry_path e)) xs)
  Distinct-filter [] d = tt
  Distinct-filter (x ∷ xs) d = elim (Bool-cases (test (entry_path x))) [
    | inl y ↦ rw y (All-imp (λ e h. h.0) _ (All-filter _ xs d.0), Distinct-filter xs d.1)
    | inr n ↦ rw n (Distinct-filter xs d.1)
  ]

find-none :
    (test : FilePath → Bool) (p : FilePath) (xs : List Entry)
    → All (λ e. test (entry_path e) ≡ true) xs
    → test p ≡ false
    → find entry_path p xs ≡ none
unfolding find o
find-none test p [] h n = refl
find-none test p (x ∷ xs) h n =
    ground (arith, find-none test p xs h.1 n, o.eq_of_cmp p (entry_path x), h.0)

Distinct-sorted : (xs : List Entry) → IsSorted entry_path xs → Distinct entry_path xs
Distinct-sorted [] s = tt
Distinct-sorted (x ∷ xs) s = (All-imp (λ e h. differ e h) xs s.0, Distinct-sorted xs s.1)
  where
    differ : (e : Entry) → entry_path x ≺ entry_path e → entry_path x ≢ entry_path e
    differ e h q = let r = list_ord.cmp_refl (entry_path e) in cc

Distinct-append :
    (xs ys : List Entry)
    → Distinct entry_path xs
    → Distinct entry_path ys
    → All (λ x. All (λ y. entry_path x ≢ entry_path y) ys) xs
    → Distinct entry_path (xs ++ ys)
Distinct-append [] ys d e h = e
Distinct-append (x ∷ xs) ys d e h = (All-append _ xs ys d.0 h.0, Distinct-append xs ys d.1 e h.1)

differ :
    (scope : ScanScope) (x y : Entry)
    → not (selected scope (entry_path x)) ≡ true
    → selected scope (entry_path y) ≡ true
    → entry_path x ≢ entry_path y
differ scope x y h i q = ground (arith, ap (selected scope) q)

-- Old and new manifests that are in strictly increasing path order, the new one inside the scope:
-- the result is in that order again and, at every path, holds the new entry inside the scope and the
-- old one outside it.
pub replace_scope_lem :
    (entries current : List Entry) (scope : ScanScope) (p : FilePath)
    → IsSorted entry_path entries
    → IsSorted entry_path current
    → All (λ e. selected scope (entry_path e) ≡ true) current
    → IsSorted entry_path (replace_scope entries scope current)
      × (find entry_path p (replace_scope entries scope current)
          ≡ (if selected scope p then find entry_path p current else find entry_path p entries))
unfolding replace_scope
replace_scope_lem entries current scope p s t inside =
    let outside : FilePath → Bool = (λ q. not (selected scope q)) in
    let kept = filter (λ e. outside (entry_path e)) entries in
    (
      sort_by-IsSorted entry_path (kept ++ current) (
          Distinct-append kept current (Distinct-filter outside entries (Distinct-sorted entries s))
            (Distinct-sorted current t)
            (All-imp (λ x h. All-imp (λ y i. differ scope x y h.1 i) current inside) kept
              (All-filter outside (λ _. Unit) entries (All-of (λ e. tt) entries)))),
      find-sort_by entry_path p (kept ++ current)
          ∙ find-append p kept current
          ∙ ground
              (arith, find-filter outside p entries, find-none (selected scope) p current inside),
    )
