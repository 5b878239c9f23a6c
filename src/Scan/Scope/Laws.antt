-- ===== src/Scan/Scope/Laws.antt =====
-- The compacted exclusions exclude what the given ones do, and none lies under another.
use duet.Prelude.{
  true, false, ◌||◌, List, [], ◌∷◌, ◌++◌, ◌≡◌, refl, ◌∙◌, arith, Bool-cases, inl, inr,
}
use duet.Ord.{Ord}
use duet.Ord.Lexicographic.{list_ord, starts_with, starts_with_trans}
use duet.FilePath.{FilePath, component_ord}
use duet.Sorted.Sorting.{sort_by, insert}
use duet.Scan.Scope.{itself, dedup, covered, compact, new, is_excluded}

covered-append :
    (a b : List FilePath) (p : FilePath) → covered (a ++ b) p ≡ (covered a p || covered b p)
unfolding covered
covered-append [] b p = refl
covered-append (x ∷ a) b p = ground (arith, covered-append a b p)

-- What lies under a covered path is covered.
covered_under :
    (l : List FilePath) (e p : FilePath)
    → covered l e ≡ true
    → starts_with p e ≡ true
    → covered l p ≡ true
unfolding covered
covered_under [] e p h k = cc
covered_under (a ∷ l) e p h k = ground (arith, starts_with_trans p e a k, covered_under l e p)

covered-cons :
    (e : FilePath) (l : List FilePath) (p : FilePath)
    → covered (e ∷ l) p ≡ (starts_with p e || covered l p)
unfolding covered
covered-cons e l p = refl

covered-nil : (p : FilePath) → covered [] p ≡ false
unfolding covered
covered-nil p = refl

covered-compact :
    (acc l : List FilePath) (p : FilePath)
    → covered (compact acc l) p ≡ (covered acc p || covered l p)
unfolding compact
covered-compact acc [] p = ground (arith, covered-nil p)
covered-compact acc (e ∷ l) p = elim (Bool-cases (covered acc e)) [
  | inl y ↦
      rw (y, compact)
        (covered-compact acc l p ∙ ground (arith, covered-cons e l p, covered_under acc e p y))
  | inr n ↦
      rw (n, compact)
        (covered-compact (acc ++ e ∷ []) l p
          ∙ ground (
            arith,
            covered-append acc (e ∷ []) p,
            covered-cons e l p,
            covered-cons e [] p,
            covered-nil p,
          ))
]

covered-insert :
    (x : FilePath) (l : List FilePath) (p : FilePath)
    → covered (insert itself x l) p ≡ (starts_with p x || covered l p)
unfolding insert
covered-insert x [] p = covered-cons x [] p
covered-insert x (y ∷ l) p = ground (
  arith,
  covered-cons x (y ∷ l) p,
  covered-cons y l p,
  covered-cons y (insert itself x l) p,
  covered-insert x l p,
)

covered-sort_by : (l : List FilePath) (p : FilePath) → covered (sort_by itself l) p ≡ covered l p
unfolding sort_by
covered-sort_by [] p = refl
covered-sort_by (x ∷ l) p =
    ground (arith, covered-insert x (sort_by itself l) p, covered-cons x l p, covered-sort_by l p)

module _ where
  o : Ord FilePath
  o = list_ord

  covered-dedup : (l : List FilePath) (p : FilePath) → covered (dedup l) p ≡ covered l p
  unfolding dedup o
  covered-dedup [] p = refl
  covered-dedup (x ∷ []) p = refl
  covered-dedup (x ∷ y ∷ l) p = ground (
    arith,
    o.eq_of_cmp x y,
    covered-dedup (y ∷ l) p,
    covered-cons x (y ∷ l) p,
    covered-cons y l p,
    covered-cons x (dedup (y ∷ l)) p,
  )

-- The kept exclusions exclude exactly the paths that the given ones do.
pub is_excluded-new :
    (restrict : FilePath) (excludes : List FilePath) (p : FilePath)
    → is_excluded (new restrict excludes) p ≡ covered excludes p
unfolding is_excluded new
is_excluded-new restrict excludes p =
    covered-compact [] (dedup (sort_by itself excludes)) p
    ∙ ground (
      arith,
      covered-nil p,
      covered-dedup (sort_by itself excludes) p,
      covered-sort_by excludes p,
    )
