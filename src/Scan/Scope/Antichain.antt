-- ===== src/Scan/Scope/Antichain.antt =====
-- The kept exclusions: none lies under another, and they exclude what the given ones do.
use duet.Prelude.{
  false, List, [], ◌∷◌, ◌++◌, All, All-append, All-imp, ◌≡◌, arith, Bool-cases, inl, inr,
}
use duet.Ord.{Ord, ◌=?◌, ◌≺◌}
use duet.Ord.Lexicographic.{list_ord, starts_with, extension-not_below}
use duet.FilePath.{FilePath, component_ord}
use duet.Sorted.{Above, IsSorted}
use duet.Sorted.Sorting.{IsWeaklySorted, From-Above, sort_by-IsWeaklySorted}
use duet.Scan.Scope.Laws.{is_excluded-new}
use duet.Scan.Scope.{is_excluded, dedup, covered, compact, new, itself}

-- Neither path is an ancestor of the other, or the other itself.
abbrev pub Apart : FilePath → FilePath → Type 0
Apart a b = (starts_with a b ≡ false) × (starts_with b a ≡ false)

abbrev pub AllApart : List FilePath → Type 0
AllApart [] = Unit
AllApart (x ∷ l) = All (Apart x) l × AllApart l

AllApart-snoc :
    (l : List FilePath) (e : FilePath)
    → AllApart l
    → All (λ a. Apart a e) l
    → AllApart (l ++ e ∷ [])
AllApart-snoc [] e h k = (tt, tt)
AllApart-snoc (x ∷ l) e h k =
    (All-append (Apart x) l (e ∷ []) h.0 (k.0, tt), AllApart-snoc l e h.1 k.1)

module _ where
  o : Ord FilePath
  o = list_ord

  -- A smaller path that does not cover `e` is apart from it.
  below-Apart :
      (acc : List FilePath) (e : FilePath)
      → covered acc e ≡ false
      → All (λ a. a ≺ e) acc
      → All (λ a. Apart a e) acc
  unfolding covered
  below-Apart [] e h k = tt
  below-Apart (a ∷ acc) e h k = (
    (
      elim (Bool-cases (starts_with a e)) [
        | inl y ↦ absurd (extension-not_below a e y k.0)
        | inr n ↦ n
      ],
      ground arith,
    ),
    below-Apart acc e (ground arith) k.1,
  )

  dedup-All : (P : FilePath → Type 0) (l : List FilePath) → All P l → All P (dedup l)
  unfolding dedup
  dedup-All P [] h = tt
  dedup-All P (x ∷ []) h = h
  dedup-All P (x ∷ y ∷ l) h = elim (Bool-cases (x =? y)) [
    | inl e ↦ rw (e, dedup) (dedup-All P (y ∷ l) h.1)
    | inr e ↦ rw (e, dedup) (h.0, dedup-All P (y ∷ l) h.1)
  ]

  dedup-IsSorted : (l : List FilePath) → IsWeaklySorted itself l → IsSorted itself (dedup l)
  unfolding dedup o
  dedup-IsSorted [] s = tt
  dedup-IsSorted (x ∷ []) s = (tt, tt)
  dedup-IsSorted (x ∷ y ∷ l) s = elim (Bool-cases (x =? y)) [
    | inl e ↦ rw (e, dedup) (dedup-IsSorted (y ∷ l) s.1)
    | inr e ↦
        let below : x ≺ y = ground (arith, s.0.0) in
        rw (e, dedup)
          (
            dedup-All (λ z. x ≺ z) (y ∷ l) (below, From-Above itself x y l below s.1.0),
            dedup-IsSorted (y ∷ l) s.1,
          )
  ]

  compact-AllApart :
      (acc l : List FilePath)
      → AllApart acc
      → All (λ a. Above itself a l) acc
      → IsSorted itself l
      → AllApart (compact acc l)
  unfolding compact
  compact-AllApart acc [] h k s = h
  compact-AllApart acc (e ∷ l) h k s = elim (Bool-cases (covered acc e)) [
    | inl y ↦ rw (y, compact) (compact-AllApart acc l h (All-imp (λ a f. f.1) acc k) s.1)
    | inr n ↦
        rw (n, compact)
          (compact-AllApart (acc ++ e ∷ []) l
            (AllApart-snoc acc e h (below-Apart acc e n (All-imp (λ a f. f.0) acc k)))
            (All-append (λ a. Above itself a l) acc (e ∷ []) (All-imp (λ a f. f.1) acc k) (s.0, tt))
            s.1)
  ]

  new-AllApart :
      (restrict : FilePath) (excludes : List FilePath) → AllApart (new restrict excludes).excludes
  unfolding new
  new-AllApart restrict excludes =
      compact-AllApart [] _ tt tt (dedup-IsSorted _ (sort_by-IsWeaklySorted itself excludes))

-- The scope made from any exclusions excludes exactly the paths that lie at or under one of them,
-- and none of the exclusions it keeps is equal to another one or lies under it.
pub new_lem :
    (restrict : FilePath) (excludes : List FilePath) (p : FilePath)
    → (is_excluded (new restrict excludes) p ≡ covered excludes p)
      × AllApart (new restrict excludes).excludes
new_lem restrict excludes p = (is_excluded-new restrict excludes p, new-AllApart restrict excludes)
