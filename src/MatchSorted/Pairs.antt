-- ===== src/MatchSorted/Pairs.antt =====
-- The sequence that the iterator yields, by recursion on the two lists.
use duet.Prelude.{none, some, List, [], ◌∷◌, ◌≡◌, refl, arith, ℕ, zero, suc, ◌+◌, ◌<◌, length, All}
use Prim.Native.Nat.Ordering.{lt, eq, gt}
use duet.Ord.{Ord}
use duet.MatchSorted.{Pair, drain, matched, match_sorted}

module _ {ℓ κ} {A : Type ℓ} {K : Type κ} ⦃o : Ord K⦄ (key : A → K) where
  unfoldable pub pairs : List A → List A → List (Pair A)
  pairs [] [] = []
  pairs (x ∷ xs) [] = (some x, none) ∷ pairs xs []
  pairs [] (y ∷ ys) = (none, some y) ∷ pairs [] ys
  pairs (x ∷ xs) (y ∷ ys) = elim (o.cmp (key x) (key y)) [
    | lt ↦ (some x, none) ∷ pairs xs (y ∷ ys)
    | gt ↦ (none, some y) ∷ pairs (x ∷ xs) ys
    | eq ↦ (some x, some y) ∷ pairs xs ys
  ]

  drain-pairs :
      (n : ℕ) (xs ys : List A)
      → length xs + length ys < n
      → drain key n (record { it1 = xs; it2 = ys }) ≡ pairs xs ys
  unfolding drain pairs
  drain-pairs zero xs ys h = absurd (omega arith)
  drain-pairs (suc n) [] [] h = refl
  drain-pairs (suc n) (x ∷ xs) [] h = ground (arith, drain-pairs n xs [])
  drain-pairs (suc n) [] (y ∷ ys) h = ground (arith, drain-pairs n [] ys)
  drain-pairs (suc n) (x ∷ xs) (y ∷ ys) h =
      ground (arith, drain-pairs n xs (y ∷ ys), drain-pairs n (x ∷ xs) ys, drain-pairs n xs ys)

  pub matched-pairs : (xs ys : List A) → matched key xs ys ≡ pairs xs ys
  unfolding matched match_sorted
  matched-pairs xs ys = drain-pairs (suc (length xs + length ys)) xs ys (omega arith)

  -- Where both sides are present they have one key.
  abbrev pub Agree : Pair A → Type κ
  Agree (some x, some y) = key x ≡ key y
  Agree (some x, none) = Unit
  Agree (none, _) = Unit

  pairs-Agree : (xs ys : List A) → All Agree (pairs xs ys)
  unfolding pairs
  pairs-Agree [] [] = tt
  pairs-Agree (x ∷ xs) [] = (tt, pairs-Agree xs [])
  pairs-Agree [] (y ∷ ys) = (tt, pairs-Agree [] ys)
  pairs-Agree (x ∷ xs) (y ∷ ys) = ground (
    arith,
    o.eq_of_cmp (key x) (key y),
    pairs-Agree xs (y ∷ ys),
    pairs-Agree (x ∷ xs) ys,
    pairs-Agree xs ys,
  )

  pub matched-Agree : (xs ys : List A) → All Agree (matched key xs ys)
  matched-Agree xs ys = rw (matched-pairs xs ys) (pairs-Agree xs ys)
