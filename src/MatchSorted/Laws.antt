-- ===== src/MatchSorted/Laws.antt =====
-- What the merge yields, said of the two lists.
use duet.Prelude.{
  none, some, List, [], ◌∷◌, ◌≡◌, refl, arith, filter_map, inl, inr, Ordering-cases, subst, sym,
}
use duet.Ord.{Ord}
use duet.Sorted.{Above, IsSorted, Above-trans}
use duet.MatchSorted.{Pair, matched}
use duet.MatchSorted.Pairs.{pairs, matched-pairs}

-- The items of one side.
abbrev pub lefts {ℓ} : {A : Type ℓ} → List (Pair A) → List A
lefts l = filter_map (λ p. p.0) l

abbrev pub rights {ℓ} : {A : Type ℓ} → List (Pair A) → List A
rights l = filter_map (λ p. p.1) l

module _ {ℓ} {A : Type ℓ} {K : Type 0} ⦃o : Ord K⦄ (key : A → K) where
  -- A pair has an item, and its items have the key.
  abbrev pub KeyIs : K → Pair A → Type 0
  KeyIs k (some x, some y) = (key x ≡ k) × (key y ≡ k)
  KeyIs k (some x, none) = key x ≡ k
  KeyIs k (none, some y) = key y ≡ k
  KeyIs k (none, none) = ⊥

  -- Every pair has one key, below the keys of the items that come after it.
  abbrev pub PairsSorted : List (Pair A) → Type 0
  PairsSorted [] = Unit
  PairsSorted (p ∷ l) =
      ((k : K) × KeyIs k p × Above key k (lefts l) × Above key k (rights l)) × PairsSorted l

  lefts-pairs : (xs ys : List A) → lefts (pairs key xs ys) ≡ xs
  unfolding pairs
  lefts-pairs [] [] = refl
  lefts-pairs (x ∷ xs) [] = ground (arith, lefts-pairs xs [])
  lefts-pairs [] (y ∷ ys) = lefts-pairs [] ys
  lefts-pairs (x ∷ xs) (y ∷ ys) =
      ground (arith, lefts-pairs xs (y ∷ ys), lefts-pairs (x ∷ xs) ys, lefts-pairs xs ys)

  rights-pairs : (xs ys : List A) → rights (pairs key xs ys) ≡ ys
  unfolding pairs
  rights-pairs [] [] = refl
  rights-pairs (x ∷ xs) [] = rights-pairs xs []
  rights-pairs [] (y ∷ ys) = ground (arith, rights-pairs [] ys)
  rights-pairs (x ∷ xs) (y ∷ ys) =
      ground (arith, rights-pairs xs (y ∷ ys), rights-pairs (x ∷ xs) ys, rights-pairs xs ys)

  after_head :
      (k : K) (p : Pair A) (xs ys : List A)
      → KeyIs k p
      → Above key k xs
      → Above key k ys
      → PairsSorted (pairs key xs ys)
      → PairsSorted (p ∷ pairs key xs ys)
  after_head k p xs ys here a b rest =
      rw (lefts-pairs xs ys, rights-pairs xs ys) ((k, here, a, b), rest)

  pairs-PairsSorted :
      (xs ys : List A) → IsSorted key xs → IsSorted key ys → PairsSorted (pairs key xs ys)
  unfolding pairs
  pairs-PairsSorted [] [] s t = tt
  pairs-PairsSorted (x ∷ xs) [] s t =
      after_head (key x) (some x, none) xs [] refl s.0 tt (pairs-PairsSorted xs [] s.1 t)
  pairs-PairsSorted [] (y ∷ ys) s t =
      after_head (key y) (none, some y) [] ys refl tt t.0 (pairs-PairsSorted [] ys s t.1)
  pairs-PairsSorted (x ∷ xs) (y ∷ ys) s t = elim (Ordering-cases (o.cmp (key x) (key y))) [
    | inl e ↦
        rw (e, pairs)
          (after_head (key x) (some x, none) xs (y ∷ ys) refl s.0
            (e, Above-trans key (key x) (key y) ys e t.0) (pairs-PairsSorted xs (y ∷ ys) s.1 t))
    | inr (inl e) ↦
        let same = o.eq_of_cmp (key x) (key y) e in
        rw (e, pairs)
          (after_head (key x) (some x, some y) xs ys (refl, sym same) s.0
            (subst (λ k. Above key k ys) (sym same) t.0) (pairs-PairsSorted xs ys s.1 t.1))
    | inr (inr e) ↦
        let below = o.lt_of_gt (key x) (key y) e in
        rw (e, pairs)
          (after_head (key y) (none, some y) (x ∷ xs) ys refl
            (below, Above-trans key (key y) (key x) xs below s.0) t.0
            (pairs-PairsSorted (x ∷ xs) ys s t.1))
  ]

  -- For two lists in strictly increasing order of keys, the items yielded on each side are its list,
  -- and the pairs are in strictly increasing order too, where the items of a pair have one key: so
  -- two items are paired exactly where their keys are equal.
  pub matched_lem :
      (xs ys : List A)
      → IsSorted key xs
      → IsSorted key ys
      → (lefts (matched key xs ys) ≡ xs)
        × (rights (matched key xs ys) ≡ ys)
        × PairsSorted (matched key xs ys)
  matched_lem xs ys s t =
      rw (matched-pairs key xs ys)
        (lefts-pairs xs ys, rights-pairs xs ys, pairs-PairsSorted xs ys s t)
