-- ===== src/MatchSorted/Swap.antt =====
-- The two sequences swapped.
use duet.Prelude.{Option, none, some, List, [], ◌∷◌, ◌≡◌, refl, arith, map, filter_map, push_some}
use duet.Ord.{Ord}
use duet.MatchSorted.{Pair, matched}
use duet.MatchSorted.Pairs.{pairs, matched-pairs}
use mathlib.Core.Option

abbrev pub swap_pair {ℓ} : {A : Type ℓ} → Pair A → Pair A
swap_pair p = (p.1, p.0)

module _ {ℓ κ} {A : Type ℓ} {K : Type κ} ⦃o : Ord K⦄ (key : A → K) where
  pairs-swap : (xs ys : List A) → pairs key ys xs ≡ map swap_pair (pairs key xs ys)
  unfolding pairs
  pairs-swap [] [] = refl
  pairs-swap (x ∷ xs) [] = cc (pairs-swap xs [])
  pairs-swap [] (y ∷ ys) = cc (pairs-swap [] ys)
  pairs-swap (x ∷ xs) (y ∷ ys) = ground (
    arith,
    o.eq_of_cmp (key x) (key y),
    o.eq_of_cmp (key y) (key x),
    o.cmp_refl (key x),
    o.gt_of_lt (key x) (key y),
    o.lt_of_gt (key x) (key y),
    pairs-swap xs (y ∷ ys),
    pairs-swap (x ∷ xs) ys,
    pairs-swap xs ys,
  )

  pub matched-swap : (xs ys : List A) → matched key ys xs ≡ map swap_pair (matched key xs ys)
  matched-swap xs ys = rw (matched-pairs key xs ys, matched-pairs key ys xs) (pairs-swap xs ys)

module _ {ℓ μ} {A : Type ℓ} {B : Type μ} (f : Option A → Option A → Option B) (g : B → B)
    (h : (a b : Option A) → f b a ≡ Option.map g (f a b)) where
  pub filter_map-swap :
      (l : List (Pair A))
      → filter_map (λ p. f p.0 p.1) (map swap_pair l) ≡ map g (filter_map (λ p. f p.0 p.1) l)
  filter_map-swap [] = refl
  filter_map-swap ((a, b) ∷ l) = rw (h a b, filter_map-swap l) (mapped (f a b))
    where
      mapped :
          (r : Option B)
          → push_some (Option.map g r) (map g (filter_map (λ p. f p.0 p.1) l))
            ≡ map g (push_some r (filter_map (λ p. f p.0 p.1) l))
      mapped none = refl
      mapped (some b) = refl
