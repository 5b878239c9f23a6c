-- ===== src/Ord/Lexicographic.antt =====
-- The order of sequences: by the first element that differs, a proper prefix first.
use duet.Prelude.{Ordering, Bool, true, false, ◌≡◌, refl, arith, List, [], ◌∷◌, ◌&&◌, ◌++◌}
use duet.Ord.{Ord, ◌≺◌, ◌=?◌}
use Prim.Native.Nat.Ordering.{lt, eq, gt}

-- `Ordering::then`
abbrev pub then : Ordering → Ordering → Ordering
then eq second = second
then lt _ = lt
then gt _ = gt

module _ {ℓ} {K : Type ℓ} ⦃o : Ord K⦄ where
  unfoldable pub cmp_list : List K → List K → Ordering
  cmp_list [] [] = eq
  cmp_list [] (y ∷ ys) = lt
  cmp_list (x ∷ xs) [] = gt
  cmp_list (x ∷ xs) (y ∷ ys) = then (o.cmp x y) (cmp_list xs ys)

  pub cmp_list_refl : (a : List K) → cmp_list a a ≡ eq
  unfolding cmp_list
  cmp_list_refl [] = refl
  cmp_list_refl (x ∷ xs) = ground (arith, o.cmp_refl x, cmp_list_refl xs)

  pub cmp_list-eq : (a b : List K) → cmp_list a b ≡ eq → a ≡ b
  unfolding cmp_list
  cmp_list-eq [] [] h = refl
  cmp_list-eq [] (y ∷ ys) h = cc
  cmp_list-eq (x ∷ xs) [] h = cc
  cmp_list-eq (x ∷ xs) (y ∷ ys) h = ground (arith, o.eq_of_cmp x y, cmp_list-eq xs ys)

  pub cmp_list-gt : (a b : List K) → cmp_list a b ≡ lt → cmp_list b a ≡ gt
  unfolding cmp_list
  cmp_list-gt [] [] h = cc
  cmp_list-gt [] (y ∷ ys) h = refl
  cmp_list-gt (x ∷ xs) [] h = cc
  cmp_list-gt (x ∷ xs) (y ∷ ys) h =
      ground (arith, o.eq_of_cmp x y, o.cmp_refl x, o.gt_of_lt x y, cmp_list-gt xs ys)

  pub cmp_list-lt : (a b : List K) → cmp_list a b ≡ gt → cmp_list b a ≡ lt
  unfolding cmp_list
  cmp_list-lt [] [] h = cc
  cmp_list-lt [] (y ∷ ys) h = cc
  cmp_list-lt (x ∷ xs) [] h = refl
  cmp_list-lt (x ∷ xs) (y ∷ ys) h =
      ground (arith, o.eq_of_cmp x y, o.cmp_refl x, o.lt_of_gt x y, cmp_list-lt xs ys)

  pub cmp_list_trans : (a b c : List K) → cmp_list a b ≡ lt → cmp_list b c ≡ lt → cmp_list a c ≡ lt
  unfolding cmp_list
  cmp_list_trans [] b [] h k = ground (arith, cmp_list-gt [] b h)
  cmp_list_trans [] b (z ∷ zs) h k = refl
  cmp_list_trans (x ∷ xs) [] c h k = cc
  cmp_list_trans (x ∷ xs) (y ∷ ys) [] h k = cc
  cmp_list_trans (x ∷ xs) (y ∷ ys) (z ∷ zs) h k =
      ground (arith, o.eq_of_cmp x y, o.eq_of_cmp y z, o.lt_trans x y z, cmp_list_trans xs ys zs)

  instance unfoldable pub list_ord : Ord (List K)
  unfolding cmp_list
  list_ord = record {
    cmp = cmp_list;
    cmp_refl = cmp_list_refl;
    eq_of_cmp = cmp_list-eq;
    gt_of_lt = cmp_list-gt;
    lt_of_gt = cmp_list-lt;
    lt_trans = cmp_list_trans;
  }

  -- `prefix` is an initial part of the sequence.
  unfoldable pub starts_with : List K → List K → Bool
  starts_with a [] = true
  starts_with [] (y ∷ ys) = false
  starts_with (x ∷ xs) (y ∷ ys) = x =? y && starts_with xs ys

  pub starts_with_refl : (a : List K) → starts_with a a ≡ true
  unfolding starts_with
  starts_with_refl [] = refl
  starts_with_refl (x ∷ xs) = ground (arith, o.cmp_refl x, starts_with_refl xs)

  pub starts_with_append : (a b : List K) → starts_with (a ++ b) a ≡ true
  unfolding starts_with
  starts_with_append [] [] = refl
  starts_with_append [] (y ∷ ys) = refl
  starts_with_append (x ∷ xs) b = ground (arith, o.cmp_refl x, starts_with_append xs b)

  pub starts_with_trans :
      (a b c : List K) → starts_with a b ≡ true → starts_with b c ≡ true → starts_with a c ≡ true
  unfolding starts_with
  starts_with_trans [] b [] h k = refl
  starts_with_trans (x ∷ xs) b [] h k = refl
  starts_with_trans a [] (z ∷ zs) h k = cc
  starts_with_trans [] (y ∷ ys) (z ∷ zs) h k = cc
  starts_with_trans (x ∷ xs) (y ∷ ys) (z ∷ zs) h k =
      ground (arith, o.eq_of_cmp x y, o.eq_of_cmp y z, starts_with_trans xs ys zs)

  -- An extension of `p` is not below `p`.
  pub starts_with-not_below : (a p : List K) → starts_with a p ≡ true → cmp_list a p ≡ lt → ⊥
  unfolding starts_with cmp_list
  starts_with-not_below [] [] h k = cc
  starts_with-not_below (x ∷ xs) [] h k = cc
  starts_with-not_below [] (y ∷ ys) h k = cc
  starts_with-not_below (x ∷ xs) (y ∷ ys) h k = ground (arith, starts_with-not_below xs ys)

  -- The extensions of `p` are an interval: what lies from `p` to an extension of `p` extends `p`.
  pub starts_with_between :
      (p a b : List K)
      → starts_with b p ≡ true
      → (cmp_list p a ≡ gt → ⊥)
      → (cmp_list a b ≡ gt → ⊥)
      → starts_with a p ≡ true
  unfolding starts_with cmp_list
  starts_with_between [] [] b h k l = refl
  starts_with_between [] (x ∷ xs) b h k l = refl
  starts_with_between (z ∷ p) a [] h k l = cc
  starts_with_between (z ∷ p) [] (y ∷ b) h k l = absurd (k refl)
  starts_with_between (z ∷ p) (x ∷ a) (y ∷ b) h k l = ground (
    arith,
    o.eq_of_cmp y z,
    o.eq_of_cmp x z,
    o.eq_of_cmp z x,
    o.cmp_refl z,
    o.gt_of_lt z x,
    o.lt_of_gt x z,
    o.gt_of_lt x z,
    o.lt_of_gt z x,
    starts_with_between p a b,
  )

  -- The last two, in terms of the order's own comparison.
  pub extension-not_below : (a p : List K) → starts_with a p ≡ true → a ≺ p → ⊥
  unfolding list_ord
  extension-not_below = starts_with-not_below

  pub extensions_between :
      (p a b : List K)
      → starts_with b p ≡ true
      → (list_ord.cmp p a ≡ gt → ⊥)
      → (list_ord.cmp a b ≡ gt → ⊥)
      → starts_with a p ≡ true
  unfolding list_ord
  extensions_between = starts_with_between
