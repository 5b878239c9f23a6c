-- ===== src/MatchSorted/Merge.antt =====
-- Two sorted lists merged item by item through `match_sorted`, as the callers of utils.rs do.
use duet.Prelude.{
  Option, none, some, List, [], ◌∷◌, ◌≡◌, refl, sym, subst, ◌∙◌, arith, filter_map, push_some, inl,
  inr, Ordering, Ordering-cases, if◌then◌else◌,
}
use duet.Ord.{Ord, ◌≺◌, ◌=?◌}
use duet.MatchSorted.{matched}
use duet.MatchSorted.Pairs.{pairs, matched-pairs}
use duet.Sorted.{Above, IsSorted, find, Above-trans, find-Above}

module _ {ℓ κ μ} {A : Type ℓ} {K : Type κ} {B : Type μ} ⦃o : Ord K⦄ where
  -- `f` makes nothing of nothing, and its result has the key of its arguments.
  pub record IsKeyed (key : A → K) (key_out : B → K) (f : Option A → Option A → Option B)
      : Type (ℓ ⊔ κ ⊔ μ) where
    pub neither : f none none ≡ none
    pub left : (a : A) (b : B) → f (some a) none ≡ some b → key_out b ≡ key a
    pub right : (a : A) (b : B) → f none (some a) ≡ some b → key_out b ≡ key a
    pub both : (a c : A) (b : B) → key a ≡ key c → f (some a) (some c) ≡ some b → key_out b ≡ key a

module _ {ℓ κ μ} {A : Type ℓ} {K : Type κ} {B : Type μ} ⦃o : Ord K⦄ (key : A → K) (key_out : B → K)
    (f : Option A → Option A → Option B) where
  abbrev merge_pairs : List A → List A → List B
  merge_pairs xs ys = filter_map (λ p. f p.0 p.1) (pairs key xs ys)

  push_some-Above :
      (k j : K) (r : Option B) (l : List B)
      → ((b : B) → r ≡ some b → key_out b ≡ j)
      → k ≺ j
      → Above key_out k l
      → Above key_out k (push_some r l)
  push_some-Above k j none l h lt a = a
  push_some-Above k j (some b) l h lt a = ground (arith, h b)

  push_some-IsSorted :
      (j : K) (r : Option B) (l : List B)
      → ((b : B) → r ≡ some b → key_out b ≡ j)
      → Above key_out j l
      → IsSorted key_out l
      → IsSorted key_out (push_some r l)
  push_some-IsSorted j none l h a s = s
  push_some-IsSorted j (some b) l h a s = (subst (λ k. Above key_out k l) (sym (h b refl)) a, s)

  -- The item of key `j` put in front is found under `j`, and hides nothing under another key.
  find-push_some :
      (k j : K) (r : Option B) (l : List B)
      → ((b : B) → r ≡ some b → key_out b ≡ j)
      → Above key_out j l
      → find key_out k (push_some r l) ≡ (if k =? j then r else find key_out k l)
  unfolding find
  find-push_some k j none l h a = ground (arith, o.eq_of_cmp k j, find-Above key_out j l a)
  find-push_some k j (some b) l h a = ground (arith, h b)

  -- The cases of `find-merge_pairs` at a head `x` of the left side, a head of the right, and a shared one.
  at_left :
      (k : K) (x : A) (xs ys : List A) {r : Option B}
      → Above key (key x) xs
      → Above key (key x) ys
      → r ≡ f (find key k xs) (find key k ys)
      → (if k =? key x then f (some x) none else r) ≡ f (find key k (x ∷ xs)) (find key k ys)
  unfolding find
  at_left k x xs ys a b h = ground (arith, o.eq_of_cmp k (key x), find-Above key (key x) ys b)

  at_right :
      (k : K) (y : A) (xs ys : List A) {r : Option B}
      → Above key (key y) xs
      → Above key (key y) ys
      → r ≡ f (find key k xs) (find key k ys)
      → (if k =? key y then f none (some y) else r) ≡ f (find key k xs) (find key k (y ∷ ys))
  unfolding find
  at_right k y xs ys a b h = ground (arith, o.eq_of_cmp k (key y), find-Above key (key y) xs a)

  at_both :
      (k : K) (x y : A) (xs ys : List A) {r : Option B}
      → o.cmp (key x) (key y) ≡ Ordering.eq
      → r ≡ f (find key k xs) (find key k ys)
      → (if k =? key x then f (some x) (some y) else r)
        ≡ f (find key k (x ∷ xs)) (find key k (y ∷ ys))
  unfolding find
  at_both k x y xs ys e h = ground (arith, o.eq_of_cmp (key x) (key y))

  module _ (w : IsKeyed key key_out f) where
    merge_pairs-Above :
        (k : K) (xs ys : List A)
        → Above key k xs
        → Above key k ys
        → Above key_out k (merge_pairs xs ys)
    unfolding pairs
    merge_pairs-Above k [] [] a b = tt
    merge_pairs-Above k (x ∷ xs) [] a b =
        push_some-Above k (key x) _ _ (w.left x) a.0 (merge_pairs-Above k xs [] a.1 b)
    merge_pairs-Above k [] (y ∷ ys) a b =
        push_some-Above k (key y) _ _ (w.right y) b.0 (merge_pairs-Above k [] ys a b.1)
    merge_pairs-Above k (x ∷ xs) (y ∷ ys) a b = elim (Ordering-cases (o.cmp (key x) (key y))) [
      | inl e ↦
          rw (e, pairs)
            (push_some-Above k (key x) _ _ (w.left x) a.0 (merge_pairs-Above k xs (y ∷ ys) a.1 b))
      | inr (inl e) ↦
          rw (e, pairs)
            (push_some-Above k (key x) _ _ (λ c. w.both x y c (o.eq_of_cmp _ _ e)) a.0
              (merge_pairs-Above k xs ys a.1 b.1))
      | inr (inr e) ↦
          rw (e, pairs)
            (push_some-Above k (key y) _ _ (w.right y) b.0 (merge_pairs-Above k (x ∷ xs) ys a b.1))
    ]

    -- The head of one side lies below the rest, of which one side begins with `j`.
    merge_pairs-IsSorted :
        (xs ys : List A) → IsSorted key xs → IsSorted key ys → IsSorted key_out (merge_pairs xs ys)
    unfolding pairs
    merge_pairs-IsSorted [] [] s t = tt
    merge_pairs-IsSorted (x ∷ xs) [] s t =
        push_some-IsSorted (key x) _ _ (w.left x) (merge_pairs-Above _ xs [] s.0 tt)
          (merge_pairs-IsSorted xs [] s.1 t)
    merge_pairs-IsSorted [] (y ∷ ys) s t =
        push_some-IsSorted (key y) _ _ (w.right y) (merge_pairs-Above _ [] ys tt t.0)
          (merge_pairs-IsSorted [] ys s t.1)
    merge_pairs-IsSorted (x ∷ xs) (y ∷ ys) s t = elim (Ordering-cases (o.cmp (key x) (key y))) [
      | inl e ↦
          rw (e, pairs)
            (push_some-IsSorted (key x) _ _ (w.left x)
              (merge_pairs-Above _ xs (y ∷ ys) s.0 (e, Above-trans key _ _ ys e t.0))
              (merge_pairs-IsSorted xs (y ∷ ys) s.1 t))
      | inr (inl e) ↦
          let same = o.eq_of_cmp _ _ e in
          rw (e, pairs)
            (push_some-IsSorted (key x) _ _ (λ c. w.both x y c same)
              (merge_pairs-Above _ xs ys s.0 (subst (λ k. Above key k ys) (sym same) t.0))
              (merge_pairs-IsSorted xs ys s.1 t.1))
      | inr (inr e) ↦
          let below = o.lt_of_gt _ _ e in
          rw (e, pairs)
            (push_some-IsSorted (key y) _ _ (w.right y)
              (merge_pairs-Above _ (x ∷ xs) ys (below, Above-trans key _ _ xs below s.0) t.0)
              (merge_pairs-IsSorted (x ∷ xs) ys s t.1))
    ]

    -- The result at a key is `f` of the two sides' items of that key.
    find-merge_pairs :
        (k : K) (xs ys : List A)
        → IsSorted key xs
        → IsSorted key ys
        → find key_out k (merge_pairs xs ys) ≡ f (find key k xs) (find key k ys)
    unfolding pairs find
    find-merge_pairs k [] [] s t = sym w.neither
    find-merge_pairs k (x ∷ xs) [] s t =
        find-push_some k (key x) _ _ (w.left x) (merge_pairs-Above _ xs [] s.0 tt)
        ∙ ground (arith, find-merge_pairs k xs [] s.1 t, o.eq_of_cmp k (key x))
    find-merge_pairs k [] (y ∷ ys) s t =
        find-push_some k (key y) _ _ (w.right y) (merge_pairs-Above _ [] ys tt t.0)
        ∙ ground (arith, find-merge_pairs k [] ys s t.1, o.eq_of_cmp k (key y))
    find-merge_pairs k (x ∷ xs) (y ∷ ys) s t = elim (Ordering-cases (o.cmp (key x) (key y))) [
      | inl e ↦
          let above : Above key (key x) (y ∷ ys) = (e, Above-trans key _ _ ys e t.0) in
          rw (e, pairs)
            (find-push_some k (key x) _ _ (w.left x) (merge_pairs-Above _ xs (y ∷ ys) s.0 above)
              ∙ at_left k x xs (y ∷ ys) s.0 above (find-merge_pairs k xs (y ∷ ys) s.1 t))
      | inr (inl e) ↦
          let same = o.eq_of_cmp _ _ e in
          let above = subst (λ j. Above key j ys) (sym same) t.0 in
          rw (e, pairs)
            (find-push_some k (key x) _ _ (λ c. w.both x y c same)
                (merge_pairs-Above _ xs ys s.0 above)
              ∙ at_both k x y xs ys e (find-merge_pairs k xs ys s.1 t.1))
      | inr (inr e) ↦
          let below = o.lt_of_gt _ _ e in
          let above : Above key (key y) (x ∷ xs) = (below, Above-trans key _ _ xs below s.0) in
          rw (e, pairs)
            (find-push_some k (key y) _ _ (w.right y) (merge_pairs-Above _ (x ∷ xs) ys above t.0)
              ∙ at_right k y (x ∷ xs) ys above t.0 (find-merge_pairs k (x ∷ xs) ys s t.1))
    ]

    pub merge-IsSorted :
        (xs ys : List A)
        → IsSorted key xs
        → IsSorted key ys
        → IsSorted key_out (filter_map (λ p. f p.0 p.1) (matched key xs ys))
    merge-IsSorted xs ys s t = rw (matched-pairs key xs ys) (merge_pairs-IsSorted xs ys s t)

    -- The result at a key is `f` of the two sides' items of that key.
    pub find-merge :
        (k : K) (xs ys : List A)
        → IsSorted key xs
        → IsSorted key ys
        → find key_out k (filter_map (λ p. f p.0 p.1) (matched key xs ys))
          ≡ f (find key k xs) (find key k ys)
    find-merge k xs ys s t = rw (matched-pairs key xs ys) (find-merge_pairs k xs ys s t)
