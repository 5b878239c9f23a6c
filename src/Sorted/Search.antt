-- ===== src/Sorted/Search.antt =====
-- `slice::binary_search_by` with the keys' order: halving, until an item with the key is met.
use duet.Prelude.{
  length-append, ap, All-imp, ℕ, zero, suc, ◌/◌, ◌≤◌, Option, none, some, List, [], ◌∷◌, ◌++◌,
  length, ◌≡◌, refl, ◌∙◌, arith, All, inl, inr, Ordering-cases, subst,
}
use Prim.Native.Nat.Ordering.{lt, eq, gt}
use duet.Ord.{Ord, ◌≺◌}
use duet.Sorted.{Above, IsSorted, find, Above-trans, find-Above}

-- The items before a place, and those from it on.
abbrev pub split_at {ℓ} : {A : Type ℓ} → ℕ → List A → List A × List A
split_at zero xs = ([], xs)
split_at (suc n) [] = ([], [])
split_at (suc n) (x ∷ xs) = let (front, back) = split_at n xs in (x ∷ front, back)

append-split_at {ℓ} :
    {A : Type ℓ} (n : ℕ) (xs : List A) → (split_at n xs).0 ++ (split_at n xs).1 ≡ xs
append-split_at zero xs = refl
append-split_at (suc n) [] = refl
append-split_at (suc n) (x ∷ xs) = rw (append-split_at n xs) refl

length-split_at {ℓ} : {A : Type ℓ} (n : ℕ) (xs : List A) → length (split_at n xs).0 ≤ n
length-split_at zero xs = omega arith
length-split_at (suc n) [] = omega arith
length-split_at (suc n) (x ∷ xs) = omega (arith, length-split_at n xs)

All-split {ℓ κ} :
    {A : Type ℓ} (P : A → Type κ) (front rest : List A) (x : A)
    → All P (front ++ x ∷ rest)
    → All P front × P x
All-split P [] rest x h = (tt, h.0)
All-split P (y ∷ front) rest x (h, hs) = let (f, p) = All-split P front rest x hs in ((h, f), p)

module _ {ℓ κ} {A : Type ℓ} {K : Type κ} ⦃o : Ord K⦄ (key : A → K) where
  -- The item that a search for `k` finds, in at most so many rounds.
  unfoldable pub search : ℕ → K → List A → Option A
  search zero k xs = none
  search (suc n) k xs =
      let (front, back) = split_at (length xs / 2) xs in
      elim back [
        | [] ↦ none
        | x ∷ rest ↦ elim (o.cmp (key x) k) [
          | eq ↦ some x
          | lt ↦ search n k rest
          | gt ↦ search n k front
        ]
      ]

  unfoldable pub binary_search : K → List A → Option A
  unfolding search
  binary_search k xs = search (length xs) k xs

  IsSorted-append :
      (front rest : List A) (x : A)
      → IsSorted key (front ++ x ∷ rest)
      → IsSorted key front
        × IsSorted key rest
        × Above key (key x) rest
        × All (λ y. key y ≺ key x) front
  IsSorted-append [] rest x s = (tt, s.1, s.0, tt)
  IsSorted-append (y ∷ front) rest x (a, s) =
      let (f, r, b, c) = IsSorted-append front rest x s in
      let (above, below) = All-split (λ z. key y ≺ key z) front rest x a in
      ((above, f), r, b, (below, c))

  find-append :
      (k : K) (front back : List A)
      → find key k front ≡ none
      → find key k (front ++ back) ≡ find key k back
  unfolding find
  find-append k [] back h = refl
  find-append k (y ∷ front) back h = ground (arith, h, find-append k front back)

  find-below : (k : K) (front : List A) → All (λ y. key y ≺ k) front → find key k front ≡ none
  unfolding find
  find-below k [] h = refl
  find-below k (y ∷ front) (h, hs) = ground (arith, o.gt_of_lt (key y) k h, find-below k front hs)

  find-front :
      (k : K) (front back : List A)
      → find key k back ≡ none
      → find key k (front ++ back) ≡ find key k front
  unfolding find
  find-front k [] back h = h
  find-front k (y ∷ front) back h = ground (arith, h, find-front k front back h)

  below_trans :
      (j k : K) (front : List A) → j ≺ k → All (λ y. key y ≺ j) front → All (λ y. key y ≺ k) front
  below_trans j k front h = All-imp (λ y e. o.lt_trans (key y) j k e h) front

  -- What lies at and around the middle of a sorted list.
  find-middle :
      (k : K) (front rest : List A) (x : A)
      → IsSorted key (front ++ x ∷ rest)
      → find key k (front ++ x ∷ rest)
        ≡ elim (o.cmp (key x) k) [ eq ↦ some x | lt ↦ find key k rest | gt ↦ find key k front ]
  unfolding find
  find-middle k front rest x s =
      let (f, r, above, below) = IsSorted-append front rest x s in
      elim (Ordering-cases (o.cmp (key x) k)) [
        | inl e ↦
            find-append k front (x ∷ rest)
              (find-below k front (below_trans (key x) k front e below))
            ∙ ground (arith, e, o.gt_of_lt (key x) k e)
        | inr (inl e) ↦
            let same = o.eq_of_cmp (key x) k e in
            find-append k front (x ∷ rest)
              (find-below k front (subst (λ j. All (λ y. key y ≺ j) front) same below))
            ∙ ground (arith, e, same, o.cmp_refl k)
        | inr (inr e) ↦
            let before = o.lt_of_gt (key x) k e in
            find-front k front (x ∷ rest)
              (find-Above key k (x ∷ rest) (before, Above-trans key k (key x) rest before above))
            ∙ ground (arith, e)
      ]

  round_lem :
      (n : ℕ) (k : K) (front back : List A)
      → IsSorted key (front ++ back)
      → length (front ++ back) ≤ suc n
      → length front ≤ length (front ++ back) / 2
      → ((ys : List A) → length ys ≤ n → IsSorted key ys → search n k ys ≡ find key k ys)
      → (elim back [
        | [] ↦ none
        | x ∷ rest ↦ elim (o.cmp (key x) k) [
          | eq ↦ some x
          | lt ↦ search n k rest
          | gt ↦ search n k front
        ]
      ])
        ≡ find key k (front ++ back)
  unfolding find
  round_lem n k [] [] s h half later = refl
  round_lem n k (y ∷ front) [] s h half later = absurd (omega (arith, half, length-append front []))
  round_lem n k front (x ∷ rest) s h half later =
      let (f, r, _, _) = IsSorted-append front rest x s in
      let size = length-append front (x ∷ rest) in
      let there = find-middle k front rest x s in
      let below = later rest (omega (arith, h, size)) r in
      let above = later front (omega (arith, h, size, half)) f in
      ground (arith, there, below, above)

  search_lem :
      (n : ℕ) (k : K) (xs : List A)
      → length xs ≤ n
      → IsSorted key xs
      → search n k xs ≡ find key k xs
  unfolding search find
  search_lem zero k [] h s = refl
  search_lem zero k (x ∷ xs) h s = absurd (omega (arith, h))
  search_lem (suc n) k xs h s =
      let middle = length xs / 2 in
      let front = (split_at middle xs).0 in
      let back = (split_at middle xs).1 in
      let whole = append-split_at middle xs in
      round_lem n k front back (rw whole s) (rw whole h) (rw whole (length-split_at middle xs))
        (λ ys. search_lem n k ys)
      ∙ ap (find key k) whole

  -- In a sorted list the search finds what is there.
  pub binary_search_lem :
      (k : K) (xs : List A) → IsSorted key xs → binary_search k xs ≡ find key k xs
  unfolding binary_search
  binary_search_lem k xs s = search_lem (length xs) k xs (omega arith) s
