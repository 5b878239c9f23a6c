-- ===== src/Sorted/Sorting.antt =====
-- `slice::sort`: a stable sort by a key. It keeps what is found under each key.
use duet.Prelude.{
  subst, sym, some, List, [], ◌∷◌, ◌≡◌, ◌≢◌, refl, arith, All, if◌then◌else◌, inl, inr,
  Ordering-cases, All-imp,
}
use duet.Ord.{Ord, ◌≺◌, ◌=?◌}
use duet.Sorted.{IsSorted, find, Above-trans, Above}
use Prim.Native.Nat.Ordering.{lt, eq, gt}

module _ {ℓ κ} {A : Type ℓ} {K : Type κ} ⦃o : Ord K⦄ (key : A → K) where
  -- In front of the first item that is not below `x`, so that equal keys keep their order.
  unfoldable pub insert : A → List A → List A
  insert x [] = x ∷ []
  insert x (y ∷ l) = elim (o.cmp (key y) (key x)) [
    | lt ↦ y ∷ insert x l
    | eq ↦ x ∷ y ∷ l
    | gt ↦ x ∷ y ∷ l
  ]

  unfoldable pub sort_by : List A → List A
  unfolding insert
  sort_by [] = []
  sort_by (x ∷ l) = insert x (sort_by l)

  find-insert :
      (k : K) (x : A) (l : List A)
      → find key k (insert x l) ≡ (if k =? key x then some x else find key k l)
  unfolding find insert
  find-insert k x [] = refl
  find-insert k x (y ∷ l) =
      ground (arith, o.eq_of_cmp k (key x), o.eq_of_cmp k (key y), o.cmp_refl k, find-insert k x l)

  pub find-sort_by : (k : K) (l : List A) → find key k (sort_by l) ≡ find key k l
  unfolding find sort_by
  find-sort_by k [] = refl
  find-sort_by k (x ∷ l) = rw (find-insert k x (sort_by l), find-sort_by k l)

  All-insert {μ} : (P : A → Type μ) (x : A) (l : List A) → P x → All P l → All P (insert x l)
  unfolding insert
  All-insert P x [] p h = (p, tt)
  All-insert P x (y ∷ l) p h = elim (Ordering-cases (o.cmp (key y) (key x))) [
    | inl e ↦ rw (e, insert) (h.0, All-insert P x l p h.1)
    | inr (inl e) ↦ rw (e, insert) (p, h)
    | inr (inr e) ↦ rw (e, insert) (p, h)
  ]

  pub All-sort_by {μ} : (P : A → Type μ) (l : List A) → All P l → All P (sort_by l)
  unfolding sort_by
  All-sort_by P [] h = tt
  All-sort_by P (x ∷ l) h = All-insert P x (sort_by l) h.0 (All-sort_by P l h.1)

  -- No two items have one key.
  abbrev pub Distinct : List A → Type κ
  Distinct [] = Unit
  Distinct (x ∷ l) = All (λ y. key x ≢ key y) l × Distinct l

  insert-IsSorted :
      (x : A) (l : List A) → All (λ y. key x ≢ key y) l → IsSorted key l → IsSorted key (insert x l)
  unfolding insert
  insert-IsSorted x [] h s = (tt, tt)
  insert-IsSorted x (y ∷ l) h s = elim (Ordering-cases (o.cmp (key y) (key x))) [
    | inl e ↦
        rw (e, insert) (All-insert (λ z. key y ≺ key z) x l e s.0, insert-IsSorted x l h.1 s.1)
    | inr (inl e) ↦ absurd (h.0 (sym (o.eq_of_cmp _ _ e)))
    | inr (inr e) ↦
        let below = o.lt_of_gt _ _ e in rw (e, insert) ((below, Above-trans key _ _ l below s.0), s)
  ]

  pub sort_by-IsSorted : (l : List A) → Distinct l → IsSorted key (sort_by l)
  unfolding sort_by
  sort_by-IsSorted [] d = tt
  sort_by-IsSorted (x ∷ l) d =
      insert-IsSorted x (sort_by l) (All-sort_by (λ y. key x ≢ key y) l d.0)
        (sort_by-IsSorted l d.1)

-- Without distinct keys the result is sorted weakly.
module _ {ℓ κ} {A : Type ℓ} {K : Type κ} ⦃o : Ord K⦄ (key : A → K) where
  abbrev pub From : K → List A → Type 0
  From k = All (λ x. o.cmp k (key x) ≡ gt → ⊥)

  abbrev pub IsWeaklySorted : List A → Type 0
  IsWeaklySorted [] = Unit
  IsWeaklySorted (x ∷ l) = From (key x) l × IsWeaklySorted l

  not_gt_trans : (a b c : K) → o.cmp a b ≡ lt → (o.cmp b c ≡ gt → ⊥) → o.cmp a c ≡ lt
  not_gt_trans a b c h k = ground (arith, o.lt_trans a b c, o.eq_of_cmp b c)

  pub From-Above : (j k : K) (l : List A) → j ≺ k → From k l → Above key j l
  From-Above j k l h = All-imp (λ x. not_gt_trans j k (key x) h) l

  From-of_lt : (j k : K) (l : List A) → j ≺ k → From k l → From j l
  From-of_lt j k l h = All-imp (λ x f. λ g. ground (arith, not_gt_trans j k (key x) h f)) l

  insert-IsWeaklySorted : (x : A) (l : List A) → IsWeaklySorted l → IsWeaklySorted (insert key x l)
  unfolding insert
  insert-IsWeaklySorted x [] s = (tt, tt)
  insert-IsWeaklySorted x (y ∷ l) s = elim (Ordering-cases (o.cmp (key y) (key x))) [
    | inl e ↦
        rw (e, insert)
          (
            All-insert key (λ z. o.cmp (key y) (key z) ≡ gt → ⊥) x l (λ g. ground arith) s.0,
            insert-IsWeaklySorted x l s.1,
          )
    | inr (inl e) ↦
        let same = o.eq_of_cmp _ _ e in
        rw (e, insert)
          ((λ g. ground (arith, o.cmp_refl (key x)), subst (λ k. From k l) same s.0), s)
    | inr (inr e) ↦
        let below = o.lt_of_gt _ _ e in
        rw (e, insert) ((λ g. ground arith, From-of_lt _ _ l below s.0), s)
  ]

  pub sort_by-IsWeaklySorted : (l : List A) → IsWeaklySorted (sort_by key l)
  unfolding sort_by
  sort_by-IsWeaklySorted [] = tt
  sort_by-IsWeaklySorted (x ∷ l) =
      insert-IsWeaklySorted x (sort_by key l) (sort_by-IsWeaklySorted l)
