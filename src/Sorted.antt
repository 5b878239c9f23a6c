-- ===== src/Sorted.antt =====
-- Lists sorted by a key: the manifests, the changes and the actions, all by path.
pub mod Sorting
pub mod Search
use duet.Prelude.{Option, none, some, List, [], ◌∷◌, ◌≡◌, refl, arith, All, All-imp, if◌then◌else◌}
use duet.Ord.{Ord, ◌≺◌, ◌=?◌}

module _ {ℓ κ} {A : Type ℓ} {K : Type κ} ⦃o : Ord K⦄ (key : A → K) where
  -- Strictly increasing keys.
  abbrev pub Above : K → List A → Type 0
  Above k = All (λ x. k ≺ key x)

  abbrev pub IsSorted : List A → Type 0
  IsSorted [] = Unit
  IsSorted (x ∷ xs) = Above (key x) xs × IsSorted xs

  -- The first item with the key.
  unfoldable pub find : K → List A → Option A
  find k [] = none
  find k (x ∷ xs) = if k =? key x then some x else find k xs

  pub Above-trans : (j k : K) (xs : List A) → j ≺ k → Above k xs → Above j xs
  Above-trans j k xs h = All-imp (λ x. o.lt_trans j k (key x) h) xs

  pub find-Above : (k : K) (xs : List A) → Above k xs → find k xs ≡ none
  unfolding find
  find-Above k [] h = refl
  find-Above k (x ∷ xs) h = ground (arith, find-Above k xs)

  pub find-key : (k : K) (xs : List A) {a : A} → find k xs ≡ some a → key a ≡ k
  unfolding find
  find-key k [] h = cc
  find-key k (x ∷ xs) {a} h = ground (arith, o.eq_of_cmp k (key x), find-key k xs {a = a})
