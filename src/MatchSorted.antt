-- ===== src/MatchSorted.antt =====
-- utils.rs: two sorted sequences walked side by side. The items are compared by a key, as the
-- `Ord` instances of entries and of changes compare their paths.
pub mod Pairs
pub mod Laws
pub mod Merge
pub mod Swap
use duet.Prelude.{Option, none, some, List, [], ◌∷◌, Ordering, suc, zero, ℕ, ◌+◌, length}
use duet.Ord.{Ord}
use Prim.Native.Nat.Ordering.{lt, eq, gt}

-- The two peekable iterators, each by the items it has left.
pub record MatchSorted {ℓ} (A : Type ℓ) : Type ℓ where
  pub it1 : List A
  pub it2 : List A

-- `MatchSorted::new`, through the function `match_sorted`
unfoldable pub match_sorted {ℓ} : {A : Type ℓ} → List A → List A → MatchSorted A
match_sorted it1 it2 = record { it1 = it1; it2 = it2 }

abbrev pub Pair {ℓ} : Type ℓ → Type ℓ
Pair A = Option A × Option A

module _ {ℓ κ} {A : Type ℓ} {K : Type κ} ⦃o : Ord K⦄ (key : A → K) where
  -- `next` on the two iterators; `none` ends the iteration.
  unfoldable pub next : MatchSorted A → Option (Pair A × MatchSorted A)
  next s = step s.it1 s.it2
    where
      step : List A → List A → Option (Pair A × MatchSorted A)
      step [] [] = none
      step (x ∷ xs) [] = some ((some x, none), record { it1 = xs; it2 = [] })
      step [] (y ∷ ys) = some ((none, some y), record { it1 = []; it2 = ys })
      step (x ∷ xs) (y ∷ ys) = elim (o.cmp (key x) (key y)) [
        | lt ↦ some ((some x, none), record { it1 = xs; it2 = y ∷ ys })
        | gt ↦ some ((none, some y), record { it1 = x ∷ xs; it2 = ys })
        | eq ↦ some ((some x, some y), record { it1 = xs; it2 = ys })
      ]

  -- What a caller's loop or `filter_map` takes from the iterator, in at most so many rounds.
  unfoldable pub drain : ℕ → MatchSorted A → List (Pair A)
  unfolding next
  drain zero s = []
  drain (suc n) s = elim (next s) [ none ↦ [] | some (p, s') ↦ p ∷ drain n s' ]

  -- All of it: a round takes an item at least.
  unfoldable pub matched : List A → List A → List (Pair A)
  unfolding drain match_sorted
  matched it1 it2 = drain (suc (length it1 + length it2)) (match_sorted it1 it2)
