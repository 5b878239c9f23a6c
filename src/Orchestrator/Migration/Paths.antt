-- ===== src/Orchestrator/Migration/Paths.antt =====
-- The set of paths that a migration looks at.
use duet.Prelude.{
  ◌||◌, false, Bool, none, List, [], ◌∷◌, any, map, All, ◌≡◌, refl, arith, inl, inr, Ordering-cases,
}
use duet.Ord.{Ord, ◌≺◌, ◌=?◌}
use duet.Ord.Lexicographic.{list_ord}
use duet.FilePath.{FilePath, component_ord}
use duet.Sorted.{find, IsSorted, Above-trans}
use duet.Orchestrator.Migration.{set_insert, set_extend}

o : Ord FilePath
o = list_ord

-- Members of a set of paths.
abbrev pub has : FilePath → List FilePath → Bool
has p paths = any (λ q. p =? q) paths

has-set_insert : (p x : FilePath) (l : List FilePath) → has p (set_insert x l) ≡ (p =? x || has p l)
unfolding set_insert o
has-set_insert p x [] = refl
has-set_insert p x (y ∷ l) = ground (arith, o.eq_of_cmp x y, has-set_insert p x l)

pub has-set_extend :
    (p : FilePath) (l more : List FilePath) → has p (set_extend l more) ≡ (has p l || has p more)
unfolding set_extend
has-set_extend p l [] = ground arith
has-set_extend p l (x ∷ more) =
    ground (arith, has-set_extend p (set_insert x l) more, has-set_insert p x l)

Above-set_insert :
    (k x : FilePath) (l : List FilePath)
    → k ≺ x
    → All (λ c. k ≺ c) l
    → All (λ c. k ≺ c) (set_insert x l)
unfolding set_insert
Above-set_insert k x [] h a = (h, tt)
Above-set_insert k x (y ∷ l) h a = elim (Ordering-cases (list_ord.cmp x y)) [
  | inl e ↦ rw (e, set_insert) (h, a)
  | inr (inl e) ↦ rw (e, set_insert) a
  | inr (inr e) ↦ rw (e, set_insert) (a.0, Above-set_insert k x l h a.1)
]

-- The paths themselves as keys.
abbrev pub path_itself : FilePath → FilePath
path_itself p = p

set_insert-IsSorted :
    (x : FilePath) (l : List FilePath)
    → IsSorted path_itself l
    → IsSorted path_itself (set_insert x l)
unfolding set_insert
set_insert-IsSorted x [] s = (tt, tt)
set_insert-IsSorted x (y ∷ l) s = elim (Ordering-cases (list_ord.cmp x y)) [
  | inl e ↦ rw (e, set_insert) ((e, Above-trans path_itself x y l e s.0), s)
  | inr (inl e) ↦ rw (e, set_insert) s
  | inr (inr e) ↦
      rw (e, set_insert)
        (Above-set_insert y x l (list_ord.lt_of_gt x y e) s.0, set_insert-IsSorted x l s.1)
]

pub set_extend-IsSorted :
    (l more : List FilePath) → IsSorted path_itself l → IsSorted path_itself (set_extend l more)
unfolding set_extend
set_extend-IsSorted l [] s = s
set_extend-IsSorted l (x ∷ more) s =
    set_extend-IsSorted (set_insert x l) more (set_insert-IsSorted x l s)

pub find_not_has {ℓ} :
    {A : Type ℓ} (key : A → FilePath) (p : FilePath) (l : List A)
    → has p (map key l) ≡ false
    → find key p l ≡ none
unfolding find
find_not_has key p [] h = refl
find_not_has key p (x ∷ l) h = ground (arith, find_not_has key p l)
