-- ===== src/Scan/Location/Laws.antt =====
-- The canonical rules: one for each path, and it is the last one given.
use duet.Prelude.{
  List, [], ◌∷◌, Option, none, some, ◌≡◌, refl, arith, if◌then◌else◌, Ordering-cases, inl, inr,
  subst, sym,
}
use duet.Ord.{Ord, ◌≺◌, ◌=?◌}
use duet.Ord.Lexicographic.{list_ord}
use duet.FilePath.{FilePath, component_ord}
use duet.Sorted.{Above, IsSorted, find, Above-trans}
use duet.Scan.Location.{
  Location, location_path, canonical, btree_insert, collect_winners, canonicalize,
}

o : Ord FilePath
o = list_ord

Above-btree_insert :
    (k : FilePath) (x : Location) (l : List Location)
    → k ≺ location_path x
    → Above location_path k l
    → Above location_path k (btree_insert x l)
unfolding btree_insert
Above-btree_insert k x [] h a = (h, tt)
Above-btree_insert k x (y ∷ l) h a =
    elim (Ordering-cases (list_ord.cmp (location_path x) (location_path y))) [
      | inl e ↦ rw (e, btree_insert) (h, a)
      | inr (inl e) ↦ rw (e, btree_insert) (h, a.1)
      | inr (inr e) ↦ rw (e, btree_insert) (a.0, Above-btree_insert k x l h a.1)
    ]

btree_insert-IsSorted :
    (x : Location) (l : List Location)
    → IsSorted location_path l
    → IsSorted location_path (btree_insert x l)
unfolding btree_insert o
btree_insert-IsSorted x [] s = (tt, tt)
btree_insert-IsSorted x (y ∷ l) s =
    elim (Ordering-cases (list_ord.cmp (location_path x) (location_path y))) [
      | inl e ↦ rw (e, btree_insert) ((e, Above-trans location_path _ _ l e s.0), s)
      | inr (inl e) ↦
          rw (e, btree_insert)
            (subst (λ k. Above location_path k l) (sym (o.eq_of_cmp _ _ e)) s.0, s.1)
      | inr (inr e) ↦
          rw (e, btree_insert)
            (Above-btree_insert _ x l (o.lt_of_gt _ _ e) s.0, btree_insert-IsSorted x l s.1)
    ]

find-btree_insert :
    (p : FilePath) (x : Location) (l : List Location)
    → find location_path p (btree_insert x l)
      ≡ (if p =? location_path x then some x else find location_path p l)
unfolding btree_insert find o
find-btree_insert p x [] = refl
find-btree_insert p x (y ∷ l) = ground (
  arith,
  o.eq_of_cmp (location_path x) (location_path y),
  o.eq_of_cmp p (location_path x),
  o.eq_of_cmp p (location_path y),
  o.cmp_refl p,
  find-btree_insert p x l,
)

-- The last rule for the path, as it reads once its path is canonical; `found` if there is none.
pub last_rule : FilePath → Option Location → List Location → Option Location
last_rule p found [] = found
last_rule p found (l ∷ locations) =
    last_rule p (if p =? location_path (canonical l) then some (canonical l) else found) locations

collect_winners-IsSorted :
    (winners locations : List Location)
    → IsSorted location_path winners
    → IsSorted location_path (collect_winners winners locations)
unfolding collect_winners
collect_winners-IsSorted winners [] s = s
collect_winners-IsSorted winners (l ∷ locations) s =
    collect_winners-IsSorted (btree_insert (canonical l) winners) locations
      (btree_insert-IsSorted (canonical l) winners s)

find-collect_winners :
    (p : FilePath) (winners locations : List Location)
    → find location_path p (collect_winners winners locations)
      ≡ last_rule p (find location_path p winners) locations
unfolding collect_winners last_rule
find-collect_winners p winners [] = refl
find-collect_winners p winners (l ∷ locations) =
    rw (← find-btree_insert p (canonical l) winners)
      (find-collect_winners p (btree_insert (canonical l) winners) locations)

-- The canonical rules are in strictly increasing path order, so there is one for each path; and for
-- each path it is the last of the given rules whose path is that one without its `.` components.
pub canonicalize_lem :
    (p : FilePath) (locations : List Location)
    → IsSorted location_path (canonicalize locations)
      × (find location_path p (canonicalize locations) ≡ last_rule p none locations)
unfolding canonicalize find
canonicalize_lem p locations =
    (collect_winners-IsSorted [] locations tt, find-collect_winners p [] locations)
