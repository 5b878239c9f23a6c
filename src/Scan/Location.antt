-- ===== src/Scan/Location.antt =====
-- scan/location.rs: the rules of a profile that include or exclude paths.
pub mod Laws
use duet.Prelude.{Bool, true, false, not, List, [], ◌∷◌, ◌++◌, filter}
use duet.Ord.{Ord}
use duet.Ord.Lexicographic.{list_ord}
use duet.FilePath.{Component, root_dir, cur_dir, parent_dir, normal, FilePath, component_ord}
use Prim.Native.Nat.Ordering.{lt, eq, gt}

pub data Location : Type 0 where
  include : FilePath → Location
  exclude : FilePath → Location

abbrev pub location_path : Location → FilePath
location_path (include path) = path
location_path (exclude path) = path

abbrev pub is_include : Location → Bool
is_include (include _) = true
is_include (exclude _) = false

abbrev pub is_exclude : Location → Bool
is_exclude l = not (is_include l)

-- `Location::prefix`; the rule's path is relative, so `join` appends.
unfoldable pub prefix : FilePath → Location → Location
prefix p (include path) = include (p ++ path)
prefix p (exclude path) = exclude (p ++ path)

abbrev pub is_cur_dir : Component → Bool
is_cur_dir cur_dir = true
is_cur_dir root_dir = false
is_cur_dir parent_dir = false
is_cur_dir (normal _) = false

unfoldable pub canonical_relative_path : FilePath → FilePath
canonical_relative_path path = filter (λ c. not (is_cur_dir c)) path

-- The rule under its canonical path.
unfoldable pub canonical : Location → Location
canonical (include path) = include (canonical_relative_path path)
canonical (exclude path) = exclude (canonical_relative_path path)

-- `BTreeMap::insert`, where every value holds its key: the entries in key order, a value replaced.
unfoldable pub btree_insert : Location → List Location → List Location
btree_insert x [] = x ∷ []
btree_insert x (y ∷ l) = elim (list_ord.cmp (location_path x) (location_path y)) [
  | lt ↦ x ∷ y ∷ l
  | eq ↦ x ∷ l
  | gt ↦ y ∷ btree_insert x l
]

-- The `for` over the rules, from the map filled so far.
unfoldable pub collect_winners : List Location → List Location → List Location
collect_winners winners [] = winners
collect_winners winners (l ∷ locations) =
    collect_winners (btree_insert (canonical l) winners) locations

unfoldable pub canonicalize : List Location → List Location
canonicalize locations = collect_winners [] locations
