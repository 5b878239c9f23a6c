-- ===== src/Orchestrator/Migration.antt =====
-- `build_migration_actions`: the plan while a manifest without digests is brought up to date. A
-- path is judged by what both sides hold now, and by which side changed it. `binary_search` is the
-- item that a binary search leads to; the source goes from its index to the item.
pub mod Paths
pub mod Laws
pub mod Whole
use Prim.Native.Nat.Ordering.{lt, eq, gt}
use duet.Prelude.{
  Bool, true, false, Option, none, some, List, [], ◌∷◌, map, is_some, push_some, Result, ok, err,
  ◌>>=◌,
}
use duet.Ord.{Ord}
use duet.Ord.Lexicographic.{list_ord}
use duet.FilePath.{FilePath, component_ord}
use duet.Sorted.Search.{binary_search}
use duet.Scan.Entry.{Entry}
use duet.Scan.Change.{
  Change, added, removed, modified, change_path, asserted_path, PathFault, entry_path, same_strong,
}
use duet.Actions.{Action, local, remote, conflict, identical}
use mathlib.Core.Option

pub data Fault : Type 0 where
  -- a panic of `unreachable!()`
  unreachable_code : Fault
  -- a panic of `Change::path`
  path_fault : PathFault → Fault

-- `BTreeSet::insert`
unfoldable pub set_insert : FilePath → List FilePath → List FilePath
set_insert x [] = x ∷ []
set_insert x (y ∷ l) = elim (list_ord.cmp x y) [
  | lt ↦ x ∷ y ∷ l
  | eq ↦ y ∷ l
  | gt ↦ y ∷ set_insert x l
]

-- `BTreeSet::extend`
unfoldable pub set_extend : List FilePath → List FilePath → List FilePath
set_extend paths [] = paths
set_extend paths (x ∷ more) = set_extend (set_insert x paths) more

unfoldable pub migration_change : Option Entry → Option Entry → Option Change
migration_change none none = none
migration_change none (some new) = some (added new)
migration_change (some old) none = some (removed old)
migration_change (some old) (some new) = some (modified old new)

unfoldable pub migration_conflict : Option Entry → Option Entry → Result Fault Action
migration_conflict (some l) (some r) = ok (conflict (modified r l) (modified l r))
migration_conflict none (some r) = ok (conflict (removed r) (modified r r))
migration_conflict (some l) none = ok (conflict (modified l l) (removed l))
migration_conflict none none = err unreachable_code

unfoldable pub equivalent : Option Entry → Option Entry → Bool
equivalent none none = true
equivalent (some a) (some b) = same_strong (added a) (added b)
equivalent none (some b) = false
equivalent (some a) none = false

-- `changes.iter().map(|change| change.path())`
unfoldable pub change_paths : List Change → Result Fault (List FilePath)
change_paths [] = ok []
change_paths (change ∷ changes) = elim (asserted_path change) [
  | err fault ↦ err (path_fault fault)
  | ok path ↦ (do paths ← change_paths changes; ok (path ∷ paths))
]

-- The arm for two changed sides that hold the same.
unfoldable pub migration_identical : Option Entry → Option Entry → Result Fault (Option Action)
migration_identical (some a) (some b) = ok (some (identical (added a) (added b)))
migration_identical none none = ok none
migration_identical none (some b) = err unreachable_code
migration_identical (some a) none = err unreachable_code

-- The `match` of the closure: whether either side changed the path, and whether they hold the same.
unfoldable pub migration_action :
    Bool → Bool → Option Entry → Option Entry → Result Fault (Option Action)
migration_action true false l r = ok (Option.map remote (migration_change r l))
migration_action false true l r = ok (Option.map local (migration_change l r))
migration_action true true l r = elim (equivalent l r) [
  | true ↦ migration_identical l r
  | false ↦ (do a ← migration_conflict l r; ok (some a))
]
migration_action false false l r = elim (equivalent l r) [
  | true ↦ ok none
  | false ↦ (do a ← migration_conflict l r; ok (some a))
]

module _ (local_changes remote_changes : List Change)
    (local_current remote_current : List Entry) where
  -- The set of the paths of all four lists. After it `Change::path` has been called for every change.
  unfoldable pub migration_paths : Result Fault (List FilePath)
  migration_paths =
      let of_entries =
        set_extend (set_extend [] (map entry_path local_current)) (map entry_path remote_current) in
      (do
        local_paths ← change_paths local_changes
        remote_paths ← change_paths remote_changes
        ok (set_extend (set_extend of_entries local_paths) remote_paths))

  unfoldable pub migration_at : FilePath → Result Fault (Option Action)
  migration_at path =
      migration_action (is_some (binary_search change_path path local_changes))
        (is_some (binary_search change_path path remote_changes))
        (binary_search entry_path path local_current) (binary_search entry_path path remote_current)

  unfoldable pub migrate : List FilePath → Result Fault (List Action)
  migrate [] = ok []
  migrate (path ∷ paths) = do a ← migration_at path; rest ← migrate paths; ok (push_some a rest)

  unfoldable pub build_migration_actions : Result Fault (List Action)
  build_migration_actions = do paths ← migration_paths; migrate paths
