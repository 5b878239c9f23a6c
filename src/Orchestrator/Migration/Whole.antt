-- ===== src/Orchestrator/Migration/Whole.antt =====
-- The whole plan of a migration.
use duet.Prelude.{if◌then◌else◌, Option, none, List, [], Result, ok, ◌≡◌, map}
use duet.Ord.{Ord}
use duet.Ord.Lexicographic.{list_ord}
use duet.FilePath.{FilePath, component_ord}
use duet.Sorted.{find, IsSorted, Above}
use duet.Scan.Entry.{Entry}
use duet.Scan.Change.{Change, change_path, entry_path}
use duet.Actions.{Action, action_path}
use duet.Orchestrator.Migration.{Fault, migration_at, set_extend}
use duet.Orchestrator.Migration.Paths.{has, path_itself}

o : Ord FilePath
o = list_ord

module _ (lc rc : List Change) (l r : List Entry)
    (sc : IsSorted change_path lc × IsSorted change_path rc)
    (se : IsSorted entry_path l × IsSorted entry_path r) where
  at : FilePath → Result Fault (Option Action)
  at = migration_at lc rc l r

  -- The list made from some paths, against what is made at one path.
  abbrev Made : List FilePath → List Action → Type 0
  Made paths actions =
      ((k : FilePath) → Above path_itself k paths → Above action_path k actions)
      × IsSorted action_path actions
      × ((p : FilePath) → (if has p paths then at p else ok none) ≡ ok (find action_path p actions))

  -- The set of paths, where no path fails its assertion.
  all_paths : List FilePath
  all_paths =
      set_extend
        (set_extend (set_extend (set_extend [] (map entry_path l)) (map entry_path r))
          (map change_path lc))
        (map change_path rc)
