-- ===== src/Sync/Validate/Staged.antt =====
-- `validate_staged_structure`: the shape of a plan that a staged apply takes.
pub mod Keeps
pub mod Laws
use duet.Prelude.{
  ℕ, List, [], ◌∷◌, Bool, true, false, not, Option, none, some, Result, ok, err, guard, ◌>>=◌, ◌>>◌,
  if◌then◌else◌,
}
use duet.Ord.{Ord, ◌=?◌}
use duet.Ord.Lexicographic.{list_ord}
use duet.FilePath.{FilePath, component_ord}
use duet.Scan.Entry.{Entry}
use duet.Scan.Change.{Change, added, removed, modified}
use duet.Actions.{Action, local, remote, conflict, resolved_local, resolved_remote, identical}
use duet.Sync.Staging.{is_replacement}
use duet.Sync.Staging.Waves.{out_of_order_after}
use duet.Sync.Validate.{for_each}

-- `index_out_of_range` is the panic of `paths[0]` without a path.
pub data StagedFault : Type 0 where
  replaces_directory modified_path_mismatch unordered_actions : StagedFault
  compound_path_mismatch unordered_entries index_out_of_range : StagedFault

unfoldable pub effective_change : Action → Option Change
effective_change (local change) = some change
effective_change (remote change) = some change
effective_change (resolved_local _ _ change) = some change
effective_change (resolved_remote _ _ change) = some change
effective_change (conflict _ _) = none
effective_change (identical _ _) = none

-- The effective change makes a directory into something else.
unfoldable pub replaces : Option Change → Bool
replaces none = false
replaces (some change) = is_replacement change

-- The changes that an action holds.
abbrev pub action_changes : Action → List Change
action_changes (local change) = change ∷ []
action_changes (remote change) = change ∷ []
action_changes (conflict left right) = left ∷ right ∷ []
action_changes (identical left right) = left ∷ right ∷ []
action_changes (resolved_local left right change) = left ∷ right ∷ change ∷ []
action_changes (resolved_remote left right change) = left ∷ right ∷ change ∷ []

unfoldable pub staged_path : Change → Result StagedFault FilePath
staged_path (added entry) = ok entry.path
staged_path (removed entry) = ok entry.path
staged_path (modified old new) =
    if old.path =? new.path then ok new.path else err modified_path_mismatch

unfoldable pub staged_paths : List Change → Result StagedFault (List FilePath)
staged_paths [] = ok []
staged_paths (change ∷ changes) = do
  path ← staged_path change
  paths ← staged_paths changes
  ok (path ∷ paths)

-- The order after the path before, then `paths.into_iter().skip(1)`.
unfoldable pub check_paths : Option FilePath → List FilePath → Result StagedFault FilePath
check_paths previous [] = err index_out_of_range
check_paths previous (path ∷ paths) = do
  guard (not (out_of_order_after previous path)) unordered_actions
  for_each (λ compound_path. guard (compound_path =? path) compound_path_mismatch) paths
  ok path

-- The body of the first `for`: the path of the action, which is the next one's `previous_path`.
unfoldable pub check_staged_action : Option FilePath → Action → Result StagedFault FilePath
check_staged_action previous action = do
  guard (not (replaces (effective_change action))) replaces_directory
  paths ← staged_paths (action_changes action)
  check_paths previous paths

unfoldable pub check_staged_actions : Option FilePath → List Action → Result StagedFault (Unit {0})
check_staged_actions previous [] = ok tt
check_staged_actions previous (action ∷ actions) = do
  path ← check_staged_action previous action
  check_staged_actions (some path) actions

-- `all_old.windows(2)`
unfoldable pub check_windows : List Entry → Result StagedFault (Unit {0})
check_windows [] = ok tt
check_windows (entry ∷ []) = ok tt
check_windows (first ∷ second ∷ entries) = do
  guard (not (out_of_order_after (some first.path) second.path)) unordered_entries
  check_windows (second ∷ entries)

unfoldable pub validate_staged_structure : List Action → List Entry → Result StagedFault (Unit {0})
validate_staged_structure actions all_old = do
  check_staged_actions none actions
  check_windows all_old
