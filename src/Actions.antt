-- ===== src/Actions.antt =====
-- actions.rs: what to do at a path, made from what the two sides changed there.
pub mod Legacy
pub mod Laws
use duet.Prelude.{Bool, true, false, Option, none, some, List, map, filter, length, ℕ}
use duet.FilePath.{FilePath}
use duet.Scan.Change.{
  Change, LegacyChange, change_path, same, same_strong, from_legacy_change, to_legacy_change,
}

-- Named from the side that is to be updated: `local` brings the remote change to the local side.
pub data Action : Type 0 where
  local : Change → Action
  remote : Change → Action
  conflict : Change → Change → Action
  resolved_local : Change → Change → Change → Action
  resolved_remote : Change → Change → Change → Action
  identical : Change → Change → Action

pub data LegacyAction : Type 0 where
  local : LegacyChange → LegacyAction
  remote : LegacyChange → LegacyAction
  conflict : LegacyChange → LegacyChange → LegacyAction
  resolved_local : LegacyChange → LegacyChange → LegacyChange → LegacyAction
  resolved_remote : LegacyChange → LegacyChange → LegacyChange → LegacyAction
  identical : LegacyChange → LegacyChange → LegacyAction

unfoldable pub from_legacy_action : LegacyAction → Action
unfolding from_legacy_change
from_legacy_action (LegacyAction.local c) = local (from_legacy_change c)
from_legacy_action (LegacyAction.remote c) = remote (from_legacy_change c)
from_legacy_action (LegacyAction.conflict a b) =
    conflict (from_legacy_change a) (from_legacy_change b)
from_legacy_action (LegacyAction.resolved_local a b c) =
    resolved_local (from_legacy_change a) (from_legacy_change b) (from_legacy_change c)
from_legacy_action (LegacyAction.resolved_remote a b c) =
    resolved_remote (from_legacy_change a) (from_legacy_change b) (from_legacy_change c)
from_legacy_action (LegacyAction.identical a b) =
    identical (from_legacy_change a) (from_legacy_change b)

unfoldable pub to_legacy_action : Action → LegacyAction
unfolding to_legacy_change
to_legacy_action (local c) = LegacyAction.local (to_legacy_change c)
to_legacy_action (remote c) = LegacyAction.remote (to_legacy_change c)
to_legacy_action (conflict a b) = LegacyAction.conflict (to_legacy_change a) (to_legacy_change b)
to_legacy_action (resolved_local a b c) =
    LegacyAction.resolved_local (to_legacy_change a) (to_legacy_change b) (to_legacy_change c)
to_legacy_action (resolved_remote a b c) =
    LegacyAction.resolved_remote (to_legacy_change a) (to_legacy_change b) (to_legacy_change c)
to_legacy_action (identical a b) = LegacyAction.identical (to_legacy_change a) (to_legacy_change b)

unfoldable pub from_legacy : List LegacyAction → List Action
unfolding from_legacy_action
from_legacy = map from_legacy_action

unfoldable pub to_legacy : List Action → List LegacyAction
unfolding to_legacy_action
to_legacy = map to_legacy_action

unfoldable pub create : Option Change → Option Change → Option Action
create (some lc) none = some (remote lc)
create none (some rc) = some (local rc)
create (some lc) (some rc) = elim (same lc rc) [
  | true ↦ some (identical lc rc)
  | false ↦ some (conflict lc rc)
]
create none none = none

unfoldable pub create_strong : Option Change → Option Change → Option Action
create_strong (some lc) none = some (remote lc)
create_strong none (some rc) = some (local rc)
create_strong (some lc) (some rc) = elim (same_strong lc rc) [
  | true ↦ some (identical lc rc)
  | false ↦ some (conflict lc rc)
]
create_strong none none = none

-- Resolved conflicts count as conflicts.
abbrev pub is_conflict : Action → Bool
is_conflict (conflict _ _) = true
is_conflict (resolved_local _ _ _) = true
is_conflict (resolved_remote _ _ _) = true
is_conflict _ = false

abbrev pub is_unresolved_conflict : Action → Bool
is_unresolved_conflict (conflict _ _) = true
is_unresolved_conflict _ = false

abbrev pub is_identical : Action → Bool
is_identical (identical _ _) = true
is_identical _ = false

abbrev pub action_path : Action → FilePath
action_path (local l) = change_path l
action_path (remote r) = change_path r
action_path (conflict l r) = change_path l
action_path (resolved_local _ _ l) = change_path l
action_path (resolved_remote _ _ r) = change_path r
action_path (identical l r) = change_path l

unfoldable pub num_unresolved_conflicts : List Action → ℕ
num_unresolved_conflicts actions = length (filter is_unresolved_conflict actions)

unfoldable pub num_identical : List Action → ℕ
num_identical actions = length (filter is_identical actions)

-- One action as the other side sees it. The pair kept in a resolved conflict is not swapped.
unfoldable pub reverse_action : Action → Action
reverse_action (local l) = remote l
reverse_action (remote r) = local r
reverse_action (conflict l r) = conflict r l
reverse_action (resolved_local o n l) = resolved_remote o n l
reverse_action (resolved_remote o n r) = resolved_local o n r
reverse_action (identical l r) = identical r l

unfoldable pub reverse : List Action → List Action
unfolding reverse_action
reverse = map reverse_action
