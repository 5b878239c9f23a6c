-- ===== src/Sync/Detail.antt =====
-- What applying a change needs of the other side.
use duet.Prelude.{not, ◌&&◌, Option, none, some, Result, ok, err, if◌then◌else◌}
use duet.Scan.Entry.{Entry, is_file, same_contents}
use duet.Scan.Change.{Change, added, removed, modified}
use duet.Actions.{Action, local, remote, conflict, resolved_local, resolved_remote, identical}

pub data ApplyDetailKind : Type 0 where
  file diff : ApplyDetailKind

unfoldable pub apply_detail_kind_for_change : Change → Option ApplyDetailKind
apply_detail_kind_for_change (removed _) = none
apply_detail_kind_for_change (added e) = if is_file e then some file else none
apply_detail_kind_for_change (modified e1 e2) =
    if is_file e1 && (is_file e2 && not (same_contents e1 e2))
    then some diff
    else if not (is_file e1) && is_file e2
    then some file
    else none

unfoldable pub apply_detail_kind : Action → Option ApplyDetailKind
apply_detail_kind (local c) = apply_detail_kind_for_change c
apply_detail_kind (resolved_local _ _ c) = apply_detail_kind_for_change c
apply_detail_kind _ = none

pub data NoOutput : Type 0 where
  no_regular_output : NoOutput

unfoldable pub change_output_entry : Change → Result NoOutput Entry
change_output_entry (added e) = if is_file e then ok e else err no_regular_output
change_output_entry (modified _ e) = if is_file e then ok e else err no_regular_output
change_output_entry (removed _) = err no_regular_output

unfoldable pub action_output_entry : Action → Result NoOutput Entry
action_output_entry (local c) = change_output_entry c
action_output_entry (resolved_local _ _ c) = change_output_entry c
action_output_entry _ = err no_regular_output

abbrev pub action_change : Action → Change
action_change (local c) = c
action_change (remote c) = c
action_change (resolved_local _ _ c) = c
action_change (resolved_remote _ _ c) = c
action_change (conflict left _) = left
action_change (identical left _) = left
