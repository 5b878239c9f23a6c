-- ===== src/Sync/Commit.antt =====
-- `CommitPlan`: what applying a plan reads and changes on one side, listed before anything is done.
-- A `HashSet` of paths is the list of the paths put into it.
pub mod Laws
use duet.Prelude.{
  ℕ, ◌/◌, ◌%◌, List, [], ◌∷◌, Bool, true, false, not, ◌&&◌, Option, none, some, Result, ok, err,
  ◌>>=◌, filter_map, push_some, if◌then◌else◌, ◌==◌,
}
use duet.FilePath.{FilePath}
use duet.Scan.Entry.{Entry, is_file, is_symlink, same_contents, target_eq}
use duet.Scan.Change.{Change, added, removed, modified}
use duet.Actions.{Action, local, remote, conflict, resolved_local, resolved_remote, identical}
use duet.Sync.Blockers.{RemovalBlockerPolicy, ScanPolicy, InvalidPattern, Pattern, new}

-- `mode & 0o200 != 0`
unfoldable pub owner_writable : ℕ → Bool
owner_writable mode = mode / 128 % 2 == 1

-- `mode & 0o300 == 0o300`
unfoldable pub owner_write_execute : ℕ → Bool
owner_write_execute mode = mode / 128 % 2 == 1 && mode / 64 % 2 == 1

-- The change that an action brings to this side, and to the other side.
abbrev pub local_change : Action → Option Change
local_change (local change) = some change
local_change (resolved_local _ _ change) = some change
local_change (remote _) = none
local_change (resolved_remote _ _ _) = none
local_change (conflict _ _) = none
local_change (identical _ _) = none

abbrev pub remote_change : Action → Option Change
remote_change (remote change) = some change
remote_change (resolved_remote _ _ change) = some change
remote_change (local _) = none
remote_change (resolved_local _ _ _) = none
remote_change (conflict _ _) = none
remote_change (identical _ _) = none

abbrev pub and_then : {A B : Type 0} → Option A → (A → Option B) → Option B
and_then none f = none
and_then (some a) f = f a

abbrev pub only_if : {A : Type 0} → Bool → A → Option A
only_if test a = if test then some a else none

unfoldable pub becomes_readonly : Change → Option FilePath
becomes_readonly (modified old new) =
    only_if
      (old.is_dir && (new.is_dir && (owner_writable old.mode && not (owner_writable new.mode))))
      new.path
becomes_readonly (added _) = none
becomes_readonly (removed _) = none

unfoldable pub readonly_directory_metadata_changes : List Action → List FilePath
readonly_directory_metadata_changes actions =
    filter_map (λ action. and_then (remote_change action) becomes_readonly) actions

unfoldable pub becomes_directory : Change → Option FilePath
becomes_directory (added entry) = only_if entry.is_dir entry.path
becomes_directory (modified old new) = only_if (not old.is_dir && new.is_dir) new.path
becomes_directory (removed _) = none

unfoldable pub planned_destination_directories : List Action → List FilePath
planned_destination_directories actions =
    filter_map (λ action. and_then (local_change action) becomes_directory) actions

unfoldable pub removes_destination : Change → Option FilePath
removes_destination (removed entry) = some entry.path
removes_destination (modified old new) = only_if (old.is_dir && not new.is_dir) old.path
removes_destination (added _) = none

unfoldable pub removed_destination_paths : List Action → List FilePath
removed_destination_paths actions =
    filter_map (λ action. and_then (local_change action) removes_destination) actions

unfoldable pub metadata_target : Change → Option FilePath
metadata_target (modified _ new) = some new.path
metadata_target (removed entry) = some entry.path
metadata_target (added _) = none

unfoldable pub apply_metadata_targets : List Action → List FilePath
apply_metadata_targets actions =
    filter_map (λ action. and_then (local_change action) metadata_target) actions

pub record ParentMutation : Type 0 where
  pub path : FilePath
  pub allow_writable_guard : Bool
  pub allow_missing_parent : Bool

abbrev pub mutation : FilePath → Bool → Bool → ParentMutation
mutation path guarded missing = record {
  path = path;
  allow_writable_guard = guarded;
  allow_missing_parent = missing;
}

-- The arms for `Modified`, in their order.
unfoldable pub modified_mutation : Entry → Entry → Option ParentMutation
modified_mutation old new =
    if is_file old && is_file new
    then only_if (not (same_contents old new)) (mutation new.path true false)
    else if old.is_dir && new.is_dir
    then none
    else if is_symlink old && is_symlink new
    then only_if (not (target_eq old.target new.target)) (mutation new.path false false)
    else some (mutation new.path (is_file new) false)

unfoldable pub parent_mutation : Change → Option ParentMutation
parent_mutation (removed entry) = some (mutation entry.path false false)
parent_mutation (added entry) = some (mutation entry.path (is_file entry) true)
parent_mutation (modified old new) = modified_mutation old new

unfoldable pub apply_parent_mutations : List Action → List ParentMutation
apply_parent_mutations actions =
    filter_map (λ action. and_then (local_change action) parent_mutation) actions

pub data SourceDetailKind : Type 0 where
  source_file source_diff : FilePath → SourceDetailKind

unfoldable pub change_detail_kind : Change → Option SourceDetailKind
change_detail_kind (removed _) = none
change_detail_kind (added entry) = only_if (is_file entry) (source_file entry.path)
change_detail_kind (modified e1 e2) =
    if is_file e1 && (is_file e2 && not (same_contents e1 e2))
    then some (source_diff e1.path)
    else if not (is_file e1) && is_file e2
    then some (source_file e2.path)
    else none

unfoldable pub source_detail_kind : Action → Option SourceDetailKind
source_detail_kind action = and_then (remote_change action) change_detail_kind

-- Why a file of this side is read.
pub data ReadReason : Type 0 where
  source_detail destination_signature : ReadReason

abbrev pub SourceRead : Type 0
SourceRead = FilePath × ReadReason

abbrev pub detail_path : SourceDetailKind → FilePath
detail_path (source_file path) = path
detail_path (source_diff path) = path

unfoldable pub signature_read : Change → Option SourceRead
signature_read (modified old new) =
    only_if (is_file old && (is_file new && not (same_contents old new)))
      (old.path, destination_signature)
signature_read (added _) = none
signature_read (removed _) = none

-- The `for` of `CommitPlan::new`.
unfoldable pub source_reads : List Action → List SourceRead
source_reads [] = []
source_reads (action ∷ actions) =
    push_some
      (and_then (source_detail_kind action) (λ kind. some (detail_path kind, source_detail)))
      (push_some (and_then (local_change action) signature_read) (source_reads actions))

pub record CommitPlan (Regex : Type 0) : Type 0 where
  pub removal_policy : RemovalBlockerPolicy Regex
  pub removed_destination_paths : List FilePath
  pub readonly_directory_metadata_changes : List FilePath
  pub planned_destination_directories : List FilePath
  pub metadata_targets : List FilePath
  pub parent_mutations : List ParentMutation
  pub source_reads : List SourceRead

unfoldable pub commit_plan :
    {Regex : Type 0}
    → (Pattern → Option Regex)
    → List Action
    → Option ScanPolicy
    → Bool
    → Result InvalidPattern (CommitPlan Regex)
commit_plan glob_to_regex actions scan_policy prune_ignored = do
  removal_policy ← new glob_to_regex scan_policy prune_ignored
  ok (record {
    removal_policy = removal_policy;
    removed_destination_paths = removed_destination_paths actions;
    readonly_directory_metadata_changes = readonly_directory_metadata_changes actions;
    planned_destination_directories = planned_destination_directories actions;
    metadata_targets = apply_metadata_targets actions;
    parent_mutations = apply_parent_mutations actions;
    source_reads = source_reads actions;
  })
