-- ===== src/Sync/Staging.antt =====
-- The plan of staging waves: consecutive actions that are staged together within the free space of
-- both sides. The two sides' fields of a group or wave are two records of one type.
pub mod Waves
pub mod Capacity
pub mod Monitor
use duet.Prelude.{
  ℕ, ◌+◌, ◌-◌, ◌*◌, ◌/◌, ◌^◌, ◌%◌, min, Bool, true, false, not, ◌&&◌, ◌||◌, ltb, leb, ◌==◌,
  if◌then◌else◌, Option, none, some, List, [], ◌∷◌, Result, ok, err, ◌>>=◌, ◌>>◌, guard,
}
use duet.FilePath.{FilePath}
use duet.Scan.Entry.{Entry}
use duet.Scan.Change.{Change, added, removed, modified, change_is_dir}
use duet.Actions.{Action, local, remote, conflict, resolved_local, resolved_remote, identical}
use duet.Sync.Detail.{
  ApplyDetailKind, file, diff, apply_detail_kind_for_change, change_output_entry, action_change,
}

pub data StagingReserve : Type 0 where
  bytes : ℕ → StagingReserve
  basis_points : ℕ → StagingReserve

pub record StagingPolicy : Type 0 where
  pub limit_bytes : Option ℕ
  pub reserve : StagingReserve

pub record StagingFilesystemInfo : Type 0 where
  pub total_bytes : ℕ
  pub available_bytes : ℕ
  pub available_inodes : ℕ
  pub block_size : ℕ
  pub cow_clone_supported : Bool

pub record StagingBudget : Type 0 where
  pub reserve_bytes : ℕ
  pub usable_bytes : ℕ
  pub budget_bytes : ℕ
  pub cow_clone_supported : Bool

-- `as u64` keeps the low 64 bits; `saturating_sub` stops at 0, as `-` does here.
unfoldable pub reserve_of : StagingReserve → StagingFilesystemInfo → ℕ
reserve_of (bytes b) filesystem = b
reserve_of (basis_points p) filesystem = filesystem.total_bytes * p / 10000 % 2 ^ 64

unfoldable pub limited : Option ℕ → ℕ → ℕ
limited none usable = usable
limited (some limit) usable = min limit usable

-- `StagingPolicy::budget`
unfoldable pub budget : StagingPolicy → StagingFilesystemInfo → StagingBudget
budget policy filesystem =
    let reserve_bytes = reserve_of policy.reserve filesystem in
    let usable_bytes = filesystem.available_bytes - reserve_bytes in
    record {
      reserve_bytes = reserve_bytes;
      usable_bytes = usable_bytes;
      budget_bytes = limited policy.limit_bytes usable_bytes;
      cow_clone_supported = filesystem.cow_clone_supported;
    }

pub data StagingError : Type 0 where
  invalid_budget out_of_order unresolved directory_replacement : StagingError
  overflow no_free_space unsafe_group no_output unreachable_code : StagingError

unfoldable pub validate_staging_budget : StagingBudget → Result StagingError (Unit {0})
validate_staging_budget b = guard (leb b.budget_bytes b.usable_bytes) invalid_budget

unfoldable pub checked_staging_add : ℕ → ℕ → Result StagingError ℕ
checked_staging_add left right =
    if ltb (left + right) (2 ^ 64) then ok (left + right) else err overflow

unfoldable pub is_replacement : Change → Bool
is_replacement (modified old new) = old.is_dir && not new.is_dir
is_replacement (added _) = false
is_replacement (removed _) = false

unfoldable pub action_has_directory_change : Action → Bool
action_has_directory_change (identical l r) = change_is_dir l || change_is_dir r
action_has_directory_change (resolved_local l r c) =
    change_is_dir l || (change_is_dir r || change_is_dir c)
action_has_directory_change (resolved_remote l r c) =
    change_is_dir l || (change_is_dir r || change_is_dir c)
action_has_directory_change (local c) = change_is_dir c
action_has_directory_change (remote c) = change_is_dir c
action_has_directory_change (conflict l _) = change_is_dir l

unfoldable pub action_has_directory_to_nondirectory_change : Action → Bool
action_has_directory_to_nondirectory_change (identical l r) = is_replacement l || is_replacement r
action_has_directory_to_nondirectory_change (resolved_local l r c) =
    is_replacement l || (is_replacement r || is_replacement c)
action_has_directory_to_nondirectory_change (resolved_remote l r c) =
    is_replacement l || (is_replacement r || is_replacement c)
action_has_directory_to_nondirectory_change (local c) = is_replacement c
action_has_directory_to_nondirectory_change (remote c) = is_replacement c
action_has_directory_to_nondirectory_change (conflict l _) = is_replacement l

-- One side of a `StagingDependencyGroup`.
pub record GroupSide : Type 0 where
  pub reconstructed_bytes : ℕ
  pub staged_regular_outputs : ℕ
  pub cow_candidate_outputs : ℕ
  pub requires_cow_capacity : Bool

pub record StagingDependencyGroup : Type 0 where
  pub action_indices : List ℕ
  pub local_side : GroupSide
  pub remote_side : GroupSide
  pub isolated : Bool

abbrev pub empty_side : GroupSide
empty_side = record {
  reconstructed_bytes = 0;
  staged_regular_outputs = 0;
  cow_candidate_outputs = 0;
  requires_cow_capacity = false;
}

abbrev pub is_diff : ApplyDetailKind → ℕ
is_diff diff = 1
is_diff file = 0

-- One output counted, at its full size.
unfoldable pub add_output : ApplyDetailKind → Change → GroupSide → Result StagingError GroupSide
add_output kind change side = elim (change_output_entry change) [
  | err _ ↦ err no_output
  | ok e ↦ (do
    total ← checked_staging_add side.reconstructed_bytes e.size
    outputs ← checked_staging_add side.staged_regular_outputs 1
    ok (record side {
      reconstructed_bytes = total;
      staged_regular_outputs = outputs;
      cow_candidate_outputs = side.cow_candidate_outputs + is_diff kind;
    }))
]

abbrev pub add_local : Change → GroupSide × GroupSide → Result StagingError (GroupSide × GroupSide)
add_local change (l, r) = elim (apply_detail_kind_for_change change) [
  | none ↦ ok (l, r)
  | some kind ↦ (do l' ← add_output kind change l; ok (l', r))
]

abbrev pub add_remote : Change → GroupSide × GroupSide → Result StagingError (GroupSide × GroupSide)
add_remote change (l, r) = elim (apply_detail_kind_for_change change) [
  | none ↦ ok (l, r)
  | some kind ↦ (do r' ← add_output kind change r; ok (l, r'))
]

-- The body of the `for` over a group's actions.
unfoldable pub add_action :
    Action → GroupSide × GroupSide → Result StagingError (GroupSide × GroupSide)
add_action (local c) sides = add_local c sides
add_action (resolved_local _ _ c) sides = add_local c sides
add_action (remote c) sides = add_remote c sides
add_action (resolved_remote _ _ c) sides = add_remote c sides
add_action (identical _ _) sides = ok sides
add_action (conflict _ _) sides = err unreachable_code

unfoldable pub add_actions :
    List Action → GroupSide × GroupSide → Result StagingError (GroupSide × GroupSide)
add_actions [] sides = ok sides
add_actions (a ∷ actions) sides = do sides' ← add_action a sides; add_actions actions sides'

-- Whether the side must stand alone, and whether it needs copy-on-write.
unfoldable pub validate_staging_group_side :
    ℕ → ℕ → Bool → Bool → StagingBudget → Result StagingError (Bool × Bool)
validate_staging_group_side required outputs single_cow_candidate cow_clone_supported b =
    if ltb b.usable_bytes required
    then (if outputs == 1 && (single_cow_candidate && cow_clone_supported)
        then ok (true, true)
        else err no_free_space)
    else if leb required b.budget_bytes
    then ok (false, false)
    else if outputs == 1
    then ok (true, false)
    else err unsafe_group

abbrev pub validate_side : GroupSide → StagingBudget → Result StagingError (Bool × Bool)
validate_side s b =
    validate_staging_group_side s.reconstructed_bytes s.staged_regular_outputs
      (s.cow_candidate_outputs == 1) b.cow_clone_supported b

unfoldable pub staging_dependency_group :
    StagingBudget
    → StagingBudget
    → List ℕ
    → List Action
    → Result StagingError StagingDependencyGroup
staging_dependency_group local_budget remote_budget indices actions = do
  sides ← add_actions actions (empty_side, empty_side)
  l ← validate_side sides.0 local_budget
  r ← validate_side sides.1 remote_budget
  ok (record {
    action_indices = indices;
    local_side = record sides.0 { requires_cow_capacity = l.1 };
    remote_side = record sides.1 { requires_cow_capacity = r.1 };
    isolated = l.0 || r.0;
  })
