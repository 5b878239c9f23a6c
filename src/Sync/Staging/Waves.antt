-- ===== src/Sync/Staging/Waves.antt =====
-- `plan_staging_waves`: the groups of a plan, and their packing into waves.
pub mod Cover
pub mod Fit
pub mod Outputs
pub mod Counted
pub mod Filled
use Prim.Native.Nat.Ordering.{lt, eq, gt}
use duet.Prelude.{
  ℕ, zero, suc, ◌+◌, Bool, true, false, not, ◌&&◌, ◌||◌, ltb, leb, if◌then◌else◌, Option, none,
  some, List, [], ◌∷◌, ◌++◌, length, Result, ok, err, ◌>>=◌, ◌>>◌, guard,
}
use duet.Ord.{Ord}
use duet.Ord.Lexicographic.{list_ord, starts_with}
use duet.FilePath.{FilePath, component_ord}
use duet.Actions.{Action, action_path, is_unresolved_conflict}
use duet.Sync.Staging.{
  StagingBudget, StagingError, StagingDependencyGroup, GroupSide, validate_staging_budget,
  checked_staging_add, action_has_directory_change, action_has_directory_to_nondirectory_change,
  staging_dependency_group,
}

-- One side of a `StagingWave`.
pub record WaveSide : Type 0 where
  pub reconstructed_bytes : ℕ
  pub staged_regular_outputs : ℕ
  pub exceeds_budget : Bool
  pub requires_cow_capacity : Bool

pub record StagingWave : Type 0 where
  pub action_indices : List ℕ
  pub local_side : WaveSide
  pub remote_side : WaveSide

-- The bytes and outputs of one side, as the plan totals them.
pub record Totals : Type 0 where
  pub reconstructed_bytes : ℕ
  pub staged_regular_outputs : ℕ

pub record StagingWavePlan : Type 0 where
  pub waves : List StagingWave
  pub local_totals : Totals
  pub remote_totals : Totals

-- `actions[index - 1].path() >= action.path()`
unfoldable pub out_of_order_after : Option FilePath → FilePath → Bool
out_of_order_after none path = false
out_of_order_after (some previous) path = elim (list_ord.cmp previous path) [
  | lt ↦ false
  | eq ↦ true
  | gt ↦ true
]

-- The first `for`: the path before, and the actions to come.
unfoldable pub check_actions : Option FilePath → List Action → Result StagingError (Unit {0})
check_actions previous [] = ok tt
check_actions previous (a ∷ actions) = do
  guard (not (out_of_order_after previous (action_path a))) StagingError.out_of_order
  guard (not (is_unresolved_conflict a)) StagingError.unresolved
  guard (not (action_has_directory_to_nondirectory_change a)) StagingError.directory_replacement
  check_actions (some (action_path a)) actions

-- The leading actions under a path, and the rest.
unfoldable pub span_under : FilePath → List Action → List Action × List Action
span_under path [] = ([], [])
span_under path (a ∷ actions) =
    let (under, rest) = span_under path actions in
    if starts_with (action_path a) path then (a ∷ under, rest) else ([], a ∷ actions)

-- `(start..end).collect()`, for so many indices.
unfoldable pub range : ℕ → ℕ → List ℕ
range start zero = []
range start (suc n) = start ∷ range (suc start) n

-- The action at `start` with what goes with it, and the rest.
unfoldable pub next_group : Action → List Action → List Action × List Action
next_group a actions =
    let (under, rest) = span_under (action_path a) actions in
    if action_has_directory_change a then (a ∷ under, rest) else (a ∷ [], actions)

module _ (local_budget remote_budget : StagingBudget) where
  -- The `while` over the actions from index `start` on; the fuel is their number.
  unfoldable pub collect_groups :
      ℕ → ℕ → List Action → Result StagingError (List StagingDependencyGroup)
  collect_groups fuel start [] = ok []
  collect_groups zero start (a ∷ actions) = ok []
  collect_groups (suc fuel) start (a ∷ actions) =
      let (members, rest) = next_group a actions in
      let size = length members in
      (do
        group ← staging_dependency_group local_budget remote_budget (range start size) members
        groups ← collect_groups fuel (start + size) rest
        ok (group ∷ groups))

  abbrev pub wave_side : GroupSide → StagingBudget → WaveSide
  wave_side s b = record {
    reconstructed_bytes = s.reconstructed_bytes;
    staged_regular_outputs = s.staged_regular_outputs;
    exceeds_budget = ltb b.budget_bytes s.reconstructed_bytes;
    requires_cow_capacity = s.requires_cow_capacity;
  }

  unfoldable pub staging_wave_from_group : StagingDependencyGroup → StagingWave
  staging_wave_from_group g = record {
    action_indices = g.action_indices;
    local_side = wave_side g.local_side local_budget;
    remote_side = wave_side g.remote_side remote_budget;
  }

  -- The plan's totals with a group's added: both sides' bytes, then both sides' outputs.
  unfoldable pub add_totals :
      StagingWavePlan → StagingDependencyGroup → Result StagingError StagingWavePlan
  add_totals plan g = do
    lb ← checked_staging_add plan.local_totals.reconstructed_bytes g.local_side.reconstructed_bytes
    rb ←
        checked_staging_add plan.remote_totals.reconstructed_bytes g.remote_side.reconstructed_bytes
    lo ←
        checked_staging_add plan.local_totals.staged_regular_outputs
          g.local_side.staged_regular_outputs
    ro ←
        checked_staging_add plan.remote_totals.staged_regular_outputs
          g.remote_side.staged_regular_outputs
    ok (record plan {
      local_totals = record { reconstructed_bytes = lb; staged_regular_outputs = lo };
      remote_totals = record { reconstructed_bytes = rb; staged_regular_outputs = ro };
    })

  abbrev pub push_wave : List StagingWave → Option StagingWave → List StagingWave
  push_wave waves none = waves
  push_wave waves (some w) = waves ++ w ∷ []

  -- A group that joins the pending wave, whose bytes are then `lb` and `rb`.
  unfoldable pub join_wave :
      StagingWave → StagingDependencyGroup → ℕ → ℕ → Result StagingError StagingWave
  join_wave w g lb rb = do
    lo ← checked_staging_add w.local_side.staged_regular_outputs g.local_side.staged_regular_outputs
    ro ←
        checked_staging_add w.remote_side.staged_regular_outputs
          g.remote_side.staged_regular_outputs
    ok (record {
      action_indices = w.action_indices ++ g.action_indices;
      local_side = record w.local_side { reconstructed_bytes = lb; staged_regular_outputs = lo };
      remote_side = record w.remote_side { reconstructed_bytes = rb; staged_regular_outputs = ro };
    })

  -- The waves that are finished and the one that is pending.
  abbrev pub Packing : Type 0
  Packing = List StagingWave × Option StagingWave

  -- A group that is not isolated.
  unfoldable pub pack_group : Packing → StagingDependencyGroup → Result StagingError Packing
  pack_group (waves, none) g = ok (waves, some (staging_wave_from_group g))
  pack_group (waves, some w) g = do
    lb ← checked_staging_add w.local_side.reconstructed_bytes g.local_side.reconstructed_bytes
    rb ← checked_staging_add w.remote_side.reconstructed_bytes g.remote_side.reconstructed_bytes
    if leb lb local_budget.budget_bytes && leb rb remote_budget.budget_bytes
        then (do joined ← join_wave w g lb rb; ok (waves, some joined))
        else ok (waves ++ w ∷ [], some (staging_wave_from_group g))

  unfoldable pub place_group : Packing → StagingDependencyGroup → Result StagingError Packing
  place_group (waves, pending) g = elim g.isolated [
    | true ↦ ok (push_wave waves pending ++ staging_wave_from_group g ∷ [], none)
    | false ↦ pack_group (waves, pending) g
  ]

  -- The `for` over the groups, with the last pending wave pushed.
  unfoldable pub pack_groups :
      StagingWavePlan
      → Option StagingWave
      → List StagingDependencyGroup
      → Result StagingError StagingWavePlan
  pack_groups plan pending [] = ok (record plan { waves = push_wave plan.waves pending })
  pack_groups plan pending (g ∷ groups) = do
    counted ← add_totals plan g
    packed ← place_group (counted.waves, pending) g
    pack_groups (record counted { waves = packed.0 }) packed.1 groups

  abbrev pub empty_plan : StagingWavePlan
  empty_plan = record {
    waves = [];
    local_totals = record { reconstructed_bytes = 0; staged_regular_outputs = 0 };
    remote_totals = record { reconstructed_bytes = 0; staged_regular_outputs = 0 };
  }

  unfoldable pub plan_staging_waves : List Action → Result StagingError StagingWavePlan
  plan_staging_waves actions = do
    validate_staging_budget local_budget
    validate_staging_budget remote_budget
    check_actions none actions
    groups ← collect_groups (length actions) 0 actions
    pack_groups empty_plan none groups
