-- ===== src/Orchestrator/Strategy.antt =====
-- The choice between staged and older ways to apply a plan, and the check of the free space before a
-- wave. Of the server's information only its list of capabilities is read; `has` tests it.
pub mod Laws
use duet.Prelude.{
  ℕ, Bool, true, false, not, ◌&&◌, ◌||◌, ◌==◌, leb, ltb, Option, none, some, Result, ok, err, guard,
  ◌>>=◌, ◌>>◌, if◌then◌else◌,
}
use duet.Sync.Staging.{StagingPolicy, StagingReserve, StagingFilesystemInfo, StagingBudget, budget}
use duet.Sync.Staging.Waves.{StagingWave, WaveSide}

-- The fields of `SyncOptions` about staging.
pub record StagingOptions : Type 0 where
  pub staging_policy : StagingPolicy
  pub staging_policy_explicit : Bool
  pub staging_reserve_explicit : Bool

-- The options after the call, and whether the profile's reserve was taken.
unfoldable pub apply_profile_staging_reserve :
    StagingOptions → Option StagingReserve → StagingOptions × Bool
apply_profile_staging_reserve options none = (options, false)
apply_profile_staging_reserve options (some reserve) =
    if options.staging_reserve_explicit then (options, false) else (
      record options {
        staging_policy = record options.staging_policy { reserve = reserve };
        staging_policy_explicit = true;
      },
      true,
    )

pub data StagingPolicySource : Type 0 where
  default_policy cli_limit cli_reserve cli_limit_and_reserve : StagingPolicySource
  profile_policy cli_limit_and_profile : StagingPolicySource

-- Whether `configured_by` names a setting.
unfoldable pub is_configured : StagingPolicySource → Bool
is_configured default_policy = false
is_configured cli_limit = true
is_configured cli_reserve = true
is_configured cli_limit_and_reserve = true
is_configured profile_policy = true
is_configured cli_limit_and_profile = true

pub data ApplyStrategy : Type 0 where
  staged_stream legacy_stream legacy_non_stream : ApplyStrategy

unfoldable pub is_staged : ApplyStrategy → Bool
is_staged staged_stream = true
is_staged legacy_stream = false
is_staged legacy_non_stream = false

-- The capabilities asked for.
pub data Capability : Type 0 where
  staged_apply staging_capacity staging_reserve_enforcement checkpointed_staging : Capability

pub data StrategyFault : Type 0 where
  needs_streamable_plan cannot_enforce needs_more_waves : StrategyFault

unfoldable pub select_apply_strategy :
    (Capability → Bool) → Bool → StagingPolicySource → Result StrategyFault ApplyStrategy
select_apply_strategy has can_stream_details source =
    if not can_stream_details
    then (if is_configured source then err needs_streamable_plan else ok legacy_non_stream)
    else if has staged_apply && (has staging_capacity && has staging_reserve_enforcement)
    then ok staged_stream
    else if is_configured source
    then err cannot_enforce
    else ok legacy_stream

-- Whether something keeps a plan of several waves from being used.
unfoldable pub is_unavailable : (Capability → Bool) → Bool → Bool
is_unavailable has migration = if migration then true else not (has checkpointed_staging)

unfoldable pub can_use_staging_plan :
    (Capability → Bool) → ℕ → Bool → StagingPolicySource → Result StrategyFault Bool
can_use_staging_plan has wave_count migration source =
    if leb wave_count 1
    then ok true
    else if not (is_unavailable has migration)
    then ok true
    else if is_configured source
    then err needs_more_waves
    else ok false

pub data CapacityFault : Type 0 where
  beyond_usable beyond_budget too_few_inodes : CapacityFault

unfoldable pub validate_wave_side_capacity :
    WaveSide → StagingBudget → ℕ → Bool → Result CapacityFault (Unit {0})
validate_wave_side_capacity side b available_inodes inode_capacity_known = do
  guard (not (ltb b.usable_bytes side.reconstructed_bytes && not side.requires_cow_capacity))
      beyond_usable
  guard (not (ltb b.budget_bytes side.reconstructed_bytes && not side.exceeds_budget)) beyond_budget
  guard
      (not (
        (inode_capacity_known || not (available_inodes == 0))
        && ltb available_inodes side.staged_regular_outputs))
      too_few_inodes

unfoldable pub validate_wave_capacity :
    StagingWave
    → StagingPolicy
    → StagingFilesystemInfo
    → StagingFilesystemInfo
    → Bool
    → Result CapacityFault (Unit {0})
validate_wave_capacity wave policy local_filesystem remote_filesystem remote_inode_capacity_known =
    do
      validate_wave_side_capacity wave.local_side (budget policy local_filesystem)
          local_filesystem.available_inodes true
      validate_wave_side_capacity wave.remote_side (budget policy remote_filesystem)
          remote_filesystem.available_inodes remote_inode_capacity_known
