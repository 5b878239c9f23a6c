-- ===== src/Sync/Staging/Monitor.antt =====
-- `StagingSpaceMonitor`: writes are charged to a credit, and the file system is asked again where
-- the credit does not suffice. What asking it gives is an argument, `statvfs`. The lock is not
-- modelled: a check holds it from its start to its end.
pub mod Laws
use duet.Prelude.{
  ℕ, ◌+◌, ◌-◌, ◌*◌, ◌/◌, min, max, Bool, true, false, not, ◌&&◌, ltb, leb, ◌==◌, if◌then◌else◌,
  List, [], ◌∷◌, Result, ok, err, ◌>>=◌,
}
use duet.Sync.Staging.{StagingPolicy, StagingFilesystemInfo}
use duet.Sync.Staging.Capacity.{rounded_bytes, staging_write_capacity}

pub record StagingSpaceMonitorState : Type 0 where
  pub block_size : ℕ
  pub remaining_credit : ℕ

pub data MonitorFault : Type 0 where
  not_available aborted_before_commit : MonitorFault

abbrev pub staging_capacity_window_bytes : ℕ
staging_capacity_window_bytes = 64 * 1024 * 1024

-- The rounding is that of `staging_write_capacity`.
unfoldable pub round_staging_charge : ℕ → ℕ → ℕ
round_staging_charge requested_bytes block_size =
    max (rounded_bytes requested_bytes block_size) block_size

unfoldable pub refresh_with_filesystem :
    StagingPolicy → StagingFilesystemInfo → ℕ → Result MonitorFault StagingSpaceMonitorState
refresh_with_filesystem policy filesystem requested_bytes =
    let block_size = max filesystem.block_size 1 in
    let charged_bytes = round_staging_charge requested_bytes block_size in
    let capacity = staging_write_capacity policy filesystem requested_bytes in
    let spendable = capacity.available_above_reserve - block_size in
    let window = max staging_capacity_window_bytes charged_bytes in
    if ltb capacity.available_above_reserve capacity.required_bytes
    then err aborted_before_commit
    else ok
        record { block_size = block_size; remaining_credit = min spendable window - charged_bytes }

unfoldable pub refresh :
    StagingPolicy
    → Result MonitorFault StagingFilesystemInfo
    → ℕ
    → Result MonitorFault StagingSpaceMonitorState
refresh policy statvfs requested_bytes =
    statvfs >>= λ filesystem. refresh_with_filesystem policy filesystem requested_bytes

unfoldable pub recheck :
    StagingPolicy
    → Result MonitorFault StagingFilesystemInfo
    → Result MonitorFault StagingSpaceMonitorState
recheck policy statvfs = refresh policy statvfs 0

unfoldable pub check :
    StagingPolicy
    → Result MonitorFault StagingFilesystemInfo
    → ℕ
    → StagingSpaceMonitorState
    → Result MonitorFault StagingSpaceMonitorState
check policy statvfs requested_bytes state =
    let charged_bytes = round_staging_charge requested_bytes state.block_size in
    if not (state.block_size == 0) && leb charged_bytes state.remaining_credit
    then ok record {
      block_size = state.block_size;
      remaining_credit = state.remaining_credit - charged_bytes;
    }
    else refresh policy statvfs requested_bytes

-- The writes of a run, where asking the file system gives `statvfs`.
unfoldable pub checks :
    StagingPolicy
    → Result MonitorFault StagingFilesystemInfo
    → List ℕ
    → StagingSpaceMonitorState
    → Result MonitorFault StagingSpaceMonitorState
checks policy statvfs [] state = ok state
checks policy statvfs (requested_bytes ∷ requests) state =
    check policy statvfs requested_bytes state >>= checks policy statvfs requests
