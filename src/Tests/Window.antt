-- ===== src/Tests/Window.antt =====
-- Signature windows and the space for writes.
use duet.Prelude.{[], ◌∷◌, ℕ, ◌+◌, ◌-◌, ◌^◌, ◌≤◌, none, true, ok, err, ◌≡◌, refl, arith}
use duet.Sync.Window.{overflow, add_u64, mean, descend, integer_sqrt}
use duet.Sync.Window.Laws.{IsSqrt, integer_sqrt_lem}
use duet.Sync.Staging.{
  reserve_of, limited, StagingPolicy, basis_points, StagingFilesystemInfo, budget,
}
use duet.Sync.Staging.Capacity.{checked, rounded_bytes, staging_write_capacity}
use duet.Sync.Staging.Monitor.{
  StagingSpaceMonitorState, not_available, refresh_with_filesystem, checks, check,
  round_staging_charge, recheck, refresh,
}
use duet.Sync.Staging.Monitor.Laws.{total, checks_lem}

root_of_10 : integer_sqrt 10 ≡ ok 3
unfolding integer_sqrt descend mean add_u64
root_of_10 = refl

-- The largest size of all: the first estimate does not fit.
root_of_u64_max : integer_sqrt (2 ^ 64 - 1) ≡ err overflow
unfolding integer_sqrt descend mean add_u64
root_of_u64_max = refl

integer_sqrt_lem_example : (r : ℕ) × (integer_sqrt 1000 ≡ ok r) × IsSqrt 1000 r
integer_sqrt_lem_example = integer_sqrt_lem 1000 (omega arith)

abbrev five_percent : StagingPolicy
five_percent = record { limit_bytes = none; reserve = basis_points 500 }

abbrev disk : StagingFilesystemInfo
disk = record {
  total_bytes = 1000;
  available_bytes = 400;
  available_inodes = 10;
  block_size = 16;
  cow_clone_supported = true;
}

abbrev seen : StagingSpaceMonitorState
seen = record { block_size = 16; remaining_credit = 222 }

seen_after_100 : refresh_with_filesystem five_percent disk 100 ≡ ok seen
unfolding refresh_with_filesystem staging_write_capacity round_staging_charge rounded_bytes checked
    budget reserve_of limited
seen_after_100 = refl

on_credit :
    checks five_percent (err not_available) (50 ∷ 100 ∷ []) seen
    ≡ ok record { block_size = 16; remaining_credit = 46 }
unfolding checks check round_staging_charge rounded_bytes checked
on_credit = refl

recheck_without_answer : recheck five_percent (err not_available) ≡ err not_available
unfolding recheck refresh
recheck_without_answer = refl

checks_lem_example :
    total (100 ∷ 50 ∷ 100 ∷ []) + (budget five_percent disk).reserve_bytes ≤ disk.available_bytes
checks_lem_example =
    checks_lem five_percent disk 100 (50 ∷ 100 ∷ []) seen
      record { block_size = 16; remaining_credit = 46 } (omega arith)
      (omega arith, (omega arith, (omega arith, tt))) seen_after_100 on_credit
