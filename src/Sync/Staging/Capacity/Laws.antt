-- ===== src/Sync/Staging/Capacity/Laws.antt =====
-- Bounds of the space asked for and of a policy's budget.
use duet.Prelude.{ℕ, ◌+◌, ◌-◌, ◌*◌, ◌/◌, ◌^◌, ◌≤◌, ◌<◌, max, ◌≡◌, refl, arith, ok}
use duet.Sync.Staging.{
  StagingPolicy, StagingFilesystemInfo, budget, limited, validate_staging_budget,
}
use duet.Sync.Staging.Capacity.{checked, rounded_bytes, staging_write_capacity}

div_mul : (n x : ℕ) → 0 < x → (n / x * x ≤ n) × (n < n / x * x + x)
div_mul n x h = grind arith

pub rounded_bytes_lem :
    (requested block : ℕ)
    → 0 < block
    → requested < 2 ^ 64
    → block < 2 ^ 64
    → (requested ≤ rounded_bytes requested block)
      × (rounded_bytes requested block < requested + block)
unfolding rounded_bytes checked
rounded_bytes_lem requested block h k l =
    ground (arith, div_mul (requested + (block - 1)) block h, h, k, l)

pub staging_write_capacity_lem :
    (policy : StagingPolicy) (filesystem : StagingFilesystemInfo) (requested : ℕ)
    → requested < 2 ^ 64
    → filesystem.block_size < 2 ^ 64
    → (requested ≤ (staging_write_capacity policy filesystem requested).required_bytes)
      × ((staging_write_capacity policy filesystem requested).required_bytes < 2 ^ 64)
      × ((staging_write_capacity policy filesystem requested).required_bytes
          < requested + 2 * max filesystem.block_size 1)
      × ((staging_write_capacity policy filesystem requested).available_above_reserve
          ≡ (budget policy filesystem).usable_bytes)
unfolding staging_write_capacity budget
staging_write_capacity_lem policy filesystem requested h k =
    let (low, high) =
      rounded_bytes_lem requested (max filesystem.block_size 1) (omega arith) h
        (omega (arith, k)) in
    (
      ground (arith, low, high, h, k),
      ground (arith, low, high, h, k),
      ground (arith, low, high, h, k),
      refl,
    )

-- The budget that a policy makes of a file system passes the planner's validation, and it never uses
-- more than is available.
pub budget_lem :
    (policy : StagingPolicy) (filesystem : StagingFilesystemInfo)
    → (validate_staging_budget (budget policy filesystem) ≡ ok tt)
      × ((budget policy filesystem).budget_bytes ≤ filesystem.available_bytes)
unfolding budget limited validate_staging_budget
budget_lem policy filesystem = (ground arith, ground arith)
