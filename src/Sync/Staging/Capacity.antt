-- ===== src/Sync/Staging/Capacity.antt =====
-- `staging_write_capacity`: the free space that a write asks for.
pub mod Laws
use duet.Prelude.{ℕ, ◌+◌, ◌-◌, ◌*◌, ◌/◌, ◌^◌, max, ltb, if◌then◌else◌, Option, none, some}
use duet.Sync.Staging.{StagingPolicy, StagingFilesystemInfo, budget}

pub record StagingWriteCapacity : Type 0 where
  pub reserve_bytes : ℕ
  pub required_bytes : ℕ
  pub available_above_reserve : ℕ

abbrev pub u64_max : ℕ
u64_max = 2 ^ 64 - 1

-- `checked_add` and `checked_mul`, of which only the result is tested here.
unfoldable pub checked : ℕ → Option ℕ
checked n = if ltb n (2 ^ 64) then some n else none

abbrev pub saturating : ℕ → ℕ
saturating n = if ltb n (2 ^ 64) then n else u64_max

-- The request rounded up to whole blocks.
unfoldable pub rounded_bytes : ℕ → ℕ → ℕ
rounded_bytes requested block_size = elim (checked (requested + (block_size - 1))) [
  | none ↦ u64_max
  | some total ↦ elim (checked (total / block_size * block_size)) [
    | none ↦ u64_max
    | some rounded ↦ rounded
  ]
]

unfoldable pub staging_write_capacity :
    StagingPolicy → StagingFilesystemInfo → ℕ → StagingWriteCapacity
staging_write_capacity policy filesystem requested_bytes =
    let block_size = max filesystem.block_size 1 in
    let reserve_bytes = (budget policy filesystem).reserve_bytes in
    record {
      reserve_bytes = reserve_bytes;
      required_bytes = saturating (rounded_bytes requested_bytes block_size + block_size);
      available_above_reserve = filesystem.available_bytes - reserve_bytes;
    }
