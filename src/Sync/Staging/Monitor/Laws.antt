-- ===== src/Sync/Staging/Monitor/Laws.antt =====
-- What is written on credit stays below the reserve of the policy.
use duet.Prelude.{
  ℕ, ◌+◌, ◌^◌, ◌≤◌, ◌<◌, max, List, [], ◌∷◌, ok, err, ◌≡◌, All, arith, >>=-eq-ok, subst, sym,
}
use duet.Sync.Staging.{StagingPolicy, StagingFilesystemInfo, budget}
use duet.Sync.Staging.Capacity.{staging_write_capacity}
use duet.Sync.Staging.Capacity.Laws.{rounded_bytes_lem, staging_write_capacity_lem}
use duet.Sync.Staging.Monitor.{
  StagingSpaceMonitorState, not_available, round_staging_charge, check, checks, refresh,
  refresh_with_filesystem,
}

abbrev pub total : List ℕ → ℕ
total [] = 0
total (n ∷ numbers) = n + total numbers

abbrev pub IsU64 : ℕ → Type 0
IsU64 n = n < 2 ^ 64

charge_lem :
    (requested block : ℕ)
    → requested < 2 ^ 64
    → 0 < block
    → block < 2 ^ 64
    → requested ≤ round_staging_charge requested block
unfolding round_staging_charge
charge_lem requested block h k l =
    let (low, _) = rounded_bytes_lem requested block k h l in ground (arith, low)

refresh_lem :
    (policy : StagingPolicy) (filesystem : StagingFilesystemInfo) (requested : ℕ)
    (state : StagingSpaceMonitorState)
    → filesystem.block_size < 2 ^ 64
    → requested < 2 ^ 64
    → refresh_with_filesystem policy filesystem requested ≡ ok state
    → (state.block_size ≡ max filesystem.block_size 1)
      × (requested + state.remaining_credit + (budget policy filesystem).reserve_bytes
          ≤ filesystem.available_bytes)
unfolding refresh_with_filesystem staging_write_capacity
refresh_lem policy filesystem requested state k l h =
    let low =
      charge_lem requested (max filesystem.block_size 1) l (omega arith) (omega (arith, k)) in
    let (need, _, _, _) = staging_write_capacity_lem policy filesystem requested l k in
    (ground (arith, low, need, h), ground (arith, low, need, h))

-- A check that does not ask the file system spends the credit.
check_lem :
    (policy : StagingPolicy) (requested : ℕ) (state next : StagingSpaceMonitorState)
    → state.block_size < 2 ^ 64
    → requested < 2 ^ 64
    → check policy (err not_available) requested state ≡ ok next
    → (next.block_size ≡ state.block_size)
      × (requested + next.remaining_credit ≤ state.remaining_credit)
unfolding check refresh
check_lem policy requested state next k l h =
    let low = λ (k0 : 0 < state.block_size). charge_lem requested state.block_size l k0 k in
    (ground (arith, low, h), ground (arith, low, h))

checks-err :
    (policy : StagingPolicy) (requests : List ℕ) (state last : StagingSpaceMonitorState)
    → state.block_size < 2 ^ 64
    → All IsU64 requests
    → checks policy (err not_available) requests state ≡ ok last
    → total requests + last.remaining_credit ≤ state.remaining_credit
unfolding checks
checks-err policy [] state last k l h = ground (arith, h)
checks-err policy (n ∷ requests) state last k (l, ls) h =
    let (next, first, rest) =
      >>=-eq-ok (check policy (err not_available) n state)
        (checks policy (err not_available) requests) h in
    let (same, spent) = check_lem policy n state next k l first in
    let later =
      checks-err policy requests next last (subst (λ b. b < 2 ^ 64) (sym same) k) ls rest in
    omega (arith, spent, later)

-- After the monitor has seen a file system, for a first write of any size, the writes that pass its
-- checks without asking the file system again fit, together with the first one and with the reserve
-- of the policy, in what was available; the sizes and the block size are those of 64 bits.
pub checks_lem :
    (policy : StagingPolicy) (filesystem : StagingFilesystemInfo) (first : ℕ) (requests : List ℕ)
    (state last : StagingSpaceMonitorState)
    → filesystem.block_size < 2 ^ 64
    → All IsU64 (first ∷ requests)
    → refresh_with_filesystem policy filesystem first ≡ ok state
    → checks policy (err not_available) requests state ≡ ok last
    → total (first ∷ requests) + (budget policy filesystem).reserve_bytes
      ≤ filesystem.available_bytes
checks_lem policy filesystem first requests state last k (l, ls) h g =
    let (block, room) = refresh_lem policy filesystem first state k l h in
    let small = subst (λ b. b < 2 ^ 64) (sym block) (omega (arith, k)) in
    let spent = checks-err policy requests state last small ls g in omega (arith, room, spent)
