-- ===== src/Orchestrator/Strategy/Laws.antt =====
-- A staging policy that was asked for is not dropped, and a plan passes the check before its waves.
use duet.Prelude.{
  ℕ, ◌≤◌, Bool, true, false, ◌&&◌, leb, List, All, All-imp, All-both, Result, ok, err, ◌≡◌, refl,
  arith, inl, inr, Bool-cases,
}
use duet.Actions.{Action}
use duet.Sync.Staging.{limited, StagingPolicy, StagingFilesystemInfo, StagingBudget, budget}
use duet.Sync.Staging.Waves.{StagingWave, StagingWavePlan, WaveSide, plan_staging_waves}
use duet.Sync.Staging.Waves.Fit.{SideFits, WaveFits, plan_staging_waves-WaveFits}
use duet.Orchestrator.Strategy.{
  StagingPolicySource, is_configured, is_staged, ApplyStrategy, Capability, StrategyFault,
  select_apply_strategy, can_use_staging_plan, validate_wave_side_capacity, validate_wave_capacity,
  is_unavailable, staged_apply, staging_capacity, staging_reserve_enforcement,
}

-- A choice that keeps to a staging policy: a staged strategy or an error.
abbrev pub KeepsPolicy : Result StrategyFault ApplyStrategy → Type 0
KeepsPolicy (err _) = Unit
KeepsPolicy (ok strategy) = is_staged strategy ≡ true

abbrev pub UsesPlan : Result StrategyFault Bool → Type 0
UsesPlan (err _) = Unit
UsesPlan (ok used) = used ≡ true

-- Where an option or the profile asks for a staging policy, the run is staged and keeps to the plan
-- of waves, or it ends with an error: no older way of applying is taken in silence.
pub select_apply_strategy-KeepsPolicy :
    (has : Capability → Bool) (can_stream_details migration : Bool) (wave_count : ℕ)
    (source : StagingPolicySource)
    → is_configured source ≡ true
    → KeepsPolicy (select_apply_strategy has can_stream_details source)
      × UsesPlan (can_use_staging_plan has wave_count migration source)
select_apply_strategy-KeepsPolicy has can_stream_details migration wave_count source c =
    (strategy can_stream_details, plan)
  where
    strategy : (can : Bool) → KeepsPolicy (select_apply_strategy has can source)
    strategy false = unfold select_apply_strategy in rw c tt
    strategy true =
        elim (Bool-cases
          (has staged_apply && (has staging_capacity && has staging_reserve_enforcement))) [
            | inl y ↦ unfold select_apply_strategy is_staged in rw y refl
            | inr n ↦ unfold select_apply_strategy in rw (n, c) tt
          ]

    plan : UsesPlan (can_use_staging_plan has wave_count migration source)
    plan = elim (Bool-cases (leb wave_count 1)) [
      | inl y ↦ unfold can_use_staging_plan in rw y refl
      | inr n ↦ elim (Bool-cases (is_unavailable has migration)) [
        | inl u ↦ unfold can_use_staging_plan in rw (n, u, c) tt
        | inr u ↦ unfold can_use_staging_plan in rw (n, u) refl
      ]
    ]

side_fits :
    (b : StagingBudget) (side : WaveSide) (inodes : ℕ) (known : Bool)
    → b.budget_bytes ≤ b.usable_bytes
    → SideFits b side
    → side.staged_regular_outputs ≤ inodes
    → validate_wave_side_capacity side b inodes known ≡ ok tt
unfolding validate_wave_side_capacity
side_fits b side inodes known h f n = ground (arith, h, f, n)

budget_bytes-bound :
    (policy : StagingPolicy) (filesystem : StagingFilesystemInfo)
    → (budget policy filesystem).budget_bytes ≤ (budget policy filesystem).usable_bytes
unfolding budget limited
budget_bytes-bound policy filesystem = ground arith

-- The inodes of both sides are enough for the outputs of a wave.
abbrev pub HasInodes : StagingFilesystemInfo → StagingFilesystemInfo → StagingWave → Type 0
HasInodes local_filesystem remote_filesystem wave =
    (wave.local_side.staged_regular_outputs ≤ local_filesystem.available_inodes)
    × (wave.remote_side.staged_regular_outputs ≤ remote_filesystem.available_inodes)

-- A plan made for a policy and the space of both sides passes the check before each of its waves, as
-- long as that space is what it was and there are inodes for the outputs of each wave.
pub plan_staging_waves-validate_wave_capacity :
    (policy : StagingPolicy) (local_filesystem remote_filesystem : StagingFilesystemInfo)
    (actions : List Action) (plan : StagingWavePlan) (known : Bool)
    → plan_staging_waves (budget policy local_filesystem) (budget policy remote_filesystem) actions
      ≡ ok plan
    → All (HasInodes local_filesystem remote_filesystem) plan.waves
    → All
        (λ w. validate_wave_capacity w policy local_filesystem remote_filesystem known ≡ ok tt)
        plan.waves
plan_staging_waves-validate_wave_capacity policy lf rf actions plan known h inodes =
    All-imp passes plan.waves (
      (All-both (WaveFits (budget policy lf) (budget policy rf)) (HasInodes lf rf)
          (λ w. WaveFits (budget policy lf) (budget policy rf) w × HasInodes lf rf w)
          (λ w. (λ p. p, λ p. p)) plan.waves).0
        (plan_staging_waves-WaveFits (budget policy lf) (budget policy rf) actions plan h, inodes))
  where
    passes :
        (w : StagingWave)
        → WaveFits (budget policy lf) (budget policy rf) w × HasInodes lf rf w
        → validate_wave_capacity w policy lf rf known ≡ ok tt
    passes w ((fl, fr), (nl, nr)) =
        unfold validate_wave_capacity in
        rw
          (
            side_fits (budget policy lf) w.local_side lf.available_inodes true
                (budget_bytes-bound policy lf) fl nl,
            side_fits (budget policy rf) w.remote_side rf.available_inodes known
                (budget_bytes-bound policy rf) fr nr,
          )
          refl
