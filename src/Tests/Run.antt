-- ===== src/Tests/Run.antt =====
-- The scheduler of a scan, and the choice of a strategy.
use duet.Prelude.{
  ℕ, ◌+◌, ◌<◌, List, [], ◌∷◌, ◌≡◌, refl, arith, Bool, true, false, Result, ok, ok-injective, subst,
}
use duet.FilePath.{FilePath}
use duet.Scan.Scheduler.{ScanJob, run_scan_scheduler}
use duet.Scan.Scheduler.Laws.{sum, Outcome, run_scan_scheduler_lem}
use duet.Orchestrator.Strategy.{
  Capability, checkpointed_staging, profile_policy, select_apply_strategy, can_use_staging_plan,
  is_configured,
}
use duet.Orchestrator.Strategy.Laws.{KeepsPolicy, UsesPlan, select_apply_strategy-KeepsPolicy}
use duet.Tests.Samples.{path_a, path_b}

abbrev job : FilePath → ScanJob
job path = record { path = path; pft = record { parent = 0; from = 0; to = 0 } }

-- A directory that holds `a` and `b`, which hold none.
abbrev children_of : FilePath → List ScanJob
children_of [] = job path_b ∷ job path_a ∷ []
children_of (_ ∷ _) = []

abbrev worker : ScanJob → Result ℕ (List ScanJob)
worker j = ok (children_of j.path)

abbrev size_of : FilePath → ℕ
size_of [] = 3
size_of (_ ∷ _) = 1

abbrev size : ScanJob → ℕ
size j = size_of j.path

size-positive : (j : ScanJob) → 0 < size j
size-positive j = positive j.path
  where
    positive : (path : FilePath) → 0 < size_of path
    positive [] = omega arith
    positive (c ∷ path) = omega arith

size-shrinks :
    (j : ScanJob) (children : List ScanJob) → worker j ≡ ok children → sum size children < size j
size-shrinks j children h =
    subst (λ jobs. sum size jobs < size j) (ok-injective _ _ h) (shrinks j.path)
  where
    shrinks : (path : FilePath) → sum size (children_of path) < size_of path
    shrinks [] = omega arith
    shrinks (c ∷ path) = omega arith

size-adds :
    (j : ScanJob) (children : List ScanJob)
    → worker j ≡ ok children
    → size j ≡ 1 + sum size children
size-adds j children h =
    subst (λ jobs. size j ≡ 1 + sum size jobs) (ok-injective _ _ h) (adds j.path)
  where
    adds : (path : FilePath) → size_of path ≡ 1 + sum size (children_of path)
    adds [] = refl
    adds (c ∷ path) = refl

run_scan_scheduler_lem_example :
    Outcome (λ _. 1) (size (job [])) (run_scan_scheduler 2 worker (job []) (1 ∷ 1 ∷ 0 ∷ []))
run_scan_scheduler_lem_example =
    run_scan_scheduler_lem 2 worker size size (λ _. 1) (omega arith) size-positive size-shrinks
      size-adds (job []) (1 ∷ 1 ∷ 0 ∷ []) (omega arith)

-- A server without checkpointed staging.
abbrev has : Capability → Bool
has checkpointed_staging = false
has _ = true

select_apply_strategy-KeepsPolicy_example :
    KeepsPolicy (select_apply_strategy has true profile_policy)
    × UsesPlan (can_use_staging_plan has 2 false profile_policy)
select_apply_strategy-KeepsPolicy_example =
    select_apply_strategy-KeepsPolicy has true false 2 profile_policy configured
  where
    configured : is_configured profile_policy ≡ true
    configured = unfold is_configured in refl
