-- ===== src/Scan/Scheduler.antt =====
-- `run_scan_scheduler`: directories are read by a bounded number of futures, in the order in which these
-- complete. What reads one directory, and the order of completion, are parameters.
pub mod Laws
use duet.Prelude.{
  ℕ, zero, suc, List, [], ◌∷◌, ◌++◌, length, Bool, true, false, ◌&&◌, ltb, Result, ok, err,
  if◌then◌else◌, guard, ◌>>◌, ◌>>=◌,
}
use duet.Ord.Lexicographic.{list_ord}
use duet.FilePath.{FilePath, component_ord}
use duet.Sorted.Sorting.{sort_by}
use duet.Scan.Walk.{ParentFromTo}

pub record ScanJob : Type 0 where
  pub path : FilePath
  pub pft : ParentFromTo

pub data SchedulerFault (E : Type 0) : Type 0 where
  worker_failed : E → SchedulerFault E
  -- the assertion on the limit
  no_concurrency : SchedulerFault E
  -- the completions of the model ran out
  unfinished : SchedulerFault E

-- The inner `while`: jobs are started up to the limit.
unfoldable pub fill : ℕ → List ScanJob → List ScanJob → List ScanJob × List ScanJob
fill limit active [] = (active, [])
fill limit active (job ∷ pending) = elim (ltb (length active) limit) [
  | true ↦ fill limit (active ++ job ∷ []) pending
  | false ↦ (active, job ∷ pending)
]

-- The active job that completes, by its place, and the others. A place past the end is the last one.
unfoldable pub take_at : ℕ → ScanJob → List ScanJob → ScanJob × List ScanJob
take_at i job [] = (job, [])
take_at zero job (next ∷ jobs) = (job, next ∷ jobs)
take_at (suc i) job (next ∷ jobs) = let (taken, rest) = take_at i next jobs in (taken, job ∷ rest)

abbrev pub is_empty : List ScanJob → Bool
is_empty [] = true
is_empty (_ ∷ _) = false

abbrev pub job_path : ScanJob → FilePath
job_path job = job.path

-- The jobs in flight, those that wait, and those done, in the order of completion.
pub record Queue : Type 0 where
  pub active : List ScanJob
  pub pending : List ScanJob
  pub finished : List ScanJob

abbrev pub is_idle : Queue → Bool
is_idle q = is_empty q.pending && is_empty q.active

abbrev pub as_failure :
    {E : Type 0} → Result E (List ScanJob) → Result (SchedulerFault E) (List ScanJob)
as_failure (err fault) = err (worker_failed fault)
as_failure (ok children) = ok children

module _ {E : Type 0} (limit : ℕ) (worker : ScanJob → Result E (List ScanJob)) where
  -- `active.next().await`, with what is active and what is pending by then.
  unfoldable pub complete :
      ℕ → List ScanJob → List ScanJob → List ScanJob → Result (SchedulerFault E) Queue
  complete i [] pending finished =
      ok (record { active = []; pending = pending; finished = finished })
  complete i (job ∷ jobs) pending finished = do
    children ← as_failure (worker (take_at i job jobs).0)
    ok (record {
      active = (take_at i job jobs).1;
      pending = pending ++ sort_by job_path children;
      finished = finished ++ (take_at i job jobs).0 ∷ [];
    })

  -- The body of the outer `while`.
  unfoldable pub round : ℕ → Queue → Result (SchedulerFault E) Queue
  round i q = let filled = fill limit q.active q.pending in complete i filled.0 filled.1 q.finished

  -- The outer `while`, for as many completions as are listed.
  unfoldable pub rounds : List ℕ → Queue → Result (SchedulerFault E) (List ScanJob)
  rounds [] q = if is_idle q then ok q.finished else err unfinished
  rounds (i ∷ order) q = elim (is_idle q) [
    | true ↦ ok q.finished
    | false ↦ (do next ← round i q; rounds order next)
  ]

  -- The jobs that were done.
  unfoldable pub run_scan_scheduler : ScanJob → List ℕ → Result (SchedulerFault E) (List ScanJob)
  run_scan_scheduler initial order =
      guard (ltb 0 limit) no_concurrency
      >> rounds order (record { active = []; pending = initial ∷ []; finished = [] })
