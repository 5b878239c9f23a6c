-- ===== src/Scan/Scheduler/Laws.antt =====
-- Every directory of a finite tree is read once, whatever the order in which the futures complete.
use duet.Prelude.{
  Result-cases, ℕ, zero, suc, ◌+◌, ◌≤◌, ◌<◌, List, [], ◌∷◌, ◌++◌, length, length-append, true,
  false, ◌&&◌, ltb, Result, ok, err, ◌≡◌, ◌⊎◌, refl, subst, arith, inl, inr, Bool-cases,
}
use duet.Ord.Lexicographic.{list_ord}
use duet.FilePath.{component_ord}
use duet.Sorted.Sorting.{sort_by, insert}
use duet.Scan.Scheduler.{
  Queue, is_idle, complete, round, ScanJob, SchedulerFault, worker_failed, fill, take_at, is_empty,
  job_path, rounds, run_scan_scheduler,
}

-- The sum of a measure over jobs.
abbrev pub sum : (ScanJob → ℕ) → List ScanJob → ℕ
sum f [] = 0
sum f (job ∷ jobs) = f job + sum f jobs

module _ (f : ScanJob → ℕ) where
  sum-append : (front back : List ScanJob) → sum f (front ++ back) ≡ sum f front + sum f back
  sum-append [] back = omega arith
  sum-append (job ∷ front) back = omega (arith, sum-append front back)

  sum-fill :
      (limit : ℕ) (active pending : List ScanJob)
      → sum f (fill limit active pending).0 + sum f (fill limit active pending).1
        ≡ sum f active + sum f pending
  unfolding fill
  sum-fill limit active [] = refl
  sum-fill limit active (job ∷ pending) = elim (Bool-cases (ltb (length active) limit)) [
    | inl y ↦
        rw (y, fill)
          (omega (arith, sum-fill limit (active ++ job ∷ []) pending, sum-append active (job ∷ [])))
    | inr n ↦ rw (n, fill) refl
  ]

  sum-take_at :
      (i : ℕ) (job : ScanJob) (jobs : List ScanJob)
      → f (take_at i job jobs).0 + sum f (take_at i job jobs).1 ≡ f job + sum f jobs
  unfolding take_at
  sum-take_at i job [] = refl
  sum-take_at zero job (next ∷ jobs) = refl
  sum-take_at (suc i) job (next ∷ jobs) = omega (arith, sum-take_at i next jobs)

  sum-insert :
      (job : ScanJob) (jobs : List ScanJob) → sum f (insert job_path job jobs) ≡ f job + sum f jobs
  unfolding insert
  sum-insert job [] = refl
  sum-insert job (next ∷ jobs) = ground (arith, sum-insert job jobs)

  sum-sort_by : (jobs : List ScanJob) → sum f (sort_by job_path jobs) ≡ sum f jobs
  unfolding sort_by
  sum-sort_by [] = refl
  sum-sort_by (job ∷ jobs) = omega (arith, sum-insert job (sort_by job_path jobs), sum-sort_by jobs)

-- No more jobs are active than the limit allows.
pub fill-limit :
    (limit : ℕ) (active pending : List ScanJob)
    → length active ≤ limit
    → length (fill limit active pending).0 ≤ limit
unfolding fill
fill-limit limit active [] h = h
fill-limit limit active (job ∷ pending) h = elim (Bool-cases (ltb (length active) limit)) [
  | inl y ↦ rw (y, fill) (fill-limit limit (active ++ job ∷ []) pending (shorter y))
  | inr n ↦ rw (n, fill) h
]
  where
    shorter : ltb (length active) limit ≡ true → length (active ++ job ∷ []) ≤ limit
    shorter y = let e = length-append active (job ∷ []) in ground arith

fill-grows :
    (limit : ℕ) (active pending : List ScanJob)
    → length active ≤ length (fill limit active pending).0
unfolding fill
fill-grows limit active [] = omega arith
fill-grows limit active (job ∷ pending) = elim (Bool-cases (ltb (length active) limit)) [
  | inl y ↦
      rw (y, fill)
        (omega
          (arith, fill-grows limit (active ++ job ∷ []) pending, length-append active (job ∷ [])))
  | inr n ↦ rw (n, fill) (omega arith)
]

is_empty-length : (jobs : List ScanJob) → is_empty jobs ≡ true → length jobs ≡ 0
is_empty-length [] h = refl
is_empty-length (job ∷ jobs) h = cc

fill-first :
    (limit : ℕ) (job : ScanJob) (pending : List ScanJob)
    → ltb 0 limit ≡ true
    → 1 ≤ length (fill limit [] (job ∷ pending)).0
unfolding fill
fill-first limit job pending y = rw (y, fill) (fill-grows limit (job ∷ []) pending)

-- A limit that is not 0 lets a job be active while one is pending.
fill-active :
    (limit : ℕ) (active pending : List ScanJob)
    → 0 < limit
    → is_empty (fill limit active pending).0 ≡ true
    → (is_empty pending && is_empty active) ≡ true
fill-active limit [] [] h e = refl
fill-active limit (a ∷ active) pending h e = absurd (
    omega (
      arith,
      fill-grows limit (a ∷ active) pending,
      is_empty-length (fill limit (a ∷ active) pending).0 e,
    ))
fill-active limit [] (job ∷ pending) h e =
    let y : ltb 0 limit ≡ true = ground arith in
    absurd (
      omega (
        arith,
        fill-first limit job pending y,
        is_empty-length (fill limit [] (job ∷ pending)).0 e,
      ))

-- A run that ends with jobs done that have all of a measure, or with a failure of the worker.
abbrev pub Outcome :
    {E : Type 0} → (ScanJob → ℕ) → ℕ → Result (SchedulerFault E) (List ScanJob) → Type 0
Outcome {E} weight n result =
    ((finished : List ScanJob) × (result ≡ ok finished) × (sum weight finished ≡ n))
    ⊎ ((fault : E) × (result ≡ err (worker_failed fault)))

module _ {E : Type 0} (limit : ℕ) (worker : ScanJob → Result E (List ScanJob))
    (size total weight : ScanJob → ℕ) (some_limit : 0 < limit)
    (positive : (job : ScanJob) → 0 < size job)
    (shrinks : (job : ScanJob) (children : List ScanJob)
      → worker job ≡ ok children
      → sum size children < size job)
    (adds : (job : ScanJob) (children : List ScanJob)
      → worker job ≡ ok children
      → total job ≡ weight job + sum total children) where
  idle-sum : (f : ScanJob → ℕ) (q : Queue) → is_idle q ≡ true → sum f q.active + sum f q.pending ≡ 0
  idle-sum f q h = empty q.active q.pending h
    where
      empty :
          (active pending : List ScanJob)
          → (is_empty pending && is_empty active) ≡ true
          → sum f active + sum f pending ≡ 0
      empty [] [] h = refl
      empty (a ∷ active) [] h = cc
      empty active (p ∷ pending) h = cc

  busy-sum : (q : Queue) → is_idle q ≡ false → 0 < sum size q.active + sum size q.pending
  busy-sum q h = some_job q.active q.pending h
    where
      some_job :
          (active pending : List ScanJob)
          → (is_empty pending && is_empty active) ≡ false
          → 0 < sum size active + sum size pending
      some_job [] [] h = cc
      some_job (a ∷ active) pending h = omega (arith, positive a)
      some_job [] (p ∷ pending) h = omega (arith, positive p)

  -- What is done and what is to come.
  abbrev measure : Queue → ℕ
  measure q = sum weight q.finished + (sum total q.active + sum total q.pending)

  abbrev to_do : Queue → ℕ
  to_do q = sum size q.active + sum size q.pending

  Progresses : ℕ → ℕ → Result (SchedulerFault E) Queue → Type 0
  Progresses n m result =
      ((fault : E) × (result ≡ err (worker_failed fault)))
      ⊎ ((next : Queue) × (result ≡ ok next) × (to_do next < n) × (measure next ≡ m))

  complete-Progresses :
      (i : ℕ) (active pending finished : List ScanJob)
      → is_empty active ≡ false
      → Progresses
          (sum size active + sum size pending)
          (sum weight finished + (sum total active + sum total pending))
          (complete limit worker i active pending finished)
  complete-Progresses i [] pending finished n = cc
  complete-Progresses i (job ∷ jobs) pending finished n =
      let taken = (take_at i job jobs).0 in
      elim (Result-cases (worker taken)) [
        | inl (fault, e) ↦ unfold complete Progresses in inl (fault, rw e refl)
        | inr (children, e) ↦
            (let next : Queue = record {
              active = (take_at i job jobs).1;
              pending = pending ++ sort_by job_path children;
              finished = finished ++ taken ∷ [];
            } in
              unfold complete Progresses in
              inr (
                next,
                rw e refl,
                omega (
                  arith,
                  sum-take_at size i job jobs,
                  sum-append size pending (sort_by job_path children),
                  sum-sort_by size children,
                  shrinks taken children e,
                ),
                omega (
                  arith,
                  sum-take_at total i job jobs,
                  sum-append total pending (sort_by job_path children),
                  sum-sort_by total children,
                  adds taken children e,
                  sum-append weight finished (taken ∷ []),
                ),
              ))
      ]

  round-Progresses :
      (i : ℕ) (q : Queue)
      → is_idle q ≡ false
      → Progresses (to_do q) (measure q) (round limit worker i q)
  unfolding round
  round-Progresses i q n =
      let filled = fill limit q.active q.pending in
      subst (λ t. Progresses t (measure q) (complete limit worker i filled.0 filled.1 q.finished))
        (sum-fill size limit q.active q.pending)
        (subst
          (λ t.
            Progresses (sum size filled.0 + sum size filled.1) (sum weight q.finished + t)
              (complete limit worker i filled.0 filled.1 q.finished))
          (sum-fill total limit q.active q.pending)
          (complete-Progresses i filled.0 filled.1 q.finished (busy q n)))
    where
      busy : (q : Queue) → is_idle q ≡ false → is_empty (fill limit q.active q.pending).0 ≡ false
      busy q n = elim (Bool-cases (is_empty (fill limit q.active q.pending).0)) [
        | inl y ↦ (let e = fill-active limit q.active q.pending some_limit y in cc)
        | inr e ↦ e
      ]

  rounds-Outcome :
      (order : List ℕ) (q : Queue)
      → to_do q ≤ length order
      → Outcome weight (measure q) (rounds limit worker order q)
  unfolding rounds Progresses
  rounds-Outcome [] q h = elim (Bool-cases (is_idle q)) [
    | inl y ↦ inl (q.finished, rw y refl, omega (arith, idle-sum total q y))
    | inr n ↦ absurd (omega (arith, h, busy-sum q n))
  ]
  rounds-Outcome (i ∷ order) q h = elim (Bool-cases (is_idle q)) [
    | inl y ↦ inl (q.finished, rw (y, rounds) refl, omega (arith, idle-sum total q y))
    | inr n ↦ elim (round-Progresses i q n) [
      | inl (fault, e) ↦ inr (fault, rw (n, rounds, e) refl)
      | inr (next, e, less, same) ↦
          rw (n, rounds, e)
            (subst (λ m. Outcome weight m (rounds limit worker order next)) same
              (rounds-Outcome order next (omega (arith, h, less))))
    ]
  ]

  -- A tree of directories in which each job has a positive size that exceeds those of its children
  -- together, and a measure that adds up over it. With a limit that is not 0, and with as many
  -- completions as the size of the first job, in whatever order: the scheduler ends, with the failure
  -- of a worker or with a list of the jobs done that has all of the measure, so that, for the
  -- measure that counts a job, each job is done as often as it stands in the tree.
  pub run_scan_scheduler_lem :
      (initial : ScanJob) (order : List ℕ)
      → size initial ≤ length order
      → Outcome weight (total initial) (run_scan_scheduler limit worker initial order)
  unfolding run_scan_scheduler
  run_scan_scheduler_lem initial order h =
      let q : Queue = record { active = []; pending = initial ∷ []; finished = [] } in
      let limited : ltb 0 limit ≡ true = ground arith in
      let outcome = rounds-Outcome order q (omega (arith, h)) in
      rw limited (subst (λ m. Outcome weight m (rounds limit worker order q)) (omega arith) outcome)
