-- ===== src/Sync/Staging/Waves/Filled.antt =====
-- The packing keeps the figures of the waves true, and so the waves fit by the files they write.
use duet.Prelude.{
  ◌&&◌, leb, Option, none, some, List, [], ◌∷◌, All, All-append, length, ok, >>=-eq-ok,
  ok-injective, ◌≡◌, refl, sym, Bool-cases, inl, inr, subst,
}
use duet.Actions.{Action}
use duet.Sync.Staging.{
  StagingBudget, StagingDependencyGroup, checked_staging_add, validate_staging_budget,
}
use duet.Sync.Staging.Waves.{
  StagingWave, StagingWavePlan, collect_groups, push_wave, pack_group, place_group, pack_groups,
  add_totals, join_wave, plan_staging_waves, staging_wave_from_group, Packing, check_actions,
  empty_plan,
}
use duet.Sync.Staging.Waves.Cover.{add_totals-waves}
use duet.Sync.Staging.Waves.Fit.{WaveFits, plan_staging_waves-WaveFits}
use duet.Sync.Staging.Waves.Counted.{
  WaveCounts, IndexedCounts, PendingCounts, PackingCounts, push_wave-Counts, add_exact,
  wave_from_group-WaveCounts, join_wave-WaveCounts, collect_groups-IndexedCounts,
}

module _ (lb rb : StagingBudget) (all : List Action) where
  pack_group-Counts :
      (waves : List StagingWave) (pending : Option StagingWave) (g : StagingDependencyGroup)
      (q : Packing lb rb)
      → All (WaveCounts all) waves
      → PendingCounts lb rb all pending
      → IndexedCounts all g
      → pack_group lb rb (waves, pending) g ≡ ok q
      → PackingCounts lb rb all q
  unfolding pack_group PackingCounts PendingCounts
  pack_group-Counts waves none g q h p f e =
      subst (PackingCounts lb rb all) (ok-injective _ _ e)
        (h, wave_from_group-WaveCounts lb rb all g f)
  pack_group-Counts waves (some w) g q h p f e =
      let (a, e1, f1) =
        >>=-eq-ok
          (checked_staging_add w.local_side.reconstructed_bytes g.local_side.reconstructed_bytes) _
          e in
      let (b, e2, f2) =
        >>=-eq-ok
          (checked_staging_add w.remote_side.reconstructed_bytes g.remote_side.reconstructed_bytes)
          _ f1 in
      elim (Bool-cases (leb a lb.budget_bytes && leb b rb.budget_bytes)) [
        | inl y ↦
            let (v, e3, f3) = >>=-eq-ok (join_wave lb rb w g a b) _ (rw y at f2) in
            subst (PackingCounts lb rb all) (ok-injective _ _ f3) (
              h,
              join_wave-WaveCounts lb rb all w v g a b p f (add_exact lb rb all _ _ a e1)
                  (add_exact lb rb all _ _ b e2) e3,
            )
        | inr no_room ↦ subst (PackingCounts lb rb all) (ok-injective _ _ (rw no_room at f2)) (
          push_wave-Counts lb rb all waves (some w) h p,
          wave_from_group-WaveCounts lb rb all g f,
        )
      ]

  place_group-Counts :
      (waves : List StagingWave) (pending : Option StagingWave) (g : StagingDependencyGroup)
      (q : Packing lb rb)
      → All (WaveCounts all) waves
      → PendingCounts lb rb all pending
      → IndexedCounts all g
      → place_group lb rb (waves, pending) g ≡ ok q
      → PackingCounts lb rb all q
  unfolding place_group PackingCounts PendingCounts
  place_group-Counts waves pending g q h p f e = elim (Bool-cases g.isolated) [
    | inl y ↦ subst (PackingCounts lb rb all) (ok-injective _ _ (rw (y, place_group) at e)) (
      All-append (WaveCounts all) (push_wave lb rb waves pending)
          (staging_wave_from_group lb rb g ∷ []) (push_wave-Counts lb rb all waves pending h p)
          (wave_from_group-WaveCounts lb rb all g f, tt),
      tt,
    )
    | inr n ↦ pack_group-Counts waves pending g q h p f (rw (n, place_group) at e)
  ]

  pack_groups-Counts :
      (plan out : StagingWavePlan) (pending : Option StagingWave)
      (groups : List StagingDependencyGroup)
      → All (WaveCounts all) plan.waves
      → PendingCounts lb rb all pending
      → All (IndexedCounts all) groups
      → pack_groups lb rb plan pending groups ≡ ok out
      → All (WaveCounts all) out.waves
  unfolding pack_groups PackingCounts
  pack_groups-Counts plan out pending [] h p f e =
      subst (λ (x : StagingWavePlan). All (WaveCounts all) x.waves) (ok-injective _ _ e)
        (push_wave-Counts lb rb all plan.waves pending h p)
  pack_groups-Counts plan out pending (g ∷ groups) h p f e =
      let (counted, e1, f1) = >>=-eq-ok (add_totals lb rb plan g) _ e in
      let (packed, e2, f2) = >>=-eq-ok (place_group lb rb (counted.waves, pending) g) _ f1 in
      let h' = subst (All (WaveCounts all)) (sym (add_totals-waves lb rb plan counted g e1)) h in
      let (hw, hp) = place_group-Counts counted.waves pending g packed h' p f.0 e2 in
      pack_groups-Counts (record counted { waves = packed.0 }) out packed.1 groups hw hp f.1 f2

plan_staging_waves-WaveCounts :
    (local_budget remote_budget : StagingBudget) (actions : List Action) (plan : StagingWavePlan)
    → plan_staging_waves local_budget remote_budget actions ≡ ok plan
    → All (WaveCounts actions) plan.waves
unfolding plan_staging_waves PendingCounts
plan_staging_waves-WaveCounts lb rb actions plan h =
    let (u, e1, f1) = >>=-eq-ok (validate_staging_budget lb) _ h in
    let (v, e2, f2) = >>=-eq-ok (validate_staging_budget rb) _ f1 in
    let (w, e3, f3) = >>=-eq-ok (check_actions none actions) _ f2 in
    let (groups, e4, f4) = >>=-eq-ok (collect_groups lb rb (length actions) 0 actions) _ f3 in
    pack_groups-Counts lb rb actions (empty_plan lb rb) plan none groups tt tt
      (collect_groups-IndexedCounts lb rb actions (length actions) 0 [] actions groups refl refl e4)
      f4

-- In a plan that the planner returns, the bytes and outputs recorded for a side of a wave are the
-- total size and the number of the files that the actions at the wave's indices write on that side;
-- and that side is within the wave target, or it is over it with a single file that fits the usable
-- space or is marked as needing copy-on-write on a file system that has it; the wave's flag says
-- which of the two it is.
pub plan_staging_waves_lem :
    (local_budget remote_budget : StagingBudget) (actions : List Action) (plan : StagingWavePlan)
    → plan_staging_waves local_budget remote_budget actions ≡ ok plan
    → All (WaveCounts actions) plan.waves × All (WaveFits local_budget remote_budget) plan.waves
plan_staging_waves_lem lb rb actions plan h = (
  plan_staging_waves-WaveCounts lb rb actions plan h,
  plan_staging_waves-WaveFits lb rb actions plan h,
)
