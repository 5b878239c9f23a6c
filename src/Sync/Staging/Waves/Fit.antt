-- ===== src/Sync/Staging/Waves/Fit.antt =====
-- How full the waves are.
use duet.Prelude.{
  ℕ, zero, suc, ◌+◌, ◌≤◌, ◌<◌, Bool, true, false, ◌&&◌, ◌||◌, leb, Option, none, some, List, [],
  ◌∷◌, All, All-append, length, ok, >>=-eq-ok, ok-injective, ◌≡◌, refl, sym, ◌⊎◌, arith, Bool-cases,
  inl, inr, subst,
}
use duet.Actions.{Action}
use duet.Sync.Staging.{
  StagingBudget, StagingDependencyGroup, GroupSide, staging_dependency_group, validate_side,
  validate_staging_group_side, checked_staging_add, validate_staging_budget, add_actions,
  empty_side,
}
use duet.Sync.Staging.Waves.{
  StagingWave, WaveSide, StagingWavePlan, collect_groups, push_wave, pack_group, place_group,
  pack_groups, add_totals, join_wave, plan_staging_waves, staging_wave_from_group, Packing,
  check_actions, empty_plan, range, next_group,
}
use duet.Sync.Staging.Waves.Cover.{add_totals-waves}

-- A side that is over the wave target: one output alone, which fits the usable space or is marked as
-- needing copy-on-write, which the file system has.
abbrev pub Alone : StagingBudget → ℕ → ℕ → Bool → Type 0
Alone b bytes outputs cow =
    (b.budget_bytes < bytes)
    × (outputs ≡ 1)
    × ((bytes ≤ b.usable_bytes) ⊎ ((cow ≡ true) × (b.cow_clone_supported ≡ true)))

abbrev pub SideWithin : StagingBudget → WaveSide → Type 0
SideWithin b s = (s.exceeds_budget ≡ false) × (s.reconstructed_bytes ≤ b.budget_bytes)

abbrev pub SideFits : StagingBudget → WaveSide → Type 0
SideFits b s =
    SideWithin b s
    ⊎ ((s.exceeds_budget ≡ true)
        × Alone b s.reconstructed_bytes s.staged_regular_outputs s.requires_cow_capacity)

abbrev pub WaveFits : StagingBudget → StagingBudget → StagingWave → Type 0
WaveFits lb rb w = SideFits lb w.local_side × SideFits rb w.remote_side

-- The same of a group's side, where it is known whether the side must stand alone.
GroupSideFits : StagingBudget → GroupSide → Bool → Type 0
GroupSideFits b s isolated =
    ((isolated ≡ false) × (s.reconstructed_bytes ≤ b.budget_bytes))
    ⊎ ((isolated ≡ true)
        × Alone b s.reconstructed_bytes s.staged_regular_outputs s.requires_cow_capacity)

validate_side_lem :
    (s : GroupSide) (b : StagingBudget) (r : Bool × Bool)
    → b.budget_bytes ≤ b.usable_bytes
    → validate_side s b ≡ ok r
    → GroupSideFits b (record s { requires_cow_capacity = r.1 }) r.0
unfolding validate_staging_group_side GroupSideFits
validate_side_lem s b (i, c) h e = ground (arith, h)

GroupFits : StagingBudget → StagingBudget → StagingDependencyGroup → Type 0
GroupFits lb rb g =
    (l : Bool) × (r : Bool) × (g.isolated ≡ (l || r))
    × GroupSideFits lb g.local_side l
    × GroupSideFits rb g.remote_side r

module _ (lb rb : StagingBudget) (okl : lb.budget_bytes ≤ lb.usable_bytes)
    (okr : rb.budget_bytes ≤ rb.usable_bytes) where
  staging_dependency_group-GroupFits :
      (indices : List ℕ) (actions : List Action) (g : StagingDependencyGroup)
      → staging_dependency_group lb rb indices actions ≡ ok g
      → GroupFits lb rb g
  unfolding staging_dependency_group GroupFits
  staging_dependency_group-GroupFits indices actions g h =
      let (sides, e1, f1) = >>=-eq-ok (add_actions actions (empty_side, empty_side)) _ h in
      let (l, e2, f2) = >>=-eq-ok (validate_side sides.0 lb) _ f1 in
      let (r, e3, f3) = >>=-eq-ok (validate_side sides.1 rb) _ f2 in
      subst (GroupFits lb rb) (ok-injective _ _ f3) (
        l.0,
        r.0,
        refl,
        validate_side_lem sides.0 lb l okl e2,
        validate_side_lem sides.1 rb r okr e3,
      )

  collect_groups-GroupFits :
      (fuel start : ℕ) (actions : List Action) (groups : List StagingDependencyGroup)
      → collect_groups lb rb fuel start actions ≡ ok groups
      → All (GroupFits lb rb) groups
  unfolding collect_groups
  collect_groups-GroupFits fuel start [] [] e = tt
  collect_groups-GroupFits fuel start [] (g ∷ groups) e = cc
  collect_groups-GroupFits zero start (a ∷ actions) [] e = tt
  collect_groups-GroupFits zero start (a ∷ actions) (g ∷ groups) e = cc
  collect_groups-GroupFits (suc fuel) start (a ∷ actions) groups e =
      let members = (next_group a actions).0 in
      let rest = (next_group a actions).1 in
      let k = start + length members in
      let (g, e1, f1) =
        >>=-eq-ok (staging_dependency_group lb rb (range start (length members)) members) _ e in
      let (gs, e2, f2) = >>=-eq-ok (collect_groups lb rb fuel k rest) _ f1 in
      subst (All (GroupFits lb rb)) (ok-injective _ _ f2) (
        staging_dependency_group-GroupFits (range start (length members)) members g e1,
        collect_groups-GroupFits fuel k rest gs e2,
      )

  PendingFits : Option StagingWave → Type 0
  PendingFits none = Unit
  PendingFits (some w) = SideWithin lb w.local_side × SideWithin rb w.remote_side

  wave_from_group-WaveFits :
      (g : StagingDependencyGroup)
      → GroupFits lb rb g
      → WaveFits lb rb (staging_wave_from_group lb rb g)
  unfolding GroupFits GroupSideFits staging_wave_from_group
  wave_from_group-WaveFits g (l, r, e, fl, fr) = ground (arith, fl, fr)

  wave_from_group-PendingFits :
      (g : StagingDependencyGroup)
      → GroupFits lb rb g
      → g.isolated ≡ false
      → PendingFits (some (staging_wave_from_group lb rb g))
  unfolding GroupFits GroupSideFits staging_wave_from_group PendingFits
  wave_from_group-PendingFits g (l, r, e, fl, fr) n = ground (arith, fl, fr, e, n)

  push_wave-Fits :
      (waves : List StagingWave) (pending : Option StagingWave)
      → All (WaveFits lb rb) waves
      → PendingFits pending
      → All (WaveFits lb rb) (push_wave lb rb waves pending)
  unfolding PendingFits
  push_wave-Fits waves none h p = h
  push_wave-Fits waves (some w) h p =
      All-append (WaveFits lb rb) waves (w ∷ []) h ((inl p.0, inl p.1), tt)

  PackingFits : Packing lb rb → Type 0
  PackingFits q = All (WaveFits lb rb) q.0 × PendingFits q.1

  join_wave-PendingFits :
      (w v : StagingWave) (g : StagingDependencyGroup) (a b : ℕ)
      → PendingFits (some w)
      → (leb a lb.budget_bytes && leb b rb.budget_bytes) ≡ true
      → join_wave lb rb w g a b ≡ ok v
      → PendingFits (some v)
  unfolding join_wave PendingFits
  join_wave-PendingFits w v g a b p y h = ground (arith, p)

  pack_group-Fits :
      (waves : List StagingWave) (pending : Option StagingWave) (g : StagingDependencyGroup)
      (q : Packing lb rb)
      → All (WaveFits lb rb) waves
      → PendingFits pending
      → GroupFits lb rb g
      → g.isolated ≡ false
      → pack_group lb rb (waves, pending) g ≡ ok q
      → PackingFits q
  unfolding pack_group PackingFits
  pack_group-Fits waves none g q h p f n e =
      subst PackingFits (ok-injective _ _ e) (h, wave_from_group-PendingFits g f n)
  pack_group-Fits waves (some w) g q h p f n e =
      let (a, e1, f1) =
        >>=-eq-ok
          (checked_staging_add w.local_side.reconstructed_bytes g.local_side.reconstructed_bytes) _
          e in
      let (b, e2, f2) =
        >>=-eq-ok
          (checked_staging_add w.remote_side.reconstructed_bytes g.remote_side.reconstructed_bytes)
          _ f1 in
      elim (Bool-cases (leb a lb.budget_bytes && leb b rb.budget_bytes)) [
        | inl y ↦
            let (v, e3, f3) = >>=-eq-ok (join_wave lb rb w g a b) _ (rw y at f2) in
            subst PackingFits (ok-injective _ _ f3) (h, join_wave-PendingFits w v g a b p y e3)
        | inr no_room ↦
            subst PackingFits (ok-injective _ _ (rw no_room at f2))
              (push_wave-Fits waves (some w) h p, wave_from_group-PendingFits g f n)
      ]

  place_group-Fits :
      (waves : List StagingWave) (pending : Option StagingWave) (g : StagingDependencyGroup)
      (q : Packing lb rb)
      → All (WaveFits lb rb) waves
      → PendingFits pending
      → GroupFits lb rb g
      → place_group lb rb (waves, pending) g ≡ ok q
      → PackingFits q
  unfolding place_group PackingFits PendingFits
  place_group-Fits waves pending g q h p f e = elim (Bool-cases g.isolated) [
    | inl y ↦ subst PackingFits (ok-injective _ _ (rw (y, place_group) at e)) (
      All-append (WaveFits lb rb) (push_wave lb rb waves pending)
          (staging_wave_from_group lb rb g ∷ []) (push_wave-Fits waves pending h p)
          (wave_from_group-WaveFits g f, tt),
      tt,
    )
    | inr n ↦ pack_group-Fits waves pending g q h p f n (rw (n, place_group) at e)
  ]

  pack_groups-Fits :
      (plan out : StagingWavePlan) (pending : Option StagingWave)
      (groups : List StagingDependencyGroup)
      → All (WaveFits lb rb) plan.waves
      → PendingFits pending
      → All (GroupFits lb rb) groups
      → pack_groups lb rb plan pending groups ≡ ok out
      → All (WaveFits lb rb) out.waves
  unfolding pack_groups PackingFits
  pack_groups-Fits plan out pending [] h p f e =
      subst (λ (x : StagingWavePlan). All (WaveFits lb rb) x.waves) (ok-injective _ _ e)
        (push_wave-Fits plan.waves pending h p)
  pack_groups-Fits plan out pending (g ∷ groups) h p f e =
      let (counted, e1, f1) = >>=-eq-ok (add_totals lb rb plan g) _ e in
      let (packed, e2, f2) = >>=-eq-ok (place_group lb rb (counted.waves, pending) g) _ f1 in
      let h' = subst (All (WaveFits lb rb)) (sym (add_totals-waves lb rb plan counted g e1)) h in
      let (hw, hp) = place_group-Fits counted.waves pending g packed h' p f.0 e2 in
      pack_groups-Fits (record counted { waves = packed.0 }) out packed.1 groups hw hp f.1 f2

budget_ok :
    (b : StagingBudget) (u : Unit {0})
    → validate_staging_budget b ≡ ok u
    → b.budget_bytes ≤ b.usable_bytes
unfolding validate_staging_budget
budget_ok b u h = ground arith

-- In a plan that the planner returns, each side of a wave is within the wave target, or it is over
-- it with a single regular output that fits the usable space or is marked as needing copy-on-write
-- on a file system that has it; and the wave's flag says which of the two it is.
pub plan_staging_waves-WaveFits :
    (local_budget remote_budget : StagingBudget) (actions : List Action) (plan : StagingWavePlan)
    → plan_staging_waves local_budget remote_budget actions ≡ ok plan
    → All (WaveFits local_budget remote_budget) plan.waves
unfolding plan_staging_waves PendingFits
plan_staging_waves-WaveFits lb rb actions plan h =
    let (u, e1, f1) = >>=-eq-ok (validate_staging_budget lb) _ h in
    let (v, e2, f2) = >>=-eq-ok (validate_staging_budget rb) _ f1 in
    let (w, e3, f3) = >>=-eq-ok (check_actions none actions) _ f2 in
    let (groups, e4, f4) = >>=-eq-ok (collect_groups lb rb (length actions) 0 actions) _ f3 in
    let okl = budget_ok lb u e1 in
    let okr = budget_ok rb v e2 in
    pack_groups-Fits lb rb okl okr (empty_plan lb rb) plan none groups tt tt
      (collect_groups-GroupFits lb rb okl okr (length actions) 0 actions groups e4) f4
