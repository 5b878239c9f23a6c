-- ===== src/Sync/Staging/Waves/Cover.antt =====
-- Which actions the waves hold.
use duet.Prelude.{
  append_assoc, leb, ◌&&◌, ◌∙◌, ℕ, zero, suc, ◌+◌, ◌≤◌, ◌<◌, Option, none, some, List, [], ◌∷◌,
  ◌++◌, length, ok, >>=-eq-ok, ok-injective, ◌≡◌, refl, sym, ap, ap₂, arith, Bool-cases, inl, inr,
}
use duet.FilePath.{FilePath, component_ord}
use duet.Actions.{Action, action_path}
use duet.Sync.Staging.{
  validate_staging_budget, checked_staging_add, StagingBudget, StagingDependencyGroup,
  staging_dependency_group,
}
use duet.Sync.Staging.Waves.{
  check_actions, empty_plan, StagingWave, StagingWavePlan, span_under, range, next_group,
  collect_groups, push_wave, pack_group, place_group, pack_groups, add_totals, join_wave,
  plan_staging_waves, staging_wave_from_group, Packing,
}

-- The indices of all waves, in order.
abbrev pub wave_indices : List StagingWave → List ℕ
wave_indices [] = []
wave_indices (w ∷ waves) = w.action_indices ++ wave_indices waves

group_indices : List StagingDependencyGroup → List ℕ
group_indices [] = []
group_indices (g ∷ groups) = g.action_indices ++ group_indices groups

append_nil : (xs : List ℕ) → xs ++ [] ≡ xs
append_nil [] = refl
append_nil (x ∷ xs) = ap (λ l. x ∷ l) (append_nil xs)

-- The indices from `start` on, one for each action.
abbrev pub indices_from : ℕ → List Action → List ℕ
indices_from start actions = range start (length actions)

range-add :
    (start k n : ℕ) (members rest : List Action)
    → start + length members ≡ k
    → n ≡ length members + length rest
    → range start (length members) ++ range k (length rest) ≡ range start n
unfolding range
range-add start k n [] rest h e = ap₂ range (omega (arith, h)) (omega (arith, e))
range-add start k zero (a ∷ members) rest h e = absurd (omega (arith, e))
range-add start k (suc n) (a ∷ members) rest h e =
    ap (λ l. start ∷ l)
      (range-add (suc start) k n members rest (omega (arith, h)) (omega (arith, e)))

wave_indices-append :
    (xs : List StagingWave) (w : StagingWave)
    → wave_indices (xs ++ w ∷ []) ≡ wave_indices xs ++ w.action_indices
wave_indices-append [] w = append_nil w.action_indices
wave_indices-append (x ∷ xs) w =
    ap (λ l. x.action_indices ++ l) (wave_indices-append xs w)
    ∙ sym (append_assoc x.action_indices (wave_indices xs) w.action_indices)

length-span_under :
    (path : FilePath) (actions : List Action)
    → length (span_under path actions).0 + length (span_under path actions).1 ≡ length actions
unfolding span_under
length-span_under path [] = omega arith
length-span_under path (a ∷ actions) = ground (arith, length-span_under path actions)

length-next_group :
    (a : Action) (actions : List Action)
    → (length (next_group a actions).0 + length (next_group a actions).1 ≡ length (a ∷ actions))
      × (0 < length (next_group a actions).0)
unfolding next_group
length-next_group a actions = ground (arith, length-span_under (action_path a) actions)

module _ (lb rb : StagingBudget) where
  staging_dependency_group-indices :
      (indices : List ℕ) (actions : List Action) (g : StagingDependencyGroup)
      → staging_dependency_group lb rb indices actions ≡ ok g
      → g.action_indices ≡ indices
  unfolding staging_dependency_group
  staging_dependency_group-indices indices actions g h = ground arith

  collect_groups-indices :
      (fuel start : ℕ) (actions : List Action) (groups : List StagingDependencyGroup)
      → length actions ≤ fuel
      → collect_groups lb rb fuel start actions ≡ ok groups
      → group_indices groups ≡ indices_from start actions
  unfolding collect_groups range group_indices
  collect_groups-indices fuel start [] [] h e = refl
  collect_groups-indices fuel start [] (g ∷ groups) h e = cc
  collect_groups-indices zero start (a ∷ actions) groups h e = absurd (omega (arith, h))
  collect_groups-indices (suc fuel) start (a ∷ actions) groups h e =
      let members = (next_group a actions).0 in
      let rest = (next_group a actions).1 in
      let k = start + length members in
      let (g, e1, f1) =
        >>=-eq-ok (staging_dependency_group lb rb (range start (length members)) members) _ e in
      let (gs, e2, f2) = >>=-eq-ok (collect_groups lb rb fuel k rest) _ f1 in
      let (size, pos) = length-next_group a actions in
      let i = staging_dependency_group-indices (range start (length members)) members g e1 in
      let r = collect_groups-indices fuel k rest gs (omega (arith, h, size, pos)) e2 in
      sym (ap group_indices (ok-injective _ _ f2))
      ∙ ap₂ (λ x y. x ++ y) i r
      ∙ range-add start k (length (a ∷ actions)) members rest (omega arith) (omega (arith, size))

  pushed : List StagingWave → Option StagingWave → List ℕ
  pushed waves pending = wave_indices (push_wave lb rb waves pending)

  wave_indices-joined :
      (waves : List StagingWave) (w v : StagingWave) (g : StagingDependencyGroup) (a b : ℕ)
      → join_wave lb rb w g a b ≡ ok v
      → wave_indices (waves ++ v ∷ []) ≡ wave_indices (waves ++ w ∷ []) ++ g.action_indices
  unfolding join_wave
  wave_indices-joined waves w v g a b h = ground (
    arith,
    wave_indices-append waves w,
    wave_indices-append waves v,
    append_assoc (wave_indices waves) w.action_indices g.action_indices,
  )

  pack_group-indices :
      (waves : List StagingWave) (w : StagingWave) (q : Packing lb rb) (g : StagingDependencyGroup)
      → pack_group lb rb (waves, some w) g ≡ ok q
      → pushed q.0 q.1 ≡ pushed waves (some w) ++ g.action_indices
  unfolding pack_group pushed staging_wave_from_group join_wave
  pack_group-indices waves w q g h =
      let (a, e1, f1) =
        >>=-eq-ok
          (checked_staging_add w.local_side.reconstructed_bytes g.local_side.reconstructed_bytes) _
          h in
      let (b, e2, f2) =
        >>=-eq-ok
          (checked_staging_add w.remote_side.reconstructed_bytes g.remote_side.reconstructed_bytes)
          _ f1 in
      elim (Bool-cases (leb a lb.budget_bytes && leb b rb.budget_bytes)) [
        | inl y ↦
            let (v, e3, f3) = >>=-eq-ok (join_wave lb rb w g a b) _ (rw y at f2) in
            sym (ap (λ (x : Packing lb rb). pushed x.0 x.1) (ok-injective _ _ f3))
            ∙ wave_indices-joined waves w v g a b e3
        | inr n ↦
            sym (ap (λ (x : Packing lb rb). pushed x.0 x.1) (ok-injective _ _ (rw n at f2)))
            ∙ wave_indices-append (waves ++ w ∷ []) (staging_wave_from_group lb rb g)
      ]

  place_group-indices :
      (waves : List StagingWave) (pending : Option StagingWave) (q : Packing lb rb)
      (g : StagingDependencyGroup)
      → place_group lb rb (waves, pending) g ≡ ok q
      → pushed q.0 q.1 ≡ pushed waves pending ++ g.action_indices
  unfolding place_group pack_group pushed staging_wave_from_group join_wave
  place_group-indices waves none q g h =
      ground (arith, wave_indices-append waves (staging_wave_from_group lb rb g))
  place_group-indices waves (some w) q g h = ground (
    arith,
    wave_indices-append waves w,
    wave_indices-append (waves ++ w ∷ []) (staging_wave_from_group lb rb g),
    pack_group-indices waves w q g,
    append_assoc (wave_indices waves) w.action_indices g.action_indices,
  )

  pub add_totals-waves :
      (plan counted : StagingWavePlan) (g : StagingDependencyGroup)
      → add_totals lb rb plan g ≡ ok counted
      → counted.waves ≡ plan.waves
  unfolding add_totals
  add_totals-waves plan counted g h = ground arith

  -- The waves hold the groups' indices, in order.
  pack_groups-indices :
      (plan out : StagingWavePlan) (pending : Option StagingWave)
      (groups : List StagingDependencyGroup)
      → pack_groups lb rb plan pending groups ≡ ok out
      → wave_indices out.waves ≡ pushed plan.waves pending ++ group_indices groups
  unfolding pack_groups pushed group_indices
  pack_groups-indices plan out pending [] h =
      sym (ap (λ (x : StagingWavePlan). wave_indices x.waves) (ok-injective _ _ h))
      ∙ sym (append_nil (pushed plan.waves pending))
  pack_groups-indices plan out pending (g ∷ groups) h =
      let (counted, e1, f1) = >>=-eq-ok (add_totals lb rb plan g) _ h in
      let (packed, e2, f2) = >>=-eq-ok (place_group lb rb (counted.waves, pending) g) _ f1 in
      let r = pack_groups-indices (record counted { waves = packed.0 }) out packed.1 groups f2 in
      let s = place_group-indices counted.waves pending packed g e2 in
      let c = add_totals-waves plan counted g e1 in
      r
      ∙ ap (λ l. l ++ group_indices groups) (s ∙ ap (λ ws. pushed ws pending ++ g.action_indices) c)
      ∙ append_assoc (pushed plan.waves pending) g.action_indices (group_indices groups)

-- The waves of a plan that the planner returns hold the index of every action exactly once and in
-- order: joined they are 0, 1, 2 and so on up to the number of actions.
pub plan_staging_waves-wave_indices :
    (local_budget remote_budget : StagingBudget) (actions : List Action) (plan : StagingWavePlan)
    → plan_staging_waves local_budget remote_budget actions ≡ ok plan
    → wave_indices plan.waves ≡ range 0 (length actions)
unfolding plan_staging_waves group_indices pushed
plan_staging_waves-wave_indices lb rb actions plan h =
    let (u, e1, f1) = >>=-eq-ok (validate_staging_budget lb) _ h in
    let (v, e2, f2) = >>=-eq-ok (validate_staging_budget rb) _ f1 in
    let (w, e3, f3) = >>=-eq-ok (check_actions none actions) _ f2 in
    let (groups, e4, f4) = >>=-eq-ok (collect_groups lb rb (length actions) 0 actions) _ f3 in
    pack_groups-indices lb rb (empty_plan lb rb) plan none groups f4
    ∙ collect_groups-indices lb rb (length actions) 0 actions groups (omega arith) e4
