-- ===== src/Sync/Staging/Waves/Counted.antt =====
-- The figures of every wave of a plan, against the actions at the wave's indices.
use duet.Prelude.{
  ℕ, zero, suc, ◌+◌, Option, none, some, List, [], ◌∷◌, ◌++◌, All, All-append, append_assoc, length,
  length-append, ok, >>=-eq-ok, ok-injective, ◌≡◌, refl, sym, ◌∙◌, ap, arith, subst, filter_map,
  push_some, get_elem?,
}
use duet.FilePath.{FilePath}
use duet.Actions.{
  Action, local, remote, conflict, resolved_local, resolved_remote, identical, action_path,
}
use duet.Sync.Staging.{
  StagingBudget, StagingDependencyGroup, staging_dependency_group, checked_staging_add,
}
use duet.Sync.Staging.Waves.{
  StagingWave, collect_groups, push_wave, join_wave, staging_wave_from_group, Packing, range,
  next_group, span_under,
}
use duet.Sync.Staging.Waves.Outputs.{
  file_sizes, local_sizes, remote_sizes, total-append, Counts, GroupCounts,
  staging_dependency_group-GroupCounts,
}

-- The actions at some indices.
abbrev pub pick : List Action → List ℕ → List Action
pick actions indices = filter_map (get_elem? actions) indices

get_elem?-append :
    (before rest : List Action) (a : Action)
    → get_elem? (before ++ a ∷ rest) (length before) ≡ some a
get_elem?-append [] rest a = refl
get_elem?-append (x ∷ before) rest a = get_elem?-append before rest a

pick-range :
    (all before members rest : List Action) (start : ℕ)
    → all ≡ before ++ (members ++ rest)
    → start ≡ length before
    → pick all (range start (length members)) ≡ members
unfolding range
pick-range all before [] rest start e h = refl
pick-range all before (a ∷ members) rest start e h =
    let here : get_elem? all start ≡ some a =
      rw (e, h) (get_elem?-append before (members ++ rest) a) in
    let later =
      pick-range all (before ++ a ∷ []) members rest (suc start)
        (e ∙ sym (append_assoc before (a ∷ []) (members ++ rest)))
        (omega (arith, h, length-append before (a ∷ []))) in
    rw (here, later) refl

push_some-append :
    (found : Option Action) (xs ys : List Action)
    → push_some found (xs ++ ys) ≡ push_some found xs ++ ys
push_some-append none xs ys = refl
push_some-append (some a) xs ys = refl

pick-append :
    (all : List Action) (xs ys : List ℕ) → pick all (xs ++ ys) ≡ pick all xs ++ pick all ys
pick-append all [] ys = refl
pick-append all (x ∷ xs) ys =
    rw (pick-append all xs ys) (push_some-append (get_elem? all x) (pick all xs) (pick all ys))

local_sizes-append :
    (xs ys : List Action) → local_sizes (xs ++ ys) ≡ local_sizes xs ++ local_sizes ys
local_sizes-append [] ys = refl
local_sizes-append (local c ∷ xs) ys =
    rw (local_sizes-append xs ys)
      (sym (append_assoc (file_sizes c) (local_sizes xs) (local_sizes ys)))
local_sizes-append (resolved_local _ _ c ∷ xs) ys =
    rw (local_sizes-append xs ys)
      (sym (append_assoc (file_sizes c) (local_sizes xs) (local_sizes ys)))
local_sizes-append (remote c ∷ xs) ys = local_sizes-append xs ys
local_sizes-append (resolved_remote _ _ c ∷ xs) ys = local_sizes-append xs ys
local_sizes-append (identical _ _ ∷ xs) ys = local_sizes-append xs ys
local_sizes-append (conflict _ _ ∷ xs) ys = local_sizes-append xs ys

remote_sizes-append :
    (xs ys : List Action) → remote_sizes (xs ++ ys) ≡ remote_sizes xs ++ remote_sizes ys
remote_sizes-append [] ys = refl
remote_sizes-append (remote c ∷ xs) ys =
    rw (remote_sizes-append xs ys)
      (sym (append_assoc (file_sizes c) (remote_sizes xs) (remote_sizes ys)))
remote_sizes-append (resolved_remote _ _ c ∷ xs) ys =
    rw (remote_sizes-append xs ys)
      (sym (append_assoc (file_sizes c) (remote_sizes xs) (remote_sizes ys)))
remote_sizes-append (local c ∷ xs) ys = remote_sizes-append xs ys
remote_sizes-append (resolved_local _ _ c ∷ xs) ys = remote_sizes-append xs ys
remote_sizes-append (identical _ _ ∷ xs) ys = remote_sizes-append xs ys
remote_sizes-append (conflict _ _ ∷ xs) ys = remote_sizes-append xs ys

append-span_under :
    (path : FilePath) (actions : List Action)
    → (span_under path actions).0 ++ (span_under path actions).1 ≡ actions
unfolding span_under
append-span_under path [] = refl
append-span_under path (a ∷ actions) = ground (arith, append-span_under path actions)

append-next_group :
    (a : Action) (actions : List Action)
    → (next_group a actions).0 ++ (next_group a actions).1 ≡ a ∷ actions
unfolding next_group
append-next_group a actions = ground (arith, append-span_under (action_path a) actions)

-- The recorded figures of a wave are those of the files that the actions at its indices write.
abbrev pub WaveCounts : List Action → StagingWave → Type 0
WaveCounts all w =
    Counts (local_sizes (pick all w.action_indices)) w.local_side.reconstructed_bytes
      w.local_side.staged_regular_outputs
    × Counts (remote_sizes (pick all w.action_indices)) w.remote_side.reconstructed_bytes
        w.remote_side.staged_regular_outputs

-- A group's figures are those of the actions at its indices.
abbrev pub IndexedCounts : List Action → StagingDependencyGroup → Type 0
IndexedCounts all g = GroupCounts (pick all g.action_indices) g

Counts-append :
    (xs ys : List ℕ) (b o b' o' b'' o'' : ℕ)
    → Counts xs b o
    → Counts ys b' o'
    → b'' ≡ b + b'
    → o'' ≡ o + o'
    → Counts (xs ++ ys) b'' o''
Counts-append xs ys b o b' o' b'' o'' (h, k) (h', k') e f =
    (omega (arith, h, h', e, total-append xs ys), omega (arith, k, k', f, length-append xs ys))

module _ (lb rb : StagingBudget) (all : List Action) where
  pub wave_from_group-WaveCounts :
      (g : StagingDependencyGroup)
      → IndexedCounts all g
      → WaveCounts all (staging_wave_from_group lb rb g)
  unfolding staging_wave_from_group
  wave_from_group-WaveCounts g h = h

  pub collect_groups-IndexedCounts :
      (fuel start : ℕ) (before actions : List Action) (groups : List StagingDependencyGroup)
      → all ≡ before ++ actions
      → start ≡ length before
      → collect_groups lb rb fuel start actions ≡ ok groups
      → All (IndexedCounts all) groups
  unfolding collect_groups
  collect_groups-IndexedCounts fuel start before [] [] e s h = tt
  collect_groups-IndexedCounts fuel start before [] (g ∷ groups) e s h = cc
  collect_groups-IndexedCounts zero start before (a ∷ actions) [] e s h = tt
  collect_groups-IndexedCounts zero start before (a ∷ actions) (g ∷ groups) e s h = cc
  collect_groups-IndexedCounts (suc fuel) start before (a ∷ actions) groups e s h =
      let members = (next_group a actions).0 in
      let rest = (next_group a actions).1 in
      let indices = range start (length members) in
      let (g, e1, f1) = >>=-eq-ok (staging_dependency_group lb rb indices members) _ h in
      let (gs, e2, f2) = >>=-eq-ok (collect_groups lb rb fuel (start + length members) rest) _ f1 in
      let split : all ≡ before ++ (members ++ rest) =
        e ∙ ap (λ l. before ++ l) (sym (append-next_group a actions)) in
      let (same, counts) = staging_dependency_group-GroupCounts lb rb indices members g e1 in
      subst (All (IndexedCounts all)) (ok-injective _ _ f2) (
        rw (same, pick-range all before members rest start split s) counts,
        collect_groups-IndexedCounts fuel (start + length members) (before ++ members) rest gs
            (split ∙ sym (append_assoc before members rest))
            (omega (arith, s, length-append before members)) e2,
      )

  unfoldable pub PendingCounts : Option StagingWave → Type 0
  PendingCounts none = Unit
  PendingCounts (some w) = WaveCounts all w

  unfoldable pub PackingCounts : Packing lb rb → Type 0
  PackingCounts q = All (WaveCounts all) q.0 × PendingCounts q.1

  pub push_wave-Counts :
      (waves : List StagingWave) (pending : Option StagingWave)
      → All (WaveCounts all) waves
      → PendingCounts pending
      → All (WaveCounts all) (push_wave lb rb waves pending)
  unfolding PendingCounts
  push_wave-Counts waves none h p = h
  push_wave-Counts waves (some w) h p = All-append (WaveCounts all) waves (w ∷ []) h (p, tt)

  pub add_exact : (x y z : ℕ) → checked_staging_add x y ≡ ok z → z ≡ x + y
  unfolding checked_staging_add
  add_exact x y z h = ground (arith, h)

  -- The figures of a wave and of a group that joins it, added up.
  pub join_wave-WaveCounts :
      (w v : StagingWave) (g : StagingDependencyGroup) (a b : ℕ)
      → WaveCounts all w
      → IndexedCounts all g
      → a ≡ w.local_side.reconstructed_bytes + g.local_side.reconstructed_bytes
      → b ≡ w.remote_side.reconstructed_bytes + g.remote_side.reconstructed_bytes
      → join_wave lb rb w g a b ≡ ok v
      → WaveCounts all v
  unfolding join_wave
  join_wave-WaveCounts w v g a b (lw, rem) (lg, rg) e f h =
      let (lo, e1, f1) =
        >>=-eq-ok
          (checked_staging_add w.local_side.staged_regular_outputs
            g.local_side.staged_regular_outputs)
          _ h in
      let (ro, e2, f2) =
        >>=-eq-ok
          (checked_staging_add w.remote_side.staged_regular_outputs
            g.remote_side.staged_regular_outputs)
          _ f1 in
      let mine = pick all w.action_indices in
      let more = pick all g.action_indices in
      subst (WaveCounts all) (ok-injective _ _ f2) (
        rw
          (
            pick-append all w.action_indices g.action_indices,
            local_sizes-append mine more,
            remote_sizes-append mine more,
          )
          (
            Counts-append (local_sizes mine) (local_sizes more) _ _ _ _ a lo lw lg e
                (add_exact _ _ lo e1),
            Counts-append (remote_sizes mine) (remote_sizes more) _ _ _ _ b ro rem rg f
                (add_exact _ _ ro e2),
          ))
