-- ===== src/Tests/Plan.antt =====
-- Planning.
use duet.Prelude.{filter, map, false, List, [], ◌∷◌, ◌≡◌, refl}
use duet.Ord.{nat_ord}
use duet.Ord.Lexicographic.{list_ord, cmp_list}
use duet.FilePath.{component_ord, cmp_component, rank}
use duet.Sorted.{IsSorted, find}
use duet.Scan.Change.{modified, changes, entry_path}
use duet.Actions.{Action, conflict, local, action_path, to_legacy, from_legacy, reverse}
use duet.Actions.Legacy.{legacy_roundtrip, forget}
use duet.Orchestrator.Plan.{build_actions}
use duet.Orchestrator.Plan.Laws.{plan_lem, Fits, build_actions-swap}
use duet.Orchestrator.Dependencies.{filter_unresolved_conflict_dependencies, unresolved_paths}
use duet.Orchestrator.Dependencies.Laws.{
  filter_unresolved_conflict_dependencies_lem, stays, is_skipped,
}
use duet.Tests.Samples.{path_a, path_b, path_ac, file_entry, manifest, manifest-IsSorted}

-- Both sides changed `a`.
abbrev both_changed : List Action
both_changed =
    build_actions (changes (manifest 1) (manifest 2)) (changes (manifest 1) (manifest 3)) false

plan_lem_example :
    IsSorted action_path both_changed
    × Fits false
        (find action_path path_a both_changed)
        (find entry_path path_a (manifest 1))
        (find entry_path path_a (manifest 2))
        (find entry_path path_a (manifest 1))
        (find entry_path path_a (manifest 3))
plan_lem_example =
    plan_lem path_a (manifest 1) (manifest 2) (manifest 1) (manifest 3) false (manifest-IsSorted 1)
      (manifest-IsSorted 2) (manifest-IsSorted 1) (manifest-IsSorted 3)

build_actions-swap_example :
    build_actions (changes (manifest 1) (manifest 3)) (changes (manifest 1) (manifest 2)) false
    ≡ reverse both_changed
build_actions-swap_example =
    build_actions-swap (changes (manifest 1) (manifest 2)) (changes (manifest 1) (manifest 3)) false

-- A conflict at `a`, a change under it and one beside it.
abbrev plan_with_conflict : List Action
plan_with_conflict =
    conflict (modified (file_entry path_a 1) (file_entry path_a 2))
      (modified (file_entry path_a 1) (file_entry path_a 3))
    ∷ local (modified (file_entry path_ac 1) (file_entry path_ac 2))
    ∷ local (modified (file_entry path_b 1) (file_entry path_b 2))
    ∷ []

filter_unresolved_conflict_dependencies_lem_example :
    filter_unresolved_conflict_dependencies plan_with_conflict ≡ (
      filter (stays (unresolved_paths plan_with_conflict)) plan_with_conflict,
      map action_path
          (filter (is_skipped (unresolved_paths plan_with_conflict)) plan_with_conflict),
    )
unfolding list_ord cmp_list component_ord cmp_component nat_ord rank
filter_unresolved_conflict_dependencies_lem_example =
    filter_unresolved_conflict_dependencies_lem plan_with_conflict
      ((refl, (refl, tt)), ((refl, tt), (tt, tt))) (refl, (refl, (refl, tt)))

legacy_roundtrip_example :
    (to_legacy (from_legacy (to_legacy plan_with_conflict)) ≡ to_legacy plan_with_conflict)
    × (from_legacy (to_legacy plan_with_conflict) ≡ map forget plan_with_conflict)
legacy_roundtrip_example = legacy_roundtrip (to_legacy plan_with_conflict) plan_with_conflict
