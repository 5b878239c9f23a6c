-- ===== src/Tests/Resolution.antt =====
-- The dialogue.
use duet.Prelude.{true, false, List, [], ◌∷◌, length, ◌≡◌, refl, ok, arith}
use duet.Ord.{nat_ord}
use duet.Ord.Lexicographic.{list_ord, cmp_list}
use duet.FilePath.{component_ord, cmp_component, rank}
use duet.Sorted.{find}
use duet.MatchSorted.{matched}
use duet.Scan.Entry.{same_entry, same_scan_identity, target_eq}
use duet.Scan.Change.{
  Change, modified, changes, entry_path, change_between, same, same_with_file_contents, same_result,
  same_file_weak,
}
use duet.Scan.Change.Laws.{before, after}
use duet.Actions.{
  Action, conflict, local, resolved_local, resolved_remote, create, num_unresolved_conflicts,
}
use duet.Orchestrator.Plan.{build_actions, create_by}
use duet.Resolution.{
  resolve_action, resolve_pair, overriding, to_local, to_remote, resolve_sequential, resolve_each,
  prompt, settle, conflict_prompt_choice, confirm, confirmation_prompt_resolution, char,
  AllResolution,
}
use duet.Resolution.Laws.{resolve_action-plan}
use duet.Resolution.Sequential.{resolve_sequential-Evolved, EvolvedAll}
use duet.Resolution.Interactive.{start, round, Event, arrow_left, forward, next_conflict_index}
use duet.Resolution.Interactive.Selection.{next_conflict_index_lem, Found}
use duet.Resolution.Interactive.Rounds.{round-IsValid, start-IsValid, Outcome}
use duet.Tests.Samples.{path_a, path_b, file_entry, manifest, manifest-IsSorted}

abbrev here : Change
here = modified (file_entry path_a 1) (file_entry path_a 2)

abbrev there : Change
there = modified (file_entry path_a 1) (file_entry path_a 3)

resolve_action-plan_example :
    ((c : Change) × (resolve_action (conflict here there) to_local
        ≡ ok (resolved_local here there c))
      × (before c ≡ find entry_path path_a (manifest 2))
      × (after c ≡ find entry_path path_a (manifest 3)))
    × ((c : Change) × (resolve_action (conflict here there) to_remote
          ≡ ok (resolved_remote here there c))
        × (before c ≡ find entry_path path_a (manifest 3))
        × (after c ≡ find entry_path path_a (manifest 2)))
unfolding list_ord cmp_list component_ord cmp_component nat_ord rank find matched build_actions
    create_by create changes change_between same same_with_file_contents same_result same_file_weak
    same_entry same_scan_identity target_eq
resolve_action-plan_example =
    resolve_action-plan path_a (manifest 1) (manifest 2) (manifest 1) (manifest 3) false here there
      (manifest-IsSorted 1) (manifest-IsSorted 2) (manifest-IsSorted 1) (manifest-IsSorted 3) refl
      refl

abbrev open_plan : List Action
open_plan = conflict here there ∷ local (modified (file_entry path_b 1) (file_entry path_b 2)) ∷ []

abbrev closed_plan : List Action
closed_plan =
    resolved_local here there (modified (file_entry path_a 2) (file_entry path_a 3))
    ∷ local (modified (file_entry path_b 1) (file_entry path_b 2))
    ∷ []

resolve_sequential-Evolved_example : EvolvedAll open_plan closed_plan
unfolding resolve_sequential resolve_each prompt settle conflict_prompt_choice confirm
    confirmation_prompt_resolution resolve_action resolve_pair overriding num_unresolved_conflicts
resolve_sequential-Evolved_example =
    resolve_sequential-Evolved open_plan (char b'l' ∷ char b'y' ∷ [])
      (AllResolution.proceed, closed_plan) refl

round-IsValid_example :
    (e : Event) × (round true 5 arrow_left (start true open_plan) ≡ ok e)
    × Outcome true 5 (start true open_plan) e
unfolding start resolve_action resolve_pair overriding
round-IsValid_example =
    round-IsValid true 5 arrow_left (start true open_plan) (omega arith) (
      start-IsValid true 5 open_plan (omega arith) ((refl, refl), ((refl, refl), tt)) (omega arith))

next_conflict_index_lem_example :
    Found open_plan forward (length open_plan) 1 (next_conflict_index open_plan 1 forward)
next_conflict_index_lem_example = next_conflict_index_lem open_plan 1 forward
