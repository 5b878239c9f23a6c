-- ===== src/Sync/Commit/Laws.antt =====
-- The details that the two sides exchange, and the directories that they change.
use duet.Prelude.{
  List, [], ◌∷◌, Option, none, some, is_some, filter_map, push_some, if◌then◌else◌, ◌≡◌, refl,
  arith, map,
}
use duet.FilePath.{FilePath}
use duet.Scan.Change.{change_path, Change, added, removed, modified}
use duet.Actions.{
  Action, local, remote, conflict, resolved_local, resolved_remote, identical, reverse,
  reverse_action, action_path,
}
use duet.Sync.Detail.{ApplyDetailKind, file, diff, apply_detail_kind, apply_detail_kind_for_change}
use duet.Sync.Commit.{
  source_detail_kind, change_detail_kind, SourceDetailKind, source_file, source_diff,
  apply_parent_mutations, parent_mutation, modified_mutation, ParentMutation, local_change,
  and_then,
}

abbrev pub kind_of : SourceDetailKind → ApplyDetailKind
kind_of (source_file _) = file
kind_of (source_diff _) = diff

change_detail_kind-kind :
    (c : Change)
    → and_then (change_detail_kind c) (λ k. some (kind_of k)) ≡ apply_detail_kind_for_change c
unfolding change_detail_kind apply_detail_kind_for_change
change_detail_kind-kind (added e) = ground arith
change_detail_kind-kind (removed e) = refl
change_detail_kind-kind (modified e1 e2) = ground arith

source_detail_kind-reverse :
    (a : Action)
    → and_then (source_detail_kind a) (λ k. some (kind_of k)) ≡ apply_detail_kind (reverse_action a)
unfolding source_detail_kind apply_detail_kind reverse_action
source_detail_kind-reverse (local c) = refl
source_detail_kind-reverse (remote c) = change_detail_kind-kind c
source_detail_kind-reverse (conflict l r) = refl
source_detail_kind-reverse (identical l r) = refl
source_detail_kind-reverse (resolved_local l r c) = refl
source_detail_kind-reverse (resolved_remote l r c) = change_detail_kind-kind c

map-push_some :
    (found : Option SourceDetailKind) (kinds : List SourceDetailKind)
    → map kind_of (push_some found kinds)
      ≡ push_some (and_then found (λ k. some (kind_of k))) (map kind_of kinds)
map-push_some none kinds = refl
map-push_some (some k) kinds = refl

-- The details that the source sends for a plan are, in order and in kind, those that the other side
-- expects to apply, which holds the same plan seen from there.
pub details-reverse :
    (actions : List Action)
    → map kind_of (filter_map source_detail_kind actions)
      ≡ filter_map apply_detail_kind (reverse actions)
unfolding reverse
details-reverse [] = refl
details-reverse (a ∷ actions) =
    rw
      (
        map-push_some (source_detail_kind a) (filter_map source_detail_kind actions),
        source_detail_kind-reverse a,
        details-reverse actions,
      )
      refl

-- What an action adds to the paths written with a guard, by its mutation and by its detail.
abbrev guarded_path : ParentMutation → Option FilePath
guarded_path m = if m.allow_writable_guard then some m.path else none

abbrev detail_target : Action → Option FilePath
detail_target a = if is_some (apply_detail_kind a) then some (action_path a) else none

mutation-detail :
    (c : Change)
    → and_then (parent_mutation c) guarded_path
      ≡ (if is_some (apply_detail_kind_for_change c) then some (change_path c) else none)
unfolding parent_mutation modified_mutation apply_detail_kind_for_change
mutation-detail (added e) = ground arith
mutation-detail (removed e) = refl
mutation-detail (modified old new) = ground arith

action_mutation-detail :
    (a : Action)
    → and_then (and_then (local_change a) parent_mutation) guarded_path ≡ detail_target a
unfolding apply_detail_kind
action_mutation-detail (local c) = mutation-detail c
action_mutation-detail (remote c) = refl
action_mutation-detail (conflict l r) = refl
action_mutation-detail (identical l r) = refl
action_mutation-detail (resolved_local l r c) = mutation-detail c
action_mutation-detail (resolved_remote l r c) = refl

filter_map-push_some :
    (found : Option ParentMutation) (mutations : List ParentMutation)
    → filter_map guarded_path (push_some found mutations)
      ≡ push_some (and_then found guarded_path) (filter_map guarded_path mutations)
filter_map-push_some none mutations = refl
filter_map-push_some (some m) mutations = refl

-- The paths that the commit plan lets a writable guard be used for are, in order, those of the
-- actions that have a detail to apply here: the regular files that are written.
apply_parent_mutations-details :
    (actions : List Action)
    → filter_map guarded_path (apply_parent_mutations actions) ≡ filter_map detail_target actions
unfolding apply_parent_mutations
apply_parent_mutations-details [] = refl
apply_parent_mutations-details (a ∷ actions) =
    rw
      (
        filter_map-push_some (and_then (local_change a) parent_mutation)
            (apply_parent_mutations actions),
        action_mutation-detail a,
        apply_parent_mutations-details actions,
      )
      refl
