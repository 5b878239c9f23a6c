-- ===== src/Tests/Validate.antt =====
-- Checks of paths, actions and signatures, and the tuning of two peers.
use duet.Scan.Entry.{Entry}
use duet.Prelude.{ℕ, List, [], ◌∷◌, ◌++◌, ◌≡◌, ◌↔◌, refl, arith, All, map, ok, err}
use duet.Ord.{nat_ord}
use duet.Ord.Lexicographic.{list_ord}
use duet.FilePath.{FilePath, normal, component_ord}
use duet.FilePath.Spelling.{RawPath, split, components, component, leading, join, with_separator}
use duet.Sorted.{IsSorted}
use duet.Scan.Change.{added, modified, entry_path}
use duet.Actions.{Action, local, remote, action_path}
use duet.Sync.Window.{window_for_size}
use duet.Sync.Validate.{
  validate_canonical_entry_path, validate_relative_path, validate_relative_path_components,
  validate_component, for_each, safe_join, validate_signature_window, not_canonical, has_parent_dir,
  not_relative, names_no_entry,
}
use duet.Sync.Validate.Laws.{
  IsEntryPath, validate_canonical_entry_path_lem, validate_canonical_entry_path-components,
}
use duet.Sync.Validate.Joined.{safe_join_lem}
use duet.Sync.Validate.Strong.{validate_strong_actions}
use duet.Sync.Validate.Entries.{AllEntries, IsStrong, validate_strong_actions_lem}
use duet.Sync.Validate.Staged.{validate_staged_structure}
use duet.Sync.Validate.Staged.Laws.{FitsStaging, validate_staged_structure_lem}
use duet.Sync.Tuning.{signature_window_config, preferred}
use duet.Sync.Tuning
use duet.Sync.Tuning.Laws.{window_for_size-validate_signature_window}
use duet.Tests.Samples.{path_a, path_b, file_entry, manifest}

-- `a/b`, `./a`, `a/../b`, `a//b` and `/a`
abbrev raw_ab : RawPath
raw_ab = b'a' ∷ b'/' ∷ b'b' ∷ []

abbrev raw_dot : RawPath
raw_dot = b'.' ∷ b'/' ∷ b'a' ∷ []

abbrev raw_up : RawPath
raw_up = b'a' ∷ b'/' ∷ b'.' ∷ b'.' ∷ b'/' ∷ b'b' ∷ []

abbrev raw_twice : RawPath
raw_twice = b'a' ∷ b'/' ∷ b'/' ∷ b'b' ∷ []

abbrev raw_root : RawPath
raw_root = b'/' ∷ b'a' ∷ []

accepts_names : validate_canonical_entry_path raw_ab ≡ ok tt
unfolding validate_canonical_entry_path validate_relative_path validate_relative_path_components
    validate_component for_each components component leading split
accepts_names = refl

refuses_dot : validate_canonical_entry_path raw_dot ≡ err not_canonical
unfolding validate_canonical_entry_path validate_relative_path validate_relative_path_components
    validate_component for_each components component leading split
refuses_dot = refl

refuses_up : validate_canonical_entry_path raw_up ≡ err has_parent_dir
unfolding validate_canonical_entry_path validate_relative_path validate_relative_path_components
    validate_component for_each components component leading split
refuses_up = refl

refuses_twice : validate_canonical_entry_path raw_twice ≡ err not_canonical
unfolding validate_canonical_entry_path validate_relative_path validate_relative_path_components
    validate_component for_each components component leading split
refuses_twice = refl

refuses_root : validate_canonical_entry_path raw_root ≡ err not_relative
unfolding validate_canonical_entry_path validate_relative_path validate_relative_path_components
    validate_component for_each components component leading split
refuses_root = refl

refuses_nothing : validate_canonical_entry_path [] ≡ err names_no_entry
unfolding validate_canonical_entry_path validate_relative_path validate_relative_path_components
    validate_component for_each components component leading split
refuses_nothing = refl

validate_canonical_entry_path_lem_example :
    (validate_canonical_entry_path raw_ab ≡ ok tt) ↔ IsEntryPath raw_ab
validate_canonical_entry_path_lem_example = validate_canonical_entry_path_lem raw_ab

validate_canonical_entry_path-components_example : raw_ab ≡ raw_ab
validate_canonical_entry_path-components_example =
    validate_canonical_entry_path-components raw_ab raw_ab accepts_names accepts_names refl

joined : safe_join raw_ab raw_dot ≡ ok (b'a' ∷ b'/' ∷ b'b' ∷ b'/' ∷ b'.' ∷ b'/' ∷ b'a' ∷ [])
unfolding safe_join join with_separator validate_relative_path validate_relative_path_components
    validate_component for_each components component leading split
joined = refl

safe_join_lem_example :
    (name : List ℕ) × (names : List (List ℕ)) × (components
        (b'a' ∷ b'/' ∷ b'b' ∷ b'/' ∷ b'.' ∷ b'/' ∷ b'a' ∷ [])
      ≡ components raw_ab ++ map normal (name ∷ names))
safe_join_lem_example = safe_join_lem b'a' (b'/' ∷ b'b' ∷ []) raw_dot joined

abbrev actions : List Action
actions =
    remote (added (file_entry path_a 1))
    ∷ local (modified (file_entry path_b 1) (file_entry path_b 2))
    ∷ []

abbrev spelt : FilePath → RawPath
spelt (normal name ∷ []) = name
spelt _ = []

abbrev path_bytes : Entry → RawPath
path_bytes e = spelt e.path

validate_strong_actions_lem_example :
    (validate_strong_actions path_bytes actions ≡ ok tt)
    ↔ All (AllEntries (IsStrong path_bytes)) actions
validate_strong_actions_lem_example = validate_strong_actions_lem path_bytes actions

validate_staged_structure_lem_example :
    (validate_staged_structure actions (manifest 1) ≡ ok tt)
    ↔ (All FitsStaging actions × IsSorted action_path actions × IsSorted entry_path (manifest 1))
validate_staged_structure_lem_example = validate_staged_structure_lem actions (manifest 1)

window_for_size-validate_signature_window_example :
    (w : ℕ) × (window_for_size (signature_window_config preferred) 1000 ≡ ok w)
    × (validate_signature_window w ≡ ok tt)
window_for_size-validate_signature_window_example =
    window_for_size-validate_signature_window preferred 1000 (omega arith)
