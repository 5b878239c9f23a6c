-- ===== src/Orchestrator/Dependencies.antt =====
-- `filter_unresolved_conflict_dependencies`: what can be applied while conflicts are open.
pub mod Laws
use Prim.Native.Nat.Ordering.{lt, eq, gt}
use duet.Prelude.{
  Bool, true, false, not, ◌&&◌, ◌||◌, Option, none, some, List, [], ◌∷◌, map, filter, any,
  get_elem?, partition_point,
}
use duet.Ord.{Ord, ◌=?◌}
use duet.Ord.Lexicographic.{list_ord, starts_with}
use duet.FilePath.{FilePath, Component, root_dir, component_ord}
use duet.Scan.Change.{Change, added, removed, modified}
use duet.Actions.{
  Action, local, remote, conflict, resolved_local, resolved_remote, identical, action_path,
  is_unresolved_conflict,
}

unfoldable pub change_removes_directory : Change → Bool
change_removes_directory (removed e) = e.is_dir
change_removes_directory (modified a b) = a.is_dir && not b.is_dir
change_removes_directory (added _) = false

unfoldable pub action_removes_directory : Action → Bool
action_removes_directory (local c) = change_removes_directory c
action_removes_directory (remote c) = change_removes_directory c
action_removes_directory (resolved_local _ _ c) = change_removes_directory c
action_removes_directory (resolved_remote _ _ c) = change_removes_directory c
action_removes_directory (identical l r) = change_removes_directory l || change_removes_directory r
action_removes_directory (conflict _ _) = false

-- The initial parts of a path other than itself.
unfoldable pub prefixes : FilePath → List FilePath
prefixes [] = []
prefixes (x ∷ xs) = [] ∷ map (λ p. x ∷ p) (prefixes xs)

-- `ancestors().skip(1)`, shortest first; the root has no parent.
unfoldable pub parents : FilePath → List FilePath
parents [] = []
parents (root_dir ∷ xs) = map (λ p. root_dir ∷ p) (prefixes xs)
parents (x ∷ xs) = prefixes (x ∷ xs)

-- `conflict <= path`
unfoldable pub at_most : FilePath → FilePath → Bool
at_most path conflict' = elim (list_ord.cmp conflict' path) [ lt ↦ true | eq ↦ true | gt ↦ false ]

unfoldable pub below_unresolved : List FilePath → FilePath → Bool
below_unresolved unresolved path =
    any (λ ancestor. any (λ c. ancestor =? c) unresolved) (parents path)

-- The binary search for a conflict under `path`.
unfoldable pub holds_unresolved : List FilePath → FilePath → Bool
holds_unresolved unresolved path =
    elim (get_elem? unresolved (partition_point (at_most path) unresolved)) [
      | none ↦ false
      | some c ↦ starts_with c path
    ]

unfoldable pub depends : List FilePath → Action → Bool
depends unresolved a =
    below_unresolved unresolved (action_path a)
    || (action_removes_directory a && holds_unresolved unresolved (action_path a))

-- The `filter_map`, with the paths that it pushes to `skipped`.
unfoldable pub keep_active : List FilePath → List Action → List Action × List FilePath
keep_active unresolved [] = ([], [])
keep_active unresolved (a ∷ actions) =
    let (active, skipped) = keep_active unresolved actions in
    elim (is_unresolved_conflict a) [
      | true ↦ (active, skipped)
      | false ↦ elim (depends unresolved a) [
        | true ↦ (active, action_path a ∷ skipped)
        | false ↦ (a ∷ active, skipped)
      ]
    ]

unfoldable pub unresolved_paths : List Action → List FilePath
unresolved_paths actions = map action_path (filter is_unresolved_conflict actions)

unfoldable pub filter_unresolved_conflict_dependencies : List Action → List Action × List FilePath
filter_unresolved_conflict_dependencies actions = keep_active (unresolved_paths actions) actions
