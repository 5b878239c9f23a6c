-- ===== src/Sync/Validate.antt =====
-- sync.rs: the checks of paths, entries and actions that come from the other side.
pub mod Laws
pub mod Strong
pub mod Entries
pub mod Joined
pub mod Signatures
pub mod Staged
use duet.Prelude.{
  ◌*◌, ◌==◌, ltb, ℕ, List, [], ◌∷◌, Bool, true, false, not, ◌&&◌, ◌||◌, Option, none, some, Result,
  ok, err, guard, ◌>>=◌, ◌>>◌, any, if◌then◌else◌, is_some,
}
use duet.Ord.{Ord, ◌=?◌}
use duet.Ord.Lexicographic.{list_ord}
use duet.FilePath.{FilePath, Component, normal, parent_dir, cur_dir, root_dir, component_ord}
use duet.FilePath.Spelling.{RawPath, split, components, join, is_dot, is_empty}
use duet.Scan.Entry.{Entry, is_file}
use duet.Scan.Change.{Change, added, removed, modified}
use duet.Actions.{Action, local, remote, conflict, resolved_local, resolved_remote, identical}

pub data InvalidPath : Type 0 where
  has_parent_dir not_relative names_no_entry not_canonical : InvalidPath

unfoldable pub validate_component : Component → Result InvalidPath (Unit {0})
validate_component (normal _) = ok tt
validate_component cur_dir = ok tt
validate_component parent_dir = err has_parent_dir
validate_component root_dir = err not_relative

-- `for item in items { check(item)?; }`
unfoldable pub for_each {ℓ κ} :
    {A : Type ℓ} {E : Type κ} → (A → Result E (Unit {0})) → List A → Result E (Unit {0})
for_each check [] = ok tt
for_each check (item ∷ items) = check item >> for_each check items

unfoldable pub validate_relative_path_components : RawPath → Result InvalidPath (Unit {0})
validate_relative_path_components path = for_each validate_component (components path)

unfoldable pub validate_scan_path : RawPath → Result InvalidPath (Unit {0})
validate_scan_path path = validate_relative_path_components path

abbrev pub is_normal : Component → Bool
is_normal (normal _) = true
is_normal _ = false

unfoldable pub validate_relative_path : RawPath → Result InvalidPath (Unit {0})
validate_relative_path path = do
  validate_relative_path_components path
  guard (any is_normal (components path)) names_no_entry

unfoldable pub safe_join : RawPath → RawPath → Result InvalidPath RawPath
safe_join base path = do validate_relative_path path; ok (join base path)

unfoldable pub validate_canonical_entry_path : RawPath → Result InvalidPath (Unit {0})
validate_canonical_entry_path path = do
  validate_relative_path path
  guard (not (is_empty path || any (λ part. is_empty part || is_dot part) (split path)))
      not_canonical

-- The model's entry holds its path by components. `path_bytes` gives the bytes that this entry's path
-- has: entries of one path may be spelt differently.
module _ (path_bytes : Entry → RawPath) where
  unfoldable pub validate_entry_path : Entry → Result InvalidPath (Unit {0})
  validate_entry_path entry = validate_canonical_entry_path (path_bytes entry)

  unfoldable pub validate_entries : List Entry → Result InvalidPath (Unit {0})
  validate_entries entries = for_each validate_entry_path entries

  unfoldable pub validate_change_paths : Change → Result InvalidPath (Unit {0})
  validate_change_paths (added entry) = validate_entry_path entry
  validate_change_paths (removed entry) = validate_entry_path entry
  validate_change_paths (modified old new) = validate_entry_path old >> validate_entry_path new

  unfoldable pub validate_action : Action → Result InvalidPath (Unit {0})
  validate_action (local change) = validate_change_paths change
  validate_action (remote change) = validate_change_paths change
  validate_action (conflict left right) = validate_change_paths left >> validate_change_paths right
  validate_action (resolved_local left right change) =
      validate_change_paths left >> (validate_change_paths right >> validate_change_paths change)
  validate_action (resolved_remote left right change) =
      validate_change_paths left >> (validate_change_paths right >> validate_change_paths change)
  validate_action (identical left right) = validate_change_paths left >> validate_change_paths right

  unfoldable pub validate_actions : List Action → Result InvalidPath (Unit {0})
  validate_actions actions = for_each validate_action actions

unfoldable pub max_signature_window : ℕ
max_signature_window = 16 * 1024 * 1024

pub data SignatureFault : Type 0 where
  invalid_window missing_signature path_mismatch : SignatureFault

unfoldable pub validate_signature_window : ℕ → Result SignatureFault (Unit {0})
validate_signature_window window =
    guard (not (window == 0 || ltb max_signature_window window)) invalid_window

-- What a `Signature` or a `Delta` of rustsync is beside its window is left to a parameter.
module _ {ℓ} {S : Type ℓ} (window : S → ℕ) where
  unfoldable pub validate_delta : S → Result SignatureFault (Unit {0})
  validate_delta delta = validate_signature_window (window delta)

  -- The iterator's next signature, and the iterator after it.
  unfoldable pub next_signature :
      List (FilePath × S) → FilePath → Result SignatureFault (S × List (FilePath × S))
  next_signature [] path = err missing_signature
  next_signature ((found, signature) ∷ sig_iter) path = do
    guard (found =? path) path_mismatch
    validate_signature_window (window signature)
    ok (signature, sig_iter)

pub data MissingDigest : Type 0 where
  missing_content_digest : MissingDigest

unfoldable pub validate_strong_entry : Entry → Result MissingDigest (Unit {0})
validate_strong_entry entry =
    guard (not (is_file entry && not (is_some entry.digest))) missing_content_digest
