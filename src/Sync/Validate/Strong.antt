-- ===== src/Sync/Validate/Strong.antt =====
-- `validate_strong_actions`: paths and content digests of the actions of a strong peer.
use duet.Prelude.{List, Result, ok, err, ◌>>◌}
use duet.FilePath.Spelling.{RawPath}
use duet.Scan.Change.{Change, added, removed, modified}
use duet.Actions.{Action, local, remote, conflict, resolved_local, resolved_remote, identical}
use duet.Sync.Validate.{
  for_each, validate_strong_entry, validate_actions, InvalidPath, MissingDigest, Entry,
}

pub data StrongFault : Type 0 where
  invalid_path : InvalidPath → StrongFault
  missing_digest : MissingDigest → StrongFault

unfoldable pub validate_strong_change : Change → Result MissingDigest (Unit {0})
validate_strong_change (added entry) = validate_strong_entry entry
validate_strong_change (removed entry) = validate_strong_entry entry
validate_strong_change (modified old new) = validate_strong_entry old >> validate_strong_entry new

unfoldable pub validate_strong_action : Action → Result MissingDigest (Unit {0})
validate_strong_action (local change) = validate_strong_change change
validate_strong_action (remote change) = validate_strong_change change
validate_strong_action (conflict left right) =
    validate_strong_change left >> validate_strong_change right
validate_strong_action (identical left right) =
    validate_strong_change left >> validate_strong_change right
validate_strong_action (resolved_local left right change) =
    validate_strong_change left >> (validate_strong_change right >> validate_strong_change change)
validate_strong_action (resolved_remote left right change) =
    validate_strong_change left >> (validate_strong_change right >> validate_strong_change change)

-- An error of the one kind or the other, as the one `eyre` error of the source.
abbrev pub map_err {κ μ ℓ} :
    {E : Type κ} {F : Type μ} {A : Type ℓ} → (E → F) → Result E A → Result F A
map_err f (err fault) = err (f fault)
map_err f (ok value) = ok value

unfoldable pub validate_strong_actions :
    (Entry → RawPath) → List Action → Result StrongFault (Unit {0})
validate_strong_actions path_bytes actions = do
  map_err invalid_path (validate_actions path_bytes actions)
  map_err missing_digest (for_each validate_strong_action actions)
