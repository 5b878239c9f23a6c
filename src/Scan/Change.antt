-- ===== src/Scan/Change.antt =====
-- scan/change.rs: a change of one path, when two sides changed it alike, and the changes between
-- two manifests.
pub mod Laws
pub mod Same
use duet.Prelude.{
  ℕ, Result, ok, err, if◌then◌else◌, Bool, true, false, not, ◌&&◌, ◌||◌, Option, none, some, List,
  ◌==◌, filter_map, bool_eq,
}
use duet.Ord.{◌=?◌}
use duet.FilePath.{FilePath, component_ord}
use duet.Ord.Lexicographic.{list_ord}
use duet.MatchSorted.{matched}
use duet.Scan.Entry.{
  Entry, LegacyEntry, from_legacy_entry, to_legacy_entry, target_eq, digest_eq, by_digests,
  is_symlink, is_file, same_entry, ContentDigest,
}

pub data Change : Type 0 where
  added : Entry → Change
  removed : Entry → Change
  modified : Entry → Entry → Change

pub data LegacyChange : Type 0 where
  added : LegacyEntry → LegacyChange
  removed : LegacyEntry → LegacyChange
  modified : LegacyEntry → LegacyEntry → LegacyChange

unfoldable pub from_legacy_change : LegacyChange → Change
unfolding from_legacy_entry
from_legacy_change (LegacyChange.added e) = added (from_legacy_entry e)
from_legacy_change (LegacyChange.removed e) = removed (from_legacy_entry e)
from_legacy_change (LegacyChange.modified a b) =
    modified (from_legacy_entry a) (from_legacy_entry b)

unfoldable pub to_legacy_change : Change → LegacyChange
unfolding to_legacy_entry
to_legacy_change (added e) = LegacyChange.added (to_legacy_entry e)
to_legacy_change (removed e) = LegacyChange.removed (to_legacy_entry e)
to_legacy_change (modified a b) = LegacyChange.modified (to_legacy_entry a) (to_legacy_entry b)

pub data PathFault : Type 0 where
  -- a failed `assert_eq!` of two paths
  paths_differ : PathFault

-- `Change::path`
unfoldable pub asserted_path : Change → Result PathFault FilePath
asserted_path (added e) = ok e.path
asserted_path (removed e) = ok e.path
asserted_path (modified e1 e2) = if e1.path =? e2.path then ok e2.path else err paths_differ

-- The path that `asserted_path` gives where it gives one: the key in a sorted list of changes.
abbrev pub change_path : Change → FilePath
change_path (added e) = e.path
change_path (removed e) = e.path
change_path (modified e1 e2) = e2.path

abbrev pub change_is_dir : Change → Bool
change_is_dir (added e) = e.is_dir
change_is_dir (removed e) = e.is_dir
change_is_dir (modified e1 e2) = e1.is_dir || e2.is_dir

-- The `&&` chain over two new entries, with the comparison of file contents left open.
unfoldable pub same_result : (Entry → Entry → Bool) → Entry → Entry → Bool
same_result same_file d1 d2 =
    ((is_symlink d1 && is_symlink d2) || d1.mode == d2.mode)
    && (target_eq d1.target d2.target
        && (bool_eq d1.is_dir d2.is_dir
            && ((d1.is_dir || d1.mtime == d2.mtime) && (not (is_file d1) || same_file d1 d2))))

unfoldable pub same_with_file_contents : (Entry → Entry → Bool) → Change → Change → Bool
unfolding same_result
same_with_file_contents same_file (removed _) (removed _) = true
same_with_file_contents same_file (added d1) (added d2) = same_result same_file d1 d2
same_with_file_contents same_file (modified _ d1) (modified _ d2) = same_result same_file d1 d2
same_with_file_contents same_file _ _ = false

-- Digests where both files have one, else the 32-bit checksums.
unfoldable pub same_file_weak : Entry → Entry → Bool
unfolding digest_eq by_digests
same_file_weak d1 d2 = by_digests digest_eq (d1.checksum == d2.checksum) d1.digest d2.digest

unfoldable pub same_file_strong : Entry → Entry → Bool
unfolding digest_eq by_digests
same_file_strong d1 d2 = by_digests digest_eq false d1.digest d2.digest

unfoldable pub same : Change → Change → Bool
unfolding same_with_file_contents same_file_weak
same = same_with_file_contents same_file_weak

unfoldable pub same_strong : Change → Change → Bool
unfolding same_with_file_contents same_file_strong
same_strong = same_with_file_contents same_file_strong

-- One round of `ChangesIterator::next`; `none` is `continue`.
unfoldable pub change_between : Option Entry → Option Entry → Option Change
unfolding same_entry
change_between (some a) none = some (removed a)
change_between none (some b) = some (added b)
change_between (some a) (some b) = elim (same_entry a b) [
  | true ↦ none
  | false ↦ some (modified a b)
]
change_between none none = none

abbrev pub entry_path : Entry → FilePath
entry_path e = e.path

-- All changes that the iterator yields, in order.
unfoldable pub changes : List Entry → List Entry → List Change
unfolding matched change_between
changes it1 it2 = filter_map (λ p. change_between p.0 p.1) (matched entry_path it1 it2)
