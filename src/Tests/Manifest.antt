-- ===== src/Tests/Manifest.antt =====
-- Manifests and snapshots.
use duet.Prelude.{some, List, [], ◌∷◌, ◌≡◌, refl, ok, map, if◌then◌else◌}
use duet.Ord.{nat_ord}
use duet.Ord.Lexicographic.{list_ord, cmp_list, starts_with}
use duet.FilePath.{component_ord, cmp_component, rank}
use duet.Sorted.{IsSorted, find}
use duet.Scan.Entry.{Entry, LegacyEntry, to_legacy_entry}
use duet.Scan.Change.{entry_path}
use duet.Scan.Scope.{ScanScope, selected, is_excluded, covered}
use duet.Manifest.{replace_scope}
use duet.Manifest.Laws.{replace_scope_lem}
use duet.Manifest.Snapshot.{Codec, legacy_v1, decode_entries, write_entries}
use duet.Manifest.Snapshot.Laws.{kept_by, snapshot_roundtrip}
use duet.Tests.Samples.{path_a, path_b, file_entry, manifest, manifest-IsSorted}

abbrev under_a : ScanScope
under_a = record { restrict = path_a; excludes = [] }

abbrev scanned : List Entry
scanned = file_entry path_a 7 ∷ []

replace_scope_lem_example :
    IsSorted entry_path (replace_scope (manifest 1) under_a scanned)
    × (find entry_path path_b (replace_scope (manifest 1) under_a scanned) ≡ (
        if selected under_a path_b
        then find entry_path path_b scanned
        else find entry_path path_b (manifest 1)))
unfolding list_ord cmp_list component_ord cmp_component nat_ord rank starts_with selected
    is_excluded covered
replace_scope_lem_example =
    replace_scope_lem (manifest 1) scanned under_a path_b (manifest-IsSorted 1) (tt, tt) (refl, tt)

-- One byte for one manifest, and nothing else to decode.
abbrev entries_codec : Codec (List Entry)
entries_codec = record { encode = λ es. 1 ∷ []; decode = λ contents. some (manifest 1, 1) }

abbrev legacy_codec : Codec (List LegacyEntry)
legacy_codec = record {
  encode = λ es. 1 ∷ [];
  decode = λ contents. some (map to_legacy_entry (manifest 1), 1);
}

snapshot_roundtrip_example :
    decode_entries entries_codec legacy_codec
      (write_entries entries_codec legacy_codec (manifest 1) legacy_v1)
    ≡ ok (record { entries = map (kept_by legacy_v1) (manifest 1); format = legacy_v1 })
unfolding starts_with nat_ord
snapshot_roundtrip_example =
    snapshot_roundtrip entries_codec legacy_codec (manifest 1) legacy_v1 refl refl refl
