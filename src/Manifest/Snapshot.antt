-- ===== src/Manifest/Snapshot.antt =====
-- The snapshot file: its header, and the layout that has none.
pub mod Laws
use duet.Prelude.{
  ◌+◌, ℕ, Bool, true, false, Option, none, some, List, [], ◌∷◌, ◌++◌, map, length, get_elem?, drop,
  Result, ok, err, ◌>>=◌, ◌>>◌, guard, ◌==◌, if◌then◌else◌,
}
use duet.Ord.{nat_ord}
use duet.Ord.Lexicographic.{starts_with}
use duet.Scan.Entry.{Entry, LegacyEntry, from_legacy_entry, to_legacy_entry}

pub data SnapshotFormat : Type 0 where
  legacy_v1 v2 : SnapshotFormat

pub record LoadedEntries : Type 0 where
  pub entries : List Entry
  pub format : SnapshotFormat

pub data SnapshotError : Type 0 where
  truncated_header unsupported_version trailing_bytes undecodable : SnapshotError

-- `DUETSNP\0`
abbrev pub snapshot_magic : List ℕ
snapshot_magic = b'D' ∷ b'U' ∷ b'E' ∷ b'T' ∷ b'S' ∷ b'N' ∷ b'P' ∷ 0 ∷ []

abbrev pub snapshot_version_v2 : ℕ
snapshot_version_v2 = 2

-- What `bincode` does for one type: a decoder gives the value and how many bytes it took.
pub record Codec (A : Type 0) : Type 0 where
  pub encode : A → List ℕ
  pub decode : List ℕ → Option (A × ℕ)

abbrev pub decoded : {A : Type 0} → Option A → Result SnapshotError A
decoded none = err undecodable
decoded (some a) = ok a

abbrev pub ok_or : {A : Type 0} → SnapshotError → Option A → Result SnapshotError A
ok_or e none = err e
ok_or e (some a) = ok a

module _ (entries_codec : Codec (List Entry)) (legacy_codec : Codec (List LegacyEntry)) where
  unfoldable pub decode_entries : List ℕ → Result SnapshotError LoadedEntries
  decode_entries contents =
      if starts_with contents snapshot_magic
      then (do
        version ← ok_or truncated_header (get_elem? contents (length snapshot_magic))
        guard (version == snapshot_version_v2) unsupported_version
        let payload = drop (length snapshot_magic + 1) contents
        r ← decoded (entries_codec.decode payload)
        guard (r.1 == length payload) trailing_bytes
        ok (record { entries = r.0; format = v2 }))
      else (do
        r ← decoded (legacy_codec.decode contents)
        guard (r.1 == length contents) trailing_bytes
        ok (record { entries = map from_legacy_entry r.0; format = legacy_v1 }))

  unfoldable pub write_entries : List Entry → SnapshotFormat → List ℕ
  write_entries entries legacy_v1 = legacy_codec.encode (map to_legacy_entry entries)
  write_entries entries v2 = snapshot_magic ++ (snapshot_version_v2 ∷ entries_codec.encode entries)
