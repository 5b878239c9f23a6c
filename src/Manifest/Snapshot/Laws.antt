-- ===== src/Manifest/Snapshot/Laws.antt =====
-- Reading back what was written.
use duet.Prelude.{◌∙◌, sym, false, none, some, List, [], ◌∷◌, map, length, ok, ◌≡◌, refl, arith, ap}
use duet.Ord.{nat_ord}
use duet.Ord.Lexicographic.{starts_with, starts_with_append}
use duet.Scan.Entry.{Entry, LegacyEntry, from_legacy_entry, to_legacy_entry}
use duet.Manifest.Snapshot.{
  SnapshotFormat, legacy_v1, v2, Codec, snapshot_magic, snapshot_version_v2, decode_entries,
  write_entries,
}

-- `bincode` reads back the value that it wrote, and takes all its bytes.
abbrev pub RoundTrips : {A : Type 0} → Codec A → A → Type 0
RoundTrips c a = c.decode (c.encode a) ≡ some (a, length (c.encode a))

-- What a format keeps of an entry.
abbrev pub kept_by : SnapshotFormat → Entry → Entry
kept_by v2 e = e
kept_by legacy_v1 e = record e { digest = none }

map_id : (es : List Entry) → map (kept_by v2) es ≡ es
map_id [] = refl
map_id (e ∷ es) = ap (λ l. e ∷ l) (map_id es)

map_legacy :
    (es : List Entry) → map from_legacy_entry (map to_legacy_entry es) ≡ map (kept_by legacy_v1) es
unfolding from_legacy_entry to_legacy_entry
map_legacy [] = refl
map_legacy (e ∷ es) = ap (λ l. kept_by legacy_v1 e ∷ l) (map_legacy es)

module _ (entries_codec : Codec (List Entry)) (legacy_codec : Codec (List LegacyEntry)) where
  v2_lem :
      (es : List Entry)
      → RoundTrips entries_codec es
      → decode_entries entries_codec legacy_codec (write_entries entries_codec legacy_codec es v2)
        ≡ ok (record { entries = es; format = v2 })
  unfolding decode_entries write_entries
  v2_lem es h =
      ground (
        arith,
        h,
        starts_with_append snapshot_magic (snapshot_version_v2 ∷ entries_codec.encode es),
      )

  v1_lem :
      (es : List Entry)
      → RoundTrips legacy_codec (map to_legacy_entry es)
      → starts_with (legacy_codec.encode (map to_legacy_entry es)) snapshot_magic ≡ false
      → decode_entries entries_codec legacy_codec
          (write_entries entries_codec legacy_codec es legacy_v1)
        ≡ ok (record {
          entries = map from_legacy_entry (map to_legacy_entry es);
          format = legacy_v1;
        })
  unfolding decode_entries write_entries
  v1_lem es h n = ground (arith, h, n)

-- A manifest written in either format reads back in that format, with every entry as the format
-- keeps it (the legacy one drops the digest), provided that `bincode` reads back what it writes and
-- that legacy bytes do not begin with the magic of the other format.
pub snapshot_roundtrip :
    (entries_codec : Codec (List Entry)) (legacy_codec : Codec (List LegacyEntry)) (es : List Entry)
    (format : SnapshotFormat)
    → RoundTrips entries_codec es
    → RoundTrips legacy_codec (map to_legacy_entry es)
    → starts_with (legacy_codec.encode (map to_legacy_entry es)) snapshot_magic ≡ false
    → decode_entries entries_codec legacy_codec (write_entries entries_codec legacy_codec es format)
      ≡ ok (record { entries = map (kept_by format) es; format = format })
snapshot_roundtrip entries_codec legacy_codec es v2 h k n =
    v2_lem entries_codec legacy_codec es h
    ∙ ap (λ (l : List Entry). ok (record { entries = l; format = v2 })) (sym (map_id es))
snapshot_roundtrip entries_codec legacy_codec es legacy_v1 h k n =
    v1_lem entries_codec legacy_codec es k n
    ∙ ap (λ (l : List Entry). ok (record { entries = l; format = legacy_v1 })) (map_legacy es)
