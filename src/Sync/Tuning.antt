-- ===== src/Sync/Tuning.antt =====
-- `SyncTuning`: the sizes of windows, chunks and batches that two peers agree on. The fields are
-- `u32` in the source; nothing here adds to them.
pub mod Laws
use duet.Prelude.{ℕ, ◌*◌, min, max, ltb, if◌then◌else◌, Option, none, some}
use duet.Sync.Window.{SignatureWindowConfig}
use duet.Sync.Validate.{max_signature_window}

pub record SyncTuning : Type 0 where
  pub signature_window_min : ℕ
  pub signature_window_max : ℕ
  pub detail_chunk_bytes : ℕ
  pub detail_batch_frames : ℕ
  pub detail_batch_payload_bytes : ℕ

unfoldable pub max_detail_chunk_bytes : ℕ
max_detail_chunk_bytes = 64 * 1024 * 1024

unfoldable pub max_detail_batch_frames : ℕ
max_detail_batch_frames = 4096

unfoldable pub max_detail_batch_payload_bytes : ℕ
max_detail_batch_payload_bytes = 64 * 1024 * 1024

-- `LEGACY_SIGNATURE_WINDOW` and the other constants of the two presets.
unfoldable pub legacy_signature_window : ℕ
legacy_signature_window = 1024

unfoldable pub legacy : SyncTuning
unfolding legacy_signature_window
legacy = record {
  signature_window_min = legacy_signature_window;
  signature_window_max = legacy_signature_window;
  detail_chunk_bytes = 1024 * 1024;
  detail_batch_frames = 256;
  detail_batch_payload_bytes = 1024 * 1024;
}

unfoldable pub preferred : SyncTuning
unfolding legacy_signature_window
preferred = record {
  signature_window_min = legacy_signature_window;
  signature_window_max = 64 * 1024;
  detail_chunk_bytes = 64 * 1024 * 1024;
  detail_batch_frames = 256;
  detail_batch_payload_bytes = 64 * 1024 * 1024;
}

-- `Ord::clamp`; its assertion is that `low` is at most `high`.
unfoldable pub clamp : ℕ → ℕ → ℕ → ℕ
clamp low high value = if ltb value low then low else if ltb high value then high else value

-- `SyncTuning::normalized`
unfoldable pub normalized : SyncTuning → SyncTuning
normalized t =
    let low = clamp 1 max_signature_window t.signature_window_min in
    record {
      signature_window_min = low;
      signature_window_max = clamp low max_signature_window t.signature_window_max;
      detail_chunk_bytes = clamp 1 max_detail_chunk_bytes t.detail_chunk_bytes;
      detail_batch_frames = clamp 1 max_detail_batch_frames t.detail_batch_frames;
      detail_batch_payload_bytes =
          clamp 1 max_detail_batch_payload_bytes t.detail_batch_payload_bytes;
    }

-- The environment variables that override a field.
pub data Setting : Type 0 where
  window_min window_max chunk_bytes batch_frames batch_payload_bytes : Setting

abbrev pub override : Option ℕ → ℕ → ℕ
override none value = value
override (some given) value = given

-- `get` is the lookup of a variable, with what `parse` makes of its text.
unfoldable pub with_env_overrides_from : SyncTuning → (Setting → Option ℕ) → SyncTuning
with_env_overrides_from t get = normalized (record {
  signature_window_min = override (get window_min) t.signature_window_min;
  signature_window_max = override (get window_max) t.signature_window_max;
  detail_chunk_bytes = override (get chunk_bytes) t.detail_chunk_bytes;
  detail_batch_frames = override (get batch_frames) t.detail_batch_frames;
  detail_batch_payload_bytes = override (get batch_payload_bytes) t.detail_batch_payload_bytes;
})

unfoldable pub negotiate : SyncTuning → SyncTuning → SyncTuning
negotiate self other =
    let own = normalized self in
    let peer = normalized other in
    let low = max own.signature_window_min peer.signature_window_min in
    normalized (record {
      signature_window_min = low;
      signature_window_max = max (min own.signature_window_max peer.signature_window_max) low;
      detail_chunk_bytes = min own.detail_chunk_bytes peer.detail_chunk_bytes;
      detail_batch_frames = min own.detail_batch_frames peer.detail_batch_frames;
      detail_batch_payload_bytes =
          min own.detail_batch_payload_bytes peer.detail_batch_payload_bytes;
    })

unfoldable pub signature_window_config : SyncTuning → SignatureWindowConfig
signature_window_config t =
    let tuning = normalized t in
    record { min_window = tuning.signature_window_min; max_window = tuning.signature_window_max }

unfoldable pub preferred_with_env : (Setting → Option ℕ) → SyncTuning
preferred_with_env get = with_env_overrides_from preferred get

-- The three accessors normalize once more.
unfoldable pub chunk_bytes_of : SyncTuning → ℕ
chunk_bytes_of t = (normalized t).detail_chunk_bytes

unfoldable pub batch_frames_of : SyncTuning → ℕ
batch_frames_of t = (normalized t).detail_batch_frames

unfoldable pub batch_payload_bytes_of : SyncTuning → ℕ
batch_payload_bytes_of t = (normalized t).detail_batch_payload_bytes
