-- ===== src/Sync/Tuning/Laws.antt =====
-- Two peers agree on one tuning, and the windows made with it pass the check of signatures.
use duet.Prelude.{◌⊎◌, ℕ, ◌+◌, ◌^◌, ◌≤◌, ◌<◌, ◌≡◌, refl, arith, ok}
use duet.Sync.Window
use duet.Sync.Window.{window_for_size}
use duet.Sync.Window.Laws.{window_for_size_lem}
use duet.Sync.Validate.{max_signature_window, validate_signature_window}
use duet.Sync.Tuning.{
  SyncTuning, normalized, signature_window_config, clamp, max_detail_chunk_bytes,
  max_detail_batch_frames, max_detail_batch_payload_bytes,
}

clamp-bounds :
    (low high value : ℕ) → low ≤ high → (low ≤ clamp low high value) × (clamp low high value ≤ high)
unfolding clamp
clamp-bounds low high value h = (ground arith, ground arith)

clamp-id : (low high value : ℕ) → low ≤ value → value ≤ high → clamp low high value ≡ value
unfolding clamp
clamp-id low high value h k = ground arith

-- The bounds that a normalized tuning keeps.
pub record IsNormalized (t : SyncTuning) : Type 0 where
  pub window_min : (1 ≤ t.signature_window_min) × (t.signature_window_min ≤ t.signature_window_max)
  pub window_max : t.signature_window_max ≤ max_signature_window
  pub chunk : (1 ≤ t.detail_chunk_bytes) × (t.detail_chunk_bytes ≤ max_detail_chunk_bytes)
  pub frames : (1 ≤ t.detail_batch_frames) × (t.detail_batch_frames ≤ max_detail_batch_frames)
  pub payload :
      (1 ≤ t.detail_batch_payload_bytes)
      × (t.detail_batch_payload_bytes ≤ max_detail_batch_payload_bytes)

normalized-IsNormalized : (t : SyncTuning) → IsNormalized (normalized t)
unfolding normalized max_signature_window max_detail_chunk_bytes max_detail_batch_frames
    max_detail_batch_payload_bytes
normalized-IsNormalized t =
    let (a, b) = clamp-bounds 1 max_signature_window t.signature_window_min (omega arith) in
    let (c, d) =
      clamp-bounds (clamp 1 max_signature_window t.signature_window_min) max_signature_window
        t.signature_window_max b in
    record {
      window_min = (a, c);
      window_max = d;
      chunk = clamp-bounds 1 max_detail_chunk_bytes t.detail_chunk_bytes (omega arith);
      frames = clamp-bounds 1 max_detail_batch_frames t.detail_batch_frames (omega arith);
      payload =
          clamp-bounds 1 max_detail_batch_payload_bytes t.detail_batch_payload_bytes (omega arith);
    }

normalized-id : (t : SyncTuning) → IsNormalized t → normalized t ≡ t
unfolding normalized
normalized-id t n =
    rw
      (
        clamp-id 1 max_signature_window t.signature_window_min n.window_min.0
            (omega (arith, n.window_min.1, n.window_max)),
        clamp-id t.signature_window_min max_signature_window t.signature_window_max n.window_min.1
            n.window_max,
        clamp-id 1 max_detail_chunk_bytes t.detail_chunk_bytes n.chunk.0 n.chunk.1,
        clamp-id 1 max_detail_batch_frames t.detail_batch_frames n.frames.0 n.frames.1,
        clamp-id 1 max_detail_batch_payload_bytes t.detail_batch_payload_bytes n.payload.0
            n.payload.1,
      )
      refl

-- The details that a tuning allows are no larger than another's, its windows are no smaller, and
-- they are no larger, save where only its least window is left.
pub record IsWithin (t own : SyncTuning) : Type 0 where
  pub window_min : own.signature_window_min ≤ t.signature_window_min
  pub window_max :
      (t.signature_window_max ≤ own.signature_window_max)
      ⊎ (t.signature_window_max ≡ t.signature_window_min)
  pub chunk : t.detail_chunk_bytes ≤ own.detail_chunk_bytes
  pub frames : t.detail_batch_frames ≤ own.detail_batch_frames
  pub payload : t.detail_batch_payload_bytes ≤ own.detail_batch_payload_bytes

config-bound :
    (t : SyncTuning)
    → IsNormalized (normalized t)
    → (Window.normalized (signature_window_config t)).max_window ≤ max_signature_window
unfolding Window.normalized signature_window_config
config-bound t n = omega (arith, n.window_min.0, n.window_min.1, n.window_max)

-- For every tuning and every size whose successor fits 64 bits: the window that the tuning's
-- configuration gives is found, and a peer's check of signature windows accepts it.
pub window_for_size-validate_signature_window :
    (t : SyncTuning) (size : ℕ)
    → size + 1 < 2 ^ 64
    → (w : ℕ) × (window_for_size (signature_window_config t) size ≡ ok w)
      × (validate_signature_window w ≡ ok tt)
window_for_size-validate_signature_window t size small =
    let (w, found, positive, low, high) =
      window_for_size_lem (signature_window_config t) size small in
    (
      w,
      found,
      accepted w (omega (arith, positive, low))
          (omega (arith, high, config-bound t (normalized-IsNormalized t))),
    )
  where
    accepted : (w : ℕ) → 0 < w → w ≤ max_signature_window → validate_signature_window w ≡ ok tt
    accepted w p h = unfold validate_signature_window in ground arith
