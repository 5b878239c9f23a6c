-- ===== src/Sync/Transfer.antt =====
-- The bytes that details move, the frames they move in, and whether a plan's details can be
-- streamed. A sum of `u64` keeps the low 64 bits, as in a release build.
pub mod Laws
use duet.Prelude.{
  ℕ, ◌+◌, ◌^◌, ◌%◌, length, map, all, Bool, true, false, not, ◌&&◌, ◌||◌, List, [], ◌∷◌,
  if◌then◌else◌,
}
use duet.Scan.Entry.{Entry, is_file, same_contents}
use duet.Scan.Change.{Change, added, removed, modified}
use duet.Actions.{Action, local, remote, conflict, resolved_local, resolved_remote, identical}

pub data DetailPayload : Type 0 where
  file_begin : DetailPayload
  file_bytes : List ℕ → DetailPayload
  file_end : DetailPayload
  diff_begin : DetailPayload
  diff_copy : (offset len : ℕ) → DetailPayload
  diff_bytes : List ℕ → DetailPayload
  diff_end : DetailPayload

pub record DetailFrame : Type 0 where
  pub action_index : ℕ
  pub payload : DetailPayload

unfoldable pub sum : List ℕ → ℕ
sum [] = 0
sum (n ∷ numbers) = (n + sum numbers) % 2 ^ 64

unfoldable pub payload_bytes : DetailPayload → ℕ
payload_bytes (file_bytes bytes) = length bytes
payload_bytes (diff_bytes bytes) = length bytes
payload_bytes (diff_copy _ len) = len
payload_bytes file_begin = 0
payload_bytes file_end = 0
payload_bytes diff_begin = 0
payload_bytes diff_end = 0

unfoldable pub detail_frame_transfer_bytes : DetailFrame → ℕ
detail_frame_transfer_bytes frame = payload_bytes frame.payload

unfoldable pub detail_frames_transfer_bytes : List DetailFrame → ℕ
detail_frames_transfer_bytes frames = sum (map detail_frame_transfer_bytes frames)

unfoldable pub change_detail_bytes : Change → ℕ
change_detail_bytes (removed _) = 0
change_detail_bytes (added entry) = if is_file entry then entry.size else 0
change_detail_bytes (modified old new) =
    if is_file new && (not (is_file old) || not (same_contents old new)) then new.size else 0

unfoldable pub action_detail_bytes : Action → ℕ
action_detail_bytes (local change) = change_detail_bytes change
action_detail_bytes (remote change) = change_detail_bytes change
action_detail_bytes (resolved_local _ _ change) = change_detail_bytes change
action_detail_bytes (resolved_remote _ _ change) = change_detail_bytes change
action_detail_bytes (conflict _ _) = 0
action_detail_bytes (identical _ _) = 0

unfoldable pub detail_transfer_bytes : List Action → ℕ
detail_transfer_bytes actions = sum (map action_detail_bytes actions)

-- `matches!(change, Change::Modified(old, new) if old.is_dir() && !new.is_dir())`
unfoldable pub replaces_directory : Change → Bool
replaces_directory (modified old new) = old.is_dir && not new.is_dir
replaces_directory (added _) = false
replaces_directory (removed _) = false

unfoldable pub is_streamed : Action → Bool
is_streamed (local change) = not (replaces_directory change)
is_streamed (remote change) = not (replaces_directory change)
is_streamed (resolved_local _ _ change) = not (replaces_directory change)
is_streamed (resolved_remote _ _ change) = not (replaces_directory change)
is_streamed (conflict _ _) = true
is_streamed (identical _ _) = true

unfoldable pub can_stream_details : List Action → Bool
can_stream_details actions = all is_streamed actions
