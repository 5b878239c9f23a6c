-- ===== src/Tests/Commit.antt =====
-- Removal blockers and the commit plan.
use duet.Prelude.{
  ◌%◌, ◌^◌, ◌+◌, ◌==◌, ℕ, List, [], ◌∷◌, Bool, true, false, not, ◌&&◌, ◌||◌, some, none, ok, any,
  map, filter_map, ◌≡◌, refl,
}
use duet.Ord.Lexicographic.{list_ord, starts_with, cmp_list}
use duet.Ord.{nat_ord}
use duet.FilePath.{FilePath, normal, cur_dir, component_ord, cmp_component, rank, file_name}
use duet.Scan.Location.{
  Location, include, exclude, canonicalize, collect_winners, btree_insert, canonical,
  canonical_relative_path,
}
use duet.Scan.Location.Laws.{last_rule}
use duet.Scan.Change.{added}
use duet.Actions.{Action, remote, local, reverse}
use duet.Sync.Detail.{apply_detail_kind}
use duet.Sync.Blockers.{
  ScanPolicy, RemovalBlockerPolicy, Pattern, new, compile_patterns, is_excluded, in_excludes,
  classify, by_patterns, should_prune, matching_pattern, find_match, excludes_path, best_location,
  location_applies, path_specificity, ignored, excluded,
}
use duet.Sync.Blockers.Inherit.{nearest}
use duet.Sync.Blockers.Laws.{is_excluded_lem}
use duet.Sync.Blockers.Pruning.{should_prune_lem, any_matches}
use duet.Sync.Commit.{source_detail_kind}
use duet.Sync.Commit.Laws.{kind_of, details-reverse}
use duet.Sync.Transfer.{
  DetailFrame, diff_copy, diff_bytes, diff_end, sum, payload_bytes, change_detail_bytes,
  action_detail_bytes, detail_transfer_bytes, detail_frame_transfer_bytes,
  detail_frames_transfer_bytes, can_stream_details, is_streamed, replaces_directory,
}
use duet.Sync.Transfer.Laws.{received, detail_transfer_bytes-reverse}
use duet.Tests.Samples.{path_a, path_b, path_ac, file_entry}

-- All is excluded but `a`; in it, `c` is.
abbrev rules : List Location
rules = exclude (cur_dir ∷ []) ∷ include path_a ∷ exclude path_ac ∷ []

abbrev scan_policy : ScanPolicy
scan_policy = record {
  locations = rules;
  ignore = (b'x' ∷ []) ∷ [];
  prune = (b'c' ∷ []) ∷ [];
  excludes = [];
}

-- The patterns of this test are names.
abbrev is_name : Pattern → List ℕ → Bool
is_name (a ∷ []) (b ∷ []) = a == b
is_name _ _ = false

abbrev policy : RemovalBlockerPolicy Pattern
policy = record {
  locations = exclude [] ∷ include path_a ∷ exclude path_ac ∷ [];
  ignore = (b'x' ∷ [], b'x' ∷ []) ∷ [];
  prune = (b'c' ∷ [], b'c' ∷ []) ∷ [];
  prune_ignored = true;
  excludes = [];
}

abbrev path_ax : FilePath
path_ax = normal (b'a' ∷ []) ∷ normal (b'x' ∷ []) ∷ []

new-policy : new some (some scan_policy) true ≡ ok policy
unfolding new compile_patterns canonicalize collect_winners btree_insert canonical
    canonical_relative_path list_ord cmp_list component_ord cmp_component rank nat_ord
new-policy = refl

classify_ax : classify is_name some policy path_ax ≡ ignored (b'x' ∷ [])
unfolding classify in_excludes is_excluded best_location location_applies path_specificity
    starts_with by_patterns matching_pattern find_match file_name list_ord cmp_list component_ord
    cmp_component rank nat_ord
classify_ax = refl

classify_b : classify is_name some policy path_b ≡ excluded
unfolding classify in_excludes is_excluded best_location location_applies path_specificity
    starts_with by_patterns matching_pattern find_match file_name list_ord cmp_list component_ord
    cmp_component rank nat_ord
classify_b = refl

is_excluded_lem_example : is_excluded policy path_ac ≡ (
    any (λ excluded_path. starts_with path_ac excluded_path) []
    || excludes_path (nearest (λ q. last_rule q none rules) path_ac))
is_excluded_lem_example = is_excluded_lem some scan_policy true policy path_ac new-policy

should_prune_lem_example : should_prune policy (classify is_name some policy path_ax) ≡ (
    not (
      any (λ excluded_path. starts_with path_ax excluded_path) []
      || excludes_path (nearest (λ q. last_rule q none rules) path_ax))
    && (any_matches some is_name some scan_policy.prune path_ax
        || (true && any_matches some is_name some scan_policy.ignore path_ax)))
should_prune_lem_example =
    should_prune_lem some is_name some scan_policy true policy path_ax new-policy

abbrev sent : List Action
sent = remote (added (file_entry path_a 1)) ∷ local (added (file_entry path_b 1)) ∷ []

details-reverse_example :
    map kind_of (filter_map source_detail_kind sent) ≡ filter_map apply_detail_kind (reverse sent)
details-reverse_example = details-reverse sent

detail_transfer_bytes-reverse_example :
    detail_transfer_bytes sent
    ≡ (sum (map received sent) + sum (map received (reverse sent))) % 2 ^ 64
detail_transfer_bytes-reverse_example = detail_transfer_bytes-reverse sent

-- Two files of ten bytes are moved by `sent`.
sent_bytes : detail_transfer_bytes sent ≡ 20
unfolding detail_transfer_bytes sum action_detail_bytes change_detail_bytes
sent_bytes = refl

-- Only the first two of these frames move any.
abbrev frames : List DetailFrame
frames =
    record { action_index = 0; payload = diff_copy 10 4 }
    ∷ record { action_index = 0; payload = diff_bytes (1 ∷ 2 ∷ []) }
    ∷ record { action_index = 0; payload = diff_end }
    ∷ []

frames_bytes : detail_frames_transfer_bytes frames ≡ 6
unfolding detail_frames_transfer_bytes detail_frame_transfer_bytes payload_bytes sum
frames_bytes = refl

sent_is_streamed : can_stream_details sent ≡ true
unfolding can_stream_details is_streamed replaces_directory
sent_is_streamed = refl
