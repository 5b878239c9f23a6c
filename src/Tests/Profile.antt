-- ===== src/Tests/Profile.antt =====
-- A profile's file, reserves and ids.
use duet.Prelude.{ℕ, List, [], ◌∷◌, ◌≡◌, refl, arith, Option, none, some, ok, err, true}
use duet.Ord.{nat_ord}
use duet.Ord.Lexicographic.{list_ord, cmp_list}
use duet.FilePath.Spelling.{components, component, leading, split}
use duet.FilePath.Spelling.Laws.{IsName}
use duet.Text.{
  strip_prefix, Text, trim, trim_start, trim_end, is_whitespace, strip_suffix, split_once,
  is_ascii_digit, parse_u16, decimal, utf8, as_bytes,
}
use duet.Sync.Staging.{basis_points}
use duet.Cli.Reserve.{
  from_str, percentage, whole_and_fraction, fraction_points, parsed_or, checked_u16,
  not_below_hundred,
}
use duet.Cli.Reserve.Bounds.{IsSound, from_str-IsSound}
use duet.Profile.{
  header, parse_file, parse_lines, parse_line, parse_found, parse_in, parse_location, cannot_parse,
}
use duet.Profile.Roundtrip.{Written, CanWrite, write, meaning, parse_file-write}
use duet.Profile.Names.{validate_profile_name, validate_remote_state_id, invalid_profile_name}
use duet.Profile.Names.Laws.{validate_remote_state_id_lem}

-- No text is a size.
abbrev no_size : Text → Option ℕ
no_size _ = none

-- `5%` and `100%`
abbrev five : Text
five = b'5' ∷ b'%' ∷ []

abbrev hundred : Text
hundred = b'1' ∷ b'0' ∷ b'0' ∷ b'%' ∷ []

reads_five : from_str no_size five ≡ ok (basis_points 500)
unfolding from_str percentage whole_and_fraction fraction_points parsed_or checked_u16 trim
    trim_start trim_end is_whitespace strip_suffix split_once is_ascii_digit parse_u16 decimal utf8
    as_bytes list_ord cmp_list nat_ord
reads_five = refl

refuses_hundred : from_str no_size hundred ≡ err not_below_hundred
unfolding from_str percentage whole_and_fraction fraction_points parsed_or checked_u16 trim
    trim_start trim_end is_whitespace strip_suffix split_once is_ascii_digit parse_u16 decimal utf8
    as_bytes list_ord cmp_list nat_ord
refuses_hundred = refl

from_str-IsSound_example : IsSound (from_str no_size hundred)
from_str-IsSound_example = from_str-IsSound no_size hundred

-- A profile of `/l` and `r /r` with `+a`, one pattern each, and a reserve of 12.50%.
abbrev written : Written
written = record {
  local = b'/' ∷ b'l' ∷ [];
  remote = b'r' ∷ b' ' ∷ b'/' ∷ b'r' ∷ [];
  rules = (true, b'a' ∷ []) ∷ [];
  ignore = (b'*' ∷ []) ∷ [];
  prune = (b'p' ∷ []) ∷ [];
  points = 1250;
}

written-CanWrite : CanWrite written
unfolding trim trim_start trim_end is_whitespace header list_ord cmp_list nat_ord
written-CanWrite = record {
  places = (refl, refl);
  rules = ((refl, refl), tt);
  ignore = ((refl, refl), tt);
  prune = ((refl, refl), tt);
  points = omega arith;
}

parse_file-write_example : parse_file no_size (write written) ≡ ok (meaning written)
parse_file-write_example = parse_file-write no_size written written-CanWrite

-- A rule without a sign.
abbrev unsigned : List (Option Text)
unsigned = some (b'l' ∷ []) ∷ some (b'r' ∷ []) ∷ some (b'a' ∷ []) ∷ []

refuses_unsigned : parse_file no_size unsigned ≡ err (cannot_parse (b'a' ∷ []))
unfolding parse_file parse_lines parse_line parse_found parse_in parse_location strip_prefix trim
    trim_start trim_end is_whitespace header list_ord cmp_list nat_ord
refuses_unsigned = refl

abbrev id : Text
id = b'0' ∷ b'f' ∷ []

accepts_id : validate_remote_state_id id ≡ ok tt
unfolding validate_remote_state_id
accepts_id = refl

validate_remote_state_id_lem_example : (as_bytes id ≡ id) × IsName (as_bytes id)
validate_remote_state_id_lem_example = validate_remote_state_id_lem id accepts_id

-- `w/` names no file, but it is accepted as the name of a profile; `w/o` is not.
accepts_slash : validate_profile_name (b'w' ∷ b'/' ∷ []) ≡ ok tt
unfolding validate_profile_name components component leading split as_bytes utf8
accepts_slash = refl

refuses_two_names : validate_profile_name (b'w' ∷ b'/' ∷ b'o' ∷ []) ≡ err invalid_profile_name
unfolding validate_profile_name components component leading split as_bytes utf8
refuses_two_names = refl
