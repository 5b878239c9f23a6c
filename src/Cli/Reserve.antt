-- ===== src/Cli/Reserve.antt =====
-- `StagingReserve::from_str` and `StagingLimit::from_str`. Reading a size with a unit is the
-- `byte_unit` crate's, a parameter: the number of bytes, of any size, if the text names one.
pub mod Laws
pub mod Bounds
use duet.Prelude.{
  ◌==◌, ℕ, ◌+◌, ◌*◌, ◌^◌, List, [], ◌∷◌, Bool, true, false, not, ◌&&◌, ◌||◌, ltb, leb, Option, none,
  some, Result, ok, err, guard, ◌>>=◌, ◌>>◌, length, all, if◌then◌else◌,
}
use duet.Ord.{◌=?◌, nat_ord}
use duet.Ord.Lexicographic.{list_ord}
use duet.Text.{Text, is_empty, trim, strip_suffix, split_once, is_ascii_digit, parse_u16, as_bytes}
use duet.Sync.Staging.{StagingReserve, bytes, basis_points}

pub data ReserveError : Type 0 where
  surrounded invalid_size size_exceeds zero_size : ReserveError
  not_a_number too_many_places out_of_range not_below_hundred : ReserveError
  -- a panic
  unwrap_failed : ReserveError

-- `Option::ok_or`
abbrev pub ok_or : ReserveError → Option ℕ → Result ReserveError ℕ
ok_or fault none = err fault
ok_or fault (some n) = ok n

unfoldable pub checked_u64 : ℕ → Result ReserveError ℕ
checked_u64 n = if ltb n (2 ^ 64) then ok n else err size_exceeds

unfoldable pub parse_size : (Text → Option ℕ) → Text → Result ReserveError ℕ
parse_size parse_str value = do
  guard (not (is_empty value || not (trim value =? value))) surrounded
  n ← ok_or invalid_size (parse_str value)
  checked_u64 n

abbrev pub unwrap_or_whole : Text → Option (Text × Text) → Text × Text × Bool
unwrap_or_whole percent none = (percent, [], false)
unwrap_or_whole percent (some (whole, fraction)) = (whole, fraction, true)

-- `split.unwrap_or((percent, ""))`, and whether there was a point.
unfoldable pub whole_and_fraction : Text → Text × Text × Bool
whole_and_fraction percent = unwrap_or_whole percent (split_once b'.' percent)

-- `value.checked_add(…)` and `checked_mul(100)` of `u16`.
unfoldable pub checked_u16 : ℕ → Result ReserveError ℕ
checked_u16 n = if ltb n 65536 then ok n else err out_of_range

unfoldable pub parsed_or : ReserveError → Text → Result ReserveError ℕ
parsed_or fault text = ok_or fault (parse_u16 text)

-- `parse().unwrap()`
unfoldable pub fraction_points : Text → Result ReserveError ℕ
fraction_points [] = ok 0
fraction_points (digit ∷ []) = do n ← parsed_or unwrap_failed (digit ∷ []); ok (n * 10)
fraction_points (first ∷ second ∷ rest) = parsed_or unwrap_failed (first ∷ second ∷ rest)

unfoldable pub percentage : Text → Text → Bool → Result ReserveError StagingReserve
percentage whole fraction has_point = do
  guard
      (not (
        is_empty whole
        || ((has_point && is_empty fraction)
            || (not (all is_ascii_digit (as_bytes whole))
                || (ltb 2 (length (as_bytes fraction))
                    || not (all is_ascii_digit (as_bytes fraction)))))))
      too_many_places
  whole_points ← parsed_or out_of_range whole
  fraction_part ← fraction_points fraction
  scaled ← checked_u16 (whole_points * 100)
  sum ← checked_u16 (scaled + fraction_part)
  guard (ltb sum 10000) not_below_hundred
  ok (basis_points sum)

-- `StagingReserve::from_str`
unfoldable pub from_str : (Text → Option ℕ) → Text → Result ReserveError StagingReserve
from_str parse_str value = elim (strip_suffix b'%' value) [
  | none ↦ (do n ← parse_size parse_str value; ok (bytes n))
  | some percent ↦ (do
    guard (not (is_empty percent || not (trim percent =? percent))) not_a_number
    let (whole, fraction, has_point) = whole_and_fraction percent
    percentage whole fraction has_point)
]

-- `StagingLimit::from_str`
unfoldable pub limit_from_str : (Text → Option ℕ) → Text → Result ReserveError ℕ
limit_from_str parse_str value = do
  n ← parse_size parse_str value
  guard (not (n == 0)) zero_size
  ok n
