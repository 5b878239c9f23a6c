-- ===== src/Profile.antt =====
-- profile.rs: the profile's file, its names and its ids. A file is the lines that its reader yields,
-- where `none` is a line that cannot be read.
pub mod Laws
pub mod Roundtrip
pub mod Names
use duet.Prelude.{
  zero, ℕ, suc, List, [], ◌∷◌, ◌++◌, Bool, true, false, not, ◌&&◌, ◌||◌, ◌==◌, Option, none, some,
  Result, ok, err, guard, ◌>>=◌, ◌>>◌, is_some, if◌then◌else◌,
}
use duet.Ord.{◌=?◌, nat_ord}
use duet.Ord.Lexicographic.{list_ord}
use duet.FilePath.{FilePath, cur_dir}
use duet.FilePath.Spelling.{components}
use duet.Text.{Text, is_empty, trim, strip_prefix, split_once, as_bytes}
use duet.Scan.Location.{Location, include, exclude}
use duet.Sync.Staging.{StagingReserve}
use duet.Cli.Reserve.{ReserveError, from_str}

pub record Profile : Type 0 where
  pub local : Text
  pub remote : Text
  pub locations : List Location
  pub ignore : List Text
  pub prune : List Text
  pub staging_reserve : Option StagingReserve

unfoldable pub scan_ignore : Profile → List Text
scan_ignore p = p.ignore ++ p.prune

pub data ProfileSection : Type 0 where
  locations_section ignore_section prune_section staging_section : ProfileSection

pub data ProfileError : Type 0 where
  unreadable duplicate_reserve : ProfileError
  cannot_parse : Text → ProfileError
  invalid_reserve : ReserveError → ProfileError

-- What the `for` over the lines carries. `found` is the source's counter `locations`.
pub record Progress : Type 0 where
  pub profile : Profile
  pub found : ℕ
  pub section : ProfileSection

abbrev pub start : Progress
start = record {
  profile = record {
    local = [];
    remote = [];
    locations = exclude (cur_dir ∷ []) ∷ [];
    ignore = [];
    prune = [];
    staging_reserve = none;
  };
  found = 0;
  section = locations_section;
}

-- `[ignore]`, `[prune]`, `[staging]` and `reserve`
abbrev pub ignore_header : Text
ignore_header = b'[' ∷ b'i' ∷ b'g' ∷ b'n' ∷ b'o' ∷ b'r' ∷ b'e' ∷ b']' ∷ []

abbrev pub prune_header : Text
prune_header = b'[' ∷ b'p' ∷ b'r' ∷ b'u' ∷ b'n' ∷ b'e' ∷ b']' ∷ []

abbrev pub staging_header : Text
staging_header = b'[' ∷ b's' ∷ b't' ∷ b'a' ∷ b'g' ∷ b'i' ∷ b'n' ∷ b'g' ∷ b']' ∷ []

abbrev pub reserve_key : Text
reserve_key = b'r' ∷ b'e' ∷ b's' ∷ b'e' ∷ b'r' ∷ b'v' ∷ b'e' ∷ []

-- `PathBuf::from` of a text
unfoldable pub path_from : Text → FilePath
path_from text = components (as_bytes text)

-- `trimmed.is_empty() || trimmed.starts_with('#')`
abbrev pub is_blank : Text → Bool
is_blank [] = true
is_blank (c ∷ _) = c == b'#'

unfoldable pub header : Text → Option ProfileSection
header trimmed =
    if trimmed =? ignore_header
    then some ignore_section
    else if trimmed =? prune_header
    then some prune_section
    else if trimmed =? staging_header
    then some staging_section
    else none

unfoldable pub parse_location : Text → Text → Result ProfileError Location
parse_location line trimmed = elim (strip_prefix b'+' trimmed) [
  | some path ↦ ok (include (path_from (trim path)))
  | none ↦ elim (strip_prefix b'-' trimmed) [
    | some path ↦ ok (exclude (path_from (trim path)))
    | none ↦ err (cannot_parse line)
  ]
]

unfoldable pub add_location : Progress → Location → Progress
add_location s l = record s {
  profile = record s.profile { locations = s.profile.locations ++ l ∷ [] };
}

abbrev pub ok_or_line : Text → Option (Text × Text) → Result ProfileError (Text × Text)
ok_or_line line none = err (cannot_parse line)
ok_or_line line (some pair) = ok pair

abbrev pub as_profile_error :
    Result ReserveError StagingReserve → Result ProfileError StagingReserve
as_profile_error (err fault) = err (invalid_reserve fault)
as_profile_error (ok reserve) = ok reserve

-- Reading a size with a unit is the `byte_unit` crate's.
module _ (parse_str : Text → Option ℕ) where
  unfoldable pub parse_staging : Progress → Text → Text → Result ProfileError Progress
  parse_staging s line trimmed = do
    setting ← ok_or_line line (split_once b'=' trimmed)
    guard (trim setting.0 =? reserve_key && not (is_empty (trim setting.1))) (cannot_parse line)
    guard (not (is_some s.profile.staging_reserve)) duplicate_reserve
    reserve ← as_profile_error (from_str parse_str (trim setting.1))
    ok (record s { profile = record s.profile { staging_reserve = some reserve } })

  -- A line after the first two that is no header, in its section.
  unfoldable pub parse_in : ProfileSection → Progress → Text → Text → Result ProfileError Progress
  parse_in locations_section s line trimmed = do
    l ← parse_location line trimmed
    ok (add_location s l)
  parse_in ignore_section s line trimmed =
      ok (record s { profile = record s.profile { ignore = s.profile.ignore ++ line ∷ [] } })
  parse_in prune_section s line trimmed =
      ok (record s { profile = record s.profile { prune = s.profile.prune ++ line ∷ [] } })
  parse_in staging_section s line trimmed = parse_staging s line trimmed

  abbrev pub parse_setting :
      Option ProfileSection → Progress → Text → Text → Result ProfileError Progress
  parse_setting (some section) s line trimmed = ok (record s { section = section })
  parse_setting none s line trimmed = parse_in s.section s line trimmed

  -- A line that is not blank, by how many of the first two have been found.
  unfoldable pub parse_found : ℕ → Progress → Text → Text → Result ProfileError Progress
  parse_found zero s line trimmed =
      ok (record s { profile = record s.profile { local = line }; found = 1 })
  parse_found (suc zero) s line trimmed =
      ok (record s { profile = record s.profile { remote = line }; found = 2 })
  parse_found (suc (suc n)) s line trimmed = parse_setting (header trimmed) s line trimmed

  -- The body of the `for`.
  unfoldable pub parse_line : Progress → Text → Result ProfileError Progress
  parse_line s line = if is_blank (trim line) then ok s else parse_found s.found s line (trim line)

  unfoldable pub parse_lines : Progress → List (Option Text) → Result ProfileError Profile
  parse_lines s [] = ok s.profile
  parse_lines s (none ∷ lines) = err unreadable
  parse_lines s (some line ∷ lines) = do s' ← parse_line s line; parse_lines s' lines

  -- `parse_file`, from the lines of the file.
  unfoldable pub parse_file : List (Option Text) → Result ProfileError Profile
  parse_file lines = parse_lines start lines
