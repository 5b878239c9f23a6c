-- ===== src/Profile/Names.antt =====
-- Names of profiles and ids of clients, which become names of files.
pub mod Laws
use duet.Prelude.{
  ◌-◌, ℕ, ◌+◌, ◌/◌, ◌%◌, ◌<◌, List, [], ◌∷◌, ◌++◌, Bool, true, false, not, ◌&&◌, ◌||◌, ◌==◌, ltb,
  Result, ok, err, guard, any, all, All, if◌then◌else◌, ◌≡◌, refl, arith, Bool-cases, inl, inr,
}
use duet.Ord.{◌=?◌, nat_ord}
use duet.Ord.Lexicographic.{list_ord}
use duet.FilePath.{FilePath, normal}
use duet.FilePath.Spelling.{RawPath, components, join, is_dot, is_dot_dot, slash}
use duet.FilePath.Spelling.Laws.{IsName, HasNoSlash}
use duet.Text.{Text, is_empty, between, utf8, as_bytes}

pub data InvalidName : Type 0 where
  invalid_profile_name invalid_remote_state_id : InvalidName

-- `str::contains` of a character
abbrev pub contains : ℕ → Text → Bool
contains c text = any (λ d. d == c) text

-- `(Some(Component::Normal(_)), None)`
abbrev pub is_one_name : FilePath → Bool
is_one_name (normal _ ∷ []) = true
is_one_name _ = false

unfoldable pub validate_profile_name : Text → Result InvalidName (Unit {0})
validate_profile_name name =
    if contains b'\\' name
    then err invalid_profile_name
    else guard
        (is_one_name (components (as_bytes name)) && (not (is_dot name) && not (is_dot_dot name)))
        invalid_profile_name

-- `char::is_ascii_alphanumeric`
abbrev pub is_ascii_alphanumeric : ℕ → Bool
is_ascii_alphanumeric c = between b'0' b'9' c || (between b'A' b'Z' c || between b'a' b'z' c)

abbrev pub is_id_char : ℕ → Bool
is_id_char c = is_ascii_alphanumeric c || (c == b'-' || (c == b'_' || c == b'.'))

unfoldable pub validate_remote_state_id : Text → Result InvalidName (Unit {0})
validate_remote_state_id id =
    guard
      (not (
        is_empty id
        || (is_dot id
            || (is_dot_dot id
                || (contains slash id || (contains b'\\' id || not (all is_id_char id)))))))
      invalid_remote_state_id

-- A hexadecimal digit, and `format!("{:02x}", byte)`.
unfoldable pub hex_digit : ℕ → ℕ
hex_digit n = if ltb n 10 then b'0' + n else b'a' + (n - 10)

unfoldable pub format_client_id : List ℕ → Text
format_client_id [] = []
format_client_id (byte ∷ bytes) =
    hex_digit (byte / 16) ∷ hex_digit (byte % 16) ∷ format_client_id bytes

unfoldable pub remote_state_in : RawPath → Text → RawPath
remote_state_in dir id = join dir (as_bytes id)
