-- ===== src/FilePath/Spelling.antt =====
-- The bytes of a Unix path, the components that `Path::components` reads from them, and
-- `PathBuf::join`.
pub mod Laws
pub mod Join
use duet.Prelude.{
  ℕ, List, [], ◌∷◌, ◌++◌, Bool, true, false, ◌==◌, Option, none, some, filter_map, if◌then◌else◌,
}
use duet.FilePath.{FilePath, Component, normal, parent_dir, cur_dir, root_dir}

abbrev pub RawPath : Type 0
RawPath = List ℕ

abbrev pub slash : ℕ
slash = b'/'

abbrev pub dot : ℕ
dot = b'.'

-- A byte put before the first part.
abbrev pub cons_part : ℕ → List (List ℕ) → List (List ℕ)
cons_part byte [] = (byte ∷ []) ∷ []
cons_part byte (part ∷ parts) = (byte ∷ part) ∷ parts

-- `bytes.split(|byte| *byte == b'/')`: a path without a slash is one part, the empty path too.
unfoldable pub split : RawPath → List (List ℕ)
split [] = [] ∷ []
split (byte ∷ rest) =
    let parts = split rest in if byte == slash then [] ∷ parts else cons_part byte parts

-- `component == b"."`
abbrev pub is_dot : List ℕ → Bool
is_dot (byte ∷ []) = byte == dot
is_dot _ = false

abbrev pub is_dot_dot : List ℕ → Bool
is_dot_dot (a ∷ b ∷ []) = if a == dot then b == dot else false
is_dot_dot _ = false

abbrev pub is_empty : List ℕ → Bool
is_empty [] = true
is_empty (_ ∷ _) = false

-- A part that is not the first: an empty part and `.` name nothing.
unfoldable pub component : List ℕ → Option Component
component part =
    if is_empty part
    then none
    else if is_dot part
    then none
    else if is_dot_dot part
    then some parent_dir
    else some (normal part)

-- A leading slash is the root; a leading `.` is kept.
unfoldable pub leading : List (List ℕ) → FilePath
leading [] = []
leading ([] ∷ []) = []
leading ([] ∷ part ∷ parts) = root_dir ∷ filter_map component (part ∷ parts)
leading ((byte ∷ bytes) ∷ parts) =
    if is_dot (byte ∷ bytes)
    then cur_dir ∷ filter_map component parts
    else filter_map component ((byte ∷ bytes) ∷ parts)

unfoldable pub components : RawPath → FilePath
components raw = leading (split raw)

-- The names written with a slash between them.
unfoldable pub spell : List (List ℕ) → RawPath
spell [] = []
spell (name ∷ []) = name
spell (name ∷ next ∷ names) = name ++ slash ∷ spell (next ∷ names)

-- A separator unless the base is empty or ends with one.
unfoldable pub with_separator : RawPath → RawPath
with_separator [] = []
with_separator (byte ∷ []) = if byte == slash then byte ∷ [] else byte ∷ slash ∷ []
with_separator (byte ∷ next ∷ rest) = byte ∷ with_separator (next ∷ rest)

abbrev pub is_absolute : RawPath → Bool
is_absolute [] = false
is_absolute (byte ∷ _) = byte == slash

-- `Path::join`: an absolute path replaces the base.
unfoldable pub join : RawPath → RawPath → RawPath
join base path = if is_absolute path then path else with_separator base ++ path
