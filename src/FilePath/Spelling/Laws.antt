-- ===== src/FilePath/Spelling/Laws.antt =====
-- Paths that are names with single slashes between them: splitting and reading them back.
use duet.Prelude.{
  ℕ, List, [], ◌∷◌, ◌++◌, false, ◌==◌, some, filter_map, All, All-imp, map, ◌≡◌, refl, Bool-cases,
  ==_iff, inl, inr,
}
use duet.FilePath.{normal}
use duet.FilePath.Spelling.{
  RawPath, slash, split, cons_part, is_dot, is_dot_dot, is_empty, component, leading, components,
  spell,
}

-- No byte is a slash.
abbrev pub HasNoSlash : List ℕ → Type 0
HasNoSlash = All (λ byte. (byte == slash) ≡ false)

-- A part as a slash-separated path has it: not empty and not `.`.
abbrev pub IsPart : List ℕ → Type 0
IsPart part = HasNoSlash part × (is_empty part ≡ false) × (is_dot part ≡ false)

-- The name of an entry in a directory.
abbrev pub IsName : List ℕ → Type 0
IsName name = IsPart name × (is_dot_dot name ≡ false)

split-slash :
    (name rest : List ℕ) → HasNoSlash name → split (name ++ slash ∷ rest) ≡ name ∷ split rest
unfolding split
split-slash [] rest h = refl
split-slash (byte ∷ name) rest (p, h) = rw (p, split-slash name rest h)

split-name : (name : List ℕ) → HasNoSlash name → split name ≡ name ∷ []
unfolding split
split-name [] h = refl
split-name (byte ∷ name) (p, h) = rw (p, split-name name h)

pub split-spell :
    (name : List ℕ) (names : List (List ℕ))
    → All HasNoSlash (name ∷ names)
    → split (spell (name ∷ names)) ≡ name ∷ names
unfolding spell
split-spell name [] (h, _) = split-name name h
split-spell name (next ∷ names) (h, hs) =
    rw (split-slash name (spell (next ∷ names)) h, split-spell next names hs)

pub split-cons :
    (raw : RawPath) → (part : List ℕ) × (parts : List (List ℕ)) × (split raw ≡ part ∷ parts)
unfolding split
split-cons [] = ([], [], refl)
split-cons (byte ∷ raw) = elim (Bool-cases (byte == slash)) [
  | inl y ↦ ([], split raw, rw (y) refl)
  | inr n ↦ (let (part, parts, e) = split-cons raw in (byte ∷ part, parts, rw (n, e) refl))
]

spell-cons_part :
    (byte : ℕ) (parts : List (List ℕ)) → spell (cons_part byte parts) ≡ byte ∷ spell parts
unfolding spell
spell-cons_part byte [] = refl
spell-cons_part byte (part ∷ []) = refl
spell-cons_part byte (part ∷ next ∷ parts) = refl

spell-slash :
    (parts : List (List ℕ)) (part : List ℕ) (rest : List (List ℕ))
    → parts ≡ part ∷ rest
    → spell ([] ∷ parts) ≡ slash ∷ spell parts
unfolding spell
spell-slash parts part rest h = rw h refl

-- Splitting and writing the parts again gives the same bytes.
pub spell-split : (raw : RawPath) → spell (split raw) ≡ raw
unfolding spell split
spell-split [] = refl
spell-split (byte ∷ raw) = elim (Bool-cases (byte == slash)) [
  | inl y ↦
      (let (part, rest, e) = split-cons raw in
        rw (y, spell-slash (split raw) part rest e, spell-split raw, (==_iff byte slash).0 y) refl)
  | inr n ↦ rw (n, spell-cons_part byte (split raw), spell-split raw) refl
]

cons_part-HasNoSlash :
    (byte : ℕ) (parts : List (List ℕ))
    → (byte == slash) ≡ false
    → All HasNoSlash parts
    → All HasNoSlash (cons_part byte parts)
cons_part-HasNoSlash byte [] n h = ((n, tt), tt)
cons_part-HasNoSlash byte (part ∷ parts) n (p, h) = ((n, p), h)

pub split-HasNoSlash : (raw : RawPath) → All HasNoSlash (split raw)
unfolding split
split-HasNoSlash [] = (tt, tt)
split-HasNoSlash (byte ∷ raw) = elim (Bool-cases (byte == slash)) [
  | inl y ↦ rw y (tt, split-HasNoSlash raw)
  | inr n ↦ rw n (cons_part-HasNoSlash byte (split raw) n (split-HasNoSlash raw))
]

component-IsName : (name : List ℕ) → IsName name → component name ≡ some (normal name)
unfolding component
component-IsName name ((_, e, d), dd) = rw (e, d, dd)

pub filter_map-IsName :
    (names : List (List ℕ)) → All IsName names → filter_map component names ≡ map normal names
filter_map-IsName [] h = refl
filter_map-IsName (name ∷ names) (n, h) = rw (component-IsName name n, filter_map-IsName names h)

leading-IsName : (names : List (List ℕ)) → All IsName names → leading names ≡ map normal names
unfolding leading
leading-IsName [] h = refl
leading-IsName ([] ∷ names) (((_, e, _), _), _) = cc
leading-IsName ((byte ∷ bytes) ∷ names) h =
    let (((_, e, d), dd), hs) = h in rw (d, filter_map-IsName ((byte ∷ bytes) ∷ names) h) refl

pub All-HasNoSlash : (names : List (List ℕ)) → All IsName names → All HasNoSlash names
All-HasNoSlash = All-imp (λ name h. h.0.0)

-- Names are read back from their spelling.
pub components-spell :
    (name : List ℕ) (names : List (List ℕ))
    → All IsName (name ∷ names)
    → components (spell (name ∷ names)) ≡ map normal (name ∷ names)
unfolding components
components-spell name names h =
    rw (split-spell name names (All-HasNoSlash (name ∷ names) h), leading-IsName (name ∷ names) h)
      refl

pub map-normal-injective :
    (left right : List (List ℕ)) → map normal left ≡ map normal right → left ≡ right
map-normal-injective [] [] h = refl
map-normal-injective [] (name ∷ right) h = cc
map-normal-injective (name ∷ left) [] h = cc
map-normal-injective (name ∷ left) (other ∷ right) h =
    let e : name ≡ other = cc in
    let f : map normal left ≡ map normal right = cc in
    rw (e, map-normal-injective left right f) refl
