-- ===== src/Profile/Laws.antt =====
-- The lines of a profile: rules, patterns and headers.
use duet.Prelude.{
  ℕ, List, [], ◌∷◌, ◌++◌, append_assoc, append-nil, map, Bool, true, false, Option, none, some, ok,
  All, ◌≡◌, refl, ◌∙◌,
}
use duet.Ord.{nat_ord}
use duet.Ord.Lexicographic.{list_ord, cmp_list}
use duet.Text.{keep_end, Text, trim, trim_start, trim_end, is_whitespace, strip_prefix}
use duet.Scan.Location.{Location, include, exclude}
use duet.Profile.{
  Profile, ProfileSection, Progress, header, is_blank, path_from, parse_location, add_location,
  parse_in, parse_found, parse_line, parse_lines, ignore_header, prune_header, locations_section,
  ignore_section, prune_section,
}

abbrev pub IsTrimmed : Text → Type 0
IsTrimmed text = (trim_start text ≡ text) × (trim_end text ≡ text)

-- A line that is neither blank nor a comment, and one that is no header either.
abbrev pub IsContent : Text → Type 0
IsContent line = is_blank (trim line) ≡ false

abbrev pub IsPattern : Text → Type 0
IsPattern line = IsContent line × (header (trim line) ≡ none)

-- A rule as it is written: whether it includes, and its path.
abbrev pub Rule : Type 0
Rule = Bool × Text

abbrev pub rule_line : Rule → Text
rule_line (true, path) = b'+' ∷ path
rule_line (false, path) = b'-' ∷ path

abbrev pub rule_location : Rule → Location
rule_location (true, path) = include (path_from path)
rule_location (false, path) = exclude (path_from path)

abbrev pub at : Profile → ProfileSection → Progress
at p section = record { profile = p; found = 2; section = section }

trim_end-cons : (c : ℕ) (text : Text) → trim_end (c ∷ text) ≡ keep_end c (trim_end text)
unfolding trim_end
trim_end-cons c text = refl

keep_end-cons :
    (sign : ℕ) (path : Text) → is_whitespace sign ≡ false → keep_end sign path ≡ sign ∷ path
keep_end-cons sign [] s = rw s refl
keep_end-cons sign (c ∷ path) s = refl

trim-sign :
    (sign : ℕ) (path : Text)
    → is_whitespace sign ≡ false
    → trim_end path ≡ path
    → trim (sign ∷ path) ≡ sign ∷ path
unfolding trim trim_start
trim-sign sign path s e = rw (s, trim_end-cons sign path, e) (keep_end-cons sign path s)

trim-IsTrimmed : (path : Text) → IsTrimmed path → trim path ≡ path
unfolding trim
trim-IsTrimmed path (a, b) = rw (a, b) refl

trim-rule_line : (rule : Rule) → IsTrimmed rule.1 → trim (rule_line rule) ≡ rule_line rule
unfolding is_whitespace
trim-rule_line (true, path) t = trim-sign b'+' path refl t.1
trim-rule_line (false, path) t = trim-sign b'-' path refl t.1

parse_location-rule :
    (line : Text) (rule : Rule)
    → IsTrimmed rule.1
    → parse_location line (rule_line rule) ≡ ok (rule_location rule)
unfolding parse_location strip_prefix
parse_location-rule line (true, path) t = rw (trim-IsTrimmed path t) refl
parse_location-rule line (false, path) t = rw (trim-IsTrimmed path t) refl

header-rule_line : (rule : Rule) → header (rule_line rule) ≡ none
unfolding header list_ord cmp_list nat_ord
header-rule_line (true, path) = refl
header-rule_line (false, path) = refl

is_blank-rule_line : (rule : Rule) → is_blank (rule_line rule) ≡ false
is_blank-rule_line (true, path) = refl
is_blank-rule_line (false, path) = refl

module _ (parse_str : Text → Option ℕ) where
  pub parse_line-IsPattern :
      (p : Profile) (section : ProfileSection) (line : Text)
      → IsPattern line
      → parse_line parse_str (at p section) line
        ≡ parse_in parse_str section (at p section) line (trim line)
  unfolding parse_line parse_found
  parse_line-IsPattern p section line (c, h) = rw (c, h) refl

  parse_line-rule :
      (p : Profile) (rule : Rule)
      → IsTrimmed rule.1
      → parse_line parse_str (at p locations_section) (rule_line rule)
        ≡ ok
            (at (record p { locations = p.locations ++ rule_location rule ∷ [] }) locations_section)
  unfolding parse_in add_location
  parse_line-rule p rule t =
      let e = trim-rule_line rule t in
      parse_line-IsPattern p locations_section (rule_line rule)
        (rw e (is_blank-rule_line rule), rw e (header-rule_line rule))
      ∙ rw (e, parse_location-rule (rule_line rule) rule t) refl

  pub parse_lines-rules :
      (p : Profile) (rules : List Rule) (rest : List (Option Text))
      → All (λ rule. IsTrimmed rule.1) rules
      → parse_lines parse_str
          (at p locations_section)
          (map (λ rule. some (rule_line rule)) rules ++ rest)
        ≡ parse_lines parse_str
            (at (record p { locations = p.locations ++ map rule_location rules }) locations_section)
            rest
  unfolding parse_lines
  parse_lines-rules p [] rest t = rw (append-nil p.locations) refl
  parse_lines-rules p (rule ∷ rules) rest (t, ts) = rw (parse_line-rule p rule t) (
      parse_lines-rules (record p { locations = p.locations ++ rule_location rule ∷ [] }) rules rest
        ts
      ∙ rw (append_assoc p.locations (rule_location rule ∷ []) (map rule_location rules)) refl)

  pub parse_lines-ignore :
      (p : Profile) (lines : List Text) (rest : List (Option Text))
      → All IsPattern lines
      → parse_lines parse_str (at p ignore_section) (map some lines ++ rest)
        ≡ parse_lines parse_str (at (record p { ignore = p.ignore ++ lines }) ignore_section) rest
  unfolding parse_lines parse_in
  parse_lines-ignore p [] rest t = rw (append-nil p.ignore) refl
  parse_lines-ignore p (line ∷ lines) rest (t, ts) =
      rw (parse_line-IsPattern p ignore_section line t) (
        parse_lines-ignore (record p { ignore = p.ignore ++ line ∷ [] }) lines rest ts
        ∙ rw (append_assoc p.ignore (line ∷ []) lines) refl)

  pub parse_lines-prune :
      (p : Profile) (lines : List Text) (rest : List (Option Text))
      → All IsPattern lines
      → parse_lines parse_str (at p prune_section) (map some lines ++ rest)
        ≡ parse_lines parse_str (at (record p { prune = p.prune ++ lines }) prune_section) rest
  unfolding parse_lines parse_in
  parse_lines-prune p [] rest t = rw (append-nil p.prune) refl
  parse_lines-prune p (line ∷ lines) rest (t, ts) =
      rw (parse_line-IsPattern p prune_section line t) (
        parse_lines-prune (record p { prune = p.prune ++ line ∷ [] }) lines rest ts
        ∙ rw (append_assoc p.prune (line ∷ []) lines) refl)

  pub parse_line-ignore_header :
      (p : Profile) (section : ProfileSection)
      → parse_line parse_str (at p section) ignore_header ≡ ok (at p ignore_section)
  unfolding parse_line parse_found header trim trim_start trim_end is_whitespace list_ord cmp_list
      nat_ord
  parse_line-ignore_header p section = refl

  pub parse_line-prune_header :
      (p : Profile) (section : ProfileSection)
      → parse_line parse_str (at p section) prune_header ≡ ok (at p prune_section)
  unfolding parse_line parse_found header trim trim_start trim_end is_whitespace list_ord cmp_list
      nat_ord
  parse_line-prune_header p section = refl
