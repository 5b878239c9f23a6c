-- ===== src/Sync/Blockers.antt =====
-- `RemovalBlockerPolicy`: what stands in the way of removing a directory, and what may go with it.
-- Names and patterns are their bytes. The `fnmatch_regex` and `regex` crates are parameters, and so is
-- `OsStr::to_str`.
pub mod Nearest
pub mod Inherit
pub mod Laws
pub mod Pruning
use duet.Prelude.{
  ℕ, List, [], ◌∷◌, Bool, true, false, not, ◌&&◌, ◌||◌, Option, none, some, Result, ok, err, ◌>>=◌,
  any, length, ltb, if◌then◌else◌,
}
use duet.Ord.{Ord, ◌=?◌}
use duet.Ord.Lexicographic.{list_ord, starts_with}
use duet.FilePath.{FilePath, Component, cur_dir, component_ord, file_name}
use duet.Scan.Location.{Location, location_path, is_exclude, canonicalize}

-- `location.as_os_str().is_empty() || location == Path::new(".")`
abbrev pub is_base : FilePath → Bool
is_base [] = true
is_base (cur_dir ∷ []) = true
is_base _ = false

unfoldable pub location_applies : FilePath → FilePath → Bool
location_applies location relative_path =
    is_base location || (relative_path =? location || starts_with relative_path location)

unfoldable pub path_specificity : FilePath → ℕ
path_specificity path = if is_base path then 0 else length path

-- Whether a rule replaces the best one so far.
abbrev pub is_better : Location → Option Location → Bool
is_better l none = true
is_better l (some best) =
    ltb (path_specificity (location_path best)) (path_specificity (location_path l))

-- The `for` over the rules.
unfoldable pub best_location : FilePath → Option Location → List Location → Option Location
best_location path best [] = best
best_location path best (l ∷ locations) =
    best_location path
      (if location_applies (location_path l) path && is_better l best then some l else best)
      locations

abbrev pub excludes_path : Option Location → Bool
excludes_path none = false
excludes_path (some l) = is_exclude l

abbrev pub Pattern : Type 0
Pattern = List ℕ

pub record ScanPolicy : Type 0 where
  pub locations : List Location
  pub ignore : List Pattern
  pub prune : List Pattern
  pub excludes : List FilePath

pub data InvalidPattern : Type 0 where
  invalid_ignore invalid_prune : Pattern → InvalidPattern

-- `RemovalBlockerKind`, with the pattern that matched.
pub data RemovalBlockerKind : Type 0 where
  ignored pruned : Pattern → RemovalBlockerKind
  excluded unexpected : RemovalBlockerKind

pub data RemovalBlockerType : Type 0 where
  ignored_type prune_type excluded_type unexpected_type : RemovalBlockerType

unfoldable pub blocker_type : RemovalBlockerKind → RemovalBlockerType
blocker_type (ignored _) = ignored_type
blocker_type (pruned _) = prune_type
blocker_type excluded = excluded_type
blocker_type unexpected = unexpected_type

unfoldable pub pattern_of : RemovalBlockerKind → Option Pattern
pattern_of (ignored pattern) = some pattern
pattern_of (pruned pattern) = some pattern
pattern_of excluded = none
pattern_of unexpected = none

abbrev pub or_empty : Option Pattern → Pattern
or_empty none = []
or_empty (some pattern) = pattern

unfoldable pub to_internal : RemovalBlockerType → Option Pattern → RemovalBlockerKind
to_internal ignored_type pattern = ignored (or_empty pattern)
to_internal prune_type pattern = pruned (or_empty pattern)
to_internal excluded_type pattern = excluded
to_internal unexpected_type pattern = unexpected

pub record RemovalBlockerPolicy (Regex : Type 0) : Type 0 where
  pub locations : List Location
  pub ignore : List (Pattern × Regex)
  pub prune : List (Pattern × Regex)
  pub prune_ignored : Bool
  pub excludes : List FilePath

-- By the patterns, where nothing excludes the path.
unfoldable pub by_patterns : Option Pattern → Option Pattern → RemovalBlockerKind
by_patterns (some pattern) ignore = pruned pattern
by_patterns none (some pattern) = ignored pattern
by_patterns none none = unexpected

module _ {Regex : Type 0} where
  unfoldable pub in_excludes : RemovalBlockerPolicy Regex → FilePath → Bool
  in_excludes policy path = any (λ exclude. starts_with path exclude) policy.excludes

  unfoldable pub is_excluded : RemovalBlockerPolicy Regex → FilePath → Bool
  is_excluded policy path =
      if in_excludes policy path
      then true
      else excludes_path (best_location path none policy.locations)

  unfoldable pub should_prune : RemovalBlockerPolicy Regex → RemovalBlockerKind → Bool
  should_prune policy (pruned _) = true
  should_prune policy (ignored _) = policy.prune_ignored
  should_prune policy excluded = false
  should_prune policy unexpected = false

module _ {Regex : Type 0} (glob_to_regex : Pattern → Option Regex) where
  unfoldable pub compile_patterns :
      (Pattern → InvalidPattern) → List Pattern → Result InvalidPattern (List (Pattern × Regex))
  compile_patterns invalid [] = ok []
  compile_patterns invalid (pattern ∷ patterns) = elim (glob_to_regex pattern) [
    | none ↦ err (invalid pattern)
    | some regex ↦ (do
      compiled ← compile_patterns invalid patterns
      ok ((pattern, regex) ∷ compiled))
  ]

  -- `RemovalBlockerPolicy::new`
  unfoldable pub new : Option ScanPolicy → Bool → Result InvalidPattern (RemovalBlockerPolicy Regex)
  new none prune_ignored = ok (record {
    locations = [];
    ignore = [];
    prune = [];
    prune_ignored = prune_ignored;
    excludes = [];
  })
  new (some scan_policy) prune_ignored = do
    ignore ← compile_patterns invalid_ignore scan_policy.ignore
    prune ← compile_patterns invalid_prune scan_policy.prune
    ok (record {
      locations = canonicalize scan_policy.locations;
      ignore = ignore;
      prune = prune;
      prune_ignored = prune_ignored;
      excludes = scan_policy.excludes;
    })

module _ {Regex : Type 0} (is_match : Regex → List ℕ → Bool)
    (to_str : List ℕ → Option (List ℕ)) where
  -- `patterns.iter().find(…)`
  unfoldable pub find_match : List ℕ → List (Pattern × Regex) → Option Pattern
  find_match filename [] = none
  find_match filename ((pattern, regex) ∷ patterns) =
      if is_match regex filename then some pattern else find_match filename patterns

  unfoldable pub matching_pattern : List (Pattern × Regex) → FilePath → Option Pattern
  matching_pattern patterns path = elim (file_name path) [
    | none ↦ none
    | some name ↦ elim (to_str name) [ none ↦ none | some filename ↦ find_match filename patterns ]
  ]

  unfoldable pub classify : RemovalBlockerPolicy Regex → FilePath → RemovalBlockerKind
  classify policy path =
      if in_excludes policy path
      then excluded
      else if is_excluded policy path
      then excluded
      else by_patterns (matching_pattern policy.prune path) (matching_pattern policy.ignore path)
