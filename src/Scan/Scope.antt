-- ===== src/Scan/Scope.antt =====
-- scan/mod.rs: `ScanScope`, the part of the tree that a run looks at.
pub mod Laws
pub mod Antichain
use duet.Prelude.{Bool, true, false, not, ◌&&◌, ◌||◌, List, [], ◌∷◌, ◌++◌, any, if◌then◌else◌}
use duet.Ord.{Ord, ◌=?◌}
use duet.Ord.Lexicographic.{list_ord, starts_with}
use duet.FilePath.{FilePath, component_ord}
use duet.Sorted.Sorting.{sort_by}

pub record ScanScope : Type 0 where
  pub restrict : FilePath
  pub excludes : List FilePath

-- `Vec::dedup`: of equal neighbours the first one stays.
unfoldable pub dedup : List FilePath → List FilePath
dedup [] = []
dedup (x ∷ []) = x ∷ []
dedup (x ∷ y ∷ l) = let rest = dedup (y ∷ l) in if x =? y then rest else x ∷ rest

-- Some listed path is `path` or an ancestor of it.
unfoldable pub covered : List FilePath → FilePath → Bool
covered paths path = any (λ a. starts_with path a) paths

-- The `for` that fills `compacted`.
unfoldable pub compact : List FilePath → List FilePath → List FilePath
compact compacted [] = compacted
compact compacted (e ∷ excludes) =
    compact (if covered compacted e then compacted else compacted ++ e ∷ []) excludes

abbrev pub itself : FilePath → FilePath
itself p = p

-- `ScanScope::new`
unfoldable pub new : FilePath → List FilePath → ScanScope
new restrict excludes = record {
  restrict = restrict;
  excludes = compact [] (dedup (sort_by itself excludes));
}

unfoldable pub is_excluded : ScanScope → FilePath → Bool
is_excluded s path = covered s.excludes path

unfoldable pub selected : ScanScope → FilePath → Bool
selected s path = starts_with path s.restrict && not (is_excluded s path)

-- The paths on the way to a selected one count too.
unfoldable pub relevant : ScanScope → FilePath → Bool
relevant s path =
    (starts_with path s.restrict || starts_with s.restrict path) && not (is_excluded s path)
