-- ===== src/Tests/Samples.antt =====
-- Manifests of two files, `a` and `b`, as the tests use them.
use duet.Prelude.{ℕ, false, none, List, [], ◌∷◌, refl}
use duet.Ord.{nat_ord}
use duet.Ord.Lexicographic.{list_ord, cmp_list}
use duet.FilePath.{FilePath, normal, component_ord, cmp_component, rank}
use duet.Sorted.{IsSorted}
use duet.Scan.Entry.{Entry}
use duet.Scan.Change.{entry_path}

abbrev pub path_a : FilePath
path_a = normal (b'a' ∷ []) ∷ []

abbrev pub path_b : FilePath
path_b = normal (b'b' ∷ []) ∷ []

abbrev pub path_ac : FilePath
path_ac = normal (b'a' ∷ []) ∷ normal (b'c' ∷ []) ∷ []

abbrev pub file_entry : FilePath → ℕ → Entry
file_entry path version = record {
  path = path;
  size = 10;
  mtime = version;
  ino = 1;
  mode = 420;
  target = none;
  is_dir = false;
  checksum = version;
  digest = none;
}

-- `a` in some version, `b` in its first.
abbrev pub manifest : ℕ → List Entry
manifest version = file_entry path_a version ∷ file_entry path_b 1 ∷ []

pub manifest-IsSorted : (version : ℕ) → IsSorted entry_path (manifest version)
unfolding list_ord cmp_list component_ord cmp_component nat_ord rank
manifest-IsSorted version = ((refl, tt), (tt, tt))
