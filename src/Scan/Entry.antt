-- ===== src/Scan/Entry.antt =====
-- scan/mod.rs: `DirEntryWithMeta`, its legacy layout, and its comparisons. Times, inodes and modes
-- are only compared, so an `i64` stands here as its bit pattern.
use duet.Prelude.{
  ℕ, Bool, true, false, not, ◌&&◌, ◌||◌, Option, none, some, List, ◌==◌, is_some, bool_eq,
}
use duet.Ord.{Ord, ◌=?◌, nat_ord}
use duet.Ord.Lexicographic.{list_ord}
use duet.FilePath.{FilePath, component_ord}

-- The 32 bytes of a BLAKE2b hash.
abbrev pub ContentDigest : Type 0
ContentDigest = List ℕ

pub record Entry : Type 0 where
  pub path : FilePath
  pub size : ℕ
  pub mtime : ℕ
  pub ino : ℕ
  pub mode : ℕ
  pub target : Option FilePath
  pub is_dir : Bool
  pub checksum : ℕ
  pub digest : Option ContentDigest

-- The layout without a digest.
pub record LegacyEntry : Type 0 where
  pub path : FilePath
  pub size : ℕ
  pub mtime : ℕ
  pub ino : ℕ
  pub mode : ℕ
  pub target : Option FilePath
  pub is_dir : Bool
  pub checksum : ℕ

unfoldable pub from_legacy_entry : LegacyEntry → Entry
from_legacy_entry e = record {
  path = e.path;
  size = e.size;
  mtime = e.mtime;
  ino = e.ino;
  mode = e.mode;
  target = e.target;
  is_dir = e.is_dir;
  checksum = e.checksum;
  digest = none;
}

unfoldable pub to_legacy_entry : Entry → LegacyEntry
to_legacy_entry e = record {
  path = e.path;
  size = e.size;
  mtime = e.mtime;
  ino = e.ino;
  mode = e.mode;
  target = e.target;
  is_dir = e.is_dir;
  checksum = e.checksum;
}

-- `==` on optional values with an order.
module _ {ℓ} {A : Type ℓ} ⦃o : Ord A⦄ where
  abbrev pub option_eq : Option A → Option A → Bool
  option_eq none none = true
  option_eq none (some _) = false
  option_eq (some _) none = false
  option_eq (some a) (some b) = a =? b

-- Equality of symlink targets and of paths is by components.
unfoldable pub target_eq : Option FilePath → Option FilePath → Bool
target_eq = option_eq

unfoldable pub digest_eq : ContentDigest → ContentDigest → Bool
digest_eq a b = a =? b

abbrev pub is_symlink : Entry → Bool
is_symlink e = is_some e.target

abbrev pub is_file : Entry → Bool
is_file e = not (e.is_dir || is_symlink e)

unfoldable pub same_scan_identity : Entry → Entry → Bool
same_scan_identity a b = a.size == b.size && (a.mtime == b.mtime && a.ino == b.ino)

-- Two sightings of a path need no action. The caller has checked that the paths are equal.
unfoldable pub same_entry : Entry → Entry → Bool
same_entry a b =
    (is_symlink a || a.mode == b.mode)
    && (target_eq a.target b.target
        && (bool_eq a.is_dir b.is_dir && (a.is_dir || same_scan_identity a b)))

-- What two optional digests say, where both are there, and `otherwise` where one is missing.
unfoldable pub by_digests :
    (ContentDigest → ContentDigest → Bool)
    → Bool
    → Option ContentDigest
    → Option ContentDigest
    → Bool
by_digests test otherwise (some left) (some right) = test left right
by_digests test otherwise none b = otherwise
by_digests test otherwise (some left) none = otherwise

-- The digests decide where both files have one, the scan's metadata otherwise.
unfoldable pub same_contents : Entry → Entry → Bool
unfolding same_scan_identity digest_eq by_digests
same_contents a b = elim (is_file a && is_file b) [
  | true ↦
      by_digests (λ left right. a.size == b.size && digest_eq left right) (same_scan_identity a b)
        a.digest b.digest
  | false ↦ same_scan_identity a b
]

unfoldable pub inherit_content_hashes : Entry → Entry → Entry
inherit_content_hashes e old = record e { checksum = old.checksum; digest = old.digest }
