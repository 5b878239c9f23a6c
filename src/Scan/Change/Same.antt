-- ===== src/Scan/Change/Same.antt =====
-- When two sides made the same change.
use duet.Prelude.{Bool, Option, none, some, ◌≡◌, refl, arith, ◌==◌, ℕ, true, false}
use duet.Ord.{Ord, ◌=?◌, nat_ord}
use duet.FilePath.{FilePath, component_ord}
use duet.Ord.Lexicographic.{list_ord}
use duet.Scan.Entry.{Entry, ContentDigest, digest_eq, by_digests, target_eq}
use duet.Scan.Change.{
  added, removed, modified, same_result, same, same_file_strong, same_strong,
  same_with_file_contents, Change, same_file_weak,
}

=?_comm {ℓ} : {A : Type ℓ} ⦃o : Ord A⦄ (a b : A) → (a =? b) ≡ (b =? a)
=?_comm ⦃o⦄ a b = ground (arith, o.eq_of_cmp a b, o.gt_of_lt a b, o.lt_of_gt a b)

target_eq_comm : (a b : Option FilePath) → target_eq a b ≡ target_eq b a
unfolding target_eq
target_eq_comm none none = refl
target_eq_comm none (some b) = refl
target_eq_comm (some a) none = refl
target_eq_comm (some a) (some b) = =?_comm a b

-- Equal targets are one, so both entries are links or neither is.
target_eq-eq : (a b : Option FilePath) → target_eq a b ≡ true → a ≡ b
unfolding target_eq
target_eq-eq none none h = refl
target_eq-eq none (some b) h = cc
target_eq-eq (some a) none h = cc
target_eq-eq (some a) (some b) h = ground (arith, o.eq_of_cmp a b)
  where
    o : Ord FilePath
    o = list_ord

by_digests_comm :
    (x : Bool) (a b : Option ContentDigest)
    → by_digests digest_eq x a b ≡ by_digests digest_eq x b a
unfolding by_digests digest_eq
by_digests_comm x none none = refl
by_digests_comm x none (some b) = refl
by_digests_comm x (some a) none = refl
by_digests_comm x (some a) (some b) = =?_comm a b

==_comm : (a b : ℕ) → (a == b) ≡ (b == a)
==_comm a b = ground arith

module _ (same_file : Entry → Entry → Bool)
    (file_comm : (a b : Entry) → same_file a b ≡ same_file b a) where
  same_result_comm : (a b : Entry) → same_result same_file a b ≡ same_result same_file b a
  unfolding same_result
  same_result_comm a b = ground (
    arith,
    target_eq_comm a.target b.target,
    target_eq-eq a.target b.target,
    target_eq-eq b.target a.target,
    file_comm a b,
    ==_comm a.mode b.mode,
    ==_comm a.mtime b.mtime,
  )

  same_with_file_contents_comm :
      (x y : Change) → same_with_file_contents same_file x y ≡ same_with_file_contents same_file y x
  unfolding same_with_file_contents
  same_with_file_contents_comm (added a) (added b) = same_result_comm a b
  same_with_file_contents_comm (modified _ a) (modified _ b) = same_result_comm a b
  same_with_file_contents_comm (added a) (removed b) = refl
  same_with_file_contents_comm (added a) (modified _ b) = refl
  same_with_file_contents_comm (removed a) (added b) = refl
  same_with_file_contents_comm (removed a) (removed b) = refl
  same_with_file_contents_comm (removed a) (modified _ b) = refl
  same_with_file_contents_comm (modified _ a) (added b) = refl
  same_with_file_contents_comm (modified _ a) (removed b) = refl

-- Neither comparison depends on which side is asked first.
pub same_comm : (x y : Change) → same x y ≡ same y x
unfolding same
same_comm =
    same_with_file_contents_comm same_file_weak
      (λ a b. rw (==_comm a.checksum b.checksum) (by_digests_comm _ a.digest b.digest))

pub same_strong_comm : (x y : Change) → same_strong x y ≡ same_strong y x
unfolding same_strong
same_strong_comm =
    same_with_file_contents_comm same_file_strong (λ a b. by_digests_comm false a.digest b.digest)

same_file_strong-weak : (a b : Entry) → same_file_strong a b ≡ true → same_file_weak a b ≡ true
unfolding same_file_strong same_file_weak
same_file_strong-weak a b h = ground arith

-- What is the same by digests is the same to a peer that also takes checksums.
same_of_same_strong : (x y : Change) → same_strong x y ≡ true → same x y ≡ true
unfolding same_strong same
same_of_same_strong (added a) (added b) h = ground (arith, same_file_strong-weak a b)
same_of_same_strong (modified _ a) (modified _ b) h = ground (arith, same_file_strong-weak a b)
same_of_same_strong (removed a) (removed b) h = refl
same_of_same_strong (added a) (removed b) h = h
same_of_same_strong _ _ h = h
