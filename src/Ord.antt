-- ===== src/Ord.antt =====
-- The trait `Ord` of the keys that the program sorts by, with the laws that Rust asks of `cmp`.
pub mod Lexicographic
use duet.Prelude.{◌↔◌, refl, ℕ, compare, Ordering, Bool, true, false, ◌≡◌, arith}
use Prim.Native.Nat.Ordering.{lt, eq, gt}

pub record Ord {ℓ} (K : Type ℓ) : Type ℓ where
  pub cmp : (left right : K) → Ordering
  pub lt_trans : (j k l : K) → cmp j k ≡ lt → cmp k l ≡ lt → cmp j l ≡ lt
  pub gt_of_lt : (j k : K) → cmp j k ≡ lt → cmp k j ≡ gt
  pub lt_of_gt : (j k : K) → cmp j k ≡ gt → cmp k j ≡ lt
  pub eq_of_cmp : (j k : K) → cmp j k ≡ eq → j ≡ k
  pub cmp_refl : (j : K) → cmp j j ≡ eq

module _ {ℓ} {K : Type ℓ} ⦃o : Ord K⦄ where
  infix 50 ◌≺◌ ◌=?◌
  abbrev pub ◌≺◌ : K → K → Type 0
  a ≺ b = o.cmp a b ≡ lt

  abbrev pub ◌=?◌ : K → K → Bool
  a =? b = elim (o.cmp a b) [ eq ↦ true | _ ↦ false ]

  pub =?_iff : (a b : K) → ((a =? b) ≡ true) ↔ (a ≡ b)
  =?_iff a b = (λ h. o.eq_of_cmp a b (ground arith), λ h. rw h (ground (arith, o.cmp_refl b)))

pub compare_refl : (a : ℕ) → compare a a ≡ eq
compare_refl a = ground arith

pub compare-eq : (a b : ℕ) → compare a b ≡ eq → a ≡ b
compare-eq a b h = ground arith

pub compare-gt : (a b : ℕ) → compare a b ≡ lt → compare b a ≡ gt
compare-gt a b h = ground arith

pub compare-lt : (a b : ℕ) → compare a b ≡ gt → compare b a ≡ lt
compare-lt a b h = ground arith

pub compare_trans : (a b c : ℕ) → compare a b ≡ lt → compare b c ≡ lt → compare a c ≡ lt
compare_trans a b c h k = ground arith

instance unfoldable pub nat_ord : Ord ℕ
nat_ord = record {
  cmp = compare;
  cmp_refl = compare_refl;
  eq_of_cmp = compare-eq;
  gt_of_lt = compare-gt;
  lt_of_gt = compare-lt;
  lt_trans = compare_trans;
}
