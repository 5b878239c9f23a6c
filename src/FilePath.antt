-- ===== src/FilePath.antt =====
-- `std::path::Path`, read by its components: duet orders, compares and nests paths by them only.
-- A name is its bytes; on Unix a path has no `Prefix` component.
pub mod Spelling
use duet.Prelude.{ℕ, Ordering, ◌≡◌, refl, arith, List, [], ◌∷◌, Option, none, some}
use duet.Ord.{Ord, nat_ord}
use duet.Ord.Lexicographic.{list_ord, cmp_list, cmp_list_refl, cmp_list-eq, cmp_list-gt}
use duet.Ord.Lexicographic.{cmp_list-lt, cmp_list_trans}

-- `std::path::Component`, in the order of its variants.
pub data Component : Type 0 where
  root_dir cur_dir parent_dir : Component
  normal : List ℕ → Component

-- The derived order goes by the variant, and by the bytes of two names.
unfoldable pub rank : Component → List ℕ
rank root_dir = 0 ∷ []
rank cur_dir = 1 ∷ []
rank parent_dir = 2 ∷ []
rank (normal name) = 3 ∷ name

rank-injective : (a b : Component) → rank a ≡ rank b → a ≡ b
unfolding rank
rank-injective root_dir root_dir h = refl
rank-injective cur_dir cur_dir h = refl
rank-injective parent_dir parent_dir h = refl
rank-injective (normal a) (normal b) h = ground arith
rank-injective a b h = ground arith

unfoldable pub cmp_component : Component → Component → Ordering
unfolding rank
cmp_component a b = cmp_list (rank a) (rank b)

pub cmp_component_refl : (a : Component) → cmp_component a a ≡ Ordering.eq
unfolding cmp_component
cmp_component_refl a = cmp_list_refl (rank a)

pub cmp_component-eq : (a b : Component) → cmp_component a b ≡ Ordering.eq → a ≡ b
cmp_component-eq a b h = rank-injective a b (ranks a b h)
  where
    ranks : (a b : Component) → cmp_component a b ≡ Ordering.eq → rank a ≡ rank b
    ranks a b h = unfold cmp_component in cmp_list-eq (rank a) (rank b) h

instance unfoldable pub component_ord : Ord Component
unfolding cmp_component
component_ord = record {
  cmp = cmp_component;
  cmp_refl = cmp_component_refl;
  eq_of_cmp = cmp_component-eq;
  gt_of_lt = λ a b. cmp_list-gt (rank a) (rank b);
  lt_of_gt = λ a b. cmp_list-lt (rank a) (rank b);
  lt_trans = λ a b c. cmp_list_trans (rank a) (rank b) (rank c);
}

abbrev pub FilePath : Type 0
FilePath = List Component

-- `Path::file_name`
unfoldable pub file_name : FilePath → Option (List ℕ)
file_name [] = none
file_name (normal name ∷ []) = some name
file_name (c ∷ []) = none
file_name (c ∷ d ∷ rest) = file_name (d ∷ rest)
