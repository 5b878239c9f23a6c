-- ===== src/Actions/Laws.antt =====
-- Planning for one path, and the plan seen from the other side.
use duet.Prelude.{◌≡◌, refl, ap, List, [], ◌∷◌, arith, Option, none, some, suc}
use mathlib.Core.Option
use duet.FilePath.{component_ord}
use duet.Ord.Lexicographic.{list_ord}
use duet.MatchSorted.Merge.{IsKeyed}
use duet.Scan.Change.{Change, change_path}
use duet.Scan.Change.Same.{same_comm, same_strong_comm}
use duet.Actions.{
  local, remote, conflict, resolved_local, resolved_remote, identical, Action, create,
  create_strong, action_path, reverse_action, reverse, num_unresolved_conflicts,
}

pub create-IsKeyed : IsKeyed change_path action_path create
unfolding create
create-IsKeyed = record {
  neither = refl;
  left = λ a b h. ground arith;
  right = λ a b h. ground arith;
  both = λ a c b e h. ground arith;
}

pub create_strong-IsKeyed : IsKeyed change_path action_path create_strong
unfolding create_strong
create_strong-IsKeyed = record {
  neither = refl;
  left = λ a b h. ground arith;
  right = λ a b h. ground arith;
  both = λ a c b e h. ground arith;
}

-- The action of the sides swapped is the reversed action.
pub create-swap : (l r : Option Change) → create r l ≡ Option.map reverse_action (create l r)
unfolding create reverse_action
create-swap none none = refl
create-swap none (some r) = refl
create-swap (some l) none = refl
create-swap (some l) (some r) = ground (arith, same_comm l r)

pub create_strong-swap :
    (l r : Option Change) → create_strong r l ≡ Option.map reverse_action (create_strong l r)
unfolding create_strong reverse_action
create_strong-swap none none = refl
create_strong-swap none (some r) = refl
create_strong-swap (some l) none = refl
create_strong-swap (some l) (some r) = ground (arith, same_strong_comm l r)

reverse_action-reverse_action : (a : Action) → reverse_action (reverse_action a) ≡ a
unfolding reverse_action
reverse_action-reverse_action (local c) = refl
reverse_action-reverse_action (remote c) = refl
reverse_action-reverse_action (conflict a b) = refl
reverse_action-reverse_action (resolved_local a b c) = refl
reverse_action-reverse_action (resolved_remote a b c) = refl
reverse_action-reverse_action (identical a b) = refl

pub reverse-reverse : (l : List Action) → reverse (reverse l) ≡ l
unfolding reverse
reverse-reverse [] = refl
reverse-reverse (a ∷ l) = cc (reverse_action-reverse_action a, reverse-reverse l)

pub num_unresolved_conflicts-reverse :
    (l : List Action) → num_unresolved_conflicts (reverse l) ≡ num_unresolved_conflicts l
unfolding num_unresolved_conflicts reverse
num_unresolved_conflicts-reverse [] = refl
num_unresolved_conflicts-reverse (local c ∷ l) = num_unresolved_conflicts-reverse l
num_unresolved_conflicts-reverse (remote c ∷ l) = num_unresolved_conflicts-reverse l
num_unresolved_conflicts-reverse (conflict a b ∷ l) = ap suc (num_unresolved_conflicts-reverse l)
num_unresolved_conflicts-reverse (resolved_local a b c ∷ l) = num_unresolved_conflicts-reverse l
num_unresolved_conflicts-reverse (resolved_remote a b c ∷ l) = num_unresolved_conflicts-reverse l
num_unresolved_conflicts-reverse (identical a b ∷ l) = num_unresolved_conflicts-reverse l
