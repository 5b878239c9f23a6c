-- ===== src/Orchestrator/Dependencies/Laws.antt =====
-- What is left out: the actions on whose place an open conflict bears.
use duet.Prelude.{
  Bool, true, false, not, ◌&&◌, ◌||◌, List, [], ◌∷◌, map, any, All, ◌≡◌, refl, arith, Bool-cases,
  inl, inr, ◌∙◌, partition_point, Ordering-cases,
}
use duet.Ord.{Ord, ◌=?◌, ◌≺◌}
use duet.Ord.Lexicographic.{
  list_ord, starts_with, extension-not_below, extensions_between, cmp_list,
}
use duet.FilePath.{FilePath, Component, root_dir, cur_dir, parent_dir, normal, component_ord}
use duet.Sorted.{IsSorted, Above}
use duet.Actions.{Action, action_path, is_unresolved_conflict}
use duet.Orchestrator.Dependencies.{
  prefixes, parents, at_most, below_unresolved, holds_unresolved, action_removes_directory, gt,
  depends, filter_unresolved_conflict_dependencies, keep_active, unresolved_paths, filter,
}

o : Ord FilePath
o = list_ord

-- `a` lies strictly under `b`.
abbrev pub under : FilePath → FilePath → Bool
under a b = starts_with a b && not (a =? b)

abbrev pub is_relative : FilePath → Bool
is_relative [] = true
is_relative (root_dir ∷ _) = false
is_relative (cur_dir ∷ _) = true
is_relative (parent_dir ∷ _) = true
is_relative (normal _ ∷ _) = true

-- An open conflict above the action's path, or under it where the action takes a directory away.
abbrev pub endangers : List FilePath → Action → Bool
endangers unresolved a =
    any (λ c. under (action_path a) c || (action_removes_directory a && under c (action_path a)))
      unresolved

cons-eq : (x y : Component) (p c : FilePath) → ((x ∷ p) =? (y ∷ c)) ≡ (x =? y && p =? c)
unfolding list_ord cmp_list
cons-eq x y p c = ground arith

any-map_cons :
    (x y : Component) (c : FilePath) (l : List FilePath)
    → any (λ p. p =? (y ∷ c)) (map (λ p. x ∷ p) l) ≡ (x =? y && any (λ p. p =? c) l)
any-map_cons x y c [] = ground arith
any-map_cons x y c (p ∷ l) = ground (arith, cons-eq x y p c, any-map_cons x y c l)

any-map_nil : (x : Component) (l : List FilePath) → any (λ p. p =? []) (map (λ p. x ∷ p) l) ≡ false
unfolding list_ord cmp_list
any-map_nil x [] = refl
any-map_nil x (p ∷ l) = any-map_nil x l

any-prefixes : (path c : FilePath) → any (λ p. p =? c) (prefixes path) ≡ under path c
unfolding prefixes starts_with list_ord cmp_list
any-prefixes [] [] = refl
any-prefixes [] (y ∷ c) = refl
any-prefixes (x ∷ path) [] = refl
any-prefixes (x ∷ path) (y ∷ c) =
    ground (arith, cons-eq x y path c, any-map_cons x y c (prefixes path), any-prefixes path c)

any-parents :
    (path c : FilePath) → is_relative path ≡ true → any (λ p. p =? c) (parents path) ≡ under path c
unfolding parents prefixes
any-parents [] c h = any-prefixes [] c
any-parents (root_dir ∷ path) c h = cc
any-parents (cur_dir ∷ path) c h = any-prefixes (cur_dir ∷ path) c
any-parents (parent_dir ∷ path) c h = any-prefixes (parent_dir ∷ path) c
any-parents (normal n ∷ path) c h = any-prefixes (normal n ∷ path) c

module _ {A B : Type 0} (r : A → B → Bool) where
  any-none : (l : List A) → any (λ a. any (r a) []) l ≡ false
  any-none [] = refl
  any-none (a ∷ l) = any-none l

  any-add :
      (y : B) (ys : List B) (l : List A)
      → any (λ a. any (r a) (y ∷ ys)) l ≡ (any (λ a. r a y) l || any (λ a. any (r a) ys) l)
  any-add y ys [] = refl
  any-add y ys (a ∷ l) = ground (arith, any-add y ys l)

  any-exchange :
      (ys : List B) (l : List A) → any (λ a. any (r a) ys) l ≡ any (λ y. any (λ a. r a y) l) ys
  any-exchange [] l = any-none l
  any-exchange (y ∷ ys) l = ground (arith, any-add y ys l, any-exchange ys l)

any-ext : {A : Type 0} (p q : A → Bool) (l : List A) → ((a : A) → p a ≡ q a) → any p l ≡ any q l
any-ext p q [] h = refl
any-ext p q (a ∷ l) h = ground (arith, h a, any-ext p q l h)

below_unresolved_lem :
    (unresolved : List FilePath) (path : FilePath)
    → is_relative path ≡ true
    → below_unresolved unresolved path ≡ any (under path) unresolved
unfolding below_unresolved
below_unresolved_lem unresolved path h =
    any-exchange (λ a c. a =? c) unresolved (parents path)
    ∙ any-ext _ _ unresolved (λ c. any-parents path c h)

under_eq : (c p : FilePath) → list_ord.cmp c p ≡ gt → under c p ≡ starts_with c p
under_eq c p h = ground arith

not_under : (c p : FilePath) → (list_ord.cmp c p ≡ gt → ⊥) → under c p ≡ false
not_under c p h = ground (arith, extension-not_below c p)

not_between : (p x c : FilePath) → p ≺ x → starts_with x p ≡ false → x ≺ c → starts_with c p ≡ false
not_between p x c h n k = elim (Bool-cases (starts_with c p)) [
  | inl y ↦ let s = extensions_between p x c y (λ g. cc) (λ g. cc) in cc
  | inr m ↦ m
]

under-Above :
    (p x : FilePath) (l : List FilePath)
    → p ≺ x
    → starts_with x p ≡ false
    → All (λ c. x ≺ c) l
    → any (λ c. under c p) l ≡ false
under-Above p x [] h n a = refl
under-Above p x (c ∷ l) h n a = ground (arith, under-Above p x l h n a.1, not_between p x c h n a.0)

holds_unresolved_lem :
    (p : FilePath) (l : List FilePath)
    → IsSorted (λ (c : FilePath). c) l
    → holds_unresolved l p ≡ any (λ c. under c p) l
unfolding holds_unresolved partition_point at_most
holds_unresolved_lem p [] s = refl
holds_unresolved_lem p (x ∷ l) s = elim (Ordering-cases (list_ord.cmp x p)) [
  | inl e ↦ ground (arith, holds_unresolved_lem p l s.1, not_under x p (λ g. cc))
  | inr (inl e) ↦ ground (arith, holds_unresolved_lem p l s.1, not_under x p (λ g. cc))
  | inr (inr e) ↦ elim (Bool-cases (starts_with x p)) [
    | inl y ↦ ground (arith, under_eq x p e)
    | inr n ↦ ground (arith, under_eq x p e, under-Above p x l (list_ord.lt_of_gt x p e) n s.0)
  ]
]

any-or :
    {A : Type 0} (p q : A → Bool) (b : Bool) (l : List A)
    → any (λ x. p x || (b && q x)) l ≡ (any p l || (b && any q l))
any-or p q true [] = refl
any-or p q false [] = refl
any-or p q true (x ∷ l) = ground (arith, any-or p q true l)
any-or p q false (x ∷ l) = ground (arith, any-or p q false l)

depends_lem :
    (unresolved : List FilePath) (a : Action)
    → IsSorted (λ (c : FilePath). c) unresolved
    → is_relative (action_path a) ≡ true
    → depends unresolved a ≡ endangers unresolved a
unfolding depends
depends_lem unresolved a s h = ground (
  arith,
  below_unresolved_lem unresolved (action_path a) h,
  holds_unresolved_lem (action_path a) unresolved s,
  any-or (under (action_path a)) (λ c. under c (action_path a)) (action_removes_directory a)
      unresolved,
)

Above-paths :
    (p : FilePath) (actions : List Action)
    → Above action_path p actions
    → Above (λ (c : FilePath). c) p (unresolved_paths actions)
unfolding unresolved_paths
Above-paths p [] h = tt
Above-paths p (a ∷ actions) h = elim (Bool-cases (is_unresolved_conflict a)) [
  | inl y ↦ rw (y, unresolved_paths) (h.0, Above-paths p actions h.1)
  | inr n ↦ rw (n, unresolved_paths) (Above-paths p actions h.1)
]

unresolved_paths-IsSorted :
    (actions : List Action)
    → IsSorted action_path actions
    → IsSorted (λ (c : FilePath). c) (unresolved_paths actions)
unfolding unresolved_paths
unresolved_paths-IsSorted [] s = tt
unresolved_paths-IsSorted (a ∷ actions) s = elim (Bool-cases (is_unresolved_conflict a)) [
  | inl y ↦
      rw (y, unresolved_paths)
        (Above-paths (action_path a) actions s.0, unresolved_paths-IsSorted actions s.1)
  | inr n ↦ rw (n, unresolved_paths) (unresolved_paths-IsSorted actions s.1)
]

-- What stays and what is skipped.
abbrev pub stays : List FilePath → Action → Bool
stays unresolved a = not (is_unresolved_conflict a) && not (endangers unresolved a)

abbrev pub is_skipped : List FilePath → Action → Bool
is_skipped unresolved a = not (is_unresolved_conflict a) && endangers unresolved a

keep_active_lem :
    (unresolved : List FilePath) (actions : List Action)
    → IsSorted (λ (c : FilePath). c) unresolved
    → All (λ a. is_relative (action_path a) ≡ true) actions
    → keep_active unresolved actions ≡ (
      filter (stays unresolved) actions,
      map action_path (filter (is_skipped unresolved) actions),
    )
unfolding keep_active
keep_active_lem unresolved [] s h = refl
keep_active_lem unresolved (a ∷ actions) s h =
    ground (arith, keep_active_lem unresolved actions s h.1, depends_lem unresolved a s h.0)

-- For a plan in strictly increasing path order with relative paths: the actions that are applied
-- are, in order, those that are no open conflict, have no open conflict at a path above theirs and,
-- where they take a directory away, none under theirs; the paths of the others that are no open
-- conflict are the skipped ones.
pub filter_unresolved_conflict_dependencies_lem :
    (actions : List Action)
    → IsSorted action_path actions
    → All (λ a. is_relative (action_path a) ≡ true) actions
    → filter_unresolved_conflict_dependencies actions ≡ (
      filter (stays (unresolved_paths actions)) actions,
      map action_path (filter (is_skipped (unresolved_paths actions)) actions),
    )
unfolding filter_unresolved_conflict_dependencies
filter_unresolved_conflict_dependencies_lem actions s h =
    keep_active_lem (unresolved_paths actions) actions (unresolved_paths-IsSorted actions s) h
