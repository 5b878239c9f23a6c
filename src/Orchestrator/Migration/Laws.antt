-- ===== src/Orchestrator/Migration/Laws.antt =====
-- What a migration does at each path.
use duet.Prelude.{
  Bool, true, false, Option, none, some, List, ok, ◌≡◌, refl, ◌⊎◌, inl, inr, arith, Bool-cases,
  Option-cases,
}
use duet.Ord.{Ord}
use duet.Ord.Lexicographic.{list_ord}
use duet.FilePath.{FilePath, component_ord}
use duet.Sorted.{find, find-key}
use duet.Scan.Entry.{Entry}
use duet.Scan.Change.{added, removed, modified, entry_path, same_strong}
use duet.Scan.Change.Laws.{before, after}
use duet.Actions.{
  Action, local, remote, conflict, resolved_local, resolved_remote, identical, action_path,
}
use duet.Orchestrator.Migration.{
  migration_change, migration_conflict, equivalent, migration_identical, migration_action,
}

o : Ord FilePath
o = list_ord

-- Both sides hold the same: nothing, or entries that are the same by their digests.
abbrev pub HoldSame : Option Entry → Option Entry → Type 0
HoldSame none none = Unit
HoldSame (some a) (some b) = same_strong (added a) (added b) ≡ true
HoldSame none (some b) = ⊥
HoldSame (some a) none = ⊥

abbrev pub HoldDifferent : Option Entry → Option Entry → Type 0
HoldDifferent none none = ⊥
HoldDifferent (some a) (some b) = same_strong (added a) (added b) ≡ false
HoldDifferent none (some b) = Unit
HoldDifferent (some a) none = Unit

-- An action at a path, against which sides changed it and what they hold there.
abbrev pub Carries : Option Action → Bool → Bool → Option Entry → Option Entry → Type 0
Carries none lc rc l r = ((lc ≡ rc) × HoldSame l r) ⊎ ((l ≡ none) × (r ≡ none))
Carries (some (remote c)) lc rc l r = (lc ≡ true) × (rc ≡ false) × (before c ≡ r) × (after c ≡ l)
Carries (some (local c)) lc rc l r = (lc ≡ false) × (rc ≡ true) × (before c ≡ l) × (after c ≡ r)
Carries (some (identical a b)) lc rc l r =
    (lc ≡ true) × (rc ≡ true) × (after a ≡ l) × (after b ≡ r) × HoldSame l r
Carries (some (conflict a b)) lc rc l r =
    (lc ≡ rc) × (after a ≡ l) × (after b ≡ r) × HoldDifferent l r
Carries (some (resolved_local _ _ _)) lc rc l r = ⊥
Carries (some (resolved_remote _ _ _)) lc rc l r = ⊥

-- The entries are those of the path.
unfoldable pub AtPath : FilePath → Option Entry → Type 0
AtPath p none = Unit
AtPath p (some e) = entry_path e ≡ p

unfoldable pub KeyedAt : FilePath → Option Action → Type 0
KeyedAt p none = Unit
KeyedAt p (some a) = action_path a ≡ p

pub migration_action_lem :
    (lc rc : Bool) (l r : Option Entry)
    → (a : Option Action) × (migration_action lc rc l r ≡ ok a) × Carries a lc rc l r
unfolding migration_action migration_change migration_conflict equivalent migration_identical
migration_action_lem true false none none = (none, refl, inr (refl, refl))
migration_action_lem true false none (some b) =
    (some (remote (removed b)), refl, (refl, refl, refl, refl))
migration_action_lem true false (some a) none =
    (some (remote (added a)), refl, (refl, refl, refl, refl))
migration_action_lem true false (some a) (some b) =
    (some (remote (modified b a)), refl, (refl, refl, refl, refl))
migration_action_lem false true none none = (none, refl, inr (refl, refl))
migration_action_lem false true none (some b) =
    (some (local (added b)), refl, (refl, refl, refl, refl))
migration_action_lem false true (some a) none =
    (some (local (removed a)), refl, (refl, refl, refl, refl))
migration_action_lem false true (some a) (some b) =
    (some (local (modified a b)), refl, (refl, refl, refl, refl))
migration_action_lem true true none none = (none, refl, inl (refl, tt))
migration_action_lem true true none (some b) =
    (some (conflict (removed b) (modified b b)), refl, (refl, refl, refl, tt))
migration_action_lem true true (some a) none =
    (some (conflict (modified a a) (removed a)), refl, (refl, refl, refl, tt))
migration_action_lem true true (some a) (some b) =
    elim (Bool-cases (same_strong (added a) (added b))) [
      | inl y ↦
          (some (identical (added a) (added b)), ground (arith, y), (refl, refl, refl, refl, y))
      | inr n ↦
          (some (conflict (modified b a) (modified a b)), ground (arith, n), (refl, refl, refl, n))
    ]
migration_action_lem false false none none = (none, refl, inl (refl, tt))
migration_action_lem false false none (some b) =
    (some (conflict (removed b) (modified b b)), refl, (refl, refl, refl, tt))
migration_action_lem false false (some a) none =
    (some (conflict (modified a a) (removed a)), refl, (refl, refl, refl, tt))
migration_action_lem false false (some a) (some b) =
    elim (Bool-cases (same_strong (added a) (added b))) [
      | inl y ↦ (none, ground (arith, y), inl (refl, y))
      | inr n ↦
          (some (conflict (modified b a) (modified a b)), ground (arith, n), (refl, refl, refl, n))
    ]

pub migration_action-KeyedAt :
    (p : FilePath) (lc rc : Bool) (l r : Option Entry) (a : Option Action)
    → AtPath p l
    → AtPath p r
    → migration_action lc rc l r ≡ ok a
    → KeyedAt p a
unfolding migration_action migration_change migration_conflict equivalent migration_identical AtPath
    KeyedAt
migration_action-KeyedAt p lc rc l r none hl hr h = tt
migration_action-KeyedAt p lc rc l r (some a) hl hr h = ground (arith, hl, hr)

pub find-AtPath : (p : FilePath) (l : List Entry) → AtPath p (find entry_path p l)
unfolding AtPath
find-AtPath p l = elim (Option-cases (find entry_path p l)) [
  | inl n ↦ rw n tt
  | inr (e, h) ↦ rw h (find-key entry_path p l h)
]
