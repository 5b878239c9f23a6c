-- ===== src/Actions/Legacy.antt =====
-- Actions exchanged with a peer that knows no digests.
use duet.Prelude.{◌≡◌, refl, ap, List, [], ◌∷◌, map, none}
use duet.Scan.Entry.{Entry}
use duet.Scan.Change.{
  Change, LegacyChange, added, removed, modified, from_legacy_change, to_legacy_change,
}
use duet.Actions.{
  Action, LegacyAction, local, remote, conflict, resolved_local, resolved_remote, identical,
  from_legacy_action, to_legacy_action, from_legacy, to_legacy,
}

-- An entry, a change or an action with its digests erased.
abbrev pub forget_entry : Entry → Entry
forget_entry e = record e { digest = none }

abbrev pub forget_change : Change → Change
forget_change (added e) = added (forget_entry e)
forget_change (removed e) = removed (forget_entry e)
forget_change (modified a b) = modified (forget_entry a) (forget_entry b)

abbrev pub forget : Action → Action
forget (local c) = local (forget_change c)
forget (remote c) = remote (forget_change c)
forget (conflict a b) = conflict (forget_change a) (forget_change b)
forget (resolved_local a b c) = resolved_local (forget_change a) (forget_change b) (forget_change c)
forget (resolved_remote a b c) =
    resolved_remote (forget_change a) (forget_change b) (forget_change c)
forget (identical a b) = identical (forget_change a) (forget_change b)

to_from_change : (c : LegacyChange) → to_legacy_change (from_legacy_change c) ≡ c
unfolding to_legacy_change from_legacy_change
to_from_change (LegacyChange.added e) = refl
to_from_change (LegacyChange.removed e) = refl
to_from_change (LegacyChange.modified a b) = refl

from_to_change : (c : Change) → from_legacy_change (to_legacy_change c) ≡ forget_change c
unfolding to_legacy_change from_legacy_change
from_to_change (added e) = refl
from_to_change (removed e) = refl
from_to_change (modified a b) = refl

to_from_action : (a : LegacyAction) → to_legacy_action (from_legacy_action a) ≡ a
unfolding to_legacy_action from_legacy_action
to_from_action (LegacyAction.local c) = ap LegacyAction.local (to_from_change c)
to_from_action (LegacyAction.remote c) = ap LegacyAction.remote (to_from_change c)
to_from_action (LegacyAction.conflict a b) = cc (to_from_change a, to_from_change b)
to_from_action (LegacyAction.resolved_local a b c) =
    cc (to_from_change a, to_from_change b, to_from_change c)
to_from_action (LegacyAction.resolved_remote a b c) =
    cc (to_from_change a, to_from_change b, to_from_change c)
to_from_action (LegacyAction.identical a b) = cc (to_from_change a, to_from_change b)

from_to_action : (a : Action) → from_legacy_action (to_legacy_action a) ≡ forget a
unfolding to_legacy_action from_legacy_action
from_to_action (local c) = ap local (from_to_change c)
from_to_action (remote c) = ap remote (from_to_change c)
from_to_action (conflict a b) = cc (from_to_change a, from_to_change b)
from_to_action (resolved_local a b c) = cc (from_to_change a, from_to_change b, from_to_change c)
from_to_action (resolved_remote a b c) = cc (from_to_change a, from_to_change b, from_to_change c)
from_to_action (identical a b) = cc (from_to_change a, from_to_change b)

to_from_legacy : (l : List LegacyAction) → to_legacy (from_legacy l) ≡ l
unfolding to_legacy from_legacy
to_from_legacy [] = refl
to_from_legacy (a ∷ l) = cc (to_from_action a, to_from_legacy l)

from_to_legacy : (l : List Action) → from_legacy (to_legacy l) ≡ map forget l
unfolding to_legacy from_legacy
from_to_legacy [] = refl
from_to_legacy (a ∷ l) = cc (from_to_action a, from_to_legacy l)

-- A legacy list survives the way to actions and back; a list of actions sent in the legacy layout
-- comes back with its digests erased and nothing else changed.
pub legacy_roundtrip :
    (legacy : List LegacyAction) (actions : List Action)
    → (to_legacy (from_legacy legacy) ≡ legacy)
      × (from_legacy (to_legacy actions) ≡ map forget actions)
legacy_roundtrip legacy actions = (to_from_legacy legacy, from_to_legacy actions)
