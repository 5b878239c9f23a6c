-- ===== src/Orchestrator/Plan/Laws.antt =====
-- What the plan does at each path, and the plan as the other side would make it.
use duet.Prelude.{Bool, true, false, Option, none, some, List, ◌≡◌, refl, arith}
use duet.FilePath.{FilePath, component_ord}
use duet.Ord.Lexicographic.{list_ord}
use duet.MatchSorted.{matched}
use duet.Sorted.{IsSorted, find}
use duet.MatchSorted.Merge.{IsKeyed, merge-IsSorted, find-merge}
use duet.MatchSorted.Swap.{matched-swap, filter_map-swap}
use duet.Scan.Entry.{Entry}
use duet.Scan.Change.{Change, change_path, entry_path, changes, same, same_strong}
use duet.Scan.Change.Laws.{Unchanged, IsChange, replay, changes_complete}
use duet.Actions.{
  Action, local, remote, conflict, resolved_local, resolved_remote, identical, action_path, reverse,
  reverse_action,
}
use duet.Actions.Laws.{create-IsKeyed, create_strong-IsKeyed, create-swap, create_strong-swap}
use duet.Orchestrator.Plan.{create_by, build_actions}
use mathlib.Core.Option

create_by-IsKeyed : (strong : Bool) → IsKeyed change_path action_path (create_by strong)
unfolding create_by
create_by-IsKeyed true = create_strong-IsKeyed
create_by-IsKeyed false = create-IsKeyed

create_by-swap :
    (strong : Bool) (l r : Option Change)
    → create_by strong r l ≡ Option.map reverse_action (create_by strong l r)
unfolding create_by
create_by-swap true l r = create_strong-swap l r
create_by-swap false l r = create-swap l r

-- Planning with the sides exchanged gives the reversed plan, so both ends agree on it.
pub build_actions-swap :
    (local_changes remote_changes : List Change) (strong : Bool)
    → build_actions remote_changes local_changes strong
      ≡ reverse (build_actions local_changes remote_changes strong)
unfolding build_actions reverse
build_actions-swap l r strong = rw (matched-swap change_path l r) (
    filter_map-swap (create_by strong) reverse_action (create_by-swap strong)
      (matched change_path l r))

-- The comparison in use.
abbrev pub same_by : Bool → Change → Change → Bool
same_by true = same_strong
same_by false = same

-- An action at a path, against the old and new entries of both sides there.
abbrev pub Fits :
    Bool → Option Action → Option Entry → Option Entry → Option Entry → Option Entry → Type 0
Fits strong none lo ln ro rn = Unchanged lo ln × Unchanged ro rn
Fits strong (some (local c)) lo ln ro rn = Unchanged lo ln × IsChange c ro rn
Fits strong (some (remote c)) lo ln ro rn = Unchanged ro rn × IsChange c lo ln
Fits strong (some (identical l r)) lo ln ro rn =
    IsChange l lo ln × IsChange r ro rn × (same_by strong l r ≡ true)
Fits strong (some (conflict l r)) lo ln ro rn =
    IsChange l lo ln × IsChange r ro rn × (same_by strong l r ≡ false)
Fits strong (some (resolved_local _ _ _)) lo ln ro rn = ⊥
Fits strong (some (resolved_remote _ _ _)) lo ln ro rn = ⊥

-- A change option that tells of the two entries.
Tells : Option Change → Option Entry → Option Entry → Type 0
Tells c o n = Unchanged (replay c o) n × ((d : Change) → c ≡ some d → IsChange d o n)

create_by-Fits :
    (strong : Bool) (lc rc : Option Change) (lo ln ro rn : Option Entry)
    → Tells lc lo ln
    → Tells rc ro rn
    → Fits strong (create_by strong lc rc) lo ln ro rn
unfolding create_by Tells
create_by-Fits true none none lo ln ro rn l r = (l.0, r.0)
create_by-Fits false none none lo ln ro rn l r = (l.0, r.0)
create_by-Fits true none (some rc) lo ln ro rn l r = (l.0, r.1 rc refl)
create_by-Fits false none (some rc) lo ln ro rn l r = (l.0, r.1 rc refl)
create_by-Fits true (some lc) none lo ln ro rn l r = (r.0, l.1 lc refl)
create_by-Fits false (some lc) none lo ln ro rn l r = (r.0, l.1 lc refl)
create_by-Fits true (some lc) (some rc) lo ln ro rn l r = ground (arith, l.1 lc refl, r.1 rc refl)
create_by-Fits false (some lc) (some rc) lo ln ro rn l r = ground (arith, l.1 lc refl, r.1 rc refl)

pub build_actions-IsSorted :
    (l r : List Change) (strong : Bool)
    → IsSorted change_path l
    → IsSorted change_path r
    → IsSorted action_path (build_actions l r strong)
unfolding build_actions
build_actions-IsSorted l r strong =
    merge-IsSorted change_path action_path (create_by strong) (create_by-IsKeyed strong) l r

pub find-build_actions :
    (p : FilePath) (l r : List Change) (strong : Bool)
    → IsSorted change_path l
    → IsSorted change_path r
    → find action_path p (build_actions l r strong)
      ≡ create_by strong (find change_path p l) (find change_path p r)
unfolding build_actions
find-build_actions p l r strong =
    find-merge change_path action_path (create_by strong) (create_by-IsKeyed strong) p l r

-- The plan made from the two sides' old and new manifests, each in strictly increasing path order,
-- is in that order too, and at every path it fits them: no action only where neither side changed;
-- a one-sided action only where the other side is unchanged and the action's side has changed, and
-- then from the entry that side has had to the entry that it has now; `identical` and `conflict` only
-- where both have changed, with both sides' changes, alike or not alike by the comparison in use. A
-- side has changed where its entry came, went, or is not what the scan takes for the same.
pub plan_lem :
    (p : FilePath) (lo ln ro rn : List Entry) (strong : Bool)
    → IsSorted entry_path lo
    → IsSorted entry_path ln
    → IsSorted entry_path ro
    → IsSorted entry_path rn
    → let plan = build_actions (changes lo ln) (changes ro rn) strong in
      IsSorted action_path plan
      × Fits strong
          (find action_path p plan)
          (find entry_path p lo)
          (find entry_path p ln)
          (find entry_path p ro)
          (find entry_path p rn)
unfolding Tells
plan_lem p lo ln ro rn strong a b c d =
    let (sl, ul, tl) = changes_complete p lo ln a b in
    let (sr, ur, tr) = changes_complete p ro rn c d in
    (
      build_actions-IsSorted _ _ strong sl sr,
      rw (find-build_actions p _ _ strong sl sr)
          (create_by-Fits strong _ _ _ _ _ _ (ul, tl) (ur, tr)),
    )
