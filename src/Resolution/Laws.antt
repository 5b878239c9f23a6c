-- ===== src/Resolution/Laws.antt =====
-- Resolving one conflict.
use duet.Prelude.{Bool, false, true, ◌≡◌, refl, ok, is_some, sym, ap, ◌∙◌, List, some}
use duet.Scan.Change.{Change, added, removed, modified, same, same_strong, entry_path, changes}
use duet.Scan.Change.Laws.{before, after}
use duet.Actions.{conflict, resolved_local, resolved_remote, action_path}
use duet.Scan.Change.Same.{same_comm, same_strong_comm}
use duet.FilePath.{FilePath, component_ord}
use duet.Ord.Lexicographic.{list_ord}
use duet.Scan.Entry.{Entry}
use duet.Sorted.{IsSorted, find}
use duet.Orchestrator.Plan.{build_actions}
use duet.Orchestrator.Plan.Laws.{same_by, plan_lem}
use duet.Resolution.{resolve_action, resolve_pair, overriding, to_local, to_remote}

-- Both changes start from a present entry, or both from none.
abbrev pub SameStart : Change → Change → Type 0
SameStart lc rc = is_some (before lc) ≡ is_some (before rc)

-- The change `c` takes one side's new entry to the other's.
abbrev pub Overrides : Change → Change → Change → Type 0
Overrides c mine theirs = (before c ≡ after mine) × (after c ≡ after theirs)

overriding_lem :
    (strong : Bool) (mine theirs : Change)
    → same_by strong mine theirs ≡ false
    → SameStart mine theirs
    → (c : Change) × (overriding mine theirs ≡ ok c) × Overrides c mine theirs
unfolding overriding
overriding_lem strong (added n) (added m) d s = (modified n m, refl, (refl, refl))
overriding_lem strong (removed n) (modified o m) d s = (added m, refl, (refl, refl))
overriding_lem strong (modified o n) (modified q m) d s = (modified n m, refl, (refl, refl))
overriding_lem strong (modified o n) (removed m) d s = (removed n, refl, (refl, refl))
overriding_lem true (removed n) (removed m) d s = unfold same_strong in cc
overriding_lem false (removed n) (removed m) d s = unfold same in cc
overriding_lem strong (added n) (removed m) d s = cc
overriding_lem strong (added n) (modified o m) d s = cc
overriding_lem strong (removed n) (added m) d s = cc
overriding_lem strong (modified o n) (added m) d s = cc

same_by_comm : (strong : Bool) (x y : Change) → same_by strong x y ≡ same_by strong y x
same_by_comm true x y = same_strong_comm x y
same_by_comm false x y = same_comm x y

resolve_action_lem :
    (strong : Bool) (lc rc : Change)
    → same_by strong lc rc ≡ false
    → SameStart lc rc
    → ((c : Change) × (resolve_action (conflict lc rc) to_local ≡ ok (resolved_local lc rc c))
        × Overrides c lc rc)
      × ((c : Change) × (resolve_action (conflict lc rc) to_remote ≡ ok (resolved_remote lc rc c))
          × Overrides c rc lc)
unfolding resolve_action resolve_pair
resolve_action_lem strong lc rc d s =
    let (c, p, q) = overriding_lem strong lc rc d s in
    let (c', p', q') = overriding_lem strong rc lc (same_by_comm strong rc lc ∙ d) (sym s) in
    ((c, rw p, q), (c', rw p', q'))

-- A conflict of a plan made from manifests in strictly increasing path order, at a path that both
-- old manifests have, or neither, is resolved to either side without a panic: to the local side by
-- a change from the local entry to the remote one, to the remote side by a change from the remote
-- entry to the local one.
pub resolve_action-plan :
    (p : FilePath) (lo ln ro rn : List Entry) (strong : Bool) (lc rc : Change)
    → IsSorted entry_path lo
    → IsSorted entry_path ln
    → IsSorted entry_path ro
    → IsSorted entry_path rn
    → is_some (find entry_path p lo) ≡ is_some (find entry_path p ro)
    → find action_path p (build_actions (changes lo ln) (changes ro rn) strong)
      ≡ some (conflict lc rc)
    → ((c : Change) × (resolve_action (conflict lc rc) to_local ≡ ok (resolved_local lc rc c))
        × (before c ≡ find entry_path p ln)
        × (after c ≡ find entry_path p rn))
      × ((c : Change) × (resolve_action (conflict lc rc) to_remote ≡ ok (resolved_remote lc rc c))
          × (before c ≡ find entry_path p rn)
          × (after c ≡ find entry_path p ln))
resolve_action-plan p lo ln ro rn strong lc rc a b c d start h =
    let fits = rw h at ((plan_lem p lo ln ro rn strong a b c d).1) in
    let ((bl, al, _), (br, ar, _), differ) = fits in
    let ((x, px, qx), (y, py, qy)) =
      resolve_action_lem strong lc rc differ (ap is_some bl ∙ start ∙ sym (ap is_some br)) in
    ((x, px, qx.0 ∙ al, qx.1 ∙ ar), (y, py, qy.0 ∙ ar, qy.1 ∙ al))
