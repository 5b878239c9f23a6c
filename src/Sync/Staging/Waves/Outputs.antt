-- ===== src/Sync/Staging/Waves/Outputs.antt =====
-- What the figures of a wave count: the files that its actions write on each side.
use duet.Prelude.{
  refl, ◌>>=◌, ℕ, ◌+◌, not, ◌&&◌, List, [], ◌∷◌, ◌++◌, length, length-append, ok, ◌≡◌, arith,
  if◌then◌else◌, subst, ok-injective, >>=-eq-ok,
}
use duet.Scan.Entry.{is_file, same_contents}
use duet.Scan.Change.{Change, added, removed, modified}
use duet.Actions.{identical, conflict, Action, local, remote, resolved_local, resolved_remote}
use duet.Sync.Detail.{apply_detail_kind_for_change, change_output_entry}
use duet.Sync.Staging.{
  GroupSide, add_local, add_output, checked_staging_add, StagingDependencyGroup, add_actions,
  add_remote, staging_dependency_group, StagingBudget, add_action, empty_side, validate_side,
}

-- The size of the file that a change writes, if it writes one.
abbrev pub file_sizes : Change → List ℕ
file_sizes (added entry) = if is_file entry then entry.size ∷ [] else []
file_sizes (removed _) = []
file_sizes (modified old new) =
    if is_file new && not (is_file old && same_contents old new) then new.size ∷ [] else []

-- The sizes of the files that actions write here, and on the other side.
abbrev pub local_sizes : List Action → List ℕ
local_sizes [] = []
local_sizes (local c ∷ actions) = file_sizes c ++ local_sizes actions
local_sizes (resolved_local _ _ c ∷ actions) = file_sizes c ++ local_sizes actions
local_sizes (_ ∷ actions) = local_sizes actions

abbrev pub remote_sizes : List Action → List ℕ
remote_sizes [] = []
remote_sizes (remote c ∷ actions) = file_sizes c ++ remote_sizes actions
remote_sizes (resolved_remote _ _ c ∷ actions) = file_sizes c ++ remote_sizes actions
remote_sizes (_ ∷ actions) = remote_sizes actions

abbrev pub total : List ℕ → ℕ
total [] = 0
total (n ∷ numbers) = n + total numbers

pub total-append : (xs ys : List ℕ) → total (xs ++ ys) ≡ total xs + total ys
total-append [] ys = omega arith
total-append (x ∷ xs) ys = omega (arith, total-append xs ys)

-- A side with the files of the given sizes added.
abbrev Adds : GroupSide → List ℕ → GroupSide → Type 0
Adds s sizes s' =
    (s'.reconstructed_bytes ≡ s.reconstructed_bytes + total sizes)
    × (s'.staged_regular_outputs ≡ s.staged_regular_outputs + length sizes)

Adds-nil : (s : GroupSide) → Adds s [] s
Adds-nil s = (omega arith, omega arith)

Adds-append :
    (s s' s'' : GroupSide) (xs ys : List ℕ) → Adds s xs s' → Adds s' ys s'' → Adds s (xs ++ ys) s''
Adds-append s s' s'' xs ys (b, o) (b', o') =
    (omega (arith, b, b', total-append xs ys), omega (arith, o, o', length-append xs ys))

add_local-Adds :
    (c : Change) (l r : GroupSide) (sides : GroupSide × GroupSide)
    → add_local c (l, r) ≡ ok sides
    → Adds l (file_sizes c) sides.0 × Adds r [] sides.1
unfolding add_output checked_staging_add apply_detail_kind_for_change change_output_entry
add_local-Adds (added e) l r sides h = ground (arith, h)
add_local-Adds (removed e) l r sides h = ground (arith, h)
add_local-Adds (modified old new) l r sides h = ground (arith, h)

add_remote-Adds :
    (c : Change) (l r : GroupSide) (sides : GroupSide × GroupSide)
    → add_remote c (l, r) ≡ ok sides
    → Adds l [] sides.0 × Adds r (file_sizes c) sides.1
unfolding add_output checked_staging_add apply_detail_kind_for_change change_output_entry
add_remote-Adds (added e) l r sides h = ground (arith, h)
add_remote-Adds (removed e) l r sides h = ground (arith, h)
add_remote-Adds (modified old new) l r sides h = ground (arith, h)

-- Both sides with the files of the actions added.
AddsBoth : GroupSide × GroupSide → List Action → GroupSide × GroupSide → Type 0
AddsBoth sides actions sides' =
    Adds sides.0 (local_sizes actions) sides'.0 × Adds sides.1 (remote_sizes actions) sides'.1

local_first :
    (c : Change) (actions : List Action) (sides sides' : GroupSide × GroupSide)
    → ((mid : GroupSide × GroupSide)
        → add_actions actions mid ≡ ok sides'
        → AddsBoth mid actions sides')
    → (add_local c sides >>= add_actions actions) ≡ ok sides'
    → Adds sides.0 (file_sizes c ++ local_sizes actions) sides'.0
      × Adds sides.1 (remote_sizes actions) sides'.1
unfolding AddsBoth
local_first c actions sides sides' later h =
    let (mid, e, f) = >>=-eq-ok (add_local c sides) (add_actions actions) h in
    let (l, r) = add_local-Adds c sides.0 sides.1 mid e in
    let (l', r') = later mid f in
    (
      Adds-append sides.0 mid.0 sides'.0 (file_sizes c) (local_sizes actions) l l',
      Adds-append sides.1 mid.1 sides'.1 [] (remote_sizes actions) r r',
    )

remote_first :
    (c : Change) (actions : List Action) (sides sides' : GroupSide × GroupSide)
    → ((mid : GroupSide × GroupSide)
        → add_actions actions mid ≡ ok sides'
        → AddsBoth mid actions sides')
    → (add_remote c sides >>= add_actions actions) ≡ ok sides'
    → Adds sides.0 (local_sizes actions) sides'.0
      × Adds sides.1 (file_sizes c ++ remote_sizes actions) sides'.1
unfolding AddsBoth
remote_first c actions sides sides' later h =
    let (mid, e, f) = >>=-eq-ok (add_remote c sides) (add_actions actions) h in
    let (l, r) = add_remote-Adds c sides.0 sides.1 mid e in
    let (l', r') = later mid f in
    (
      Adds-append sides.0 mid.0 sides'.0 [] (local_sizes actions) l l',
      Adds-append sides.1 mid.1 sides'.1 (file_sizes c) (remote_sizes actions) r r',
    )

add_actions-Adds :
    (actions : List Action) (sides sides' : GroupSide × GroupSide)
    → add_actions actions sides ≡ ok sides'
    → AddsBoth sides actions sides'
unfolding add_actions add_action AddsBoth
add_actions-Adds [] sides sides' h =
    subst (AddsBoth sides []) (ok-injective _ _ h) (Adds-nil sides.0, Adds-nil sides.1)
add_actions-Adds (local c ∷ actions) sides sides' h =
    local_first c actions sides sides' (λ mid. add_actions-Adds actions mid sides') h
add_actions-Adds (resolved_local _ _ c ∷ actions) sides sides' h =
    local_first c actions sides sides' (λ mid. add_actions-Adds actions mid sides') h
add_actions-Adds (remote c ∷ actions) sides sides' h =
    remote_first c actions sides sides' (λ mid. add_actions-Adds actions mid sides') h
add_actions-Adds (resolved_remote _ _ c ∷ actions) sides sides' h =
    remote_first c actions sides sides' (λ mid. add_actions-Adds actions mid sides') h
add_actions-Adds (identical _ _ ∷ actions) sides sides' h = add_actions-Adds actions sides sides' h
add_actions-Adds (conflict _ _ ∷ actions) sides sides' h = cc

-- The recorded bytes and number of outputs of a side are those of the files of the given sizes.
abbrev pub Counts : List ℕ → ℕ → ℕ → Type 0
Counts sizes bytes outputs = (bytes ≡ total sizes) × (outputs ≡ length sizes)

abbrev pub GroupCounts : List Action → StagingDependencyGroup → Type 0
GroupCounts actions g =
    Counts (local_sizes actions) g.local_side.reconstructed_bytes
      g.local_side.staged_regular_outputs
    × Counts (remote_sizes actions) g.remote_side.reconstructed_bytes
        g.remote_side.staged_regular_outputs

pub staging_dependency_group-GroupCounts :
    (lb rb : StagingBudget) (indices : List ℕ) (actions : List Action) (g : StagingDependencyGroup)
    → staging_dependency_group lb rb indices actions ≡ ok g
    → (g.action_indices ≡ indices) × GroupCounts actions g
unfolding staging_dependency_group AddsBoth
staging_dependency_group-GroupCounts lb rb indices actions g h =
    let (sides, e1, f1) = >>=-eq-ok (add_actions actions (empty_side, empty_side)) _ h in
    let (l, e2, f2) = >>=-eq-ok (validate_side sides.0 lb) _ f1 in
    let (r, e3, f3) = >>=-eq-ok (validate_side sides.1 rb) _ f2 in
    let ((lbytes, louts), (rbytes, routs)) =
      add_actions-Adds actions (empty_side, empty_side) sides e1 in
    subst (λ (x : StagingDependencyGroup). (x.action_indices ≡ indices) × GroupCounts actions x)
      (ok-injective _ _ f3)
      (
        refl,
        (
          (omega (arith, lbytes), omega (arith, louts)),
          (omega (arith, rbytes), omega (arith, routs)),
        ),
      )
