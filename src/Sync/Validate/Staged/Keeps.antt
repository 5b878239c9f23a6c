-- ===== src/Sync/Validate/Staged/Keeps.antt =====
-- What the staged apply says of directories, change by change.
use duet.Prelude.{◌↔◌, ◌⊎◌, false, true, ◌≡◌, refl, arith, some}
use duet.Scan.Change.{Change, added, removed, modified}
use duet.Actions.{Action, local, remote, conflict, resolved_local, resolved_remote, identical}
use duet.Sync.Staging.{is_replacement}
use duet.Sync.Validate.Staged.{replaces, effective_change}

-- A change that keeps a directory one.
abbrev pub KeepsDirectory : Change → Type 0
KeepsDirectory (added _) = Unit
KeepsDirectory (removed _) = Unit
KeepsDirectory (modified old new) = (old.is_dir ≡ false) ⊎ (new.is_dir ≡ true)

-- The same of what an action makes, on whichever side: conflicts and identical changes make nothing.
abbrev pub KeepsDirectories : Action → Type 0
KeepsDirectories (local c) = KeepsDirectory c
KeepsDirectories (remote c) = KeepsDirectory c
KeepsDirectories (resolved_local _ _ c) = KeepsDirectory c
KeepsDirectories (resolved_remote _ _ c) = KeepsDirectory c
KeepsDirectories (conflict _ _) = Unit
KeepsDirectories (identical _ _) = Unit

is_replacement_iff : (c : Change) → (replaces (some c) ≡ false) ↔ KeepsDirectory c
unfolding replaces is_replacement
is_replacement_iff (added e) = (λ _. tt, λ _. refl)
is_replacement_iff (removed e) = (λ _. tt, λ _. refl)
is_replacement_iff (modified old new) = (λ h. ground (arith, h), λ h. ground (arith, h))

pub replaces_iff : (a : Action) → (replaces (effective_change a) ≡ false) ↔ KeepsDirectories a
unfolding effective_change
replaces_iff (local c) = is_replacement_iff c
replaces_iff (remote c) = is_replacement_iff c
replaces_iff (resolved_local _ _ c) = is_replacement_iff c
replaces_iff (resolved_remote _ _ c) = is_replacement_iff c
replaces_iff (conflict _ _) = unfold replaces in (λ _. tt, λ _. refl)
replaces_iff (identical _ _) = unfold replaces in (λ _. tt, λ _. refl)
