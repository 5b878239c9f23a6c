-- ===== src/Sync/Validate/Entries.antt =====
-- Which actions the checks of paths and digests accept: those whose every entry passes.
use mathlib.Core.Logic.Iff
use duet.Prelude.{
  true, false, All-iff, All-both, ◌&&◌, Bool, sym, List, [], ◌∷◌, Result, ok, err, ◌>>◌, All, ◌≡◌,
  ◌↔◌, refl, is_some, guard, not, arith,
}
use duet.Sync.Validate.Staged.{action_changes}
use duet.FilePath.Spelling.{RawPath}
use duet.Scan.Entry.{Entry, is_file}
use duet.Scan.Change.{Change, added, removed, modified}
use duet.Actions.{Action, local, remote, conflict, resolved_local, resolved_remote, identical}
use duet.Sync.Validate.{
  for_each, validate_strong_entry, validate_actions, InvalidPath, MissingDigest, validate_action,
  validate_change_paths, validate_entry_path, missing_content_digest,
}
use duet.Sync.Validate.Laws.{IsEntryPath, for_each-All, validate_canonical_entry_path_lem}
use duet.Sync.Validate.Strong.{
  map_err, invalid_path, missing_digest, validate_strong_change, validate_strong_action,
  validate_strong_actions,
}

abbrev pub change_entries : Change → List Entry
change_entries (added entry) = entry ∷ []
change_entries (removed entry) = entry ∷ []
change_entries (modified old new) = old ∷ new ∷ []

-- Every entry of every change of an action.
abbrev pub AllEntries : (Entry → Type 0) → Action → Type 0
AllEntries P action = All (λ change. All P (change_entries change)) (action_changes action)

-- What a strong action's entry is to be: its path canonical and, for a file, its digest known.
abbrev pub IsStrong : (Entry → RawPath) → Entry → Type 0
IsStrong path_bytes entry =
    IsEntryPath (path_bytes entry) × (is_file entry ≡ true → is_some entry.digest ≡ true)

>>-done {κ} : {E : Type κ} (first : Result E (Unit {0})) → (first >> ok tt) ≡ first
>>-done (ok tt) = refl
>>-done (err fault) = refl

-- A check of an entry that goes over the entries of a change and over the changes of an action.
module _ {E : Type 0} (check : Entry → Result E (Unit {0}))
    (check_change : Change → Result E (Unit {0})) (check_action : Action → Result E (Unit {0}))
    (over_entries : (c : Change) → check_change c ≡ for_each check (change_entries c))
    (over_changes : (a : Action) → check_action a ≡ for_each check_change (action_changes a)) where
  All-change :
      (c : Change) → (check_change c ≡ ok tt) ↔ All (λ e. check e ≡ ok tt) (change_entries c)
  All-change c = rw (over_entries c) (for_each-All check (change_entries c))

  AllEntries-action : (a : Action) → (check_action a ≡ ok tt) ↔ AllEntries (λ e. check e ≡ ok tt) a
  AllEntries-action a = rw (over_changes a) (
      Iff.trans (for_each-All check_change (action_changes a))
        (All-iff All-change (action_changes a)))

  AllEntries-actions :
      (actions : List Action)
      → (for_each check_action actions ≡ ok tt) ↔ All (AllEntries (λ e. check e ≡ ok tt)) actions
  AllEntries-actions actions =
      Iff.trans (for_each-All check_action actions) (All-iff AllEntries-action actions)

module _ {κ} {E : Type κ} (check : Change → Result E (Unit {0})) where
  two : (left right : Change) → (check left >> check right) ≡ for_each check (left ∷ right ∷ [])
  unfolding for_each
  two left right = rw (>>-done (check right)) refl

  three :
      (left right change : Change)
      → (check left >> (check right >> check change)) ≡ for_each check (left ∷ right ∷ change ∷ [])
  unfolding for_each
  three left right change = rw (>>-done (check change)) refl

validate_strong_change-entries :
    (c : Change) → validate_strong_change c ≡ for_each validate_strong_entry (change_entries c)
unfolding validate_strong_change for_each
validate_strong_change-entries (added entry) = sym (>>-done (validate_strong_entry entry))
validate_strong_change-entries (removed entry) = sym (>>-done (validate_strong_entry entry))
validate_strong_change-entries (modified old new) = rw (>>-done (validate_strong_entry new)) refl

validate_strong_action-changes :
    (a : Action) → validate_strong_action a ≡ for_each validate_strong_change (action_changes a)
unfolding validate_strong_action
validate_strong_action-changes (local c) =
    unfold for_each in sym (>>-done (validate_strong_change c))
validate_strong_action-changes (remote c) =
    unfold for_each in sym (>>-done (validate_strong_change c))
validate_strong_action-changes (conflict l r) = two validate_strong_change l r
validate_strong_action-changes (identical l r) = two validate_strong_change l r
validate_strong_action-changes (resolved_local l r c) = three validate_strong_change l r c
validate_strong_action-changes (resolved_remote l r c) = three validate_strong_change l r c

AllEntries-iff :
    {P Q : Entry → Type 0}
    → ((e : Entry) → P e ↔ Q e)
    → (actions : List Action) → All (AllEntries P) actions ↔ All (AllEntries Q) actions
AllEntries-iff f = All-iff (λ a. All-iff (λ c. All-iff f (change_entries c)) (action_changes a))

AllEntries-both :
    (P Q : Entry → Type 0) (actions : List Action)
    → (All (AllEntries P) actions × All (AllEntries Q) actions)
      ↔ All (AllEntries (λ e. P e × Q e)) actions
AllEntries-both P Q = All-both _ _ _ (λ a.
    All-both _ _ _ (λ c. All-both P Q _ (λ e. (λ h. h, λ h. h)) (change_entries c))
      (action_changes a))

map_err->> :
    (paths : Result InvalidPath (Unit {0})) (digests : Result MissingDigest (Unit {0}))
    → (map_err invalid_path paths >> map_err missing_digest digests ≡ ok tt)
      ↔ ((paths ≡ ok tt) × (digests ≡ ok tt))
map_err->> (err fault) digests = (λ h. cc, λ (h, _). cc)
map_err->> (ok tt) (err fault) = (λ h. cc, λ (_, h). cc)
map_err->> (ok a) (ok b) = (λ h. (refl, refl), λ h. refl)

validate_strong_entry-eq-ok :
    (e : Entry) → (validate_strong_entry e ≡ ok tt) ↔ (is_file e ≡ true → is_some e.digest ≡ true)
unfolding validate_strong_entry
validate_strong_entry-eq-ok e = (λ h k. ground arith, λ h. go (is_file e) (is_some e.digest) h)
  where
    go :
        (file known : Bool)
        → (file ≡ true → known ≡ true)
        → guard (not (file && not known)) missing_content_digest ≡ ok tt
    go true true h = refl
    go true false h = let e = h refl in cc
    go false known h = refl

module _ (path_bytes : Entry → RawPath) where
  validate_change_paths-entries :
      (c : Change)
      → validate_change_paths path_bytes c
        ≡ for_each (validate_entry_path path_bytes) (change_entries c)
  unfolding validate_change_paths for_each
  validate_change_paths-entries (added entry) = sym (>>-done (validate_entry_path path_bytes entry))
  validate_change_paths-entries (removed entry) =
      sym (>>-done (validate_entry_path path_bytes entry))
  validate_change_paths-entries (modified old new) =
      rw (>>-done (validate_entry_path path_bytes new)) refl

  validate_action-changes :
      (a : Action)
      → validate_action path_bytes a
        ≡ for_each (validate_change_paths path_bytes) (action_changes a)
  unfolding validate_action
  validate_action-changes (local c) =
      unfold for_each in sym (>>-done (validate_change_paths path_bytes c))
  validate_action-changes (remote c) =
      unfold for_each in sym (>>-done (validate_change_paths path_bytes c))
  validate_action-changes (conflict l r) = two (validate_change_paths path_bytes) l r
  validate_action-changes (identical l r) = two (validate_change_paths path_bytes) l r
  validate_action-changes (resolved_local l r c) = three (validate_change_paths path_bytes) l r c
  validate_action-changes (resolved_remote l r c) = three (validate_change_paths path_bytes) l r c

  validate_entry_path-eq-ok :
      (e : Entry) → (validate_entry_path path_bytes e ≡ ok tt) ↔ IsEntryPath (path_bytes e)
  unfolding validate_entry_path
  validate_entry_path-eq-ok e = validate_canonical_entry_path_lem (path_bytes e)

  -- The paths of a plan are accepted exactly where the bytes of every entry's path in every change of
  -- every action, the replaced changes of a resolved conflict too, are names with single slashes
  -- between them.
  pub validate_actions_lem :
      (actions : List Action)
      → (validate_actions path_bytes actions ≡ ok tt)
        ↔ All (AllEntries (λ e. IsEntryPath (path_bytes e))) actions
  unfolding validate_actions
  validate_actions_lem actions =
      Iff.trans
        (AllEntries-actions (validate_entry_path path_bytes) (validate_change_paths path_bytes)
          (validate_action path_bytes) validate_change_paths-entries validate_action-changes
          actions)
        (AllEntries-iff validate_entry_path-eq-ok actions)

  -- A strong peer's plan is accepted exactly where every entry in it, those of replaced changes too,
  -- has a canonical path and, if it is a regular file, a content digest.
  pub validate_strong_actions_lem :
      (actions : List Action)
      → (validate_strong_actions path_bytes actions ≡ ok tt)
        ↔ All (AllEntries (IsStrong path_bytes)) actions
  unfolding validate_strong_actions
  validate_strong_actions_lem actions =
      Iff.trans
        (map_err->> (validate_actions path_bytes actions) (for_each validate_strong_action actions))
        (Iff.trans (Iff.and (validate_actions_lem actions) digests) (AllEntries-both _ _ actions))
    where
      digests :
          (for_each validate_strong_action actions ≡ ok tt)
          ↔ All (AllEntries (λ e. is_file e ≡ true → is_some e.digest ≡ true)) actions
      digests =
          Iff.trans
            (AllEntries-actions validate_strong_entry validate_strong_change validate_strong_action
              validate_strong_change-entries validate_strong_action-changes actions)
            (AllEntries-iff validate_strong_entry-eq-ok actions)
