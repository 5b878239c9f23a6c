-- ===== src/Sync/Validate/Staged/Laws.antt =====
-- Which plans and old manifests `validate_staged_structure` accepts.
use duet.Sync.Validate.Staged.Keeps.{KeepsDirectories, replaces_iff}
use duet.Prelude.{
  List, [], ◌∷◌, Bool, true, false, not, Option, none, some, ok, guard, ◌>>=◌, ◌≡◌, ◌↔◌, refl, sym,
  ◌∙◌, ap, subst, arith, All, All-iff, >>=-eq-ok, ok-injective, Bool-cases, inl, inr,
}
use mathlib.Core.Logic.Iff
use duet.Actions.{
  Action, local, remote, conflict, resolved_local, resolved_remote, identical, action_path,
}
use duet.Scan.Change.{entry_path, Change, added, removed, modified, change_path}
use duet.Ord.{=?_iff, ◌=?◌, ◌≺◌}
use duet.Ord.Lexicographic.{list_ord}
use duet.FilePath.{FilePath, component_ord}
use duet.Sorted.{IsSorted, Above, Above-trans}
use duet.Sync.Staging.Waves.{out_of_order_after}
use duet.Sync.Validate.{for_each, Action, Entry, local, remote, conflict, identical}
use duet.Sync.Validate.Laws.{guard-eq-ok, for_each-All}
use duet.Sync.Validate.Entries.{change_entries, AllEntries}
use duet.Sync.Validate.Staged.{
  staged_path, staged_paths, check_paths, unordered_actions, compound_path_mismatch,
  check_staged_actions, validate_staged_structure, action_changes, check_staged_action,
  check_windows, replaces, effective_change, unordered_entries, replaces_directory,
}

out_of_order_after-some : (a b : FilePath) → (out_of_order_after (some a) b ≡ false) ↔ (a ≺ b)
unfolding out_of_order_after
out_of_order_after-some a b = (λ h. ground arith, λ h. ground arith)

-- Items that come after a path, if there is one, in strictly increasing order.
module _ {A : Type 0} (key : A → FilePath) where
  Follows : Option FilePath → List A → Type 0
  Follows none xs = IsSorted key xs
  Follows (some path) xs = Above key path xs × IsSorted key xs

  Follows-cons :
      (previous : Option FilePath) (x : A) (xs : List A)
      → Follows previous (x ∷ xs)
        ↔ ((out_of_order_after previous (key x) ≡ false) × Follows (some (key x)) xs)
  unfolding Follows
  Follows-cons none x xs = unfold out_of_order_after in (λ h. (refl, h), λ (_, h). h)
  Follows-cons (some p) x xs =
      let (to, of) = out_of_order_after-some p (key x) in
      (
        λ ((h, _), k). (of h, k),
        λ (h, (a, s)). ((to h, Above-trans key p (key x) xs (to h) a), (a, s)),
      )

-- Every entry of the change has the path.
abbrev At : FilePath → Change → Type 0
At path change = All (λ e. e.path ≡ path) (change_entries change)

staged_path-At : (path : FilePath) (c : Change) → (staged_path c ≡ ok path) ↔ At path c
unfolding staged_path
staged_path-At path (added e) = (λ h. (ok-injective _ _ h, tt), λ (h, _). rw h refl)
staged_path-At path (removed e) = (λ h. (ok-injective _ _ h, tt), λ (h, _). rw h refl)
staged_path-At path (modified old new) = elim (Bool-cases (old.path =? new.path)) [
  | inl y ↦
      (let e = (=?_iff old.path new.path).0 y in
        rw y (λ h. (let p = ok-injective _ _ h in (e ∙ p, (p, tt))), λ (_, (p, _)). rw p refl))
  | inr n ↦ rw n (λ h. cc, λ (p, (q, _)). (let e = (=?_iff old.path new.path).1 (p ∙ sym q) in cc))
]

staged_paths-At :
    (path : FilePath) (changes : List Change) (paths : List FilePath)
    → staged_paths changes ≡ ok paths
    → All (λ p. p ≡ path) paths
    → All (At path) changes
unfolding staged_paths
staged_paths-At path [] paths h a = tt
staged_paths-At path (c ∷ changes) paths h a =
    let (p, e, f) = >>=-eq-ok (staged_path c) _ h in
    let (ps, e', g) = >>=-eq-ok (staged_paths changes) _ f in
    let (q, qs) = subst (All (λ p. p ≡ path)) (sym (ok-injective _ _ g)) a in
    ((staged_path-At path c).0 (e ∙ ap ok q), staged_paths-At path changes ps e' qs)

staged_paths_of_At :
    (path : FilePath) (changes : List Change)
    → All (At path) changes
    → (paths : List FilePath) × (staged_paths changes ≡ ok paths) × All (λ p. p ≡ path) paths
unfolding staged_paths
staged_paths_of_At path [] h = ([], refl, tt)
staged_paths_of_At path (c ∷ changes) (h, hs) =
    let (paths, e, a) = staged_paths_of_At path changes hs in
    (path ∷ paths, rw ((staged_path-At path c).1 h, e) refl, (refl, a))

compounds :
    (path : FilePath) (paths : List FilePath)
    → (for_each (λ p. guard (p =? path) compound_path_mismatch) paths ≡ ok tt)
      ↔ All (λ p. p ≡ path) paths
compounds path paths =
    Iff.trans (for_each-All _ paths)
      (All-iff (λ p. Iff.trans (guard-iff (p =? path)) (=?_iff p path)) paths)
  where
    guard-iff : (test : Bool) → (guard test compound_path_mismatch ≡ ok tt) ↔ (test ≡ true)
    guard-iff test = (λ h. guard-eq-ok test _ h, λ h. rw h refl)

check_paths-staged_paths :
    (previous : Option FilePath) (path : FilePath) (c : Change) (changes : List Change)
    → ((staged_paths (c ∷ changes) >>= check_paths previous) ≡ ok path)
      ↔ ((out_of_order_after previous path ≡ false) × All (At path) (c ∷ changes))
unfolding staged_paths check_paths
check_paths-staged_paths previous path c changes = (
  λ h.
      (let (paths, e, f) = >>=-eq-ok (staged_paths (c ∷ changes)) _ h in
        let (p, e', f') = >>=-eq-ok (staged_path c) _ e in
        let (ps, e'', f'') = >>=-eq-ok (staged_paths changes) _ f' in
        forward p ps e' e''
          (subst (λ l. check_paths previous l ≡ ok path) (sym (ok-injective _ _ f'')) f)),
  λ (n, (h, hs)).
      (let (paths, e, a) = staged_paths_of_At path changes hs in
        rw ((staged_path-At path c).1 h, e, n, (compounds path paths).1 a) refl),
)
  where
    forward :
        (p : FilePath) (ps : List FilePath)
        → staged_path c ≡ ok p
        → staged_paths changes ≡ ok ps
        → check_paths previous (p ∷ ps) ≡ ok path
        → (out_of_order_after previous path ≡ false) × All (At path) (c ∷ changes)
    forward p ps e e' f =
        let (_, g, k) =
          >>=-eq-ok (guard (not (out_of_order_after previous p)) unordered_actions) _ f in
        let (_, l, m) = >>=-eq-ok (for_each (λ q. guard (q =? p) compound_path_mismatch) ps) _ k in
        let q = ok-injective _ _ m in
        let n = guard-eq-ok (not (out_of_order_after previous p)) _ g in
        subst (λ p. (out_of_order_after previous p ≡ false) × All (At p) (c ∷ changes)) q
          (
            ground arith,
            ((staged_path-At p c).0 e, staged_paths-At p changes ps e' ((compounds p ps).0 l)),
          )

-- An action all of whose entries have its path, and which makes no directory into something else.
abbrev pub FitsStaging : Action → Type 0
FitsStaging action = KeepsDirectories action × AllEntries (λ e. e.path ≡ action_path action) action

change_path-At : (path : FilePath) (c : Change) → At path c → change_path c ≡ path
change_path-At path (added e) (h, _) = h
change_path-At path (removed e) (h, _) = h
change_path-At path (modified old new) (_, (h, _)) = h

action_path-At :
    (path : FilePath) (a : Action) → AllEntries (λ e. e.path ≡ path) a → action_path a ≡ path
action_path-At path (local c) (h, _) = change_path-At path c h
action_path-At path (remote c) (h, _) = change_path-At path c h
action_path-At path (conflict l r) (h, _) = change_path-At path l h
action_path-At path (identical l r) (h, _) = change_path-At path l h
action_path-At path (resolved_local l r c) (_, (_, (h, _))) = change_path-At path c h
action_path-At path (resolved_remote l r c) (_, (_, (h, _))) = change_path-At path c h

check_paths-action :
    (previous : Option FilePath) (path : FilePath) (a : Action)
    → ((staged_paths (action_changes a) >>= check_paths previous) ≡ ok path)
      ↔ ((out_of_order_after previous path ≡ false) × AllEntries (λ e. e.path ≡ path) a)
check_paths-action previous path (local c) = check_paths-staged_paths previous path c []
check_paths-action previous path (remote c) = check_paths-staged_paths previous path c []
check_paths-action previous path (conflict l r) = check_paths-staged_paths previous path l (r ∷ [])
check_paths-action previous path (identical l r) = check_paths-staged_paths previous path l (r ∷ [])
check_paths-action previous path (resolved_local l r c) =
    check_paths-staged_paths previous path l (r ∷ c ∷ [])
check_paths-action previous path (resolved_remote l r c) =
    check_paths-staged_paths previous path l (r ∷ c ∷ [])

check_staged_actions-cons :
    (previous : Option FilePath) (a : Action) (actions : List Action)
    → (check_staged_actions previous (a ∷ actions) ≡ ok tt) ↔ (
        FitsStaging a
        × (out_of_order_after previous (action_path a) ≡ false)
        × (check_staged_actions (some (action_path a)) actions ≡ ok tt))
unfolding check_staged_actions check_staged_action
check_staged_actions-cons previous a actions = (
  λ h.
      (let (path, e, f) = >>=-eq-ok (check_staged_action previous a) _ h in
        let (_, g, k) =
          >>=-eq-ok (guard (not (replaces (effective_change a))) replaces_directory) _ e in
        let (n, at) = (check_paths-action previous path a).0 k in
        let q = action_path-At path a at in
        let r = guard-eq-ok (not (replaces (effective_change a))) _ g in
        rw q (((replaces_iff a).0 (ground arith), at), n, f)),
  λ ((r, at), n, f).
      rw ((replaces_iff a).1 r, (check_paths-action previous (action_path a) a).1 (n, at)) f,
)

check_staged_actions-Follows :
    (previous : Option FilePath) (actions : List Action)
    → (check_staged_actions previous actions ≡ ok tt)
      ↔ (All FitsStaging actions × Follows action_path previous actions)
check_staged_actions-Follows none [] =
    unfold check_staged_actions Follows in (λ _. (tt, tt), λ _. refl)
check_staged_actions-Follows (some p) [] =
    unfold check_staged_actions Follows in (λ _. (tt, (tt, tt)), λ _. refl)
check_staged_actions-Follows previous (a ∷ actions) =
    let (to, of) = check_staged_actions-cons previous a actions in
    let (tos, ofs) = check_staged_actions-Follows (some (action_path a)) actions in
    let (along, back) = Follows-cons action_path previous a actions in
    (
      λ h.
          (let (fits, n, k) = to h in
            let (all, follows) = tos k in ((fits, all), back (n, follows))),
      λ ((fits, all), follows). (let (n, rest) = along follows in of (fits, n, ofs (all, rest))),
    )

check_windows-cons :
    (first second : Entry) (entries : List Entry)
    → (check_windows (first ∷ second ∷ entries) ≡ ok tt) ↔ (
        (out_of_order_after (some first.path) second.path ≡ false)
        × (check_windows (second ∷ entries) ≡ ok tt))
unfolding check_windows
check_windows-cons first second entries = (
  λ h.
      (let (_, g, k) =
          >>=-eq-ok
            (guard (not (out_of_order_after (some first.path) second.path)) unordered_entries) _
            h in
        let n = guard-eq-ok (not (out_of_order_after (some first.path) second.path)) _ g in
        (ground arith, k)),
  λ (n, k). rw n k,
)

check_windows-Follows :
    (entry : Entry) (entries : List Entry)
    → (check_windows (entry ∷ entries) ≡ ok tt) ↔ Follows entry_path (some entry.path) entries
check_windows-Follows entry [] = unfold check_windows Follows in (λ _. (tt, tt), λ _. refl)
check_windows-Follows entry (next ∷ entries) =
    let (to, of) = check_windows-Follows next entries in
    let (split, join) = check_windows-cons entry next entries in
    let (along, back) = Follows-cons entry_path (some entry.path) next entries in
    (
      λ h. (let (n, k) = split h in back (n, to k)),
      λ follows. (let (n, rest) = along follows in join (n, of rest)),
    )

check_windows-IsSorted :
    (entries : List Entry) → (check_windows entries ≡ ok tt) ↔ IsSorted entry_path entries
check_windows-IsSorted [] = unfold check_windows in (λ _. tt, λ _. refl)
check_windows-IsSorted (entry ∷ entries) = unfold Follows in check_windows-Follows entry entries

-- The structure is accepted exactly where the actions and the old manifest are in strictly
-- increasing path order, all changes that an action holds are at its path, on both their sides, and
-- no action that takes effect replaces a directory by something else.
pub validate_staged_structure_lem :
    (actions : List Action) (all_old : List Entry)
    → (validate_staged_structure actions all_old ≡ ok tt)
      ↔ (All FitsStaging actions × IsSorted action_path actions × IsSorted entry_path all_old)
unfolding validate_staged_structure
validate_staged_structure_lem actions all_old =
    let (to, of) = check_staged_actions-Follows none actions in
    let (along, back) = check_windows-IsSorted all_old in
    unfold Follows in
    (
      λ h.
          (let (_, a, b) = >>=-eq-ok (check_staged_actions none actions) _ h in
            let (fits, sorted) = to a in (fits, sorted, along b)),
      λ (fits, sorted, old). rw (of (fits, sorted)) (back old),
    )
