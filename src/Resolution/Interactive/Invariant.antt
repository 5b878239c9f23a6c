-- ===== src/Resolution/Interactive/Invariant.antt =====
-- The dialogue never panics, counts the open conflicts rightly and keeps the selection on the page.
use duet.Prelude.{
  ltb, leb, ok_of_is_ok, ℕ, zero, suc, ◌+◌, ◌-◌, ◌*◌, ◌≤◌, ◌<◌, ◌≡◌, refl, arith, Bool, true, not,
  ◌||◌, List, [], ◌∷◌, length, some, get_elem?, All, Result, ok, is_ok, if◌then◌else◌, subst, ◌>>=◌,
  Bool-cases, inr, inl,
}
use mathlib.Core.Option
use duet.Actions.{
  Action, local, remote, conflict, resolved_local, resolved_remote, identical, is_conflict,
  is_unresolved_conflict, is_identical, num_unresolved_conflicts,
}
use duet.Resolution.{
  Resolution, to_local, to_remote, resolve_action, resolve_pair, Change, overriding,
}
use duet.Resolution.Interactive.Selection.{wrap_step-lt}
use duet.Resolution.Interactive.{
  State, Panic, set, Step, move, wrap_step, keep_selected, resolve_selected, resolve_conflict,
  advance, forward, reopen, turn_page,
}

-- Whether an action is on the list when the list is made.
abbrev pub shown : Bool → Action → Bool
shown verbose a = verbose || not (is_identical a)

-- Both resolutions of a conflict exist: see `resolve_action-plan`.
abbrev pub CanResolve : Action → Type 0
CanResolve a =
    (is_ok (resolve_action a to_local) ≡ true) × (is_ok (resolve_action a to_remote) ≡ true)

abbrev pub Fine : Bool → Action → Type 0
Fine verbose a = CanResolve a × (shown verbose a ≡ true)

-- One for an open conflict.
abbrev weight : Action → ℕ
weight a = if is_unresolved_conflict a then 1 else 0

num-cons :
    (a : Action) (l : List Action)
    → num_unresolved_conflicts (a ∷ l) ≡ weight a + num_unresolved_conflicts l
unfolding num_unresolved_conflicts
num-cons a l = ground arith

num-set :
    (l : List Action) (i : ℕ) (a b : Action)
    → get_elem? l i ≡ some a
    → num_unresolved_conflicts (set l i b) + weight a ≡ num_unresolved_conflicts l + weight b
unfolding set
num-set [] i a b h = cc
num-set (x ∷ l) zero a b h = ground (arith, num-cons x l, num-cons b l)
num-set (x ∷ l) (suc i) a b h =
    omega (arith, num-cons x l, num-cons x (set l i b), num-set l i a b h)

pub length-set : (l : List Action) (i : ℕ) (b : Action) → length (set l i b) ≡ length l
unfolding set
length-set [] i b = refl
length-set (x ∷ l) zero b = refl
length-set (x ∷ l) (suc i) b = omega (arith, length-set l i b)

All-set :
    (P : Action → Type 0) (l : List Action) (i : ℕ) (b : Action) → All P l → P b → All P (set l i b)
unfolding set
All-set P [] i b h p = tt
All-set P (x ∷ l) zero b h p = (p, h.1)
All-set P (x ∷ l) (suc i) b h p = (h.0, All-set P l i b h.1 p)

All-get :
    (P : Action → Type 0) (l : List Action) (i : ℕ) (a : Action)
    → All P l
    → get_elem? l i ≡ some a
    → P a
All-get P [] i a h e = cc
All-get P (x ∷ l) zero a h e = subst P (Option.some-injective x a e) h.0
All-get P (x ∷ l) (suc i) a h e = All-get P l i a h.1 e

get-lt : (l : List Action) (i : ℕ) → i < length l → (a : Action) × (get_elem? l i ≡ some a)
get-lt [] i h = absurd (omega arith)
get-lt (x ∷ l) zero h = (x, refl)
get-lt (x ∷ l) (suc i) h = get-lt l i (omega arith)

-- A resolution closes the conflict and can still be changed.
resolve_pair-Fine :
    (verbose : Bool) (lc rc : Change) (r : Resolution)
    → CanResolve (conflict lc rc)
    → (b : Action) × (resolve_pair lc rc r ≡ ok b) × (weight b ≡ 0) × Fine verbose b
unfolding resolve_pair resolve_action
resolve_pair-Fine verbose lc rc to_local h =
    let (c, e) = ok_of_is_ok (overriding lc rc) _ h.0 in
    (resolved_local lc rc c, ground (arith, e), refl, (h, ground arith))
resolve_pair-Fine verbose lc rc to_remote h =
    let (c, e) = ok_of_is_ok (overriding rc lc) _ h.1 in
    (resolved_remote lc rc c, ground (arith, e), refl, (h, ground arith))

resolve_action-Fine :
    (verbose : Bool) (a : Action) (r : Resolution)
    → is_conflict a ≡ true
    → Fine verbose a
    → (b : Action) × (resolve_action a r ≡ ok b) × (weight b ≡ 0) × Fine verbose b
unfolding resolve_action
resolve_action-Fine verbose (conflict lc rc) r t h = resolve_pair-Fine verbose lc rc r h.0
resolve_action-Fine verbose (resolved_local lc rc c) r t h = resolve_pair-Fine verbose lc rc r h.0
resolve_action-Fine verbose (resolved_remote lc rc c) r t h = resolve_pair-Fine verbose lc rc r h.0
resolve_action-Fine verbose (local c) r t h = cc
resolve_action-Fine verbose (remote c) r t h = cc
resolve_action-Fine verbose (identical x y) r t h = cc

-- The invariant but for the page.
pub record Core (verbose : Bool) (s : State) : Type 0 where
  pub fine : All (Fine verbose) s.actions
  pub in_range : s.sel < length s.actions
  pub counted : s.num_conflicts ≡ num_unresolved_conflicts s.actions

unfoldable pub Good : Bool → Result Panic State → Type 0
Good verbose m = (s : State) × (m ≡ ok s) × Core verbose s

module _ (verbose : Bool) (s : State) (v : Core verbose s) where
  -- Moving the selection inside the list.
  pub at_sel : (i : ℕ) → i < length s.actions → Core verbose (record s { sel = i })
  at_sel i h = record { fine = v.fine; in_range = h; counted = v.counted }

  wrapped-lt : (step : Step) → wrap_step step s.sel (length s.actions) < length s.actions
  wrapped-lt step = wrap_step-lt step s.sel (length s.actions) (omega (arith, v.in_range))

  pub move-Good : (step : Step) (fuel : ℕ) → 0 < fuel → Good verbose (move verbose step fuel s)
  unfolding Good move
  move-Good step zero h = absurd (omega arith)
  move-Good step (suc fuel) h =
      let (a, e) = get-lt s.actions _ (wrapped-lt step) in
      let t : shown verbose a ≡ true = (All-get (Fine verbose) s.actions _ a v.fine e).1 in
      (
        record s { sel = wrap_step step s.sel (length s.actions) },
        ground (arith, e, t),
        at_sel _ (wrapped-lt step),
      )

  pub resolve_selected-Good : (r : Resolution) → Good verbose (resolve_selected r s)
  unfolding Good resolve_selected resolve_conflict
  resolve_selected-Good r =
      let (a, e) = get-lt s.actions s.sel v.in_range in
      elim (Bool-cases (is_conflict a)) [
        | inr n ↦ (advance s, ground (arith, e, n), at_sel _ (wrapped-lt forward))
        | inl y ↦
            let (b, f, w, g) =
              resolve_action-Fine verbose a r y
                (All-get (Fine verbose) s.actions s.sel a v.fine e) in
            let s' = record s {
              actions = set s.actions s.sel b;
              num_conflicts = s.num_conflicts - weight a;
            } in
            let same = length-set s.actions s.sel b in
            (
              advance s',
              ground (arith, e, y, f, num-set s.actions s.sel a b e),
              record {
                fine = All-set (Fine verbose) s.actions s.sel b v.fine g;
                in_range = rw same (wrapped-lt forward);
                counted = omega (arith, num-set s.actions s.sel a b e, w);
              },
            )
      ]

  -- A resolved conflict opened again.
  reopened-Core :
      (a : Action) (lc rc : Change)
      → get_elem? s.actions s.sel ≡ some a
      → weight a ≡ 0
      → Fine verbose (conflict lc rc)
      → Core verbose (
          advance (record s {
            actions = set s.actions s.sel (conflict lc rc);
            num_conflicts = s.num_conflicts + 1;
          }))
  reopened-Core a lc rc e w g = record {
    fine = All-set (Fine verbose) s.actions s.sel (conflict lc rc) v.fine g;
    in_range = rw (length-set s.actions s.sel (conflict lc rc)) (wrapped-lt forward);
    counted = omega (arith, num-set s.actions s.sel a (conflict lc rc) e, w, v.counted);
  }

  keep-Good :
      (a : Action)
      → get_elem? s.actions s.sel ≡ some a
      → Fine verbose a
      → Good verbose (do s' ← reopen s a; ok (advance s'))
  unfolding Good resolve_action
  keep-Good (resolved_local lc rc c) e g =
      (_, refl, reopened-Core (resolved_local lc rc c) lc rc e refl (g.0, ground arith))
  keep-Good (resolved_remote lc rc c) e g =
      (_, refl, reopened-Core (resolved_remote lc rc c) lc rc e refl (g.0, ground arith))
  keep-Good (conflict lc rc) e g = (_, refl, at_sel _ (wrapped-lt forward))
  keep-Good (local c) e g = (_, refl, at_sel _ (wrapped-lt forward))
  keep-Good (remote c) e g = (_, refl, at_sel _ (wrapped-lt forward))
  keep-Good (identical x y) e g = (_, refl, at_sel _ (wrapped-lt forward))

  pub keep_selected-Good : Good verbose (keep_selected s)
  unfolding keep_selected Good
  keep_selected-Good =
      let (a, e) = get-lt s.actions s.sel v.in_range in
      let (s', p, c) = keep-Good a e (All-get (Fine verbose) s.actions s.sel a v.fine e) in
      (s', ground (arith, e, p), c)

-- The loop's state: the actions can be resolved and are shown, the selection is one of them and on
-- the page, and the count of open conflicts is right.
pub record IsValid (verbose : Bool) (capacity : ℕ) (s : State) : Type 0 where
  pub core : Core verbose s
  pub on_page : s.page * capacity ≤ s.sel
  pub before_next : s.sel < (s.page + 1) * capacity

pub turn_page-IsValid :
    (verbose : Bool) (capacity : ℕ) (s : State)
    → 0 < capacity
    → Core verbose s
    → IsValid verbose capacity (turn_page capacity s)
unfolding turn_page
turn_page-IsValid verbose capacity s h v =
    elim (Bool-cases (ltb s.sel (s.page * capacity) || leb ((s.page + 1) * capacity) s.sel)) [
      | inl y ↦
          rw (y, turn_page)
            (record {
              core = record { fine = v.fine; in_range = v.in_range; counted = v.counted };
              on_page = grind arith;
              before_next = grind arith;
            })
      | inr n ↦
          rw (n, turn_page)
            (record { core = v; on_page = ground arith; before_next = ground arith })
    ]
