-- ===== src/Resolution/Interactive/Rounds.antt =====
-- A round of the dialogue, for every key.
use duet.Prelude.{
  List, [], ◌∷◌, All, filter, ◌||◌, not, Bool-cases, inl, inr, false, zero, suc, ok, ◌≡◌, ℕ, Bool,
  true, ◌<◌, refl, Result, some, none, Option, if◌then◌else◌, length, arith,
}
use duet.Resolution.Interactive.{
  start, arrow_left, arrow_right, arrow_up, arrow_down, shift_up, shift_down, tab, back_tab, escape,
  ctrl_c, other, char, turn_page, Event, Panic, State, continue, done, going, forward, backward,
  Step, select_found, next_conflict_index, handle_key, InteractiveKey, round, page_selection, move,
  resolve_selected,
}
use duet.Actions.{Action, is_identical, num_unresolved_conflicts}
use duet.Resolution.{AllResolution, to_local, to_remote, Resolution, char}
use duet.Resolution.Interactive.Selection.{
  Found, next_conflict_index_lem, page_selection_lem, steps, wrap_step-lt,
}
use duet.Resolution.Interactive.Invariant.{
  CanResolve, Fine, Core, Good, IsValid, turn_page-IsValid, at_sel, move-Good,
  resolve_selected-Good, keep_selected-Good,
}

-- An end by `proceed` leaves no conflict open.
abbrev pub Ended : AllResolution → State → Type 0
Ended AllResolution.proceed s = num_unresolved_conflicts s.actions ≡ 0
Ended AllResolution.abort s = Unit
Ended AllResolution.force s = Unit
Ended AllResolution.interrupted s = Unit

Ended-of :
    (r : AllResolution) (s : State)
    → (r ≡ AllResolution.proceed → num_unresolved_conflicts s.actions ≡ 0)
    → Ended r s
Ended-of AllResolution.proceed s h = h refl
Ended-of AllResolution.abort s h = tt
Ended-of AllResolution.force s h = tt
Ended-of AllResolution.interrupted s h = tt

-- What a round leaves behind: a valid state, or the end with the plan as it stood, and by `proceed`
-- only with no open conflict.
abbrev pub Outcome : Bool → ℕ → State → Event → Type 0
Outcome verbose capacity s (continue s') = IsValid verbose capacity s'
Outcome verbose capacity s (done r s') = (s' ≡ s) × Ended r s'

-- The same before the page is turned.
abbrev Handled : Bool → State → Event → Type 0
Handled verbose s (continue s') = Core verbose s'
Handled verbose s (done r s') =
    (s' ≡ s) × (r ≡ AllResolution.proceed → num_unresolved_conflicts s'.actions ≡ 0)

Handles : Bool → State → Result Panic Event → Type 0
Handles verbose s m = (e : Event) × (m ≡ ok e) × Handled verbose s e

Handles-going :
    (verbose : Bool) (s : State) (m : Result Panic State)
    → Good verbose m
    → Handles verbose s (going m)
unfolding Good Handles
Handles-going verbose s m (s', e, c) = (continue s', rw e, c)

Handles-if :
    (verbose : Bool) (s : State) (b : Bool) (m n : Result Panic Event)
    → (b ≡ true → Handles verbose s m)
    → Handles verbose s n
    → Handles verbose s (if b then m else n)
Handles-if verbose s true m n h k = h refl
Handles-if verbose s false m n h k = k

steps-lt : (step : Step) (n k i : ℕ) → i < n → steps step n k i < n
steps-lt step n zero i h = h
steps-lt step n (suc k) i h = steps-lt step n k _ (wrap_step-lt step i n (omega arith))

module _ (verbose : Bool) (s : State) (v : Core verbose s) where
  Handles-stay : Handles verbose s (ok (continue s))
  unfolding Handles
  Handles-stay = (continue s, refl, v)

  Handles-done :
      (r : AllResolution)
      → (r ≡ AllResolution.proceed → s.num_conflicts ≡ 0)
      → Handles verbose s (ok (done r s))
  unfolding Handles
  Handles-done r h = (done r s, refl, (refl, λ e. omega (arith, h e, v.counted)))

  Handles-found :
      (step : Step)
      → Handles verbose s
          (ok (continue (select_found s (next_conflict_index s.actions s.sel step))))
  unfolding Handles
  Handles-found step =
      found (next_conflict_index s.actions s.sel step)
        (next_conflict_index_lem s.actions s.sel step)
    where
      found :
          (o : Option ℕ)
          → Found s.actions step (length s.actions) s.sel o
          → Handles verbose s (ok (continue (select_found s o)))
      found none f = (_, refl, v)
      found (some j) (k, lt, e, c, m) =
          (_, refl, at_sel verbose s v j (rw e (steps-lt step _ (suc k) s.sel v.in_range)))

  Handles-page :
      (capacity : ℕ) (step : Step)
      → 0 < capacity
      → Handles verbose s
          (ok (continue (record s { sel = page_selection s.sel capacity (length s.actions) step })))
  unfolding Handles
  Handles-page capacity step h = (
    _,
    refl,
    at_sel verbose s v _
        (page_selection_lem s.sel capacity (length s.actions) step h (omega (arith, v.in_range))).0,
  )

  Handles-move : (step : Step) → Handles verbose s (going (move verbose step (length s.actions) s))
  Handles-move step =
      Handles-going verbose s _
        (move-Good verbose s v step (length s.actions) (omega (arith, v.in_range)))

  Handles-resolve : (r : Resolution) → Handles verbose s (going (resolve_selected r s))
  Handles-resolve r = Handles-going verbose s _ (resolve_selected-Good verbose s v r)

  handle_key-Handles :
      (capacity : ℕ) (key : InteractiveKey)
      → 0 < capacity
      → Handles verbose s (handle_key verbose capacity key s)
  unfolding handle_key
  handle_key-Handles capacity arrow_down h = Handles-move forward
  handle_key-Handles capacity arrow_up h = Handles-move backward
  handle_key-Handles capacity tab h = Handles-found forward
  handle_key-Handles capacity back_tab h = Handles-found backward
  handle_key-Handles capacity arrow_left h = Handles-resolve to_local
  handle_key-Handles capacity arrow_right h = Handles-resolve to_remote
  handle_key-Handles capacity shift_up h = Handles-page capacity backward h
  handle_key-Handles capacity shift_down h = Handles-page capacity forward h
  handle_key-Handles capacity escape h = Handles-done AllResolution.abort (λ e. cc)
  handle_key-Handles capacity ctrl_c h = Handles-done AllResolution.interrupted (λ e. cc)
  handle_key-Handles capacity other h = Handles-stay
  handle_key-Handles capacity (char c) h =
      Handles-if verbose s _ _ _ (λ e. Handles-move forward)
        (Handles-if verbose s _ _ _ (λ e. Handles-move backward)
          (Handles-if verbose s _ _ _ (λ e. Handles-resolve to_local)
            (Handles-if verbose s _ _ _ (λ e. Handles-resolve to_remote)
              (Handles-if verbose s _ _ _
                (λ e. Handles-going verbose s _ (keep_selected-Good verbose s v))
                (Handles-if verbose s _ _ _
                  (λ e. Handles-done AllResolution.proceed (λ _. ground arith))
                  (Handles-if verbose s _ _ _ (λ e. Handles-done AllResolution.abort (λ x. cc))
                    (Handles-if verbose s _ _ _ (λ e. Handles-done AllResolution.force (λ x. cc))
                      Handles-stay)))))))

-- A round on a valid state and a screen with room for an action never panics, for any key. It leads
-- to a valid state, or ends the dialogue with the plan as it stood; and it ends by `proceed` only
-- when no conflict is open.
pub round-IsValid :
    (verbose : Bool) (capacity : ℕ) (key : InteractiveKey) (s : State)
    → 0 < capacity
    → IsValid verbose capacity s
    → (e : Event) × (round verbose capacity key s ≡ ok e) × Outcome verbose capacity s e
unfolding round Handles
round-IsValid verbose capacity key s h v =
    finish (handle_key-Handles verbose s v.core capacity key h)
  where
    finish :
        ((e : Event) × (handle_key verbose capacity key s ≡ ok e) × Handled verbose s e)
        → (e : Event) × (round verbose capacity key s ≡ ok e) × Outcome verbose capacity s e
    finish (continue s', e, c) = (
      continue (turn_page capacity s'),
      ground (arith, e),
      turn_page-IsValid verbose capacity s' h c,
    )
    finish (done r s', e, c) = (done r s', ground (arith, e), (c.0, Ended-of r s' c.1))

Fine-filter :
    (verbose : Bool) (actions : List Action)
    → All CanResolve actions
    → All (Fine verbose) (filter (λ a. verbose || not (is_identical a)) actions)
Fine-filter verbose [] h = tt
Fine-filter verbose (a ∷ actions) h = elim (Bool-cases (verbose || not (is_identical a))) [
  | inl y ↦ rw y ((h.0, y), Fine-filter verbose actions h.1)
  | inr n ↦ rw n (Fine-filter verbose actions h.1)
]

-- The dialogue begins in a valid state, if the screen has room for an action, some action is shown
-- and all conflicts can be resolved.
pub start-IsValid :
    (verbose : Bool) (capacity : ℕ) (actions : List Action)
    → 0 < capacity
    → All CanResolve actions
    → 0 < length (start verbose actions).actions
    → IsValid verbose capacity (start verbose actions)
unfolding start
start-IsValid verbose capacity actions h fine some_shown = record {
  core = record { fine = Fine-filter verbose actions fine; in_range = some_shown; counted = refl };
  on_page = omega arith;
  before_next = omega (arith, h);
}
