-- ===== src/Resolution/Interactive.antt =====
-- `resolve_interactive`: the list of actions with a selection, driven by keys. The screen is not
-- modelled, but for the page that it shows.
pub mod Selection
pub mod Invariant
pub mod Rounds
use duet.Prelude.{
  ℕ, zero, suc, ◌+◌, ◌-◌, ◌*◌, ◌/◌, ◌%◌, min, max, Bool, true, false, not, ◌&&◌, ◌||◌, ltb, leb,
  ◌==◌, if◌then◌else◌, Option, none, some, List, [], ◌∷◌, length, get_elem?, filter, Result, ok,
  err, ◌>>=◌, ◌>>◌, guard,
}
use duet.Actions.{
  Action, local, remote, conflict, resolved_local, resolved_remote, identical, is_conflict,
  is_unresolved_conflict, is_identical, num_unresolved_conflicts,
}
use duet.Resolution.{Fault, Resolution, to_local, to_remote, resolve_action, AllResolution}

-- What ends the program: an index out of range, `0 - 1` on a count, `unreachable!()`.
pub data Panic : Type 0 where
  out_of_bounds underflow unreachable_code : Panic
  -- not a panic: the source would go round a loop for ever
  endless : Panic

pub data InteractiveKey : Type 0 where
  arrow_left arrow_right arrow_up arrow_down shift_up shift_down : InteractiveKey
  tab back_tab escape ctrl_c other : InteractiveKey
  char : ℕ → InteractiveKey

-- The step of a move, which is 1 or -1 in every call.
pub data Step : Type 0 where
  forward backward : Step

-- `(i + step).rem_euclid(n)`
unfoldable pub wrap_step : Step → ℕ → ℕ → ℕ
wrap_step forward i n = (i + 1) % n
wrap_step backward i n = (i + n - 1) % n

unfoldable pub page_selection : ℕ → ℕ → ℕ → Step → ℕ
unfolding wrap_step
page_selection sel capacity len step =
    let pages = (len + capacity - 1) / capacity in
    let page = sel / capacity in
    let row = sel % capacity in
    let next_page = wrap_step step page pages in min (next_page * capacity + row) (len - 1)

-- The action at an index is a conflict, resolved or not.
abbrev pub conflict_at : List Action → ℕ → Bool
conflict_at actions i = elim (get_elem? actions i) [ none ↦ false | some a ↦ is_conflict a ]

-- The `for` over as many rounds as there are actions.
unfoldable pub search_conflict : List Action → Step → ℕ → ℕ → Option ℕ
unfolding wrap_step
search_conflict actions step zero idx = none
search_conflict actions step (suc n) idx =
    let next = wrap_step step idx (length actions) in
    let rest = search_conflict actions step n next in
    if conflict_at actions next then some next else rest

unfoldable pub next_conflict_index : List Action → ℕ → Step → Option ℕ
unfolding search_conflict
next_conflict_index [] sel step = none
next_conflict_index (a ∷ as') sel step = search_conflict (a ∷ as') step (length (a ∷ as')) sel

-- A write through `&mut`; the index is in range where it is called.
unfoldable pub set : List Action → ℕ → Action → List Action
set [] i b = []
set (a ∷ as') zero b = b ∷ as'
set (a ∷ as') (suc i) b = a ∷ set as' i b

pub record State : Type 0 where
  pub actions : List Action
  pub sel : ℕ
  pub page : ℕ
  pub num_conflicts : ℕ

abbrev pub selected : State → Result Panic Action
selected s = elim (get_elem? s.actions s.sel) [ none ↦ err out_of_bounds | some a ↦ ok a ]

-- The `loop` of the arrow keys: on until an action that is shown.
unfoldable pub move : Bool → Step → ℕ → State → Result Panic State
move verbose step zero s = err endless
move verbose step (suc fuel) s = do
  let s' : State = record s { sel = wrap_step step s.sel (length s.actions) }
  a ← selected s'
  elim (verbose || not (is_identical a)) [ true ↦ ok s' | false ↦ move verbose step fuel s' ]

abbrev pub advance : State → State
advance s = record s { sel = wrap_step forward s.sel (length s.actions) }

-- `num_conflicts -= 1`
abbrev pub less_one : ℕ → Result Panic ℕ
less_one n = if n == 0 then err underflow else ok (n - 1)

abbrev pub resolved : Action → Resolution → Result Panic Action
resolved a r = elim (resolve_action a r) [ ok b ↦ ok b | err _ ↦ err unreachable_code ]

-- The arms of `ArrowLeft` and `ArrowRight`, at a conflict and at any action.
unfoldable pub resolve_conflict : Resolution → State → Action → Result Panic State
resolve_conflict r s a = do
  n ← if is_unresolved_conflict a then less_one s.num_conflicts else ok s.num_conflicts
  b ← resolved a r
  ok (advance (record s { actions = set s.actions s.sel b; num_conflicts = n }))

unfoldable pub resolve_selected : Resolution → State → Result Panic State
unfolding resolve_conflict
resolve_selected r s = do
  a ← selected s
  if is_conflict a then resolve_conflict r s a else ok (advance s)

-- `c`: a resolved conflict is opened again.
abbrev pub reopen : State → Action → Result Panic State
reopen s (resolved_local lc rc _) = ok (record s {
  actions = set s.actions s.sel (conflict lc rc);
  num_conflicts = s.num_conflicts + 1;
})
reopen s (resolved_remote lc rc _) = ok (record s {
  actions = set s.actions s.sel (conflict lc rc);
  num_conflicts = s.num_conflicts + 1;
})
reopen s (conflict lc rc) = ok s
reopen s (local c) = ok s
reopen s (remote c) = ok s
reopen s (identical l r) = ok s

unfoldable pub keep_selected : State → Result Panic State
keep_selected s = do a ← selected s; s' ← reopen s a; ok (advance s')

abbrev pub select_found : State → Option ℕ → State
select_found s none = s
select_found s (some i) = record s { sel = i }

pub data Event : Type 0 where
  continue : State → Event
  done : AllResolution → State → Event

abbrev pub going : Result Panic State → Result Panic Event
going m = do s ← m; ok (continue s)

-- The `match` on the key.
unfoldable pub handle_key : Bool → ℕ → InteractiveKey → State → Result Panic Event
handle_key verbose capacity arrow_down s = going (move verbose forward (length s.actions) s)
handle_key verbose capacity arrow_up s = going (move verbose backward (length s.actions) s)
handle_key verbose capacity tab s =
    ok (continue (select_found s (next_conflict_index s.actions s.sel forward)))
handle_key verbose capacity back_tab s =
    ok (continue (select_found s (next_conflict_index s.actions s.sel backward)))
handle_key verbose capacity arrow_left s = going (resolve_selected to_local s)
handle_key verbose capacity arrow_right s = going (resolve_selected to_remote s)
handle_key verbose capacity shift_up s =
    ok (continue (record s { sel = page_selection s.sel capacity (length s.actions) backward }))
handle_key verbose capacity shift_down s =
    ok (continue (record s { sel = page_selection s.sel capacity (length s.actions) forward }))
handle_key verbose capacity escape s = ok (done AllResolution.abort s)
handle_key verbose capacity ctrl_c s = ok (done AllResolution.interrupted s)
handle_key verbose capacity other s = ok (continue s)
handle_key verbose capacity (char c) s =
    if c == b'j'
    then going (move verbose forward (length s.actions) s)
    else if c == b'k'
    then going (move verbose backward (length s.actions) s)
    else if c == b'l'
    then going (resolve_selected to_local s)
    else if c == b'r'
    then going (resolve_selected to_remote s)
    else if c == b'c'
    then going (keep_selected s)
    else if (c == b'y' || c == b'g') && s.num_conflicts == 0
    then ok (done AllResolution.proceed s)
    else if c == b'a' || c == b'n'
    then ok (done AllResolution.abort s)
    else if c == b'f'
    then ok (done AllResolution.force s)
    else ok (continue s)

-- The page follows the selection, at the end of a round.
unfoldable pub turn_page : ℕ → State → State
turn_page capacity s =
    if ltb s.sel (s.page * capacity) || leb ((s.page + 1) * capacity) s.sel
    then record s { page = s.sel / capacity }
    else s

abbrev pub after_key : ℕ → Event → Event
after_key capacity (continue s) = continue (turn_page capacity s)
after_key capacity (done r s) = done r s

-- One round of the outer `loop`.
unfoldable pub round : Bool → ℕ → InteractiveKey → State → Result Panic Event
round verbose capacity key s = do e ← handle_key verbose capacity key s; ok (after_key capacity e)

-- The state before the first key: the actions that are shown, the first one selected.
unfoldable pub start : Bool → List Action → State
start verbose all_actions =
    let shown = filter (λ a. verbose || not (is_identical a)) all_actions in
    record { actions = shown; sel = 0; page = 0; num_conflicts = num_unresolved_conflicts shown }

-- The rows of the screen that are left for actions.
abbrev pub capacity_of : ℕ → ℕ
capacity_of height = max (height - 3) 1
