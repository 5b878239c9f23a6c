-- ===== src/Resolution.antt =====
-- resolution.rs: the user settles the conflicts of a plan. The terminal is the list of keys that it
-- delivers; a read past its end fails. What is drawn is not modelled.
pub mod Laws
pub mod Sequential
pub mod Interactive
use duet.Prelude.{
  ℕ, Bool, true, false, Option, none, some, List, [], ◌∷◌, ◌<◌, ltb, if◌then◌else◌, Result, ok, err,
  ◌>>=◌, ◌==◌,
}
use duet.Scan.Change.{Change, added, removed, modified}
use duet.Actions.{
  Action, local, remote, conflict, resolved_local, resolved_remote, identical,
  num_unresolved_conflicts, is_unresolved_conflict,
}

pub data Fault : Type 0 where
  -- a panic of `unreachable!()`
  unreachable_code : Fault
  -- an error of the terminal
  read_failed : Fault

pub data Resolution : Type 0 where
  to_local to_remote : Resolution

-- The change that brings one side, which made `c`, to what the other side, which made `d`, has.
unfoldable pub overriding : Change → Change → Result Fault Change
overriding (added n) (added m) = ok (modified n m)
overriding (removed _) (modified _ m) = ok (added m)
overriding (modified _ n) (modified _ m) = ok (modified n m)
overriding (modified _ n) (removed _) = ok (removed n)
overriding (added _) (removed _) = err unreachable_code
overriding (added _) (modified _ _) = err unreachable_code
overriding (removed _) (added _) = err unreachable_code
overriding (removed _) (removed _) = err unreachable_code
overriding (modified _ _) (added _) = err unreachable_code

-- The two match tables of the source are one table with the sides exchanged.
unfoldable pub resolve_pair : Change → Change → Resolution → Result Fault Action
resolve_pair lc rc to_local = do c ← overriding lc rc; ok (resolved_local lc rc c)
resolve_pair lc rc to_remote = do c ← overriding rc lc; ok (resolved_remote lc rc c)

unfoldable pub resolve_action : Action → Resolution → Result Fault Action
resolve_action (conflict lc rc) r = resolve_pair lc rc r
resolve_action (resolved_local lc rc _) r = resolve_pair lc rc r
resolve_action (resolved_remote lc rc _) r = resolve_pair lc rc r
resolve_action (local c) r = ok (local c)
resolve_action (remote c) r = ok (remote c)
resolve_action (identical lc rc) r = ok (identical lc rc)

pub data AllResolution : Type 0 where
  proceed abort force interrupted : AllResolution

pub data ConflictPromptChoice : Type 0 where
  local_side remote_side keep abort interrupted : ConflictPromptChoice

-- The keys that the two prompts tell apart; `other` stands for the rest of the enumeration.
pub data Key : Type 0 where
  arrow_left arrow_right escape ctrl_c other : Key
  char : ℕ → Key

unfoldable pub conflict_prompt_choice : Key → Option ConflictPromptChoice
conflict_prompt_choice arrow_left = some ConflictPromptChoice.local_side
conflict_prompt_choice arrow_right = some ConflictPromptChoice.remote_side
conflict_prompt_choice escape = some ConflictPromptChoice.abort
conflict_prompt_choice ctrl_c = some ConflictPromptChoice.interrupted
conflict_prompt_choice other = none
conflict_prompt_choice (char c) =
    if c == b'l'
    then some ConflictPromptChoice.local_side
    else if c == b'r'
    then some ConflictPromptChoice.remote_side
    else if c == b'c'
    then some ConflictPromptChoice.keep
    else if c == b'a'
    then some ConflictPromptChoice.abort
    else if c == b'n'
    then some ConflictPromptChoice.abort
    else none

unfoldable pub confirmation_prompt_resolution : Key → Option AllResolution
confirmation_prompt_resolution escape = some AllResolution.abort
confirmation_prompt_resolution ctrl_c = some AllResolution.interrupted
confirmation_prompt_resolution arrow_left = none
confirmation_prompt_resolution arrow_right = none
confirmation_prompt_resolution other = none
confirmation_prompt_resolution (char c) =
    if c == b'y'
    then some AllResolution.proceed
    else if c == b'Y'
    then some AllResolution.proceed
    else if c == b'n'
    then some AllResolution.abort
    else if c == b'N'
    then some AllResolution.abort
    else none

-- What the loop at one conflict comes to: a settled action, or the end of the dialogue.
pub data Prompted : Type 0 where
  settled : Action → List Key → Prompted
  ended : AllResolution → List Key → Prompted

unfoldable pub settle : Action → Resolution → List Key → Result Fault Prompted
settle a r keys = do b ← resolve_action a r; ok (settled b keys)

-- The inner `loop` of `resolve_sequential`.
unfoldable pub prompt : Action → List Key → Result Fault Prompted
prompt a [] = err read_failed
prompt a (k ∷ keys) = elim (conflict_prompt_choice k) [
  | some c ↦ elim c [
    | local_side ↦ settle a to_local keys
    | remote_side ↦ settle a to_remote keys
    | keep ↦ ok (settled a keys)
    | abort ↦ ok (ended AllResolution.abort keys)
    | interrupted ↦ ok (ended AllResolution.interrupted keys)
  ]
  | none ↦ prompt a keys
]

-- The loop over the actions: an early return, if any, the actions as they stand then, the keys left.
abbrev pub Round : Type 0
Round = Option AllResolution × List Action × List Key

abbrev pub prepend : Action → Round → Round
prepend a (res, as', keys) = (res, a ∷ as', keys)

abbrev pub after_prompt :
    (List Key → Result Fault Round) → Action → List Action → Prompted → Result Fault Round
after_prompt rest a as' (settled b keys) = do r ← rest keys; ok (prepend b r)
after_prompt rest a as' (ended res keys) = ok (some res, a ∷ as', keys)

unfoldable pub resolve_each : List Action → List Key → Result Fault Round
resolve_each [] keys = ok (none, [], keys)
resolve_each (a ∷ as') keys = elim (is_unresolved_conflict a) [
  | true ↦ prompt a keys >>= after_prompt (resolve_each as') a as'
  | false ↦ do r ← resolve_each as' keys; ok (prepend a r)
]

-- The `loop` of the last question.
unfoldable pub confirm : List Key → Result Fault AllResolution
confirm [] = err read_failed
confirm (k ∷ keys) = elim (confirmation_prompt_resolution k) [ some r ↦ ok r | none ↦ confirm keys ]

abbrev pub finish_round : Round → Result Fault (AllResolution × List Action)
finish_round (some res, actions, keys) = ok (res, actions)
finish_round (none, actions, keys) = do res ← confirm keys; ok (res, actions)

-- The resolution, with the actions as it leaves them.
unfoldable pub resolve_sequential :
    List Action → List Key → Result Fault (AllResolution × List Action)
resolve_sequential actions keys =
    if ltb 0 (num_unresolved_conflicts actions)
    then resolve_each actions keys >>= finish_round
    else finish_round (none, actions, keys)
