-- ===== src/Orchestrator/Interrupt.antt =====
-- `InterruptState`: the phase of a run, which the program and the handler of signals share. A
-- schedule lists the atomic accesses in the order in which they happen; each does what the code
-- does then.
pub mod Laws
use duet.Prelude.{Bool, true, false, not, Option, none, some, List, [], ◌∷◌, push_some}

pub data InterruptPhase : Type 0 where
  pre_commit cancel_requested committed committed_interrupted : InterruptPhase
  complete complete_interrupted : InterruptPhase

pub data InterruptRequest : Type 0 where
  cancel deferred force : InterruptRequest

-- `==` on phases, which are distinct numbers.
unfoldable pub same_phase : InterruptPhase → InterruptPhase → Bool
same_phase pre_commit pre_commit = true
same_phase cancel_requested cancel_requested = true
same_phase committed committed = true
same_phase committed_interrupted committed_interrupted = true
same_phase complete complete = true
same_phase complete_interrupted complete_interrupted = true
same_phase _ _ = false

-- What `request_interrupt` does at a phase that it has read: the swap it tries and the answer it
-- then gives, or none where it answers `Force` at once.
unfoldable pub on_interrupt : InterruptPhase → Option (InterruptPhase × InterruptRequest)
on_interrupt pre_commit = some (cancel_requested, cancel)
on_interrupt committed = some (committed_interrupted, deferred)
on_interrupt complete = some (complete_interrupted, deferred)
on_interrupt cancel_requested = none
on_interrupt committed_interrupted = none
on_interrupt complete_interrupted = none

pub data Completion : Type 0 where
  swap_to : InterruptPhase → Completion
  return : Bool → Completion

-- What `complete` does at a phase that it has read.
unfoldable pub on_complete : InterruptPhase → Completion
on_complete pre_commit = swap_to complete
on_complete committed = swap_to complete
on_complete committed_interrupted = swap_to complete_interrupted
on_complete cancel_requested = return true
on_complete complete = return false
on_complete complete_interrupted = return false

-- The phase, and what the calls under way have read: `request_interrupt`, `complete`, and whether
-- `try_reset_after_checkpoint` has swapped.
pub record InterruptState : Type 0 where
  pub phase : InterruptPhase
  pub requesting : Option InterruptPhase
  pub completing : Option InterruptPhase
  pub resetting : Bool

-- What a call returned.
pub data Event : Type 0 where
  answered : InterruptRequest → Event
  commit_begun checkpoint_reset completed : Bool → Event
  -- the panic of an impossible phase
  panicked : Event

-- One atomic access. The first of a call reads, the second one swaps or returns.
pub data Access : Type 0 where
  load_request swap_request begin_commit swap_reset load_reset : Access
  load_complete swap_complete : Access

-- `compare_exchange`
unfoldable pub exchange : InterruptState → InterruptPhase → InterruptPhase → InterruptState × Bool
exchange s expected next = elim (same_phase s.phase expected) [
  | true ↦ (record s { phase = next }, true)
  | false ↦ (s, false)
]

abbrev pub reported : InterruptState × Bool → (Bool → Option Event) → InterruptState × Option Event
reported (s, b) report = (s, report b)

-- An answer if the swap succeeded; else the loop goes round.
abbrev pub if_swapped : Event → Bool → Option Event
if_swapped e true = some e
if_swapped e false = none

unfoldable pub swap_requested : InterruptState → InterruptPhase → InterruptState × Option Event
swap_requested s read = elim (on_interrupt read) [
  | none ↦ (s, some (answered force))
  | some (next, answer) ↦ reported (exchange s read next) (if_swapped (answered answer))
]

unfoldable pub swap_completed : InterruptState → InterruptPhase → InterruptState × Option Event
swap_completed s read = elim (on_complete read) [
  | swap_to next ↦ reported (exchange s read next) (if_swapped (completed false))
  | return b ↦ (s, some (completed b))
]

-- A swap of the reset that fails returns, or panics at a phase that cannot be.
unfoldable pub reset_swapped : InterruptState → InterruptState × Option Event
reset_swapped s = elim s.phase [
  | committed ↦ (record s { phase = pre_commit; resetting = true }, none)
  | committed_interrupted ↦ (s, some (checkpoint_reset false))
  | cancel_requested ↦ (s, some (checkpoint_reset false))
  | pre_commit ↦ (s, some panicked)
  | complete ↦ (s, some panicked)
  | complete_interrupted ↦ (s, some panicked)
]

unfoldable pub access : Access → InterruptState → InterruptState × Option Event
access load_request s = (record s { requesting = some s.phase }, none)
access swap_request s = elim s.requesting [
  | none ↦ (s, none)
  | some read ↦ swap_requested (record s { requesting = none }) read
]
access begin_commit s = reported (exchange s pre_commit committed) (λ b. some (commit_begun b))
access swap_reset s = reset_swapped s
access load_reset s = elim s.resetting [
  | true ↦ (
    record s { resetting = false },
    some (checkpoint_reset (not (same_phase s.phase cancel_requested))),
  )
  | false ↦ (s, none)
]
access load_complete s = (record s { completing = some s.phase }, none)
access swap_complete s = elim s.completing [
  | none ↦ (s, none)
  | some read ↦ swap_completed (record s { completing = none }) read
]

-- What the calls return, in the order in which they do.
unfoldable pub events : List Access → InterruptState → List Event
events [] s = []
events (a ∷ schedule) s = let (s', e) = access a s in push_some e (events schedule s')

-- `InterruptState::new`
abbrev pub new : InterruptState
new = record { phase = pre_commit; requesting = none; completing = none; resetting = false }
