-- ===== src/Orchestrator/Interrupt/Laws.antt =====
-- A cancelled run stays cancelled, however the accesses of the two threads interleave.
use duet.Prelude.{
  Bool, true, false, Option, none, some, List, [], ◌∷◌, All, push_some, ◌≡◌, refl, arith, ◌⊎◌, inl,
}
use duet.Orchestrator.Interrupt.{
  InterruptPhase, InterruptState, Event, Access, load_request, swap_request, begin_commit,
  swap_reset, load_reset, load_complete, swap_complete, cancel, deferred, force, answered,
  commit_begun, checkpoint_reset, completed, panicked, cancel_requested, same_phase, on_interrupt,
  on_complete, exchange, swap_requested, swap_completed, reset_swapped, access, events, new,
}

-- What a call may return once the run is cancelled.
abbrev pub Cancelled : Event → Type 0
Cancelled (answered cancel) = ⊥
Cancelled (answered deferred) = ⊥
Cancelled (answered force) = Unit
Cancelled (commit_begun b) = b ≡ false
Cancelled (checkpoint_reset b) = b ≡ false
Cancelled (completed b) = b ≡ true
Cancelled panicked = ⊥

-- Nothing else follows an answer that the run is cancelled.
abbrev pub StaysCancelled : List Event → Type 0
StaysCancelled [] = Unit
StaysCancelled (answered cancel ∷ es) = All Cancelled es
StaysCancelled (answered deferred ∷ es) = StaysCancelled es
StaysCancelled (answered force ∷ es) = StaysCancelled es
StaysCancelled (commit_begun b ∷ es) = StaysCancelled es
StaysCancelled (checkpoint_reset b ∷ es) = StaysCancelled es
StaysCancelled (completed b ∷ es) = StaysCancelled es
StaysCancelled (panicked ∷ es) = StaysCancelled es

abbrev Quiet : Option Event → Type 0
Quiet none = Unit
Quiet (some e) = Cancelled e

is_final : InterruptPhase → Bool
is_final InterruptPhase.complete = true
is_final InterruptPhase.complete_interrupted = true
is_final InterruptPhase.pre_commit = false
is_final InterruptPhase.cancel_requested = false
is_final InterruptPhase.committed = false
is_final InterruptPhase.committed_interrupted = false

has_read_final : Option InterruptPhase → Bool
has_read_final none = false
has_read_final (some p) = is_final p

-- A call of `complete` that has read a final phase is in a final phase.
Settled : InterruptState → Type 0
Settled s = (has_read_final s.completing ≡ false) ⊎ (is_final s.phase ≡ true)

access-Settled : (a : Access) (s : InterruptState) → Settled s → Settled (access a s).0
unfolding Settled has_read_final is_final access exchange swap_requested swap_completed
    reset_swapped on_interrupt on_complete same_phase
access-Settled load_request s h = h
access-Settled swap_request s h = ground (arith, h)
access-Settled begin_commit s h = ground (arith, h)
access-Settled swap_reset s h = ground (arith, h)
access-Settled load_reset s h = ground (arith, h)
access-Settled load_complete s h = ground arith
access-Settled swap_complete s h = ground (arith, h)

access-cancelled :
    (a : Access) (s : InterruptState)
    → s.phase ≡ cancel_requested
    → Settled s
    → ((access a s).0.phase ≡ cancel_requested) × Quiet (access a s).1
unfolding Settled has_read_final is_final access exchange swap_requested swap_completed
    reset_swapped on_interrupt on_complete same_phase
access-cancelled load_request s h i = ground (arith, h)
access-cancelled swap_request s h i = ground (arith, h)
access-cancelled begin_commit s h i = ground (arith, h)
access-cancelled swap_reset s h i = ground (arith, h)
access-cancelled load_reset s h i = ground (arith, h)
access-cancelled load_complete s h i = ground (arith, h)
access-cancelled swap_complete s h i = ground (arith, h, i)

access-cancels :
    (a : Access) (s : InterruptState)
    → (access a s).1 ≡ some (answered cancel)
    → (access a s).0.phase ≡ cancel_requested
unfolding access exchange swap_requested swap_completed reset_swapped on_interrupt on_complete
    same_phase
access-cancels load_request s h = cc
access-cancels swap_request s h = ground (arith, h)
access-cancels begin_commit s h = ground (arith, h)
access-cancels swap_reset s h = ground (arith, h)
access-cancels load_reset s h = ground (arith, h)
access-cancels load_complete s h = cc
access-cancels swap_complete s h = ground (arith, h)

push_some-Cancelled :
    (e : Option Event) (es : List Event)
    → Quiet e
    → All Cancelled es
    → All Cancelled (push_some e es)
push_some-Cancelled none es q h = h
push_some-Cancelled (some e) es q h = (q, h)

events-Cancelled :
    (schedule : List Access) (s : InterruptState)
    → s.phase ≡ cancel_requested
    → Settled s
    → All Cancelled (events schedule s)
unfolding events
events-Cancelled [] s h i = tt
events-Cancelled (a ∷ schedule) s h i =
    let (h', q) = access-cancelled a s h i in
    push_some-Cancelled (access a s).1 (events schedule (access a s).0) q
      (events-Cancelled schedule (access a s).0 h' (access-Settled a s i))

push_some-StaysCancelled :
    (e : Option Event) (es : List Event)
    → (e ≡ some (answered cancel) → All Cancelled es)
    → StaysCancelled es
    → StaysCancelled (push_some e es)
push_some-StaysCancelled none es c h = h
push_some-StaysCancelled (some (answered cancel)) es c h = c refl
push_some-StaysCancelled (some (answered deferred)) es c h = h
push_some-StaysCancelled (some (answered force)) es c h = h
push_some-StaysCancelled (some (commit_begun b)) es c h = h
push_some-StaysCancelled (some (checkpoint_reset b)) es c h = h
push_some-StaysCancelled (some (completed b)) es c h = h
push_some-StaysCancelled (some panicked) es c h = h

events-StaysCancelled :
    (schedule : List Access) (s : InterruptState) → Settled s → StaysCancelled (events schedule s)
unfolding events
events-StaysCancelled [] s i = tt
events-StaysCancelled (a ∷ schedule) s i =
    let i' = access-Settled a s i in
    push_some-StaysCancelled (access a s).1 (events schedule (access a s).0)
      (λ e. events-Cancelled schedule (access a s).0 (access-cancels a s e) i')
      (events-StaysCancelled schedule (access a s).0 i')

-- In every schedule of atomic accesses, once a request for an interrupt has been answered by a
-- cancel, no commit begins, no checkpoint resets the run, a completion reports the cancel, every
-- further request is answered by force, and nothing panics.
pub interrupt_lem : (schedule : List Access) → StaysCancelled (events schedule new)
unfolding Settled has_read_final
interrupt_lem schedule = events-StaysCancelled schedule new (inl refl)
