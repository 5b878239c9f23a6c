-- ===== src/Tests/Interrupt.antt =====
-- The phases of a run.
use duet.Prelude.{true, false, List, [], ◌∷◌, ◌≡◌, refl}
use duet.Orchestrator.Interrupt.{
  Access, load_request, swap_request, begin_commit, swap_reset, load_reset, load_complete,
  swap_complete, events, new, access, exchange, same_phase, on_interrupt, on_complete,
  swap_requested, swap_completed, reset_swapped, answered, cancel, commit_begun, checkpoint_reset,
  completed,
}
use duet.Orchestrator.Interrupt.Laws.{StaysCancelled, interrupt_lem}

-- The request reads the phase, a commit begins in between and is reset, and the swap then succeeds.
abbrev interleaved : List Access
interleaved =
    load_request ∷ begin_commit ∷ swap_reset ∷ swap_request ∷ load_reset ∷ begin_commit
    ∷ load_complete ∷ swap_complete ∷ []

interleaved-events :
    events interleaved new
    ≡ commit_begun true
      ∷ answered cancel
      ∷ checkpoint_reset false
      ∷ commit_begun false
      ∷ completed true
      ∷ []
unfolding events access exchange same_phase on_interrupt on_complete swap_requested swap_completed
    reset_swapped
interleaved-events = refl

interrupt_lem_example : StaysCancelled (events interleaved new)
interrupt_lem_example = interrupt_lem interleaved
