-- ===== src/Tests/Histories.antt =====
-- Histories of events over the state machine, and of locks.
use resolver_ai.Prelude.{ℕ, ◌≡◌, refl, ◌≢◌, ◌⊎◌, true, false, none, List, [], ◌∷◌, any}
use resolver_ai.Domain.{PaymentState}
use resolver_ai.StateMachine.{
  Event, transition, is_terminal, next_state, get_edge, transitions, terminal_states,
}
use resolver_ai.StateMachine.Graph.{is_capture_report, is_operator, terminal_exits}
use resolver_ai.StateMachine.Runs
use resolver_ai.StateMachine.Runs.{capture_needs_report}
use resolver_ai.Idempotency.{is_locked, acquire_intent_lock, release_intent_lock}
use resolver_ai.Idempotency.Locks.{lock_excludes}

abbrev late_capture : List Event
late_capture =
    Event.submit ∷ Event.timeout ∷ Event.timeout ∷ Event.unknown_response ∷ Event.verified_success
    ∷ []

late_capture-run : Runs.run PaymentState.created late_capture ≡ PaymentState.captured
unfolding Runs.run transition next_state get_edge transitions is_terminal terminal_states
late_capture-run = refl

capture_needs_report_example : any is_capture_report late_capture ≡ true
capture_needs_report_example =
    capture_needs_report PaymentState.created late_capture (cc) late_capture-run

captured-is_terminal : is_terminal PaymentState.captured ≡ true
unfolding is_terminal terminal_states
captured-is_terminal = refl

abbrev LeavesCaptured : Event → Type 0
LeavesCaptured e =
    let s = PaymentState.captured in
    (transition s e ≡ s)
    ⊎ ((s ≡ PaymentState.manual_review) × (is_operator e ≡ true))
    ⊎ ((s ≡ PaymentState.captured)
        × ((transition s e ≡ PaymentState.duplicate_suspected)
            ⊎ (transition s e ≡ PaymentState.action_executing)
            ⊎ (transition s e ≡ PaymentState.reconciled)))

terminal_exits_example : LeavesCaptured Event.late_duplicate
terminal_exits_example =
    terminal_exits PaymentState.captured Event.late_duplicate captured-is_terminal

lock_free : (acquire_intent_lock none 7 (3 ∷ [])).1 ≡ true
unfolding acquire_intent_lock is_locked
lock_free = refl

lock_excludes_example :
    let held = (acquire_intent_lock none 7 (3 ∷ [])).0 in
    ((acquire_intent_lock none 7 held).1 ≡ false)
    × (is_locked 7 (release_intent_lock false 7 held) ≡ false)
    × (◌≢◌ {A = ℕ} 3 7 → is_locked 3 (release_intent_lock false 7 held) ≡ is_locked 3 (3 ∷ []))
lock_excludes_example = lock_excludes 7 3 (3 ∷ []) lock_free
