-- ===== src/StateMachine/Graph.antt =====
-- What one transition of core/state_machine.py can and cannot do, over all states and events.
use resolver_ai.Prelude.{
  ◌≡◌, ◌≢◌, refl, ◌⊎◌, inl, inr, Bool-cases, Bool, true, false, ◌&&◌, ◌||◌, not, List, [], ◌∷◌,
  arith, ◌==◌, any, map, filter, is_some,
}
use resolver_ai.Domain.{PaymentState, same_state}
use resolver_ai.StateMachine.{
  Event, event_code, Edge, transitions, get_edge, is_terminal, transition, StateName, valid,
  invalid, is_transition_allowed, allowed_events,
}

-- the reports that a payment has failed
abbrev pub is_failure_report : Event → Bool
is_failure_report Event.rail_reject = true
is_failure_report Event.payment_failed = true
is_failure_report Event.verified_failed = true
is_failure_report Event.reconcile_failed = true
is_failure_report Event.operator_force_failed = true
is_failure_report _ = false

-- the reports that the money was captured
abbrev pub is_capture_report : Event → Bool
is_capture_report Event.payment_captured = true
is_capture_report Event.verified_success = true
is_capture_report Event.reconcile_success = true
is_capture_report Event.operator_force_capture = true
is_capture_report _ = false

-- the decisions of a human operator
abbrev pub is_operator : Event → Bool
is_operator Event.operator_reconcile = true
is_operator Event.operator_force_capture = true
is_operator Event.operator_force_failed = true
is_operator _ = false

-- the reports that close a resolved or refunded payment
abbrev pub is_settlement : Event → Bool
is_settlement Event.refund_completed = true
is_settlement Event.resolved = true
is_settlement Event.operator_reconcile = true
is_settlement _ = false

abbrev implies : Bool → Bool → Bool
implies a b = not a || b

abbrev moves_to : PaymentState → Event → PaymentState → Bool
moves_to s e t = same_state (transition s e) t

-- All that this module states of one transition, as a test.
is_lawful : PaymentState → Event → Bool
is_lawful s e =
    implies (moves_to s e PaymentState.failed)
      (same_state s PaymentState.failed || is_failure_report e)
    && implies (moves_to s e PaymentState.captured)
        (same_state s PaymentState.captured || is_capture_report e)
    && implies (moves_to s e PaymentState.reconciled)
        (same_state s PaymentState.reconciled || is_settlement e)
    && implies (same_state s PaymentState.failed) (moves_to s e PaymentState.failed)
    && implies (same_state s PaymentState.reconciled) (moves_to s e PaymentState.reconciled)
    && implies (same_state s PaymentState.manual_review)
        (moves_to s e PaymentState.manual_review || is_operator e)
    && implies (same_state s PaymentState.captured) (
        moves_to s e PaymentState.captured
        || moves_to s e PaymentState.duplicate_suspected
        || moves_to s e PaymentState.action_executing
        || moves_to s e PaymentState.reconciled)
    && implies (is_terminal s) (not (moves_to s e PaymentState.authorized))

-- evaluated at each of the 15 states and 29 forms of an event
transition-lawful : (s : PaymentState) (e : Event) → is_lawful s e ≡ true
unfolding is_lawful transition is_terminal
transition-lawful PaymentState.created Event.submit = refl
transition-lawful PaymentState.pending_rail Event.submit = refl
transition-lawful PaymentState.uncertain Event.submit = refl
transition-lawful PaymentState.verifying Event.submit = refl
transition-lawful PaymentState.authorized Event.submit = refl
transition-lawful PaymentState.captured Event.submit = refl
transition-lawful PaymentState.failed Event.submit = refl
transition-lawful PaymentState.duplicate_suspected Event.submit = refl
transition-lawful PaymentState.reconciliation_required Event.submit = refl
transition-lawful PaymentState.action_pending Event.submit = refl
transition-lawful PaymentState.action_executing Event.submit = refl
transition-lawful PaymentState.action_confirmed Event.submit = refl
transition-lawful PaymentState.unknown Event.submit = refl
transition-lawful PaymentState.manual_review Event.submit = refl
transition-lawful PaymentState.reconciled Event.submit = refl
transition-lawful _ _ = refl

-- FAILED is entered only on a report of failure: no timeout, escalation or unknown event gives it.
pub failed_needs_report :
    (s : PaymentState) (e : Event)
    → transition s e ≡ PaymentState.failed
    → (s ≡ PaymentState.failed) ⊎ (is_failure_report e ≡ true)
unfolding is_lawful
failed_needs_report s e h = ground (arith, transition-lawful s e)

-- CAPTURED is entered only on a report that the money was captured.
pub captured_needs_report :
    (s : PaymentState) (e : Event)
    → transition s e ≡ PaymentState.captured
    → (s ≡ PaymentState.captured) ⊎ (is_capture_report e ≡ true)
unfolding is_lawful
captured_needs_report s e h = ground (arith, transition-lawful s e)

pub reconciled_needs_settlement :
    (s : PaymentState) (e : Event)
    → transition s e ≡ PaymentState.reconciled
    → (s ≡ PaymentState.reconciled) ⊎ (is_settlement e ≡ true)
unfolding is_lawful
reconciled_needs_settlement s e h = ground (arith, transition-lawful s e)

pub failed_absorbs : (e : Event) → transition PaymentState.failed e ≡ PaymentState.failed
unfolding is_lawful
failed_absorbs e = ground (arith, transition-lawful PaymentState.failed e)

pub reconciled_absorbs :
    (e : Event) → transition PaymentState.reconciled e ≡ PaymentState.reconciled
unfolding is_lawful
reconciled_absorbs e = ground (arith, transition-lawful PaymentState.reconciled e)

pub manual_review_needs_operator :
    (e : Event)
    → is_operator e ≡ false
    → transition PaymentState.manual_review e ≡ PaymentState.manual_review
unfolding is_lawful
manual_review_needs_operator e h = ground (arith, transition-lawful PaymentState.manual_review e)

-- A terminal state stays, under any event, but for the late exits of CAPTURED (a duplicate, a
-- refund under way, a refund completed) and for an operator's decision on MANUAL_REVIEW.
pub terminal_exits :
    (s : PaymentState) (e : Event)
    → is_terminal s ≡ true
    → (transition s e ≡ s)
      ⊎ ((s ≡ PaymentState.manual_review) × (is_operator e ≡ true))
      ⊎ ((s ≡ PaymentState.captured)
          × ((transition s e ≡ PaymentState.duplicate_suspected)
              ⊎ (transition s e ≡ PaymentState.action_executing)
              ⊎ (transition s e ≡ PaymentState.reconciled)))
unfolding is_lawful is_terminal
terminal_exits s e h = ground (arith, transition-lawful s e)

pub terminal_never_authorized :
    (s : PaymentState) (e : Event) → is_terminal s ≡ true → transition s e ≢ PaymentState.authorized
unfolding is_lawful
terminal_never_authorized s e t = ground (arith, transition-lawful s e)

-- `event in events`
pub event_listed : Event → List Event → Bool
event_listed e = any (λ o. event_code o == event_code e)

get_edge-listed :
    (s : PaymentState) (e : Event) (ks : List Edge)
    → is_some (get_edge s e ks)
      ≡ event_listed e (map (λ k. k.on) (filter (λ k. same_state k.from s) ks))
unfolding get_edge event_listed
get_edge-listed s e [] = refl
get_edge-listed s e (k ∷ ks) = elim (Bool-cases (same_state k.from s)) [
  | inl p ↦ rw p (elim (Bool-cases (event_code k.on == event_code e)) [
    | inl q ↦ rw q
    | inr q ↦ rw q (get_edge-listed s e ks)
  ])
  | inr p ↦ rw p (get_edge-listed s e ks)
]

-- The listing of `allowed_events` holds exactly the events that `is_transition_allowed` accepts, for
-- a valid and for an invalid state name.
pub allowed_events-exact :
    (n : StateName) (e : Event) → is_transition_allowed n e ≡ event_listed e (allowed_events n)
unfolding is_transition_allowed allowed_events
allowed_events-exact (valid s) e = get_edge-listed s e transitions
allowed_events-exact (invalid t) e = unfold event_listed in refl
