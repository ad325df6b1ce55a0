-- ===== src/StateMachine.antt =====
-- core/state_machine.py: the 15 payment states, the transition table and the functions over it.
-- A state argument is a string in the source; `valid` holds the members of VALID_STATES and
-- `invalid` is any other string. An event is a name of the table, `action_confirmed`, which
-- core/resolver.py passes and the table does not have, or `unlisted`, any other string.
pub mod Graph
pub mod Runs
use resolver_ai.Prelude.{
  ℕ, Bool, true, false, Option, none, some, List, [], ◌∷◌, ◌&&◌, ◌==◌, if◌then◌else◌, is_some, map,
  filter, Text,
}
use resolver_ai.Domain.{PaymentState, same_state, state_in}

pub data Event : Type 0 where
  submit payment_authorized payment_captured payment_failed : Event
  verified_failed rail_ack timeout rail_reject : Event
  verified_success verified_authorized unknown_status capture_initiated : Event
  duplicate_detected unknown_response escalate late_duplicate : Event
  refund_initiated refund_completed action_start execute : Event
  confirm fail resolved reconcile_success : Event
  reconcile_failed operator_reconcile operator_force_capture operator_force_failed : Event
  action_confirmed : Event
  unlisted : Text → Event

abbrev pub event_code : Event → ℕ
event_code Event.submit = 0
event_code Event.payment_authorized = 1
event_code Event.payment_captured = 2
event_code Event.payment_failed = 3
event_code Event.verified_failed = 4
event_code Event.rail_ack = 5
event_code Event.timeout = 6
event_code Event.rail_reject = 7
event_code Event.verified_success = 8
event_code Event.verified_authorized = 9
event_code Event.unknown_status = 10
event_code Event.capture_initiated = 11
event_code Event.duplicate_detected = 12
event_code Event.unknown_response = 13
event_code Event.escalate = 14
event_code Event.late_duplicate = 15
event_code Event.refund_initiated = 16
event_code Event.refund_completed = 17
event_code Event.action_start = 18
event_code Event.execute = 19
event_code Event.confirm = 20
event_code Event.fail = 21
event_code Event.resolved = 22
event_code Event.reconcile_success = 23
event_code Event.reconcile_failed = 24
event_code Event.operator_reconcile = 25
event_code Event.operator_force_capture = 26
event_code Event.operator_force_failed = 27
event_code Event.action_confirmed = 28
event_code (Event.unlisted _) = 29

-- one entry of TRANSITIONS: (state, event) and the next state
pub record Edge : Type 0 where
  pub from : PaymentState
  pub on : Event
  pub to : PaymentState

abbrev edge : PaymentState → Event → PaymentState → Edge
edge s e t = record { from = s; on = e; to = t }

unfoldable pub transitions : List Edge
transitions =
    edge PaymentState.created Event.submit PaymentState.pending_rail
    ∷ edge PaymentState.created Event.payment_authorized PaymentState.authorized
    ∷ edge PaymentState.created Event.payment_captured PaymentState.captured
    ∷ edge PaymentState.created Event.payment_failed PaymentState.failed
    ∷ edge PaymentState.created Event.verified_failed PaymentState.failed
    ∷ edge PaymentState.pending_rail Event.rail_ack PaymentState.verifying
    ∷ edge PaymentState.pending_rail Event.timeout PaymentState.uncertain
    ∷ edge PaymentState.pending_rail Event.rail_reject PaymentState.failed
    ∷ edge PaymentState.pending_rail Event.payment_failed PaymentState.failed
    ∷ edge PaymentState.pending_rail Event.verified_failed PaymentState.failed
    ∷ edge PaymentState.verifying Event.verified_success PaymentState.captured
    ∷ edge PaymentState.verifying Event.verified_authorized PaymentState.authorized
    ∷ edge PaymentState.verifying Event.verified_failed PaymentState.failed
    ∷ edge PaymentState.verifying Event.unknown_status PaymentState.unknown
    ∷ edge PaymentState.authorized Event.capture_initiated PaymentState.action_executing
    ∷ edge PaymentState.authorized Event.payment_captured PaymentState.captured
    ∷ edge PaymentState.authorized Event.payment_failed PaymentState.failed
    ∷ edge PaymentState.uncertain Event.verified_success PaymentState.captured
    ∷ edge PaymentState.uncertain Event.verified_authorized PaymentState.authorized
    ∷ edge PaymentState.uncertain Event.verified_failed PaymentState.failed
    ∷ edge PaymentState.uncertain Event.duplicate_detected PaymentState.duplicate_suspected
    ∷ edge PaymentState.uncertain Event.timeout PaymentState.uncertain
    ∷ edge PaymentState.uncertain Event.unknown_response PaymentState.unknown
    ∷ edge PaymentState.uncertain Event.escalate PaymentState.manual_review
    ∷ edge PaymentState.captured Event.late_duplicate PaymentState.duplicate_suspected
    ∷ edge PaymentState.captured Event.refund_initiated PaymentState.action_executing
    ∷ edge PaymentState.captured Event.refund_completed PaymentState.reconciled
    ∷ edge PaymentState.duplicate_suspected Event.action_start PaymentState.action_pending
    ∷ edge PaymentState.duplicate_suspected Event.escalate PaymentState.manual_review
    ∷ edge PaymentState.action_pending Event.execute PaymentState.action_executing
    ∷ edge PaymentState.action_pending Event.escalate PaymentState.manual_review
    ∷ edge PaymentState.action_executing Event.confirm PaymentState.action_confirmed
    ∷ edge PaymentState.action_executing Event.fail PaymentState.reconciliation_required
    ∷ edge PaymentState.action_executing Event.escalate PaymentState.manual_review
    ∷ edge PaymentState.action_confirmed Event.resolved PaymentState.reconciled
    ∷ edge PaymentState.action_confirmed Event.escalate PaymentState.manual_review
    ∷ edge PaymentState.reconciliation_required Event.escalate PaymentState.manual_review
    ∷ edge PaymentState.reconciliation_required Event.reconcile_success PaymentState.captured
    ∷ edge PaymentState.reconciliation_required Event.reconcile_failed PaymentState.failed
    ∷ edge PaymentState.unknown Event.escalate PaymentState.manual_review
    ∷ edge PaymentState.unknown Event.verified_success PaymentState.captured
    ∷ edge PaymentState.unknown Event.verified_failed PaymentState.failed
    ∷ edge PaymentState.unknown Event.verified_authorized PaymentState.authorized
    ∷ edge PaymentState.manual_review Event.operator_reconcile PaymentState.reconciled
    ∷ edge PaymentState.manual_review Event.operator_force_capture PaymentState.captured
    ∷ edge PaymentState.manual_review Event.operator_force_failed PaymentState.failed
    ∷ []

unfoldable pub terminal_states : List PaymentState
terminal_states =
    PaymentState.captured ∷ PaymentState.reconciled ∷ PaymentState.manual_review
    ∷ PaymentState.failed ∷ []

-- `key == (state, event)`; no key of the table is an `unlisted` event
abbrev pub matches : PaymentState → Event → Edge → Bool
matches s e k = same_state k.from s && event_code k.on == event_code e

-- `TRANSITIONS.get((state, event))` on the rest of the table
unfoldable pub get_edge : PaymentState → Event → List Edge → Option PaymentState
get_edge s e [] = none
get_edge s e (k ∷ ks) = let rest = get_edge s e ks in if matches s e k then some k.to else rest

unfoldable pub next_state : PaymentState → Event → Option PaymentState
unfolding get_edge transitions
next_state s e = get_edge s e transitions

unfoldable pub is_terminal : PaymentState → Bool
unfolding terminal_states
is_terminal s = state_in s terminal_states

-- the default when the table has no entry: terminal states stay, others go to review
abbrev pub or_default : PaymentState → Bool → Option PaymentState → PaymentState
or_default s terminal (some t) = t
or_default s true none = s
or_default s false none = PaymentState.manual_review

-- `transition` past its check of the state
unfoldable pub transition : PaymentState → Event → PaymentState
unfolding next_state is_terminal
transition s e = or_default s (is_terminal s) (next_state s e)

-- a string passed as a state
pub data StateName : Type 0 where
  valid : PaymentState → StateName
  invalid : Text → StateName

-- `none` is the ValueError
unfoldable pub transition_name : StateName → Event → Option PaymentState
unfolding transition
transition_name (valid s) e = some (transition s e)
transition_name (invalid _) e = none

unfoldable pub is_transition_allowed : StateName → Event → Bool
unfolding next_state
is_transition_allowed (valid s) e = is_some (next_state s e)
is_transition_allowed (invalid _) e = false

unfoldable pub allowed_events : StateName → List Event
unfolding transitions
allowed_events (valid s) = map (λ k. k.on) (filter (λ k. same_state k.from s) transitions)
allowed_events (invalid _) = []
