-- ===== src/Domain.antt =====
-- domain/enums.py: the enumerations of the payment domain, with the membership and equality tests
-- that the components make on them.
use resolver_ai.Prelude.{ℕ, Bool, List, [], ◌∷◌, ◌==◌, any}

pub data PaymentState : Type 0 where
  created pending_rail uncertain verifying authorized captured failed : PaymentState
  duplicate_suspected reconciliation_required action_pending action_executing : PaymentState
  action_confirmed unknown manual_review reconciled : PaymentState

pub data ActionType : Type 0 where
  capture refund void reroute no_action manual_review verify : ActionType

pub data DecisionType : Type 0 where
  approve reject manual_review : DecisionType

pub data ExternalStatus : Type 0 where
  success captured authorized failed unknown voided refunded duplicate : ExternalStatus

pub data CaseStatus : Type 0 where
  opened in_progress resolved closed : CaseStatus

pub data CaseSeverity : Type 0 where
  low medium high critical : CaseSeverity

pub data DivergenceType : Type 0 where
  none_found lost_webhook delayed_webhook duplicate_event out_of_order_event : DivergenceType
  timeout_after_success local_stale provider_stale amount_mismatch : DivergenceType
  currency_mismatch payment_id_mismatch conflicting_provider_state : DivergenceType
  unknown_provider_state possible_duplicate_capture manual_review_required : DivergenceType

-- The members in the order of their declaration: `==` on members compares the position.
abbrev pub state_code : PaymentState → ℕ
state_code PaymentState.created = 0
state_code PaymentState.pending_rail = 1
state_code PaymentState.uncertain = 2
state_code PaymentState.verifying = 3
state_code PaymentState.authorized = 4
state_code PaymentState.captured = 5
state_code PaymentState.failed = 6
state_code PaymentState.duplicate_suspected = 7
state_code PaymentState.reconciliation_required = 8
state_code PaymentState.action_pending = 9
state_code PaymentState.action_executing = 10
state_code PaymentState.action_confirmed = 11
state_code PaymentState.unknown = 12
state_code PaymentState.manual_review = 13
state_code PaymentState.reconciled = 14

abbrev pub action_code : ActionType → ℕ
action_code ActionType.capture = 0
action_code ActionType.refund = 1
action_code ActionType.void = 2
action_code ActionType.reroute = 3
action_code ActionType.no_action = 4
action_code ActionType.manual_review = 5
action_code ActionType.verify = 6

abbrev pub same_state : PaymentState → PaymentState → Bool
same_state s t = state_code s == state_code t

-- `state in (…)`
abbrev pub state_in : PaymentState → List PaymentState → Bool
state_in s = any (same_state s)

-- `action in (…)`
abbrev pub action_in : ActionType → List ActionType → Bool
action_in a = any (λ b. action_code a == action_code b)

abbrev pub all_states : List PaymentState
all_states =
    PaymentState.created ∷ PaymentState.pending_rail ∷ PaymentState.uncertain
    ∷ PaymentState.verifying ∷ PaymentState.authorized ∷ PaymentState.captured ∷ PaymentState.failed
    ∷ PaymentState.duplicate_suspected ∷ PaymentState.reconciliation_required
    ∷ PaymentState.action_pending ∷ PaymentState.action_executing ∷ PaymentState.action_confirmed
    ∷ PaymentState.unknown ∷ PaymentState.manual_review ∷ PaymentState.reconciled ∷ []
