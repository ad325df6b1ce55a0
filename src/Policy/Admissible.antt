-- ===== src/Policy/Admissible.antt =====
-- The table of core/policy_engine.py by actions: which proposals are admissible.
use resolver_ai.Prelude.{◌≤◌, ◌≡◌, ◌≢◌, ◌⊎◌, Bool, true, false, ◌&&◌, ◌||◌, not, arith}
use resolver_ai.Domain.{PaymentState, ActionType, ExternalStatus, action_in}
use resolver_ai.Schemas.{IntentData, DetectiveResult, NegotiatorResult}
use resolver_ai.Policy.{is_resolvable, allowed_actions_for}

-- The states in which a payment is in progress, and what a verified status says of its money.
abbrev in_progress : PaymentState → Bool
in_progress PaymentState.uncertain = true
in_progress PaymentState.verifying = true
in_progress PaymentState.pending_rail = true
in_progress PaymentState.authorized = true
in_progress _ = false

abbrev is_suspected : PaymentState → Bool
is_suspected PaymentState.duplicate_suspected = true
is_suspected _ = false

-- charged once, given up, and charged perhaps twice
abbrev was_charged : ExternalStatus → Bool
was_charged ExternalStatus.success = true
was_charged ExternalStatus.captured = true
was_charged ExternalStatus.authorized = true
was_charged _ = false

abbrev was_given_up : ExternalStatus → Bool
was_given_up ExternalStatus.failed = true
was_given_up ExternalStatus.voided = true
was_given_up ExternalStatus.refunded = true
was_given_up _ = false

abbrev was_doubled : ExternalStatus → Bool
was_doubled ExternalStatus.success = true
was_doubled ExternalStatus.captured = true
was_doubled ExternalStatus.duplicate = true
was_doubled _ = false

abbrev is_duplicate : ExternalStatus → Bool
is_duplicate ExternalStatus.duplicate = true
is_duplicate _ = false

abbrev is_verified : ExternalStatus → Bool
is_verified ExternalStatus.unknown = false
is_verified _ = true

-- The table by actions: when each action is sanctioned.
abbrev pub sanctioned : ActionType → PaymentState → ExternalStatus → Bool
sanctioned ActionType.capture s x = in_progress s && was_charged x
sanctioned ActionType.refund s x = is_suspected s && was_doubled x
sanctioned ActionType.void s x = is_suspected s && was_doubled x
sanctioned ActionType.reroute s x = in_progress s && was_given_up x
sanctioned ActionType.manual_review s x =
    in_progress s && is_duplicate x || is_suspected s && is_verified x && not (was_doubled x)
sanctioned ActionType.no_action s x =
    in_progress s && is_verified x || is_suspected s && is_verified x && not (was_doubled x)
sanctioned ActionType.verify s x = false

-- The conditions under which the gate is meant to open.
pub record IsAdmissible (intent : IntentData) (ext : NegotiatorResult) (det : DetectiveResult)
    : Type 0 where
  pub action_sanctioned :
      sanctioned det.recommended_action intent.current_state ext.external_status ≡ true
  pub same_amount : ext.amount ≡ intent.amount
  pub same_currency : ext.currency ≡ intent.currency
  pub one_capture :
      (intent.has_existing_capture ≡ false)
      ⊎ (intent.current_state ≡ PaymentState.duplicate_suspected)
  pub confident : 850000 ≤ det.confidence
  pub capped : (det.recommended_action ≢ ActionType.refund) ⊎ (intent.amount ≤ 100000)

pub allowed-sanctioned :
    (a : ActionType) (s : PaymentState) (x : ExternalStatus)
    → is_resolvable s ≡ true
    → x ≢ ExternalStatus.unknown
    → action_in a (allowed_actions_for s x) ≡ true
    → sanctioned a s x ≡ true
unfolding is_resolvable allowed_actions_for
allowed-sanctioned a s x h k e = ground arith

pub sanctioned-allowed :
    (a : ActionType) (s : PaymentState) (x : ExternalStatus)
    → sanctioned a s x ≡ true
    → (is_resolvable s ≡ true)
      × (x ≢ ExternalStatus.unknown)
      × (action_in a (allowed_actions_for s x) ≡ true)
unfolding is_resolvable allowed_actions_for
sanctioned-allowed a s x e = ground arith
