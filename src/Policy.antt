-- ===== src/Policy.antt =====
-- core/policy_engine.py: the deterministic gate between a proposed action and its execution.
pub mod Admissible
pub mod Gate
use resolver_ai.Prelude.{
  ℕ, Bool, true, false, ◌&&◌, not, Option, none, some, List, [], ◌∷◌, ◌+◌, ltb, ◌==◌, if◌then◌else◌,
  Text, text_eq, text_or,
}
use resolver_ai.Domain.{PaymentState, ActionType, DecisionType, ExternalStatus, action_in}
use resolver_ai.Schemas.{
  IntentData, DetectiveResult, NegotiatorResult, Rule, PolicyDecision, AuthorizedAction, Key, Mac,
  sign_command,
}

-- rule 1: `state in ("UNCERTAIN", …)`
unfoldable pub is_resolvable : PaymentState → Bool
is_resolvable PaymentState.uncertain = true
is_resolvable PaymentState.duplicate_suspected = true
is_resolvable PaymentState.verifying = true
is_resolvable PaymentState.pending_rail = true
is_resolvable PaymentState.authorized = true
is_resolvable _ = false

unfoldable pub is_duplicate_suspected : PaymentState → Bool
is_duplicate_suspected PaymentState.duplicate_suspected = true
is_duplicate_suspected _ = false

abbrev pub is_unknown : ExternalStatus → Bool
is_unknown ExternalStatus.unknown = true
is_unknown _ = false

unfoldable pub is_refund : ActionType → Bool
is_refund ActionType.refund = true
is_refund _ = false

-- `action in (ActionType.REFUND, ActionType.VOID)`
unfoldable pub is_return : ActionType → Bool
is_return ActionType.refund = true
is_return ActionType.void = true
is_return _ = false

-- 0.85 in millionths, and 1000.00 in hundredths
abbrev pub min_confidence : ℕ
min_confidence = 850000

abbrev pub refund_cap : ℕ
refund_cap = 100000

abbrev capture_or_nothing : List ActionType
capture_or_nothing = ActionType.capture ∷ ActionType.no_action ∷ []

abbrev reroute_or_nothing : List ActionType
reroute_or_nothing = ActionType.reroute ∷ ActionType.no_action ∷ []

abbrev return_only : List ActionType
return_only = ActionType.void ∷ ActionType.refund ∷ []

abbrev review_or_nothing : List ActionType
review_or_nothing = ActionType.manual_review ∷ ActionType.no_action ∷ []

-- the branch for UNCERTAIN, VERIFYING, PENDING_RAIL and AUTHORIZED
abbrev allowed_in_progress : ExternalStatus → List ActionType
allowed_in_progress ExternalStatus.success = capture_or_nothing
allowed_in_progress ExternalStatus.captured = capture_or_nothing
allowed_in_progress ExternalStatus.authorized = capture_or_nothing
allowed_in_progress ExternalStatus.failed = reroute_or_nothing
allowed_in_progress ExternalStatus.voided = reroute_or_nothing
allowed_in_progress ExternalStatus.refunded = reroute_or_nothing
allowed_in_progress _ = review_or_nothing

abbrev allowed_for_duplicate : ExternalStatus → List ActionType
allowed_for_duplicate ExternalStatus.success = return_only
allowed_for_duplicate ExternalStatus.captured = return_only
allowed_for_duplicate ExternalStatus.duplicate = return_only
allowed_for_duplicate _ = review_or_nothing

unfoldable pub allowed_actions_for : PaymentState → ExternalStatus → List ActionType
allowed_actions_for PaymentState.uncertain x = allowed_in_progress x
allowed_actions_for PaymentState.verifying x = allowed_in_progress x
allowed_actions_for PaymentState.pending_rail x = allowed_in_progress x
allowed_actions_for PaymentState.authorized x = allowed_in_progress x
allowed_actions_for PaymentState.duplicate_suspected x = allowed_for_duplicate x
allowed_actions_for _ _ = review_or_nothing

abbrev decide : ℕ → DecisionType → Rule → PolicyDecision
decide n d r = record { decision = d; rule = r; policy_decision_id = n }

-- `PolicyEngine.evaluate`; the first argument is the decision's fresh id
unfoldable pub evaluate : ℕ → IntentData → NegotiatorResult → DetectiveResult → PolicyDecision
evaluate n intent ext det =
    if not (is_resolvable intent.current_state)
    then decide n DecisionType.reject Rule.rule_1_state
    else if is_unknown ext.external_status
    then decide n DecisionType.reject Rule.rule_2_verified_evidence
    else if not (ext.amount == intent.amount)
    then decide n DecisionType.reject Rule.rule_3_economic_identity
    else if not (text_eq ext.currency intent.currency)
    then decide n DecisionType.reject Rule.rule_3_economic_identity
    else if intent.has_existing_capture
        && not (is_duplicate_suspected intent.current_state)
        && not (is_return det.recommended_action)
    then decide n DecisionType.reject Rule.rule_4_duplicate_protection
    else if ltb det.confidence min_confidence
    then decide n DecisionType.manual_review Rule.rule_6_confidence_guardrail
    else if is_refund det.recommended_action && ltb refund_cap intent.amount
    then decide n DecisionType.manual_review Rule.rule_7_financial_autonomy_cap
    else if not (
        action_in det.recommended_action
          (allowed_actions_for intent.current_state ext.external_status))
    then decide n DecisionType.reject Rule.rule_5_bounded_action
    else decide n DecisionType.approve Rule.all_passed

-- commands expire five minutes after they are issued
abbrev pub command_lifetime : ℕ
command_lifetime = 300

module _ (mac : Mac) (secret : Text) where
  authorize :
      ℕ
      → ℕ
      → PolicyDecision
      → IntentData
      → DetectiveResult
      → NegotiatorResult
      → Key
      → AuthorizedAction
  authorize now fresh decision intent det ext key = sign_command mac secret (record {
    command_id = fresh;
    payment_intent_id = intent.payment_intent_id;
    merchant_id = intent.merchant_id;
    action = det.recommended_action;
    amount = intent.amount;
    currency = intent.currency;
    target_rail = some intent.rail;
    razorpay_payment_id = text_or ext.external_transaction_id intent.active_payment_id;
    razorpay_order_id = text_or ext.razorpay_order_id intent.razorpay_order_id;
    policy_decision_id = decision.policy_decision_id;
    idempotency_key = key;
    issued_at = now;
    expires_at = now + command_lifetime;
    signature = none;
  })

  if_approved : DecisionType → AuthorizedAction → Option AuthorizedAction
  if_approved DecisionType.approve c = some c
  if_approved _ _ = none

  -- `create_authorized_action`, at the time `now` and with the fresh command id
  unfoldable pub create_authorized_action :
      ℕ
      → ℕ
      → PolicyDecision
      → IntentData
      → DetectiveResult
      → NegotiatorResult
      → Key
      → Option AuthorizedAction
  unfolding authorize if_approved sign_command
  create_authorized_action now fresh decision intent det ext key =
      if_approved decision.decision (authorize now fresh decision intent det ext key)
