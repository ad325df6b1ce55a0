-- ===== src/Schemas.antt =====
-- agents/schemas.py and the `intent_data` dictionary of core/resolver.py: what the agents exchange.
-- Amounts are in hundredths of the currency unit, as the column NUMERIC(18,2) holds them, a
-- confidence is in millionths, times are in seconds. Message metadata (trace and schema ids,
-- timestamps, free-text reasons and evidence lists) takes no part in any decision and is left out.
use resolver_ai.Prelude.{
  ℕ, Bool, false, Option, none, some, Text, text_eq, lower, truthy, if◌then◌else◌,
}
use resolver_ai.Domain.{PaymentState, ActionType, DecisionType, ExternalStatus}

pub record IntentData : Type 0 where
  pub payment_intent_id : ℕ
  pub order_id : Text
  pub razorpay_order_id : Option Text
  pub active_payment_id : Option Text
  pub merchant_id : Text
  pub amount : ℕ
  pub currency : Text
  pub current_state : PaymentState
  pub rail : Text
  pub retry_count : ℕ
  pub version : ℕ
  pub has_existing_capture : Bool

-- The keys that the source renders as `idem_{intent}_{version}`, `idem_replay_{intent}`, `exec_{command}`,
-- `outbox_evt_{source}_{event}`, `outbox_checkout_{payment}` and `outbox_failure_{payment}`.
pub data Key : Type 0 where
  idem : ℕ → ℕ → Key
  idem_replay : ℕ → Key
  exec : ℕ → Key
  outbox_evt : Text → Key
  outbox_checkout : Text → Key
  outbox_failure : Text → Key

pub data Hypothesis : Type 0 where
  duplicate_capture_detected late_authorization_suspected : Hypothesis
  gateway_timeout_or_pending_capture already_resolved unknown_anomaly : Hypothesis
  stated : Text → Hypothesis

pub record DetectiveResult : Type 0 where
  pub hypothesis : Hypothesis
  pub confidence : ℕ
  pub recommended_action : ActionType

-- A payment entity as the provider's API returns it; the amount is in minor units.
pub record Payment : Type 0 where
  pub id : Option Text
  pub order_id : Option Text
  pub status : Text
  pub amount : Option ℕ
  pub currency : Option Text

pub record NegotiatorResult : Type 0 where
  pub external_status : ExternalStatus
  pub external_transaction_id : Option Text
  pub razorpay_order_id : Option Text
  pub amount : ℕ
  pub currency : Text
  pub rail : Text
  pub verification_details : Option Payment

pub data Rule : Type 0 where
  rule_1_state rule_2_verified_evidence rule_3_economic_identity : Rule
  rule_4_duplicate_protection rule_5_bounded_action rule_6_confidence_guardrail : Rule
  rule_7_financial_autonomy_cap all_passed : Rule

pub record PolicyDecision : Type 0 where
  pub decision : DecisionType
  pub rule : Rule
  pub policy_decision_id : ℕ

pub record AuthorizedAction : Type 0 where
  pub command_id : ℕ
  pub payment_intent_id : ℕ
  pub merchant_id : Text
  pub action : ActionType
  pub amount : ℕ
  pub currency : Text
  pub target_rail : Option Text
  pub razorpay_payment_id : Option Text
  pub razorpay_order_id : Option Text
  pub policy_decision_id : ℕ
  pub idempotency_key : Key
  pub issued_at : ℕ
  pub expires_at : ℕ
  pub signature : Option Text

-- the fields that `compute_signature` joins by `|`
pub record SignedFields : Type 0 where
  pub command_id : ℕ
  pub payment_intent_id : ℕ
  pub merchant_id : Text
  pub action : ActionType
  pub amount : ℕ
  pub currency : Text
  pub idempotency_key : Key
  pub policy_decision_id : ℕ
  pub issued_at : ℕ
  pub expires_at : ℕ

unfoldable pub signed_fields : AuthorizedAction → SignedFields
signed_fields c = record {
  command_id = c.command_id;
  payment_intent_id = c.payment_intent_id;
  merchant_id = c.merchant_id;
  action = c.action;
  amount = c.amount;
  currency = c.currency;
  idempotency_key = c.idempotency_key;
  policy_decision_id = c.policy_decision_id;
  issued_at = c.issued_at;
  expires_at = c.expires_at;
}

-- HMAC-SHA256 over the rendered fields, as a hexadecimal text: `mac secret fields`
abbrev pub Mac : Type 0
Mac = Text → SignedFields → Text

unfoldable pub compute_signature : Mac → Text → AuthorizedAction → Text
unfolding signed_fields
compute_signature mac secret c = mac secret (signed_fields c)

unfoldable pub sign_command : Mac → Text → AuthorizedAction → AuthorizedAction
unfolding compute_signature
sign_command mac secret c = record c { signature = some (compute_signature mac secret c) }

abbrev pub check_digest : Option Text → Text → Bool
check_digest none expected = false
check_digest (some sig) expected =
    if truthy (some sig) then text_eq (lower sig) (lower expected) else false

unfoldable pub verify_signature : Mac → Text → AuthorizedAction → Bool
unfolding compute_signature
verify_signature mac secret c = check_digest c.signature (compute_signature mac secret c)

pub record FinOpsResult : Type 0 where
  pub action_taken : ActionType
  pub execution_status : ExternalStatus
  pub external_transaction_id : Option Text
  pub amount : ℕ
  pub error : Bool
