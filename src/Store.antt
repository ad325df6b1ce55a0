-- ===== src/Store.antt =====
-- The tables of schema.sql that the Python code reads and writes, as lists of rows with the latest
-- insert first, and the statements that it executes on them. A uuid is a number, amounts are in
-- hundredths. The CHECK and UNIQUE constraints that an insert can violate are tested by the insert.
pub mod Laws
use resolver_ai.Prelude.{
  ℕ, Bool, true, false, ◌&&◌, ◌||◌, not, Option, none, some, List, [], ◌∷◌, map, any, filter, ◌==◌,
  if◌then◌else◌, Text, text_eq,
}
use resolver_ai.Domain.{
  PaymentState, ActionType, DecisionType, ExternalStatus, CaseStatus, CaseSeverity, DivergenceType,
}
use resolver_ai.Schemas.{Key}
use resolver_ai.Rail.{key_eq}

pub data Resolution : Type 0 where
  pending in_progress resolved escalated : Resolution

-- payment_intents
pub record Intent : Type 0 where
  pub id : ℕ
  pub merchant_id : Text
  pub order_id : Text
  pub razorpay_order_id : Option Text
  pub active_payment_id : Option Text
  pub amount : ℕ
  pub currency : Text
  pub current_state : PaymentState
  pub active_rail : Option Text
  pub retry_count : ℕ
  pub version : ℕ
  pub resolution : Resolution
  pub updated_at : ℕ

-- chk_external_executions_operation
pub data Operation : Type 0 where
  authorize capture refund void verify no_action : Operation

-- external_executions
pub record Execution : Type 0 where
  pub intent : ℕ
  pub operation : Operation
  pub amount : ℕ
  pub status : ExternalStatus
  pub key : Key

-- immutable_evidence
pub record Evidence : Type 0 where
  pub intent : ℕ
  pub action : ActionType
  pub amount : ℕ
  pub decision : DecisionType

-- reconciliation_cases
pub record Case : Type 0 where
  pub id : ℕ
  pub intent : ℕ
  pub merchant_id : Text
  pub divergence : DivergenceType
  pub severity : CaseSeverity
  pub status : CaseStatus
  pub assigned_operator : Option Text

-- payment_events
pub record Event : Type 0 where
  pub intent : ℕ
  pub source : Text
  pub external_event_id : Text
  pub event_type : Text

-- outbox_events
pub data TaskStatus : Type 0 where
  pending processing processed dead_letter : TaskStatus

pub record Task : Type 0 where
  pub id : ℕ
  pub intent : ℕ
  pub key : Key
  pub status : TaskStatus
  pub attempts : ℕ
  pub created_at : ℕ
  pub available_at : Option ℕ
  pub processing_started_at : Option ℕ

-- NUMERIC(18,2) of schema.sql: amounts below 10^16 units of the currency
abbrev pub numeric_limit : ℕ
numeric_limit = 1000000000000000000

-- audit_events, as far as the code distinguishes them
pub data Audit : Type 0 where
  order_created provider_verified : ℕ → Audit
  case_resolved : ℕ → Text → Audit
  checkout_verified checkout_failed : ℕ → Audit

pub record Db : Type 0 where
  pub intents : List Intent
  pub executions : List Execution
  pub evidence : List Evidence
  pub cases : List Case
  pub events : List Event
  pub outbox : List Task
  pub audits : List Audit

-- `SELECT … FROM payment_intents WHERE payment_intent_id = $1`
unfoldable pub get_intent : ℕ → List Intent → Option Intent
get_intent id [] = none
get_intent id (r ∷ rs) = let rest = get_intent id rs in if r.id == id then some r else rest

-- `UPDATE payment_intents SET … WHERE payment_intent_id = $1`
unfoldable pub update_intent : ℕ → (Intent → Intent) → List Intent → List Intent
update_intent id f [] = []
update_intent id f (r ∷ rs) =
    let rest = update_intent id f rs in if r.id == id then f r ∷ rest else r ∷ rest

-- chk_external_executions_status does not list AUTHORIZED
unfoldable pub status_allowed : ExternalStatus → Bool
status_allowed ExternalStatus.authorized = false
status_allowed _ = true

-- `INSERT INTO external_executions … ON CONFLICT (idempotency_key) DO NOTHING`, inside a `try`
-- that ignores the violation of a constraint
unfoldable pub log_execution : Execution → List Execution → List Execution
log_execution e es =
    if not (status_allowed e.status) || any (λ x. key_eq e.key x.key) es then es else e ∷ es

abbrev pub is_capture : Operation → Bool
is_capture Operation.capture = true
is_capture _ = false

-- `status IN ('SUCCESS', 'CAPTURED')`
abbrev pub is_successful : ExternalStatus → Bool
is_successful ExternalStatus.success = true
is_successful ExternalStatus.captured = true
is_successful _ = false

abbrev pub is_successful_capture : Execution → Bool
is_successful_capture e = is_capture e.operation && is_successful e.status

unfoldable pub executions_of : ℕ → List Execution → List Execution
executions_of id es = filter (λ e. e.intent == id) es

unfoldable pub event_types_of : ℕ → List Event → List Text
event_types_of id es = map (λ e. e.event_type) (filter (λ e. e.intent == id) es)

-- the rows with the UNIQUE(source, external_event_id) of an event
unfoldable pub has_event : Text → Text → List Event → Bool
has_event source ext es = any (λ e. text_eq source e.source && text_eq ext e.external_event_id) es

-- `INSERT INTO outbox_events … ON CONFLICT (idempotency_key) DO NOTHING`
unfoldable pub enqueue : Task → List Task → List Task
enqueue t ts = if any (λ x. key_eq t.key x.key) ts then ts else t ∷ ts
