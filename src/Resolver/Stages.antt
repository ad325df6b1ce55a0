-- ===== src/Resolver/Stages.antt =====
-- The stages of core/resolver.py between the load of the row and the return, in the order of the
-- source: verify, reconcile, analyse, log, decide, act, record, update.
mod Acting
unfoldable pub use Acting.{
  is_executed, operation_of, state_after, after_execution, act_approved, open_case, act_refused,
}
pub use Acting.{set_executions, set_outside, Acted, acted, settle_execution, is_ambiguous, act}
use resolver_ai.Prelude.{ℕ, ◌+◌, Option, none, some, ◌∷◌, any, if◌then◌else◌, Text, codes, truthy}
use resolver_ai.Domain.{PaymentState, ExternalStatus}
use resolver_ai.Schemas.{IntentData, Key, Payment, NegotiatorResult, PolicyDecision}
use resolver_ai.StateMachine.{is_terminal}
use resolver_ai.Policy.{evaluate}
use resolver_ai.Detective.{analyze}
use resolver_ai.Negotiator.{verify}
use resolver_ai.Provider.{Outside, Outcome, returned, raised}
use resolver_ai.Money.{Result, ok, err}
use resolver_ai.Reconciliation.{
  ApiEvidence, RawAmount, missing, int, ReconciliationResult, reconcile,
}
use resolver_ai.Store.{
  Intent, Resolution, Operation, Evidence, Db, update_intent, log_execution, executions_of,
  event_types_of, is_successful_capture,
}
use resolver_ai.Resolver.Setting.{Env, World, Response}

abbrev pub rail_or_default : Option Text → Text
rail_or_default none = codes "RAZORPAY_TEST"
rail_or_default (some t) = if truthy (some t) then t else codes "RAZORPAY_TEST"

-- `intent_data`, with the count of earlier captures
unfoldable pub load_intent : Intent → Db → IntentData
load_intent row db = record {
  payment_intent_id = row.id;
  order_id = row.order_id;
  razorpay_order_id = row.razorpay_order_id;
  active_payment_id = row.active_payment_id;
  merchant_id = row.merchant_id;
  amount = row.amount;
  currency = row.currency;
  current_state = row.current_state;
  rail = rail_or_default row.active_rail;
  retry_count = row.retry_count;
  version = row.version;
  has_existing_capture = any is_successful_capture (executions_of row.id db.executions);
}

unfoldable pub status_text : ExternalStatus → Text
status_text ExternalStatus.success = codes "SUCCESS"
status_text ExternalStatus.captured = codes "CAPTURED"
status_text ExternalStatus.authorized = codes "AUTHORIZED"
status_text ExternalStatus.failed = codes "FAILED"
status_text ExternalStatus.unknown = codes "UNKNOWN"
status_text ExternalStatus.voided = codes "VOIDED"
status_text ExternalStatus.refunded = codes "REFUNDED"
status_text ExternalStatus.duplicate = codes "DUPLICATE"

abbrev raw_amount : Option ℕ → RawAmount
raw_amount none = missing
raw_amount (some n) = int n

-- `verification_details or {"status": external_status.value}`
unfoldable pub api_evidence : ExternalStatus → Option Payment → ApiEvidence
api_evidence s none = record {
  status = status_text s;
  id = none;
  payment_id = none;
  order_id = none;
  amount = missing;
  currency = none;
}
api_evidence s (some p) = record {
  status = p.status;
  id = p.id;
  payment_id = none;
  order_id = p.order_id;
  amount = raw_amount p.amount;
  currency = p.currency;
}

-- the log of the verification
unfoldable pub log_verify : IntentData → NegotiatorResult → Key → World → World
log_verify intent ext key w = set_executions w (
    log_execution
      (record {
        intent = intent.payment_intent_id;
        operation = Operation.verify;
        amount = intent.amount;
        status = ext.external_status;
        key = key;
      })
      w.db.executions)

abbrev pub resolution_of : PaymentState → Resolution
resolution_of s = if is_terminal s then Resolution.resolved else Resolution.in_progress

-- steps 8 and 9: the evidence row (ledger/evidence.py), and the update of the intent. The financial
-- effect sets `resolution_status`, which the update sets anew.
unfoldable pub finish :
    Env → IntentData → PolicyDecision → ReconciliationResult → Acted → World → World × Response
finish env intent d recon a w =
    let e : Evidence = record {
      intent = intent.payment_intent_id;
      action = a.action_taken;
      amount = intent.amount;
      decision = d.decision;
    } in
    let update = λ (r : Intent). record r {
      current_state = a.final_state;
      version = r.version + 1;
      resolution = resolution_of a.final_state;
      updated_at = env.update_time;
    } in
    (
      record w {
        db = record w.db {
          evidence = e ∷ w.db.evidence;
          intents = update_intent intent.payment_intent_id update w.db.intents;
        };
      },
      Response.done a.final_state d.decision a.action_taken recon.status,
    )

abbrev pub after_action :
    Env
    → IntentData
    → PolicyDecision
    → ReconciliationResult
    → World × Outcome Acted
    → World × Response
after_action env intent d recon (w, returned a) = finish env intent d recon a w
after_action env intent d recon (w, raised) = (w, Response.error)

-- steps 5 to 9
unfoldable pub decide :
    Env → IntentData → NegotiatorResult → Key → ReconciliationResult → World → World × Response
decide env intent ext key recon w =
    let det = analyze env.ai env.llm intent in
    let d = evaluate env.decision_id intent ext det in
    after_action env intent d recon
      (act env intent ext det recon key d d.decision (log_verify intent ext key w))

abbrev pub after_reconcile :
    Env
    → IntentData
    → NegotiatorResult
    → Key
    → World
    → Result ReconciliationResult
    → World × Response
after_reconcile env intent ext key w (ok recon) = decide env intent ext key recon w
after_reconcile env intent ext key w (err _) = (w, Response.error)

abbrev pub after_verify :
    Env → IntentData → Key → World → Outside × Outcome NegotiatorResult → World × Response
after_verify env intent key w (o, returned ext) =
    after_reconcile env intent ext key (set_outside w o) (
      reconcile intent (event_types_of intent.payment_intent_id w.db.events)
        (api_evidence ext.external_status ext.verification_details)
        (executions_of intent.payment_intent_id w.db.executions))
after_verify env intent key w (o, raised) = (set_outside w o, Response.error)

-- steps 3 to 9
unfoldable pub gather : Env → IntentData → World → World × Response
gather env intent w =
    let key = Key.idem intent.payment_intent_id intent.version in
    after_verify env intent key w
      (verify env.mode env.provider env.lucky env.verify_hex intent key w.outside)
