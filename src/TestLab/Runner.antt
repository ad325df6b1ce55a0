-- ===== src/TestLab/Runner.antt =====
-- core/ai_test_lab/runner.py, `run_scenario`: one scenario, injected into the tables of the service.
pub mod Judged
use resolver_ai.Prelude.{
  ℕ, Bool, true, false, ◌&&◌, not, Option, none, some, List, [], ◌∷◌, ◌++◌, any, all, length, leb,
  ltb, ◌==◌, if◌then◌else◌, Text, codes, text_eq,
}
use resolver_ai.Domain.{PaymentState, same_state}
use resolver_ai.StateMachine.{Event, transition}
use resolver_ai.Schemas.{Key}
use resolver_ai.Rail.{key_eq}
use resolver_ai.Store.{numeric_limit, Intent, Resolution, Task, TaskStatus, Db, update_intent}
use resolver_ai.TestLab.{
  SyntheticEvent, Scenario, generate_synthetic_order_id, generate_synthetic_payment_id,
  generate_synthetic_event_id,
}

-- the fresh values of a run; those of an event are given by the number of events that follow it
pub record Lab : Type 0 where
  pub intent_id : ℕ
  pub order_hex : Text
  pub payment_hex : Text
  pub event_hex : ℕ → Text
  pub task_id : ℕ → ℕ
  pub decision_id : ℕ
  pub now : ℕ

-- the database and the local variables of the run
pub record Bench : Type 0 where
  pub db : Db
  pub current_state : PaymentState
  pub http_status : ℕ
  pub outbox_event : Option Text
  pub security_alert : Bool

abbrev pub lab_merchant : Text
lab_merchant = codes "ai_test_lab_merchant"

abbrev pub is_capital : ℕ → Bool
is_capital c = leb b'A' c && leb c b'Z'

-- the size of the amount of a row, and the CHECK constraints on its amount and its currency
unfoldable pub is_storable : Scenario → Bool
is_storable s =
    not (s.initial_amount == 0)
    && ltb s.initial_amount numeric_limit
    && length s.currency == 3
    && all is_capital s.currency

-- the uuid is fresh, so that the insert has no conflict
unfoldable pub seed_row : Lab → Scenario → PaymentState → Intent
seed_row l s state = record {
  id = l.intent_id;
  merchant_id = lab_merchant;
  order_id = codes "ORD_" ++ l.order_hex;
  razorpay_order_id = some (generate_synthetic_order_id l.order_hex);
  active_payment_id = some (generate_synthetic_payment_id l.payment_hex);
  amount = s.initial_amount;
  currency = s.currency;
  current_state = state;
  active_rail = some (codes "RAZORPAY_TEST");
  retry_count = 0;
  version = 1;
  resolution = Resolution.pending;
  updated_at = l.now;
}

abbrev pub forged_texts : List Text
forged_texts =
    codes "INVALID_HMAC_SIGNATURE_HASH" ∷ codes "FORGED_SIG" ∷ codes "BAD_FRONTEND_SIGNATURE" ∷ []

abbrev pub is_forged : Option Text → Bool
is_forged none = false
is_forged (some s) = any (text_eq s) forged_texts

-- `UPDATE payment_intents SET current_state = $1`
unfoldable pub set_state : Lab → PaymentState → Bench → Bench
set_state l s b = record b {
  current_state = s;
  db = record b.db {
    intents = update_intent l.intent_id (λ r. record r { current_state = s }) b.db.intents;
  };
}

unfoldable pub move : Lab → Event → Bench → Bench
move l e b =
    let s = transition b.current_state e in
    if same_state s b.current_state then b else set_state l s b

unfoldable pub lab_task : Lab → ℕ → Task
lab_task l n = record {
  id = l.task_id n;
  intent = l.intent_id;
  key = Key.outbox_evt (codes "AITEST_" ++ generate_synthetic_event_id (l.event_hex n));
  status = TaskStatus.pending;
  attempts = 0;
  created_at = l.now;
  available_at = some l.now;
  processing_started_at = none;
}

-- the insert into outbox_events, whose violation of the unique key is ignored
unfoldable pub enqueue_task : Lab → ℕ → Bench → Bench
enqueue_task l n b =
    let t = lab_task l n in
    if any (λ x. key_eq t.key x.key) b.db.outbox then b else record b {
      outbox_event = some (codes "RESOLVE_INTENT");
      db = record b.db { outbox = t ∷ b.db.outbox };
    }

-- the branches on the type of the event
unfoldable pub react : Lab → ℕ → Text → Bench → Bench
react l n t b =
    if text_eq t (codes "payment.captured")
    then enqueue_task l n (move l Event.payment_captured b)
    else if text_eq t (codes "payment.failed")
    then move l Event.payment_failed b
    else if text_eq t (codes "checkout_verify")
    then set_state l (transition b.current_state Event.payment_captured) b
    else if text_eq t (codes "illegal_state_jump")
    then set_state l (transition b.current_state (Event.unlisted (codes "ILLEGAL_JUMP"))) b
    else b

unfoldable pub log_event : Lab → ℕ → Text → Bench → Bench
log_event l n t b = record b {
  db = record b.db {
    events =
        (record {
          intent = l.intent_id;
          source = codes "AI_TEST_LAB";
          external_event_id = generate_synthetic_event_id (l.event_hex n);
          event_type = t;
        })
        ∷ b.db.events;
  };
}

-- the body of the loop over the events
unfoldable pub inject : Lab → ℕ → SyntheticEvent → Bench → Bench
inject l n e b =
    if is_forged e.override_signature
    then record b { http_status = 401; security_alert = true }
    else if text_eq e.event_type (codes "raw_malformed")
    then record b { http_status = 400 }
    else log_event l n e.event_type (react l n e.event_type b)

unfoldable pub inject_all : Lab → List SyntheticEvent → Bench → Bench
inject_all l [] b = b
inject_all l (e ∷ es) b = inject_all l es (inject l (length es) e b)
