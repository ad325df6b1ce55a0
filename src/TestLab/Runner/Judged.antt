-- ===== src/TestLab/Runner/Judged.antt =====
-- core/ai_test_lab/runner.py, `run_scenario`: the policy evaluation, what is observed, and the verdict.
use resolver_ai.Prelude.{
  true, false, Option, none, some, [], ◌∷◌, if◌then◌else◌, Text, codes, text_eq,
}
use resolver_ai.Domain.{
  PaymentState, ActionType, DecisionType, ExternalStatus, same_state, state_in,
}
use resolver_ai.StateMachine.{StateName, valid, invalid}
use resolver_ai.Schemas.{IntentData, DetectiveResult, NegotiatorResult, Hypothesis}
use resolver_ai.Policy.{evaluate}
use resolver_ai.Store.{Intent, Db, get_intent}
use resolver_ai.TestLab.{Observation, Scenario, TestStatus, fail, evaluate_scenario_result}
use resolver_ai.TestLab.Runner.{Bench, Lab, inject_all, is_storable, lab_merchant, seed_row}

-- step 3
unfoldable pub lab_intent : Lab → Scenario → PaymentState → IntentData
lab_intent l s state = record {
  payment_intent_id = l.intent_id;
  order_id = [];
  razorpay_order_id = none;
  active_payment_id = none;
  merchant_id = lab_merchant;
  amount = s.initial_amount;
  currency = s.currency;
  current_state = state;
  rail = [];
  retry_count = 0;
  version = 1;
  has_existing_capture = same_state state PaymentState.captured;
}

abbrev pub lab_action : PaymentState → ActionType
lab_action s =
    if state_in s (PaymentState.uncertain ∷ PaymentState.pending_rail ∷ [])
    then ActionType.capture
    else if same_state s PaymentState.duplicate_suspected
    then ActionType.refund
    else ActionType.no_action

unfoldable pub lab_proposal : Scenario → PaymentState → DetectiveResult
lab_proposal s state =
    if text_eq s.scenario_type (codes "MANUAL_REVIEW_REQUIRED_CASE")
    then record {
      hypothesis = Hypothesis.stated (codes "test_evaluation");
      confidence = 950000;
      recommended_action = ActionType.refund;
    }
    else record {
      hypothesis = Hypothesis.stated (codes "test_evaluation");
      confidence = 900000;
      recommended_action = lab_action state;
    }

unfoldable pub lab_evidence : Scenario → PaymentState → NegotiatorResult
lab_evidence s state = record {
  external_status =
      if same_state state PaymentState.uncertain
      then ExternalStatus.unknown
      else ExternalStatus.success;
  external_transaction_id = none;
  razorpay_order_id = none;
  amount = s.initial_amount;
  currency = s.currency;
  rail = [];
  verification_details = none;
}

abbrev pub decision_text : DecisionType → Text
decision_text DecisionType.approve = codes "APPROVE"
decision_text DecisionType.reject = codes "REJECT"
decision_text DecisionType.manual_review = codes "MANUAL_REVIEW"

abbrev pub stored_state : PaymentState → Option Intent → PaymentState
stored_state s none = s
stored_state s (some r) = r.current_state

-- step 4: what is observed
unfoldable pub observe : Lab → Scenario → Bench → Observation
observe l s b =
    let d =
      evaluate l.decision_id (lab_intent l s b.current_state) (lab_evidence s b.current_state)
        (lab_proposal s b.current_state) in
    record {
      actual_state = valid (stored_state b.current_state (get_intent l.intent_id b.db.intents));
      actual_http_status = b.http_status;
      actual_policy_decision = some (decision_text d.decision);
      actual_outbox_event = b.outbox_event;
      actual_security_alert = b.security_alert;
      actual_idempotent = true;
      actual_financial_mutation = false;
    }

abbrev pub start_bench : Lab → Scenario → PaymentState → Db → Bench
start_bench l s state db = record {
  db = record db { intents = seed_row l s state ∷ db.intents };
  current_state = state;
  http_status = 200;
  outbox_event = none;
  security_alert = false;
}

pub record Tested : Type 0 where
  pub db : Db
  pub observed : Observation
  pub status : TestStatus

abbrev pub crashed_observation : Observation
crashed_observation = record {
  actual_state = invalid (codes "ERROR");
  actual_http_status = 500;
  actual_policy_decision = none;
  actual_outbox_event = none;
  actual_security_alert = false;
  actual_idempotent = true;
  actual_financial_mutation = false;
}

-- the handler of an exception
abbrev pub crashed : Db → Tested
crashed db = record { db = db; observed = crashed_observation; status = fail }

abbrev pub judged : Lab → Scenario → Bench → Tested
judged l s b = record {
  db = b.db;
  observed = observe l s b;
  status = (evaluate_scenario_result s.expected_result (observe l s b)).0;
}

abbrev pub seeded : Lab → Scenario → Db → StateName → Tested
seeded l s db (invalid t) = crashed db
seeded l s db (valid state) =
    if is_storable s
    then judged l s (inject_all l s.events (start_bench l s state db))
    else crashed db

-- `run_scenario`
unfoldable pub run_scenario : Lab → Scenario → Db → Tested
run_scenario l s db = seeded l s db s.initial_state
