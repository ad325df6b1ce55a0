-- ===== src/TestLab/Library.antt =====
-- core/ai_test_lab/scenarios.py: the library of baseline scenarios. Titles, payloads and delays take no
-- part in a run; every scenario expects idempotence and no financial mutation.
use resolver_ai.Prelude.{
  ℕ, true, false, Option, none, some, List, [], ◌∷◌, ◌||◌, any, filter, find, Text, codes, text_eq,
}
use Prim.Native.String.{String}
use resolver_ai.Domain.{PaymentState}
use resolver_ai.StateMachine.{valid}
use resolver_ai.TestLab.{
  RiskLevel, low, medium, high, critical, SyntheticEvent, ExpectedResult, Scenario,
}

abbrev event : String → SyntheticEvent
event t = record { event_type = codes t; override_signature = none }

abbrev altered : String → String → SyntheticEvent
altered t s = record { event_type = codes t; override_signature = some (codes s) }

abbrev expects : PaymentState → ℕ → Option Text → Option Text → ExpectedResult
expects s http policy outbox = record {
  expected_state = valid s;
  expected_http_status = http;
  expected_policy_decision = policy;
  expected_outbox_event = outbox;
  expected_idempotent = true;
  expected_financial_mutation = false;
}

abbrev scenario :
    String → String → RiskLevel → ℕ → PaymentState → List SyntheticEvent → ExpectedResult → Scenario
scenario id t risk amount s events expected = record {
  scenario_id = codes id;
  scenario_type = codes t;
  risk_level = risk;
  initial_amount = amount;
  currency = codes "INR";
  initial_state = valid s;
  events = events;
  expected_result = expected;
}

abbrev pub success_flow : Scenario
success_flow =
    scenario "scen_01_success_flow" "SUCCESS_FLOW" low 150000 PaymentState.created
      (event "payment.captured" ∷ [])
      (expects PaymentState.captured 200 none (some (codes "RESOLVE_INTENT")))

abbrev pub payment_failed_user_declined : Scenario
payment_failed_user_declined =
    scenario "scen_02_user_declined" "PAYMENT_FAILED_USER_DECLINED" low 49900 PaymentState.created
      (event "payment.failed" ∷ []) (expects PaymentState.failed 200 none none)

abbrev pub payment_failed_bank_error : Scenario
payment_failed_bank_error =
    scenario "scen_03_bank_error" "PAYMENT_FAILED_BANK_ERROR" medium 249900 PaymentState.created
      (event "payment.failed" ∷ []) (expects PaymentState.failed 200 none none)

abbrev pub invalid_webhook_signature : Scenario
invalid_webhook_signature =
    scenario "scen_04_invalid_signature" "INVALID_WEBHOOK_SIGNATURE" high 500000
      PaymentState.created (altered "payment.captured" "INVALID_HMAC_SIGNATURE_HASH" ∷ [])
      (expects PaymentState.created 401 none none)

abbrev pub duplicate_webhook : Scenario
duplicate_webhook =
    scenario "scen_05_duplicate_webhook" "DUPLICATE_WEBHOOK" medium 120000 PaymentState.created
      (event "payment.captured" ∷ event "payment.captured" ∷ [])
      (expects PaymentState.captured 200 none none)

abbrev pub duplicate_checkout_verification : Scenario
duplicate_checkout_verification =
    scenario "scen_06_duplicate_checkout_verify" "DUPLICATE_CHECKOUT_VERIFICATION" medium 89900
      PaymentState.created (event "checkout_verify" ∷ event "checkout_verify" ∷ [])
      (expects PaymentState.captured 200 none none)

abbrev pub checkout_signature_mismatch : Scenario
checkout_signature_mismatch =
    scenario "scen_07_checkout_sig_mismatch" "CHECKOUT_SIGNATURE_MISMATCH" high 350000
      PaymentState.created (altered "checkout_verify" "BAD_FRONTEND_SIGNATURE" ∷ [])
      (expects PaymentState.created 401 none none)

abbrev pub missing_webhook : Scenario
missing_webhook =
    scenario "scen_08_missing_webhook" "MISSING_WEBHOOK" high 199900 PaymentState.uncertain ([])
      (expects PaymentState.uncertain 200 (some (codes "REJECT")) none)

abbrev pub delayed_webhook : Scenario
delayed_webhook =
    scenario "scen_09_delayed_webhook" "DELAYED_WEBHOOK" medium 149900 PaymentState.uncertain
      (event "payment.captured" ∷ [])
      (expects PaymentState.captured 200 none (some (codes "RESOLVE_INTENT")))

abbrev pub webhook_after_timeout : Scenario
webhook_after_timeout =
    scenario "scen_10_webhook_after_timeout" "WEBHOOK_AFTER_TIMEOUT" high 299900
      PaymentState.uncertain (event "payment.captured" ∷ [])
      (expects PaymentState.captured 200 none none)

abbrev pub conflicting_payment_state : Scenario
conflicting_payment_state =
    scenario "scen_11_conflicting_state" "CONFLICTING_PAYMENT_STATE" critical 499900
      PaymentState.created (event "payment.failed" ∷ event "payment.captured" ∷ [])
      (expects PaymentState.duplicate_suspected 200 (some (codes "REJECT")) none)

abbrev pub duplicate_payment : Scenario
duplicate_payment =
    scenario "scen_12_duplicate_payment" "DUPLICATE_PAYMENT" high 299900
      PaymentState.duplicate_suspected (event "payment.captured" ∷ [])
      (expects PaymentState.duplicate_suspected 200 (some (codes "APPROVE")) none)

abbrev pub missing_payment_id : Scenario
missing_payment_id =
    scenario "scen_13_missing_payment_id" "MISSING_PAYMENT_ID" medium 75000 PaymentState.created
      (event "payment.captured" ∷ []) (expects PaymentState.created 400 none none)

abbrev pub malformed_webhook : Scenario
malformed_webhook =
    scenario "scen_14_malformed_webhook" "MALFORMED_WEBHOOK" medium 100000 PaymentState.created
      (event "raw_malformed" ∷ []) (expects PaymentState.created 400 none none)

abbrev pub unknown_event_type : Scenario
unknown_event_type =
    scenario "scen_15_unknown_event" "UNKNOWN_EVENT_TYPE" low 50000 PaymentState.created
      (event "custom.unknown_event" ∷ []) (expects PaymentState.created 200 none none)

abbrev pub out_of_order_events : Scenario
out_of_order_events =
    scenario "scen_16_out_of_order" "OUT_OF_ORDER_EVENTS" high 74900 PaymentState.created
      (event "payment.captured" ∷ event "payment.authorized" ∷ [])
      (expects PaymentState.captured 200 none none)

abbrev pub repeated_resolution : Scenario
repeated_resolution =
    scenario "scen_17_repeated_resolution" "REPEATED_RESOLUTION" medium 199900 PaymentState.captured
      (event "resolve_request" ∷ [])
      (expects PaymentState.captured 200 (some (codes "REJECT")) none)

abbrev pub outbox_duplication_attempt : Scenario
outbox_duplication_attempt =
    scenario "scen_18_outbox_duplication" "OUTBOX_DUPLICATION_ATTEMPT" high 150000
      PaymentState.created (event "payment.captured" ∷ [])
      (expects PaymentState.captured 200 none (some (codes "RESOLVE_INTENT")))

abbrev pub impossible_state_transition : Scenario
impossible_state_transition =
    scenario "scen_19_impossible_transition" "IMPOSSIBLE_STATE_TRANSITION" critical 1000000
      PaymentState.created (event "illegal_state_jump" ∷ [])
      (expects PaymentState.manual_review 200 (some (codes "REJECT")) none)

abbrev pub manual_review_required_case : Scenario
manual_review_required_case =
    scenario "scen_20_manual_review" "MANUAL_REVIEW_REQUIRED_CASE" high 500000
      PaymentState.duplicate_suspected (event "high_value_refund" ∷ [])
      (expects PaymentState.duplicate_suspected 200 (some (codes "MANUAL_REVIEW")) none)

abbrev pub get_baseline_scenarios : List Scenario
get_baseline_scenarios =
    success_flow ∷ payment_failed_user_declined ∷ payment_failed_bank_error
    ∷ invalid_webhook_signature ∷ duplicate_webhook ∷ duplicate_checkout_verification
    ∷ checkout_signature_mismatch ∷ missing_webhook ∷ delayed_webhook ∷ webhook_after_timeout
    ∷ conflicting_payment_state ∷ duplicate_payment ∷ missing_payment_id ∷ malformed_webhook
    ∷ unknown_event_type ∷ out_of_order_events ∷ repeated_resolution ∷ outbox_duplication_attempt
    ∷ impossible_state_transition ∷ manual_review_required_case ∷ []

-- `get_scenario_by_type`; `none` is the KeyError
unfoldable pub get_scenario_by_type : Text → Option Scenario
get_scenario_by_type t =
    find (λ s. text_eq s.scenario_type t || text_eq s.scenario_id t) get_baseline_scenarios

abbrev pub demo_types : List Text
demo_types =
    codes "SUCCESS_FLOW"
    ∷ codes "PAYMENT_FAILED_USER_DECLINED"
    ∷ codes "DUPLICATE_WEBHOOK"
    ∷ codes "INVALID_WEBHOOK_SIGNATURE"
    ∷ codes "WEBHOOK_AFTER_TIMEOUT"
    ∷ codes "CONFLICTING_PAYMENT_STATE"
    ∷ codes "DUPLICATE_CHECKOUT_VERIFICATION"
    ∷ codes "IMPOSSIBLE_STATE_TRANSITION"
    ∷ []

-- the scenarios of `run_demo_suite`
unfoldable pub demo_scenarios : List Scenario
demo_scenarios = filter (λ s. any (text_eq s.scenario_type) demo_types) get_baseline_scenarios
