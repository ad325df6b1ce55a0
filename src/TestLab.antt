-- ===== src/TestLab.antt =====
-- core/ai_test_lab/schema.py, oracle.py and isolation.py: the scenarios of the test lab, what is
-- observed of a run, and the oracle that compares the two. A state is a string in the source; titles,
-- traces and the advisory texts take no part in a verdict and are left out.
pub mod Observed
pub mod Runner
pub mod Suite
pub mod Library
pub mod Verdicts
pub mod States
pub mod Claimed
use resolver_ai.Prelude.{
  ℕ, Bool, true, false, ◌||◌, not, Option, none, some, List, [], ◌∷◌, ◌++◌, any, filter, length,
  ltb, ◌==◌, if◌then◌else◌, Text, codes, text_eq, lower, contains_text,
}
use resolver_ai.Domain.{same_state}
use resolver_ai.StateMachine.{StateName, valid, invalid}

pub data RiskLevel : Type 0 where
  low medium high critical : RiskLevel

pub data TestStatus : Type 0 where
  pass fail warning : TestStatus

pub data RunStatus : Type 0 where
  pending running completed stopped failed timed_out : RunStatus

pub record SyntheticEvent : Type 0 where
  pub event_type : Text
  pub override_signature : Option Text

pub record ExpectedResult : Type 0 where
  pub expected_state : StateName
  pub expected_http_status : ℕ
  pub expected_policy_decision : Option Text
  pub expected_outbox_event : Option Text
  pub expected_idempotent : Bool
  pub expected_financial_mutation : Bool

pub record Observation : Type 0 where
  pub actual_state : StateName
  pub actual_http_status : ℕ
  pub actual_policy_decision : Option Text
  pub actual_outbox_event : Option Text
  pub actual_security_alert : Bool
  pub actual_idempotent : Bool
  pub actual_financial_mutation : Bool

pub record Scenario : Type 0 where
  pub scenario_id : Text
  pub scenario_type : Text
  pub risk_level : RiskLevel
  pub initial_amount : ℕ
  pub currency : Text
  pub initial_state : StateName
  pub events : List SyntheticEvent
  pub expected_result : ExpectedResult

abbrev pub same_name : StateName → StateName → Bool
same_name (valid s) (valid t) = same_state s t
same_name (valid s) (invalid t) = false
same_name (invalid s) (valid t) = false
same_name (invalid s) (invalid t) = text_eq s t

abbrev pub same_text : Option Text → Option Text → Bool
same_text none none = true
same_text none (some t) = false
same_text (some s) none = false
same_text (some s) (some t) = text_eq s t

abbrev pub same_flag : Bool → Bool → Bool
same_flag true b = b
same_flag false b = not b

-- one row of the diff matrix
pub data Field : Type 0 where
  payment_state http_status policy_decision outbox_task idempotence financial_mutation : Field

pub record Row : Type 0 where
  pub field : Field
  pub matches : Bool
  pub is_critical : Bool

abbrev pub row : Field → Bool → Bool → Row
row f m c = record { field = f; matches = m; is_critical = c }

-- `if expected is not None`
abbrev pub row_if : Option Text → Row → List Row → List Row
row_if none r rs = rs
row_if (some t) r rs = r ∷ rs

unfoldable pub diff_matrix : ExpectedResult → Observation → List Row
diff_matrix e a =
    row payment_state (same_name e.expected_state a.actual_state) true
    ∷ row http_status (e.expected_http_status == a.actual_http_status) false
    ∷ row_if e.expected_policy_decision
        (row policy_decision (same_text e.expected_policy_decision a.actual_policy_decision) true)
        (row_if e.expected_outbox_event
          (row outbox_task (same_text e.expected_outbox_event a.actual_outbox_event) false)
          (row idempotence (same_flag e.expected_idempotent a.actual_idempotent) true
            ∷ row financial_mutation
                (same_flag e.expected_financial_mutation a.actual_financial_mutation) true
            ∷ []))

-- every row that does not match has its line in `discrepancies`
unfoldable pub discrepancies : List Row → List Row
discrepancies rs = filter (λ r. not r.matches) rs

abbrev pub verdict : Bool → Bool → TestStatus
verdict critical_failure any_failure =
    if critical_failure then fail else if any_failure then warning else pass

-- `evaluate_scenario_result`
unfoldable pub evaluate_scenario_result : ExpectedResult → Observation → TestStatus × List Row
evaluate_scenario_result e a =
    let rs = diff_matrix e a in
    let ds = discrepancies rs in
    (verdict (any (λ r. not r.matches) (filter (λ r. r.is_critical) rs)) (ltb 0 (length ds)), ds)

-- `check_test_environment_safety`; false is the exception
unfoldable pub check_test_environment_safety : Text → Bool
check_test_environment_safety environment = not (text_eq (lower environment) (codes "production"))

-- `validate_synthetic_id`
unfoldable pub validate_synthetic_id : Text → Bool
validate_synthetic_id [] = false
validate_synthetic_id (c ∷ s) =
    let lowered = lower (c ∷ s) in
    contains_text (codes "aitest") lowered
    || contains_text (codes "ai_test") lowered
    || contains_text (codes "sim") lowered
    || contains_text (codes "test") lowered
    || length (c ∷ s) == 36

unfoldable pub generate_synthetic_order_id : Text → Text
generate_synthetic_order_id hex = codes "order_aitest_" ++ hex

unfoldable pub generate_synthetic_payment_id : Text → Text
generate_synthetic_payment_id hex = codes "pay_aitest_" ++ hex

unfoldable pub generate_synthetic_event_id : Text → Text
generate_synthetic_event_id hex = codes "evt_aitest_" ++ hex
