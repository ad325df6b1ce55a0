-- ===== src/Tests/Amounts.antt =====
-- Conversions of amounts, and verdicts of the reconciliation engine, on the payment of the test data.
use resolver_ai.Prelude.{
  ℕ, ◌≡◌, refl, true, false, none, some, List, [], ◌∷◌, arith, codes, text_eq, upper, upper_code,
}
use resolver_ai.Domain.{PaymentState, DivergenceType, ExternalStatus}
use resolver_ai.Schemas.{IntentData, Key}
use resolver_ai.Money.{
  ok, ◌>>=◌, Currency, finite, number, validate_currency, to_decimal_amount, minor_units_to_decimal,
  decimal_to_minor_units, quantize, round_half_up, is_space, lstrip, rstrip, find_currency,
  is_zero_decimal,
}
use resolver_ai.Money.Rounding.{minor_units_roundtrip}
use resolver_ai.Reconciliation.{
  ApiEvidence, int, duplicate_captures, consistent, inconsistent, ReconciliationResult, reconcile,
  same_amount, says_captured, says_failed, examine, conclude, read_amount, anomalies_of,
  divergence_of, says_pending, says_unknown, check_currency, order_differs, has_text,
  amount_mismatch,
}
use resolver_ai.Reconciliation.Verdicts.{duplicate_captures_flagged}
use resolver_ai.Reconciliation.Agreement.{Agrees, reconciled_needs_agreement}
use resolver_ai.Store.{Operation, Execution}
use resolver_ai.Resolver.Stages.{load_intent}
use resolver_ai.Tests.Data.{intent_in}

supported : validate_currency (codes "JPY") ≡ ok Currency.jpy
unfolding validate_currency lstrip rstrip find_currency text_eq upper is_space
supported = refl

minor_units_roundtrip_example :
    (minor_units_to_decimal false 1234 (codes "JPY") >>= λ d.
    decimal_to_minor_units d (codes "JPY"))
    ≡ ok 1234
minor_units_roundtrip_example =
    minor_units_roundtrip 1234 (codes "JPY") Currency.jpy supported (omega arith)

-- 10.235 is rounded to 10.24
half_up : to_decimal_amount (number (finite false 10235 3)) ≡ ok (finite false 1024 2)
unfolding to_decimal_amount quantize round_half_up
half_up = refl

abbrev captured_for : ℕ → ApiEvidence
captured_for n = record {
  status = codes "captured";
  id = some (codes "pay_1");
  payment_id = none;
  order_id = some (codes "order_1");
  amount = int n;
  currency = some (codes "INR");
}

abbrev capture_number : ℕ → Execution
capture_number n = record {
  intent = 7;
  operation = Operation.capture;
  amount = 50000;
  status = ExternalStatus.success;
  key = Key.exec n;
}

abbrev two_captures : List Execution
two_captures = capture_number 1 ∷ capture_number 2 ∷ []

abbrev verdict_duplicate : ReconciliationResult
verdict_duplicate = record {
  status = inconsistent;
  is_reconciled = false;
  divergence_type = DivergenceType.possible_duplicate_capture;
  anomalies = duplicate_captures 2 ∷ [];
}

reconcile-two_captures :
    reconcile (intent_in PaymentState.captured) [] (captured_for 50000) two_captures
    ≡ ok verdict_duplicate
unfolding reconcile validate_currency lstrip rstrip find_currency text_eq upper upper_code is_space
    to_decimal_amount quantize round_half_up load_intent examine conclude read_amount anomalies_of
    divergence_of says_captured says_failed says_pending says_unknown check_currency order_differs
    has_text same_amount minor_units_to_decimal is_zero_decimal
reconcile-two_captures = refl

duplicate_captures_flagged_example :
    (verdict_duplicate.status ≡ inconsistent)
    × (verdict_duplicate.is_reconciled ≡ false)
    × (verdict_duplicate.divergence_type ≡ DivergenceType.possible_duplicate_capture)
duplicate_captures_flagged_example =
    duplicate_captures_flagged (intent_in PaymentState.captured) [] (captured_for 50000)
      two_captures verdict_duplicate reconcile-two_captures (omega arith)

abbrev verdict_agreed : ReconciliationResult
verdict_agreed = record {
  status = consistent;
  is_reconciled = true;
  divergence_type = DivergenceType.lost_webhook;
  anomalies = [];
}

reconcile-agreed :
    reconcile (intent_in PaymentState.uncertain) [] (captured_for 50000) (capture_number 1 ∷ [])
    ≡ ok verdict_agreed
unfolding reconcile validate_currency lstrip rstrip find_currency text_eq upper upper_code is_space
    to_decimal_amount quantize round_half_up load_intent examine conclude read_amount anomalies_of
    divergence_of says_captured says_failed says_pending says_unknown check_currency order_differs
    has_text same_amount minor_units_to_decimal is_zero_decimal
reconcile-agreed = refl

reconciled_needs_agreement_example :
    Agrees
      (intent_in PaymentState.uncertain)
      (captured_for 50000)
      (capture_number 1 ∷ [])
      verdict_agreed
reconciled_needs_agreement_example =
    reconciled_needs_agreement (intent_in PaymentState.uncertain) [] (captured_for 50000)
      (capture_number 1 ∷ []) verdict_agreed reconcile-agreed refl

-- 0.75 INR, which the provider reports as 75 minor units
abbrev small_intent : IntentData
small_intent = record (intent_in PaymentState.uncertain) { amount = 75 }

abbrev verdict_small : ReconciliationResult
verdict_small = record {
  status = inconsistent;
  is_reconciled = false;
  divergence_type = DivergenceType.amount_mismatch;
  anomalies = amount_mismatch ∷ [];
}

reconcile-small : reconcile small_intent [] (captured_for 75) [] ≡ ok verdict_small
unfolding reconcile validate_currency lstrip rstrip find_currency text_eq upper upper_code is_space
    to_decimal_amount quantize round_half_up load_intent examine conclude read_amount anomalies_of
    divergence_of says_captured says_failed says_pending says_unknown check_currency order_differs
    has_text same_amount minor_units_to_decimal is_zero_decimal
reconcile-small = refl
