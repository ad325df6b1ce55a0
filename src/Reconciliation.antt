-- ===== src/Reconciliation.antt =====
-- core/reconciliation.py: the comparison of the local record, the event history and the executions
-- with the evidence from the provider. Raising (an unsupported local currency, an amount that is no
-- number) is the error of domain/money.py. An anomaly's text is its constructor.
pub mod Agreement
pub mod Small
pub mod Verdicts
use resolver_ai.Prelude.{
  ℕ, Bool, true, false, ◌&&◌, ◌||◌, not, Option, none, some, List, [], ◌∷◌, ◌++◌, any, filter,
  length, ltb, ◌==◌, if◌then◌else◌, Text, codes, text_eq, truthy, text_or,
}
use resolver_ai.Domain.{PaymentState, DivergenceType}
use resolver_ai.Schemas.{IntentData}
use resolver_ai.Store.{Execution, is_successful_capture}
use resolver_ai.Money.{
  Result, ok, err, ◌>>=◌, Currency, Decimal, Numeric, finite, number, validate_currency,
  to_decimal_amount, minor_units_to_decimal, currency_code,
}

-- `api_evidence.get("amount")`
pub data RawAmount : Type 0 where
  missing : RawAmount
  int : ℕ → RawAmount
  other : Numeric → RawAmount

pub record ApiEvidence : Type 0 where
  pub status : Text
  pub id : Option Text
  pub payment_id : Option Text
  pub order_id : Option Text
  pub amount : RawAmount
  pub currency : Option Text

pub data Anomaly : Type 0 where
  currency_mismatch invalid_currency order_id_mismatch amount_mismatch : Anomaly
  duplicate_captures : ℕ → Anomaly
  state_conflict status_unknown : Anomaly

pub data Status : Type 0 where
  consistent inconsistent ambiguous : Status

pub record ReconciliationResult : Type 0 where
  pub status : Status
  pub is_reconciled : Bool
  pub divergence_type : DivergenceType
  pub anomalies : List Anomaly

-- `api_status in ("captured", "SUCCESS")` and its kin
unfoldable pub says_captured : Text → Bool
says_captured s = text_eq s (codes "captured") || text_eq s (codes "SUCCESS")

unfoldable pub says_pending : Text → Bool
says_pending s = text_eq s (codes "authorized") || text_eq s (codes "PENDING")

unfoldable pub says_failed : Text → Bool
says_failed s = text_eq s (codes "failed") || text_eq s (codes "FAILED")

unfoldable pub says_unknown : Text → Bool
says_unknown s = text_eq s (codes "UNKNOWN")

abbrev compare_currency : Currency → Result Currency → List Anomaly
compare_currency mine (ok c) =
    if text_eq (currency_code c) (currency_code mine) then [] else currency_mismatch ∷ []
compare_currency mine (err _) = invalid_currency ∷ []

-- the check of the external currency, if there is one
unfoldable pub check_currency : Currency → Option Text → List Anomaly
check_currency mine none = []
check_currency mine (some c) =
    if truthy (some c) then compare_currency mine (validate_currency c) else []

-- paise if an int above 100, a decimal amount otherwise
unfoldable pub read_amount : Text → Decimal → RawAmount → Result Decimal
read_amount currency mine missing = ok mine
read_amount currency mine (int n) =
    if ltb 100 n
    then minor_units_to_decimal false n currency
    else to_decimal_amount (number (finite false n 0))
read_amount currency mine (other v) = to_decimal_amount v

-- `==` on amounts that were both rounded to two places; a zero has no sign
unfoldable pub same_amount : Decimal → Decimal → Bool
same_amount (finite m a _) (finite n b _) = a == b && (a == 0 || (m && n) || (not m && not n))
same_amount _ _ = false

unfoldable pub order_differs : IntentData → Option Text → Bool
order_differs intent none = false
order_differs intent (some o) =
    truthy (some o)
    && truthy (some intent.order_id)
    && not (text_eq o intent.order_id)
    && not (truthy intent.razorpay_order_id)

-- `current_state in ("FAILED", "VOIDED")`; no state is named VOIDED
abbrev pub is_failed : PaymentState → Bool
is_failed PaymentState.failed = true
is_failed _ = false

-- what the checks found
pub record Findings : Type 0 where
  pub currency : List Anomaly
  pub identity : Bool
  pub amount : Bool
  pub captures : ℕ
  pub lost : Bool
  pub conflict : Bool

abbrev pub when : Bool → Anomaly → List Anomaly
when true a = a ∷ []
when false a = []

unfoldable pub anomalies_of : Findings → List Anomaly
anomalies_of f =
    f.currency
    ++ (when f.identity order_id_mismatch
        ++ (when f.amount amount_mismatch
            ++ (when (ltb 1 f.captures) (duplicate_captures f.captures)
                ++ when f.conflict state_conflict)))

abbrev pub is_empty : List Anomaly → Bool
is_empty [] = true
is_empty (_ ∷ _) = false

abbrev pub is_none : DivergenceType → Bool
is_none DivergenceType.none_found = true
is_none _ = false

abbrev pub is_none_or_lost : DivergenceType → Bool
is_none_or_lost DivergenceType.none_found = true
is_none_or_lost DivergenceType.lost_webhook = true
is_none_or_lost _ = false

-- the successive assignments to `divergence_type`
unfoldable pub divergence_of : Findings → DivergenceType
divergence_of f =
    let d0 =
      if is_empty f.currency then DivergenceType.none_found else DivergenceType.currency_mismatch in
    let d1 = if f.identity && is_none d0 then DivergenceType.payment_id_mismatch else d0 in
    let d2 = if f.amount && is_none d1 then DivergenceType.amount_mismatch else d1 in
    let d3 = if ltb 1 f.captures then DivergenceType.possible_duplicate_capture else d2 in
    let d4 = if f.lost && is_none d3 then DivergenceType.lost_webhook else d3 in
    if f.conflict && is_none_or_lost d4 then DivergenceType.conflicting_provider_state else d4

abbrev pub result : Status → Bool → DivergenceType → List Anomaly → ReconciliationResult
result s r d a = record { status = s; is_reconciled = r; divergence_type = d; anomalies = a }

-- step 5 and the three returns after it
unfoldable pub conclude : Text → Findings → ReconciliationResult
conclude api f =
    let anomalies = anomalies_of f in
    let d = divergence_of f in
    if is_empty anomalies && says_captured api
    then result consistent true d []
    else if is_empty anomalies && says_pending api
    then result consistent false d []
    else if is_empty anomalies && says_failed api
    then result consistent true d []
    else if ltb 1 f.captures
    then result inconsistent false DivergenceType.possible_duplicate_capture anomalies
    else if says_unknown api
    then result ambiguous false DivergenceType.unknown_provider_state
        (anomalies ++ (status_unknown ∷ []))
    else result inconsistent false (if is_none d then DivergenceType.manual_review_required else d)
        anomalies

unfoldable pub has_text : Text → List Text → Bool
has_text t ts = any (text_eq t) ts

-- the checks 1 to 4, with the amounts and the local currency converted
unfoldable pub examine :
    IntentData → List Text → ApiEvidence → List Execution → Currency → Decimal → Decimal → Findings
examine intent events api executions currency mine theirs = record {
  currency = check_currency currency api.currency;
  identity = order_differs intent (text_or api.order_id intent.razorpay_order_id);
  amount = not (same_amount theirs mine);
  captures = length (filter is_successful_capture executions);
  lost =
      says_captured api.status
      && not (has_text (codes "payment.captured") events)
      && not (has_text (codes "authorized") events);
  conflict = is_failed intent.current_state && says_captured api.status;
}

-- `ReconciliationEngine.reconcile`
unfoldable pub reconcile :
    IntentData → List Text → ApiEvidence → List Execution → Result ReconciliationResult
reconcile intent events api executions = do
  mine ← to_decimal_amount (number (finite false intent.amount 2))
  currency ← validate_currency intent.currency
  theirs ← read_amount (currency_code currency) mine api.amount
  ok (conclude api.status (examine intent events api executions currency mine theirs))
