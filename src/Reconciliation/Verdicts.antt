-- ===== src/Reconciliation/Verdicts.antt =====
-- What a verdict of the reconciliation engine rests on.
use resolver_ai.Prelude.{
  ◌<◌, ◌≡◌, refl, ◌⊎◌, true, false, ◌&&◌, not, List, [], ◌∷◌, ◌++◌, arith, ltb, Text, length,
  filter,
}
use resolver_ai.Domain.{DivergenceType}
use resolver_ai.Schemas.{IntentData}
use resolver_ai.Store.{Execution, is_successful_capture}
use resolver_ai.Money.{
  ok, >>=-returns, Currency, Decimal, finite, number, validate_currency, to_decimal_amount,
  currency_code,
}
use resolver_ai.Reconciliation.{
  ApiEvidence, Anomaly, consistent, inconsistent, ReconciliationResult, says_captured, says_failed,
  read_amount, Findings, anomalies_of, divergence_of, conclude, examine, reconcile, is_empty, when,
  order_id_mismatch, amount_mismatch, duplicate_captures, state_conflict,
}

is_empty-append : (xs ys : List Anomaly) → is_empty (xs ++ ys) ≡ (is_empty xs && is_empty ys)
is_empty-append [] ys = refl
is_empty-append (_ ∷ _) ys = refl

-- no anomaly is listed exactly if no check found one
pub anomalies_of-is_empty :
    (f : Findings)
    → is_empty (anomalies_of f) ≡ (
        is_empty f.currency
        && not f.identity
        && not f.amount
        && not (ltb 1 f.captures)
        && not f.conflict)
unfolding anomalies_of
anomalies_of-is_empty f =
    let rest =
      when f.identity order_id_mismatch
      ++ (when f.amount amount_mismatch
          ++ (when (ltb 1 f.captures) (duplicate_captures f.captures)
              ++ when f.conflict state_conflict)) in
    rw (is_empty-append f.currency rest) (ground arith)

divergence_of-captures :
    (f : Findings) → 1 < f.captures → divergence_of f ≡ DivergenceType.possible_duplicate_capture
unfolding divergence_of
divergence_of-captures f h = ground arith

conclude-duplicates :
    (api : Text) (f : Findings)
    → 1 < f.captures
    → ((conclude api f).status ≡ inconsistent)
      × ((conclude api f).is_reconciled ≡ false)
      × ((conclude api f).divergence_type ≡ DivergenceType.possible_duplicate_capture)
unfolding conclude
conclude-duplicates api f h = ground (arith, anomalies_of-is_empty f)

pub conclude-reconciled :
    (api : Text) (f : Findings)
    → (conclude api f).is_reconciled ≡ true
    → ((conclude api f).status ≡ consistent)
      × (is_empty (anomalies_of f) ≡ true)
      × ((says_captured api ≡ true) ⊎ (says_failed api ≡ true))
unfolding conclude
conclude-reconciled api f h = ground arith

-- what `reconcile` returns comes from findings on converted amounts
pub reconcile-inversion :
    (intent : IntentData) (events : List Text) (api : ApiEvidence) (es : List Execution)
    (r : ReconciliationResult)
    → reconcile intent events api es ≡ ok r
    → (currency : Currency) × (mine : Decimal) × (theirs : Decimal) × (to_decimal_amount
          (number (finite false intent.amount 2))
        ≡ ok mine)
      × (validate_currency intent.currency ≡ ok currency)
      × (read_amount (currency_code currency) mine api.amount ≡ ok theirs)
      × (r ≡ conclude api.status (examine intent events api es currency mine theirs))
unfolding reconcile
reconcile-inversion intent events api es r h =
    let (mine, em, h1) =
      >>=-returns (to_decimal_amount (number (finite false intent.amount 2))) _ h in
    let (currency, ec, h2) = >>=-returns (validate_currency intent.currency) _ h1 in
    let (theirs, et, h3) =
      >>=-returns (read_amount (currency_code currency) mine api.amount) _ h2 in
    (currency, mine, theirs, em, ec, et, ground arith)

-- Two successful captures of one intent are never explained away: whatever the provider says, the
-- verdict is INCONSISTENT, not reconciled and a possible duplicate capture.
pub duplicate_captures_flagged :
    (intent : IntentData) (events : List Text) (api : ApiEvidence) (es : List Execution)
    (r : ReconciliationResult)
    → reconcile intent events api es ≡ ok r
    → 1 < length (filter is_successful_capture es)
    → (r.status ≡ inconsistent)
      × (r.is_reconciled ≡ false)
      × (r.divergence_type ≡ DivergenceType.possible_duplicate_capture)
unfolding examine
duplicate_captures_flagged intent events api es r h many =
    let (currency, mine, theirs, _, _, _, e) = reconcile-inversion intent events api es r h in
    rw e (conclude-duplicates api.status (examine intent events api es currency mine theirs) many)
