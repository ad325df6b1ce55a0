-- ===== src/Reconciliation/Agreement.antt =====
-- What a payment that is reported as reconciled agrees on, in terms of the records alone.
use resolver_ai.Prelude.{
  ◌≤◌, ◌≡◌, refl, ap, ◌≢◌, ◌⊎◌, inl, inr, true, false, ◌&&◌, Option, none, some, List, [], ◌∷◌,
  arith, Bool-cases, Text, codes, text_eq, text_eq_sound, text_or, truthy, length, filter,
}
use resolver_ai.Domain.{PaymentState}
use resolver_ai.Schemas.{IntentData}
use resolver_ai.Store.{Execution, is_successful_capture}
use resolver_ai.Money.{
  Result, ok, err, Currency, Decimal, finite, nan, infinite, number, validate_currency,
  to_decimal_amount, currency_code,
}
use resolver_ai.Reconciliation.{
  ApiEvidence, consistent, ReconciliationResult, says_captured, says_failed, read_amount,
  same_amount, Findings, anomalies_of, conclude, examine, reconcile, is_empty, is_failed,
  check_currency, compare_currency, order_differs,
}
use resolver_ai.Reconciliation.Verdicts.{
  reconcile-inversion, anomalies_of-is_empty, conclude-reconciled,
}

-- the provider names no currency, or one that is read as the local one
abbrev pub CurrencyAgrees : Currency → Option Text → Type 0
CurrencyAgrees mine none = Unit
CurrencyAgrees mine (some t) = (t ≡ []) ⊎ (validate_currency t ≡ ok mine)

-- the same number of hundredths, with the same sign unless it is zero
abbrev pub SameNumber : Decimal → Decimal → Type 0
SameNumber (finite m a _) (finite n b _) = (a ≡ b) × ((a ≡ 0) ⊎ (m ≡ n))
SameNumber _ _ = ⊥

-- the order id of the provider is the local one, where both are there and there is no id of an order at
-- the provider on the local row
abbrev pub OrderAgrees : IntentData → ApiEvidence → Type 0
OrderAgrees intent api =
    (truthy intent.razorpay_order_id ≡ true)
    ⊎ (intent.order_id ≡ [])
    ⊎ (truthy api.order_id ≡ false)
    ⊎ (api.order_id ≡ some intent.order_id)

currency_code_sound : (c d : Currency) → text_eq (currency_code c) (currency_code d) ≡ true → c ≡ d
unfolding text_eq
currency_code_sound c d h = ground arith

compare_currency-agrees :
    (mine : Currency) (t : Text) (x : Result Currency)
    → validate_currency t ≡ x
    → is_empty (compare_currency mine x) ≡ true
    → validate_currency t ≡ ok mine
compare_currency-agrees mine t (err e) h k = ground arith
compare_currency-agrees mine t (ok c) h k =
    elim (Bool-cases (text_eq (currency_code c) (currency_code mine))) [
      | inl e ↦ let same = currency_code_sound c mine e in (cc)
      | inr e ↦ absurd (ground arith)
    ]

check_currency-agrees :
    (mine : Currency) (o : Option Text)
    → is_empty (check_currency mine o) ≡ true
    → CurrencyAgrees mine o
unfolding check_currency
check_currency-agrees mine none h = tt
check_currency-agrees mine (some []) h = inl refl
check_currency-agrees mine (some (x ∷ t)) h =
    inr (compare_currency-agrees mine (x ∷ t) (validate_currency (x ∷ t)) refl h)

same_amount-SameNumber : (d e : Decimal) → same_amount d e ≡ true → SameNumber d e
unfolding same_amount
same_amount-SameNumber (finite true a s) (finite true b t) h = (ground arith, inr refl)
same_amount-SameNumber (finite false a s) (finite false b t) h = (ground arith, inr refl)
same_amount-SameNumber (finite true a s) (finite false b t) h = (ground arith, inl (ground arith))
same_amount-SameNumber (finite false a s) (finite true b t) h = (ground arith, inl (ground arith))
same_amount-SameNumber nan e h = ground arith
same_amount-SameNumber (infinite n) e h = ground arith
same_amount-SameNumber (finite m a s) nan h = ground arith
same_amount-SameNumber (finite m a s) (infinite n) h = ground arith

order_differs-agrees :
    (intent : IntentData) (o mine : Option Text) (order : Text)
    → intent.razorpay_order_id ≡ mine
    → intent.order_id ≡ order
    → order_differs intent (text_or o mine) ≡ false
    → (truthy mine ≡ true) ⊎ (order ≡ []) ⊎ (truthy o ≡ false) ⊎ (o ≡ some order)
unfolding order_differs
order_differs-agrees intent o (some (x ∷ t)) order a b h = inl refl
order_differs-agrees intent o mine [] a b h = inr (inl refl)
order_differs-agrees intent none mine (y ∷ u) a b h = inr (inr (inl refl))
order_differs-agrees intent (some []) mine (y ∷ u) a b h = inr (inr (inl refl))
order_differs-agrees intent (some (z ∷ v)) none (y ∷ u) a b h =
    elim (Bool-cases (text_eq (z ∷ v) (y ∷ u))) [
      | inl e ↦ inr (inr (inr (ap some (text_eq_sound (z ∷ v) (y ∷ u) e))))
      | inr e ↦ absurd (ground arith)
    ]
order_differs-agrees intent (some (z ∷ v)) (some []) (y ∷ u) a b h =
    elim (Bool-cases (text_eq (z ∷ v) (y ∷ u))) [
      | inl e ↦ inr (inr (inr (ap some (text_eq_sound (z ∷ v) (y ∷ u) e))))
      | inr e ↦ absurd (ground arith)
    ]

-- the statuses of a definite end
abbrev pub IsCaptured : Text → Type 0
IsCaptured t = (t ≡ codes "captured") ⊎ (t ≡ codes "SUCCESS")

abbrev pub IsFailed : Text → Type 0
IsFailed t = (t ≡ codes "failed") ⊎ (t ≡ codes "FAILED")

says_captured_sound : (t : Text) → says_captured t ≡ true → IsCaptured t
unfolding says_captured
says_captured_sound t h =
    ground (arith, text_eq_sound t (codes "captured"), text_eq_sound t (codes "SUCCESS"))

says_failed_sound : (t : Text) → says_failed t ≡ true → IsFailed t
unfolding says_failed
says_failed_sound t h =
    ground (arith, text_eq_sound t (codes "failed"), text_eq_sound t (codes "FAILED"))

-- a provider's capture is no conflict
calm_state :
    (s : PaymentState) (t : Text)
    → (says_captured t ≡ true) ⊎ (says_failed t ≡ true)
    → (is_failed s && says_captured t) ≡ false
    → ((s ≢ PaymentState.failed) × IsCaptured t) ⊎ IsFailed t
calm_state s t (inr k) h = inr (says_failed_sound t k)
calm_state s t (inl k) h = inl ((λ e. ground arith), says_captured_sound t k)

-- What the records agree on.
pub record Agrees (intent : IntentData) (api : ApiEvidence) (es : List Execution)
    (r : ReconciliationResult) : Type 0 where
  pub consistently : r.status ≡ consistent
  pub no_anomaly : r.anomalies ≡ []
  pub definite :
      ((intent.current_state ≢ PaymentState.failed) × IsCaptured api.status) ⊎ IsFailed api.status
  pub one_capture : length (filter is_successful_capture es) ≤ 1
  pub currency : Currency
  pub mine : Decimal
  pub theirs : Decimal
  pub local_currency : validate_currency intent.currency ≡ ok currency
  pub local_amount : to_decimal_amount (number (finite false intent.amount 2)) ≡ ok mine
  pub read : read_amount (currency_code currency) mine api.amount ≡ ok theirs
  pub same_currency : CurrencyAgrees currency api.currency
  pub same_number : SameNumber theirs mine
  pub same_order : OrderAgrees intent api

conclude-anomalies :
    (api : Text) (f : Findings)
    → (conclude api f).is_reconciled ≡ true
    → (conclude api f).anomalies ≡ []
unfolding conclude
conclude-anomalies api f h = ground arith

no_findings :
    (f : Findings)
    → is_empty (anomalies_of f) ≡ true
    → (is_empty f.currency ≡ true)
      × (f.identity ≡ false)
      × (f.amount ≡ false)
      × (f.captures ≤ 1)
      × (f.conflict ≡ false)
no_findings f h = ground (arith, anomalies_of-is_empty f)

-- A payment is reconciled only with the verdict CONSISTENT and no anomaly, by a provider status of
-- success, the intent not FAILED, or of failure; with at most one successful capture; and the provider's
-- currency, amount, as it is read in the local currency, and order id agree with the local ones, where
-- the provider gives them (the order id: where there is no id of an order at the provider on the row).
pub reconciled_needs_agreement :
    (intent : IntentData) (events : List Text) (api : ApiEvidence) (es : List Execution)
    (r : ReconciliationResult)
    → reconcile intent events api es ≡ ok r
    → r.is_reconciled ≡ true
    → Agrees intent api es r
unfolding examine
reconciled_needs_agreement intent events api es r h reconciled =
    let (currency, mine, theirs, em, ec, et, e) = reconcile-inversion intent events api es r h in
    let f = examine intent events api es currency mine theirs in
    let yes : (conclude api.status f).is_reconciled ≡ true = rw e at reconciled in
    let (s, none_found, definite) = conclude-reconciled api.status f yes in
    let (coin, known, same, few, calm) = no_findings f none_found in
    record {
      consistently = rw e s;
      no_anomaly = rw e (conclude-anomalies api.status f yes);
      definite = calm_state intent.current_state api.status definite calm;
      one_capture = few;
      currency = currency;
      mine = mine;
      theirs = theirs;
      local_currency = ec;
      local_amount = em;
      read = et;
      same_currency = check_currency-agrees currency api.currency coin;
      same_number = same_amount-SameNumber theirs mine (ground arith);
      same_order =
          order_differs-agrees intent api.order_id intent.razorpay_order_id intent.order_id refl
            refl known;
    }
