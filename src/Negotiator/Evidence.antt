-- ===== src/Negotiator/Evidence.antt =====
-- What agents/negotiator.py does at the provider, and what its evidence leads to.
use resolver_ai.Prelude.{
  ℕ, ◌*◌, ◌<◌, ◌≡◌, refl, ◌≢◌, inl, inr, Bool, Option, none, some, arith, Bool-cases, Text, codes,
  text_eq_iff, upper,
}
use resolver_ai.Domain.{DecisionType, ExternalStatus}
use resolver_ai.Schemas.{IntentData, DetectiveResult, Payment, Key}
use resolver_ai.Policy.{evaluate}
use resolver_ai.Policy.Gate.{approve-iff-IsAdmissible}
use resolver_ai.Provider.{Api, ok, api_error, crash, Provider, Outside, Mode, is_real}
use resolver_ai.Negotiator.{
  api_status, from_payment, lookup_payment, verify_on_rail, from_lookup, verify,
}

verify_on_rail-sent :
    (lucky : Text → Bool) (hex : Text) (intent : IntentData) (k : Key) (w : Outside)
    → (verify_on_rail lucky hex intent k w).0.sent ≡ w.sent
unfolding verify_on_rail
verify_on_rail-sent lucky hex intent k w = refl

from_lookup-sent :
    (lucky : Text → Bool) (hex : Text) (intent : IntentData) (k : Key) (w : Outside)
    (a : Api (Option Payment))
    → (from_lookup lucky hex intent k w a).0.sent ≡ w.sent
from_lookup-sent lucky hex intent k w (ok none) = verify_on_rail-sent lucky hex intent k w
from_lookup-sent lucky hex intent k w (ok (some p)) = refl
from_lookup-sent lucky hex intent k w api_error = refl
from_lookup-sent lucky hex intent k w crash = refl

module _ (mode : Mode) (p : Provider) (lucky : Text → Bool) (hex : Text) (intent : IntentData)
    (k : Key) (w : Outside) where
  -- Gathering evidence sends no mutation request, in any mode and on every error path.
  pub verify_sends_nothing : (verify mode p lucky hex intent k w).0.sent ≡ w.sent
  unfolding verify
  verify_sends_nothing = elim (Bool-cases (is_real mode)) [
    | inl q ↦ rw q (from_lookup-sent lucky hex intent k w (lookup_payment p intent w))
    | inr q ↦ rw q (verify_on_rail-sent lucky hex intent k w)
  ]

api_status-success : (s : Text) → api_status s ≡ ExternalStatus.success → upper s ≡ codes "CAPTURED"
unfolding api_status
api_status-success s h = ground (arith, text_eq_iff (upper s) (codes "CAPTURED"))

-- For a currency without minor units the evidence never passes the gate: where a payment of `units`
-- whole units is recorded as `units * 100` hundredths, as domain/money.py converts it, the evidence
-- divides the provider's `units` by 100 all the same, and the amounts differ.
pub zero_decimal_never_approved :
    (n units : ℕ) (intent : IntentData) (p : Payment) (det : DetectiveResult)
    → 0 < units
    → p.amount ≡ some units
    → intent.amount ≡ units * 100
    → (evaluate n intent (from_payment intent p) det).decision ≢ DecisionType.approve
unfolding from_payment
zero_decimal_never_approved n units intent p det pos paid stored approved =
    let a = (approve-iff-IsAdmissible n intent (from_payment intent p) det).0 approved in
    ground (arith, a.same_amount)
