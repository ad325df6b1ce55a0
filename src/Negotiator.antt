-- ===== src/Negotiator.antt =====
-- agents/negotiator.py and agents/evidence_agent.py: the evidence on a payment's external status,
-- from the provider's read-only API or from the synthetic rail. The resolver passes no chaos mode.
pub mod Evidence
use resolver_ai.Prelude.{
  ℕ, Bool, Option, none, some, List, [], ◌∷◌, ◌==◌, if◌then◌else◌, Text, codes, text_eq, upper,
  truthy, text_or,
}
use resolver_ai.Domain.{ExternalStatus}
use resolver_ai.Schemas.{IntentData, NegotiatorResult, Payment, Key}
use resolver_ai.Rail
use resolver_ai.Rail.{RailStatus}
use resolver_ai.Provider.{
  Api, ok, api_error, crash, Provider, Outside, Mode, is_real, Outcome, returned, raised,
}

-- the status map of path A, on the upper-cased status
unfoldable pub api_status : Text → ExternalStatus
api_status s =
    let u = upper s in
    if text_eq u (codes "CAPTURED")
    then ExternalStatus.success
    else if text_eq u (codes "AUTHORIZED")
    then ExternalStatus.authorized
    else if text_eq u (codes "FAILED")
    then ExternalStatus.failed
    else if text_eq u (codes "REFUNDED")
    then ExternalStatus.refunded
    else ExternalStatus.unknown

-- the status map of path B
unfoldable pub rail_status : RailStatus → ExternalStatus
rail_status RailStatus.success = ExternalStatus.success
rail_status RailStatus.failed = ExternalStatus.failed
rail_status RailStatus.unknown = ExternalStatus.unknown
rail_status RailStatus.voided = ExternalStatus.voided
rail_status RailStatus.refunded = ExternalStatus.refunded
rail_status RailStatus.duplicate = ExternalStatus.duplicate
rail_status _ = ExternalStatus.unknown

-- `Decimal(str(x)) / 100 if x else amount`: minor units are hundredths
abbrev pub amount_or : ℕ → Option ℕ → ℕ
amount_or d none = d
amount_or d (some n) = if n == 0 then d else n

abbrev currency_or : Text → Option Text → Text
currency_or d none = d
currency_or d (some c) = c

-- the result from a payment entity
unfoldable pub from_payment : IntentData → Payment → NegotiatorResult
unfolding api_status
from_payment intent p = record {
  external_status = api_status p.status;
  external_transaction_id = p.id;
  razorpay_order_id = text_or p.order_id intent.razorpay_order_id;
  amount = amount_or intent.amount p.amount;
  currency = currency_or intent.currency p.currency;
  rail = codes "RAZORPAY_API";
  verification_details = some p;
}

-- the result after a RazorpayAPIError
unfoldable pub no_evidence : IntentData → NegotiatorResult
no_evidence intent = record {
  external_status = ExternalStatus.unknown;
  external_transaction_id = none;
  razorpay_order_id = none;
  amount = intent.amount;
  currency = intent.currency;
  rail = codes "RAZORPAY_API";
  verification_details = none;
}

abbrev first_payment : Api (List Payment) → Api (Option Payment)
first_payment (ok []) = ok none
first_payment (ok (p ∷ _)) = ok (some p)
first_payment api_error = api_error
first_payment crash = crash

abbrev by_order : Provider → Outside → Option Text → Api (Option Payment)
by_order p w none = ok none
by_order p w (some o) =
    if truthy (some o) then first_payment (p.get_order_payments w.sent o) else ok none

abbrev by_payment : Provider → Outside → Option Text → Option Text → Api (Option Payment)
by_payment p w none order = by_order p w order
by_payment p w (some id) order =
    if truthy (some id) then p.get_payment w.sent id else by_order p w order

-- the read-only lookup of path A
unfoldable pub lookup_payment : Provider → IntentData → Outside → Api (Option Payment)
lookup_payment p intent w = by_payment p w intent.active_payment_id intent.razorpay_order_id

-- path B
unfoldable pub verify_on_rail :
    (Text → Bool) → Text → IntentData → Key → Outside → Outside × NegotiatorResult
unfolding rail_status
verify_on_rail lucky hex intent key w =
    let (rail', res) = Rail.authorize none (lucky intent.rail) hex intent.amount key w.rail in
    (
      record w { rail = rail' },
      record {
        external_status = rail_status res.status;
        external_transaction_id = res.txn_id;
        razorpay_order_id = none;
        amount = intent.amount;
        currency = intent.currency;
        rail = intent.rail;
        verification_details = none;
      },
    )

abbrev returning : {A : Type 0} → Outside × A → Outside × Outcome A
returning (w, a) = (w, returned a)

abbrev from_lookup :
    (Text → Bool)
    → Text
    → IntentData
    → Key
    → Outside
    → Api (Option Payment)
    → Outside × Outcome NegotiatorResult
from_lookup lucky hex intent key w (ok (some p)) = (w, returned (from_payment intent p))
from_lookup lucky hex intent key w (ok none) = returning (verify_on_rail lucky hex intent key w)
from_lookup lucky hex intent key w api_error = (w, returned (no_evidence intent))
from_lookup lucky hex intent key w crash = (w, raised)

-- `verify`; `lucky` is the rail's draw for each rail name and `hex` a fresh id
unfoldable pub verify :
    Mode
    → Provider
    → (Text → Bool)
    → Text
    → IntentData
    → Key
    → Outside
    → Outside × Outcome NegotiatorResult
verify mode p lucky hex intent key w =
    if is_real mode
    then from_lookup lucky hex intent key w (lookup_payment p intent w)
    else returning (verify_on_rail lucky hex intent key w)
