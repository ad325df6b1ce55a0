-- ===== src/Webhook.antt =====
-- api/webhook_receiver.py and razorpay/webhooks.py: the receiver of the provider's events. The hash,
-- the digest, the parse of the body and the uuids are parameters; amounts are not negative.
pub mod Handling
pub mod Redelivery
pub mod Upsert
use resolver_ai.Prelude.{
  ℕ, Bool, false, ◌||◌, ◌&&◌, not, Option, none, some, List, [], ◌∷◌, ◌++◌, any, ◌==◌,
  if◌then◌else◌, Text, codes, text_eq, text_or, truthy, lower,
}
use resolver_ai.Money.{Decimal, finite}
use resolver_ai.Idempotency.{EventKey, Entry}
use resolver_ai.Store.{Db}

-- the entities of the body, as far as they are read
pub record Payload : Type 0 where
  pub event : Text
  pub event_id : Option Text
  pub payment_id : Option Text
  pub refund_payment_id : Option Text
  pub payment_order_id : Option Text
  pub order_entity_id : Option Text
  pub merchant_id : Option Text
  pub merchant_reference : Option Text
  pub merchant_order_id : Option Text
  pub noted_intent : Option Text
  pub payment_amount : ℕ
  pub order_amount : ℕ
  pub refund_amount : ℕ
  pub payment_currency : Option Text
  pub order_currency : Option Text

pub record Delivery : Type 0 where
  pub body : Text
  pub signature : Option Text
  pub event_id : Option Text

-- the configuration, the services and the fresh values of one delivery
pub record Receiver : Type 0 where
  pub digest : Text → Text → Text
  pub secret : Text
  pub is_production : Bool
  pub parse : Text → Option Payload
  pub hash : Text → Text
  pub intent_named : Text → ℕ
  pub intent_derived : Text → ℕ
  pub fresh_order : Text
  pub fresh_event : Text
  pub fresh_task : ℕ
  pub now : ℕ
  pub redis_reply : Option (Option Text)
  pub written_to_redis : Bool

pub record Site : Type 0 where
  pub db : Db
  pub marks : List Entry

pub data Answer : Type 0 where
  unauthorized bad_request failed conflict duplicate_in_redis duplicate_in_db : Answer
  recorded accepted : ℕ → Answer

-- `verify_webhook_signature`; `none` is the exception of a production without a secret
unfoldable pub verify_webhook_signature : Receiver → Text → Option Text → Option Bool
verify_webhook_signature h body none =
    if truthy (some h.secret) || not h.is_production then some false else none
verify_webhook_signature h body (some sig) =
    if not (truthy (some h.secret))
    then if h.is_production then none else some false
    else some (truthy (some sig) && text_eq (lower (h.digest h.secret body)) (lower sig))

abbrev listed : List Text
listed =
    codes "payment.authorized"
    ∷ codes "payment.captured"
    ∷ codes "payment.failed"
    ∷ codes "payment.dispute.created"
    ∷ codes "payment.dispute.won"
    ∷ codes "payment.dispute.lost"
    ∷ codes "refund.created"
    ∷ codes "refund.failed"
    ∷ codes "refund.processed"
    ∷ codes "payment.refunded"
    ∷ codes "payout.initiated"
    ∷ codes "payout.processed"
    ∷ codes "payout.reversed"
    ∷ []

-- WEBHOOK_FLOW_MAP
unfoldable pub is_supported : Text → Bool
is_supported e = any (text_eq e) listed

unfoldable pub event_type_of : Text → Text
event_type_of e =
    if text_eq e (codes "payment.refunded")
    then codes "refund.processed"
    else if is_supported e
    then e
    else codes "UNSUPPORTED_" ++ e

abbrev pub or_text : Text → Option Text → Text
or_text d none = d
or_text d (some t) = if truthy (some t) then t else d

-- `a or b` on amounts
abbrev pub first_positive : ℕ → ℕ → ℕ
first_positive a b = if a == 0 then b else a

abbrev pub hundredths : Decimal → ℕ
hundredths (finite neg c s) = c
hundredths _ = 0

abbrev pub source : Text
source = codes "RAZORPAY"

abbrev pub order_of : Payload → Option Text
order_of p = text_or p.payment_order_id p.order_entity_id

unfoldable pub order_ref : Receiver → Payload → Text
order_ref h p =
    or_text (or_text h.fresh_order (text_or p.merchant_reference p.merchant_order_id)) (order_of p)

unfoldable pub external_event_id : Receiver → Delivery → Payload → Text
external_event_id h d p = or_text (or_text h.fresh_event p.event_id) d.event_id

abbrev pub event_key : Text → EventKey
event_key ext = record { source = source; event = ext }
