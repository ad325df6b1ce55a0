-- ===== src/Tests/Deliveries.antt =====
-- Deliveries of events for the payment of the test data.
use resolver_ai.Prelude.{
  ℕ, ◌≡◌, refl, inl, upper, upper_code, lower, lower_code, true, none, some, [], ◌∷◌, arith, Text,
  codes, text_eq, if◌then◌else◌,
}
use resolver_ai.Domain.{PaymentState}
use resolver_ai.Money.{ok, Currency, validate_currency, lstrip, rstrip, find_currency, is_space}
use resolver_ai.Idempotency.{Dedup, verify_idempotency_payload}
use resolver_ai.Store.{Intent, Event, get_intent, has_event}
use resolver_ai.Webhook.{
  Payload, Delivery, Receiver, Site, Answer, source, external_event_id, order_ref,
  verify_webhook_signature, or_text, event_key,
}
use resolver_ai.Webhook.Handling.{persist, handle_razorpay_webhook, target_intent, intent_of_order}
use resolver_ai.Webhook.Redelivery.{OnRecord, redelivery_changes_nothing, zero_amount_is_lost}
use resolver_ai.Webhook.Upsert.{delivered_state}
use resolver_ai.Tests.Data.{db_with, row_in}

abbrev payload : Text → ℕ → Payload
payload event amount = record {
  event = event;
  event_id = none;
  payment_id = some (codes "pay_1");
  refund_payment_id = none;
  payment_order_id = some (codes "order_1");
  order_entity_id = none;
  merchant_id = none;
  merchant_reference = none;
  merchant_order_id = none;
  noted_intent = none;
  payment_amount = amount;
  order_amount = 0;
  refund_amount = 0;
  payment_currency = some (codes "INR");
  order_currency = none;
}

abbrev delivery : Delivery
delivery = record {
  body = codes "{}";
  signature = some (codes "sig");
  event_id = some (codes "evt_1");
}

abbrev receiver_of : Payload → Receiver
receiver_of p = record {
  digest = λ secret body. codes "SIG";
  secret = codes "secret";
  is_production = true;
  parse = λ body. some p;
  hash = λ body. codes "h";
  intent_named = λ t. 8;
  intent_derived = λ t. 9;
  fresh_order = codes "ORD_1";
  fresh_event = codes "evt_2";
  fresh_task = 21;
  now = 2000;
  redis_reply = none;
  written_to_redis = true;
}

abbrev failed_event : Payload
failed_event = payload (codes "payment.failed") 50000

abbrev settled_site : Site
settled_site = record { db = db_with (row_in PaymentState.captured); marks = [] }

abbrev known_event : Event
known_event = record {
  intent = 7;
  source = source;
  external_event_id = codes "evt_1";
  event_type = codes "payment.captured";
}

abbrev known_site : Site
known_site = record settled_site { db = record settled_site.db { events = known_event ∷ [] } }

known-OnRecord : OnRecord (receiver_of failed_event) delivery known_site
unfolding has_event external_event_id text_eq
known-OnRecord p e = refl

redelivery_changes_nothing_example :
    (handle_razorpay_webhook (receiver_of failed_event) delivery known_site).0.db ≡ known_site.db
redelivery_changes_nothing_example =
    redelivery_changes_nothing (receiver_of failed_event) delivery known_site known-OnRecord

abbrev payout : Payload
payout = payload (codes "payout.processed") 0

-- the redelivery draws other fresh values
abbrev second_receiver : Receiver
second_receiver = record (receiver_of payout) { fresh_event = codes "evt_3"; fresh_task = 22 }

payout-signed :
    verify_webhook_signature (receiver_of payout) delivery.body delivery.signature ≡ some true
unfolding verify_webhook_signature text_eq lower lower_code
payout-signed = refl

payout-currency :
    validate_currency
      (or_text (or_text (codes "INR") payout.order_currency) payout.payment_currency)
    ≡ ok Currency.inr
unfolding validate_currency lstrip rstrip find_currency text_eq upper upper_code is_space
payout-currency = refl

payout-new :
    verify_idempotency_payload none
      (event_key (external_event_id (receiver_of payout) delivery payout))
      (codes "h")
      []
    ≡ Dedup.new
unfolding verify_idempotency_payload resolver_ai.Idempotency.is_marked
payout-new = refl

zero_amount_is_lost_example :
    let (s', a) = handle_razorpay_webhook (receiver_of payout) delivery settled_site in
    (a ≡ Answer.failed)
    × (has_event source (external_event_id (receiver_of payout) delivery payout) s'.db.events
        ≡ true)
    × (s'.db.outbox ≡ settled_site.db.outbox)
    × (s'.db.intents ≡ settled_site.db.intents)
    × ((handle_razorpay_webhook second_receiver delivery s').0.db ≡ s'.db)
unfolding has_event
zero_amount_is_lost_example =
    zero_amount_is_lost (receiver_of payout) second_receiver delivery payout Currency.inr
      settled_site payout-signed refl refl payout-currency refl payout-new refl (inl refl)

captured_found :
    get_intent
      (target_intent (receiver_of failed_event) failed_event settled_site.db.intents)
      settled_site.db.intents
    ≡ some (row_in PaymentState.captured)
unfolding get_intent target_intent intent_of_order order_ref text_eq
captured_found = refl

delivered_state_example :
    let id = target_intent (receiver_of failed_event) failed_event settled_site.db.intents in
    (row' : Intent) × (get_intent id
        (persist
          (receiver_of failed_event)
          delivery
          failed_event
          50000
          (codes "INR")
          settled_site).0.db.intents
      ≡ some row')
    × (row'.current_state ≡ (
        if text_eq failed_event.event (codes "payment.failed")
        then PaymentState.failed
        else PaymentState.captured))
    × (row'.version ≡ 3)
unfolding has_event
delivered_state_example =
    delivered_state (receiver_of failed_event) delivery failed_event 50000 (codes "INR")
      settled_site (row_in PaymentState.captured) refl (omega arith) (omega arith) captured_found
