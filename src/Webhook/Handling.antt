-- ===== src/Webhook/Handling.antt =====
-- api/webhook_receiver.py: the steps of `handle_razorpay_webhook` on the tables.
use resolver_ai.Prelude.{
  leb, ℕ, Bool, true, false, ◌||◌, Option, none, some, List, [], ◌∷◌, ◌++◌, ◌==◌, if◌then◌else◌,
  Text, codes, text_eq, text_or, truthy,
}
use resolver_ai.Domain.{PaymentState}
use resolver_ai.Schemas.{Key}
use resolver_ai.Money.{
  Result, ok, err, ◌>>=◌, Currency, currency_code, validate_currency, minor_units_to_decimal,
}
use resolver_ai.Idempotency.{Dedup, verify_idempotency_payload, mark_event_processed}
use resolver_ai.Store.{
  numeric_limit, Intent, Resolution, Task, TaskStatus, get_intent, update_intent, has_event,
  enqueue,
}
use resolver_ai.Webhook.{
  Answer, Delivery, Payload, Receiver, Site, event_key, event_type_of, external_event_id,
  first_positive, hundredths, is_supported, or_text, order_of, order_ref, source,
  verify_webhook_signature,
}

-- `SELECT … WHERE razorpay_order_id = $1 OR order_id = $1`
abbrev same_order : Text → Intent → Bool
same_order ref r = text_eq ref r.order_id || text_eq ref (or_text [] r.razorpay_order_id)

unfoldable pub intent_of_order : Text → List Intent → Option ℕ
intent_of_order ref [] = none
intent_of_order ref (r ∷ rs) =
    let rest = intent_of_order ref rs in if same_order ref r then some r.id else rest

abbrev found_or : ℕ → Option ℕ → ℕ
found_or d none = d
found_or d (some id) = id

abbrev by_order : Receiver → Payload → List Intent → ℕ
by_order h p rs = found_or (h.intent_derived (order_ref h p)) (intent_of_order (order_ref h p) rs)

unfoldable pub target_intent : Receiver → Payload → List Intent → ℕ
target_intent h p rs =
    if truthy p.noted_intent then h.intent_named (or_text [] p.noted_intent) else by_order h p rs

abbrev pub target_state : Text → PaymentState
target_state e =
    if text_eq e (codes "payment.failed") then PaymentState.failed else PaymentState.pending_rail

-- the row to insert
unfoldable pub new_intent : Receiver → Payload → ℕ → ℕ → Text → Intent
new_intent h p id amount currency = record {
  id = id;
  merchant_id = or_text (codes "default_merchant") p.merchant_id;
  order_id = order_ref h p;
  razorpay_order_id = order_of p;
  active_payment_id = text_or p.payment_id p.refund_payment_id;
  amount = amount;
  currency = currency;
  current_state = target_state (event_type_of p.event);
  active_rail = some (codes "RAZORPAY");
  retry_count = 0;
  version = 1;
  resolution = Resolution.pending;
  updated_at = h.now;
}

abbrev coalesce : Option Text → Option Text → Option Text
coalesce none b = b
coalesce (some a) b = some a

abbrev pub merged_state : PaymentState → PaymentState → PaymentState
merged_state PaymentState.failed s = PaymentState.failed
merged_state _ s = s

-- ON CONFLICT (payment_intent_id) DO UPDATE
abbrev pub merge : Intent → Intent → Intent
merge new r = record r {
  razorpay_order_id = coalesce new.razorpay_order_id r.razorpay_order_id;
  active_payment_id = coalesce new.active_payment_id r.active_payment_id;
  amount = if new.amount == 0 then r.amount else new.amount;
  current_state = merged_state new.current_state r.current_state;
  updated_at = new.updated_at;
}

abbrev pub upsert_found : Intent → List Intent → Option Intent → List Intent
upsert_found new rs none = new ∷ rs
upsert_found new rs (some r) = update_intent new.id (merge new) rs

-- `none` is an amount that the column cannot hold, or the violation of CHECK (amount > 0), for which the
-- proposed row is tested first
unfoldable pub upsert : Intent → List Intent → Option (List Intent)
upsert new rs =
    if new.amount == 0 || leb numeric_limit new.amount
    then none
    else some (upsert_found new rs (get_intent new.id rs))

abbrev pub set_intents : Site → List Intent → Site
set_intents s rs = record s { db = record s.db { intents = rs } }

-- `mark_event_processed` for the event at hand
abbrev pub mark : Receiver → Delivery → Text → Site → Site
mark h d ext s = record s {
  marks = mark_event_processed h.written_to_redis (event_key ext) (some (h.hash d.body)) s.marks;
}

unfoldable pub resolve_task : Receiver → Text → ℕ → Task
resolve_task h ext id = record {
  id = h.fresh_task;
  intent = id;
  key = Key.outbox_evt (source ++ codes "_" ++ ext);
  status = TaskStatus.pending;
  attempts = 0;
  created_at = h.now;
  available_at = some h.now;
  processing_started_at = none;
}

abbrev pub add_task : Task → Site → Site
add_task t s = record s { db = record s.db { outbox = enqueue t s.db.outbox } }

-- step 6 and the end
unfoldable pub hand_over : Receiver → Delivery → Payload → Text → ℕ → Site → Site × Answer
hand_over h d p ext id s =
    if is_supported p.event
    then (mark h d ext (add_task (resolve_task h ext id) s), Answer.accepted id)
    else (mark h d ext s, Answer.recorded id)

abbrev pub after_upsert :
    Receiver → Delivery → Payload → Text → ℕ → Site → Option (List Intent) → Site × Answer
after_upsert h d p ext id s none = (s, Answer.failed)
after_upsert h d p ext id s (some rs) = hand_over h d p ext id (set_intents s rs)

abbrev pub add_event : Payload → Text → ℕ → Site → Site
add_event p ext id s = record s {
  db = record s.db {
    events =
        (record {
          intent = id;
          source = source;
          external_event_id = ext;
          event_type = event_type_of p.event;
        })
        ∷ s.db.events;
  };
}

-- steps 4 and 5
unfoldable pub persist : Receiver → Delivery → Payload → ℕ → Text → Site → Site × Answer
persist h d p amount currency s =
    let ext = external_event_id h d p in
    let id = target_intent h p s.db.intents in
    if has_event source ext s.db.events
    then (mark h d ext s, Answer.duplicate_in_db)
    else after_upsert h d p ext id (add_event p ext id s)
        (upsert (new_intent h p id amount currency) s.db.intents)

abbrev pub by_dedup : Receiver → Delivery → Payload → ℕ → Text → Site → Dedup → Site × Answer
by_dedup h d p amount currency s Dedup.payload_mismatch = (s, Answer.conflict)
by_dedup h d p amount currency s Dedup.valid_duplicate = (s, Answer.duplicate_in_redis)
by_dedup h d p amount currency s Dedup.new = persist h d p amount currency s

-- the amount and the currency of a payload, in hundredths
unfoldable pub amount_of : Payload → Result (ℕ × Currency)
amount_of p = do
  currency ← validate_currency (or_text (or_text (codes "INR") p.order_currency) p.payment_currency)
  value ←
      minor_units_to_decimal false
        (first_positive p.payment_amount (first_positive p.order_amount p.refund_amount))
        (currency_code currency)
  ok (hundredths value, currency)

abbrev pub after_amount :
    Receiver → Delivery → Payload → Site → Result (ℕ × Currency) → Site × Answer
after_amount h d p s (err e) = (s, Answer.failed)
after_amount h d p s (ok (amount, currency)) = by_dedup h d p amount (currency_code currency) s (
    verify_idempotency_payload h.redis_reply (event_key (external_event_id h d p)) (h.hash d.body)
      s.marks)

abbrev pub after_parse : Receiver → Delivery → Site → Option Payload → Site × Answer
after_parse h d s none = (s, Answer.bad_request)
after_parse h d s (some p) = after_amount h d p s (amount_of p)

abbrev pub after_signature : Receiver → Delivery → Site → Option Bool → Site × Answer
after_signature h d s none = (s, Answer.failed)
after_signature h d s (some false) = (s, Answer.unauthorized)
after_signature h d s (some true) = after_parse h d s (h.parse d.body)

-- `handle_razorpay_webhook`
unfoldable pub handle_razorpay_webhook : Receiver → Delivery → Site → Site × Answer
handle_razorpay_webhook h d s =
    after_signature h d s (verify_webhook_signature h d.body d.signature)
