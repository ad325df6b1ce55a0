-- ===== src/Checkout/Page.antt =====
-- api/orders_routes.py: the two callbacks of the checkout page, `verify_checkout_payment` and
-- `report_checkout_failure`.
use resolver_ai.Prelude.{
  ℕ, Bool, true, false, ◌&&◌, not, Option, none, some, List, [], ◌∷◌, find, if◌then◌else◌, or_else,
  Text, text_eq, truthy,
}
use resolver_ai.Domain.{PaymentState, state_in}
use resolver_ai.Schemas.{Key}
use resolver_ai.Store.{Intent, Task, TaskStatus, Audit, Db, get_intent, update_intent, enqueue}
use resolver_ai.Access.{Claims, verify_merchant_access}
use resolver_ai.Webhook.{or_text}
use resolver_ai.Checkout.{Desk, verify_payment_signature}

-- a callback: what both requests name, and the payment of the page
pub record Callback : Type 0 where
  pub payment_intent_id : Option Text
  pub razorpay_order_id : Text

abbrev pub row_named : List Intent → Option ℕ → Option Intent
row_named rs none = none
row_named rs (some id) = get_intent id rs

abbrev pub by_name : Desk → List Intent → Option Text → Option Intent
by_name d rs none = none
by_name d rs (some name) = if truthy (some name) then row_named rs (d.intent_named name) else none

abbrev pub has_order : Text → Intent → Bool
has_order order r = truthy r.razorpay_order_id && text_eq order (or_text [] r.razorpay_order_id)

-- `WHERE razorpay_order_id = $1`
unfoldable pub get_by_order : Text → List Intent → Option Intent
get_by_order order rs = find (has_order order) rs

unfoldable pub find_intent : Desk → Callback → List Intent → Option Intent
find_intent d c rs =
    or_else (by_name d rs c.payment_intent_id)
      (if truthy (some c.razorpay_order_id) then get_by_order c.razorpay_order_id rs else none)

pub data CheckoutAnswer : Type 0 where
  not_found forbidden bad_signature : CheckoutAnswer
  verified : ℕ → Bool → CheckoutAnswer
  recorded : ℕ → CheckoutAnswer

-- the order id to trust; the query does not select `order_id`
abbrev pub server_order : Callback → Intent → Text
server_order c r = or_text c.razorpay_order_id r.razorpay_order_id

abbrev pub is_payment : Text → Option Text → Bool
is_payment p none = false
is_payment p (some q) = text_eq p q

-- step 3: the payment is recorded on the row already
abbrev pub already_verified : Text → Intent → Bool
already_verified payment r =
    state_in r.current_state
      (PaymentState.authorized ∷ PaymentState.captured ∷ PaymentState.reconciled ∷ [])
    && is_payment payment r.active_payment_id

unfoldable pub authorize : Desk → Text → Intent → Intent
authorize d payment r = record r {
  active_payment_id = some payment;
  current_state = PaymentState.authorized;
  updated_at = d.now;
}

unfoldable pub checkout_task : Desk → Key → ℕ → Task
checkout_task d key id = record {
  id = d.fresh_task;
  intent = id;
  key = key;
  status = TaskStatus.pending;
  attempts = 0;
  created_at = d.now;
  available_at = some d.now;
  processing_started_at = none;
}

-- step 4
unfoldable pub link_payment : Desk → Text → Intent → Db → Db
link_payment d payment r db = record db {
  intents = update_intent r.id (authorize d payment) db.intents;
  outbox = enqueue (checkout_task d (Key.outbox_checkout payment) r.id) db.outbox;
  audits = Audit.checkout_verified r.id ∷ db.audits;
}

abbrev pub accept : Desk → Text → Intent → Db → Db × CheckoutAnswer
accept d payment r db =
    if already_verified payment r
    then (db, verified r.id true)
    else (link_payment d payment r db, verified r.id false)

abbrev pub verify_row :
    Desk → Claims → Callback → Text → Text → Db → Option Intent → Db × CheckoutAnswer
verify_row d user c payment signature db none = (db, not_found)
verify_row d user c payment signature db (some r) =
    if not (verify_merchant_access user r.merchant_id)
    then (db, forbidden)
    else if not (verify_payment_signature d (server_order c r) payment signature)
    then (db, bad_signature)
    else accept d payment r db

-- `verify_checkout_payment`, for a payment id and its signature
unfoldable pub verify_checkout_payment :
    Desk → Claims → Callback → Text → Text → Db → Db × CheckoutAnswer
verify_checkout_payment d user c payment signature db =
    verify_row d user c payment signature db (find_intent d c db.intents)

-- `COALESCE($1, active_payment_id)`
abbrev pub coalesce : Option Text → Option Text → Option Text
coalesce none b = b
coalesce (some a) b = some a

unfoldable pub fail_payment : Desk → Option Text → Intent → Intent
fail_payment d payment r = record r {
  active_payment_id = coalesce payment r.active_payment_id;
  current_state = PaymentState.failed;
  updated_at = d.now;
}

unfoldable pub record_failure : Desk → Option Text → Intent → Db → Db
record_failure d payment r db = record db {
  intents = update_intent r.id (fail_payment d payment) db.intents;
  outbox =
      enqueue (checkout_task d (Key.outbox_failure (or_text d.fresh_hex payment)) r.id) db.outbox;
  audits = Audit.checkout_failed r.id ∷ db.audits;
}

abbrev pub fail_row : Desk → Claims → Option Text → Db → Option Intent → Db × CheckoutAnswer
fail_row d user payment db none = (db, not_found)
fail_row d user payment db (some r) =
    if verify_merchant_access user r.merchant_id
    then (record_failure d payment r db, recorded r.id)
    else (db, forbidden)

-- `report_checkout_failure`
unfoldable pub report_checkout_failure :
    Desk → Claims → Callback → Option Text → Db → Db × CheckoutAnswer
report_checkout_failure d user c payment db =
    fail_row d user payment db (find_intent d c db.intents)
