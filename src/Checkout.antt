-- ===== src/Checkout.antt =====
-- api/orders_routes.py, razorpay/orders.py and `verify_payment_signature` of razorpay/webhooks.py: the
-- creation of orders and the signature of the checkout page, whose callbacks are in Page. A request
-- comes with the claims that `require_permission` has let through. HMAC, uuids and the service behind POST /v1/orders are
-- parameters; amounts are in hundredths.
pub mod Page
pub mod Named
pub mod Signed
pub mod Callbacks
pub mod Orders
use resolver_ai.Prelude.{
  ℕ, ltb, Bool, false, ◌&&◌, Option, none, some, ◌∷◌, ◌++◌, if◌then◌else◌, Text, codes, text_eq,
  truthy, lower, upper,
}
use resolver_ai.Domain.{PaymentState}
use resolver_ai.Money.{Result, ok, err, finite, decimal_to_minor_units}
use resolver_ai.Store.{numeric_limit, Intent, Resolution, Audit, Db}
use resolver_ai.Access.{Claims}

-- the body of POST /v1/orders
pub record OrderData : Type 0 where
  pub amount : ℕ
  pub currency : Text
  pub receipt : Option Text
  pub noted_intent : ℕ

-- the answer of the service: an order with its id, if it has one, or a RazorpayAPIError
pub data OrderReply : Type 0 where
  order_made : Option Text → OrderReply
  order_error : OrderReply

-- the configuration, the services and the fresh values of one request
pub record Desk : Type 0 where
  pub digest : Text → Text → Text
  pub key_id : Text
  pub key_secret : Text
  pub place : OrderData → OrderReply
  pub intent_named : Text → Option ℕ
  pub fresh_intent : ℕ
  pub fresh_hex : Text
  pub fresh_task : ℕ
  pub now : ℕ

-- `verify_payment_signature`
unfoldable pub verify_payment_signature : Desk → Text → Text → Text → Bool
verify_payment_signature d order payment signature =
    truthy (some d.key_secret)
    && truthy (some signature)
    && text_eq (lower (d.digest d.key_secret (order ++ codes "|" ++ payment))) (lower signature)

pub record CreateOrder : Type 0 where
  pub amount : ℕ
  pub currency : Text
  pub receipt : Option Text

pub data Ordered : Type 0 where
  unconfigured invalid provider_error no_order_id not_stored : Ordered
  ordered : ℕ → Text → Ordered

-- the body that razorpay/orders.py sends
unfoldable pub order_data : Desk → CreateOrder → ℕ → OrderData
order_data d req units = record {
  amount = units;
  currency = upper req.currency;
  receipt = if truthy req.receipt then req.receipt else none;
  noted_intent = d.fresh_intent;
}

-- `user.get("merchant_id", "default_merchant")`
abbrev pub merchant_or_default : Option Text → Text
merchant_or_default none = codes "default_merchant"
merchant_or_default (some m) = m

-- `uuid4` names no intent on record, so the insert has no conflict
unfoldable pub order_row : Desk → Claims → CreateOrder → Text → Intent
order_row d user req id = record {
  id = d.fresh_intent;
  merchant_id = merchant_or_default user.merchant_id;
  order_id = id;
  razorpay_order_id = some id;
  active_payment_id = none;
  amount = req.amount;
  currency = upper req.currency;
  current_state = PaymentState.created;
  active_rail = some (codes "RAZORPAY");
  retry_count = 0;
  version = 1;
  resolution = Resolution.pending;
  updated_at = d.now;
}

-- an amount that the column cannot hold is an exception of the insert, after the order was made
abbrev pub record_order : Desk → Claims → CreateOrder → Db → Text → Db × Ordered
record_order d user req db id =
    if ltb req.amount numeric_limit
    then (
      record db {
        intents = order_row d user req id ∷ db.intents;
        audits = Audit.order_created d.fresh_intent ∷ db.audits;
      },
      ordered d.fresh_intent id,
    )
    else (db, not_stored)

abbrev pub after_place : Desk → Claims → CreateOrder → Db → OrderReply → Db × Ordered
after_place d user req db order_error = (db, provider_error)
after_place d user req db (order_made none) = (db, no_order_id)
after_place d user req db (order_made (some id)) =
    if truthy (some id) then record_order d user req db id else (db, no_order_id)

-- the exceptions of domain/money.py are not caught here
abbrev pub after_units : Desk → Claims → CreateOrder → Db → Result ℕ → Db × Ordered
after_units d user req db (err e) = (db, invalid)
after_units d user req db (ok units) = after_place d user req db (d.place (order_data d req units))

-- `create_razorpay_order`; the body is valid, so the amount is positive
unfoldable pub create_razorpay_order : Desk → Claims → CreateOrder → Db → Db × Ordered
create_razorpay_order d user req db =
    if truthy (some d.key_id) && truthy (some d.key_secret)
    then after_units d user req db
        (decimal_to_minor_units (finite false req.amount 2) (upper req.currency))
    else (db, unconfigured)
