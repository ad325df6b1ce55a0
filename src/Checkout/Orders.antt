-- ===== src/Checkout/Orders.antt =====
-- The creation of orders in api/orders_routes.py: what the provider is sent and what is recorded.
use resolver_ai.Prelude.{ℕ, ◌<◌, ◌≡◌, false, some, Text}
use resolver_ai.Domain.{PaymentState}
use resolver_ai.Money.{ok, finite, minor_units_to_decimal}
use resolver_ai.Store.{numeric_limit, Intent, Db, get_intent}
use resolver_ai.Checkout.{Desk, CreateOrder, order_made, order_data}

-- An order that was made: the service was sent an amount in minor units that converts back to the
-- amount of the new row, with the currency and the id of that row.
pub record Matches (d : Desk) (req : CreateOrder) (db db' : Db) (id : ℕ) (order : Text)
    : Type 0 where
  pub fits : req.amount < numeric_limit
  pub row : Intent
  pub units : ℕ
  pub placed : d.place (order_data d req units) ≡ order_made (some order)
  pub same_amount : minor_units_to_decimal false units row.currency ≡ ok (finite false row.amount 2)
  pub requested : row.amount ≡ req.amount
  pub stored : get_intent id db'.intents ≡ some row
  pub linked : row.razorpay_order_id ≡ some order
  pub fresh_state : row.current_state ≡ PaymentState.created
