-- ===== src/Provider.antt =====
-- razorpay/payments.py, razorpay/refunds.py and razorpay/orders.py: the provider's API as the
-- agents see it. What the remote service answers is a parameter: a function of the mutation
-- requests that it has been sent so far and of the request. `api_error` is a RazorpayAPIError,
-- `crash` any other exception. A request is one call of the HTTP client, which may repeat it (Client).
use resolver_ai.Prelude.{
  ℕ, Bool, true, false, ◌||◌, not, Option, some, List, ◌∷◌, if◌then◌else◌, Text, codes, text_eq,
  upper, truthy,
}
use resolver_ai.Schemas.{Payment}
use resolver_ai.Rail.{RailState}

pub data Api {ℓ} (A : Type ℓ) : Type ℓ where
  ok : A → Api A
  api_error : Api A
  crash : Api A

-- the two requests that move money: payment id, minor units, and the currency or the policy
-- decision that the notes name
pub data Mutation : Type 0 where
  capture_request : Text → ℕ → Text → Mutation
  refund_request : Text → ℕ → ℕ → Mutation

-- `none` from `get_payment` is an empty JSON object; `post` answers with the response's id
pub record Provider : Type 0 where
  pub get_payment : List Mutation → Text → Api (Option Payment)
  pub get_order_payments : List Mutation → Text → Api (List Payment)
  pub post : List Mutation → Mutation → Api (Option Text)

-- What lies outside the database: the mutation requests sent to the provider, the latest first,
-- and the state of the synthetic rail.
pub record Outside : Type 0 where
  pub sent : List Mutation
  pub rail : RailState

-- RAZORPAY_MODE; `synthetic` is any value but TEST and LIVE
pub data Mode : Type 0 where
  test live synthetic : Mode

unfoldable pub is_real : Mode → Bool
is_real Mode.test = true
is_real Mode.live = true
is_real Mode.synthetic = false

-- the result of a call that may raise
pub data Outcome (A : Type 0) : Type 0 where
  returned : A → Outcome A
  raised : Outcome A

-- the send of a mutation request
unfoldable pub send : Provider → Mutation → Outside → Outside × Api (Option Text)
send p m w = (record w { sent = m ∷ w.sent }, p.post w.sent m)

-- `currency.upper() in ("INR", "USD", "EUR", "GBP")`, for a currency that is not empty
unfoldable pub is_convertible : Text → Bool
is_convertible c =
    let u = upper c in
    text_eq u (codes "INR")
    || text_eq u (codes "USD")
    || text_eq u (codes "EUR")
    || text_eq u (codes "GBP")

abbrev pub currency_or_inr : Text → Text
currency_or_inr c = if truthy (some c) then upper c else codes "INR"

-- `int(amount * 100)` on an amount in hundredths is the same number
unfoldable pub capture_payment : Provider → Text → ℕ → Text → Outside → Outside × Api (Option Text)
unfolding is_convertible send
capture_payment p id amount currency w =
    if not (truthy (some currency)) || is_convertible currency
    then send p (capture_request id amount (currency_or_inr currency)) w
    else (w, crash)

unfoldable pub create_refund : Provider → Text → ℕ → ℕ → Outside → Outside × Api (Option Text)
unfolding send
create_refund p id amount decision w = send p (refund_request id amount decision) w
