-- ===== src/Tests/Data.antt =====
-- One UPI payment of 500.00 INR in doubt, its provider and its world.
use resolver_ai.Prelude.{ℕ, zero, suc, Bool, true, false, none, some, [], ◌∷◌, Text, codes, ◌++◌}
use resolver_ai.Domain.{PaymentState, ActionType, ExternalStatus}
use resolver_ai.Schemas.{
  IntentData, Key, Payment, DetectiveResult, NegotiatorResult, AuthorizedAction, Mac,
}
use resolver_ai.Detective.{advise}
use resolver_ai.Schemas.{Hypothesis}
use resolver_ai.Rail.{RailState}
use resolver_ai.Access.{Claims}
use resolver_ai.Provider.{Provider, Outside, Mode, ok}
use resolver_ai.Store.{Intent, Resolution, Db}
use resolver_ai.Resolver.Setting.{Env, World}
use resolver_ai.Resolver.Stages.{load_intent}

abbrev pub empty_rail : RailState
empty_rail = record { processed_keys = []; transactions = [] }

abbrev pub outside : Outside
outside = record { sent = []; rail = empty_rail }

abbrev pub always : Text → Bool
always t = true

-- the provider's record of a payment, in a given status
abbrev pub payment_in : Text → Payment
payment_in s = record {
  id = some (codes "pay_1");
  order_id = some (codes "order_1");
  status = s;
  amount = some 50000;
  currency = some (codes "INR");
}

-- a provider that answers every read with one payment and accepts every mutation
abbrev pub provider_with : Text → Provider
provider_with s = record {
  get_payment = λ sent id. ok (some (payment_in s));
  get_order_payments = λ sent id. ok (payment_in s ∷ []);
  post = λ sent m. ok (some (codes "done_1"));
}

-- a digest that shows the parity of the amount
abbrev odd : ℕ → Text
odd zero = codes "0"
odd (suc zero) = codes "1"
odd (suc (suc n)) = odd n

abbrev pub mac : Mac
mac secret f = odd f.amount ++ secret

abbrev pub secret : Text
secret = codes "secret"

abbrev pub row_in : PaymentState → Intent
row_in s = record {
  id = 7;
  merchant_id = codes "m_1";
  order_id = codes "order_1";
  razorpay_order_id = some (codes "order_1");
  active_payment_id = some (codes "pay_1");
  amount = 50000;
  currency = codes "INR";
  current_state = s;
  active_rail = some (codes "upi_test");
  retry_count = 0;
  version = 3;
  resolution = Resolution.pending;
  updated_at = 0;
}

abbrev pub db_with : Intent → Db
db_with row = record {
  intents = row ∷ [];
  executions = [];
  evidence = [];
  cases = [];
  events = [];
  outbox = [];
  audits = [];
}

abbrev pub world_in : PaymentState → World
world_in s = record { db = db_with (row_in s); outside = outside; locks = [] }

abbrev pub intent_in : PaymentState → IntentData
intent_in s = load_intent (row_in s) (db_with (row_in s))

abbrev pub env_with : Text → Env
env_with s = record {
  mode = Mode.test;
  provider = provider_with s;
  mac = mac;
  secret = secret;
  ai = record { enabled = false; has_gemini_key = false; has_groq_key = false };
  llm = λ p. none;
  lucky = always;
  verify_hex = codes "aa";
  execute_hex = codes "bb";
  issue_time = 1000;
  execute_time = 1001;
  update_time = 1002;
  decision_id = 11;
  command_id = 12;
  case_id = 13;
  redis_lock = none;
  deleted_in_redis = false;
}

-- evidence that agrees with the payment
abbrev pub found : ExternalStatus → NegotiatorResult
found s = record {
  external_status = s;
  external_transaction_id = some (codes "pay_1");
  razorpay_order_id = some (codes "order_1");
  amount = 50000;
  currency = codes "INR";
  rail = codes "RAZORPAY_API";
  verification_details = none;
}

abbrev pub proposal : ActionType → DetectiveResult
proposal a = advise Hypothesis.unknown_anomaly 900000 a

abbrev pub command_to : ActionType → AuthorizedAction
command_to a = record {
  command_id = 12;
  payment_intent_id = 7;
  merchant_id = codes "m_1";
  action = a;
  amount = 50000;
  currency = codes "INR";
  target_rail = some (codes "upi_test");
  razorpay_payment_id = some (codes "pay_1");
  razorpay_order_id = some (codes "order_1");
  policy_decision_id = 11;
  idempotency_key = Key.idem 7 3;
  issued_at = 1000;
  expires_at = 1300;
  signature = none;
}

abbrev user_of : Text → Text → Claims
user_of role merchant = record {
  sub = codes "op";
  role = some role;
  merchant_id = some merchant;
  permissions = [];
  iat = 0;
  exp = none;
}

-- an operator of the merchant of the payment
abbrev pub merchant_user : Claims
merchant_user = user_of (codes "operator") (codes "m_1")

abbrev pub stranger : Claims
stranger = user_of (codes "operator") (codes "m_2")
