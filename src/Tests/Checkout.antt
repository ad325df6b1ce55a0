-- ===== src/Tests/Checkout.antt =====
-- Callbacks of the checkout page, orders and cases for the payment of the test data.
use resolver_ai.Prelude.{
  ℕ, ◌≡◌, ◌≢◌, refl, true, false, none, some, List, [], ◌∷◌, ◌++◌, Text, codes, lower, lower_code,
  text_eq, filter,
}
use resolver_ai.Domain.{PaymentState, DivergenceType, CaseSeverity, CaseStatus}
use resolver_ai.Schemas.{Key}
use resolver_ai.StateMachine.{Event, transition, is_terminal}
use resolver_ai.Store.{Case, Db, get_intent}
use resolver_ai.Access.{verify_merchant_access}
use resolver_ai.Resolver.{resolve}
use resolver_ai.Resolver.Setting.{World}
use resolver_ai.Checkout.{Desk, CreateOrder, order_made, verify_payment_signature}
use resolver_ai.Checkout.Page.{
  Callback, CheckoutAnswer, get_by_order, find_intent, verify_checkout_payment,
  report_checkout_failure,
}
use resolver_ai.Checkout.Signed.{Judged, verify_checkout-Judged, verify_twice}
use resolver_ai.Checkout.Callbacks.{
  pending_task, reported_failure_is_final, verified_overwrites_terminal,
}
use resolver_ai.Cases.{ManualResolve, find_case, list_cases, manual_resolve_case}
use resolver_ai.Cases.Listing.{visible, list_cases-visible}
use resolver_ai.Cases.Resolving.{settled_by, manual_resolution_is_final}
use resolver_ai.Tests.Data.{world_in, row_in, db_with, env_with, merchant_user}

abbrev desk : Desk
desk = record {
  digest = λ key message. key ++ message;
  key_id = codes "key";
  key_secret = codes "secret";
  place = λ body. order_made (some (codes "order_9"));
  intent_named = λ name. none;
  fresh_intent = 9;
  fresh_hex = codes "cc";
  fresh_task = 21;
  now = 2000;
}

abbrev callback : Callback
callback = record { payment_intent_id = none; razorpay_order_id = codes "order_1" }

-- the digest of the order of the row and a new payment
abbrev signature : Text
signature = codes "secretorder_1|pay_2"

abbrev db : Db
db = db_with (row_in PaymentState.failed)

verify_checkout-Judged_example :
    Judged desk merchant_user callback
      (codes "pay_2")
      signature
      db
      (verify_checkout_payment desk merchant_user callback (codes "pay_2") signature db)
verify_checkout-Judged_example =
    verify_checkout-Judged desk merchant_user callback (codes "pay_2") signature db

found : find_intent desk callback db.intents ≡ some (row_in PaymentState.failed)
unfolding find_intent get_by_order text_eq
found = refl

keyed : get_intent 7 db.intents ≡ some (row_in PaymentState.failed)
unfolding get_intent
keyed = refl

access : verify_merchant_access merchant_user (codes "m_1") ≡ true
unfolding verify_merchant_access text_eq
access = refl

signed : verify_payment_signature desk (codes "order_1") (codes "pay_2") signature ≡ true
unfolding verify_payment_signature text_eq lower lower_code
signed = refl

first_answer :
    (verify_checkout_payment desk merchant_user callback (codes "pay_2") signature db).1
    ≡ CheckoutAnswer.verified 7 false
unfolding verify_checkout_payment find_intent get_by_order text_eq verify_merchant_access
    verify_payment_signature lower lower_code
first_answer = refl

verify_twice_example :
    verify_checkout_payment desk merchant_user callback
      (codes "pay_2")
      signature
      (verify_checkout_payment desk merchant_user callback (codes "pay_2") signature db).0
    ≡ (
      (verify_checkout_payment desk merchant_user callback (codes "pay_2") signature db).0,
      CheckoutAnswer.verified 7 true,
    )
verify_twice_example =
    verify_twice desk merchant_user callback (codes "pay_2") signature db 7 false first_answer

abbrev after_failure : World
after_failure = record (world_in PaymentState.failed) {
  db = (report_checkout_failure desk merchant_user callback none db).0;
}

reported_failure_is_final_example :
    let db' = (report_checkout_failure desk merchant_user callback none db).0 in
    (get_intent 7 db'.intents ≡ some (record (row_in PaymentState.failed) { updated_at = 2000 }))
    × (db'.outbox
        ≡ pending_task desk.fresh_task 7 (Key.outbox_failure (codes "cc")) 2000 ∷ db.outbox)
    × ((resolve (env_with (codes "failed")) 7 after_failure).0.db ≡ after_failure.db)
    × ((resolve (env_with (codes "failed")) 7 after_failure).0.outside ≡ after_failure.outside)
reported_failure_is_final_example =
    reported_failure_is_final desk merchant_user callback db (row_in PaymentState.failed) found
      keyed access none (env_with (codes "failed")) after_failure refl refl

failed-is_terminal : is_terminal PaymentState.failed ≡ true
unfolding is_terminal
failed-is_terminal = refl

verified_overwrites_terminal_example :
    (get_intent 7
        (verify_checkout_payment desk merchant_user callback (codes "pay_2") signature db).0.intents
      ≡ some (record (row_in PaymentState.failed) {
        active_payment_id = some (codes "pay_2");
        current_state = PaymentState.authorized;
        updated_at = 2000;
      }))
    × ((verify_checkout_payment desk merchant_user callback (codes "pay_2") signature db).0.outbox
        ≡ pending_task desk.fresh_task 7 (Key.outbox_checkout (codes "pay_2")) 2000 ∷ [])
    × (transition PaymentState.failed Event.payment_authorized ≢ PaymentState.authorized)
verified_overwrites_terminal_example =
    verified_overwrites_terminal desk merchant_user callback db (row_in PaymentState.failed) found
      keyed access (codes "pay_2") signature Event.payment_authorized signed refl failed-is_terminal
      refl

abbrev order : CreateOrder
order = record { amount = 49900; currency = codes "inr"; receipt = none }

abbrev case_of : ℕ → Text → Case
case_of id merchant = record {
  id = id;
  intent = 7;
  merchant_id = merchant;
  divergence = DivergenceType.amount_mismatch;
  severity = CaseSeverity.high;
  status = CaseStatus.opened;
  assigned_operator = none;
}

abbrev cases : List Case
cases = case_of 1 (codes "m_2") ∷ case_of 2 (codes "m_1") ∷ []

list_cases-visible_example :
    list_cases merchant_user (some (codes "open")) cases
    ≡ filter (visible merchant_user (some (codes "open"))) cases
list_cases-visible_example = list_cases-visible merchant_user (some (codes "open")) cases

abbrev with_cases : Db
with_cases = record db { cases = cases }

abbrev request : ManualResolve
request = record {
  operator_id = codes "op_1";
  resolution_notes = codes "paid in cash";
  action = codes "CAPTURE";
}

abbrev resolved_world : World
resolved_world = record (world_in PaymentState.failed) {
  db = (manual_resolve_case merchant_user (some 2) request 2100 with_cases).0;
}

second_case : find_case 2 cases ≡ some (case_of 2 (codes "m_1"))
unfolding find_case
second_case = refl

manual_resolution_is_final_example :
    let db' = (manual_resolve_case merchant_user (some 2) request 2100 with_cases).0 in
    (get_intent 7 db'.intents
      ≡ some (settled_by (codes "CAPTURE") 2100 (row_in PaymentState.failed)))
    × (db'.executions ≡ [])
    × ((resolve (env_with (codes "failed")) 7 resolved_world).0.db ≡ resolved_world.db)
    × ((resolve (env_with (codes "failed")) 7 resolved_world).0.outside ≡ resolved_world.outside)
manual_resolution_is_final_example =
    manual_resolution_is_final merchant_user request 2100 2 with_cases (case_of 2 (codes "m_1"))
      (row_in PaymentState.failed) second_case keyed access refl (env_with (codes "failed"))
      resolved_world refl
