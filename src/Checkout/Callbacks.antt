-- ===== src/Checkout/Callbacks.antt =====
-- What the two checkout callbacks of api/orders_routes.py leave for the rest of the system.
use resolver_ai.Prelude.{
  ℕ, ◌≡◌, refl, ap, ◌∙◌, ◌≢◌, Bool, true, false, not, Option, none, some, List, ◌∷◌, any, or_else,
  Text, arith,
}
use resolver_ai.Domain.{PaymentState}
use resolver_ai.Schemas.{Key}
use resolver_ai.Rail.{key_eq}
use resolver_ai.StateMachine.{Event, transition, is_terminal}
use resolver_ai.StateMachine.Graph.{terminal_never_authorized}
use resolver_ai.Store.{Intent, Task, TaskStatus, Db, get_intent, enqueue}
use resolver_ai.Store.Laws.{get_intent-update_self}
use resolver_ai.Access.{Claims, verify_merchant_access}
use resolver_ai.Webhook.{or_text}
use resolver_ai.Resolver.{resolve}
use resolver_ai.Resolver.Progress.{terminal_untouched}
use resolver_ai.Resolver.Setting.{Env, World}
use resolver_ai.Checkout.{Desk, verify_payment_signature}
use resolver_ai.Checkout.Page.{
  Callback, find_intent, server_order, already_verified, authorize, link_payment,
  verify_checkout_payment, fail_payment, record_failure, report_checkout_failure, checkout_task,
  coalesce,
}

-- a pending task for an intent, due at once
abbrev pub pending_task : ℕ → ℕ → Key → ℕ → Task
pending_task id intent key now = record {
  id = id;
  intent = intent;
  key = key;
  status = TaskStatus.pending;
  attempts = 0;
  created_at = now;
  available_at = some now;
  processing_started_at = none;
}

-- no row of the outbox has the key
abbrev pub is_new : Key → List Task → Bool
is_new key ts = not (any (λ t. key_eq key t.key) ts)

enqueue-new : (t : Task) (ts : List Task) → is_new t.key ts ≡ true → enqueue t ts ≡ t ∷ ts
unfolding enqueue
enqueue-new t ts h = ground arith

coalesce-or_else : (a b : Option Text) → coalesce a b ≡ or_else a b
coalesce-or_else none b = refl
coalesce-or_else (some a) b = refl

module _ (d : Desk) (user : Claims) (c : Callback) (db : Db) (r : Intent)
    (found : find_intent d c db.intents ≡ some r) (keyed : get_intent r.id db.intents ≡ some r)
    (access : verify_merchant_access user r.merchant_id ≡ true) where
  -- A failure that the checkout page reports, for a row on record that the caller may see and with a key
  -- that no task has yet, sets the row to FAILED, whatever its state was, keeps the payment of the row if the report names
  -- none, and adds a pending task for the intent. But as long as the row stays as it is, a run of the
  -- resolver on it finds a terminal state and leaves the database and the outside alone.
  pub reported_failure_is_final :
      (payment : Option Text) (env : Env) (w : World)
      → is_new (Key.outbox_failure (or_text d.fresh_hex payment)) db.outbox ≡ true
      → get_intent r.id w.db.intents
        ≡ get_intent r.id (report_checkout_failure d user c payment db).0.intents
      → let db' = (report_checkout_failure d user c payment db).0 in
        (get_intent r.id db'.intents
          ≡ some (record r {
            active_payment_id = or_else payment r.active_payment_id;
            current_state = PaymentState.failed;
            updated_at = d.now;
          }))
        × (db'.outbox
            ≡ pending_task d.fresh_task r.id
                (Key.outbox_failure (or_text d.fresh_hex payment))
                d.now
              ∷ db.outbox)
        × ((resolve env r.id w).0.db ≡ w.db)
        × ((resolve env r.id w).0.outside ≡ w.outside)
  unfolding report_checkout_failure record_failure fail_payment checkout_task is_terminal
  reported_failure_is_final payment env w new same =
      let failed = fail_payment d payment r in
      let recorded : (report_checkout_failure d user c payment db).0
          ≡ record_failure d payment r db =
        rw (found, access) refl in
      let row : get_intent r.id (report_checkout_failure d user c payment db).0.intents
          ≡ some failed =
        rw recorded
          (get_intent-update_self r.id (fail_payment d payment) db.intents r refl keyed) in
      let (db_same, outside_same) = terminal_untouched env failed w (same ∙ row) refl in
      (
        row
            ∙ ap
                (λ p. some (record r {
                  active_payment_id = p;
                  current_state = PaymentState.failed;
                  updated_at = d.now;
                }))
                (coalesce-or_else payment r.active_payment_id),
        rw recorded (
            enqueue-new (checkout_task d (Key.outbox_failure (or_text d.fresh_hex payment)) r.id)
              db.outbox new),
        db_same,
        outside_same,
      )

  -- A checkout callback with a valid signature, for a payment that does not stand on the row already,
  -- whose row the caller may see and is in a terminal state, and with a key that no task has yet, sets the row to AUTHORIZED
  -- with that payment and adds a pending task for the intent, although no event of the state machine
  -- leads from that state to AUTHORIZED.
  pub verified_overwrites_terminal :
      (payment signature : Text) (e : Event)
      → verify_payment_signature d (server_order c r) payment signature ≡ true
      → already_verified payment r ≡ false
      → is_terminal r.current_state ≡ true
      → is_new (Key.outbox_checkout payment) db.outbox ≡ true
      → let db' = (verify_checkout_payment d user c payment signature db).0 in
        (get_intent r.id db'.intents
          ≡ some (record r {
            active_payment_id = some payment;
            current_state = PaymentState.authorized;
            updated_at = d.now;
          }))
        × (db'.outbox
            ≡ pending_task d.fresh_task r.id (Key.outbox_checkout payment) d.now ∷ db.outbox)
        × (transition r.current_state e ≢ PaymentState.authorized)
  unfolding verify_checkout_payment link_payment authorize checkout_task
  verified_overwrites_terminal payment signature e signed fresh t new =
      rw (found, access, signed, fresh)
        (
          get_intent-update_self r.id (authorize d payment) db.intents r refl keyed,
          enqueue-new (checkout_task d (Key.outbox_checkout payment) r.id) db.outbox new,
          terminal_never_authorized r.current_state e t,
        )
