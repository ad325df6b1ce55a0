-- ===== src/Webhook/Upsert.antt =====
-- What a delivery makes of the row of its payment intent.
use resolver_ai.Prelude.{
  ℕ, ◌<◌, ◌≡◌, refl, sym, inl, inr, Bool, true, false, some, ◌++◌, arith, Bool-cases, Text, codes,
  text_eq, text_eq_sound, if◌then◌else◌, ◌==◌, ◌||◌, leb,
}
use resolver_ai.Domain.{PaymentState}
use resolver_ai.Store.{numeric_limit, Intent, get_intent, update_intent, has_event}
use resolver_ai.Store.Laws.{get_intent-update_self, get_intent-id}
use resolver_ai.Webhook.{
  Payload, Delivery, Receiver, Site, source, external_event_id, event_type_of, is_supported,
}
use resolver_ai.Webhook.Handling.{
  persist, merged_state, merge, upsert, target_intent, new_intent, hand_over, add_event,
  set_intents,
}

abbrev failure : Text
failure = codes "payment.failed"

refunded-not_failure :
    (e : Text) → text_eq e (codes "payment.refunded") ≡ true → text_eq e failure ≡ false
unfolding text_eq
refunded-not_failure e h = rw (text_eq_sound e (codes "payment.refunded") h) refl

unsupported-not_failure : (e : Text) → is_supported e ≡ false → text_eq e failure ≡ false
unfolding is_supported
unsupported-not_failure e h = ground arith

flow-failure :
    (r b : Bool) (e : Text)
    → (r ≡ true → text_eq e failure ≡ false)
    → (b ≡ false → text_eq e failure ≡ false)
    → text_eq
        (if r then codes "refund.processed" else if b then e else codes "UNSUPPORTED_" ++ e)
        failure
      ≡ text_eq e failure
unfolding text_eq
flow-failure true b e h k = sym (h refl)
flow-failure false true e h k = refl
flow-failure false false e h k = sym (k refl)

event_type_of-failed : (e : Text) → text_eq (event_type_of e) failure ≡ text_eq e failure
unfolding event_type_of
event_type_of-failed e =
    flow-failure (text_eq e (codes "payment.refunded")) (is_supported e) e (refunded-not_failure e)
      (unsupported-not_failure e)

-- the state that an event leaves
merged-state :
    (b : Bool) (s : PaymentState)
    → merged_state (if b then PaymentState.failed else PaymentState.pending_rail) s
      ≡ (if b then PaymentState.failed else s)
merged-state true s = refl
merged-state false s = refl

hand_over-intents :
    (h : Receiver) (d : Delivery) (p : Payload) (ext : Text) (id : ℕ) (s : Site)
    → (hand_over h d p ext id s).0.db.intents ≡ s.db.intents
unfolding hand_over
hand_over-intents h d p ext id s = elim (Bool-cases (is_supported p.event)) [
  | inl q ↦ rw q refl
  | inr q ↦ rw q refl
]

module _ (h : Receiver) (d : Delivery) (p : Payload) (n : ℕ) (c : Text) (s : Site) (row : Intent)
    (fresh : has_event source (external_event_id h d p) s.db.events ≡ false) (positive : 0 < n)
    (small : n < numeric_limit)
    (found : get_intent (target_intent h p s.db.intents) s.db.intents ≡ some row) where
  persisted-intents :
      (persist h d p n c s).0.db.intents
      ≡ update_intent
          (target_intent h p s.db.intents)
          (merge (new_intent h p (target_intent h p s.db.intents) n c))
          s.db.intents
  unfolding persist upsert new_intent
  persisted-intents =
      let amount : (n == 0 || leb numeric_limit n) ≡ false = ground arith in
      let id = target_intent h p s.db.intents in
      let ext = external_event_id h d p in
      let new = new_intent h p id n c in
      rw (fresh, amount, found)
        (hand_over-intents h d p ext id
          (set_intents (add_event p ext id s) (update_intent id (merge new) s.db.intents)))

  -- A new event with a positive amount that the column can hold, for an intent on record, sets the intent's state to FAILED if it
  -- is payment.failed, whatever the state was, a terminal one included, and keeps the state otherwise;
  -- the version stays.
  pub delivered_state :
      let id = target_intent h p s.db.intents in
      (row' : Intent) × (get_intent id (persist h d p n c s).0.db.intents ≡ some row')
      × (row'.current_state ≡ (
          if text_eq p.event (codes "payment.failed")
          then PaymentState.failed
          else row.current_state))
      × (row'.version ≡ row.version)
  unfolding new_intent
  delivered_state =
      let id = target_intent h p s.db.intents in
      let new = new_intent h p id n c in
      (
        merge new row,
        rw persisted-intents (
            get_intent-update_self id (merge new) s.db.intents row
              (get_intent-id id s.db.intents row found) found),
        rw (event_type_of-failed p.event)
            (merged-state (text_eq p.event (codes "payment.failed")) row.current_state),
        refl,
      )
