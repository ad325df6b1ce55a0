-- ===== src/Webhook/Redelivery.antt =====
-- What a second delivery of an event does, and which deliveries are lost.
use resolver_ai.Prelude.{
  ℕ, ◌≡◌, refl, ap, ◌∙◌, ◌⊎◌, inl, inr, [], ◌∷◌, truthy, codes, text_eq, upper, upper_code, Bool,
  true, false, Option, none, some, arith, Text, text_eq_refl, subst,
}
use resolver_ai.Money.{
  Result, ok, err, Currency, currency_code, finite, validate_currency, minor_units_to_decimal,
  lstrip, rstrip, find_currency, is_space, is_zero_decimal, quantize, round_half_up,
}
use resolver_ai.Idempotency.{Dedup, verify_idempotency_payload}
use resolver_ai.Store.{has_event}
use resolver_ai.Webhook.{
  Payload, Delivery, Receiver, Site, Answer, source, external_event_id, verify_webhook_signature,
  event_key, or_text, first_positive,
}
use resolver_ai.Webhook.Handling.{
  persist, by_dedup, amount_of, after_amount, after_parse, after_signature, handle_razorpay_webhook,
  add_event, upsert, target_intent, new_intent,
}

-- the event of a delivery is on record, under whatever the body parses to
abbrev pub OnRecord : Receiver → Delivery → Site → Type 0
OnRecord h d s =
    (p : Payload)
    → h.parse d.body ≡ some p
    → has_event source (external_event_id h d p) s.db.events ≡ true

by_dedup-known :
    (h : Receiver) (d : Delivery) (p : Payload) (n : ℕ) (c : Text) (s : Site) (k : Dedup)
    → has_event source (external_event_id h d p) s.db.events ≡ true
    → (by_dedup h d p n c s k).0.db ≡ s.db
unfolding persist
by_dedup-known h d p n c s Dedup.payload_mismatch e = refl
by_dedup-known h d p n c s Dedup.valid_duplicate e = refl
by_dedup-known h d p n c s Dedup.new e = rw e refl

after_amount-known :
    (h : Receiver) (d : Delivery) (p : Payload) (s : Site) (r : Result (ℕ × Currency))
    → has_event source (external_event_id h d p) s.db.events ≡ true
    → (after_amount h d p s r).0.db ≡ s.db
after_amount-known h d p s (err e) k = refl
after_amount-known h d p s (ok (n, c)) k = by_dedup-known h d p n (currency_code c) s _ k

after_parse-known :
    (h : Receiver) (d : Delivery) (s : Site) (o : Option Payload)
    → h.parse d.body ≡ o
    → OnRecord h d s
    → (after_parse h d s o).0.db ≡ s.db
after_parse-known h d s none e k = refl
after_parse-known h d s (some p) e k = after_amount-known h d p s (amount_of p) (k p e)

after_signature-known :
    (h : Receiver) (d : Delivery) (s : Site) (o : Option Bool)
    → OnRecord h d s
    → (after_signature h d s o).0.db ≡ s.db
after_signature-known h d s none k = refl
after_signature-known h d s (some false) k = refl
after_signature-known h d s (some true) k = after_parse-known h d s (h.parse d.body) refl k

-- A delivery of an event that is on record changes nothing in the database, whatever Redis and the
-- memory know of it.
pub redelivery_changes_nothing :
    (h : Receiver) (d : Delivery) (s : Site)
    → OnRecord h d s
    → (handle_razorpay_webhook h d s).0.db ≡ s.db
unfolding handle_razorpay_webhook
redelivery_changes_nothing h d s k =
    after_signature-known h d s (verify_webhook_signature h d.body d.signature) k

added_is_on_record :
    (ext : Text) (id : ℕ) (p : Payload) (s : Site)
    → has_event source ext (add_event p ext id s).db.events ≡ true
unfolding has_event
added_is_on_record ext id p s = ground (arith, text_eq_refl source, text_eq_refl ext)

persist-zero :
    (h : Receiver) (d : Delivery) (p : Payload) (c : Text) (s : Site)
    → has_event source (external_event_id h d p) s.db.events ≡ false
    → persist h d p 0 c s
      ≡ (add_event p (external_event_id h d p) (target_intent h p s.db.intents) s, Answer.failed)
unfolding persist upsert new_intent
persist-zero h d p c s e = rw e refl

handled-zero :
    (h : Receiver) (d : Delivery) (p : Payload) (c : Currency) (s : Site)
    → verify_webhook_signature h d.body d.signature ≡ some true
    → h.parse d.body ≡ some p
    → amount_of p ≡ ok (0, c)
    → verify_idempotency_payload h.redis_reply
        (event_key (external_event_id h d p))
        (h.hash d.body)
        s.marks
      ≡ Dedup.new
    → has_event source (external_event_id h d p) s.db.events ≡ false
    → handle_razorpay_webhook h d s
      ≡ (add_event p (external_event_id h d p) (target_intent h p s.db.intents) s, Answer.failed)
unfolding handle_razorpay_webhook
handled-zero h d p c s signed parsed amount new unknown =
    ap (after_signature h d s) signed
    ∙ ap (after_parse h d s) parsed
    ∙ ap (after_amount h d p s) amount
    ∙ ap (by_dedup h d p 0 (currency_code c) s) new
    ∙ persist-zero h d p (currency_code c) s unknown

-- the event carries an id of its own, in its header or in its body
abbrev pub HasId : Delivery → Payload → Type 0
HasId d p = (truthy d.event_id ≡ true) ⊎ (truthy p.event_id ≡ true)

or_text-any : (a b : Text) (o : Option Text) → truthy o ≡ true → or_text a o ≡ or_text b o
or_text-any a b none e = ground arith
or_text-any a b (some []) e = ground arith
or_text-any a b (some (x ∷ t)) e = refl

external_event_id-same :
    (h h' : Receiver) (d : Delivery) (p : Payload)
    → HasId d p
    → external_event_id h d p ≡ external_event_id h' d p
unfolding external_event_id
external_event_id-same h h' d p (inl e) =
    or_text-any (or_text h.fresh_event p.event_id) (or_text h'.fresh_event p.event_id) d.event_id e
external_event_id-same h h' d p (inr e) =
    ap (λ t. or_text t d.event_id) (or_text-any h.fresh_event h'.fresh_event p.event_id e)

zero_decimal :
    (c : Currency) → minor_units_to_decimal false 0 (currency_code c) ≡ ok (finite false 0 2)
unfolding minor_units_to_decimal validate_currency lstrip rstrip find_currency text_eq upper
    upper_code is_space is_zero_decimal quantize round_half_up
zero_decimal Currency.inr = refl
zero_decimal Currency.usd = refl
zero_decimal Currency.eur = refl
zero_decimal Currency.gbp = refl
zero_decimal Currency.aud = refl
zero_decimal Currency.cad = refl
zero_decimal Currency.sgd = refl
zero_decimal Currency.jpy = refl
zero_decimal Currency.krw = refl

amount_of-zero :
    (p : Payload) (c : Currency)
    → validate_currency (or_text (or_text (codes "INR") p.order_currency) p.payment_currency) ≡ ok c
    → first_positive p.payment_amount (first_positive p.order_amount p.refund_amount) ≡ 0
    → amount_of p ≡ ok (0, c)
unfolding amount_of
amount_of-zero p c valid zero = rw (valid, zero) (rw (zero_decimal c) refl)

-- A genuine event that carries an id, in a supported currency and without an amount, which neither
-- Redis, the memory nor the database knows, is lost: the delivery fails, but puts the event on record; it
-- enqueues no task and writes no intent; and a second delivery, which draws other fresh values and parses
-- the body to the same event, changes nothing in the database.
pub zero_amount_is_lost :
    (h h' : Receiver) (d : Delivery) (p : Payload) (c : Currency) (s : Site)
    → verify_webhook_signature h d.body d.signature ≡ some true
    → h.parse d.body ≡ some p
    → h'.parse d.body ≡ some p
    → validate_currency (or_text (or_text (codes "INR") p.order_currency) p.payment_currency) ≡ ok c
    → first_positive p.payment_amount (first_positive p.order_amount p.refund_amount) ≡ 0
    → verify_idempotency_payload h.redis_reply
        (event_key (external_event_id h d p))
        (h.hash d.body)
        s.marks
      ≡ Dedup.new
    → has_event source (external_event_id h d p) s.db.events ≡ false
    → HasId d p
    → let (s', a) = handle_razorpay_webhook h d s in
      (a ≡ Answer.failed)
      × (has_event source (external_event_id h d p) s'.db.events ≡ true)
      × (s'.db.outbox ≡ s.db.outbox)
      × (s'.db.intents ≡ s.db.intents)
      × ((handle_razorpay_webhook h' d s').0.db ≡ s'.db)
zero_amount_is_lost h h' d p c s signed parsed again valid zero new unknown named =
    let ext = external_event_id h d p in
    let s' = add_event p ext (target_intent h p s.db.intents) s in
    let there = added_is_on_record ext (target_intent h p s.db.intents) p s in
    let lost : handle_razorpay_webhook h d s ≡ (s', Answer.failed) =
      handled-zero h d p c s signed parsed (amount_of-zero p c valid zero) new unknown in
    rw lost (
      refl,
      there,
      refl,
      refl,
      redelivery_changes_nothing h' d s' (λ q same.
          let now : p ≡ q = cc (again, same) in
          subst (λ x. has_event source (external_event_id h' d x) s'.db.events ≡ true) now
            (subst (λ e. has_event source e s'.db.events ≡ true)
              (external_event_id-same h h' d p named) there)),
    )
