-- ===== src/Checkout/Signed.antt =====
-- The signature check of the checkout callback in api/orders_routes.py, and its repetition.
use resolver_ai.Prelude.{
  ℕ, ◌≡◌, ◌≢◌, ◌⊎◌, refl, ◌∙◌, [], ◌∷◌, inl, inr, Bool, true, Option, none, some, Text,
  text_eq_refl, Bool-cases,
}
use resolver_ai.Store.{Intent, Db}
use resolver_ai.Access.{Claims, verify_merchant_access}
use resolver_ai.Webhook.{or_text}
use resolver_ai.Checkout.Named.{find_intent-update}
use resolver_ai.Checkout.{Desk, verify_payment_signature}
use resolver_ai.Checkout.Page.{
  Callback, CheckoutAnswer, find_intent, server_order, already_verified, authorize, link_payment,
  accept, verify_row, verify_checkout_payment,
}

-- The order id that a signature has to fit: that of the row, or that of the callback where the row has
-- none.
abbrev pub OrderFor : Callback → Intent → Text → Type 0
OrderFor c r order =
    ((r.razorpay_order_id ≡ some order) × (order ≢ []))
    ⊎ (((r.razorpay_order_id ≡ none) ⊎ (r.razorpay_order_id ≡ some []))
        × (order ≡ c.razorpay_order_id))

server_order-OrderFor :
    (c : Callback) (r : Intent) (o : Option Text)
    → r.razorpay_order_id ≡ o
    → OrderFor c r (or_text c.razorpay_order_id o)
server_order-OrderFor c r none e = inr (inl e, refl)
server_order-OrderFor c r (some []) e = inr (inr e, refl)
server_order-OrderFor c r (some (x ∷ o)) e = inl (e, λ k. cc)

-- What stands behind an answer: a verified payment belongs to the row that the callback names, the
-- caller may see it and the signature fits its order id; the other answers leave the database alone.
abbrev pub Judged : Desk → Claims → Callback → Text → Text → Db → Db × CheckoutAnswer → Type 0
Judged d user c payment signature db (db', CheckoutAnswer.verified id again) =
    (r : Intent) × (find_intent d c db.intents ≡ some r)
    × (r.id ≡ id)
    × (verify_merchant_access user r.merchant_id ≡ true)
    × ((order : Text) × OrderFor c r order
        × (verify_payment_signature d order payment signature ≡ true))
Judged d user c payment signature db (db', CheckoutAnswer.not_found) = db' ≡ db
Judged d user c payment signature db (db', CheckoutAnswer.forbidden) = db' ≡ db
Judged d user c payment signature db (db', CheckoutAnswer.bad_signature) = db' ≡ db
Judged d user c payment signature db (db', CheckoutAnswer.recorded id) = ⊥

module _ (d : Desk) (user : Claims) (c : Callback) (payment signature : Text) (db : Db) where
  accept-Judged :
      (r : Intent)
      → find_intent d c db.intents ≡ some r
      → verify_merchant_access user r.merchant_id ≡ true
      → verify_payment_signature d (server_order c r) payment signature ≡ true
      → Judged d user c payment signature db (accept d payment r db)
  accept-Judged r found access signed =
      let fits : (order : Text) × OrderFor c r order
          × (verify_payment_signature d order payment signature ≡ true) =
        (server_order c r, server_order-OrderFor c r r.razorpay_order_id refl, signed) in
      elim (Bool-cases (already_verified payment r)) [
        | inl e ↦ rw e (r, found, refl, access, fits)
        | inr e ↦ rw e (r, found, refl, access, fits)
      ]

  signed-Judged :
      (r : Intent)
      → find_intent d c db.intents ≡ some r
      → verify_merchant_access user r.merchant_id ≡ true
      → Judged d user c payment signature db (verify_row d user c payment signature db (some r))
  signed-Judged r found access =
      elim (Bool-cases (verify_payment_signature d (server_order c r) payment signature)) [
        | inl e ↦ rw (access, e) (accept-Judged r found access e)
        | inr e ↦ rw (access, e) refl
      ]

  verify_row-Judged :
      (o : Option Intent)
      → find_intent d c db.intents ≡ o
      → Judged d user c payment signature db (verify_row d user c payment signature db o)
  verify_row-Judged none found = refl
  verify_row-Judged (some r) found = elim (Bool-cases (verify_merchant_access user r.merchant_id)) [
    | inl e ↦ signed-Judged r found e
    | inr e ↦ rw e refl
  ]

  -- A checkout callback that is answered as verified names a row that the caller may see, and its
  -- signature fits the order id of that row or, where the row has none, the order id that the callback
  -- itself names. A callback that is refused, because there is no such row,
  -- it belongs to another merchant or the signature does not fit, leaves the database as it was.
  pub verify_checkout-Judged :
      Judged d user c payment signature db (verify_checkout_payment d user c payment signature db)
  unfolding verify_checkout_payment
  verify_checkout-Judged = verify_row-Judged (find_intent d c db.intents) refl

-- A repeated callback: the payment stands on the row as authorized.
authorize-verified :
    (d : Desk) (payment : Text) (r : Intent)
    → already_verified payment (authorize d payment r) ≡ true
unfolding authorize
authorize-verified d payment r = text_eq_refl payment

module _ (d : Desk) (user : Claims) (c : Callback) (payment signature : Text) (db : Db) where
  again-verified :
      (r : Intent) (db' : Db)
      → find_intent d c db'.intents ≡ some r
      → verify_merchant_access user r.merchant_id ≡ true
      → verify_payment_signature d (server_order c r) payment signature ≡ true
      → already_verified payment r ≡ true
      → verify_checkout_payment d user c payment signature db'
        ≡ (db', CheckoutAnswer.verified r.id true)
  unfolding verify_checkout_payment
  again-verified r db' found access signed done = rw (found, access, signed, done) refl

-- After a verified callback the row that it names carries the payment, and the callback still fits it.
abbrev Standing : Desk → Claims → Callback → Text → Text → Db × CheckoutAnswer → Type 0
Standing d user c payment signature (db', CheckoutAnswer.verified id again) =
    (r : Intent) × (find_intent d c db'.intents ≡ some r)
    × (r.id ≡ id)
    × (verify_merchant_access user r.merchant_id ≡ true)
    × (verify_payment_signature d (server_order c r) payment signature ≡ true)
    × (already_verified payment r ≡ true)
Standing d user c payment signature (db', _) = Unit

module _ (d : Desk) (user : Claims) (c : Callback) (payment signature : Text) (db : Db) where
  linked :
      (r : Intent)
      → find_intent d c db.intents ≡ some r
      → find_intent d c (link_payment d payment r db).intents ≡ some (authorize d payment r)
  unfolding link_payment authorize
  linked r found =
      find_intent-update r.id (authorize d payment) (λ x. refl) d db.intents (λ x. refl) c r found
        refl

  accept-Standing :
      (r : Intent)
      → find_intent d c db.intents ≡ some r
      → verify_merchant_access user r.merchant_id ≡ true
      → verify_payment_signature d (server_order c r) payment signature ≡ true
      → Standing d user c payment signature (accept d payment r db)
  unfolding authorize
  accept-Standing r found access signed = elim (Bool-cases (already_verified payment r)) [
    | inl e ↦ rw e (r, found, refl, access, signed, e)
    | inr e ↦ rw e (
      authorize d payment r,
      linked r found,
      refl,
      access,
      signed,
      authorize-verified d payment r,
    )
  ]

  signed-Standing :
      (r : Intent)
      → find_intent d c db.intents ≡ some r
      → verify_merchant_access user r.merchant_id ≡ true
      → Standing d user c payment signature (verify_row d user c payment signature db (some r))
  signed-Standing r found access =
      elim (Bool-cases (verify_payment_signature d (server_order c r) payment signature)) [
        | inl e ↦ rw (access, e) (accept-Standing r found access e)
        | inr e ↦ rw (access, e) tt
      ]

  verify_row-Standing :
      (o : Option Intent)
      → find_intent d c db.intents ≡ o
      → Standing d user c payment signature (verify_row d user c payment signature db o)
  verify_row-Standing none found = tt
  verify_row-Standing (some r) found =
      elim (Bool-cases (verify_merchant_access user r.merchant_id)) [
        | inl e ↦ signed-Standing r found e
        | inr e ↦ rw e tt
      ]

  verify-Standing :
      Standing d user c payment signature (verify_checkout_payment d user c payment signature db)
  unfolding verify_checkout_payment
  verify-Standing = verify_row-Standing (find_intent d c db.intents) refl

  repeat-Standing :
      (x : Db × CheckoutAnswer) (id : ℕ) (again : Bool)
      → Standing d user c payment signature x
      → x.1 ≡ CheckoutAnswer.verified id again
      → verify_checkout_payment d user c payment signature x.0
        ≡ (x.0, CheckoutAnswer.verified id true)
  repeat-Standing (db', CheckoutAnswer.verified i a) id again (r, found, same, access, signed, done)
        e =
      again-verified d user c payment signature db r db' found access signed done ∙ (cc)
  repeat-Standing (db', CheckoutAnswer.not_found) id again s e = cc
  repeat-Standing (db', CheckoutAnswer.forbidden) id again s e = cc
  repeat-Standing (db', CheckoutAnswer.bad_signature) id again s e = cc
  repeat-Standing (db', CheckoutAnswer.recorded i) id again s e = cc

  -- A checkout callback that was answered as verified is answered as verified when it is sent again,
  -- for the same intent, and then changes nothing.
  pub verify_twice :
      (id : ℕ) (again : Bool)
      → (verify_checkout_payment d user c payment signature db).1 ≡ CheckoutAnswer.verified id again
      → verify_checkout_payment d user c payment signature
          (verify_checkout_payment d user c payment signature db).0
        ≡ (
          (verify_checkout_payment d user c payment signature db).0,
          CheckoutAnswer.verified id true,
        )
  verify_twice id again e =
      repeat-Standing (verify_checkout_payment d user c payment signature db) id again
        verify-Standing e
