-- ===== src/Payments/Tenants.antt =====
-- Which caller reaches which intent by api/payment_routes.py and api/razorpay_verify_routes.py.
use resolver_ai.Prelude.{
  ℕ, ◌≡◌, refl, ap, ◌∙◌, inl, inr, true, false, Option, none, some, ◌∷◌, Text, codes, Bool-cases,
}
use resolver_ai.Provider.{ok, Provider}
use resolver_ai.Schemas.{Payment}
use resolver_ai.Store.{Intent, Audit, get_intent}
use resolver_ai.Access.{Claims, Codec, allowed, require_permission, verify_merchant_access}
use resolver_ai.Resolver.{resolve}
use resolver_ai.Resolver.Setting.{Env, World, Response}
use resolver_ai.Payments.{
  Shown, bad_request, not_found, forbidden, shown, guard_row, run_if, reconcile_payment,
  get_payment_intent, Verified, from_payment, by_payment, verify_found,
  verify_payment_with_razorpay, verify_if,
}

-- What stands behind an answer of the reconciliation on demand: a run of the resolver on an intent that
-- the caller may see, or a refusal that leaves the world alone.
abbrev pub Reconciled : Env → Claims → World → World × Shown Response → Type 0
Reconciled env user w (w', shown x) =
    (id : ℕ) × (r : Intent) × (get_intent id w.db.intents ≡ some r)
    × (verify_merchant_access user r.merchant_id ≡ true)
    × (w' ≡ (resolve env r.id w).0)
    × (x ≡ (resolve env r.id w).1)
Reconciled env user w (w', bad_request) = w' ≡ w
Reconciled env user w (w', not_found) = w' ≡ w
Reconciled env user w (w', forbidden) = w' ≡ w

guarded-Reconciled :
    (env : Env) (user : Claims) (w : World) (id : ℕ) (o : Option Intent)
    → get_intent id w.db.intents ≡ o
    → Reconciled env user w (run_if env w (guard_row user (λ r. r) o))
guarded-Reconciled env user w id none h = refl
guarded-Reconciled env user w id (some r) h =
    elim (Bool-cases (verify_merchant_access user r.merchant_id)) [
      | inl e ↦ rw e (id, r, h, e, refl, refl)
      | inr e ↦ rw e refl
    ]

-- A reconciliation on demand runs the resolver exactly for an intent on record that the caller may see;
-- for a malformed id, an unknown intent or an intent of another merchant it changes nothing.
pub reconcile_payment-Reconciled :
    (env : Env) (user : Claims) (id : Option ℕ) (w : World)
    → Reconciled env user w (reconcile_payment env user id w)
unfolding reconcile_payment
reconcile_payment-Reconciled env user none w = refl
reconcile_payment-Reconciled env user (some id) w =
    guarded-Reconciled env user w id (get_intent id w.db.intents) refl

-- The verification with the provider does not ask for the merchant: a caller of any merchant whose token
-- has the permission to verify, and to whom the read of an intent with a payment is forbidden as one of
-- another merchant, is shown that intent and the provider's record of its payment, if the provider
-- answers. The database gains an audit event of the verification, and nothing else.
pub verify_crosses_merchants :
    (k : Codec) (now : ℕ) (authorization : Option Text) (w : World) (p : Provider) (user : Claims)
    (id : ℕ) (r : Intent) (c : ℕ) (payment : Text) (snapshot : Option Payment)
    → require_permission k now (codes "write:verify_razorpay") authorization ≡ allowed user
    → verify_merchant_access user r.merchant_id ≡ false
    → get_intent id w.db.intents ≡ some r
    → r.active_payment_id ≡ some (c ∷ payment)
    → p.get_payment w.outside.sent (c ∷ payment) ≡ ok snapshot
    → (get_payment_intent user (some id) w.db ≡ forbidden)
      × (verify_payment_with_razorpay k now authorization true w p (some id) ≡ (
        record w.db { audits = Audit.provider_verified r.id ∷ w.db.audits },
        Verified.payment_snapshot r snapshot,
      ))
unfolding verify_payment_with_razorpay get_payment_intent
verify_crosses_merchants k now authorization w p user id r c payment snapshot permitted refused
      found linked answered =
    (
      rw (found, refused) refl,
      ap (verify_if true w p (some id)) permitted
          ∙ ap (verify_found true w p) found
          ∙ ap (by_payment w p r) linked
          ∙ ap (from_payment w.db r) answered,
    )
