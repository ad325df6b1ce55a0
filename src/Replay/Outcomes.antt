-- ===== src/Replay/Outcomes.antt =====
-- What a replay of core/replay.py changes.
use resolver_ai.Prelude.{ℕ, ◌≡◌, refl, sym, ap, subst, ◌∙◌, inl, inr, true, none, codes, Bool-cases}
use resolver_ai.Schemas.{IntentData, Key, NegotiatorResult}
use resolver_ai.Provider.{Outside, Outcome, returned, raised, is_real}
use resolver_ai.Negotiator.{verify, verify_on_rail, lookup_payment}
use resolver_ai.Rail
use resolver_ai.Rail.{is_processed}
use resolver_ai.Rail.Idempotent.{authorize_twice, authorize-is_processed}
use resolver_ai.Resolver.Setting.{Env}
use resolver_ai.Replay.{simulated_intent, after_verify, simulate, replay_intent}

-- The simulated intent names neither a payment nor an order, so that the verification is left to the
-- synthetic rail in every mode.
verify-simulated :
    (env : Env) (id : ℕ) (o : Outside)
    → (verify env.mode env.provider env.lucky env.verify_hex
        (simulated_intent id)
        (Key.idem_replay id)
        o).0
      ≡ (verify_on_rail env.lucky env.verify_hex (simulated_intent id) (Key.idem_replay id) o).0
unfolding verify lookup_payment simulated_intent
verify-simulated env id o = elim (Bool-cases (is_real env.mode)) [
  | inl e ↦ rw e refl
  | inr e ↦ rw e refl
]

after_verify-outside :
    (env : Env) (intent : IntentData) (key : Key) (r : Outside × Outcome NegotiatorResult)
    → (after_verify env intent key r).0 ≡ r.0
after_verify-outside env intent key (o, raised) = refl
after_verify-outside env intent key (o, returned ext) = refl

replay-outside :
    (env : Env) (id : ℕ) (o : Outside)
    → (replay_intent env id none o).0 ≡ record o {
      rail =
          (Rail.authorize none
            (env.lucky (codes "RAZORPAY_TEST"))
            env.verify_hex
            10000
            (Key.idem_replay id)
            o.rail).0;
    }
unfolding replay_intent simulate verify_on_rail simulated_intent
replay-outside env id o =
    after_verify-outside env (simulated_intent id) (Key.idem_replay id) _
    ∙ verify-simulated env id o

-- A replay without a database sends nothing to the provider, but is not read-only: it leaves its key
-- with the synthetic rail. A second replay of the intent finds that key and leaves the rail alone.
pub replay_marks_rail :
    (env again : Env) (id : ℕ) (o : Outside)
    → let o1 = (replay_intent env id none o).0 in
      (o1.sent ≡ o.sent)
      × (is_processed (Key.idem_replay id) o1.rail ≡ true)
      × ((replay_intent again id none o1).0 ≡ o1)
replay_marks_rail env again id o =
    let key = Key.idem_replay id in
    let lucky = env.lucky (codes "RAZORPAY_TEST") in
    let first = Rail.authorize none lucky env.verify_hex 10000 key o.rail in
    let after = record o { rail = first.0 } in
    let again_lucky = again.lucky (codes "RAZORPAY_TEST") in
    let twice =
      authorize_twice none none lucky again_lucky env.verify_hex again.verify_hex 10000 10000 key
        o.rail in
    (
      ap (λ x. x.sent) (replay-outside env id o),
      ap (λ x. is_processed key x.rail) (replay-outside env id o)
          ∙ authorize-is_processed none lucky env.verify_hex 10000 key o.rail,
      subst (λ x. (replay_intent again id none x).0 ≡ x) (sym (replay-outside env id o))
          (replay-outside again id after ∙ ap (λ r. record o { rail = r.0 }) twice),
    )
