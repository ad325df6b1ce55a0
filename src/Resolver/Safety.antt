-- ===== src/Resolver/Safety.antt =====
-- What a run of core/resolver.py may send to the provider, and why.
use resolver_ai.Prelude.{
  ℕ, ◌≡◌, refl, ◌⊎◌, inl, inr, false, Option, none, some, List, ◌∷◌, subst, Bool-cases,
}
use resolver_ai.Schemas.{IntentData, Key, NegotiatorResult}
use resolver_ai.StateMachine.{is_terminal}
use resolver_ai.Policy.{evaluate}
use resolver_ai.Policy.Gate.{approve-iff-IsAdmissible}
use resolver_ai.Policy.Admissible.{IsAdmissible}
use resolver_ai.Detective.{analyze}
use resolver_ai.Negotiator.{verify}
use resolver_ai.Negotiator.Evidence.{verify_sends_nothing}
use resolver_ai.Provider.{Mutation, Outside, Outcome, returned, raised}
use resolver_ai.Money.{Result, ok, err}
use resolver_ai.Reconciliation.{ReconciliationResult, reconcile}
use resolver_ai.Idempotency.{acquire_intent_lock}
use resolver_ai.Store.{Intent, get_intent, event_types_of, executions_of}
use resolver_ai.Resolver.{resolve, resolve_locked, release, on_row}
use resolver_ai.Resolver.Requests.{Performs, act-sends, after_action-outside}
use resolver_ai.Resolver.Setting.{Env, World, Response}
use resolver_ai.Resolver.Stages.{
  load_intent, log_verify, act, decide, after_reconcile, after_verify, gather, set_outside,
  api_evidence,
}

-- What justifies a request for an intent: the evidence that the verification has returned and the
-- proposal are such that the gate admits them, and the request is the action of the proposal, over
-- the intent's own amount.
abbrev pub JustifiedBy : Env → IntentData → NegotiatorResult → Mutation → Type 0
JustifiedBy env intent ext m =
    let det = analyze env.ai env.llm intent in
    IsAdmissible intent ext det × Performs det.recommended_action intent.amount m

abbrev pub verification : Env → IntentData → Outside → Outside × Outcome NegotiatorResult
verification env intent o =
    verify env.mode env.provider env.lucky env.verify_hex intent
      (Key.idem intent.payment_intent_id intent.version) o

abbrev pub Justified : Env → IntentData → Outside → Mutation → Type 0
Justified env intent o m =
    (ext : NegotiatorResult) × ((verification env intent o).1 ≡ returned ext)
    × JustifiedBy env intent ext m

-- the requests are as before, or one more with a property
abbrev pub SendsWith : (Mutation → Type 0) → List Mutation → List Mutation → Type 0
SendsWith P before after = (after ≡ before) ⊎ ((m : Mutation) × (after ≡ m ∷ before) × P m)

decide-sends :
    (env : Env) (intent : IntentData) (ext : NegotiatorResult) (key : Key)
    (recon : ReconciliationResult) (w : World)
    → SendsWith
        (JustifiedBy env intent ext)
        w.outside.sent
        (decide env intent ext key recon w).0.outside.sent
unfolding decide log_verify
decide-sends env intent ext key recon w =
    let det = analyze env.ai env.llm intent in
    let d = evaluate env.decision_id intent ext det in
    let w1 = log_verify intent ext key w in
    rw (after_action-outside env intent d recon (act env intent ext det recon key d d.decision w1))
      (elim (act-sends env intent ext det recon key d d.decision w1) [
        | inl same ↦ inl same
        | inr (approved, inl same) ↦ inl same
        | inr (approved, inr (m, sent, fits)) ↦
            inr (
              m,
              sent,
              ((approve-iff-IsAdmissible env.decision_id intent ext det).0 approved, fits),
            )
      ])

after_reconcile-sends :
    (env : Env) (intent : IntentData) (ext : NegotiatorResult) (key : Key) (w : World)
    (r : Result ReconciliationResult)
    → SendsWith
        (JustifiedBy env intent ext)
        w.outside.sent
        (after_reconcile env intent ext key w r).0.outside.sent
after_reconcile-sends env intent ext key w (ok recon) = decide-sends env intent ext key recon w
after_reconcile-sends env intent ext key w (err e) = inl refl

after_verify-sends :
    (env : Env) (intent : IntentData) (key : Key) (w : World) (o : Outside)
    (r : Outside × Outcome NegotiatorResult)
    → (verification env intent o).1 ≡ r.1
    → SendsWith (Justified env intent o) r.0.sent (after_verify env intent key w r).0.outside.sent
after_verify-sends env intent key w o (o', returned ext) e =
    elim (after_reconcile-sends env intent ext key (set_outside w o') (
      reconcile intent (event_types_of intent.payment_intent_id w.db.events)
        (api_evidence ext.external_status ext.verification_details)
        (executions_of intent.payment_intent_id w.db.executions))) [
          | inl same ↦ inl same
          | inr (m, sent, why) ↦ inr (m, sent, (ext, e, why))
        ]
after_verify-sends env intent key w o (o', raised) e = inl refl

gather-sends :
    (env : Env) (intent : IntentData) (w : World)
    → SendsWith (Justified env intent w.outside) w.outside.sent (gather env intent w).0.outside.sent
unfolding gather
gather-sends env intent w =
    let key = Key.idem intent.payment_intent_id intent.version in
    let r = verification env intent w.outside in
    let same =
      verify_sends_nothing env.mode env.provider env.lucky env.verify_hex intent key w.outside in
    subst
      (λ xs.
        SendsWith (Justified env intent w.outside) xs
          (after_verify env intent key w r).0.outside.sent)
      same (after_verify-sends env intent key w w.outside r refl)

-- What a run did at the provider: nothing, or one justified request for an intent that is on record
-- and not in a terminal state.
abbrev pub IsSafeRun : Env → ℕ → World → World → Type 0
IsSafeRun env id w w' =
    (w'.outside.sent ≡ w.outside.sent)
    ⊎ ((row : Intent) × (m : Mutation) × (get_intent id w.db.intents ≡ some row)
        × (is_terminal row.current_state ≡ false)
        × (w'.outside.sent ≡ m ∷ w.outside.sent)
        × Justified env (load_intent row w.db) w.outside m)

on_row-safe :
    (env : Env) (id : ℕ) (w : World) (o : Option Intent)
    → get_intent id w.db.intents ≡ o
    → IsSafeRun env id w (on_row env w o).0
on_row-safe env id w none e = inl refl
on_row-safe env id w (some row) e = elim (Bool-cases (is_terminal row.current_state)) [
  | inl t ↦ inl (rw t)
  | inr t ↦ rw t (elim (gather-sends env (load_intent row w.db) w) [
    | inl same ↦ inl same
    | inr (m, sent, why) ↦ inr (row, m, e, t, sent, why)
  ])
]

resolve_locked-safe :
    (env : Env) (id : ℕ) (w : World) → IsSafeRun env id w (resolve_locked env id w).0
unfolding resolve_locked
resolve_locked-safe env id w = on_row-safe env id w (get_intent id w.db.intents) refl

release-outside :
    (env : Env) (id : ℕ) (r : World × Response) → (release env id r).0.outside ≡ r.0.outside
unfolding release
release-outside env id r = refl

-- A run of the resolver makes at most one mutation request, one call of the HTTP client, under every
-- configuration, language model, provider answer and lock reply. A request is made only for an intent on record in
-- no terminal state, is of the proposed action, which the gate admits on the evidence that the
-- verification has returned, and is over the amount of the intent's row.
pub resolve_sends_justified :
    (env : Env) (id : ℕ) (w : World) → IsSafeRun env id w (resolve env id w).0
unfolding resolve
resolve_sends_justified env id w =
    let (locks, acquired) = acquire_intent_lock env.redis_lock id w.locks in
    let w1 = record w { locks = locks } in
    elim (Bool-cases acquired) [
      | inl a ↦
          rw a
            (rw (release-outside env id (resolve_locked env id w1)) (resolve_locked-safe env id w1))
      | inr a ↦ rw a (inl refl)
    ]
