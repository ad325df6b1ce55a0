-- ===== src/Resolver/Outbox.antt =====
-- What a run of core/resolver.py does to the outbox.
use resolver_ai.Prelude.{ℕ, ◌≡◌, refl, inl, inr, Option, none, some, arith, Bool-cases}
use resolver_ai.Domain.{DecisionType, ExternalStatus}
use resolver_ai.Schemas.{
  IntentData, Key, DetectiveResult, NegotiatorResult, PolicyDecision, AuthorizedAction,
  FinOpsResult,
}
use resolver_ai.StateMachine.{is_terminal}
use resolver_ai.Policy.{evaluate}
use resolver_ai.Detective.{analyze}
use resolver_ai.Provider.{Outside, Outcome, returned, raised}
use resolver_ai.Money.{Result, ok, err}
use resolver_ai.Reconciliation.{ReconciliationResult}
use resolver_ai.Idempotency.{acquire_intent_lock}
use resolver_ai.Store.{Intent, get_intent}
use resolver_ai.Resolver.{resolve, resolve_locked, release, on_row}
use resolver_ai.Resolver.Setting.{Env, World}
use resolver_ai.Resolver.Stages.{
  Acted, load_intent, log_verify, after_execution, settle_execution, act_approved, act_refused, act,
  finish, after_action, decide, after_reconcile, after_verify, gather, set_outside, open_case,
}

abbrev SameOutbox : World → World → Type 0
SameOutbox w w' = w'.db.outbox ≡ w.db.outbox

after_execution-outbox :
    (intent : IntentData) (c : AuthorizedAction) (f : FinOpsResult) (w : World)
    → SameOutbox w (after_execution intent c f w).0
unfolding after_execution
after_execution-outbox intent c f w = ground arith

settle_execution-outbox :
    (intent : IntentData) (c : AuthorizedAction) (w : World) (r : Outside × Outcome FinOpsResult)
    → SameOutbox w (settle_execution intent c w r).0
settle_execution-outbox intent c w (o, returned f) =
    after_execution-outbox intent c f (set_outside w o)
settle_execution-outbox intent c w (o, raised) = refl

act_approved-outbox :
    (env : Env) (intent : IntentData) (o : Option AuthorizedAction) (w : World)
    → SameOutbox w (act_approved env intent o w).0
unfolding act_approved
act_approved-outbox env intent none w = refl
act_approved-outbox env intent (some c) w = settle_execution-outbox intent c w _

act_refused-outbox :
    (env : Env) (intent : IntentData) (s : ExternalStatus) (recon : ReconciliationResult)
    (w : World)
    → SameOutbox w (act_refused env intent s recon w).0
unfolding act_refused open_case
act_refused-outbox env intent s recon w = ground arith

act-outbox :
    (env : Env) (intent : IntentData) (ext : NegotiatorResult) (det : DetectiveResult)
    (recon : ReconciliationResult) (key : Key) (d : PolicyDecision) (k : DecisionType) (w : World)
    → SameOutbox w (act env intent ext det recon key d k w).0
act-outbox env intent ext det recon key d DecisionType.approve w =
    act_approved-outbox env intent _ w
act-outbox env intent ext det recon key d DecisionType.reject w =
    act_refused-outbox env intent ext.external_status recon w
act-outbox env intent ext det recon key d DecisionType.manual_review w =
    act_refused-outbox env intent ext.external_status recon w

after_action-outbox :
    (env : Env) (intent : IntentData) (d : PolicyDecision) (recon : ReconciliationResult)
    (r : World × Outcome Acted)
    → SameOutbox r.0 (after_action env intent d recon r).0
unfolding finish
after_action-outbox env intent d recon (w, returned a) = refl
after_action-outbox env intent d recon (w, raised) = refl

decide-outbox :
    (env : Env) (intent : IntentData) (ext : NegotiatorResult) (key : Key)
    (recon : ReconciliationResult) (w : World)
    → SameOutbox w (decide env intent ext key recon w).0
unfolding decide log_verify
decide-outbox env intent ext key recon w =
    let det = analyze env.ai env.llm intent in
    let d = evaluate env.decision_id intent ext det in
    let w1 = log_verify intent ext key w in
    rw (after_action-outbox env intent d recon (act env intent ext det recon key d d.decision w1))
      (act-outbox env intent ext det recon key d d.decision w1)

after_reconcile-outbox :
    (env : Env) (intent : IntentData) (ext : NegotiatorResult) (key : Key) (w : World)
    (r : Result ReconciliationResult)
    → SameOutbox w (after_reconcile env intent ext key w r).0
after_reconcile-outbox env intent ext key w (ok recon) = decide-outbox env intent ext key recon w
after_reconcile-outbox env intent ext key w (err e) = refl

after_verify-outbox :
    (env : Env) (intent : IntentData) (key : Key) (w : World)
    (r : Outside × Outcome NegotiatorResult)
    → SameOutbox w (after_verify env intent key w r).0
after_verify-outbox env intent key w (o, returned ext) =
    after_reconcile-outbox env intent ext key (set_outside w o) _
after_verify-outbox env intent key w (o, raised) = refl

on_row-outbox : (env : Env) (w : World) (o : Option Intent) → SameOutbox w (on_row env w o).0
unfolding gather
on_row-outbox env w none = refl
on_row-outbox env w (some row) = elim (Bool-cases (is_terminal row.current_state)) [
  | inl t ↦ rw t refl
  | inr t ↦ rw t (after_verify-outbox env (load_intent row w.db) _ w _)
]

-- A run of the resolver leaves the outbox as it was.
pub resolve-outbox : (env : Env) (id : ℕ) (w : World) → (resolve env id w).0.db.outbox ≡ w.db.outbox
unfolding resolve resolve_locked release
resolve-outbox env id w =
    let w1 = record w { locks = (acquire_intent_lock env.redis_lock id w.locks).0 } in
    elim (Bool-cases (acquire_intent_lock env.redis_lock id w.locks).1) [
      | inl a ↦ rw a (on_row-outbox env w1 (get_intent id w.db.intents))
      | inr a ↦ rw a refl
    ]
