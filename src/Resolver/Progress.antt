-- ===== src/Resolver/Progress.antt =====
-- What a run of core/resolver.py leaves behind: the row of the intent and the evidence.
use resolver_ai.Prelude.{
  ℕ, ◌+◌, ◌≡◌, refl, ap, inl, inr, true, Option, none, some, List, ◌∷◌, arith, Bool-cases,
}
use resolver_ai.Domain.{PaymentState, ActionType, DecisionType, ExternalStatus}
use resolver_ai.Schemas.{
  IntentData, Key, DetectiveResult, NegotiatorResult, PolicyDecision, AuthorizedAction,
  FinOpsResult,
}
use resolver_ai.StateMachine.{is_terminal}
use resolver_ai.Policy.{evaluate}
use resolver_ai.Detective.{analyze}
use resolver_ai.Provider.{Outside, Outcome, returned, raised}
use resolver_ai.Money.{Result, ok, err}
use resolver_ai.Reconciliation.{ReconciliationResult}
use resolver_ai.Idempotency.{acquire_intent_lock}
use resolver_ai.Store.{Intent, Evidence, get_intent}
use resolver_ai.Store.Laws.{get_intent-update_self}
use resolver_ai.Resolver.{resolve, resolve_locked, release, on_row}
use resolver_ai.Resolver.Setting.{Env, World, Response}
use resolver_ai.Resolver.Stages.{
  Acted, load_intent, log_verify, after_execution, settle_execution, act_approved, act_refused, act,
  finish, after_action, decide, after_reconcile, after_verify, gather, set_outside, open_case,
  resolution_of,
}

-- The tables of intents and of evidence, which only the last stage writes.
abbrev SameLedger : World → World → Type 0
SameLedger w w' = (w'.db.intents ≡ w.db.intents) × (w'.db.evidence ≡ w.db.evidence)

-- What a run that ends with `done` has written: the next version of the row, and one evidence row.
abbrev pub Recorded : ℕ → Intent → World → World → PaymentState → DecisionType → ActionType → Type 0
Recorded id row w w' s d a =
    ((row' : Intent) × (get_intent id w'.db.intents ≡ some row')
      × (row'.current_state ≡ s)
      × (row'.version ≡ row.version + 1)
      × (row'.amount ≡ row.amount))
    × ((e : Evidence) × (w'.db.evidence ≡ e ∷ w.db.evidence)
        × (e.intent ≡ id)
        × (e.amount ≡ row.amount)
        × (e.decision ≡ d)
        × (e.action ≡ a))

-- By how a run ended: recorded as its response says, or with both tables as they were.
abbrev pub Ended : ℕ → Intent → World → World × Response → Type 0
Ended id row w (w', Response.done s d a st) = Recorded id row w w' s d a
Ended id row w (w', Response.skipped_locked) = SameLedger w w'
Ended id row w (w', Response.not_found) = SameLedger w w'
Ended id row w (w', Response.error) = SameLedger w w'
Ended id row w (w', Response.skipped_terminal s) = SameLedger w w'

finish-Ended :
    (env : Env) (row : Intent) (w0 w : World) (d : PolicyDecision) (recon : ReconciliationResult)
    (a : Acted)
    → SameLedger w0 w
    → get_intent row.id w0.db.intents ≡ some row
    → Ended row.id row w0 (finish env (load_intent row w0.db) d recon a w)
unfolding finish load_intent
finish-Ended env row w0 w d recon a (same, same_evidence) here =
    let update = λ (r : Intent). record r {
      current_state = a.final_state;
      version = r.version + 1;
      resolution = resolution_of a.final_state;
      updated_at = env.update_time;
    } in
    let e : Evidence = record {
      intent = row.id;
      action = a.action_taken;
      amount = row.amount;
      decision = d.decision;
    } in
    let found : get_intent row.id w.db.intents ≡ some row = rw same here in
    (
      (
        update row,
        get_intent-update_self row.id update w.db.intents row refl found,
        refl,
        refl,
        refl,
      ),
      (e, ap (λ es. e ∷ es) same_evidence, refl, refl, refl, refl),
    )

after_execution-same :
    (intent : IntentData) (c : AuthorizedAction) (f : FinOpsResult) (w : World)
    → SameLedger w (after_execution intent c f w).0
unfolding after_execution
after_execution-same intent c f w = ground arith

settle_execution-same :
    (intent : IntentData) (c : AuthorizedAction) (w : World) (r : Outside × Outcome FinOpsResult)
    → SameLedger w (settle_execution intent c w r).0
settle_execution-same intent c w (o, returned f) = after_execution-same intent c f (set_outside w o)
settle_execution-same intent c w (o, raised) = (refl, refl)

act_refused-same :
    (env : Env) (intent : IntentData) (s : ExternalStatus) (recon : ReconciliationResult)
    (w : World)
    → SameLedger w (act_refused env intent s recon w).0
unfolding act_refused open_case
act_refused-same env intent s recon w = ground arith

act_approved-same :
    (env : Env) (intent : IntentData) (o : Option AuthorizedAction) (w : World)
    → SameLedger w (act_approved env intent o w).0
unfolding act_approved
act_approved-same env intent none w = (refl, refl)
act_approved-same env intent (some c) w = settle_execution-same intent c w _

act-same :
    (env : Env) (intent : IntentData) (ext : NegotiatorResult) (det : DetectiveResult)
    (recon : ReconciliationResult) (key : Key) (d : PolicyDecision) (k : DecisionType) (w : World)
    → SameLedger w (act env intent ext det recon key d k w).0
act-same env intent ext det recon key d DecisionType.approve w = act_approved-same env intent _ w
act-same env intent ext det recon key d DecisionType.reject w =
    act_refused-same env intent ext.external_status recon w
act-same env intent ext det recon key d DecisionType.manual_review w =
    act_refused-same env intent ext.external_status recon w

module _ (env : Env) (row : Intent) (w : World)
    (found : get_intent row.id w.db.intents ≡ some row) where
  after_action-Ended :
      (d : PolicyDecision) (recon : ReconciliationResult) (r : World × Outcome Acted)
      → SameLedger w r.0
      → Ended row.id row w (after_action env (load_intent row w.db) d recon r)
  after_action-Ended d recon (w', returned a) same = finish-Ended env row w w' d recon a same found
  after_action-Ended d recon (w', raised) same = same

  decide-Ended :
      (ext : NegotiatorResult) (key : Key) (recon : ReconciliationResult) (o : Outside)
      → Ended row.id row w (decide env (load_intent row w.db) ext key recon (set_outside w o))
  unfolding decide log_verify
  decide-Ended ext key recon o =
      let intent = load_intent row w.db in
      let det = analyze env.ai env.llm intent in
      let d = evaluate env.decision_id intent ext det in
      after_action-Ended d recon _ (act-same env intent ext det recon key d d.decision _)

  after_reconcile-Ended :
      (ext : NegotiatorResult) (key : Key) (o : Outside) (r : Result ReconciliationResult)
      → Ended row.id row w (after_reconcile env (load_intent row w.db) ext key (set_outside w o) r)
  after_reconcile-Ended ext key o (ok recon) = decide-Ended ext key recon o
  after_reconcile-Ended ext key o (err e) = (refl, refl)

  after_verify-Ended :
      (key : Key) (r : Outside × Outcome NegotiatorResult)
      → Ended row.id row w (after_verify env (load_intent row w.db) key w r)
  after_verify-Ended key (o, returned ext) = after_reconcile-Ended ext key o _
  after_verify-Ended key (o, raised) = (refl, refl)

  gather-Ended : Ended row.id row w (gather env (load_intent row w.db) w)
  unfolding gather
  gather-Ended = after_verify-Ended _ _

-- the locks do not matter to how a run ended
Ended-release :
    (env : Env) (id : ℕ) (row : Intent) (w : World) (locks : List ℕ) (r : World × Response)
    → Ended id row (record w { locks = locks }) r
    → Ended id row w (release env id r)
unfolding release
Ended-release env id row w locks (w', Response.done s d a st) h = h
Ended-release env id row w locks (w', Response.skipped_locked) h = h
Ended-release env id row w locks (w', Response.not_found) h = h
Ended-release env id row w locks (w', Response.error) h = h
Ended-release env id row w locks (w', Response.skipped_terminal s) h = h

on_row-Ended :
    (env : Env) (row : Intent) (w : World)
    → get_intent row.id w.db.intents ≡ some row
    → Ended row.id row w (on_row env w (some row))
on_row-Ended env row w found = elim (Bool-cases (is_terminal row.current_state)) [
  | inl t ↦ rw t (refl, refl)
  | inr t ↦ rw t (gather-Ended env row w found)
]

-- Every run for an intent on record either records what it reports, which is the row's next version
-- with the reported state and its amount unchanged, and one evidence row with the reported decision,
-- the action and the amount; or it leaves the intents and the evidence as they were.
pub resolve_records :
    (env : Env) (row : Intent) (w : World)
    → get_intent row.id w.db.intents ≡ some row
    → Ended row.id row w (resolve env row.id w)
unfolding resolve resolve_locked
resolve_records env row w found =
    let (locks, acquired) = acquire_intent_lock env.redis_lock row.id w.locks in
    let w1 = record w { locks = locks } in
    elim (Bool-cases acquired) [
      | inl a ↦
          rw (a, found)
            (Ended-release env row.id row w locks (on_row env w1 (some row))
              (on_row-Ended env row w1 found))
      | inr a ↦ rw a (refl, refl)
    ]

-- An intent in a terminal state is left alone: the database and the outside stay as they were.
pub terminal_untouched :
    (env : Env) (row : Intent) (w : World)
    → get_intent row.id w.db.intents ≡ some row
    → is_terminal row.current_state ≡ true
    → ((resolve env row.id w).0.db ≡ w.db) × ((resolve env row.id w).0.outside ≡ w.outside)
unfolding resolve resolve_locked release
terminal_untouched env row w found t =
    elim (Bool-cases (acquire_intent_lock env.redis_lock row.id w.locks).1) [
      | inl a ↦ rw (a, found, t) (refl, refl)
      | inr a ↦ rw a (refl, refl)
    ]
