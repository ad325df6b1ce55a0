-- ===== src/Resolver/Divergence.antt =====
-- Where the state that core/resolver.py sets does not follow from what was executed.
use resolver_ai.Prelude.{
  ℕ, ◌+◌, ◌≤◌, ◌≡◌, refl, ◌∙◌, ap, inl, inr, Bool, true, false, Option, none, some, arith,
  Bool-cases, Text, ◌&&◌, truthy,
}
use resolver_ai.Domain.{PaymentState, ActionType, DecisionType, ExternalStatus}
use resolver_ai.Schemas.{
  IntentData, Key, Mac, DetectiveResult, NegotiatorResult, PolicyDecision, AuthorizedAction,
  FinOpsResult,
}
use resolver_ai.StateMachine.{Event, transition, is_terminal}
use resolver_ai.Policy.{evaluate, create_authorized_action, is_return, min_confidence}
use resolver_ai.Policy.Gate.{approve-iff-IsAdmissible, create_authorized_action-approved}
use resolver_ai.Policy.Admissible.{IsAdmissible}
use resolver_ai.Detective.{analyze}
use resolver_ai.Executor.{
  execute, is_refused, dispatch, finops, execute_at_provider, execute_on_rail, moves_money,
}
use resolver_ai.Provider.{Provider, Outside, Mode, is_real, returned}
use resolver_ai.Reconciliation.{ReconciliationResult, Status}
use resolver_ai.Resolver.Setting.{Env, World, Response}
use resolver_ai.Resolver.Stages.{
  after_execution, act_approved, act, finish, after_action, decide, log_verify, is_executed,
  state_after, acted,
}

no_such_event :
    (s : PaymentState)
    → is_terminal s ≡ false
    → transition s Event.action_confirmed ≡ PaymentState.manual_review
unfolding transition is_terminal
no_such_event PaymentState.created t = refl
no_such_event PaymentState.pending_rail t = refl
no_such_event PaymentState.uncertain t = refl
no_such_event PaymentState.verifying t = refl
no_such_event PaymentState.authorized t = refl
no_such_event PaymentState.duplicate_suspected t = refl
no_such_event PaymentState.reconciliation_required t = refl
no_such_event PaymentState.action_pending t = refl
no_such_event PaymentState.action_executing t = refl
no_such_event PaymentState.action_confirmed t = refl
no_such_event PaymentState.unknown t = refl
no_such_event _ t = cc

-- A refund or void that was executed never settles its intent: the resolver passes ACTION_CONFIRMED,
-- which is a state and no event of the table, so the intent goes to MANUAL_REVIEW from every state
-- that is not terminal.
pub returns_go_to_review :
    (intent : IntentData) (c : AuthorizedAction) (f : FinOpsResult) (w : World)
    → is_executed f.execution_status ≡ true
    → is_return c.action ≡ true
    → is_terminal intent.current_state ≡ false
    → (after_execution intent c f w).1.final_state ≡ PaymentState.manual_review
unfolding after_execution state_after is_return
returns_go_to_review intent c f w done r t = ground (arith, no_such_event intent.current_state t)

-- a command to do nothing succeeds on both paths
module _ (mac : Mac) (secret : Text) (mode : Mode) (p : Provider) (lucky : Text → Bool) (hex : Text)
    (now : ℕ) (c : AuthorizedAction) (w : Outside) where
  nothing-dispatched :
      (o : Option Text)
      → c.action ≡ ActionType.no_action
      → dispatch mode p lucky hex o c w
        ≡ (w, returned (finops c ActionType.no_action ExternalStatus.success none false))
  unfolding execute_at_provider execute_on_rail
  nothing-dispatched none a = rw a
  nothing-dispatched (some id) a = elim (Bool-cases (is_real mode && truthy (some id))) [
    | inl q ↦ rw (q, a)
    | inr q ↦ rw (q, a)
  ]

  nothing-accepted :
      c.action ≡ ActionType.no_action
      → now ≤ c.expires_at
      → c.issued_at ≤ now + 5
      → is_refused mac secret now c ≡ false
  unfolding is_refused moves_money
  nothing-accepted a late early = ground arith

  nothing-executed :
      c.action ≡ ActionType.no_action
      → now ≤ c.expires_at
      → c.issued_at ≤ now + 5
      → execute mac secret mode p lucky hex now c w
        ≡ (w, returned (finops c ActionType.no_action ExternalStatus.success none false))
  unfolding execute
  nothing-executed a late early =
      rw (nothing-accepted a late early) (nothing-dispatched c.razorpay_payment_id a)

-- a command to do nothing, carried out: the state becomes that of a verified success
nothing-acted :
    (env : Env) (intent : IntentData) (c : AuthorizedAction) (w : World)
    → c.action ≡ ActionType.no_action
    → env.execute_time ≤ c.expires_at
    → c.issued_at ≤ env.execute_time + 5
    → (w' : World) × (f : FinOpsResult) × (act_approved env intent (some c) w ≡ (
      w',
      returned (
          acted
            (transition intent.current_state Event.verified_success)
            ActionType.no_action
            (some f)),
    ))
unfolding act_approved after_execution is_executed state_after finops
nothing-acted env intent c w a late early = (
  (after_execution intent c (finops c ActionType.no_action ExternalStatus.success none false) w).0,
  finops c ActionType.no_action ExternalStatus.success none false,
  rw
      (nothing-executed env.mac env.secret env.mode env.provider env.lucky env.execute_hex
        env.execute_time c w.outside a late early)
      (rw a refl),
)

failed-IsAdmissible :
    (intent : IntentData) (ext : NegotiatorResult) (det : DetectiveResult)
    → intent.current_state ≡ PaymentState.uncertain
    → ext.external_status ≡ ExternalStatus.failed
    → ext.amount ≡ intent.amount
    → ext.currency ≡ intent.currency
    → intent.has_existing_capture ≡ false
    → det.recommended_action ≡ ActionType.no_action
    → min_confidence ≤ det.confidence
    → IsAdmissible intent ext det
failed-IsAdmissible intent ext det s x same cur fresh prop conf = record {
  action_sanctioned = rw (prop, s, x) refl;
  same_amount = same;
  same_currency = cur;
  one_capture = inl fresh;
  confident = conf;
  capped = inl (λ e. cc);
}

act-approved :
    (env : Env) (intent : IntentData) (ext : NegotiatorResult) (det : DetectiveResult)
    (recon : ReconciliationResult) (key : Key) (d : PolicyDecision) (k : DecisionType) (w : World)
    → k ≡ DecisionType.approve
    → act env intent ext det recon key d k w
      ≡ act_approved env intent
          (create_authorized_action env.mac env.secret env.issue_time env.command_id d intent det
            ext key)
          w
act-approved env intent ext det recon key d k w e = rw e refl

recorded :
    {s t : PaymentState} {d k : DecisionType} {a : ActionType} {r : Status}
    → s ≡ t
    → d ≡ k
    → Response.done s d a r ≡ Response.done t k a r
recorded e h = rw (e, h) refl

-- Where a payment is uncertain and the provider reports it as failed, an approved proposal to do
-- nothing, with the amount and the currency in agreement and no capture on record, leads to the
-- state CAPTURED: the decision does not look at the status that was found.
pub failed_evidence_captured :
    (env : Env) (intent : IntentData) (ext : NegotiatorResult) (key : Key)
    (recon : ReconciliationResult) (w : World)
    → intent.current_state ≡ PaymentState.uncertain
    → ext.external_status ≡ ExternalStatus.failed
    → ext.amount ≡ intent.amount
    → ext.currency ≡ intent.currency
    → intent.has_existing_capture ≡ false
    → (analyze env.ai env.llm intent).recommended_action ≡ ActionType.no_action
    → min_confidence ≤ (analyze env.ai env.llm intent).confidence
    → env.issue_time ≤ env.execute_time + 5
    → env.execute_time ≤ env.issue_time + 300
    → (decide env intent ext key recon w).1
      ≡ Response.done PaymentState.captured DecisionType.approve ActionType.no_action recon.status
unfolding decide finish transition
failed_evidence_captured env intent ext key recon w s x same cur fresh prop conf early late =
    let det = analyze env.ai env.llm intent in
    let d = evaluate env.decision_id intent ext det in
    let ok =
      (approve-iff-IsAdmissible env.decision_id intent ext det).1
        (failed-IsAdmissible intent ext det s x same cur fresh prop conf) in
    let (c, made, is_nothing, issued, expires) =
      create_authorized_action-approved env.mac env.secret env.issue_time env.command_id d intent
        det ext key ok in
    let w1 = log_verify intent ext key w in
    let (w', f, done) =
      nothing-acted env intent c w1 (is_nothing ∙ prop) (ground arith) (ground arith) in
    let run =
      act-approved env intent ext det recon key d d.decision w1 ok
      ∙ ap (λ o. act_approved env intent o w1) made
      ∙ done in
    ap (λ r. (after_action env intent d recon r).1) run ∙ recorded (rw s refl) ok
