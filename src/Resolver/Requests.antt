-- ===== src/Resolver/Requests.antt =====
-- What acting on a decision in core/resolver.py may send to the provider.
use resolver_ai.Prelude.{ℕ, ◌≡◌, refl, ◌⊎◌, inl, inr, some, List, ◌∷◌, arith, subst₂, Option-cases}
use resolver_ai.Domain.{ActionType, DecisionType, ExternalStatus}
use resolver_ai.Schemas.{
  IntentData, Key, DetectiveResult, NegotiatorResult, PolicyDecision, AuthorizedAction,
  FinOpsResult,
}
use resolver_ai.Policy.{create_authorized_action}
use resolver_ai.Policy.Gate.{create_authorized_action-some}
use resolver_ai.Executor.{execute}
use resolver_ai.Executor.Guards.{CarriesOut, execute_sends_command}
use resolver_ai.Provider.{
  Mutation, capture_request, refund_request, Outside, Outcome, returned, raised,
}
use resolver_ai.Reconciliation.{ReconciliationResult}
use resolver_ai.Resolver.Setting.{Env, World}
use resolver_ai.Resolver.Stages.{
  Acted, after_execution, settle_execution, act_approved, act_refused, act, finish, after_action,
  set_outside, open_case,
}

-- A request is of the kind of an action and over an amount.
abbrev pub Performs : ActionType → ℕ → Mutation → Type 0
Performs a n (capture_request id amount currency) = (a ≡ ActionType.capture) × (amount ≡ n)
Performs a n (refund_request id amount decision) =
    ((a ≡ ActionType.refund) ⊎ (a ≡ ActionType.void)) × (amount ≡ n)

-- The requests sent are as before, or one more, of a given kind and amount.
abbrev pub SendsOne : ActionType → ℕ → List Mutation → List Mutation → Type 0
SendsOne a n before after =
    (after ≡ before) ⊎ ((m : Mutation) × (after ≡ m ∷ before) × Performs a n m)

CarriesOut-Performs :
    (c : AuthorizedAction) (m : Mutation) → CarriesOut c m → Performs c.action c.amount m
CarriesOut-Performs c (capture_request id amount currency) h = (h.0, h.2)
CarriesOut-Performs c (refund_request id amount decision) h = (h.0, h.2)

pub after_execution-outside :
    (intent : IntentData) (c : AuthorizedAction) (f : FinOpsResult) (w : World)
    → (after_execution intent c f w).0.outside ≡ w.outside
unfolding after_execution
after_execution-outside intent c f w = ground arith

pub settle_execution-outside :
    (intent : IntentData) (c : AuthorizedAction) (w : World) (r : Outside × Outcome FinOpsResult)
    → (settle_execution intent c w r).0.outside ≡ r.0
settle_execution-outside intent c w (o, returned f) =
    after_execution-outside intent c f (set_outside w o)
settle_execution-outside intent c w (o, raised) = refl

pub act_approved-sends :
    (env : Env) (intent : IntentData) (c : AuthorizedAction) (w : World)
    → SendsOne c.action c.amount w.outside.sent (act_approved env intent (some c) w).0.outside.sent
unfolding act_approved
act_approved-sends env intent c w =
    let run =
      execute env.mac env.secret env.mode env.provider env.lucky env.execute_hex env.execute_time c
        w.outside in
    rw (settle_execution-outside intent c w run)
      (elim (execute_sends_command env.mac env.secret env.mode env.provider env.lucky
        env.execute_hex env.execute_time c w.outside) [
          | inl same ↦ inl same
          | inr ((m, sent, fits), valid) ↦ inr (m, sent, CarriesOut-Performs c m fits)
        ])

pub act_refused-outside :
    (env : Env) (intent : IntentData) (s : ExternalStatus) (recon : ReconciliationResult)
    (w : World)
    → (act_refused env intent s recon w).0.outside ≡ w.outside
unfolding act_refused open_case
act_refused-outside env intent s recon w = ground arith

SendsOne-subst :
    {a b : ActionType} {n k : ℕ}
    → a ≡ b
    → n ≡ k
    → (xs ys : List Mutation) → SendsOne a n xs ys
    → SendsOne b k xs ys
SendsOne-subst e f xs ys h = subst₂ (λ a n. SendsOne a n xs ys) e f h

pub act-sends :
    (env : Env) (intent : IntentData) (ext : NegotiatorResult) (det : DetectiveResult)
    (recon : ReconciliationResult) (key : Key) (d : PolicyDecision) (k : DecisionType) (w : World)
    → let after = (act env intent ext det recon key d k w).0.outside.sent in
      (after ≡ w.outside.sent)
      ⊎ ((k ≡ DecisionType.approve)
          × SendsOne det.recommended_action intent.amount w.outside.sent after)
act-sends env intent ext det recon key d DecisionType.reject w =
    inl (rw (act_refused-outside env intent ext.external_status recon w))
act-sends env intent ext det recon key d DecisionType.manual_review w =
    inl (rw (act_refused-outside env intent ext.external_status recon w))
act-sends env intent ext det recon key d DecisionType.approve w =
    let o =
      create_authorized_action env.mac env.secret env.issue_time env.command_id d intent det ext
        key in
    elim (Option-cases o) [
      | inl e ↦ inl (rw e (unfold act_approved in refl))
      | inr (c, e) ↦
          let (_, a, n) =
            create_authorized_action-some env.mac env.secret env.issue_time env.command_id d intent
              det ext key c e in
          inr (
            refl,
            rw e (
                SendsOne-subst a n w.outside.sent
                  (act_approved env intent (some c) w).0.outside.sent
                  (act_approved-sends env intent c w)),
          )
    ]

pub after_action-outside :
    (env : Env) (intent : IntentData) (d : PolicyDecision) (recon : ReconciliationResult)
    (r : World × Outcome Acted)
    → (after_action env intent d recon r).0.outside ≡ r.0.outside
unfolding finish
after_action-outside env intent d recon (w, returned a) = refl
after_action-outside env intent d recon (w, raised) = refl
