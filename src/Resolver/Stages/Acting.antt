-- ===== src/Resolver/Stages/Acting.antt =====
-- core/resolver.py, step 7: the command is carried out, or the refusal is handled.
use resolver_ai.Prelude.{Bool, true, false, Option, none, some, List, ◌∷◌, if◌then◌else◌}
use resolver_ai.Domain.{
  PaymentState, ActionType, DecisionType, ExternalStatus, CaseStatus, CaseSeverity,
}
use resolver_ai.Schemas.{
  IntentData, Key, DetectiveResult, NegotiatorResult, PolicyDecision, AuthorizedAction,
  FinOpsResult,
}
use resolver_ai.StateMachine.{Event, transition}
use resolver_ai.Policy.{create_authorized_action}
use resolver_ai.Executor.{execute}
use resolver_ai.Provider.{Outside, Outcome, returned, raised}
use resolver_ai.Reconciliation.{ReconciliationResult, Status, ambiguous}
use resolver_ai.Store.{Operation, Execution, Case, log_execution}
use resolver_ai.Resolver.Setting.{Env, World}

abbrev pub set_executions : World → List Execution → World
set_executions w es = record w { db = record w.db { executions = es } }

abbrev pub set_outside : World → Outside → World
set_outside w o = record w { outside = o }

-- what step 7 leaves: the state to set, the action taken, and the executor's result
pub record Acted : Type 0 where
  pub final_state : PaymentState
  pub action_taken : ActionType
  pub finops : Option FinOpsResult

-- `execution_status in (SUCCESS, REFUNDED, VOIDED)`
unfoldable pub is_executed : ExternalStatus → Bool
is_executed ExternalStatus.success = true
is_executed ExternalStatus.refunded = true
is_executed ExternalStatus.voided = true
is_executed _ = false

-- the action as an operation; the executor reports success only of the first four
unfoldable pub operation_of : ActionType → Operation
operation_of ActionType.capture = Operation.capture
operation_of ActionType.refund = Operation.refund
operation_of ActionType.void = Operation.void
operation_of ActionType.verify = Operation.verify
operation_of _ = Operation.no_action

-- the state after a successful execution
unfoldable pub state_after : PaymentState → ActionType → PaymentState
state_after s ActionType.capture = transition s Event.verified_success
state_after s ActionType.no_action = transition s Event.verified_success
state_after s ActionType.void = transition s Event.action_confirmed
state_after s ActionType.refund = transition s Event.action_confirmed
state_after s _ = s

abbrev pub acted : PaymentState → ActionType → Option FinOpsResult → Acted
acted s a f = record { final_state = s; action_taken = a; finops = f }

-- the insert into external_executions after a mutation, and the next state
unfoldable pub after_execution :
    IntentData → AuthorizedAction → FinOpsResult → World → World × Acted
after_execution intent c f w =
    if is_executed f.execution_status
    then (
      set_executions w (
          log_execution
            (record {
              intent = intent.payment_intent_id;
              operation = operation_of f.action_taken;
              amount = intent.amount;
              status = f.execution_status;
              key = Key.exec c.command_id;
            })
            w.db.executions),
      acted (state_after intent.current_state c.action) f.action_taken (some f),
    )
    else (w, acted (transition intent.current_state Event.verified_failed) f.action_taken (some f))

abbrev pub settle_execution :
    IntentData → AuthorizedAction → World → Outside × Outcome FinOpsResult → World × Outcome Acted
settle_execution intent c w (o, returned f) =
    let (w', a) = after_execution intent c f (set_outside w o) in (w', returned a)
settle_execution intent c w (o, raised) = (set_outside w o, raised)

-- step 7 with an approval; the gate gives a command exactly for an approval
unfoldable pub act_approved :
    Env → IntentData → Option AuthorizedAction → World → World × Outcome Acted
act_approved env intent none w =
    (w, returned (acted intent.current_state ActionType.no_action none))
act_approved env intent (some c) w = settle_execution intent c w (
    execute env.mac env.secret env.mode env.provider env.lucky env.execute_hex env.execute_time c
      w.outside)

abbrev pub is_ambiguous : Status → Bool
is_ambiguous ambiguous = true
is_ambiguous _ = false

-- the case for an operator
unfoldable pub open_case : Env → IntentData → ReconciliationResult → World → World
open_case env intent recon w =
    let c : Case = record {
      id = env.case_id;
      intent = intent.payment_intent_id;
      merchant_id = intent.merchant_id;
      divergence = recon.divergence_type;
      severity = CaseSeverity.high;
      status = CaseStatus.opened;
      assigned_operator = none;
    } in
    record w { db = record w.db { cases = c ∷ w.db.cases } }

-- step 7 without an approval
unfoldable pub act_refused :
    Env → IntentData → ExternalStatus → ReconciliationResult → World → World × Acted
act_refused env intent ExternalStatus.failed recon w =
    (w, acted (transition intent.current_state Event.verified_failed) ActionType.no_action none)
act_refused env intent ExternalStatus.duplicate recon w =
    (w, acted (transition intent.current_state Event.duplicate_detected) ActionType.no_action none)
act_refused env intent ExternalStatus.unknown recon w =
    (open_case env intent recon w, acted PaymentState.manual_review ActionType.no_action none)
act_refused env intent _ recon w =
    if is_ambiguous recon.status
    then (open_case env intent recon w, acted PaymentState.manual_review ActionType.no_action none)
    else (w, acted intent.current_state ActionType.no_action none)

abbrev pub act :
    Env
    → IntentData
    → NegotiatorResult
    → DetectiveResult
    → ReconciliationResult
    → Key
    → PolicyDecision
    → DecisionType
    → World
    → World × Outcome Acted
act env intent ext det recon key d DecisionType.approve w =
    act_approved env intent
      (create_authorized_action env.mac env.secret env.issue_time env.command_id d intent det ext
        key)
      w
act env intent ext det recon key d DecisionType.reject w =
    let (w', a) = act_refused env intent ext.external_status recon w in (w', returned a)
act env intent ext det recon key d DecisionType.manual_review w =
    let (w', a) = act_refused env intent ext.external_status recon w in (w', returned a)
