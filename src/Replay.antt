-- ===== src/Replay.antt =====
-- core/replay.py: the replay of an intent. All that follows the read of the tables stands in the handler
-- of its exceptions, as in the source. `none` for the database is a pool that cannot be used.
pub mod Outcomes
use resolver_ai.Prelude.{ℕ, Bool, true, false, ◌||◌, Option, none, some, [], if◌then◌else◌, codes}
use resolver_ai.Domain.{PaymentState, ActionType, DecisionType, ExternalStatus}
use resolver_ai.StateMachine.{Event, transition}
use resolver_ai.Schemas.{IntentData, Key, NegotiatorResult, AuthorizedAction}
use resolver_ai.Policy.{evaluate, create_authorized_action}
use resolver_ai.Detective.{analyze}
use resolver_ai.Provider.{Outside, Outcome, returned, raised}
use resolver_ai.Negotiator.{verify}
use resolver_ai.Money.{Result, ok, err}
use resolver_ai.Reconciliation.{ReconciliationResult, Status, reconcile}
use resolver_ai.Store.{Intent, Db, get_intent}
use resolver_ai.Resolver.Setting.{Env}
use resolver_ai.Resolver.Stages.{api_evidence, is_ambiguous}

-- `nothing` is the None that the function returns at its end
pub data Replayed : Type 0 where
  not_found nothing failed : Replayed
  simulated : PaymentState → DecisionType → Option ActionType → Status → Replayed

-- the intent of the simulation
unfoldable pub simulated_intent : ℕ → IntentData
simulated_intent id = record {
  payment_intent_id = id;
  order_id = codes "ORD_SIMULATION";
  razorpay_order_id = none;
  active_payment_id = none;
  merchant_id = codes "default_merchant";
  amount = 10000;
  currency = codes "INR";
  current_state = PaymentState.uncertain;
  rail = codes "RAZORPAY_TEST";
  retry_count = 0;
  version = 1;
  has_existing_capture = false;
}

-- the next state after an approval
abbrev pub state_after_approval : PaymentState → Option ActionType → PaymentState
state_after_approval s none = s
state_after_approval s (some ActionType.capture) = transition s Event.verified_success
state_after_approval s (some ActionType.no_action) = transition s Event.verified_success
state_after_approval s (some ActionType.void) = transition s Event.action_confirmed
state_after_approval s (some ActionType.refund) = transition s Event.action_confirmed
state_after_approval s (some _) = s

abbrev pub is_unknown : ExternalStatus → Bool
is_unknown ExternalStatus.unknown = true
is_unknown _ = false

abbrev pub state_after_refusal : PaymentState → ExternalStatus → Status → PaymentState
state_after_refusal s ExternalStatus.failed recon = transition s Event.verified_failed
state_after_refusal s ext recon =
    if is_unknown ext || is_ambiguous recon then PaymentState.manual_review else s

abbrev pub action_of : Option AuthorizedAction → Option ActionType
action_of none = none
action_of (some c) = some c.action

abbrev pub by_decision :
    PaymentState → ExternalStatus → Status → Option AuthorizedAction → DecisionType → Replayed
by_decision s ext recon c DecisionType.approve =
    simulated (state_after_approval s (action_of c)) DecisionType.approve (action_of c) recon
by_decision s ext recon c d = simulated (state_after_refusal s ext recon) d none recon

abbrev pub decide :
    Env → IntentData → Key → NegotiatorResult → Result ReconciliationResult → Replayed
decide env intent key ext (err e) = failed
decide env intent key ext (ok recon) =
    let det = analyze env.ai env.llm intent in
    let d = evaluate env.decision_id intent ext det in
    by_decision intent.current_state ext.external_status recon.status
      (create_authorized_action env.mac env.secret env.issue_time env.command_id d intent det ext
        key)
      d.decision

abbrev pub after_verify :
    Env → IntentData → Key → Outside × Outcome NegotiatorResult → Outside × Replayed
after_verify env intent key (o, raised) = (o, failed)
after_verify env intent key (o, returned ext) = (
  o,
  decide env intent key ext
      (reconcile intent [] (api_evidence ext.external_status ext.verification_details) []),
)

-- the handler
unfoldable pub simulate : Env → ℕ → Outside → Outside × Replayed
simulate env id o =
    let intent = simulated_intent id in
    let key = Key.idem_replay id in
    after_verify env intent key (verify env.mode env.provider env.lucky env.verify_hex intent key o)

abbrev pub loaded : Option Intent → Replayed
loaded none = not_found
loaded (some r) = nothing

-- `replay_intent`
unfoldable pub replay_intent : Env → ℕ → Option Db → Outside → Outside × Replayed
replay_intent env id none o = simulate env id o
replay_intent env id (some db) o = (o, loaded (get_intent id db.intents))
