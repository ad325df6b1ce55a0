-- ===== src/Executor.antt =====
-- agents/finops_executor.py: the execution of a command that the policy gate has authorised.
pub mod Guards
use resolver_ai.Prelude.{
  ℕ, ◌+◌, Bool, true, false, ◌&&◌, ◌||◌, not, Option, none, some, ltb, ◌==◌, if◌then◌else◌, Text,
  codes, truthy,
}
use resolver_ai.Domain.{ActionType, ExternalStatus}
use resolver_ai.Schemas.{AuthorizedAction, FinOpsResult, Mac, verify_signature}
use resolver_ai.Rail
use resolver_ai.Rail.{RailStatus, RailState, RailResult, TxnRef}
use resolver_ai.Provider.{
  Api, ok, api_error, crash, Provider, Outside, Mode, is_real, Outcome, returned, raised,
  capture_payment, create_refund,
}

-- `command.action in (CAPTURE, REFUND, VOID)`
unfoldable pub moves_money : ActionType → Bool
moves_money ActionType.capture = true
moves_money ActionType.refund = true
moves_money ActionType.void = true
moves_money _ = false

abbrev pub is_no_action : ActionType → Bool
is_no_action ActionType.no_action = true
is_no_action _ = false

unfoldable pub finops :
    AuthorizedAction → ActionType → ExternalStatus → Option Text → Bool → FinOpsResult
finops c a s id err = record {
  action_taken = a;
  execution_status = s;
  external_transaction_id = id;
  amount = c.amount;
  error = err;
}

-- a command that is refused or has failed
abbrev pub failure : AuthorizedAction → FinOpsResult
failure c = finops c c.action ExternalStatus.failed none true

-- what the answer to a mutation request gives: only a RazorpayAPIError is caught
abbrev pub settle :
    AuthorizedAction → ExternalStatus → Outside × Api (Option Text) → Outside × Outcome FinOpsResult
settle c s (w, ok id) = (w, returned (finops c c.action s id false))
settle c s (w, api_error) = (w, returned (failure c))
settle c s (w, crash) = (w, raised)

-- path A, on the provider's API. The fetch after a mutation is read-only, is ignored and cannot
-- raise out of its own `try`.
unfoldable pub execute_at_provider :
    Provider → ActionType → Text → AuthorizedAction → Outside → Outside × Outcome FinOpsResult
execute_at_provider p ActionType.capture id c w =
    settle c ExternalStatus.success (capture_payment p id c.amount c.currency w)
execute_at_provider p ActionType.refund id c w =
    settle c ExternalStatus.refunded (create_refund p id c.amount c.policy_decision_id w)
execute_at_provider p ActionType.void id c w =
    settle c ExternalStatus.refunded (create_refund p id c.amount c.policy_decision_id w)
execute_at_provider p ActionType.no_action id c w =
    (w, returned (finops c ActionType.no_action ExternalStatus.success none false))
execute_at_provider p _ id c w = (w, returned (failure c))

-- the status map of path B; what it lacks is FAILED
unfoldable pub rail_outcome : RailStatus → ExternalStatus
rail_outcome RailStatus.success = ExternalStatus.success
rail_outcome RailStatus.captured = ExternalStatus.success
rail_outcome RailStatus.voided = ExternalStatus.voided
rail_outcome RailStatus.refunded = ExternalStatus.refunded
rail_outcome _ = ExternalStatus.failed

abbrev pub from_rail : AuthorizedAction → Outside → RailState × RailResult → Outside × FinOpsResult
from_rail c w (r, res) =
    (record w { rail = r }, finops c c.action (rail_outcome res.status) res.txn_id false)

abbrev rail_name : Option Text → Text
rail_name none = codes "RAZORPAY_TEST"
rail_name (some t) = if truthy (some t) then t else codes "RAZORPAY_TEST"

-- path B, on the synthetic rail
unfoldable pub execute_on_rail :
    (Text → Bool) → Text → ActionType → AuthorizedAction → Outside → Outside × FinOpsResult
unfolding rail_outcome
execute_on_rail lucky hex ActionType.capture c w =
    from_rail c w
      (Rail.authorize none (lucky (rail_name c.target_rail)) hex c.amount c.idempotency_key w.rail)
execute_on_rail lucky hex ActionType.void c w =
    from_rail c w (Rail.void (TxnRef.of_key c.idempotency_key) w.rail)
execute_on_rail lucky hex ActionType.refund c w =
    from_rail c w (Rail.refund (TxnRef.of_key c.idempotency_key) w.rail)
execute_on_rail lucky hex ActionType.no_action c w =
    (w, finops c ActionType.no_action ExternalStatus.success none false)
execute_on_rail lucky hex _ c w = (w, finops c c.action ExternalStatus.failed none false)

abbrev pub returning : Outside × FinOpsResult → Outside × Outcome FinOpsResult
returning (w, a) = (w, returned a)

abbrev pub dispatch :
    Mode
    → Provider
    → (Text → Bool)
    → Text
    → Option Text
    → AuthorizedAction
    → Outside
    → Outside × Outcome FinOpsResult
dispatch mode p lucky hex none c w = returning (execute_on_rail lucky hex c.action c w)
dispatch mode p lucky hex (some id) c w =
    if is_real mode && truthy (some id)
    then execute_at_provider p c.action id c w
    else returning (execute_on_rail lucky hex c.action c w)

-- the guards before any effect, at the time `now`
unfoldable pub is_refused : Mac → Text → ℕ → AuthorizedAction → Bool
is_refused mac secret now c =
    ltb c.expires_at now
    || ltb (now + 5) c.issued_at
    || moves_money c.action && not (verify_signature mac secret c)
    || c.amount == 0 && not (is_no_action c.action)

-- `execute`
unfoldable pub execute :
    Mac
    → Text
    → Mode
    → Provider
    → (Text → Bool)
    → Text
    → ℕ
    → AuthorizedAction
    → Outside
    → Outside × Outcome FinOpsResult
execute mac secret mode p lucky hex now c w =
    if is_refused mac secret now c
    then (w, returned (failure c))
    else dispatch mode p lucky hex c.razorpay_payment_id c w
