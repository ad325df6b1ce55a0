-- ===== src/Tests/Runs.antt =====
-- Runs of the resolver over the payment of the test data.
use resolver_ai.Prelude.{
  ◌≤◌, ◌≡◌, refl, true, false, Option, some, [], ◌∷◌, arith, codes, text_eq, lower, upper,
  contains_text, upper_code, lower_code,
}
use resolver_ai.Domain.{PaymentState, ActionType, DecisionType, ExternalStatus, DivergenceType}
use resolver_ai.Schemas.{Key, signed_fields, sign_command, verify_signature, compute_signature}
use resolver_ai.StateMachine.{
  is_terminal, terminal_states, transition, next_state, get_edge, transitions,
}
use resolver_ai.Detective.{
  AiProvider, LlmReply, analyze, parse_llm_response, parse_action, get_provider, analyze_by_rules,
  is_waiting, is_upi, is_settled,
}
use resolver_ai.Reconciliation.{
  ReconciliationResult, consistent, reconcile, examine, conclude, read_amount, anomalies_of,
  divergence_of, says_captured, says_failed, says_pending, says_unknown, check_currency,
  order_differs, has_text, same_amount,
}
use resolver_ai.Executor.{finops, execute, is_refused, moves_money, execute_at_provider}
use resolver_ai.Policy.{
  is_return, evaluate, is_resolvable, is_duplicate_suspected, is_refund, allowed_actions_for,
  create_authorized_action,
}
use resolver_ai.Provider.{capture_request, is_real, capture_payment, send, is_convertible}
use resolver_ai.Store.{
  get_intent, update_intent, executions_of, event_types_of, log_execution, status_allowed,
}
use resolver_ai.Resolver.{resolve, release, resolve_locked}
use resolver_ai.Resolver.Setting.{Env, Response}
use resolver_ai.Resolver.Stages.{
  load_intent, decide, is_executed, after_execution, gather, log_verify, api_evidence, status_text,
  state_after, operation_of, act_approved, finish, act_refused,
}
use resolver_ai.Resolver.Safety.{IsSafeRun, resolve_sends_justified}
use resolver_ai.Resolver.Progress.{Ended, resolve_records}
use resolver_ai.Resolver.Divergence.{failed_evidence_captured}
use resolver_ai.Tests.Data.{world_in, intent_in, row_in, env_with, found}
use resolver_ai.Idempotency.{acquire_intent_lock, is_locked, release_intent_lock, discard}
use resolver_ai.Negotiator.{verify, lookup_payment, from_payment, api_status}
use resolver_ai.Money.{
  validate_currency, lstrip, rstrip, find_currency, is_space, to_decimal_amount, quantize,
  round_half_up, minor_units_to_decimal, is_zero_decimal,
}
use resolver_ai.Rail.{key_eq}

on_record : (s : PaymentState) → get_intent 7 (world_in s).db.intents ≡ some (row_in s)
unfolding get_intent
on_record s = refl

resolve_sends_justified_example :
    IsSafeRun
      (env_with (codes "authorized"))
      7
      (world_in PaymentState.uncertain)
      (resolve (env_with (codes "authorized")) 7 (world_in PaymentState.uncertain)).0
resolve_sends_justified_example =
    resolve_sends_justified (env_with (codes "authorized")) 7 (world_in PaymentState.uncertain)

resolve_records_example :
    Ended 7
      (row_in PaymentState.uncertain)
      (world_in PaymentState.uncertain)
      (resolve (env_with (codes "authorized")) 7 (world_in PaymentState.uncertain))
resolve_records_example =
    resolve_records (env_with (codes "authorized")) (row_in PaymentState.uncertain)
      (world_in PaymentState.uncertain) (on_record PaymentState.uncertain)

-- the whole run on a payment that the provider has authorised: it is captured, once
resolve-captures :
    let (w, r) = resolve (env_with (codes "authorized")) 7 (world_in PaymentState.uncertain) in
    (r ≡ Response.done PaymentState.captured DecisionType.approve ActionType.capture consistent)
    × (w.outside.sent ≡ capture_request (codes "pay_1") 50000 (codes "INR") ∷ [])
    × (w.locks ≡ [])
unfolding acquire_intent_lock is_locked release_intent_lock discard release resolve_locked resolve
    get_intent update_intent executions_of event_types_of log_execution status_allowed is_terminal
    terminal_states transition next_state get_edge transitions gather load_intent decide log_verify
    api_evidence status_text after_execution is_executed state_after operation_of act_approved
    finish act_refused verify lookup_payment from_payment api_status is_real capture_payment send
    is_convertible validate_currency lstrip rstrip find_currency is_space to_decimal_amount quantize
    round_half_up minor_units_to_decimal is_zero_decimal reconcile examine conclude read_amount
    anomalies_of divergence_of says_captured says_failed says_pending says_unknown check_currency
    order_differs has_text same_amount analyze get_provider analyze_by_rules is_waiting is_upi
    is_settled evaluate is_resolvable is_duplicate_suspected is_refund is_return allowed_actions_for
    create_authorized_action execute is_refused moves_money finops execute_at_provider signed_fields
    sign_command verify_signature compute_signature key_eq text_eq lower upper contains_text
    upper_code lower_code
resolve-captures = (refl, refl, refl)

-- a language model that proposes to do nothing
abbrev nothing_proposed : AiProvider → Option LlmReply
nothing_proposed p = some (record {
  hypothesis = some (codes "settled elsewhere");
  confidence = some 900000;
  recommended_action = some (codes "NO_ACTION");
})

abbrev advised : Env
advised = record (env_with (codes "failed")) {
  ai = record { enabled = true; has_gemini_key = true; has_groq_key = false };
  llm = nothing_proposed;
}

abbrev verdict : ReconciliationResult
verdict = record {
  status = consistent;
  is_reconciled = true;
  divergence_type = DivergenceType.none_found;
  anomalies = [];
}

proposed_action :
    (analyze advised.ai advised.llm (intent_in PaymentState.uncertain)).recommended_action
    ≡ ActionType.no_action
unfolding analyze parse_llm_response parse_action text_eq get_provider
proposed_action = refl

proposed_confidence :
    850000 ≤ (analyze advised.ai advised.llm (intent_in PaymentState.uncertain)).confidence
unfolding analyze parse_llm_response parse_action text_eq get_provider
proposed_confidence = omega arith

failed_evidence_captured_example :
    (decide advised
      (intent_in PaymentState.uncertain)
      (found ExternalStatus.failed)
      (Key.idem 7 3)
      verdict
      (world_in PaymentState.uncertain)).1
    ≡ Response.done PaymentState.captured DecisionType.approve ActionType.no_action consistent
unfolding load_intent executions_of
failed_evidence_captured_example =
    failed_evidence_captured advised (intent_in PaymentState.uncertain)
      (found ExternalStatus.failed) (Key.idem 7 3) verdict (world_in PaymentState.uncertain) refl
      refl refl refl refl proposed_action proposed_confidence (omega arith) (omega arith)
