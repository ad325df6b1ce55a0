-- ===== src/Tests/Commands.antt =====
-- Evidence, proposals, decisions of the gate and executions for the payment of the test data.
use resolver_ai.Prelude.{◌≤◌, ◌≡◌, refl, ◌≢◌, ◌↔◌, ◌⊎◌, true, ◌∷◌, codes, text_eq}
use resolver_ai.Domain.{PaymentState, ActionType, DecisionType, ExternalStatus}
use resolver_ai.Schemas.{IntentData, AuthorizedAction, sign_command}
use resolver_ai.Policy.{
  evaluate, is_resolvable, is_duplicate_suspected, is_refund, is_return, allowed_actions_for,
  refund_cap,
}
use resolver_ai.Policy.Gate.{approve-iff-IsAdmissible, no_double_capture, refund_bounded}
use resolver_ai.Policy.Admissible.{IsAdmissible}
use resolver_ai.Provider.{Mutation, Mode}
use resolver_ai.Executor.{execute}
use resolver_ai.Executor.Guards.{CarriesOut, IsValid, execute_sends_command}
use resolver_ai.Resolver.Stages.{load_intent}
use resolver_ai.Tests.Data.{
  outside, always, provider_with, mac, secret, intent_in, found, proposal, command_to,
}

approve-iff-IsAdmissible_example :
    ((evaluate 11
        (intent_in PaymentState.uncertain)
        (found ExternalStatus.authorized)
        (proposal ActionType.capture)).decision
      ≡ DecisionType.approve)
    ↔ IsAdmissible
        (intent_in PaymentState.uncertain)
        (found ExternalStatus.authorized)
        (proposal ActionType.capture)
approve-iff-IsAdmissible_example =
    approve-iff-IsAdmissible 11 (intent_in PaymentState.uncertain) (found ExternalStatus.authorized)
      (proposal ActionType.capture)

-- a suspected duplicate with a capture on record
abbrev captured_once : IntentData
captured_once = record (intent_in PaymentState.duplicate_suspected) { has_existing_capture = true }

refund-approved :
    (evaluate 11 captured_once (found ExternalStatus.success) (proposal ActionType.refund)).decision
    ≡ DecisionType.approve
unfolding evaluate is_resolvable is_duplicate_suspected is_refund is_return allowed_actions_for
    text_eq load_intent
refund-approved = refl

no_double_capture_example : ActionType.refund ≢ ActionType.capture
no_double_capture_example =
    no_double_capture 11 captured_once (found ExternalStatus.success) (proposal ActionType.refund)
      refl refund-approved

refund_bounded_example :
    (captured_once.amount ≤ refund_cap)
    × ((found ExternalStatus.success).amount ≡ captured_once.amount)
    × (captured_once.current_state ≡ PaymentState.duplicate_suspected)
refund_bounded_example =
    refund_bounded 11 captured_once (found ExternalStatus.success) (proposal ActionType.refund)
      refund-approved refl

abbrev signed : AuthorizedAction
signed = sign_command mac secret (command_to ActionType.capture)

execute_sends_command_example :
    let w' =
      (execute mac secret Mode.test
        (provider_with (codes "captured"))
        always
        (codes "bb")
        1001
        signed
        outside).0 in
    (w'.sent ≡ outside.sent)
    ⊎ (((m : Mutation) × (w'.sent ≡ m ∷ outside.sent) × CarriesOut signed m)
        × IsValid mac secret 1001 signed)
execute_sends_command_example =
    execute_sends_command mac secret Mode.test (provider_with (codes "captured")) always
      (codes "bb") 1001 signed outside
