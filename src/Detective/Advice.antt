-- ===== src/Detective/Advice.antt =====
-- The advice of agents/detective.py, and what the gate makes of the rule engine's advice.
use resolver_ai.Prelude.{ℕ, ◌≤◌, ◌≡◌, refl, ◌⊎◌, true, false, Option, none, some, arith}
use resolver_ai.Domain.{PaymentState, ActionType, DecisionType}
use resolver_ai.Schemas.{IntentData, DetectiveResult, NegotiatorResult}
use resolver_ai.Policy.{refund_cap, evaluate, is_resolvable}
use resolver_ai.Policy.Gate.{approve-PassesRules, refund_bounded}
use resolver_ai.Detective.{
  AiConfig, AiProvider, LlmReply, analyze, analyze_by_rules, parse_llm_response, is_waiting, is_upi,
  is_settled, get_provider, default_to, by_model, by_provider,
}

rules_confidence : (intent : IntentData) → (analyze_by_rules intent).confidence ≤ 1000000
unfolding analyze_by_rules
rules_confidence intent = ground arith

parsed_confidence :
    (r : LlmReply) (d : DetectiveResult) → parse_llm_response r ≡ some d → d.confidence ≤ 1000000
unfolding parse_llm_response
parsed_confidence r d h = ground arith

model_confidence :
    (intent : IntentData) (o : Option DetectiveResult)
    → ((d : DetectiveResult) → o ≡ some d → d.confidence ≤ 1000000)
    → (default_to (analyze_by_rules intent) o).confidence ≤ 1000000
model_confidence intent none h = rules_confidence intent
model_confidence intent (some d) h = h d refl

by_model-confidence :
    (intent : IntentData) (o : Option LlmReply) → (by_model intent o).confidence ≤ 1000000
by_model-confidence intent none = rules_confidence intent
by_model-confidence intent (some r) =
    model_confidence intent (parse_llm_response r) (parsed_confidence r)

by_provider-confidence :
    (p : AiProvider) (reply : AiProvider → Option LlmReply) (intent : IntentData)
    → (by_provider p intent reply).confidence ≤ 1000000
by_provider-confidence AiProvider.deterministic reply intent = rules_confidence intent
by_provider-confidence AiProvider.gemini reply intent =
    by_model-confidence intent (reply AiProvider.gemini)
by_provider-confidence AiProvider.groq reply intent =
    by_model-confidence intent (reply AiProvider.groq)

-- Whatever a language model replies, the confidence that reaches the gate is at most 1.0.
pub confidence_bounded :
    (c : AiConfig) (reply : AiProvider → Option LlmReply) (intent : IntentData)
    → (analyze c reply intent).confidence ≤ 1000000
unfolding analyze
confidence_bounded c reply intent = by_provider-confidence (get_provider c) reply intent

settled-unresolvable : (s : PaymentState) → is_settled s ≡ true → is_resolvable s ≡ false
unfolding is_settled is_resolvable
settled-unresolvable s h = ground arith

-- With the rule engine as provider the gate approves only two kinds of action: a capture of a
-- payment that waits on a UPI rail, and a refund of at most 1000.00 where a duplicate is suspected.
pub rules_approve_two_kinds :
    (n : ℕ) (intent : IntentData) (ext : NegotiatorResult)
    → (evaluate n intent ext (analyze_by_rules intent)).decision ≡ DecisionType.approve
    → (((analyze_by_rules intent).recommended_action ≡ ActionType.capture)
        × (is_waiting intent.current_state ≡ true)
        × (is_upi intent.rail ≡ true))
      ⊎ (((analyze_by_rules intent).recommended_action ≡ ActionType.refund)
          × (intent.current_state ≡ PaymentState.duplicate_suspected)
          × (intent.amount ≤ refund_cap))
unfolding analyze_by_rules
rules_approve_two_kinds n intent ext ok =
    let det = analyze_by_rules intent in
    ground (
      arith,
      approve-PassesRules n intent ext det ok,
      settled-unresolvable intent.current_state,
      refund_bounded n intent ext det ok,
    )
