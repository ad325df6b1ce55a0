-- ===== src/Detective.antt =====
-- agents/detective.py and agents/ai_providers.py: the advisory analysis of a payment. The call of a
-- language model is a parameter: what it replies, or `none` if the call or the JSON parse raises.
pub mod Advice
use resolver_ai.Prelude.{
  ℕ, Bool, true, false, ◌&&◌, ◌||◌, Option, none, some, ltb, if◌then◌else◌, Text, codes, text_eq,
  upper, contains_text,
}
use resolver_ai.Domain.{PaymentState, ActionType}
use resolver_ai.Schemas.{IntentData, Hypothesis, DetectiveResult}
use resolver_ai.Policy.{is_duplicate_suspected}

abbrev pub advise : Hypothesis → ℕ → ActionType → DetectiveResult
advise h c a = record { hypothesis = h; confidence = c; recommended_action = a }

-- `state in ("UNCERTAIN", "PENDING_RAIL")`
unfoldable pub is_waiting : PaymentState → Bool
is_waiting PaymentState.uncertain = true
is_waiting PaymentState.pending_rail = true
is_waiting _ = false

-- `state in ("CAPTURED", "RECONCILED")`
unfoldable pub is_settled : PaymentState → Bool
is_settled PaymentState.captured = true
is_settled PaymentState.reconciled = true
is_settled _ = false

-- `"UPI" in rail.upper()`
unfoldable pub is_upi : Text → Bool
is_upi rail = contains_text (codes "UPI") (upper rail)

-- `DeterministicProvider.analyze`
unfoldable pub analyze_by_rules : IntentData → DetectiveResult
analyze_by_rules intent =
    if intent.has_existing_capture || is_duplicate_suspected intent.current_state
    then advise Hypothesis.duplicate_capture_detected 950000 ActionType.refund
    else if is_waiting intent.current_state && is_upi intent.rail
    then advise Hypothesis.late_authorization_suspected 850000 ActionType.capture
    else if is_waiting intent.current_state
    then advise Hypothesis.gateway_timeout_or_pending_capture 750000 ActionType.capture
    else if is_settled intent.current_state
    then advise Hypothesis.already_resolved 990000 ActionType.manual_review
    else advise Hypothesis.unknown_anomaly 400000 ActionType.manual_review

-- `ActionType.__members__.get(name, ActionType.MANUAL_REVIEW)`
unfoldable pub parse_action : Text → ActionType
parse_action name =
    if text_eq name (codes "CAPTURE")
    then ActionType.capture
    else if text_eq name (codes "REFUND")
    then ActionType.refund
    else if text_eq name (codes "VOID")
    then ActionType.void
    else if text_eq name (codes "REROUTE")
    then ActionType.reroute
    else if text_eq name (codes "NO_ACTION")
    then ActionType.no_action
    else if text_eq name (codes "VERIFY")
    then ActionType.verify
    else ActionType.manual_review

-- The fields of the model's JSON object; a field that is missing is `none`.
pub record LlmReply : Type 0 where
  pub hypothesis : Option Text
  pub confidence : Option ℕ
  pub recommended_action : Option Text

abbrev pub default_to {ℓ} : {A : Type ℓ} → A → Option A → A
default_to d none = d
default_to d (some a) = a

-- `_parse_llm_response`; a confidence above 1.0 fails the validation of the schema
unfoldable pub parse_llm_response : LlmReply → Option DetectiveResult
unfolding parse_action
parse_llm_response r =
    let c = default_to 500000 r.confidence in
    if ltb 1000000 c
    then none
    else some (
        advise (Hypothesis.stated (default_to (codes "unknown") r.hypothesis)) c
          (parse_action (default_to (codes "MANUAL_REVIEW") r.recommended_action)))

-- the settings that `get_provider` reads: AI_MODE=ENABLED, and which API keys are set
pub record AiConfig : Type 0 where
  pub enabled : Bool
  pub has_gemini_key : Bool
  pub has_groq_key : Bool

pub data AiProvider : Type 0 where
  deterministic gemini groq : AiProvider

unfoldable pub get_provider : AiConfig → AiProvider
get_provider c =
    if c.enabled && c.has_gemini_key
    then AiProvider.gemini
    else if c.enabled && c.has_groq_key
    then AiProvider.groq
    else AiProvider.deterministic

-- a language model's analysis, and the fall back to the rules
abbrev pub by_model : IntentData → Option LlmReply → DetectiveResult
by_model intent none = analyze_by_rules intent
by_model intent (some r) = default_to (analyze_by_rules intent) (parse_llm_response r)

abbrev pub by_provider : AiProvider → IntentData → (AiProvider → Option LlmReply) → DetectiveResult
by_provider AiProvider.deterministic intent reply = analyze_by_rules intent
by_provider AiProvider.gemini intent reply = by_model intent (reply AiProvider.gemini)
by_provider AiProvider.groq intent reply = by_model intent (reply AiProvider.groq)

-- `agents.detective.analyze`
unfoldable pub analyze : AiConfig → (AiProvider → Option LlmReply) → IntentData → DetectiveResult
unfolding get_provider
analyze c reply intent = by_provider (get_provider c) intent reply
