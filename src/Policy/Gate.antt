-- ===== src/Policy/Gate.antt =====
-- What the gate of core/policy_engine.py lets through.
use resolver_ai.Prelude.{
  refl, ◌+◌, some, Text, ℕ, ◌≤◌, ◌≡◌, ◌≢◌, ◌↔◌, ◌⊎◌, true, false, arith, text_eq_iff,
}
use resolver_ai.Domain.{PaymentState, ActionType, DecisionType, ExternalStatus, action_in}
use resolver_ai.Schemas.{
  IntentData, DetectiveResult, NegotiatorResult, PolicyDecision, AuthorizedAction, Key, Mac,
}
use resolver_ai.Policy.Admissible.{IsAdmissible, allowed-sanctioned, sanctioned-allowed}
use resolver_ai.Policy.{
  is_resolvable, is_duplicate_suspected, is_return, is_refund, min_confidence, refund_cap,
  allowed_actions_for, evaluate, create_authorized_action, authorize, command_lifetime,
}

-- the conditions that the rules test, one by one
pub record PassesRules (intent : IntentData) (ext : NegotiatorResult) (det : DetectiveResult)
    : Type 0 where
  pub resolvable : is_resolvable intent.current_state ≡ true
  pub definitive : ext.external_status ≢ ExternalStatus.unknown
  pub same_amount : ext.amount ≡ intent.amount
  pub same_currency : ext.currency ≡ intent.currency
  pub no_second_capture :
      (intent.has_existing_capture ≡ false)
      ⊎ (is_duplicate_suspected intent.current_state ≡ true)
      ⊎ (is_return det.recommended_action ≡ true)
  pub confident : min_confidence ≤ det.confidence
  pub capped : (is_refund det.recommended_action ≡ false) ⊎ (intent.amount ≤ refund_cap)
  pub bounded :
      action_in det.recommended_action
        (allowed_actions_for intent.current_state ext.external_status)
      ≡ true

allowed-return :
    (a : ActionType) (s : PaymentState) (x : ExternalStatus)
    → is_return a ≡ true
    → action_in a (allowed_actions_for s x) ≡ true
    → s ≡ PaymentState.duplicate_suspected
unfolding is_return allowed_actions_for
allowed-return a s x r h = ground arith

suspected-state :
    (s : PaymentState) → is_duplicate_suspected s ≡ true → s ≡ PaymentState.duplicate_suspected
unfolding is_duplicate_suspected
suspected-state s h = ground arith

allowed-not_capture :
    (s : PaymentState) (x : ExternalStatus)
    → is_duplicate_suspected s ≡ true
    → action_in ActionType.capture (allowed_actions_for s x) ≡ false
unfolding is_duplicate_suspected allowed_actions_for
allowed-not_capture s x h = ground arith

allowed-refund :
    (s : PaymentState) (x : ExternalStatus)
    → action_in ActionType.refund (allowed_actions_for s x) ≡ true
    → s ≡ PaymentState.duplicate_suspected
unfolding allowed_actions_for
allowed-refund s x h = ground arith

allowed-in :
    (a b : ActionType) (s : PaymentState) (x : ExternalStatus)
    → a ≡ b
    → action_in a (allowed_actions_for s x) ≡ true
    → action_in b (allowed_actions_for s x) ≡ true
allowed-in a b s x e h = rw e at h

module _ (n : ℕ) (intent : IntentData) (ext : NegotiatorResult) (det : DetectiveResult) where
  -- `elim` on the test of an early return
  pub approve-PassesRules :
      (evaluate n intent ext det).decision ≡ DecisionType.approve → PassesRules intent ext det
  unfolding evaluate
  approve-PassesRules h = ground (arith, text_eq_iff ext.currency intent.currency)

  PassesRules-approve :
      PassesRules intent ext det → (evaluate n intent ext det).decision ≡ DecisionType.approve
  unfolding evaluate
  PassesRules-approve a = ground (arith, text_eq_iff ext.currency intent.currency)

  rules-IsAdmissible : PassesRules intent ext det → IsAdmissible intent ext det
  unfolding is_resolvable is_duplicate_suspected is_return is_refund
  rules-IsAdmissible a = record {
    action_sanctioned =
        allowed-sanctioned det.recommended_action intent.current_state ext.external_status
          a.resolvable a.definitive a.bounded;
    same_amount = a.same_amount;
    same_currency = a.same_currency;
    one_capture = ground (
      arith,
      a.no_second_capture,
      suspected-state intent.current_state,
      allowed-return det.recommended_action intent.current_state ext.external_status,
      a.bounded,
    );
    confident = a.confident;
    capped = ground (arith, a.capped);
  }

  IsAdmissible-rules : IsAdmissible intent ext det → PassesRules intent ext det
  unfolding is_resolvable is_duplicate_suspected is_return is_refund
  IsAdmissible-rules a =
      let (resolves, known, allowed) =
        sanctioned-allowed det.recommended_action intent.current_state ext.external_status
          a.action_sanctioned in
      record {
        resolvable = resolves;
        definitive = known;
        same_amount = a.same_amount;
        same_currency = a.same_currency;
        no_second_capture = ground (arith, a.one_capture);
        confident = a.confident;
        capped = ground (arith, a.capped);
        bounded = allowed;
      }

  -- The gate approves exactly the admissible proposals: the action is one that the table by actions
  -- sanctions for the state and the verified status, amount and currency agree with the verified ones,
  -- an earlier capture is on record only where a duplicate is suspected, the confidence is at least
  -- 0.85, and a refund is of at most 1000.00.
  pub approve-iff-IsAdmissible :
      ((evaluate n intent ext det).decision ≡ DecisionType.approve) ↔ IsAdmissible intent ext det
  approve-iff-IsAdmissible = (
    (λ h. rules-IsAdmissible (approve-PassesRules h)),
    (λ a. PassesRules-approve (IsAdmissible-rules a)),
  )

  -- Where an earlier capture is on record, no second capture is approved, whatever the state.
  pub no_double_capture :
      intent.has_existing_capture ≡ true
      → (evaluate n intent ext det).decision ≡ DecisionType.approve
      → det.recommended_action ≢ ActionType.capture
  unfolding is_return
  no_double_capture seen ok same =
      let a = approve-PassesRules ok in
      let s = intent.current_state in
      let x = ext.external_status in
      ground (
        arith,
        a.no_second_capture,
        allowed-in det.recommended_action ActionType.capture s x same a.bounded,
        allowed-not_capture s x,
      )

  -- An approved refund is for at most 1000.00, for the amount of the intent, and only where a
  -- duplicate is suspected.
  pub refund_bounded :
      (evaluate n intent ext det).decision ≡ DecisionType.approve
      → det.recommended_action ≡ ActionType.refund
      → (intent.amount ≤ refund_cap)
        × (ext.amount ≡ intent.amount)
        × (intent.current_state ≡ PaymentState.duplicate_suspected)
  unfolding is_refund
  refund_bounded ok same =
      let a = approve-PassesRules ok in
      let s = intent.current_state in
      let x = ext.external_status in
      let here = allowed-in det.recommended_action ActionType.refund s x same a.bounded in
      (ground (arith, a.capped), a.same_amount, allowed-refund s x here)

-- A command exists only for an approval, and is for the proposed action and the intent's amount.
pub create_authorized_action-some :
    (mac : Mac) (secret : Text) (now fresh : ℕ) (d : PolicyDecision) (intent : IntentData)
    (det : DetectiveResult) (ext : NegotiatorResult) (key : Key) (c : AuthorizedAction)
    → create_authorized_action mac secret now fresh d intent det ext key ≡ some c
    → (d.decision ≡ DecisionType.approve)
      × (c.action ≡ det.recommended_action)
      × (c.amount ≡ intent.amount)
unfolding create_authorized_action
create_authorized_action-some mac secret now fresh d intent det ext key c h = ground arith

-- the command for an approval, with its times
pub create_authorized_action-approved :
    (mac : Mac) (secret : Text) (now fresh : ℕ) (d : PolicyDecision) (intent : IntentData)
    (det : DetectiveResult) (ext : NegotiatorResult) (key : Key)
    → d.decision ≡ DecisionType.approve
    → (c : AuthorizedAction) × (create_authorized_action mac secret now fresh d intent det ext key
        ≡ some c)
      × (c.action ≡ det.recommended_action)
      × (c.issued_at ≡ now)
      × (c.expires_at ≡ now + command_lifetime)
unfolding create_authorized_action
create_authorized_action-approved mac secret now fresh d intent det ext key h =
    (authorize mac secret now fresh d intent det ext key, rw h, refl, refl, refl)
