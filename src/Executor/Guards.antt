-- ===== src/Executor/Guards.antt =====
-- What an execution of agents/finops_executor.py may send to the provider, and when.
use resolver_ai.Prelude.{
  ℕ, ◌+◌, ◌≤◌, ◌<◌, ◌≡◌, refl, ◌≢◌, ◌⊎◌, inl, inr, Bool, true, false, ◌&&◌, ◌||◌, not, Option, none,
  some, ◌∷◌, arith, Bool-cases, Text, text_eq_iff, lower, truthy,
}
use resolver_ai.Domain.{ActionType, ExternalStatus}
use resolver_ai.Schemas.{
  AuthorizedAction, Mac, check_digest, verify_signature, sign_command, signed_fields,
}
use resolver_ai.Provider.{
  Api, ok, api_error, crash, Provider, Mutation, capture_request, refund_request, Outside, Mode,
  is_real, returned, capture_payment, create_refund, send, is_convertible, currency_or_inr,
}
use resolver_ai.Executor.{
  moves_money, is_no_action, failure, settle, execute_at_provider, execute_on_rail, dispatch,
  is_refused, execute,
}

-- A request carries out a command: the command's action, payment and full amount.
abbrev pub CarriesOut : AuthorizedAction → Mutation → Type 0
CarriesOut c (capture_request id amount currency) =
    (c.action ≡ ActionType.capture) × (c.razorpay_payment_id ≡ some id) × (amount ≡ c.amount)
CarriesOut c (refund_request id amount decision) =
    ((c.action ≡ ActionType.refund) ⊎ (c.action ≡ ActionType.void))
    × (c.razorpay_payment_id ≡ some id)
    × (amount ≡ c.amount)

-- What the requests sent can have become: as before, or one more, which carries out the command.
abbrev pub SendsAtMostOne : AuthorizedAction → Outside → Outside → Type 0
SendsAtMostOne c w w' =
    (w'.sent ≡ w.sent) ⊎ ((m : Mutation) × (w'.sent ≡ m ∷ w.sent) × CarriesOut c m)

settle-outside :
    (c : AuthorizedAction) (s : ExternalStatus) (r : Outside × Api (Option Text))
    → (settle c s r).0 ≡ r.0
settle-outside c s (w, ok id) = refl
settle-outside c s (w, api_error) = refl
settle-outside c s (w, crash) = refl

capture_payment-sent :
    (p : Provider) (id : Text) (c : AuthorizedAction) (w : Outside)
    → c.action ≡ ActionType.capture
    → c.razorpay_payment_id ≡ some id
    → SendsAtMostOne c w (capture_payment p id c.amount c.currency w).0
unfolding capture_payment send
capture_payment-sent p id c w a e =
    elim (Bool-cases (not (truthy (some c.currency)) || is_convertible c.currency)) [
      | inl q ↦
          rw q (inr (capture_request id c.amount (currency_or_inr c.currency), refl, (a, e, refl)))
      | inr q ↦ rw q (inl refl)
    ]

create_refund-sent :
    (p : Provider) (id : Text) (c : AuthorizedAction) (w : Outside)
    → (c.action ≡ ActionType.refund) ⊎ (c.action ≡ ActionType.void)
    → c.razorpay_payment_id ≡ some id
    → SendsAtMostOne c w (create_refund p id c.amount c.policy_decision_id w).0
unfolding create_refund send
create_refund-sent p id c w a e =
    inr (refund_request id c.amount c.policy_decision_id, refl, (a, e, refl))

execute_at_provider-sent :
    (p : Provider) (a : ActionType) (id : Text) (c : AuthorizedAction) (w : Outside)
    → c.action ≡ a
    → c.razorpay_payment_id ≡ some id
    → SendsAtMostOne c w (execute_at_provider p a id c w).0
unfolding execute_at_provider
execute_at_provider-sent p ActionType.capture id c w a e =
    rw (settle-outside c ExternalStatus.success (capture_payment p id c.amount c.currency w))
      (capture_payment-sent p id c w a e)
execute_at_provider-sent p ActionType.refund id c w a e =
    rw
      (settle-outside c ExternalStatus.refunded
        (create_refund p id c.amount c.policy_decision_id w))
      (create_refund-sent p id c w (inl a) e)
execute_at_provider-sent p ActionType.void id c w a e =
    rw
      (settle-outside c ExternalStatus.refunded
        (create_refund p id c.amount c.policy_decision_id w))
      (create_refund-sent p id c w (inr a) e)
execute_at_provider-sent p ActionType.no_action id c w a e = inl refl
execute_at_provider-sent p ActionType.reroute id c w a e = inl refl
execute_at_provider-sent p ActionType.manual_review id c w a e = inl refl
execute_at_provider-sent p ActionType.verify id c w a e = inl refl

execute_on_rail-sent :
    (lucky : Text → Bool) (hex : Text) (a : ActionType) (c : AuthorizedAction) (w : Outside)
    → (execute_on_rail lucky hex a c w).0.sent ≡ w.sent
unfolding execute_on_rail
execute_on_rail-sent lucky hex ActionType.capture c w = refl
execute_on_rail-sent lucky hex ActionType.refund c w = refl
execute_on_rail-sent lucky hex ActionType.void c w = refl
execute_on_rail-sent lucky hex ActionType.no_action c w = refl
execute_on_rail-sent lucky hex ActionType.reroute c w = refl
execute_on_rail-sent lucky hex ActionType.manual_review c w = refl
execute_on_rail-sent lucky hex ActionType.verify c w = refl

-- the checks that a command has passed before it has an effect at the provider
pub record IsValid (mac : Mac) (secret : Text) (now : ℕ) (c : AuthorizedAction) : Type 0 where
  pub not_expired : now ≤ c.expires_at
  pub not_post_dated : c.issued_at ≤ now + 5
  pub signed : (moves_money c.action ≡ false) ⊎ (verify_signature mac secret c ≡ true)
  pub positive : (0 < c.amount) ⊎ (is_no_action c.action ≡ true)

module _ (mac : Mac) (secret : Text) (mode : Mode) (p : Provider) (lucky : Text → Bool) (hex : Text)
    (now : ℕ) (c : AuthorizedAction) (w : Outside) where
  accepted-IsValid : is_refused mac secret now c ≡ false → IsValid mac secret now c
  unfolding is_refused
  accepted-IsValid h = ground arith

  dispatch-sent :
      (o : Option Text)
      → c.razorpay_payment_id ≡ o
      → SendsAtMostOne c w (dispatch mode p lucky hex o c w).0
  dispatch-sent none e = inl (execute_on_rail-sent lucky hex c.action c w)
  dispatch-sent (some id) e = elim (Bool-cases (is_real mode && truthy (some id))) [
    | inl q ↦ rw q (execute_at_provider-sent p c.action id c w refl e)
    | inr q ↦ rw q (inl (execute_on_rail-sent lucky hex c.action c w))
  ]

  -- One execution sends at most one mutation request, which carries out the command (its action,
  -- payment and full amount), and only for a command that is neither expired nor post-dated, is of a
  -- positive amount and, where it moves money, bears a valid signature.
  pub execute_sends_command :
      let w' = (execute mac secret mode p lucky hex now c w).0 in
      (w'.sent ≡ w.sent)
      ⊎ (((m : Mutation) × (w'.sent ≡ m ∷ w.sent) × CarriesOut c m) × IsValid mac secret now c)
  unfolding execute
  execute_sends_command = elim (Bool-cases (is_refused mac secret now c)) [
    | inl q ↦ rw q (inl refl)
    | inr q ↦ rw q (elim (dispatch-sent c.razorpay_payment_id refl) [
      | inl same ↦ inl same
      | inr one ↦ inr (one, accepted-IsValid q)
    ])
  ]

  unsigned-is_refused :
      moves_money c.action ≡ true
      → verify_signature mac secret c ≡ false
      → is_refused mac secret now c ≡ true
  unfolding is_refused
  unsigned-is_refused moves bad = ground arith

  -- A capture, refund or void whose signature does not verify fails and has no effect at all.
  pub unsigned_fails :
      moves_money c.action ≡ true
      → verify_signature mac secret c ≡ false
      → execute mac secret mode p lucky hex now c w ≡ (w, returned (failure c))
  unfolding execute
  unsigned_fails moves bad = rw (unsigned-is_refused moves bad)

digest-differs :
    (sig expected : Text) → lower sig ≢ lower expected → check_digest (some sig) expected ≡ false
digest-differs sig expected h = ground (arith, text_eq_iff (lower sig) (lower expected))

tampered-unverified :
    (mac : Mac) (secret : Text) (c : AuthorizedAction) (a : ℕ)
    → lower (mac secret (signed_fields c))
      ≢ lower (mac secret (signed_fields (record c { amount = a })))
    → verify_signature mac secret (record (sign_command mac secret c) { amount = a }) ≡ false
unfolding verify_signature sign_command
tampered-unverified mac secret c a h =
    digest-differs (mac secret (signed_fields c))
      (mac secret (signed_fields (record c { amount = a }))) h

-- The amount that a command was signed for cannot be changed: with the amount replaced, a signed
-- command fails and has no effect, if the digests of the two amounts differ.
pub tampered_amount_fails :
    (mac : Mac) (secret : Text) (mode : Mode) (p : Provider) (lucky : Text → Bool) (hex : Text)
    (now : ℕ) (c : AuthorizedAction) (a : ℕ) (w : Outside)
    → moves_money c.action ≡ true
    → lower (mac secret (signed_fields c))
      ≢ lower (mac secret (signed_fields (record c { amount = a })))
    → let d = record (sign_command mac secret c) { amount = a } in
      execute mac secret mode p lucky hex now d w ≡ (w, returned (failure d))
tampered_amount_fails mac secret mode p lucky hex now c a w moves differ =
    let d = record (sign_command mac secret c) { amount = a } in
    unsigned_fails mac secret mode p lucky hex now d w (unfold sign_command in moves)
      (tampered-unverified mac secret c a differ)
