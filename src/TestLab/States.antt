-- ===== src/TestLab/States.antt =====
-- The states that a run of the test lab goes through, against the state machine alone.
use resolver_ai.Prelude.{
  ℕ, ◌≡◌, refl, sym, ap, ◌∙◌, inl, inr, true, some, List, [], ◌∷◌, any, length, if◌then◌else◌, Text,
  text_eq, codes, arith, Bool-cases,
}
use resolver_ai.Domain.{PaymentState, same_state}
use resolver_ai.StateMachine.{Event, transition}
use resolver_ai.Store.{Intent, Db, get_intent}
use resolver_ai.Store.Laws.{get_intent-update_self}
use resolver_ai.TestLab.{SyntheticEvent, Scenario}
use resolver_ai.Rail.{key_eq}
use resolver_ai.TestLab.Runner.{
  lab_task, Lab, Bench, seed_row, is_forged, set_state, move, enqueue_task, react, log_event,
  inject, inject_all,
}
use resolver_ai.TestLab.Runner.Judged.{start_bench}

-- A row's state and the local variable of the run are the same.
abbrev Stored : Lab → Bench → Type 0
Stored l b =
    (r : Intent) × (get_intent l.intent_id b.db.intents ≡ some r)
    × (r.id ≡ l.intent_id)
    × (r.current_state ≡ b.current_state)

set_state-Stored :
    (l : Lab) (s : PaymentState) (b : Bench) → Stored l b → Stored l (set_state l s b)
unfolding set_state
set_state-Stored l s b (r, found, same, is) = (
  record r { current_state = s },
  get_intent-update_self l.intent_id (λ r. record r { current_state = s }) b.db.intents r same
      found,
  same,
  refl,
)

move-Stored : (l : Lab) (e : Event) (b : Bench) → Stored l b → Stored l (move l e b)
unfolding move
move-Stored l e b h =
    elim (Bool-cases (same_state (transition b.current_state e) b.current_state)) [
      | inl k ↦ rw k h
      | inr k ↦ rw k (set_state-Stored l (transition b.current_state e) b h)
    ]

-- the state after an event of a type, and after an event, by the state machine alone
abbrev pub state_by_type : PaymentState → Text → PaymentState
state_by_type s t =
    if text_eq t (codes "payment.captured")
    then transition s Event.payment_captured
    else if text_eq t (codes "payment.failed")
    then transition s Event.payment_failed
    else if text_eq t (codes "checkout_verify")
    then transition s Event.payment_captured
    else if text_eq t (codes "illegal_state_jump")
    then transition s (Event.unlisted (codes "ILLEGAL_JUMP"))
    else s

abbrev pub state_after_event : PaymentState → SyntheticEvent → PaymentState
state_after_event s e =
    if is_forged e.override_signature
    then s
    else if text_eq e.event_type (codes "raw_malformed")
    then s
    else state_by_type s e.event_type

abbrev pub state_after_events : PaymentState → List SyntheticEvent → PaymentState
state_after_events s [] = s
state_after_events s (e ∷ es) = state_after_events (state_after_event s e) es

same_state_sound : (s t : PaymentState) → same_state s t ≡ true → s ≡ t
same_state_sound s t h = ground arith

move-state :
    (l : Lab) (e : Event) (b : Bench) → (move l e b).current_state ≡ transition b.current_state e
unfolding move set_state
move-state l e b = elim (Bool-cases (same_state (transition b.current_state e) b.current_state)) [
  | inl k ↦ rw k (sym (same_state_sound (transition b.current_state e) b.current_state k))
  | inr k ↦ rw k refl
]

-- a step that keeps the invariant and reaches the state
abbrev pub Reaches : Lab → PaymentState → Bench → Type 0
Reaches l s b = Stored l b × (b.current_state ≡ s)

enqueue_task-Reaches :
    (l : Lab) (n : ℕ) (s : PaymentState) (b : Bench)
    → Reaches l s b
    → Reaches l s (enqueue_task l n b)
unfolding enqueue_task
enqueue_task-Reaches l n s b h =
    elim (Bool-cases (any (λ x. key_eq (lab_task l n).key x.key) b.db.outbox)) [
      | inl k ↦ rw k h
      | inr k ↦ rw k h
    ]

move-Reaches :
    (l : Lab) (e : Event) (b : Bench)
    → Stored l b
    → Reaches l (transition b.current_state e) (move l e b)
move-Reaches l e b h = (move-Stored l e b h, move-state l e b)

set_state-Reaches :
    (l : Lab) (s : PaymentState) (b : Bench) → Stored l b → Reaches l s (set_state l s b)
unfolding set_state
set_state-Reaches l s b h = (set_state-Stored l s b h, refl)

react-Reaches :
    (l : Lab) (n : ℕ) (t : Text) (b : Bench)
    → Stored l b
    → Reaches l (state_by_type b.current_state t) (react l n t b)
unfolding react
react-Reaches l n t b h = elim (Bool-cases (text_eq t (codes "payment.captured"))) [
  | inl k ↦ rw k (enqueue_task-Reaches l n _ _ (move-Reaches l Event.payment_captured b h))
  | inr k ↦ rw k (elim (Bool-cases (text_eq t (codes "payment.failed"))) [
    | inl k ↦ rw k (move-Reaches l Event.payment_failed b h)
    | inr k ↦ rw k (elim (Bool-cases (text_eq t (codes "checkout_verify"))) [
      | inl k ↦ rw k (set_state-Reaches l _ b h)
      | inr k ↦ rw k (elim (Bool-cases (text_eq t (codes "illegal_state_jump"))) [
        | inl k ↦ rw k (set_state-Reaches l _ b h)
        | inr k ↦ rw k (h, refl)
      ])
    ])
  ])
]

inject-Reaches :
    (l : Lab) (n : ℕ) (e : SyntheticEvent) (b : Bench)
    → Stored l b
    → Reaches l (state_after_event b.current_state e) (inject l n e b)
unfolding inject log_event
inject-Reaches l n e b h = elim (Bool-cases (is_forged e.override_signature)) [
  | inl k ↦ rw k (h, refl)
  | inr k ↦ rw k (elim (Bool-cases (text_eq e.event_type (codes "raw_malformed"))) [
    | inl k ↦ rw k (h, refl)
    | inr k ↦ rw k (react-Reaches l n e.event_type b h)
  ])
]

pub inject_all-Reaches :
    (l : Lab) (es : List SyntheticEvent) (b : Bench)
    → Stored l b
    → Reaches l (state_after_events b.current_state es) (inject_all l es b)
unfolding inject_all
inject_all-Reaches l [] b h = (h, refl)
inject_all-Reaches l (e ∷ es) b h =
    let (stored, is) = inject-Reaches l (length es) e b h in
    let (after, last) = inject_all-Reaches l es (inject l (length es) e b) stored in
    (after, last ∙ ap (λ s. state_after_events s es) is)

pub seeded-Stored :
    (l : Lab) (s : Scenario) (state : PaymentState) (db : Db) → Stored l (start_bench l s state db)
unfolding seed_row get_intent
seeded-Stored l s state db = (seed_row l s state, ground arith, refl, refl)
