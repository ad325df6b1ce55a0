-- ===== src/TestLab/Claimed.antt =====
-- What a run of the test lab leaves for the outbox worker of the service.
use resolver_ai.Prelude.{
  ℕ, ◌≤◌, ◌≡◌, refl, ap, ◌∙◌, inl, inr, true, false, ◌&&◌, [], ◌∷◌, any, ◌==◌, text_eq, codes,
  arith, Bool-cases,
}
use resolver_ai.Domain.{PaymentState, same_state}
use resolver_ai.StateMachine.{Event, valid, transition}
use resolver_ai.Rail.{key_eq}
use resolver_ai.Store.{Db}
use resolver_ai.Worker.{max_attempts, is_claimable}
use resolver_ai.TestLab.{SyntheticEvent, Scenario}
use resolver_ai.TestLab.Observed.{run_is_judged}
use resolver_ai.TestLab.Runner.{
  Lab, Bench, is_storable, is_forged, move, set_state, lab_task, enqueue_task, react, log_event,
  inject, inject_all,
}
use resolver_ai.TestLab.Runner.Judged.{start_bench, run_scenario}

move-outbox : (l : Lab) (e : Event) (b : Bench) → (move l e b).db.outbox ≡ b.db.outbox
unfolding move set_state
move-outbox l e b = elim (Bool-cases (same_state (transition b.current_state e) b.current_state)) [
  | inl k ↦ rw k refl
  | inr k ↦ rw k refl
]

enqueue_task-new :
    (l : Lab) (n : ℕ) (b : Bench)
    → any (λ x. key_eq (lab_task l n).key x.key) b.db.outbox ≡ false
    → (enqueue_task l n b).db.outbox ≡ lab_task l n ∷ b.db.outbox
unfolding enqueue_task
enqueue_task-new l n b fresh = rw fresh refl

captured-outbox :
    (l : Lab) (e : SyntheticEvent) (b : Bench)
    → is_forged e.override_signature ≡ false
    → e.event_type ≡ codes "payment.captured"
    → any (λ x. key_eq (lab_task l 0).key x.key) b.db.outbox ≡ false
    → (inject l 0 e b).db.outbox ≡ lab_task l 0 ∷ b.db.outbox
unfolding inject react log_event text_eq
captured-outbox l e b genuine is fresh =
    let moved = move l Event.payment_captured b in
    let same = move-outbox l Event.payment_captured b in
    rw (genuine, is)
      (enqueue_task-new l 0 moved (rw same fresh) ∙ ap (λ ts. lab_task l 0 ∷ ts) same)

lab_task-claimable :
    (l : Lab) (n later : ℕ)
    → l.now ≤ later
    → (lab_task l n).intent == l.intent_id && is_claimable max_attempts later (lab_task l n) ≡ true
unfolding lab_task is_claimable
lab_task-claimable l n later h = ground arith

-- A run of a scenario of one genuine capture event, with an initial state of the state machine, an
-- amount and a currency that the table of intents stores, and an event id for which there is no task
-- yet, leaves a task for its synthetic intent in the outbox of the service, which from then on a worker
-- of the service may claim like any other.
pub lab_task-is_claimable :
    (l : Lab) (s : Scenario) (state : PaymentState) (db : Db) (e : SyntheticEvent) (later : ℕ)
    → s.initial_state ≡ valid state
    → is_storable s ≡ true
    → s.events ≡ e ∷ []
    → is_forged e.override_signature ≡ false
    → e.event_type ≡ codes "payment.captured"
    → any (λ x. key_eq (lab_task l 0).key x.key) db.outbox ≡ false
    → l.now ≤ later
    → any
        (λ t. t.intent == l.intent_id && is_claimable max_attempts later t)
        (run_scenario l s db).db.outbox
      ≡ true
unfolding inject_all
lab_task-is_claimable l s state db e later initial storable single genuine is fresh h =
    let b = start_bench l s state db in
    let added : (inject_all l s.events b).db.outbox ≡ lab_task l 0 ∷ db.outbox =
      ap (λ es. (inject_all l es b).db.outbox) single ∙ captured-outbox l e b genuine is fresh in
    rw (run_is_judged l s state db initial storable)
      (rw added (rw (lab_task-claimable l 0 later h) refl))
