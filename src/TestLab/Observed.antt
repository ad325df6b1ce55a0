-- ===== src/TestLab/Observed.antt =====
-- What is observed of a run of the test lab, and which part of it decides the verdict.
use resolver_ai.Prelude.{
  ◌≡◌, refl, ap, ◌∙◌, Bool, true, false, ◌&&◌, not, if◌then◌else◌, codes, inl, inr, Bool-cases,
}
use resolver_ai.Domain.{PaymentState}
use resolver_ai.StateMachine.{StateName, valid, invalid}
use resolver_ai.Store.{Db}
use resolver_ai.TestLab.{ExpectedResult, Observation, Scenario, same_name, same_flag}
use resolver_ai.TestLab.Verdicts.{
  agrees, is_sound, is_exact, verdict_of, evaluate_scenario_result-exact,
}
use resolver_ai.TestLab.Runner.{Lab, Bench, is_storable, inject_all}
use resolver_ai.TestLab.Runner.Judged.{observe, start_bench, judged, crashed, seeded, run_scenario}
use resolver_ai.TestLab.States.{Reaches, inject_all-Reaches, seeded-Stored, state_after_events}

and_trues : (a b : Bool) → (a && b && true && true) ≡ (a && b)
and_trues true true = refl
and_trues true false = refl
and_trues false b = refl

sound_by_state :
    (e : ExpectedResult) (a : Observation) (state : StateName)
    → a.actual_state ≡ state
    → e.expected_idempotent ≡ true
    → a.actual_idempotent ≡ true
    → e.expected_financial_mutation ≡ false
    → a.actual_financial_mutation ≡ false
    → is_sound e a ≡ (
        same_name e.expected_state state
        && agrees e.expected_policy_decision a.actual_policy_decision)
sound_by_state e a state is once handled harmless unmoved =
    let named = same_name e.expected_state a.actual_state in
    let decided = agrees e.expected_policy_decision a.actual_policy_decision in
    let moved = same_flag e.expected_financial_mutation a.actual_financial_mutation in
    ap (λ f. named && decided && same_flag f a.actual_idempotent && moved) once
    ∙ ap (λ f. named && decided && f && moved) handled
    ∙ ap (λ f. named && decided && true && same_flag f a.actual_financial_mutation) harmless
    ∙ ap (λ f. named && decided && true && not f) unmoved
    ∙ and_trues named decided
    ∙ ap (λ t. same_name e.expected_state t && decided) is

module _ (l : Lab) (s : Scenario) (state : PaymentState) (db : Db)
    (initial : s.initial_state ≡ valid state) (storable : is_storable s ≡ true) where
  abbrev pub last_bench : Bench
  last_bench = inject_all l s.events (start_bench l s state db)

  last-Reaches : Reaches l (state_after_events state s.events) last_bench
  last-Reaches =
      inject_all-Reaches l s.events (start_bench l s state db) (seeded-Stored l s state db)

  pub run_is_judged : run_scenario l s db ≡ judged l s last_bench
  unfolding run_scenario
  run_is_judged =
      ap (seeded l s db) initial
      ∙ ap (λ b. if b then judged l s last_bench else crashed db) storable

  observed_state : (observe l s last_bench).actual_state ≡ valid (state_after_events state s.events)
  unfolding observe
  observed_state =
      let ((r, found, same, is), reached) = last-Reaches in rw found (ap valid (is ∙ reached))

  observed_flags :
      ((observe l s last_bench).actual_idempotent ≡ true)
      × ((observe l s last_bench).actual_financial_mutation ≡ false)
  unfolding observe
  observed_flags = (refl, refl)

  -- For a scenario that expects idempotence and no financial mutation, the verdict is decided by the
  -- state that the state machine gives, the policy decision, the HTTP status and the outbox task:
  -- whether money moved or an event was handled twice has no part in it.
  pub safety_is_not_observed :
      s.expected_result.expected_idempotent ≡ true
      → s.expected_result.expected_financial_mutation ≡ false
      → let e = s.expected_result in
        let a = (run_scenario l s db).observed in
        (run_scenario l s db).status
        ≡ verdict_of
            (same_name e.expected_state (valid (state_after_events state s.events))
              && agrees e.expected_policy_decision a.actual_policy_decision)
            (is_exact e a)
  safety_is_not_observed idempotent harmless =
      let e = s.expected_result in
      let a = observe l s last_bench in
      let (handled_once, unmoved) = observed_flags in
      rw run_is_judged (
        evaluate_scenario_result-exact e a
        ∙ ap (λ sound. verdict_of sound (is_exact e a))
            (sound_by_state e a (valid (state_after_events state s.events)) observed_state
              idempotent handled_once harmless unmoved))

-- what a run shows in place of a state when it has failed with an exception
abbrev error_state : StateName
error_state = invalid (codes "ERROR")

-- the state to observe, by the initial state
abbrev pub state_from : Scenario → StateName → StateName
state_from s (invalid t) = error_state
state_from s (valid state) =
    if is_storable s then valid (state_after_events state s.events) else error_state

seeded-state :
    (l : Lab) (s : Scenario) (db : Db) (x : StateName)
    → s.initial_state ≡ x
    → (run_scenario l s db).observed.actual_state ≡ state_from s x
unfolding run_scenario is_storable
seeded-state l s db (invalid t) e = rw e refl
seeded-state l s db (valid state) e = elim (Bool-cases (is_storable s)) [
  | inl k ↦ rw k (rw (run_is_judged l s state db e k) (observed_state l s state db e k))
  | inr k ↦ rw k (rw e (rw k refl))
]

-- The state that is observed of a run is the one that the state machine alone gives for the events of
-- the scenario, of which forged and malformed ones count for nothing; it is ERROR if the initial state
-- is none of the state machine, or the table of intents does not store the amount and the currency.
pub observed_state-run :
    (l : Lab) (s : Scenario) (db : Db)
    → (run_scenario l s db).observed.actual_state ≡ state_from s s.initial_state
observed_state-run l s db = seeded-state l s db s.initial_state refl
