-- ===== src/Tests/Lab.antt =====
-- Scenarios of the test lab run on a small database.
use resolver_ai.Prelude.{
  ℕ, ◌+◌, Bool, [], ◌∷◌, text_eq, ◌≡◌, refl, true, false, ◌&&◌, none, some, any, ◌==◌, codes, arith,
}
use resolver_ai.Domain.{PaymentState}
use resolver_ai.StateMachine.{
  valid, transition, is_terminal, next_state, get_edge, transitions, terminal_states,
}
use resolver_ai.Policy.{
  evaluate, is_resolvable, is_duplicate_suspected, is_refund, is_return, allowed_actions_for,
}
use resolver_ai.Rail.{key_eq}
use resolver_ai.Store.{get_intent, update_intent}
use resolver_ai.Store.{Db}
use resolver_ai.Worker.{max_attempts, is_claimable}
use resolver_ai.TestLab.{
  SyntheticEvent, Observation, evaluate_scenario_result, pass, fail, diff_matrix, discrepancies,
  generate_synthetic_order_id, generate_synthetic_payment_id, generate_synthetic_event_id,
}
use resolver_ai.TestLab.Suite.{run_all, new_run}
use resolver_ai.TestLab.Runner.{
  Lab, is_storable, seed_row, set_state, move, lab_task, enqueue_task, react, log_event, inject,
  inject_all,
}
use resolver_ai.TestLab.Runner.Judged.{
  run_scenario, lab_intent, lab_proposal, lab_evidence, observe,
}
use resolver_ai.TestLab.Library.{success_flow, get_baseline_scenarios}
use resolver_ai.TestLab.Verdicts.{is_sound, is_exact, verdict_of, evaluate_scenario_result-exact}
use resolver_ai.TestLab.Observed.{state_from, observed_state-run}
use resolver_ai.TestLab.Claimed.{lab_task-is_claimable}
use resolver_ai.Tests.Data.{db_with, row_in}

abbrev db : Db
db = db_with (row_in PaymentState.uncertain)

abbrev lab : Lab
lab = record {
  intent_id = 99;
  order_hex = codes "ab";
  payment_hex = codes "cd";
  event_hex = λ n. codes "ef";
  task_id = λ n. 500;
  decision_id = 11;
  now = 40;
}

-- a capture that was observed with another HTTP status
abbrev observation : Observation
observation = record {
  actual_state = valid PaymentState.captured;
  actual_http_status = 500;
  actual_policy_decision = none;
  actual_outbox_event = some (codes "RESOLVE_INTENT");
  actual_security_alert = false;
  actual_idempotent = true;
  actual_financial_mutation = false;
}

evaluate_scenario_result-exact_example :
    (evaluate_scenario_result success_flow.expected_result observation).0
    ≡ verdict_of
        (is_sound success_flow.expected_result observation)
        (is_exact success_flow.expected_result observation)
evaluate_scenario_result-exact_example =
    evaluate_scenario_result-exact success_flow.expected_result observation

success_flow-storable : is_storable success_flow ≡ true
unfolding is_storable
success_flow-storable = refl

observed_state-run_example :
    (run_scenario lab success_flow db).observed.actual_state
    ≡ state_from success_flow success_flow.initial_state
observed_state-run_example = observed_state-run lab success_flow db

abbrev capture_event : SyntheticEvent
capture_event = record { event_type = codes "payment.captured"; override_signature = none }

lab_task-is_claimable_example :
    any
      (λ t. t.intent == 99 && is_claimable max_attempts 60 t)
      (run_scenario lab success_flow db).db.outbox
    ≡ true
lab_task-is_claimable_example =
    lab_task-is_claimable lab success_flow PaymentState.created db capture_event 60 refl
      success_flow-storable refl refl refl refl (omega arith)

-- every scenario with its own intent and its own events
abbrev labs : ℕ → Lab
labs k = record lab { intent_id = 100 + k; event_hex = λ n. k ∷ n ∷ [] }

abbrev never : ℕ → Bool
never n = false

-- the results of the baseline scenarios, the last scenario first
baseline_results :
    (run_all labs never get_baseline_scenarios db new_run).1.results
    ≡ pass ∷ pass ∷ pass ∷ pass ∷ pass ∷ pass ∷ pass ∷ fail ∷ fail ∷ fail ∷ fail ∷ fail ∷ pass
      ∷ pass ∷ pass ∷ pass ∷ pass ∷ pass ∷ pass ∷ pass ∷ []
unfolding run_all run_scenario seed_row is_storable set_state move lab_task enqueue_task react
    log_event inject inject_all lab_intent lab_proposal lab_evidence observe transition is_terminal
    next_state get_edge transitions terminal_states evaluate evaluate_scenario_result diff_matrix
    discrepancies key_eq text_eq get_intent update_intent is_resolvable is_duplicate_suspected
    is_refund is_return allowed_actions_for generate_synthetic_order_id
    generate_synthetic_payment_id generate_synthetic_event_id
baseline_results = refl
