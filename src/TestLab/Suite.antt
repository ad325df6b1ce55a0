-- ===== src/TestLab/Suite.antt =====
-- core/ai_test_lab/runner.py, `_execute_test_suite_internal` and `run_test_suite`: a run of scenarios.
-- The request to stop is asked before each scenario; the time limit is not modelled.
use resolver_ai.Prelude.{
  ℕ, ◌+◌, ◌≤◌, ◌≡◌, inl, inr, Bool, true, false, Option, none, some, List, [], ◌∷◌, length,
  if◌then◌else◌, Text, arith, Bool-cases,
}
use resolver_ai.Store.{Db}
use resolver_ai.TestLab.{
  RiskLevel, low, high, critical, TestStatus, pass, fail, warning, RunStatus, completed, stopped,
  Scenario, check_test_environment_safety,
}
use resolver_ai.TestLab.Runner.{Lab}
use resolver_ai.TestLab.Runner.Judged.{run_scenario}

-- the counters of a run, and the statuses of its results with the latest first
pub record TestRun : Type 0 where
  pub status : RunStatus
  pub scenarios_passed : ℕ
  pub scenarios_failed : ℕ
  pub scenarios_warning : ℕ
  pub risk_level : RiskLevel
  pub results : List TestStatus

abbrev pub is_severe : RiskLevel → Bool
is_severe high = true
is_severe critical = true
is_severe _ = false

-- one result in the counters
abbrev pub add_result : RiskLevel → TestStatus → TestRun → TestRun
add_result risk pass r = record r {
  scenarios_passed = r.scenarios_passed + 1;
  results = pass ∷ r.results;
}
add_result risk fail r = record r {
  scenarios_failed = r.scenarios_failed + 1;
  risk_level = if is_severe risk then risk else r.risk_level;
  results = fail ∷ r.results;
}
add_result risk warning r = record r {
  scenarios_warning = r.scenarios_warning + 1;
  results = warning ∷ r.results;
}

-- the loop; labs and stop requests are given by the number of scenarios that follow
unfoldable pub run_all : (ℕ → Lab) → (ℕ → Bool) → List Scenario → Db → TestRun → Db × TestRun
run_all labs stops [] db r = (db, r)
run_all labs stops (s ∷ ss) db r =
    let t = run_scenario (labs (length ss)) s db in
    let rest = run_all labs stops ss t.db (add_result s.risk_level t.status r) in
    if stops (length ss) then (db, record r { status = stopped }) else rest

abbrev pub new_run : TestRun
new_run = record {
  status = completed;
  scenarios_passed = 0;
  scenarios_failed = 0;
  scenarios_warning = 0;
  risk_level = low;
  results = [];
}

-- `run_test_suite`: `none` is the exception of a run that is active or of a production environment
unfoldable pub run_test_suite :
    Text → Bool → (ℕ → Lab) → (ℕ → Bool) → List Scenario → Db → Option (Db × TestRun)
run_test_suite environment active labs stops ss db =
    if active
    then none
    else if check_test_environment_safety environment
    then some (run_all labs stops ss db new_run)
    else none

-- every result is counted once
abbrev Counted : TestRun → Type 0
Counted r = r.scenarios_passed + r.scenarios_failed + r.scenarios_warning ≡ length r.results

add_result-Counted :
    (risk : RiskLevel) (s : TestStatus) (r : TestRun)
    → Counted r
    → Counted (add_result risk s r) × (length (add_result risk s r).results ≡ length r.results + 1)
add_result-Counted risk pass r h = (omega arith, omega arith)
add_result-Counted risk fail r h = (omega arith, omega arith)
add_result-Counted risk warning r h = (omega arith, omega arith)

-- A run counts each of its results exactly once, as passed, failed or warning, and has at most one
-- result for each scenario on top of those it started with.
pub run_all-Counted :
    (labs : ℕ → Lab) (stops : ℕ → Bool) (ss : List Scenario) (db : Db) (r : TestRun)
    → r.scenarios_passed + r.scenarios_failed + r.scenarios_warning ≡ length r.results
    → let r' = (run_all labs stops ss db r).1 in
      (r'.scenarios_passed + r'.scenarios_failed + r'.scenarios_warning ≡ length r'.results)
      × (length r'.results ≤ length r.results + length ss)
unfolding run_all
run_all-Counted labs stops [] db r h = (h, omega arith)
run_all-Counted labs stops (s ∷ ss) db r h =
    let t = run_scenario (labs (length ss)) s db in
    let (counted, one_more) = add_result-Counted s.risk_level t.status r h in
    let (all_counted, few) =
      run_all-Counted labs stops ss t.db (add_result s.risk_level t.status r) counted in
    elim (Bool-cases (stops (length ss))) [
      | inl stop ↦ rw stop (h, omega arith)
      | inr go ↦ rw go (all_counted, omega (arith, few, one_more))
    ]
