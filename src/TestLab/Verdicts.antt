-- ===== src/TestLab/Verdicts.antt =====
-- What a verdict of the test lab rests on.
use resolver_ai.Prelude.{
  ◌≡◌, refl, ◌∙◌, Bool, true, false, ◌&&◌, not, Option, none, some, List, [], ◌∷◌, any, filter,
  length, ltb, ◌==◌, if◌then◌else◌, Text, arith,
}
use resolver_ai.TestLab.{
  ExpectedResult, Observation, TestStatus, pass, fail, warning, Row, row, row_if, same_name,
  same_text, same_flag, diff_matrix, discrepancies, verdict, evaluate_scenario_result,
}

-- an expectation that may be left open
abbrev pub agrees : Option Text → Option Text → Bool
agrees none actual = true
agrees (some t) actual = same_text (some t) actual

-- the comparisons that decide between PASS or WARNING and FAIL, and all of them
abbrev pub is_sound : ExpectedResult → Observation → Bool
is_sound e a =
    same_name e.expected_state a.actual_state
    && agrees e.expected_policy_decision a.actual_policy_decision
    && same_flag e.expected_idempotent a.actual_idempotent
    && same_flag e.expected_financial_mutation a.actual_financial_mutation

abbrev pub is_exact : ExpectedResult → Observation → Bool
is_exact e a =
    e.expected_http_status == a.actual_http_status
    && agrees e.expected_outbox_event a.actual_outbox_event

abbrev pub verdict_of : Bool → Bool → TestStatus
verdict_of sound exact = if sound then if exact then pass else warning else fail

-- the matrix, by the six comparisons and by which of them are made
abbrev matrix : Bool → Bool → Option Text → Bool → Option Text → Bool → Bool → Bool → List Row
matrix s h p pm o om i m =
    row resolver_ai.TestLab.payment_state s true
    ∷ row resolver_ai.TestLab.http_status h false
    ∷ row_if p (row resolver_ai.TestLab.policy_decision pm true) (
        row_if o (row resolver_ai.TestLab.outbox_task om false) (
          row resolver_ai.TestLab.idempotence i true
          ∷ row resolver_ai.TestLab.financial_mutation m true
          ∷ []))

abbrev made : Option Text → Bool → Bool
made none b = true
made (some t) b = b

judge : List Row → TestStatus
judge rs =
    verdict (any (λ r. not r.matches) (filter (λ r. r.is_critical) rs))
      (ltb 0 (length (discrepancies rs)))

judge-matrix :
    (s h : Bool) (p : Option Text) (pm : Bool) (o : Option Text) (om i m : Bool)
    → judge (matrix s h p pm o om i m) ≡ verdict_of (s && made p pm && i && m) (h && made o om)
unfolding judge discrepancies
judge-matrix s h none pm none om i m = ground arith
judge-matrix s h none pm (some o) om i m = ground arith
judge-matrix s h (some p) pm none om i m = ground arith
judge-matrix s h (some p) pm (some o) om i m = ground arith

made-agrees : (p a : Option Text) → made p (same_text p a) ≡ agrees p a
made-agrees none a = refl
made-agrees (some t) a = refl

-- The oracle answers FAIL if the state, the policy decision, the idempotence or the financial mutation
-- is not the expected one, else WARNING if the HTTP status or the outbox task is not, else PASS; a
-- policy decision or a task of which nothing is expected is not compared.
pub evaluate_scenario_result-exact :
    (e : ExpectedResult) (a : Observation)
    → (evaluate_scenario_result e a).0 ≡ verdict_of (is_sound e a) (is_exact e a)
unfolding evaluate_scenario_result diff_matrix judge
evaluate_scenario_result-exact e a =
    judge-matrix (same_name e.expected_state a.actual_state)
      (e.expected_http_status == a.actual_http_status) e.expected_policy_decision
      (same_text e.expected_policy_decision a.actual_policy_decision) e.expected_outbox_event
      (same_text e.expected_outbox_event a.actual_outbox_event)
      (same_flag e.expected_idempotent a.actual_idempotent)
      (same_flag e.expected_financial_mutation a.actual_financial_mutation)
    ∙ rw
        (
          made-agrees e.expected_policy_decision a.actual_policy_decision,
          made-agrees e.expected_outbox_event a.actual_outbox_event,
        )
        refl
