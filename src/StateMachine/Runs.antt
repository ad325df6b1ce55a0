-- ===== src/StateMachine/Runs.antt =====
-- Sequences of events over core/state_machine.py: what a whole history needs to end in a state.
use resolver_ai.Prelude.{
  ◌≡◌, refl, ◌≢◌, ◌⊎◌, inl, inr, Bool, true, false, List, [], ◌∷◌, arith, any, Bool-cases,
}
use resolver_ai.Domain.{PaymentState}
use resolver_ai.StateMachine.{Event, transition}
use resolver_ai.StateMachine.Graph.{
  is_failure_report, is_capture_report, is_operator, failed_needs_report, captured_needs_report,
  failed_absorbs, reconciled_absorbs, manual_review_needs_operator,
}

-- the state after a sequence of events
unfoldable pub run : PaymentState → List Event → PaymentState
run s [] = s
run s (e ∷ es) = run (transition s e) es

-- A state that is entered only on reports of one kind is reached only by a history with a report.
module _ (goal : PaymentState) (report : Event → Bool)
    (entered : (s : PaymentState) (e : Event)
      → transition s e ≡ goal
      → (s ≡ goal) ⊎ (report e ≡ true)) where
  run_needs_report :
      (s : PaymentState) (es : List Event) → run s es ≡ goal → (s ≡ goal) ⊎ (any report es ≡ true)
  unfolding run
  run_needs_report s [] h = inl h
  run_needs_report s (e ∷ es) h = elim (run_needs_report (transition s e) es h) [
    | inr later ↦ inr (ground arith)
    | inl now ↦ elim (entered s e now) [ inl old ↦ inl old | inr r ↦ inr (rw r) ]
  ]

-- A history that takes a payment that is not CAPTURED to CAPTURED holds an event that reports the
-- capture: a provider's report, a verification, a reconciliation or an operator's decision.
pub capture_needs_report :
    (s : PaymentState) (es : List Event)
    → s ≢ PaymentState.captured
    → run s es ≡ PaymentState.captured
    → any is_capture_report es ≡ true
capture_needs_report s es ne h =
    elim (run_needs_report PaymentState.captured is_capture_report captured_needs_report s es h) [
      | inl e ↦ absurd (ne e)
      | inr r ↦ r
    ]

-- However many timeouts and other events pass, a payment that has not failed fails only in a
-- history with a report of failure.
pub failure_needs_report :
    (s : PaymentState) (es : List Event)
    → s ≢ PaymentState.failed
    → run s es ≡ PaymentState.failed
    → any is_failure_report es ≡ true
failure_needs_report s es ne h =
    elim (run_needs_report PaymentState.failed is_failure_report failed_needs_report s es h) [
      | inl e ↦ absurd (ne e)
      | inr r ↦ r
    ]

-- No sequence of events leads out of FAILED or out of RECONCILED.
pub run_absorbs :
    (es : List Event)
    → (run PaymentState.failed es ≡ PaymentState.failed)
      × (run PaymentState.reconciled es ≡ PaymentState.reconciled)
unfolding run
run_absorbs [] = (refl, refl)
run_absorbs (e ∷ es) = rw (failed_absorbs e, reconciled_absorbs e) (run_absorbs es)

-- A payment in MANUAL_REVIEW stays there through every history without an operator's decision.
pub review_holds :
    (es : List Event)
    → any is_operator es ≡ false
    → run PaymentState.manual_review es ≡ PaymentState.manual_review
unfolding run
review_holds [] h = refl
review_holds (e ∷ es) h = elim (Bool-cases (is_operator e)) [
  | inl y ↦ ground arith
  | inr n ↦ rw (manual_review_needs_operator e n) (review_holds es (ground arith))
]
