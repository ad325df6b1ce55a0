-- ===== src/Reconciliation/Small.antt =====
-- Small amounts, which the reconciliation engine reads in whole units.
use resolver_ai.Prelude.{
  ℕ, ◌*◌, ◌≤◌, ◌<◌, ◌≡◌, ap, sym, ◌∙◌, inl, inr, false, List, arith, Bool-cases, Text,
}
use resolver_ai.Schemas.{IntentData}
use resolver_ai.Store.{Execution}
use resolver_ai.Money.{
  ok, Decimal, finite, nan, infinite, number, to_decimal_amount, currency_code, quantize,
  round_half_up,
}
use resolver_ai.Reconciliation.{int, ApiEvidence, ReconciliationResult, read_amount, reconcile}
use resolver_ai.Reconciliation.Agreement.{SameNumber, reconciled_needs_agreement}

small_int :
    (currency : Text) (n : ℕ) (mine : Decimal)
    → n ≤ 100
    → read_amount currency mine (int n) ≡ ok (finite false (n * 100) 2)
unfolding read_amount to_decimal_amount quantize round_half_up
small_int currency n mine h = ground arith

small_local :
    (n : ℕ) → n ≤ 100 → to_decimal_amount (number (finite false n 2)) ≡ ok (finite false n 2)
unfolding to_decimal_amount quantize round_half_up
small_local n h = ground arith

scaled_differs :
    (n : ℕ) (mine theirs : Decimal)
    → 0 < n
    → ok mine ≡ ok (finite false n 2)
    → ok theirs ≡ ok (finite false (n * 100) 2)
    → SameNumber theirs mine
    → ⊥
scaled_differs n (finite m a s) (finite m' b t) pos e e' (same, sign) = ground arith
scaled_differs n nan theirs pos e e' same = ground arith
scaled_differs n (infinite m) theirs pos e e' same = ground arith
scaled_differs n (finite m a s) nan pos e e' same = ground arith
scaled_differs n (finite m a s) (infinite m') pos e e' same = ground arith

-- A payment of at most 100 minor units is never reconciled, although the provider reports exactly
-- the recorded number of minor units: an int of at most 100 is read as whole units.
pub small_amount_misread :
    (intent : IntentData) (events : List Text) (api : ApiEvidence) (es : List Execution)
    (r : ReconciliationResult)
    → 0 < intent.amount
    → intent.amount ≤ 100
    → api.amount ≡ int intent.amount
    → reconcile intent events api es ≡ ok r
    → r.is_reconciled ≡ false
small_amount_misread intent events api es r pos small same h = elim (Bool-cases r.is_reconciled) [
  | inr q ↦ q
  | inl q ↦
      let a = reconciled_needs_agreement intent events api es r h q in
      let n = intent.amount in
      absurd (
        scaled_differs n a.mine a.theirs pos (sym a.local_amount ∙ small_local n small)
          (sym a.read
            ∙ ap (read_amount (currency_code a.currency) a.mine) same
            ∙ small_int (currency_code a.currency) n a.mine small)
          a.same_number)
]
