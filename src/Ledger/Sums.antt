-- ===== src/Ledger/Sums.antt =====
-- The sums of ledger/financial_effects.py: those of one intent against those of the whole system.
use resolver_ai.Prelude.{
  ℕ, ◌+◌, ◌≡◌, refl, sym, ◌∙◌, inl, inr, true, false, List, [], ◌∷◌, filter, length, all, ◌==◌,
  if◌then◌else◌, arith, Bool-cases,
}
use resolver_ai.Domain.{ActionType}
use resolver_ai.Store.{Evidence}
use resolver_ai.Ledger.{
  Totals, totals, count, evidence_of, get_financial_summary, case_capture, case_refund, case_void,
  sum_case, get_system_financial_summary,
}

-- the loop in Python adds up what the CASE expressions of the query select
pub record Agree (es : List Evidence) (t : Totals) : Type 0 where
  pub captured : t.captured ≡ sum_case case_capture es
  pub refunded : t.refunded ≡ sum_case case_refund es
  pub voided : t.voided ≡ sum_case case_void es

count-captured :
    (a : ActionType) (n : ℕ) (t : Totals) → (count a n t).captured ≡ case_capture a n + t.captured
count-captured ActionType.capture n t = omega arith
count-captured _ n t = omega arith

count-refunded :
    (a : ActionType) (n : ℕ) (t : Totals) → (count a n t).refunded ≡ case_refund a n + t.refunded
count-refunded ActionType.refund n t = omega arith
count-refunded _ n t = omega arith

count-voided :
    (a : ActionType) (n : ℕ) (t : Totals) → (count a n t).voided ≡ case_void a n + t.voided
count-voided ActionType.void n t = omega arith
count-voided _ n t = omega arith

pub totals-Agree : (es : List Evidence) → Agree es (totals es)
unfolding totals sum_case
totals-Agree [] = record { captured = refl; refunded = refl; voided = refl }
totals-Agree (e ∷ es) =
    let h = totals-Agree es in
    record {
      captured = omega (arith, count-captured e.action e.amount (totals es), h.captured);
      refunded = omega (arith, count-refunded e.action e.amount (totals es), h.refunded);
      voided = omega (arith, count-voided e.action e.amount (totals es), h.voided);
    }

module _ (f : ActionType → ℕ → ℕ) where
  -- the sum over the intents of a list of the sums of each
  sum_over : List ℕ → List Evidence → ℕ
  sum_over [] es = 0
  sum_over (i ∷ ids) es = sum_case f (evidence_of i es) + sum_over ids es

abbrev pub sum_of : (ℕ → ℕ) → List ℕ → ℕ
sum_of g [] = 0
sum_of g (i ∷ ids) = g i + sum_of g ids

-- how often an intent stands in a list
abbrev pub times : ℕ → List ℕ → ℕ
times id ids = length (filter (λ i. id == i) ids)

times_rest :
    (id i : ℕ) (ids : List ℕ) → times id (i ∷ ids) ≡ 1 → (id == i) ≡ true → times id ids ≡ 0
times_rest id i ids h k = ground arith

times_later :
    (id i : ℕ) (ids : List ℕ) → times id (i ∷ ids) ≡ 1 → (id == i) ≡ false → times id ids ≡ 1
times_later id i ids h k = ground arith

module _ (f : ActionType → ℕ → ℕ) where
  gain : Evidence → List ℕ → ℕ
  gain e [] = 0
  gain e (i ∷ ids) = (if e.intent == i then f e.action e.amount else 0) + gain e ids

  sum_case-row :
      (i : ℕ) (e : Evidence) (es : List Evidence)
      → sum_case f (evidence_of i (e ∷ es))
        ≡ (if e.intent == i then f e.action e.amount else 0) + sum_case f (evidence_of i es)
  unfolding sum_case evidence_of
  sum_case-row i e es = elim (Bool-cases (e.intent == i)) [
    | inl h ↦ rw h refl
    | inr h ↦ rw h (omega arith)
  ]

  sum_over-row :
      (ids : List ℕ) (e : Evidence) (es : List Evidence)
      → sum_over f ids (e ∷ es) ≡ gain e ids + sum_over f ids es
  unfolding sum_over gain
  sum_over-row [] e es = refl
  sum_over-row (i ∷ ids) e es = omega (arith, sum_case-row i e es, sum_over-row ids e es)

  gain-absent : (e : Evidence) (ids : List ℕ) → times e.intent ids ≡ 0 → gain e ids ≡ 0
  unfolding gain
  gain-absent e [] h = refl
  gain-absent e (i ∷ ids) h = ground (arith, gain-absent e ids)

  gain-once :
      (e : Evidence) (ids : List ℕ) → times e.intent ids ≡ 1 → gain e ids ≡ f e.action e.amount
  unfolding gain
  gain-once e [] h = omega arith
  gain-once e (i ∷ ids) h = elim (Bool-cases (e.intent == i)) [
    | inl k ↦ rw k (omega (arith, gain-absent e ids (times_rest e.intent i ids h k)))
    | inr k ↦ rw k (omega (arith, gain-once e ids (times_later e.intent i ids h k)))
  ]

  sum_over-none : (ids : List ℕ) → sum_over f ids [] ≡ 0
  unfolding sum_over sum_case evidence_of
  sum_over-none [] = refl
  sum_over-none (i ∷ ids) = omega (arith, sum_over-none ids)

  sum_over-of :
      (g : ℕ → ℕ) (es : List Evidence)
      → ((i : ℕ) → g i ≡ sum_case f (evidence_of i es))
      → (ids : List ℕ) → sum_over f ids es ≡ sum_of g ids
  unfolding sum_over
  sum_over-of g es h [] = refl
  sum_over-of g es h (i ∷ ids) = omega (arith, h i, sum_over-of g es h ids)

  sum_over-all :
      (ids : List ℕ) (es : List Evidence)
      → all (λ e. times e.intent ids == 1) es ≡ true
      → sum_over f ids es ≡ sum_case f es
  unfolding sum_case
  sum_over-all ids [] once = sum_over-none ids
  sum_over-all ids (e ∷ es) once =
      let one : times e.intent ids ≡ 1 = ground arith in
      omega (arith, sum_over-row ids e es, gain-once e ids one, sum_over-all ids es (ground arith))

-- The totals of the whole system are the sums of the totals of the intents, for a list of intents that
-- has the intent of every evidence row exactly once.
pub system_sums_intents :
    (ids : List ℕ) (es : List Evidence)
    → all (λ e. times e.intent ids == 1) es ≡ true
    → ((get_system_financial_summary es).0.captured
        ≡ sum_of (λ i. (get_financial_summary i es).0.captured) ids)
      × ((get_system_financial_summary es).0.refunded
          ≡ sum_of (λ i. (get_financial_summary i es).0.refunded) ids)
      × ((get_system_financial_summary es).0.voided
          ≡ sum_of (λ i. (get_financial_summary i es).0.voided) ids)
unfolding get_system_financial_summary get_financial_summary
system_sums_intents ids es once = (
  sym (sum_over-all case_capture ids es once)
      ∙ sum_over-of case_capture (λ i. (totals (evidence_of i es)).captured) es
          (λ i. (totals-Agree (evidence_of i es)).captured) ids,
  sym (sum_over-all case_refund ids es once)
      ∙ sum_over-of case_refund (λ i. (totals (evidence_of i es)).refunded) es
          (λ i. (totals-Agree (evidence_of i es)).refunded) ids,
  sym (sum_over-all case_void ids es once)
      ∙ sum_over-of case_void (λ i. (totals (evidence_of i es)).voided) es
          (λ i. (totals-Agree (evidence_of i es)).voided) ids,
)
