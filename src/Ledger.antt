-- ===== src/Ledger.antt =====
-- ledger/financial_effects.py: the sums over the evidence rows. Amounts are in hundredths.
pub mod Sums
pub mod Runs
use resolver_ai.Prelude.{ℕ, ◌+◌, ◌-◌, List, [], ◌∷◌, filter, length, leb, ◌==◌, if◌then◌else◌}
use resolver_ai.Domain.{ActionType}
use resolver_ai.Store.{Evidence}

-- the difference of two amounts
pub data ℤ : Type 0 where
  pos : ℕ → ℤ
  negsuc : ℕ → ℤ

unfoldable pub difference : ℕ → ℕ → ℤ
difference a b = if leb b a then pos (a - b) else negsuc (b - a - 1)

pub record Totals : Type 0 where
  pub captured : ℕ
  pub refunded : ℕ
  pub voided : ℕ

abbrev pub no_totals : Totals
no_totals = record { captured = 0; refunded = 0; voided = 0 }

-- one turn of the loop
abbrev pub count : ActionType → ℕ → Totals → Totals
count ActionType.capture amount t = record t { captured = t.captured + amount }
count ActionType.refund amount t = record t { refunded = t.refunded + amount }
count ActionType.void amount t = record t { voided = t.voided + amount }
count _ amount t = t

-- the loop over the rows, the oldest first
unfoldable pub totals : List Evidence → Totals
totals [] = no_totals
totals (e ∷ es) = count e.action e.amount (totals es)

unfoldable pub evidence_of : ℕ → List Evidence → List Evidence
evidence_of id es = filter (λ e. e.intent == id) es

-- `get_financial_summary`: the three sums and the net effect
unfoldable pub get_financial_summary : ℕ → List Evidence → Totals × ℤ
get_financial_summary id es =
    let t = totals (evidence_of id es) in (t, difference t.captured t.refunded)

abbrev pub case_capture : ActionType → ℕ → ℕ
case_capture ActionType.capture amount = amount
case_capture _ amount = 0

abbrev pub case_refund : ActionType → ℕ → ℕ
case_refund ActionType.refund amount = amount
case_refund _ amount = 0

abbrev pub case_void : ActionType → ℕ → ℕ
case_void ActionType.void amount = amount
case_void _ amount = 0

-- `COALESCE(SUM(CASE WHEN action = … THEN amount ELSE 0 END), 0)`
unfoldable pub sum_case : (ActionType → ℕ → ℕ) → List Evidence → ℕ
sum_case f [] = 0
sum_case f (e ∷ es) = f e.action e.amount + sum_case f es

-- `get_system_financial_summary`: the sums, the net effect and the number of rows
unfoldable pub get_system_financial_summary : List Evidence → Totals × ℤ × ℕ
get_system_financial_summary es =
    let t : Totals = record {
      captured = sum_case case_capture es;
      refunded = sum_case case_refund es;
      voided = sum_case case_void es;
    } in
    (t, difference t.captured t.refunded, length es)
