-- ===== src/Ledger/Runs.antt =====
-- What the runs of core/resolver.py add to the sums of ledger/financial_effects.py.
use resolver_ai.Prelude.{ℕ, ◌+◌, ◌≡◌, refl, ap, ◌∙◌, true, false, some, List, ◌∷◌, ◌==◌, ==_refl}
use resolver_ai.Domain.{PaymentState, ActionType, DecisionType}
use resolver_ai.Schemas.{IntentData, PolicyDecision, AuthorizedAction, FinOpsResult}
use resolver_ai.Reconciliation.{ReconciliationResult, Status}
use resolver_ai.Store.{Intent, Evidence, get_intent}
use resolver_ai.Resolver.{resolve}
use resolver_ai.Resolver.Setting.{Env, World, Response}
use resolver_ai.Resolver.Stages.{finish, after_execution, is_executed}
use resolver_ai.Resolver.Progress.{Ended, resolve_records}
use resolver_ai.Ledger.{totals, evidence_of, get_financial_summary}

abbrev captured : ℕ → World → ℕ
captured id w = (get_financial_summary id w.db.evidence).0.captured

summary-capture :
    (id : ℕ) (e : Evidence) (es : List Evidence)
    → e.intent ≡ id
    → e.action ≡ ActionType.capture
    → (get_financial_summary id (e ∷ es)).0.captured
      ≡ (get_financial_summary id es).0.captured + e.amount
unfolding get_financial_summary evidence_of totals
summary-capture id e es mine is =
    let here : (e.intent == id) ≡ true = rw mine (==_refl id) in rw (here, is) refl

done-action :
    (s t : PaymentState) (d c : DecisionType) (a b : ActionType) (u v : Status)
    → Response.done s d a u ≡ Response.done t c b v
    → a ≡ b
done-action s t d c a b u v h = (cc)

Ended-captured :
    (id : ℕ) (row : Intent) (w : World) (r : World × Response) (s : PaymentState) (d : DecisionType)
    (st : Status)
    → Ended id row w r
    → r.1 ≡ Response.done s d ActionType.capture st
    → captured id r.0 ≡ captured id w + row.amount
Ended-captured id row w (w', Response.done s' d' a st') s d st
      (kept, (e, added, mine, amount, dec, act)) h =
    let is : e.action ≡ ActionType.capture =
      act ∙ done-action s' s d' d a ActionType.capture st' st h in
    rw added (summary-capture id e w.db.evidence mine is ∙ ap (λ n. captured id w + n) amount)
Ended-captured id row w (w', Response.skipped_locked) s d st k h = cc
Ended-captured id row w (w', Response.not_found) s d st k h = cc
Ended-captured id row w (w', Response.error) s d st k h = cc
Ended-captured id row w (w', Response.skipped_terminal t) s d st k h = cc

-- A run of the resolver that reports a capture raises the captured amount of its intent by the amount
-- of the row.
pub reported_capture_counts :
    (env : Env) (row : Intent) (w : World) (s : PaymentState) (d : DecisionType) (st : Status)
    → get_intent row.id w.db.intents ≡ some row
    → (resolve env row.id w).1 ≡ Response.done s d ActionType.capture st
    → (get_financial_summary row.id (resolve env row.id w).0.db.evidence).0.captured
      ≡ (get_financial_summary row.id w.db.evidence).0.captured + row.amount
reported_capture_counts env row w s d st found h =
    Ended-captured row.id row w (resolve env row.id w) s d st (resolve_records env row w found) h

-- A capture that the executor reports as not executed is counted as captured money all the same: the
-- stages after the execution log no execution, but add an evidence row that raises the captured amount
-- of the intent by its amount.
pub failed_capture_counts :
    (env : Env) (intent : IntentData) (d : PolicyDecision) (recon : ReconciliationResult)
    (c : AuthorizedAction) (f : FinOpsResult) (w : World)
    → f.action_taken ≡ ActionType.capture
    → is_executed f.execution_status ≡ false
    → let (w1, a) = after_execution intent c f w in
      let w2 = (finish env intent d recon a w1).0 in
      ((get_financial_summary intent.payment_intent_id w2.db.evidence).0.captured
        ≡ (get_financial_summary intent.payment_intent_id w.db.evidence).0.captured + intent.amount)
      × (w2.db.executions ≡ w.db.executions)
unfolding after_execution finish
failed_capture_counts env intent d recon c f w is failed = rw failed (
  summary-capture intent.payment_intent_id
      (record {
        intent = intent.payment_intent_id;
        action = f.action_taken;
        amount = intent.amount;
        decision = d.decision;
      })
      w.db.evidence refl is,
  refl,
)
