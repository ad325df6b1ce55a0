-- ===== src/Tests/Books.antt =====
-- Evidence rows, rate limits, poller and worker cycles, reads and replays on concrete data.
use resolver_ai.Prelude.{
  Option, Text, starts_with, ℕ, ◌+◌, ◌≡◌, refl, Bool, true, false, none, some, List, [], ◌∷◌, codes,
  text_eq, arith,
}
use resolver_ai.Domain.{PaymentState, ActionType, DecisionType, ExternalStatus}
use resolver_ai.Schemas.{Key, FinOpsResult, PolicyDecision, Rule}
use resolver_ai.Reconciliation.{ReconciliationResult}
use resolver_ai.Rail.{is_processed}
use resolver_ai.Store.{Audit, Evidence, Task, TaskStatus, get_intent}
use resolver_ai.Access.{
  Claims, Codec, allowed, require_permission, get_current_user, decode_access_token, split,
  base64url_decode, has_permission, verify_merchant_access,
}
use resolver_ai.Resolver.Setting.{Env, World}
use resolver_ai.Resolver.Stages.{after_execution, finish, is_executed}
use resolver_ai.Ledger.{get_financial_summary, get_system_financial_summary}
use resolver_ai.Ledger.Sums.{sum_of, system_sums_intents}
use resolver_ai.Ledger.Runs.{failed_capture_counts}
use resolver_ai.RateLimiter.{Limit, Buckets}
use resolver_ai.RateLimiter.Window.{
  Request, serve, serve_forgetting_nothing, Ascending, Agrees, Tracks, serve_refines,
}
use resolver_ai.Poller.{
  poll_once, find_stale_intents, poll_batch, is_stale, by_age, insert_by_age, take,
}
use resolver_ai.Poller.Cycle.{failed_batch_repeats}
use resolver_ai.Worker.{max_attempts, set_outbox}
use resolver_ai.Worker.Drained.{Cycle, goes_idle, worker_goes_idle}
use resolver_ai.Payments.{verify_payment_with_razorpay, get_payment_intent, forbidden, Verified}
use resolver_ai.Payments.Tenants.{verify_crosses_merchants}
use resolver_ai.Replay.{replay_intent}
use resolver_ai.Replay.Outcomes.{replay_marks_rail}
use resolver_ai.Tests.Data.{
  world_in, row_in, intent_in, env_with, command_to, outside, payment_in, provider_with, stranger,
}

abbrev effect : ℕ → ActionType → ℕ → Evidence
effect id a n = record { intent = id; action = a; amount = n; decision = DecisionType.approve }

abbrev books : List Evidence
books =
    effect 7 ActionType.refund 300
    ∷ effect 8 ActionType.capture 700
    ∷ effect 7 ActionType.capture 500
    ∷ []

system_sums_intents_example :
    ((get_system_financial_summary books).0.captured
      ≡ sum_of (λ i. (get_financial_summary i books).0.captured) (7 ∷ 8 ∷ []))
    × ((get_system_financial_summary books).0.refunded
        ≡ sum_of (λ i. (get_financial_summary i books).0.refunded) (7 ∷ 8 ∷ []))
    × ((get_system_financial_summary books).0.voided
        ≡ sum_of (λ i. (get_financial_summary i books).0.voided) (7 ∷ 8 ∷ []))
system_sums_intents_example = system_sums_intents (7 ∷ 8 ∷ []) books refl

abbrev failed_capture : FinOpsResult
failed_capture = record {
  action_taken = ActionType.capture;
  execution_status = ExternalStatus.failed;
  external_transaction_id = none;
  amount = 50000;
  error = true;
}

abbrev approval : PolicyDecision
approval = record {
  decision = DecisionType.approve;
  rule = Rule.all_passed;
  policy_decision_id = 11;
}

not_executed : is_executed ExternalStatus.failed ≡ false
unfolding is_executed
not_executed = refl

abbrev verdict : ReconciliationResult
verdict = record {
  status = resolver_ai.Reconciliation.ambiguous;
  divergence_type = resolver_ai.Domain.DivergenceType.none_found;
  is_reconciled = false;
  anomalies = [];
}

abbrev world : World
world = world_in PaymentState.uncertain

failed_capture_counts_example :
    let (w1, a) =
      after_execution
        (intent_in PaymentState.uncertain)
        (command_to ActionType.capture)
        failed_capture
        world in
    let w2 =
      (finish
        (env_with (codes "authorized"))
        (intent_in PaymentState.uncertain)
        approval
        verdict
        a
        w1).0 in
    ((get_financial_summary 7 w2.db.evidence).0.captured
      ≡ (get_financial_summary 7 world.db.evidence).0.captured + 50000)
    × (w2.db.executions ≡ world.db.executions)
unfolding resolver_ai.Resolver.Stages.load_intent
failed_capture_counts_example =
    failed_capture_counts (env_with (codes "authorized")) (intent_in PaymentState.uncertain)
      approval verdict (command_to ActionType.capture) failed_capture world refl not_executed

abbrev limit : Limit
limit = record { enabled = true; max_requests = 1; window = 10 }

abbrev request : Bool → ℕ → Request
request in_redis now = record { in_redis = in_redis; now = now }

abbrev requests : List Request
requests = request true 5 ∷ request true 9 ∷ request false 12 ∷ request true 30 ∷ []

abbrev empty : Buckets
empty = record { memory = []; redis = [] }

requests-Ascending : Ascending 0 requests
unfolding Ascending
requests-Ascending = (omega arith, (omega arith, (omega arith, (omega arith, tt))))

empty-Tracks : Tracks 10 0 empty empty
unfolding Agrees
empty-Tracks = record { memory = λ n h. refl; redis = λ n h. refl }

serve_refines_example : serve limit requests empty ≡ serve_forgetting_nothing limit requests empty
serve_refines_example = serve_refines limit 0 requests empty empty requests-Ascending empty-Tracks

-- a poll while another process holds the lock
abbrev locked_env : ℕ → Env
locked_env n = record (env_with (codes "authorized")) { redis_lock = some false }

none_resolved : (poll_once locked_env 1000 world).1.resolved ≡ 0
unfolding poll_once find_stale_intents poll_batch is_stale by_age insert_by_age take
    resolver_ai.Resolver.resolve resolver_ai.StateMachine.is_terminal
    resolver_ai.Idempotency.acquire_intent_lock
none_resolved = refl

failed_batch_repeats_example :
    find_stale_intents 2000 (poll_once locked_env 1000 world).0.db.intents
    ≡ find_stale_intents 2000 world.db.intents
failed_batch_repeats_example = failed_batch_repeats locked_env 1000 2000 world none_resolved

abbrev task : Task
task = record {
  id = 1;
  intent = 7;
  key = Key.exec 1;
  status = TaskStatus.pending;
  attempts = 0;
  created_at = 20;
  available_at = none;
  processing_started_at = none;
}

abbrev cycle_at : ℕ → Cycle
cycle_at t = record {
  clock = record { reclaim_time = t; claim_time = t; settle_time = t };
  env = env_with (codes "authorized");
}

worker_goes_idle_example :
    goes_idle max_attempts (cycle_at 100 ∷ cycle_at 110 ∷ []) (set_outbox world (task ∷ [])) ≡ true
worker_goes_idle_example =
    worker_goes_idle max_attempts (cycle_at 100 ∷ cycle_at 110 ∷ []) (set_outbox world (task ∷ []))
      (omega arith)

row_found : get_intent 7 world.db.intents ≡ some (row_in PaymentState.uncertain)
unfolding get_intent
row_found = refl

-- a token service that takes every token for one of this operator of another merchant
abbrev verifier : Claims
verifier = record stranger { permissions = codes "write:verify_razorpay" ∷ [] }

abbrev codec : Codec
codec = record {
  b64_encode = λ bytes. bytes;
  b64_decode = λ text. some (codes "D");
  dumps = λ c. [];
  loads = λ text. some verifier;
  header = codes "h";
  digest = λ key input. codes "D";
  secret = codes "s";
  lifetime = 3600;
}

abbrev authorization : Option Text
authorization = some (codes "Bearer h.p.D")

permitted :
    require_permission codec 6000000 (codes "write:verify_razorpay") authorization
    ≡ allowed verifier
unfolding require_permission get_current_user decode_access_token split base64url_decode
    has_permission text_eq starts_with
permitted = refl

refused : verify_merchant_access verifier (codes "m_1") ≡ false
unfolding verify_merchant_access text_eq
refused = refl

verify_crosses_merchants_example :
    (get_payment_intent verifier (some 7) world.db ≡ forbidden)
    × (verify_payment_with_razorpay codec 6000000 authorization true world
          (provider_with (codes "captured"))
          (some 7)
        ≡ (
          record world.db { audits = Audit.provider_verified 7 ∷ [] },
          Verified.payment_snapshot
              (row_in PaymentState.uncertain)
              (some (payment_in (codes "captured"))),
        ))
verify_crosses_merchants_example =
    verify_crosses_merchants codec 6000000 authorization world (provider_with (codes "captured"))
      verifier 7 (row_in PaymentState.uncertain) b'p' (codes "ay_1")
      (some (payment_in (codes "captured"))) permitted refused row_found refl refl

replay_marks_rail_example :
    let o1 = (replay_intent (env_with (codes "authorized")) 7 none outside).0 in
    (o1.sent ≡ outside.sent)
    × (is_processed (Key.idem_replay 7) o1.rail ≡ true)
    × ((replay_intent (env_with (codes "captured")) 7 none o1).0 ≡ o1)
replay_marks_rail_example =
    replay_marks_rail (env_with (codes "authorized")) (env_with (codes "captured")) 7 outside
