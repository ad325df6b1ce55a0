-- ===== src/Tests/Outbox.antt =====
-- Cycles of the outbox worker over two tasks.
use resolver_ai.Prelude.{
  ℕ, ◌+◌, ◌≤◌, ◌≡◌, refl, true, false, none, some, List, [], ◌∷◌, all, arith, codes,
}
use resolver_ai.Domain.{PaymentState}
use resolver_ai.Schemas.{Key}
use resolver_ai.Store.{Task, TaskStatus}
use resolver_ai.Resolver.Setting.{Env, World}
use resolver_ai.Resolver.{resolve}
use resolver_ai.Idempotency.{acquire_intent_lock}
use resolver_ai.Worker.{
  Clock, max_attempts, lease_timeout, is_claimable, is_stuck, reclaim_stuck_tasks, claim, oldest,
  update_task, resolve_work, claim_and_process, set_outbox, finish_task,
}
use resolver_ai.Worker.Claims.{Claimed, claim_takes_oldest}
use resolver_ai.Worker.Attempts
use resolver_ai.Worker.Attempts.{Step, cycle, crashed, starts, tried, attempts_bounded}
use resolver_ai.Worker.Settled.{Settles, claimed_is_processed}
use resolver_ai.Tests.Data.{world_in, env_with}

abbrev task : ℕ → TaskStatus → ℕ → ℕ → Task
task id s n created = record {
  id = id;
  intent = 7;
  key = Key.exec id;
  status = s;
  attempts = n;
  created_at = created;
  available_at = none;
  processing_started_at = none;
}

abbrev two_tasks : List Task
two_tasks = task 1 TaskStatus.pending 0 20 ∷ task 2 TaskStatus.pending 4 10 ∷ []

abbrev world : World
world = set_outbox (world_in PaymentState.uncertain) two_tasks

abbrev clock : Clock
clock = record { reclaim_time = 100; claim_time = 101; settle_time = 102 }

abbrev later : Clock
later = record { reclaim_time = 200; claim_time = 201; settle_time = 202 }

abbrev steps : List Step
steps = crashed clock ∷ cycle later (env_with (codes "authorized")) ∷ []

claim_takes_oldest_example : Claimed max_attempts 101 two_tasks (claim max_attempts 101 two_tasks)
claim_takes_oldest_example = claim_takes_oldest max_attempts 101 two_tasks

attempts_bounded_example :
    (4 + starts max_attempts 2 steps world ≤ max_attempts)
    × (all
          (tried 2 (4 + starts max_attempts 2 steps world))
          (Attempts.run max_attempts steps world).db.outbox
        ≡ true)
attempts_bounded_example = attempts_bounded max_attempts 2 steps 4 world (omega arith) refl

-- a lock that another run holds: the resolver answers SKIPPED
abbrev locked : Env
locked = record (env_with (codes "authorized")) { redis_lock = some false }

claimed_is_processed_example :
    Settles max_attempts 101
      (reclaim_stuck_tasks lease_timeout 100 two_tasks)
      (claim_and_process max_attempts clock (resolve_work locked) world).db.outbox
claimed_is_processed_example = claimed_is_processed max_attempts clock locked world

-- the second task, which is older, is processed
locked_outbox :
    (claim_and_process max_attempts clock (resolve_work locked) world).db.outbox
    ≡ task 1 TaskStatus.pending 0 20
      ∷ record (task 2 TaskStatus.processed 5 10) { processing_started_at = some 101 }
      ∷ []
unfolding claim_and_process reclaim_stuck_tasks is_stuck claim oldest is_claimable update_task
    finish_task resolve acquire_intent_lock
locked_outbox = refl
