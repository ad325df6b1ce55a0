-- ===== src/Worker.antt =====
-- worker.py: the outbox worker. Each statement reads its own `NOW()`, so a cycle has three times. The
-- work on a claimed task is `resolve`, or any other function that may raise.
pub mod Claims
pub mod Rows
pub mod Attempts
pub mod Settled
pub mod Drained
use resolver_ai.Prelude.{
  ℕ, ◌+◌, ◌^◌, Bool, true, false, ◌&&◌, Option, none, some, List, [], ◌∷◌, map, ltb, leb, ◌==◌,
  if◌then◌else◌,
}
use resolver_ai.Provider.{Outcome, returned, raised}
use resolver_ai.Store.{Task, TaskStatus}
use resolver_ai.Resolver.{resolve}
use resolver_ai.Resolver.Setting.{Env, World, Response}

-- the defaults of WORKER_MAX_ATTEMPTS and of the lease
abbrev pub max_attempts : ℕ
max_attempts = 5

abbrev pub lease_timeout : ℕ
lease_timeout = 60

abbrev pub is_pending : TaskStatus → Bool
is_pending TaskStatus.pending = true
is_pending _ = false

abbrev pub is_processing : TaskStatus → Bool
is_processing TaskStatus.processing = true
is_processing _ = false

-- `UPDATE outbox_events SET … WHERE outbox_id = $1`
unfoldable pub update_task : ℕ → (Task → Task) → List Task → List Task
update_task id f [] = []
update_task id f (t ∷ ts) =
    let rest = update_task id f ts in if t.id == id then f t ∷ rest else t ∷ rest

abbrev pub since_before : Option ℕ → ℕ → ℕ → Bool
since_before none lease now = false
since_before (some s) lease now = leb (s + lease) now

-- the lease of a task has run out
unfoldable pub is_stuck : ℕ → ℕ → Task → Bool
is_stuck lease now t = is_processing t.status && since_before t.processing_started_at lease now

abbrev pub reclaim : ℕ → ℕ → Task → Task
reclaim lease now t =
    if is_stuck lease now t
    then record t { status = TaskStatus.pending; available_at = some now }
    else t

unfoldable pub reclaim_stuck_tasks : ℕ → ℕ → List Task → List Task
reclaim_stuck_tasks lease now ts = map (reclaim lease now) ts

abbrev pub is_due : Option ℕ → ℕ → Bool
is_due none now = true
is_due (some a) now = leb a now

-- the WHERE clause of the claim
unfoldable pub is_claimable : ℕ → ℕ → Task → Bool
is_claimable limit now t = is_pending t.status && ltb t.attempts limit && is_due t.available_at now

-- `ORDER BY created_at ASC LIMIT 1`
abbrev pub older : Task → Option Task → Option Task
older t none = some t
older t (some u) = if ltb u.created_at t.created_at then some u else some t

unfoldable pub oldest : (Task → Bool) → List Task → Option Task
oldest p [] = none
oldest p (t ∷ ts) = let rest = oldest p ts in if p t then older t rest else rest

abbrev pub start : ℕ → Task → Task
start now t = record t {
  status = TaskStatus.processing;
  attempts = t.attempts + 1;
  processing_started_at = some now;
}

abbrev pub claim_row : ℕ → List Task → Option Task → List Task × Option Task
claim_row now ts none = (ts, none)
claim_row now ts (some t) = (update_task t.id (start now) ts, some (start now t))

-- the claim, with the row that it returns
unfoldable pub claim : ℕ → ℕ → List Task → List Task × Option Task
claim limit now ts = claim_row now ts (oldest (is_claimable limit now) ts)

unfoldable pub finish_task : ℕ → List Task → List Task
finish_task id ts = update_task id (λ u. record u { status = TaskStatus.processed }) ts

-- the handler of an exception, for a claimed task
unfoldable pub fail_task : ℕ → ℕ → Task → List Task → List Task
fail_task limit now t ts =
    if leb limit t.attempts
    then update_task t.id (λ u. record u { status = TaskStatus.dead_letter }) ts
    else update_task t.id
        (λ u. record u { status = TaskStatus.pending; available_at = some (now + 2 ^ t.attempts) })
        ts

pub record Clock : Type 0 where
  pub reclaim_time : ℕ
  pub claim_time : ℕ
  pub settle_time : ℕ

abbrev pub Work : Type 0
Work = ℕ → World → World × Outcome Response

-- the resolver as the worker's work
abbrev pub resolve_work : Env → Work
resolve_work env id w = let (w', r) = resolve env id w in (w', returned r)

abbrev pub set_outbox : World → List Task → World
set_outbox w ts = record w { db = record w.db { outbox = ts } }

abbrev pub settle_task : ℕ → Clock → Task → World × Outcome Response → World
settle_task limit clock t (w, returned r) = set_outbox w (finish_task t.id w.db.outbox)
settle_task limit clock t (w, raised) =
    set_outbox w (fail_task limit clock.settle_time t w.db.outbox)

abbrev pub process : ℕ → Clock → Work → World → List Task × Option Task → World
process limit clock work w (ts, none) = set_outbox w ts
process limit clock work w (ts, some t) =
    settle_task limit clock t (work t.intent (set_outbox w ts))

-- `claim_and_process`
unfoldable pub claim_and_process : ℕ → Clock → Work → World → World
claim_and_process limit clock work w = process limit clock work w (
    claim limit clock.claim_time (reclaim_stuck_tasks lease_timeout clock.reclaim_time w.db.outbox))

-- a worker that stops between its claim and the end of its work
unfoldable pub crash : ℕ → Clock → World → World
crash limit clock w =
    set_outbox w
      (claim limit clock.claim_time
        (reclaim_stuck_tasks lease_timeout clock.reclaim_time w.db.outbox)).0
