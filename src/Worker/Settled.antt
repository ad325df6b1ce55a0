-- ===== src/Worker/Settled.antt =====
-- What becomes of a task whose work has ended.
use resolver_ai.Prelude.{
  ℕ, ◌+◌, ◌^◌, ◌≤◌, ◌<◌, ◌≡◌, refl, ap, ◌∙◌, At, map, any, Option, none, ◌⊎◌, inl, inr, true, false,
  ◌||◌, not, some, List, [], ◌∷◌, all, ◌==◌, leb, arith, Bool-cases,
}
use resolver_ai.Store.{Task, TaskStatus}
use resolver_ai.Resolver.Setting.{World}
use resolver_ai.Worker.{
  Clock, is_claimable, reclaim_stuck_tasks, lease_timeout, claim, finish_task, fail_task,
  claim_and_process, set_outbox,
}
use resolver_ai.Worker.Rows.{update_task-all}
use resolver_ai.Worker.{resolve_work, process, update_task}
use resolver_ai.Worker.Claims.{
  Claimed, none_before, started, change, update_task-map, claim_takes_oldest,
}
use resolver_ai.Resolver.Outbox.{resolve-outbox}
use resolver_ai.Resolver.Setting.{Env}

all-true : (ts : List Task) → all (λ t. true) ts ≡ true
all-true [] = refl
all-true (t ∷ ts) = all-true ts

-- a row after its claim and the end of its work
abbrev pub processed_since : ℕ → Task → Task
processed_since now t = record t {
  status = TaskStatus.processed;
  attempts = t.attempts + 1;
  processing_started_at = some now;
}

-- a row that was claimed and one that was then finished
change-change :
    (id now : ℕ) (ts : List Task)
    → map
        (change id (λ u. record u { status = TaskStatus.processed }))
        (map (change id (started now)) ts)
      ≡ map (change id (processed_since now)) ts
change-change id now [] = refl
change-change id now (t ∷ ts) = elim (Bool-cases (t.id == id)) [
  | inl e ↦ rw e (rw e (ap (λ us. processed_since now t ∷ us) (change-change id now ts)))
  | inr e ↦ rw e (rw e (ap (λ us. t ∷ us) (change-change id now ts)))
]

-- What a cycle of the worker over the resolver makes of the tasks, after the stuck ones were reclaimed:
-- nothing if none may be claimed, else the oldest of them is processed.
abbrev pub Settles : ℕ → ℕ → List Task → List Task → Type 0
Settles limit now ts ts' =
    ((ts' ≡ ts) × (any (is_claimable limit now) ts ≡ false))
    ⊎ ((t : Task) × At t ts
        × (is_claimable limit now t ≡ true)
        × (none_before (is_claimable limit now) t.created_at ts ≡ true)
        × (ts' ≡ map (change t.id (processed_since now)) ts))

process-Settles :
    (limit : ℕ) (clock : Clock) (env : Env) (w : World) (ts : List Task)
    (x : List Task × Option Task)
    → Claimed limit clock.claim_time ts x
    → Settles limit clock.claim_time ts (process limit clock (resolve_work env) w x).db.outbox
unfolding finish_task
process-Settles limit clock env w ts (ts', none) (same, idle) = inl (same, idle)
process-Settles limit clock env w ts (ts', some c) (t, at, is, rows, p, first) = inr (
  t,
  at,
  p,
  first,
  ap (λ us. update_task c.id (λ u. record u { status = TaskStatus.processed }) us)
        (resolve-outbox env c.intent (set_outbox w ts'))
      ∙ update_task-map c.id (λ u. record u { status = TaskStatus.processed }) ts'
      ∙ ap (λ i. map (change i (λ u. record u { status = TaskStatus.processed })) ts')
          (ap (λ u. u.id) is)
      ∙ ap (map (change t.id (λ u. record u { status = TaskStatus.processed }))) rows
      ∙ change-change t.id clock.claim_time ts,
)

-- One cycle of a worker whose work is the resolver, over the tasks with the stuck ones reclaimed: if
-- none is pending, due and below the limit it leaves them as they are; else an oldest such task is
-- PROCESSED at the end of the cycle, with one attempt more, and the tasks of other ids are as they were.
-- This is so whatever the resolver answers: an error, or a lock held by another run, counts as done.
pub claimed_is_processed :
    (limit : ℕ) (clock : Clock) (env : Env) (w : World)
    → Settles limit clock.claim_time
        (reclaim_stuck_tasks lease_timeout clock.reclaim_time w.db.outbox)
        (claim_and_process limit clock (resolve_work env) w).db.outbox
unfolding claim_and_process
claimed_is_processed limit clock env w =
    let ts = reclaim_stuck_tasks lease_timeout clock.reclaim_time w.db.outbox in
    process-Settles limit clock env w ts (claim limit clock.claim_time ts)
      (claim_takes_oldest limit clock.claim_time ts)

-- A task whose work has raised is not claimable before 2 ^ attempts seconds have passed, and never
-- again where the attempts have reached the limit.
pub failed_task_backs_off :
    (limit now time : ℕ) (c : Task) (ts : List Task)
    → (time < now + 2 ^ c.attempts) ⊎ (limit ≤ c.attempts)
    → all (λ t. not (t.id == c.id) || not (is_claimable limit time t)) (fail_task limit now c ts)
      ≡ true
unfolding fail_task is_claimable
failed_task_backs_off limit now time c ts h = elim (Bool-cases (leb limit c.attempts)) [
  | inl e ↦ rw e (
      update_task-all (λ t. true) (λ t. not (t.id == c.id) || not (is_claimable limit time t)) c.id
        (λ u. record u { status = TaskStatus.dead_letter }) ts (λ t k i. ground arith)
        (λ t k i. ground arith) (all-true ts))
  | inr e ↦ rw e (
      update_task-all (λ t. true) (λ t. not (t.id == c.id) || not (is_claimable limit time t)) c.id
        (λ u. record u { status = TaskStatus.pending; available_at = some (now + 2 ^ c.attempts) })
        ts (λ t k i. ground arith) (λ t k i. ground arith) (all-true ts))
]
