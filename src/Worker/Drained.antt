-- ===== src/Worker/Drained.antt =====
-- How long a worker stays busy.
use resolver_ai.Prelude.{
  ℕ, ◌≤◌, ◌<◌, ◌≡◌, refl, inl, inr, Bool, true, false, ◌&&◌, ◌||◌, not, Option, none, some, List,
  [], ◌∷◌, any, filter, length, ◌==◌, ltb, arith, Bool-cases,
}
use resolver_ai.Store.{Task, TaskStatus}
use resolver_ai.Resolver.Outbox.{resolve-outbox}
use resolver_ai.Resolver.Setting.{Env, World}
use resolver_ai.Worker.{
  Clock, is_stuck, reclaim, reclaim_stuck_tasks, lease_timeout, is_claimable, older, oldest,
  update_task, start, claim, claim_row, finish_task, resolve_work, claim_and_process, set_outbox,
  process,
}

-- a task on which work is still to be done
abbrev pub is_open : TaskStatus → Bool
is_open TaskStatus.pending = true
is_open TaskStatus.processing = true
is_open _ = false

abbrev pub open_tasks : List Task → ℕ
open_tasks ts = length (filter (λ t. is_open t.status) ts)

-- one cycle: its times and the services of its run of the resolver
pub record Cycle : Type 0 where
  pub clock : Clock
  pub env : Env

abbrev pub reclaimed : Cycle → World → List Task
reclaimed c w = reclaim_stuck_tasks lease_timeout c.clock.reclaim_time w.db.outbox

abbrev pub is_idle : ℕ → Cycle → World → Bool
is_idle limit c w = not (any (is_claimable limit c.clock.claim_time) (reclaimed c w))

abbrev pub one_cycle : ℕ → Cycle → World → World
one_cycle limit c w = claim_and_process limit c.clock (resolve_work c.env) w

pub goes_idle : ℕ → List Cycle → World → Bool
goes_idle limit [] w = false
goes_idle limit (c ∷ cs) w = is_idle limit c w || goes_idle limit cs (one_cycle limit c w)

reclaim-open :
    (now : ℕ) (t : Task) → is_open (reclaim lease_timeout now t).status ≡ is_open t.status
unfolding is_stuck
reclaim-open now t = ground arith

reclaimed-open :
    (now : ℕ) (ts : List Task)
    → open_tasks (reclaim_stuck_tasks lease_timeout now ts) ≡ open_tasks ts
unfolding reclaim_stuck_tasks
reclaimed-open now [] = refl
reclaimed-open now (t ∷ ts) = ground (arith, reclaim-open now t, reclaimed-open now ts)

-- a chosen task stands in the table, by its id, and only an unsuited table gives none
abbrev Within : (Task → Bool) → List Task → Option Task → Type 0
Within p ts none = any p ts ≡ false
Within p ts (some t) = any (λ u. u.id == t.id && p u) ts ≡ true

older-Within :
    (p : Task → Bool) (t : Task) (ts : List Task) (o : Option Task)
    → p t ≡ true
    → Within p ts o
    → Within p (t ∷ ts) (older t o)
older-Within p t ts none h k = ground arith
older-Within p t ts (some u) h k = elim (Bool-cases (ltb u.created_at t.created_at)) [
  | inl e ↦ rw e (ground arith)
  | inr e ↦ rw e (ground arith)
]

passed-Within :
    (p : Task → Bool) (t : Task) (ts : List Task) (o : Option Task)
    → p t ≡ false
    → Within p ts o
    → Within p (t ∷ ts) o
passed-Within p t ts none h k = ground arith
passed-Within p t ts (some u) h k = ground arith

oldest-Within : (p : Task → Bool) (ts : List Task) → Within p ts (oldest p ts)
unfolding oldest
oldest-Within p [] = refl
oldest-Within p (t ∷ ts) = elim (Bool-cases (p t)) [
  | inl e ↦ rw e (older-Within p t ts (oldest p ts) e (oldest-Within p ts))
  | inr e ↦ rw e (passed-Within p t ts (oldest p ts) e (oldest-Within p ts))
]

-- A task that is started and finished is not open any more, under any row with its id.
finished-open :
    (id now : ℕ) (ts : List Task)
    → open_tasks (finish_task id (update_task id (start now) ts))
      ≤ length (filter (λ t. is_open t.status && not (t.id == id)) ts)
unfolding finish_task update_task
finished-open id now [] = omega arith
finished-open id now (t ∷ ts) = ground (arith, finished-open id now ts)

others-at_most :
    (id : ℕ) (ts : List Task)
    → length (filter (λ t. is_open t.status && not (t.id == id)) ts) ≤ open_tasks ts
others-at_most id [] = omega arith
others-at_most id (t ∷ ts) = ground (arith, others-at_most id ts)

others-fewer :
    (id limit now : ℕ) (ts : List Task)
    → any (λ u. u.id == id && is_claimable limit now u) ts ≡ true
    → length (filter (λ t. is_open t.status && not (t.id == id)) ts) < open_tasks ts
unfolding is_claimable
others-fewer id limit now [] h = cc
others-fewer id limit now (t ∷ ts) h =
    ground (arith, others-at_most id ts, others-fewer id limit now ts)

claimed-fewer :
    (limit : ℕ) (clock : Clock) (env : Env) (w : World) (ts : List Task) (o : Option Task)
    → Within (is_claimable limit clock.claim_time) ts o
    → any (is_claimable limit clock.claim_time) ts ≡ true
    → open_tasks
        (process limit clock (resolve_work env) w (claim_row clock.claim_time ts o)).db.outbox
      < open_tasks ts
claimed-fewer limit clock env w ts none k busy = absurd (ground arith)
claimed-fewer limit clock env w ts (some t) k busy =
    let started = update_task t.id (start clock.claim_time) ts in
    rw (resolve-outbox env t.intent (set_outbox w started)) (
      omega (
        arith,
        finished-open t.id clock.claim_time ts,
        others-fewer t.id limit clock.claim_time ts k,
      ))

busy-fewer :
    (limit : ℕ) (c : Cycle) (w : World)
    → is_idle limit c w ≡ false
    → open_tasks (one_cycle limit c w).db.outbox < open_tasks w.db.outbox
unfolding claim_and_process claim
busy-fewer limit c w busy =
    let p = is_claimable limit c.clock.claim_time in
    let ts = reclaimed c w in
    omega (
      arith,
      reclaimed-open c.clock.reclaim_time w.db.outbox,
      claimed-fewer limit c.clock c.env w ts (oldest p ts) (oldest-Within p ts) (ground arith),
    )

-- A worker whose work is the resolver becomes idle: among more cycles than there are open tasks, at
-- any times, there is one in which no task is pending, due and below the limit of attempts.
pub worker_goes_idle :
    (limit : ℕ) (cs : List Cycle) (w : World)
    → open_tasks w.db.outbox < length cs
    → goes_idle limit cs w ≡ true
unfolding goes_idle
worker_goes_idle limit [] w h = absurd (omega arith)
worker_goes_idle limit (c ∷ cs) w h = elim (Bool-cases (is_idle limit c w)) [
  | inl idle ↦ rw idle refl
  | inr busy ↦
      rw busy
        (worker_goes_idle limit cs (one_cycle limit c w) (omega (arith, busy-fewer limit c w busy)))
]
