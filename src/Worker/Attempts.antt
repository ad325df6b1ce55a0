-- ===== src/Worker/Attempts.antt =====
-- How often a task is tried, over any sequence of cycles and crashes of workers.
use resolver_ai.Prelude.{
  ℕ, ◌+◌, ◌≤◌, ◌≡◌, refl, inl, inr, Bool, true, ◌&&◌, ◌||◌, not, Option, none, some, List, [], ◌∷◌,
  all, ◌==◌, leb, arith, Bool-cases, if◌then◌else◌,
}
use resolver_ai.Store.{Task}
use resolver_ai.Resolver.Outbox.{resolve-outbox}
use resolver_ai.Resolver.Setting.{Env, World}
use resolver_ai.Worker.{
  resolve_work, Work, Clock, is_pending, is_claimable, reclaim_stuck_tasks, lease_timeout, oldest,
  start, claim, claim_row, process, claim_and_process, crash, set_outbox,
}
use resolver_ai.Worker.Rows.{
  update_task-all, Passes, oldest-Passes, oldest-all, reclaim-all, settle_task-all,
}

pub data Step : Type 0 where
  cycle : Clock → Env → Step
  crashed : Clock → Step

-- the steps of workers on one database
unfoldable pub run : ℕ → List Step → World → World
run limit [] w = w
run limit (cycle c env ∷ ss) w = run limit ss (claim_and_process limit c (resolve_work env) w)
run limit (crashed c ∷ ss) w = run limit ss (crash limit c w)

-- a row with this id has been started so many times
abbrev pub tried : ℕ → ℕ → Task → Bool
tried id n t = not (t.id == id) || t.attempts == n

-- a row with this id waits, but has no attempt left
abbrev pub spent : ℕ → ℕ → Task → Bool
spent limit id t = not (t.id == id) || is_pending t.status && leb limit t.attempts

-- whether a claim has returned the task with this id
abbrev pub hit : ℕ → Option Task → ℕ
hit id none = 0
hit id (some t) = if t.id == id then 1 else 0

-- the claim of a cycle or of a worker that crashes
abbrev pub claimed_by : ℕ → Clock → World → Option Task
claimed_by limit c w =
    (claim limit c.claim_time (reclaim_stuck_tasks lease_timeout c.reclaim_time w.db.outbox)).1

-- how many steps have started the task with this id
unfoldable pub starts : ℕ → ℕ → List Step → World → ℕ
starts limit id [] w = 0
starts limit id (cycle c env ∷ ss) w =
    hit id (claimed_by limit c w)
    + starts limit id ss (claim_and_process limit c (resolve_work env) w)
starts limit id (crashed c ∷ ss) w =
    hit id (claimed_by limit c w) + starts limit id ss (crash limit c w)

-- the rows with an id after some starts, which leave room below the limit
abbrev TriedAgain : ℕ → ℕ → ℕ → List Task × Option Task → Type 0
TriedAgain limit id n (ts, o) = (n + hit id o ≤ limit) × (all (tried id (n + hit id o)) ts ≡ true)

module _ (limit : ℕ) (id : ℕ) where
  claim_row-tried :
      (n now : ℕ) (ts : List Task) (o : Option Task)
      → Passes (is_claimable limit now) o
      → Passes (tried id n) o
      → n ≤ limit
      → all (tried id n) ts ≡ true
      → TriedAgain limit id n (claim_row now ts o)
  unfolding is_claimable
  claim_row-tried n now ts none p q b h =
      let same : n + 0 ≡ n = omega arith in (omega arith, rw same h)
  claim_row-tried n now ts (some t) p q b h = elim (Bool-cases (t.id == id)) [
    | inl e ↦ rw e (
      ground arith,
      update_task-all (tried id n) (tried id (n + 1)) t.id (start now) ts (λ u k i. ground arith)
          (λ u k i. ground arith) h,
    )
    | inr e ↦
        let same : n + 0 ≡ n = omega arith in
        rw e (
          omega arith,
          rw same (
              update_task-all (tried id n) (tried id n) t.id (start now) ts (λ u k i. ground arith)
                (λ u k i. k) h),
        )
  ]

  claim-tried :
      (n now : ℕ) (ts : List Task)
      → n ≤ limit
      → all (tried id n) ts ≡ true
      → TriedAgain limit id n (claim limit now ts)
  unfolding claim
  claim-tried n now ts b h =
      let p = is_claimable limit now in
      claim_row-tried n now ts (oldest p ts) (oldest-Passes p p ts (λ t e. e))
        (oldest-all p (tried id n) ts h) b h

  claim_row-spent :
      (now : ℕ) (ts : List Task) (o : Option Task)
      → Passes (is_claimable limit now) o
      → Passes (spent limit id) o
      → all (spent limit id) ts ≡ true
      → (all (spent limit id) (claim_row now ts o).0 ≡ true)
        × Passes (λ c. not (c.id == id)) (claim_row now ts o).1
  unfolding is_claimable
  claim_row-spent now ts none p q h = (h, tt)
  claim_row-spent now ts (some t) p q h = elim (Bool-cases (t.id == id)) [
    | inl e ↦ ground arith
    | inr e ↦ (
      update_task-all (spent limit id) (spent limit id) t.id (start now) ts (λ u k i. ground arith)
          (λ u k i. k) h,
      rw e refl,
    )
  ]

  claim-spent :
      (now : ℕ) (ts : List Task)
      → all (spent limit id) ts ≡ true
      → (all (spent limit id) (claim limit now ts).0 ≡ true)
        × Passes (λ c. not (c.id == id)) (claim limit now ts).1
  unfolding claim
  claim-spent now ts h =
      let p = is_claimable limit now in
      claim_row-spent now ts (oldest p ts) (oldest-Passes p p ts (λ t e. e))
        (oldest-all p (spent limit id) ts h) h

-- the work leaves the outbox alone
module _ (limit : ℕ) (work : Work)
    (keeps : (id : ℕ) (w : World) → (work id w).0.db.outbox ≡ w.db.outbox) (id : ℕ) where
  process-tried :
      (m : ℕ) (clock : Clock) (w : World) (ts : List Task) (o : Option Task)
      → all (tried id m) ts ≡ true
      → all (tried id m) (process limit clock work w (ts, o)).db.outbox ≡ true
  process-tried m clock w ts none h = h
  process-tried m clock w ts (some c) h =
      settle_task-all (tried id m) limit clock c (work c.intent (set_outbox w ts)) (λ s a t e i. e)
        (rw (keeps c.intent (set_outbox w ts)) h)

  process-spent :
      (clock : Clock) (w : World) (ts : List Task) (o : Option Task)
      → all (spent limit id) ts ≡ true
      → Passes (λ c. not (c.id == id)) o
      → all (spent limit id) (process limit clock work w (ts, o)).db.outbox ≡ true
  process-spent clock w ts none h k = h
  process-spent clock w ts (some c) h k =
      settle_task-all (spent limit id) limit clock c (work c.intent (set_outbox w ts))
        (λ s a t e i. ground arith) (rw (keeps c.intent (set_outbox w ts)) h)

reclaimed-tried :
    (id n now : ℕ) (ts : List Task)
    → all (tried id n) ts ≡ true
    → all (tried id n) (reclaim_stuck_tasks lease_timeout now ts) ≡ true
reclaimed-tried id n now ts h = reclaim-all (tried id n) now ts (λ t e. e) h

reclaimed-spent :
    (limit id now : ℕ) (ts : List Task)
    → all (spent limit id) ts ≡ true
    → all (spent limit id) (reclaim_stuck_tasks lease_timeout now ts) ≡ true
reclaimed-spent limit id now ts h = reclaim-all (spent limit id) now ts (λ t e. ground arith) h

-- Over any sequence of cycles and crashes of workers, a task that has been tried n times, not more often
-- than the limit, is started at most as often as the limit leaves room for, and its attempts count every start, also of a worker that
-- crashed, exactly once.
pub attempts_bounded :
    (limit id : ℕ) (ss : List Step) (n : ℕ) (w : World)
    → n ≤ limit
    → all (tried id n) w.db.outbox ≡ true
    → (n + starts limit id ss w ≤ limit)
      × (all (tried id (n + starts limit id ss w)) (run limit ss w).db.outbox ≡ true)
unfolding run starts claim_and_process crash
attempts_bounded limit id [] n w b h =
    let same : n + 0 ≡ n = omega arith in (omega arith, rw same h)
attempts_bounded limit id (cycle c env ∷ ss) n w b h =
    let ts = reclaim_stuck_tasks lease_timeout c.reclaim_time w.db.outbox in
    let r = claim limit c.claim_time ts in
    let (high, kept) =
      claim-tried limit id n c.claim_time ts b
        (reclaimed-tried id n c.reclaim_time w.db.outbox h) in
    let m = n + hit id r.1 in
    let w' = process limit c (resolve_work env) w r in
    let (top, done) =
      attempts_bounded limit id ss m w' high
        (process-tried limit (resolve_work env) (resolve-outbox env) id m c w r.0 r.1 kept) in
    let sum : n + (hit id r.1 + starts limit id ss w') ≡ m + starts limit id ss w' = omega arith in
    (omega (arith, top), rw sum done)
attempts_bounded limit id (crashed c ∷ ss) n w b h =
    let ts = reclaim_stuck_tasks lease_timeout c.reclaim_time w.db.outbox in
    let r = claim limit c.claim_time ts in
    let (high, kept) =
      claim-tried limit id n c.claim_time ts b
        (reclaimed-tried id n c.reclaim_time w.db.outbox h) in
    let m = n + hit id r.1 in
    let (top, done) = attempts_bounded limit id ss m (set_outbox w r.0) high kept in
    let sum : n + (hit id r.1 + starts limit id ss (set_outbox w r.0))
        ≡ m + starts limit id ss (set_outbox w r.0) =
      omega arith in
    (omega (arith, top), rw sum done)

-- A task that is pending with no attempt left stays so over any sequence of cycles and crashes: no
-- worker claims it, and none moves it to the dead letters.
pub spent_task_waits :
    (limit id : ℕ) (ss : List Step) (w : World)
    → all (spent limit id) w.db.outbox ≡ true
    → all (spent limit id) (run limit ss w).db.outbox ≡ true
unfolding run claim_and_process crash
spent_task_waits limit id [] w h = h
spent_task_waits limit id (cycle c env ∷ ss) w h =
    let ts = reclaim_stuck_tasks lease_timeout c.reclaim_time w.db.outbox in
    let r = claim limit c.claim_time ts in
    let (kept, other) =
      claim-spent limit id c.claim_time ts
        (reclaimed-spent limit id c.reclaim_time w.db.outbox h) in
    spent_task_waits limit id ss (process limit c (resolve_work env) w r)
      (process-spent limit (resolve_work env) (resolve-outbox env) id c w r.0 r.1 kept other)
spent_task_waits limit id (crashed c ∷ ss) w h =
    let ts = reclaim_stuck_tasks lease_timeout c.reclaim_time w.db.outbox in
    let (kept, other) =
      claim-spent limit id c.claim_time ts
        (reclaimed-spent limit id c.reclaim_time w.db.outbox h) in
    spent_task_waits limit id ss (set_outbox w (claim limit c.claim_time ts).0) kept
