-- ===== src/Worker/Rows.antt =====
-- Tests on the rows of the outbox, through the statements of worker.py.
use resolver_ai.Prelude.{
  ℕ, ◌+◌, ◌^◌, ◌≡◌, refl, inl, inr, Bool, true, false, Option, none, some, List, [], ◌∷◌, map, all,
  ◌==◌, leb, ltb, arith, Bool-cases,
}
use resolver_ai.Provider.{Outcome, returned, raised}
use resolver_ai.Store.{Task, TaskStatus}
use resolver_ai.Resolver.Setting.{World, Response}
use resolver_ai.Worker.{
  Clock, is_stuck, reclaim, reclaim_stuck_tasks, lease_timeout, older, oldest, update_task,
  finish_task, fail_task, settle_task,
}

pub update_task-all :
    (q q' : Task → Bool) (k : ℕ) (f : Task → Task) (ts : List Task)
    → ((t : Task) → q t ≡ true → (t.id == k) ≡ true → q' (f t) ≡ true)
    → ((t : Task) → q t ≡ true → (t.id == k) ≡ false → q' t ≡ true)
    → all q ts ≡ true
    → all q' (update_task k f ts) ≡ true
unfolding update_task
update_task-all q q' k f [] here there h = refl
update_task-all q q' k f (t ∷ ts) here there h =
    let rest = update_task-all q q' k f ts here there (ground arith) in
    elim (Bool-cases (t.id == k)) [
      | inl e ↦ rw e (ground (arith, rest, here t (ground arith) e))
      | inr e ↦ rw e (ground (arith, rest, there t (ground arith) e))
    ]

map-all :
    (q : Task → Bool) (f : Task → Task) (ts : List Task)
    → ((t : Task) → q t ≡ true → q (f t) ≡ true)
    → all q ts ≡ true
    → all q (map f ts) ≡ true
map-all q f [] k h = refl
map-all q f (t ∷ ts) k h = ground (arith, map-all q f ts k, k t)

-- a test that holds of every task holds of the one chosen
abbrev pub Passes : (Task → Bool) → Option Task → Type 0
Passes q none = Unit
Passes q (some t) = q t ≡ true

older-Passes :
    (q : Task → Bool) (t : Task) (o : Option Task) → q t ≡ true → Passes q o → Passes q (older t o)
older-Passes q t none h k = h
older-Passes q t (some u) h k = elim (Bool-cases (ltb u.created_at t.created_at)) [
  | inl e ↦ rw e k
  | inr e ↦ rw e h
]

pub oldest-Passes :
    (p q : Task → Bool) (ts : List Task)
    → ((t : Task) → p t ≡ true → q t ≡ true)
    → Passes q (oldest p ts)
unfolding oldest
oldest-Passes p q [] k = tt
oldest-Passes p q (x ∷ xs) k = elim (Bool-cases (p x)) [
  | inl e ↦ rw e (older-Passes q x (oldest p xs) (k x e) (oldest-Passes p q xs k))
  | inr e ↦ rw e (oldest-Passes p q xs k)
]

pub oldest-all : (p q : Task → Bool) (ts : List Task) → all q ts ≡ true → Passes q (oldest p ts)
unfolding oldest
oldest-all p q [] h = tt
oldest-all p q (x ∷ xs) h = elim (Bool-cases (p x)) [
  | inl e ↦ rw e (older-Passes q x (oldest p xs) (ground arith) (oldest-all p q xs (ground arith)))
  | inr e ↦ rw e (oldest-all p q xs (ground arith))
]

pub reclaim-all :
    (q : Task → Bool) (now : ℕ) (ts : List Task)
    → ((t : Task)
        → q t ≡ true
        → q (record t { status = TaskStatus.pending; available_at = some now }) ≡ true)
    → all q ts ≡ true
    → all q (reclaim_stuck_tasks lease_timeout now ts) ≡ true
unfolding reclaim_stuck_tasks
reclaim-all q now ts k h =
    map-all q (reclaim lease_timeout now) ts
      (λ t e. elim (Bool-cases (is_stuck lease_timeout now t)) [
        | inl s ↦ rw s (k t e)
        | inr s ↦ rw s e
      ])
      h

-- how the end of the work on a claimed task treats a test
pub settle_task-all :
    (q : Task → Bool) (limit : ℕ) (clock : Clock) (c : Task) (r : World × Outcome Response)
    → ((s : TaskStatus) (a : Option ℕ) (t : Task)
        → q t ≡ true
        → (t.id == c.id) ≡ true
        → q (record t { status = s; available_at = a }) ≡ true)
    → all q r.0.db.outbox ≡ true
    → all q (settle_task limit clock c r).db.outbox ≡ true
unfolding finish_task fail_task
settle_task-all q limit clock c (w, returned r) k h =
    update_task-all q q c.id (λ u. record u { status = TaskStatus.processed }) w.db.outbox
      (λ t e i. k TaskStatus.processed t.available_at t e i) (λ t e i. e) h
settle_task-all q limit clock c (w, raised) k h = elim (Bool-cases (leb limit c.attempts)) [
  | inl e ↦ rw e (
      update_task-all q q c.id (λ u. record u { status = TaskStatus.dead_letter }) w.db.outbox
        (λ t e i. k TaskStatus.dead_letter t.available_at t e i) (λ t e i. e) h)
  | inr e ↦ rw e (
      update_task-all q q c.id
        (λ u. record u {
          status = TaskStatus.pending;
          available_at = some (clock.settle_time + 2 ^ c.attempts);
        })
        w.db.outbox
        (λ t e i. k TaskStatus.pending (some (clock.settle_time + 2 ^ c.attempts)) t e i)
        (λ t e i. e) h)
]
