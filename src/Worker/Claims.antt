-- ===== src/Worker/Claims.antt =====
-- Which task a worker claims.
use resolver_ai.Prelude.{
  ℕ, ◌+◌, ◌≤◌, ◌≡◌, refl, ap, At, here, there, map, ◌==◌, if◌then◌else◌, inl, inr, Bool, true,
  false, ◌||◌, not, Option, none, some, List, [], ◌∷◌, any, all, leb, ltb, arith, Bool-cases,
}
use resolver_ai.Store.{Task, TaskStatus}
use resolver_ai.Worker.{older, oldest, is_claimable, start, update_task, claim, claim_row}

-- no task with a property is older than a time
abbrev pub none_before : (Task → Bool) → ℕ → List Task → Bool
none_before p time = all (λ u. not (p u) || leb time u.created_at)

none_before-earlier :
    (p : Task → Bool) (a b : ℕ) (ts : List Task)
    → a ≤ b
    → none_before p b ts ≡ true
    → none_before p a ts ≡ true
none_before-earlier p a b [] h k = refl
none_before-earlier p a b (t ∷ ts) h k = ground (arith, none_before-earlier p a b ts h)

none_before-empty :
    (p : Task → Bool) (a : ℕ) (ts : List Task) → any p ts ≡ false → none_before p a ts ≡ true
none_before-empty p a [] h = refl
none_before-empty p a (t ∷ ts) h = ground (arith, none_before-empty p a ts)

abbrev pub Chosen : (Task → Bool) → List Task → Option Task → Type 0
Chosen p ts none = any p ts ≡ false
Chosen p ts (some t) = At t ts × (p t ≡ true) × (none_before p t.created_at ts ≡ true)

older-Chosen :
    (p : Task → Bool) (t : Task) (ts : List Task) (o : Option Task)
    → p t ≡ true
    → Chosen p ts o
    → Chosen p (t ∷ ts) (older t o)
older-Chosen p t ts none h c = (here, h, ground (arith, none_before-empty p t.created_at ts c))
older-Chosen p t ts (some u) h (at, pu, c) = elim (Bool-cases (ltb u.created_at t.created_at)) [
  | inl q ↦ rw q (there at, pu, ground arith)
  | inr q ↦
      rw q (
        here,
        h,
        ground (arith, none_before-earlier p t.created_at u.created_at ts (ground arith) c),
      )
]

passed-Chosen :
    (p : Task → Bool) (t : Task) (ts : List Task) (o : Option Task)
    → p t ≡ false
    → Chosen p ts o
    → Chosen p (t ∷ ts) o
passed-Chosen p t ts none h c = ground arith
passed-Chosen p t ts (some u) h (at, pu, c) = (there at, pu, ground arith)

pub oldest-Chosen : (p : Task → Bool) (ts : List Task) → Chosen p ts (oldest p ts)
unfolding oldest
oldest-Chosen p [] = refl
oldest-Chosen p (t ∷ ts) = elim (Bool-cases (p t)) [
  | inl q ↦ rw q (older-Chosen p t ts (oldest p ts) q (oldest-Chosen p ts))
  | inr q ↦ rw q (passed-Chosen p t ts (oldest p ts) q (oldest-Chosen p ts))
]

-- a task as its claim marks it, and the rows of a table with one id changed
abbrev pub started : ℕ → Task → Task
started now t = record t {
  status = TaskStatus.processing;
  attempts = t.attempts + 1;
  processing_started_at = some now;
}

abbrev pub change : ℕ → (Task → Task) → Task → Task
change id f u = if u.id == id then f u else u

pub update_task-map :
    (id : ℕ) (f : Task → Task) (ts : List Task) → update_task id f ts ≡ map (change id f) ts
unfolding update_task
update_task-map id f [] = refl
update_task-map id f (t ∷ ts) = elim (Bool-cases (t.id == id)) [
  | inl e ↦ rw e (ap (λ us. f t ∷ us) (update_task-map id f ts))
  | inr e ↦ rw e (ap (λ us. t ∷ us) (update_task-map id f ts))
]

-- What a claim did: it claimed nothing, or one task of the table, which is marked as started.
abbrev pub Claimed : ℕ → ℕ → List Task → List Task × Option Task → Type 0
Claimed limit now ts (ts', none) = (ts' ≡ ts) × (any (is_claimable limit now) ts ≡ false)
Claimed limit now ts (ts', some c) =
    (t : Task) × At t ts
    × (c ≡ started now t)
    × (ts' ≡ map (change t.id (started now)) ts)
    × (is_claimable limit now t ≡ true)
    × (none_before (is_claimable limit now) t.created_at ts ≡ true)

claim_row-Claimed :
    (limit now : ℕ) (ts : List Task) (o : Option Task)
    → Chosen (is_claimable limit now) ts o
    → Claimed limit now ts (claim_row now ts o)
claim_row-Claimed limit now ts none c = (refl, c)
claim_row-Claimed limit now ts (some t) (at, p, c) =
    (t, at, refl, update_task-map t.id (start now) ts, p, c)

-- A worker stays idle only if no task is pending, due and below the limit of attempts; otherwise it
-- claims such a task of the table, than which no other such task is older. The claimed task is that
-- row, marked as PROCESSING from now on with one attempt more, and the rows of other ids stay.
pub claim_takes_oldest :
    (limit now : ℕ) (ts : List Task) → Claimed limit now ts (claim limit now ts)
unfolding claim
claim_takes_oldest limit now ts =
    claim_row-Claimed limit now ts (oldest (is_claimable limit now) ts)
      (oldest-Chosen (is_claimable limit now) ts)
