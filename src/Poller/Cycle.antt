-- ===== src/Poller/Cycle.antt =====
-- A cycle of core/reconciliation_poller.py: its size, its counts, and what it leaves for the next one.
use resolver_ai.Prelude.{
  ℕ, zero, suc, ◌+◌, ◌≤◌, ◌≡◌, refl, sym, ap, subst, ◌∙◌, inl, inr, Bool, true, false, none, some,
  List, [], ◌∷◌, filter, length, arith, Bool-cases, Option-cases,
}
use resolver_ai.Idempotency.{acquire_intent_lock}
use resolver_ai.Store.{Intent, get_intent}
use resolver_ai.Store.Laws.{get_intent-id}
use resolver_ai.Resolver.{resolve, resolve_locked, release}
use resolver_ai.Resolver.Setting.{Env, World, Response}
use resolver_ai.Resolver.Progress.{Ended, resolve_records}
use resolver_ai.Poller.{
  max_poll_batch, is_stale, by_age, take, find_stale_intents, Stats, tally, scan, poll_batch,
  poll_once,
}

length-take : (n : ℕ) (rs : List Intent) → length (take n rs) ≤ n
unfolding take
length-take zero rs = omega arith
length-take (suc n) [] = omega arith
length-take (suc n) (r ∷ rs) = omega (arith, length-take n rs)

find_stale-length :
    (now : ℕ) (rs : List Intent) → length (find_stale_intents now rs) ≤ max_poll_batch
unfolding find_stale_intents
find_stale-length now rs = length-take max_poll_batch (by_age (filter (is_stale now) rs))

tally-counts :
    (x : Response) (t : Stats)
    → ((tally x t).resolved + (tally x t).errors ≤ t.resolved + t.errors + 1)
      × ((tally x t).scanned ≡ t.scanned)
      × ((tally x t).stale ≡ t.stale)
tally-counts (Response.done s d a st) t = (omega arith, refl, refl)
tally-counts Response.not_found t = (omega arith, refl, refl)
tally-counts Response.error t = (omega arith, refl, refl)
tally-counts Response.skipped_locked t = (omega arith, refl, refl)
tally-counts (Response.skipped_terminal s) t = (omega arith, refl, refl)

poll_batch-counts :
    (envs : ℕ → Env) (rs : List Intent) (w : World) (t : Stats)
    → let t' = (poll_batch envs rs w t).1 in
      (t'.scanned ≡ t.scanned + length rs)
      × (t'.stale ≡ t.stale)
      × (t'.resolved + t'.errors ≤ t.resolved + t.errors + length rs)
unfolding poll_batch
poll_batch-counts envs [] w t = (omega arith, refl, omega arith)
poll_batch-counts envs (r ∷ rs) w t =
    let run = resolve (envs (length rs)) r.id w in
    let (few, scanned, stale) = tally-counts run.1 (scan t) in
    let (a, b, c) = poll_batch-counts envs rs run.0 (tally run.1 (scan t)) in
    (omega (arith, a, scanned), b ∙ stale, omega (arith, c, few))

-- A cycle takes at most 50 intents, scans each of them, and counts no intent twice as resolved or as an
-- error.
pub poll_once-bounded :
    (envs : ℕ → Env) (now : ℕ) (w : World)
    → let t = (poll_once envs now w).1 in
      (t.stale ≤ max_poll_batch) × (t.scanned ≡ t.stale) × (t.resolved + t.errors ≤ t.scanned)
unfolding poll_once
poll_once-bounded envs now w =
    let batch = find_stale_intents now w.db.intents in
    let (a, b, c) =
      poll_batch-counts envs batch w
        (record { scanned = 0; stale = length batch; resolved = 0; errors = 0 }) in
    (omega (arith, b, find_stale-length now w.db.intents), omega (arith, a, b), omega (arith, a, c))

abbrev is_done : Response → Bool
is_done (Response.done s d a st) = true
is_done _ = false

Ended-intents :
    (id : ℕ) (row : Intent) (w : World) (x : World × Response)
    → Ended id row w x
    → is_done x.1 ≡ false
    → x.0.db.intents ≡ w.db.intents
Ended-intents id row w (w', Response.done s d a st) h k = cc
Ended-intents id row w (w', Response.skipped_locked) (same, more) k = same
Ended-intents id row w (w', Response.not_found) (same, more) k = same
Ended-intents id row w (w', Response.error) (same, more) k = same
Ended-intents id row w (w', Response.skipped_terminal s) (same, more) k = same

absent-intents :
    (env : Env) (id : ℕ) (w : World)
    → get_intent id w.db.intents ≡ none
    → (resolve env id w).0.db.intents ≡ w.db.intents
unfolding resolve resolve_locked release
absent-intents env id w absent =
    elim (Bool-cases (acquire_intent_lock env.redis_lock id w.locks).1) [
      | inl a ↦ rw (a, absent) refl
      | inr a ↦ rw a refl
    ]

undone-intents :
    (env : Env) (id : ℕ) (w : World)
    → is_done (resolve env id w).1 ≡ false
    → (resolve env id w).0.db.intents ≡ w.db.intents
undone-intents env id w k = elim (Option-cases (get_intent id w.db.intents)) [
  | inl absent ↦ absent-intents env id w absent
  | inr (row, found) ↦
      let same : row.id ≡ id = get_intent-id id w.db.intents row found in
      let here : get_intent row.id w.db.intents ≡ some row =
        subst (λ i. get_intent i w.db.intents ≡ some row) (sym same) found in
      subst
        (λ i. is_done (resolve env i w).1 ≡ false → (resolve env i w).0.db.intents ≡ w.db.intents)
        same (Ended-intents row.id row w (resolve env row.id w) (resolve_records env row w here)) k
]

tally-resolved : (x : Response) (t : Stats) → t.resolved ≤ (tally x t).resolved
tally-resolved (Response.done s d a st) t = omega arith
tally-resolved Response.not_found t = omega arith
tally-resolved Response.error t = omega arith
tally-resolved Response.skipped_locked t = omega arith
tally-resolved (Response.skipped_terminal s) t = omega arith

poll_batch-resolved :
    (envs : ℕ → Env) (rs : List Intent) (w : World) (t : Stats)
    → t.resolved ≤ (poll_batch envs rs w t).1.resolved
unfolding poll_batch
poll_batch-resolved envs [] w t = omega arith
poll_batch-resolved envs (r ∷ rs) w t =
    let run = resolve (envs (length rs)) r.id w in
    omega (
      arith,
      tally-resolved run.1 (scan t),
      poll_batch-resolved envs rs run.0 (tally run.1 (scan t)),
    )

undone : (x : Response) (t : Stats) → (tally x t).resolved ≡ 0 → is_done x ≡ false
undone (Response.done s d a st) t h = absurd (omega arith)
undone Response.not_found t h = refl
undone Response.error t h = refl
undone Response.skipped_locked t h = refl
undone (Response.skipped_terminal s) t h = refl

poll_batch-intents :
    (envs : ℕ → Env) (rs : List Intent) (w : World) (t : Stats)
    → (poll_batch envs rs w t).1.resolved ≡ 0
    → (poll_batch envs rs w t).0.db.intents ≡ w.db.intents
unfolding poll_batch
poll_batch-intents envs [] w t h = refl
poll_batch-intents envs (r ∷ rs) w t h =
    let run = resolve (envs (length rs)) r.id w in
    let t' = tally run.1 (scan t) in
    poll_batch-intents envs rs run.0 t' h
    ∙ undone-intents (envs (length rs)) r.id w
        (undone run.1 (scan t) (omega (arith, poll_batch-resolved envs rs run.0 t')))

-- A cycle that resolves none of its intents, because each run fails, finds the lock held or finds a
-- terminal state, leaves no trace in their rows: at any time the next batch is what it would have been
-- without the cycle, so the intents behind the oldest 50 wait until one of these is resolved.
pub failed_batch_repeats :
    (envs : ℕ → Env) (now next : ℕ) (w : World)
    → (poll_once envs now w).1.resolved ≡ 0
    → find_stale_intents next (poll_once envs now w).0.db.intents
      ≡ find_stale_intents next w.db.intents
unfolding poll_once
failed_batch_repeats envs now next w h =
    ap (find_stale_intents next)
      (poll_batch-intents envs (find_stale_intents now w.db.intents) w _ h)
