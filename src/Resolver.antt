-- ===== src/Resolver.antt =====
-- core/resolver.py and ledger/evidence.py: the resolution of one payment intent, from the lock to the
-- update of its row. Statements on the database do not fail, but for the two inserts of
-- external_executions, whose failure the code itself ignores.
pub mod Setting
pub mod Stages
pub mod Requests
pub mod Safety
pub mod Progress
pub mod Divergence
pub mod Outbox
use resolver_ai.Prelude.{ℕ, Option, none, some, if◌then◌else◌}
use resolver_ai.StateMachine.{is_terminal}
use resolver_ai.Idempotency.{acquire_intent_lock, release_intent_lock}
use resolver_ai.Store.{Intent, get_intent}
use Setting.{Env, World, Response}
use Stages.{load_intent, gather}

-- step 2, on the row that the load returns
abbrev pub on_row : Env → World → Option Intent → World × Response
on_row env w none = (w, Response.not_found)
on_row env w (some row) =
    if is_terminal row.current_state
    then (w, Response.skipped_terminal row.current_state)
    else gather env (load_intent row w.db) w

-- steps 2 to 9, inside the `try`
unfoldable pub resolve_locked : Env → ℕ → World → World × Response
resolve_locked env id w = on_row env w (get_intent id w.db.intents)

-- the `finally` clause
unfoldable pub release : Env → ℕ → World × Response → World × Response
release env id (w, r) =
    (record w { locks = release_intent_lock env.deleted_in_redis id w.locks }, r)

-- `resolve`
unfoldable pub resolve : Env → ℕ → World → World × Response
resolve env id w =
    let (locks, acquired) = acquire_intent_lock env.redis_lock id w.locks in
    if acquired
    then release env id (resolve_locked env id (record w { locks = locks }))
    else (w, Response.skipped_locked)
