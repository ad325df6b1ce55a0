-- ===== src/Poller.antt =====
-- core/reconciliation_poller.py: one cycle of the poller. Each run of the resolver in a cycle has its
-- own services and fresh values, given by its position. A run does not raise: core/resolver.py answers
-- ERROR.
pub mod Cycle
use resolver_ai.Prelude.{
  ℕ, zero, suc, ◌+◌, Bool, ◌&&◌, not, List, [], ◌∷◌, filter, length, ltb, if◌then◌else◌,
}
use resolver_ai.StateMachine.{is_terminal}
use resolver_ai.Store.{Intent}
use resolver_ai.Resolver.{resolve}
use resolver_ai.Resolver.Setting.{Env, World, Response}

-- the defaults of RECONCILIATION_STALE_THRESHOLD and RECONCILIATION_MAX_BATCH
abbrev pub stale_threshold : ℕ
stale_threshold = 600

abbrev pub max_poll_batch : ℕ
max_poll_batch = 50

-- the WHERE clause; the four states that it names are the terminal ones
unfoldable pub is_stale : ℕ → Intent → Bool
is_stale now r = not (is_terminal r.current_state) && ltb (r.updated_at + stale_threshold) now

-- `ORDER BY updated_at ASC`
unfoldable pub insert_by_age : Intent → List Intent → List Intent
insert_by_age r [] = r ∷ []
insert_by_age r (x ∷ xs) =
    let rest = insert_by_age r xs in if ltb x.updated_at r.updated_at then x ∷ rest else r ∷ x ∷ xs

unfoldable pub by_age : List Intent → List Intent
by_age [] = []
by_age (r ∷ rs) = insert_by_age r (by_age rs)

-- `LIMIT`
unfoldable pub take : ℕ → List Intent → List Intent
take zero rs = []
take (suc n) [] = []
take (suc n) (r ∷ rs) = r ∷ take n rs

unfoldable pub find_stale_intents : ℕ → List Intent → List Intent
find_stale_intents now rs = take max_poll_batch (by_age (filter (is_stale now) rs))

pub record Stats : Type 0 where
  pub scanned : ℕ
  pub stale : ℕ
  pub resolved : ℕ
  pub errors : ℕ

-- `done` is RESOLVED or PROCESSED, depending on the state
abbrev pub tally : Response → Stats → Stats
tally (Response.done s d a st) t = record t { resolved = t.resolved + 1 }
tally Response.not_found t = record t { errors = t.errors + 1 }
tally Response.error t = record t { errors = t.errors + 1 }
tally Response.skipped_locked t = t
tally (Response.skipped_terminal s) t = t

abbrev pub scan : Stats → Stats
scan t = record t { scanned = t.scanned + 1 }

-- the loop over the batch
unfoldable pub poll_batch : (ℕ → Env) → List Intent → World → Stats → World × Stats
poll_batch envs [] w t = (w, t)
poll_batch envs (r ∷ rs) w t =
    let (w', response) = resolve (envs (length rs)) r.id w in
    poll_batch envs rs w' (tally response (scan t))

-- `poll_once`
unfoldable pub poll_once : (ℕ → Env) → ℕ → World → World × Stats
poll_once envs now w =
    let batch = find_stale_intents now w.db.intents in
    poll_batch envs batch w (record { scanned = 0; stale = length batch; resolved = 0; errors = 0 })
