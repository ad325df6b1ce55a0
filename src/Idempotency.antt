-- ===== src/Idempotency.antt =====
-- core/idempotency.py: the lock of an intent and the deduplication of events, in Redis or, where
-- Redis is absent or raises, in the memory of the process. What Redis answers is a parameter:
-- `none` where the client is absent or the call raises.
pub mod Locks
use resolver_ai.Prelude.{
  ℕ, Bool, true, false, ◌&&◌, ◌||◌, not, Option, none, some, List, [], ◌∷◌, any, filter, ◌==◌,
  if◌then◌else◌, Text, codes, text_eq, truthy,
}

-- `lock_key in _in_memory_locks`
unfoldable pub is_locked : ℕ → List ℕ → Bool
is_locked id locks = any (λ l. l == id) locks

-- `set.discard`
unfoldable pub discard : ℕ → List ℕ → List ℕ
discard id locks = filter (λ l. not (l == id)) locks

-- `acquire_intent_lock`: with the reply of `SET … NX`
unfoldable pub acquire_intent_lock : Option Bool → ℕ → List ℕ → List ℕ × Bool
acquire_intent_lock (some acquired) id locks = (locks, acquired)
acquire_intent_lock none id locks =
    if is_locked id locks then (locks, false) else (id ∷ locks, true)

-- `release_intent_lock`: `deleted` says that Redis was there and its DEL did not raise
unfoldable pub release_intent_lock : Bool → ℕ → List ℕ → List ℕ
release_intent_lock true id locks = locks
release_intent_lock false id locks = discard id locks

-- the key `event:dedup:{source}:{external_event_id}`
pub record EventKey : Type 0 where
  pub source : Text
  pub event : Text

-- `_in_memory_dedup` with `_in_memory_payload_hashes`: a key that was added without a hash maps to
-- `none`; the latest entry with a hash is the dictionary's
pub record Entry : Type 0 where
  pub key : EventKey
  pub hash : Option Text

unfoldable pub same_event : EventKey → EventKey → Bool
same_event a b = text_eq a.source b.source && text_eq a.event b.event

unfoldable pub is_marked : EventKey → List Entry → Bool
is_marked k es = any (λ e. same_event k e.key) es

-- `_in_memory_payload_hashes.get(key)`
unfoldable pub stored_hash : EventKey → List Entry → Option Text
stored_hash k [] = none
stored_hash k (e ∷ es) =
    let rest = stored_hash k es in if same_event k e.key && truthy e.hash then e.hash else rest

-- `is_event_processed`, with the reply of `EXISTS`
unfoldable pub is_event_processed : Option Bool → EventKey → List Entry → Bool
is_event_processed (some found) k es = found
is_event_processed none k es = is_marked k es

-- `mark_event_processed`: `written` says that Redis was there and its SET did not raise
unfoldable pub mark_event_processed : Bool → EventKey → Option Text → List Entry → List Entry
mark_event_processed true k hash es = es
mark_event_processed false k hash es = (record { key = k; hash = hash }) ∷ es

pub data Dedup : Type 0 where
  new valid_duplicate payload_mismatch : Dedup

abbrev pub against : Option Text → Text → Dedup
against none hash = Dedup.valid_duplicate
against (some h) hash = if text_eq h hash then Dedup.valid_duplicate else Dedup.payload_mismatch

abbrev by_redis : Option Text → Text → Dedup
by_redis none hash = Dedup.new
by_redis (some v) hash =
    if text_eq v (codes "1") || text_eq v hash
    then Dedup.valid_duplicate
    else Dedup.payload_mismatch

-- `verify_idempotency_payload`, with the reply of `GET`
unfoldable pub verify_idempotency_payload :
    Option (Option Text) → EventKey → Text → List Entry → Dedup
verify_idempotency_payload (some stored) k hash es = by_redis stored hash
verify_idempotency_payload none k hash es =
    if not (is_marked k es) then Dedup.new else against (stored_hash k es) hash
