-- ===== src/Idempotency/Locks.antt =====
-- Mutual exclusion by the lock of an intent, and the deduplication of events.
use resolver_ai.Prelude.{
  ℕ, ◌≡◌, refl, ◌∙◌, ◌≢◌, inl, inr, true, false, none, some, List, [], ◌∷◌, arith, ==_refl,
  Bool-cases, Text, text_eq_iff, text_eq_refl, truthy,
}
use resolver_ai.Idempotency.{
  is_locked, discard, acquire_intent_lock, release_intent_lock, EventKey, Entry, same_event,
  is_marked, stored_hash, mark_event_processed, Dedup, verify_idempotency_payload,
}

pub discard-is_locked : (id : ℕ) (locks : List ℕ) → is_locked id (discard id locks) ≡ false
unfolding is_locked discard
discard-is_locked id [] = refl
discard-is_locked id (l ∷ ls) = ground (arith, discard-is_locked id ls)

pub discard-is_locked_ne :
    (id j : ℕ) (locks : List ℕ) → j ≢ id → is_locked j (discard id locks) ≡ is_locked j locks
unfolding is_locked discard
discard-is_locked_ne id j [] ne = refl
discard-is_locked_ne id j (l ∷ ls) ne = ground (arith, discard-is_locked_ne id j ls ne)

-- Without Redis the lock excludes: after a successful acquisition a second one fails, and the
-- release that follows leaves the lock free and every other lock as it was.
pub lock_excludes :
    (id j : ℕ) (locks : List ℕ)
    → (acquire_intent_lock none id locks).1 ≡ true
    → let held = (acquire_intent_lock none id locks).0 in
      ((acquire_intent_lock none id held).1 ≡ false)
      × (is_locked id (release_intent_lock false id held) ≡ false)
      × (j ≢ id → is_locked j (release_intent_lock false id held) ≡ is_locked j locks)
unfolding acquire_intent_lock release_intent_lock is_locked
lock_excludes id j locks h = elim (Bool-cases (is_locked id locks)) [
  | inl q ↦ ground arith
  | inr q ↦ rw q (
    rw (==_refl id),
    discard-is_locked id (id ∷ locks),
    λ ne. discard-is_locked_ne id j (id ∷ locks) ne ∙ ground arith,
  )
]

-- A lock that was taken in memory and is released through Redis stays in memory: every later
-- acquisition without Redis fails.
pub released_elsewhere_leaks :
    (id : ℕ) (locks : List ℕ)
    → (acquire_intent_lock none id locks).1 ≡ true
    → (acquire_intent_lock none id
        (release_intent_lock true id (acquire_intent_lock none id locks).0)).1
      ≡ false
unfolding acquire_intent_lock release_intent_lock is_locked
released_elsewhere_leaks id locks h = elim (Bool-cases (is_locked id locks)) [
  | inl q ↦ ground arith
  | inr q ↦ rw q (rw (==_refl id))
]

same_event_refl : (k : EventKey) → same_event k k ≡ true
unfolding same_event
same_event_refl k = rw (text_eq_refl k.source, text_eq_refl k.event)

-- After an event was marked with the hash of its payload, the same event with the same payload is a
-- valid duplicate, and with any other payload a mismatch, where memory holds the marks.
pub marked_is_checked :
    (k : EventKey) (hash other : Text) (es : List Entry)
    → truthy (some hash) ≡ true
    → let marked = mark_event_processed false k (some hash) es in
      (verify_idempotency_payload none k hash marked ≡ Dedup.valid_duplicate)
      × (hash ≢ other → verify_idempotency_payload none k other marked ≡ Dedup.payload_mismatch)
unfolding mark_event_processed verify_idempotency_payload is_marked stored_hash
marked_is_checked k hash other es h =
    ground (arith, same_event_refl k, text_eq_refl hash, text_eq_iff hash other)
