-- ===== src/Rail/Idempotent.antt =====
-- Repeated idempotency keys on the rail of chaos_lab/simulator.py.
use resolver_ai.Prelude.{
  ℕ, ◌≡◌, refl, Bool, true, Option, none, List, [], ◌∷◌, arith, Bool-cases, inl, inr, Text,
  text_eq_refl,
}
use resolver_ai.Schemas.{Key}
use resolver_ai.Rail.{
  RailStatus, ChaosMode, TxnRef, Txn, RailState, key_eq, is_processed, add_key, authorize_new,
  authorize, get_txn, void, refund,
}

key_eq_refl : (k : Key) → key_eq k k ≡ true
unfolding key_eq
key_eq_refl (Key.idem a v) = ground arith
key_eq_refl (Key.idem_replay a) = ground arith
key_eq_refl (Key.exec a) = ground arith
key_eq_refl (Key.outbox_evt s) = text_eq_refl s
key_eq_refl (Key.outbox_checkout s) = text_eq_refl s
key_eq_refl (Key.outbox_failure s) = text_eq_refl s

add_key-is_processed : (k : Key) (r : RailState) → is_processed k (add_key k r) ≡ true
unfolding is_processed add_key
add_key-is_processed k r = rw (key_eq_refl k)

authorize_new-is_processed :
    (m : Option ChaosMode) (lucky : Bool) (hex : Text) (a : ℕ) (k : Key) (r : RailState)
    → is_processed k (authorize_new m lucky hex a k r).0 ≡ true
unfolding authorize_new is_processed
authorize_new-is_processed m lucky hex a k r = ground (arith, key_eq_refl k)

pub authorize-is_processed :
    (m : Option ChaosMode) (lucky : Bool) (hex : Text) (a : ℕ) (k : Key) (r : RailState)
    → is_processed k (authorize m lucky hex a k r).0 ≡ true
unfolding authorize
authorize-is_processed m lucky hex a k r = elim (Bool-cases (is_processed k r)) [
  | inl old ↦ rw old old
  | inr new ↦ rw new (authorize_new-is_processed m lucky hex a k r)
]

-- A second authorization under the same idempotency key changes nothing and answers DUPLICATE,
-- whatever chaos is injected in either call and however the first call ended.
pub authorize_twice :
    (m m' : Option ChaosMode) (lucky lucky' : Bool) (hex hex' : Text) (a a' : ℕ) (k : Key)
    (r : RailState)
    → let r1 = (authorize m lucky hex a k r).0 in
      authorize m' lucky' hex' a' k r1
      ≡ (r1, record { status = RailStatus.duplicate; txn_id = none })
unfolding authorize
authorize_twice m m' lucky lucky' hex hex' a a' k r =
    let e = authorize-is_processed m lucky hex a k r in rw e

get_txn-of_key : (k : Key) (xs : List Txn) → get_txn (TxnRef.of_key k) xs ≡ none
unfolding get_txn
get_txn-of_key k [] = refl
get_txn-of_key k (x ∷ xs) = get_txn-of_key k xs

-- A void or a refund of a reference that is an idempotency key fails and changes nothing: only
-- generated ids are keys of the table of transactions.
pub return_by_key_fails :
    (k : Key) (r : RailState)
    → ((void (TxnRef.of_key k) r).0 ≡ r)
      × ((void (TxnRef.of_key k) r).1.status ≡ RailStatus.failed)
      × ((refund (TxnRef.of_key k) r).0 ≡ r)
      × ((refund (TxnRef.of_key k) r).1.status ≡ RailStatus.failed)
unfolding void refund
return_by_key_fails k r = ground (arith, get_txn-of_key k r.transactions)
