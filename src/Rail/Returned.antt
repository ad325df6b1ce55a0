-- ===== src/Rail/Returned.antt =====
-- Sequences of calls of the rail of chaos_lab/simulator.py, and the returns of one transaction in them.
use resolver_ai.Prelude.{
  ℕ, ◌≡◌, Bool, true, false, ◌||◌, Option, some, List, [], ◌∷◌, ◌++◌, any, arith, Bool-cases,
  Option-cases, inl, inr, if◌then◌else◌, Text, codes, text_eq, text_eq_iff,
}
use resolver_ai.Schemas.{Key}
use resolver_ai.Rail.{
  RailStatus, ChaosMode, TxnRef, Txn, RailState, RailResult, add_key, add_txn, authorize_new,
  authorize, get_txn, set_status, is_capturable, is_voidable, is_refundable, update_txn, capture,
  void, refund,
}

-- the money of a transaction has gone back
abbrev pub is_returned : RailStatus → Bool
is_returned RailStatus.voided = true
is_returned RailStatus.refunded = true
is_returned _ = false

unfoldable pub returned : Text → List Txn → Bool
returned id [] = false
returned id (x ∷ xs) =
    let rest = returned id xs in if text_eq id x.id then is_returned x.status else rest

-- one call of the rail, by any caller
pub data Call : Type 0 where
  to_authorize : Option ChaosMode → Bool → Text → ℕ → Key → Call
  to_capture to_void to_refund : TxnRef → Call

unfoldable pub step : Call → RailState → RailState × RailResult
step (to_authorize m lucky hex a k) r = authorize m lucky hex a k r
step (to_capture t) r = capture t r
step (to_void t) r = void t r
step (to_refund t) r = refund t r

unfoldable pub run : List Call → RailState → RailState
run [] r = r
run (c ∷ cs) r = run cs (step c r).0

-- the id that a call would generate is this one
abbrev pub mints : Text → Call → Bool
mints id (to_authorize m lucky hex a k) =
    text_eq id (codes "LATE_" ++ hex)
    || text_eq id (codes "DUP_" ++ hex)
    || text_eq id (codes "TXN_" ++ hex)
mints id _ = false

-- a guard that refuses every status under which money has gone back
abbrev Refuses : (RailStatus → Bool) → Type 0
Refuses may = (s : RailStatus) → is_returned s ≡ true → may s ≡ false

set_status-returned :
    (may : RailStatus → Bool) (new : RailStatus) (id : Text) (t : TxnRef) (x : Txn) (xs : List Txn)
    → Refuses may
    → get_txn t xs ≡ some x
    → may x.status ≡ true
    → returned id xs ≡ true
    → returned id (set_status t new xs) ≡ true
unfolding get_txn set_status returned
set_status-returned may new id t x [] refuses e ok h = h
set_status-returned may new id (TxnRef.of_key k) x (y ∷ ys) refuses e ok h =
    ground (arith, set_status-returned may new id (TxnRef.of_key k) x ys refuses)
set_status-returned may new id (TxnRef.generated u) x (y ∷ ys) refuses e ok h = ground (
  arith,
  set_status-returned may new id (TxnRef.generated u) x ys refuses,
  text_eq_iff u y.id,
  text_eq_iff id y.id,
  refuses y.status,
)

update_txn-returned :
    (may : RailStatus → Bool) (new answer : RailStatus) (id : Text) (t : TxnRef) (r : RailState)
    → Refuses may
    → returned id r.transactions ≡ true
    → returned id (update_txn may new answer t r).0.transactions ≡ true
unfolding update_txn
update_txn-returned may new answer id t r refuses h =
    elim (Option-cases (get_txn t r.transactions)) [
      | inl e ↦ ground arith
      | inr (x, e) ↦ ground (arith, set_status-returned may new id t x r.transactions refuses e)
    ]

authorize-returned :
    (id : Text) (m : Option ChaosMode) (lucky : Bool) (hex : Text) (a : ℕ) (k : Key) (r : RailState)
    → mints id (to_authorize m lucky hex a k) ≡ false
    → returned id r.transactions ≡ true
    → returned id (authorize m lucky hex a k r).0.transactions ≡ true
unfolding authorize authorize_new add_txn add_key returned
authorize-returned id m lucky hex a k r fresh h = ground arith

step-returned :
    (id : Text) (c : Call) (r : RailState)
    → mints id c ≡ false
    → returned id r.transactions ≡ true
    → returned id (step c r).0.transactions ≡ true
unfolding step capture void refund
step-returned id (to_authorize m lucky hex a k) r fresh h =
    authorize-returned id m lucky hex a k r fresh h
step-returned id (to_capture t) r fresh h =
    update_txn-returned is_capturable _ _ id t r (λ s e. ground arith) h
step-returned id (to_void t) r fresh h =
    update_txn-returned is_voidable _ _ id t r (λ s e. ground arith) h
step-returned id (to_refund t) r fresh h =
    update_txn-returned is_refundable _ _ id t r (λ s e. ground arith) h

-- Once a transaction is voided or refunded it stays so through any calls, if no call generates its
-- id anew.
run-returned :
    (id : Text) (cs : List Call) (r : RailState)
    → any (mints id) cs ≡ false
    → returned id r.transactions ≡ true
    → returned id (run cs r).transactions ≡ true
unfolding run
run-returned id [] r fresh h = h
run-returned id (c ∷ cs) r fresh h =
    run-returned id cs (step c r).0 (ground arith) (step-returned id c r (ground arith) h)

-- In a state where it has been returned, both ways of returning it again fail.
get_txn-returned :
    (id : Text) (xs : List Txn)
    → returned id xs ≡ true
    → (x : Txn) × (get_txn (TxnRef.generated id) xs ≡ some x) × (is_returned x.status ≡ true)
unfolding get_txn returned
get_txn-returned id [] h = cc
get_txn-returned id (x ∷ xs) h = elim (Bool-cases (text_eq id x.id)) [
  | inl p ↦ (x, ground arith, ground arith)
  | inr q ↦ let (y, e, s) = get_txn-returned id xs (ground arith) in (y, ground arith, s)
]

-- Whatever calls follow the return of a transaction, a later void and a later refund of it both
-- fail, if no call between generates its id anew.
pub returned_once :
    (id : Text) (cs : List Call) (r : RailState)
    → any (mints id) cs ≡ false
    → returned id r.transactions ≡ true
    → ((void (TxnRef.generated id) (run cs r)).1.status ≡ RailStatus.failed)
      × ((refund (TxnRef.generated id) (run cs r)).1.status ≡ RailStatus.failed)
unfolding void refund
returned_once id cs r fresh h =
    let (x, e, s) = get_txn-returned id (run cs r).transactions (run-returned id cs r fresh h) in
    ground arith
