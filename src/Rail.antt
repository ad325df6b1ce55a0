-- ===== src/Rail.antt =====
-- chaos_lab/simulator.py and chaos_lab/base.py: the synthetic rail. `_processed_keys` and
-- `_transactions` are class attributes, so one state serves all instances. The generated part of a
-- transaction id and the outcome of `self._rng.random() < self.success_rate` are arguments.
pub mod Idempotent
pub mod Returned
use resolver_ai.Prelude.{
  ℕ, Bool, true, false, Option, none, some, List, [], ◌∷◌, any, ◌==◌, ◌&&◌, if◌then◌else◌, Text,
  codes, text_eq, ◌++◌,
}
use resolver_ai.Schemas.{Key}

pub data RailStatus : Type 0 where
  success captured failed unknown voided refunded duplicate not_found : RailStatus

pub data ChaosMode : Type 0 where
  timeout late_auth duplicate : ChaosMode

-- A key of `_transactions`. A generated id begins with LATE_, DUP_ or TXN_, and so is never the
-- text of an idempotency key, which the executor passes to `void` and `refund`.
pub data TxnRef : Type 0 where
  generated : Text → TxnRef
  of_key : Key → TxnRef

pub record Txn : Type 0 where
  pub id : Text
  pub status : RailStatus
  pub amount : ℕ

pub record RailState : Type 0 where
  pub processed_keys : List Key
  pub transactions : List Txn

-- the dictionary that an operation returns
pub record RailResult : Type 0 where
  pub status : RailStatus
  pub txn_id : Option Text

unfoldable pub key_eq : Key → Key → Bool
key_eq (Key.idem a v) (Key.idem b w) = a == b && v == w
key_eq (Key.idem_replay a) (Key.idem_replay b) = a == b
key_eq (Key.exec a) (Key.exec b) = a == b
key_eq (Key.outbox_evt s) (Key.outbox_evt t) = text_eq s t
key_eq (Key.outbox_checkout s) (Key.outbox_checkout t) = text_eq s t
key_eq (Key.outbox_failure s) (Key.outbox_failure t) = text_eq s t
key_eq _ _ = false

unfoldable pub is_processed : Key → RailState → Bool
unfolding key_eq
is_processed k r = any (key_eq k) r.processed_keys

-- `_processed_keys.add(key)`, and `_transactions[id] = {…}` for an id not used before
unfoldable pub add_key : Key → RailState → RailState
add_key k r = record r { processed_keys = k ∷ r.processed_keys }

unfoldable pub add_txn : Text → RailStatus → ℕ → RailState → RailState
add_txn id s amount r = record r {
  transactions = (record { id = id; status = s; amount = amount }) ∷ r.transactions;
}

abbrev reply : RailStatus → Option Text → RailResult
reply s id = record { status = s; txn_id = id }

-- what `authorize` does with a key that is new
unfoldable pub authorize_new :
    Option ChaosMode → Bool → Text → ℕ → Key → RailState → RailState × RailResult
unfolding add_key add_txn
authorize_new (some ChaosMode.timeout) lucky hex amount k r =
    (add_key k r, reply RailStatus.unknown none)
authorize_new (some ChaosMode.late_auth) lucky hex amount k r =
    let id = codes "LATE_" ++ hex in
    (add_txn id RailStatus.success amount (add_key k r), reply RailStatus.success (some id))
authorize_new (some ChaosMode.duplicate) lucky hex amount k r =
    let id = codes "DUP_" ++ hex in
    (add_txn id RailStatus.duplicate amount (add_key k r), reply RailStatus.duplicate (some id))
authorize_new none lucky hex amount k r =
    let id = codes "TXN_" ++ hex in
    if lucky
    then (add_txn id RailStatus.success amount (add_key k r), reply RailStatus.success (some id))
    else (add_key k r, reply RailStatus.failed none)

unfoldable pub authorize :
    Option ChaosMode → Bool → Text → ℕ → Key → RailState → RailState × RailResult
authorize mode lucky hex amount k r =
    if is_processed k r
    then (r, reply RailStatus.duplicate none)
    else authorize_new mode lucky hex amount k r

abbrev same_ref : TxnRef → Txn → Bool
same_ref (TxnRef.generated t) x = text_eq t x.id
same_ref (TxnRef.of_key _) x = false

-- `_transactions.get(external_txn_id)`
unfoldable pub get_txn : TxnRef → List Txn → Option Txn
get_txn t [] = none
get_txn t (x ∷ xs) = let rest = get_txn t xs in if same_ref t x then some x else rest

-- `txn["status"] = s`
unfoldable pub set_status : TxnRef → RailStatus → List Txn → List Txn
set_status t s [] = []
set_status t s (x ∷ xs) =
    let rest = set_status t s xs in
    if same_ref t x then (record x { status = s }) ∷ xs else x ∷ rest

abbrev pub is_capturable : RailStatus → Bool
is_capturable RailStatus.success = true
is_capturable _ = false

abbrev pub is_voidable : RailStatus → Bool
is_voidable RailStatus.success = true
is_voidable RailStatus.captured = true
is_voidable RailStatus.duplicate = true
is_voidable _ = false

abbrev pub is_refundable : RailStatus → Bool
is_refundable RailStatus.captured = true
is_refundable RailStatus.success = true
is_refundable _ = false

-- the common shape of `capture`, `void` and `refund`: a guard on the status, a write, a reply
unfoldable pub update_txn :
    (RailStatus → Bool) → RailStatus → RailStatus → TxnRef → RailState → RailState × RailResult
unfolding get_txn set_status
update_txn may new answer t r = elim (get_txn t r.transactions) [
  | none ↦ (r, reply RailStatus.failed none)
  | some x ↦
      if may x.status
      then (record r { transactions = set_status t new r.transactions }, reply answer none)
      else (r, reply RailStatus.failed none)
]

unfoldable pub capture : TxnRef → RailState → RailState × RailResult
unfolding update_txn
capture = update_txn is_capturable RailStatus.captured RailStatus.success

unfoldable pub void : TxnRef → RailState → RailState × RailResult
unfolding update_txn
void = update_txn is_voidable RailStatus.voided RailStatus.voided

unfoldable pub refund : TxnRef → RailState → RailState × RailResult
unfolding update_txn
refund = update_txn is_refundable RailStatus.refunded RailStatus.refunded

unfoldable pub status : TxnRef → RailState → RailStatus
unfolding get_txn
status t r = elim (get_txn t r.transactions) [ none ↦ RailStatus.not_found | some x ↦ x.status ]
