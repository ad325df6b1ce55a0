-- ===== src/Payments.antt =====
-- api/payment_routes.py, `list_payments` of api/dashboard_routes.py and `verify_payment_with_razorpay`
-- of api/razorpay_verify_routes.py: the reads of payment intents and the reconciliation on demand. A
-- request comes with the claims that `require_permission` has let through, but for the verification,
-- which is given the header; `none` for an id is the ValueError of `uuid.UUID`.
pub mod Pages
pub mod Tenants
use resolver_ai.Prelude.{
  ℕ, zero, suc, Bool, true, false, ◌&&◌, ◌||◌, Option, none, some, List, [], ◌∷◌, filter, length,
  ltb, ◌==◌, if◌then◌else◌, Text, codes, text_eq, truthy,
}
use resolver_ai.StateMachine.{StateName, valid, invalid}
use resolver_ai.Domain.{PaymentState, same_state}
use resolver_ai.Schemas.{Payment}
use resolver_ai.Provider.{Api, ok, api_error, crash, Provider}
use resolver_ai.Store.{Intent, Execution, Evidence, Event, Audit, Db, get_intent, executions_of}
use resolver_ai.Ledger.{Totals, ℤ, evidence_of, get_financial_summary}
use resolver_ai.Access.{
  Claims, Codec, Guarded, allowed, missing_token, invalid_token, insufficient, require_permission,
  verify_merchant_access,
}
use resolver_ai.Resolver.{resolve}
use resolver_ai.Resolver.Setting.{Env, World, Response}

-- what an operation on one intent answers
pub data Shown (A : Type 0) : Type 0 where
  bad_request not_found forbidden : Shown A
  shown : A → Shown A

abbrev pub guard_row : {A : Type 0} → Claims → (Intent → A) → Option Intent → Shown A
guard_row user f none = not_found
guard_row user f (some r) =
    if verify_merchant_access user r.merchant_id then shown (f r) else forbidden

abbrev pub guard : {A : Type 0} → Claims → List Intent → (Intent → A) → Option ℕ → Shown A
guard user rs f none = bad_request
guard user rs f (some id) = guard_row user f (get_intent id rs)

-- `get_payment_intent`
unfoldable pub get_payment_intent : Claims → Option ℕ → Db → Shown Intent
get_payment_intent user id db = guard user db.intents (λ r. r) id

-- the rows of an intent, here with the latest first
pub record Timeline : Type 0 where
  pub intent : Intent
  pub events : List Event
  pub evidence : List Evidence
  pub executions : List Execution

unfoldable pub timeline_of : Db → Intent → Timeline
timeline_of db r = record {
  intent = r;
  events = filter (λ e. e.intent == r.id) db.events;
  evidence = evidence_of r.id db.evidence;
  executions = executions_of r.id db.executions;
}

-- `get_payment_timeline`
unfoldable pub get_payment_timeline : Claims → Option ℕ → Db → Shown Timeline
get_payment_timeline user id db = guard user db.intents (timeline_of db) id

-- `get_payment_evidence`
unfoldable pub get_payment_evidence : Claims → Option ℕ → Db → Shown (List Evidence)
get_payment_evidence user id db = guard user db.intents (λ r. evidence_of r.id db.evidence) id

pub record Investigation : Type 0 where
  pub timeline : Timeline
  pub is_linked : Bool
  pub financial_effects : Totals × ℤ

unfoldable pub investigation_of : Db → Intent → Investigation
investigation_of db r = record {
  timeline = timeline_of db r;
  is_linked = truthy r.razorpay_order_id || truthy r.active_payment_id;
  financial_effects = get_financial_summary r.id db.evidence;
}

-- `get_payment_investigation`
unfoldable pub get_payment_investigation : Claims → Option ℕ → Db → Shown Investigation
get_payment_investigation user id db = guard user db.intents (investigation_of db) id

abbrev pub run_if : Env → World → Shown Intent → World × Shown Response
run_if env w bad_request = (w, bad_request)
run_if env w not_found = (w, not_found)
run_if env w forbidden = (w, forbidden)
run_if env w (shown r) = let (w', x) = resolve env r.id w in (w', shown x)

-- `reconcile_payment` and `resolve_payment`
unfoldable pub reconcile_payment : Env → Claims → Option ℕ → World → World × Shown Response
reconcile_payment env user id w = run_if env w (guard user w.db.intents (λ r. r) id)

-- the filters of `list_payments`; the status is in capitals
pub record Filters : Type 0 where
  pub status : Option StateName
  pub razorpay_order_id : Option Text
  pub active_payment_id : Option Text

abbrev pub has_state : StateName → PaymentState → Bool
has_state (valid s) t = same_state s t
has_state (invalid _) t = false

abbrev pub by_status : Option StateName → Intent → Bool
by_status none r = true
by_status (some s) r = has_state s r.current_state

abbrev pub column_is : Option Text → Text → Bool
column_is none t = false
column_is (some s) t = text_eq s t

-- `column = $n`, if the filter is given
abbrev pub by_column : Option Text → Option Text → Bool
by_column none column = true
by_column (some t) column = if truthy (some t) then column_is column t else true

unfoldable pub is_listed : Filters → Intent → Bool
is_listed f r =
    by_status f.status r
    && by_column f.razorpay_order_id r.razorpay_order_id
    && by_column f.active_payment_id r.active_payment_id

-- `ORDER BY updated_at DESC`
unfoldable pub insert_by_time : Intent → List Intent → List Intent
insert_by_time r [] = r ∷ []
insert_by_time r (x ∷ xs) =
    let rest = insert_by_time r xs in if ltb r.updated_at x.updated_at then x ∷ rest else r ∷ x ∷ xs

unfoldable pub by_time : List Intent → List Intent
by_time [] = []
by_time (r ∷ rs) = insert_by_time r (by_time rs)

-- `LIMIT` and `OFFSET`
unfoldable pub limited : ℕ → List Intent → List Intent
limited zero rs = []
limited (suc n) [] = []
limited (suc n) (r ∷ rs) = r ∷ limited n rs

unfoldable pub after_offset : ℕ → List Intent → List Intent
after_offset zero rs = rs
after_offset (suc n) [] = []
after_offset (suc n) (r ∷ rs) = after_offset n rs

-- `list_payments`: the page and the total
unfoldable pub list_payments : Filters → ℕ → ℕ → List Intent → List Intent × ℕ
list_payments f limit offset rs =
    let found = filter (is_listed f) rs in
    (limited limit (after_offset offset (by_time found)), length found)

-- what `verify_payment_with_razorpay` answers
pub data Verified : Type 0 where
  unauthorized lacks_permission bad_id no_intent provider_failed unhandled : Verified
  unconfigured unlinked : Intent → Verified
  order_snapshot : Intent → List Payment → Verified
  payment_snapshot : Intent → Option Payment → Verified

abbrev pub from_order : Db → Intent → Api (List Payment) → Db × Verified
from_order db r (ok ps) = (db, order_snapshot r ps)
from_order db r api_error = (db, provider_failed)
from_order db r crash = (db, unhandled)

abbrev pub from_payment : Db → Intent → Api (Option Payment) → Db × Verified
from_payment db r (ok p) =
    (record db { audits = Audit.provider_verified r.id ∷ db.audits }, payment_snapshot r p)
from_payment db r api_error = (db, provider_failed)
from_payment db r crash = (db, unhandled)

abbrev pub by_order : World → Provider → Intent → Option Text → Db × Verified
by_order w p r none = (w.db, unlinked r)
by_order w p r (some o) =
    if truthy (some o)
    then from_order w.db r (p.get_order_payments w.outside.sent o)
    else (w.db, unlinked r)

abbrev pub by_payment : World → Provider → Intent → Option Text → Db × Verified
by_payment w p r none = by_order w p r r.razorpay_order_id
by_payment w p r (some id) =
    if truthy (some id)
    then from_payment w.db r (p.get_payment w.outside.sent id)
    else by_order w p r r.razorpay_order_id

abbrev pub verify_found : Bool → World → Provider → Option Intent → Db × Verified
verify_found configured w p none = (w.db, no_intent)
verify_found configured w p (some r) =
    if configured then by_payment w p r r.active_payment_id else (w.db, unconfigured r)

abbrev pub verify_id : Bool → World → Provider → Option ℕ → Db × Verified
verify_id configured w p none = (w.db, bad_id)
verify_id configured w p (some id) = verify_found configured w p (get_intent id w.db.intents)

-- the claims are not used but for the permission
abbrev pub verify_if : Bool → World → Provider → Option ℕ → Guarded Claims → Db × Verified
verify_if configured w p id (allowed user) = verify_id configured w p id
verify_if configured w p id missing_token = (w.db, unauthorized)
verify_if configured w p id invalid_token = (w.db, unauthorized)
verify_if configured w p id insufficient = (w.db, lacks_permission)

-- `verify_payment_with_razorpay`; `configured` says that both keys are set and the mode is not SYNTHETIC
unfoldable pub verify_payment_with_razorpay :
    Codec → ℕ → Option Text → Bool → World → Provider → Option ℕ → Db × Verified
verify_payment_with_razorpay k now authorization configured w p id =
    verify_if configured w p id
      (require_permission k now (codes "write:verify_razorpay") authorization)
