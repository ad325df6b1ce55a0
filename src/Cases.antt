-- ===== src/Cases.antt =====
-- api/reconciliation_routes.py: the cases for operators. A request comes with the claims that
-- `require_permission` has let through; the parse of a uuid is the caller's, `none` is the ValueError.
pub mod Listing
pub mod Resolving
use resolver_ai.Prelude.{
  ℕ, Bool, ◌&&◌, ◌||◌, not, Option, none, some, List, [], ◌∷◌, any, filter, find, ◌==◌,
  if◌then◌else◌, Text, codes, text_eq, truthy, upper,
}
use resolver_ai.Domain.{PaymentState, CaseStatus}
use resolver_ai.Store.{Intent, Resolution, Case, Audit, Db, update_intent}
use resolver_ai.Access.{Claims, is_admin, same_merchant, verify_merchant_access}

abbrev pub status_name : CaseStatus → Text
status_name CaseStatus.opened = codes "OPEN"
status_name CaseStatus.in_progress = codes "IN_PROGRESS"
status_name CaseStatus.resolved = codes "RESOLVED"
status_name CaseStatus.closed = codes "CLOSED"

abbrev pub has_status : Text → Case → Bool
has_status s k = text_eq (upper s) (status_name k.status)

abbrev pub asked : Option Text → Text
asked none = []
asked (some s) = s

-- `list_cases`: four queries, the latest case first
unfoldable pub list_cases : Claims → Option Text → List Case → List Case
list_cases user status cs =
    if is_admin user.role || not (truthy user.merchant_id)
    then if truthy status then filter (has_status (asked status)) cs else cs
    else if truthy status
    then filter (λ k. same_merchant user.merchant_id k.merchant_id && has_status (asked status) k)
        cs
    else filter (λ k. same_merchant user.merchant_id k.merchant_id) cs

unfoldable pub find_case : ℕ → List Case → Option Case
find_case id cs = find (λ k. k.id == id) cs

unfoldable pub update_case : ℕ → (Case → Case) → List Case → List Case
update_case id f [] = []
update_case id f (k ∷ ks) =
    let rest = update_case id f ks in if k.id == id then f k ∷ rest else k ∷ rest

pub record ManualResolve : Type 0 where
  pub operator_id : Text
  pub resolution_notes : Text
  pub action : Text

pub data CaseAnswer : Type 0 where
  bad_request not_found forbidden : CaseAnswer
  shown : Case → CaseAnswer
  resolved : ℕ → ℕ → CaseAnswer

abbrev pub show_row : Claims → Option Case → CaseAnswer
show_row user none = not_found
show_row user (some k) = if verify_merchant_access user k.merchant_id then shown k else forbidden

abbrev pub show_id : Claims → List Case → Option ℕ → CaseAnswer
show_id user cs none = bad_request
show_id user cs (some id) = show_row user (find_case id cs)

-- `get_case`
unfoldable pub get_case : Claims → Option ℕ → List Case → CaseAnswer
get_case user id cs = show_id user cs id

abbrev pub settling_actions : List Text
settling_actions = codes "CAPTURE" ∷ codes "REFUND" ∷ codes "CLOSE" ∷ []

abbrev pub state_for : Text → PaymentState
state_for action =
    if any (text_eq action) settling_actions
    then PaymentState.reconciled
    else PaymentState.manual_review

unfoldable pub settle_intent : PaymentState → ℕ → Intent → Intent
settle_intent s now r = record r {
  current_state = s;
  resolution = Resolution.resolved;
  updated_at = now;
}

unfoldable pub close_case : Text → Case → Case
close_case operator k = record k { status = CaseStatus.resolved; assigned_operator = some operator }

unfoldable pub settle_case : ManualResolve → ℕ → Case → Db → Db
settle_case req now k db = record db {
  cases = update_case k.id (close_case req.operator_id) db.cases;
  intents = update_intent k.intent (settle_intent (state_for req.action) now) db.intents;
  audits = Audit.case_resolved k.id req.operator_id ∷ db.audits;
}

abbrev pub resolve_row : Claims → ManualResolve → ℕ → Db → Option Case → Db × CaseAnswer
resolve_row user req now db none = (db, not_found)
resolve_row user req now db (some k) =
    if verify_merchant_access user k.merchant_id
    then (settle_case req now k db, resolved k.id k.intent)
    else (db, forbidden)

abbrev pub resolve_id : Claims → ManualResolve → ℕ → Db → Option ℕ → Db × CaseAnswer
resolve_id user req now db none = (db, bad_request)
resolve_id user req now db (some id) =
    if truthy (some req.operator_id) && truthy (some req.resolution_notes)
    then resolve_row user req now db (find_case id db.cases)
    else (db, bad_request)

-- `manual_resolve_case`
unfoldable pub manual_resolve_case : Claims → Option ℕ → ManualResolve → ℕ → Db → Db × CaseAnswer
manual_resolve_case user id req now db = resolve_id user req now db id
