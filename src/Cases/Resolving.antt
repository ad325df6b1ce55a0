-- ===== src/Cases/Resolving.antt =====
-- The manual resolution of a case in api/reconciliation_routes.py.
use resolver_ai.Prelude.{
  ℕ, ◌≡◌, refl, sym, ap, subst, ◌∙◌, if◌then◌else◌, codes, inl, inr, true, ◌&&◌, Option, none, some,
  List, [], ◌∷◌, any, Text, text_eq, truthy, arith, Bool-cases,
}
use resolver_ai.Domain.{PaymentState}
use resolver_ai.StateMachine.{is_terminal}
use resolver_ai.Store.{Intent, Resolution, Case, Db, get_intent}
use resolver_ai.Store.Laws.{get_intent-update_self, get_intent-id}
use resolver_ai.Access.{Claims, verify_merchant_access}
use resolver_ai.Resolver.{resolve}
use resolver_ai.Resolver.Progress.{terminal_untouched}
use resolver_ai.Resolver.Setting.{Env, World}
use resolver_ai.Cases.{
  ManualResolve, CaseAnswer, find_case, update_case, settling_actions, state_for, settle_intent,
  close_case, settle_case, resolve_row, resolve_id, manual_resolve_case,
}

find_case-update :
    (f : Case → Case) (id : ℕ) (cs : List Case) (k : Case)
    → ((k : Case) → (f k).id ≡ k.id)
    → find_case id cs ≡ some k
    → find_case id (update_case id f cs) ≡ some (f k)
unfolding find_case update_case
find_case-update f id [] k keeps h = cc
find_case-update f id (x ∷ cs) k keeps h = ground (arith, keeps x, find_case-update f id cs k keeps)

find_case-id : (id : ℕ) (cs : List Case) (k : Case) → find_case id cs ≡ some k → k.id ≡ id
unfolding find_case
find_case-id id [] k h = cc
find_case-id id (x ∷ cs) k h = ground (arith, find_case-id id cs k)

-- What stands behind an answer: a resolved case is on record, the caller may see it and the case is
-- closed by the operator of the request; every other answer leaves the database alone.
abbrev pub Closed : Claims → ManualResolve → Db → Db × CaseAnswer → Type 0
Closed user req db (db', CaseAnswer.resolved id intent) =
    (k : Case) × (find_case id db.cases ≡ some k)
    × (k.intent ≡ intent)
    × (verify_merchant_access user k.merchant_id ≡ true)
    × (find_case id db'.cases ≡ some (close_case req.operator_id k))
    × (db'.executions ≡ db.executions)
    × (db'.evidence ≡ db.evidence)
Closed user req db (db', CaseAnswer.bad_request) = db' ≡ db
Closed user req db (db', CaseAnswer.not_found) = db' ≡ db
Closed user req db (db', CaseAnswer.forbidden) = db' ≡ db
Closed user req db (db', CaseAnswer.shown k) = ⊥

closed_id : (operator : Text) (k : Case) → (close_case operator k).id ≡ k.id
unfolding close_case
closed_id operator k = refl

module _ (user : Claims) (req : ManualResolve) (now : ℕ) (db : Db) where
  resolve_row-Closed :
      (id : ℕ) (o : Option Case)
      → find_case id db.cases ≡ o
      → Closed user req db (resolve_row user req now db o)
  unfolding settle_case
  resolve_row-Closed id none h = refl
  resolve_row-Closed id (some k) h =
      let own : find_case k.id db.cases ≡ some k =
        subst (λ i. find_case i db.cases ≡ some k) (sym (find_case-id id db.cases k h)) h in
      elim (Bool-cases (verify_merchant_access user k.merchant_id)) [
        | inl e ↦ rw e (
          k,
          own,
          refl,
          e,
          find_case-update (close_case req.operator_id) k.id db.cases k (closed_id req.operator_id)
              own,
          refl,
          refl,
        )
        | inr e ↦ rw e refl
      ]

  resolve_id-Closed : (o : Option ℕ) → Closed user req db (resolve_id user req now db o)
  resolve_id-Closed none = refl
  resolve_id-Closed (some id) =
      elim (Bool-cases (truthy (some req.operator_id) && truthy (some req.resolution_notes))) [
        | inl e ↦ rw e (resolve_row-Closed id (find_case id db.cases) refl)
        | inr e ↦ rw e refl
      ]

  -- A manual resolution that succeeds closes a case that is on record and that the caller may see,
  -- names the operator on it, and adds neither an execution nor evidence. One that is refused, for a
  -- missing operator or note, an unknown case or another merchant, leaves the database as it was.
  pub manual_resolve-Closed :
      (id : Option ℕ) → Closed user req db (manual_resolve_case user id req now db)
  unfolding manual_resolve_case
  manual_resolve-Closed id = resolve_id-Closed id

state_for-terminal : (action : Text) → is_terminal (state_for action) ≡ true
unfolding is_terminal
state_for-terminal action = elim (Bool-cases (any (text_eq action) settling_actions)) [
  | inl e ↦ rw e refl
  | inr e ↦ rw e refl
]

settled_id :
    (req : ManualResolve) (now : ℕ) (r : Intent)
    → (settle_intent (state_for req.action) now r).id ≡ r.id
unfolding settle_intent
settled_id req now r = refl

settled_terminal :
    (req : ManualResolve) (now : ℕ) (r : Intent)
    → is_terminal (settle_intent (state_for req.action) now r).current_state ≡ true
unfolding settle_intent
settled_terminal req now r = state_for-terminal req.action

settle_case-row :
    (req : ManualResolve) (now : ℕ) (db : Db) (k : Case) (r : Intent)
    → get_intent k.intent db.intents ≡ some r
    → get_intent k.intent (settle_case req now k db).intents
      ≡ some (settle_intent (state_for req.action) now r)
unfolding settle_case
settle_case-row req now db k r keyed =
    get_intent-update_self k.intent (settle_intent (state_for req.action) now) db.intents r
      (settled_id req now r ∙ get_intent-id k.intent db.intents r keyed) keyed

-- the row after a resolution by an action
abbrev pub settled_by : Text → ℕ → Intent → Intent
settled_by action now r = record r {
  current_state =
      if text_eq action (codes "CAPTURE")
      then PaymentState.reconciled
      else if text_eq action (codes "REFUND")
      then PaymentState.reconciled
      else if text_eq action (codes "CLOSE")
      then PaymentState.reconciled
      else PaymentState.manual_review;
  resolution = Resolution.resolved;
  updated_at = now;
}

settle_intent-by :
    (action : Text) (now : ℕ) (r : Intent)
    → settle_intent (state_for action) now r ≡ settled_by action now r
unfolding settle_intent
settle_intent-by action now r = elim (Bool-cases (text_eq action (codes "CAPTURE"))) [
  | inl e ↦ rw e refl
  | inr e ↦ rw e (elim (Bool-cases (text_eq action (codes "REFUND"))) [
    | inl e ↦ rw e refl
    | inr e ↦ rw e (elim (Bool-cases (text_eq action (codes "CLOSE"))) [
      | inl e ↦ rw e refl
      | inr e ↦ rw e refl
    ])
  ])
]

-- A manual resolution with operator and note, of a case on record that the caller may see, sets the
-- intent of the case, if that is on record, to RECONCILED for the actions CAPTURE, REFUND and CLOSE and
-- to MANUAL_REVIEW for any other, whatever its state was, and adds no execution. As long as the row
-- stays as it is, a run of the resolver on it finds a terminal state and leaves the database and the
-- outside alone, so that the named action is not carried out.
pub manual_resolution_is_final :
    (user : Claims) (req : ManualResolve) (now id : ℕ) (db : Db) (k : Case) (r : Intent)
    → find_case id db.cases ≡ some k
    → get_intent k.intent db.intents ≡ some r
    → verify_merchant_access user k.merchant_id ≡ true
    → truthy (some req.operator_id) && truthy (some req.resolution_notes) ≡ true
    → (env : Env) (w : World)
    → get_intent k.intent w.db.intents
      ≡ get_intent k.intent (manual_resolve_case user (some id) req now db).0.intents
    → let db' = (manual_resolve_case user (some id) req now db).0 in
      (get_intent k.intent db'.intents ≡ some (settled_by req.action now r))
      × (db'.executions ≡ db.executions)
      × ((resolve env k.intent w).0.db ≡ w.db)
      × ((resolve env k.intent w).0.outside ≡ w.outside)
unfolding manual_resolve_case settle_case
manual_resolution_is_final user req now id db k r found keyed access given env w untouched =
    let settled : (manual_resolve_case user (some id) req now db).0 ≡ settle_case req now k db =
      rw (given, found, access) refl in
    let row = settle_intent (state_for req.action) now r in
    let stored : get_intent k.intent (manual_resolve_case user (some id) req now db).0.intents
        ≡ some row =
      rw settled (settle_case-row req now db k r keyed) in
    let same : row.id ≡ k.intent =
      settled_id req now r ∙ get_intent-id k.intent db.intents r keyed in
    let (db_same, outside_same) =
      subst (λ i. ((resolve env i w).0.db ≡ w.db) × ((resolve env i w).0.outside ≡ w.outside)) same
        (terminal_untouched env row w
          (subst (λ i. get_intent i w.db.intents ≡ some row) (sym same) (untouched ∙ stored))
          (settled_terminal req now r)) in
    (
      stored ∙ ap some (settle_intent-by req.action now r),
      ap (λ x. x.executions) settled,
      db_same,
      outside_same,
    )
