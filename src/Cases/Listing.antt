-- ===== src/Cases/Listing.antt =====
-- The list of cases of api/reconciliation_routes.py, against the access check of a single case.
use resolver_ai.Prelude.{
  ◌≡◌, refl, sym, ap, ◌∙◌, Bool, true, false, ◌&&◌, ◌||◌, not, Option, List, [], ◌∷◌, filter,
  if◌then◌else◌, Text, truthy,
}
use resolver_ai.Store.{Case}
use resolver_ai.Access.{Claims, is_admin, same_merchant, verify_merchant_access}
use resolver_ai.Cases.{has_status, asked, list_cases}

-- a case that the list is asked for: any, or one with the given status
abbrev pub wanted : Option Text → Case → Bool
wanted status k = not (truthy status) || has_status (asked status) k

abbrev pub visible : Claims → Option Text → Case → Bool
visible user status k = verify_merchant_access user k.merchant_id && wanted status k

filter-same :
    (p q : Case → Bool) (cs : List Case) → ((k : Case) → p k ≡ q k) → filter p cs ≡ filter q cs
filter-same p q [] h = refl
filter-same p q (k ∷ ks) h = rw (h k, filter-same p q ks h) refl

or_assoc : (a b c : Bool) → ((a || b) || c) ≡ (a || b || c)
or_assoc true b c = refl
or_assoc false b c = refl

and_true : (a : Bool) → a ≡ (a && true)
and_true true = refl
and_true false = refl

filter-true : (cs : List Case) → filter (λ k. true) cs ≡ cs
filter-true [] = refl
filter-true (k ∷ ks) = rw (filter-true ks) refl

-- The four queries, by what decides between them.
by_query : Bool → Bool → (Case → Bool) → (Case → Bool) → List Case → List Case
by_query everything one_status own has cs =
    if everything
    then if one_status then filter has cs else cs
    else if one_status
    then filter (λ k. own k && has k) cs
    else filter own cs

by_query-filter :
    (everything one_status : Bool) (own has : Case → Bool) (cs : List Case)
    → by_query everything one_status own has cs
      ≡ filter (λ k. (everything || own k) && (not one_status || has k)) cs
unfolding by_query
by_query-filter true true own has cs = refl
by_query-filter true false own has cs = sym (filter-true cs)
by_query-filter false true own has cs = refl
by_query-filter false false own has cs =
    filter-same own (λ k. own k && true) cs (λ k. and_true (own k))

-- The list shows exactly the cases that the caller may open one by one, of the status that is asked
-- for, in the order of the table: no case of another merchant, and none of the caller's is left out.
pub list_cases-visible :
    (user : Claims) (status : Option Text) (cs : List Case)
    → list_cases user status cs ≡ filter (visible user status) cs
unfolding list_cases by_query verify_merchant_access
list_cases-visible user status cs =
    by_query-filter (is_admin user.role || not (truthy user.merchant_id)) (truthy status)
      (λ k. same_merchant user.merchant_id k.merchant_id) (has_status (asked status)) cs
    ∙ filter-same _ (visible user status) cs (λ k.
      ap (λ b. b && wanted status k)
        (or_assoc (is_admin user.role) (not (truthy user.merchant_id))
          (same_merchant user.merchant_id k.merchant_id)))
