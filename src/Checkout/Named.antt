-- ===== src/Checkout/Named.antt =====
-- The row that a callback of api/orders_routes.py names, before and after an update of that row.
use resolver_ai.Prelude.{
  ℕ, ◌≡◌, refl, sym, ◌∙◌, subst, Bool, true, false, Option, none, some, List, [], ◌∷◌,
  if◌then◌else◌, or_else, find, Text, truthy, arith,
}
use resolver_ai.Store.{Intent, get_intent, update_intent}
use resolver_ai.Store.Laws.{get_intent-update_self, get_intent-id}
use resolver_ai.Checkout.{Desk}
use resolver_ai.Checkout.Page.{Callback, row_named, by_name, has_order, get_by_order, find_intent}

module _ (id : ℕ) (f : Intent → Intent) (keeps_id : (r : Intent) → (f r).id ≡ r.id) where
  get_intent-update_none :
      (j : ℕ) (rs : List Intent)
      → get_intent j rs ≡ none
      → get_intent j (update_intent id f rs) ≡ none
  unfolding get_intent update_intent
  get_intent-update_none j [] h = refl
  get_intent-update_none j (x ∷ rs) h = ground (arith, keeps_id x, get_intent-update_none j rs)

  find-update :
      (p : Intent → Bool) (rs : List Intent) (r : Intent)
      → ((r : Intent) → p (f r) ≡ p r)
      → find p rs ≡ some r
      → r.id ≡ id
      → find p (update_intent id f rs) ≡ some (f r)
  unfolding update_intent
  find-update p [] r keeps h e = cc
  find-update p (x ∷ rs) r keeps h e = ground (arith, keeps x, find-update p rs r keeps)

  row_named-update_none :
      (o : Option ℕ) (rs : List Intent)
      → row_named rs o ≡ none
      → row_named (update_intent id f rs) o ≡ none
  row_named-update_none none rs h = refl
  row_named-update_none (some j) rs h = get_intent-update_none j rs h

  row_named-update_some :
      (o : Option ℕ) (rs : List Intent) (r : Intent)
      → row_named rs o ≡ some r
      → r.id ≡ id
      → row_named (update_intent id f rs) o ≡ some (f r)
  row_named-update_some none rs r h e = cc
  row_named-update_some (some j) rs r h e =
      let same : id ≡ j = sym e ∙ get_intent-id j rs r h in
      subst (λ i. get_intent j (update_intent i f rs) ≡ some (f r)) (sym same)
        (get_intent-update_self j f rs r (keeps_id r ∙ get_intent-id j rs r h) h)

  module _ (d : Desk) (rs : List Intent) where
    by_name-update_none :
        (o : Option Text) → by_name d rs o ≡ none → by_name d (update_intent id f rs) o ≡ none
    by_name-update_none none h = refl
    by_name-update_none (some []) h = refl
    by_name-update_none (some (x ∷ n)) h = row_named-update_none (d.intent_named (x ∷ n)) rs h

    by_name-update_some :
        (o : Option Text) (r : Intent)
        → by_name d rs o ≡ some r
        → r.id ≡ id
        → by_name d (update_intent id f rs) o ≡ some (f r)
    by_name-update_some none r h e = cc
    by_name-update_some (some []) r h e = cc
    by_name-update_some (some (x ∷ n)) r h e =
        row_named-update_some (d.intent_named (x ∷ n)) rs r h e

    or_else-update :
        (o o' x x' : Option Intent) (r : Intent)
        → (o ≡ none → o' ≡ none)
        → (o ≡ some r → o' ≡ some (f r))
        → (x ≡ some r → x' ≡ some (f r))
        → or_else o x ≡ some r
        → or_else o' x' ≡ some (f r)
    or_else-update none o' x x' r a b c h = rw (a refl) (c h)
    or_else-update (some q) o' x x' r a b c h = rw (b h) refl

    module _ (keeps_order : (r : Intent) → (f r).razorpay_order_id ≡ r.razorpay_order_id) where
      get_by_order-update :
          (order : Text) (r : Intent)
          → get_by_order order rs ≡ some r
          → r.id ≡ id
          → get_by_order order (update_intent id f rs) ≡ some (f r)
      unfolding get_by_order
      get_by_order-update order r h e =
          find-update (has_order order) rs r (λ x. rw (keeps_order x) refl) h e

      ordered-update :
          (b : Bool) (order : Text) (r : Intent)
          → (if b then get_by_order order rs else none) ≡ some r
          → r.id ≡ id
          → (if b then get_by_order order (update_intent id f rs) else none) ≡ some (f r)
      ordered-update true order r h e = get_by_order-update order r h e
      ordered-update false order r h e = cc

      pub find_intent-update :
          (c : Callback) (r : Intent)
          → find_intent d c rs ≡ some r
          → r.id ≡ id
          → find_intent d c (update_intent id f rs) ≡ some (f r)
      unfolding find_intent
      find_intent-update c r h e =
          or_else-update (by_name d rs c.payment_intent_id) _ _ _ r
            (by_name-update_none c.payment_intent_id)
            (λ k. by_name-update_some c.payment_intent_id r k e)
            (λ k. ordered-update (truthy (some c.razorpay_order_id)) c.razorpay_order_id r k e) h
