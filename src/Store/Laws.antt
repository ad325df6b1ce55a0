-- ===== src/Store/Laws.antt =====
-- Reading a row of payment_intents after an update.
use resolver_ai.Prelude.{ℕ, ◌≡◌, refl, ◌≢◌, some, List, [], ◌∷◌, arith}
use resolver_ai.Store.{Intent, get_intent, update_intent}

module _ (id : ℕ) (f : Intent → Intent) where
  pub get_intent-update_self :
      (rs : List Intent) (r : Intent)
      → (f r).id ≡ id
      → get_intent id rs ≡ some r
      → get_intent id (update_intent id f rs) ≡ some (f r)
  unfolding get_intent update_intent
  get_intent-update_self [] r keeps h = cc
  get_intent-update_self (x ∷ rs) r keeps h = ground (arith, get_intent-update_self rs r keeps)

  pub get_intent-update_ne :
      (j : ℕ) (rs : List Intent)
      → j ≢ id
      → ((r : Intent) → (f r).id ≡ r.id)
      → get_intent j (update_intent id f rs) ≡ get_intent j rs
  unfolding get_intent update_intent
  get_intent-update_ne j [] ne keeps = refl
  get_intent-update_ne j (x ∷ rs) ne keeps =
      ground (arith, keeps x, get_intent-update_ne j rs ne keeps)

pub get_intent-id : (id : ℕ) (rs : List Intent) (r : Intent) → get_intent id rs ≡ some r → r.id ≡ id
unfolding get_intent
get_intent-id id [] r h = cc
get_intent-id id (x ∷ rs) r h = ground (arith, get_intent-id id rs r)
