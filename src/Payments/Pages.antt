-- ===== src/Payments/Pages.antt =====
-- The pages of `list_payments` in api/dashboard_routes.py.
use resolver_ai.Prelude.{
  ℕ, zero, suc, ◌+◌, ◌≤◌, ◌≡◌, refl, sym, ap, ◌∙◌, inl, inr, List, [], ◌∷◌, ◌++◌, filter, length,
  ltb, arith, Bool-cases,
}
use resolver_ai.Store.{Intent}
use resolver_ai.Payments.{
  Filters, is_listed, insert_by_time, by_time, limited, after_offset, list_payments,
}

limited-split :
    (n m k : ℕ) (rs : List Intent)
    → n + m ≡ k
    → limited n rs ++ limited m (after_offset n rs) ≡ limited k rs
unfolding limited after_offset
limited-split zero m k rs e = ap (λ x. limited x rs) (omega arith)
limited-split (suc n) m zero rs e = absurd (omega arith)
limited-split (suc n) zero (suc k) [] e = refl
limited-split (suc n) (suc m) (suc k) [] e = refl
limited-split (suc n) m (suc k) (r ∷ rs) e =
    ap (λ xs. r ∷ xs) (limited-split n m k rs (omega arith))

after_offset-twice :
    (n m k : ℕ) (rs : List Intent)
    → n + m ≡ k
    → after_offset m (after_offset n rs) ≡ after_offset k rs
unfolding after_offset
after_offset-twice zero m k rs e = ap (λ x. after_offset x rs) (omega arith)
after_offset-twice (suc n) m zero rs e = absurd (omega arith)
after_offset-twice (suc n) zero (suc k) [] e = refl
after_offset-twice (suc n) (suc m) (suc k) [] e = refl
after_offset-twice (suc n) m (suc k) (r ∷ rs) e = after_offset-twice n m k rs (omega arith)

length-insert : (r : Intent) (rs : List Intent) → length (insert_by_time r rs) ≡ suc (length rs)
unfolding insert_by_time
length-insert r [] = refl
length-insert r (x ∷ xs) = elim (Bool-cases (ltb r.updated_at x.updated_at)) [
  | inl e ↦ rw e (ap suc (length-insert r xs))
  | inr e ↦ rw e refl
]

length-by_time : (rs : List Intent) → length (by_time rs) ≡ length rs
unfolding by_time
length-by_time [] = refl
length-by_time (r ∷ rs) = length-insert r (by_time rs) ∙ ap suc (length-by_time rs)

limited_all : (k : ℕ) (rs : List Intent) → length rs ≤ k → limited k rs ≡ rs
unfolding limited
limited_all zero [] h = refl
limited_all (suc k) [] h = refl
limited_all zero (r ∷ rs) h = absurd (omega arith)
limited_all (suc k) (r ∷ rs) h = ap (λ xs. r ∷ xs) (limited_all k rs (omega arith))

-- Two pages that follow each other are one page of both lengths, the total does not depend on the page,
-- and a first page of at least the total shows as many intents as the total says.
pub list_payments-pages :
    (f : Filters) (limit more offset k : ℕ) (rs : List Intent)
    → (list_payments f limit offset rs).1 ≤ k
    → ((list_payments f limit offset rs).0 ++ (list_payments f more (offset + limit) rs).0
        ≡ (list_payments f (limit + more) offset rs).0)
      × ((list_payments f limit offset rs).1 ≡ (list_payments f more (offset + limit) rs).1)
      × (length (list_payments f k 0 rs).0 ≡ (list_payments f limit offset rs).1)
unfolding list_payments after_offset
list_payments-pages f limit more offset k rs whole =
    let found = by_time (filter (is_listed f) rs) in
    (
      ap (λ xs. limited limit (after_offset offset found) ++ limited more xs)
            (sym (after_offset-twice offset limit (offset + limit) found refl))
          ∙ limited-split limit more (limit + more) (after_offset offset found) refl,
      refl,
      ap length (limited_all k found (omega (arith, length-by_time (filter (is_listed f) rs))))
          ∙ length-by_time (filter (is_listed f) rs),
    )
