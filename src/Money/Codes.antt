-- ===== src/Money/Codes.antt =====
-- The texts that validate_currency of domain/money.py accepts.
use resolver_ai.Prelude.{
  ℕ, ◌≡◌, refl, ◌≢◌, Bool, true, false, not, [], ◌∷◌, ◌++◌, all, arith, Text, text_eq, upper,
  upper_code,
}
use resolver_ai.Money.{
  ok, Currency, currency_code, is_space, lstrip, rstrip, find_currency, validate_currency,
  supported_currencies, is_empty,
}

abbrev pub is_solid : ℕ → Bool
is_solid c = not (is_space c)

upper_code-solid : (c : ℕ) → is_solid (upper_code c) ≡ true → is_solid c ≡ true
unfolding upper_code is_space
upper_code-solid c h = ground arith

upper-solid : (s : Text) → all is_solid (upper s) ≡ true → all is_solid s ≡ true
unfolding upper
upper-solid [] h = refl
upper-solid (c ∷ s) h = ground (arith, upper_code-solid c, upper-solid s)

currency_code-solid : (c : Currency) → all is_solid (currency_code c) ≡ true
unfolding is_space
currency_code-solid Currency.inr = refl
currency_code-solid _ = refl

rstrip-space : (r : Text) → all is_space r ≡ true → rstrip r ≡ []
unfolding rstrip is_space
rstrip-space [] h = refl
rstrip-space (c ∷ r) h = ground (arith, rstrip-space r)

rstrip-append : (s r : Text) → all is_solid s ≡ true → all is_space r ≡ true → rstrip (s ++ r) ≡ s
unfolding rstrip is_space
rstrip-append [] r h k = rstrip-space r k
rstrip-append (c ∷ s) r h k = ground (arith, rstrip-append s r)

lstrip-append :
    (l : Text) (c : ℕ) (s : Text)
    → all is_space l ≡ true
    → is_solid c ≡ true
    → lstrip (l ++ (c ∷ s)) ≡ c ∷ s
unfolding lstrip is_space
lstrip-append [] c s h k = ground arith
lstrip-append (a ∷ l) c s h k = ground (arith, lstrip-append l c s)

find_currency-code : (c : Currency) → find_currency (currency_code c) supported_currencies ≡ ok c
unfolding find_currency text_eq
find_currency-code Currency.inr = refl
find_currency-code _ = refl

strip-padded :
    (l s r : Text)
    → s ≢ []
    → all is_space l ≡ true
    → all is_solid s ≡ true
    → all is_space r ≡ true
    → rstrip (lstrip (l ++ (s ++ r))) ≡ s
strip-padded l [] r ne hl hs hr = absurd (ne refl)
strip-padded l (c ∷ s) r ne hl hs hr =
    rw (lstrip-append l c (s ++ r) hl (ground arith)) (rstrip-append (c ∷ s) r hs hr)

not_empty : (c : Currency) (s : Text) → upper s ≡ currency_code c → s ≢ []
unfolding upper
not_empty c s h e = ground arith

append-not_empty : (l s r : Text) → s ≢ [] → is_empty (l ++ (s ++ r)) ≡ false
append-not_empty (_ ∷ _) s r ne = refl
append-not_empty [] (_ ∷ _) r ne = refl
append-not_empty [] [] r ne = absurd (ne refl)

-- A supported code is accepted as its currency in any mix of upper and lower case, with any white
-- space before and after it.
pub validate_currency-padded :
    (c : Currency) (l s r : Text)
    → upper s ≡ currency_code c
    → all is_space l ≡ true
    → all is_space r ≡ true
    → validate_currency (l ++ (s ++ r)) ≡ ok c
unfolding validate_currency
validate_currency-padded c l s r code hl hr =
    let ne = not_empty c s code in
    let solid = upper-solid s (rw code (currency_code-solid c)) in
    rw (append-not_empty l s r ne, strip-padded l s r ne hl solid hr, code) (find_currency-code c)
