-- ===== src/Money.antt =====
-- domain/money.py: currencies and amounts. A Decimal is its sign, coefficient and number of
-- fractional digits (a positive exponent is multiplied out). `quantize` raises InvalidOperation on
-- a result of more than 28 digits, the precision of the default context; products are exact, since
-- no caller hands over a coefficient of more digits than that. Strings are ASCII.
pub mod Codes
pub mod Rounding
use resolver_ai.Prelude.{
  ℕ, ◌≡◌, refl, ◌+◌, ◌-◌, ◌*◌, ◌/◌, ◌^◌, Bool, true, false, ◌&&◌, ◌||◌, not, List, [], ◌∷◌, ltb,
  leb, ◌==◌, if◌then◌else◌, Text, codes, text_eq, upper,
}

pub data MoneyError : Type 0 where
  unsupported_currency invalid_amount invalid_operation overflow : MoneyError

-- a value, or the exception that was raised
pub data Result {ℓ} (T : Type ℓ) : Type ℓ where
  err : MoneyError → Result T
  ok : T → Result T

infixl 5 ◌>>=◌ ◌>>◌
abbrev pub ◌>>=◌ {ℓ κ} : {S : Type ℓ} {T : Type κ} → Result S → (S → Result T) → Result T
err why >>= next = err why
ok x >>= next = next x

-- a check whose value is not used
abbrev pub ◌>>◌ {κ} : {T : Type κ} → Result (Unit {0}) → Result T → Result T
err why >> rest = err why
ok x >> rest = rest

abbrev pub refuse_if : Bool → MoneyError → Result (Unit {0})
refuse_if true e = err e
refuse_if false e = ok tt

-- a chain that returns has returned at each step
pub >>=-returns {ℓ κ} :
    {S : Type ℓ} {T : Type κ} (step : Result S) (next : S → Result T) {out : T}
    → (step >>= next) ≡ ok out
    → (mid : S) × (step ≡ ok mid) × (next mid ≡ ok out)
>>=-returns (err why) next e = cc
>>=-returns (ok mid) next e = (mid, refl, e)

-- SUPPORTED_CURRENCIES
pub data Currency : Type 0 where
  inr usd eur gbp aud cad sgd jpy krw : Currency

abbrev pub currency_code : Currency → Text
currency_code Currency.inr = codes "INR"
currency_code Currency.usd = codes "USD"
currency_code Currency.eur = codes "EUR"
currency_code Currency.gbp = codes "GBP"
currency_code Currency.aud = codes "AUD"
currency_code Currency.cad = codes "CAD"
currency_code Currency.sgd = codes "SGD"
currency_code Currency.jpy = codes "JPY"
currency_code Currency.krw = codes "KRW"

abbrev pub supported_currencies : List Currency
supported_currencies =
    Currency.inr ∷ Currency.usd ∷ Currency.eur ∷ Currency.gbp ∷ Currency.aud ∷ Currency.cad
    ∷ Currency.sgd ∷ Currency.jpy ∷ Currency.krw ∷ []

-- ZERO_DECIMAL_CURRENCIES
unfoldable pub is_zero_decimal : Currency → Bool
is_zero_decimal Currency.jpy = true
is_zero_decimal Currency.krw = true
is_zero_decimal _ = false

unfoldable pub is_space : ℕ → Bool
is_space c = leb 9 c && leb c 13 || leb 28 c && leb c 32

abbrev pub is_empty : Text → Bool
is_empty [] = true
is_empty (_ ∷ _) = false

-- `str.strip`
unfoldable pub lstrip : Text → Text
lstrip [] = []
lstrip (c ∷ s) = let rest = lstrip s in if is_space c then rest else c ∷ s

unfoldable pub rstrip : Text → Text
rstrip [] = []
rstrip (c ∷ s) = let rest = rstrip s in if is_space c && is_empty rest then [] else c ∷ rest

unfoldable pub find_currency : Text → List Currency → Result Currency
find_currency t [] = err unsupported_currency
find_currency t (c ∷ cs) =
    let rest = find_currency t cs in if text_eq t (currency_code c) then ok c else rest

unfoldable pub validate_currency : Text → Result Currency
validate_currency t = do
  refuse_if (is_empty t) unsupported_currency
  find_currency (upper (rstrip (lstrip t))) supported_currencies

pub data Decimal : Type 0 where
  nan : Decimal
  infinite : Bool → Decimal
  finite : Bool → ℕ → ℕ → Decimal

-- a value handed to `to_decimal_amount`: a number, a string that is none, or another type
pub data Numeric : Type 0 where
  number : Decimal → Numeric
  malformed other_type : Numeric

-- the coefficient rounded from `scale` to `places` fractional digits, halves away from zero
unfoldable pub round_half_up : ℕ → ℕ → ℕ → ℕ
round_half_up coeff scale places =
    if leb scale places
    then coeff * 10 ^ (places - scale)
    else (2 * coeff + 10 ^ (scale - places)) / (2 * 10 ^ (scale - places))

abbrev pub precision_limit : ℕ
precision_limit = 10 ^ 28

unfoldable pub quantize : ℕ → Decimal → Result Decimal
quantize places nan = ok nan
quantize places (infinite neg) = err invalid_operation
quantize places (finite neg coeff scale) =
    let c = round_half_up coeff scale places in
    if ltb c precision_limit then ok (finite neg c places) else err invalid_operation

abbrev pub is_nan_or_infinite : Decimal → Bool
is_nan_or_infinite (finite _ _ _) = false
is_nan_or_infinite _ = true

unfoldable pub to_decimal_amount : Numeric → Result Decimal
to_decimal_amount (number d) = do refuse_if (is_nan_or_infinite d) invalid_amount; quantize 2 d
to_decimal_amount malformed = err invalid_operation
to_decimal_amount other_type = err invalid_amount

-- an `int`: the sign and the magnitude
abbrev pub is_negative : Bool → ℕ → Bool
is_negative neg n = neg && not (n == 0)

-- the quotient by 100 is exact: the coefficient with two fractional digits
unfoldable pub minor_units_to_decimal : Bool → ℕ → Text → Result Decimal
minor_units_to_decimal neg n currency = do
  code ← validate_currency currency
  refuse_if (is_negative neg n) invalid_amount
  if is_zero_decimal code then quantize 2 (finite neg n 0) else quantize 2 (finite neg n 2)

-- `amount < Decimal("0.00")`, which raises on NaN
abbrev pub below_zero : Decimal → Result Bool
below_zero nan = err invalid_operation
below_zero (infinite neg) = ok neg
below_zero (finite neg coeff _) = ok (is_negative neg coeff)

-- `int(d)` cuts the fractional digits off
abbrev pub to_int : Decimal → Result ℕ
to_int nan = err invalid_operation
to_int (infinite _) = err overflow
to_int (finite _ coeff scale) = ok (coeff / 10 ^ scale)

abbrev pub times_100 : Decimal → Decimal
times_100 (finite neg coeff scale) = finite neg (coeff * 100) scale
times_100 d = d

unfoldable pub decimal_to_minor_units : Decimal → Text → Result ℕ
decimal_to_minor_units amount currency = do
  code ← validate_currency currency
  negative ← below_zero amount
  refuse_if negative invalid_amount
  if is_zero_decimal code then to_int amount else (quantize 0 (times_100 amount) >>= to_int)

-- `amount <= Decimal("0.00")`
abbrev pub at_most_zero : Decimal → Result Bool
at_most_zero nan = err invalid_operation
at_most_zero (infinite neg) = ok neg
at_most_zero (finite neg coeff _) = ok (neg || coeff == 0)

unfoldable pub validate_positive_amount : Decimal → Result Decimal
validate_positive_amount amount = do
  refused ← at_most_zero amount
  refuse_if refused invalid_amount
  ok amount
