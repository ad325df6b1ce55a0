-- ===== src/Money/Rounding.antt =====
-- Rounding to the cent, and the round trip between minor units and amounts.
use resolver_ai.Prelude.{
  ℕ, zero, suc, ◌+◌, ◌-◌, ◌*◌, ◌/◌, ◌^◌, ◌≤◌, ◌<◌, ◌≡◌, ap, inl, inr, Bool, false, arith,
  Bool-cases, Text, leb,
}
use native.Mathlib.Nat.{div-add-mod, mod-lt, pow-suc}
use resolver_ai.Money.{
  ok, ◌>>=◌, Currency, Decimal, Numeric, nan, infinite, finite, number, malformed, other_type,
  validate_currency, is_zero_decimal, round_half_up, quantize, precision_limit, to_decimal_amount,
  minor_units_to_decimal, decimal_to_minor_units,
}

-- Half of the last place is added and the rest cut off: the result is off by at most a half.
half_up_error :
    (coeff d : ℕ)
    → 0 < d
    → (2 * d * ((2 * coeff + d) / (2 * d)) ≤ 2 * coeff + d)
      × (2 * coeff < 2 * d * ((2 * coeff + d) / (2 * d)) + d)
half_up_error coeff d h =
    let x = 2 * coeff + d in
    omega (arith, div-add-mod x (2 * d), mod-lt x {m = 2 * d} (omega arith))

round_int : (n : ℕ) → round_half_up (n * 100) 2 0 ≡ n
unfolding round_half_up
round_int n = omega arith

quantize_cents : (n : ℕ) → n < 10 ^ 26 → quantize 2 (finite false n 2) ≡ ok (finite false n 2)
unfolding quantize round_half_up
quantize_cents n h = ground arith

quantize_units :
    (n : ℕ) → n < 10 ^ 26 → quantize 2 (finite false n 0) ≡ ok (finite false (n * 100) 2)
unfolding quantize round_half_up
quantize_units n h = ground arith

quantize_int : (n : ℕ) → n < 10 ^ 26 → quantize 0 (finite false (n * 100) 2) ≡ ok (finite false n 0)
unfolding quantize
quantize_int n h = rw (round_int n) (ground arith)

-- Minor units converted to an amount and back are the same number, in every supported currency, for
-- less than 10^26 minor units.
pub minor_units_roundtrip :
    (n : ℕ) (currency : Text) (c : Currency)
    → validate_currency currency ≡ ok c
    → n < 10 ^ 26
    → (minor_units_to_decimal false n currency >>= λ d. decimal_to_minor_units d currency) ≡ ok n
unfolding minor_units_to_decimal decimal_to_minor_units
minor_units_roundtrip n currency c valid small = elim (Bool-cases (is_zero_decimal c)) [
  | inl z ↦ rw (valid, z, quantize_units n small) (ap ok (omega arith))
  | inr z ↦ rw (valid, z, quantize_cents n small) (rw (quantize_int n small) (ap ok (omega arith)))
]

-- amounts in hundredths, in a currency with minor units, and back
pub cents_roundtrip :
    (n : ℕ) (currency : Text) (c : Currency)
    → validate_currency currency ≡ ok c
    → is_zero_decimal c ≡ false
    → n < 10 ^ 26
    → (decimal_to_minor_units (finite false n 2) currency ≡ ok n)
      × (minor_units_to_decimal false n currency ≡ ok (finite false n 2))
unfolding minor_units_to_decimal decimal_to_minor_units
cents_roundtrip n currency c valid cents small = (
  rw (valid, cents, quantize_int n small) (ap ok (omega arith)),
  rw (valid, cents) (quantize_cents n small),
)

pow-pos : (k : ℕ) → 0 < 10 ^ k
pow-pos zero = omega arith
pow-pos (suc k) = rw (pow-suc 10 k) (omega (arith, pow-pos k))

round-exact : (c : ℕ) → round_half_up c 2 2 ≡ c
unfolding round_half_up
round-exact c = ground arith

round-cut : (c k : ℕ) → round_half_up c (2 + suc k) 2 ≡ (2 * c + 10 ^ suc k) / (2 * 10 ^ suc k)
unfolding round_half_up
round-cut c k =
    let e : 2 + suc k - 2 ≡ suc k = omega arith in
    let f : leb (2 + suc k) 2 ≡ false = ground arith in rw (f, e)

round_error :
    (c k : ℕ)
    → (2 * 10 ^ k * round_half_up c (2 + k) 2 ≤ 2 * c + 10 ^ k)
      × (2 * c < 2 * 10 ^ k * round_half_up c (2 + k) 2 + 10 ^ k)
round_error c zero = rw (round-exact c) (omega arith, omega arith)
round_error c (suc k) = rw (round-cut c k) (half_up_error c (10 ^ suc k) (pow-pos (suc k)))

quantize-result :
    (neg : Bool) (c s r : ℕ)
    → quantize 2 (finite neg c s) ≡ ok (finite neg r 2)
    → (round_half_up c s 2 ≡ r) × (r < precision_limit)
unfolding quantize
quantize-result neg c s r h = ground arith

-- An amount with `2 + k` fractional digits is rounded to the nearest cent, a half away from zero:
-- the result `r` in cents satisfies -1/2 < r - c / 10^k <= 1/2, and fits the precision.
pub amount_nearest :
    (neg : Bool) (c k r : ℕ)
    → to_decimal_amount (number (finite neg c (2 + k))) ≡ ok (finite neg r 2)
    → (2 * 10 ^ k * r ≤ 2 * c + 10 ^ k) × (2 * c < 2 * 10 ^ k * r + 10 ^ k) × (r < precision_limit)
unfolding to_decimal_amount
amount_nearest neg c k r h =
    let (e, fits) = quantize-result neg c (2 + k) r h in
    let (low, high) = round_error c k in (rw e at low, rw e at high, fits)

quantize_again : (d d' : Decimal) → quantize 2 d ≡ ok d' → quantize 2 d' ≡ ok d'
unfolding quantize
quantize_again nan d' h = ground arith
quantize_again (infinite neg) d' h = cc
quantize_again (finite neg c s) d' h = ground (arith, round-exact (round_half_up c s 2))

-- An amount that the conversion has returned converts to itself.
pub amount_idempotent :
    (v : Numeric) (d : Decimal) → to_decimal_amount v ≡ ok d → to_decimal_amount (number d) ≡ ok d
unfolding to_decimal_amount
amount_idempotent malformed d h = ground arith
amount_idempotent other_type d h = ground arith
amount_idempotent (number nan) d h = ground arith
amount_idempotent (number (infinite neg)) d h = ground arith
amount_idempotent (number (finite neg c s)) nan h = unfold quantize in ground arith
amount_idempotent (number (finite neg c s)) (infinite n) h = unfold quantize in ground arith
amount_idempotent (number (finite neg c s)) (finite n a b) h =
    quantize_again (finite neg c s) (finite n a b) h
