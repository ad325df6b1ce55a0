-- ===== src/Client.antt =====
-- razorpay/client.py: one request with bounded retries. The transport is a parameter: what the n-th
-- attempt is answered. `none` as a body is one that is no JSON, and `malformed` a Retry-After header
-- that is no number: both raise a ValueError, which the loop does not catch.
pub mod Retries
use resolver_ai.Prelude.{
  ℕ, zero, suc, Bool, true, false, ◌&&◌, ◌||◌, not, Option, none, some, ltb, ◌==◌, if◌then◌else◌,
}
use resolver_ai.Provider.{Api, ok, api_error, crash}

pub data RetryAfter : Type 0 where
  absent malformed : RetryAfter
  seconds : ℕ → RetryAfter

pub data Reply (A : Type 0) : Type 0 where
  answered : ℕ → Option A → RetryAfter → Reply A
  timeout network_error : Reply A

-- `status_code in (429, 502, 503, 504)`
unfoldable pub is_retryable : ℕ → Bool
is_retryable s = s == 429 || s == 502 || s == 503 || s == 504

abbrev pub is_malformed : RetryAfter → Bool
is_malformed malformed = true
is_malformed _ = false

abbrev pub from_json : {A : Type 0} → Option A → Api A
from_json none = crash
from_json (some a) = ok a

-- what one attempt comes to, `none` for a retry; `last` says that no attempt is left
unfoldable pub attempt_outcome : {A : Type 0} → Bool → Reply A → Option (Api A)
attempt_outcome last (answered s body wait) =
    if ltb s 400
    then some (from_json body)
    else if is_retryable s && not last
    then if is_malformed wait then some crash else none
    else some api_error
attempt_outcome last timeout = if last then some api_error else none
attempt_outcome last network_error = if last then some api_error else none

abbrev pub or_retry : {A : Type 0} → ℕ → Option (Api A) → ℕ × Api A → ℕ × Api A
or_retry n none rest = rest
or_retry n (some r) rest = (n, r)

-- `for attempt in range(n + 1, n + left + 1)`, with the number of requests sent
unfoldable pub attempts : {A : Type 0} → ℕ → ℕ → (ℕ → Reply A) → ℕ × Api A
attempts zero n reply = (n, api_error)
attempts (suc left) n reply =
    let rest = attempts left (suc n) reply in
    or_retry (suc n) (attempt_outcome (left == 0) (reply (suc n))) rest

-- `max(1, max_retries)`
abbrev pub bounded : ℕ → ℕ
bounded zero = 1
bounded (suc n) = suc n

-- `_request`
unfoldable pub request : {A : Type 0} → Bool → ℕ → (ℕ → Reply A) → ℕ × Api A
request has_credentials max_retries reply =
    if has_credentials then attempts (bounded max_retries) 0 reply else (0, api_error)
