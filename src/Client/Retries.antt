-- ===== src/Client/Retries.antt =====
-- How many requests the client sends, and what its result comes from.
use resolver_ai.Prelude.{
  ℕ, zero, suc, ◌+◌, ◌≤◌, ◌<◌, ◌≡◌, refl, sym, ◌≢◌, inl, inr, true, false, Option, none, some, ◌==◌,
  arith, Bool-cases, subst,
}
use resolver_ai.Provider.{Api, api_error}
use resolver_ai.Client.{
  Reply, answered, timeout, network_error, attempt_outcome, attempts, bounded, request, or_retry,
}

last_decides : {A : Type 0} (r : Reply A) → attempt_outcome true r ≢ none
unfolding attempt_outcome
last_decides (answered s body wait) e = ground arith
last_decides timeout e = ground arith
last_decides network_error e = ground arith

-- The result is what the last request came to, and every request before it came to a retry.
abbrev pub Decided : {A : Type 0} → ℕ → ℕ → (ℕ → Reply A) → ℕ × Api A → Type 0
Decided left n reply (m, r) =
    (n < m)
    × (m ≤ n + left)
    × (attempt_outcome (m == n + left) (reply m) ≡ some r)
    × ((i : ℕ) → n < i → i < m → attempt_outcome false (reply i) ≡ none)

==-shift : (n left : ℕ) → (suc n == n + suc left) ≡ (left == 0)
==-shift n left = ground arith

retried-before :
    {A : Type 0} (left n i m : ℕ) (reply : ℕ → Reply A)
    → attempt_outcome (left == 0) (reply (suc n)) ≡ none
    → ((j : ℕ) → suc n < j → j < m → attempt_outcome false (reply j) ≡ none)
    → suc n < m
    → m ≤ suc n + left
    → n < i
    → i < m
    → attempt_outcome false (reply i) ≡ none
retried-before left n i m reply e later low high a b = elim (Bool-cases (suc n == i)) [
  | inl q ↦
      let now : suc n ≡ i = ground arith in
      let more : (left == 0) ≡ false = ground arith in
      subst (λ j. attempt_outcome false (reply j) ≡ none) now
        (subst (λ l. attempt_outcome l (reply (suc n)) ≡ none) more e)
  | inr q ↦ later i (ground arith) b
]

or_retry-Decided :
    {A : Type 0} (left n : ℕ) (reply : ℕ → Reply A) (o : Option (Api A)) (rest : ℕ × Api A)
    → attempt_outcome (left == 0) (reply (suc n)) ≡ o
    → (o ≡ none → Decided left (suc n) reply rest)
    → Decided (suc left) n reply (or_retry (suc n) o rest)
or_retry-Decided left n reply (some r) rest e h = (
  omega arith,
  omega arith,
  subst (λ l. attempt_outcome l (reply (suc n)) ≡ some r) (sym (==-shift n left)) e,
  λ i a b. absurd (omega (arith, a, b)),
)
or_retry-Decided left n reply none (m, r) e h =
    let (low, high, end, later) = h refl in
    let shift : suc n + left ≡ n + suc left = omega arith in
    (
      omega arith,
      omega arith,
      subst (λ k. attempt_outcome (m == k) (reply m) ≡ some r) shift end,
      λ i a b. retried-before left n i m reply e later low high a b,
    )

attempts-Decided :
    {A : Type 0} (left n : ℕ) (reply : ℕ → Reply A)
    → Decided (suc left) n reply (attempts (suc left) n reply)
unfolding attempts
attempts-Decided zero n reply =
    or_retry-Decided 0 n reply (attempt_outcome true (reply (suc n))) (suc n, api_error) refl
      (λ e. absurd (last_decides (reply (suc n)) e))
attempts-Decided (suc left) n reply =
    or_retry-Decided (suc left) n reply (attempt_outcome (suc left == 0) (reply (suc n)))
      (attempts (suc left) (suc n) reply) refl (λ e. attempts-Decided left (suc n) reply)

-- With credentials the client sends at least one request and at most the bound, its result is what the
-- last request came to, and each request before the last came to a retry: it was answered by a status
-- to retry, timed out, or failed on the network.
pub request_by_last_reply :
    {A : Type 0} (max_retries : ℕ) (reply : ℕ → Reply A)
    → Decided (bounded max_retries) 0 reply (request true max_retries reply)
unfolding request
request_by_last_reply zero reply = attempts-Decided 0 0 reply
request_by_last_reply (suc n) reply = attempts-Decided n 0 reply
