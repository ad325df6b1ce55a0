-- ===== src/Tests/Transport.antt =====
-- Answers to the attempts of one request.
use resolver_ai.Prelude.{ℕ, zero, suc, true, none, some}
use resolver_ai.Client.{Reply, answered, timeout, RetryAfter, request, bounded}
use resolver_ai.Client.Retries.{Decided, request_by_last_reply}

-- a timeout, a status to retry, and a success
abbrev replies : ℕ → Reply ℕ
replies zero = timeout
replies (suc zero) = timeout
replies (suc (suc zero)) = answered 503 none RetryAfter.absent
replies (suc (suc (suc n))) = answered 200 (some 5) RetryAfter.absent

request_by_last_reply_example : Decided (bounded 3) 0 replies (request true 3 replies)
request_by_last_reply_example = request_by_last_reply 3 replies
