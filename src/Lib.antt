-- ===== src/Lib.antt =====
-- A model of the payment resolution pipeline of ResolverAI, a service that decides what to do with
-- payments whose outcome at the provider (Razorpay) is in doubt.
--
-- The program and its parts. A run of `resolve` (core/resolver.py) takes the lock of a payment intent
-- (core/idempotency.py), loads its row and the count of its captures (schema.sql), asks the negotiator
-- for evidence (agents/negotiator.py, over razorpay/ or the synthetic rail of chaos_lab/), compares it
-- with the local record (core/reconciliation.py, domain/money.py), asks the detective for a proposal
-- (agents/detective.py, agents/ai_providers.py), passes both to the policy gate
-- (core/policy_engine.py), lets the executor carry out a signed command (agents/finops_executor.py,
-- agents/schemas.py), and records evidence and the next state (core/state_machine.py).
--
-- The files.
-- Prelude and its children: Boolean tests on native numbers, lists, and text as lists of code points.
-- Domain: domain/enums.py.
-- StateMachine: core/state_machine.py; the table is the list `transitions`, a state argument that is no
--   state is `invalid`. Graph is about single events, Runs about histories.
-- Schemas: agents/schemas.py and the dictionary `intent_data`; HMAC-SHA256 is the parameter `Mac`.
-- Policy: core/policy_engine.py. Admissible is its table by actions, Gate is about what it lets through.
-- Detective: agents/detective.py and agents/ai_providers.py; the language models are a parameter.
--   Advice is about what reaches the gate.
-- Rail: chaos_lab/simulator.py; the random draw and the generated ids are arguments. Idempotent and
--   Returned are about repeated calls.
-- Provider: razorpay/payments.py, refunds.py and orders.py; the remote service is the record `Provider`,
--   a function of the mutations it has received; `Outside.sent` records every mutation request.
-- Client: razorpay/client.py; Retries is about the number of requests and their result.
-- Negotiator: agents/negotiator.py. Evidence is about what verification does and yields.
-- Executor: agents/finops_executor.py. Guards is about when it has an effect.
-- Money: domain/money.py. Codes is about currency codes, Rounding about amounts.
-- Store: the tables of schema.sql as lists of rows. Laws holds lookup and update.
-- Reconciliation: core/reconciliation.py. Verdicts is about what a verdict rests on, Agreement about what
--   a reconciled payment agrees on, Small about small amounts.
-- Idempotency: core/idempotency.py; the replies of Redis are arguments, the fall back in memory is
--   state. Locks is about exclusion and deduplication.
-- Resolver: core/resolver.py with ledger/evidence.py. Setting holds the services and the world of a
--   run, Stages its steps in source order, Stages/Acting step 7. Requests and Safety are about what is
--   sent, Progress about what is recorded, Divergence about states that do not follow from the
--   execution, Outbox about the task queue.
-- Worker: worker.py. Rows holds what the statements do to every row, Claims is about the choice of a
--   task, Attempts about sequences of cycles and crashes, Settled about the end of the work.
-- Webhook: api/webhook_receiver.py with razorpay/webhooks.py; Handling holds the steps on the tables.
--   Redelivery is about repeated events, Upsert about the row of the intent.
-- Access: core/auth.py, core/rbac.py, the roles of config.py and `verify_merchant_access` of
--   api/payment_routes.py; base64, JSON and HMAC-SHA256 are the record `Codec`. Tokens and Holders are
--   about tokens, Login is api/auth_routes.py.
-- Checkout: api/orders_routes.py with `create_order` and `verify_payment_signature` of razorpay/. Page
--   holds the two callbacks, Named finds rows, Signed is about the signed callback, Callbacks about what
--   the resolver makes of both, Orders about new orders. What a call draws from outside (uuids, clock, digest) is the record `Desk`.
-- Cases: api/reconciliation_routes.py. Listing is about who sees a case, Resolving about its end.
-- Ledger: ledger/financial_effects.py. Sums compares the two summaries, Runs is about the resolver's rows.
-- RateLimiter: core/rate_limiter.py. Window compares it with a limiter that keeps every request.
-- Poller: core/reconciliation_poller.py. Cycle is about one poll over the resolver.
-- Worker/Drained: sequences of worker cycles until there is nothing left to claim.
-- Replay: core/replay.py. Outcomes is about its effect on the rail.
-- Payments: api/payment_routes.py, `list_payments` of api/dashboard_routes.py and the verification of
--   api/razorpay_verify_routes.py. Pages is about paging, Tenants about merchants.
-- TestLab: core/ai_test_lab: schema.py, oracle.py and isolation.py; Runner (with Judged for its last
--   steps) and Suite are runner.py, Library is scenarios.py. Verdicts is about the oracle, States and
--   Observed about the states of a run, Claimed about the outbox of the service.
-- Tests: concrete runs.
--
-- Numbers. Amounts are in hundredths of the currency unit, as NUMERIC(18,2) stores them, a confidence is
-- in millionths, times are in seconds, uuids are numbers. A Decimal in Money is a sign, a coefficient
-- and a number of fractional digits; the precision of 28 digits of the default context is kept. No
-- definition needs fuel: all recursion is structural.
--
-- What is not modelled. The statistics of the dashboards, the routes and the generator of the AI test lab,
-- the frontend, and the seeding of demo data. The loops and sleeps around one worker or poller cycle and
-- the time limit of a test run. Failures of database statements inside a run, other than the violated
-- constraints that the code itself ignores and the limits on the amount of an intent. The expiry of locks and deduplication keys after their time to
-- live. Texts outside ASCII.
pub mod Prelude
pub mod Domain
pub mod StateMachine
pub mod Schemas
pub mod Policy
pub mod Detective
pub mod Rail
pub mod Provider
pub mod Negotiator
pub mod Executor
pub mod Money
pub mod Store
pub mod Reconciliation
pub mod Idempotency
pub mod Resolver
pub mod Worker
pub mod Access
pub mod Checkout
pub mod Cases
pub mod Ledger
pub mod RateLimiter
pub mod Poller
pub mod Payments
pub mod Replay
pub mod TestLab
pub mod Client
pub mod Webhook
pub mod Tests
