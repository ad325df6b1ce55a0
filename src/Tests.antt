-- ===== src/Tests.antt =====
-- Concrete payments, commands and histories on which the development is run.
pub mod Data
mod Histories
mod Commands
mod Amounts
mod Runs
mod Outbox
mod Transport
mod Deliveries
mod Checkout
mod Tokens
mod Books
mod Lab
