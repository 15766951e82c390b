-- ===== src/Evolution.antt =====
-- How the rows of the billing tables may change: the relation that every transaction of the
-- services keeps, its rules, and the proofs for each service.
pub mod Rows
pub mod Unique
pub mod Events
pub mod Growth
pub mod Sound
pub mod Rules
pub mod Writes
pub mod Invoices
pub mod Subscriptions
pub mod Billing
pub mod Attempts
pub mod Settle
pub mod Prepare
pub mod Parents
pub mod Catalog
pub mod Webhook
pub mod Charge
pub mod Tasks
