-- ===== src/Payments.antt =====
-- payments/: attempts, the mock gateway, the three phases of a charge, settlement, webhooks and
-- their signature. Each child module is one part.
pub mod Attempts
pub mod Gateway
pub mod Prepare
pub mod Settle
pub mod Charge
pub mod Webhook
pub mod Signature
