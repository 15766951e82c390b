-- ===== src/Schema/Payments.antt =====
-- The columns and the states of payments/domain/models.py, and the values of
-- payments/application/gateway.py.
use chargeflow.Prelude.{ℕ, ℤ, String, Bool, true, Option, ◌==◌, ◌≡◌, arith}
use chargeflow.Calendar.{DateTime}
use chargeflow.Schema.Values.{Fields}

pub data PaymentStatus : Type 0 where
  pending success failed : PaymentStatus

pub record PaymentAttempt : Type 0 where
  pub organization : ℕ
  pub invoice : ℕ
  pub status : PaymentStatus
  pub amount : ℤ
  pub currency : String
  pub provider : String
  pub provider_idempotency_key : String
  pub provider_customer_id : String
  pub provider_payment_method_id : String
  pub provider_charge_id : String
  pub provider_response : Fields
  pub idempotency_key : Option String
  pub attempted_at : DateTime
  pub needs_reconciliation : Bool

pub record WebhookEvent : Type 0 where
  pub organization : Option ℕ
  pub event_type : String
  pub provider : String
  pub provider_event_id : String
  pub payload : Fields
  pub processed : Bool

pub record MockChargeReceipt : Type 0 where
  pub provider_idempotency_key : String
  pub request_fingerprint : String
  pub success : Bool
  pub provider_charge_id : String
  pub provider_response : Fields

pub record ChargeRequest : Type 0 where
  pub amount : ℤ
  pub currency : String
  pub provider_customer_id : String
  pub provider_payment_method_id : String
  pub idempotency_key : String

pub record ChargeResult : Type 0 where
  pub success : Bool
  pub provider_charge_id : String
  pub provider_response : Fields

abbrev payment_code : PaymentStatus → ℕ
payment_code PaymentStatus.pending = 0
payment_code PaymentStatus.success = 1
payment_code PaymentStatus.failed = 2

-- Equality of two states.
abbrev pub same_payment_status : PaymentStatus → PaymentStatus → Bool
same_payment_status a b = payment_code a == payment_code b

pub same_payment_status_eq : (a b : PaymentStatus) → same_payment_status a b ≡ true → a ≡ b
same_payment_status_eq a b h = ground arith
