-- ===== src/Schema/Invoices.antt =====
-- The columns and the states of invoices/domain/models.py.
use chargeflow.Prelude.{
  ℕ, ℤ, String, Bool, true, false, Option, List, [], ◌∷◌, ◌||◌, ◌==◌, ◌≡◌, arith,
}
use chargeflow.Calendar.{DateTime}

pub data InvoiceStatus : Type 0 where
  draft issued paid failed overdue canceled : InvoiceStatus

pub record Invoice : Type 0 where
  pub organization : ℕ
  pub subscription : ℕ
  pub status : InvoiceStatus
  pub total : ℤ
  pub currency : String
  pub period_start : DateTime
  pub period_end : DateTime
  pub issued_at : Option DateTime
  pub paid_at : Option DateTime
  pub updated_at : DateTime

-- The description is kept as the parts that its text is formatted from: the plan's name and the
-- period, of which the text shows the dates. `description_length` of Invoices is its length.
pub record InvoiceLine : Type 0 where
  pub organization : ℕ
  pub invoice : ℕ
  pub plan_name : String
  pub from_date : DateTime
  pub to_date : DateTime
  pub amount : ℤ

-- `INVOICE_TRANSITIONS`
unfoldable pub invoice_transitions : InvoiceStatus → List InvoiceStatus
invoice_transitions InvoiceStatus.draft = InvoiceStatus.issued ∷ InvoiceStatus.canceled ∷ []
invoice_transitions InvoiceStatus.issued =
    InvoiceStatus.paid ∷ InvoiceStatus.failed ∷ InvoiceStatus.overdue ∷ InvoiceStatus.canceled ∷ []
invoice_transitions InvoiceStatus.failed =
    InvoiceStatus.issued ∷ InvoiceStatus.paid ∷ InvoiceStatus.overdue ∷ InvoiceStatus.canceled ∷ []
invoice_transitions InvoiceStatus.overdue = InvoiceStatus.paid ∷ InvoiceStatus.canceled ∷ []
invoice_transitions InvoiceStatus.paid = []
invoice_transitions InvoiceStatus.canceled = []

abbrev invoice_code : InvoiceStatus → ℕ
invoice_code InvoiceStatus.draft = 0
invoice_code InvoiceStatus.issued = 1
invoice_code InvoiceStatus.paid = 2
invoice_code InvoiceStatus.failed = 3
invoice_code InvoiceStatus.overdue = 4
invoice_code InvoiceStatus.canceled = 5

-- Equality of two states.
abbrev pub same_invoice_status : InvoiceStatus → InvoiceStatus → Bool
same_invoice_status a b = invoice_code a == invoice_code b

-- `status in statuses`
unfoldable pub invoice_status_in : InvoiceStatus → List InvoiceStatus → Bool
invoice_status_in s [] = false
invoice_status_in s (x ∷ xs) = same_invoice_status s x || invoice_status_in s xs

-- `PAYABLE_INVOICE_STATUSES`
abbrev pub payable_invoice_statuses : List InvoiceStatus
payable_invoice_statuses = InvoiceStatus.issued ∷ InvoiceStatus.failed ∷ InvoiceStatus.overdue ∷ []

pub same_invoice_status_eq : (a b : InvoiceStatus) → same_invoice_status a b ≡ true → a ≡ b
same_invoice_status_eq a b h = ground arith

pub same_invoice_status_refl : (a : InvoiceStatus) → same_invoice_status a a ≡ true
same_invoice_status_refl a = ground arith
