-- ===== src/Tests/Shop.antt =====
-- The shop: one customer with one subscription, its invoice and its attempt.
use chargeflow.Prelude.{pos, true, false, none, some, [], ◌∷◌}
use chargeflow.Calendar.{DateTime}
use chargeflow.Schema.{
  empty, Customer, PlanStatus, PlanInterval, Plan, SubscriptionStatus, Subscription, InvoiceStatus,
  Invoice, PaymentStatus, PaymentAttempt, WebhookEvent,
}
use chargeflow.Db.{Db}

abbrev pub new_year : DateTime
new_year = record { year = 2024; month = 1; day = 31; micros = 0 }

abbrev pub february : DateTime
february = record { year = 2024; month = 2; day = 29; micros = 0 }

abbrev pub monthly : Plan
monthly = record {
  organization = 1;
  name = "Basic";
  description = "";
  price = pos 900;
  currency = "USD";
  status = PlanStatus.active;
  interval = PlanInterval.month;
  trial_period_days = pos 0;
}

abbrev pub customer : Customer
customer = record {
  organization = 1;
  email = "a@b.c";
  name = "Ann";
  provider_customer_id = "cus";
  provider_payment_method_id = "pm";
}

abbrev pub running : Subscription
running = record {
  organization = 1;
  customer = 1;
  plan = 1;
  status = SubscriptionStatus.active;
  current_period_start = new_year;
  current_period_end = february;
  canceled_at = none;
  canceled_reason = none;
  updated_at = new_year;
}

abbrev pub bill : InvoiceStatus → Invoice
bill status = record {
  organization = 1;
  subscription = 1;
  status = status;
  total = pos 900;
  currency = "USD";
  period_start = new_year;
  period_end = february;
  issued_at = some new_year;
  paid_at = none;
  updated_at = new_year;
}

abbrev pub try : PaymentStatus → PaymentAttempt
try status = record {
  organization = 1;
  invoice = 1;
  status = status;
  amount = pos 900;
  currency = "USD";
  provider = "mock";
  provider_idempotency_key = "k";
  provider_customer_id = "cus";
  provider_payment_method_id = "pm";
  provider_charge_id = "ch";
  provider_response = empty;
  idempotency_key = none;
  attempted_at = new_year;
  needs_reconciliation = false;
}

abbrev pub event : WebhookEvent
event = record {
  organization = some 1;
  event_type = "charge";
  provider = "mock";
  provider_event_id = "e1";
  payload = empty;
  processed = true;
}

-- One customer with one subscription, its invoice and its attempt.
abbrev pub shop : InvoiceStatus → PaymentStatus → Db
shop i p = record {
  users = [];
  organizations = [];
  memberships = [];
  invitations = [];
  api_keys = [];
  customers = (1, customer) ∷ [];
  plans = (1, monthly) ∷ [];
  subscriptions = (1, running) ∷ [];
  invoices = (1, bill i) ∷ [];
  lines = [];
  attempts = (1, try p) ∷ [];
  events = (1, event) ∷ [];
  receipts = [];
  queue = [];
}

abbrev pub paid_shop : Db
paid_shop = shop InvoiceStatus.paid PaymentStatus.success
