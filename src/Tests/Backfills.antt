-- ===== src/Tests/Backfills.antt =====
-- The data migrations on a shop whose billing rows have no organization yet.
use chargeflow.Prelude.{ℕ, ◌≡◌, refl, some, [], ◌∷◌, Option, lookup}
use chargeflow.Schema.{InvoiceStatus, PaymentStatus, Json, Subscription, Customer}
use chargeflow.Db.{Db, ok, err, value_error}
use chargeflow.Payments.Webhook.{payment_key}
use chargeflow.Migrations.{assign_organizations}
use chargeflow.Migrations.Organizations.{
  IsOld, IsAssigned, assign_organizations-IsAssigned, assign_organizations-refuses,
}
use chargeflow.Tests.Shop.{monthly, customer, running, bill, try, shop}
use chargeflow.Tests.Sound.{AllRows-single, AllRows-empty}

abbrev old_subscription : Subscription
old_subscription = record running { organization = 0 }

abbrev old_shop : Db
old_shop = record (shop InvoiceStatus.paid PaymentStatus.success) {
  subscriptions = (1, old_subscription) ∷ [];
  invoices = (1, record (bill InvoiceStatus.paid) { organization = 0 }) ∷ [];
  attempts =
      (1, record (try PaymentStatus.success) { organization = 0; idempotency_key = some "" }) ∷ [];
}

abbrev to_key : Json → Option ℕ
to_key value = some (payment_key value)

old_shop-IsOld : IsOld old_shop
unfolding lookup
old_shop-IsOld = record {
  subscriptions = AllRows-single _ 1 _ (record {
    customer = customer;
    has_customer = refl;
    plan = monthly;
    has_plan = refl;
    agree = refl;
  });
  invoices = AllRows-single _ 1 _ (old_subscription, refl);
  lines = AllRows-empty _;
  attempts = AllRows-single _ 1 _ (_, refl);
  keyed_subscriptions = (refl, tt);
  keyed_invoices = (refl, tt);
  keyed_lines = tt;
  keyed_attempts = (refl, tt);
  keyed_events = (refl, tt);
}

assign_organizations-IsAssigned_example :
    (db' : Db) × (assign_organizations to_key old_shop ≡ ok (tt, db')) × IsAssigned to_key db'
assign_organizations-IsAssigned_example =
    assign_organizations-IsAssigned to_key old_shop old_shop-IsOld

abbrev stranger : Customer
stranger = record customer { organization = 2 }

abbrev mixed_shop : Db
mixed_shop = record old_shop { customers = (1, stranger) ∷ [] }

assign_organizations-refuses_example : assign_organizations to_key mixed_shop ≡ err value_error
unfolding lookup
assign_organizations-refuses_example =
    assign_organizations-refuses to_key mixed_shop 1 old_subscription stranger monthly refl refl
      refl refl
