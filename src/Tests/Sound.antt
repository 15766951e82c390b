-- ===== src/Tests/Sound.antt =====
-- A sound shop, and what its soundness gives.
use chargeflow.Prelude.{
  ℕ, Bool, true, ◌≡◌, refl, inl, inr, some, [], ◌∷◌, lookup, put, select, arith, ◌==◌, ==_eq,
  Bool-cases,
}
use chargeflow.Schema.{
  InvoiceStatus, Invoice, PaymentStatus, PaymentAttempt, Subscription, Customer, Plan, empty,
  subscription_status_in, subscription_transitions, invoice_status_in,
}
use chargeflow.Invoices
use chargeflow.Subscriptions
use chargeflow.Subscriptions.Services
use chargeflow.Payments.Settle.{settle}
use chargeflow.Evolution.Growth.{AllRows}
use chargeflow.Evolution.Unique.{IsUniqueBy}
use chargeflow.Evolution.Sound.{IsSound}
use chargeflow.History.{run-IsSound, attempt_owner}
use chargeflow.Settlement.Decides.{Decides}
use chargeflow.Settlement.Total.{settle-Decides}
use chargeflow.Tests.Shop.{february, monthly, customer, running, bill, try, shop, paid_shop}
use chargeflow.Tests.Runs.{run, canceled_shop}

single_row : {A : Type 0} (j k : ℕ) (x a : A) → lookup k ((j, x) ∷ []) ≡ some a → (j ≡ k) × (a ≡ x)
unfolding lookup
single_row j k x a e = elim (Bool-cases (j == k)) [
  | inl same ↦ (==_eq j k same, ground arith)
  | inr other ↦ absurd (ground arith)
]

pub AllRows-single : {A : Type 0} (P : A → Type 0) (j : ℕ) (x : A) → P x → AllRows P ((j, x) ∷ [])
AllRows-single P j x p = record { at = λ k a e. let (_, same) = single_row j k x a e in rw same p }

pub AllRows-empty : {A : Type 0} (P : A → Type 0) → AllRows P []
AllRows-empty P = record { at = λ k a e. absurd (unfold lookup in cc e) }

single-IsUniqueBy :
    (agrees : PaymentAttempt → PaymentAttempt → Bool) (j : ℕ) (x : PaymentAttempt)
    → IsUniqueBy agrees ((j, x) ∷ [])
single-IsUniqueBy agrees j x = record {
  same = λ i k a b hi hk e.
      let (p, _) = single_row j i x a hi in
      let (q, _) = single_row j k x b hk in grind (arith, p, q);
}

pub shop-IsSound : (i : InvoiceStatus) (p : PaymentStatus) → IsSound (shop i p)
unfolding lookup
shop-IsSound i p = record {
  subscriptions = AllRows-single _ 1 running (record {
    customer = record { parent = customer; stored = refl; same_organization = refl };
    plan = record { parent = monthly; stored = refl; same_organization = refl };
  });
  invoices =
      AllRows-single _ 1 (bill i)
        (record { parent = running; stored = refl; same_organization = refl });
  lines = AllRows-empty _;
  attempts = AllRows-single _ 1 (try p) (record {
    invoice = record { parent = bill i; stored = refl; same_organization = refl };
    key = refl;
  });
  unique = record {
    keyed = (refl, tt);
    key = single-IsUniqueBy _ 1 (try p);
    success = single-IsUniqueBy _ 1 (try p);
    provider_key = single-IsUniqueBy _ 1 (try p);
    charge = single-IsUniqueBy _ 1 (try p);
  };
  keyed_subscriptions = (refl, tt);
  keyed_invoices = (refl, tt);
}

paid_shop-IsSound : IsSound paid_shop
paid_shop-IsSound = shop-IsSound InvoiceStatus.paid PaymentStatus.success

run-IsSound_example : IsSound canceled_shop
run-IsSound_example = run-IsSound run paid_shop-IsSound

attempt_owner_example :
    (i : Invoice) × (s : Subscription) × (c : Customer) × (p : Plan) × (lookup 1
        canceled_shop.invoices
      ≡ some i)
    × (lookup i.subscription canceled_shop.subscriptions ≡ some s)
    × (lookup s.customer canceled_shop.customers ≡ some c)
    × (lookup s.plan canceled_shop.plans ≡ some p)
    × (i.organization ≡ 1)
    × (s.organization ≡ 1)
    × (c.organization ≡ 1)
    × (p.organization ≡ 1)
unfolding lookup Services.cancel Subscriptions.transition_to subscription_status_in
    subscription_transitions Subscriptions.compare_and_set Subscriptions.save put
    Subscriptions.stamp Invoices.cancel_open_for_subscription Invoices.cancel_each select
    Invoices.is_open_of invoice_status_in
attempt_owner_example = attempt_owner run paid_shop-IsSound 1 (try PaymentStatus.success) refl

settle-Decides_example :
    Decides 1 (settle 1 true empty "ch" february (shop InvoiceStatus.issued PaymentStatus.pending))
unfolding lookup
settle-Decides_example =
    settle-Decides (shop InvoiceStatus.issued PaymentStatus.pending) 1 (try PaymentStatus.pending)
      (shop-IsSound InvoiceStatus.issued PaymentStatus.pending) refl true empty "ch" february
