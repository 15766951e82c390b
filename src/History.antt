-- ===== src/History.antt =====
-- What every run of the billing core keeps.
mod Steps
pub use Steps.*
use chargeflow.Api.Catalog.{save_plan, save_customer, delete_plan, insert_plan, insert_customer}
use chargeflow.Evolution.Catalog.{
  save_plan-Grows, save_customer-Grows, delete_plan-Grows, insert_plan-Grows, insert_customer-Grows,
}
use chargeflow.Tasks.{dun_invoice, renew_if_still_due, activate_if_still_expired}
use chargeflow.Db.{hand_off}
use chargeflow.Evolution.Rules.{Grows-hand_off}
use chargeflow.Evolution.Tasks.{
  dun_invoice-Grows, renew_if_still_due-Grows, activate_if_still_expired-Grows,
}
use chargeflow.Prelude.{
  ℕ, String, Bool, true, false, ◌≡◌, ◌∙◌, Option, some, lookup, arith, is_blank, ==_refl,
}
use chargeflow.Calendar.{DateTime}
use chargeflow.Schema.{
  Json, Fields, CancellationReason, InvoiceStatus, Invoice, PaymentStatus, PaymentAttempt,
  ChargeRequest, Subscription, Customer, Plan,
}
use chargeflow.Db.{Db, M}
use chargeflow.Invoices
use chargeflow.Subscriptions.Services
use chargeflow.Payments.Attempts.{agrees_on_success}
use chargeflow.Payments.Prepare.{prepare}
use chargeflow.Payments.Settle.{settle}
use chargeflow.Payments.Webhook.{handle_webhook}
use chargeflow.Payments.Gateway.{Digest, charge}
use chargeflow.Payments.Charge.{World, atomically, attempt, charge_issued, recover_pending}
use chargeflow.Tasks.{run_dunning, run_renewals, run_trial_activations, reconcile_stuck}
use chargeflow.Evolution.Rows.{status_le}
use chargeflow.Evolution.Rules.{Evolves, Evolves-refl, Evolves-trans, Grows}
use chargeflow.Evolution.Unique.{HasOneSuccess}
use chargeflow.Evolution.Sound.{IsSound}
use chargeflow.Evolution.Invoices.{generate_for_subscription-Grows}
use chargeflow.Evolution.Billing.{create-Grows, activate-Grows, renew-Grows, cancel-Grows}
use chargeflow.Evolution.Settle.{settle-Grows}
use chargeflow.Evolution.Prepare.{prepare-Grows}
use chargeflow.Evolution.Webhook.{handle_webhook-Grows}
use chargeflow.Evolution.Charge.{
  Keeps-atomically, charge-Grows, attempt-Keeps, charge_issued-Keeps, recover_pending-Keeps,
}
use chargeflow.Evolution.Tasks.{
  run_dunning-Keeps, run_renewals-Keeps, run_trial_activations-Keeps, reconcile_stuck-Keeps,
}

-- In every run, every invoice keeps its terms and moves by `INVOICE_TRANSITIONS` only, every
-- subscription keeps its parents and moves by `SUBSCRIPTION_TRANSITIONS` only, every attempt keeps
-- its request, its charge's name and its flag and never leaves a success, no row of these three
-- tables is lost, a webhook event that was received stays received, and the constraint of one success
-- per invoice is kept.
pub Run-Evolves : {db db' : Db} → Run db db' → Evolves db db'
Run-Evolves start = Evolves-refl _
Run-Evolves (then_step r s) = Evolves-trans (Run-Evolves r) (Step-Evolves s)

-- In every run from a sound database the database stays sound: no foreign key of a subscription, an
-- invoice, a line or an attempt dangles or names a row of another organization, no client key is
-- blank, the attempts obey their four unique constraints, and no two subscriptions, invoices or
-- attempts share a key.
pub run-IsSound : {db db' : Db} → Run db db' → IsSound db → IsSound db'
run-IsSound run h = (Run-Evolves run).sound h

-- In every run from a sound database, the money of an attempt stays in one organization: at the end
-- its invoice, the invoice's subscription, and the customer and the plan of that exist, and all of
-- them belong to the organization of the attempt.
pub attempt_owner :
    {db db' : Db} (run : Run db db')
    → IsSound db
    → (pk : ℕ) (a : PaymentAttempt) → lookup pk db'.attempts ≡ some a
    → (i : Invoice) × (s : Subscription) × (c : Customer) × (p : Plan) × (lookup a.invoice
          db'.invoices
        ≡ some i)
      × (lookup i.subscription db'.subscriptions ≡ some s)
      × (lookup s.customer db'.customers ≡ some c)
      × (lookup s.plan db'.plans ≡ some p)
      × (i.organization ≡ a.organization)
      × (s.organization ≡ a.organization)
      × (c.organization ≡ a.organization)
      × (p.organization ≡ a.organization)
attempt_owner run h pk a e =
    let sound = run-IsSound run h in
    let i = (sound.attempts.at pk a e).invoice in
    let s = sound.invoices.at a.invoice i.parent i.stored in
    let parents = sound.subscriptions.at i.parent.subscription s.parent s.stored in
    let c = parents.customer in
    let p = parents.plan in
    let of_subscription = s.same_organization ∙ i.same_organization in
    (
      i.parent,
      s.parent,
      c.parent,
      p.parent,
      i.stored,
      s.stored,
      c.stored,
      p.stored,
      i.same_organization,
      of_subscription,
      c.same_organization ∙ of_subscription,
      p.same_organization ∙ of_subscription,
    )

-- In every run, an invoice that is paid stays as it is, in every column.
pub paid_invoice_stays :
    {db db' : Db} (run : Run db db') (pk : ℕ) (i : Invoice)
    → lookup pk db.invoices ≡ some i
    → i.status ≡ InvoiceStatus.paid
    → lookup pk db'.invoices ≡ some i
paid_invoice_stays run pk i h p =
    let (j, hj, le) = (Run-Evolves run).invoices.at pk i h in rw (le.paid p) at hj

-- In every run, an attempt that has succeeded is still there, still a success for the same invoice
-- and the same amount, and under the same charge's name where it had one.
pub success_stays :
    {db db' : Db} (run : Run db db') (pk : ℕ) (a : PaymentAttempt)
    → lookup pk db.attempts ≡ some a
    → a.status ≡ PaymentStatus.success
    → (b : PaymentAttempt) × (lookup pk db'.attempts ≡ some b)
      × (b.status ≡ PaymentStatus.success)
      × (b.invoice ≡ a.invoice)
      × (b.amount ≡ a.amount)
      × (is_blank a.provider_charge_id ≡ false → b.provider_charge_id ≡ a.provider_charge_id)
success_stays run pk a h p =
    let (b, hb, le) = (Run-Evolves run).attempts.at pk a h in
    (b, hb, stays a.status b.status le.status p, le.invoice, le.amount, le.charge_id)
  where
    stays :
        (s t : PaymentStatus)
        → status_le s t ≡ true
        → s ≡ PaymentStatus.success
        → t ≡ PaymentStatus.success
    stays s t h e = ground arith

-- In every run that starts without two successful attempts for one invoice, two attempts that have
-- succeeded at the end for one invoice are the same attempt: no invoice is charged twice.
pub charged_once :
    {db db' : Db} (run : Run db db')
    → HasOneSuccess db.attempts
    → (j k : ℕ) (a b : PaymentAttempt) → lookup j db'.attempts ≡ some a
    → lookup k db'.attempts ≡ some b
    → a.invoice ≡ b.invoice
    → a.status ≡ PaymentStatus.success
    → b.status ≡ PaymentStatus.success
    → j ≡ k
charged_once run one j k a b hj hk same sa sb =
    ((Run-Evolves run).one_success one).same j k a b hj hk (agree a b same sa sb)
  where
    agree :
        (a b : PaymentAttempt)
        → a.invoice ≡ b.invoice
        → a.status ≡ PaymentStatus.success
        → b.status ≡ PaymentStatus.success
        → agrees_on_success a b ≡ true
    agree a b e p q = ground (arith, ==_refl a.invoice)
