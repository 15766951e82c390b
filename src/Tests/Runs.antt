-- ===== src/Tests/Runs.antt =====
-- Runs, periods, batches and invoices.
use chargeflow.Dunning.{reissued, dun_invoice-retry}
use chargeflow.Tasks.{dun_invoice}
use chargeflow.Prelude.{count_rows}
use chargeflow.Prelude.{
  put, select, ℕ, pos, ◌+◌, ◌*◌, ◌≤◌, ◌<◌, false, ◌≡◌, refl, inl, some, [], ◌∷◌, lookup, is_blank,
  arith, fresh, find_row,
}
use chargeflow.Calendar.{IsDate, instant, add_days, add_months, days_in_month, micros_per_day}
use chargeflow.Calendar.Bounds.{add_months_exact}
use chargeflow.Calendar.Order.{instant-add_days}
use chargeflow.Schema.{
  subscription_status_in, subscription_transitions, invoice_status_in, empty, CancellationReason,
  InvoiceStatus, PaymentStatus, PaymentAttempt,
}
use chargeflow.Db.{Db, ok}
use chargeflow.Invoices
use chargeflow.Subscriptions.{transition_to, compare_and_set, save, stamp}
use chargeflow.Subscriptions.Services
use chargeflow.Payments.Settle.{settle, is_final}
use chargeflow.Payments.Charge.{Proc, atomically}
use chargeflow.Tasks.{run_batch}
use chargeflow.Evolution.Rules.{Evolves}
use chargeflow.Evolution.Unique.{HasOneSuccess}
use chargeflow.History.{
  cancelling, Run, start, then_step, Run-Evolves, paid_invoice_stays, success_stays, charged_once,
}
use chargeflow.Periods.{compute_period_end_later}
use chargeflow.Settlement.{settle-final}
use chargeflow.Batches.{NeverOperational, run_each, run_batch-each}
use chargeflow.Invoicing.{billed, invoiced, generate-creates}
use chargeflow.Tests.Shop.{new_year, february, monthly, running, bill, try, shop, paid_shop}

-- The database behind a cancellation of the subscription.
abbrev pub canceled_shop : Db
canceled_shop = (atomically (Services.cancel 1 CancellationReason.voluntary february) paid_shop).1

abbrev pub run : Run paid_shop canceled_shop
run = then_step start (cancelling 1 CancellationReason.voluntary february paid_shop)

Run-Evolves_example : Evolves paid_shop canceled_shop
Run-Evolves_example = Run-Evolves run

paid_invoice_stays_example : lookup 1 canceled_shop.invoices ≡ some (bill InvoiceStatus.paid)
unfolding lookup
paid_invoice_stays_example = paid_invoice_stays run 1 (bill InvoiceStatus.paid) refl refl

success_stays_example :
    (b : PaymentAttempt) × (lookup 1 canceled_shop.attempts ≡ some b)
    × (b.status ≡ PaymentStatus.success)
    × (b.invoice ≡ 1)
    × (b.amount ≡ pos 900)
    × (is_blank "ch" ≡ false → b.provider_charge_id ≡ "ch")
unfolding lookup
success_stays_example = success_stays run 1 (try PaymentStatus.success) refl refl

new_year-IsDate : IsDate new_year
unfolding days_in_month
new_year-IsDate = record {
  some_year = omega arith;
  from_january = omega arith;
  to_december = omega arith;
  from_first = omega arith;
  to_last = omega arith;
  within_day = omega arith;
}

compute_period_end_later_example :
    IsDate (Services.compute_period_end new_year monthly)
    × (instant new_year < instant (Services.compute_period_end new_year monthly))
compute_period_end_later_example = compute_period_end_later new_year monthly new_year-IsDate

add_months_exact_example :
    let r = add_months new_year 1 in
    (r.year * 12 + r.month ≡ 2024 * 12 + 1 + 1)
    × (31 ≤ days_in_month r.year r.month → r.day ≡ 31)
    × (days_in_month r.year r.month < 31 → r.day ≡ days_in_month r.year r.month)
    × (r.micros ≡ 0)
add_months_exact_example = add_months_exact new_year 1 new_year-IsDate

instant-add_days_example : instant (add_days 30 new_year) ≡ instant new_year + 30 * micros_per_day
instant-add_days_example = instant-add_days 30 new_year new_year-IsDate

settle-final_example : settle 1 false empty "ch2" february paid_shop ≡ ok (tt, paid_shop)
unfolding lookup is_final
settle-final_example =
    settle-final paid_shop 1 (try PaymentStatus.success) (bill InvoiceStatus.paid) running refl refl
      refl false empty "ch2" february refl (inl refl)

paid_shop-HasOneSuccess : HasOneSuccess paid_shop.attempts
unfolding lookup
paid_shop-HasOneSuccess = record {
  same = λ j k a b hj hk e. grind (arith, only j a hj, only k b hk);
}
  where
    only : (j : ℕ) (a : PaymentAttempt) → lookup j paid_shop.attempts ≡ some a → j ≡ 1
    only j a h = ground arith

-- The cancellation leaves the attempt as it was.
canceled_shop-attempt : lookup 1 canceled_shop.attempts ≡ some (try PaymentStatus.success)
unfolding lookup Services.cancel transition_to subscription_status_in subscription_transitions
    compare_and_set save put stamp Invoices.cancel_open_for_subscription Invoices.cancel_each select
    Invoices.is_open_of invoice_status_in
canceled_shop-attempt = refl

charged_once_example : ◌≡◌ {A = ℕ} 1 1
charged_once_example =
    charged_once run paid_shop-HasOneSuccess 1 1 (try PaymentStatus.success)
      (try PaymentStatus.success) canceled_shop-attempt canceled_shop-attempt refl refl refl

abbrev pay : ℕ → Proc (Unit {0})
pay k = atomically (Invoices.mark_paid k february)

pay-NeverOperational : NeverOperational pay
unfolding Invoices.mark_paid Invoices.transition_to Invoices.compare_and_set
pay-NeverOperational = record { caught = λ k db e h. ground arith }

run_batch-each_example :
    run_batch pay (7 ∷ 1 ∷ []) (shop InvoiceStatus.issued PaymentStatus.pending)
    ≡ (ok tt, run_each pay (7 ∷ 1 ∷ []) (shop InvoiceStatus.issued PaymentStatus.pending))
run_batch-each_example =
    run_batch-each pay (7 ∷ 1 ∷ []) (shop InvoiceStatus.issued PaymentStatus.pending)
      pay-NeverOperational

-- The shop before its first invoice.
abbrev bare_shop : Db
bare_shop = record paid_shop { invoices = []; attempts = [] }

generate-creates_example :
    Invoices.generate_for_subscription 1 new_year bare_shop
    ≡ ok
        (some (1, billed 1 running monthly new_year), invoiced 1 running monthly new_year bare_shop)
unfolding lookup find_row fresh
generate-creates_example = generate-creates 1 running monthly bare_shop refl refl refl new_year refl

abbrev failed_shop : Db
failed_shop = shop InvoiceStatus.failed PaymentStatus.failed

dun_invoice-retry_example :
    dun_invoice 1 february failed_shop
    ≡ ok (tt, reissued 1 (bill InvoiceStatus.failed) february failed_shop)
unfolding lookup count_rows
dun_invoice-retry_example =
    dun_invoice-retry 1 (bill InvoiceStatus.failed) running february failed_shop refl refl
      (omega arith)
