-- ===== src/Calendar/Bounds.antt =====
-- The calendar arithmetic of subscriptions/application/services.py: which dates it gives.
use chargeflow.Prelude.{ℕ, zero, suc, ◌+◌, ◌-◌, ◌*◌, ◌/◌, ◌%◌, ◌≤◌, ◌<◌, ◌≡◌, arith}
use chargeflow.Calendar.{DateTime, IsDate, days_in_month, next_day, add_days, add_months}

pub days_in_month_bounds : (y m : ℕ) → (28 ≤ days_in_month y m) × (days_in_month y m ≤ 31)
unfolding days_in_month
days_in_month_bounds y m = ground arith

-- The date that `_add_months` builds exists, so its `replace` does not raise for a bad day.
pub add_months-IsDate : (dt : DateTime) (n : ℕ) → IsDate dt → IsDate (add_months dt n)
unfolding add_months
add_months-IsDate dt n h =
    omega (
      arith,
      days_in_month_bounds (dt.year + (dt.month - 1 + n) / 12) ((dt.month - 1 + n) % 12 + 1),
    )

-- `_add_months` moves the count of months by exactly `n`, keeps the day of the month where the new
-- month has it, takes the new month's last day where it has not, and keeps the time of day.
pub add_months_exact :
    (dt : DateTime) (n : ℕ)
    → IsDate dt
    → let r = add_months dt n in
      (r.year * 12 + r.month ≡ dt.year * 12 + dt.month + n)
      × (dt.day ≤ days_in_month r.year r.month → r.day ≡ dt.day)
      × (days_in_month r.year r.month < dt.day → r.day ≡ days_in_month r.year r.month)
      × (r.micros ≡ dt.micros)
unfolding add_months
add_months_exact dt n h = omega arith

pub next_day-IsDate : (dt : DateTime) → IsDate dt → IsDate (next_day dt)
unfolding next_day
next_day-IsDate dt h =
    ground
      (arith, days_in_month_bounds dt.year (dt.month + 1), days_in_month_bounds (dt.year + 1) 1)

pub add_days-IsDate : (n : ℕ) (dt : DateTime) → IsDate dt → IsDate (add_days n dt)
unfolding add_days
add_days-IsDate zero dt h = h
add_days-IsDate (suc n) dt h = add_days-IsDate n (next_day dt) (next_day-IsDate dt h)
