-- ===== src/Periods.antt =====
-- The billing periods of subscriptions/application/services.py.
use chargeflow.Prelude.{◌<◌, arith}
use chargeflow.Calendar.{DateTime, IsDate, instant}
use chargeflow.Calendar.Bounds.{add_months-IsDate, add_days-IsDate}
use chargeflow.Calendar.Order.{instant-add_days, instant-lt-add_months}
use chargeflow.Schema.{PlanInterval, Plan}
use chargeflow.Subscriptions.Services.{compute_period_end}

-- From a date of the calendar, the end of a period is a date of the calendar and lies strictly
-- behind its start, whatever the plan's interval.
pub compute_period_end_later :
    (start : DateTime) (plan : Plan)
    → IsDate start
    → IsDate (compute_period_end start plan)
      × (instant start < instant (compute_period_end start plan))
unfolding compute_period_end
compute_period_end_later start plan h = by_interval plan.interval
  where
    by_interval :
        (i : PlanInterval)
        → IsDate (compute_period_end start (record plan { interval = i }))
          × (instant start < instant (compute_period_end start (record plan { interval = i })))
    by_interval PlanInterval.day =
        (add_days-IsDate 1 start h, omega (arith, instant-add_days 1 start h))
    by_interval PlanInterval.week =
        (add_days-IsDate 7 start h, omega (arith, instant-add_days 7 start h))
    by_interval PlanInterval.month =
        (add_months-IsDate start 1 h, instant-lt-add_months start 1 h (omega arith))
    by_interval PlanInterval.year =
        (add_months-IsDate start 12 h, instant-lt-add_months start 12 h (omega arith))
    by_interval (PlanInterval.other _) =
        (add_days-IsDate 30 start h, omega (arith, instant-add_days 30 start h))
