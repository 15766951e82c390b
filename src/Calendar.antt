-- ===== src/Calendar.antt =====
-- Dates and times as the billing services use them: `SubscriptionService._add_months`
-- (subscriptions/application/services.py) over the proleptic Gregorian calendar of Python's
-- `datetime` and `calendar`. A `DateTime` is an aware UTC value, from the year 1 on.
pub mod Bounds
pub mod Order
use Prim.Native.Nat.{min}
use chargeflow.Prelude.{
  ℕ, zero, suc, ◌+◌, ◌-◌, ◌*◌, ◌/◌, ◌%◌, ◌≤◌, ◌<◌, Bool, true, false, not, ◌&&◌, ◌||◌, ◌==◌, leb,
  ltb, if◌then◌else◌,
}

pub record DateTime : Type 0 where
  pub year : ℕ
  pub month : ℕ
  pub day : ℕ
  -- microseconds since midnight
  pub micros : ℕ

-- `calendar.isleap`
unfoldable pub is_leap : ℕ → Bool
is_leap y = (y % 4 == 0) && (not (y % 100 == 0) || (y % 400 == 0))

-- `calendar.mdays`, from January on.
abbrev mdays : ℕ → ℕ
mdays m = if m == 2 then 28 else if leb m 7 then 30 + m % 2 else 31 - m % 2

-- `calendar.monthrange(year, month)[1]`: `mdays[month] + (month == February and isleap(year))`
unfoldable pub days_in_month : ℕ → ℕ → ℕ
days_in_month y m = mdays m + (if m == 2 && is_leap y then 1 else 0)

-- The days of the years before `y`, as `datetime.date.toordinal` counts them.
unfoldable pub days_before_year : ℕ → ℕ
days_before_year y = let p = y - 1 in p * 365 + p / 4 + p / 400 - p / 100

-- The days of year `y` before month `m`.
unfoldable pub days_before_month : ℕ → ℕ → ℕ
days_before_month year zero = 0
days_before_month year (suc zero) = 0
days_before_month year (suc (suc m)) = days_before_month year (suc m) + days_in_month year (suc m)

-- `date.toordinal`
unfoldable pub ordinal : DateTime → ℕ
ordinal dt = days_before_year dt.year + days_before_month dt.year dt.month + dt.day

abbrev pub micros_per_day : ℕ
micros_per_day = 86400000000

-- The position on the time line, by which two values compare.
unfoldable pub instant : DateTime → ℕ
unfolding ordinal
instant dt = ordinal dt * micros_per_day + dt.micros

-- `a <= b`
unfoldable pub not_after : DateTime → DateTime → Bool
not_after a b = leb (instant a) (instant b)

-- `a < b`
unfoldable pub is_before : DateTime → DateTime → Bool
is_before a b = ltb (instant a) (instant b)

unfoldable pub same_time : DateTime → DateTime → Bool
same_time a b = instant a == instant b

unfoldable pub next_day : DateTime → DateTime
next_day dt =
    if ltb dt.day (days_in_month dt.year dt.month)
    then record dt { day = dt.day + 1 }
    else if ltb dt.month 12
    then record dt { month = dt.month + 1; day = 1 }
    else record dt { year = dt.year + 1; month = 1; day = 1 }

-- `dt + timedelta(days=n)`
unfoldable pub add_days : ℕ → DateTime → DateTime
add_days zero dt = dt
add_days (suc n) dt = add_days n (next_day dt)

-- `SubscriptionService._add_months`
unfoldable pub add_months : DateTime → ℕ → DateTime
add_months dt months =
    let total : ℕ = dt.month - 1 + months in
    let year : ℕ = dt.year + total / 12 in
    let month : ℕ = total % 12 + 1 in
    let day : ℕ = min dt.day (days_in_month year month) in
    record dt { year = year; month = month; day = day }

-- The values that a `datetime` can have.
pub record IsDate (dt : DateTime) : Type 0 where
  pub some_year : 1 ≤ dt.year
  pub from_january : 1 ≤ dt.month
  pub to_december : dt.month ≤ 12
  pub from_first : 1 ≤ dt.day
  pub to_last : dt.day ≤ days_in_month dt.year dt.month
  pub within_day : dt.micros < micros_per_day
