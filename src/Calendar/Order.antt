-- ===== src/Calendar/Order.antt =====
-- The calendar arithmetic of subscriptions/application/services.py: the order of dates in time.
use chargeflow.Prelude.{
  ℕ, zero, suc, ◌+◌, ◌*◌, ◌≤◌, ◌<◌, ◌≡◌, refl, inl, inr, arith, Bool-cases, ==_eq, ◌==◌,
}
use native.Mathlib.Numerals.{add-one}
use chargeflow.Calendar.{
  DateTime, IsDate, is_leap, days_in_month, days_before_year, days_before_month, ordinal,
  micros_per_day, instant, next_day, add_days, add_months,
}
use chargeflow.Calendar.Bounds.{next_day-IsDate, add_months-IsDate, add_months_exact}

days_before_month-year :
    (y : ℕ) → 1 ≤ y → days_before_year (y + 1) ≡ days_before_year y + days_before_month y 13
unfolding days_before_year days_before_month days_in_month is_leap
days_before_month-year y h = ground arith

month_step :
    (y m : ℕ) → 1 ≤ m → days_before_month y (m + 1) ≡ days_before_month y m + days_in_month y m
unfolding days_before_month
month_step y zero h = absurd (omega arith)
month_step y (suc m) h = rw add-one

-- The days of a year before a month, and the days of that month, fit before any later month.
month_before :
    (y m k : ℕ) → 1 ≤ m → m < k → days_before_month y m + days_in_month y m ≤ days_before_month y k
unfolding days_before_month
month_before y m zero h lt = absurd (omega arith)
month_before y m (suc zero) h lt = absurd (omega arith)
month_before y m (suc (suc k)) h lt = elim (Bool-cases (m == suc k)) [
  | inl e ↦ rw (==_eq m (suc k) e) (omega arith)
  | inr e ↦ omega (arith, month_before y m (suc k) h (ground arith))
]

pub ordinal-next_day : (dt : DateTime) → IsDate dt → ordinal (next_day dt) ≡ ordinal dt + 1
unfolding ordinal next_day
ordinal-next_day dt h = ground (
  arith,
  month_step dt.year dt.month,
  days_before_month-year dt.year,
  month_before dt.year 12 13,
  last_month dt.year,
  january (dt.year + 1),
)
  where
    january : (y : ℕ) → days_before_month y 1 ≡ 0
    january y = unfold days_before_month in refl

    last_month : (y : ℕ) → days_before_month y 13 ≡ days_before_month y 12 + days_in_month y 12
    last_month y = unfold days_before_month in refl

-- A sum of days on the time line: `n` days later is exactly `n` times 24 hours later.
pub instant-add_days :
    (n : ℕ) (dt : DateTime) → IsDate dt → instant (add_days n dt) ≡ instant dt + n * micros_per_day
unfolding add_days
instant-add_days zero dt h = omega arith
instant-add_days (suc n) dt h =
    omega (arith, instant-add_days n (next_day dt) (next_day-IsDate dt h), step)
  where
    micros-next_day : (next_day dt).micros ≡ dt.micros
    micros-next_day = unfold next_day in ground arith

    step : instant (next_day dt) ≡ instant dt + micros_per_day
    step = unfold instant in omega (arith, ordinal-next_day dt h, micros-next_day)

-- A later ordinal is a later instant, whatever the times of day.
instant_lt : (a b : DateTime) → IsDate a → ordinal a < ordinal b → instant a < instant b
unfolding instant
instant_lt a b h lt = omega arith

year_step : (y : ℕ) → 1 ≤ y → days_before_year (suc y) ≡ days_before_year y + days_before_month y 13
year_step y h = rw (← add-one y) (days_before_month-year y h)

year_before :
    (y k : ℕ) → 1 ≤ y → y < k → days_before_year y + days_before_month y 13 ≤ days_before_year k
year_before y zero h lt = absurd (omega arith)
year_before y (suc k) h lt = elim (Bool-cases (y == k)) [
  | inl e ↦ rw (← ==_eq y k e) (omega (arith, year_step y h))
  | inr e ↦ omega (arith, year_before y k h (ground arith), year_step k (omega arith))
]

-- A date in a later month has the later ordinal.
ordinal_lt :
    (a b : DateTime)
    → IsDate a
    → IsDate b
    → a.year * 12 + a.month < b.year * 12 + b.month
    → ordinal a < ordinal b
unfolding ordinal
ordinal_lt a b ha hb lt = elim (Bool-cases (a.year == b.year)) [
  | inl e ↦ rw (← ==_eq a.year b.year e) (
      omega (
        arith,
        ==_eq a.year b.year e,
        month_before a.year a.month b.month ha.from_january (omega (arith, ==_eq a.year b.year e)),
      ))
  | inr e ↦ omega (
    arith,
    month_before a.year a.month 13 ha.from_january (omega arith),
    year_before a.year b.year ha.some_year (ground arith),
  )
]

-- Adding one month or more moves a date forward in time.
pub instant-lt-add_months :
    (dt : DateTime) (n : ℕ) → IsDate dt → 1 ≤ n → instant dt < instant (add_months dt n)
instant-lt-add_months dt n h pos = instant_lt dt (add_months dt n) h (
    ordinal_lt dt (add_months dt n) h (add_months-IsDate dt n h)
      (omega (arith, add_months_exact dt n h)))
