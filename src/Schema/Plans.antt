-- ===== src/Schema/Plans.antt =====
-- plans/models.py
use chargeflow.Prelude.{ℕ, ℤ, String}

pub data PlanStatus : Type 0 where
  active archived : PlanStatus

-- The column is a text; a value outside the four choices is `other`.
pub data PlanInterval : Type 0 where
  day week month year : PlanInterval
  other : String → PlanInterval

pub record Plan : Type 0 where
  pub organization : ℕ
  pub name : String
  pub description : String
  pub price : ℤ
  pub currency : String
  pub status : PlanStatus
  pub interval : PlanInterval
  pub trial_period_days : ℤ
