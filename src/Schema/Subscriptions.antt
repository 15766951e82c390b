-- ===== src/Schema/Subscriptions.antt =====
-- The columns and the states of subscriptions/domain/models.py.
use chargeflow.Prelude.{ℕ, Bool, true, false, Option, List, [], ◌∷◌, ◌||◌, ◌==◌, ◌≡◌, arith}
use chargeflow.Calendar.{DateTime}

pub data SubscriptionStatus : Type 0 where
  trial active overdue canceled : SubscriptionStatus

pub data CancellationReason : Type 0 where
  voluntary non_payment : CancellationReason

pub record Subscription : Type 0 where
  pub organization : ℕ
  pub customer : ℕ
  pub plan : ℕ
  pub status : SubscriptionStatus
  pub current_period_start : DateTime
  pub current_period_end : DateTime
  pub canceled_at : Option DateTime
  pub canceled_reason : Option CancellationReason
  pub updated_at : DateTime

-- `SUBSCRIPTION_TRANSITIONS`
unfoldable pub subscription_transitions : SubscriptionStatus → List SubscriptionStatus
subscription_transitions SubscriptionStatus.trial =
    SubscriptionStatus.active ∷ SubscriptionStatus.canceled ∷ []
subscription_transitions SubscriptionStatus.active =
    SubscriptionStatus.overdue ∷ SubscriptionStatus.canceled ∷ []
subscription_transitions SubscriptionStatus.overdue =
    SubscriptionStatus.active ∷ SubscriptionStatus.canceled ∷ []
subscription_transitions SubscriptionStatus.canceled = []

abbrev subscription_code : SubscriptionStatus → ℕ
subscription_code SubscriptionStatus.trial = 0
subscription_code SubscriptionStatus.active = 1
subscription_code SubscriptionStatus.overdue = 2
subscription_code SubscriptionStatus.canceled = 3

-- Equality of two states.
abbrev pub same_subscription_status : SubscriptionStatus → SubscriptionStatus → Bool
same_subscription_status a b = subscription_code a == subscription_code b

-- `new_status in allowed`
unfoldable pub subscription_status_in : SubscriptionStatus → List SubscriptionStatus → Bool
subscription_status_in s [] = false
subscription_status_in s (x ∷ xs) = same_subscription_status s x || subscription_status_in s xs

pub same_subscription_status_eq :
    (a b : SubscriptionStatus) → same_subscription_status a b ≡ true → a ≡ b
same_subscription_status_eq a b h = ground arith

pub same_subscription_status_refl : (a : SubscriptionStatus) → same_subscription_status a a ≡ true
same_subscription_status_refl a = ground arith
