-- ===== src/Schema/Accounts.antt =====
-- accounts/models.py
use chargeflow.Prelude.{ℕ, String, Bool, Option}
use chargeflow.Calendar.{DateTime}

pub record User : Type 0 where
  pub username : String
  pub email : String

pub record Organization : Type 0 where
  pub owner : ℕ
  pub name : String

-- `OrganizationMembership.Role`
pub data Role : Type 0 where
  owner admin member : Role

pub record OrganizationMembership : Type 0 where
  pub organization : ℕ
  pub user : ℕ
  pub role : Role
  pub joined_at : DateTime

pub record Invitation : Type 0 where
  pub organization : ℕ
  pub email : String
  pub role : Role
  pub token : String
  pub expires_at : DateTime
  pub accepted_at : Option DateTime

pub record Customer : Type 0 where
  pub organization : ℕ
  pub email : String
  pub name : String
  pub provider_customer_id : String
  pub provider_payment_method_id : String

-- `ApiKey.Scope`
pub data Scope : Type 0 where
  read read_write : Scope

pub record ApiKey : Type 0 where
  pub organization : ℕ
  pub name : String
  pub prefix : String
  pub key_hash : String
  pub scope : Scope
  pub expires_at : Option DateTime
  pub revoked : Bool
