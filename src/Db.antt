-- ===== src/Db.antt =====
-- The database that the services share, and the transactions over it.
--
-- A transaction is a function of the database that returns a result and the new database, or an
-- error and no database: that is `transaction.atomic`, which rolls everything back when an
-- exception leaves the block, the `on_commit` hand-offs included. Nested blocks are savepoints, and
-- `handle` is an `except` around one. Transactions run one after the other: the row locks of the
-- source (`select_for_update`) make the concurrent ones wait.
use chargeflow.Prelude.{
  ℕ, Bool, true, false, none, some, List, [], ◌∷◌, ◌++◌, Table, lookup, ◌≡◌, refl, ◌⊎◌, inl, inr,
  arith, if◌then◌else◌,
}
use chargeflow.Schema.{
  User, Organization, OrganizationMembership, Invitation, Customer, ApiKey, Plan, Subscription,
  Invoice, InvoiceLine, PaymentAttempt, WebhookEvent, MockChargeReceipt,
}

pub record Db : Type 0 where
  pub users : Table User
  pub organizations : Table Organization
  pub memberships : Table OrganizationMembership
  pub invitations : Table Invitation
  pub api_keys : Table ApiKey
  pub customers : Table Customer
  pub plans : Table Plan
  pub subscriptions : Table Subscription
  pub invoices : Table Invoice
  pub lines : Table InvoiceLine
  pub attempts : Table PaymentAttempt
  pub events : Table WebhookEvent
  pub receipts : Table MockChargeReceipt
  -- the invoices that `charge_invoice.delay` has handed to the worker, oldest first
  pub queue : List ℕ

-- The unique constraints of the payment tables, by their names.
pub data Constraint : Type 0 where
  unique_project_payment_key one_success_per_invoice unique_provider_payment_key : Constraint
  unique_provider_charge unique_provider_event unique_org_owner unique_membership
        unique_user_email :
      Constraint

-- The exceptions, by their classes.
pub data Error : Type 0 where
  does_not_exist invalid_status_transition value_error validation_error : Error
  invoice_not_payable idempotency_conflict runtime_error operational_error : Error
  permission_denied authentication_failed multiple_objects http404 protected_error : Error
  data_error : Error
  integrity_error : Constraint → Error

pub data Result {ℓ} (A : Type ℓ) : Type ℓ where
  ok : A → Result A
  err : Error → Result A

-- A transaction.
abbrev pub M : Type 0 → Type 0
M A = Db → Result (A × Db)

module _ {A : Type 0} where
  abbrev pub pure : A → M A
  pure a db = ok (a, db)

  abbrev pub raise : Error → M A
  raise e db = err e

  abbrev pub gets : (Db → A) → M A
  gets f db = ok (f db, db)

  -- `try: with transaction.atomic(): m` with `except` clauses; `f` raises again what no clause takes.
  abbrev pub handle : M A → (Error → M A) → M A
  handle m f db = elim (m db) [ ok r ↦ ok r | err e ↦ f e db ]

  -- `objects.select_for_update().get(pk=k)`: the lock changes no row.
  abbrev pub get : (Db → Table A) → ℕ → M A
  get table k db = elim (lookup k (table db)) [ none ↦ err does_not_exist | some r ↦ ok (r, db) ]

infixl 5 ◌>>=◌ ◌>>◌
abbrev pub ◌>>=◌ : {A B : Type 0} → M A → (A → M B) → M B
◌>>=◌ m f db = elim (m db) [ ok (a, db') ↦ f a db' | err e ↦ err e ]

abbrev pub ◌>>◌ : {A B : Type 0} → M A → M B → M B
m >> k = m >>= λ _. k

abbrev pub modify : (Db → Db) → M (Unit {0})
modify f db = ok (tt, f db)

-- `if c: raise e`
abbrev pub raise_if : Bool → Error → M (Unit {0})
raise_if true e db = err e
raise_if false e db = ok (tt, db)

-- `transaction.on_commit(lambda: charge_invoice.delay(pk))`: a rollback forgets it.
unfoldable pub hand_off : ℕ → M (Unit {0})
hand_off pk db = ok (tt, record db { queue = db.queue ++ pk ∷ [] })

pub Result-cases :
    {A : Type 0} (r : Result (A × Db))
    → ((a : A) × (db : Db) × (r ≡ ok (a, db))) ⊎ ((e : Error) × (r ≡ err e))
Result-cases (ok (a, db)) = inl (a, db, refl)
Result-cases (err e) = inr (e, refl)

-- Inversion of a sequence that went through.
pub >>=-eq-ok :
    {A B : Type 0} (m : M A) (f : A → M B) (db : Db) {b : B} {db'' : Db}
    → (m >>= f) db ≡ ok (b, db'')
    → (a : A) × (db' : Db) × (m db ≡ ok (a, db')) × (f a db' ≡ ok (b, db''))
>>=-eq-ok m f db h = elim (Result-cases (m db)) [
  | inl (a, db', e) ↦ (a, db', e, ground arith)
  | inr (x, e) ↦ ground arith
]

pub >>-eq-ok :
    {A B : Type 0} (m : M A) (k : M B) (db : Db) {b : B} {db'' : Db}
    → (m >> k) db ≡ ok (b, db'')
    → (a : A) × (db' : Db) × (m db ≡ ok (a, db')) × (k db' ≡ ok (b, db''))
>>-eq-ok m k db h = >>=-eq-ok m (λ _. k) db h

pub handle-eq-ok :
    {A : Type 0} (m : M A) (f : Error → M A) (db : Db) {x : A × Db}
    → handle m f db ≡ ok x
    → (m db ≡ ok x) ⊎ ((e : Error) × (m db ≡ err e) × (f e db ≡ ok x))
handle-eq-ok m f db h = elim (Result-cases (m db)) [
  | inl (a, db', e) ↦ inl (ground arith)
  | inr (x, e) ↦ inr (x, e, ground arith)
]

pub if-eq :
    {A : Type 0} (b : Bool) (m n : M A) (db : Db) {r : Result (A × Db)}
    → (if b then m else n) db ≡ r
    → ((b ≡ true) × (m db ≡ r)) ⊎ ((b ≡ false) × (n db ≡ r))
if-eq true m n db h = inl (refl, h)
if-eq false m n db h = inr (refl, h)
