-- ===== src/Api.antt =====
-- What the views of the apps' api packages share: the reply, the permission classes, `get_queryset`
-- and `get_object`. A view returns a reply, or it raises, and the framework turns the exception into a
-- refusal. A body that reaches a view has been read by the framework: its fields are arguments, or
-- `err` where the framework's fields have refused it.
pub mod Payments
pub mod Webhooks
pub mod Accepted
pub mod Delivery
pub mod Subscriptions
pub mod Catalog
pub mod Scope
pub mod Auth
pub mod Organizations
pub mod Accounts
pub mod Founding
use chargeflow.Prelude.{
  ℕ, ℤ, pos, negsuc, Bool, true, false, Option, none, some, List, [], ◌∷◌, Table, lookup, select,
}
use chargeflow.Db.{Db, Error, permission_denied, http404, Result, ok, err}
use chargeflow.Accounts.{Request, get_request_organization}
use chargeflow.Payments.Charge.{Proc, ◌>>=◌}

-- `Response`: the status, and what the body shows, where it is not a message.
pub record Reply (A : Type 0) : Type 0 where
  pub status : ℕ
  pub body : Option A

-- A step that only reads the database.
abbrev pub reading : {A : Type 0} → (Db → Result A) → Proc A
reading f db = (f db, db)

abbrev pub reply : {A : Type 0} → ℕ → Option A → Proc (Reply A)
reply status body db = (ok (record { status = status; body = body }), db)

-- `check_permissions`: the first class that denies the request refuses it.
unfoldable pub check_permissions : List (Db → Result Bool) → Proc (Unit {0})
check_permissions [] db = (ok tt, db)
check_permissions (p ∷ ps) db = elim (p db) [
  | err e ↦ (err e, db)
  | ok false ↦ (err permission_denied, db)
  | ok true ↦ check_permissions ps db
]

-- `get_request_organization(request)` of a view, which reads the organization alone.
unfoldable pub scope : Request → Db → Result (Option ℕ)
scope r db = elim (get_request_organization r db) [ err e ↦ err e | ok (o, m) ↦ ok o ]

-- The shape of every `get_queryset`: nothing without an organization, else the rows that the filter
-- keeps for it.
unfoldable pub queryset :
    {A : Type 0} → (Db → Table A) → (ℕ → A → Bool) → Request → Db → Result (Table A)
queryset table keeps r db = elim (scope r db) [
  | err e ↦ err e
  | ok none ↦ ok []
  | ok (some o) ↦ ok (select (λ _ row. keeps o row) (table db))
]

-- `get_object` of a view with that queryset.
unfoldable pub get_object : {A : Type 0} → (Request → Db → Result (Table A)) → Request → ℕ → Proc A
get_object rows r pk db = elim (rows r db) [
  | err e ↦ (err e, db)
  | ok t ↦ elim (lookup pk t) [ none ↦ (err http404, db) | some row ↦ (ok row, db) ]
]

-- A number of a body as a primary key; a negative number is nobody's.
abbrev row_under : {A : Type 0} → ℤ → Table A → Option (ℕ × A)
row_under (pos k) t = elim (lookup k t) [ none ↦ none | some row ↦ some (k, row) ]
row_under (negsuc k) t = none

-- `get_object_or_404(Model, pk=pk, organization=org)`
unfoldable pub get_object_or_404 :
    {A : Type 0} → (Db → Table A) → (ℕ → A → Bool) → ℤ → ℕ → Proc (ℕ × A)
get_object_or_404 table keeps pk o db = elim (row_under pk (table db)) [
  | none ↦ (err http404, db)
  | some (k, row) ↦ elim (keeps o row) [ false ↦ (err http404, db) | true ↦ (ok (k, row), db) ]
]
