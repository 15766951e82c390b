-- ===== src/Api/Subscriptions.antt =====
-- `SubscriptionViewSet` of subscriptions/api/views.py and `InvoiceViewSet` of invoices/api/views.py.
use chargeflow.Prelude.{ℕ, ℤ, Bool, Option, none, some, [], ◌∷◌, Table, ◌==◌}
use chargeflow.Calendar.{DateTime}
use chargeflow.Schema.{Subscription, Invoice, CancellationReason}
use chargeflow.Db.{
  Db, Error, value_error, invalid_status_transition, validation_error, Result, ok, err, M, get,
}
use chargeflow.Accounts.{Request, project_access}
use chargeflow.Subscriptions.Services
use chargeflow.Payments.Charge.{Proc, atomically, ◌>>=◌, ◌>>◌}
use chargeflow.Api.Payments.{is_invoice_of}
use chargeflow.Api.Catalog.{is_plan_of, is_customer_of}
use chargeflow.Api.{
  Reply, reading, reply, check_permissions, scope, queryset, get_object, get_object_or_404,
}

abbrev pub is_subscription_of : ℕ → Subscription → Bool
is_subscription_of o s = s.organization == o

-- `SubscriptionViewSet.get_queryset`
unfoldable pub subscription_queryset : Request → Db → Result (Table Subscription)
subscription_queryset = queryset (λ db. db.subscriptions) is_subscription_of

-- `InvoiceViewSet.get_queryset`
unfoldable pub invoice_queryset : Request → Db → Result (Table Invoice)
invoice_queryset = queryset (λ db. db.invoices) is_invoice_of

-- `except (ValueError, InvalidStatusTransition)`
unfoldable pub refusal : Error → Error
refusal value_error = validation_error
refusal invalid_status_transition = validation_error
refusal e = e

-- `_apply`
unfoldable pub apply : M (Unit {0}) → Proc (Unit {0})
apply service_call db = elim (service_call db) [
  | ok (u, db') ↦ (ok u, db')
  | err e ↦ (err (refusal e), db)
]

-- The shape of the three actions; `refresh_from_db` reads the row again for the body.
unfoldable pub act : (ℕ → M (Unit {0})) → Request → ℕ → Proc (Reply Subscription)
act service_call r pk = do
  check_permissions (project_access r ∷ [])
  s ← get_object subscription_queryset r pk
  apply (service_call pk)
  refreshed ← atomically (get (λ db. db.subscriptions) pk)
  reply 200 (some refreshed)

-- `SubscriptionViewSet.activate`
unfoldable pub activate_subscription : Request → ℕ → DateTime → Proc (Reply Subscription)
activate_subscription r pk now = act (λ k. Services.activate k now) r pk

-- `SubscriptionViewSet.cancel`, with the default reason of the service.
unfoldable pub cancel_subscription : Request → ℕ → DateTime → Proc (Reply Subscription)
cancel_subscription r pk now = act (λ k. Services.cancel k CancellationReason.voluntary now) r pk

-- `SubscriptionViewSet.renew`
unfoldable pub renew_subscription : Request → ℕ → DateTime → Proc (Reply Subscription)
renew_subscription r pk now = act (λ k. Services.renew k now) r pk

-- `except ValueError`
unfoldable pub refusal_of_create : Error → Error
refusal_of_create value_error = validation_error
refusal_of_create e = e

unfoldable pub subscribe : ℕ → ℕ → DateTime → Proc (Reply ℕ)
subscribe customer_pk plan_pk now db = elim (Services.create customer_pk plan_pk now db) [
  | ok (pk, db') ↦ (ok (record { status = 201; body = some pk }), db')
  | err e ↦ (err (refusal_of_create e), db)
]

abbrev pub subscribe_in_scope : Result (ℤ × ℤ) → DateTime → Option ℕ → Proc (Reply ℕ)
subscribe_in_scope body now none = reply 400 none
subscribe_in_scope body now (some o) = do
  ids ← reading (λ _. body)
  customer ← get_object_or_404 (λ db. db.customers) is_customer_of ids.0 o
  plan ← get_object_or_404 (λ db. db.plans) is_plan_of ids.1 o
  subscribe customer.0 plan.0 now

-- `SubscriptionViewSet.create`; `body` is the customer's and the plan's number.
unfoldable pub create_subscription : Request → Result (ℤ × ℤ) → DateTime → Proc (Reply ℕ)
create_subscription r body now = do
  check_permissions (project_access r ∷ [])
  o ← reading (scope r)
  subscribe_in_scope body now o
