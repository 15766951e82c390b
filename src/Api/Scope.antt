-- ===== src/Api/Scope.antt =====
-- What the views refuse: rows of other organizations, and requests that may not write.
use chargeflow.Prelude.{
  ℕ, ℤ, pos, String, Bool, true, false, ◌≡◌, Option, some, Table, lookup, lookup-select, IsKeyed,
  arith,
}
use chargeflow.Calendar.{DateTime}
use chargeflow.Schema.{Invoice, Subscription, Plan, Customer}
use chargeflow.Db.{Db, http404, permission_denied, Result, ok, err, M}
use chargeflow.Accounts.{Request, project_access}
use chargeflow.Payments.Charge.{World}
use chargeflow.Api.{check_permissions, scope, queryset, get_object, get_object_or_404}
use chargeflow.Api.Payments.{is_invoice_of}
use chargeflow.Api.Payments.{create_attempt}
use chargeflow.Api.Subscriptions.{
  act, is_subscription_of, subscription_queryset, activate_subscription, cancel_subscription,
  renew_subscription, create_subscription,
}
use chargeflow.Api.Catalog.{
  create_plan, update_plan, destroy_plan, create_customer, update_customer,
}

get_object-foreign :
    {A : Type 0} (table : Db → Table A) (keeps : ℕ → A → Bool) (r : Request) (o pk : ℕ) (row : A)
    (db : Db)
    → IsKeyed (table db)
    → scope r db ≡ ok (some o)
    → lookup pk (table db) ≡ some row
    → keeps o row ≡ false
    → get_object (queryset table keeps) r pk db ≡ (err http404, db)
unfolding get_object queryset
get_object-foreign table keeps r o pk row db keyed in_scope stored other =
    ground (arith, lookup-select (λ _ row. keeps o row) pk (table db) keyed)

module _ (r : Request) (o : ℕ) (db : Db) (in_scope : scope r db ≡ ok (some o))
    (access : project_access r db ≡ ok true) where
  act-foreign :
      (service_call : ℕ → M (Unit {0})) (pk : ℕ) (s : Subscription)
      → IsKeyed db.subscriptions
      → lookup pk db.subscriptions ≡ some s
      → is_subscription_of o s ≡ false
      → act service_call r pk db ≡ (err http404, db)
  unfolding act subscription_queryset check_permissions
  act-foreign service_call pk s keyed stored other = ground (
    arith,
    get_object-foreign (λ db. db.subscriptions) is_subscription_of r o pk s db keyed in_scope stored
        other,
  )

  -- A request that may write, in the scope of one organization, cannot act on a subscription of
  -- another: activate, cancel and renew answer that there is none, and change nothing.
  pub foreign_subscription :
      (pk : ℕ) (s : Subscription) (now : DateTime)
      → IsKeyed db.subscriptions
      → lookup pk db.subscriptions ≡ some s
      → is_subscription_of o s ≡ false
      → (activate_subscription r pk now db ≡ (err http404, db))
        × (cancel_subscription r pk now db ≡ (err http404, db))
        × (renew_subscription r pk now db ≡ (err http404, db))
  unfolding activate_subscription cancel_subscription renew_subscription
  foreign_subscription pk s now keyed stored other = (
    act-foreign _ pk s keyed stored other,
    act-foreign _ pk s keyed stored other,
    act-foreign _ pk s keyed stored other,
  )

  -- Such a request cannot pay an invoice of another organization, under any idempotency key: the view
  -- answers that there is none, and nothing is charged or stored.
  pub foreign_invoice :
      (w : World) (b : Bool) (pk : ℕ) (i : Invoice) (key : Option String)
      → lookup pk db.invoices ≡ some i
      → is_invoice_of o i ≡ false
      → create_attempt w b r (ok (pos pk)) key db ≡ (err http404, db)
  unfolding create_attempt check_permissions get_object_or_404
  foreign_invoice w b pk i key stored other = ground arith

-- A request that may not write changes nothing by any view that writes: each refuses it before it
-- looks at the body or at a row.
pub denied :
    (r : Request) (db : Db)
    → project_access r db ≡ ok false
    → (w : World) (b : Bool) (pk : ℕ) (invoice_id : Result ℤ) (key : Option String)
      (ids : Result (ℤ × ℤ)) (now : DateTime) (plan : ℕ → Plan) (write_plan : Plan → Plan)
      (customer : ℕ → Customer) (write_customer : Customer → Customer)
    → (create_attempt w b r invoice_id key db ≡ (err permission_denied, db))
      × (create_subscription r ids now db ≡ (err permission_denied, db))
      × (activate_subscription r pk now db ≡ (err permission_denied, db))
      × (cancel_subscription r pk now db ≡ (err permission_denied, db))
      × (renew_subscription r pk now db ≡ (err permission_denied, db))
      × (create_plan r plan db ≡ (err permission_denied, db))
      × (update_plan r pk write_plan db ≡ (err permission_denied, db))
      × (destroy_plan r pk db ≡ (err permission_denied, db))
      × (create_customer r customer db ≡ (err permission_denied, db))
      × (update_customer r pk write_customer db ≡ (err permission_denied, db))
unfolding create_attempt create_subscription activate_subscription cancel_subscription
    renew_subscription act create_plan update_plan destroy_plan create_customer update_customer
    check_permissions
denied r db refused w b pk invoice_id key ids now plan write_plan customer write_customer =
    ground arith
