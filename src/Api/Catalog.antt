-- ===== src/Api/Catalog.antt =====
-- `Plan` of plans/models.py and `Customer` of accounts/models.py, with `PlanViewSet` of
-- plans/api/views.py and `CustomerViewSet` of accounts/api/views.py. A body that the model's
-- serializer has accepted is the row that it makes, without the organization.
use chargeflow.Prelude.{
  ℕ, Bool, false, not, ◌&&◌, Option, none, some, [], ◌∷◌, Table, lookup, store, add, remove, fresh,
  any_entry, ◌==◌, if◌then◌else◌,
}
use chargeflow.Schema.{Customer, Plan, Subscription}
use chargeflow.Db.{Db, validation_error, protected_error, Error, Result, ok, err, M}
use chargeflow.Accounts.{Request, project_access}
use chargeflow.Payments.Charge.{Proc, atomically, ◌>>=◌, ◌>>◌}
use chargeflow.Api.{Reply, reading, reply, check_permissions, scope, queryset, get_object}

abbrev pub uses_plan : ℕ → ℕ → Subscription → Bool
uses_plan pk _ s = s.plan == pk

abbrev pub uses_customer : ℕ → ℕ → Subscription → Bool
uses_customer pk _ s = s.customer == pk

-- A stored row under the key that belongs to another organization.
abbrev pub is_moved_parent : {A : Type 0} → (A → ℕ) → ℕ → ℕ → Table A → Bool
is_moved_parent organization pk o t = elim (lookup pk t) [
  | none ↦ false
  | some row ↦ not (organization row == o)
]

-- `Plan.clean` of a stored plan.
unfoldable pub clean_plan : ℕ → Plan → Db → Result (Unit {0})
clean_plan pk p db =
    if is_moved_parent (λ (q : Plan). q.organization) pk p.organization db.plans
      && any_entry (uses_plan pk) db.subscriptions
    then err validation_error
    else ok tt

-- `Plan.save` of a plan that has a key; where its row is gone meanwhile it is inserted again.
unfoldable pub save_plan : ℕ → Plan → M (Unit {0})
save_plan pk p db = elim (clean_plan pk p db) [
  | err e ↦ err e
  | ok u ↦ ok (u, record db { plans = store pk p db.plans })
]

-- `Customer.clean` of a stored customer.
unfoldable pub clean_customer : ℕ → Customer → Db → Result (Unit {0})
clean_customer pk c db =
    if is_moved_parent (λ (d : Customer). d.organization) pk c.organization db.customers
      && any_entry (uses_customer pk) db.subscriptions
    then err validation_error
    else ok tt

-- `Customer.save` of a customer that has a key.
unfoldable pub save_customer : ℕ → Customer → M (Unit {0})
save_customer pk c db = elim (clean_customer pk c db) [
  | err e ↦ err e
  | ok u ↦ ok (u, record db { customers = store pk c db.customers })
]

abbrev pub is_plan_of : ℕ → Plan → Bool
is_plan_of o p = p.organization == o

-- `PlanViewSet.get_queryset`
unfoldable pub plan_queryset : Request → Db → Result (Table Plan)
plan_queryset = queryset (λ db. db.plans) is_plan_of

abbrev pub insert_plan : (ℕ → Plan) → Option ℕ → M ℕ
insert_plan row none db = err validation_error
insert_plan row (some o) db = ok (fresh db.plans, record db { plans = add (row o) db.plans })

-- `PlanViewSet.perform_create`, behind `create` of the framework.
unfoldable pub create_plan : Request → (ℕ → Plan) → Proc (Reply ℕ)
create_plan r row = do
  check_permissions (project_access r ∷ [])
  o ← reading (scope r)
  pk ← atomically (insert_plan row o)
  reply 201 (some pk)

-- The update of the framework: the serializer writes its columns into the object of the queryset.
unfoldable pub update_plan : Request → ℕ → (Plan → Plan) → Proc (Reply ℕ)
update_plan r pk write = do
  check_permissions (project_access r ∷ [])
  p ← get_object plan_queryset r pk
  atomically (save_plan pk (write p))
  reply 200 (some pk)

-- `instance.delete()`: the foreign key of the subscriptions is PROTECT.
unfoldable pub delete_plan : ℕ → M (Unit {0})
delete_plan pk db =
    if any_entry (uses_plan pk) db.subscriptions
    then err protected_error
    else ok (tt, record db { plans = remove pk db.plans })

-- `except ProtectedError`
unfoldable pub refusal_of_delete : Error → Error
refusal_of_delete protected_error = validation_error
refusal_of_delete e = e

-- `PlanViewSet.perform_destroy`
unfoldable pub perform_destroy : ℕ → Proc (Unit {0})
perform_destroy pk db = elim (delete_plan pk db) [
  | ok (u, db') ↦ (ok u, db')
  | err e ↦ (err (refusal_of_delete e), db)
]

-- `PlanViewSet.destroy`
unfoldable pub destroy_plan : Request → ℕ → Proc (Reply ℕ)
destroy_plan r pk = do
  check_permissions (project_access r ∷ [])
  p ← get_object plan_queryset r pk
  perform_destroy pk
  reply 204 none

abbrev pub is_customer_of : ℕ → Customer → Bool
is_customer_of o c = c.organization == o

-- `CustomerViewSet.get_queryset`
unfoldable pub customer_queryset : Request → Db → Result (Table Customer)
customer_queryset = queryset (λ db. db.customers) is_customer_of

abbrev pub insert_customer : (ℕ → Customer) → Option ℕ → M ℕ
insert_customer row none db = err validation_error
insert_customer row (some o) db =
    ok (fresh db.customers, record db { customers = add (row o) db.customers })

-- `CustomerViewSet.perform_create`, behind `create` of the framework.
unfoldable pub create_customer : Request → (ℕ → Customer) → Proc (Reply ℕ)
create_customer r row = do
  check_permissions (project_access r ∷ [])
  o ← reading (scope r)
  pk ← atomically (insert_customer row o)
  reply 201 (some pk)

unfoldable pub update_customer : Request → ℕ → (Customer → Customer) → Proc (Reply ℕ)
update_customer r pk write = do
  check_permissions (project_access r ∷ [])
  c ← get_object customer_queryset r pk
  atomically (save_customer pk (write c))
  reply 200 (some pk)
