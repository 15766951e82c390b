-- ===== src/Api/Payments.antt =====
-- `PaymentAttemptViewSet` of payments/api/views.py.
use chargeflow.Prelude.{ℕ, ℤ, String, Bool, Option, none, some, [], ◌∷◌, Table, ◌==◌}
use chargeflow.Schema.{Invoice, PaymentAttempt}
use chargeflow.Db.{Db, idempotency_conflict, invoice_not_payable, Result, ok, err}
use chargeflow.Accounts.{Request, project_access}
use chargeflow.Payments.Charge.{Proc, World, attempt, ◌>>=◌, ◌>>◌}
use chargeflow.Api.{Reply, reading, reply, check_permissions, scope, queryset, get_object_or_404}

abbrev pub is_attempt_of : ℕ → PaymentAttempt → Bool
is_attempt_of o a = a.organization == o

abbrev pub is_invoice_of : ℕ → Invoice → Bool
is_invoice_of o i = i.organization == o

-- `PaymentAttemptViewSet.get_queryset`
unfoldable pub attempt_queryset : Request → Db → Result (Table PaymentAttempt)
attempt_queryset = queryset (λ db. db.attempts) is_attempt_of

-- The `except` clauses around `PaymentService.attempt`, and the reply behind them.
unfoldable pub attempt_answer : Result (Option PaymentAttempt) → Result (Reply PaymentAttempt)
attempt_answer (ok a) = ok (record { status = 201; body = a })
attempt_answer (err idempotency_conflict) = ok (record { status = 409; body = none })
attempt_answer (err invoice_not_payable) = ok (record { status = 400; body = none })
attempt_answer (err e) = err e

unfoldable pub pay_invoice : World → Bool → ℕ → Option String → Proc (Reply PaymentAttempt)
pay_invoice w in_atomic_block invoice_pk key db =
    let (r, db') = attempt w in_atomic_block invoice_pk key db in (attempt_answer r, db')

abbrev pub create_attempt_in_scope :
    World → Bool → Result ℤ → Option String → Option ℕ → Proc (Reply PaymentAttempt)
create_attempt_in_scope w in_atomic_block invoice_id key none = reply 400 none
create_attempt_in_scope w in_atomic_block invoice_id key (some o) = do
  pk ← reading (λ _. invoice_id)
  found ← get_object_or_404 (λ db. db.invoices) is_invoice_of pk o
  pay_invoice w in_atomic_block found.0 key

-- `PaymentAttemptViewSet.create`; `invoice_id` is what the serializer makes of the body, and `key`
-- the header `Idempotency-Key`.
unfoldable pub create_attempt :
    World → Bool → Request → Result ℤ → Option String → Proc (Reply PaymentAttempt)
create_attempt w in_atomic_block r invoice_id key = do
  check_permissions (project_access r ∷ [])
  o ← reading (scope r)
  create_attempt_in_scope w in_atomic_block invoice_id key o
