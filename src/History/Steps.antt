-- ===== src/History/Steps.antt =====
-- Runs of the billing core: any sequence of the services' transactions, of the payment calls, of the
-- task cycles and of the writes of plans and customers, in any order, with any inputs and any reading
-- of the clock.
use chargeflow.Api.Catalog.{save_plan, save_customer, delete_plan, insert_plan, insert_customer}
use chargeflow.Evolution.Catalog.{
  save_plan-Grows, save_customer-Grows, delete_plan-Grows, insert_plan-Grows, insert_customer-Grows,
}
use chargeflow.Tasks.{dun_invoice, renew_if_still_due, activate_if_still_expired}
use chargeflow.Db.{hand_off}
use chargeflow.Evolution.Rules.{Grows-hand_off}
use chargeflow.Evolution.Tasks.{
  dun_invoice-Grows, renew_if_still_due-Grows, activate_if_still_expired-Grows,
}
use chargeflow.Prelude.{ℕ, String, Bool, Option}
use chargeflow.Calendar.{DateTime}
use chargeflow.Schema.{Json, Fields, CancellationReason, ChargeRequest, Customer, Plan}
use chargeflow.Db.{Db, M}
use chargeflow.Invoices
use chargeflow.Subscriptions.Services
use chargeflow.Payments.Prepare.{prepare}
use chargeflow.Payments.Settle.{settle}
use chargeflow.Payments.Webhook.{handle_webhook}
use chargeflow.Payments.Gateway.{Digest, charge}
use chargeflow.Payments.Charge.{World, atomically, attempt, charge_issued, recover_pending}
use chargeflow.Tasks.{run_dunning, run_renewals, run_trial_activations, reconcile_stuck}
use chargeflow.Evolution.Rules.{Evolves, Grows}
use chargeflow.Evolution.Invoices.{generate_for_subscription-Grows}
use chargeflow.Evolution.Billing.{create-Grows, activate-Grows, renew-Grows, cancel-Grows}
use chargeflow.Evolution.Settle.{settle-Grows}
use chargeflow.Evolution.Prepare.{prepare-Grows}
use chargeflow.Evolution.Webhook.{handle_webhook-Grows}
use chargeflow.Evolution.Charge.{
  Keeps-atomically, charge-Grows, attempt-Keeps, charge_issued-Keeps, recover_pending-Keeps,
}
use chargeflow.Evolution.Tasks.{
  run_dunning-Keeps, run_renewals-Keeps, run_trial_activations-Keeps, reconcile_stuck-Keeps,
}

-- One step. A transaction commits or rolls back; a call outside a transaction leaves what its phases
-- committed. The phases of concurrent charges may interleave, and so may the items of a cycle: each
-- of them is a step of its own too.
pub data Step : Db → Db → Type 0 where
  generating :
      (pk : ℕ) (now : DateTime) (db : Db)
      → Step db (atomically (Invoices.generate_for_subscription pk now) db).1
  creating :
      (customer_pk plan_pk : ℕ) (now : DateTime) (db : Db)
      → Step db (atomically (Services.create customer_pk plan_pk now) db).1
  activating :
      (pk : ℕ) (now : DateTime) (db : Db) → Step db (atomically (Services.activate pk now) db).1
  renewing : (pk : ℕ) (now : DateTime) (db : Db) → Step db (atomically (Services.renew pk now) db).1
  cancelling :
      (pk : ℕ) (reason : CancellationReason) (now : DateTime) (db : Db)
      → Step db (atomically (Services.cancel pk reason now) db).1
  preparing :
      (pk : ℕ) (key : Option String) (issued_only : Bool) (provider_key : String) (now : DateTime)
      (db : Db)
      → Step db (atomically (prepare pk key issued_only provider_key now) db).1
  calling :
      (digest : Digest) (approved : Bool) (charge_id : String) (r : ChargeRequest) (db : Db)
      → Step db (atomically (charge digest approved charge_id r) db).1
  settling :
      (pk : ℕ) (success : Bool) (response : Fields) (charge_id : String) (now : DateTime) (db : Db)
      → Step db (atomically (settle pk success response charge_id now) db).1
  hearing :
      (event_type : Json) (payload : Fields) (provider : String) (event_id : Json) (now : DateTime)
      (db : Db)
      → Step db (atomically (handle_webhook event_type payload provider event_id now) db).1
  attempting :
      (w : World) (b : Bool) (pk : ℕ) (key : Option String) (db : Db)
      → Step db (attempt w b pk key db).1
  charging : (w : World) (b : Bool) (pk : ℕ) (db : Db) → Step db (charge_issued w b pk db).1
  recovering : (w : World) (b : Bool) (pk : ℕ) (db : Db) → Step db (recover_pending w b pk db).1
  dunning_one : (pk : ℕ) (now : DateTime) (db : Db) → Step db (atomically (dun_invoice pk now) db).1
  renewing_one :
      (pk : ℕ) (now : DateTime) (db : Db) → Step db (atomically (renew_if_still_due pk now) db).1
  activating_one :
      (pk : ℕ) (now : DateTime) (db : Db)
      → Step db (atomically (activate_if_still_expired pk now) db).1
  handing_off : (pk : ℕ) (db : Db) → Step db (atomically (hand_off pk) db).1
  dunning : (clock : ℕ → DateTime) (db : Db) → Step db (run_dunning clock db).1
  renewing_all :
      (now : DateTime) (clock : ℕ → DateTime) (db : Db) → Step db (run_renewals now clock db).1
  activating_all :
      (now : DateTime) (clock : ℕ → DateTime) (db : Db)
      → Step db (run_trial_activations now clock db).1
  reconciling :
      (now later : DateTime) (world : ℕ → World) (db : Db)
      → Step db (reconcile_stuck now later world db).1
  saving_plan : (pk : ℕ) (p : Plan) (db : Db) → Step db (atomically (save_plan pk p) db).1
  adding_plan :
      (row : ℕ → Plan) (o : Option ℕ) (db : Db) → Step db (atomically (insert_plan row o) db).1
  deleting_plan : (pk : ℕ) (db : Db) → Step db (atomically (delete_plan pk) db).1
  saving_customer :
      (pk : ℕ) (c : Customer) (db : Db) → Step db (atomically (save_customer pk c) db).1
  adding_customer :
      (row : ℕ → Customer) (o : Option ℕ) (db : Db)
      → Step db (atomically (insert_customer row o) db).1

pub data Run (db : Db) : Db → Type 0 where
  start : Run db db
  then_step : {db' db'' : Db} → Run db db' → Step db' db'' → Run db db''

committed : {A : Type 0} (m : M A) (db : Db) → Grows db (m db) → Evolves db (atomically m db).1
committed m db g = (Keeps-atomically m db g).evolves

pub Step-Evolves : {db db' : Db} → Step db db' → Evolves db db'
Step-Evolves (generating pk now db) =
    committed (Invoices.generate_for_subscription pk now) db
      (generate_for_subscription-Grows pk now db)
Step-Evolves (creating c p now db) =
    committed (Services.create c p now) db (create-Grows c p now db)
Step-Evolves (activating pk now db) =
    committed (Services.activate pk now) db (activate-Grows pk now db)
Step-Evolves (renewing pk now db) = committed (Services.renew pk now) db (renew-Grows pk now db)
Step-Evolves (cancelling pk reason now db) =
    committed (Services.cancel pk reason now) db (cancel-Grows pk reason now db)
Step-Evolves (preparing pk key only new now db) =
    committed (prepare pk key only new now) db (prepare-Grows pk key only new now db)
Step-Evolves (calling digest approved id r db) =
    committed (charge digest approved id r) db (charge-Grows digest approved id r db)
Step-Evolves (settling pk success response id now db) =
    committed (settle pk success response id now) db (settle-Grows pk success response id now db)
Step-Evolves (hearing type payload provider id now db) =
    committed (handle_webhook type payload provider id now) db
      (handle_webhook-Grows type payload provider id now db)
Step-Evolves (attempting w b pk key db) = (attempt-Keeps w b pk key db).evolves
Step-Evolves (charging w b pk db) = (charge_issued-Keeps w b pk db).evolves
Step-Evolves (recovering w b pk db) = (recover_pending-Keeps w b pk db).evolves
Step-Evolves (dunning_one pk now db) =
    committed (dun_invoice pk now) db (dun_invoice-Grows pk now db)
Step-Evolves (renewing_one pk now db) =
    committed (renew_if_still_due pk now) db (renew_if_still_due-Grows pk now db)
Step-Evolves (activating_one pk now db) =
    committed (activate_if_still_expired pk now) db (activate_if_still_expired-Grows pk now db)
Step-Evolves (handing_off pk db) = committed (hand_off pk) db (Grows-hand_off pk db)
Step-Evolves (dunning clock db) = (run_dunning-Keeps clock db).evolves
Step-Evolves (renewing_all now clock db) = (run_renewals-Keeps now clock db).evolves
Step-Evolves (activating_all now clock db) = (run_trial_activations-Keeps now clock db).evolves
Step-Evolves (reconciling now later world db) = (reconcile_stuck-Keeps now later world db).evolves
Step-Evolves (saving_plan pk p db) = committed (save_plan pk p) db (save_plan-Grows pk p db)
Step-Evolves (adding_plan row o db) = committed (insert_plan row o) db (insert_plan-Grows row o db)
Step-Evolves (deleting_plan pk db) = committed (delete_plan pk) db (delete_plan-Grows pk db)
Step-Evolves (saving_customer pk c db) =
    committed (save_customer pk c) db (save_customer-Grows pk c db)
Step-Evolves (adding_customer row o db) =
    committed (insert_customer row o) db (insert_customer-Grows row o db)
