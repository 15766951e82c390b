-- ===== src/Batches.antt =====
-- The loops of subscriptions/tasks.py and invoices/tasks.py, where an item raises.
use chargeflow.Prelude.{ℕ, false, ◌≡◌, refl, List, [], ◌∷◌, arith}
use chargeflow.Db.{Db, Error, Result, ok, err}
use chargeflow.Payments.Charge.{Proc}
use chargeflow.Tasks.{is_operational, after_item, run_batch}

-- Every key has its turn, on the database that the turn before it has left.
unfoldable pub run_each : (ℕ → Proc (Unit {0})) → List ℕ → Db → Db
run_each handler [] db = db
run_each handler (k ∷ ks) db = run_each handler ks (handler k db).1

-- A handler that raises no database error.
pub record NeverOperational (handler : ℕ → Proc (Unit {0})) : Type 0 where
  pub caught : (k : ℕ) (db : Db) (e : Error) → (handler k db).0 ≡ err e → is_operational e ≡ false

after_item-each :
    (r : Result (Unit {0})) (rest : Proc (Unit {0})) (then_rest : Db → Db) (db : Db)
    → ((e : Error) → r ≡ err e → is_operational e ≡ false)
    → rest db ≡ (ok tt, then_rest db)
    → after_item r rest db ≡ (ok tt, then_rest db)
after_item-each (ok _) rest then_rest db p q = q
after_item-each (err e) rest then_rest db p q = ground (arith, p e refl)

-- Where no item raises a database error, the batch ends without an exception, and every key has had
-- its turn, whatever the items before it raised.
pub run_batch-each :
    (handler : ℕ → Proc (Unit {0})) (ks : List ℕ) (db : Db)
    → NeverOperational handler
    → run_batch handler ks db ≡ (ok tt, run_each handler ks db)
unfolding run_batch run_each
run_batch-each handler [] db h = refl
run_batch-each handler (k ∷ ks) db h =
    after_item-each (handler k db).0 (run_batch handler ks) (run_each handler ks) (handler k db).1
      (h.caught k db) (run_batch-each handler ks (handler k db).1 h)
