-- ===== src/Recovery.antt =====
-- `PaymentService.recover_pending`: what picks up a charge whose process died between its phases.
use chargeflow.Prelude.{ℕ, true, false, ◌≡◌, some, lookup, arith, same_text}
use chargeflow.Schema.{PaymentAttempt, ChargeResult}
use chargeflow.Db.{Db, ok}
use chargeflow.Payments.Gateway.{charge, require_gateway}
use chargeflow.Payments.Prepare.{is_chargeable}
use chargeflow.Payments.Settle.{settle}
use chargeflow.Payments.Charge.{
  World, charge_request, charge_and_settle, charge_pending, find_recoverable, recover_pending,
}
use chargeflow.Evolution.Rules.{Evolves, Grows}
use chargeflow.Evolution.Charge.{charge-Grows}
use chargeflow.Evolution.Sound.{IsSound}
use chargeflow.Settlement.Decides.{Decides}
use chargeflow.Settlement.Total.{settle-Decides}

-- What a call of the gateway that answered has left.
grown : {A : Type 0} (a : A) {db db' : Db} → Grows db (ok (a, db')) → Evolves db db'
grown a h = h

module _ (w : World) (pk : ℕ) (a : PaymentAttempt) (db : Db) (sound : IsSound db)
    (has_attempt : lookup pk db.attempts ≡ some a) (chargeable : is_chargeable a ≡ true)
    (known : same_text a.provider "mock" ≡ true) (result : ChargeResult) (called : Db)
    (answered : charge w.digest w.approved w.charge_id (charge_request a) db
      ≡ ok (result, called)) where
  after_call : Evolves db called
  after_call =
      grown result
        (rw answered at (charge-Grows w.digest w.approved w.charge_id (charge_request a) db))

  settled : Decides pk (
      settle pk result.success result.provider_response result.provider_charge_id w.settled_at
        called)
  settled =
      let (b, stored, _) = after_call.attempts.at pk a has_attempt in
      settle-Decides called pk b (after_call.sound sound) stored result.success
        result.provider_response result.provider_charge_id w.settled_at

  charged : charge_and_settle w pk a db ≡ (ok settled.attempt, settled.after)
  unfolding charge_and_settle require_gateway
  charged = let through = settled.through in let stored = settled.stored in ground (arith, answered)

  -- On a sound database, where the gateway answers for an attempt that is still to be charged, the
  -- attempt is picked up: the call returns it decided, and it is stored so.
  pub recover-decided :
      (db' : Db) × (b : PaymentAttempt) × (recover_pending w false pk db ≡ (ok (some b), db'))
      × (lookup pk db'.attempts ≡ some b)
      × (is_chargeable b ≡ false)
  unfolding recover_pending find_recoverable charge_pending
  recover-decided =
      (settled.after, settled.attempt, ground (arith, charged), settled.stored, settled.decided)
