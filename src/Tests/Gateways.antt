-- ===== src/Tests/Gateways.antt =====
-- The gateway and the recovery of a lost charge at concrete inputs.
use chargeflow.Prelude.{
  true, false, ◌≡◌, refl, some, [], ◌∷◌, lookup, any_entry, find_row, add, fresh,
}
use chargeflow.Schema.{
  Json, empty, field, InvoiceStatus, PaymentStatus, PaymentAttempt, ChargeRequest,
}
use chargeflow.Db.{Db, ok}
use chargeflow.Payments.Gateway.{
  charge, find_or_create, create_or_replay, create_receipt, new_receipt, answer, fingerprint,
}
use chargeflow.Payments.Prepare.{is_chargeable}
use chargeflow.Payments.Charge.{atomically, charge_request, recover_pending}
use chargeflow.Ledger.{Entry, spec_charge, provider_of, charge-refines}
use chargeflow.Recovery.{recover-decided}
use chargeflow.Tests.Shop.{try, shop, paid_shop}
use chargeflow.Tests.Sound.{shop-IsSound}
use chargeflow.Tests.Views.{toy_world}

abbrev request : ChargeRequest
request = charge_request (try PaymentStatus.pending)

abbrev entry : Entry
entry = record {
  request = "USD";
  result = record {
    success = true;
    provider_charge_id = "ch2";
    provider_response = field "status" (Json.str "ok") empty;
  };
}

charge-refines_example :
    ((atomically (charge toy_world.digest true "ch2" request) paid_shop).0
      ≡ (spec_charge "k" entry (provider_of [])).0)
    × (provider_of ((atomically (charge toy_world.digest true "ch2" request) paid_shop).1).receipts
        ≡ (spec_charge "k" entry (provider_of [])).1)
unfolding any_entry new_receipt fingerprint charge_request
charge-refines_example = charge-refines toy_world.digest true "ch2" request paid_shop refl

abbrev stuck_shop : Db
stuck_shop = shop InvoiceStatus.issued PaymentStatus.pending

recover-decided_example :
    (db' : Db) × (b : PaymentAttempt) × (recover_pending toy_world false 1 stuck_shop
      ≡ (ok (some b), db'))
    × (lookup 1 db'.attempts ≡ some b)
    × (is_chargeable b ≡ false)
unfolding lookup is_chargeable charge find_or_create create_or_replay create_receipt new_receipt
    answer fingerprint charge_request any_entry find_row add fresh
recover-decided_example =
    recover-decided toy_world 1 (try PaymentStatus.pending) stuck_shop
      (shop-IsSound InvoiceStatus.issued PaymentStatus.pending) refl refl refl entry.result
      (record stuck_shop {
        receipts =
            (
              1,
              new_receipt toy_world.digest true "ch2" (charge_request (try PaymentStatus.pending)),
            )
            ∷ [];
      })
      refl
