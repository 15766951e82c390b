-- ===== src/Tests/Repeats.antt =====
-- First results, repeated deliveries and charges.
use chargeflow.Collecting.{collected, settle-collects}
use chargeflow.Payments.Attempts.{conflict}
use chargeflow.Payments.Settle.{settle, settle_locked, is_final, is_other_success}
use chargeflow.Prelude.{lookup, put}
use chargeflow.Schema.{
  PaymentStatus, InvoiceStatus, PaymentAttempt, CancellationReason, Subscription,
  SubscriptionStatus,
}
use chargeflow.Tests.Shop.{try, shop, bill, running}
use chargeflow.Prelude.{
  inl, inr, pos, ◌++◌, some, String, true, false, ◌≡◌, ◌≢◌, refl, [], ◌∷◌, any_entry, add, fresh,
  find_row, eq_iff,
}
use chargeflow.Schema.{Json, Fields, field_value, empty, field, ChargeRequest, ChargeResult}
use chargeflow.Db.{Db, value_error, ok, err}
use chargeflow.Payments.Gateway.{
  Digest, charge, fingerprint, find_or_create, create_or_replay, create_receipt, new_receipt,
  answer,
}
use chargeflow.Payments.Webhook.{
  handle_webhook, is_refused, text_of, is_short_text, is_bad_payment_id, is_null, is_bad_status,
  is_text, receive, record_event, create_event, new_event, apply_event, payment_key, update_event,
  mark_processed,
}
use chargeflow.Payments.Charge.{atomically}
use chargeflow.Subscriptions.Services
use chargeflow.History.{start, then_step, cancelling}
use chargeflow.Redelivery.{handle_webhook-again}
use chargeflow.Delivery.{charge-replay, charge-other_request}
use chargeflow.Tests.Shop.{february, paid_shop}

-- The payload of a failure for attempt 1.
abbrev failure : Fields
failure =
    field "payment_attempt_id" (Json.int (pos 1))
      (field "status" (Json.str "failed") (field "provider_charge_id" (Json.str "ch9") empty))

-- The shop behind the first delivery of an event, and behind a cancellation that follows.
abbrev delivered_shop : Db
delivered_shop = record paid_shop {
  events =
      paid_shop.events
      ++ (
        2,
        record {
          organization = some 1;
          event_type = "charge";
          provider = "mock";
          provider_event_id = "e2";
          payload = failure;
          processed = true;
        },
      )
        ∷ [];
}

abbrev later_shop : Db
later_shop = (atomically (Services.cancel 1 CancellationReason.voluntary february) delivered_shop).1

first_delivery :
    handle_webhook (Json.str "charge") failure "mock" (Json.str "e2") february paid_shop
    ≡ ok (tt, delivered_shop)
unfolding any_entry text_of is_refused is_short_text is_bad_payment_id field_value is_null
    is_bad_status is_text handle_webhook receive record_event create_event new_event apply_event
    lookup payment_key update_event settle settle_locked is_final mark_processed add fresh put
first_delivery = refl

handle_webhook-again_example :
    (handle_webhook (Json.str "charge") failure "mock" (Json.str "e2") february later_shop
      ≡ ok (tt, later_shop))
    × (handle_webhook (Json.str "charge") empty "mock" (Json.str "e2") february later_shop
        ≡ ok (tt, later_shop))
unfolding text_of is_refused is_short_text is_bad_payment_id field_value is_null is_bad_status
    is_text
handle_webhook-again_example =
    handle_webhook-again (Json.str "charge") (Json.str "charge") failure empty "mock"
      (Json.str "e2") february february paid_shop delivered_shop later_shop first_delivery
      (then_step start (cancelling 1 CancellationReason.voluntary february delivered_shop))

-- A digest for the runs: the currency and the customer.
abbrev plain : Digest
plain amount currency customer_id method = customer_id

abbrev request : String → ChargeRequest
request customer_id = record {
  amount = pos 900;
  currency = "USD";
  provider_customer_id = customer_id;
  provider_payment_method_id = "pm";
  idempotency_key = "k";
}

abbrev approved_result : ChargeResult
approved_result = record {
  success = true;
  provider_charge_id = "ch";
  provider_response = field "status" (Json.str "ok") empty;
}

abbrev charged_shop : Db
charged_shop = record paid_shop {
  receipts =
      (
        1,
        record {
          provider_idempotency_key = "k";
          request_fingerprint = "cus";
          success = true;
          provider_charge_id = "ch";
          provider_response = field "status" (Json.str "ok") empty;
        },
      )
      ∷ [];
}

charge-paid_shop :
    charge plain true "ch" (request "cus") paid_shop ≡ ok (approved_result, charged_shop)
unfolding charge find_or_create create_or_replay create_receipt new_receipt answer fingerprint
    find_row any_entry add fresh
charge-paid_shop = refl

charge-replay_example :
    charge plain false "other" (request "cus") charged_shop ≡ ok (approved_result, charged_shop)
charge-replay_example =
    charge-replay plain true false "ch" "other" (request "cus") approved_result paid_shop
      charged_shop charge-paid_shop

absurd_bool : false ≡ true → ⊥
absurd_bool h = cc

other_print : fingerprint plain (request "cus2") ≢ fingerprint plain (request "cus")
unfolding fingerprint
other_print h = absurd_bool ((eq_iff "cus2" "cus").1 h)

charge-other_request_example :
    charge plain true "ch2" (request "cus2") charged_shop ≡ err value_error
charge-other_request_example =
    charge-other_request plain true true "ch" "ch2" (request "cus") (request "cus2") approved_result
      paid_shop charged_shop charge-paid_shop refl other_print

-- The attempt before its first result, and its shop.
abbrev first_try : PaymentAttempt
first_try = record (try PaymentStatus.pending) { provider_charge_id = "" }

abbrev late : Subscription
late = record running { status = SubscriptionStatus.overdue }

-- A failed charge has made the subscription OVERDUE; its charge is tried again.
abbrev late_shop : Db
late_shop = record (shop InvoiceStatus.failed PaymentStatus.pending) {
  attempts = (1, first_try) ∷ [];
  subscriptions = (1, late) ∷ [];
}

settle-collects_example :
    settle 1 true empty "ch" february late_shop
    ≡ ok (tt, collected 1 first_try (bill InvoiceStatus.failed) late empty "ch" february late_shop)
unfolding lookup put any_entry conflict is_other_success
settle-collects_example =
    settle-collects 1 first_try (bill InvoiceStatus.failed) late empty "ch" february late_shop refl
      refl refl refl refl refl refl refl refl (inr (inl refl)) refl refl refl refl
