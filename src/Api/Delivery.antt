-- ===== src/Api/Delivery.antt =====
-- What `WebhookView.post` answers.
use chargeflow.Prelude.{
  ℕ, String, true, false, ◌≡◌, refl, ◌⊎◌, none, some, Table, lookup, put, add, fresh, any_entry,
  arith, Option-cases, Bool-cases, inl, inr,
}
use chargeflow.Calendar.{DateTime}
use chargeflow.Schema.{Json, Fields, field_value, PaymentAttempt, WebhookEvent}
use chargeflow.Db.{Db, ok, Result, Result-cases}
use chargeflow.Payments.Prepare.{is_chargeable}
use chargeflow.Payments.Signature.{Bytes, verify_webhook_signature}
use chargeflow.Payments.Webhook.{
  is_refused, is_text, text_of, payment_key, is_event, create_event, new_event, update_event,
  mark_processed, apply_event, record_event, receive, handle_webhook,
}
use chargeflow.Payments.Settle.{settle}
use chargeflow.Evolution.Sound.{IsSound}
use chargeflow.Evolution.Rules.{others-IsSound}
use chargeflow.Settlement.Decides.{Decides}
use chargeflow.Settlement.Total.{settle-Decides}
use chargeflow.Api.{Reply}
use chargeflow.Api.Accepted.{IsDocumented, read-accepted}
use chargeflow.Signing.{IsSigned, verify-accepts}
use chargeflow.Api.Webhooks.{
  FieldTypes, ValidWebhook, read_webhook, deliver_valid, post_signed, post,
}

-- A webhook that the service takes, on a sound database.
module _ (event_type : Json) (payload : Fields) (provider : String) (event_id : Json)
    (now : DateTime) (db : Db) (sound : IsSound db)
    (accepted : is_refused event_type payload provider event_id ≡ false) where
  event : WebhookEvent
  event =
      new_event (text_of event_type) provider (text_of event_id) payload
        (lookup (payment_key (field_value "payment_attempt_id" payload)) db.attempts)

  handled_again :
      any_entry (is_event provider (text_of event_id)) db.events ≡ true
      → handle_webhook event_type payload provider event_id now db ≡ ok (tt, db)
  unfolding handle_webhook receive
  handled_again known = ground arith

  created :
      any_entry (is_event provider (text_of event_id)) db.events ≡ false
      → create_event event db ≡ ok (fresh db.events, record db { events = add event db.events })
  unfolding create_event event new_event
  created new = rw new refl

  unclaimed :
      any_entry (is_event provider (text_of event_id)) db.events ≡ false
      → lookup (payment_key (field_value "payment_attempt_id" payload)) db.attempts ≡ none
      → (db' : Db) × (handle_webhook event_type payload provider event_id now db ≡ ok (tt, db'))
  unfolding handle_webhook receive record_event apply_event mark_processed update_event event
  unclaimed new missing =
      let inserted = created new in
      elim (Result-cases (handle_webhook event_type payload provider event_id now db)) [
        | inl (_, db', e) ↦ (db', e)
        | inr (x, e) ↦ absurd (ground arith)
      ]

  module _ (a : PaymentAttempt)
      (found : lookup (payment_key (field_value "payment_attempt_id" payload)) db.attempts ≡ some a)
      (new : any_entry (is_event provider (text_of event_id)) db.events ≡ false) where
    claimed_events : Table WebhookEvent
    claimed_events = elim (lookup (fresh db.events) (add event db.events)) [
      | none ↦ add event db.events
      | some e ↦
          put (fresh db.events) (record e { organization = some a.organization })
            (add event db.events)
    ]

    with_event : Db
    with_event = record db { events = claimed_events }

    settled : Decides (payment_key (field_value "payment_attempt_id" payload)) (
        settle
          (payment_key (field_value "payment_attempt_id" payload))
          (is_text "success" (field_value "status" payload))
          payload
          (text_of (field_value "provider_charge_id" payload))
          now
          with_event)
    unfolding with_event
    settled =
        settle-Decides with_event (payment_key (field_value "payment_attempt_id" payload)) a
          (others-IsSound db claimed_events db.receipts db.queue sound) found
          (is_text "success" (field_value "status" payload)) payload
          (text_of (field_value "provider_charge_id" payload)) now

    -- A new event for an attempt that exists goes through, and leaves the attempt decided.
    handled-Decides :
        Decides
          (payment_key (field_value "payment_attempt_id" payload))
          (handle_webhook event_type payload provider event_id now db)
    unfolding handle_webhook receive record_event apply_event mark_processed update_event with_event
        claimed_events event
    handled-Decides =
        let inserted = created new in
        let e = settled.through in
        elim (Result-cases (handle_webhook event_type payload provider event_id now db)) [
          | inl (u, db', went) ↦ record {
            after = db';
            through = went;
            attempt = settled.attempt;
            stored = let s = settled.stored in ground arith;
            decided = settled.decided;
          }
          | inr (x, failed) ↦ absurd (ground arith)
        ]

  handled-through :
      (db' : Db) × (handle_webhook event_type payload provider event_id now db ≡ ok (tt, db'))
  handled-through = elim (Bool-cases (any_entry (is_event provider (text_of event_id)) db.events)) [
    | inl known ↦ (db, handled_again known)
    | inr new ↦
        elim (Option-cases
          (lookup (payment_key (field_value "payment_attempt_id" payload)) db.attempts)) [
            | inl missing ↦ unclaimed new missing
            | inr (a, found) ↦
                let handled = handled-Decides a found new in (handled.after, handled.through)
          ]
  ]

abbrev ok_reply : Reply (Unit {0})
ok_reply = record { status = 200; body = some tt }

abbrev bad_request : Reply (Unit {0})
bad_request = record { status = 400; body = none }

module _ (types : FieldTypes) (hmac : Bytes → Bytes → Bytes) (secret : Bytes) (seconds : ℕ)
    (raw_body signature : Bytes) (now : DateTime) (db : Db) where
  -- Whatever a request carries, either its header signs its body, or it is answered with 400 and
  -- changes nothing.
  pub post-IsSigned :
      (parsed : Result Json)
      → IsSigned hmac secret seconds raw_body signature
        ⊎ (post types hmac secret seconds raw_body signature parsed now db ≡ (ok bad_request, db))
  unfolding post
  post-IsSigned parsed =
      elim (Option-cases (verify_webhook_signature hmac secret seconds raw_body signature)) [
        | inl accepted ↦ inl ((verify-accepts hmac secret seconds raw_body signature).0 accepted)
        | inr (refusal, e) ↦ inr (ground arith)
      ]

  module _ (body : Json) (w : ValidWebhook) (documented : IsDocumented types) (sound : IsSound db)
      (signed : IsSigned hmac secret seconds raw_body signature)
      (valid : read_webhook types body ≡ some w) where
    post-handled :
        (db' : Db)
        → handle_webhook
            (Json.str w.event_type)
            w.payload
            w.provider
            (Json.str w.provider_event_id)
            now
            db
          ≡ ok (tt, db')
        → post types hmac secret seconds raw_body signature (ok body) now db ≡ (ok ok_reply, db')
    unfolding post post_signed deliver_valid
    post-handled db' went =
        let accepted = (verify-accepts hmac secret seconds raw_body signature).1 signed in
        ground arith

    -- On a sound database, a signed request with a body that the serializer takes is answered with
    -- 200: no test of the service refuses it, and nothing that it does raises.
    pub post-replies :
        (db' : Db) × (post types hmac secret seconds raw_body signature (ok body) now db
          ≡ (ok ok_reply, db'))
    post-replies =
        let (db', went) =
          handled-through (Json.str w.event_type) w.payload w.provider
            (Json.str w.provider_event_id) now db sound
            (read-accepted types documented body w valid) in
        (db', post-handled db' went)

    -- On a sound database, a signed request with such a body, whose event is new and whose attempt
    -- exists, is answered with 200 and leaves the attempt decided: it has succeeded, failed or is
    -- flagged.
    pub post-decides :
        (a : PaymentAttempt)
        → lookup (payment_key (field_value "payment_attempt_id" w.payload)) db.attempts ≡ some a
        → any_entry (is_event w.provider w.provider_event_id) db.events ≡ false
        → (db' : Db) × (b : PaymentAttempt) × (post types hmac secret seconds raw_body signature
              (ok body)
              now
              db
            ≡ (ok ok_reply, db'))
          × (lookup (payment_key (field_value "payment_attempt_id" w.payload)) db'.attempts
              ≡ some b)
          × (is_chargeable b ≡ false)
    post-decides a found new =
        let handled =
          handled-Decides (Json.str w.event_type) w.payload w.provider
            (Json.str w.provider_event_id) now db sound
            (read-accepted types documented body w valid) a found (unfold text_of in new) in
        (
          handled.after,
          handled.attempt,
          post-handled handled.after handled.through,
          handled.stored,
          handled.decided,
        )
