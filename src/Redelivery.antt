-- ===== src/Redelivery.antt =====
-- A webhook that the provider delivers again: `PaymentService.handle_webhook`.
use chargeflow.Prelude.{
  ℕ, String, true, false, ◌≡◌, refl, sym, ◌∙◌, inl, inr, lookup, any_entry, add, arith, Bool-cases,
  Option, fresh, if◌then◌else◌,
}
use chargeflow.Calendar.{DateTime}
use chargeflow.Schema.{Json, Fields, PaymentAttempt, WebhookEvent, field_value}
use chargeflow.Db.{Db, value_error, ok, err}
use chargeflow.Payments.Webhook.{
  is_refused, is_event, text_of, payment_key, new_event, create_event, apply_event, record_event,
  receive, handle_webhook,
}
use chargeflow.Evolution.Rules.{Evolves, Grows}
use chargeflow.Evolution.Events.{add-received}
use chargeflow.Evolution.Webhook.{apply_event-Grows}
use chargeflow.History.{Run, Run-Evolves}

-- What a transaction that went through has kept.
grown : {db db' : Db} → Grows db (ok (tt {0}, db')) → Evolves db db'
grown h = h

applied :
    (k pk : ℕ) (payload : Fields) (found : Option PaymentAttempt) (now : DateTime) (db db' : Db)
    → apply_event k pk payload found now db ≡ ok (tt, db')
    → Evolves db db'
applied k pk payload found now db db' h =
    grown (rw h at (apply_event-Grows k pk payload found now db))

-- An event that is new is stored before anything else happens.
created :
    (e : WebhookEvent) (db : Db)
    → any_entry (is_event e.provider e.provider_event_id) db.events ≡ false
    → create_event e db ≡ ok (fresh db.events, record db { events = add e db.events })
unfolding create_event
created e db new = rw new refl

opened :
    (pk : ℕ) (e : WebhookEvent) (payload : Fields) (found : Option PaymentAttempt) (now : DateTime)
    (db : Db)
    → any_entry (is_event e.provider e.provider_event_id) db.events ≡ false
    → record_event pk e payload found now db
      ≡ apply_event (fresh db.events) pk payload found now (record db { events = add e db.events })
unfolding record_event
opened pk e payload found now db new = ground (arith, created e db new)

recorded :
    (pk : ℕ) (e : WebhookEvent) (payload : Fields) (found : Option PaymentAttempt) (now : DateTime)
    (db db' : Db)
    → any_entry (is_event e.provider e.provider_event_id) db.events ≡ false
    → record_event pk e payload found now db ≡ ok (tt, db')
    → any_entry (is_event e.provider e.provider_event_id) db'.events ≡ true
recorded pk e payload found now db db' new h =
    let evolves =
      applied (fresh db.events) pk payload found now (record db { events = add e db.events }) db'
        (sym (opened pk e payload found now db new) ∙ h) in
    evolves.events.received e.provider e.provider_event_id (add-received e db.events)

received :
    (event_type provider event_id : String) (payload : Fields) (now : DateTime) (db db' : Db)
    → receive event_type provider event_id payload now db ≡ ok (tt, db')
    → any_entry (is_event provider event_id) db'.events ≡ true
unfolding receive new_event
received event_type provider event_id payload now db db' h =
    let pk = payment_key (field_value "payment_attempt_id" payload) in
    elim (Bool-cases (any_entry (is_event provider event_id) db.events)) [
      | inl seen ↦ let same : db ≡ db' = ground arith in rw same at seen
      | inr new ↦
          recorded pk (new_event event_type provider event_id payload (lookup pk db.attempts))
            payload (lookup pk db.attempts) now db db' new (rw new at h)
    ]

-- A delivery that went through has left its event among the received ones.
delivered :
    (event_type : Json) (payload : Fields) (provider : String) (event_id : Json) (now : DateTime)
    (db db' : Db)
    → handle_webhook event_type payload provider event_id now db ≡ ok (tt, db')
    → (is_refused event_type payload provider event_id ≡ false)
      × (any_entry (is_event provider (text_of event_id)) db'.events ≡ true)
unfolding handle_webhook
delivered event_type payload provider event_id now db db' h =
    let taken : is_refused event_type payload provider event_id ≡ false = ground arith in
    (
      taken,
      received (text_of event_type) provider (text_of event_id) payload now db db' (rw taken at h),
    )

-- A delivery of an event that was received is refused as malformed, or changes nothing.
known :
    (event_type : Json) (payload : Fields) (provider : String) (event_id : Json) (now : DateTime)
    (db : Db)
    → any_entry (is_event provider (text_of event_id)) db.events ≡ true
    → handle_webhook event_type payload provider event_id now db
      ≡ (if is_refused event_type payload provider event_id then err value_error else ok (tt, db))
unfolding handle_webhook receive
known event_type payload provider event_id now db seen = ground arith

-- Once a delivery has gone through, and whatever the program does afterwards, a second delivery of
-- it goes through and changes nothing; so does one under the same provider and event id with another
-- type and payload, unless it is refused as malformed.
pub handle_webhook-again :
    (event_type event_type' : Json) (payload payload' : Fields) (provider : String)
    (event_id : Json) (now later : DateTime) (db db' db'' : Db)
    → handle_webhook event_type payload provider event_id now db ≡ ok (tt, db')
    → Run db' db''
    → (handle_webhook event_type payload provider event_id later db'' ≡ ok (tt, db''))
      × (handle_webhook event_type' payload' provider event_id later db'' ≡ (
          if is_refused event_type' payload' provider event_id
          then err value_error
          else ok (tt, db'')))
handle_webhook-again event_type event_type' payload payload' provider event_id now later db db' db''
      first run =
    let (taken, stored) = delivered event_type payload provider event_id now db db' first in
    let seen = (Run-Evolves run).events.received provider (text_of event_id) stored in
    (
      ground (arith, known event_type payload provider event_id later db'' seen),
      known event_type' payload' provider event_id later db'' seen,
    )
