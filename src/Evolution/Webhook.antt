-- ===== src/Evolution/Webhook.antt =====
-- The relation for `PaymentService.handle_webhook`.
use chargeflow.Prelude.{
  put, ◌≡◌, refl, ℕ, String, Bool, true, false, Option, none, some, lookup, any_entry,
}
use chargeflow.Calendar.{DateTime}
use chargeflow.Schema.{Json, Fields, field_value, PaymentAttempt, WebhookEvent}
use chargeflow.Db.{Db, Error, M, pure, ◌>>=◌, ◌>>◌, handle, raise_if, value_error}
use chargeflow.Payments.Settle.{settle}
use chargeflow.Payments.Webhook.{
  is_refused, is_text, text_of, payment_key, create_event, new_event, update_event, mark_processed,
  apply_event, absorb_conflict, continue_event, record_event, receive, handle_webhook, is_event,
}
use chargeflow.Evolution.Events.{EventsLe, EventsLe-refl, EventsLe-add, EventsLe-put}
use chargeflow.Evolution.Rules.{
  Evolves-refl, Grows, Grows-bind, Grows-if_result, Grows-handle, others_evolve,
}
use chargeflow.Evolution.Settle.{settle-Grows}

update_event-Grows :
    (pk : ℕ) (write : WebhookEvent → WebhookEvent) (db : Db)
    → ((e : WebhookEvent)
        → ((write e).provider ≡ e.provider) × ((write e).provider_event_id ≡ e.provider_event_id))
    → Grows db (update_event pk write db)
unfolding update_event
update_event-Grows pk write db keeps =
    others_evolve db _ db.receipts db.queue (by_row (lookup pk db.events) refl)
  where
    by_row :
        (o : Option WebhookEvent)
        → lookup pk db.events ≡ o
        → EventsLe db.events (elim o [ none ↦ db.events | some e ↦ put pk (write e) db.events ])
    by_row none h = EventsLe-refl db.events
    by_row (some e) h = EventsLe-put pk e (write e) db.events h (keeps e).0 (keeps e).1

create_event-Grows : (e : WebhookEvent) (db : Db) → Grows db (create_event e db)
unfolding create_event
create_event-Grows e db =
    Grows-if_result (any_entry (is_event e.provider e.provider_event_id) db.events) _ _ db (λ _. tt)
      (λ _. others_evolve db _ db.receipts db.queue (EventsLe-add e db.events))

mark_processed-Grows : (pk : ℕ) (db : Db) → Grows db (mark_processed pk db)
unfolding mark_processed
mark_processed-Grows pk db =
    update_event-Grows pk (λ e. record e { processed = true }) db λ e. (refl, refl)

pub apply_event-Grows :
    (event_pk pk : ℕ) (payload : Fields) (found : Option PaymentAttempt) (now : DateTime) (db : Db)
    → Grows db (apply_event event_pk pk payload found now db)
unfolding apply_event
apply_event-Grows event_pk pk payload none now db = mark_processed-Grows event_pk db
apply_event-Grows event_pk pk payload (some a) now db =
    let success = is_text "success" (field_value "status" payload) in
    let charge_id = text_of (field_value "provider_charge_id" payload) in
    Grows-bind (update_event event_pk (λ e. record e { organization = some a.organization })) _ db
      (update_event-Grows event_pk (λ e. record e { organization = some a.organization }) db
        λ e. (refl, refl))
      (λ _ named _.
        Grows-bind (settle pk success payload charge_id now) _ named
          (settle-Grows pk success payload charge_id now named)
          (λ _ settled _. mark_processed-Grows event_pk settled))

continue_event-Grows :
    (pk : ℕ) (payload : Fields) (found : Option PaymentAttempt) (now : DateTime) (o : Option ℕ)
    (db : Db)
    → Grows db (continue_event pk payload found now o db)
continue_event-Grows pk payload found now none db = Evolves-refl db
continue_event-Grows pk payload found now (some k) db = apply_event-Grows k pk payload found now db

absorb_conflict-Grows : (e : Error) (db : Db) → Grows db (absorb_conflict e db)
absorb_conflict-Grows (Error.integrity_error c) db = Evolves-refl db
absorb_conflict-Grows _ db = tt

record_event-Grows :
    (pk : ℕ) (event : WebhookEvent) (payload : Fields) (found : Option PaymentAttempt)
    (now : DateTime) (db : Db)
    → Grows db (record_event pk event payload found now db)
unfolding record_event
record_event-Grows pk event payload found now db =
    Grows-bind (handle (create_event event >>= λ k. pure (some k)) absorb_conflict) _ db
      (Grows-handle (create_event event >>= λ k. pure (some k)) absorb_conflict db
        (Grows-bind (create_event event) _ db (create_event-Grows event db)
          (λ k created _. Evolves-refl created))
        (λ e _. absorb_conflict-Grows e db))
      (λ o recorded _. continue_event-Grows pk payload found now o recorded)

receive-Grows :
    (event_type provider event_id : String) (payload : Fields) (now : DateTime) (db : Db)
    → Grows db (receive event_type provider event_id payload now db)
unfolding receive
receive-Grows event_type provider event_id payload now db =
    Grows-if_result (any_entry (is_event provider event_id) db.events) _ _ db (λ _. Evolves-refl db)
      (λ _.
        record_event-Grows pk
          (new_event event_type provider event_id payload (lookup pk db.attempts)) payload
          (lookup pk db.attempts) now db)
  where
    pk : ℕ
    pk = payment_key (field_value "payment_attempt_id" payload)

pub handle_webhook-Grows :
    (event_type : Json) (payload : Fields) (provider : String) (event_id : Json) (now : DateTime)
    (db : Db)
    → Grows db (handle_webhook event_type payload provider event_id now db)
unfolding handle_webhook
handle_webhook-Grows event_type payload provider event_id now db =
    refused_or (is_refused event_type payload provider event_id)
      (receive (text_of event_type) provider (text_of event_id) payload now) db
      (receive-Grows (text_of event_type) provider (text_of event_id) payload now db)
  where
    refused_or :
        (b : Bool) (m : M (Unit {0})) (db : Db)
        → Grows db (m db)
        → Grows db ((raise_if b value_error >> m) db)
    refused_or true m db g = tt
    refused_or false m db g = g
