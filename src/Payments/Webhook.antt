-- ===== src/Payments/Webhook.antt =====
-- `PaymentService.handle_webhook` of payments/application/services.py, with `WebhookEvent.clean` and
-- `save` of payments/domain/models.py.
use Prim.Native.String.{count}
use chargeflow.Prelude.{
  ℕ, zero, suc, pos, String, Bool, true, false, ◌&&◌, ◌||◌, not, Option, none, some, lookup, put,
  add, fresh, any_entry, ltb, same_text, is_blank, if◌then◌else◌,
}
use chargeflow.Calendar.{DateTime}
use chargeflow.Schema.{Json, Fields, field_value, PaymentAttempt, WebhookEvent}
use chargeflow.Db.{
  Error, value_error, integrity_error, unique_provider_event, ok, err, M, pure, raise, handle,
  ◌>>=◌, ◌>>◌, modify, raise_if,
}
use chargeflow.Payments.Settle.{settle}

-- A text that is not empty and has at most 255 characters.
unfoldable pub is_short_text : Json → Bool
is_short_text (Json.str s) = not (is_blank s) && not (ltb 255 (count s))
is_short_text _ = false

-- `payment_id is not None and (...)`: what the code refuses as a key.
unfoldable pub is_bad_payment_id : Json → Bool
is_bad_payment_id Json.null = false
is_bad_payment_id (Json.int (pos zero)) = true
is_bad_payment_id (Json.int (pos (suc n))) = false
is_bad_payment_id _ = true

-- `PaymentAttempt.objects.get(pk=payment_id)` finds a row only under a positive number.
unfoldable pub payment_key : Json → ℕ
payment_key (Json.int (pos n)) = n
payment_key _ = 0

unfoldable pub is_null : Json → Bool
is_null Json.null = true
is_null _ = false

unfoldable pub is_text : String → Json → Bool
is_text s (Json.str t) = same_text t s
is_text s _ = false

unfoldable pub is_bad_status : Json → Bool
is_bad_status j = not (is_text "success" j || is_text "failed" j)

unfoldable pub text_of : Json → String
text_of (Json.str s) = s
text_of _ = ""

-- What the code refuses with a ValueError before its first query, in the order of its tests. The
-- unknown provider is refused by `get_payment_gateway`.
unfoldable pub is_refused : Json → Fields → String → Json → Bool
is_refused event_type payload provider provider_event_id =
    let payment_id = field_value "payment_attempt_id" payload in
    not (same_text provider "mock")
    || not (is_short_text provider_event_id)
    || not (is_short_text event_type)
    || is_bad_payment_id payment_id
    || (not (is_null payment_id) && is_bad_status (field_value "status" payload))
    || (not (is_null payment_id) && not (is_short_text (field_value "provider_charge_id" payload)))

abbrev pub is_event : String → String → ℕ → WebhookEvent → Bool
is_event provider event_id _ e =
    same_text e.provider provider && same_text e.provider_event_id event_id

-- The organization that `WebhookEvent.clean` fills in.
abbrev pub organization_of : Option PaymentAttempt → Option ℕ
organization_of none = none
organization_of (some a) = some a.organization

-- `WebhookEvent.objects.create`, under the unique constraint.
unfoldable pub create_event : WebhookEvent → M ℕ
create_event e db =
    if any_entry (is_event e.provider e.provider_event_id) db.events
    then err (integrity_error unique_provider_event)
    else ok (fresh db.events, record db { events = add e db.events })

unfoldable pub new_event : String → String → String → Fields → Option PaymentAttempt → WebhookEvent
new_event event_type provider event_id payload found = record {
  organization = organization_of found;
  event_type = event_type;
  provider = provider;
  provider_event_id = event_id;
  payload = payload;
  processed = false;
}

unfoldable pub update_event : ℕ → (WebhookEvent → WebhookEvent) → M (Unit {0})
update_event pk write = modify λ db. record db {
  events = elim (lookup pk db.events) [ none ↦ db.events | some e ↦ put pk (write e) db.events ];
}

-- `webhook.processed = True` and its `save`.
unfoldable pub mark_processed : ℕ → M (Unit {0})
mark_processed pk = update_event pk λ e. record e { processed = true }

-- What follows the INSERT of the event.
unfoldable pub apply_event : ℕ → ℕ → Fields → Option PaymentAttempt → DateTime → M (Unit {0})
apply_event event_pk pk payload none now = mark_processed event_pk
apply_event event_pk pk payload (some a) now = do
  update_event event_pk (λ e. record e { organization = some a.organization })
  settle pk (is_text "success" (field_value "status" payload)) payload
      (text_of (field_value "provider_charge_id" payload)) now
  mark_processed event_pk

abbrev pub absorb_conflict : Error → M (Option ℕ)
absorb_conflict (integrity_error c) = pure none
absorb_conflict e = raise e

abbrev pub continue_event : ℕ → Fields → Option PaymentAttempt → DateTime → Option ℕ → M (Unit {0})
continue_event pk payload found now none = pure tt
continue_event pk payload found now (some event_pk) = apply_event event_pk pk payload found now

-- The INSERT of the event and what follows it.
unfoldable pub record_event :
    ℕ → WebhookEvent → Fields → Option PaymentAttempt → DateTime → M (Unit {0})
record_event pk event payload found now =
    handle (create_event event >>= λ k. pure (some k)) absorb_conflict
    >>= continue_event pk payload found now

-- From the look for an event that was received before.
unfoldable pub receive : String → String → String → Fields → DateTime → M (Unit {0})
receive event_type provider event_id payload now db =
    let pk = payment_key (field_value "payment_attempt_id" payload) in
    let found = lookup pk db.attempts in
    if any_entry (is_event provider event_id) db.events
    then ok (tt, db)
    else record_event pk (new_event event_type provider event_id payload found) payload found now db

-- `PaymentService.handle_webhook`. The payload is an object by its type.
unfoldable pub handle_webhook : Json → Fields → String → Json → DateTime → M (Unit {0})
handle_webhook event_type payload provider provider_event_id now =
    raise_if (is_refused event_type payload provider provider_event_id) value_error
    >> receive (text_of event_type) provider (text_of provider_event_id) payload now
