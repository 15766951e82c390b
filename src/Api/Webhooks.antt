-- ===== src/Api/Webhooks.antt =====
-- `WebhookView` of payments/api/views.py and the webhook's serializers of payments/api/serializers.py.
-- The framework's fields are parameters: what each of them makes of a value of the body, or `none`
-- where it refuses the value.
use chargeflow.Prelude.{
  ℕ, ℤ, String, Bool, true, false, ◌&&◌, Option, none, some, List, [], ◌∷◌, same_text,
  if◌then◌else◌,
}
use chargeflow.Calendar.{DateTime}
use chargeflow.Schema.{Json, Fields, empty, field, field_value}
use chargeflow.Db.{validation_error, Result, err}
use chargeflow.Payments.Charge.{Proc, atomically, ◌>>=◌, ◌>>◌}
use chargeflow.Payments.Signature.{Bytes, verify_webhook_signature}
use chargeflow.Payments.Webhook.{handle_webhook}
use chargeflow.Api.{Reply, reading, reply}

-- `IntegerField(min_value=1)`, `CharField(max_length=255)` and `ChoiceField(choices=...)`.
pub record FieldTypes : Type 0 where
  pub integer : Json → Option ℤ
  pub text : Json → Option String
  pub choice : List String → Json → Option String

unfoldable pub has_field : String → Fields → Bool
has_field k empty = false
has_field k (field j v fs) = let rest = has_field k fs in if same_text j k then true else rest

abbrev pub text_in : String → List String → Bool
text_in s [] = false
text_in s (x ∷ xs) = if same_text s x then true else text_in s xs

unfoldable pub only_fields : List String → Fields → Bool
only_fields names empty = true
only_fields names (field j v fs) = text_in j names && only_fields names fs

unfoldable pub all_fields : List String → Fields → Bool
all_fields [] fs = true
all_fields (k ∷ ks) fs = has_field k fs && all_fields ks fs

-- `set(data) == expected`
unfoldable pub has_exactly : List String → Fields → Bool
has_exactly names fs = only_fields names fs && all_fields names fs

abbrev pub payload_fields : List String
payload_fields = "payment_attempt_id" ∷ "status" ∷ "provider_charge_id" ∷ []

abbrev pub webhook_fields : List String
webhook_fields = "provider" ∷ "provider_event_id" ∷ "event_type" ∷ "payload" ∷ []

-- `serializer.validated_data`
pub record ValidWebhook : Type 0 where
  pub provider : String
  pub provider_event_id : String
  pub event_type : String
  pub payload : Fields

-- The `validated_data` of the payload.
unfoldable pub validated_payload : ℤ → String → String → Fields
validated_payload pk status charge_id =
    field "payment_attempt_id" (Json.int pk)
      (field "status" (Json.str status) (field "provider_charge_id" (Json.str charge_id) empty))

module _ (types : FieldTypes) where
  -- `WebhookPayloadSerializer`, its fields behind the test of `to_internal_value`.
  unfoldable pub payload_values : Fields → Option Fields
  payload_values fs = elim (types.integer (field_value "payment_attempt_id" fs)) [
    | none ↦ none
    | some pk ↦ elim (types.choice ("success" ∷ "failed" ∷ []) (field_value "status" fs)) [
      | none ↦ none
      | some status ↦ elim (types.text (field_value "provider_charge_id" fs)) [
        | none ↦ none
        | some charge_id ↦ some (validated_payload pk status charge_id)
      ]
    ]
  ]

  unfoldable pub read_payload : Json → Option Fields
  read_payload (Json.object fs) = if has_exactly payload_fields fs then payload_values fs else none
  read_payload _ = none

  -- `WebhookSerializer`, its fields behind the test of `to_internal_value`.
  unfoldable pub webhook_values : Fields → Option ValidWebhook
  webhook_values fs = elim (types.choice ("mock" ∷ []) (field_value "provider" fs)) [
    | none ↦ none
    | some provider ↦ elim (types.text (field_value "provider_event_id" fs)) [
      | none ↦ none
      | some event_id ↦ elim (types.text (field_value "event_type" fs)) [
        | none ↦ none
        | some event_type ↦ elim (read_payload (field_value "payload" fs)) [
          | none ↦ none
          | some payload ↦ some (record {
            provider = provider;
            provider_event_id = event_id;
            event_type = event_type;
            payload = payload;
          })
        ]
      ]
    ]
  ]

  unfoldable pub read_webhook : Json → Option ValidWebhook
  read_webhook (Json.object fs) = if has_exactly webhook_fields fs then webhook_values fs else none
  read_webhook _ = none

  -- The part behind the serializer.
  unfoldable pub deliver_valid : Option ValidWebhook → DateTime → Proc (Reply (Unit {0}))
  deliver_valid none now = reading λ _. err validation_error
  deliver_valid (some w) now = do
    atomically (
        handle_webhook (Json.str w.event_type) w.payload w.provider (Json.str w.provider_event_id)
          now)
    reply 200 (some tt)

  -- The part behind the signature; `parsed` is what the framework's JSON parser makes of the body.
  unfoldable pub post_signed : Result Json → DateTime → Proc (Reply (Unit {0}))
  post_signed parsed now = do body ← reading (λ _. parsed); deliver_valid (read_webhook body) now

  -- `WebhookView.post`; `seconds` is the clock of the signature's check, `now` that of the rest.
  unfoldable pub post :
      (Bytes → Bytes → Bytes)
      → Bytes
      → ℕ
      → Bytes
      → Bytes
      → Result Json
      → DateTime
      → Proc (Reply (Unit {0}))
  post hmac secret seconds raw_body signature parsed now =
      elim (verify_webhook_signature hmac secret seconds raw_body signature) [
        | some refusal ↦ reply 400 none
        | none ↦ post_signed parsed now
      ]
