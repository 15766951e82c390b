-- ===== src/Api/Accepted.antt =====
-- The webhook's serializers of payments/api/serializers.py against the tests of the service.
use chargeflow.Prelude.{
  ℤ, pos, negsuc, zero, suc, String, Bool, true, false, ◌≡◌, refl, some, List, [], ◌∷◌, arith,
  Option-cases, inl, inr,
}
use chargeflow.Schema.{Json, Fields, field_value}
use chargeflow.Payments.Webhook.{
  is_refused, is_short_text, is_bad_payment_id, is_bad_status, is_text,
}
use chargeflow.Api.Webhooks.{
  FieldTypes, ValidWebhook, text_in, validated_payload, payload_values, read_payload,
  webhook_values, read_webhook,
}

unfoldable pub is_positive : ℤ → Bool
is_positive (pos zero) = false
is_positive (pos (suc n)) = true
is_positive (negsuc n) = false

-- What the framework documents of its fields: the number is at least 1, the text is not blank and not
-- longer than 255 characters, the choice is one of those given.
pub record IsDocumented (types : FieldTypes) : Type 0 where
  pub integer : (j : Json) (z : ℤ) → types.integer j ≡ some z → is_positive z ≡ true
  pub text : (j : Json) (s : String) → types.text j ≡ some s → is_short_text (Json.str s) ≡ true
  pub choice :
      (cs : List String) (j : Json) (s : String) → types.choice cs j ≡ some s → text_in s cs ≡ true

positive_id : (z : ℤ) → is_positive z ≡ true → is_bad_payment_id (Json.int z) ≡ false
unfolding is_positive is_bad_payment_id
positive_id (pos zero) h = cc h
positive_id (pos (suc n)) h = refl
positive_id (negsuc n) h = cc h

known_status :
    (s : String) → text_in s ("success" ∷ "failed" ∷ []) ≡ true → is_bad_status (Json.str s) ≡ false
unfolding is_bad_status is_text
known_status s h = ground arith

-- A payload that the serializer has made passes the tests of the service.
payload_accepted :
    (event_type event_id provider status charge_id : String) (pk : ℤ)
    → text_in provider ("mock" ∷ []) ≡ true
    → is_short_text (Json.str event_id) ≡ true
    → is_short_text (Json.str event_type) ≡ true
    → is_positive pk ≡ true
    → text_in status ("success" ∷ "failed" ∷ []) ≡ true
    → is_short_text (Json.str charge_id) ≡ true
    → is_refused
        (Json.str event_type)
        (validated_payload pk status charge_id)
        provider
        (Json.str event_id)
      ≡ false
unfolding is_refused validated_payload field_value
payload_accepted event_type event_id provider status charge_id pk p i t k s c =
    ground (arith, positive_id pk k, known_status status s)

module _ (types : FieldTypes) (documented : IsDocumented types) where
  -- What the serializer of the payload lets through.
  payload-eq :
      (j : Json) (payload : Fields)
      → read_payload types j ≡ some payload
      → (pk : ℤ) × (status : String) × (charge_id : String) × (payload
          ≡ validated_payload pk status charge_id)
        × (is_positive pk ≡ true)
        × (text_in status ("success" ∷ "failed" ∷ []) ≡ true)
        × (is_short_text (Json.str charge_id) ≡ true)
  unfolding read_payload payload_values
  payload-eq (Json.object fs) payload h =
      elim (Option-cases (types.integer (field_value "payment_attempt_id" fs))) [
        | inl e ↦ absurd (ground arith)
        | inr (pk, e) ↦
            elim (Option-cases
              (types.choice ("success" ∷ "failed" ∷ []) (field_value "status" fs))) [
                | inl e' ↦ absurd (ground arith)
                | inr (status, e') ↦
                    elim (Option-cases (types.text (field_value "provider_charge_id" fs))) [
                      | inl e'' ↦ absurd (ground arith)
                      | inr (charge_id, e'') ↦ (
                        pk,
                        status,
                        charge_id,
                        ground arith,
                        documented.integer _ pk e,
                        documented.choice _ _ status e',
                        documented.text _ charge_id e'',
                      )
                    ]
              ]
      ]
  payload-eq Json.null payload h = absurd (cc h)
  payload-eq (Json.bool b) payload h = absurd (cc h)
  payload-eq (Json.int z) payload h = absurd (cc h)
  payload-eq (Json.real s) payload h = absurd (cc h)
  payload-eq (Json.str s) payload h = absurd (cc h)
  payload-eq (Json.array xs) payload h = absurd (cc h)

  -- What the serializer has taken, the service does not refuse.
  values-accepted :
      (fs : Fields) (w : ValidWebhook)
      → webhook_values types fs ≡ some w
      → is_refused (Json.str w.event_type) w.payload w.provider (Json.str w.provider_event_id)
        ≡ false
  unfolding webhook_values
  values-accepted fs w h =
      elim (Option-cases (types.choice ("mock" ∷ []) (field_value "provider" fs))) [
        | inl e ↦ absurd (ground arith)
        | inr (provider, e) ↦
            elim (Option-cases (types.text (field_value "provider_event_id" fs))) [
              | inl e' ↦ absurd (ground arith)
              | inr (event_id, e') ↦
                  elim (Option-cases (types.text (field_value "event_type" fs))) [
                    | inl e'' ↦ absurd (ground arith)
                    | inr (event_type, e'') ↦
                        elim (Option-cases (read_payload types (field_value "payload" fs))) [
                          | inl e3 ↦ absurd (ground arith)
                          | inr (payload, e3) ↦
                              let (pk, status, charge_id, same, k, s, c) =
                                payload-eq _ payload e3 in
                              let accepted =
                                payload_accepted event_type event_id provider status charge_id pk
                                  (documented.choice _ _ provider e) (documented.text _ event_id e')
                                  (documented.text _ event_type e'') k s c in
                              ground arith
                        ]
                  ]
            ]
      ]

  pub read-accepted :
      (body : Json) (w : ValidWebhook)
      → read_webhook types body ≡ some w
      → is_refused (Json.str w.event_type) w.payload w.provider (Json.str w.provider_event_id)
        ≡ false
  unfolding read_webhook
  read-accepted (Json.object fs) w h = values-accepted fs w (ground arith)
  read-accepted Json.null w h = absurd (cc h)
  read-accepted (Json.bool b) w h = absurd (cc h)
  read-accepted (Json.int z) w h = absurd (cc h)
  read-accepted (Json.real s) w h = absurd (cc h)
  read-accepted (Json.str s) w h = absurd (cc h)
  read-accepted (Json.array xs) w h = absurd (cc h)
