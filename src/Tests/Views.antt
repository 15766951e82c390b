-- ===== src/Tests/Views.antt =====
-- The views at concrete requests.
use chargeflow.Prelude.{
  ℕ, suc, ℤ, pos, String, true, false, ◌≡◌, ◌≢◌, refl, ◌⊎◌, Option, none, some, List, [], ◌∷◌,
  lookup, put, add, fresh, any_entry, find_row, select, arith, if◌then◌else◌,
}
use chargeflow.Schema.{
  Json, Fields, empty, field, field_value, InvoiceStatus, PaymentStatus, PaymentAttempt, Role,
  Scope, OrganizationMembership,
}
use chargeflow.Db.{Db, http404, permission_denied, ok, err}
use chargeflow.Accounts.{
  Request, Principal, absent, project_access, unsafe_access, is_org_admin, is_human,
  get_request_organization, of_user, of_human, by_header, is_membership, is_admin_membership,
  is_admin_role, is_read_write,
}
use chargeflow.Keys.{authenticate, revoke, is_match, is_key_expired, generate_raw_key}
use chargeflow.Payments.Signature.{
  verify_webhook_signature, split_in_two, verify_split, strip_prefix, verify_parts, is_timestamp,
  is_digest, is_outside, decimal,
}
use chargeflow.Payments.Webhook.{is_short_text, payment_key}
use chargeflow.Payments.Prepare.{is_chargeable}
use chargeflow.Payments.Charge.{World}
use chargeflow.Signing.{IsSigned, verify-accepts}
use chargeflow.Api.{scope}
use chargeflow.Api.Payments.{create_attempt}
use chargeflow.Api.Subscriptions.{
  activate_subscription, cancel_subscription, renew_subscription, create_subscription,
}
use chargeflow.Api.Catalog.{
  create_plan, update_plan, destroy_plan, create_customer, update_customer,
}
use chargeflow.Api.Webhooks.{
  FieldTypes, ValidWebhook, text_in, validated_payload, read_webhook, webhook_values, read_payload,
  payload_values, has_exactly, only_fields, all_fields, has_field, post,
}
use chargeflow.Api.Accepted.{is_positive, IsDocumented}
use chargeflow.Api.Delivery.{post-IsSigned, post-replies, post-decides}
use chargeflow.Api.Scope.{foreign_subscription, foreign_invoice, denied}
use chargeflow.Api.Auth.{validate_email, create_user, insert_user, with_username}
use chargeflow.Api.Accounts.{HasUniqueEmails, register-HasUniqueEmails, revoked_key}
use chargeflow.Api.Organizations.{found_organization, my_role}
use chargeflow.Api.Founding.{request_in, founder}
use chargeflow.Tests.Shop.{
  new_year, february, monthly, customer, running, bill, try, shop, paid_shop,
}
use chargeflow.Tests.Doors.{eight, toy_hmac, header, write_request, same, invited_shop, key}
use chargeflow.Tests.Sound.{shop-IsSound}

-- Fields that take numbers, texts and choices as they stand.
abbrev toy_integer : Json → Option ℤ
toy_integer (Json.int (pos (suc n))) = some (pos (suc n))
toy_integer _ = none

abbrev toy_text : Json → Option String
toy_text (Json.str s) = if is_short_text (Json.str s) then some s else none
toy_text _ = none

abbrev toy_choice : List String → Json → Option String
toy_choice cs (Json.str s) = if text_in s cs then some s else none
toy_choice cs _ = none

abbrev toy_types : FieldTypes
toy_types = record { integer = toy_integer; text = toy_text; choice = toy_choice }

toy_integer-positive : (j : Json) (z : ℤ) → toy_integer j ≡ some z → is_positive z ≡ true
unfolding is_positive
toy_integer-positive j z h = ground arith

toy_text-short : (j : Json) (s : String) → toy_text j ≡ some s → is_short_text (Json.str s) ≡ true
toy_text-short j s h = ground arith

toy_choice-known :
    (cs : List String) (j : Json) (s : String) → toy_choice cs j ≡ some s → text_in s cs ≡ true
toy_choice-known cs j s h = ground arith

toy_types-IsDocumented : IsDocumented toy_types
toy_types-IsDocumented = record {
  integer = toy_integer-positive;
  text = toy_text-short;
  choice = toy_choice-known;
}

header-IsSigned : IsSigned toy_hmac eight 100 [] header
unfolding verify_webhook_signature split_in_two verify_split strip_prefix verify_parts is_timestamp
    is_digest is_outside decimal
header-IsSigned = (verify-accepts toy_hmac eight 100 [] header).0 refl

-- A failure of attempt 1, as the provider tells it.
abbrev payload : Fields
payload = validated_payload (pos 1) "failed" "ch"

abbrev body : Json
body = Json.object (
    field "provider" (Json.str "mock") (
      field "provider_event_id" (Json.str "e2")
        (field "event_type" (Json.str "charge") (field "payload" (Json.object payload) empty))))

abbrev webhook : ValidWebhook
webhook = record {
  provider = "mock";
  provider_event_id = "e2";
  event_type = "charge";
  payload = payload;
}

abbrev open_shop : Db
open_shop = shop InvoiceStatus.issued PaymentStatus.pending

read_body : read_webhook toy_types body ≡ some webhook
unfolding read_webhook webhook_values read_payload payload_values has_exactly only_fields all_fields
    has_field field_value is_short_text validated_payload
read_body = refl

post-IsSigned_example :
    IsSigned toy_hmac eight 100 [] header
    ⊎ (post toy_types toy_hmac eight 100 [] header (ok body) february open_shop
        ≡ (ok (record { status = 400; body = none }), open_shop))
post-IsSigned_example =
    post-IsSigned toy_types toy_hmac eight 100 [] header february open_shop (ok body)

post-replies_example :
    (db' : Db) × (post toy_types toy_hmac eight 100 [] header (ok body) february open_shop
      ≡ (ok (record { status = 200; body = some tt }), db'))
post-replies_example =
    post-replies toy_types toy_hmac eight 100 [] header february open_shop body webhook
      toy_types-IsDocumented (shop-IsSound InvoiceStatus.issued PaymentStatus.pending)
      header-IsSigned read_body

post-decides_example :
    (db' : Db) × (b : PaymentAttempt) × (post toy_types toy_hmac eight 100 [] header
        (ok body)
        february
        open_shop
      ≡ (ok (record { status = 200; body = some tt }), db'))
    × (lookup 1 db'.attempts ≡ some b)
    × (is_chargeable b ≡ false)
unfolding payment_key field_value validated_payload lookup any_entry
post-decides_example =
    post-decides toy_types toy_hmac eight 100 [] header february open_shop body webhook
      toy_types-IsDocumented (shop-IsSound InvoiceStatus.issued PaymentStatus.pending)
      header-IsSigned read_body (try PaymentStatus.pending) refl refl

-- The shop with its rows in another organization than that of the request.
abbrev foreign_shop : Db
foreign_shop = record invited_shop {
  subscriptions = (1, record running { organization = 2 }) ∷ [];
  invoices = (1, record (bill InvoiceStatus.issued) { organization = 2 }) ∷ [];
}

write_request-scope : scope write_request foreign_shop ≡ ok (some 1)
unfolding scope get_request_organization of_user of_human by_header find_row is_membership
write_request-scope = refl

write_request-access : project_access write_request foreign_shop ≡ ok true
unfolding project_access unsafe_access is_org_admin is_human get_request_organization of_user
    of_human by_header find_row is_membership is_admin_membership is_admin_role
write_request-access = refl

foreign_subscription_example :
    (activate_subscription write_request 1 february foreign_shop ≡ (err http404, foreign_shop))
    × (cancel_subscription write_request 1 february foreign_shop ≡ (err http404, foreign_shop))
    × (renew_subscription write_request 1 february foreign_shop ≡ (err http404, foreign_shop))
unfolding lookup
foreign_subscription_example =
    foreign_subscription write_request 1 foreign_shop write_request-scope write_request-access 1
      (record running { organization = 2 }) february (refl, tt) refl refl

-- What a charge takes from outside.
abbrev pub toy_world : World
toy_world = record {
  digest = λ amount currency customer method. currency;
  provider_key = "k2";
  approved = true;
  charge_id = "ch2";
  prepared_at = new_year;
  settled_at = february;
}

foreign_invoice_example :
    create_attempt toy_world false write_request (ok (pos 1)) none foreign_shop
    ≡ (err http404, foreign_shop)
unfolding lookup
foreign_invoice_example =
    foreign_invoice write_request 1 foreign_shop write_request-scope write_request-access toy_world
      false 1 (record (bill InvoiceStatus.issued) { organization = 2 }) none refl refl

-- A key that may only read.
abbrev read_request : Request
read_request = record {
  user = Principal.project 1 Scope.read;
  organization = some 1;
  header = absent;
  safe_method = false;
}

denied_example :
    (create_attempt toy_world false read_request (ok (pos 1)) none paid_shop
      ≡ (err permission_denied, paid_shop))
    × (create_subscription read_request (ok (pos 1, pos 1)) february paid_shop
        ≡ (err permission_denied, paid_shop))
    × (activate_subscription read_request 1 february paid_shop ≡ (err permission_denied, paid_shop))
    × (cancel_subscription read_request 1 february paid_shop ≡ (err permission_denied, paid_shop))
    × (renew_subscription read_request 1 february paid_shop ≡ (err permission_denied, paid_shop))
    × (create_plan read_request (λ o. monthly) paid_shop ≡ (err permission_denied, paid_shop))
    × (update_plan read_request 1 (λ p. p) paid_shop ≡ (err permission_denied, paid_shop))
    × (destroy_plan read_request 1 paid_shop ≡ (err permission_denied, paid_shop))
    × (create_customer read_request (λ o. customer) paid_shop ≡ (err permission_denied, paid_shop))
    × (update_customer read_request 1 (λ c. c) paid_shop ≡ (err permission_denied, paid_shop))
unfolding project_access unsafe_access is_read_write
denied_example =
    denied read_request paid_shop refl toy_world false 1 (ok (pos 1)) none (ok (pos 1, pos 1))
      february (λ o. monthly) (λ p. p) (λ o. customer) (λ c. c)

abbrev registered_shop : Db
registered_shop = record paid_shop {
  users = (1, record { username = "a@b.c"; email = "a@b.c" }) ∷ [];
}

register-HasUniqueEmails_example : HasUniqueEmails same registered_shop.users
unfolding validate_email create_user insert_user with_username any_entry fresh add lookup
register-HasUniqueEmails_example =
    register-HasUniqueEmails same same same same (λ s. refl) (λ s. refl) "a@b.c" paid_shop
      registered_shop 1 refl (record { same = λ j k a b hj hk e. absurd (cc hj) })

abbrev two_keys : Db
two_keys = record paid_shop {
  api_keys = (1, key) ∷ (2, record key { prefix = "cf_b"; key_hash = "cf_b" }) ∷ [];
}

abbrev one_key : Db
one_key = record two_keys {
  api_keys =
      (1, record key { revoked = true })
      ∷ (2, record key { prefix = "cf_b"; key_hash = "cf_b" })
      ∷ [];
}

revoked_key_example : ◌≢◌ {A = ℕ} 2 1
unfolding revoke lookup put authenticate select is_match is_key_expired
revoked_key_example =
    revoked_key same 1 two_keys one_key (refl, (refl, tt)) refl "cf_b" new_year 2
      (record key { prefix = "cf_b"; key_hash = "cf_b" }) refl

founder_example :
    (db' : Db) × (m : OrganizationMembership) × (found_organization same 5 "Shop" "x" new_year
        paid_shop
      ≡ ok ((1, (1, generate_raw_key "x")), db'))
    × (m.role ≡ Role.owner)
    × (my_role 1 5 db' ≡ some Role.owner)
    × (get_request_organization (request_in 1 5 false) db' ≡ ok (some 1, some m))
    × (is_org_admin (request_in 1 5 false) db' ≡ ok true)
unfolding fresh find_row
founder_example = founder same 5 "Shop" "x" new_year paid_shop refl false
