-- ===== src/Membership/Notifications.antt =====
-- membership/google-play/rtdn/parse-notification.ts: the body of a Pub/Sub push becomes a notification
-- of Google Play, or an RtdnParseError (none), the one error of the parser. `JSON.parse`, `Buffer` and
-- `TextDecoder` are parameters.

pub mod Inversion
pub mod Parsed
pub mod Reading
mod Tests
use town_api.Common.{
  ℕ, ◌%◌, String, Bool, true, false, ◌&&◌, ◌||◌, Option, none, some, List, [], ◌∷◌, ◌==◌, leb,
  nat_eq, if◌then◌else◌,
}
use town_api.Common.Tables.{any, filter, length}
use town_api.Membership.Audit.{utf16_length}
use town_api.Common.Json.{
  Json, Members, undefined, null, integer, negative_integer, string, end, member, get,
  record_members, non_empty_string, codes,
}

-- `TextDecoder('utf-8', { fatal: true })`, `Buffer.from(…, 'base64')`, `toString('base64')` and
-- `JSON.parse`, with none where they throw.
pub record Codec : Type 0 where
  pub decode_utf8 : List ℕ → Option String
  pub from_base64 : String → List ℕ
  pub to_base64 : List ℕ → String
  pub parse_json : String → Option Json

pub record RtdnConfig : Type 0 where
  pub package_name : String
  pub subscription : String

pub data PurchaseKind : Type 0 where
  subscription : PurchaseKind
  one_time : PurchaseKind
  voided : PurchaseKind

-- What a notification about a purchase holds.
pub record PurchaseDetail : Type 0 where
  pub kind : PurchaseKind
  pub notification_type : Option ℕ
  pub purchase_token : String
  pub subscription_id : Option String

pub data NoticeDetail : Type 0 where
  test : NoticeDetail
  purchase : PurchaseDetail → NoticeDetail

pub record ParsedRtdnNotification : Type 0 where
  pub detail : NoticeDetail
  pub message_id : String
  pub event_time_millis : String
  pub raw_payload : Members
  pub decoded_payload_bytes : List ℕ

infixl 5 ◌>>=◌
abbrev pub ◌>>=◌ : {A B : Type 0} → Option A → (A → Option B) → Option B
none >>= f = none
some a >>= f = f a

-- `if (!test) { fail(); }`, and what follows.
abbrev pub guarded : {A : Type 0} → Bool → Option A → Option A
guarded false a = none
guarded true a = a

abbrev pub developer_notification_version : String
developer_notification_version = "1.0"

abbrev pub notification_variants : List String
notification_variants =
    "subscriptionNotification" ∷ "oneTimeProductNotification" ∷ "voidedPurchaseNotification"
    ∷ "testNotification" ∷ []

abbrev within : ℕ → ℕ → ℕ → Bool
within low high c = leb low c && leb c high

abbrev all_digits : List ℕ → Bool
all_digits [] = true
all_digits (c ∷ cs) = within 48 57 c && all_digits cs

-- DECIMAL_MILLIS_PATTERN.
unfoldable pub is_decimal_millis : List ℕ → Bool
is_decimal_millis [] = false
is_decimal_millis (c ∷ []) = within 48 57 c
is_decimal_millis (c ∷ cs) = within 49 57 c && all_digits cs && leb (length cs) 19

-- `[A-Za-z0-9+/]`, and the sign of equality.
abbrev sextet : ℕ → Bool
sextet c = within 65 90 c || within 97 122 c || within 48 57 c || nat_eq c 43 || nat_eq c 47

abbrev pad : ℕ → Bool
pad c = nat_eq c 61

-- A last group with padding.
abbrev padded : ℕ → ℕ → ℕ → ℕ → List ℕ → Bool
padded a b c d [] = sextet a && sextet b && pad d && (pad c || sextet c)
padded a b c d (x ∷ xs) = false

-- BASE64_PATTERN.
unfoldable pub is_base64 : List ℕ → Bool
is_base64 [] = true
is_base64 (a ∷ b ∷ c ∷ d ∷ cs) =
    sextet a && sextet b && sextet c && sextet d && is_base64 cs || padded a b c d cs
is_base64 _ = false

abbrev pub has_only_keys : List String → Members → Bool
has_only_keys allowed end = true
has_only_keys allowed (member key v ms) = any (λ a. a == key) allowed && has_only_keys allowed ms

-- `value === expected`.
abbrev pub is_text : String → Json → Bool
is_text expected (string s) = s == expected
is_text expected _ = false

abbrev pub require_notification_type : Json → Option ℕ
require_notification_type (integer n) = some n
require_notification_type _ = none

abbrev pub is_integer : Json → Bool
is_integer (integer n) = true
is_integer (negative_integer n) = true
is_integer _ = false

unfoldable pub decode_base64_utf8 : Codec → Json → Option (List ℕ × String)
unfolding is_base64
decode_base64_utf8 c value = do
  encoded ← non_empty_string value
  text ←
      guarded
        (nat_eq (utf16_length encoded % 4) 0
          && is_base64 (codes encoded)
          && c.to_base64 (c.from_base64 encoded) == encoded)
        (c.decode_utf8 (c.from_base64 encoded))
  some (c.from_base64 encoded, text)

abbrev pub parse_json_object : Codec → String → Option Members
parse_json_object c text = c.parse_json text >>= record_members

abbrev pub is_present : Json → Bool
is_present undefined = false
is_present null = false
is_present _ = true

-- The only one of the variants.
abbrev pub only : List String → Option String
only [] = none
only (k ∷ []) = some k
only (k ∷ l ∷ ks) = none

abbrev pub resolve_variant : Members → Option String
resolve_variant ms = only (filter (λ key. is_present (get key ms)) notification_variants)

unfoldable pub parse_test : Members → Option NoticeDetail
parse_test d =
    guarded
      (has_only_keys ("version" ∷ []) d && is_text developer_notification_version (get "version" d))
      (some test)

-- `detail.subscriptionId === undefined ? null : requireNonEmptyString(detail.subscriptionId)`.
abbrev pub optional_id : Json → Option (Option String)
optional_id undefined = some none
optional_id v = non_empty_string v >>= λ s. some (some s)

abbrev pub subscription_notice : ℕ → String → Option String → NoticeDetail
subscription_notice type token id = purchase (record {
  kind = subscription;
  notification_type = some type;
  purchase_token = token;
  subscription_id = id;
})

unfoldable pub parse_subscription : Members → Option NoticeDetail
parse_subscription d = do
  id ←
      guarded
        (has_only_keys ("version" ∷ "notificationType" ∷ "purchaseToken" ∷ "subscriptionId" ∷ []) d
          && is_text developer_notification_version (get "version" d))
        (optional_id (get "subscriptionId" d))
  type ← require_notification_type (get "notificationType" d)
  token ← non_empty_string (get "purchaseToken" d)
  some (subscription_notice type token id)

abbrev pub one_time_notice : ℕ → String → NoticeDetail
one_time_notice type token = purchase (record {
  kind = one_time;
  notification_type = some type;
  purchase_token = token;
  subscription_id = none;
})

unfoldable pub parse_one_time : Members → Option NoticeDetail
parse_one_time d = do
  sku ←
      guarded
        (has_only_keys ("version" ∷ "notificationType" ∷ "purchaseToken" ∷ "sku" ∷ []) d
          && is_text developer_notification_version (get "version" d))
        (non_empty_string (get "sku" d))
  type ← require_notification_type (get "notificationType" d)
  token ← non_empty_string (get "purchaseToken" d)
  some (one_time_notice type token)

abbrev pub voided_notice : String → NoticeDetail
voided_notice token = purchase (record {
  kind = voided;
  notification_type = none;
  purchase_token = token;
  subscription_id = none;
})

unfoldable pub parse_voided : Members → Option NoticeDetail
parse_voided d = do
  order_id ←
      guarded
        (has_only_keys ("purchaseToken" ∷ "orderId" ∷ "productType" ∷ "refundType" ∷ []) d
          && is_integer (get "productType" d)
          && is_integer (get "refundType" d))
        (non_empty_string (get "orderId" d))
  token ← non_empty_string (get "purchaseToken" d)
  some (voided_notice token)

unfoldable pub parse_detail : String → Members → Option NoticeDetail
unfolding parse_test parse_subscription parse_one_time parse_voided
parse_detail variant d =
    if variant == "testNotification"
    then parse_test d
    else if variant == "subscriptionNotification"
    then parse_subscription d
    else if variant == "oneTimeProductNotification"
    then parse_one_time d
    else parse_voided d

-- The text of a member, where it is one.
abbrev pub text_of : Json → Option String
text_of (string s) = some s
text_of _ = none

-- The guards of the payload's members, but for the time.
unfoldable pub accepts_payload : RtdnConfig → Members → Bool
accepts_payload config n =
    has_only_keys ("version" ∷ "packageName" ∷ "eventTimeMillis" ∷ notification_variants) n
    && is_text developer_notification_version (get "version" n)
    && is_text config.package_name (get "packageName" n)

-- The decoded payload: its guards, the time of the event and the detail of its variant.
unfoldable pub parse_payload :
    RtdnConfig → String → List ℕ → Members → Option ParsedRtdnNotification
unfolding is_decimal_millis parse_detail accepts_payload
parse_payload config message_id bytes n = do
  time ← guarded (accepts_payload config n) (text_of (get "eventTimeMillis" n))
  variant ← guarded (is_decimal_millis (codes time)) (resolve_variant n)
  d ← record_members (get variant n)
  detail ← parse_detail variant d
  some (record {
    detail = detail;
    message_id = message_id;
    event_time_millis = time;
    raw_payload = n;
    decoded_payload_bytes = bytes;
  })

-- The message of an envelope: its identifier and its data.
unfoldable pub parse_envelope : Codec → RtdnConfig → List ℕ → Option (String × Json)
parse_envelope c config raw_body = do
  text ← c.decode_utf8 raw_body
  envelope ← parse_json_object c text
  message ←
      guarded
        (has_only_keys ("message" ∷ "subscription" ∷ []) envelope
          && is_text config.subscription (get "subscription" envelope))
        (record_members (get "message" envelope))
  id ← non_empty_string (get "messageId" message)
  some (id, get "data" message)

unfoldable pub parse_rtdn_notification : Codec → RtdnConfig → List ℕ → Option ParsedRtdnNotification
unfolding parse_envelope decode_base64_utf8 parse_payload
parse_rtdn_notification c config raw_body = do
  (id, encoded) ← parse_envelope c config raw_body
  (bytes, text) ← decode_base64_utf8 c encoded
  n ← parse_json_object c text
  parse_payload config id bytes n
