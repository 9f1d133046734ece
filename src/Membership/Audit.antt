-- ===== src/Membership/Audit.antt =====
-- The security log: identity/metadata-policy.ts, identity/repositories/security-events.ts and the
-- audit helpers of membership/transitions/shared.ts. The set of approved event types holds every
-- `AuditType`, so its test always passes here.
use Prim.Native.String.{String}
use Prim.Native.Char.{code}
use town_api.Common.{
  ℕ, ◌+◌, Bool, true, not, Option, none, some, List, [], ◌∷◌, ◌==◌, ltb, if◌then◌else◌,
}
use town_api.Common.Tables.{any, length}
use town_api.Common.Time.{Timestamp, before}
use town_api.Membership.Rows.{
  Status, Source, EventType, AuditType, MetadataValue, text, number, nested, SecurityEvent,
  status_text, source_text, event_type_text,
}
use town_api.Membership.Store.{
  Store, violates, failed, security_events_pkey, security_events_account_id_fkey, Query, ok, throw,
  ◌>>=◌,
}
use town_api.Membership.Repositories.{account_exists}

-- `value.length`, in UTF-16 units.
abbrev pub utf16_length : String → ℕ
utf16_length String.[] = 0
utf16_length (String.◌∷◌ c s) = (if ltb (code c) 0x10000 then 1 else 2) + utf16_length s

abbrev pub forbidden_metadata_keys : List String
forbidden_metadata_keys =
    "code" ∷ "token" ∷ "secret" ∷ "raw" ∷ "privateKey" ∷ "private_key" ∷ "password" ∷ "biometric"
    ∷ "headers" ∷ "authorization" ∷ "cookie" ∷ "challenge" ∷ "sessionToken" ∷ "session_token"
    ∷ "tokenHash" ∷ "token_hash" ∷ "setupToken" ∷ "setup_token" ∷ "sourceCustomerId"
    ∷ "sourceSubscriptionId" ∷ "source_customer_id" ∷ "source_subscription_id" ∷ "payload"
    ∷ "payloadHash" ∷ "card" ∷ "paymentMethod" ∷ "invoice" ∷ "stripeSignature" ∷ "email" ∷ "ip"
    ∷ "rawIp" ∷ "checkoutUrl" ∷ "checkout_url" ∷ "portalUrl" ∷ "portal_url" ∷ "stripeSecret"
    ∷ "stripe_secret" ∷ "stripeApiKey" ∷ "stripe_api_key" ∷ "stripe_signature"
    ∷ "stripeWebhookSecret" ∷ "stripe_webhook_secret" ∷ "stripeCustomerId" ∷ "stripe_customer_id"
    ∷ "stripeSubscriptionId" ∷ "stripe_subscription_id" ∷ "stripeInvoiceId" ∷ "stripe_invoice_id"
    ∷ "stripeCheckoutSessionId" ∷ "stripe_checkout_session_id" ∷ "rawBody" ∷ "raw_body"
    ∷ "billingReference" ∷ "billing_reference" ∷ []

abbrev pub value_error : MetadataValue → Option String
value_error (text v) =
    if ltb 256 (utf16_length v)
    then some "Identity event metadata string value exceeds bound"
    else none
value_error nested = some "Identity event metadata nesting is not allowed"
value_error _ = none

-- The message of the error that one entry raises, if any.
unfoldable pub entry_error : String → MetadataValue → Option String
entry_error key value =
    if any (λ k. k == key) forbidden_metadata_keys
    then some "Identity event metadata contains a forbidden field"
    else value_error value

-- The loop over the entries.
unfoldable pub entries_error : List (String × MetadataValue) → Option String
entries_error [] = none
entries_error ((key, value) ∷ entries) = elim (entry_error key value) [
  | some message ↦ some message
  | none ↦ entries_error entries
]

-- The error that `sanitizeIdentityMetadata` throws, if any; where there is none the metadata is kept
-- as it is.
unfoldable pub sanitize_identity_metadata : Option (List (String × MetadataValue)) → Option String
sanitize_identity_metadata none = none
sanitize_identity_metadata (some entries) =
    if ltb 16 (length entries)
    then some "Identity event metadata exceeds bounded size"
    else entries_error entries

-- `generateId`, from a supply of identifiers.
abbrev pub draw : (ℕ → String) → Query String
draw supply s = ok (supply s.drawn) (record s { drawn = s.drawn + 1 })

-- An event may name no account; the one that it names has to be there.
unfoldable pub has_account : Option String → Store → Bool
unfolding account_exists
has_account none s = true
has_account (some account_id) s = account_exists account_id s

unfoldable pub append_identity_security_event : SecurityEvent → Query SecurityEvent
unfolding has_account
append_identity_security_event e s = elim (sanitize_identity_metadata e.metadata) [
  | some message ↦ throw (failed message) s
  | none ↦
      if any (λ r. r.id == e.id) s.security_events
      then throw (violates security_events_pkey) s
      else if not (has_account e.account_id s)
      then throw (violates security_events_account_id_fkey) s
      else ok e (record s { security_events = e ∷ s.security_events })
]

pub data AccessUntilCategory : Type 0 where
  null future present_or_past : AccessUntilCategory

unfoldable pub compute_access_until_category : Option Timestamp → Timestamp → AccessUntilCategory
compute_access_until_category none effective_at = null
compute_access_until_category (some access_until) effective_at =
    if before effective_at access_until then future else present_or_past

abbrev pub category_text : AccessUntilCategory → String
category_text null = "null"
category_text future = "future"
category_text present_or_past = "present_or_past"

-- The argument of `buildAuditMetadata`.
pub record AuditInput : Type 0 where
  pub previous_status : Status
  pub next_status : Status
  pub entitlement_version : ℕ
  pub source : Source
  pub event_type : EventType
  pub effective_at : Timestamp
  pub access_until : Option Timestamp

unfoldable pub build_audit_metadata : AuditInput → List (String × MetadataValue)
build_audit_metadata i =
    ("previousStatus", text (status_text i.previous_status))
    ∷ ("nextStatus", text (status_text i.next_status))
    ∷ ("entitlementVersion", number i.entitlement_version)
    ∷ ("source", text (source_text i.source))
    ∷ ("eventType", text (event_type_text i.event_type))
    ∷ ("effectiveAt", text i.effective_at.text)
    ∷ (
      "accessUntilCategory",
      text (category_text (compute_access_until_category i.access_until i.effective_at)),
    )
    ∷ []

-- Who appends, when and for which request.
pub record AuditContext : Type 0 where
  pub supply : ℕ → String
  pub account_id : String
  pub processed_at : Timestamp
  pub request_id : Option String

unfoldable pub append_transition_audit_event :
    AuditContext → AuditType → AuditInput → Query SecurityEvent
append_transition_audit_event c event_type i = do
  id ← draw c.supply
  append_identity_security_event (record {
    id = id;
    account_id = some c.account_id;
    event_type = event_type;
    occurred_at = c.processed_at;
    request_id = c.request_id;
    metadata = some (build_audit_metadata i);
  })
