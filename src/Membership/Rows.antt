-- ===== src/Membership/Rows.antt =====
-- The rows and enumerations of db/schema.ts that membership reads and writes. Identifiers and hashes
-- are texts, timestamps those of `Common.Time`. Of an account, the columns that membership passes on
-- without reading them (handles and lifecycle timestamps) are left out.
use town_api.Common.{ℕ, String, Bool, Option, List, true, false}
use town_api.Common.Time.{Timestamp}

pub data AccountStatus : Type 0 where
  pending_email pending_password pending_passkey active suspended closed : AccountStatus

pub record Account : Type 0 where
  pub id : String
  pub status : AccountStatus
  pub is_owner : Bool

pub data Status : Type 0 where
  inactive active cancelling expired paid_pending_binding suspended : Status

pub data Source : Type 0 where
  test_fixture stripe google_play admin : Source

pub data EventType : Type 0 where
  activate schedule_cancellation expire reactivate : EventType
  provision_paid_pending_binding finalize_paid_pending_binding suspend restore : EventType

pub data EventResult : Type 0 where
  applied replayed rejected stale : EventResult

pub Source-discrete : Discrete Source
Source-discrete = hlevel

pub EventType-discrete : Discrete EventType
EventType-discrete = hlevel

abbrev pub status_text : Status → String
status_text inactive = "inactive"
status_text active = "active"
status_text cancelling = "cancelling"
status_text expired = "expired"
status_text paid_pending_binding = "paid_pending_binding"
status_text suspended = "suspended"

abbrev pub source_text : Source → String
source_text test_fixture = "test_fixture"
source_text stripe = "stripe"
source_text google_play = "google_play"
source_text admin = "admin"

abbrev pub event_type_text : EventType → String
event_type_text activate = "activate"
event_type_text schedule_cancellation = "schedule_cancellation"
event_type_text expire = "expire"
event_type_text reactivate = "reactivate"
event_type_text provision_paid_pending_binding = "provision_paid_pending_binding"
event_type_text finalize_paid_pending_binding = "finalize_paid_pending_binding"
event_type_text suspend = "suspend"
event_type_text restore = "restore"

-- Equality of enumerated values, as `===` on their texts.
abbrev pub same_source : Source → Source → Bool
same_source test_fixture test_fixture = true
same_source stripe stripe = true
same_source google_play google_play = true
same_source admin admin = true
same_source _ _ = false

abbrev pub same_event_type : EventType → EventType → Bool
same_event_type activate activate = true
same_event_type schedule_cancellation schedule_cancellation = true
same_event_type expire expire = true
same_event_type reactivate reactivate = true
same_event_type provision_paid_pending_binding provision_paid_pending_binding = true
same_event_type finalize_paid_pending_binding finalize_paid_pending_binding = true
same_event_type suspend suspend = true
same_event_type restore restore = true
same_event_type _ _ = false

abbrev pub same_result : EventResult → EventResult → Bool
same_result applied applied = true
same_result replayed replayed = true
same_result rejected rejected = true
same_result stale stale = true
same_result _ _ = false

-- `town.membership_entitlements`.
pub record Entitlement : Type 0 where
  pub id : String
  pub account_id : String
  pub status : Status
  pub access_until : Option Timestamp
  pub cancel_at_period_end : Bool
  pub source : Source
  pub source_customer_id : Option String
  pub source_subscription_id : Option String
  pub activated_at : Option Timestamp
  pub cancellation_requested_at : Option Timestamp
  pub expired_at : Option Timestamp
  pub created_at : Timestamp
  pub updated_at : Timestamp
  pub version : ℕ

-- `town.membership_source_events`; its account is nullable, and membership always gives one.
pub record SourceEvent : Type 0 where
  pub id : String
  pub source : Source
  pub source_event_id : String
  pub event_type : EventType
  pub account_id : String
  pub payload_hash : String
  pub effective_at : Timestamp
  pub processed_at : Timestamp
  pub result : EventResult
  pub created_at : Timestamp

-- `town.google_play_purchase_links`.
pub record PurchaseLink : Type 0 where
  pub id : String
  pub account_id : String
  pub entitlement_id : String
  pub purchase_token : String
  pub package_name : String
  pub subscription_id : String
  pub expiry_time : Timestamp
  pub created_at : Timestamp
  pub updated_at : Timestamp

-- `town.stripe_customer_links`.
pub record CustomerLink : Type 0 where
  pub id : String
  pub account_id : String
  pub stripe_customer_id : String
  pub billing_reference : String
  pub created_at : Timestamp
  pub updated_at : Timestamp

pub data CheckoutStatus : Type 0 where
  creating open_session completed expired failed : CheckoutStatus

-- `town.stripe_checkout_attempts`.
pub record CheckoutAttempt : Type 0 where
  pub id : String
  pub account_id : String
  pub stripe_checkout_session_id : Option String
  pub status : CheckoutStatus
  pub created_at : Timestamp
  pub expires_at : Timestamp
  pub completed_at : Option Timestamp

-- `town.ceremony_rate_limits`; the subject hash is a text here.
pub record RateLimit : Type 0 where
  pub id : String
  pub scope : String
  pub subject_hash : String
  pub window_started_at : Timestamp
  pub window_expires_at : Timestamp
  pub attempt_count : ℕ
  pub blocked_until : Option Timestamp
  pub created_at : Timestamp
  pub updated_at : Timestamp

-- The security event types that the modelled code appends.
pub data AuditType : Type 0 where
  membership_created membership_activated membership_cancellation_scheduled : AuditType
  membership_reactivated membership_expired membership_suspended membership_restored : AuditType
  membership_paid_pending_binding_provisioned : AuditType
  membership_event_replayed membership_event_rejected : AuditType
  stripe_webhook_received stripe_webhook_verified stripe_webhook_replayed : AuditType
  stripe_webhook_rejected stripe_subscription_linked stripe_invoice_paid : AuditType
  stripe_cancellation_scheduled stripe_cancellation_removed stripe_subscription_deleted : AuditType
  stripe_payment_failed stripe_price_mismatch rate_limit_triggered : AuditType

pub data MetadataValue : Type 0 where
  text : String → MetadataValue
  number : ℕ → MetadataValue
  flag : Bool → MetadataValue
  null : MetadataValue
  nested : MetadataValue

-- `town.identity_security_events`.
pub record SecurityEvent : Type 0 where
  pub id : String
  pub account_id : Option String
  pub event_type : AuditType
  pub occurred_at : Timestamp
  pub request_id : Option String
  pub metadata : Option (List (String × MetadataValue))
