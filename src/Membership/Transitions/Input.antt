-- ===== src/Membership/Transitions/Input.antt =====
-- The types of membership/transitions/shared.ts and of membership/payload-hash.ts.
use town_api.Common.{ℕ, String, Bool, Option, none, some, or_else}
use town_api.Common.Time.{Timestamp}
use town_api.Membership.Rows.{Account, Status, Source, EventType, AuditType, Entitlement, inactive}
use town_api.Membership.Repositories.{Mutation}

-- An optional nullable field: `none` is undefined, `some none` is null.
abbrev pub Field : Type 0 → Type 0
Field A = Option (Option A)

-- The field's value, where undefined and null are one.
abbrev pub value : {A : Type 0} → Field A → Option A
value f = or_else f none

pub record Input : Type 0 where
  pub source : Source
  pub source_event_id : String
  pub event_type : EventType
  pub account_id : String
  pub effective_at : Timestamp
  pub source_customer_id : Field String
  pub source_subscription_id : Field String
  pub access_until : Field Timestamp
  pub cancel_at_period_end : Field Bool
  pub google_play_package_name : Field String
  pub google_play_purchase_token : Field String
  pub google_play_subscription_id : Field String

pub record Context : Type 0 where
  pub account : Account
  pub entitlement : Option Entitlement
  pub input : Input
  pub payload_hash : String
  pub processed_at : Timestamp

pub data Validation : Type 0 where
  accept : Validation
  reject : String → Validation
  outdated : String → Validation

-- What `apply` returns: the columns to write, or the message of the error that it throws.
pub data Applied : Type 0 where
  writes : Mutation → Applied
  throws : String → Applied

pub record Logic : Type 0 where
  pub event_type : EventType
  pub validate : Context → Validation
  pub apply : Context → Applied
  pub applied_audit_event_type : AuditType
  pub replayed_audit_event_type : Option AuditType
  pub rejected_audit_event_type : Option AuditType
  pub is_creation : Option (Context → Bool)

-- `entitlement?.status ?? 'inactive'`.
abbrev pub status_or_inactive : Option Entitlement → Status
status_or_inactive none = inactive
status_or_inactive (some e) = e.status

-- `entitlement?.version ?? 0`.
abbrev pub version_or_zero : Option Entitlement → ℕ
version_or_zero none = 0
version_or_zero (some e) = e.version

-- `entitlement?.accessUntil ?? null`.
abbrev pub access_until_or_null : Option Entitlement → Option Timestamp
access_until_or_null none = none
access_until_or_null (some e) = e.access_until
