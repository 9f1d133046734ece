-- ===== src/Ceremony/RateLimits.antt =====
-- ceremony/repositories/ceremony-rate-limits.ts: persistent counters of attempts, one bucket for each
-- scope, subject and time window.
pub mod Windows
pub mod Accounts
pub mod Passwords
pub mod Passkeys
pub mod Signins
pub mod Emails
pub mod Recovery
pub mod Counting
pub mod Laws
pub mod Reserving
pub mod Buckets
mod Tests
use town_api.Common.{
  ℕ, ◌+◌, String, Bool, true, false, not, ◌&&◌, Option, none, some, List, [], ◌∷◌, ◌==◌, ltb,
  nat_eq, if◌then◌else◌,
}
use town_api.Common.Tables.{any, find?, update_where}
use town_api.Common.Time.{Timestamp, before, not_after, compare_times}
use town_api.Membership.Rows.{RateLimit}
use town_api.Membership.Store.{
  Store, Error, Constraint, rate_limits_pkey, rate_limits_bucket_unique, rate_limits_window_order,
  rate_limits_updated_after_created, violates, failed, Query, ok, throw, first_violation,
}

abbrev pub approved_scopes : List String
approved_scopes =
    "email_verification_request_email" ∷ "email_verification_request_ip"
    ∷ "email_verification_attempt_challenge" ∷ "email_verification_attempt_email_ip"
    ∷ "passkey_options_ip" ∷ "passkey_options_client" ∷ "passkey_assertion_credential"
    ∷ "passkey_assertion_ip" ∷ "recovery_request_email" ∷ "recovery_request_ip"
    ∷ "setup_options_grant" ∷ "setup_verification_grant" ∷ "recovery_options_grant"
    ∷ "recovery_verification_grant" ∷ "recovery_email_attempt_challenge"
    ∷ "recovery_email_attempt_email_ip" ∷ "passkey_inventory_account"
    ∷ "passkey_reauthentication_options_session" ∷ "passkey_reauthentication_verify_session"
    ∷ "passkey_registration_options_session" ∷ "passkey_registration_verify_session"
    ∷ "passkey_rename_account" ∷ "passkey_revoke_account" ∷ "membership_inventory_account"
    ∷ "billing_checkout_account" ∷ "billing_portal_account" ∷ "password_setup_grant"
    ∷ "password_sign_in_ip" ∷ "password_sign_in_email" ∷ "password_change_account" ∷ []

unfoldable pub is_approved_scope : String → Bool
is_approved_scope scope = any (λ s. s == scope) approved_scopes

-- The argument of `getOrCreateCeremonyRateLimitBucket`.
pub record BucketInput : Type 0 where
  pub id : String
  pub scope : String
  pub subject_hash : String
  pub window_started_at : Timestamp
  pub window_expires_at : Timestamp
  pub created_at : Timestamp

abbrev pub same_time : Timestamp → Timestamp → Bool
same_time a b = compare_times nat_eq a.time b.time

-- The key of a bucket: its scope, subject and window.
abbrev pub is_bucket : String → String → Timestamp → RateLimit → Bool
is_bucket scope subject_hash window r =
    r.scope == scope && r.subject_hash == subject_hash && same_time r.window_started_at window

abbrev pub bucket_of : BucketInput → Store → Option RateLimit
bucket_of i s = find? (is_bucket i.scope i.subject_hash i.window_started_at) s.rate_limits

abbrev pub created_bucket : BucketInput → ℕ → RateLimit
created_bucket i attempt_count = record {
  id = i.id;
  scope = i.scope;
  subject_hash = i.subject_hash;
  window_started_at = i.window_started_at;
  window_expires_at = i.window_expires_at;
  attempt_count = attempt_count;
  blocked_until = none;
  created_at = i.created_at;
  updated_at = i.created_at;
}

unfoldable pub bucket_violation : RateLimit → Store → Option Constraint
bucket_violation r s = first_violation (
    (before r.window_started_at r.window_expires_at, rate_limits_window_order)
    ∷ (not_after r.created_at r.updated_at, rate_limits_updated_after_created)
    ∷ (not (any (λ o. o.id == r.id) s.rate_limits), rate_limits_pkey)
    ∷ (
      not (any (is_bucket r.scope r.subject_hash r.window_started_at) s.rate_limits),
      rate_limits_bucket_unique,
    )
    ∷ [])

unfoldable pub insert_bucket : RateLimit → Query RateLimit
insert_bucket r s = elim (bucket_violation r s) [
  | some c ↦ throw (violates c) s
  | none ↦ ok r (record s { rate_limits = r ∷ s.rate_limits })
]

unfoldable pub input_error : BucketInput → Option String
unfolding is_approved_scope
input_error i =
    if not (is_approved_scope i.scope)
    then some "Unknown ceremony rate-limit scope"
    else if i.subject_hash == ""
    then some "rate-limit subjectHash must be non-empty hashed bytes"
    else if not_after i.window_expires_at i.window_started_at
    then some "Rate-limit window expiry must be after window start"
    else none

-- The answer to an error of the insertion: the bucket of a competitor, or the error again.
abbrev raced : BucketInput → Error → Query RateLimit
raced i e s = elim (bucket_of i s) [ some r ↦ ok r s | none ↦ throw e s ]

abbrev insert_or_raced : BucketInput → Query RateLimit
insert_or_raced i s = elim (insert_bucket (created_bucket i 0) s) [
  | ok r t ↦ ok r t
  | throw e t ↦ raced i e t
]

-- `between` is what other sessions commit between the search and the insertion.
unfoldable pub get_or_create_ceremony_rate_limit_bucket :
    (Store → Store) → BucketInput → Query RateLimit
unfolding input_error insert_bucket
get_or_create_ceremony_rate_limit_bucket between i s = elim (input_error i) [
  | some message ↦ throw (failed message) s
  | none ↦ elim (bucket_of i s) [ some r ↦ ok r s | none ↦ insert_or_raced i (between s) ]
]

abbrev pub find_bucket : String → Store → Option RateLimit
find_bucket id s = find? (λ r. r.id == id) s.rate_limits

abbrev pub not_found : Error
not_found = failed "Ceremony rate-limit bucket was not found"

-- `UPDATE … WHERE id = …` with the constraint that it can break, and the `RETURNING` row.
unfoldable pub update_bucket : String → (RateLimit → RateLimit) → Query RateLimit
update_bucket id f s = elim (find_bucket id s) [
  | none ↦ throw not_found s
  | some r ↦
      if not_after (f r).created_at (f r).updated_at
      then ok (f r) (record s { rate_limits = update_where (λ o. o.id == id) f s.rate_limits })
      else throw (violates rate_limits_updated_after_created) s
]

-- The greatest value of an `integer` column.
abbrev pub max_integer : ℕ
max_integer = 2147483647

abbrev pub incremented : Timestamp → RateLimit → RateLimit
incremented now r = record r { attempt_count = r.attempt_count + 1; updated_at = now }

-- The addition raises an error where the sum exceeds the column's type.
unfoldable pub increment_ceremony_rate_limit : String → Timestamp → Query RateLimit
unfolding update_bucket
increment_ceremony_rate_limit id now s = elim (find_bucket id s) [
  | none ↦ throw not_found s
  | some r ↦
      if ltb r.attempt_count max_integer
      then update_bucket id (incremented now) s
      else throw (failed "integer out of range") s
]

unfoldable pub get_ceremony_rate_limit_count : String → Query ℕ
get_ceremony_rate_limit_count id s = elim (find_bucket id s) [
  | none ↦ throw not_found s
  | some r ↦ ok r.attempt_count s
]

abbrev pub blocked : Option Timestamp → Timestamp → RateLimit → RateLimit
blocked blocked_until now r = record r { blocked_until = blocked_until; updated_at = now }

unfoldable pub set_ceremony_rate_limit_blocked_until :
    String → Option Timestamp → Timestamp → Query RateLimit
unfolding update_bucket
set_ceremony_rate_limit_blocked_until id blocked_until now =
    update_bucket id (blocked blocked_until now)

abbrev pub before_end : Timestamp → Option Timestamp → Bool
before_end now none = false
before_end now (some until) = before now until

unfoldable pub is_ceremony_rate_limit_blocked : String → Timestamp → Query Bool
is_ceremony_rate_limit_blocked id now s = elim (find_bucket id s) [
  | none ↦ throw not_found s
  | some r ↦ ok (before_end now r.blocked_until) s
]

unfoldable pub find_active_ceremony_rate_limit_window :
    String → String → Timestamp → Query (Option RateLimit)
unfolding is_approved_scope
find_active_ceremony_rate_limit_window scope subject_hash now s =
    if not (is_approved_scope scope)
    then throw (failed "Unknown ceremony rate-limit scope") s
    else if subject_hash == ""
    then throw (failed "rate-limit subjectHash must be non-empty hashed bytes") s
    else ok
        (find?
          (λ r.
            r.scope == scope && r.subject_hash == subject_hash && before now r.window_expires_at)
          s.rate_limits)
        s
