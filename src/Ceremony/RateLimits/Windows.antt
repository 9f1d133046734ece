-- ===== src/Ceremony/RateLimits/Windows.antt =====
-- What the files `rate-limits.ts` of ceremony, billing and membership share: the count in the current
-- window, its increment, the atomic reservation of an attempt, and the alarm in the security log.
use town_api.Common.{
  ◌||◌, ◌==◌, not, ℕ, ◌+◌, ◌*◌, ◌/◌, String, Bool, true, false, Option, none, some, List, [], ◌∷◌,
  ltb, leb, if◌then◌else◌, or_else,
}
use town_api.Common.Tables.{update_where}
use town_api.Common.Time.{Timestamp, not_after}
use town_api.Membership.Rows.{RateLimit, MetadataValue, text, rate_limit_triggered}
use town_api.Membership.Store.{
  Store, failed, violates, rate_limits_updated_after_created, Query, ok, throw, pure, ◌>>=◌, ◌>>◌,
}
use town_api.Membership.Audit.{draw, append_identity_security_event}
use town_api.Ceremony.RateLimits.{
  not, BucketInput, bucket_of, created_bucket, insert_bucket, incremented,
  get_or_create_ceremony_rate_limit_bucket, increment_ceremony_rate_limit,
}

-- What the limits take from their surroundings: the hash key, `randomUUID`, the keyed hash of a scope
-- and a subject, `toISOString` (none where it throws a RangeError), and what other sessions commit
-- between the search for a bucket and its insertion.
pub record Limiter : Type 0 where
  pub random_uuid : ℕ → String
  pub hash_rate_limit_subject : String → String → String
  pub to_iso_string : ℕ → Option Timestamp
  pub between : Store → Store

-- A subject within a scope, the length of its windows in milliseconds, and its limit there.
pub record Rule : Type 0 where
  pub scope : String
  pub subject : String
  pub window : ℕ
  pub limit : ℕ

-- `floorWindowStart`. A time counts from the earliest date of JavaScript, which is a whole number of
-- days before 1970, so the windows are the same.
unfoldable pub floor_window_start : ℕ → ℕ → ℕ
floor_window_start now window = now / window * window

-- The start and the end of the window, as texts.
unfoldable pub window_of : Limiter → Rule → Timestamp → Option (Timestamp × Timestamp)
unfolding floor_window_start
window_of l r now = elim now.time [
  | none ↦ none
  | some ms ↦ elim (l.to_iso_string (floor_window_start ms r.window)) [
    | none ↦ none
    | some start ↦ elim (l.to_iso_string (floor_window_start ms r.window + r.window)) [
      | none ↦ none
      | some end ↦ some (start, end)
    ]
  ]
]

abbrev pub bucket_input : Limiter → Rule → Timestamp → String → Timestamp × Timestamp → BucketInput
bucket_input l r now id (start, end) = record {
  id = id;
  scope = r.scope;
  subject_hash = l.hash_rate_limit_subject r.scope r.subject;
  window_started_at = start;
  window_expires_at = end;
  created_at = now;
}

-- `countInWindow`: the bucket of the current window.
unfoldable pub count_in_window : Limiter → Rule → Timestamp → Query RateLimit
unfolding window_of get_or_create_ceremony_rate_limit_bucket
count_in_window l r now = elim (window_of l r now) [
  | none ↦ λ s. throw (failed "Invalid time value") s
  | some window ↦ (do
    id ← draw l.random_uuid
    get_or_create_ceremony_rate_limit_bucket l.between (bucket_input l r now id window))
]

-- `incrementWindow`.
unfoldable pub increment_window : Limiter → Rule → Timestamp → Query ℕ
unfolding count_in_window increment_ceremony_rate_limit
increment_window l r now = do
  bucket ← count_in_window l r now
  updated ← increment_ceremony_rate_limit bucket.id now
  pure updated.attempt_count

-- Some rule has reached its limit; the rules after it are not looked at.
unfoldable pub is_throttled : Limiter → List Rule → Timestamp → Query Bool
unfolding count_in_window
is_throttled l [] now = pure false
is_throttled l (r ∷ rs) now = do
  bucket ← count_in_window l r now
  let rest = is_throttled l rs now in if leb r.limit bucket.attempt_count then pure true else rest

-- Who is throttled, when and for which request.
pub record Alarm : Type 0 where
  pub account_id : Option String
  pub now : Timestamp
  pub request_id : Option String
  pub metadata : List (String × MetadataValue)

unfoldable pub append_alarm : Limiter → Alarm → Query (Unit {0})
append_alarm l a = do
  id ← draw l.random_uuid
  append_identity_security_event (record {
    id = id;
    account_id = a.account_id;
    event_type = rate_limit_triggered;
    occurred_at = a.now;
    request_id = a.request_id;
    metadata = some a.metadata;
  })
  pure tt

-- The alarm, under a condition.
unfoldable pub alarm_if : Limiter → Bool → Alarm → Query (Unit {0})
unfolding append_alarm
alarm_if l true a = append_alarm l a
alarm_if l false a = pure tt

pub data Reservation : Type 0 where
  reserved throttled : ℕ → Reservation

-- `INSERT … ON CONFLICT DO UPDATE … WHERE attempt_count < limit RETURNING attempt_count`, one
-- statement: none where no row is returned.
unfoldable pub upsert_attempt : Rule → BucketInput → Query (Option ℕ)
unfolding insert_bucket
upsert_attempt r i s = elim (bucket_of i s) [
  | none ↦ elim (insert_bucket (created_bucket i 1) s) [
    | ok b t ↦ ok (some b.attempt_count) t
    | throw e t ↦ throw e t
  ]
  | some b ↦
      if not (ltb b.attempt_count r.limit)
      then ok none s
      else if not (not_after b.created_at i.created_at)
      then throw (violates rate_limits_updated_after_created) s
      else ok (some (b.attempt_count + 1)) (record s {
        rate_limits = update_where (λ o. o.id == b.id) (incremented i.created_at) s.rate_limits;
      })
]

-- What follows the statement: an error counts as throttled, and an error of the alarm is then dropped.
unfoldable pub settle_reservation :
    Limiter → Rule → (Option String → Alarm) → Option String → Option ℕ → Query Reservation
unfolding append_alarm alarm_if
settle_reservation l r alarm category none = do
  append_alarm l (alarm (some (or_else category "rate_limited")))
  pure (throttled r.limit)
settle_reservation l r alarm category (some n) = do
  alarm_if l (leb r.limit n) (alarm category)
  pure (reserved n)

abbrev pub fail_closed :
    Limiter → Rule → (Option String → Alarm) → Option String → Query Reservation
fail_closed l r alarm category s =
    elim (append_alarm l (alarm (some (or_else category "rate_limited"))) s) [
      | ok x t ↦ ok (throttled r.limit) t
      | throw e t ↦ ok (throttled r.limit) t
    ]

abbrev pub reserve_bucket :
    Limiter → Rule → BucketInput → (Option String → Alarm) → Option String → Query Reservation
reserve_bucket l r i alarm category s = elim (upsert_attempt r i s) [
  | ok n t ↦ settle_reservation l r alarm category n t
  | throw e t ↦ fail_closed l r alarm category t
]

-- The reservation of one attempt: the alarm takes the category of the failure, if there is one.
unfoldable pub reserve_attempt :
    Limiter → Rule → Timestamp → (Option String → Alarm) → Option String → Query Reservation
unfolding window_of upsert_attempt settle_reservation
reserve_attempt l r now alarm category = elim (window_of l r now) [
  | none ↦ λ s. throw (failed "Invalid time value") s
  | some window ↦ (do
    id ← draw l.random_uuid
    reserve_bucket l r (bucket_input l r now id window) alarm category)
]

abbrev pub quarter_hour : ℕ
quarter_hour = 900000

abbrev pub half_hour : ℕ
half_hour = 1800000

abbrev pub day : ℕ
day = 86400000

abbrev pub reached : Rule → ℕ → Bool
reached r count = leb r.limit count

-- `...(category !== undefined ? { failureCategory } : {})`.
abbrev pub category_entry : Option String → List (String × MetadataValue)
category_entry none = []
category_entry (some category) = ("failureCategory", text category) ∷ []

-- An attempt: the count after it, with the alarm at the limit.
unfoldable pub record_attempt : Limiter → Rule → Timestamp → Bool → Alarm → Query ℕ
unfolding increment_window alarm_if
record_attempt l r now was_throttled alarm = do
  count ← increment_window l r now
  alarm_if l (was_throttled || reached r count) alarm
  pure count

-- The same, where the answer is the count before it and one.
unfoldable pub record_counted_attempt : Limiter → Rule → Timestamp → Bool → Alarm → Query ℕ
unfolding count_in_window increment_ceremony_rate_limit alarm_if
record_counted_attempt l r now was_throttled alarm = do
  bucket ← count_in_window l r now
  updated ← increment_ceremony_rate_limit bucket.id now
  alarm_if l (was_throttled || reached r updated.attempt_count) alarm
  pure (bucket.attempt_count + 1)
