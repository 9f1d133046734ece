-- ===== src/Ceremony/RateLimits/Emails.antt =====
-- The file rate-limits.ts of ceremony/email-verification.
use Prim.Native.String.{◌++◌}
use town_api.Common.{String, Bool, Option, none, [], ◌∷◌}
use town_api.Common.Time.{Timestamp}
use town_api.Membership.Rows.{text}
use town_api.Membership.Store.{Query, ◌>>=◌, ◌>>◌}
use town_api.Ceremony.RateLimits.Windows.{
  Limiter, Rule, increment_window, is_throttled, alarm_if, reached, quarter_hour, half_hour, day,
}

abbrev pub request_email_15 : String → Rule
request_email_15 email = record {
  scope = "email_verification_request_email";
  subject = "email:" ++ email ++ ":15m";
  window = quarter_hour;
  limit = 3;
}

abbrev pub request_email_24 : String → Rule
request_email_24 email = record {
  scope = "email_verification_request_email";
  subject = "email:" ++ email ++ ":24h";
  window = day;
  limit = 5;
}

abbrev pub request_ip_15 : String → Rule
request_ip_15 ip = record {
  scope = "email_verification_request_ip";
  subject = "ip:" ++ ip ++ ":15m";
  window = quarter_hour;
  limit = 10;
}

abbrev pub request_ip_24 : String → Rule
request_ip_24 ip = record {
  scope = "email_verification_request_ip";
  subject = "ip:" ++ ip ++ ":24h";
  window = day;
  limit = 50;
}

abbrev pub attempt_email_ip : String → String → Rule
attempt_email_ip email ip = record {
  scope = "email_verification_attempt_email_ip";
  subject = "email_ip:" ++ email ++ ":" ++ ip ++ ":30m";
  window = half_hour;
  limit = 10;
}

abbrev pub attempt_challenge : String → Rule
attempt_challenge challenge_id = record {
  scope = "email_verification_attempt_challenge";
  subject = "challenge:" ++ challenge_id;
  window = day;
  limit = 50;
}

unfoldable pub is_email_verification_request_throttled :
    Limiter → String → String → Timestamp → Query Bool
unfolding is_throttled
is_email_verification_request_throttled l email ip now =
    is_throttled l
      (request_email_15 email ∷ request_email_24 email ∷ request_ip_15 ip ∷ request_ip_24 ip ∷ [])
      now

unfoldable pub record_email_verification_request_attempt :
    Limiter → String → String → Timestamp → Bool → Option String → Query (Unit {0})
unfolding increment_window alarm_if
record_email_verification_request_attempt l email ip now was_throttled request_id = do
  increment_window l (request_email_15 email) now
  increment_window l (request_email_24 email) now
  increment_window l (request_ip_15 ip) now
  increment_window l (request_ip_24 ip) now
  alarm_if l (was_throttled) (record {
    account_id = none;
    now = now;
    request_id = request_id;
    metadata = ("purpose", text "verify_email") ∷ ("scope", text "email_verification_request") ∷ [];
  })

unfoldable pub is_email_verification_attempt_throttled :
    Limiter → String → String → String → Timestamp → Query Bool
unfolding is_throttled
is_email_verification_attempt_throttled l email ip challenge_id now =
    is_throttled l (attempt_email_ip email ip ∷ attempt_challenge challenge_id ∷ []) now

unfoldable pub record_email_verification_failed_attempt :
    Limiter
    → String
    → String
    → String
    → Timestamp
    → Option String
    → Option String
    → Query (Unit {0})
unfolding increment_window alarm_if
record_email_verification_failed_attempt l email ip challenge_id now account_id request_id = do
  email_ip_count ← increment_window l (attempt_email_ip email ip) now
  increment_window l (attempt_challenge challenge_id) now
  alarm_if l (reached (attempt_email_ip email ip) email_ip_count) (record {
    account_id = account_id;
    now = now;
    request_id = request_id;
    metadata =
        ("purpose", text "verify_email")
        ∷ ("scope", text "email_verification_attempt_email_ip")
        ∷ [];
  })
