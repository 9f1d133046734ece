-- ===== src/Ceremony/RateLimits/Recovery.antt =====
-- The file rate-limits.ts of ceremony/account-recovery.
use Prim.Native.String.{◌++◌}
use town_api.Common.{ℕ, String, Bool, false, ◌||◌, Option, none, some, [], ◌∷◌, if◌then◌else◌}
use town_api.Common.Time.{Timestamp}
use town_api.Membership.Rows.{text}
use town_api.Membership.Store.{Query, ◌>>=◌, ◌>>◌}
use town_api.Ceremony.RateLimits.Windows.{
  Limiter, Rule, increment_window, is_throttled, alarm_if, record_attempt, reached, half_hour, day,
}

abbrev pub recovery_email : String → Rule
recovery_email email = record {
  scope = "recovery_request_email";
  subject = "email:" ++ email ++ ":24h";
  window = day;
  limit = 3;
}

abbrev pub recovery_ip : String → Rule
recovery_ip ip = record {
  scope = "recovery_request_ip";
  subject = "ip:" ++ ip ++ ":24h";
  window = day;
  limit = 10;
}

abbrev pub recovery_email_ip : String → String → Rule
recovery_email_ip email ip = record {
  scope = "recovery_email_attempt_email_ip";
  subject = "email_ip:" ++ email ++ ":" ++ ip ++ ":30m";
  window = half_hour;
  limit = 10;
}

abbrev pub recovery_challenge : String → Rule
recovery_challenge challenge_id = record {
  scope = "recovery_email_attempt_challenge";
  subject = "challenge:" ++ challenge_id;
  window = day;
  limit = 5;
}

abbrev pub recovery_options : String → Rule
recovery_options grant_id = record {
  scope = "recovery_options_grant";
  subject = "grant:" ++ grant_id;
  window = day;
  limit = 5;
}

abbrev pub recovery_verification : String → Rule
recovery_verification grant_id = record {
  scope = "recovery_verification_grant";
  subject = "grant:" ++ grant_id;
  window = day;
  limit = 5;
}

unfoldable pub is_recovery_request_throttled : Limiter → String → String → Timestamp → Query Bool
unfolding is_throttled
is_recovery_request_throttled l email ip now =
    is_throttled l (recovery_email email ∷ recovery_ip ip ∷ []) now

unfoldable pub record_recovery_request_attempt :
    Limiter → String → String → Timestamp → Bool → Option String → Query (Unit {0})
unfolding increment_window alarm_if
record_recovery_request_attempt l email ip now was_throttled request_id = do
  increment_window l (recovery_email email) now
  increment_window l (recovery_ip ip) now
  alarm_if l (was_throttled) (record {
    account_id = none;
    now = now;
    request_id = request_id;
    metadata = ("purpose", text "recover_account") ∷ ("scope", text "recovery_request") ∷ [];
  })

unfoldable pub is_recovery_email_attempt_throttled :
    Limiter → String → String → String → Timestamp → Query Bool
unfolding is_throttled
is_recovery_email_attempt_throttled l email ip challenge_id now =
    is_throttled l (recovery_email_ip email ip ∷ recovery_challenge challenge_id ∷ []) now

unfoldable pub record_recovery_email_failed_attempt :
    Limiter
    → String
    → String
    → String
    → Timestamp
    → Option String
    → Option String
    → Query (Unit {0})
unfolding increment_window alarm_if
record_recovery_email_failed_attempt l email ip challenge_id now account_id request_id = do
  email_ip_count ← increment_window l (recovery_email_ip email ip) now
  challenge_count ← increment_window l (recovery_challenge challenge_id) now
  alarm_if l
      (reached (recovery_email_ip email ip) email_ip_count
        || reached (recovery_challenge challenge_id) challenge_count)
      (record {
        account_id = account_id;
        now = now;
        request_id = request_id;
        metadata =
            ("purpose", text "recover_account")
            ∷ (
              "scope",
              text (
                  if reached (recovery_email_ip email ip) email_ip_count
                  then "recovery_email_attempt_email_ip"
                  else "recovery_email_attempt_challenge"),
            )
            ∷ [];
      })

unfoldable pub is_recovery_options_grant_throttled : Limiter → String → Timestamp → Query Bool
unfolding is_throttled
is_recovery_options_grant_throttled l grant_id now =
    is_throttled l (recovery_options grant_id ∷ []) now

unfoldable pub record_recovery_options_grant_attempt :
    Limiter → String → String → Timestamp → Bool → Option String → Query ℕ
unfolding record_attempt
record_recovery_options_grant_attempt l grant_id account_id now was_throttled request_id =
    record_attempt l (recovery_options grant_id) now was_throttled (record {
      account_id = some account_id;
      now = now;
      request_id = request_id;
      metadata =
          ("purpose", text "recover_register") ∷ ("scope", text "recovery_options_grant") ∷ [];
    })

unfoldable pub is_recovery_verification_grant_throttled : Limiter → String → Timestamp → Query Bool
unfolding is_throttled
is_recovery_verification_grant_throttled l grant_id now =
    is_throttled l (recovery_verification grant_id ∷ []) now

unfoldable pub record_recovery_verification_failed_attempt :
    Limiter → String → Timestamp → Option String → Option String → String → Query ℕ
unfolding record_attempt
record_recovery_verification_failed_attempt l grant_id now account_id request_id category =
    record_attempt l (recovery_verification grant_id) now false (record {
      account_id = account_id;
      now = now;
      request_id = request_id;
      metadata =
          ("purpose", text "recover_register")
          ∷ ("scope", text "recovery_verification_grant")
          ∷ ("failureCategory", text category)
          ∷ [];
    })
