-- ===== src/Ceremony/RateLimits/Passwords.antt =====
-- The files rate-limits.ts of ceremony/password-setup, password-change and password-authentication.
use Prim.Native.String.{◌++◌}
use town_api.Common.{ℕ, String, Bool, Option, some, [], ◌∷◌}
use town_api.Common.Time.{Timestamp}
use town_api.Membership.Rows.{text}
use town_api.Membership.Store.{Query}
use town_api.Ceremony.RateLimits.Windows.{
  Limiter, Rule, Alarm, Reservation, is_throttled, reserve_attempt, record_attempt, category_entry,
  half_hour, day,
}

abbrev pub password_setup : String → Rule
password_setup grant_id = record {
  scope = "password_setup_grant";
  subject = "grant:" ++ grant_id;
  window = day;
  limit = 5;
}

unfoldable pub is_password_setup_grant_throttled : Limiter → String → Timestamp → Query Bool
unfolding is_throttled
is_password_setup_grant_throttled l grant_id now = is_throttled l (password_setup grant_id ∷ []) now

unfoldable pub record_password_setup_grant_attempt :
    Limiter → String → Timestamp → Option String → Bool → Option String → Option String → Query ℕ
unfolding record_attempt
record_password_setup_grant_attempt l grant_id now account_id was_throttled request_id category =
    record_attempt l (password_setup grant_id) now was_throttled (record {
      account_id = account_id;
      now = now;
      request_id = request_id;
      metadata =
          ("purpose", text "initial_password_setup")
          ∷ ("scope", text "password_setup_grant")
          ∷ category_entry category;
    })

abbrev pub password_change : String → Rule
password_change account_id = record {
  scope = "password_change_account";
  subject = "account:" ++ account_id ++ ":30m";
  window = half_hour;
  limit = 10;
}

abbrev password_change_alarm : String → Timestamp → Option String → Option String → Alarm
password_change_alarm account_id now request_id category = record {
  account_id = some account_id;
  now = now;
  request_id = request_id;
  metadata =
      ("purpose", text "password_change")
      ∷ ("scope", text "password_change_account")
      ∷ category_entry category;
}

unfoldable pub reserve_password_change_account_attempt :
    Limiter → String → Timestamp → Option String → Option String → Query Reservation
unfolding reserve_attempt
reserve_password_change_account_attempt l account_id now request_id category =
    reserve_attempt l (password_change account_id) now
      (password_change_alarm account_id now request_id) category

abbrev pub password_sign_in_email : String → Rule
password_sign_in_email email = record {
  scope = "password_sign_in_email";
  subject = "email:" ++ email ++ ":30m";
  window = half_hour;
  limit = 10;
}

unfoldable pub is_password_sign_in_email_throttled : Limiter → String → Timestamp → Query Bool
unfolding is_throttled
is_password_sign_in_email_throttled l email now =
    is_throttled l (password_sign_in_email email ∷ []) now

abbrev pub password_sign_in_ip : String → Rule
password_sign_in_ip ip = record {
  scope = "password_sign_in_ip";
  subject = "ip:" ++ ip ++ ":30m";
  window = half_hour;
  limit = 30;
}

abbrev pub password_sign_in_alarm :
    Option String → Timestamp → Option String → Option String → Alarm
password_sign_in_alarm account_id now request_id category = record {
  account_id = account_id;
  now = now;
  request_id = request_id;
  metadata =
      ("purpose", text "password_sign_in")
      ∷ ("scope", text "password_sign_in")
      ∷ category_entry category;
}

unfoldable pub reserve_password_sign_in_ip_attempt :
    Limiter → String → Timestamp → Option String → Option String → Option String → Query Reservation
unfolding reserve_attempt
reserve_password_sign_in_ip_attempt l ip now account_id request_id category =
    reserve_attempt l (password_sign_in_ip ip) now
      (password_sign_in_alarm account_id now request_id) category

unfoldable pub record_password_sign_in_email_attempt :
    Limiter → String → Timestamp → Option String → Bool → Option String → Option String → Query ℕ
unfolding record_attempt
record_password_sign_in_email_attempt l email now account_id was_throttled request_id category =
    record_attempt l (password_sign_in_email email) now was_throttled (record {
      account_id = account_id;
      now = now;
      request_id = request_id;
      metadata =
          ("purpose", text "password_sign_in")
          ∷ ("scope", text "password_sign_in")
          ∷ category_entry category;
    })
