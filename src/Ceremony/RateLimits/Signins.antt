-- ===== src/Ceremony/RateLimits/Signins.antt =====
-- The file rate-limits.ts of ceremony/passkey-authentication: an attempt counts in several windows.
use Prim.Native.String.{◌++◌}
use town_api.Common.{String, Bool, ◌||◌, Option, none, [], ◌∷◌}
use town_api.Common.Time.{Timestamp}
use town_api.Membership.Rows.{text}
use town_api.Membership.Store.{Query, ◌>>=◌, ◌>>◌}
use town_api.Ceremony.RateLimits.Windows.{
  Limiter, Rule, increment_window, is_throttled, alarm_if, reached, quarter_hour, half_hour, day,
}

abbrev pub options_ip_15 : String → Rule
options_ip_15 ip = record {
  scope = "passkey_options_ip";
  subject = "ip:" ++ ip ++ ":15m";
  window = quarter_hour;
  limit = 20;
}

abbrev pub options_ip_24 : String → Rule
options_ip_24 ip = record {
  scope = "passkey_options_ip";
  subject = "ip:" ++ ip ++ ":24h";
  window = day;
  limit = 100;
}

abbrev pub options_client : String → Rule
options_client client = record {
  scope = "passkey_options_client";
  subject = "client:" ++ client ++ ":15m";
  window = quarter_hour;
  limit = 10;
}

abbrev pub assertion_credential : String → Rule
assertion_credential credential = record {
  scope = "passkey_assertion_credential";
  subject = "credential:" ++ credential ++ ":30m";
  window = half_hour;
  limit = 10;
}

abbrev pub assertion_ip : String → Rule
assertion_ip ip = record {
  scope = "passkey_assertion_ip";
  subject = "ip:" ++ ip ++ ":30m";
  window = half_hour;
  limit = 30;
}

unfoldable pub is_passkey_options_throttled : Limiter → String → String → Timestamp → Query Bool
unfolding is_throttled
is_passkey_options_throttled l ip client now =
    is_throttled l (options_ip_15 ip ∷ options_ip_24 ip ∷ options_client client ∷ []) now

unfoldable pub record_passkey_options_attempt :
    Limiter → String → String → Timestamp → Bool → Option String → Query (Unit {0})
unfolding increment_window alarm_if
record_passkey_options_attempt l ip client now was_throttled request_id = do
  increment_window l (options_ip_15 ip) now
  increment_window l (options_ip_24 ip) now
  increment_window l (options_client client) now
  alarm_if l (was_throttled) (record {
    account_id = none;
    now = now;
    request_id = request_id;
    metadata = ("purpose", text "authenticate") ∷ ("scope", text "passkey_options") ∷ [];
  })

unfoldable pub is_passkey_assertion_throttled : Limiter → String → String → Timestamp → Query Bool
unfolding is_throttled
is_passkey_assertion_throttled l ip credential now =
    is_throttled l (assertion_credential credential ∷ assertion_ip ip ∷ []) now

unfoldable pub record_passkey_assertion_failed_attempt :
    Limiter
    → String
    → String
    → Timestamp
    → Option String
    → Option String
    → String
    → Query (Unit {0})
unfolding increment_window alarm_if
record_passkey_assertion_failed_attempt l ip credential now account_id request_id category = do
  credential_count ← increment_window l (assertion_credential credential) now
  ip_count ← increment_window l (assertion_ip ip) now
  alarm_if l
      (reached (assertion_credential credential) credential_count
        || reached (assertion_ip ip) ip_count)
      (record {
        account_id = account_id;
        now = now;
        request_id = request_id;
        metadata =
            ("purpose", text "authenticate")
            ∷ ("scope", text "passkey_assertion")
            ∷ ("failureCategory", text category)
            ∷ [];
      })
