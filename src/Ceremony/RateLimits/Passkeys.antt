-- ===== src/Ceremony/RateLimits/Passkeys.antt =====
-- The files rate-limits.ts of ceremony/passkey-registration and passkey-management.
use Prim.Native.String.{◌++◌}
use town_api.Common.{ℕ, String, Bool, false, Option, some, [], ◌∷◌}
use town_api.Common.Time.{Timestamp}
use town_api.Membership.Rows.{text}
use town_api.Membership.Store.{Query}
use town_api.Ceremony.RateLimits.Windows.{
  Limiter, Rule, is_throttled, record_attempt, quarter_hour, day,
}

abbrev pub setup_options : String → Rule
setup_options grant_id = record {
  scope = "setup_options_grant";
  subject = "grant:" ++ grant_id;
  window = day;
  limit = 5;
}

unfoldable pub is_setup_options_grant_throttled : Limiter → String → Timestamp → Query Bool
unfolding is_throttled
is_setup_options_grant_throttled l grant_id now = is_throttled l (setup_options grant_id ∷ []) now

abbrev pub setup_verification : String → Rule
setup_verification grant_id = record {
  scope = "setup_verification_grant";
  subject = "grant:" ++ grant_id;
  window = day;
  limit = 5;
}

unfoldable pub is_setup_verification_grant_throttled : Limiter → String → Timestamp → Query Bool
unfolding is_throttled
is_setup_verification_grant_throttled l grant_id now =
    is_throttled l (setup_verification grant_id ∷ []) now

unfoldable pub record_setup_options_grant_attempt :
    Limiter → String → String → Timestamp → Bool → Option String → Query ℕ
unfolding record_attempt
record_setup_options_grant_attempt l grant_id account_id now was_throttled request_id =
    record_attempt l (setup_options grant_id) now was_throttled (record {
      account_id = some account_id;
      now = now;
      request_id = request_id;
      metadata = ("purpose", text "register") ∷ ("scope", text "setup_options_grant") ∷ [];
    })

unfoldable pub record_setup_verification_failed_attempt :
    Limiter → String → Timestamp → Option String → Option String → String → Query ℕ
unfolding record_attempt
record_setup_verification_failed_attempt l grant_id now account_id request_id category =
    record_attempt l (setup_verification grant_id) now false (record {
      account_id = account_id;
      now = now;
      request_id = request_id;
      metadata =
          ("purpose", text "register")
          ∷ ("scope", text "setup_verification_grant")
          ∷ ("failureCategory", text category)
          ∷ [];
    })

abbrev pub passkey_inventory : String → Rule
passkey_inventory account_id = record {
  scope = "passkey_inventory_account";
  subject = "account:" ++ account_id;
  window = quarter_hour;
  limit = 60;
}

unfoldable pub is_passkey_inventory_throttled : Limiter → String → Timestamp → Query Bool
unfolding is_throttled
is_passkey_inventory_throttled l account_id now =
    is_throttled l (passkey_inventory account_id ∷ []) now

unfoldable pub record_passkey_inventory_attempt :
    Limiter → String → Timestamp → Bool → Option String → Query ℕ
unfolding record_attempt
record_passkey_inventory_attempt l account_id now was_throttled request_id =
    record_attempt l (passkey_inventory account_id) now was_throttled (record {
      account_id = some account_id;
      now = now;
      request_id = request_id;
      metadata =
          ("scope", text "passkey_inventory_account") ∷ ("purpose", text "passkey_inventory") ∷ [];
    })

abbrev pub reauth_options : String → Rule
reauth_options session_id = record {
  scope = "passkey_reauthentication_options_session";
  subject = "session:" ++ session_id;
  window = quarter_hour;
  limit = 10;
}

unfoldable pub is_manage_reauth_options_throttled : Limiter → String → Timestamp → Query Bool
unfolding is_throttled
is_manage_reauth_options_throttled l session_id now =
    is_throttled l (reauth_options session_id ∷ []) now

unfoldable pub record_manage_reauth_options_attempt :
    Limiter → String → String → Timestamp → Bool → Option String → Query ℕ
unfolding record_attempt
record_manage_reauth_options_attempt l account_id session_id now was_throttled request_id =
    record_attempt l (reauth_options session_id) now was_throttled (record {
      account_id = some account_id;
      now = now;
      request_id = request_id;
      metadata =
          ("scope", text "passkey_reauthentication_options_session")
          ∷ ("purpose", text "manage_passkeys_authenticate")
          ∷ [];
    })

abbrev pub reauth_verify : String → Rule
reauth_verify session_id = record {
  scope = "passkey_reauthentication_verify_session";
  subject = "session:" ++ session_id;
  window = quarter_hour;
  limit = 5;
}

unfoldable pub is_manage_reauth_verify_throttled : Limiter → String → Timestamp → Query Bool
unfolding is_throttled
is_manage_reauth_verify_throttled l session_id now =
    is_throttled l (reauth_verify session_id ∷ []) now

unfoldable pub record_manage_reauth_verify_failed_attempt :
    Limiter → String → String → Timestamp → Option String → String → Query ℕ
unfolding record_attempt
record_manage_reauth_verify_failed_attempt l account_id session_id now request_id category =
    record_attempt l (reauth_verify session_id) now false (record {
      account_id = some account_id;
      now = now;
      request_id = request_id;
      metadata =
          ("scope", text "passkey_reauthentication_verify_session")
          ∷ ("purpose", text "manage_passkeys_authenticate")
          ∷ ("failureCategory", text category)
          ∷ [];
    })

abbrev pub register_options : String → Rule
register_options session_id = record {
  scope = "passkey_registration_options_session";
  subject = "session:" ++ session_id;
  window = quarter_hour;
  limit = 5;
}

unfoldable pub is_manage_register_options_throttled : Limiter → String → Timestamp → Query Bool
unfolding is_throttled
is_manage_register_options_throttled l session_id now =
    is_throttled l (register_options session_id ∷ []) now

unfoldable pub record_manage_register_options_attempt :
    Limiter → String → String → Timestamp → Bool → Option String → Query ℕ
unfolding record_attempt
record_manage_register_options_attempt l account_id session_id now was_throttled request_id =
    record_attempt l (register_options session_id) now was_throttled (record {
      account_id = some account_id;
      now = now;
      request_id = request_id;
      metadata =
          ("scope", text "passkey_registration_options_session")
          ∷ ("purpose", text "manage_passkeys_register")
          ∷ [];
    })

abbrev pub register_verify : String → Rule
register_verify session_id = record {
  scope = "passkey_registration_verify_session";
  subject = "session:" ++ session_id;
  window = quarter_hour;
  limit = 5;
}

unfoldable pub is_manage_register_verify_throttled : Limiter → String → Timestamp → Query Bool
unfolding is_throttled
is_manage_register_verify_throttled l session_id now =
    is_throttled l (register_verify session_id ∷ []) now

unfoldable pub record_manage_register_verify_failed_attempt :
    Limiter → String → String → Timestamp → Option String → String → Query ℕ
unfolding record_attempt
record_manage_register_verify_failed_attempt l account_id session_id now request_id category =
    record_attempt l (register_verify session_id) now false (record {
      account_id = some account_id;
      now = now;
      request_id = request_id;
      metadata =
          ("scope", text "passkey_registration_verify_session")
          ∷ ("purpose", text "manage_passkeys_register")
          ∷ ("failureCategory", text category)
          ∷ [];
    })

abbrev pub passkey_rename : String → Rule
passkey_rename account_id = record {
  scope = "passkey_rename_account";
  subject = "account:" ++ account_id;
  window = day;
  limit = 20;
}

unfoldable pub is_passkey_rename_throttled : Limiter → String → Timestamp → Query Bool
unfolding is_throttled
is_passkey_rename_throttled l account_id now = is_throttled l (passkey_rename account_id ∷ []) now

unfoldable pub record_passkey_rename_attempt :
    Limiter → String → Timestamp → Bool → Option String → Query ℕ
unfolding record_attempt
record_passkey_rename_attempt l account_id now was_throttled request_id =
    record_attempt l (passkey_rename account_id) now was_throttled (record {
      account_id = some account_id;
      now = now;
      request_id = request_id;
      metadata = ("scope", text "passkey_rename_account") ∷ ("purpose", text "passkey_rename") ∷ [];
    })

abbrev pub passkey_revoke : String → Rule
passkey_revoke account_id = record {
  scope = "passkey_revoke_account";
  subject = "account:" ++ account_id;
  window = day;
  limit = 10;
}

unfoldable pub is_passkey_revoke_throttled : Limiter → String → Timestamp → Query Bool
unfolding is_throttled
is_passkey_revoke_throttled l account_id now = is_throttled l (passkey_revoke account_id ∷ []) now

unfoldable pub record_passkey_revoke_attempt :
    Limiter → String → Timestamp → Bool → Option String → Query ℕ
unfolding record_attempt
record_passkey_revoke_attempt l account_id now was_throttled request_id =
    record_attempt l (passkey_revoke account_id) now was_throttled (record {
      account_id = some account_id;
      now = now;
      request_id = request_id;
      metadata = ("scope", text "passkey_revoke_account") ∷ ("purpose", text "passkey_revoke") ∷ [];
    })
