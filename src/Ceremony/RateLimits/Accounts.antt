-- ===== src/Ceremony/RateLimits/Accounts.antt =====
-- billing/rate-limits.ts, membership/rate-limits.ts and membership/google-play/rate-limits.ts: limits on the
-- requests of an account.
use Prim.Native.String.{◌++◌}
use town_api.Common.{ℕ, String, Bool, Option, some, [], ◌∷◌}
use town_api.Common.Time.{Timestamp}
use town_api.Membership.Rows.{text}
use town_api.Membership.Store.{Query}
use town_api.Ceremony.RateLimits.Windows.{
  Limiter, Rule, is_throttled, record_counted_attempt, quarter_hour, half_hour,
}

abbrev pub billing_checkout : String → Rule
billing_checkout account_id = record {
  scope = "billing_checkout_account";
  subject = "account:" ++ account_id;
  window = half_hour;
  limit = 5;
}

unfoldable pub is_billing_checkout_throttled : Limiter → String → Timestamp → Query Bool
unfolding is_throttled
is_billing_checkout_throttled l account_id now =
    is_throttled l (billing_checkout account_id ∷ []) now

unfoldable pub record_billing_checkout_attempt :
    Limiter → String → Timestamp → Bool → Option String → Query ℕ
unfolding record_counted_attempt
record_billing_checkout_attempt l account_id now was_throttled request_id =
    record_counted_attempt l (billing_checkout account_id) now was_throttled (record {
      account_id = some account_id;
      now = now;
      request_id = request_id;
      metadata =
          ("scope", text "billing_checkout_account") ∷ ("purpose", text "billing_checkout") ∷ [];
    })

abbrev pub billing_portal : String → Rule
billing_portal account_id = record {
  scope = "billing_portal_account";
  subject = "account:" ++ account_id;
  window = half_hour;
  limit = 10;
}

unfoldable pub is_billing_portal_throttled : Limiter → String → Timestamp → Query Bool
unfolding is_throttled
is_billing_portal_throttled l account_id now = is_throttled l (billing_portal account_id ∷ []) now

unfoldable pub record_billing_portal_attempt :
    Limiter → String → Timestamp → Bool → Option String → Query ℕ
unfolding record_counted_attempt
record_billing_portal_attempt l account_id now was_throttled request_id =
    record_counted_attempt l (billing_portal account_id) now was_throttled (record {
      account_id = some account_id;
      now = now;
      request_id = request_id;
      metadata = ("scope", text "billing_portal_account") ∷ ("purpose", text "billing_portal") ∷ [];
    })

abbrev pub membership_inventory : String → Rule
membership_inventory account_id = record {
  scope = "membership_inventory_account";
  subject = "account:" ++ account_id;
  window = quarter_hour;
  limit = 60;
}

unfoldable pub is_membership_inventory_throttled : Limiter → String → Timestamp → Query Bool
unfolding is_throttled
is_membership_inventory_throttled l account_id now =
    is_throttled l (membership_inventory account_id ∷ []) now

unfoldable pub record_membership_inventory_attempt :
    Limiter → String → Timestamp → Bool → Option String → Query ℕ
unfolding record_counted_attempt
record_membership_inventory_attempt l account_id now was_throttled request_id =
    record_counted_attempt l (membership_inventory account_id) now was_throttled (record {
      account_id = some account_id;
      now = now;
      request_id = request_id;
      metadata =
          ("scope", text "membership_inventory_account")
          ∷ ("purpose", text "membership_inventory")
          ∷ [];
    })

abbrev pub local_eligibility_bind : String → Rule
local_eligibility_bind account_id = record {
  scope = "membership_inventory_account";
  subject = "local_eligibility:" ++ account_id;
  window = quarter_hour;
  limit = 60;
}

unfoldable pub is_local_eligibility_bind_throttled : Limiter → String → Timestamp → Query Bool
unfolding is_throttled
is_local_eligibility_bind_throttled l account_id now =
    is_throttled l (local_eligibility_bind account_id ∷ []) now

unfoldable pub record_local_eligibility_bind_attempt :
    Limiter → String → Timestamp → Bool → Option String → Query ℕ
unfolding record_counted_attempt
record_local_eligibility_bind_attempt l account_id now was_throttled request_id =
    record_counted_attempt l (local_eligibility_bind account_id) now was_throttled (record {
      account_id = some account_id;
      now = now;
      request_id = request_id;
      metadata =
          ("scope", text "membership_inventory_account")
          ∷ ("purpose", text "local_eligibility_bind")
          ∷ [];
    })

abbrev pub community_commitment_write : String → Rule
community_commitment_write account_id = record {
  scope = "membership_inventory_account";
  subject = "community_commitment:" ++ account_id;
  window = quarter_hour;
  limit = 60;
}

unfoldable pub is_community_commitment_write_throttled : Limiter → String → Timestamp → Query Bool
unfolding is_throttled
is_community_commitment_write_throttled l account_id now =
    is_throttled l (community_commitment_write account_id ∷ []) now

unfoldable pub record_community_commitment_write_attempt :
    Limiter → String → Timestamp → Bool → Option String → Query ℕ
unfolding record_counted_attempt
record_community_commitment_write_attempt l account_id now was_throttled request_id =
    record_counted_attempt l (community_commitment_write account_id) now was_throttled (record {
      account_id = some account_id;
      now = now;
      request_id = request_id;
      metadata =
          ("scope", text "membership_inventory_account")
          ∷ ("purpose", text "community_commitment_write")
          ∷ [];
    })

-- membership/google-play/rate-limits.ts: the scope of the checkout, with a subject of its own.
abbrev pub google_play_purchase : String → Rule
google_play_purchase account_id = record {
  scope = "billing_checkout_account";
  subject = "google_play_purchase:" ++ account_id;
  window = half_hour;
  limit = 10;
}

unfoldable pub is_google_play_purchase_throttled : Limiter → String → Timestamp → Query Bool
unfolding is_throttled
is_google_play_purchase_throttled l account_id now =
    is_throttled l (google_play_purchase account_id ∷ []) now

unfoldable pub record_google_play_purchase_attempt :
    Limiter → String → Timestamp → Bool → Option String → Query ℕ
unfolding record_counted_attempt
record_google_play_purchase_attempt l account_id now was_throttled request_id =
    record_counted_attempt l (google_play_purchase account_id) now was_throttled (record {
      account_id = some account_id;
      now = now;
      request_id = request_id;
      metadata =
          ("scope", text "billing_checkout_account")
          ∷ ("purpose", text "google_play_purchase")
          ∷ [];
    })
