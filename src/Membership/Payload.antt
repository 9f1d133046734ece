-- ===== src/Membership/Payload.antt =====
-- membership/payload-hash.ts and membership/source-policy.ts. `JSON.stringify` and SHA-256 are a
-- parameter (`Runtime.digest`), applied to the canonical list of keys and values.
use town_api.Common.{
  String, Bool, true, false, not, ◌&&◌, Option, none, some, List, [], ◌∷◌, ◌++◌, ◌==◌,
}
use town_api.Common.Time.{Timestamp}
use town_api.Membership.Rows.{Source, test_fixture, source_text, event_type_text}
use town_api.Membership.Transitions.Input.{Field, Input}

pub data JsonValue : Type 0 where
  string : String → JsonValue
  boolean : Bool → JsonValue
  null : JsonValue

abbrev string_or_null : Option String → JsonValue
string_or_null none = null
string_or_null (some t) = string t

abbrev boolean_or_null : Option Bool → JsonValue
boolean_or_null none = null
boolean_or_null (some b) = boolean b

abbrev time_or_null : Option Timestamp → JsonValue
time_or_null none = null
time_or_null (some t) = string t.text

-- One key of the canonical object: an undefined field is left out.
abbrev entry : {A : Type 0} → String → (Option A → JsonValue) → Field A → List (String × JsonValue)
entry key to_json none = []
entry key to_json (some v) = (key, to_json v) ∷ []

-- The canonical object, in `PAYLOAD_KEY_ORDER`.
unfoldable pub canonical_payload : Input → List (String × JsonValue)
canonical_payload i =
    entry "accessUntil" time_or_null i.access_until
    ++ (("accountId", string i.account_id)
        ∷ (entry "cancelAtPeriodEnd" boolean_or_null i.cancel_at_period_end
            ++ (("effectiveAt", string i.effective_at.text)
                ∷ ("eventType", string (event_type_text i.event_type))
                ∷ (entry "googlePlayPackageName" string_or_null i.google_play_package_name
                    ++ (entry "googlePlayPurchaseToken" string_or_null i.google_play_purchase_token
                        ++ (entry "googlePlaySubscriptionId" string_or_null
                              i.google_play_subscription_id
                            ++ (("source", string (source_text i.source))
                                ∷ (entry "sourceCustomerId" string_or_null i.source_customer_id
                                    ++ (("sourceEventId", string i.source_event_id)
                                        ∷ entry "sourceSubscriptionId" string_or_null
                                            i.source_subscription_id)))))))))

abbrev pub is_test_fixture : Source → Bool
is_test_fixture test_fixture = true
is_test_fixture _ = false

-- `assertSourceAllowed` does not throw.
unfoldable pub source_allowed : Source → String → Bool
source_allowed source node_env = not (is_test_fixture source && node_env == "production")
