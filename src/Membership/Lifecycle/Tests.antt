-- ===== src/Membership/Lifecycle/Tests.antt =====
-- A subscription with one line item, and the decisions on it.
use town_api.Common.{ℕ, ◌<◌, String, Option, some, ◌≡◌, ◌≢◌, refl, ◌⊎◌, ◌↔◌, inl}
use town_api.Common.Json.{
  Json, string, object, array, Items, nil, cons, Members, end, member, get, record_members,
}
use town_api.Membership.Rows.{Status}
use town_api.Membership.Lifecycle.{
  LifecycleTime, milliseconds, SubscriptionFacts, active, cancelled, on_hold, paused, expired,
  revoked, extend, cancel_keep_access, suspend, restore, expire, decide_membership_action,
}
use town_api.Membership.Lifecycle.Facts.{
  facts, item_expiry, map_subscription_purchase_to_neutral_facts, state_of, latest_expiry,
  parse_rfc3339_instant, rfc3339, digits, one_of, fraction, skip_digits, zone, offset, fields_valid,
  days_in_month, leap_year,
}
use town_api.Membership.Lifecycle.Laws.{IsRunning, decide_membership_action_iff, extend_grows}
use town_api.Membership.Lifecycle.Expiry.{
  EachItem, SomeItem, ExpiresBy, map_subscription_purchase-latest,
}

-- `Date.parse` on the one text of these tests.
abbrev date_parse : String → Option ℕ
date_parse s = some 2000

abbrev subscription : Json
subscription = object (
    member "subscriptionState" (string "SUBSCRIPTION_STATE_ACTIVE") (
      member "lineItems"
        (array (cons (object (member "expiryTime" (string "2026-04-01T00:00:00Z") end)) nil)) end))

abbrev renewed : SubscriptionFacts
renewed = record { state = active; expiry = milliseconds 2000 }

subscription_maps :
    map_subscription_purchase_to_neutral_facts date_parse subscription ≡ facts renewed
unfolding map_subscription_purchase_to_neutral_facts state_of latest_expiry item_expiry
    parse_rfc3339_instant rfc3339 digits one_of fraction skip_digits zone offset fields_valid
    days_in_month leap_year
subscription_maps = refl

map_subscription_purchase-latest_example :
    (renewed.state ≢ revoked)
    × ((ms : Members) × (items : Items) × (e : ℕ) × (record_members subscription ≡ some ms)
        × (get "lineItems" ms ≡ array items)
        × (renewed.expiry ≡ milliseconds e)
        × EachItem (ExpiresBy date_parse e) items
        × SomeItem (λ item. item_expiry date_parse item ≡ inl e) items)
map_subscription_purchase-latest_example =
    map_subscription_purchase-latest date_parse subscription renewed subscription_maps

decide_membership_action_iff_example :
    ((decide_membership_action Status.suspended (milliseconds 1000) renewed ≡ expire)
      ↔ (IsRunning Status.suspended × ((active ≡ expired) ⊎ (active ≡ revoked))))
    × ((decide_membership_action Status.suspended (milliseconds 1000) renewed ≡ suspend) ↔ (
        ((Status.suspended ≡ Status.active) ⊎ (Status.suspended ≡ Status.cancelling))
        × ((active ≡ on_hold) ⊎ (active ≡ paused))))
    × ((decide_membership_action Status.suspended (milliseconds 1000) renewed ≡ restore)
        ↔ ((Status.suspended ≡ Status.suspended) × (active ≡ active)))
    × ((until : LifecycleTime)
        → (decide_membership_action Status.suspended (milliseconds 1000) renewed
            ≡ cancel_keep_access until)
          ↔ (((Status.suspended ≡ Status.active) ⊎ (Status.suspended ≡ Status.cancelling))
              × (active ≡ cancelled)
              × (until ≡ milliseconds 2000)))
decide_membership_action_iff_example =
    decide_membership_action_iff Status.suspended (milliseconds 1000) renewed

renewal_extends :
    decide_membership_action Status.active (milliseconds 1000) renewed ≡ extend (milliseconds 2000)
unfolding decide_membership_action
renewal_extends = refl

extend_grows_example :
    (Status.active ≡ Status.active)
    × (active ≡ active)
    × (milliseconds 2000 ≡ milliseconds 2000)
    × (1000 < 2000)
extend_grows_example =
    extend_grows Status.active (milliseconds 1000) renewed (milliseconds 2000) 1000 2000
      renewal_extends refl refl
