-- ===== src/Membership/Notifications/Tests.antt =====
-- A renewal that Pub/Sub pushes, and pushes that the parser refuses.
use town_api.Common.{String, [], ◌∷◌, Option, none, some, ◌≡◌, refl, ◌==◌, nat_eq, if◌then◌else◌}
use town_api.Common.Json.{Members, string, integer, object, end, member}
use town_api.Membership.Notifications.{
  Codec, RtdnConfig, ParsedRtdnNotification, subscription_notice, parse_rtdn_notification,
}
use town_api.Membership.Notifications.Reading.{IsPush, IsPayload, parse_rtdn_notification-IsPush}

abbrev renewal : Members
renewal = member "version" (string "1.0") (
    member "packageName" (string "ie.town") (
      member "eventTimeMillis" (string "1700000000000") (
        member "subscriptionNotification"
          (object (
            member "version" (string "1.0") (
              member "notificationType" (integer 2)
                (member "purchaseToken" (string "token-1") end))))
          end)))

abbrev envelope : String → Members
envelope to =
    member "message"
      (object (member "messageId" (string "message-1") (member "data" (string "e30=") end)))
      (member "subscription" (string to) end)

-- A stand-in for the codecs, in which the payload `{}` and the bodies 1 and 2 have set meanings.
abbrev codec : Codec
codec = record {
  decode_utf8 = λ bytes. elim bytes as (λ x. Option String) [
    | [] ↦ none
    | b ∷ bs ↦ if nat_eq b 123 then some "payload" else some "own"
  ];
  from_base64 = λ text. 123 ∷ 125 ∷ [];
  to_base64 = λ bytes. "e30=";
  parse_json = λ text.
      if text == "payload"
      then some (object renewal)
      else some (object (envelope "projects/town/subscriptions/rtdn"));
}

abbrev config : RtdnConfig
config = record { package_name = "ie.town"; subscription = "projects/town/subscriptions/rtdn" }

abbrev other_config : RtdnConfig
other_config = record { package_name = "ie.town"; subscription = "projects/other" }

abbrev renewed : ParsedRtdnNotification
renewed = record {
  detail = subscription_notice 2 "token-1" none;
  message_id = "message-1";
  event_time_millis = "1700000000000";
  raw_payload = renewal;
  decoded_payload_bytes = 123 ∷ 125 ∷ [];
}

renewal_is_parsed : parse_rtdn_notification codec config (1 ∷ []) ≡ some renewed
unfolding parse_rtdn_notification
renewal_is_parsed = refl

other_subscription_is_refused : parse_rtdn_notification codec other_config (1 ∷ []) ≡ none
unfolding parse_rtdn_notification
other_subscription_is_refused = refl

parse_rtdn_notification-IsPush_example :
    IsPush codec config (1 ∷ []) renewed × IsPayload config renewed
parse_rtdn_notification-IsPush_example =
    parse_rtdn_notification-IsPush codec config (1 ∷ []) renewed renewal_is_parsed
