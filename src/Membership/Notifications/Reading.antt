-- ===== src/Membership/Notifications/Reading.antt =====
-- A notification is answered for the configured subscription and package alone, and holds what the
-- body says.
use town_api.Common.{
  ℕ, String, true, List, some, ◌≡◌, ◌≢◌, ◌∙◌, ◌==◌, eq_iff, ap, refl, sym, arith, inl, inr, subst,
  Option-cases, Bool-cases, ◌∷◌, ◌&&◌,
}
use town_api.Common.Json.{
  Json, Members, string, object, get, record_members, non_empty_string, codes,
}
use town_api.Membership.Notifications.{
  Codec, RtdnConfig, NoticeDetail, ParsedRtdnNotification, is_decimal_millis, is_text, is_base64,
  text_of, accepts_payload, has_only_keys, notification_variants, ◌>>=◌, resolve_variant,
  parse_detail, parse_payload, parse_envelope, decode_base64_utf8, parse_json_object,
  parse_rtdn_notification,
}
use town_api.Membership.Notifications.Inversion.{
  bind-some, both, same_some, is_text-string, text_of-string, record_members-object,
  non_empty_string-string,
}
use town_api.Membership.Notifications.Parsed.{
  variant_of, IsAlone, IsDetail, resolve_variant-IsAlone, parse_detail-IsDetail,
}

-- The payload of a notification: its version, package and time, its only variant and the detail.
pub record IsPayload (config : RtdnConfig) (p : ParsedRtdnNotification) : Type 0 where
  pub version : get "version" p.raw_payload ≡ string "1.0"
  pub package_name : get "packageName" p.raw_payload ≡ string config.package_name
  pub time : get "eventTimeMillis" p.raw_payload ≡ string p.event_time_millis
  pub time_decimal : is_decimal_millis (codes p.event_time_millis) ≡ true
  pub alone : IsAlone p.raw_payload (variant_of p.detail)
  pub fields : Members
  pub variant : get (variant_of p.detail) p.raw_payload ≡ object fields
  pub detail : IsDetail p.detail fields

-- The envelope of the push: its subscription, and the identifier and the data of its message.
pub record IsEnvelope (c : Codec) (config : RtdnConfig) (raw_body : List ℕ) (id : String)
    (encoded : Json) : Type 0 where
  pub text : String
  pub envelope : Members
  pub message : Members
  pub decoded : c.decode_utf8 raw_body ≡ some text
  pub parsed : c.parse_json text ≡ some (object envelope)
  pub subscription : get "subscription" envelope ≡ string config.subscription
  pub message_object : get "message" envelope ≡ object message
  pub message_id : get "messageId" message ≡ string id
  pub named : id ≢ ""
  pub message_data : get "data" message ≡ encoded

-- The base64 of the bytes of a text.
pub record IsEncoded (c : Codec) (encoded : Json) (bytes : List ℕ) (payload : String) : Type 0 where
  pub is_canonical : encoded ≡ string (c.to_base64 bytes)
  pub matches : is_base64 (codes (c.to_base64 bytes)) ≡ true
  pub decodes : c.from_base64 (c.to_base64 bytes) ≡ bytes
  pub text : c.decode_utf8 bytes ≡ some payload

-- The body that carried a notification.
pub record IsPush (c : Codec) (config : RtdnConfig) (raw_body : List ℕ) (p : ParsedRtdnNotification)
    : Type 0 where
  pub encoded : Json
  pub payload : String
  pub envelope : IsEnvelope c config raw_body p.message_id encoded
  pub bytes : IsEncoded c encoded p.decoded_payload_bytes payload
  pub payload_object : c.parse_json payload ≡ some (object p.raw_payload)

parse_json_object-object :
    (c : Codec) (text : String) {ms : Members}
    → parse_json_object c text ≡ some ms
    → c.parse_json text ≡ some (object ms)
parse_json_object-object c text {ms = ms} h = elim (Option-cases (c.parse_json text)) [
  | inl wrong ↦ absurd (ground arith)
  | inr (j, parsed) ↦
      let read : record_members j ≡ some ms = ground arith in
      parsed ∙ ap some (record_members-object j read)
]

parse_envelope-IsEnvelope :
    (c : Codec) (config : RtdnConfig) (raw_body : List ℕ) (id : String) (encoded : Json)
    → parse_envelope c config raw_body ≡ some (id, encoded)
    → IsEnvelope c config raw_body id encoded
unfolding parse_envelope
parse_envelope-IsEnvelope c config raw_body id encoded h =
    elim (Option-cases (c.decode_utf8 raw_body)) [
      | inl garbled ↦ absurd (ground arith)
      | inr (text, decoded) ↦ elim (Option-cases (parse_json_object c text)) [
        | inl other ↦ absurd (ground arith)
        | inr (envelope, parsed) ↦ elim (Option-cases (record_members (get "message" envelope))) [
          | inl missing ↦ absurd (ground arith)
          | inr (message, there) ↦
              elim (Option-cases (non_empty_string (get "messageId" message))) [
                | inl unnamed ↦ absurd (ground arith)
                | inr (own, named) ↦
                    let same : own ≡ id = ground arith in
                    let own_data : get "data" message ≡ encoded = ground arith in
                    let meant : is_text config.subscription (get "subscription" envelope) ≡ true =
                      ground arith in
                    let (id_text, given) =
                      non_empty_string-string (get "messageId" message) (named ∙ ap some same) in
                    record {
                      text = text;
                      envelope = envelope;
                      message = message;
                      decoded = decoded;
                      parsed = parse_json_object-object c text parsed;
                      subscription =
                          is_text-string config.subscription (get "subscription" envelope) meant;
                      message_object = record_members-object (get "message" envelope) there;
                      message_id = id_text;
                      named = given;
                      message_data = own_data;
                    }
              ]
        ]
      ]
    ]

decode_base64_utf8-IsEncoded :
    (c : Codec) (encoded : Json) (bytes : List ℕ) (payload : String)
    → decode_base64_utf8 c encoded ≡ some (bytes, payload)
    → IsEncoded c encoded bytes payload
unfolding decode_base64_utf8
decode_base64_utf8-IsEncoded c encoded bytes payload h =
    elim (Option-cases (non_empty_string encoded)) [
      | inl missing ↦ absurd (ground arith)
      | inr (t, given) ↦ elim (Option-cases (c.decode_utf8 (c.from_base64 t))) [
        | inl garbled ↦ absurd (ground arith)
        | inr (text, decoded) ↦
            let own : c.from_base64 t ≡ bytes = ground arith in
            let same : text ≡ payload = ground arith in
            let pattern : is_base64 (codes t) ≡ true = ground arith in
            let again : (c.to_base64 (c.from_base64 t) == t) ≡ true = ground arith in
            let canonical : t ≡ c.to_base64 bytes =
              sym ((eq_iff (c.to_base64 (c.from_base64 t)) t).0 again) ∙ ap c.to_base64 own in
            record {
              is_canonical = (non_empty_string-string encoded given).0 ∙ ap string canonical;
              matches = subst (λ u. is_base64 (codes u) ≡ true) canonical pattern;
              decodes = subst (λ u. c.from_base64 u ≡ bytes) canonical own;
              text = subst (λ b. c.decode_utf8 b ≡ some payload) own (decoded ∙ ap some same);
            }
      ]
    ]

accepts_payload-texts :
    (config : RtdnConfig) (n : Members)
    → accepts_payload config n ≡ true
    → (get "version" n ≡ string "1.0") × (get "packageName" n ≡ string config.package_name)
unfolding accepts_payload
accepts_payload-texts config n h =
    let (known, own) =
      both
        (has_only_keys ("version" ∷ "packageName" ∷ "eventTimeMillis" ∷ notification_variants) n
          && is_text "1.0" (get "version" n))
        (is_text config.package_name (get "packageName" n)) h in
    let (keys, version) =
      both (has_only_keys ("version" ∷ "packageName" ∷ "eventTimeMillis" ∷ notification_variants) n)
        (is_text "1.0" (get "version" n)) known in
    (
      is_text-string "1.0" (get "version" n) version,
      is_text-string config.package_name (get "packageName" n) own,
    )

abbrev made : NoticeDetail → String → String → Members → List ℕ → ParsedRtdnNotification
made x id time n bytes = record {
  detail = x;
  message_id = id;
  event_time_millis = time;
  raw_payload = n;
  decoded_payload_bytes = bytes;
}

accepted-IsPayload :
    (config : RtdnConfig) (id : String) (bytes : List ℕ) (n : Members) (time : String)
    (p : ParsedRtdnNotification)
    → accepts_payload config n ≡ true
    → text_of (get "eventTimeMillis" n) ≡ some time
    → is_decimal_millis (codes time) ≡ true
    → (resolve_variant n >>= λ v.
        record_members (get v n) >>= λ d. parse_detail v d >>= λ x. some (made x id time n bytes))
      ≡ some p
    → (p.message_id ≡ id)
      × (p.decoded_payload_bytes ≡ bytes)
      × (p.raw_payload ≡ n)
      × IsPayload config p
accepted-IsPayload config id bytes n time p accepted time_read decimal h =
    let (v, resolved, after_variant) = bind-some (resolve_variant n) _ h in
    let (d, there, after_fields) = bind-some (record_members (get v n)) _ after_variant in
    let (x, detailed, answer) = bind-some (parse_detail v d) _ after_fields in
    let alone = resolve_variant-IsAlone n v resolved in
    let (own, detail) = parse_detail-IsDetail v d x alone.0 detailed in
    let (version, package_name) = accepts_payload-texts config n accepted in
    subst
      (λ q.
        (q.message_id ≡ id)
        × (q.decoded_payload_bytes ≡ bytes)
        × (q.raw_payload ≡ n)
        × IsPayload config q)
      (same_some answer)
      (
        refl,
        refl,
        refl,
        record {
          version = version;
          package_name = package_name;
          time = text_of-string (get "eventTimeMillis" n) time_read;
          time_decimal = decimal;
          alone = subst (λ w. IsAlone n w) (sym own) alone;
          fields = d;
          variant =
              subst (λ w. get w n ≡ object d) (sym own) (record_members-object (get v n) there);
          detail = detail;
        },
      )

parse_payload-IsPayload :
    (config : RtdnConfig) (id : String) (bytes : List ℕ) (n : Members) (p : ParsedRtdnNotification)
    → parse_payload config id bytes n ≡ some p
    → (p.message_id ≡ id)
      × (p.decoded_payload_bytes ≡ bytes)
      × (p.raw_payload ≡ n)
      × IsPayload config p
unfolding parse_payload
parse_payload-IsPayload config id bytes n p h = elim (Bool-cases (accepts_payload config n)) [
  | inr foreign ↦ absurd (ground arith)
  | inl accepted ↦ elim (Option-cases (text_of (get "eventTimeMillis" n))) [
    | inl missing ↦ absurd (ground arith)
    | inr (time, time_read) ↦ elim (Bool-cases (is_decimal_millis (codes time))) [
      | inr odd ↦ absurd (ground arith)
      | inl decimal ↦
          accepted-IsPayload config id bytes n time p accepted time_read decimal
            (rw (parse_payload, accepted, time_read, decimal) at h)
    ]
  ]
]

-- A body that is parsed names the configured subscription, and its message the canonical base64 of a
-- JSON object; that object names version 1.0, the configured package, a decimal time and one variant
-- alone. The notification has the identifier of the message, the bytes and the object of the payload,
-- its time, the kind of its variant, and the type, the token and the identifier that the variant's
-- value holds, where identifier of the message and token are not empty.
pub parse_rtdn_notification-IsPush :
    (c : Codec) (config : RtdnConfig) (raw_body : List ℕ) (p : ParsedRtdnNotification)
    → parse_rtdn_notification c config raw_body ≡ some p
    → IsPush c config raw_body p × IsPayload config p
unfolding parse_rtdn_notification
parse_rtdn_notification-IsPush c config raw_body p h =
    elim (Option-cases (parse_envelope c config raw_body)) [
      | inl refused ↦ absurd (ground arith)
      | inr ((id, encoded), opened) ↦ elim (Option-cases (decode_base64_utf8 c encoded)) [
        | inl garbled ↦ absurd (ground arith)
        | inr ((bytes, payload), decoded) ↦ elim (Option-cases (parse_json_object c payload)) [
          | inl other ↦ absurd (ground arith)
          | inr (n, parsed) ↦
              let read : parse_payload config id bytes n ≡ some p = ground arith in
              let (own_id, own_bytes, own_payload, holds) =
                parse_payload-IsPayload config id bytes n p read in
              (
                record {
                  encoded = encoded;
                  payload = payload;
                  envelope =
                      subst (λ i. IsEnvelope c config raw_body i encoded) (sym own_id)
                        (parse_envelope-IsEnvelope c config raw_body id encoded opened);
                  bytes =
                      subst (λ b. IsEncoded c encoded b payload) (sym own_bytes)
                        (decode_base64_utf8-IsEncoded c encoded bytes payload decoded);
                  payload_object =
                      parse_json_object-object c payload parsed
                      ∙ ap (λ m. some (object m)) (sym own_payload);
                },
                holds,
              )
        ]
      ]
    ]
