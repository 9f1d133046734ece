-- ===== src/Membership/Notifications/Parsed.antt =====
-- What a notification that the parser answers says of the body that it was read from.
use town_api.Common.{
  ℕ, String, Bool, true, false, [], ◌∷◌, none, some, ◌≡◌, ◌≢◌, ◌∙◌, sym, subst, refl, arith, inl,
  inr, Bool-cases, Option-cases, ◌==◌, eq_iff, if◌then◌else◌,
}
use town_api.Common.Tables.{any, filter}
use town_api.Common.Json.{Members, string, integer, get, non_empty_string}
use town_api.Membership.Notifications.{
  require_notification_type, subscription_notice, one_time_notice, voided_notice, has_only_keys,
  is_text, PurchaseKind, PurchaseDetail, NoticeDetail, subscription, one_time, voided, test,
  purchase, notification_variants, is_present, only, resolve_variant, parse_test,
  parse_subscription, parse_one_time, parse_voided, parse_detail,
}
use town_api.Membership.Notifications.Inversion.{
  IsOptionalId, bind-some, guarded-some, both, same_some, is_text-string, non_empty_string-string,
  require_notification_type-integer, optional_id-IsOptionalId,
}

abbrev pub kind_variant : PurchaseKind → String
kind_variant subscription = "subscriptionNotification"
kind_variant one_time = "oneTimeProductNotification"
kind_variant voided = "voidedPurchaseNotification"

abbrev pub variant_of : NoticeDetail → String
variant_of test = "testNotification"
variant_of (purchase p) = kind_variant p.kind

-- `v` is a variant, and which variants are there is told by `v`.
abbrev IsPresence : String → Bool → Bool → Bool → Bool → Type 0
IsPresence v a b c d =
    (any (λ k. k == v) notification_variants ≡ true)
    × (a ≡ (v == "subscriptionNotification"))
    × (b ≡ (v == "oneTimeProductNotification"))
    × (c ≡ (v == "voidedPurchaseNotification"))
    × (d ≡ (v == "testNotification"))

-- `v` is a variant, and the only one that the payload has.
abbrev pub IsAlone : Members → String → Type 0
IsAlone n v =
    IsPresence v (is_present (get "subscriptionNotification" n))
      (is_present (get "oneTimeProductNotification" n))
      (is_present (get "voidedPurchaseNotification" n)) (is_present (get "testNotification" n))

pub resolve_variant-IsAlone : (n : Members) (v : String) → resolve_variant n ≡ some v → IsAlone n v
resolve_variant-IsAlone n v h =
    by_presence (is_present (get "subscriptionNotification" n))
      (is_present (get "oneTimeProductNotification" n))
      (is_present (get "voidedPurchaseNotification" n)) (is_present (get "testNotification" n)) h
  where
    by_presence :
        (a b c d : Bool)
        → only (
            filter
              (λ k.
                if k == "subscriptionNotification"
                then a
                else if k == "oneTimeProductNotification"
                then b
                else if k == "voidedPurchaseNotification"
                then c
                else d)
              notification_variants)
          ≡ some v
        → IsPresence v a b c d
    by_presence true false false false h =
        subst (λ w. IsPresence w true false false false) (same_some h)
          (refl, refl, refl, refl, refl)
    by_presence false true false false h =
        subst (λ w. IsPresence w false true false false) (same_some h)
          (refl, refl, refl, refl, refl)
    by_presence false false true false h =
        subst (λ w. IsPresence w false false true false) (same_some h)
          (refl, refl, refl, refl, refl)
    by_presence false false false true h =
        subst (λ w. IsPresence w false false false true) (same_some h)
          (refl, refl, refl, refl, refl)
    by_presence _ _ _ _ h = absurd (cc)

-- The type of a notification and the identifier of its subscription, by its kind.
abbrev IsKind : PurchaseKind → PurchaseDetail → Members → Type 0
IsKind subscription p d =
    (n : ℕ) × (p.notification_type ≡ some n)
    × (get "notificationType" d ≡ integer n)
    × IsOptionalId p.subscription_id (get "subscriptionId" d)
IsKind one_time p d =
    (n : ℕ) × (p.notification_type ≡ some n)
    × (get "notificationType" d ≡ integer n)
    × (p.subscription_id ≡ none)
IsKind voided p d = (p.notification_type ≡ none) × (p.subscription_id ≡ none)

-- The members of the detail that the notification took over.
abbrev pub IsDetail : NoticeDetail → Members → Type 0
IsDetail test d = get "version" d ≡ string "1.0"
IsDetail (purchase p) d =
    (get "purchaseToken" d ≡ string p.purchase_token) × (p.purchase_token ≢ "") × IsKind p.kind p d

parse_subscription-IsDetail :
    (d : Members) (x : NoticeDetail)
    → parse_subscription d ≡ some x
    → (variant_of x ≡ "subscriptionNotification") × IsDetail x d
unfolding parse_subscription
parse_subscription-IsDetail d x h =
    let (id, id_read, after_id) = bind-some _ _ h in
    let (type, type_read, after_type) = bind-some _ _ after_id in
    let (token, token_read, answer) = bind-some _ _ after_type in
    let (keys, id_given) = guarded-some _ _ id_read in
    let (token_text, given) = non_empty_string-string _ token_read in
    let typed = require_notification_type-integer _ type_read in
    let its_id = optional_id-IsOptionalId _ id id_given in
    subst (λ y. (variant_of y ≡ "subscriptionNotification") × IsDetail y d)
      {x = subscription_notice type token id} (same_some answer)
      (refl, (token_text, given, (type, refl, typed, its_id)))

parse_one_time-IsDetail :
    (d : Members) (x : NoticeDetail)
    → parse_one_time d ≡ some x
    → (variant_of x ≡ "oneTimeProductNotification") × IsDetail x d
unfolding parse_one_time
parse_one_time-IsDetail d x h =
    elim (Option-cases (require_notification_type (get "notificationType" d))) [
      | inl untyped ↦ absurd (ground arith)
      | inr (type, type_read) ↦ elim (Option-cases (non_empty_string (get "purchaseToken" d))) [
        | inl missing ↦ absurd (ground arith)
        | inr (token, token_read) ↦
            let answer : one_time_notice type token ≡ x = ground arith in
            let (token_text, given) = non_empty_string-string _ token_read in
            let typed = require_notification_type-integer _ type_read in
            subst (λ y. (variant_of y ≡ "oneTimeProductNotification") × IsDetail y d) answer
              (refl, (token_text, given, (type, refl, typed, refl)))
      ]
    ]

parse_voided-IsDetail :
    (d : Members) (x : NoticeDetail)
    → parse_voided d ≡ some x
    → (variant_of x ≡ "voidedPurchaseNotification") × IsDetail x d
unfolding parse_voided
parse_voided-IsDetail d x h = elim (Option-cases (non_empty_string (get "purchaseToken" d))) [
  | inl missing ↦ absurd (ground arith)
  | inr (token, token_read) ↦
      let answer : voided_notice token ≡ x = ground arith in
      let (token_text, given) = non_empty_string-string _ token_read in
      subst (λ y. (variant_of y ≡ "voidedPurchaseNotification") × IsDetail y d) answer
        (refl, (token_text, given, (refl, refl)))
]

parse_test-IsDetail :
    (d : Members) (x : NoticeDetail)
    → parse_test d ≡ some x
    → (variant_of x ≡ "testNotification") × IsDetail x d
unfolding parse_test
parse_test-IsDetail d x h =
    let (guards, answer) = guarded-some _ _ h in
    let (keys, version) =
      both (has_only_keys ("version" ∷ []) d) (is_text "1.0" (get "version" d)) guards in
    subst (λ y. (variant_of y ≡ "testNotification") × IsDetail y d) {x = test} (same_some answer)
      (refl, is_text-string "1.0" (get "version" d) version)

-- The variant that is none of the three others.
last_variant :
    (v : String)
    → (v == "testNotification") ≡ false
    → (v == "subscriptionNotification") ≡ false
    → (v == "oneTimeProductNotification") ≡ false
    → any (λ k. k == v) notification_variants ≡ true
    → "voidedPurchaseNotification" ≡ v
last_variant v a b c among = elim (Bool-cases ("subscriptionNotification" == v)) [
  | inl one ↦ absurd (ground (arith, (eq_iff "subscriptionNotification" v).0 one, b))
  | inr d ↦ elim (Bool-cases ("oneTimeProductNotification" == v)) [
    | inl two ↦ absurd (ground (arith, (eq_iff "oneTimeProductNotification" v).0 two, c))
    | inr e ↦ elim (Bool-cases ("voidedPurchaseNotification" == v)) [
      | inl three ↦ (eq_iff "voidedPurchaseNotification" v).0 three
      | inr f ↦ elim (Bool-cases ("testNotification" == v)) [
        | inl four ↦ absurd (ground (arith, (eq_iff "testNotification" v).0 four, a))
        | inr g ↦ absurd (ground (arith, d, e, f, g, among))
      ]
    ]
  ]
]

pub parse_detail-IsDetail :
    (v : String) (d : Members) (x : NoticeDetail)
    → any (λ k. k == v) notification_variants ≡ true
    → parse_detail v d ≡ some x
    → (variant_of x ≡ v) × IsDetail x d
unfolding parse_detail
parse_detail-IsDetail v d x among h = elim (Bool-cases (v == "testNotification")) [
  | inl one ↦
      let (own, detail) = parse_test-IsDetail d x (rw one at h) in
      (own ∙ sym ((eq_iff v _).0 one), detail)
  | inr a ↦ elim (Bool-cases (v == "subscriptionNotification")) [
    | inl two ↦
        let (own, detail) = parse_subscription-IsDetail d x (rw (a, two) at h) in
        (own ∙ sym ((eq_iff v _).0 two), detail)
    | inr b ↦ elim (Bool-cases (v == "oneTimeProductNotification")) [
      | inl three ↦
          let (own, detail) = parse_one_time-IsDetail d x (rw (a, b, three) at h) in
          (own ∙ sym ((eq_iff v _).0 three), detail)
      | inr c ↦
          let (own, detail) = parse_voided-IsDetail d x (rw (a, b, c) at h) in
          (own ∙ last_variant v a b c among, detail)
    ]
  ]
]
