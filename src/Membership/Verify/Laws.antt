-- ===== src/Membership/Verify/Laws.antt =====
-- What a verified purchase rests on, and that provisioning accepts it.
use town_api.Common.{
  String, false, Option, none, some, ◌≡◌, ◌≢◌, refl, arith, ◌⊎◌, inl, inr, ◌==◌, eq_iff, Bool-cases,
  Option-cases, or_else,
}
use town_api.Common.Time.{Timestamp, not_after}
use town_api.Membership.Rows.{Account}
use town_api.Membership.Transitions.Active.{is_closed}
use town_api.Membership.Provision.{Purchase, provision_refusal}
use town_api.Membership.Verify.{
  PurchaseClaim, VerifyConfig, LineItem, SubscriptionPurchase, Remote, answered, publisher_error,
  other_error, verified, select_primary_subscription_line_item, verified_purchase, claim_refusal,
  check_subscription, verify_google_play_purchase,
}

-- The API answered an active subscription for this purchase's token, in the configured package, whose
-- first line item is the purchase's.
pub record IsBacked (adapter : String → String → Remote) (config : VerifyConfig) (p : Purchase)
    : Type 0 where
  pub remote : SubscriptionPurchase
  pub item : LineItem
  pub call : adapter config.package_name p.purchase_token ≡ answered remote
  pub running : remote.subscription_state ≡ "SUBSCRIPTION_STATE_ACTIVE"
  pub first : select_primary_subscription_line_item remote ≡ some item
  pub product : item.product_id ≡ config.subscription_id
  pub until : p.access_until ≡ item.expiry_time
  pub ahead : not_after p.access_until p.effective_at ≡ false
  pub configured : p.package_name ≡ config.package_name
  pub subscription : p.subscription_id ≡ config.subscription_id

Remote-cases :
    (r : Remote)
    → ((s : SubscriptionPurchase) × (r ≡ answered s))
      ⊎ ((s : SubscriptionPurchase) → r ≢ answered s)
Remote-cases (answered s) = inl (s, refl)
Remote-cases (publisher_error code status) = inr (λ s h. cc)
Remote-cases other_error = inr (λ s h. cc)

check-IsBacked :
    (adapter : String → String → Remote) (claim : PurchaseClaim) (config : VerifyConfig)
    (token account_id : String) (at : Timestamp) (remote : SubscriptionPurchase) (p : Purchase)
    (ack : Option String)
    → adapter config.package_name token ≡ answered remote
    → check_subscription claim config token account_id at remote ≡ verified p ack
    → IsBacked adapter config p × (p.purchase_token ≡ token)
unfolding check_subscription
check-IsBacked adapter claim config token account_id at remote p ack call h =
    elim (Bool-cases (remote.subscription_state == "SUBSCRIPTION_STATE_ACTIVE")) [
      | inr other ↦ absurd (ground arith)
      | inl running ↦ elim (Option-cases (select_primary_subscription_line_item remote)) [
        | inl missing ↦ absurd (ground arith)
        | inr (item, first) ↦ elim (Bool-cases (item.product_id == config.subscription_id)) [
          | inr mismatch ↦ absurd (ground arith)
          | inl product ↦
              let named = (eq_iff item.product_id config.subscription_id).0 product in
              let made : verified_purchase claim config token account_id at item ≡ p =
                ground arith in
              let ends : not_after item.expiry_time at ≡ false = ground arith in
              rw (← made) (
                record {
                  remote = remote;
                  item = item;
                  call = call;
                  running =
                      (eq_iff remote.subscription_state "SUBSCRIPTION_STATE_ACTIVE").0 running;
                  first = first;
                  product = named;
                  until = refl;
                  ahead = ends;
                  configured = refl;
                  subscription = named;
                },
                refl,
              )
        ]
      ]
    ]

module _ (trim : String → String) (now : Timestamp) (adapter : String → String → Remote)
    (claim : PurchaseClaim) (config : VerifyConfig) (p : Purchase) (ack : Option String) where
  allowed-config :
      claim_refusal claim config (trim claim.purchase_token) (trim claim.account_id) ≡ none
      → ((trim claim.purchase_token == "") ≡ false)
        × ((config.package_name == "") ≡ false)
        × ((config.subscription_id == "") ≡ false)
  unfolding claim_refusal
  allowed-config h = (ground arith, ground arith, ground arith)

  unanswered :
      (r : Remote)
      → claim_refusal claim config (trim claim.purchase_token) (trim claim.account_id) ≡ none
      → ((s : SubscriptionPurchase) → r ≢ answered s)
      → adapter config.package_name (trim claim.purchase_token) ≡ r
      → verify_google_play_purchase trim now adapter claim config ≢ verified p ack
  unfolding verify_google_play_purchase
  unanswered (answered s) allowed failed e h = failed s refl
  unanswered (publisher_error code status) allowed failed e h = ground arith
  unanswered other_error allowed failed e h = ground arith

  verify-parts :
      verify_google_play_purchase trim now adapter claim config ≡ verified p ack
      → IsBacked adapter config p
        × ((p.purchase_token == "") ≡ false)
        × ((config.package_name == "") ≡ false)
        × ((config.subscription_id == "") ≡ false)
  unfolding verify_google_play_purchase
  verify-parts h =
      elim (Option-cases
        (claim_refusal claim config (trim claim.purchase_token) (trim claim.account_id))) [
          | inr (reason, why) ↦ absurd (ground arith)
          | inl allowed ↦
              elim (Remote-cases (adapter config.package_name (trim claim.purchase_token))) [
                | inr failed ↦ absurd (
                    unanswered (adapter config.package_name (trim claim.purchase_token)) allowed
                      failed refl h)
                | inl (remote, call) ↦
                    let (backed, token) =
                      check-IsBacked adapter claim config (trim claim.purchase_token)
                        (trim claim.account_id) (or_else claim.effective_at now) remote p ack call
                        (ground arith) in
                    let (token_given, package_given, subscription_given) = allowed-config allowed in
                    (backed, (rw token token_given), package_given, subscription_given)
              ]
        ]

  -- A verified purchase is backed by the API's answer on its own token, and provisioning refuses it for
  -- none of its own fields: for an account that is not closed, with no link of the token and no
  -- entitlement, there is no reason for refusal if the expiry of the line item is not empty.
  pub verify-provision :
      (account : Account)
      → is_closed account ≡ false
      → (p.access_until.text == "") ≡ false
      → verify_google_play_purchase trim now adapter claim config ≡ verified p ack
      → IsBacked adapter config p × (provision_refusal account p none none ≡ none)
  unfolding provision_refusal
  verify-provision account not_closed dated h =
      let (backed, token, configured, subscription) = verify-parts h in
      let configured' : (p.package_name == "") ≡ false = rw backed.configured configured in
      let subscription' : (p.subscription_id == "") ≡ false = rw backed.subscription subscription in
      let ahead = backed.ahead in (backed, ground arith)
