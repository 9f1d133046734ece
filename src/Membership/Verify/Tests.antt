-- ===== src/Membership/Verify/Tests.antt =====
-- A token that the API knows, and that provisioning then accepts.
use town_api.Common.{String, true, none, some, [], ◌∷◌, ◌≡◌, refl}
use town_api.Membership.Provision.{Purchase, provision_refusal}
use town_api.Membership.Verify.{
  PurchaseClaim, VerifyConfig, SubscriptionPurchase, Remote, answered, verified, claim_refusal,
  check_subscription, verify_google_play_purchase,
}
use town_api.Membership.Verify.Laws.{IsBacked, verify-provision}
use town_api.Membership.Tests.{first_of_march, first_of_april, member}

abbrev claim : PurchaseClaim
claim = record {
  account_id = "member";
  purchase_token = "token-1";
  claimed_package_name = none;
  claimed_subscription_id = some "membership";
  effective_at = none;
  source_event_id = none;
}

abbrev config : VerifyConfig
config = record { enabled = true; package_name = "town.app"; subscription_id = "membership" }

abbrev subscription_answer : SubscriptionPurchase
subscription_answer = record {
  subscription_state = "SUBSCRIPTION_STATE_ACTIVE";
  line_items = record { product_id = "membership"; expiry_time = first_of_april } ∷ [];
  acknowledgement_state = none;
}

-- The API of this test knows every token.
abbrev adapter : String → String → Remote
adapter package_name purchase_token = answered subscription_answer

-- These texts have no surrounding white space.
abbrev trim : String → String
trim s = s

abbrev verified_claim : Purchase
verified_claim = record {
  source_event_id = "google_play:subscriptionsv2:token-1";
  account_id = "member";
  effective_at = first_of_march;
  access_until = first_of_april;
  purchase_token = "token-1";
  package_name = "town.app";
  subscription_id = "membership";
}

claim_verifies :
    verify_google_play_purchase trim first_of_march adapter claim config
    ≡ verified verified_claim none
unfolding verify_google_play_purchase claim_refusal check_subscription
claim_verifies = refl

verify-provision_example :
    IsBacked adapter config verified_claim
    × (provision_refusal member verified_claim none none ≡ none)
verify-provision_example =
    verify-provision trim first_of_march adapter claim config verified_claim none member refl refl
      claim_verifies
