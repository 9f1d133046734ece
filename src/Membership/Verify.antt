-- ===== src/Membership/Verify.antt =====
-- membership/google-play/verify-purchase.ts: a purchase token that a client sends becomes a verified
-- purchase only through the answer of the Android Publisher API, which is a parameter, as are
-- `String.prototype.trim` and the clock.
pub mod Laws
mod Tests
use Prim.Native.String.{◌++◌}
use town_api.Common.{
  ℕ, String, Bool, true, false, not, ◌&&◌, Option, none, some, List, [], ◌∷◌, ◌==◌, nat_eq,
  if◌then◌else◌, or_else,
}
use town_api.Common.Time.{Timestamp, not_after}
use town_api.Membership.Provision.{Purchase}

pub record PurchaseClaim : Type 0 where
  pub account_id : String
  pub purchase_token : String
  pub claimed_package_name : Option String
  pub claimed_subscription_id : Option String
  pub effective_at : Option Timestamp
  pub source_event_id : Option String

pub record VerifyConfig : Type 0 where
  pub enabled : Bool
  pub package_name : String
  pub subscription_id : String

pub record LineItem : Type 0 where
  pub product_id : String
  pub expiry_time : Timestamp

pub record SubscriptionPurchase : Type 0 where
  pub subscription_state : String
  pub line_items : List LineItem
  pub acknowledgement_state : Option String

-- What a call of the API comes to: a subscription, the adapter's own error, or another error.
pub data Remote : Type 0 where
  answered : SubscriptionPurchase → Remote
  publisher_error : String → Option ℕ → Remote
  other_error : Remote

pub data VerifyResult : Type 0 where
  verified : Purchase → Option String → VerifyResult
  refused : String → VerifyResult

abbrev subscription_state_active : String
subscription_state_active = "SUBSCRIPTION_STATE_ACTIVE"

abbrev pub select_primary_subscription_line_item : SubscriptionPurchase → Option LineItem
select_primary_subscription_line_item p = elim p.line_items [ [] ↦ none | item ∷ items ↦ some item ]

abbrev is_status : Option ℕ → ℕ → Bool
is_status none n = false
is_status (some k) n = nat_eq k n

abbrev transport_refusal : String → Option ℕ → String
transport_refusal code http_status =
    if code == "GOOGLE_PLAY_HTTP_ERROR" && is_status http_status 404
    then "purchase_not_found"
    else "google_play_verification_transport_failed"

-- A claim that is made differs from the configured text.
abbrev contradicts : Option String → String → Bool
contradicts none configured = false
contradicts (some claimed) configured = not (claimed == configured)

abbrev pub build_source_event_id : String → String
build_source_event_id purchase_token = "google_play:subscriptionsv2:" ++ purchase_token

-- The first reason to refuse before the API is called, if any.
unfoldable pub claim_refusal : PurchaseClaim → VerifyConfig → String → String → Option String
claim_refusal claim config purchase_token account_id =
    if not config.enabled
    then some "google_play_billing_disabled"
    else if purchase_token == ""
    then some "purchase_token_required"
    else if account_id == ""
    then some "account_id_required"
    else if config.package_name == ""
    then some "google_play_package_name_unconfigured"
    else if config.subscription_id == ""
    then some "google_play_subscription_id_unconfigured"
    else if contradicts claim.claimed_package_name config.package_name
    then some "package_name_mismatch"
    else if contradicts claim.claimed_subscription_id config.subscription_id
    then some "subscription_id_claim_mismatch"
    else none

abbrev pub verified_purchase :
    PurchaseClaim → VerifyConfig → String → String → Timestamp → LineItem → Purchase
verified_purchase claim config purchase_token account_id effective_at item = record {
  source_event_id = or_else claim.source_event_id (build_source_event_id purchase_token);
  account_id = account_id;
  effective_at = effective_at;
  access_until = item.expiry_time;
  purchase_token = purchase_token;
  package_name = config.package_name;
  subscription_id = item.product_id;
}

unfoldable pub check_subscription :
    PurchaseClaim → VerifyConfig → String → String → Timestamp → SubscriptionPurchase → VerifyResult
check_subscription claim config purchase_token account_id effective_at remote =
    if not (remote.subscription_state == subscription_state_active)
    then refused "subscription_not_active"
    else elim (select_primary_subscription_line_item remote) [
      | none ↦ refused "subscription_line_items_missing"
      | some item ↦
          if not (item.product_id == config.subscription_id)
          then refused "subscription_product_id_mismatch"
          else if not_after item.expiry_time effective_at
          then refused "subscription_expired"
          else verified (verified_purchase claim config purchase_token account_id effective_at item)
              remote.acknowledgement_state
    ]

module _ (trim : String → String) (now : Timestamp) (adapter : String → String → Remote) where
  unfoldable pub verify_google_play_purchase : PurchaseClaim → VerifyConfig → VerifyResult
  unfolding claim_refusal check_subscription
  verify_google_play_purchase claim config =
      elim (claim_refusal claim config (trim claim.purchase_token) (trim claim.account_id)) [
        | some reason ↦ refused reason
        | none ↦ elim (adapter config.package_name (trim claim.purchase_token)) [
          | other_error ↦ refused "google_play_verification_transport_failed"
          | publisher_error code http_status ↦ refused (transport_refusal code http_status)
          | answered remote ↦
              check_subscription claim config (trim claim.purchase_token) (trim claim.account_id)
                (or_else claim.effective_at now) remote
        ]
      ]
