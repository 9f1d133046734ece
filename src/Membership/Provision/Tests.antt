-- ===== src/Membership/Provision/Tests.antt =====
-- A purchase that is provisioned for an account without a membership.
use town_api.Common.{arith, false, none, some, ◌≡◌, ◌≢◌, refl, ◌⊎◌}
use town_api.Membership.Rows.{applied, Status, google_play, Entitlement, PurchaseLink}
use town_api.Membership.Store.{Store, ok}
use town_api.Membership.Repositories.{
  entitlement_of, lock_google_play_purchase_link_by_token, insert_google_play_purchase_link,
  link_violation,
}
use town_api.Membership.Invariant.{IsSound}
use town_api.Membership.Run.Laws.{store_after}
use town_api.Membership.Provision.{
  Purchase, ProvisionOutcome, to_transition_payload, provision, provision_new, provision_refusal,
  decide_purchase, accept_purchase, link_purchase, run_provision_in_transaction,
}
use town_api.Membership.Provision.Theorems.{Granted, provision-IsSound, provision-Granted}
use town_api.Membership.Retry.{provision_google_play_paid_pending_binding}
use town_api.Membership.Retry.Provisioning.{
  provision_google_play_paid_pending_binding-returns,
  provision_google_play_paid_pending_binding-IsSound,
}
use town_api.Membership.Tests.{
  no_links, stormy, stormy-IsFair, first_of_march, first_of_april, runtime, no_deps, new_town,
  new_town-IsSound, neighbour, other_member, activation_computes,
}

abbrev purchase : Purchase
purchase = record {
  source_event_id = "purchase-1";
  account_id = "member";
  effective_at = first_of_march;
  access_until = first_of_april;
  purchase_token = "token-1";
  package_name = "town.app";
  subscription_id = "membership";
}

provision-IsSound_example :
    IsSound no_links (store_after (run_provision_in_transaction runtime purchase no_deps new_town))
provision-IsSound_example = provision-IsSound runtime purchase no_deps new_town new_town-IsSound

abbrev provisioned_town : Store
provisioned_town = store_after (run_provision_in_transaction runtime purchase no_deps new_town)

abbrev pending_row : Entitlement
pending_row = record {
  id = "id-0";
  account_id = "member";
  status = Status.paid_pending_binding;
  access_until = some first_of_april;
  cancel_at_period_end = false;
  source = google_play;
  source_customer_id = none;
  source_subscription_id = none;
  activated_at = none;
  cancellation_requested_at = none;
  expired_at = none;
  created_at = first_of_march;
  updated_at = first_of_march;
  version = 1;
}

abbrev purchase_link : PurchaseLink
purchase_link = record {
  id = "id-1";
  account_id = "member";
  entitlement_id = "id-0";
  purchase_token = "token-1";
  package_name = "town.app";
  subscription_id = "membership";
  expiry_time = first_of_april;
  created_at = first_of_march;
  updated_at = first_of_march;
}

abbrev provisioned : ProvisionOutcome
provisioned = record {
  result = applied;
  entitlement = some pending_row;
  purchase_link = some purchase_link;
  reason = none;
}

purchase_runs :
    run_provision_in_transaction runtime purchase no_deps new_town ≡ ok provisioned provisioned_town
unfolding activation_computes run_provision_in_transaction to_transition_payload provision
    provision_new provision_refusal decide_purchase accept_purchase link_purchase
    lock_google_play_purchase_link_by_token insert_google_play_purchase_link link_violation
purchase_runs = refl

provision-Granted_example :
    (entitlement_of neighbour provisioned_town ≡ entitlement_of neighbour new_town)
    × (((provisioned.result ≡ applied) × Granted purchase new_town provisioned_town)
        ⊎ ((provisioned.result ≢ applied)
            × (provisioned_town.entitlements ≡ new_town.entitlements)
            × (provisioned_town.purchase_links ≡ new_town.purchase_links)))
provision-Granted_example =
    provision-Granted runtime purchase no_deps new_town neighbour new_town-IsSound other_member
      purchase_runs

provision_google_play_paid_pending_binding-returns_example :
    provision_google_play_paid_pending_binding stormy runtime purchase no_deps new_town
    ≡ ok provisioned provisioned_town
provision_google_play_paid_pending_binding-returns_example =
    provision_google_play_paid_pending_binding-returns stormy runtime purchase no_deps 1 new_town
      provisioned_town provisioned (omega arith) (refl, refl) purchase_runs

provision_google_play_paid_pending_binding-IsSound_example : IsSound no_links (
    store_after
      (provision_google_play_paid_pending_binding stormy runtime purchase no_deps new_town))
provision_google_play_paid_pending_binding-IsSound_example =
    provision_google_play_paid_pending_binding-IsSound stormy runtime purchase no_deps new_town
      stormy-IsFair new_town-IsSound
