-- ===== src/Membership/Provision.antt =====
-- membership/google-play/provision-paid-pending-binding.ts: a verified purchase becomes a membership
-- that waits for its community binding. The barrier that the tests pass in is left out.
pub mod Effect
pub mod Theorems
mod Tests
use town_api.Common.{
  String, Bool, true, false, not, ◌+◌, ◌||◌, Option, none, some, ◌==◌, if◌then◌else◌,
}
use town_api.Common.Time.{Timestamp, not_after}
use town_api.Membership.Rows.{
  Account, Status, EventType, EventResult, applied, replayed, rejected, Entitlement, SourceEvent,
  PurchaseLink, google_play, membership_event_replayed, membership_event_rejected,
  membership_paid_pending_binding_provisioned,
}
use town_api.Membership.Store.{
  Query, ok, throw, source_not_allowed, account_not_found, pure, ◌>>=◌, ◌>>◌, transaction, is_some,
  is_none,
}
use town_api.Membership.Audit.{draw}
use town_api.Membership.Repositories.{
  Mutation, lock_entitlement_by_account_id, lock_source_event_by_source_and_event_id,
  lock_google_play_purchase_link_by_token, insert_google_play_purchase_link,
}
use town_api.Membership.Transitions.Input.{Input, version_or_zero}
use town_api.Membership.Transitions.Active.{is_closed}
use town_api.Membership.Payload.{source_allowed}
use town_api.Membership.Run.{
  Runtime, Deps, Session, session, resolve_node_env, account_of, unchanged, changed, audit_if,
  record_event, write_entitlement, audit_creation,
}

-- `VerifiedGooglePlayPurchaseProvisionInput`.
pub record Purchase : Type 0 where
  pub source_event_id : String
  pub account_id : String
  pub effective_at : Timestamp
  pub access_until : Timestamp
  pub purchase_token : String
  pub package_name : String
  pub subscription_id : String

pub record ProvisionOutcome : Type 0 where
  pub result : EventResult
  pub entitlement : Option Entitlement
  pub purchase_link : Option PurchaseLink
  pub reason : Option String

unfoldable pub to_transition_payload : Purchase → Input
to_transition_payload p = record {
  source = google_play;
  source_event_id = p.source_event_id;
  event_type = EventType.provision_paid_pending_binding;
  account_id = p.account_id;
  effective_at = p.effective_at;
  source_customer_id = none;
  source_subscription_id = none;
  access_until = some (some p.access_until);
  cancel_at_period_end = none;
  google_play_package_name = some (some p.package_name);
  google_play_purchase_token = some (some p.purchase_token);
  google_play_subscription_id = some (some p.subscription_id);
}

unfoldable pub replay_provision :
    Session → Option Entitlement → Option PurchaseLink → Query ProvisionOutcome
replay_provision j e l = do
  audit_if j (some membership_event_replayed) (unchanged j e)
  pure (record { result = replayed; entitlement = e; purchase_link = l; reason = none })

unfoldable pub refuse_mismatch :
    Session → Option Entitlement → Option PurchaseLink → Query ProvisionOutcome
refuse_mismatch j e l = do
  audit_if j (some membership_event_rejected) (unchanged j e)
  pure (record {
    result = rejected;
    entitlement = e;
    purchase_link = l;
    reason = some "payload_hash_mismatch";
  })

unfoldable pub read_existing_provision_outcome :
    Session → Purchase → SourceEvent → Query ProvisionOutcome
unfolding lock_entitlement_by_account_id lock_google_play_purchase_link_by_token
read_existing_provision_outcome j p existing = do
  e ← lock_entitlement_by_account_id p.account_id
  l ← lock_google_play_purchase_link_by_token p.purchase_token
  if existing.payload_hash == j.payload_hash then replay_provision j e l else refuse_mismatch j e l

abbrev blocks_provision : Status → Bool
blocks_provision Status.inactive = false
blocks_provision Status.expired = false
blocks_provision _ = true

abbrev blocked : Option Entitlement → Bool
blocked none = false
blocked (some e) = blocks_provision e.status

-- The first reason for which a new purchase is refused, if any.
unfoldable pub provision_refusal :
    Account → Purchase → Option PurchaseLink → Option Entitlement → Option String
provision_refusal account p link entitlement =
    if is_closed account
    then some "account_closed"
    else if p.purchase_token == ""
    then some "purchase_token_required"
    else if p.package_name == ""
    then some "package_name_required"
    else if p.subscription_id == ""
    then some "subscription_id_required"
    else if p.access_until.text == ""
    then some "access_until_required"
    else if not_after p.access_until p.effective_at
    then some "access_until_must_exceed_effective_at"
    else if is_some link
    then some "purchase_token_already_correlated"
    else if blocked entitlement
    then some "invalid_status_for_provision_paid_pending_binding"
    else none

-- The closure `reject`.
unfoldable pub reject_purchase :
    Session → Option Entitlement → Option PurchaseLink → String → Query ProvisionOutcome
reject_purchase j e l reason = do
  record_event j rejected
  audit_if j (some membership_event_rejected) (unchanged j e)
  pure (record { result = rejected; entitlement = e; purchase_link = l; reason = some reason })

abbrev pub provision_mutation : Purchase → Option Entitlement → Mutation
provision_mutation p entitlement = record {
  status = Status.paid_pending_binding;
  access_until = some p.access_until;
  cancel_at_period_end = false;
  source = google_play;
  source_customer_id = none;
  source_subscription_id = none;
  activated_at = none;
  cancellation_requested_at = none;
  expired_at = none;
  version = version_or_zero entitlement + 1;
}

unfoldable pub link_purchase : Session → Purchase → Entitlement → Query PurchaseLink
link_purchase j p e = do
  id ← draw j.supply
  insert_google_play_purchase_link (record {
    id = id;
    account_id = p.account_id;
    entitlement_id = e.id;
    purchase_token = p.purchase_token;
    package_name = p.package_name;
    subscription_id = p.subscription_id;
    expiry_time = p.access_until;
    created_at = j.processed_at;
    updated_at = j.processed_at;
  })

unfoldable pub accept_purchase : Session → Purchase → Option Entitlement → Query ProvisionOutcome
accept_purchase j p entitlement = do
  e ← write_entitlement j entitlement (provision_mutation p entitlement)
  l ← link_purchase j p e
  record_event j applied
  audit_creation j (is_none entitlement) (changed j entitlement e)
  audit_if j (some membership_paid_pending_binding_provisioned) (changed j entitlement e)
  pure (record { result = applied; entitlement = some e; purchase_link = some l; reason = none })

unfoldable pub decide_purchase :
    Session
    → Purchase
    → Option Entitlement
    → Option PurchaseLink
    → Option String
    → Query ProvisionOutcome
decide_purchase j p e l (some reason) = reject_purchase j e l reason
decide_purchase j p e l none = accept_purchase j p e

unfoldable pub provision_new : Session → Purchase → Query ProvisionOutcome
unfolding lock_entitlement_by_account_id lock_google_play_purchase_link_by_token
provision_new j p s = elim (account_of p.account_id s) [
  | none ↦ throw account_not_found s
  | some account ↦
      (do
        e ← lock_entitlement_by_account_id p.account_id
        l ← lock_google_play_purchase_link_by_token p.purchase_token
        decide_purchase j p e l (provision_refusal account p l e))
        s
]

-- The body of the transaction.
unfoldable pub provision : Session → Purchase → Query ProvisionOutcome
unfolding lock_source_event_by_source_and_event_id
provision j p = do
  existing ← lock_source_event_by_source_and_event_id google_play p.source_event_id
  elim existing [
    | some event ↦ read_existing_provision_outcome j p event
    | none ↦ provision_new j p
  ]

unfoldable pub run_provision_in_transaction : Runtime → Purchase → Deps → Query ProvisionOutcome
unfolding resolve_node_env session to_transition_payload
run_provision_in_transaction rt p d s =
    if not (source_allowed google_play (resolve_node_env rt d))
    then throw source_not_allowed s
    else transaction (provision (session rt (to_transition_payload p) d) p) s
