-- ===== src/Membership/Repositories.antt =====
-- membership/repositories: the queries on entitlements, source events and purchase links. A lock
-- (`FOR UPDATE`) reads as the plain query does: a transaction here runs alone, and what other
-- sessions commit comes between transactions (Membership/Retry).
use town_api.Common.{ℕ, String, Bool, not, ◌&&◌, Option, none, some, [], ◌∷◌, ◌++◌, ◌==◌}
use town_api.Common.Tables.{find?, any, update_where}
use town_api.Common.Time.{Timestamp, not_after}
use town_api.Membership.Rows.{Status, Source, Entitlement, SourceEvent, PurchaseLink, same_source}
use town_api.Membership.Store.{
  Store, Constraint, entitlements_pkey, entitlements_account_id_fkey,
  entitlements_account_id_unique, entitlements_stripe_subscription_unique, source_events_pkey,
  source_events_account_id_fkey, source_events_source_event_unique, links_pkey,
  links_account_id_fkey, links_entitlement_id_fkey, links_purchase_token_unique,
  links_updated_after_created, links_purchase_token_nonempty, links_package_name_nonempty,
  links_subscription_id_nonempty, violates, failed, Query, ok, throw, first_violation,
  entitlement_checks, subscription_free,
}

abbrev pub entitlement_of : String → Store → Option Entitlement
entitlement_of account_id s = find? (λ e. e.account_id == account_id) s.entitlements

unfoldable pub find_entitlement_by_account_id : String → Query (Option Entitlement)
find_entitlement_by_account_id account_id s = ok (entitlement_of account_id s) s

unfoldable pub lock_entitlement_by_account_id : String → Query (Option Entitlement)
lock_entitlement_by_account_id account_id s = ok (entitlement_of account_id s) s

unfoldable pub account_exists : String → Store → Bool
account_exists account_id s = any (λ a. a.id == account_id) s.accounts

unfoldable pub insert_violation : Entitlement → Store → Option Constraint
unfolding account_exists
insert_violation e s = first_violation (
    entitlement_checks e
    ++ ((not (any (λ r. r.id == e.id) s.entitlements), entitlements_pkey)
        ∷ (
          not (any (λ r. r.account_id == e.account_id) s.entitlements),
          entitlements_account_id_unique,
        )
        ∷ (subscription_free e s.entitlements, entitlements_stripe_subscription_unique)
        ∷ (account_exists e.account_id s, entitlements_account_id_fkey)
        ∷ []))

unfoldable pub insert_membership_entitlement : Entitlement → Query Entitlement
insert_membership_entitlement e s = elim (insert_violation e s) [
  | some c ↦ throw (violates c) s
  | none ↦ ok e (record s { entitlements = e ∷ s.entitlements })
]

-- The columns that a transition writes.
pub record Mutation : Type 0 where
  pub status : Status
  pub access_until : Option Timestamp
  pub cancel_at_period_end : Bool
  pub source : Source
  pub source_customer_id : Option String
  pub source_subscription_id : Option String
  pub activated_at : Option Timestamp
  pub cancellation_requested_at : Option Timestamp
  pub expired_at : Option Timestamp
  pub version : ℕ

-- The row after `SET`.
unfoldable pub rewritten : Mutation → Timestamp → Entitlement → Entitlement
rewritten m updated_at e = record e {
  status = m.status;
  access_until = m.access_until;
  cancel_at_period_end = m.cancel_at_period_end;
  source = m.source;
  source_customer_id = m.source_customer_id;
  source_subscription_id = m.source_subscription_id;
  activated_at = m.activated_at;
  cancellation_requested_at = m.cancellation_requested_at;
  expired_at = m.expired_at;
  updated_at = updated_at;
  version = m.version;
}

unfoldable pub update_violation : Entitlement → Store → Option Constraint
update_violation e s = first_violation (
    entitlement_checks e
    ++ ((subscription_free e s.entitlements, entitlements_stripe_subscription_unique) ∷ []))

unfoldable pub update_membership_entitlement : String → Mutation → Timestamp → Query Entitlement
update_membership_entitlement id m updated_at s = elim (find? (λ r. r.id == id) s.entitlements) [
  | none ↦ throw (failed "Failed to update membership entitlement") s
  | some row ↦ elim (update_violation (rewritten m updated_at row) s) [
    | some c ↦ throw (violates c) s
    | none ↦ ok (rewritten m updated_at row) (record s {
      entitlements = update_where (λ r. r.id == id) (rewritten m updated_at) s.entitlements;
    })
  ]
]

abbrev pub is_event : Source → String → SourceEvent → Bool
is_event source source_event_id e =
    same_source e.source source && e.source_event_id == source_event_id

abbrev pub event_of : Source → String → Store → Option SourceEvent
event_of source source_event_id s = find? (is_event source source_event_id) s.source_events

unfoldable pub lock_source_event_by_source_and_event_id :
    Source → String → Query (Option SourceEvent)
lock_source_event_by_source_and_event_id source source_event_id s =
    ok (event_of source source_event_id s) s

-- The payload hash is a SHA-256 hex digest of 64 characters, so its length check is left out.
unfoldable pub source_event_violation : SourceEvent → Store → Option Constraint
unfolding account_exists
source_event_violation e s = first_violation (
    (not (any (λ r. r.id == e.id) s.source_events), source_events_pkey)
    ∷ (
      not (any (is_event e.source e.source_event_id) s.source_events),
      source_events_source_event_unique,
    )
    ∷ (account_exists e.account_id s, source_events_account_id_fkey)
    ∷ [])

unfoldable pub insert_membership_source_event : SourceEvent → Query SourceEvent
insert_membership_source_event e s = elim (source_event_violation e s) [
  | some c ↦ throw (violates c) s
  | none ↦ ok e (record s { source_events = e ∷ s.source_events })
]

abbrev pub link_of : String → Store → Option PurchaseLink
link_of purchase_token s = find? (λ l. l.purchase_token == purchase_token) s.purchase_links

unfoldable pub find_google_play_purchase_link_by_token : String → Query (Option PurchaseLink)
find_google_play_purchase_link_by_token purchase_token s = ok (link_of purchase_token s) s

unfoldable pub lock_google_play_purchase_link_by_token : String → Query (Option PurchaseLink)
lock_google_play_purchase_link_by_token purchase_token s = ok (link_of purchase_token s) s

unfoldable pub link_violation : PurchaseLink → Store → Option Constraint
unfolding account_exists
link_violation l s = first_violation (
    (not_after l.created_at l.updated_at, links_updated_after_created)
    ∷ (not (l.purchase_token == ""), links_purchase_token_nonempty)
    ∷ (not (l.package_name == ""), links_package_name_nonempty)
    ∷ (not (l.subscription_id == ""), links_subscription_id_nonempty)
    ∷ (not (any (λ r. r.id == l.id) s.purchase_links), links_pkey)
    ∷ (
      not (any (λ r. r.purchase_token == l.purchase_token) s.purchase_links),
      links_purchase_token_unique,
    )
    ∷ (account_exists l.account_id s, links_account_id_fkey)
    ∷ (any (λ e. e.id == l.entitlement_id) s.entitlements, links_entitlement_id_fkey)
    ∷ [])

unfoldable pub insert_google_play_purchase_link : PurchaseLink → Query PurchaseLink
insert_google_play_purchase_link l s = elim (link_violation l s) [
  | some c ↦ throw (violates c) s
  | none ↦ ok l (record s { purchase_links = l ∷ s.purchase_links })
]
