-- ===== src/Membership/Binding.antt =====
-- membership/bind-service.ts and finalize-after-community-bind.ts: a civic actor is bound to its
-- community, and a paid membership that waits for the binding becomes active.
pub mod Laws
pub mod Finalize
mod Tests
use Prim.Native.String.{◌++◌}
use town_api.Common.{
  String, Bool, true, false, not, ◌&&◌, ◌||◌, Option, none, some, List, ◌==◌, if◌then◌else◌,
}
use town_api.Common.Tables.{find?, update_where}
use town_api.Common.Time.{Timestamp, given}
use town_api.Membership.Rows.{Account, Status, EventType, Entitlement}
use town_api.Membership.Store.{Query, pure, ◌>>=◌, is_none}
use town_api.Membership.Repositories.{find_entitlement_by_account_id}
use town_api.Membership.Transitions.Input.{Input}
use town_api.Membership.Operations.{finalize_paid_pending_binding_membership}
use town_api.Membership.Run.{Runtime, Deps, TransitionOutcome}
use town_api.Membership.Retry.{Sky, membership_operation}
use town_api.Membership.Access.{Actor, LocalEligibility, eligible, is_text}

pub data ActorKind : Type 0 where
  controlled_test civic : ActorKind

-- `town.actors`; the status of a row is always active.
pub record ActorRow : Type 0 where
  pub actor : Actor
  pub kind : ActorKind
  pub updated_at : Timestamp

abbrev is_civic : ActorKind → Bool
is_civic civic = true
is_civic controlled_test = false

abbrev pub is_actor_of : String → ActorRow → Bool
is_actor_of account_id r = is_text r.actor.account_id account_id && is_civic r.kind

abbrev pub find_active_civic_actor_by_account_id : String → List ActorRow → Option ActorRow
find_active_civic_actor_by_account_id account_id rows = find? (is_actor_of account_id) rows

pub record Community : Type 0 where
  pub id : String
  pub slug : String
  pub display_name : String

pub record BindInput : Type 0 where
  pub account_id : String
  pub community : Community
  pub now : Timestamp

pub record BindResult : Type 0 where
  pub slug : String
  pub display_name : String
  pub verified_at : String
  pub local_eligibility : LocalEligibility

pub data BindError : Type 0 where
  account_not_found civic_actor_not_linked local_eligibility_persist_failed : BindError
  local_eligibility_binding_incomplete local_eligibility_already_bound actor_not_found : BindError

-- An error is thrown inside the caller's transaction, which rolls the actors back.
pub data BindOutcome : Type 0 where
  bound : BindResult → List ActorRow → BindOutcome
  refused : BindError → BindOutcome

-- The columns that the binding sets.
abbrev pub bind_row : String → Timestamp → ActorRow → ActorRow
bind_row community_id now r = record r {
  actor = record r.actor {
    community_id = some community_id;
    local_eligibility_verified_at = some now;
  };
  updated_at = now;
}

abbrev pub has_id : String → ActorRow → Bool
has_id actor_id r = r.actor.id == actor_id

unfoldable pub bind_actor_local_eligibility :
    String → String → Timestamp → List ActorRow → Option (ActorRow × List ActorRow)
bind_actor_local_eligibility actor_id community_id now rows = elim (find? (has_id actor_id) rows) [
  | none ↦ none
  | some r ↦
      some (
        bind_row community_id now r,
        update_where (has_id actor_id) (bind_row community_id now) rows,
      )
]

-- `toIsoTimestamp`, through `Date`, is a parameter.
module _ (to_iso_timestamp : Timestamp → String) where
  abbrev pub bind_result : Community → Timestamp → BindResult
  bind_result c verified_at = record {
    slug = c.slug;
    display_name = c.display_name;
    verified_at = to_iso_timestamp verified_at;
    local_eligibility = eligible;
  }

  abbrev persisted : Community → Option (ActorRow × List ActorRow) → BindOutcome
  persisted c none = refused actor_not_found
  persisted c (some (updated, rows)) = elim updated.actor.local_eligibility_verified_at [
    | none ↦ refused local_eligibility_persist_failed
    | some verified_at ↦ bound (bind_result c verified_at) rows
  ]

  -- The branches that write.
  unfoldable pub bind_now : BindInput → ActorRow → List ActorRow → BindOutcome
  unfolding bind_actor_local_eligibility
  bind_now i r rows =
      persisted i.community (bind_actor_local_eligibility r.actor.id i.community.id i.now rows)

  -- The branch of an actor that is bound to this community already.
  unfoldable pub keep_binding : BindInput → ActorRow → List ActorRow → BindOutcome
  keep_binding i r rows = elim r.actor.local_eligibility_verified_at [
    | none ↦ refused local_eligibility_binding_incomplete
    | some verified_at ↦ bound (bind_result i.community verified_at) rows
  ]

  unfoldable pub bind_actor : BindInput → Account → ActorRow → List ActorRow → BindOutcome
  unfolding bind_now keep_binding
  bind_actor i locked r rows = elim r.actor.community_id [
    | none ↦ bind_now i r rows
    | some community_id ↦
        if community_id == i.community.id
        then keep_binding i r rows
        else if locked.is_owner
        then bind_now i r rows
        else refused local_eligibility_already_bound
  ]

  unfoldable pub bind_local_eligibility_in_transaction :
      List Account → BindInput → List ActorRow → BindOutcome
  unfolding bind_actor
  bind_local_eligibility_in_transaction accounts i rows =
      elim (find? (λ a. a.id == i.account_id) accounts) [
        | none ↦ refused account_not_found
        | some locked ↦ elim (find_active_civic_actor_by_account_id i.account_id rows) [
          | none ↦ refused civic_actor_not_linked
          | some r ↦ bind_actor i locked r rows
        ]
      ]

pub record FinalizeInput : Type 0 where
  pub account_id : String
  pub community_id : String
  pub effective_at : Timestamp

pub data SkipReason : Type 0 where
  community_binding_preconditions_unmet not_paid_pending_binding entitlement_missing : SkipReason

pub data FinalizeOutcome : Type 0 where
  skipped : SkipReason → Option Entitlement → FinalizeOutcome
  transitioned : TransitionOutcome → FinalizeOutcome

-- `actor?.communityId !== communityId || actor.localEligibilityVerifiedAt === null`.
abbrev pub preconditions_unmet : Option ActorRow → String → Bool
preconditions_unmet none community_id = true
preconditions_unmet (some r) community_id =
    not (is_text r.actor.community_id community_id) || is_none r.actor.local_eligibility_verified_at

abbrev pub waits : Status → Bool
waits Status.paid_pending_binding = true
waits _ = false

-- The event that finalizes the membership.
unfoldable pub finalize_input : FinalizeInput → Entitlement → Timestamp → Input
finalize_input f e access_until = record {
  source = e.source;
  source_event_id = "finalize_paid_pending_binding:" ++ f.account_id ++ ":" ++ f.community_id;
  event_type = EventType.finalize_paid_pending_binding;
  account_id = f.account_id;
  effective_at = f.effective_at;
  source_customer_id = some e.source_customer_id;
  source_subscription_id = some e.source_subscription_id;
  access_until = some (some access_until);
  cancel_at_period_end = none;
  google_play_package_name = none;
  google_play_purchase_token = none;
  google_play_subscription_id = none;
}

module _ (sky : Sky) (rt : Runtime) (d : Deps) where
  unfoldable pub finalize_entitlement : FinalizeInput → Option Entitlement → Query FinalizeOutcome
  unfolding finalize_input
  finalize_entitlement f none = pure (skipped entitlement_missing none)
  finalize_entitlement f (some e) =
      if not (waits e.status)
      then pure (skipped not_paid_pending_binding (some e))
      else elim (given e.access_until) [
        | none ↦ pure (skipped not_paid_pending_binding (some e))
        | some access_until ↦ (do
          outcome ←
              membership_operation finalize_paid_pending_binding_membership sky rt
                (finalize_input f e access_until) d
          pure (transitioned outcome))
      ]

  unfoldable pub maybe_finalize_paid_pending_binding_after_community_bind :
      FinalizeInput → List ActorRow → Query FinalizeOutcome
  unfolding find_entitlement_by_account_id finalize_entitlement
  maybe_finalize_paid_pending_binding_after_community_bind f actors =
      if preconditions_unmet (find_active_civic_actor_by_account_id f.account_id actors)
        f.community_id
      then pure (skipped community_binding_preconditions_unmet none)
      else (do e ← find_entitlement_by_account_id f.account_id; finalize_entitlement f e)
