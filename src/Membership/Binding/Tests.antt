-- ===== src/Membership/Binding/Tests.antt =====
-- A member without a community binds to one, and a neighbour who has one keeps it.
use town_api.Common.{String, true, false, none, some, List, [], ◌∷◌, ◌≡◌, ◌≢◌, refl, ◌⊎◌}
use town_api.Common.Time.{Timestamp}
use town_api.Membership.Rows.{Account, AccountStatus, Entitlement, Status}
use town_api.Membership.Store.{ok}
use town_api.Membership.Repositories.{entitlement_of}
use town_api.Membership.Access.{Actor, eligible, default_local_eligibility}
use town_api.Membership.Binding.{
  civic, ActorRow, Community, BindInput, bound, bind_actor_local_eligibility, bind_row, bind_result,
  bind_now, keep_binding, bind_actor, bind_local_eligibility_in_transaction, FinalizeInput,
  FinalizeOutcome, maybe_finalize_paid_pending_binding_after_community_bind,
}
use town_api.Membership.Binding.Laws.{actor_of, bind-eligible, bind-set_once}
use town_api.Membership.Binding.Finalize.{maybe_finalize-skips}
use town_api.Membership.Tests.{
  first_of_march, first_of_april, runtime, no_deps, member, neighbour, other_member, activated_town,
  stormy,
}

abbrev madrid : Community
madrid = record { id = "madrid"; slug = "madrid"; display_name = "Madrid" }

abbrev unbound_actor : ActorRow
unbound_actor = record {
  actor = record {
    id = "actor-1";
    account_id = some "member";
    community_id = none;
    local_eligibility_verified_at = none;
    community_commitment_accepted_at = none;
    community_commitment_version = none;
  };
  kind = civic;
  updated_at = first_of_march;
}

abbrev settled_actor : ActorRow
settled_actor = record {
  actor = record {
    id = "actor-2";
    account_id = some "neighbour";
    community_id = some "madrid";
    local_eligibility_verified_at = some first_of_march;
    community_commitment_accepted_at = none;
    community_commitment_version = none;
  };
  kind = civic;
  updated_at = first_of_march;
}

abbrev actors : List ActorRow
actors = unbound_actor ∷ settled_actor ∷ []

abbrev accounts : List Account
accounts =
    member ∷ record { id = "neighbour"; status = AccountStatus.active; is_owner = false } ∷ []

abbrev text_of : Timestamp → String
text_of t = t.text

abbrev choice : BindInput
choice = record { account_id = "member"; community = madrid; now = first_of_april }

choice_binds :
    bind_local_eligibility_in_transaction text_of accounts choice actors
    ≡ bound
        (bind_result text_of madrid first_of_april)
        (bind_row "madrid" first_of_april unbound_actor ∷ settled_actor ∷ [])
unfolding bind_local_eligibility_in_transaction bind_actor bind_now bind_actor_local_eligibility
choice_binds = refl

bind-eligible_example :
    (default_local_eligibility true
        (actor_of "member" (bind_row "madrid" first_of_april unbound_actor ∷ settled_actor ∷ []))
        "madrid"
      ≡ eligible)
    × (actor_of neighbour (bind_row "madrid" first_of_april unbound_actor ∷ settled_actor ∷ [])
        ≡ actor_of neighbour actors)
bind-eligible_example =
    bind-eligible text_of accounts choice actors
      (bind_row "madrid" first_of_april unbound_actor ∷ settled_actor ∷ [])
      (bind_result text_of madrid first_of_april) true neighbour (refl, (refl, tt)) other_member
      choice_binds

abbrev again : BindInput
again = record { account_id = "neighbour"; community = madrid; now = first_of_april }

again_binds :
    bind_local_eligibility_in_transaction text_of accounts again actors
    ≡ bound (bind_result text_of madrid first_of_march) actors
unfolding bind_local_eligibility_in_transaction bind_actor keep_binding
again_binds = refl

bind-set_once_example : (madrid.id ≡ "madrid") × (actors ≡ actors)
bind-set_once_example =
    bind-set_once text_of accounts again actors actors (bind_result text_of madrid first_of_march)
      (record { id = "neighbour"; status = AccountStatus.active; is_owner = false }) settled_actor
      "madrid" refl refl refl refl again_binds

abbrev bind_step : FinalizeInput
bind_step = record {
  account_id = "neighbour";
  community_id = "madrid";
  effective_at = first_of_april;
}

maybe_finalize-skips_example :
    (((a : Actor) × (actor_of "neighbour" actors ≡ some a)
        × (a.community_id ≡ some "madrid")
        × (a.local_eligibility_verified_at ≢ none))
      × ((e : Entitlement) × (entitlement_of "neighbour" activated_town ≡ some e)
          × (e.status ≡ Status.paid_pending_binding)))
    ⊎ ((o : FinalizeOutcome) × (maybe_finalize_paid_pending_binding_after_community_bind stormy
            runtime no_deps bind_step actors activated_town
          ≡ ok o activated_town))
maybe_finalize-skips_example =
    maybe_finalize-skips stormy runtime no_deps bind_step actors activated_town
