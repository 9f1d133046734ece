-- ===== src/Membership/Access/Tests.antt =====
-- A member with access until April who takes part in March, as an owner of nothing.
use town_api.Common.{true, none, some, ◌≡◌, ◌↔◌, refl}
use town_api.Membership.Access.{
  AccessInput, Actor, eligible, participant, visitor, community_commitment_version,
  default_local_eligibility, evaluate_civic_access,
}
use town_api.Membership.Access.Laws.{
  Participates, IsVerifiedIn, evaluate_civic_access_iff, evaluate_civic_access-level,
  default_local_eligibility_iff,
}
use town_api.Membership.Tests.{first_of_march, activated_row, member}

abbrev neighbourhood_actor : Actor
neighbourhood_actor = record {
  id = "actor-1";
  account_id = some "member";
  community_id = some "madrid";
  local_eligibility_verified_at = some first_of_march;
  community_commitment_accepted_at = some first_of_march;
  community_commitment_version = some community_commitment_version;
}

abbrev request : AccessInput
request = record {
  session = some "member";
  account = some member;
  entitlement = some activated_row;
  actor = some neighbourhood_actor;
  community_id = some "madrid";
  local_eligibility = eligible;
  now = first_of_march;
}

evaluate_civic_access_iff_example :
    ((evaluate_civic_access request).can_participate ≡ true) ↔ Participates request
evaluate_civic_access_iff_example = evaluate_civic_access_iff request

evaluate_civic_access-level_example :
    let v = evaluate_civic_access request in
    ((v.can_participate ≡ true) ↔ (v.level ≡ participant))
    × ((v.can_participate ≡ true) ↔ (v.denial_reason ≡ none))
    × ((v.level ≡ visitor) ↔ (request.session ≡ none))
    × (v.local_eligibility ≡ request.local_eligibility)
evaluate_civic_access-level_example = evaluate_civic_access-level request

request_passes : (evaluate_civic_access request).can_participate ≡ true
unfolding evaluate_civic_access
request_passes = refl

default_local_eligibility_iff_example :
    (default_local_eligibility true (some neighbourhood_actor) "madrid" ≡ eligible)
    ↔ ((true ≡ true) × IsVerifiedIn "madrid" (some neighbourhood_actor))
default_local_eligibility_iff_example =
    default_local_eligibility_iff true (some neighbourhood_actor) "madrid"
