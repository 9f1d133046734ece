-- ===== src/Membership/Access.antt =====
-- membership/civic-access.ts, community-commitment.ts and local-eligibility.ts: who may take part.
pub mod Laws
mod Tests
use town_api.Common.{
  String, Bool, true, false, not, ◌&&◌, ◌||◌, Option, none, some, ◌==◌, if◌then◌else◌,
}
use town_api.Common.Time.{Timestamp, before, not_after, given}
use town_api.Membership.Rows.{
  Account, AccountStatus, Status, inactive, active, cancelling, paid_pending_binding, suspended,
  Entitlement,
}

pub data CivicAccessLevel : Type 0 where
  visitor read_only participant : CivicAccessLevel

pub data LocalEligibility : Type 0 where
  eligible not_verified expired mismatched_community unavailable : LocalEligibility

pub data DenialReason : Type 0 where
  no_session inactive_account no_entitlement inactive_membership expired_membership : DenialReason
  elapsed_access_until community_commitment_missing actor_missing : DenialReason
  local_not_verified local_expired local_mismatched_community local_unavailable : DenialReason
  actor_account_mismatch actor_community_mismatch community_mismatch : DenialReason

pub record Evaluation : Type 0 where
  pub level : CivicAccessLevel
  pub can_participate : Bool
  pub local_eligibility : LocalEligibility
  pub denial_reason : Option DenialReason

-- The columns of an actor that access reads.
pub record Actor : Type 0 where
  pub id : String
  pub account_id : Option String
  pub community_id : Option String
  pub local_eligibility_verified_at : Option Timestamp
  pub community_commitment_accepted_at : Option Timestamp
  pub community_commitment_version : Option String

abbrev pub is_given : {A : Type 0} → Option A → Bool
is_given none = false
is_given (some _) = true

-- `o === t`.
abbrev pub is_text : Option String → String → Bool
is_text none t = false
is_text (some s) t = s == t

abbrev pub community_commitment_version : String
community_commitment_version = "community-commitment-v1"

unfoldable pub has_valid_community_commitment : Option Actor → Bool
has_valid_community_commitment none = false
has_valid_community_commitment (some a) =
    is_given a.community_id
    && is_given a.community_commitment_accepted_at
    && is_text a.community_commitment_version community_commitment_version

unfoldable pub is_membership_temporally_valid : Option Entitlement → Timestamp → Bool
is_membership_temporally_valid none now = false
is_membership_temporally_valid (some e) now = elim (given e.access_until) [
  | none ↦ false
  | some until ↦ before now until
]

-- The test `accessUntil && now >= accessUntil`.
abbrev elapsed : Entitlement → Timestamp → Bool
elapsed e now = elim (given e.access_until) [ none ↦ false | some until ↦ not_after until now ]

unfoldable pub resolve_effective_membership_status : Option Entitlement → Timestamp → Status
resolve_effective_membership_status none now = inactive
resolve_effective_membership_status (some e) now =
    if elapsed e now then Status.expired else e.status

pub record AccessInput : Type 0 where
  pub session : Option String
  pub account : Option Account
  pub entitlement : Option Entitlement
  pub actor : Option Actor
  pub community_id : Option String
  pub local_eligibility : LocalEligibility
  pub now : Timestamp

-- The read-only answer with a reason.
abbrev deny : AccessInput → DenialReason → Evaluation
deny i reason = record {
  level = read_only;
  can_participate = false;
  local_eligibility = i.local_eligibility;
  denial_reason = some reason;
}

abbrev active_account : AccountStatus → Bool
active_account AccountStatus.active = true
active_account _ = false

-- The reason for which an entitlement of this effective status is denied, if any.
abbrev status_denial : Status → Option Entitlement → Timestamp → Option DenialReason
status_denial inactive e now = some inactive_membership
status_denial Status.expired e now = some expired_membership
status_denial paid_pending_binding e now = some inactive_membership
status_denial suspended e now = some inactive_membership
status_denial active e now =
    if is_membership_temporally_valid e now then none else some elapsed_access_until
status_denial cancelling e now =
    if is_membership_temporally_valid e now then none else some elapsed_access_until

-- The payment gate: passed by owners, and by an entitlement in force.
unfoldable pub payment_denial : Account → Option Entitlement → Timestamp → Option DenialReason
unfolding resolve_effective_membership_status is_membership_temporally_valid
payment_denial a none now = if a.is_owner then none else some no_entitlement
payment_denial a (some e) now =
    if a.is_owner
    then none
    else status_denial (resolve_effective_membership_status (some e) now) (some e) now

-- `input.communityId && actor.communityId !== input.communityId`.
abbrev other_community : Option String → Actor → Bool
other_community none a = false
other_community (some c) a = not (c == "") && not (is_text a.community_id c)

-- The gates behind the payment gate.
unfoldable pub actor_denial : String → Option Actor → Option String → Option DenialReason
unfolding has_valid_community_commitment
actor_denial account_id none community_id = some actor_missing
actor_denial account_id (some a) community_id =
    if not (is_text a.account_id account_id)
    then some actor_account_mismatch
    else if other_community community_id a
    then some actor_community_mismatch
    else if not (has_valid_community_commitment (some a))
    then some community_commitment_missing
    else none

-- `account?.id !== session.accountId` or an account that is not active.
abbrev account_denied : Option Account → String → Bool
account_denied none account_id = true
account_denied (some a) account_id = not (a.id == account_id) || not (active_account a.status)

abbrev grant : AccessInput → Evaluation
grant i = record {
  level = participant;
  can_participate = true;
  local_eligibility = i.local_eligibility;
  denial_reason = none;
}

abbrev first_denial : Option DenialReason → Option DenialReason → Option DenialReason
first_denial none b = b
first_denial (some r) b = some r

abbrev gates : AccessInput → Option Account → String → Option DenialReason
gates i none account_id = some inactive_account
gates i (some a) account_id =
    if account_denied (some a) account_id
    then some inactive_account
    else first_denial (payment_denial a i.entitlement i.now)
        (actor_denial account_id i.actor i.community_id)

unfoldable pub evaluate_civic_access : AccessInput → Evaluation
unfolding payment_denial actor_denial
evaluate_civic_access i = elim i.session [
  | none ↦ record {
    level = visitor;
    can_participate = false;
    local_eligibility = i.local_eligibility;
    denial_reason = some no_session;
  }
  | some account_id ↦ elim (gates i i.account account_id) [
    | none ↦ grant i
    | some reason ↦ deny i reason
  ]
]

-- local-eligibility.ts.
unfoldable pub derive_enabled_local_eligibility : Option Actor → String → LocalEligibility
derive_enabled_local_eligibility none community_id = not_verified
derive_enabled_local_eligibility (some a) community_id =
    if not (is_given a.community_id) || not (is_given a.local_eligibility_verified_at)
    then not_verified
    else if not (is_text a.community_id community_id)
    then mismatched_community
    else eligible

unfoldable pub default_local_eligibility : Bool → Option Actor → String → LocalEligibility
unfolding derive_enabled_local_eligibility
default_local_eligibility false a community_id = unavailable
default_local_eligibility true a community_id = derive_enabled_local_eligibility a community_id
