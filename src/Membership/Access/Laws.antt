-- ===== src/Membership/Access/Laws.antt =====
-- When participation is granted, stated without the order of the gates.
use town_api.Common.{
  String, Bool, true, false, Option, none, some, ◌≡◌, ◌≢◌, refl, arith, ◌⊎◌, ◌↔◌, inl, inr,
  Bool-cases, Option-cases, ◌==◌, eq_iff, ap,
}
use town_api.Common.Time.{Timestamp, before, not_after}
use town_api.Membership.Rows.{Account, AccountStatus, Status, Entitlement}
use town_api.Membership.Access.{
  Actor, AccessInput, evaluate_civic_access, has_valid_community_commitment,
  community_commitment_version, payment_denial, actor_denial, is_text, visitor, participant,
  default_local_eligibility, eligible,
}

-- The membership is paid for: it is active or cancelling, and its access lasts beyond `now`.
abbrev pub IsInForce : Timestamp → Entitlement → Type 0
IsInForce now e =
    ((e.status ≡ Status.active) ⊎ (e.status ≡ Status.cancelling))
    × ((until : Timestamp) × (e.access_until ≡ some until)
        × ((until.text == "") ≡ false)
        × (before now until ≡ true))

-- The account may pass the payment gate.
abbrev pub IsEntitled : AccessInput → Account → Type 0
IsEntitled i a =
    (a.is_owner ≡ true) ⊎ ((e : Entitlement) × (i.entitlement ≡ some e) × IsInForce i.now e)

-- The actor acts for the account, in the community asked for (any, if none is), and has committed.
pub record IsCommitted (i : AccessInput) (account_id : String) (a : Actor) : Type 0 where
  pub owner : a.account_id ≡ some account_id
  pub community :
      (c : String) → i.community_id ≡ some c → (c == "") ≡ false → a.community_id ≡ some c
  pub chosen : a.community_id ≢ none
  pub accepted : a.community_commitment_accepted_at ≢ none
  pub version : a.community_commitment_version ≡ some community_commitment_version

pub record Participates (i : AccessInput) : Type 0 where
  pub account_id : String
  pub account : Account
  pub actor : Actor
  pub signed_in : i.session ≡ some account_id
  pub found : i.account ≡ some account
  pub same : account.id ≡ account_id
  pub account_active : account.status ≡ AccountStatus.active
  pub entitled : IsEntitled i account
  pub present : i.actor ≡ some actor
  pub committed : IsCommitted i account_id actor

before-not_after : (a b : Timestamp) → before a b ≡ true → not_after b a ≡ false
before-not_after a b h = ground arith

payment-IsEntitled :
    (i : AccessInput) (a : Account) → payment_denial a i.entitlement i.now ≡ none → IsEntitled i a
unfolding payment_denial
payment-IsEntitled i a h = elim (Option-cases i.entitlement) [
  | inl missing ↦ inl (ground arith)
  | inr (e, found) ↦ elim (Bool-cases a.is_owner) [
    | inl owner ↦ inl owner
    | inr member ↦ elim (Option-cases e.access_until) [
      | inl unset ↦ absurd (ground arith)
      | inr (until, set) ↦ inr (e, found, (ground arith, (until, set, ground arith, ground arith)))
    ]
  ]
]

pub is_text_iff : (o : Option String) (t : String) → (is_text o t ≡ true) ↔ (o ≡ some t)
is_text_iff none t = (λ h. cc, λ h. cc)
is_text_iff (some s) t = (λ h. ap some ((eq_iff s t).0 h), λ h. (eq_iff s t).1 (cc))

actor-IsCommitted :
    (i : AccessInput) (account_id : String) (a : Actor)
    → actor_denial account_id (some a) i.community_id ≡ none
    → IsCommitted i account_id a
unfolding actor_denial has_valid_community_commitment
actor-IsCommitted i account_id a h = record {
  owner = ground (arith, is_text_iff a.account_id account_id);
  community = λ c asked real. ground (arith, is_text_iff a.community_id c);
  chosen = ground arith;
  accepted = ground arith;
  version = ground (arith, is_text_iff a.community_commitment_version community_commitment_version);
}

committed-passes :
    (i : AccessInput) (account_id : String) (a : Actor)
    → IsCommitted i account_id a
    → actor_denial account_id (some a) i.community_id ≡ none
unfolding actor_denial has_valid_community_commitment
committed-passes i account_id a c = elim (Option-cases i.community_id) [
  | inl any ↦ ground (
    arith,
    is_text_iff a.account_id account_id,
    is_text_iff a.community_commitment_version community_commitment_version,
  )
  | inr (b, asked) ↦ ground (
    arith,
    is_text_iff a.account_id account_id,
    is_text_iff a.community_id b,
    c.community b,
    is_text_iff a.community_commitment_version community_commitment_version,
  )
]

entitled-passes :
    (i : AccessInput) (a : Account) → IsEntitled i a → payment_denial a i.entitlement i.now ≡ none
unfolding payment_denial
entitled-passes i a (inl owner) = ground arith
entitled-passes i a (inr (e, found, ((inl st), (until, set, real, ahead)))) =
    rw found (ground (arith, before-not_after i.now until))
entitled-passes i a (inr (e, found, ((inr st), (until, set, real, ahead)))) =
    rw found (ground (arith, before-not_after i.now until))

no_actor : (account_id : String) (c : Option String) → actor_denial account_id none c ≢ none
unfolding actor_denial
no_actor account_id c h = cc

-- Participation is granted exactly when the session's account exists under its own identifier and is
-- active, the account is an owner or its membership is active or cancelling with access that lasts
-- beyond now, and its actor belongs to it, is in the community asked for (when one is asked for) and
-- has accepted the current version of the community commitment.
pub evaluate_civic_access_iff :
    (i : AccessInput) → ((evaluate_civic_access i).can_participate ≡ true) ↔ Participates i
unfolding evaluate_civic_access
evaluate_civic_access_iff i = (granted, grants)
  where
    granted : (evaluate_civic_access i).can_participate ≡ true → Participates i
    granted h = elim (Option-cases i.session) [
      | inl out ↦ absurd (ground arith)
      | inr (account_id, signed_in) ↦ elim (Option-cases i.account) [
        | inl unknown ↦ absurd (ground arith)
        | inr (account, found) ↦ elim (Option-cases i.actor) [
          | inl missing ↦ absurd (ground (arith, no_actor account_id i.community_id))
          | inr (actor, present) ↦ record {
            account_id = account_id;
            account = account;
            actor = actor;
            signed_in = signed_in;
            found = found;
            same = ground (arith, eq_iff account.id account_id);
            account_active = ground arith;
            entitled = payment-IsEntitled i account (ground arith);
            present = present;
            committed = actor-IsCommitted i account_id actor (ground arith);
          }
        ]
      ]
    ]

    grants : Participates i → (evaluate_civic_access i).can_participate ≡ true
    grants p = ground (
      arith,
      eq_iff p.account.id p.account_id,
      entitled-passes i p.account p.entitled,
      committed-passes i p.account_id p.actor p.committed,
    )

-- The level, the flag and the reason of an answer agree: those who can participate are the
-- participants, and they are those with no reason for denial; visitors are those without a session. The
-- local eligibility is passed on as it came.
pub evaluate_civic_access-level :
    (i : AccessInput)
    → let v = evaluate_civic_access i in
      ((v.can_participate ≡ true) ↔ (v.level ≡ participant))
      × ((v.can_participate ≡ true) ↔ (v.denial_reason ≡ none))
      × ((v.level ≡ visitor) ↔ (i.session ≡ none))
      × (v.local_eligibility ≡ i.local_eligibility)
unfolding evaluate_civic_access
evaluate_civic_access-level i = ground arith

-- The actor is bound to the community and its binding was verified.
abbrev pub IsVerifiedIn : String → Option Actor → Type 0
IsVerifiedIn c o =
    (a : Actor) × (o ≡ some a)
    × (a.community_id ≡ some c)
    × (a.local_eligibility_verified_at ≢ none)

-- The default resolver finds an actor eligible exactly when local eligibility is enabled and the actor
-- is bound to that community with a verification timestamp.
pub default_local_eligibility_iff :
    (enabled : Bool) (o : Option Actor) (c : String)
    → (default_local_eligibility enabled o c ≡ eligible) ↔ ((enabled ≡ true) × IsVerifiedIn c o)
unfolding default_local_eligibility
default_local_eligibility_iff false o c = (λ h. cc, λ h. cc)
default_local_eligibility_iff true none c = (λ h. cc, λ h. cc)
default_local_eligibility_iff true (some a) c = (
  λ h. (refl, (a, refl, ground (arith, is_text_iff a.community_id c), ground arith)),
  λ h. ground (arith, is_text_iff a.community_id c),
)
