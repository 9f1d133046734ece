-- ===== src/Membership/Reconcile/Tests.antt =====
-- The job on a town with one membership, in April, when its access has ended.
use town_api.Common.{
  ℕ, zero, suc, ◌≤◌, Bool, false, none, some, [], ◌∷◌, ◌≡◌, refl, subst, arith, ◌↔◌,
}
use town_api.Common.Tables.{filter, length}
use town_api.Common.Rows.{Contains}
use town_api.Common.Time.{Timestamp}
use town_api.Membership.Rows.{Entitlement}
use town_api.Membership.Store.{Store, ok}
use town_api.Membership.Repositories.{entitlement_of}
use town_api.Membership.Transitions.Input.{Context, accept}
use town_api.Membership.Transitions.Ending.{expire_validate}
use town_api.Membership.Invariant.{IsSound, status_of}
use town_api.Membership.Run.Laws.{store_after}
use town_api.Membership.Retry.{Weather}
use town_api.Membership.Reconcile.{
  is_candidate, find_expired_membership_candidates, ReconcileInput, expire_input,
  reconcile_expired_memberships,
}
use town_api.Membership.Reconcile.Candidates.{
  IsReadable, EndsWithin, find_expired_membership_candidates_iff,
}
use town_api.Membership.Reconcile.Laws.{Lapsed, IsQuiet, reconcile-IsSound, reconcile-Lapsed}
use town_api.Membership.Tests.{
  no_links, first_of_april, runtime, member, activated_row, activated_town, activated_town-IsSound,
  activation_computes, stormy, stormy-IsFair,
}

abbrev april : ReconcileInput
april = record {
  now = first_of_april;
  batch_size = 10;
  generate_id = none;
  source_event_id_prefix = none;
  source = none;
  node_env = none;
  request_id = none;
}

abbrev expiry_context : Context
expiry_context = record {
  account = member;
  entitlement = some activated_row;
  input = expire_input runtime april activated_row;
  payload_hash = "sha256-of-the-payload";
  processed_at = first_of_april;
}

-- No row is locked.
abbrev unlocked : Entitlement → Bool
unlocked e = false

due_fits : length (filter (is_candidate unlocked first_of_april) activated_town.entitlements) ≤ 10
unfolding activation_computes is_candidate
due_fits = omega arith

effective_now : expiry_context.input.effective_at ≡ first_of_april
unfolding expire_input
effective_now = refl

one_candidate :
    find_expired_membership_candidates unlocked first_of_april 10 activated_town
    ≡ ok (activated_row ∷ []) activated_town
unfolding activation_computes find_expired_membership_candidates
one_candidate = refl

april-IsReadable : IsReadable first_of_april
april-IsReadable = (refl, (2000000, refl, refl))

row-IsReadable : (until : Timestamp) → activated_row.access_until ≡ some until → IsReadable until
row-IsReadable until set =
    let same : first_of_april ≡ until = cc (set) in subst IsReadable same april-IsReadable

find_expired_membership_candidates_iff_example : Contains activated_row (activated_row ∷ []) ↔ (
    (entitlement_of "member" activated_town ≡ some activated_row)
    × (unlocked activated_row ≡ false)
    × (expire_validate expiry_context ≡ accept)
    × ¬ EndsWithin first_of_april activated_row)
find_expired_membership_candidates_iff_example =
    find_expired_membership_candidates_iff unlocked first_of_april 10 activated_town activated_town
      (activated_row ∷ []) activated_row expiry_context activated_town-IsSound due_fits
      april-IsReadable row-IsReadable refl effective_now one_candidate

-- An attempt deadlocks, and no other session commits.
abbrev calm : Weather
calm = record { now = first_of_april; others = λ s. s; fault = none }

stormy-IsQuiet : IsQuiet stormy
stormy-IsQuiet = (attempt_leaves, λ s. refl)
  where
    attempt_leaves : (n : ℕ) (s : Store) → (stormy.attempt n).others s ≡ s
    attempt_leaves zero s = refl
    attempt_leaves (suc n) s = refl

reconcile-IsSound_example : IsSound no_links (
    store_after
      (reconcile_expired_memberships (λ n. stormy) runtime april unlocked calm activated_town))
reconcile-IsSound_example =
    reconcile-IsSound (λ n. stormy) runtime april unlocked calm activated_town (λ n. stormy-IsFair)
      (λ u h. h) activated_town-IsSound

reconcile-Lapsed_example : Lapsed (status_of "member" activated_town) (
    status_of "member" (
      store_after
        (reconcile_expired_memberships (λ n. stormy) runtime april unlocked calm activated_town)))
reconcile-Lapsed_example =
    reconcile-Lapsed (λ n. stormy) runtime april unlocked calm activated_town "member"
      (λ n. stormy-IsQuiet) (λ u. refl) activated_town-IsSound
