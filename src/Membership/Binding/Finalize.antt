-- ===== src/Membership/Binding/Finalize.antt =====
-- When a community binding finalizes a paid membership.
use town_api.Common.{
  String, true, false, Option, none, some, List, ◌≡◌, ◌≢◌, refl, arith, ◌⊎◌, inl, inr, Bool-cases,
  Option-cases,
}
use mathlib.Core.Option
use town_api.Membership.Rows.{Entitlement, Status}
use town_api.Membership.Store.{Store, ok}
use town_api.Membership.Repositories.{entitlement_of, find_entitlement_by_account_id}
use town_api.Membership.Run.{Runtime, Deps}
use town_api.Membership.Retry.{Sky}
use town_api.Membership.Access.{Actor}
use town_api.Membership.Access.Laws.{is_text_iff}
use town_api.Membership.Binding.{
  ActorRow, find_active_civic_actor_by_account_id, FinalizeInput, FinalizeOutcome, skipped,
  community_binding_preconditions_unmet, entitlement_missing, not_paid_pending_binding,
  preconditions_unmet, waits, finalize_entitlement,
  maybe_finalize_paid_pending_binding_after_community_bind,
}
use town_api.Membership.Binding.Laws.{actor_of}

met-bound :
    (o : Option ActorRow) (c : String)
    → preconditions_unmet o c ≡ false
    → (a : Actor) × (Option.map (λ r. r.actor) o ≡ some a)
      × (a.community_id ≡ some c)
      × (a.local_eligibility_verified_at ≢ none)
met-bound none c h = cc
met-bound (some r) c h =
    (r.actor, refl, (is_text_iff r.actor.community_id c).0 (ground arith), λ unset. ground arith)

module _ (sky : Sky) (rt : Runtime) (d : Deps) (f : FinalizeInput) (actors : List ActorRow)
    (s : Store) where
  -- Either the account's actor is bound to that community with a verification timestamp and its
  -- entitlement is paid and pending its binding, or the step returns with no effect on the tables.
  pub maybe_finalize-skips :
      (((a : Actor) × (actor_of f.account_id actors ≡ some a)
          × (a.community_id ≡ some f.community_id)
          × (a.local_eligibility_verified_at ≢ none))
        × ((e : Entitlement) × (entitlement_of f.account_id s ≡ some e)
            × (e.status ≡ Status.paid_pending_binding)))
      ⊎ ((o : FinalizeOutcome) × (maybe_finalize_paid_pending_binding_after_community_bind sky rt d
              f actors s
            ≡ ok o s))
  unfolding maybe_finalize_paid_pending_binding_after_community_bind find_entitlement_by_account_id
      finalize_entitlement
  maybe_finalize-skips =
      let o = find_active_civic_actor_by_account_id f.account_id actors in
      elim (Bool-cases (preconditions_unmet o f.community_id)) [
        | inl unmet ↦ inr (skipped community_binding_preconditions_unmet none, rw unmet refl)
        | inr met ↦ elim (Option-cases (entitlement_of f.account_id s)) [
          | inl missing ↦ inr (skipped entitlement_missing none, rw (met, missing) refl)
          | inr (e, found) ↦ elim (Bool-cases (waits e.status)) [
            | inl pending ↦
                inl (met-bound o f.community_id met, (e, found, waiting e.status pending))
            | inr done ↦ inr (skipped not_paid_pending_binding (some e), rw (met, found, done) refl)
          ]
        ]
      ]
    where
      waiting : (st : Status) → waits st ≡ true → st ≡ Status.paid_pending_binding
      waiting st h = ground arith
