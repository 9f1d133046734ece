-- ===== src/Membership/Steps.antt =====
-- What the six logics write: the edges of the status diagram, the version, and legal rows.
use town_api.Common.{◌+◌, none, some, ◌≡◌, arith, inl, inr, Option-cases}
use town_api.Common.Time.{Timestamp}
use town_api.Membership.Rows.{
  Status, inactive, active, cancelling, expired, paid_pending_binding, suspended, Entitlement,
}
use town_api.Membership.Repositories.{Mutation, rewritten}
use town_api.Membership.Transitions.Input.{
  Context, accept, writes, status_or_inactive, version_or_zero,
}
use town_api.Membership.Transitions.Active.{
  activate_validate, activate_apply, reactivate_validate, reactivate_apply, suspend_validate,
  suspend_apply,
}
use town_api.Membership.Transitions.Ending.{
  schedule_cancellation_validate, schedule_cancellation_apply, expire_validate, expire_apply,
}
use town_api.Membership.Transitions.Pending.{finalize_validate, finalize_apply}
use town_api.Membership.Operations.{
  Operation, activate_membership, schedule_membership_cancellation, expire_membership,
  reactivate_membership, suspend_membership, finalize_paid_pending_binding_membership, logic_of,
}
use town_api.Membership.Invariant.{IsLegal}

-- The status diagram, by operation. An account with no row counts as inactive.
pub data Edge : Operation → Status → Status → Type 0 where
  begin : Edge activate_membership inactive active
  renew : Edge activate_membership active active
  return : Edge activate_membership expired active
  resume : Edge activate_membership cancelling active
  cancel : Edge schedule_membership_cancellation active cancelling
  lapse : Edge expire_membership active expired
  end : Edge expire_membership cancelling expired
  reactivate : Edge reactivate_membership cancelling active
  suspend : Edge suspend_membership active suspended
  suspend_cancelling : Edge suspend_membership cancelling suspended
  bind : Edge finalize_paid_pending_binding_membership paid_pending_binding active

ruleset edges = (
  begin, renew, return, resume, cancel, lapse, end, reactivate, suspend, suspend_cancelling, bind,
)

logics : Unit {0}
unfolding activate_validate activate_apply schedule_cancellation_validate
    schedule_cancellation_apply expire_validate expire_apply reactivate_validate reactivate_apply
    suspend_validate suspend_apply finalize_validate finalize_apply
logics = tt

-- An accepted event follows an edge.
pub accept-Edge :
    (op : Operation) (ctx : Context) (m : Mutation)
    → (logic_of op).validate ctx ≡ accept
    → (logic_of op).apply ctx ≡ writes m
    → Edge op (status_or_inactive ctx.entitlement) m.status
unfolding logics
accept-Edge activate_membership ctx m v w = grind (arith, edges)
accept-Edge schedule_membership_cancellation ctx m v w = grind (arith, edges)
accept-Edge expire_membership ctx m v w = grind (arith, edges)
accept-Edge reactivate_membership ctx m v w = grind (arith, edges)
accept-Edge suspend_membership ctx m v w = grind (arith, edges)
accept-Edge finalize_paid_pending_binding_membership ctx m v w = grind (arith, edges)

-- What is written has the next version.
pub apply-version :
    (op : Operation) (ctx : Context) (m : Mutation)
    → (logic_of op).apply ctx ≡ writes m
    → m.version ≡ version_or_zero ctx.entitlement + 1
unfolding logics
apply-version activate_membership ctx m w = ground arith
apply-version _ ctx m w = ground arith

module _ (ctx : Context) (m : Mutation) (t : Timestamp) (row : Entitlement) where
  known-IsLegal :
      (op : Operation) (e : Entitlement)
      → ctx.entitlement ≡ some e
      → IsLegal e
      → (logic_of op).validate ctx ≡ accept
      → (logic_of op).apply ctx ≡ writes m
      → IsLegal (rewritten m t row)
  unfolding logics rewritten
  known-IsLegal activate_membership e known legal v w = record {
    checked = ground arith;
    was_activated = ground arith;
  }
  known-IsLegal _ e known legal v w = record {
    checked = ground arith;
    was_activated = ground arith;
  }

  new-IsLegal :
      (op : Operation)
      → ctx.entitlement ≡ none
      → (logic_of op).apply ctx ≡ writes m
      → IsLegal (rewritten m t row)
  unfolding logics rewritten
  new-IsLegal activate_membership unknown w = record {
    checked = ground arith;
    was_activated = ground arith;
  }
  new-IsLegal _ unknown w = absurd (ground arith)

  -- An accepted event writes a legal row, where the account's row was legal.
  pub writes-IsLegal :
      (op : Operation)
      → ((e : Entitlement) → ctx.entitlement ≡ some e → IsLegal e)
      → (logic_of op).validate ctx ≡ accept
      → (logic_of op).apply ctx ≡ writes m
      → IsLegal (rewritten m t row)
  writes-IsLegal op legal v w = elim (Option-cases ctx.entitlement) [
    | inl unknown ↦ new-IsLegal op unknown w
    | inr (e, known) ↦ known-IsLegal op e known (legal e known) v w
  ]
