-- ===== src/Membership/Transitions/Pending.antt =====
-- membership/transitions/finalize-paid-pending-binding.ts.
use town_api.Common.{◌+◌, false, none, some, if◌then◌else◌}
use town_api.Common.Time.{Timestamp, not_after, times_differ, given}
use town_api.Membership.Rows.{
  Status, Entitlement, EventType, membership_activated, membership_event_replayed,
  membership_event_rejected,
}
use town_api.Membership.Transitions.Input.{
  value, Input, Context, Validation, accept, reject, Applied, writes, throws, Logic,
}
use town_api.Membership.Transitions.Active.{is_closed}

abbrev agreement : Timestamp → Input → Validation
agreement access_until i = elim (given (value i.access_until)) [
  | none ↦ reject "access_until_required"
  | some proposed ↦
      if times_differ proposed access_until then reject "access_until_mismatch" else accept
]

abbrev finalization : Entitlement → Input → Validation
finalization e i = elim (given e.access_until) [
  | none ↦ reject "access_until_required"
  | some access_until ↦
      if not_after access_until i.effective_at
      then reject "access_until_must_exceed_effective_at"
      else agreement access_until i
]

abbrev finalization_by_status : Status → Entitlement → Input → Validation
finalization_by_status Status.paid_pending_binding e i = finalization e i
finalization_by_status _ e i = reject "invalid_status_for_finalize_paid_pending_binding"

unfoldable pub finalize_validate : Context → Validation
finalize_validate ctx =
    if is_closed ctx.account then reject "account_closed" else elim ctx.entitlement [
      | none ↦ reject "entitlement_missing"
      | some e ↦ finalization_by_status e.status e ctx.input
    ]

unfoldable pub finalize_apply : Context → Applied
finalize_apply ctx = elim ctx.entitlement [
  | none ↦
      throws
        "finalize_paid_pending_binding.apply requires an existing entitlement; validate must reject earlier"
  | some e ↦ elim (given e.access_until) [
    | none ↦
        throws
          "finalize_paid_pending_binding.apply requires accessUntil; validate must have rejected earlier"
    | some access_until ↦ writes (record {
      status = Status.active;
      access_until = some access_until;
      cancel_at_period_end = false;
      source = e.source;
      source_customer_id = e.source_customer_id;
      source_subscription_id = e.source_subscription_id;
      activated_at = some ctx.input.effective_at;
      cancellation_requested_at = none;
      expired_at = none;
      version = e.version + 1;
    })
  ]
]

abbrev pub finalize_paid_pending_binding_logic : Logic
finalize_paid_pending_binding_logic = record {
  event_type = EventType.finalize_paid_pending_binding;
  validate = finalize_validate;
  apply = finalize_apply;
  applied_audit_event_type = membership_activated;
  replayed_audit_event_type = some membership_event_replayed;
  rejected_audit_event_type = some membership_event_rejected;
  is_creation = none;
}
