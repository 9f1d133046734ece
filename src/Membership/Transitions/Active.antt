-- ===== src/Membership/Transitions/Active.antt =====
-- membership/transitions/activate.ts, reactivate.ts and suspend.ts.
use town_api.Common.{◌+◌, String, Bool, true, false, Option, none, some, if◌then◌else◌}
use town_api.Common.Time.{Timestamp, before, not_after, given}
use town_api.Membership.Rows.{
  Account, AccountStatus, Status, Entitlement, EventType, membership_activated,
  membership_reactivated, membership_suspended, membership_event_replayed,
  membership_event_rejected,
}
use town_api.Membership.Store.{is_none}
use town_api.Membership.Transitions.Input.{
  value, Input, Context, Validation, accept, reject, outdated, Applied, writes, throws, Logic,
  version_or_zero,
}

-- The branch of `activate` for an account that is active now.
abbrev renewal : Timestamp → Input → Entitlement → Validation
renewal access_until i e = elim (given e.access_until) [
  | none ↦ reject "active_missing_access_until"
  | some current_until ↦
      if before access_until current_until
      then outdated "would_reduce_access_until"
      else if before i.effective_at e.updated_at
      then outdated "older_event_overrides_newer_state"
      else accept
]

abbrev activation_by_status : Status → Timestamp → Input → Entitlement → Validation
activation_by_status Status.active access_until i e = renewal access_until i e
activation_by_status Status.inactive access_until i e = accept
activation_by_status Status.expired access_until i e = accept
activation_by_status Status.cancelling access_until i e = accept
activation_by_status Status.paid_pending_binding access_until i e =
    reject "invalid_status_for_activate"
activation_by_status Status.suspended access_until i e = reject "invalid_status_for_activate"

abbrev activation_from : Timestamp → Input → Option Entitlement → Validation
activation_from access_until i none = accept
activation_from access_until i (some e) = activation_by_status e.status access_until i e

abbrev closed_status : AccountStatus → Bool
closed_status AccountStatus.closed = true
closed_status _ = false

abbrev pub is_closed : Account → Bool
is_closed a = closed_status a.status

unfoldable pub activate_validate : Context → Validation
activate_validate ctx =
    if is_closed ctx.account
    then reject "account_closed"
    else elim (given (value ctx.input.access_until)) [
      | none ↦ reject "access_until_required"
      | some access_until ↦
          if not_after access_until ctx.input.effective_at
          then reject "access_until_must_exceed_effective_at"
          else activation_from access_until ctx.input ctx.entitlement
    ]

-- `a ?? b` on a nullable value.
abbrev pub first_of_two : Option String → Option String → Option String
first_of_two none b = b
first_of_two (some a) b = some a

abbrev previous_customer : Option Entitlement → Option String
previous_customer none = none
previous_customer (some e) = e.source_customer_id

abbrev previous_subscription : Option Entitlement → Option String
previous_subscription none = none
previous_subscription (some e) = e.source_subscription_id

unfoldable pub activate_apply : Context → Applied
activate_apply ctx = elim (given (value ctx.input.access_until)) [
  | none ↦ throws "activate.apply requires accessUntil; validate must have rejected earlier"
  | some access_until ↦ writes (record {
    status = Status.active;
    access_until = some access_until;
    cancel_at_period_end = false;
    source = ctx.input.source;
    source_customer_id =
        first_of_two (value ctx.input.source_customer_id) (previous_customer ctx.entitlement);
    source_subscription_id =
        first_of_two (value ctx.input.source_subscription_id)
          (previous_subscription ctx.entitlement);
    activated_at = some ctx.input.effective_at;
    cancellation_requested_at = none;
    expired_at = none;
    version = version_or_zero ctx.entitlement + 1;
  })
]

abbrev pub activate_logic : Logic
activate_logic = record {
  event_type = EventType.activate;
  validate = activate_validate;
  apply = activate_apply;
  applied_audit_event_type = membership_activated;
  replayed_audit_event_type = some membership_event_replayed;
  rejected_audit_event_type = some membership_event_rejected;
  is_creation = some (λ ctx. is_none ctx.entitlement);
}

-- The test `x && getTime(effectiveAt) < getTime(x)` on a nullable timestamp of the row.
abbrev pub precedes : Timestamp → Option Timestamp → Bool
precedes effective_at o = elim (given o) [ none ↦ false | some t ↦ before effective_at t ]

-- The test `!x || getTime(effectiveAt) >= getTime(x)`.
abbrev pub missing_or_reached : Option Timestamp → Timestamp → Bool
missing_or_reached o effective_at = elim (given o) [
  | none ↦ true
  | some t ↦ not_after t effective_at
]

abbrev reactivation : Entitlement → Input → Validation
reactivation e i =
    if missing_or_reached e.access_until i.effective_at
    then reject "not_temporally_active"
    else if precedes i.effective_at e.cancellation_requested_at
    then outdated "older_reactivation_event"
    else accept

abbrev reactivation_by_status : Status → Entitlement → Input → Validation
reactivation_by_status Status.cancelling e i = reactivation e i
reactivation_by_status _ e i = reject "not_cancelling"

unfoldable pub reactivate_validate : Context → Validation
reactivate_validate ctx = elim ctx.entitlement [
  | none ↦ reject "not_cancelling"
  | some e ↦ reactivation_by_status e.status e ctx.input
]

unfoldable pub reactivate_apply : Context → Applied
reactivate_apply ctx = elim ctx.entitlement [
  | none ↦ throws "reactivate.apply requires an existing entitlement; validate must reject earlier"
  | some e ↦ writes (record {
    status = Status.active;
    access_until = e.access_until;
    cancel_at_period_end = false;
    source = e.source;
    source_customer_id = e.source_customer_id;
    source_subscription_id = e.source_subscription_id;
    activated_at = e.activated_at;
    cancellation_requested_at = none;
    expired_at = none;
    version = e.version + 1;
  })
]

abbrev pub reactivate_logic : Logic
reactivate_logic = record {
  event_type = EventType.reactivate;
  validate = reactivate_validate;
  apply = reactivate_apply;
  applied_audit_event_type = membership_reactivated;
  replayed_audit_event_type = some membership_event_replayed;
  rejected_audit_event_type = some membership_event_rejected;
  is_creation = none;
}

abbrev pub active_or_cancelling : Status → Bool
active_or_cancelling Status.active = true
active_or_cancelling Status.cancelling = true
active_or_cancelling _ = false

unfoldable pub suspend_validate : Context → Validation
suspend_validate ctx = elim ctx.entitlement [
  | none ↦ reject "not_suspendable"
  | some e ↦ if active_or_cancelling e.status then accept else reject "not_suspendable"
]

unfoldable pub suspend_apply : Context → Applied
suspend_apply ctx = elim ctx.entitlement [
  | none ↦ throws "suspend.apply requires an existing entitlement; validate must reject earlier"
  | some e ↦ writes (record {
    status = Status.suspended;
    access_until = e.access_until;
    cancel_at_period_end = e.cancel_at_period_end;
    source = e.source;
    source_customer_id = e.source_customer_id;
    source_subscription_id = e.source_subscription_id;
    activated_at = e.activated_at;
    cancellation_requested_at = e.cancellation_requested_at;
    expired_at = e.expired_at;
    version = e.version + 1;
  })
]

abbrev pub suspend_logic : Logic
suspend_logic = record {
  event_type = EventType.suspend;
  validate = suspend_validate;
  apply = suspend_apply;
  applied_audit_event_type = membership_suspended;
  replayed_audit_event_type = some membership_event_replayed;
  rejected_audit_event_type = some membership_event_rejected;
  is_creation = none;
}
