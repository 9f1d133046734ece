-- ===== src/Membership/Transitions/Ending.antt =====
-- membership/transitions/schedule-cancellation.ts and expire.ts.
use town_api.Common.{◌+◌, Bool, true, false, Option, none, some, if◌then◌else◌}
use town_api.Common.Time.{Timestamp, before, given}
use town_api.Membership.Rows.{
  Status, Entitlement, EventType, membership_cancellation_scheduled, membership_expired,
  membership_event_replayed, membership_event_rejected,
}
use town_api.Membership.Transitions.Input.{
  Input, Context, Validation, accept, reject, outdated, Applied, writes, throws, Logic,
}
use town_api.Membership.Transitions.Active.{precedes, missing_or_reached, active_or_cancelling}

abbrev cancellation : Entitlement → Input → Validation
cancellation e i =
    if missing_or_reached e.access_until i.effective_at
    then reject "not_temporally_active"
    else if precedes i.effective_at e.cancellation_requested_at
    then outdated "older_cancellation_event"
    else accept

abbrev cancellation_by_status : Status → Entitlement → Input → Validation
cancellation_by_status Status.active e i = cancellation e i
cancellation_by_status _ e i = reject "not_active"

unfoldable pub schedule_cancellation_validate : Context → Validation
schedule_cancellation_validate ctx = elim ctx.entitlement [
  | none ↦ reject "not_active"
  | some e ↦ cancellation_by_status e.status e ctx.input
]

unfoldable pub schedule_cancellation_apply : Context → Applied
schedule_cancellation_apply ctx = elim ctx.entitlement [
  | none ↦
      throws
        "schedule-cancellation.apply requires an existing entitlement; validate must reject earlier"
  | some e ↦ writes (record {
    status = Status.cancelling;
    access_until = e.access_until;
    cancel_at_period_end = true;
    source = e.source;
    source_customer_id = e.source_customer_id;
    source_subscription_id = e.source_subscription_id;
    activated_at = e.activated_at;
    cancellation_requested_at = some ctx.input.effective_at;
    expired_at = none;
    version = e.version + 1;
  })
]

abbrev pub schedule_cancellation_logic : Logic
schedule_cancellation_logic = record {
  event_type = EventType.schedule_cancellation;
  validate = schedule_cancellation_validate;
  apply = schedule_cancellation_apply;
  applied_audit_event_type = membership_cancellation_scheduled;
  replayed_audit_event_type = some membership_event_replayed;
  rejected_audit_event_type = some membership_event_rejected;
  is_creation = none;
}

-- The test `!x || getTime(effectiveAt) < getTime(x)`.
abbrev missing_or_ahead : Option Timestamp → Timestamp → Bool
missing_or_ahead o effective_at = elim (given o) [ none ↦ true | some t ↦ before effective_at t ]

abbrev expiry : Entitlement → Input → Validation
expiry e i =
    if missing_or_ahead e.access_until i.effective_at
    then reject "expire_too_early"
    else if precedes i.effective_at e.expired_at
    then outdated "older_expire_event"
    else accept

unfoldable pub expire_validate : Context → Validation
expire_validate ctx = elim ctx.entitlement [
  | none ↦ reject "not_active_or_cancelling"
  | some e ↦
      if active_or_cancelling e.status
      then expiry e ctx.input
      else reject "not_active_or_cancelling"
]

unfoldable pub expire_apply : Context → Applied
expire_apply ctx = elim ctx.entitlement [
  | none ↦ throws "expire.apply requires an existing entitlement; validate must reject earlier"
  | some e ↦ writes (record {
    status = Status.expired;
    access_until = e.access_until;
    cancel_at_period_end = false;
    source = e.source;
    source_customer_id = e.source_customer_id;
    source_subscription_id = e.source_subscription_id;
    activated_at = e.activated_at;
    cancellation_requested_at = none;
    expired_at = some ctx.input.effective_at;
    version = e.version + 1;
  })
]

abbrev pub expire_logic : Logic
expire_logic = record {
  event_type = EventType.expire;
  validate = expire_validate;
  apply = expire_apply;
  applied_audit_event_type = membership_expired;
  replayed_audit_event_type = some membership_event_replayed;
  rejected_audit_event_type = some membership_event_rejected;
  is_creation = none;
}
