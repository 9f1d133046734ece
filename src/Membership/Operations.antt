-- ===== src/Membership/Operations.antt =====
-- The six exported transitions of membership/transitions, each with its logic.
use town_api.Membership.Transitions.Input.{Logic}
use town_api.Membership.Transitions.Active.{activate_logic, reactivate_logic, suspend_logic}
use town_api.Membership.Transitions.Ending.{schedule_cancellation_logic, expire_logic}
use town_api.Membership.Transitions.Pending.{finalize_paid_pending_binding_logic}

pub data Operation : Type 0 where
  activate_membership schedule_membership_cancellation expire_membership : Operation
  reactivate_membership suspend_membership finalize_paid_pending_binding_membership : Operation

abbrev pub logic_of : Operation → Logic
logic_of activate_membership = activate_logic
logic_of schedule_membership_cancellation = schedule_cancellation_logic
logic_of expire_membership = expire_logic
logic_of reactivate_membership = reactivate_logic
logic_of suspend_membership = suspend_logic
logic_of finalize_paid_pending_binding_membership = finalize_paid_pending_binding_logic
