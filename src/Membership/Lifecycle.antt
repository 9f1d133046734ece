-- ===== src/Membership/Lifecycle.antt =====
-- membership/lifecycle/decide-membership-action.ts: what a subscription's authoritative state asks of
-- a membership.
pub mod Laws
pub mod Facts
pub mod Expiry
mod Tests
use town_api.Common.{ℕ, Bool, Option, some, ltb, if◌then◌else◌}
use town_api.Common.Time.{compare_times}
use town_api.Membership.Rows.{Status}

-- A `Date` (`none` is an invalid one) or a number of milliseconds, counted from the earliest date
-- that JavaScript represents.
pub data LifecycleTime : Type 0 where
  date : Option ℕ → LifecycleTime
  milliseconds : ℕ → LifecycleTime

abbrev pub to_epoch_milliseconds : LifecycleTime → Option ℕ
to_epoch_milliseconds (date t) = t
to_epoch_milliseconds (milliseconds n) = some n

pub data SubscriptionState : Type 0 where
  active cancelled on_hold paused expired revoked pending : SubscriptionState

pub record SubscriptionFacts : Type 0 where
  pub state : SubscriptionState
  pub expiry : LifecycleTime

pub data Decision : Type 0 where
  nothing : Decision
  extend : LifecycleTime → Decision
  cancel_keep_access : LifecycleTime → Decision
  suspend : Decision
  restore : Decision
  expire : Decision

abbrev later : LifecycleTime → LifecycleTime → Bool
later a b = compare_times ltb (to_epoch_milliseconds b) (to_epoch_milliseconds a)

abbrev decide_active : SubscriptionState → LifecycleTime → LifecycleTime → Decision
decide_active active expiry access_until =
    if later expiry access_until then extend expiry else nothing
decide_active cancelled expiry access_until = cancel_keep_access expiry
decide_active on_hold expiry access_until = suspend
decide_active paused expiry access_until = suspend
decide_active expired expiry access_until = expire
decide_active revoked expiry access_until = expire
decide_active pending expiry access_until = nothing

abbrev decide_cancelling : SubscriptionState → LifecycleTime → Decision
decide_cancelling cancelled expiry = cancel_keep_access expiry
decide_cancelling on_hold expiry = suspend
decide_cancelling paused expiry = suspend
decide_cancelling expired expiry = expire
decide_cancelling revoked expiry = expire
decide_cancelling _ expiry = nothing

abbrev decide_suspended : SubscriptionState → Decision
decide_suspended active = restore
decide_suspended expired = expire
decide_suspended revoked = expire
decide_suspended _ = nothing

unfoldable pub decide_membership_action : Status → LifecycleTime → SubscriptionFacts → Decision
decide_membership_action Status.active access_until f = decide_active f.state f.expiry access_until
decide_membership_action Status.cancelling access_until f = decide_cancelling f.state f.expiry
decide_membership_action Status.suspended access_until f = decide_suspended f.state
decide_membership_action _ access_until f = nothing
