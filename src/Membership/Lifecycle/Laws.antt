-- ===== src/Membership/Lifecycle/Laws.antt =====
-- What a lifecycle decision may ask for.
use town_api.Common.{ℕ, ◌<◌, some, ◌≡◌, arith, ◌⊎◌, ◌↔◌}
use town_api.Membership.Rows.{Status}
use town_api.Membership.Lifecycle.{
  LifecycleTime, to_epoch_milliseconds, active, cancelled, on_hold, paused, expired, revoked,
  SubscriptionFacts, extend, cancel_keep_access, suspend, restore, expire, decide_membership_action,
}

-- The membership gives access, or gave it before a suspension.
abbrev pub IsRunning : Status → Type 0
IsRunning st = (st ≡ Status.active) ⊎ (st ≡ Status.cancelling) ⊎ (st ≡ Status.suspended)

module _ (st : Status) (access_until : LifecycleTime) (f : SubscriptionFacts) where
  -- Access ends exactly when a running membership's subscription has expired or was revoked; it is
  -- suspended exactly when an active or cancelling one's subscription is on hold or paused; and it is
  -- restored exactly when a suspended one's subscription is active. Access is kept until the
  -- subscription's expiry exactly when an active or cancelling one's subscription was cancelled.
  pub decide_membership_action_iff :
      ((decide_membership_action st access_until f ≡ expire)
        ↔ (IsRunning st × ((f.state ≡ expired) ⊎ (f.state ≡ revoked))))
      × ((decide_membership_action st access_until f ≡ suspend) ↔ (
          ((st ≡ Status.active) ⊎ (st ≡ Status.cancelling))
          × ((f.state ≡ on_hold) ⊎ (f.state ≡ paused))))
      × ((decide_membership_action st access_until f ≡ restore)
          ↔ ((st ≡ Status.suspended) × (f.state ≡ active)))
      × ((until : LifecycleTime)
          → (decide_membership_action st access_until f ≡ cancel_keep_access until) ↔ (
              ((st ≡ Status.active) ⊎ (st ≡ Status.cancelling))
              × (f.state ≡ cancelled)
              × (until ≡ f.expiry)))
  unfolding decide_membership_action
  decide_membership_action_iff = (ground arith, ground arith, ground arith, λ until. ground arith)

  -- An extension is to the expiry of the active subscription of an active membership, and where it and
  -- the access that the membership has are valid times, it lies beyond that access.
  pub extend_grows :
      (until : LifecycleTime) (a b : ℕ)
      → decide_membership_action st access_until f ≡ extend until
      → to_epoch_milliseconds access_until ≡ some a
      → to_epoch_milliseconds until ≡ some b
      → (st ≡ Status.active) × (f.state ≡ active) × (until ≡ f.expiry) × (a < b)
  unfolding decide_membership_action
  extend_grows until a b h p q = (ground arith, ground arith, ground arith, ground arith)
