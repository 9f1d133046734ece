-- ===== src/Membership/Reconcile.antt =====
-- membership/reconcile.ts: the job that expires the memberships whose access has ended. What other
-- sessions commit in between, and the errors that PostgreSQL raises, are arguments as in
-- `Membership.Retry`, a `Sky` for each candidate.
pub mod Candidates
pub mod Laws
mod Tests
use Prim.Native.String.{◌++◌}
use town_api.Common.{
  ℕ, ◌+◌, String, Bool, true, false, not, ◌&&◌, Option, none, some, List, [], ◌∷◌, ◌==◌,
  if◌then◌else◌, or_else,
}
use town_api.Common.Tables.{filter, length}
use town_api.Common.Rows.{take, order_by}
use town_api.Common.Time.{Timestamp, instant_not_after}
use town_api.Membership.Rows.{Source, stripe, test_fixture, EventType, Entitlement}
use town_api.Membership.Store.{Query, ok, throw, failed, pure, ◌>>=◌, transaction}
use town_api.Membership.Transitions.Input.{Field, Input}
use town_api.Membership.Transitions.Active.{active_or_cancelling}
use town_api.Membership.Operations.{expire_membership}
use town_api.Membership.Run.{Runtime, Deps, TransitionOutcome}
use town_api.Membership.Retry.{Weather, under, Sky, membership_operation}

-- `access_until IS NOT NULL AND access_until <= now`.
abbrev pub reached : Option Timestamp → Timestamp → Bool
reached none now = false
reached (some access_until) now = instant_not_after access_until now

-- The `WHERE` clause of the candidates.
unfoldable pub is_due : Timestamp → Entitlement → Bool
is_due now e = active_or_cancelling e.status && reached e.access_until now

-- `ORDER BY access_until ASC`; rows without one stand last.
abbrev pub ends_before : Entitlement → Entitlement → Bool
ends_before a b = elim b.access_until [ none ↦ true | some until ↦ reached a.access_until until ]

-- `FOR UPDATE SKIP LOCKED` passes over the rows that other sessions have locked.
unfoldable pub is_candidate : (Entitlement → Bool) → Timestamp → Entitlement → Bool
unfolding is_due
is_candidate locked now e = is_due now e && not (locked e)

-- `locked` tells the rows that other sessions have locked at that time. PostgreSQL raises an error for a
-- text that it cannot read as a time.
unfoldable pub find_expired_membership_candidates :
    (Entitlement → Bool) → Timestamp → ℕ → Query (List Entitlement)
unfolding is_candidate
find_expired_membership_candidates locked now batch_size s = elim now.instant [
  | none ↦ throw (failed "invalid input syntax for type timestamp with time zone") s
  | some instant ↦
      ok (take (order_by ends_before (filter (is_candidate locked now) s.entitlements)) batch_size)
        s
]

pub record ReconcileInput : Type 0 where
  pub now : Timestamp
  pub batch_size : ℕ
  pub generate_id : Option (ℕ → String)
  pub source_event_id_prefix : Option String
  pub source : Option Source
  pub node_env : Option String
  pub request_id : Field String

pub record ReconcileResult : Type 0 where
  pub processed : ℕ
  pub results : List TransitionOutcome

unfoldable pub resolve_reconcile_source : Runtime → ReconcileInput → Source
resolve_reconcile_source rt i = elim i.source [
  | some source ↦ source
  | none ↦
      if or_else i.node_env (or_else rt.node_env "development") == "production"
      then stripe
      else test_fixture
]

abbrev until_text : Option Timestamp → String
until_text none = "null"
until_text (some t) = t.text

-- The event that expires one candidate.
unfoldable pub expire_input : Runtime → ReconcileInput → Entitlement → Input
unfolding resolve_reconcile_source
expire_input rt i e = record {
  source = resolve_reconcile_source rt i;
  source_event_id =
      or_else i.source_event_id_prefix "internal_reconcile:"
      ++ e.account_id
      ++ ":"
      ++ until_text e.access_until;
  event_type = EventType.expire;
  account_id = e.account_id;
  effective_at = i.now;
  source_customer_id = none;
  source_subscription_id = none;
  access_until = none;
  cancel_at_period_end = none;
  google_play_package_name = none;
  google_play_purchase_token = none;
  google_play_subscription_id = none;
}

unfoldable pub expire_deps : ReconcileInput → Deps
expire_deps i = record {
  node_env = i.node_env;
  generate_id = i.generate_id;
  request_id = i.request_id;
  processed_at = some i.now;
}

module _ (skies : ℕ → Sky) (rt : Runtime) (i : ReconcileInput) where
  -- The loop over the candidates, from the `n`th on.
  unfoldable pub expire_each : ℕ → List Entitlement → Query (List TransitionOutcome)
  unfolding expire_input expire_deps
  expire_each n [] = pure []
  expire_each n (e ∷ es) = do
    outcome ←
        membership_operation expire_membership (skies n) rt (expire_input rt i e) (expire_deps i)
    rest ← expire_each (n + 1) es
    pure (outcome ∷ rest)

  unfoldable pub reconcile_expired_memberships :
      (Entitlement → Bool) → Weather → Query ReconcileResult
  unfolding expire_each find_expired_membership_candidates under
  reconcile_expired_memberships locked w = do
    candidates ←
        under w (transaction (find_expired_membership_candidates locked i.now i.batch_size))
    results ← expire_each 0 candidates
    pure (record { processed = length results; results = results })
