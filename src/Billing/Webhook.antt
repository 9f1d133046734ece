-- ===== src/Billing/Webhook.antt =====
-- billing/webhook-processor.ts: its types, and the steps that its handlers share.
use town_api.Common.{ℕ, String, Bool, false, Option, none, some, List, [], ◌∷◌, or_else}
use town_api.Common.Time.{Timestamp}
use town_api.Membership.Rows.{
  EventResult, EventType, Source, AuditType, CustomerLink, MetadataValue, text,
  stripe_webhook_replayed,
}
use town_api.Membership.Store.{Query, pure, ◌>>=◌, ◌>>◌}
use town_api.Membership.Audit.{draw, append_identity_security_event}
use town_api.Membership.Transitions.Input.{Input}
use town_api.Membership.Operations.{Operation}
use town_api.Membership.Run.{Runtime, Deps, TransitionOutcome}
use town_api.Membership.Retry.{Weather, under, Sky, membership_operation}
use town_api.Billing.Stripe.{Subscription, given_text}
use town_api.Billing.Links.{find_customer_link_by_stripe_customer_id}

-- `STRIPE_API_VERSION` of config/env.ts.
abbrev pub stripe_api_version : String
stripe_api_version = "2026-06-24.dahlia"

pub data WebhookResult : Type 0 where
  applied replayed : String → WebhookResult
  ignored : String → String → WebhookResult
  rejected : String → String → Bool → WebhookResult

pub record WebhookConfig : Type 0 where
  pub price_id : String
  pub expected_livemode : Bool
  pub node_env : String

-- `now` is what `deps.now()` answers. Of Stripe, `retrieve_subscription` is the answer of the
-- adapter, none where it throws; `to_iso_string` is `new Date(seconds * 1000).toISOString()`, none
-- where that throws a RangeError.
pub record WebhookDeps : Type 0 where
  pub config : WebhookConfig
  pub now : Timestamp
  pub generate_id : Option (ℕ → String)
  pub request_id : Option String
  pub retrieve_subscription : String → Option Subscription
  pub to_iso_string : ℕ → Option Timestamp

-- The surroundings of one call (`Membership.Retry`): of the look-up of the customer, of the
-- handler's own transaction, and of the membership transition.
pub record Surroundings : Type 0 where
  pub lookup : Weather
  pub own : Weather
  pub sky : Sky

unfoldable pub audit_stripe_event :
    Runtime
    → WebhookDeps
    → Option String
    → AuditType
    → List (String × MetadataValue)
    → Query (Unit {0})
audit_stripe_event rt d account_id event_type metadata = do
  id ← draw (or_else d.generate_id rt.random_uuid)
  append_identity_security_event (record {
    id = id;
    account_id = account_id;
    event_type = event_type;
    occurred_at = d.now;
    request_id = d.request_id;
    metadata = some metadata;
  })
  pure tt

-- An audit entry with a reason, and the answer.
unfoldable pub refuse :
    Runtime
    → WebhookDeps
    → Option String
    → AuditType
    → String
    → String
    → WebhookResult
    → Query WebhookResult
unfolding audit_stripe_event
refuse rt d account_id event_type type reason answer = do
  audit_stripe_event rt d account_id event_type
      (("stripeEventType", text type) ∷ ("reason", text reason) ∷ [])
  pure answer

abbrev linked_account : Option CustomerLink → Option String
linked_account none = none
linked_account (some l) = given_text (some l.account_id)

-- `reconcileAccountId`, and the caller's test that the account is not empty.
unfoldable pub reconcile_account_id : Weather → Option String → Query (Option String)
unfolding find_customer_link_by_stripe_customer_id under
reconcile_account_id w customer_id = elim (given_text customer_id) [
  | none ↦ pure none
  | some id ↦ (do
    link ← under w (find_customer_link_by_stripe_customer_id id)
    pure (linked_account link))
]

unfoldable pub transition_outcome_to_webhook_result : TransitionOutcome → String → WebhookResult
transition_outcome_to_webhook_result o type = elim o.result [
  | EventResult.applied ↦ WebhookResult.applied type
  | EventResult.replayed ↦ WebhookResult.replayed type
  | EventResult.stale ↦ WebhookResult.ignored type (or_else o.reason "stale")
  | EventResult.rejected ↦ WebhookResult.rejected type (or_else o.reason "rejected") false
]

-- The fields that the handlers give to every transition.
abbrev pub transition_input :
    String → EventType → String → Timestamp → Option String → String → Input
transition_input event_id event_type account_id now customer_id subscription_id = record {
  source = Source.stripe;
  source_event_id = event_id;
  event_type = event_type;
  account_id = account_id;
  effective_at = now;
  source_customer_id = some customer_id;
  source_subscription_id = some (some subscription_id);
  access_until = none;
  cancel_at_period_end = none;
  google_play_package_name = none;
  google_play_purchase_token = none;
  google_play_subscription_id = none;
}

abbrev pub transition_deps : WebhookDeps → Deps
transition_deps d = record {
  node_env = some d.config.node_env;
  generate_id = none;
  request_id = some d.request_id;
  processed_at = some d.now;
}

-- The audit entry after a transition: one for an event that was applied, one for a replay.
unfoldable pub audit_outcome :
    Runtime
    → WebhookDeps
    → String
    → String
    → AuditType
    → List (String × MetadataValue)
    → EventResult
    → Query (Unit {0})
unfolding audit_stripe_event
audit_outcome rt d account_id type event_type metadata EventResult.applied =
    audit_stripe_event rt d (some account_id) event_type metadata
audit_outcome rt d account_id type event_type metadata EventResult.replayed =
    audit_stripe_event rt d (some account_id) stripe_webhook_replayed
      (("stripeEventType", text type) ∷ [])
audit_outcome rt d account_id type event_type metadata EventResult.stale = pure tt
audit_outcome rt d account_id type event_type metadata EventResult.rejected = pure tt

-- A transition, its audit entry and the answer.
unfoldable pub transition_and_answer :
    Operation
    → Surroundings
    → Runtime
    → WebhookDeps
    → Input
    → String
    → AuditType
    → List (String × MetadataValue)
    → Query WebhookResult
unfolding membership_operation audit_outcome transition_outcome_to_webhook_result
transition_and_answer op w rt d i type event_type metadata = do
  outcome ← membership_operation op w.sky rt i (transition_deps d)
  audit_outcome rt d i.account_id type event_type metadata outcome.result
  pure (transition_outcome_to_webhook_result outcome type)
