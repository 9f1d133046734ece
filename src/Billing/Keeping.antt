-- ===== src/Billing/Keeping.antt =====
-- What a property of the tables needs to hold through the processing of a webhook event, on every
-- path, thrown errors included.
use town_api.Common.{String, Option, some, List}
use town_api.Membership.Rows.{stripe_webhook_replayed, EventResult, AuditType, MetadataValue}
use town_api.Membership.Store.{pure, ◌>>◌, Store, transaction}
use town_api.Membership.Transitions.Input.{Input}
use town_api.Membership.Operations.{Operation, logic_of}
use town_api.Membership.Run.{Runtime, run_transition_in_transaction}
use town_api.Membership.Run.Effects.{SameTables}
use town_api.Membership.Run.Laws.{store_after, bind-keeps}
use town_api.Membership.Retry.{under, membership_operation}
use town_api.Membership.Retry.Laws.{IsKeptBy, under-keeps, membership_operation-keeps}
use town_api.Billing.Process.{process_stripe_webhook_event}
use town_api.Billing.Paths.{webhook-leads, Resolves, customer_of, audit_stripe_event-SameTables}
use town_api.Billing.Stripe.{Event, CheckoutSession}
use town_api.Billing.Webhook.{
  transition_and_answer, audit_outcome, transition_deps, WebhookResult, WebhookDeps, Surroundings,
  audit_stripe_event,
}
use town_api.Billing.Handlers.{link_checkout}

-- `P` is the property, `Q` one of the account that the event is for.
module _ (P : Store → Type 0) (Q : String → Type 0) (w : Surroundings) (rt : Runtime)
    (d : WebhookDeps) (same_keeps : (s t : Store) → SameTables s t → P s → P t)
    (fair : IsKeptBy P w.sky)
    (runs_keep : (rt' : Runtime) (op : Operation) (i : Input) (u : Store)
      → Q i.account_id
      → P u
      → P (
          store_after
            (run_transition_in_transaction rt' i (logic_of op) (transition_deps d) u))) where
  audit-keeps :
      (account_id : Option String) (event_type : AuditType)
      (metadata : List (String × MetadataValue)) (u : Store)
      → P u
      → P (store_after (audit_stripe_event rt d account_id event_type metadata u))
  audit-keeps account_id event_type metadata u h =
      same_keeps u (store_after (audit_stripe_event rt d account_id event_type metadata u))
        (audit_stripe_event-SameTables rt d account_id event_type metadata u) h

  audit_outcome-keeps :
      (a type : String) (event_type : AuditType) (metadata : List (String × MetadataValue))
      (r : EventResult) (u : Store)
      → P u
      → P (store_after (audit_outcome rt d a type event_type metadata r u))
  unfolding audit_outcome
  audit_outcome-keeps a type event_type metadata EventResult.applied u h =
      audit-keeps (some a) event_type metadata u h
  audit_outcome-keeps a type event_type metadata EventResult.replayed u h =
      audit-keeps (some a) stripe_webhook_replayed _ u h
  audit_outcome-keeps a type event_type metadata EventResult.stale u h = h
  audit_outcome-keeps a type event_type metadata EventResult.rejected u h = h

  pub transition-keeps :
      (op : Operation) (i : Input) (type : String) (event_type : AuditType)
      (metadata : List (String × MetadataValue)) (u : Store)
      → Q i.account_id
      → P u
      → P (store_after (transition_and_answer op w rt d i type event_type metadata u))
  unfolding transition_and_answer
  transition-keeps op i type event_type metadata u q h =
      bind-keeps P (membership_operation op w.sky rt i (transition_deps d)) _ u
        (membership_operation-keeps P same_keeps op w.sky rt i (transition_deps d) u fair
          (λ rt' v k. runs_keep rt' op (record i { event_type = (logic_of op).event_type }) v q k)
          h)
        (λ o t k.
          bind-keeps P (audit_outcome rt d i.account_id type event_type metadata o.result) _ t
            (audit_outcome-keeps i.account_id type event_type metadata o.result t k) (λ x v l. l))

module _ (P : Store → Type 0) (Q : String → Type 0) (w : Surroundings) (rt : Runtime)
    (d : WebhookDeps) (same_keeps : (s t : Store) → SameTables s t → P s → P t)
    (lookup_keeps : (u : Store) → P u → P (w.lookup.others u))
    (own_keeps : (u : Store) → P u → P (w.own.others u)) (fair : IsKeptBy P w.sky)
    (runs_keep : (rt' : Runtime) (op : Operation) (i : Input) (u : Store)
      → Q i.account_id
      → P u
      → P (store_after (run_transition_in_transaction rt' i (logic_of op) (transition_deps d) u)))
    (linking_keeps : (c : CheckoutSession) (a : String) (u : Store)
      → Q a
      → P u
      → P (store_after (transaction (link_checkout w rt d c a) u))) where
  linking-keeps :
      (ev : Event) (c : CheckoutSession) (a : String) (u : Store)
      → Q a
      → P u
      → P (
          store_after (
            (under w.own (transaction (link_checkout w rt d c a))
                >> pure (WebhookResult.applied ev.type))
              u))
  linking-keeps ev c a u q h =
      bind-keeps P (under w.own (transaction (link_checkout w rt d c a))) _ u
        (under-keeps P w.own (transaction (link_checkout w rt d c a)) u own_keeps
          (λ v l. linking_keeps c a v q l) h)
        (λ x v l. l)

  -- The whole processing keeps what its audit entries, its transitions and its linking keep.
  pub webhook-keeps :
      (ev : Event) (s : Store)
      → ((t : Store) → SameTables s t → Resolves Q w (customer_of ev.object) t)
      → P s
      → P (store_after (process_stripe_webhook_event w rt d ev s))
  webhook-keeps ev s resolves h =
      webhook-leads P (λ o. P (store_after o)) Q (λ e. Unit {0}) w rt d same_keeps lookup_keeps
        own_keeps (λ r t k. k) (λ e t k. k) (transition-keeps P Q w rt d same_keeps fair runs_keep)
        (λ ev c a u which done q k. linking-keeps ev c a u q k) ev s tt resolves h
