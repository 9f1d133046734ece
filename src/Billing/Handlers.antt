-- ===== src/Billing/Handlers.antt =====
-- The handlers of billing/webhook-processor.ts, one for each event type, and the dispatch.
pub mod Guards
use town_api.Common.{
  String, Bool, true, false, not, ◌&&◌, ◌||◌, Option, none, some, List, [], ◌∷◌, ◌+◌, ◌==◌, nat_eq,
  if◌then◌else◌, or_else,
}
use town_api.Common.Time.{Timestamp, given, not_after}
use town_api.Membership.Rows.{
  EventType, Entitlement, AuditType, CheckoutStatus, text, flag, null, stripe_webhook_received,
  stripe_webhook_verified, stripe_webhook_rejected, stripe_subscription_linked, stripe_invoice_paid,
  stripe_cancellation_scheduled, stripe_cancellation_removed, stripe_subscription_deleted,
  stripe_payment_failed,
}
use town_api.Membership.Transitions.Input.{Input}
use town_api.Membership.Store.{
  Query, throw, failed, pure, ◌>>=◌, ◌>>◌, transaction, is_some, same_some,
}
use town_api.Membership.Repositories.{
  lock_entitlement_by_account_id, update_membership_entitlement, Mutation,
}
use town_api.Membership.Operations.{
  activate_membership, schedule_membership_cancellation, expire_membership, reactivate_membership,
}
use town_api.Membership.Run.{Runtime}
use town_api.Membership.Retry.{under}
use town_api.Billing.Stripe.{
  CheckoutSession, Invoice, Subscription, Event, typed_stripe_subscription, typed_stripe_invoice,
  typed_stripe_checkout_session, extract_customer_id, extract_current_period_end,
  invoice_subscription, given_text,
}
use town_api.Billing.Links.{mark_checkout_attempt_status}
use town_api.Billing.Webhook.{
  WebhookResult, WebhookDeps, Surroundings, audit_stripe_event, refuse, reconcile_account_id,
  transition_input, transition_and_answer, stripe_api_version,
}
use town_api.Billing.Handlers.Guards.{Refusal, price_refusal, update_refusal}

abbrev pub unexpected_object : Event → WebhookResult
unexpected_object ev = WebhookResult.rejected ev.type "unexpected_object" false

abbrev pub account_unresolved : Event → WebhookResult
account_unresolved ev = WebhookResult.rejected ev.type "account_unresolved" true

-- The columns that linking a subscription writes: the row's own, but for the references and the version.
abbrev pub linked : Entitlement → Option String → String → Mutation
linked e customer_id subscription_id = record {
  status = e.status;
  access_until = e.access_until;
  cancel_at_period_end = e.cancel_at_period_end;
  source = e.source;
  source_customer_id = elim e.source_customer_id [ some id ↦ some id | none ↦ customer_id ];
  source_subscription_id = some subscription_id;
  activated_at = e.activated_at;
  cancellation_requested_at = e.cancellation_requested_at;
  expired_at = e.expired_at;
  version = e.version + 1;
}

-- The inputs of the four transitions.
module _ (d : WebhookDeps) (ev : Event) (account_id : String) where
  abbrev pub paid_input : Option String → Subscription → Timestamp → Input
  paid_input customer_id s access_until =
      record (transition_input ev.id EventType.activate account_id d.now customer_id s.id) {
        access_until = some (some access_until);
      }

  abbrev pub cancel_input : Subscription → Input
  cancel_input s =
      record (transition_input ev.id EventType.schedule_cancellation account_id d.now
        (extract_customer_id s.customer) s.id) { cancel_at_period_end = some (some true) }

  abbrev pub resume_input : Subscription → Input
  resume_input s =
      record (transition_input ev.id EventType.reactivate account_id d.now
        (extract_customer_id s.customer) s.id) { cancel_at_period_end = some (some false) }

  abbrev pub ended_input : Subscription → Input
  ended_input s =
      transition_input ev.id EventType.expire account_id d.now (extract_customer_id s.customer) s.id

module _ (w : Surroundings) (rt : Runtime) (d : WebhookDeps) where
  unfoldable pub link_subscription :
      Option Entitlement → Option String → Option String → Query (Unit {0})
  unfolding update_membership_entitlement
  link_subscription none customer_id subscription_id = pure tt
  link_subscription (some e) customer_id subscription_id = elim (given_text subscription_id) [
    | none ↦ pure tt
    | some id ↦
        if same_some e.source_subscription_id (some id)
        then pure tt
        else update_membership_entitlement e.id (linked e customer_id id) d.now >> pure tt
  ]

  unfoldable pub mark_completed : String → String → Query (Unit {0})
  unfolding mark_checkout_attempt_status
  mark_completed account_id session_id =
      if session_id == ""
      then pure tt
      else mark_checkout_attempt_status account_id session_id CheckoutStatus.completed
          (some (some d.now))
        >> pure tt

  -- The transaction of a completed checkout. The lock on the account reads nothing.
  unfoldable pub link_checkout : CheckoutSession → String → Query (Unit {0})
  unfolding lock_entitlement_by_account_id link_subscription audit_stripe_event mark_completed
  link_checkout session account_id = do
    entitlement ← lock_entitlement_by_account_id account_id
    link_subscription entitlement (extract_customer_id session.customer)
        (extract_customer_id session.subscription)
    audit_stripe_event rt d (some account_id) stripe_subscription_linked
        (("hasSubscription", flag (is_some (extract_customer_id session.subscription))) ∷ [])
    mark_completed account_id session.id

  unfoldable pub complete_checkout : Event → CheckoutSession → String → Query WebhookResult
  unfolding link_checkout
  complete_checkout ev session account_id =
      if not (session.status == "complete") || session.payment_status == "unpaid"
      then pure (WebhookResult.ignored ev.type "session_not_complete")
      else (do
        under w.own (transaction (link_checkout session account_id))
        pure (WebhookResult.applied ev.type))

  unfoldable pub handle_checkout_session_completed : Event → Query WebhookResult
  unfolding complete_checkout
  handle_checkout_session_completed ev = elim (typed_stripe_checkout_session ev.object) [
    | none ↦ pure (unexpected_object ev)
    | some session ↦ (do
      account ← reconcile_account_id w.lookup (extract_customer_id session.customer)
      elim account [
        | none ↦
            refuse rt d none stripe_webhook_rejected ev.type "account_unresolved"
              (account_unresolved ev)
        | some account_id ↦ complete_checkout ev session account_id
      ])
  ]

  -- The steps after the price was accepted.
  unfoldable pub activate_paid : Event → String → Option String → Subscription → Query WebhookResult
  unfolding transition_and_answer
  activate_paid ev account_id customer_id s = elim (extract_current_period_end s) [
    | none ↦
        refuse rt d (some account_id) stripe_webhook_rejected ev.type "missing_current_period_end"
          (WebhookResult.rejected ev.type "missing_current_period_end" false)
    | some seconds ↦ elim (d.to_iso_string seconds) [
      | none ↦ λ t. throw (failed "Invalid time value") t
      | some access_until ↦
          transition_and_answer activate_membership w rt d
            (paid_input d ev account_id customer_id s access_until) ev.type stripe_invoice_paid
            (("stripeEventType", text ev.type) ∷ [])
    ]
  ]

  abbrev refuse_with : Event → Option String → Refusal → Query WebhookResult
  refuse_with ev account_id r =
      refuse rt d account_id r.event_type ev.type r.logged
        (WebhookResult.rejected ev.type r.answered false)

  unfoldable pub pay_invoice : Event → Invoice → String → Query WebhookResult
  unfolding activate_paid refuse
  pay_invoice ev i account_id = elim (given_text (invoice_subscription i)) [
    | none ↦
        refuse rt d (some account_id) stripe_webhook_rejected ev.type "invoice_missing_subscription"
          (WebhookResult.ignored ev.type "invoice_missing_subscription")
    | some id ↦ elim (d.retrieve_subscription id) [
      | none ↦ λ t. throw (failed "Stripe subscription retrieval failed") t
      | some s ↦ elim (price_refusal s d.config.price_id) [
        | some r ↦ refuse_with ev (some account_id) r
        | none ↦ activate_paid ev account_id (extract_customer_id i.customer) s
      ]
    ]
  ]

  unfoldable pub handle_invoice_paid : Event → Query WebhookResult
  unfolding pay_invoice
  handle_invoice_paid ev = elim (typed_stripe_invoice ev.object) [
    | none ↦ pure (unexpected_object ev)
    | some i ↦ (do
      account ← reconcile_account_id w.lookup (extract_customer_id i.customer)
      elim account [
        | none ↦
            refuse rt d none stripe_webhook_rejected ev.type "account_unresolved"
              (account_unresolved ev)
        | some account_id ↦ pay_invoice ev i account_id
      ])
  ]

  unfoldable pub handle_invoice_payment_failed : Event → Query WebhookResult
  unfolding audit_stripe_event
  handle_invoice_payment_failed ev = elim (typed_stripe_invoice ev.object) [
    | none ↦ pure (unexpected_object ev)
    | some i ↦ (do
      account ← reconcile_account_id w.lookup (extract_customer_id i.customer)
      elim account [
        | none ↦ pure (WebhookResult.ignored ev.type "account_unresolved")
        | some account_id ↦ (do
          audit_stripe_event rt d (some account_id) stripe_payment_failed
              (("stripeEventType", text ev.type) ∷ [])
          pure (WebhookResult.applied ev.type))
      ])
  ]

  unfoldable pub schedule_or_resume : Event → Subscription → String → Query WebhookResult
  unfolding transition_and_answer
  schedule_or_resume ev s account_id =
      if s.cancel_at_period_end
      then transition_and_answer schedule_membership_cancellation w rt d
          (cancel_input d ev account_id s) ev.type stripe_cancellation_scheduled
          (("stripeEventType", text ev.type) ∷ [])
      else transition_and_answer reactivate_membership w rt d (resume_input d ev account_id s)
          ev.type stripe_cancellation_removed (("stripeEventType", text ev.type) ∷ [])

  unfoldable pub update_subscription : Event → Subscription → String → Query WebhookResult
  unfolding schedule_or_resume refuse
  update_subscription ev s account_id = elim (update_refusal s d.config.price_id) [
    | some r ↦ refuse_with ev (some account_id) r
    | none ↦ schedule_or_resume ev s account_id
  ]

  unfoldable pub handle_subscription_updated : Event → Query WebhookResult
  unfolding update_subscription
  handle_subscription_updated ev = elim (typed_stripe_subscription ev.object) [
    | none ↦ pure (unexpected_object ev)
    | some s ↦ (do
      account ← reconcile_account_id w.lookup (extract_customer_id s.customer)
      elim account [
        | none ↦ pure (account_unresolved ev)
        | some account_id ↦ update_subscription ev s account_id
      ])
  ]

  -- The entitlement's access has ended.
  unfoldable pub has_ended : Option Entitlement → Bool
  has_ended none = false
  has_ended (some e) = elim (given e.access_until) [
    | none ↦ false
    | some until ↦ not_after until d.now
  ]

  unfoldable pub expire_or_preserve :
      Event → Subscription → String → Option Entitlement → Query WebhookResult
  unfolding transition_and_answer audit_stripe_event has_ended
  expire_or_preserve ev s account_id entitlement =
      if has_ended entitlement
      then transition_and_answer expire_membership w rt d (ended_input d ev account_id s) ev.type
          stripe_subscription_deleted
          (("stripeEventType", text ev.type) ∷ ("transition", text "expired") ∷ [])
      else (do
        audit_stripe_event rt d (some account_id) stripe_subscription_deleted
            (("stripeEventType", text ev.type) ∷ ("transition", text "preserved") ∷ [])
        pure (WebhookResult.applied ev.type))

  unfoldable pub handle_subscription_deleted : Event → Query WebhookResult
  unfolding expire_or_preserve lock_entitlement_by_account_id
  handle_subscription_deleted ev = elim (typed_stripe_subscription ev.object) [
    | none ↦ pure (unexpected_object ev)
    | some s ↦ (do
      account ← reconcile_account_id w.lookup (extract_customer_id s.customer)
      elim account [
        | none ↦ pure (account_unresolved ev)
        | some account_id ↦ (do
          entitlement ← under w.own (transaction (lock_entitlement_by_account_id account_id))
          expire_or_preserve ev s account_id entitlement)
      ])
  ]
