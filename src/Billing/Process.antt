-- ===== src/Billing/Process.antt =====
-- `processStripeWebhookEvent` of billing/webhook-processor.ts: the guards and the dispatch by type.
use town_api.Common.{String, Bool, false, not, Option, none, some, [], ◌∷◌, ◌==◌, if◌then◌else◌}
use town_api.Common.Tables.{any}
use town_api.Membership.Rows.{
  MetadataValue, text, null, stripe_webhook_received, stripe_webhook_verified,
  stripe_webhook_rejected,
}
use town_api.Membership.Store.{Query, pure, ◌>>◌}
use town_api.Membership.Run.{Runtime}
use town_api.Billing.Stripe.{Event}
use town_api.Billing.Webhook.{WebhookResult, WebhookDeps, Surroundings, audit_stripe_event, refuse}
use town_api.Billing.Handlers.{
  handle_checkout_session_completed, handle_invoice_paid, handle_invoice_payment_failed,
  handle_subscription_updated, handle_subscription_deleted,
}
use town_api.Billing.Handlers.Guards.{event_refusal}

-- `PROCESSED_EVENT_TYPES`.
unfoldable pub is_processed : String → Bool
is_processed type =
    any (λ t. type == t)
      ("checkout.session.completed" ∷ "invoice.paid" ∷ "invoice.payment_failed"
        ∷ "customer.subscription.updated" ∷ "customer.subscription.deleted" ∷ [])

abbrev text_or_null : Option String → MetadataValue
text_or_null none = null
text_or_null (some t) = text t

abbrev pub unhandled : Event → WebhookResult
unhandled ev = WebhookResult.ignored ev.type "unhandled_event_type"

module _ (w : Surroundings) (rt : Runtime) (d : WebhookDeps) where
  unfoldable pub dispatch : Event → Query WebhookResult
  unfolding handle_checkout_session_completed handle_invoice_paid handle_invoice_payment_failed
      handle_subscription_updated handle_subscription_deleted
  dispatch ev =
      if ev.type == "checkout.session.completed"
      then handle_checkout_session_completed w rt d ev
      else if ev.type == "invoice.paid"
      then handle_invoice_paid w rt d ev
      else if ev.type == "invoice.payment_failed"
      then handle_invoice_payment_failed w rt d ev
      else if ev.type == "customer.subscription.updated"
      then handle_subscription_updated w rt d ev
      else if ev.type == "customer.subscription.deleted"
      then handle_subscription_deleted w rt d ev
      else pure (unhandled ev)

  -- After the tests on the version and the mode.
  unfoldable pub process_accepted : Event → Query WebhookResult
  unfolding is_processed audit_stripe_event dispatch
  process_accepted ev = if not (is_processed ev.type) then pure (unhandled ev) else (do
    audit_stripe_event rt d none stripe_webhook_verified (("stripeEventType", text ev.type) ∷ [])
    dispatch ev)

  unfoldable pub process_stripe_webhook_event : Event → Query WebhookResult
  unfolding audit_stripe_event event_refusal refuse process_accepted
  process_stripe_webhook_event ev = do
    audit_stripe_event rt d none stripe_webhook_received
        (("stripeEventType", text ev.type) ∷ ("apiVersion", text_or_null ev.api_version) ∷ [])
    elim (event_refusal d.config ev) [
      | some reason ↦
          refuse rt d none stripe_webhook_rejected ev.type reason
            (WebhookResult.rejected ev.type reason false)
      | none ↦ process_accepted ev
    ]
