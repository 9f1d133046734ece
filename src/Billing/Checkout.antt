-- ===== src/Billing/Checkout.antt =====
-- What the transaction of a completed checkout changes (`handleCheckoutSessionCompleted` of
-- billing/webhook-processor.ts).
use town_api.Common.{
  String, Option, none, some, ◌≡◌, refl, arith, inl, inr, ◌∙◌, Bool-cases, Option-cases,
}
use town_api.Membership.Rows.{stripe_subscription_linked, Entitlement}
use town_api.Membership.Store.{pure, same_some, Store, ok}
use town_api.Membership.Repositories.{entitlement_of, update_membership_entitlement}
use town_api.Membership.Run.{Runtime}
use town_api.Membership.Run.Effects.{SameTables, after}
use town_api.Billing.Stripe.{extract_customer_id, given_text, CheckoutSession}
use town_api.Membership.Repositories.{lock_entitlement_by_account_id}
use town_api.Billing.Links.{mark_checkout_attempt_status}
use town_api.Billing.Webhook.{audit_stripe_event, WebhookDeps, Surroundings}
use town_api.Billing.Handlers.{link_checkout, link_subscription, linked, mark_completed}
use town_api.Billing.Paths.{audited-SameTables}

-- What the transaction of a completed checkout does to the entitlements and the ledger.
pub data LinkEffect (a : String) (d : WebhookDeps) (s t : Store) : Type 0 where
  unlinked :
      t.entitlements ≡ s.entitlements → t.source_events ≡ s.source_events → LinkEffect a d s t
  relinked :
      (e row : Entitlement) (customer_id : Option String) (id : String) (u : Store)
      → entitlement_of a s ≡ some e
      → update_membership_entitlement e.id (linked e customer_id id) d.now s ≡ ok row u
      → t.entitlements ≡ u.entitlements
      → t.source_events ≡ u.source_events
      → LinkEffect a d s t

module _ (w : Surroundings) (rt : Runtime) (d : WebhookDeps) where
  link_subscription-LinkEffect :
      (a : String) (e : Option Entitlement) (customer_id subscription_id : Option String)
      (s : Store) {x : Unit {0}} {t : Store}
      → entitlement_of a s ≡ e
      → link_subscription w rt d e customer_id subscription_id s ≡ ok x t
      → LinkEffect a d s t
  unfolding link_subscription
  link_subscription-LinkEffect a none customer_id subscription_id s found h =
      unlinked (ground arith) (ground arith)
  link_subscription-LinkEffect a (some e) customer_id subscription_id s {x} {t} found h =
      elim (Option-cases (given_text subscription_id)) [
        | inl empty ↦ unlinked (ground arith) (ground arith)
        | inr (id, given) ↦ elim (Bool-cases (same_some e.source_subscription_id (some id))) [
          | inl same ↦ unlinked (ground arith) (ground arith)
          | inr other ↦
              after (update_membership_entitlement e.id (linked e customer_id id) d.now)
                (λ row. pure tt) s (rw (link_subscription, given, other) at h)
                (λ row u ran rest.
                  relinked e row customer_id id u found ran (ground arith) (ground arith))
        ]
      ]

  mark_completed-tables :
      (a session_id : String) (s : Store) {x : Unit {0}} {t : Store}
      → mark_completed w rt d a session_id s ≡ ok x t
      → (t.entitlements ≡ s.entitlements) × (t.source_events ≡ s.source_events)
  unfolding mark_completed mark_checkout_attempt_status
  mark_completed-tables a session_id s h = (ground arith, ground arith)

  later :
      {a : String} {s t u : Store}
      → LinkEffect a d s t
      → u.entitlements ≡ t.entitlements
      → u.source_events ≡ t.source_events
      → LinkEffect a d s u
  later (unlinked rows ledger) rows' ledger' = unlinked (rows' ∙ rows) (ledger' ∙ ledger)
  later (relinked e row customer_id id v found ran rows ledger) rows' ledger' =
      relinked e row customer_id id v found ran (rows' ∙ rows) (ledger' ∙ ledger)

  pub link_checkout-LinkEffect :
      (c : CheckoutSession) (a : String) (s : Store) {x : Unit {0}} {t : Store}
      → link_checkout w rt d c a s ≡ ok x t
      → LinkEffect a d s t
  unfolding link_checkout lock_entitlement_by_account_id
  link_checkout-LinkEffect c a s h =
      after
        (link_subscription w rt d (entitlement_of a s) (extract_customer_id c.customer)
          (extract_customer_id c.subscription))
        _ s h
        (λ x u did rest.
          after (audit_stripe_event rt d (some a) stripe_subscription_linked _) _ u rest
            (λ y v logged marking.
              let same : SameTables u v =
                audited-SameTables rt d (some a) stripe_subscription_linked _ u logged in
              let (rows, ledger) = mark_completed-tables a c.id v marking in
              later (link_subscription-LinkEffect a (entitlement_of a s) _ _ s refl did)
                (rows ∙ same.entitlements) (ledger ∙ same.source_events)))
