-- ===== src/Billing/Paths.antt =====
-- The processing of a webhook event, path by path: what it ensures (`R`) where its parts keep a
-- property of the tables (`P`) and its transitions and its linking ensure `R`.
use town_api.Common.{
  ◌∙◌, ◌||◌, not, String, false, Option, none, some, List, ◌≡◌, ◌≢◌, eq_iff, refl, arith, inl, inr,
  Bool-cases, Option-cases, ◌==◌,
}
use town_api.Membership.Rows.{Entitlement, AuditType, MetadataValue}
use town_api.Membership.Store.{
  Error, throw, Outcome, pure, ◌>>◌, Store, Query, ok, ◌>>=◌, transaction,
}
use town_api.Membership.Audit.{append_identity_security_event}
use town_api.Membership.Transitions.Input.{Input}
use town_api.Membership.Operations.{
  reactivate_membership, schedule_membership_cancellation, activate_membership, expire_membership,
  Operation,
}
use town_api.Membership.Run.{Runtime}
use town_api.Membership.Run.Effects.{SameTables}
use town_api.Membership.Run.Laws.{store_after, bind-keeps}
use town_api.Membership.Retry.{under}
use town_api.Membership.Retry.Laws.{under-keeps}
use town_api.Billing.Links.{find_customer_link_by_stripe_customer_id}
use town_api.Billing.Handlers.Guards.{event_refusal, price_refusal, update_refusal}
use town_api.Billing.Process.{
  dispatch, is_processed, process_accepted, process_stripe_webhook_event,
}
use town_api.Membership.Repositories.{lock_entitlement_by_account_id}
use town_api.Billing.Stripe.{
  invoice_subscription, extract_current_period_end, given_text, subscription, invoice,
  typed_stripe_invoice, typed_stripe_subscription, typed_stripe_checkout_session, Subscription,
  Invoice, checkout_session, Event, StripeObject, CheckoutSession, extract_customer_id,
}
use town_api.Billing.Webhook.{
  transition_and_answer, reconcile_account_id, WebhookResult, WebhookDeps, Surroundings,
  audit_stripe_event, refuse,
}
use town_api.Billing.Handlers.{
  resume_input, cancel_input, ended_input, paid_input, has_ended, complete_checkout,
  schedule_or_resume, update_subscription, handle_invoice_paid, handle_subscription_updated,
  activate_paid, handle_subscription_deleted, handle_invoice_payment_failed, pay_invoice,
  handle_checkout_session_completed, expire_or_preserve, link_checkout,
}

pub audit_stripe_event-SameTables :
    (rt : Runtime) (d : WebhookDeps) (account_id : Option String) (event_type : AuditType)
    (metadata : List (String × MetadataValue)) (s : Store)
    → SameTables s (store_after (audit_stripe_event rt d account_id event_type metadata s))
unfolding audit_stripe_event append_identity_security_event
audit_stripe_event-SameTables rt d account_id event_type metadata s = ground arith

pub audited-SameTables :
    (rt : Runtime) (d : WebhookDeps) (account_id : Option String) (event_type : AuditType)
    (metadata : List (String × MetadataValue)) (s : Store) {x : Unit {0}} {t : Store}
    → audit_stripe_event rt d account_id event_type metadata s ≡ ok x t
    → SameTables s t
audited-SameTables rt d account_id event_type metadata s h =
    rw (store_after, h) at (audit_stripe_event-SameTables rt d account_id event_type metadata s)

pub SameTables-trans : {s t u : Store} → SameTables s t → SameTables t u → SameTables s u
SameTables-trans a b = record {
  accounts = b.accounts ∙ a.accounts;
  entitlements = b.entitlements ∙ a.entitlements;
  source_events = b.source_events ∙ a.source_events;
  purchase_links = b.purchase_links ∙ a.purchase_links;
  customer_links = b.customer_links ∙ a.customer_links;
  checkout_attempts = b.checkout_attempts ∙ a.checkout_attempts;
  rate_limits = b.rate_limits ∙ a.rate_limits;
}

-- The customer of an event's object.
abbrev pub customer_of : StripeObject → Option String
customer_of (checkout_session c) = extract_customer_id c.customer
customer_of (invoice i) = extract_customer_id i.customer
customer_of (subscription s) = extract_customer_id s.customer
customer_of StripeObject.other_object = none

session-customer :
    (o : StripeObject) (c : CheckoutSession)
    → typed_stripe_checkout_session o ≡ some c
    → customer_of o ≡ extract_customer_id c.customer
session-customer (checkout_session c') c h = ground arith
session-customer _ c h = absurd (cc)

pub invoice-customer :
    (o : StripeObject) (i : Invoice)
    → typed_stripe_invoice o ≡ some i
    → customer_of o ≡ extract_customer_id i.customer
invoice-customer (invoice i') i h = ground arith
invoice-customer _ i h = absurd (cc)

subscription-customer :
    (o : StripeObject) (s : Subscription)
    → typed_stripe_subscription o ≡ some s
    → customer_of o ≡ extract_customer_id s.customer
subscription-customer (subscription s') s h = ground arith
subscription-customer _ s h = absurd (cc)

-- `Q` holds of the account that the customer's look-up finds.
abbrev pub Resolves : (String → Type 0) → Surroundings → Option String → Store → Type 0
Resolves Q w customer_id u =
    (a : String) (t : Store) → reconcile_account_id w.lookup customer_id u ≡ ok (some a) t → Q a

-- The event tells of the session `c`, which is complete and not unpaid.
abbrev pub IsCompleted : Event → CheckoutSession → Type 0
IsCompleted ev c =
    (ev.type ≡ "checkout.session.completed")
    × (typed_stripe_checkout_session ev.object ≡ some c)
    × (c.status ≡ "complete")
    × (c.payment_status ≢ "unpaid")

completed :
    (c : CheckoutSession)
    → (not (c.status == "complete") || c.payment_status == "unpaid") ≡ false
    → (c.status ≡ "complete") × (c.payment_status ≢ "unpaid")
completed c h = (
  (eq_iff c.status "complete").0 (ground arith),
  λ unpaid. let same = (eq_iff c.payment_status "unpaid").1 unpaid in ground arith,
)

-- `Q` is a property of the account that the event is for, `E` one of the event.
module _ (P : Store → Type 0) (R : Outcome WebhookResult → Type 0) (Q : String → Type 0)
    (E : Event → Type 0) (w : Surroundings) (rt : Runtime) (d : WebhookDeps)
    (same_keeps : (s t : Store) → SameTables s t → P s → P t)
    (lookup_keeps : (u : Store) → P u → P (w.lookup.others u))
    (own_keeps : (u : Store) → P u → P (w.own.others u))
    (answers : (r : WebhookResult) (t : Store) → P t → R (ok r t))
    (fails : (e : Error) (t : Store) → P t → R (throw e t))
    (moves : (op : Operation) (i : Input) (type : String) (event_type : AuditType)
        (metadata : List (String × MetadataValue)) (u : Store)
      → Q i.account_id
      → P u
      → R (transition_and_answer op w rt d i type event_type metadata u))
    (links : (ev : Event) (c : CheckoutSession) (a : String) (u : Store)
      → E ev
      → IsCompleted ev c
      → Q a
      → P u
      → R (
          (under w.own (transaction (link_checkout w rt d c a))
              >> pure (WebhookResult.applied ev.type))
            u)) where
  bind-leads :
      {A : Type 0} (m : Query A) (f : A → Query WebhookResult) (u : Store)
      → P (store_after (m u))
      → ((a : A) (t : Store) → P t → R (f a t))
      → R (◌>>=◌ m f u)
  bind-leads {A} m f u first rest = by_outcome (m u) first
    where
      by_outcome :
          (o : Outcome A)
          → P (store_after o)
          → R (elim o [ ok a t ↦ f a t | throw e t ↦ throw e t ])
      by_outcome (ok a t) h = rest a t h
      by_outcome (throw e t) h = fails e t h

  audit-keeps :
      (account_id : Option String) (event_type : AuditType)
      (metadata : List (String × MetadataValue)) (u : Store)
      → P u
      → P (store_after (audit_stripe_event rt d account_id event_type metadata u))
  audit-keeps account_id event_type metadata u h =
      same_keeps u (store_after (audit_stripe_event rt d account_id event_type metadata u))
        (audit_stripe_event-SameTables rt d account_id event_type metadata u) h

  -- An audit entry, and then an answer.
  audit_then-leads :
      (account_id : Option String) (event_type : AuditType)
      (metadata : List (String × MetadataValue)) (answer : WebhookResult) (u : Store)
      → P u
      → R ((audit_stripe_event rt d account_id event_type metadata >> pure answer) u)
  audit_then-leads account_id event_type metadata answer u h =
      bind-leads (audit_stripe_event rt d account_id event_type metadata) (λ x. pure answer) u
        (audit-keeps account_id event_type metadata u h) (λ x t k. answers answer t k)

  refuse-leads :
      (account_id : Option String) (event_type : AuditType) (type reason : String)
      (answer : WebhookResult) (u : Store)
      → P u
      → R (refuse rt d account_id event_type type reason answer u)
  unfolding refuse
  refuse-leads account_id event_type type reason answer u h =
      audit_then-leads account_id event_type _ answer u h

  -- An audit entry, and what follows it.
  audit_first-leads :
      (account_id : Option String) (event_type : AuditType)
      (metadata : List (String × MetadataValue)) (f : Query WebhookResult) (u : Store)
      → ((t : Store) → SameTables u t → P t → R (f t))
      → P u
      → R ((audit_stripe_event rt d account_id event_type metadata >> f) u)
  audit_first-leads account_id event_type metadata f u rest h =
      by_outcome (audit_stripe_event rt d account_id event_type metadata u)
        (audit_stripe_event-SameTables rt d account_id event_type metadata u)
    where
      by_outcome :
          (o : Outcome (Unit {0}))
          → SameTables u (store_after o)
          → R (elim o [ ok a t ↦ f t | throw e t ↦ throw e t ])
      by_outcome (ok a t) same = rest t same (same_keeps u t same h)
      by_outcome (throw e t) same = fails e t (same_keeps u t same h)

  reconcile-keeps :
      (customer_id : Option String) (u : Store)
      → P u
      → P (store_after (reconcile_account_id w.lookup customer_id u))
  unfolding reconcile_account_id find_customer_link_by_stripe_customer_id
  reconcile-keeps customer_id u h = elim (Option-cases (given_text customer_id)) [
    | inl empty ↦ rw (store_after, empty) h
    | inr (id, given) ↦
        rw (store_after, given)
          (bind-keeps P (under w.lookup (find_customer_link_by_stripe_customer_id id)) _ u
            (under-keeps P w.lookup (find_customer_link_by_stripe_customer_id id) u lookup_keeps
              (λ v k. k) h)
            (λ l t k. k))
  ]

  -- The look-up of the account, and what the handler does with it.
  resolved-leads :
      (customer_id : Option String) (f : Option String → Query WebhookResult) (u : Store)
      → Resolves Q w customer_id u
      → ((t : Store) → P t → R (f none t))
      → ((a : String) (t : Store) → Q a → P t → R (f (some a) t))
      → P u
      → R (◌>>=◌ (reconcile_account_id w.lookup customer_id) f u)
  resolved-leads customer_id f u resolves missing found h =
      by_outcome (reconcile_account_id w.lookup customer_id u) refl
        (reconcile-keeps customer_id u h)
    where
      by_outcome :
          (o : Outcome (Option String))
          → reconcile_account_id w.lookup customer_id u ≡ o
          → P (store_after o)
          → R (elim o [ ok a t ↦ f a t | throw e t ↦ throw e t ])
      by_outcome (ok none t) ran k = missing t k
      by_outcome (ok (some a) t) ran k = found a t (resolves a t ran) k
      by_outcome (throw e t) ran k = fails e t k

  checkout-leads :
      (ev : Event) (u : Store)
      → E ev
      → ev.type ≡ "checkout.session.completed"
      → Resolves Q w (customer_of ev.object) u
      → P u
      → R (handle_checkout_session_completed w rt d ev u)
  unfolding handle_checkout_session_completed complete_checkout
  checkout-leads ev u which kind resolves h =
      elim (Option-cases (typed_stripe_checkout_session ev.object)) [
        | inl other ↦ rw (handle_checkout_session_completed, other) (answers _ u h)
        | inr (c, typed) ↦
            rw (handle_checkout_session_completed, typed)
              (resolved-leads (extract_customer_id c.customer) _ u
                (rw (session-customer ev.object c typed) at resolves)
                (λ t k. refuse-leads none _ ev.type _ _ t k)
                (λ a t q k.
                  elim (Bool-cases (not (c.status == "complete") || c.payment_status == "unpaid")) [
                    | inl incomplete ↦ rw (complete_checkout, incomplete) (answers _ t k)
                    | inr complete ↦
                        rw (complete_checkout, complete)
                          (let (whole, paid) = completed c complete in
                            links ev c a t which (kind, typed, whole, paid) q k)
                  ])
                h)
      ]

  activate_paid-leads :
      (ev : Event) (a : String) (customer_id : Option String) (s : Subscription) (u : Store)
      → Q a
      → P u
      → R (activate_paid w rt d ev a customer_id s u)
  unfolding activate_paid
  activate_paid-leads ev a customer_id s u q h =
      elim (Option-cases (extract_current_period_end s)) [
        | inl missing ↦ rw (activate_paid, missing) (refuse-leads (some a) _ ev.type _ _ u h)
        | inr (seconds, ends) ↦ elim (Option-cases (d.to_iso_string seconds)) [
          | inl invalid ↦ rw (activate_paid, ends, invalid) (fails _ u h)
          | inr (until, valid) ↦
              rw (activate_paid, ends, valid)
                (moves activate_membership (paid_input d ev a customer_id s until) ev.type _ _ u q
                  h)
        ]
      ]

  pay_invoice-leads :
      (ev : Event) (i : Invoice) (a : String) (u : Store)
      → Q a
      → P u
      → R (pay_invoice w rt d ev i a u)
  unfolding pay_invoice
  pay_invoice-leads ev i a u q h = elim (Option-cases (given_text (invoice_subscription i))) [
    | inl missing ↦ rw (pay_invoice, missing) (refuse-leads (some a) _ ev.type _ _ u h)
    | inr (id, given) ↦ elim (Option-cases (d.retrieve_subscription id)) [
      | inl down ↦ rw (pay_invoice, given, down) (fails _ u h)
      | inr (s, found) ↦ elim (Option-cases (price_refusal s d.config.price_id)) [
        | inl annual ↦
            rw (pay_invoice, given, found, annual)
              (activate_paid-leads ev a (extract_customer_id i.customer) s u q h)
        | inr (r, other) ↦
            rw (pay_invoice, given, found, other)
              (refuse-leads (some a) r.event_type ev.type r.logged _ u h)
      ]
    ]
  ]

  invoice_paid-leads :
      (ev : Event) (u : Store)
      → Resolves Q w (customer_of ev.object) u
      → P u
      → R (handle_invoice_paid w rt d ev u)
  unfolding handle_invoice_paid
  invoice_paid-leads ev u resolves h = elim (Option-cases (typed_stripe_invoice ev.object)) [
    | inl other ↦ rw (handle_invoice_paid, other) (answers _ u h)
    | inr (i, typed) ↦
        rw (handle_invoice_paid, typed)
          (resolved-leads (extract_customer_id i.customer) _ u
            (rw (invoice-customer ev.object i typed) at resolves)
            (λ t k. refuse-leads none _ ev.type _ _ t k) (λ a t q k. pay_invoice-leads ev i a t q k)
            h)
  ]

  payment_failed-leads :
      (ev : Event) (u : Store)
      → Resolves Q w (customer_of ev.object) u
      → P u
      → R (handle_invoice_payment_failed w rt d ev u)
  unfolding handle_invoice_payment_failed
  payment_failed-leads ev u resolves h = elim (Option-cases (typed_stripe_invoice ev.object)) [
    | inl other ↦ rw (handle_invoice_payment_failed, other) (answers _ u h)
    | inr (i, typed) ↦
        rw (handle_invoice_payment_failed, typed)
          (resolved-leads (extract_customer_id i.customer) _ u
            (rw (invoice-customer ev.object i typed) at resolves) (λ t k. answers _ t k)
            (λ a t q k. audit_then-leads (some a) _ _ _ t k) h)
  ]

  update_subscription-leads :
      (ev : Event) (s : Subscription) (a : String) (u : Store)
      → Q a
      → P u
      → R (update_subscription w rt d ev s a u)
  unfolding update_subscription schedule_or_resume
  update_subscription-leads ev s a u q h =
      elim (Option-cases (update_refusal s d.config.price_id)) [
        | inr (r, refused) ↦
            rw (update_subscription, refused)
              (refuse-leads (some a) r.event_type ev.type r.logged _ u h)
        | inl supported ↦ elim (Bool-cases s.cancel_at_period_end) [
          | inl cancels ↦
              rw (update_subscription, schedule_or_resume, supported, cancels)
                (moves schedule_membership_cancellation (cancel_input d ev a s) ev.type _ _ u q h)
          | inr renews ↦
              rw (update_subscription, schedule_or_resume, supported, renews)
                (moves reactivate_membership (resume_input d ev a s) ev.type _ _ u q h)
        ]
      ]

  subscription_updated-leads :
      (ev : Event) (u : Store)
      → Resolves Q w (customer_of ev.object) u
      → P u
      → R (handle_subscription_updated w rt d ev u)
  unfolding handle_subscription_updated
  subscription_updated-leads ev u resolves h =
      elim (Option-cases (typed_stripe_subscription ev.object)) [
        | inl other ↦ rw (handle_subscription_updated, other) (answers _ u h)
        | inr (s, typed) ↦
            rw (handle_subscription_updated, typed)
              (resolved-leads (extract_customer_id s.customer) _ u
                (rw (subscription-customer ev.object s typed) at resolves) (λ t k. answers _ t k)
                (λ a t q k. update_subscription-leads ev s a t q k) h)
      ]

  expire_or_preserve-leads :
      (ev : Event) (s : Subscription) (a : String) (e : Option Entitlement) (u : Store)
      → Q a
      → P u
      → R (expire_or_preserve w rt d ev s a e u)
  unfolding expire_or_preserve
  expire_or_preserve-leads ev s a e u q h = elim (Bool-cases (has_ended w rt d e)) [
    | inl ended ↦
        rw (expire_or_preserve, ended)
          (moves expire_membership (ended_input d ev a s) ev.type _ _ u q h)
    | inr lasts ↦ rw (expire_or_preserve, lasts) (audit_then-leads (some a) _ _ _ u h)
  ]

  subscription_deleted-leads :
      (ev : Event) (u : Store)
      → Resolves Q w (customer_of ev.object) u
      → P u
      → R (handle_subscription_deleted w rt d ev u)
  unfolding handle_subscription_deleted lock_entitlement_by_account_id
  subscription_deleted-leads ev u resolves h =
      elim (Option-cases (typed_stripe_subscription ev.object)) [
        | inl other ↦ rw (handle_subscription_deleted, other) (answers _ u h)
        | inr (s, typed) ↦
            rw (handle_subscription_deleted, typed)
              (resolved-leads (extract_customer_id s.customer) _ u
                (rw (subscription-customer ev.object s typed) at resolves) (λ t k. answers _ t k)
                (λ a t q k.
                  bind-leads (under w.own (transaction (lock_entitlement_by_account_id a))) _ t
                    (under-keeps P w.own (transaction (lock_entitlement_by_account_id a)) t
                      own_keeps (λ v l. l) k)
                    (λ e v l. expire_or_preserve-leads ev s a e v q l))
                h)
      ]

  pub dispatch-leads :
      (ev : Event) (u : Store)
      → E ev
      → Resolves Q w (customer_of ev.object) u
      → P u
      → R (dispatch w rt d ev u)
  unfolding dispatch
  dispatch-leads ev u which resolves h =
      elim (Bool-cases (ev.type == "checkout.session.completed")) [
        | inl one ↦ rw one (
            checkout-leads ev u which ((eq_iff ev.type "checkout.session.completed").0 one) resolves
              h)
        | inr a ↦ elim (Bool-cases (ev.type == "invoice.paid")) [
          | inl two ↦ rw (a, two) (invoice_paid-leads ev u resolves h)
          | inr b ↦ elim (Bool-cases (ev.type == "invoice.payment_failed")) [
            | inl three ↦ rw (a, b, three) (payment_failed-leads ev u resolves h)
            | inr c ↦ elim (Bool-cases (ev.type == "customer.subscription.updated")) [
              | inl four ↦ rw (a, b, c, four) (subscription_updated-leads ev u resolves h)
              | inr e ↦ elim (Bool-cases (ev.type == "customer.subscription.deleted")) [
                | inl five ↦ rw (a, b, c, e, five) (subscription_deleted-leads ev u resolves h)
                | inr other ↦ rw (a, b, c, e, other) (answers _ u h)
              ]
            ]
          ]
        ]
      ]

  accepted-leads :
      (ev : Event) (u : Store)
      → E ev
      → ((t : Store) → SameTables u t → Resolves Q w (customer_of ev.object) t)
      → P u
      → R (process_accepted w rt d ev u)
  unfolding process_accepted
  accepted-leads ev u which resolves h = elim (Bool-cases (is_processed ev.type)) [
    | inl known ↦ rw known (
        audit_first-leads none _ _ (dispatch w rt d ev) u
          (λ t same k. dispatch-leads ev t which (resolves t same) k) h)
    | inr other ↦ rw other (answers _ u h)
  ]

  -- The whole processing keeps what its audit entries, its transitions and its linking keep.
  pub webhook-leads :
      (ev : Event) (s : Store)
      → E ev
      → ((t : Store) → SameTables s t → Resolves Q w (customer_of ev.object) t)
      → P s
      → R (process_stripe_webhook_event w rt d ev s)
  unfolding process_stripe_webhook_event
  webhook-leads ev s which resolves h =
      audit_first-leads none _ _ _ s
        (λ t same k. elim (Option-cases (event_refusal d.config ev)) [
          | inr (reason, refused) ↦ rw refused (refuse-leads none _ ev.type reason _ t k)
          | inl fine ↦
              rw fine
                (accepted-leads ev t which (λ u also. resolves u (SameTables-trans same also)) k)
        ])
        h
