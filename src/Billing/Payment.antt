-- ===== src/Billing/Payment.antt =====
-- A paid invoice (`handleInvoicePaid` of billing/webhook-processor.ts).
use town_api.Common.{
  [], ◌∷◌, ◌∷◌, List, ℕ, String, Option, none, some, ◌≡◌, ◌≢◌, refl, arith, inl, inr, Option-cases,
}
use town_api.Membership.Rows.{stripe_webhook_rejected, AuditType, EventResult, Status}
use town_api.Membership.Store.{Query, pure, Store, ok}
use town_api.Membership.Invariant.{IsSound, status_of}
use town_api.Membership.Operations.{activate_membership}
use town_api.Membership.Steps.{Edge, begin, renew, return, resume}
use town_api.Membership.Run.{Runtime, TransitionOutcome}
use town_api.Membership.Run.Effects.{after}
use town_api.Membership.Retry.{under}
use town_api.Membership.Retry.Effect.{IsQuiet, Did}
use town_api.Billing.Stripe.{
  invoice_subscription, extract_customer_id, given_text, Invoice, typed_stripe_invoice, Item,
  extract_current_period_end, Subscription, Price, Event,
}
use town_api.Billing.Webhook.{
  reconcile_account_id, audit_stripe_event, refuse, WebhookResult, WebhookDeps, Surroundings,
  transition_outcome_to_webhook_result,
}
use town_api.Billing.Handlers.{
  account_unresolved, handle_invoice_paid, pay_invoice, activate_paid, paid_input,
}
use town_api.Billing.Handlers.Guards.{
  price_refusal, is_other_price, annual_refusal, first_price, price_reason,
}
use town_api.Billing.Price.{assert_annual_price, assert_annual_price_iff, accepted, IsAnnual}
use town_api.Membership.Repositories.{entitlement_of}
use town_api.Membership.Rows.{CustomerLink}
use town_api.Billing.Links.{customer_link_of, find_customer_link_by_stripe_customer_id}
use town_api.Billing.Stripe.{given_text}
use town_api.Billing.Webhook.{reconcile_account_id}
use town_api.Billing.Answers.{IsStill, transition-Did}

-- Every edge of `activate` leads to `active`.
activates : {old new : Status} → Edge activate_membership old new → new ≡ Status.active
activates begin = refl
activates renew = refl
activates return = refl
activates resume = refl

refuse-answers :
    (rt : Runtime) (d : WebhookDeps) (account_id : Option String) (event_type : AuditType)
    (type reason : String) (answer : WebhookResult) (u : Store) {r : WebhookResult} {t : Store}
    → refuse rt d account_id event_type type reason answer u ≡ ok r t
    → r ≡ answer
unfolding refuse
refuse-answers rt d account_id event_type type reason answer u run =
    after (audit_stripe_event rt d account_id event_type _) (λ x. pure answer) u run
      (λ x v logged rest. ground arith)

accepted_own :
    (p : Price) (x : String)
    → price_reason (assert_annual_price p x) ≡ none
    → assert_annual_price p x ≡ accepted p.id
unfolding assert_annual_price
accepted_own p x h = elim (Option-cases p.recurring) [
  | inl once ↦ absurd (ground arith)
  | inr (r, recurs) ↦ ground arith
]

annual_refusal-IsAnnual : (p : Price) (x : String) → annual_refusal (some p) x ≡ none → IsAnnual p x
unfolding annual_refusal
annual_refusal-IsAnnual p x h = elim (Option-cases (price_reason (assert_annual_price p x))) [
  | inl accepts ↦ (assert_annual_price_iff p x).0 (accepted_own p x accepts)
  | inr (reason, refuses) ↦ absurd (ground arith)
]

items-IsAnnual :
    (s : Subscription) (items : List Item) (x : String)
    → s.items ≡ items
    → price_refusal s x ≡ none
    → (item : Item) × (p : Price) × (s.items ≡ item ∷ []) × (item.price ≡ some p) × IsAnnual p x
unfolding price_refusal is_other_price
items-IsAnnual s [] x known h = absurd (ground arith)
items-IsAnnual s (item ∷ []) x known h = elim (Option-cases item.price) [
  | inl bare ↦ absurd (ground arith)
  | inr (p, priced) ↦
      let first : first_price s.items ≡ some p = ground arith in
      (item, p, known, priced, annual_refusal-IsAnnual p x (ground (arith, first)))
]
items-IsAnnual s (item ∷ other ∷ items) x known h = absurd (ground arith)

-- The subscription that the invoice names was retrieved, and it has one item, at the annual price.
pub record IsAnnualInvoice (d : WebhookDeps) (i : Invoice) (subscription : Subscription)
    : Type 0 where
  pub reference : String
  pub item : Item
  pub price : Price
  pub named : given_text (invoice_subscription i) ≡ some reference
  pub retrieved : d.retrieve_subscription reference ≡ some subscription
  pub single : subscription.items ≡ item ∷ []
  pub priced : item.price ≡ some price
  pub annual : IsAnnual price d.config.price_id

-- The membership of the account is active, and those of the others are as before.
pub record IsActivated (account_id : String) (s t : Store) : Type 0 where
  pub active : status_of account_id t ≡ Status.active
  pub others : (b : String) → b ≢ account_id → entitlement_of b t ≡ entitlement_of b s

-- The customer is linked to the account.
pub record IsLinkedTo (customer_id : Option String) (account_id : String) (s : Store) : Type 0 where
  pub customer : String
  pub link : CustomerLink
  pub given : given_text customer_id ≡ some customer
  pub found : customer_link_of customer s ≡ some link
  pub owner : link.account_id ≡ account_id

applied_answer :
    (o : TransitionOutcome) (type : String)
    → WebhookResult.applied type ≡ transition_outcome_to_webhook_result o type
    → o.result ≡ EventResult.applied
unfolding transition_outcome_to_webhook_result
applied_answer o type h = ground arith

module _ {links : String → ℕ} (w : Surroundings) (rt : Runtime) (d : WebhookDeps)
    (still : IsStill links w) where
  activate_paid-IsActivated :
      (ev : Event) (a : String) (customer_id : Option String) (sub : Subscription) (s : Store)
      (t : Store)
      → IsSound links s
      → activate_paid w rt d ev a customer_id sub s ≡ ok (WebhookResult.applied ev.type) t
      → IsActivated a s t
  unfolding activate_paid
  activate_paid-IsActivated ev a customer_id sub s t h run =
      elim (Option-cases (extract_current_period_end sub)) [
        | inl missing ↦
            absurd (
              cc
                (refuse-answers rt d (some a) _ ev.type _ _ s (rw (activate_paid, missing) at run)))
        | inr (seconds, ends) ↦ elim (Option-cases (d.to_iso_string seconds)) [
          | inl invalid ↦ absurd (cc (rw (activate_paid, ends, invalid) at run))
          | inr (until, valid) ↦
              let (o, did, answer) =
                transition-Did w rt d still activate_membership
                  (paid_input d ev a customer_id sub until) ev.type _ _ s h
                  (rw (activate_paid, ends, valid) at run) in
              record {
                active = applied-active a s t o did (applied_answer o ev.type answer);
                others = did.others;
              }
        ]
      ]
    where
      applied-active :
          (a : String) (s t : Store) (o : TransitionOutcome)
          → Did activate_membership a s o t
          → o.result ≡ EventResult.applied
          → status_of a t ≡ Status.active
      applied-active a s t o did done = elim did.edge [
        | inl (same, row, edge) ↦ activates edge
        | inr (other, rows) ↦ absurd (other done)
      ]

  pay_invoice-IsActivated :
      (ev : Event) (i : Invoice) (a : String) (s t : Store)
      → IsSound links s
      → pay_invoice w rt d ev i a s ≡ ok (WebhookResult.applied ev.type) t
      → (subscription : Subscription) × IsAnnualInvoice d i subscription × IsActivated a s t
  unfolding pay_invoice
  pay_invoice-IsActivated ev i a s t h run =
      elim (Option-cases (given_text (invoice_subscription i))) [
        | inl missing ↦
            absurd
              (cc (refuse-answers rt d (some a) _ ev.type _ _ s (rw (pay_invoice, missing) at run)))
        | inr (id, given) ↦ elim (Option-cases (d.retrieve_subscription id)) [
          | inl down ↦ absurd (cc (rw (pay_invoice, given, down) at run))
          | inr (sub, found) ↦ elim (Option-cases (price_refusal sub d.config.price_id)) [
            | inl fine ↦
                let (item, p, single, priced, annual) =
                  items-IsAnnual sub sub.items d.config.price_id refl fine in
                (
                  sub,
                  record {
                    reference = id;
                    item = item;
                    price = p;
                    named = given;
                    retrieved = found;
                    single = single;
                    priced = priced;
                    annual = annual;
                  },
                  activate_paid-IsActivated ev a (extract_customer_id i.customer) sub s t h
                      (rw (pay_invoice, given, found, fine) at run),
                )
            | inr (r, other) ↦ absurd (
                cc (
                  refuse-answers rt d (some a) r.event_type ev.type r.logged _ s
                    (rw (pay_invoice, given, found, other) at run)))
          ]
        ]
      ]

  -- The look-up of the account leaves what `IsQuiet` speaks of.
  reconcile-IsQuiet :
      (customer_id : Option String) (s : Store) {a : Option String} {t : Store}
      → IsSound links s
      → reconcile_account_id w.lookup customer_id s ≡ ok a t
      → IsQuiet links s t
  unfolding reconcile_account_id find_customer_link_by_stripe_customer_id under
  reconcile-IsQuiet customer_id s {a} {t} h run = elim (Option-cases (given_text customer_id)) [
    | inl empty ↦ let same : s ≡ t = ground arith in rw (← same) (record { sound = h; rows = refl })
    | inr (id, given) ↦
        let (sound, rows) = still.lookup s h in
        let same : w.lookup.others s ≡ t = ground arith in
        rw (← same) (record { sound = sound; rows = rows })
  ]

  reconcile-IsLinkedTo :
      (customer_id : Option String) (s : Store) {a : String} {t : Store}
      → reconcile_account_id w.lookup customer_id s ≡ ok (some a) t
      → IsLinkedTo customer_id a (w.lookup.others s)
  unfolding reconcile_account_id find_customer_link_by_stripe_customer_id under
  reconcile-IsLinkedTo customer_id s {a} {t} run = elim (Option-cases (given_text customer_id)) [
    | inl empty ↦ absurd (ground arith)
    | inr (id, given) ↦ elim (Option-cases (customer_link_of id (w.lookup.others s))) [
      | inl unknown ↦ absurd (ground arith)
      | inr (l, found) ↦ record {
        customer = id;
        link = l;
        given = given;
        found = found;
        owner = ground arith;
      }
    ]
  ]

  -- What the handler does with the account that it found, if any.
  resolved-IsPaid :
      (ev : Event) (i : Invoice) (account : Option String) (s u t : Store)
      → IsSound links s
      → reconcile_account_id w.lookup (extract_customer_id i.customer) s ≡ ok account u
      → (elim account as (λ x. Query WebhookResult) [
        | none ↦
            refuse rt d none stripe_webhook_rejected ev.type "account_unresolved"
              (account_unresolved ev)
        | some account_id ↦ pay_invoice w rt d ev i account_id
      ])
          u
        ≡ ok (WebhookResult.applied ev.type) t
      → (a : String) × IsLinkedTo (extract_customer_id i.customer) a (w.lookup.others s)
        × ((subscription : Subscription) × IsAnnualInvoice d i subscription × IsActivated a s t)
  resolved-IsPaid ev i none s u t h found rest =
      absurd (cc (refuse-answers rt d none _ ev.type _ _ u rest))
  resolved-IsPaid ev i (some a) s u t h found rest =
      let quiet = reconcile-IsQuiet (extract_customer_id i.customer) s h found in
      let (subscription, annual, did) = pay_invoice-IsActivated ev i a u t quiet.sound rest in
      (
        a,
        reconcile-IsLinkedTo (extract_customer_id i.customer) s found,
        (
          subscription,
          annual,
          record {
            active = did.active;
            others = λ b other. rw (← quiet.rows) (did.others b other);
          },
        ),
      )

  -- A paid invoice that is answered `applied` was paid at the annual price and made its customer's
  -- membership active. Where the tables are sound and other sessions write no entitlement meanwhile and
  -- keep the tables sound, the event holds an invoice `i`; its customer is linked to an account `a` when
  -- it is looked up; the retrieval of the subscription that the invoice names answered a subscription
  -- with a single item, whose price is the expected annual price; the membership of `a` is active
  -- afterwards, and the entitlement of every other account is as before.
  pub handle_invoice_paid-IsActivated :
      (ev : Event) (s t : Store)
      → IsSound links s
      → handle_invoice_paid w rt d ev s ≡ ok (WebhookResult.applied ev.type) t
      → (i : Invoice) × (typed_stripe_invoice ev.object ≡ some i)
        × ((a : String) × IsLinkedTo (extract_customer_id i.customer) a (w.lookup.others s)
            × ((subscription : Subscription) × IsAnnualInvoice d i subscription
                × IsActivated a s t))
  unfolding handle_invoice_paid
  handle_invoice_paid-IsActivated ev s t h run =
      elim (Option-cases (typed_stripe_invoice ev.object)) [
        | inl other ↦ absurd (cc (rw (handle_invoice_paid, other) at run))
        | inr (i, typed) ↦ (
          i,
          typed,
          after (reconcile_account_id w.lookup (extract_customer_id i.customer)) _ s
              (rw (handle_invoice_paid, typed) at run)
              (λ account u found rest. resolved-IsPaid ev i account s u t h found rest),
        )
      ]
