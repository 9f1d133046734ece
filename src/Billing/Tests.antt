-- ===== src/Billing/Tests.antt =====
-- Concrete webhook events: a paid invoice and a completed checkout of a customer that is linked to a
-- member, and an event of a type that is not handled.
use town_api.Common.{
  inr, inl, ◌==◌, Bool-cases, sym, ◌∙◌, ℕ, String, true, false, none, some, [], ◌∷◌, ◌≡◌, ◌↔◌, refl,
  arith,
}
use town_api.Membership.Rows.{CustomerLink}
use town_api.Membership.Store.{Store, ok}
use town_api.Membership.Repositories.{entitlement_of}
use town_api.Membership.Invariant.{IsSound}
use town_api.Membership.Retry.{Weather}
use town_api.Membership.Tests.{
  first_of_march, first_of_april, runtime, new_town, no_links, activated_town,
  activated_town-IsSound, activation_computes, neighbour,
}
use town_api.Membership.Run.Laws.{store_after, IsSound-same}
use town_api.Billing.Webhook.{reconcile_account_id, WebhookResult, WebhookDeps, Surroundings}
use town_api.Billing.Handlers.Guards.{price_refusal}
use town_api.Billing.Handlers.{handle_invoice_paid}
use town_api.Billing.Process.{process_stripe_webhook_event}
use town_api.Billing.Price.{accepted, assert_annual_price, IsAnnual, assert_annual_price_iff}
use town_api.Billing.Periods.{Gives, IsGreatest, extract_current_period_end-IsGreatest}
use town_api.Billing.Linking.{IsSoundFrom}
use town_api.Membership.Tests.{other_member}
use town_api.Billing.Accounting.{Accounted, webhook-Accounted}
use town_api.Billing.Safety.{webhook-others, IsAnothers}
use town_api.Billing.Answers.{IsStill, webhook-unapplied}
use town_api.Billing.Payment.{
  IsAnnualInvoice, IsActivated, IsLinkedTo, handle_invoice_paid-IsActivated,
}
use town_api.Billing.Stripe.{
  by_id, typed_stripe_invoice, extract_customer_id, invoice, extract_current_period_end, latest,
  Price, Recurring, Item, Subscription, Invoice, Event, CheckoutSession, checkout_session,
}

abbrev annual : Recurring
annual = record { interval = "year"; interval_count = 1 }

abbrev membership_price : Price
membership_price = record {
  id = "price_1";
  active = true;
  currency = "eur";
  unit_amount = some 1200;
  recurring = some annual;
}

assert_annual_price_iff_example :
    (assert_annual_price membership_price "price_1" ≡ accepted "price_1")
    ↔ IsAnnual membership_price "price_1"
assert_annual_price_iff_example = assert_annual_price_iff membership_price "price_1"

abbrev membership_item : Item
membership_item = record {
  price = some membership_price;
  quantity = some 1;
  current_period_end = some 1775000000;
}

abbrev membership_subscription : Subscription
membership_subscription = record {
  id = "sub_1";
  customer = by_id "cus_1";
  status = "active";
  items = membership_item ∷ [];
  current_period_end = some 1774000000;
  cancel_at_period_end = false;
  pause_collection = false;
  trial_end = none;
}

extract_current_period_end-IsGreatest_example :
    ((extract_current_period_end membership_subscription ≡ some 1775000000)
      ↔ IsGreatest 1775000000 membership_subscription)
    × ((extract_current_period_end membership_subscription ≡ none)
        ↔ ((t : ℕ) → ¬ Gives membership_subscription t))
extract_current_period_end-IsGreatest_example =
    extract_current_period_end-IsGreatest membership_subscription 1775000000

abbrev link : CustomerLink
link = record {
  id = "link-1";
  account_id = "member";
  stripe_customer_id = "cus_1";
  billing_reference = "reference-1";
  created_at = first_of_march;
  updated_at = first_of_march;
}

abbrev billed_town : Store
billed_town = record new_town { customer_links = link ∷ [] }

billed_town-IsSound : IsSound no_links billed_town
billed_town-IsSound = record {
  ids = tt;
  owners = tt;
  legal = λ a e h. absurd (cc);
  balanced = λ a. refl;
}

billed_town-IsSoundFrom : IsSoundFrom no_links billed_town
billed_town-IsSoundFrom = record {
  total = no_links;
  more = λ a. omega arith;
  sound = billed_town-IsSound;
}

abbrev calm : Weather
calm = record { now = first_of_march; others = λ s. s; fault = none }

abbrev alone : Surroundings
alone = record { lookup = calm; own = calm; sky = record { attempt = λ n. calm; recovery = calm } }

alone-IsStill : IsStill no_links alone
alone-IsStill = record {
  lookup = λ u h. (h, refl);
  own = λ u h. (h, refl);
  attempt = λ n u h. (h, refl);
  recovery = λ u h. (h, refl);
}

abbrev deps : WebhookDeps
deps = record {
  config = record { price_id = "price_1"; expected_livemode = true; node_env = "production" };
  now = first_of_march;
  generate_id = none;
  request_id = none;
  retrieve_subscription = λ id. some membership_subscription;
  to_iso_string = λ seconds. some first_of_april;
}

abbrev paid_invoice : Invoice
paid_invoice = record {
  customer = by_id "cus_1";
  subscription = by_id "sub_1";
  parent_subscription = none;
}

abbrev invoice_event : Event
invoice_event = record {
  id = "evt_1";
  type = "invoice.paid";
  api_version = some "2026-06-24.dahlia";
  livemode = true;
  object = invoice paid_invoice;
}

abbrev checkout : CheckoutSession
checkout = record {
  id = "cs_1";
  customer = by_id "cus_1";
  subscription = by_id "sub_1";
  status = "complete";
  payment_status = "paid";
}

abbrev checkout_event : Event
checkout_event = record {
  id = "evt_2";
  type = "checkout.session.completed";
  api_version = some "2026-06-24.dahlia";
  livemode = true;
  object = checkout_session checkout;
}

-- A member whose row has no Stripe subscription yet.
abbrev joined_town : Store
joined_town = record activated_town { customer_links = link ∷ [] }

joined_town-IsSound : IsSound no_links joined_town
joined_town-IsSound =
    IsSound-same activated_town joined_town refl (λ a. refl) activated_town-IsSound

webhook-Accounted_example :
    Accounted alone no_links checkout_event joined_town
      (store_after (process_stripe_webhook_event alone runtime deps checkout_event joined_town))
webhook-Accounted_example =
    webhook-Accounted alone runtime deps no_links checkout_event joined_town (λ u h. h) (λ u h. h)
      (λ n u h. h, λ u h. h) joined_town-IsSound

cus_1-IsAnothers : IsAnothers neighbour (some "cus_1") billed_town
cus_1-IsAnothers id l given found same =
    let owner : link.account_id ≡ l.account_id = elim (Bool-cases ("cus_1" == id)) [
      | inl named ↦ let here : some link ≡ some l = rw named at found in ground arith
      | inr unknown ↦ absurd (cc (rw unknown at found))
    ] in
    other_member (sym same ∙ sym owner)

webhook-others_example :
    entitlement_of neighbour
      (store_after (process_stripe_webhook_event alone runtime deps invoice_event billed_town))
    ≡ entitlement_of neighbour billed_town
webhook-others_example =
    webhook-others alone runtime deps neighbour invoice_event billed_town (λ u h. h) (λ u h. h)
      (λ n u h. h, λ u h. h) (λ u. refl) cus_1-IsAnothers billed_town-IsSoundFrom

abbrev refund_event : Event
refund_event = record invoice_event { type = "charge.refunded" }

abbrev after_refund : Store
after_refund =
    store_after (process_stripe_webhook_event alone runtime deps refund_event billed_town)

refund_runs :
    process_stripe_webhook_event alone runtime deps refund_event billed_town
    ≡ ok (WebhookResult.ignored "charge.refunded" "unhandled_event_type") after_refund
unfolding activation_computes process_stripe_webhook_event
refund_runs = refl

webhook-unapplied_example : after_refund.entitlements ≡ billed_town.entitlements
webhook-unapplied_example =
    webhook-unapplied alone runtime deps alone-IsStill refund_event billed_town
      (WebhookResult.ignored "charge.refunded" "unhandled_event_type") after_refund
      billed_town-IsSound refund_runs (λ type h. cc)

abbrev after_invoice : Store
after_invoice = store_after (handle_invoice_paid alone runtime deps invoice_event billed_town)

invoice_runs :
    handle_invoice_paid alone runtime deps invoice_event billed_town
    ≡ ok (WebhookResult.applied "invoice.paid") after_invoice
unfolding activation_computes handle_invoice_paid reconcile_account_id price_refusal latest
invoice_runs = refl

handle_invoice_paid-IsActivated_example :
    (i : Invoice) × (typed_stripe_invoice invoice_event.object ≡ some i)
    × ((a : String) × IsLinkedTo (extract_customer_id i.customer) a billed_town
        × ((subscription : Subscription) × IsAnnualInvoice deps i subscription
            × IsActivated a billed_town after_invoice))
handle_invoice_paid-IsActivated_example =
    handle_invoice_paid-IsActivated alone runtime deps alone-IsStill invoice_event billed_town
      after_invoice billed_town-IsSound invoice_runs
