-- ===== src/Billing/Accounting.antt =====
-- How the versions of the entitlements stand to the ledger after a webhook event
-- (billing/webhook-processor.ts), on every path, thrown errors included.
use town_api.Common.{ℕ, String, some, ◌≡◌, refl, subst, inl, inr, Option-cases}
use town_api.Membership.Store.{Error, Query, pure, ◌>>◌, Store, ok, transaction}
use town_api.Membership.Run.{Runtime}
use town_api.Membership.Run.Effects.{SameTables}
use town_api.Membership.Run.Laws.{store_after, IsSound-same, transaction-cases}
use town_api.Membership.Run.Theorems.{run-IsSound}
use town_api.Membership.Retry.Laws.{IsFair}
use town_api.Billing.Stripe.{CheckoutSession, Event}
use town_api.Billing.Webhook.{WebhookResult, transition_deps, WebhookDeps, Surroundings}
use town_api.Billing.Handlers.{link_checkout}
use town_api.Billing.Webhook.{reconcile_account_id}
use town_api.Membership.Retry.{under, Weather}
use town_api.Membership.Store.{Outcome, throw}
use town_api.Billing.Process.{process_stripe_webhook_event}
use town_api.Billing.Linking.{one_more, linked-IsSound}
use town_api.Billing.Keeping.{transition-keeps}
use town_api.Billing.Paths.{customer_of, IsCompleted, webhook-leads}
use town_api.Membership.Invariant.{IsSound}
use town_api.Billing.Checkout.{LinkEffect, unlinked, relinked, link_checkout-LinkEffect}

from_same-IsSound :
    (links : String → ℕ) (s t : Store) → SameTables s t → IsSound links s → IsSound links t
from_same-IsSound links s t k h = IsSound-same s t k.entitlements (λ a. rw k.source_events) h

under_cases :
    {A : Type 0} (R : Outcome A → Type 0) (v : Weather) (m : Query A) (u : Store)
    → R (m (v.others u))
    → ((e : Error) → R (throw e (v.others u)))
    → R (under v m u)
unfolding under
under_cases R v m u runs fails = elim (Option-cases v.fault) [
  | inl calm ↦ rw calm runs
  | inr (e, struck) ↦ rw struck (fails e)
]

-- The look-up of the event's customer, in tables that differ from `s` in the security log at most,
-- found the account.
abbrev pub Found : Surroundings → Event → Store → String → Type 0
Found w ev s a =
    (u : Store) × (t : Store) × SameTables s u
    × (reconcile_account_id w.lookup (customer_of ev.object) u ≡ ok (some a) t)

-- How the versions of the entitlements stand to the ledger after an event, where they differed by
-- `links` before it.
pub data Accounted (w : Surroundings) (links : String → ℕ) (ev : Event) (s t : Store) : Type 0 where
  by_events : IsSound links t → Accounted w links ev s t
  one_linked :
      (c : CheckoutSession) (a : String)
      → IsCompleted ev c
      → Found w ev s a
      → IsSound (one_more a links) t
      → Accounted w links ev s t

module _ (w : Surroundings) (rt : Runtime) (d : WebhookDeps) where
  linking-Accounted :
      (links : String → ℕ) (ev : Event) (s : Store) (c : CheckoutSession) (a : String) (u t : Store)
      → IsCompleted ev c
      → Found w ev s a
      → LinkEffect a d u t
      → IsSound links u
      → Accounted w links ev s t
  linking-Accounted links ev s c a u t done found (unlinked rows ledger) h =
      by_events (IsSound-same u t rows (λ b. rw ledger) h)
  linking-Accounted links ev s c a u t done found (relinked e row id_of id v owned ran rows ledger)
        h =
      one_linked c a done found (
        IsSound-same v t rows (λ b. rw ledger)
          (linked-IsSound a e row id_of id d.now u v owned ran h))

  link_checkout-Accounted :
      (links : String → ℕ) (ev : Event) (s : Store)
      → ((u : Store) → IsSound links u → IsSound links (w.own.others u))
      → (type : String) (c : CheckoutSession) (a : String) (u : Store) → IsCompleted ev c
      → Found w ev s a
      → IsSound links u
      → Accounted w links ev s (
          store_after (
            (under w.own (transaction (link_checkout w rt d c a))
                >> pure (WebhookResult.applied type))
              u))
  link_checkout-Accounted links ev s own type c a u done found h =
      under_cases (λ o. Accounted w links ev s (store_after (answered o))) w.own
        (transaction (link_checkout w rt d c a)) u
        (returned (transaction (link_checkout w rt d c a) (w.own.others u)) (
          transaction-cases (λ o. Accounted w links ev s (store_after o)) (link_checkout w rt d c a)
            (w.own.others u)
            (λ x t ran.
              linking-Accounted links ev s c a (w.own.others u) t done found
                (link_checkout-LinkEffect w rt d c a (w.own.others u) ran) (own u h))
            (λ e n. by_events (
              IsSound-same (w.own.others u) (record (w.own.others u) { drawn = n }) refl (λ b. refl)
                (own u h)))))
        (λ e. by_events (own u h))
    where
      answered : Outcome (Unit {0}) → Outcome WebhookResult
      answered o = elim o [ ok x t ↦ ok (WebhookResult.applied type) t | throw e t ↦ throw e t ]

      returned :
          (o : Outcome (Unit {0}))
          → Accounted w links ev s (store_after o)
          → Accounted w links ev s (store_after (answered o))
      returned (ok x t) k = k
      returned (throw e t) k = k

  -- The writes of an event to the entitlements are accounted for, whatever the answer, a thrown error
  -- included. Where the tables are sound and the commits of other sessions keep them so (so that the
  -- version of an account's entitlement is the number of events that the ledger holds as applied to it,
  -- plus `links` of that account), they are sound afterwards with the same `links`; or the event tells of
  -- a checkout session that is complete and not unpaid, the look-up of its customer found an account,
  -- and they are sound afterwards with one more for that account alone.
  pub webhook-Accounted :
      (links : String → ℕ) (ev : Event) (s : Store)
      → ((u : Store) → IsSound links u → IsSound links (w.lookup.others u))
      → ((u : Store) → IsSound links u → IsSound links (w.own.others u))
      → IsFair links w.sky
      → IsSound links s
      → Accounted w links ev s (store_after (process_stripe_webhook_event w rt d ev s))
  webhook-Accounted links ev s lookup own fair h =
      webhook-leads (IsSound links) (λ o. Accounted w links ev s (store_after o)) (Found w ev s)
        (λ e. e ≡ ev) w rt d (from_same-IsSound links) lookup own (λ r t k. by_events k)
        (λ e t k. by_events k)
        (λ op i type event_type metadata u q k. by_events (
          transition-keeps (IsSound links) (λ a. Unit {0}) w rt d (from_same-IsSound links) fair
            (λ rt' op i u q k. run-IsSound op rt' i (transition_deps d) u k) op i type event_type
            metadata u tt k))
        (λ e c a u which done found k.
          link_checkout-Accounted links ev s own e.type c a u
            (subst (λ x. IsCompleted x c) which done) found k)
        ev s refl (λ u same a t ran. (u, t, same, ran)) h
