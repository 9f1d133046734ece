-- ===== src/Billing/Safety.antt =====
-- Whose entitlement the processing of a webhook event may touch (billing/webhook-processor.ts), on every
-- path, thrown errors included.
use town_api.Common.{
  ℕ, String, Option, some, ◌≡◌, ◌≢◌, refl, sym, arith, inl, inr, ◌∙◌, Option-cases,
}
use town_api.Membership.Rows.{CustomerLink}
use town_api.Membership.Store.{Store, ok, transaction}
use town_api.Membership.Repositories.{entitlement_of}
use town_api.Membership.Run.{Runtime}
use town_api.Membership.Run.Effects.{SameTables}
use town_api.Membership.Run.Laws.{store_after, IsSound-same, transaction-cases}
use town_api.Membership.Run.Theorems.{run-IsSound, run-Edge, run-throw}
use town_api.Membership.Retry.Laws.{rolled_back, IsKeptBy}
use town_api.Billing.Stripe.{given_text, CheckoutSession, Event}
use town_api.Billing.Webhook.{transition_deps, WebhookDeps, Surroundings}
use town_api.Billing.Handlers.{link_checkout}
use town_api.Billing.Links.{customer_link_of, find_customer_link_by_stripe_customer_id}
use town_api.Membership.Operations.{Operation, logic_of}
use town_api.Membership.Transitions.Input.{Input}
use town_api.Billing.Webhook.{reconcile_account_id}
use town_api.Membership.Retry.{under}
use town_api.Membership.Run.{TransitionOutcome, run_transition_in_transaction}
use town_api.Membership.Store.{Outcome, throw}
use town_api.Billing.Process.{process_stripe_webhook_event}
use town_api.Billing.Linking.{IsSoundFrom, one_more, one_more-more, linked-Replaced, linked-IsSound}
use town_api.Billing.Keeping.{webhook-keeps}
use town_api.Billing.Paths.{customer_of}
use town_api.Billing.Checkout.{LinkEffect, unlinked, relinked, link_checkout-LinkEffect}

from_same-IsSoundFrom :
    (links : String → ℕ) (s t : Store) → SameTables s t → IsSoundFrom links s → IsSoundFrom links t
from_same-IsSoundFrom links s t k h = record {
  total = h.total;
  more = h.more;
  sound = IsSound-same s t k.entitlements (λ a. rw k.source_events) h.sound;
}

-- The customer is not linked to `b`.
abbrev pub IsAnothers : String → Option String → Store → Type 0
IsAnothers b customer_id s =
    (id : String) (l : CustomerLink)
    → given_text customer_id ≡ some id
    → customer_link_of id s ≡ some l
    → l.account_id ≢ b

module _ (w : Surroundings) (rt : Runtime) (d : WebhookDeps) where
  -- Linking keeps the tables sound, with one more write at most.
  linking-IsSoundFrom :
      (links : String → ℕ) (a : String) (s t : Store)
      → LinkEffect a d s t
      → IsSoundFrom links s
      → IsSoundFrom links t
  linking-IsSoundFrom links a s t (unlinked rows ledger) h = record {
    total = h.total;
    more = h.more;
    sound = IsSound-same s t rows (λ b. rw ledger) h.sound;
  }
  linking-IsSoundFrom links a s t (relinked e row customer_id id u found ran rows ledger) h =
      record {
        total = one_more a h.total;
        more = λ b. omega (arith, h.more b, one_more-more a h.total b);
        sound =
            IsSound-same u t rows (λ b. rw ledger)
              (linked-IsSound a e row customer_id id d.now s u found ran h.sound);
      }

  linking-others :
      (a b : String) (s t : Store)
      → LinkEffect a d s t
      → IsSoundFrom (λ c. 0) s
      → b ≢ a
      → entitlement_of b t ≡ entitlement_of b s
  linking-others a b s t (unlinked rows ledger) h other = rw rows
  linking-others a b s t (relinked e row customer_id id u found ran rows ledger) h other =
      let (put, same, next, legal) =
        linked-Replaced a e row customer_id id d.now s u found ran h.sound in
      rw rows (put.others b other)

  -- The tables are sound, and the entitlement of `b` is the one it has in `s`.
  pub record LeavesAlone (b : String) (s t : Store) : Type 0 where
    pub sound : IsSoundFrom (λ a. 0) t
    pub row : entitlement_of b t ≡ entitlement_of b s

  run-LeavesAlone :
      (b : String) (s : Store) (rt' : Runtime) (op : Operation) (i : Input) (u : Store)
      → i.account_id ≢ b
      → LeavesAlone b s u
      → LeavesAlone b s
          (store_after (run_transition_in_transaction rt' i (logic_of op) (transition_deps d) u))
  run-LeavesAlone b s rt' op i u other h = record {
    sound = record {
      total = h.sound.total;
      more = h.sound.more;
      sound = run-IsSound op rt' i (transition_deps d) u h.sound.sound;
    };
    row = by_outcome (run_transition_in_transaction rt' i (logic_of op) (transition_deps d) u) refl;
  }
    where
      by_outcome :
          (o : Outcome TransitionOutcome)
          → run_transition_in_transaction rt' i (logic_of op) (transition_deps d) u ≡ o
          → entitlement_of b (store_after o) ≡ entitlement_of b s
      by_outcome (ok o t) ran =
          (run-Edge op rt' i (transition_deps d) u b h.sound.sound (λ q. other (sym q)) ran).0
          ∙ h.row
      by_outcome (throw e t) ran =
          let rows = run-throw op rt' i (transition_deps d) u ran in rw rows h.row

  link_checkout-LeavesAlone :
      (b : String) (s : Store) (c : CheckoutSession) (a : String) (u : Store)
      → a ≢ b
      → LeavesAlone b s u
      → LeavesAlone b s (store_after (transaction (link_checkout w rt d c a) u))
  link_checkout-LeavesAlone b s c a u other h =
      transaction-cases (λ o. LeavesAlone b s (store_after o)) (link_checkout w rt d c a) u
        (λ x t ran.
          let did = link_checkout-LinkEffect w rt d c a u ran in
          record {
            sound = linking-IsSoundFrom (λ b. 0) a u t did h.sound;
            row = linking-others a b u t did h.sound (λ q. other (sym q)) ∙ h.row;
          })
        (λ e n. record {
          sound =
              from_same-IsSoundFrom (λ a. 0) u (record u { drawn = n }) (rolled_back u n) h.sound;
          row = h.row;
        })

  reconcile-another :
      (b : String) (customer_id : Option String) (s u : Store) (a : String) (t : Store)
      → IsAnothers b customer_id s
      → (w.lookup.others u).customer_links ≡ s.customer_links
      → reconcile_account_id w.lookup customer_id u ≡ ok (some a) t
      → a ≢ b
  unfolding reconcile_account_id find_customer_link_by_stripe_customer_id under
  reconcile-another b customer_id s u a t another links h =
      elim (Option-cases (given_text customer_id)) [
        | inl empty ↦ absurd (ground arith)
        | inr (id, given) ↦ elim (Option-cases (customer_link_of id (w.lookup.others u))) [
          | inl unknown ↦ absurd (ground arith)
          | inr (l, found) ↦
              let owner : l.account_id ≡ a = ground arith in
              λ same. another id l given (rw (← links) found) (owner ∙ same)
        ]
      ]

  -- An event touches the entitlement of no account but the one that its customer is linked to: where
  -- the tables are sound and the customer is not linked to `b`, the entitlement of `b` is the same
  -- afterwards, whatever the answer or the error. The other sessions are to keep the tables sound and
  -- that entitlement too, and the customer links until the look-up.
  pub webhook-others :
      (b : String) (ev : Event) (s : Store)
      → ((u : Store) → LeavesAlone b s u → LeavesAlone b s (w.lookup.others u))
      → ((u : Store) → LeavesAlone b s u → LeavesAlone b s (w.own.others u))
      → IsKeptBy (LeavesAlone b s) w.sky
      → ((u : Store) → (w.lookup.others u).customer_links ≡ u.customer_links)
      → IsAnothers b (customer_of ev.object) s
      → IsSoundFrom (λ a. 0) s
      → entitlement_of b (store_after (process_stripe_webhook_event w rt d ev s))
        ≡ entitlement_of b s
  webhook-others b ev s lookup own fair links another h =
      let kept : LeavesAlone b s (store_after (process_stripe_webhook_event w rt d ev s)) =
        webhook-keeps (LeavesAlone b s) (λ a. a ≢ b) w rt d
          (λ t u k l. record {
            sound = from_same-IsSoundFrom (λ a. 0) t u k l.sound;
            row = rw k.entitlements l.row;
          })
          lookup own fair (λ rt' op i u q k. run-LeavesAlone b s rt' op i u q k)
          (λ c a u q k. link_checkout-LeavesAlone b s c a u q k) ev s
          (λ u same a t ran.
            reconcile-another b (customer_of ev.object) s u a t another
              (links u ∙ same.customer_links) ran)
          (record { sound = h; row = refl }) in
      kept.row
