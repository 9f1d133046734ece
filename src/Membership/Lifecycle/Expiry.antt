-- ===== src/Membership/Lifecycle/Expiry.antt =====
-- What the facts of a subscription say of its line items.
use town_api.Common.{
  ℕ, ◌≤◌, String, Option, none, some, ◌≡◌, ◌≢◌, refl, sym, ap, ◌∙◌, arith, ◌⊎◌, inl, inr,
  Option-cases,
}
use town_api.Common.Json.{
  Json, array, Items, nil, cons, Members, get, record_members, non_empty_string,
}
use town_api.Membership.Lifecycle.{milliseconds, SubscriptionState, revoked, SubscriptionFacts}
use town_api.Membership.Lifecycle.Facts.{
  MappingFailure, line_items_missing, facts, failure, with_items, with_state, state_of, max_of,
  item_expiry, latest_expiry, map_subscription_purchase_to_neutral_facts,
}

abbrev pub EachItem : (Json → Type 0) → Items → Type 0
EachItem P nil = Unit
EachItem P (cons item items) = P item × EachItem P items

abbrev pub SomeItem : (Json → Type 0) → Items → Type 0
SomeItem P nil = ⊥
SomeItem P (cons item items) = P item ⊎ SomeItem P items

state-not-revoked : (s : String) → state_of s ≢ some revoked
unfolding state_of
state-not-revoked s = ground arith

pub item_cases :
    (r : ℕ ⊎ MappingFailure) → ((t : ℕ) × (r ≡ inl t)) ⊎ ((f : MappingFailure) × (r ≡ inr f))
item_cases (inl t) = inl (t, refl)
item_cases (inr f) = inr (f, refl)

max_cases : (o : Option ℕ) (t e : ℕ) → some (max_of o t) ≡ some e → (o ≡ some e) ⊎ (t ≡ e)
max_cases o t e h = ground arith

module _ (date_parse : String → Option ℕ) where
  -- The line item has an expiry, at `e` or before.
  abbrev pub ExpiresBy : ℕ → Json → Type 0
  ExpiresBy e item = (t : ℕ) × (item_expiry date_parse item ≡ inl t) × (t ≤ e)

  latest-bounds :
      (items : Items) (o : Option ℕ) (e : ℕ)
      → latest_expiry date_parse o items ≡ inl (some e)
      → ((a : ℕ) → o ≡ some a → a ≤ e)
        × EachItem (ExpiresBy e) items
        × ((o ≡ some e) ⊎ SomeItem (λ item. item_expiry date_parse item ≡ inl e) items)
  unfolding latest_expiry
  latest-bounds nil o e h = ((λ a p. ground arith), tt, inl (ground arith))
  latest-bounds (cons item items) o e h = elim (item_cases (item_expiry date_parse item)) [
    | inr (f, bad) ↦ absurd (ground arith)
    | inl (t, good) ↦
        let (below, each, attained) = latest-bounds items (some (max_of o t)) e (ground arith) in
        let top : max_of o t ≤ e = below (max_of o t) refl in
        (
          (λ a p. ground arith),
          ((t, good, ground arith), each),
          elim attained [
            | inr later ↦ inr (inr later)
            | inl here ↦ elim (max_cases o t e here) [
              | inl before ↦ inl before
              | inr now ↦ inr (inl (rw (← now) good))
            ]
          ],
        )
  ]

  with-items :
      (state : SubscriptionState) (items : Items) (f : SubscriptionFacts)
      → with_items date_parse state items ≡ facts f
      → (f.state ≡ state)
        × ((e : ℕ) × (f.expiry ≡ milliseconds e)
            × (latest_expiry date_parse none items ≡ inl (some e)))
  with-items state nil f h = absurd (cc)
  with-items state (cons item items) f h =
      by_latest (latest_expiry date_parse none (cons item items)) refl h
    where
      by_latest :
          (r : Option ℕ ⊎ MappingFailure)
          → latest_expiry date_parse none (cons item items) ≡ r
          → (elim r [
            | inr reason ↦ failure reason
            | inl none ↦ failure line_items_missing
            | inl (some expiry) ↦ facts (record { state = state; expiry = milliseconds expiry })
          ])
            ≡ facts f
          → (f.state ≡ state)
            × ((e : ℕ) × (f.expiry ≡ milliseconds e)
                × (latest_expiry date_parse none (cons item items) ≡ inl (some e)))
      by_latest (inr reason) q k = absurd (cc)
      by_latest (inl none) q k = absurd (cc)
      by_latest (inl (some e)) q k = (ground arith, (e, ground arith, q))

  with-state :
      (state : SubscriptionState) (v : Json) (f : SubscriptionFacts)
      → with_state date_parse state v ≡ facts f
      → (items : Items) × (v ≡ array items) × (with_items date_parse state items ≡ facts f)
  with-state state (array items) f h = (items, refl, h)
  with-state state _ f h = absurd (cc)

  -- Where a resource maps to facts, its line items are a list, each of them has an expiry, the expiry
  -- of the facts is the latest of them, and the state is never `revoked`.
  pub map_subscription_purchase-latest :
      (subscription : Json) (f : SubscriptionFacts)
      → map_subscription_purchase_to_neutral_facts date_parse subscription ≡ facts f
      → (f.state ≢ revoked)
        × ((ms : Members) × (items : Items) × (e : ℕ) × (record_members subscription ≡ some ms)
            × (get "lineItems" ms ≡ array items)
            × (f.expiry ≡ milliseconds e)
            × EachItem (ExpiresBy e) items
            × SomeItem (λ item. item_expiry date_parse item ≡ inl e) items)
  unfolding map_subscription_purchase_to_neutral_facts
  map_subscription_purchase-latest subscription f h =
      elim (Option-cases (record_members subscription)) [
        | inl other ↦ absurd (ground arith)
        | inr (ms, is_record) ↦
            elim (Option-cases (non_empty_string (get "subscriptionState" ms))) [
              | inl missing ↦ absurd (ground arith)
              | inr (s, named) ↦ elim (Option-cases (state_of s)) [
                | inl unsupported ↦ absurd (ground arith)
                | inr (state, supported) ↦
                    latest_of ms state s is_record supported (get "lineItems" ms) refl
                      (ground arith)
              ]
            ]
      ]
    where
      latest_of :
          (ms : Members) (state : SubscriptionState) (s : String)
          → record_members subscription ≡ some ms
          → state_of s ≡ some state
          → (v : Json) → get "lineItems" ms ≡ v
          → with_state date_parse state v ≡ facts f
          → (f.state ≢ revoked)
            × ((ms : Members) × (items : Items) × (e : ℕ) × (record_members subscription ≡ some ms)
                × (get "lineItems" ms ≡ array items)
                × (f.expiry ≡ milliseconds e)
                × EachItem (ExpiresBy e) items
                × SomeItem (λ item. item_expiry date_parse item ≡ inl e) items)
      latest_of ms state s is_record supported v listed q =
          let (items, is_list, r) = with-state state v f q in
          let (same, (e, expiry, latest)) = with-items state items f r in
          let (_, each, attained) = latest-bounds items none e latest in
          (
            (λ rev. state-not-revoked s (supported ∙ ap some (sym same ∙ rev))),
            (
              ms,
              items,
              e,
              is_record,
              listed ∙ is_list,
              expiry,
              each,
              elim attained [ inl no_item ↦ absurd (cc) | inr one ↦ one ],
            ),
          )
