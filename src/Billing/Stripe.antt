-- ===== src/Billing/Stripe.antt =====
-- The parts of Stripe's objects that billing/webhook-processor.ts reads, and what it extracts from them.
-- Amounts and times that Stripe sends are whole numbers that are not negative.
use town_api.Common.{ℕ, String, Bool, Option, none, some, List, [], ◌∷◌, ◌==◌, ltb, if◌then◌else◌}

-- A reference to an object: its id, the object itself with its id, or nothing.
pub data Reference : Type 0 where
  by_id : String → Reference
  expanded : String → Reference
  absent : Reference

abbrev pub extract_customer_id : Reference → Option String
extract_customer_id (by_id id) = some id
extract_customer_id (expanded id) = some id
extract_customer_id absent = none

pub record Recurring : Type 0 where
  pub interval : String
  pub interval_count : ℕ

pub record Price : Type 0 where
  pub id : String
  pub active : Bool
  pub currency : String
  pub unit_amount : Option ℕ
  pub recurring : Option Recurring

pub record Item : Type 0 where
  pub price : Option Price
  pub quantity : Option ℕ
  pub current_period_end : Option ℕ

pub record Subscription : Type 0 where
  pub id : String
  pub customer : Reference
  pub status : String
  pub items : List Item
  pub current_period_end : Option ℕ
  pub cancel_at_period_end : Bool
  pub pause_collection : Bool
  pub trial_end : Option ℕ

pub record CheckoutSession : Type 0 where
  pub id : String
  pub customer : Reference
  pub subscription : Reference
  pub status : String
  pub payment_status : String

pub record Invoice : Type 0 where
  pub customer : Reference
  pub subscription : Reference
  pub parent_subscription : Option String

-- `event.data.object`, by its `object` field.
pub data StripeObject : Type 0 where
  checkout_session : CheckoutSession → StripeObject
  invoice : Invoice → StripeObject
  subscription : Subscription → StripeObject
  other_object : StripeObject

pub record Event : Type 0 where
  pub id : String
  pub type : String
  pub api_version : Option String
  pub livemode : Bool
  pub object : StripeObject

abbrev pub typed_stripe_subscription : StripeObject → Option Subscription
typed_stripe_subscription (subscription s) = some s
typed_stripe_subscription _ = none

abbrev pub typed_stripe_invoice : StripeObject → Option Invoice
typed_stripe_invoice (invoice i) = some i
typed_stripe_invoice _ = none

abbrev pub typed_stripe_checkout_session : StripeObject → Option CheckoutSession
typed_stripe_checkout_session (checkout_session c) = some c
typed_stripe_checkout_session _ = none

-- The test `if (x)` on a nullable text: null and the empty text fail it.
abbrev pub given_text : Option String → Option String
given_text none = none
given_text (some t) = if t == "" then none else some t

abbrev price_id_of : Option Price → Option String
price_id_of none = none
price_id_of (some p) = some p.id

abbrev single_price_id : List Item → Option String
single_price_id [] = none
single_price_id (item ∷ []) = price_id_of item.price
single_price_id (item ∷ other ∷ items) = none

abbrev pub extract_price_id_from_subscription : Subscription → Option String
extract_price_id_from_subscription s = single_price_id s.items

-- The timestamps that are numbers, those of the items first.
abbrev pub period_ends : List Item → Option ℕ → List ℕ
period_ends [] none = []
period_ends [] (some top) = top ∷ []
period_ends (item ∷ items) top = elim item.current_period_end [
  | none ↦ period_ends items top
  | some t ↦ t ∷ period_ends items top
]

-- `Math.max(...timestamps)`, null where there are none.
unfoldable pub latest : List ℕ → Option ℕ
latest [] = none
latest (t ∷ ts) = elim (latest ts) [ none ↦ some t | some u ↦ some (if ltb u t then t else u) ]

abbrev pub extract_current_period_end : Subscription → Option ℕ
extract_current_period_end s = latest (period_ends s.items s.current_period_end)

-- The subscription of an invoice.
abbrev pub invoice_subscription : Invoice → Option String
invoice_subscription i = elim (extract_customer_id i.subscription) [
  | some id ↦ some id
  | none ↦ i.parent_subscription
]
