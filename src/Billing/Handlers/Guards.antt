-- ===== src/Billing/Handlers/Guards.antt =====
-- The tests on a subscription and on an event that billing/webhook-processor.ts makes before it acts,
-- in their order.
use Prim.Native.String.{◌++◌}
use town_api.Common.{
  ℕ, String, Bool, true, false, not, ◌||◌, Option, none, some, List, [], ◌∷◌, ◌==◌, nat_eq,
  if◌then◌else◌,
}
use town_api.Membership.Rows.{AuditType, stripe_webhook_rejected, stripe_price_mismatch}
use town_api.Billing.Stripe.{
  Item, Price, Subscription, Event, extract_price_id_from_subscription, given_text,
}
use town_api.Billing.Price.{
  PriceResult, accepted, unknown_price_id, inactive, currency_mismatch, unit_amount_mismatch,
  interval_mismatch, interval_count_mismatch, not_recurring, assert_annual_price, is_amount,
}
use town_api.Billing.Webhook.{WebhookConfig, stripe_api_version}

-- A refusal: the type of its audit entry, the reason there, and the reason in the answer.
pub record Refusal : Type 0 where
  pub event_type : AuditType
  pub logged : String
  pub answered : String

abbrev price_mismatch : String → Refusal
price_mismatch reason = record {
  event_type = stripe_price_mismatch;
  logged = reason;
  answered = "price_mismatch";
}

abbrev unsupported : String → Refusal
unsupported reason = record {
  event_type = stripe_webhook_rejected;
  logged = reason;
  answered = reason;
}

-- The reason of a price that is not accepted.
abbrev pub price_reason : PriceResult → Option String
price_reason (accepted id) = none
price_reason unknown_price_id = some "unknown_price_id"
price_reason inactive = some "inactive"
price_reason currency_mismatch = some "currency_mismatch"
price_reason unit_amount_mismatch = some "unit_amount_mismatch"
price_reason interval_mismatch = some "interval_mismatch"
price_reason interval_count_mismatch = some "interval_count_mismatch"
price_reason not_recurring = some "not_recurring"

-- `!priceId || priceId !== config.priceId`.
unfoldable pub is_other_price : Subscription → String → Bool
is_other_price s price_id = elim (given_text (extract_price_id_from_subscription s)) [
  | none ↦ true
  | some id ↦ not (id == price_id)
]

-- `subscription.items.data[0]?.price`.
abbrev pub first_price : List Item → Option Price
first_price [] = none
first_price (item ∷ items) = item.price

unfoldable pub annual_refusal : Option Price → String → Option Refusal
unfolding assert_annual_price
annual_refusal none price_id = none
annual_refusal (some p) price_id = elim (price_reason (assert_annual_price p price_id)) [
  | none ↦ none
  | some reason ↦ some (price_mismatch ("price_" ++ reason))
]

-- The two tests of a paid invoice's price.
unfoldable pub price_refusal : Subscription → String → Option Refusal
unfolding is_other_price annual_refusal
price_refusal s price_id =
    if is_other_price s price_id
    then some (price_mismatch "unknown_price")
    else annual_refusal (first_price s.items) price_id

abbrev is_single : List Item → Bool
is_single (item ∷ []) = true
is_single _ = false

abbrev first_quantity : List Item → Option ℕ
first_quantity [] = none
first_quantity (item ∷ items) = item.quantity

abbrev is_truthy : Option ℕ → Bool
is_truthy none = false
is_truthy (some n) = not (nat_eq n 0)

-- The tests of an updated subscription.
unfoldable pub update_refusal : Subscription → String → Option Refusal
unfolding is_other_price
update_refusal s price_id =
    if not (is_single s.items)
    then some (unsupported "unsupported_multi_line")
    else if not (is_amount (first_quantity s.items) 1)
    then some (unsupported "unsupported_quantity")
    else if is_other_price s price_id
    then some (price_mismatch "unknown_price")
    else if s.pause_collection
    then some (unsupported "unsupported_pause")
    else if s.status == "trialing" || is_truthy s.trial_end
    then some (unsupported "unsupported_trial")
    else none

abbrev same_flag : Bool → Bool → Bool
same_flag true b = b
same_flag false b = not b

-- The reason to reject an event of another API version or of the other mode.
unfoldable pub event_refusal : WebhookConfig → Event → Option String
event_refusal c ev = elim (given_text ev.api_version) [
  | none ↦ if same_flag ev.livemode c.expected_livemode then none else some "livemode_mismatch"
  | some version ↦
      if not (version == stripe_api_version)
      then some "api_version_mismatch"
      else if same_flag ev.livemode c.expected_livemode
      then none
      else some "livemode_mismatch"
]
