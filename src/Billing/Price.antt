-- ===== src/Billing/Price.antt =====
-- billing/price-policy.ts.
use town_api.Common.{
  eq_iff, inr, arith, inl, Option-cases, ◌↔◌, ℕ, String, Bool, true, false, not, Option, none, some,
  ◌≡◌, ◌==◌, nat_eq, if◌then◌else◌,
}
use town_api.Billing.Stripe.{Price, Recurring}

pub data PriceResult : Type 0 where
  accepted : String → PriceResult
  unknown_price_id inactive currency_mismatch unit_amount_mismatch : PriceResult
  interval_mismatch interval_count_mismatch not_recurring : PriceResult

abbrev pub town_billing_currency : String
town_billing_currency = "eur"

abbrev pub town_billing_unit_amount : ℕ
town_billing_unit_amount = 1200

abbrev pub town_billing_interval : String
town_billing_interval = "year"

abbrev pub is_amount : Option ℕ → ℕ → Bool
is_amount none n = false
is_amount (some k) n = nat_eq k n

abbrev annual : Price → Recurring → PriceResult
annual p r =
    if not (r.interval == town_billing_interval)
    then interval_mismatch
    else if not (nat_eq r.interval_count 1)
    then interval_count_mismatch
    else accepted p.id

unfoldable pub assert_annual_price : Price → String → PriceResult
assert_annual_price p expected_price_id =
    if not (p.id == expected_price_id)
    then unknown_price_id
    else if not p.active
    then inactive
    else if not (p.currency == town_billing_currency)
    then currency_mismatch
    else if not (is_amount p.unit_amount town_billing_unit_amount)
    then unit_amount_mismatch
    else elim p.recurring [ none ↦ not_recurring | some r ↦ annual p r ]

-- The annual membership price: active, 12.00 euros, for one year at a time.
pub record IsAnnual (p : Price) (expected_price_id : String) : Type 0 where
  pub recurring : Recurring
  pub expected : p.id ≡ expected_price_id
  pub is_active : p.active ≡ true
  pub currency : p.currency ≡ "eur"
  pub amount : p.unit_amount ≡ some 1200
  pub recurs : p.recurring ≡ some recurring
  pub interval : recurring.interval ≡ "year"
  pub count : recurring.interval_count ≡ 1

-- A price is accepted, with its identifier, exactly when it is the expected price, active, in euros,
-- of 1200 cents, and recurs every one year.
pub assert_annual_price_iff :
    (p : Price) (x : String) → (assert_annual_price p x ≡ accepted p.id) ↔ IsAnnual p x
unfolding assert_annual_price
assert_annual_price_iff p x = (taken, takes)
  where
    taken : assert_annual_price p x ≡ accepted p.id → IsAnnual p x
    taken h = elim (Option-cases p.recurring) [
      | inl once ↦ absurd (ground arith)
      | inr (r, recurs) ↦ elim (Option-cases p.unit_amount) [
        | inl free ↦ absurd (ground arith)
        | inr (n, costs) ↦ record {
          recurring = r;
          expected = ground (arith, eq_iff p.id x);
          is_active = ground arith;
          currency = ground (arith, eq_iff p.currency "eur");
          amount = ground arith;
          recurs = recurs;
          interval = ground (arith, eq_iff r.interval "year");
          count = ground arith;
        }
      ]
    ]

    takes : IsAnnual p x → assert_annual_price p x ≡ accepted p.id
    takes a = ground (
      arith,
      eq_iff p.id x,
      eq_iff p.currency "eur",
      eq_iff a.recurring.interval "year",
      a.expected,
      a.is_active,
      a.currency,
      a.amount,
      a.recurs,
      a.interval,
      a.count,
    )
