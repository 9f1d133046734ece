-- ===== src/Membership/Lifecycle/Facts.antt =====
-- membership/lifecycle/map-subscription-purchase-to-facts.ts: a Google subscription resource as
-- lifecycle facts. `Date.parse` is a parameter; its results are counted as in `Common.Time`.
use town_api.Common.{
  ℕ, zero, suc, ◌+◌, ◌-◌, ◌*◌, ◌%◌, String, Bool, true, false, not, ◌&&◌, ◌||◌, Option, none, some,
  List, [], ◌∷◌, ◌==◌, ltb, leb, nat_eq, if◌then◌else◌, ◌⊎◌, inl, inr,
}
use town_api.Common.Json.{
  Json, array, Items, nil, cons, get, record_members, non_empty_string, codes,
}
use town_api.Membership.Lifecycle.{
  milliseconds, SubscriptionState, active, cancelled, on_hold, paused, expired, pending,
  SubscriptionFacts,
}

pub data MappingFailure : Type 0 where
  not_object state_missing state_unsupported line_items_missing line_item_invalid : MappingFailure
  expiry_time_missing expiry_time_invalid : MappingFailure

pub data FactsResult : Type 0 where
  facts : SubscriptionFacts → FactsResult
  failure : MappingFailure → FactsResult

-- The parts of a text that the timestamp pattern captures.
pub record Fields : Type 0 where
  pub year : ℕ
  pub month : ℕ
  pub day : ℕ
  pub hour : ℕ
  pub minute : ℕ
  pub second : ℕ

abbrev is_digit : ℕ → Bool
is_digit c = leb b'0' c && leb c b'9'

-- `\d{n}`, as a number added to `acc`, with what follows.
unfoldable pub digits : ℕ → ℕ → List ℕ → Option (ℕ × List ℕ)
digits zero acc cs = some (acc, cs)
digits (suc n) acc [] = none
digits (suc n) acc (c ∷ cs) =
    let rest = digits n (acc * 10 + (c - b'0')) cs in if is_digit c then rest else none

-- One character out of two.
unfoldable pub one_of : ℕ → ℕ → List ℕ → Option (List ℕ)
one_of a b [] = none
one_of a b (c ∷ cs) = if nat_eq c a || nat_eq c b then some cs else none

unfoldable pub skip_digits : List ℕ → List ℕ
skip_digits [] = []
skip_digits (c ∷ cs) = let rest = skip_digits cs in if is_digit c then rest else c ∷ cs

infixl 5 ◌>>=◌
abbrev ◌>>=◌ : {A B : Type 0} → Option A → (A → Option B) → Option B
none >>= f = none
some a >>= f = f a

-- `(?:\.\d+)?`.
unfoldable pub fraction : List ℕ → Option (List ℕ)
unfolding digits skip_digits
fraction [] = some []
fraction (c ∷ cs) =
    if nat_eq c b'.' then (do one ← digits 1 0 cs; some (skip_digits one.1)) else some (c ∷ cs)

-- `[+-]\d{2}:\d{2}$`.
unfoldable pub offset : List ℕ → Option (List ℕ)
unfolding digits one_of
offset cs = do
  signed ← one_of b'+' b'-' cs
  hours ← digits 2 0 signed
  minutes ← one_of b':' b':' hours.1
  last ← digits 2 0 minutes
  some last.1

abbrev at_end : List ℕ → Bool
at_end [] = true
at_end _ = false

-- `(?:[Zz]|[+-]\d{2}:\d{2})$`.
unfoldable pub zone : List ℕ → Bool
unfolding offset one_of
zone cs = elim (one_of b'Z' b'z' cs) [
  | some rest ↦ at_end rest
  | none ↦ elim (offset cs) [ none ↦ false | some rest ↦ at_end rest ]
]

-- `RFC3339_TIMESTAMP.exec`.
unfoldable pub rfc3339 : List ℕ → Option Fields
unfolding digits one_of fraction zone
rfc3339 cs = do
  year ← digits 4 0 cs
  dash ← one_of b'-' b'-' year.1
  month ← digits 2 0 dash
  dash' ← one_of b'-' b'-' month.1
  day ← digits 2 0 dash'
  t ← one_of b'T' b't' day.1
  hour ← digits 2 0 t
  colon ← one_of b':' b':' hour.1
  minute ← digits 2 0 colon
  colon' ← one_of b':' b':' minute.1
  second ← digits 2 0 colon'
  rest ← fraction second.1
  if zone rest
      then some (record {
        year = year.0;
        month = month.0;
        day = day.0;
        hour = hour.0;
        minute = minute.0;
        second = second.0;
      })
      else none

unfoldable pub leap_year : ℕ → Bool
leap_year y = nat_eq (y % 4) 0 && (not (nat_eq (y % 100) 0) || nat_eq (y % 400) 0)

-- `[31, leapYear ? 29 : 28, …][month - 1]`, undefined out of range.
unfoldable pub days_in_month : ℕ → ℕ → Option ℕ
unfolding leap_year
days_in_month year zero = none
days_in_month year (suc zero) = some 31
days_in_month year (suc (suc zero)) = some (if leap_year year then 29 else 28)
days_in_month year (suc (suc (suc zero))) = some 31
days_in_month year (suc (suc (suc (suc zero)))) = some 30
days_in_month year (suc (suc (suc (suc (suc zero))))) = some 31
days_in_month year (suc (suc (suc (suc (suc (suc zero)))))) = some 30
days_in_month year (suc (suc (suc (suc (suc (suc (suc zero))))))) = some 31
days_in_month year (suc (suc (suc (suc (suc (suc (suc (suc zero)))))))) = some 31
days_in_month year (suc (suc (suc (suc (suc (suc (suc (suc (suc zero))))))))) = some 30
days_in_month year (suc (suc (suc (suc (suc (suc (suc (suc (suc (suc zero)))))))))) = some 31
days_in_month year (suc (suc (suc (suc (suc (suc (suc (suc (suc (suc (suc zero))))))))))) = some 30
days_in_month year (suc (suc (suc (suc (suc (suc (suc (suc (suc (suc (suc (suc zero)))))))))))) =
    some 31
days_in_month year _ = none

unfoldable pub fields_valid : Fields → Bool
fields_valid f = elim (days_in_month f.year f.month) [
  | none ↦ false
  | some days ↦
      leb 1 f.year
      && leb 1 f.day
      && leb f.day days
      && leb f.hour 23
      && leb f.minute 59
      && leb f.second 59
]

abbrev pub max_of : Option ℕ → ℕ → ℕ
max_of none b = b
max_of (some a) b = if ltb a b then b else a

-- The switch over `subscriptionState`.
unfoldable pub state_of : String → Option SubscriptionState
state_of s =
    if s == "SUBSCRIPTION_STATE_ACTIVE"
    then some active
    else if s == "SUBSCRIPTION_STATE_IN_GRACE_PERIOD"
    then some active
    else if s == "SUBSCRIPTION_STATE_CANCELED"
    then some cancelled
    else if s == "SUBSCRIPTION_STATE_ON_HOLD"
    then some on_hold
    else if s == "SUBSCRIPTION_STATE_PAUSED"
    then some paused
    else if s == "SUBSCRIPTION_STATE_EXPIRED"
    then some expired
    else if s == "SUBSCRIPTION_STATE_PENDING"
    then some pending
    else if s == "SUBSCRIPTION_STATE_PENDING_PURCHASE_CANCELED"
    then some expired
    else none

module _ (date_parse : String → Option ℕ) where
  unfoldable pub parse_rfc3339_instant : String → Option ℕ
  unfolding rfc3339 fields_valid
  parse_rfc3339_instant s = elim (rfc3339 (codes s)) [
    | none ↦ none
    | some f ↦ if fields_valid f then date_parse s else none
  ]

  -- The expiry of one line item.
  unfoldable pub item_expiry : Json → ℕ ⊎ MappingFailure
  unfolding parse_rfc3339_instant
  item_expiry item = elim (record_members item) [
    | none ↦ inr line_item_invalid
    | some ms ↦ elim (non_empty_string (get "expiryTime" ms)) [
      | none ↦ inr expiry_time_missing
      | some t ↦ elim (parse_rfc3339_instant t) [
        | none ↦ inr expiry_time_invalid
        | some instant ↦ inl instant
      ]
    ]
  ]

  -- The loop over the line items.
  unfoldable pub latest_expiry : Option ℕ → Items → Option ℕ ⊎ MappingFailure
  latest_expiry expiry nil = inl expiry
  latest_expiry expiry (cons item items) = elim (item_expiry item) [
    | inr reason ↦ inr reason
    | inl instant ↦ latest_expiry (some (max_of expiry instant)) items
  ]

  abbrev pub with_items : SubscriptionState → Items → FactsResult
  with_items state nil = failure line_items_missing
  with_items state items = elim (latest_expiry none items) [
    | inr reason ↦ failure reason
    | inl none ↦ failure line_items_missing
    | inl (some expiry) ↦ facts (record { state = state; expiry = milliseconds expiry })
  ]

  abbrev pub with_state : SubscriptionState → Json → FactsResult
  with_state state (array items) = with_items state items
  with_state state _ = failure line_items_missing

  unfoldable pub map_subscription_purchase_to_neutral_facts : Json → FactsResult
  unfolding state_of
  map_subscription_purchase_to_neutral_facts subscription = elim (record_members subscription) [
    | none ↦ failure not_object
    | some ms ↦ elim (non_empty_string (get "subscriptionState" ms)) [
      | none ↦ failure state_missing
      | some s ↦ elim (state_of s) [
        | none ↦ failure state_unsupported
        | some state ↦ with_state state (get "lineItems" ms)
      ]
    ]
  ]
