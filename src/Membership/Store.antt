-- ===== src/Membership/Store.antt =====
-- The tables that membership reads and writes, the errors that a query raises, and transactions.
-- Each table is a list, newest row first; the constraints are those of db/schema.ts.
use town_api.Common.{
  ℕ, String, Bool, true, false, not, ◌&&◌, Option, none, some, List, [], ◌∷◌, ◌==◌, leb,
  if◌then◌else◌,
}
use town_api.Common.Tables.{any}
use town_api.Common.Time.{not_after}
use town_api.Membership.Rows.{
  Account, Status, inactive, active, cancelling, expired, paid_pending_binding, suspended, stripe,
  Entitlement, SourceEvent, PurchaseLink, SecurityEvent, CustomerLink, CheckoutAttempt, RateLimit,
  same_source,
}

-- `drawn` counts the identifiers that `generateId` has produced; a rollback does not return them.
pub record Store : Type 0 where
  pub accounts : List Account
  pub entitlements : List Entitlement
  pub source_events : List SourceEvent
  pub purchase_links : List PurchaseLink
  pub security_events : List SecurityEvent
  pub customer_links : List CustomerLink
  pub checkout_attempts : List CheckoutAttempt
  pub rate_limits : List RateLimit
  pub drawn : ℕ

pub data Constraint : Type 0 where
  entitlements_pkey entitlements_account_id_fkey entitlements_account_id_unique : Constraint
  entitlements_version_positive entitlements_updated_after_created : Constraint
  entitlements_state_invariants entitlements_stripe_subscription_unique : Constraint
  source_events_pkey source_events_account_id_fkey source_events_source_event_unique : Constraint
  links_pkey links_account_id_fkey links_entitlement_id_fkey : Constraint
  links_purchase_token_unique links_updated_after_created : Constraint
  links_purchase_token_nonempty links_package_name_nonempty : Constraint
  links_subscription_id_nonempty : Constraint
  security_events_pkey security_events_account_id_fkey : Constraint
  rate_limits_pkey rate_limits_bucket_unique rate_limits_window_order : Constraint
  rate_limits_updated_after_created : Constraint

-- `violates` is PostgreSQL's refusal, with the constraint that it names; `transient_conflict` its
-- deadlock or serialization failure; `failed` an `Error` that the code throws with that message.
pub data Error : Type 0 where
  source_not_allowed account_not_found : Error
  violates : Constraint → Error
  transient_conflict : Error
  failed : String → Error

pub data Outcome {ℓ} (A : Type ℓ) : Type ℓ where
  ok : A → Store → Outcome A
  throw : Error → Store → Outcome A

abbrev pub Query : Type 0 → Type 0
Query A = Store → Outcome A

abbrev pub pure : {A : Type 0} → A → Query A
pure a s = ok a s

infixl 5 ◌>>=◌ ◌>>◌
abbrev pub ◌>>=◌ : {A B : Type 0} → Query A → (A → Query B) → Query B
◌>>=◌ m f s = elim (m s) [ ok a s' ↦ f a s' | throw e s' ↦ throw e s' ]

abbrev pub ◌>>◌ : {A B : Type 0} → Query A → Query B → Query B
m >> k = m >>= λ _. k

-- `db.transaction`: an exception rolls the tables back.
abbrev pub transaction : {A : Type 0} → Query A → Query A
transaction m s = elim (m s) [
  | ok a s' ↦ ok a s'
  | throw e s' ↦ throw e (record s { drawn = s'.drawn })
]

-- The first constraint of the list that a row breaks, if any.
abbrev pub first_violation : List (Bool × Constraint) → Option Constraint
first_violation [] = none
first_violation ((holds, c) ∷ cs) = if holds then first_violation cs else some c

abbrev pub is_some {ℓ} : {A : Type ℓ} → Option A → Bool
is_some none = false
is_some (some _) = true

abbrev pub is_none {ℓ} : {A : Type ℓ} → Option A → Bool
is_none none = true
is_none (some _) = false

abbrev pub invariants_of : Status → Entitlement → Bool
invariants_of inactive e = is_none e.access_until && not e.cancel_at_period_end
invariants_of active e =
    is_some e.access_until
    && not e.cancel_at_period_end
    && is_some e.activated_at
    && is_none e.expired_at
invariants_of cancelling e =
    is_some e.access_until
    && e.cancel_at_period_end
    && is_some e.cancellation_requested_at
    && is_none e.expired_at
invariants_of expired e =
    is_some e.access_until && not e.cancel_at_period_end && is_some e.expired_at
invariants_of paid_pending_binding e =
    is_some e.access_until
    && not e.cancel_at_period_end
    && is_none e.activated_at
    && is_none e.cancellation_requested_at
    && is_none e.expired_at
invariants_of suspended e = is_some e.access_until && is_none e.expired_at

-- `membership_entitlements_state_invariants`.
abbrev pub state_invariants : Entitlement → Bool
state_invariants e = invariants_of e.status e

abbrev pub stripe_subscription : Entitlement → Option String
stripe_subscription e = if same_source e.source stripe then e.source_subscription_id else none

abbrev pub same_some : Option String → Option String → Bool
same_some (some a) (some b) = a == b
same_some _ _ = false

-- The check constraints of one entitlement row.
unfoldable pub entitlement_checks : Entitlement → List (Bool × Constraint)
entitlement_checks e =
    (leb 1 e.version, entitlements_version_positive)
    ∷ (not_after e.created_at e.updated_at, entitlements_updated_after_created)
    ∷ (state_invariants e, entitlements_state_invariants)
    ∷ []

-- No other row has the Stripe subscription of this one.
abbrev pub subscription_free : Entitlement → List Entitlement → Bool
subscription_free e rows = not (
    any (λ r. not (r.id == e.id) && same_some (stripe_subscription r) (stripe_subscription e)) rows)
