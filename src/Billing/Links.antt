-- ===== src/Billing/Links.antt =====
-- The queries of billing/repositories that the processing of webhook events uses.
use town_api.Common.{String, Bool, ◌&&◌, Option, none, some, ◌==◌}
use town_api.Common.Tables.{find?, update_where}
use town_api.Common.Time.{Timestamp}
use town_api.Membership.Rows.{CustomerLink, CheckoutStatus, CheckoutAttempt}
use town_api.Membership.Store.{Store, Query, ok, same_some}

abbrev pub customer_link_of : String → Store → Option CustomerLink
customer_link_of stripe_customer_id s =
    find? (λ l. l.stripe_customer_id == stripe_customer_id) s.customer_links

unfoldable pub find_customer_link_by_stripe_customer_id : String → Query (Option CustomerLink)
find_customer_link_by_stripe_customer_id stripe_customer_id s =
    ok (customer_link_of stripe_customer_id s) s

abbrev is_attempt : String → String → CheckoutAttempt → Bool
is_attempt account_id session_id a =
    a.account_id == account_id && same_some a.stripe_checkout_session_id (some session_id)

abbrev set_attempt : CheckoutStatus → Option (Option Timestamp) → CheckoutAttempt → CheckoutAttempt
set_attempt status none a = record a { status = status }
set_attempt status (some completed_at) a = record a { status = status; completed_at = completed_at }

-- No constraint of the table reads a column that this writes, but the list of the statuses.
unfoldable pub mark_checkout_attempt_status :
    String → String → CheckoutStatus → Option (Option Timestamp) → Query (Option CheckoutAttempt)
mark_checkout_attempt_status account_id session_id status completed_at s =
    let rows =
      update_where (is_attempt account_id session_id) (set_attempt status completed_at)
        s.checkout_attempts in
    ok (find? (is_attempt account_id session_id) rows) (record s { checkout_attempts = rows })
