-- ===== src/Lib.antt =====
-- The town API: the membership of its accounts.
--
-- The program is a web service over PostgreSQL. An account pays for a membership through a provider;
-- the provider's events reach the code below src/membership, which keeps one entitlement row for each
-- account, a ledger of the source events it has processed, and links from Google Play purchase tokens
-- to entitlements. Civic routes ask src/membership/civic-access.ts whether an account may take part.
--
-- Files and what they model:
--   Common: shared names; Tests (Booleans), Tables and Rows (lists of rows), Time (timestamps as texts
--     that `new Date(text).getTime()` and PostgreSQL read), Json (parsed JSON values).
--   Membership/Rows, Store: the rows and constraints of src/db/schema.ts, the errors of a query, and
--     transactions. `Query A` takes the tables and returns a value or throws, with the tables after it.
--   Membership/Repositories: src/membership/repositories (`lockEntitlementByAccountId` is
--     `lock_entitlement_by_account_id`, and so on).
--   Membership/Audit: src/identity/metadata-policy.ts, the append of
--     src/identity/repositories/security-events.ts, and the audit helpers of transitions/shared.ts.
--   Membership/Transitions/Active, Ending, Pending: the `TransitionLogic` of the six files of
--     src/membership/transitions; Input has their types. Membership/Operations names the six.
--   Membership/Payload: src/membership/payload-hash.ts and source-policy.ts.
--   Membership/Run: `runTransitionInTransaction` of transitions/shared.ts, cut at its early returns
--     into `process`, `transit`, `settle` and `commit_mutation`.
--   Membership/Provision: src/membership/google-play/provision-paid-pending-binding.ts.
--   Membership/Retry: the retry loops and race recoveries of both. What other sessions commit before
--     an attempt and the error that PostgreSQL raises in it are arguments (`Sky`), and so
--     is the time of each attempt.
--   Membership/Reconcile: src/membership/reconcile.ts and its query of the candidates.
--   Membership/Binding: src/membership/bind-service.ts and finalize-after-community-bind.ts, with the
--     queries that they make of db/repositories/confirmations.ts and identity/repositories/actor-link.ts.
--   Membership/Verify: src/membership/google-play/verify-purchase.ts, and the resource and the choice
--     of its line item from subscription-purchase-v2.ts.
--   Membership/Notifications: src/membership/google-play/rtdn/parse-notification.ts (`Json` in Common
--     has its JSON values); Reading has what an answered notification says of the body.
--   Membership/Access: src/membership/civic-access.ts, community-commitment.ts, local-eligibility.ts.
--   Membership/Lifecycle: src/membership/lifecycle.
--   Billing/Stripe, Links, Webhook, Handlers, Process: src/billing/webhook-processor.ts, the queries that
--     it makes of src/billing/repositories, and (Price) price-policy.ts. The commits of other sessions
--     (`Surroundings`) are arguments as those of the retries are. Paths and Keeping have what holds on
--     every path of the processing; Linking and Checkout what a completed checkout changes; Accounting,
--     Safety, Answers, Payment and Periods have the theorems.
--   Ceremony/RateLimits: src/ceremony/repositories/ceremony-rate-limits.ts; Windows has what the files
--     rate-limits.ts of src/ceremony, src/billing and src/membership share, and Accounts, Passwords,
--     Passkeys, Signins, Emails and Recovery their functions, each limit as a `Rule`.
--   Membership/Invariant, Steps: the invariant of the tables and the status diagram. The other modules
--     below a component have its lemmas, theorems and tests.
--
-- Bounds: the retry loops are recursion on the retries left, from 5 (`MAX_TRANSITION_RETRIES`,
-- `MAX_PROVISION_RETRIES`); every other loop is structural recursion on a list or a text. A time is a
-- natural number of milliseconds since the earliest date of JavaScript, or missing for NaN.
-- PostgreSQL's reading of a time in microseconds is kept beside it, where a query compares the end of an
-- access.
--
-- Parameters: the environment, the clock, `randomUUID` (a supply of identifiers, read at a counter),
-- SHA-256 over JSON, `Date.parse`, `toIsoTimestamp`, `trim`, `JSON.parse`, `Buffer`, `TextDecoder`, the
-- adapters of the Android Publisher API and of Stripe, `toISOString`, and the keyed hash of a limited
-- subject. A transaction runs alone; a lock reads as its query does, but for the query of the
-- candidates for expiry, which skips the rows that others have locked: which ones is an argument.
--
-- Not modelled: the HTTP routes and their schemas, the ceremonies that establish an account (but for
-- their rate limits), the Stripe client and its checkout, the civic platform, configuration, operations
-- and seeds; and of membership, its contract document, the Google Play client and the inbox of its
-- notifications.
pub mod Billing
pub mod Ceremony
pub mod Common
pub mod Membership
