-- ===== src/Billing.antt =====
-- Billing (src/billing): Stripe's objects, the price policy, and the processing of webhook events.
pub mod Stripe
pub mod Price
pub mod Links
pub mod Webhook
pub mod Handlers
pub mod Process
pub mod Linking
pub mod Paths
pub mod Keeping
pub mod Checkout
pub mod Accounting
pub mod Safety
pub mod Periods
pub mod Answers
pub mod Payment
mod Tests
