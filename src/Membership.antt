-- ===== src/Membership.antt =====
-- Membership (src/membership): entitlements, the ledger of source events, and what they decide.
pub mod Rows
pub mod Store
pub mod Audit
pub mod Repositories
pub mod Transitions
pub mod Payload
pub mod Run
pub mod Access
pub mod Provision
pub mod Retry
pub mod Lifecycle
pub mod Operations
pub mod Invariant
pub mod Steps
pub mod Reconcile
pub mod Binding
pub mod Verify
pub mod Notifications
pub mod Tests
