-- ===== src/Membership/Invariant.antt =====
-- What holds of the membership tables between two transactions.
use town_api.Common.{◌+◌, ℕ, String, Bool, true, some, ◌≡◌, ◌&&◌, ◌==◌}
use town_api.Common.Tables.{count_where, Distinct}
use town_api.Membership.Rows.{Status, cancelling, applied, Entitlement, SourceEvent, same_result}
use town_api.Membership.Store.{Store, state_invariants, is_some}
use town_api.Membership.Repositories.{entitlement_of}
use town_api.Membership.Transitions.Input.{status_or_inactive, version_or_zero}

abbrev pub status_of : String → Store → Status
status_of account_id s = status_or_inactive (entitlement_of account_id s)

abbrev pub version_of : String → Store → ℕ
version_of account_id s = version_or_zero (entitlement_of account_id s)

-- An applied event of the account.
abbrev pub is_applied_for : String → SourceEvent → Bool
is_applied_for account_id e = e.account_id == account_id && same_result e.result applied

abbrev pub applied_count : String → Store → ℕ
applied_count account_id s = count_where (is_applied_for account_id) s.source_events

-- A row as the transitions write it: the check constraint of the table, and one fact that the
-- constraint leaves out and reactivation needs.
pub record IsLegal (e : Entitlement) : Type 0 where
  pub checked : state_invariants e ≡ true
  pub was_activated : e.status ≡ cancelling → is_some e.activated_at ≡ true

-- `links` counts, for each account, the writes to its row that no event of the ledger accounts for.
pub record IsSound (links : String → ℕ) (s : Store) : Type 0 where
  pub ids : Distinct (λ e. e.id) s.entitlements
  pub owners : Distinct (λ e. e.account_id) s.entitlements
  pub legal : (a : String) (e : Entitlement) → entitlement_of a s ≡ some e → IsLegal e
  -- The version of an account's row is the number of writes to it.
  pub balanced : (a : String) → version_of a s ≡ applied_count a s + links a
