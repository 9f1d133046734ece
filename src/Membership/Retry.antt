-- ===== src/Membership/Retry.antt =====
-- The retry loops of `executeMembershipTransition` (membership/transitions/shared.ts) and
-- `provisionGooglePlayPaidPendingBinding`, and their recovery from races. What other sessions commit
-- before each transaction, and the error with which PostgreSQL ends it, are arguments; the random
-- delay between two attempts is left out.
pub mod Laws
pub mod Effect
pub mod Provisioning
use town_api.Common.{
  ℕ, zero, suc, ◌+◌, String, Bool, true, false, Option, none, some, if◌then◌else◌,
}
use town_api.Common.Time.{Timestamp}
use town_api.Membership.Rows.{Source, google_play, rejected, SourceEvent, Entitlement, PurchaseLink}
use town_api.Membership.Store.{
  Store, Error, violates, transient_conflict, failed, source_events_source_event_unique,
  links_purchase_token_unique, Query, Outcome, ok, throw, pure, ◌>>=◌, transaction,
}
use town_api.Membership.Repositories.{
  lock_source_event_by_source_and_event_id, find_google_play_purchase_link_by_token,
  find_entitlement_by_account_id,
}
use town_api.Membership.Transitions.Input.{Input, Logic}
use town_api.Membership.Run.{
  Runtime, Deps, Job, job, Session, session, TransitionOutcome, read_existing_outcome,
  run_transition_in_transaction,
}
use town_api.Membership.Provision.{
  Purchase, ProvisionOutcome, read_existing_provision_outcome, run_provision_in_transaction,
  to_transition_payload,
}
use town_api.Membership.Operations.{Operation, logic_of}

-- The surroundings of one transaction: the time when the function that runs it starts, the commits of
-- other sessions since the last one, and the error that PostgreSQL raises in place of its commit, if
-- any.
pub record Weather : Type 0 where
  pub now : Timestamp
  pub others : Store → Store
  pub fault : Option Error

unfoldable pub under : {A : Type 0} → Weather → Query A → Query A
under w m s = elim w.fault [ none ↦ m (w.others s) | some e ↦ throw e (w.others s) ]

unfoldable pub is_source_event_unique_violation : Error → Bool
is_source_event_unique_violation (violates source_events_source_event_unique) = true
is_source_event_unique_violation _ = false

unfoldable pub is_purchase_token_unique_violation : Error → Bool
is_purchase_token_unique_violation (violates links_purchase_token_unique) = true
is_purchase_token_unique_violation _ = false

unfoldable pub is_transient_postgres_conflict : Error → Bool
is_transient_postgres_conflict transient_conflict = true
is_transient_postgres_conflict _ = false

-- `MAX_TRANSITION_RETRIES` and `MAX_PROVISION_RETRIES`.
abbrev pub max_retries : ℕ
max_retries = 5

-- The process at another time.
abbrev pub at_time : Runtime → Timestamp → Runtime
at_time rt now = record rt { now = now }

-- The weather of each attempt, and of the transaction that recovers from a race.
pub record Sky : Type 0 where
  pub attempt : ℕ → Weather
  pub recovery : Weather

-- `for (attempt = 0; attempt <= MAX; attempt += 1)`, with the retries that are left, the body of
-- each attempt, and a handler for every error that is not a reason to retry.
unfoldable pub attempts : {A : Type 0} → ℕ → ℕ → Sky → (ℕ → Query A) → (Error → Query A) → Query A
unfolding under is_transient_postgres_conflict
attempts zero n sky m handle s = elim (under (sky.attempt n) (m n) s) [
  | ok a t ↦ ok a t
  | throw e t ↦ handle e t
]
attempts (suc left) n sky m handle s = elim (under (sky.attempt n) (m n) s) [
  | ok a t ↦ ok a t
  | throw e t ↦
      let again = attempts left (n + 1) sky m handle t in
      if is_transient_postgres_conflict e then again else handle e t
]

unfoldable pub find_and_compare : Job → Query TransitionOutcome
unfolding lock_source_event_by_source_and_event_id
find_and_compare j = do
  existing ← lock_source_event_by_source_and_event_id j.input.source j.input.source_event_id
  elim existing [
    | none ↦ λ s. throw (failed "Membership source event race recovery failed") s
    | some event ↦ read_existing_outcome j event
  ]

unfoldable pub find_and_compare_after_race : Job → Query TransitionOutcome
unfolding find_and_compare
find_and_compare_after_race j = transaction (find_and_compare j)

-- The `catch` block.
unfoldable pub recover_transition : Sky → Job → Error → Query TransitionOutcome
unfolding is_source_event_unique_violation under
recover_transition sky j e s =
    if is_source_event_unique_violation e
    then under sky.recovery (find_and_compare_after_race j) s
    else throw e s

unfoldable pub execute_membership_transition :
    Sky → Runtime → Input → Logic → Deps → Query TransitionOutcome
unfolding attempts
execute_membership_transition sky rt i l d =
    attempts max_retries 0 sky
      (λ n. run_transition_in_transaction (at_time rt (sky.attempt n).now) i l d)
      (recover_transition sky (job (at_time rt sky.recovery.now) i l d))

-- The exported transitions: the event type of the input is that of the logic.
unfoldable pub membership_operation :
    Operation → Sky → Runtime → Input → Deps → Query TransitionOutcome
unfolding execute_membership_transition
membership_operation op sky rt i d =
    execute_membership_transition sky rt (record i { event_type = (logic_of op).event_type })
      (logic_of op) d

unfoldable pub find_and_compare_provision : Session → Purchase → Query ProvisionOutcome
unfolding lock_source_event_by_source_and_event_id
find_and_compare_provision j p = do
  existing ← lock_source_event_by_source_and_event_id google_play p.source_event_id
  elim existing [
    | none ↦ λ s. throw (failed "Google Play provision source event race recovery failed") s
    | some event ↦ read_existing_provision_outcome j p event
  ]

abbrev conflict_answer : PurchaseLink → Option Entitlement → ProvisionOutcome
conflict_answer l e = record {
  result = rejected;
  entitlement = e;
  purchase_link = some l;
  reason = some "purchase_token_already_correlated";
}

unfoldable pub find_committed_token_conflict : Purchase → Query (Option ProvisionOutcome)
unfolding find_google_play_purchase_link_by_token find_entitlement_by_account_id
find_committed_token_conflict p = do
  link ← find_google_play_purchase_link_by_token p.purchase_token
  elim link [
    | none ↦ pure none
    | some l ↦ (do
      e ← find_entitlement_by_account_id p.account_id
      pure (some (conflict_answer l e)))
  ]

-- The answer to a token conflict, or the error where the competing link was not committed.
abbrev pub conflict_or_throw : Error → Option ProvisionOutcome → Query ProvisionOutcome
conflict_or_throw e none s = throw e s
conflict_or_throw e (some o) s = ok o s

-- The `catch` block of the provisioner. A unique violation is no transient conflict, so the order of
-- its tests and of the retry test does not matter.
unfoldable pub recover_provision : Sky → Session → Purchase → Error → Query ProvisionOutcome
unfolding is_source_event_unique_violation is_purchase_token_unique_violation under
    find_committed_token_conflict
recover_provision sky j p e =
    if is_source_event_unique_violation e
    then under sky.recovery (transaction (find_and_compare_provision j p))
    else if is_purchase_token_unique_violation e
    then (do
      existing ← under sky.recovery (transaction (find_committed_token_conflict p))
      conflict_or_throw e existing)
    else λ s. throw e s

unfoldable pub provision_google_play_paid_pending_binding :
    Sky → Runtime → Purchase → Deps → Query ProvisionOutcome
unfolding attempts to_transition_payload session
provision_google_play_paid_pending_binding sky rt p d =
    attempts max_retries 0 sky
      (λ n. run_provision_in_transaction (at_time rt (sky.attempt n).now) p d)
      (recover_provision sky (session (at_time rt sky.recovery.now) (to_transition_payload p) d) p)
