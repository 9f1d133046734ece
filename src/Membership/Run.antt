-- ===== src/Membership/Run.antt =====
-- membership/transitions/shared.ts: one run of a transition in its transaction.
pub mod Effects
pub mod Process
pub mod Soundness
pub mod Laws
pub mod Theorems
pub mod Logging
use town_api.Common.{
  ℕ, String, Bool, true, false, not, Option, none, some, List, ◌==◌, if◌then◌else◌, or_else,
}
use town_api.Common.Tables.{find?}
use town_api.Common.Time.{Timestamp}
use town_api.Membership.Rows.{
  Account, Source, EventResult, applied, replayed, rejected, stale, Entitlement, SourceEvent,
  AuditType, membership_created, same_event_type,
}
use town_api.Membership.Store.{
  Store, Query, ok, throw, source_not_allowed, account_not_found, failed, pure, ◌>>=◌, ◌>>◌,
  transaction, is_none,
}
use town_api.Membership.Audit.{draw, AuditInput, AuditContext, append_transition_audit_event}
use town_api.Membership.Repositories.{
  lock_entitlement_by_account_id, insert_membership_entitlement, update_membership_entitlement,
  Mutation, lock_source_event_by_source_and_event_id, insert_membership_source_event,
}
use town_api.Membership.Transitions.Input.{
  Field, value, Input, Context, Validation, accept, reject, outdated, Applied, writes, throws,
  Logic, status_or_inactive, version_or_zero, access_until_or_null,
}
use town_api.Membership.Payload.{JsonValue, canonical_payload, source_allowed}

-- What the process gives: `process.env.NODE_ENV`, the current time, `randomUUID`, and SHA-256 of the
-- JSON text of an object.
pub record Runtime : Type 0 where
  pub node_env : Option String
  pub now : Timestamp
  pub random_uuid : ℕ → String
  pub digest : List (String × JsonValue) → String

pub record Deps : Type 0 where
  pub node_env : Option String
  pub generate_id : Option (ℕ → String)
  pub request_id : Field String
  pub processed_at : Option Timestamp

pub record TransitionOutcome : Type 0 where
  pub result : EventResult
  pub entitlement : Option Entitlement
  pub reason : Option String

unfoldable pub resolve_node_env : Runtime → Deps → String
resolve_node_env rt d = or_else d.node_env (or_else rt.node_env "development")

unfoldable pub resolve_generate_id : Runtime → Deps → ℕ → String
resolve_generate_id rt d = or_else d.generate_id rt.random_uuid

unfoldable pub hash_membership_transition_payload : Runtime → Input → String
hash_membership_transition_payload rt i = rt.digest (canonical_payload i)

-- The values that one run resolves before its transaction starts.
pub record Session : Type 0 where
  pub input : Input
  pub payload_hash : String
  pub processed_at : Timestamp
  pub supply : ℕ → String
  pub request_id : Option String

unfoldable pub session : Runtime → Input → Deps → Session
unfolding resolve_generate_id hash_membership_transition_payload
session rt i d = record {
  input = i;
  payload_hash = hash_membership_transition_payload rt i;
  processed_at = or_else d.processed_at rt.now;
  supply = resolve_generate_id rt d;
  request_id = value d.request_id;
}

-- A session and the transition that it runs.
pub record Job : Type 0 where
  pub session : Session
  pub open session use *
  pub logic : Logic

unfoldable pub job : Runtime → Input → Logic → Deps → Job
unfolding session
job rt i l d = record { session = session rt i d; logic = l }

abbrev pub audit_context : Session → AuditContext
audit_context j = record {
  supply = j.supply;
  account_id = j.input.account_id;
  processed_at = j.processed_at;
  request_id = j.request_id;
}

-- The audit entry of an event that changed nothing.
abbrev pub unchanged : Session → Option Entitlement → AuditInput
unchanged j entitlement = record {
  previous_status = status_or_inactive entitlement;
  next_status = status_or_inactive entitlement;
  entitlement_version = version_or_zero entitlement;
  source = j.input.source;
  event_type = j.input.event_type;
  effective_at = j.input.effective_at;
  access_until = access_until_or_null entitlement;
}

-- The audit entry of an applied event.
abbrev pub changed : Session → Option Entitlement → Entitlement → AuditInput
changed j previous e = record {
  previous_status = status_or_inactive previous;
  next_status = e.status;
  entitlement_version = e.version;
  source = j.input.source;
  event_type = j.input.event_type;
  effective_at = j.input.effective_at;
  access_until = e.access_until;
}

-- An audit event whose type the logic may leave out.
unfoldable pub audit_if : Session → Option AuditType → AuditInput → Query (Unit {0})
audit_if j none i = pure tt
audit_if j (some event_type) i =
    append_transition_audit_event (audit_context j) event_type i >> pure tt

-- The row of `SELECT … FROM town.accounts WHERE id = …`.
abbrev pub account_of : String → Store → Option Account
account_of account_id s = find? (λ a. a.id == account_id) s.accounts

unfoldable pub answer_replay : Job → Option Entitlement → Query TransitionOutcome
answer_replay j entitlement = do
  audit_if j.session j.logic.replayed_audit_event_type (unchanged j.session entitlement)
  pure (record { result = replayed; entitlement = entitlement; reason = none })

unfoldable pub answer_mismatch : Job → Option Entitlement → Query TransitionOutcome
answer_mismatch j entitlement = do
  audit_if j.session j.logic.rejected_audit_event_type (unchanged j.session entitlement)
  pure (record {
    result = rejected;
    entitlement = entitlement;
    reason = some "payload_hash_mismatch";
  })

unfoldable pub read_existing_outcome : Job → SourceEvent → Query TransitionOutcome
unfolding lock_entitlement_by_account_id
read_existing_outcome j existing = do
  entitlement ← lock_entitlement_by_account_id j.input.account_id
  if existing.payload_hash == j.payload_hash
      then answer_replay j entitlement
      else answer_mismatch j entitlement

unfoldable pub record_event : Session → EventResult → Query SourceEvent
record_event j result = do
  id ← draw j.supply
  insert_membership_source_event (record {
    id = id;
    source = j.input.source;
    source_event_id = j.input.source_event_id;
    event_type = j.input.event_type;
    account_id = j.input.account_id;
    payload_hash = j.payload_hash;
    effective_at = j.input.effective_at;
    processed_at = j.processed_at;
    result = result;
    created_at = j.processed_at;
  })

-- The new row where the account had none.
abbrev pub created : Session → String → Mutation → Entitlement
created j id m = record {
  id = id;
  account_id = j.input.account_id;
  status = m.status;
  access_until = m.access_until;
  cancel_at_period_end = m.cancel_at_period_end;
  source = m.source;
  source_customer_id = m.source_customer_id;
  source_subscription_id = m.source_subscription_id;
  activated_at = m.activated_at;
  cancellation_requested_at = m.cancellation_requested_at;
  expired_at = m.expired_at;
  created_at = j.processed_at;
  updated_at = j.processed_at;
  version = m.version;
}

unfoldable pub write_entitlement : Session → Option Entitlement → Mutation → Query Entitlement
write_entitlement j none m = do id ← draw j.supply; insert_membership_entitlement (created j id m)
write_entitlement j (some e) m = update_membership_entitlement e.id m j.processed_at

-- `logic.isCreation?.(ctx) ?? entitlement === null`.
unfoldable pub creates : Logic → Context → Bool
creates l ctx = elim l.is_creation [ none ↦ is_none ctx.entitlement | some test ↦ test ctx ]

unfoldable pub audit_creation : Session → Bool → AuditInput → Query (Unit {0})
audit_creation j false i = pure tt
audit_creation j true i = audit_if j (some membership_created) i

-- The steps after the new columns are known.
unfoldable pub commit_mutation : Job → Context → Mutation → Query TransitionOutcome
commit_mutation j ctx m = do
  e ← write_entitlement j.session ctx.entitlement m
  record_event j.session applied
  audit_creation j.session (creates j.logic ctx) (changed j.session ctx.entitlement e)
  audit_if j.session (some j.logic.applied_audit_event_type) (changed j.session ctx.entitlement e)
  pure (record { result = applied; entitlement = some e; reason = none })

unfoldable pub apply_mutation : Job → Context → Applied → Query TransitionOutcome
apply_mutation j ctx (throws message) s = throw (failed message) s
apply_mutation j ctx (writes m) s = commit_mutation j ctx m s

unfoldable pub settle : Job → Context → Validation → Query TransitionOutcome
settle j ctx (reject reason) = do
  record_event j.session rejected
  audit_if j.session j.logic.rejected_audit_event_type (unchanged j.session ctx.entitlement)
  pure (record { result = rejected; entitlement = ctx.entitlement; reason = some reason })
settle j ctx (outdated reason) = do
  record_event j.session stale
  pure (record { result = stale; entitlement = ctx.entitlement; reason = some reason })
settle j ctx accept = apply_mutation j ctx (j.logic.apply ctx)

unfoldable pub context : Job → Account → Option Entitlement → Context
context j account entitlement = record {
  account = account;
  entitlement = entitlement;
  input = j.input;
  payload_hash = j.payload_hash;
  processed_at = j.processed_at;
}

unfoldable pub transit : Job → Account → Option Entitlement → Query TransitionOutcome
unfolding context
transit j account entitlement =
    let ctx = context j account entitlement in settle j ctx (j.logic.validate ctx)

unfoldable pub process_new : Job → Query TransitionOutcome
unfolding lock_entitlement_by_account_id
process_new j s = elim (account_of j.input.account_id s) [
  | none ↦ throw account_not_found s
  | some account ↦
      (do
        entitlement ← lock_entitlement_by_account_id j.input.account_id
        transit j account entitlement)
        s
]

-- The body of the transaction.
unfoldable pub process : Job → Query TransitionOutcome
unfolding lock_source_event_by_source_and_event_id
process j = do
  existing ← lock_source_event_by_source_and_event_id j.input.source j.input.source_event_id
  elim existing [ some event ↦ read_existing_outcome j event | none ↦ process_new j ]

unfoldable pub run_transition_in_transaction :
    Runtime → Input → Logic → Deps → Query TransitionOutcome
unfolding resolve_node_env job
run_transition_in_transaction rt i l d s =
    if not (source_allowed i.source (resolve_node_env rt d))
    then throw source_not_allowed s
    else if not (same_event_type i.event_type l.event_type)
    then ok (record { result = rejected; entitlement = none; reason = some "event_type_mismatch" })
        s
    else transaction (process (job rt i l d)) s
