-- ===== src/Membership/Tests.antt =====
-- Concrete runs of membership: an account without a membership activates it, a purchase is
-- provisioned for it, and its access is evaluated.
use town_api.Common.{
  ℕ, zero, suc, String, false, none, some, [], ◌∷◌, ◌≡◌, ◌≢◌, refl, arith, ◌⊎◌, ◌==◌,
}
use town_api.Common.Time.{Timestamp}
use town_api.Membership.Rows.{
  Account, AccountStatus, Status, EventType, stripe, applied, replayed, Entitlement,
}
use town_api.Membership.Store.{Store, ok, transient_conflict, entitlement_checks}
use town_api.Membership.Audit.{
  AuditInput, build_audit_metadata, sanitize_identity_metadata, append_identity_security_event,
  append_transition_audit_event, compute_access_until_category, entries_error, entry_error,
}
use town_api.Membership.Repositories.{
  entitlement_of, event_of, insert_membership_entitlement, insert_violation,
  insert_membership_source_event, source_event_violation, account_exists,
  lock_entitlement_by_account_id, lock_source_event_by_source_and_event_id,
}
use town_api.Membership.Transitions.Input.{Input}
use town_api.Membership.Operations.{activate_membership, logic_of}
use town_api.Membership.Invariant.{IsSound, status_of}
use town_api.Membership.Steps.{Edge}
use town_api.Membership.Retry.{Weather, Sky, membership_operation}
use town_api.Membership.Retry.Effect.{IsQuiet, Did, membership_operation-Did}
use town_api.Membership.Retry.Laws.{
  IsKeptBy, IsKeptBy, IsFair, membership_operation-IsSound, membership_operation-returns,
}
use town_api.Membership.Run.Effects.{SameTables}
use town_api.Membership.Run.Logging.{metadata_accepted}
use town_api.Common.Tables.{any}
use town_api.Membership.Payload.{source_allowed, canonical_payload}
use town_api.Membership.Transitions.Active.{activate_validate, activate_apply}
use town_api.Membership.Run.{
  Runtime, Deps, TransitionOutcome, resolve_generate_id, run_transition_in_transaction, process,
  process_new, transit, settle, apply_mutation, commit_mutation, write_entitlement, record_event,
  audit_creation, audit_if, context, creates, job, session, resolve_node_env,
  hash_membership_transition_payload,
}
use town_api.Membership.Run.Laws.{store_after}
use town_api.Membership.Run.Theorems.{run-IsSound, run-Edge, run-run}

abbrev pub first_of_march : Timestamp
first_of_march = record {
  text = "2026-03-01T00:00:00.000Z";
  time = some 1000;
  instant = some 1000000;
}

abbrev pub first_of_april : Timestamp
first_of_april = record {
  text = "2026-04-01T00:00:00.000Z";
  time = some 2000;
  instant = some 2000000;
}

abbrev identifier : ℕ → String
identifier zero = "id-0"
identifier (suc zero) = "id-1"
identifier (suc (suc zero)) = "id-2"
identifier (suc (suc (suc zero))) = "id-3"
identifier (suc (suc (suc (suc zero)))) = "id-4"
identifier (suc (suc (suc (suc (suc zero))))) = "id-5"
identifier _ = "id-6"

abbrev pub runtime : Runtime
runtime = record {
  node_env = some "production";
  now = first_of_march;
  random_uuid = identifier;
  digest = λ payload. "sha256-of-the-payload";
}

abbrev pub no_deps : Deps
no_deps = record { node_env = none; generate_id = none; request_id = none; processed_at = none }

abbrev pub member : Account
member = record { id = "member"; status = AccountStatus.active; is_owner = false }

abbrev pub new_town : Store
new_town = record {
  accounts = member ∷ [];
  entitlements = [];
  source_events = [];
  purchase_links = [];
  security_events = [];
  customer_links = [];
  checkout_attempts = [];
  rate_limits = [];
  drawn = 0;
}

-- No write but those of the ledger.
abbrev pub no_links : String → ℕ
no_links a = 0

pub new_town-IsSound : IsSound no_links new_town
new_town-IsSound = record {
  ids = tt;
  owners = tt;
  legal = λ a e h. absurd (cc);
  balanced = λ a. refl;
}

abbrev payment : Input
payment = record {
  source = stripe;
  source_event_id = "evt_1";
  event_type = EventType.activate;
  account_id = "member";
  effective_at = first_of_march;
  source_customer_id = some (some "cus_1");
  source_subscription_id = some (some "sub_1");
  access_until = some (some first_of_april);
  cancel_at_period_end = none;
  google_play_package_name = none;
  google_play_purchase_token = none;
  google_play_subscription_id = none;
}

run-IsSound_example : IsSound no_links (
    store_after (
      run_transition_in_transaction runtime payment
        (logic_of activate_membership)
        no_deps
        new_town))
run-IsSound_example =
    run-IsSound activate_membership runtime payment no_deps new_town new_town-IsSound

abbrev pub activated_row : Entitlement
activated_row = record {
  id = "id-0";
  account_id = "member";
  status = Status.active;
  access_until = some first_of_april;
  cancel_at_period_end = false;
  source = stripe;
  source_customer_id = some "cus_1";
  source_subscription_id = some "sub_1";
  activated_at = some first_of_march;
  cancellation_requested_at = none;
  expired_at = none;
  created_at = first_of_march;
  updated_at = first_of_march;
  version = 1;
}

abbrev activated : TransitionOutcome
activated = record { result = applied; entitlement = some activated_row; reason = none }

abbrev pub activated_town : Store
activated_town =
    store_after (
      run_transition_in_transaction runtime payment (logic_of activate_membership) no_deps new_town)

pub activated_town-IsSound : IsSound no_links activated_town
activated_town-IsSound =
    run-IsSound activate_membership runtime payment no_deps new_town new_town-IsSound

-- The definitions that a run of `activate` computes with.
unfoldable pub activation_computes : Unit {0}
unfolding run_transition_in_transaction source_allowed canonical_payload process process_new transit
    settle apply_mutation commit_mutation write_entitlement record_event audit_creation audit_if
    context creates job session resolve_node_env resolve_generate_id
    hash_membership_transition_payload activate_validate activate_apply
    insert_membership_entitlement insert_violation insert_membership_source_event
    source_event_violation account_exists lock_entitlement_by_account_id
    lock_source_event_by_source_and_event_id entitlement_checks append_identity_security_event
    append_transition_audit_event build_audit_metadata compute_access_until_category entries_error
    entry_error sanitize_identity_metadata
activation_computes = tt

payment_runs :
    run_transition_in_transaction runtime payment (logic_of activate_membership) no_deps new_town
    ≡ ok activated activated_town
unfolding activation_computes
payment_runs = refl

abbrev pub neighbour : String
neighbour = "neighbour"

pub other_member : neighbour ≢ member.id
other_member h = cc

run-Edge_example :
    (entitlement_of neighbour activated_town ≡ entitlement_of neighbour new_town)
    × (((activated.result ≡ applied)
          × (activated.entitlement ≡ entitlement_of "member" activated_town)
          × Edge activate_membership
              (status_of "member" new_town)
              (status_of "member" activated_town))
        ⊎ ((activated.result ≢ applied) × (activated_town.entitlements ≡ new_town.entitlements)))
run-Edge_example =
    run-Edge activate_membership runtime payment no_deps new_town neighbour new_town-IsSound
      other_member payment_runs

fresh_identifier :
    any
      (λ r. r.id == resolve_generate_id runtime no_deps activated_town.drawn)
      activated_town.security_events
    ≡ false
unfolding activation_computes
fresh_identifier = refl

new_event : event_of stripe "evt_1" new_town ≡ none
new_event = refl

run-run_example :
    (o : TransitionOutcome) × (u : Store) × (run_transition_in_transaction runtime payment
        (logic_of activate_membership)
        no_deps
        activated_town
      ≡ ok o u)
    × (o.result ≡ replayed)
    × (o.entitlement ≡ entitlement_of "member" activated_town)
    × SameTables activated_town u
run-run_example =
    run-run activate_membership runtime payment no_deps new_town activated_town activated new_event
      refl (omega arith) fresh_identifier payment_runs

-- The first attempt deadlocks, the second meets no error.
abbrev weather : ℕ → Weather
weather zero = record { now = first_of_march; others = λ s. s; fault = some transient_conflict }
weather (suc n) = record { now = first_of_march; others = λ s. s; fault = none }

abbrev pub stormy : Sky
stormy = record {
  attempt = weather;
  recovery = record { now = first_of_march; others = λ s. s; fault = none };
}

pub stormy-IsFair : IsFair no_links stormy
stormy-IsFair = (attempt_keeps, λ s h. h)
  where
    attempt_keeps :
        (n : ℕ) (s : Store) → IsSound no_links s → IsSound no_links ((weather n).others s)
    attempt_keeps zero s h = h
    attempt_keeps (suc n) s h = h

membership_operation-IsSound_example :
    IsSound no_links (
      store_after
        (membership_operation activate_membership stormy runtime payment no_deps new_town))
membership_operation-IsSound_example =
    membership_operation-IsSound activate_membership stormy runtime payment no_deps new_town
      stormy-IsFair new_town-IsSound

membership_operation-returns_example :
    membership_operation activate_membership stormy runtime payment no_deps new_town
    ≡ ok activated activated_town
membership_operation-returns_example =
    membership_operation-returns activate_membership stormy runtime payment no_deps 1 new_town
      activated_town activated (omega arith) (refl, refl) payment_runs

abbrev activation_entry : AuditInput
activation_entry = record {
  previous_status = Status.inactive;
  next_status = Status.active;
  entitlement_version = 1;
  source = stripe;
  event_type = EventType.activate;
  effective_at = first_of_march;
  access_until = some first_of_april;
}

metadata_accepted_example :
    sanitize_identity_metadata (some (build_audit_metadata activation_entry)) ≡ none
metadata_accepted_example = metadata_accepted activation_entry (omega arith)

abbrev IsQuietTown : Store → Type 0
IsQuietTown t = IsQuiet no_links new_town t

stormy-IsKeptBy : IsKeptBy IsQuietTown stormy
stormy-IsKeptBy = (attempt_keeps, λ s h. h)
  where
    attempt_keeps : (n : ℕ) (s : Store) → IsQuietTown s → IsQuietTown ((weather n).others s)
    attempt_keeps zero s h = h
    attempt_keeps (suc n) s h = h

stormy-payment :
    membership_operation activate_membership stormy runtime payment no_deps new_town
    ≡ ok activated activated_town
stormy-payment =
    membership_operation-returns activate_membership stormy runtime payment no_deps 1 new_town
      activated_town activated (omega arith) (refl, refl) payment_runs

membership_operation-Did_example :
    Did activate_membership "member" new_town activated activated_town
membership_operation-Did_example =
    membership_operation-Did activate_membership no_deps new_town runtime stormy payment activated
      activated_town stormy-IsKeptBy new_town-IsSound stormy-payment
