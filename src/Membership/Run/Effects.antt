-- ===== src/Membership/Run/Effects.antt =====
-- What each step of a transition changes when it does not throw.
use town_api.Common.{
  String, Bool, true, false, Option, none, some, ◌∷◌, ◌≡◌, refl, arith, inl, inr, ◌∙◌, Option-cases,
  ◌==◌,
}
use town_api.Common.Tables.{find?, update_where}
use town_api.Membership.Rows.{EventResult, Entitlement, SourceEvent, SecurityEvent, AuditType}
use town_api.Membership.Store.{Store, Query, Outcome, ok, throw, ◌>>=◌}
use town_api.Membership.Audit.{
  AuditInput, AuditContext, append_identity_security_event, append_transition_audit_event,
}
use town_api.Membership.Repositories.{
  insert_membership_source_event, Mutation, rewritten, insert_violation, update_violation,
  insert_membership_entitlement, update_membership_entitlement,
}
use town_api.Membership.Run.{
  Session, audit_if, audit_creation, record_event, created, write_entitlement,
}

-- Inversion of a bind that returns, with a continuation for what the two parts return.
pub after :
    {A B : Type 0} {P : Type 0} (m : Query A) (f : A → Query B) (s : Store) {b : B} {u : Store}
    → ◌>>=◌ m f s ≡ ok b u
    → ((a : A) (t : Store) → m s ≡ ok a t → f a t ≡ ok b u → P)
    → P
after {A} {B} {P} m f s {b} {u} h k = by_outcome (m s) refl h
  where
    by_outcome :
        (o : Outcome A) → m s ≡ o → (elim o [ ok a t ↦ f a t | throw e t ↦ throw e t ]) ≡ ok b u → P
    by_outcome (ok a t) e q = k a t e q
    by_outcome (throw x t) e q = absurd (cc)

-- The two stores agree but for the security log and the identifiers drawn.
pub record SameTables (s t : Store) : Type 0 where
  pub accounts : t.accounts ≡ s.accounts
  pub entitlements : t.entitlements ≡ s.entitlements
  pub source_events : t.source_events ≡ s.source_events
  pub purchase_links : t.purchase_links ≡ s.purchase_links
  pub customer_links : t.customer_links ≡ s.customer_links
  pub checkout_attempts : t.checkout_attempts ≡ s.checkout_attempts
  pub rate_limits : t.rate_limits ≡ s.rate_limits

append-SameTables :
    (e : SecurityEvent) (s : Store) {a : SecurityEvent} {t : Store}
    → append_identity_security_event e s ≡ ok a t
    → SameTables s t
unfolding append_identity_security_event
append-SameTables e s h = ground arith

pub append_transition_audit_event-SameTables :
    (c : AuditContext) (event_type : AuditType) (i : AuditInput) (s : Store) {a : SecurityEvent}
    {t : Store}
    → append_transition_audit_event c event_type i s ≡ ok a t
    → SameTables s t
unfolding append_transition_audit_event append_identity_security_event
append_transition_audit_event-SameTables c event_type i s h = ground arith

pub audit_if-SameTables :
    (j : Session) (o : Option AuditType) (i : AuditInput) (s : Store) {a : Unit {0}} {t : Store}
    → audit_if j o i s ≡ ok a t
    → SameTables s t
unfolding audit_if append_transition_audit_event append_identity_security_event
audit_if-SameTables j o i s h = ground arith

pub audit_creation-SameTables :
    (j : Session) (b : Bool) (i : AuditInput) (s : Store) {a : Unit {0}} {t : Store}
    → audit_creation j b i s ≡ ok a t
    → SameTables s t
unfolding audit_creation
audit_creation-SameTables j false i s h = ground arith
audit_creation-SameTables j true i s h = audit_if-SameTables j _ i s h

-- The run recorded its event in the ledger with the result `r`, and left the accounts.
pub record Recorded (j : Session) (r : EventResult) (s t : Store) : Type 0 where
  pub event : SourceEvent
  pub ledger : t.source_events ≡ event ∷ s.source_events
  pub accounts : t.accounts ≡ s.accounts
  pub source : event.source ≡ j.input.source
  pub source_event_id : event.source_event_id ≡ j.input.source_event_id
  pub account_id : event.account_id ≡ j.input.account_id
  pub payload_hash : event.payload_hash ≡ j.payload_hash
  pub result : event.result ≡ r

pub record_event-Recorded :
    (j : Session) (r : EventResult) (s : Store) {a : SourceEvent} {t : Store}
    → record_event j r s ≡ ok a t
    → Recorded j r s t × (t.entitlements ≡ s.entitlements) × (t.purchase_links ≡ s.purchase_links)
unfolding record_event insert_membership_source_event
record_event-Recorded j r s {a} {t} h = (
  record {
    event = a;
    ledger = ground arith;
    accounts = ground arith;
    source = ground arith;
    source_event_id = ground arith;
    account_id = ground arith;
    payload_hash = ground arith;
    result = ground arith;
  },
  ground arith,
  ground arith,
)

-- What was recorded stays so under steps that keep the tables.
pub Recorded-SameTables :
    {j : Session} {r : EventResult} {s t u : Store}
    → Recorded j r s t
    → SameTables t u
    → Recorded j r s u
Recorded-SameTables {j} {r} {s} {t} {u} w k = record {
  event = w.event;
  ledger = k.source_events ∙ w.ledger;
  accounts = k.accounts ∙ w.accounts;
  source = w.source;
  source_event_id = w.source_event_id;
  account_id = w.account_id;
  payload_hash = w.payload_hash;
  result = w.result;
}

-- The entitlements after the columns `m` were written, for an account that had `previous`.
pub data Written (j : Session) (m : Mutation) (s t : Store) (e : Entitlement)
    : Option Entitlement → Type 0 where
  inserted :
      (id : String)
      → e ≡ created j id m
      → t.entitlements ≡ e ∷ s.entitlements
      → insert_violation e s ≡ none
      → Written j m s t e none
  updated :
      (previous row : Entitlement)
      → find? (λ r. r.id == previous.id) s.entitlements ≡ some row
      → e ≡ rewritten m j.processed_at row
      → t.entitlements
        ≡ update_where (λ r. r.id == previous.id) (rewritten m j.processed_at) s.entitlements
      → update_violation e s ≡ none
      → Written j m s t e (some previous)

pub write_entitlement-Written :
    (j : Session) (previous : Option Entitlement) (m : Mutation) (s : Store) {e : Entitlement}
    {t : Store}
    → write_entitlement j previous m s ≡ ok e t
    → Written j m s t e previous
      × (t.source_events ≡ s.source_events)
      × (t.accounts ≡ s.accounts)
      × (t.purchase_links ≡ s.purchase_links)
unfolding write_entitlement insert_membership_entitlement update_membership_entitlement
    insert_violation
write_entitlement-Written j none m s {e} {t} h = (
  inserted (j.supply s.drawn) (ground arith) (ground arith) (ground arith),
  ground arith,
  ground arith,
  ground arith,
)
write_entitlement-Written j (some p) m s {e} {t} h =
    elim (Option-cases (find? (λ r. r.id == p.id) s.entitlements)) [
      | inl missing ↦ absurd (ground arith)
      | inr (row, found) ↦ (
        updated p row found (ground arith) (ground arith) (ground arith),
        ground arith,
        ground arith,
        ground arith,
      )
    ]

pub Written-later :
    {j : Session} {m : Mutation} {s t u : Store} {e : Entitlement} {previous : Option Entitlement}
    → Written j m s t e previous
    → u.entitlements ≡ t.entitlements
    → Written j m s u e previous
Written-later (inserted id made rows fine) same = inserted id made (same ∙ rows) fine
Written-later (updated p row found made rows fine) same =
    updated p row found made (same ∙ rows) fine

pub Recorded-earlier :
    {j : Session} {r : EventResult} {s t u : Store}
    → t.source_events ≡ s.source_events
    → t.accounts ≡ s.accounts
    → Recorded j r t u
    → Recorded j r s u
Recorded-earlier {j} {r} {s} {t} {u} events accounts w = record {
  event = w.event;
  ledger = rw (← events) w.ledger;
  accounts = w.accounts ∙ accounts;
  source = w.source;
  source_event_id = w.source_event_id;
  account_id = w.account_id;
  payload_hash = w.payload_hash;
  result = w.result;
}
