-- ===== src/Membership/Run/Logging.antt =====
-- When an audit event is accepted by the metadata policy and the security log.
use town_api.Common.{
  ◌+◌, ◌≤◌, String, true, false, none, some, List, [], ◌∷◌, ◌≡◌, refl, arith, ◌==◌,
}
use town_api.Common.Tables.{any}
use town_api.Membership.Rows.{
  Status, inactive, Source, test_fixture, EventType, activate, AuditType, MetadataValue, text,
  status_text, source_text, event_type_text,
}
use town_api.Membership.Store.{Store, ok}
use town_api.Membership.Audit.{
  utf16_length, forbidden_metadata_keys, value_error, entry_error, entries_error,
  sanitize_identity_metadata, append_identity_security_event, append_transition_audit_event,
  AccessUntilCategory, category_text, AuditInput, build_audit_metadata,
  compute_access_until_category,
}
use town_api.Membership.Repositories.{account_exists}
use town_api.Membership.Run.{Session, audit_if}
use town_api.Membership.Run.Effects.{SameTables, audit_if-SameTables}

status_fits : (st : Status) → value_error (text (status_text st)) ≡ none
status_fits inactive = refl
status_fits _ = refl

source_fits : (so : Source) → value_error (text (source_text so)) ≡ none
source_fits test_fixture = refl
source_fits _ = refl

event_type_fits : (e : EventType) → value_error (text (event_type_text e)) ≡ none
event_type_fits activate = refl
event_type_fits _ = refl

category_fits : (c : AccessUntilCategory) → value_error (text (category_text c)) ≡ none
category_fits AccessUntilCategory.null = refl
category_fits _ = refl

time_fits : (t : String) → utf16_length t ≤ 256 → value_error (text t) ≡ none
time_fits t h = ground arith

entry_fits :
    (key : String) (v : MetadataValue) (rest : List (String × MetadataValue))
    → any (λ k. k == key) forbidden_metadata_keys ≡ false
    → value_error v ≡ none
    → entries_error rest ≡ none
    → entries_error ((key, v) ∷ rest) ≡ none
unfolding entries_error entry_error
entry_fits key v rest allowed fits more =
    let here : entry_error key v ≡ none = rw allowed fits in rw (here, entries_error) more

no_entries : entries_error [] ≡ none
unfolding entries_error
no_entries = refl

-- The metadata of an audit event passes the policy if the event's timestamp has at most 256 UTF-16
-- units.
pub metadata_accepted :
    (i : AuditInput)
    → utf16_length i.effective_at.text ≤ 256
    → sanitize_identity_metadata (some (build_audit_metadata i)) ≡ none
unfolding sanitize_identity_metadata build_audit_metadata
metadata_accepted i h = entry_fits _ _ _ refl (status_fits i.previous_status) (
    entry_fits _ _ _ refl (status_fits i.next_status) (
      entry_fits _ _ _ refl refl (
        entry_fits _ _ _ refl (source_fits i.source) (
          entry_fits _ _ _ refl (event_type_fits i.event_type) (
            entry_fits _ _ _ refl (time_fits i.effective_at.text h) (
              entry_fits _ _ _ refl
                (category_fits (compute_access_until_category i.access_until i.effective_at))
                no_entries))))))

-- With such a timestamp, a fresh identifier and an account that is there the event is appended.
pub audit_if-returns :
    (j : Session) (event_type : AuditType) (i : AuditInput) (s : Store)
    → utf16_length i.effective_at.text ≤ 256
    → any (λ r. r.id == j.supply s.drawn) s.security_events ≡ false
    → account_exists j.input.account_id s ≡ true
    → (t : Store) × (audit_if j (some event_type) i s ≡ ok tt t) × SameTables s t
unfolding audit_if append_transition_audit_event append_identity_security_event
audit_if-returns j event_type i s short fresh known =
    let t : Store = record s {
      drawn = s.drawn + 1;
      security_events =
          record {
            id = j.supply s.drawn;
            account_id = some j.input.account_id;
            event_type = event_type;
            occurred_at = j.processed_at;
            request_id = j.request_id;
            metadata = some (build_audit_metadata i);
          }
          ∷ s.security_events;
    } in
    let returned : audit_if j (some event_type) i s ≡ ok tt t =
      ground (arith, metadata_accepted i short) in
    (t, returned, audit_if-SameTables j (some event_type) i s returned)
