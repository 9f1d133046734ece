-- ===== src/Membership/Run/Process.antt =====
-- The whole transaction of a transition, as one case analysis: what it found, what it answered and
-- what it wrote.
use town_api.Common.{
  String, true, false, none, some, ◌≡◌, refl, arith, inl, inr, ◌∙◌, Option-cases, Bool-cases, ◌==◌,
  if◌then◌else◌,
}
use town_api.Membership.Rows.{Account, applied, replayed, rejected, stale, Entitlement, SourceEvent}
use town_api.Membership.Store.{Store, ok}
use town_api.Membership.Repositories.{Mutation, event_of, entitlement_of}
use town_api.Membership.Transitions.Input.{
  Context, Validation, accept, reject, outdated, Applied, writes, throws,
}
use town_api.Membership.Run.{
  Job, TransitionOutcome, account_of, audit_if, audit_creation, record_event, write_entitlement,
  creates, commit_mutation, apply_mutation, settle, context, transit, read_existing_outcome,
  answer_replay, answer_mismatch, process_new, process, unchanged, changed,
}
use town_api.Membership.Run.Effects.{
  after, SameTables, audit_if-SameTables, audit_creation-SameTables, Recorded,
  record_event-Recorded, Recorded-SameTables, Recorded-earlier, Written-later, Written,
  write_entitlement-Written,
}

-- How a validated event ended.
pub data Settled (j : Job) (ctx : Context) (s : Store) (o : TransitionOutcome) (t : Store)
    : Type 0 where
  refused :
      (reason : String)
      → j.logic.validate ctx ≡ reject reason
      → o ≡ record { result = rejected; entitlement = ctx.entitlement; reason = some reason }
      → Recorded j.session rejected s t
      → t.entitlements ≡ s.entitlements
      → Settled j ctx s o t
  late :
      (reason : String)
      → j.logic.validate ctx ≡ outdated reason
      → o ≡ record { result = stale; entitlement = ctx.entitlement; reason = some reason }
      → Recorded j.session stale s t
      → t.entitlements ≡ s.entitlements
      → Settled j ctx s o t
  done :
      (m : Mutation) (e : Entitlement)
      → j.logic.validate ctx ≡ accept
      → j.logic.apply ctx ≡ writes m
      → o ≡ record { result = applied; entitlement = some e; reason = none }
      → Recorded j.session applied s t
      → Written j.session m s t e ctx.entitlement
      → Settled j ctx s o t

-- What the transaction found: the event in the ledger, or a new event and its account.
pub data Processed (j : Job) (s : Store) (o : TransitionOutcome) (t : Store) : Type 0 where
  repeated :
      (ev : SourceEvent)
      → event_of j.input.source j.input.source_event_id s ≡ some ev
      → SameTables s t
      → o.entitlement ≡ entitlement_of j.input.account_id s
      → o.result ≡ (if ev.payload_hash == j.payload_hash then replayed else rejected)
      → o.reason
        ≡ (if ev.payload_hash == j.payload_hash then none else some "payload_hash_mismatch")
      → Processed j s o t
  settled :
      (account : Account)
      → event_of j.input.source j.input.source_event_id s ≡ none
      → account_of j.input.account_id s ≡ some account
      → Settled j (context j account (entitlement_of j.input.account_id s)) s o t
      → Processed j s o t

module _ (j : Job) (ctx : Context) where
  commit-Settled :
      (m : Mutation) (s : Store) {o : TransitionOutcome} {t : Store}
      → j.logic.validate ctx ≡ accept
      → j.logic.apply ctx ≡ writes m
      → commit_mutation j ctx m s ≡ ok o t
      → Settled j ctx s o t
  unfolding commit_mutation
  commit-Settled m s {o} {t} valid columns h =
      after (write_entitlement j.session ctx.entitlement m) _ s h λ e s1 wrote h1.
        after (record_event j.session applied) _ s1 h1 λ ev s2 recorded h2.
          after
            (audit_creation j.session (creates j.logic ctx) (changed j.session ctx.entitlement e)) _
            s2 h2
            λ _ s3 first h3.
              after
                (audit_if j.session (some j.logic.applied_audit_event_type)
                  (changed j.session ctx.entitlement e))
                _ s3 h3
                λ _ s4 second h4.
                  let (written, events, accounts, links) =
                    write_entitlement-Written j.session ctx.entitlement m s wrote in
                  let (entry, rows, _) = record_event-Recorded j.session applied s1 recorded in
                  let k1 = audit_creation-SameTables j.session _ _ s2 first in
                  let k2 = audit_if-SameTables j.session _ _ s3 second in
                  let last : s4 ≡ t = ground arith in
                  rw (← last) (
                    done m e valid columns (ground arith)
                      (Recorded-SameTables
                        (Recorded-SameTables (Recorded-earlier events accounts entry) k1) k2)
                      (Written-later written (k2.entitlements ∙ k1.entitlements ∙ rows)))

  settle-Settled :
      (v : Validation) (s : Store) {o : TransitionOutcome} {t : Store}
      → j.logic.validate ctx ≡ v
      → settle j ctx v s ≡ ok o t
      → Settled j ctx s o t
  unfolding settle commit_mutation apply_mutation
  settle-Settled (reject reason) s {o} {t} valid h =
      after (record_event j.session rejected) _ s h λ ev s1 recorded h1.
        after
          (audit_if j.session j.logic.rejected_audit_event_type
            (unchanged j.session ctx.entitlement))
          _ s1 h1
          λ _ s2 logged h2.
            let (entry, rows, _) = record_event-Recorded j.session rejected s recorded in
            let k = audit_if-SameTables j.session _ _ s1 logged in
            let last : s2 ≡ t = ground arith in
            rw (← last) (
              refused reason valid (ground arith) (Recorded-SameTables entry k)
                (k.entitlements ∙ rows))
  settle-Settled (outdated reason) s {o} {t} valid h =
      after (record_event j.session stale) _ s h λ ev s1 recorded h1.
        let (entry, rows, _) = record_event-Recorded j.session stale s recorded in
        let last : s1 ≡ t = ground arith in
        rw (← last) (late reason valid (ground arith) entry rows)
  settle-Settled accept s {o} {t} valid h = by_columns (j.logic.apply ctx) refl h
    where
      by_columns :
          (c : Applied)
          → j.logic.apply ctx ≡ c
          → apply_mutation j ctx c s ≡ ok o t
          → Settled j ctx s o t
      by_columns (writes m) e q = commit-Settled m s valid e q
      by_columns (throws message) e q = absurd (cc)

module _ (j : Job) where
  replay-Processed :
      (ev : SourceEvent) (s : Store) {o : TransitionOutcome} {t : Store}
      → event_of j.input.source j.input.source_event_id s ≡ some ev
      → (ev.payload_hash == j.payload_hash) ≡ true
      → answer_replay j (entitlement_of j.input.account_id s) s ≡ ok o t
      → Processed j s o t
  unfolding answer_replay
  replay-Processed ev s {o} {t} found same h =
      after
        (audit_if j.session j.logic.replayed_audit_event_type
          (unchanged j.session (entitlement_of j.input.account_id s)))
        _ s h
        λ u s1 logged h1.
          let k = audit_if-SameTables j.session _ _ s logged in
          let last : s1 ≡ t = ground arith in
          rw (← last) (repeated ev found k (ground arith) (ground arith) (ground arith))

  mismatch-Processed :
      (ev : SourceEvent) (s : Store) {o : TransitionOutcome} {t : Store}
      → event_of j.input.source j.input.source_event_id s ≡ some ev
      → (ev.payload_hash == j.payload_hash) ≡ false
      → answer_mismatch j (entitlement_of j.input.account_id s) s ≡ ok o t
      → Processed j s o t
  unfolding answer_mismatch
  mismatch-Processed ev s {o} {t} found other h =
      after
        (audit_if j.session j.logic.rejected_audit_event_type
          (unchanged j.session (entitlement_of j.input.account_id s)))
        _ s h
        λ u s1 logged h1.
          let k = audit_if-SameTables j.session _ _ s logged in
          let last : s1 ≡ t = ground arith in
          rw (← last) (repeated ev found k (ground arith) (ground arith) (ground arith))

  pub existing-Processed :
      (ev : SourceEvent) (s : Store) {o : TransitionOutcome} {t : Store}
      → event_of j.input.source j.input.source_event_id s ≡ some ev
      → read_existing_outcome j ev s ≡ ok o t
      → Processed j s o t
  unfolding read_existing_outcome
  existing-Processed ev s {o} {t} found h = elim (Bool-cases (ev.payload_hash == j.payload_hash)) [
    | inl same ↦ replay-Processed ev s found same (rw same at h)
    | inr other ↦ mismatch-Processed ev s found other (rw other at h)
  ]

  new-Processed :
      (s : Store) {o : TransitionOutcome} {t : Store}
      → event_of j.input.source j.input.source_event_id s ≡ none
      → process_new j s ≡ ok o t
      → Processed j s o t
  unfolding process_new transit
  new-Processed s {o} {t} missing h = elim (Option-cases (account_of j.input.account_id s)) [
    | inl unknown ↦ absurd (ground arith)
    | inr (account, known) ↦
        let ctx = context j account (entitlement_of j.input.account_id s) in
        settled account missing known (settle-Settled j ctx _ s refl (ground arith))
  ]

  -- A transaction that commits did one of the things that `Processed` lists.
  pub process-Processed :
      (s : Store) {o : TransitionOutcome} {t : Store} → process j s ≡ ok o t → Processed j s o t
  unfolding process
  process-Processed s {o} {t} h =
      elim (Option-cases (event_of j.input.source j.input.source_event_id s)) [
        | inl missing ↦ new-Processed s missing (ground arith)
        | inr (ev, found) ↦ existing-Processed ev s found (ground arith)
      ]
