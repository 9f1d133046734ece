-- ===== src/Membership/Run/Theorems.antt =====
-- The guarantees of `runTransitionInTransaction` (membership/transitions/shared.ts), for each of the
-- six transitions, on every branch.
use town_api.Common.{
  ℕ, ◌≤◌, String, true, false, none, some, ◌≡◌, ◌≢◌, refl, arith, ◌⊎◌, inl, inr, Bool-cases, ◌==◌,
  str_eq_self,
}
use town_api.Membership.Rows.{
  Account, EventResult, applied, replayed, SourceEvent, Source, test_fixture, same_source,
  same_event_type, membership_event_replayed,
}
use town_api.Membership.Store.{Error, Store, ok}
use town_api.Membership.Repositories.{entitlement_of, event_of, account_exists}
use town_api.Membership.Payload.{source_allowed}
use town_api.Membership.Transitions.Input.{Input}
use town_api.Membership.Operations.{Operation, activate_membership, logic_of}
use town_api.Membership.Invariant.{IsSound, status_of}
use town_api.Membership.Steps.{Edge}
use town_api.Membership.Audit.{utf16_length}
use town_api.Common.Tables.{any, find?-any}
use town_api.Membership.Run.Logging.{audit_if-returns}
use town_api.Membership.Run.{
  transaction, throw, Query, Runtime, Deps, Session, Job, job, TransitionOutcome, process,
  resolve_node_env, resolve_generate_id, read_existing_outcome, answer_replay, unchanged, audit_if,
  run_transition_in_transaction, account_of,
}
use town_api.Membership.Run.Effects.{SameTables, Recorded}
use town_api.Membership.Run.Process.{
  Processed, repeated, settled, refused, late, done, process-Processed,
}
use town_api.Membership.Run.Laws.{
  store_after, IsSound-same, process-Moved, transaction-cases, committed,
}

module _ {links : String → ℕ} (op : Operation) (rt : Runtime) (i : Input) (d : Deps)
    (s : Store) where
  -- Whatever the outcome, a thrown error included, sound tables stay sound: no two entitlements share
  -- an identifier or an account, every entitlement satisfies the state constraint of its table (and a
  -- cancelling one has been activated), and the version of each account's entitlement is the number of
  -- events that the ledger holds as applied to that account, plus a number that does not change.
  pub run-IsSound :
      IsSound links s
      → IsSound links (store_after (run_transition_in_transaction rt i (logic_of op) d s))
  unfolding run_transition_in_transaction job
  run-IsSound h = elim (Bool-cases (source_allowed i.source (resolve_node_env rt d))) [
    | inr banned ↦ rw banned h
    | inl allowed ↦
        rw allowed (elim (Bool-cases (same_event_type i.event_type (logic_of op).event_type)) [
          | inr other ↦ rw other h
          | inl same ↦ rw same (
              transaction-cases (λ o. IsSound links (store_after o))
                (process (job rt i (logic_of op) d)) s
                (λ o t run. (process-Moved op (job rt i (logic_of op) d) refl s h run).sound)
                (λ e n. IsSound-same s (record s { drawn = n }) refl (λ a. refl) h))
        ])
  ]

  -- If the run commits on sound tables, the entitlement of every other account `b` is as before, and either the
  -- event was applied, the answer carries the account's new entitlement and its status moved along an
  -- edge of the diagram for this operation (no row counting as inactive), or it was not applied and no
  -- entitlement changed.
  pub run-Edge :
      (b : String) {o : TransitionOutcome} {t : Store}
      → IsSound links s
      → b ≢ i.account_id
      → run_transition_in_transaction rt i (logic_of op) d s ≡ ok o t
      → (entitlement_of b t ≡ entitlement_of b s)
        × (((o.result ≡ applied)
              × (o.entitlement ≡ entitlement_of i.account_id t)
              × Edge op (status_of i.account_id s) (status_of i.account_id t))
            ⊎ ((o.result ≢ applied) × (t.entitlements ≡ s.entitlements)))
  unfolding run_transition_in_transaction job
  run-Edge b {o} {t} h other_account run =
      elim (Bool-cases (source_allowed i.source (resolve_node_env rt d))) [
        | inr banned ↦ absurd (cc (rw banned at run))
        | inl allowed ↦ elim (Bool-cases (same_event_type i.event_type (logic_of op).event_type)) [
          | inr other ↦ let same : s ≡ t = ground arith in (rw same, inr (ground arith, rw same))
          | inl same ↦
              let moved =
                process-Moved op (job rt i (logic_of op) d) refl s h
                  (committed (process (job rt i (logic_of op) d)) s (rw (allowed, same) at run)) in
              (moved.others b other_account, moved.edge)
        ]
      ]

same_source_self : (a : Source) → same_source a a ≡ true
same_source_self test_fixture = refl
same_source_self _ = refl

logic_replays :
    (op : Operation) → (logic_of op).replayed_audit_event_type ≡ some membership_event_replayed
logic_replays activate_membership = refl
logic_replays _ = refl

-- What was recorded is found.
Recorded-finds :
    {j : Session} {r : EventResult} {s t : Store} (w : Recorded j r s t)
    → event_of j.input.source j.input.source_event_id t ≡ some w.event
Recorded-finds {j} w = rw w.ledger (
    rw (w.source, w.source_event_id)
      (rw (same_source_self j.input.source, str_eq_self j.input.source_event_id)))

-- A new event is in the ledger afterwards, with its payload hash, and its account is there.
still_there :
    (a : String) (s t : Store) {account : Account}
    → account_of a s ≡ some account
    → t.accounts ≡ s.accounts
    → account_exists a t ≡ true
unfolding account_exists
still_there a s t known same = rw same (find?-any (λ r. r.id == a) s.accounts known)

process-records :
    (j : Job) (s t : Store) (o : TransitionOutcome)
    → event_of j.input.source j.input.source_event_id s ≡ none
    → Processed j s o t
    → (ev : SourceEvent) × (event_of j.input.source j.input.source_event_id t ≡ some ev)
      × (ev.payload_hash ≡ j.payload_hash)
      × (account_exists j.input.account_id t ≡ true)
process-records j s t o new (repeated ev found k row result reason) = absurd (cc)
process-records j s t o new (settled account missing known (refused reason v answer w rows)) =
    (w.event, Recorded-finds w, w.payload_hash, still_there j.input.account_id s t known w.accounts)
process-records j s t o new (settled account missing known (late reason v answer w rows)) =
    (w.event, Recorded-finds w, w.payload_hash, still_there j.input.account_id s t known w.accounts)
process-records j s t o new (settled account missing known (done m e v a answer w wrote)) =
    (w.event, Recorded-finds w, w.payload_hash, still_there j.input.account_id s t known w.accounts)

replay-returns :
    (j : Job) (t u : Store) (ev : SourceEvent)
    → j.logic.replayed_audit_event_type ≡ some membership_event_replayed
    → event_of j.input.source j.input.source_event_id t ≡ some ev
    → ev.payload_hash ≡ j.payload_hash
    → audit_if j.session
        (some membership_event_replayed)
        (unchanged j.session (entitlement_of j.input.account_id t))
        t
      ≡ ok tt u
    → process j t
      ≡ ok
          (record {
            result = replayed;
            entitlement = entitlement_of j.input.account_id t;
            reason = none;
          })
          u
unfolding process read_existing_outcome answer_replay
replay-returns j t u ev replays found hash logged = ground (arith, str_eq_self j.payload_hash)

-- A transaction whose body returns commits.
process-runs :
    (op : Operation) (rt : Runtime) (i : Input) (d : Deps) (s t : Store) (o : TransitionOutcome)
    → source_allowed i.source (resolve_node_env rt d) ≡ true
    → same_event_type i.event_type (logic_of op).event_type ≡ true
    → process (job rt i (logic_of op) d) s ≡ ok o t
    → run_transition_in_transaction rt i (logic_of op) d s ≡ ok o t
unfolding run_transition_in_transaction
process-runs op rt i d s t o allowed same h = ground arith

-- An event that the ledger holds with the same hash is answered as a replay.
process-replays :
    (j : Job) (t : Store) (ev : SourceEvent)
    → j.logic.replayed_audit_event_type ≡ some membership_event_replayed
    → event_of j.input.source j.input.source_event_id t ≡ some ev
    → ev.payload_hash ≡ j.payload_hash
    → utf16_length j.input.effective_at.text ≤ 256
    → any (λ r. r.id == j.supply t.drawn) t.security_events ≡ false
    → account_exists j.input.account_id t ≡ true
    → (o : TransitionOutcome) × (u : Store) × (process j t ≡ ok o u)
      × (o.result ≡ replayed)
      × (o.entitlement ≡ entitlement_of j.input.account_id t)
      × SameTables t u
process-replays j t ev replays found hash short fresh known =
    let e = entitlement_of j.input.account_id t in
    let (u, logged, same) =
      audit_if-returns j.session membership_event_replayed (unchanged j.session e) t short fresh
        known in
    (
      record { result = replayed; entitlement = e; reason = none },
      u,
      replay-returns j t u ev replays found hash logged,
      refl,
      refl,
      same,
    )

-- A new event is processed once: after a run that commits, whatever its result, a run of the same
-- event on the tables it left commits too, answers `replayed` with the entitlement as it stands, and
-- changes no table but the security log. The conditions are that the ledger does not hold the event yet,
-- that its type is the operation's, that its timestamp has at most 256 UTF-16 units, and that the next
-- generated identifier is not in the log.
pub run-run :
    (op : Operation) (rt : Runtime) (i : Input) (d : Deps) (s t : Store) (o : TransitionOutcome)
    → event_of i.source i.source_event_id s ≡ none
    → same_event_type i.event_type (logic_of op).event_type ≡ true
    → utf16_length i.effective_at.text ≤ 256
    → any (λ r. r.id == resolve_generate_id rt d t.drawn) t.security_events ≡ false
    → run_transition_in_transaction rt i (logic_of op) d s ≡ ok o t
    → (o' : TransitionOutcome) × (u : Store) × (run_transition_in_transaction rt i (logic_of op) d t
        ≡ ok o' u)
      × (o'.result ≡ replayed)
      × (o'.entitlement ≡ entitlement_of i.account_id t)
      × SameTables t u
unfolding run_transition_in_transaction job
run-run op rt i d s t o new same short fresh run =
    elim (Bool-cases (source_allowed i.source (resolve_node_env rt d))) [
      | inr banned ↦ absurd (cc (rw banned at run))
      | inl allowed ↦
          let j = job rt i (logic_of op) d in
          let did = committed (process j) s (rw (allowed, same) at run) in
          let (ev, found, hash, known) = process-records j s t o new (process-Processed j s did) in
          let (o', u, again, answer, row, tables) =
            process-replays j t ev (logic_replays op) found hash short fresh known in
          (o', u, process-runs op rt i d t u o' allowed same again, answer, row, tables)
    ]

rolled-back :
    {A : Type 0} (m : Query A) (s : Store) {e : Error} {t : Store}
    → transaction m s ≡ throw e t
    → t.entitlements ≡ s.entitlements
rolled-back m s h = ground arith

-- A run that throws leaves the entitlements.
pub run-throw :
    (op : Operation) (rt : Runtime) (i : Input) (d : Deps) (s : Store) {e : Error} {t : Store}
    → run_transition_in_transaction rt i (logic_of op) d s ≡ throw e t
    → t.entitlements ≡ s.entitlements
unfolding run_transition_in_transaction
run-throw op rt i d s h = ground (arith, rolled-back (process (job rt i (logic_of op) d)) s)
