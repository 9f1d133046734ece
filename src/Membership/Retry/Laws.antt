-- ===== src/Membership/Retry/Laws.antt =====
-- What the retry loops guarantee under any interference of other sessions.
use town_api.Common.{
  String, ℕ, zero, suc, ◌+◌, ◌≤◌, none, some, ◌≡◌, refl, arith, inl, inr, ◌∙◌, Option-cases,
  Bool-cases, if◌then◌else◌,
}
use town_api.Membership.Store.{Store, Error, transient_conflict, Query, Outcome, ok, throw}
use town_api.Membership.Invariant.{IsSound}
use town_api.Membership.Operations.{Operation, logic_of}
use town_api.Membership.Transitions.Input.{Input}
use town_api.Membership.Run.{
  Runtime, Deps, Job, job, TransitionOutcome, run_transition_in_transaction,
}
use town_api.Membership.Rows.{SourceEvent}
use town_api.Membership.Repositories.{event_of}
use town_api.Membership.Run.Process.{Processed, repeated, settled, existing-Processed}
use town_api.Membership.Run.Laws.{store_after, IsSound-same, transaction-cases}
use town_api.Membership.Run.Effects.{SameTables}
use town_api.Membership.Run.Theorems.{run-IsSound}
use town_api.Membership.Retry.{
  Weather, under, is_transient_postgres_conflict, max_retries, Sky, attempts, recover_transition,
  find_and_compare, find_and_compare_after_race, is_source_event_unique_violation,
  membership_operation, at_time,
}

-- A rollback leaves all tables.
pub rolled_back : (s : Store) (n : ℕ) → SameTables s (record s { drawn = n })
rolled_back s n = record {
  accounts = refl;
  entitlements = refl;
  source_events = refl;
  purchase_links = refl;
  customer_links = refl;
  checkout_attempts = refl;
  rate_limits = refl;
}

-- What a property of the tables needs to hold through the retries.
module _ (P : Store → Type 0) where
  -- Other sessions keep the property.
  abbrev pub IsKeptBy : Sky → Type 0
  IsKeptBy sky =
      ((n : ℕ) (s : Store) → P s → P ((sky.attempt n).others s))
      × ((s : Store) → P s → P (sky.recovery.others s))

  pub under-keeps :
      {A : Type 0} (w : Weather) (m : Query A) (s : Store)
      → ((u : Store) → P u → P (w.others u))
      → ((u : Store) → P u → P (store_after (m u)))
      → P s
      → P (store_after (under w m s))
  unfolding under
  under-keeps w m s fair keeps h = elim (Option-cases w.fault) [
    | inl calm ↦ rw calm (keeps (w.others s) (fair s h))
    | inr (e, struck) ↦ rw struck (fair s h)
  ]

  -- The loop keeps what each attempt and the handler keep.
  pub attempts-keeps :
      {A : Type 0} (left n : ℕ) (sky : Sky) (m : ℕ → Query A) (handle : Error → Query A) (s : Store)
      → IsKeptBy sky
      → ((k : ℕ) (u : Store) → P u → P (store_after (m k u)))
      → ((e : Error) (u : Store) → P u → P (store_after (handle e u)))
      → P s
      → P (store_after (attempts left n sky m handle s))
  unfolding attempts
  attempts-keeps {A} zero n sky m handle s fair keeps handles h =
      by_outcome (under (sky.attempt n) (m n) s)
        (under-keeps (sky.attempt n) (m n) s (fair.0 n) (keeps n) h)
    where
      by_outcome :
          (o : Outcome A)
          → P (store_after o)
          → P (store_after (elim o [ ok a t ↦ ok a t | throw e t ↦ handle e t ]))
      by_outcome (ok a t) k = k
      by_outcome (throw e t) k = handles e t k
  attempts-keeps {A} (suc left) n sky m handle s fair keeps handles h =
      by_outcome (λ t k. attempts-keeps left (n + 1) sky m handle t fair keeps handles k)
        (under (sky.attempt n) (m n) s) (under-keeps (sky.attempt n) (m n) s (fair.0 n) (keeps n) h)
    where
      by_outcome :
          ((t : Store) → P t → P (store_after (attempts left (n + 1) sky m handle t)))
          → (o : Outcome A) → P (store_after o)
          → P (
              store_after (elim o [
                | ok a t ↦ ok a t
                | throw e t ↦
                    let again = attempts left (n + 1) sky m handle t in
                    if is_transient_postgres_conflict e then again else handle e t
              ]))
      by_outcome again (ok a t) k = k
      by_outcome again (throw e t) k = elim (Bool-cases (is_transient_postgres_conflict e)) [
        | inl transient ↦ rw transient (again t k)
        | inr other ↦ rw other (handles e t k)
      ]

  module _ (same_keeps : (s t : Store) → SameTables s t → P s → P t) where
    existing-keeps :
        (j : Job) (ev : SourceEvent) (s t : Store) (o : TransitionOutcome)
        → event_of j.input.source j.input.source_event_id s ≡ some ev
        → P s
        → Processed j s o t
        → P t
    existing-keeps j ev s t o found h (repeated ev' found' k row result reason) = same_keeps s t k h
    existing-keeps j ev s t o found h (settled account missing known w) = absurd (cc)

    find_and_compare-keeps :
        (j : Job) (s : Store) → P s → P (store_after (find_and_compare_after_race j s))
    unfolding find_and_compare_after_race
    find_and_compare-keeps j s h =
        transaction-cases (λ o. P (store_after o)) (find_and_compare j) s
          (λ o t ran. elim (Option-cases (event_of j.input.source j.input.source_event_id s)) [
            | inl missing ↦ absurd (ground arith)
            | inr (ev, found) ↦
                existing-keeps j ev s t o found h (existing-Processed j ev s found (ground arith))
          ])
          (λ e n. same_keeps s (record s { drawn = n }) (rolled_back s n) h)

    recover-keeps :
        (sky : Sky) (j : Job) (e : Error) (s : Store)
        → IsKeptBy sky
        → P s
        → P (store_after (recover_transition sky j e s))
    unfolding recover_transition
    recover-keeps sky j e s fair h = elim (Bool-cases (is_source_event_unique_violation e)) [
      | inl race ↦ rw race (
          under-keeps sky.recovery (find_and_compare_after_race j) s fair.1
            (find_and_compare-keeps j) h)
      | inr other ↦ rw other h
    ]

    -- An exported transition keeps what its transaction keeps.
    pub membership_operation-keeps :
        (op : Operation) (sky : Sky) (rt : Runtime) (i : Input) (d : Deps) (s : Store)
        → IsKeptBy sky
        → ((rt' : Runtime) (u : Store)
            → P u
            → P (
                store_after (
                  run_transition_in_transaction rt'
                    (record i { event_type = (logic_of op).event_type })
                    (logic_of op)
                    d
                    u)))
        → P s
        → P (store_after (membership_operation op sky rt i d s))
    unfolding membership_operation
    membership_operation-keeps op sky rt i d s fair keeps h =
        let i' : Input = record i { event_type = (logic_of op).event_type } in
        let j = job (at_time rt sky.recovery.now) i' (logic_of op) d in
        attempts-keeps max_retries 0 sky
          (λ n. run_transition_in_transaction (at_time rt (sky.attempt n).now) i' (logic_of op) d)
          (recover_transition sky j) s fair (λ n. keeps (at_time rt (sky.attempt n).now))
          (λ e u k. recover-keeps sky j e u fair k) h

-- Other sessions keep the tables sound.
abbrev pub IsFair : (String → ℕ) → Sky → Type 0
IsFair links sky = IsKeptBy (IsSound links) sky

-- An exported transition keeps sound tables sound through all its attempts, its recovery from a race
-- and its errors, if the other sessions do.
pub membership_operation-IsSound :
    {links : String → ℕ} (op : Operation) (sky : Sky) (rt : Runtime) (i : Input) (d : Deps)
    (s : Store)
    → IsFair links sky
    → IsSound links s
    → IsSound links (store_after (membership_operation op sky rt i d s))
membership_operation-IsSound {links} op sky rt i d s fair h =
    membership_operation-keeps (IsSound links)
      (λ s t k. IsSound-same s t k.entitlements (λ a. rw k.source_events)) op sky rt i d s fair
      (λ rt' u k. run-IsSound op rt' (record i { event_type = (logic_of op).event_type }) d u k) h

module _ (sky : Sky) where
  -- The attempts from `n` on meet `k` transient conflicts and then calm weather.
  abbrev pub ClearsAfter : ℕ → ℕ → Type 0
  ClearsAfter n zero = (sky.attempt n).fault ≡ none
  ClearsAfter n (suc k) = ((sky.attempt n).fault ≡ some transient_conflict) × ClearsAfter (n + 1) k

  -- The tables that the attempt after `k` conflicts finds.
  abbrev pub tables_after : ℕ → ℕ → Store → Store
  tables_after n zero s = (sky.attempt n).others s
  tables_after n (suc k) s = tables_after (n + 1) k ((sky.attempt n).others s)

  -- The number of the attempt after `k` conflicts.
  abbrev attempt_after : ℕ → ℕ → ℕ
  attempt_after n zero = n
  attempt_after n (suc k) = attempt_after (n + 1) k

  attempt_after_lem : (n k : ℕ) → attempt_after n k ≡ n + k
  attempt_after_lem n zero = omega arith
  attempt_after_lem n (suc k) = omega (arith, attempt_after_lem (n + 1) k)

  attempts-clear_from :
      {A : Type 0} (k left n : ℕ) (m : ℕ → Query A) (handle : Error → Query A) (s : Store) {a : A}
      {t : Store}
      → k ≤ left
      → ClearsAfter n k
      → m (attempt_after n k) (tables_after n k s) ≡ ok a t
      → attempts left n sky m handle s ≡ ok a t
  unfolding attempts under is_transient_postgres_conflict
  attempts-clear_from zero zero n m handle s fits calm run = ground arith
  attempts-clear_from zero (suc left) n m handle s fits calm run = ground arith
  attempts-clear_from (suc k) zero n m handle s fits calm run = absurd (omega arith)
  attempts-clear_from (suc k) (suc left) n m handle s fits (struck, later) run =
      let on : attempts (suc left) n sky m handle s
          ≡ attempts left (n + 1) sky m handle ((sky.attempt n).others s) =
        ground arith in
      on
      ∙ (attempts-clear_from k left (n + 1) m handle ((sky.attempt n).others s) (omega arith) later
          run)

  pub attempts-clear :
      {A : Type 0} (k left : ℕ) (m : ℕ → Query A) (handle : Error → Query A) (s : Store) {a : A}
      {t : Store}
      → k ≤ left
      → ClearsAfter 0 k
      → m k (tables_after 0 k s) ≡ ok a t
      → attempts left 0 sky m handle s ≡ ok a t
  attempts-clear k left m handle s fits calm run =
      let last : attempt_after 0 k ≡ k = omega (arith, attempt_after_lem 0 k) in
      attempts-clear_from k left 0 m handle s fits calm (rw last run)

-- An exported transition survives up to five transient conflicts: if the attempt after them meets no
-- error and its transaction returns on the tables and at the time that it finds, that is the answer and
-- the effect of the whole call.
pub membership_operation-returns :
    (op : Operation) (sky : Sky) (rt : Runtime) (i : Input) (d : Deps) (k : ℕ) (s t : Store)
    (o : TransitionOutcome)
    → k ≤ max_retries
    → ClearsAfter sky 0 k
    → run_transition_in_transaction
        (at_time rt (sky.attempt k).now)
        (record i { event_type = (logic_of op).event_type })
        (logic_of op)
        d
        (tables_after sky 0 k s)
      ≡ ok o t
    → membership_operation op sky rt i d s ≡ ok o t
unfolding membership_operation
membership_operation-returns op sky rt i d k s t o fits calm run =
    let i' : Input = record i { event_type = (logic_of op).event_type } in
    attempts-clear sky k max_retries
      (λ n. run_transition_in_transaction (at_time rt (sky.attempt n).now) i' (logic_of op) d)
      (recover_transition sky (job (at_time rt sky.recovery.now) i' (logic_of op) d)) s fits calm
      run
