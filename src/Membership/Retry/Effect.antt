-- ===== src/Membership/Retry/Effect.antt =====
-- What an exported transition did when it returns, where no other session writes entitlements.
use town_api.Common.{
  sym, eq_iff, ◌==◌, subst, ℕ, zero, suc, ◌+◌, String, some, ◌≡◌, ◌≢◌, refl, arith, ◌⊎◌, inl, inr,
  ◌∙◌, Option-cases, Bool-cases, if◌then◌else◌,
}
use town_api.Membership.Rows.{applied}
use town_api.Membership.Store.{Store, Error, Query, Outcome, ok, throw}
use town_api.Membership.Repositories.{
  lock_source_event_by_source_and_event_id, entitlement_of, event_of,
}
use town_api.Membership.Transitions.Input.{Input}
use town_api.Membership.Invariant.{IsSound, status_of}
use town_api.Membership.Operations.{Operation, logic_of}
use town_api.Membership.Steps.{Edge}
use town_api.Membership.Run.{
  Runtime, Deps, Job, job, TransitionOutcome, run_transition_in_transaction,
}
use town_api.Membership.Run.Process.{Processed, repeated, settled, existing-Processed}
use town_api.Membership.Run.Theorems.{run-IsSound, run-Edge, run-throw}
use town_api.Membership.Run.Laws.{store_after}
use town_api.Membership.Retry.{
  SourceEvent, Weather, under, is_transient_postgres_conflict, max_retries, Sky, attempts,
  recover_transition, find_and_compare, find_and_compare_after_race,
  is_source_event_unique_violation, membership_operation, at_time,
}
use town_api.Membership.Retry.Laws.{IsKeptBy}

-- What `m` returned from tables with `P`, it returned under this weather.
under-ensures :
    {A : Type 0} (P : Store → Type 0) (Q : A → Store → Type 0) (w : Weather) (m : Query A)
    (s : Store) (a : A) (t : Store)
    → ((u : Store) → P u → P (w.others u))
    → ((u v : Store) (b : A) → P u → m u ≡ ok b v → Q b v)
    → P s
    → under w m s ≡ ok a t
    → Q a t
unfolding under
under-ensures P Q w m s a t fair returns h run = elim (Option-cases w.fault) [
  | inl calm ↦ returns (w.others s) t a (fair s h) (rw (under, calm) at run)
  | inr (e, struck) ↦ absurd (cc (rw (under, struck) at run))
]

under-throws :
    {A : Type 0} (P : Store → Type 0) (w : Weather) (m : Query A) (s : Store) (e : Error)
    (t : Store)
    → ((u : Store) → P u → P (w.others u))
    → ((u v : Store) (x : Error) → P u → m u ≡ throw x v → P v)
    → P s
    → under w m s ≡ throw e t
    → P t
unfolding under
under-throws P w m s e t fair throws h run = elim (Option-cases w.fault) [
  | inl calm ↦ throws (w.others s) t e (fair s h) (rw (under, calm) at run)
  | inr (x, struck) ↦ let same : w.others s ≡ t = ground arith in subst P same (fair s h)
]

module _ (P : Store → Type 0) where
  -- What each returning attempt and the handler ensure, the loop ensures.
  pub attempts-ensures :
      {A : Type 0} (Q : A → Store → Type 0) (left n : ℕ) (sky : Sky) (m : ℕ → Query A)
      (handle : Error → Query A) (s : Store) (a : A) (t : Store)
      → IsKeptBy P sky
      → ((k : ℕ) (u v : Store) (b : A) → P u → m k u ≡ ok b v → Q b v)
      → ((k : ℕ) (u v : Store) (e : Error) → P u → m k u ≡ throw e v → P v)
      → ((e : Error) (u v : Store) (b : A) → P u → handle e u ≡ ok b v → Q b v)
      → P s
      → attempts left n sky m handle s ≡ ok a t
      → Q a t
  unfolding attempts
  attempts-ensures {A} Q zero n sky m handle s a t fair returns throws handles h run =
      by_outcome (under (sky.attempt n) (m n) s) refl run
    where
      by_outcome :
          (o : Outcome A)
          → under (sky.attempt n) (m n) s ≡ o
          → (elim o [ ok b u ↦ ok b u | throw e u ↦ handle e u ]) ≡ ok a t
          → Q a t
      by_outcome (ok b u) ran q =
          under-ensures P Q (sky.attempt n) (m n) s a t (fair.0 n) (returns n) h (cc)
      by_outcome (throw e u) ran q =
          handles e u t a (under-throws P (sky.attempt n) (m n) s e u (fair.0 n) (throws n) h ran) q
  attempts-ensures {A} Q (suc left) n sky m handle s a t fair returns throws handles h run =
      by_outcome
        (λ u k q.
          attempts-ensures Q left (n + 1) sky m handle u a t fair returns throws handles k q)
        (under (sky.attempt n) (m n) s) refl run
    where
      by_outcome :
          ((u : Store) → P u → attempts left (n + 1) sky m handle u ≡ ok a t → Q a t)
          → (o : Outcome A) → under (sky.attempt n) (m n) s ≡ o
          → (elim o [
            | ok b u ↦ ok b u
            | throw e u ↦
                let again = attempts left (n + 1) sky m handle u in
                if is_transient_postgres_conflict e then again else handle e u
          ])
            ≡ ok a t
          → Q a t
      by_outcome again (ok b u) ran q =
          under-ensures P Q (sky.attempt n) (m n) s a t (fair.0 n) (returns n) h (cc)
      by_outcome again (throw e u) ran q =
          let kept = under-throws P (sky.attempt n) (m n) s e u (fair.0 n) (throws n) h ran in
          elim (Bool-cases (is_transient_postgres_conflict e)) [
            | inl transient ↦ again u kept (rw transient at q)
            | inr other ↦ handles e u t a kept (rw other at q)
          ]

-- Sound tables with the entitlements of `s`.
pub record IsQuiet (links : String → ℕ) (s t : Store) : Type 0 where
  pub sound : IsSound links t
  pub rows : t.entitlements ≡ s.entitlements

-- No entitlement but the account's changed, and either the event was applied and the account's status
-- moved along an edge of the diagram, or no entitlement changed.
pub record Did (op : Operation) (account_id : String) (s : Store) (o : TransitionOutcome)
    (t : Store) : Type 0 where
  pub others : (b : String) → b ≢ account_id → entitlement_of b t ≡ entitlement_of b s
  pub edge :
      ((o.result ≡ applied)
        × (o.entitlement ≡ entitlement_of account_id t)
        × Edge op (status_of account_id s) (status_of account_id t))
      ⊎ ((o.result ≢ applied) × (t.entitlements ≡ s.entitlements))

Did-earlier :
    {op : Operation} {a : String} {s u t : Store} {o : TransitionOutcome}
    → u.entitlements ≡ s.entitlements
    → Did op a u o t
    → Did op a s o t
Did-earlier {op} {a} {s} {u} {t} {o} rows did = record {
  others = λ b other. rw (← rows) (did.others b other);
  edge = rw (← rows) did.edge;
}

pub Did-later :
    {op : Operation} {a : String} {s t u : Store} {o : TransitionOutcome}
    → u.entitlements ≡ t.entitlements
    → Did op a s o t
    → Did op a s o u
Did-later {op} {a} {s} {t} {u} {o} rows did = record {
  others = λ b other. rw rows (did.others b other);
  edge = rw rows did.edge;
}

another : (a : String) → (b : String) × (b ≢ a)
another a = elim (Bool-cases (a == "")) [
  | inl empty ↦ ("a", λ same. cc (same ∙ (eq_iff a "").0 empty))
  | inr named ↦ ("", λ same. cc (named, (eq_iff a "").1 (sym same)))
]

module _ {links : String → ℕ} (op : Operation) (d : Deps) (s : Store) where
  ran-Did :
      (rt : Runtime) (i : Input) (u v : Store) (o : TransitionOutcome)
      → IsQuiet links s u
      → run_transition_in_transaction rt i (logic_of op) d u ≡ ok o v
      → Did op i.account_id s o v
  ran-Did rt i u v o quiet run = Did-earlier {u = u} quiet.rows (record {
    others = λ b other. (run-Edge op rt i d u b quiet.sound other run).0;
    edge =
        let (b, other) = another i.account_id in (run-Edge op rt i d u b quiet.sound other run).1;
  })

  threw-IsQuiet :
      (rt : Runtime) (i : Input) (u v : Store) (e : Error)
      → IsQuiet links s u
      → run_transition_in_transaction rt i (logic_of op) d u ≡ throw e v
      → IsQuiet links s v
  threw-IsQuiet rt i u v e quiet run = record {
    sound = rw (store_after, run) at (run-IsSound op rt i d u quiet.sound);
    rows = run-throw op rt i d u run ∙ quiet.rows;
  }

  repeated-Did :
      (j : Job) (ev : SourceEvent) (u v : Store) (o : TransitionOutcome)
      → event_of j.input.source j.input.source_event_id u ≡ some ev
      → IsQuiet links s u
      → Processed j u o v
      → Did op j.input.account_id s o v
  repeated-Did j ev u v o found quiet (repeated ev' found' k row result reason) = record {
    others = λ b other. rw (k.entitlements ∙ quiet.rows);
    edge = inr (
      elim (Bool-cases (ev'.payload_hash == j.payload_hash)) [
        | inl same ↦ λ q. cc (rw same at result, q)
        | inr other ↦ λ q. cc (rw other at result, q)
      ],
      k.entitlements ∙ quiet.rows,
    );
  }
  repeated-Did j ev u v o found quiet (settled account missing known w) = absurd (cc)

  recovered-Did :
      (j : Job) (u v : Store) (o : TransitionOutcome)
      → IsQuiet links s u
      → find_and_compare_after_race j u ≡ ok o v
      → Did op j.input.account_id s o v
  unfolding find_and_compare_after_race find_and_compare lock_source_event_by_source_and_event_id
  recovered-Did j u v o quiet run =
      elim (Option-cases (event_of j.input.source j.input.source_event_id u)) [
        | inl missing ↦ absurd (ground arith)
        | inr (ev, found) ↦
            repeated-Did j ev u v o found quiet (existing-Processed j ev u found (ground arith))
      ]

  handled-Did :
      (sky : Sky) (j : Job) (e : Error) (u v : Store) (o : TransitionOutcome)
      → IsKeptBy (IsQuiet links s) sky
      → IsQuiet links s u
      → recover_transition sky j e u ≡ ok o v
      → Did op j.input.account_id s o v
  unfolding recover_transition
  handled-Did sky j e u v o fair quiet run =
      elim (Bool-cases (is_source_event_unique_violation e)) [
        | inl race ↦
            under-ensures (IsQuiet links s) (Did op j.input.account_id s) sky.recovery
              (find_and_compare_after_race j) u o v fair.1
              (λ x y b k ran. recovered-Did j x y b k ran) quiet
              (rw (recover_transition, race) at run)
        | inr other ↦ absurd (cc (rw (recover_transition, other) at run))
      ]

  -- An exported transition that returns did what its last transaction did: where the tables are sound
  -- and the other sessions keep them so and write no entitlement, the entitlement of every other account
  -- is as before the call, and either the event was applied, the answer carries the account's new
  -- entitlement and its status moved along an edge of the diagram for this operation, or it was not
  -- applied and no entitlement changed, through all the retries and the recovery from a race.
  pub membership_operation-Did :
      (rt : Runtime) (sky : Sky) (i : Input) (o : TransitionOutcome) (t : Store)
      → IsKeptBy (IsQuiet links s) sky
      → IsSound links s
      → membership_operation op sky rt i d s ≡ ok o t
      → Did op i.account_id s o t
  unfolding membership_operation job
  membership_operation-Did rt sky i o t fair h run =
      let i' : Input = record i { event_type = (logic_of op).event_type } in
      let j = job (at_time rt sky.recovery.now) i' (logic_of op) d in
      attempts-ensures (IsQuiet links s) (Did op i.account_id s) max_retries 0 sky
        (λ n. run_transition_in_transaction (at_time rt (sky.attempt n).now) i' (logic_of op) d)
        (recover_transition sky j) s o t fair
        (λ n u v b quiet ran. ran-Did (at_time rt (sky.attempt n).now) i' u v b quiet ran)
        (λ n u v e quiet ran. threw-IsQuiet (at_time rt (sky.attempt n).now) i' u v e quiet ran)
        (λ e u v b quiet ran. handled-Did sky j e u v b fair quiet ran)
        (record { sound = h; rows = refl }) run
