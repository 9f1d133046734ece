-- ===== src/Membership/Reconcile/Laws.antt =====
-- What the reconciliation job may change, on every path, thrown errors included.
use town_api.Common.{
  ℕ, ◌+◌, String, Bool, List, [], ◌∷◌, ◌≡◌, ◌≢◌, refl, sym, ◌∙◌, ◌⊎◌, inl, inr, ◌==◌, eq_iff,
  Bool-cases, Option-cases,
}
use town_api.Membership.Rows.{Status, Entitlement}
use town_api.Membership.Store.{Store, Outcome, ok, throw, transaction}
use town_api.Membership.Repositories.{entitlement_of}
use town_api.Membership.Transitions.Input.{Input}
use town_api.Membership.Invariant.{IsSound, status_of}
use town_api.Membership.Operations.{expire_membership, logic_of}
use town_api.Membership.Steps.{Edge, lapse, end}
use town_api.Membership.Run.{Runtime, Deps, TransitionOutcome, run_transition_in_transaction}
use town_api.Membership.Run.Effects.{SameTables}
use town_api.Membership.Run.Laws.{bind-keeps, store_after, IsSound-same}
use town_api.Membership.Run.Theorems.{run-throw, run-IsSound, run-Edge}
use town_api.Membership.Retry.{Weather, under, Sky, membership_operation}
use town_api.Membership.Retry.Laws.{IsKeptBy, under-keeps, membership_operation-keeps}
use town_api.Membership.Reconcile.{
  ReconcileInput, expire_input, expire_deps, find_expired_membership_candidates, expire_each,
  reconcile_expired_memberships,
}

module _ (P : Store → Type 0) (same_keeps : (s t : Store) → SameTables s t → P s → P t)
    (skies : ℕ → Sky) (rt : Runtime) (i : ReconcileInput) (fair : (n : ℕ) → IsKeptBy P (skies n))
    (keeps : (rt' : Runtime) (input : Input) (d : Deps) (u : Store)
      → P u
      → P (
          store_after
            (run_transition_in_transaction rt' input (logic_of expire_membership) d u))) where
  expire_each-keeps :
      (n : ℕ) (es : List Entitlement) (s : Store)
      → P s
      → P (store_after (expire_each skies rt i n es s))
  unfolding expire_each
  expire_each-keeps n [] s h = h
  expire_each-keeps n (e ∷ es) s h =
      bind-keeps P
        (membership_operation expire_membership (skies n) rt (expire_input rt i e) (expire_deps i))
        _ s
        (membership_operation-keeps P same_keeps expire_membership (skies n) rt
          (expire_input rt i e) (expire_deps i) s (fair n)
          (λ rt' u k. keeps rt' _ (expire_deps i) u k) h)
        (λ o t k.
          bind-keeps P (expire_each skies rt i (n + 1) es) _ t (expire_each-keeps (n + 1) es t k)
            (λ rest u l. l))

  found_keeps :
      (locked : Entitlement → Bool) (u : Store)
      → P u
      → P (
          store_after
            (transaction (find_expired_membership_candidates locked i.now i.batch_size) u))
  unfolding find_expired_membership_candidates
  found_keeps locked u k = elim (Option-cases i.now.instant) [
    | inl unread ↦ rw unread k
    | inr (instant, read) ↦ rw read k
  ]

  pub reconcile-keeps :
      (locked : Entitlement → Bool) (w : Weather) (s : Store)
      → ((u : Store) → P u → P (w.others u))
      → P s
      → P (store_after (reconcile_expired_memberships skies rt i locked w s))
  unfolding reconcile_expired_memberships find_expired_membership_candidates
  reconcile-keeps locked w s calm h =
      bind-keeps P
        (under w (transaction (find_expired_membership_candidates locked i.now i.batch_size))) _ s
        (under-keeps P w
          (transaction (find_expired_membership_candidates locked i.now i.batch_size)) s calm
          (λ u k. found_keeps locked u k) h)
        (λ es t k.
          bind-keeps P (expire_each skies rt i 0 es) _ t (expire_each-keeps 0 es t k)
            (λ results u l. l))

-- The job keeps sound tables sound, whatever its outcome, if the other sessions do.
pub reconcile-IsSound :
    {links : String → ℕ} (skies : ℕ → Sky) (rt : Runtime) (i : ReconcileInput)
    (locked : Entitlement → Bool) (w : Weather) (s : Store)
    → ((n : ℕ) → IsKeptBy (IsSound links) (skies n))
    → ((u : Store) → IsSound links u → IsSound links (w.others u))
    → IsSound links s
    → IsSound links (store_after (reconcile_expired_memberships skies rt i locked w s))
reconcile-IsSound {links} skies rt i locked w s fair calm h =
    reconcile-keeps (IsSound links)
      (λ s t k. IsSound-same s t k.entitlements (λ a. rw k.source_events)) skies rt i fair
      (λ rt' input d u k. run-IsSound expire_membership rt' input d u k) locked w s calm h

-- A membership stayed as it was, or ended.
abbrev pub Lapsed : Status → Status → Type 0
Lapsed old new =
    (new ≡ old) ⊎ (((old ≡ Status.active) ⊎ (old ≡ Status.cancelling)) × (new ≡ Status.expired))

Lapsed-lapse :
    {old new newer : Status} → Lapsed old new → Edge expire_membership new newer → Lapsed old newer
Lapsed-lapse (inl same) lapse = inr (inl (sym same), refl)
Lapsed-lapse (inl same) end = inr (inr (sym same), refl)
Lapsed-lapse (inr (running, ended)) lapse = absurd (cc)
Lapsed-lapse (inr (running, ended)) end = absurd (cc)

another : (a : String) → (b : String) × (b ≢ a)
another a = elim (Bool-cases (a == "")) [
  | inl empty ↦ ("a", λ same. cc (same ∙ (eq_iff a "").0 empty))
  | inr named ↦ ("", λ same. cc (named, (eq_iff a "").1 (sym same)))
]

-- The tables are sound, and against the tables `s` every membership stayed as it was or ended.
pub record OnlyLapsed (links : String → ℕ) (s t : Store) : Type 0 where
  pub sound : IsSound links t
  pub lapsed : (b : String) → Lapsed (status_of b s) (status_of b t)

OnlyLapsed-same :
    {links : String → ℕ} (s t u : Store)
    → IsSound links u
    → ((b : String) → entitlement_of b u ≡ entitlement_of b t)
    → OnlyLapsed links s t
    → OnlyLapsed links s u
OnlyLapsed-same s t u sound rows h = record {
  sound = sound;
  lapsed = λ b. rw (rows b) (h.lapsed b);
}

module _ {links : String → ℕ} (s : Store) (rt : Runtime) (i : Input) (d : Deps) (u : Store)
    (h : OnlyLapsed links s u) where
  ran-OnlyLapsed :
      (o : TransitionOutcome) (t : Store)
      → run_transition_in_transaction rt i (logic_of expire_membership) d u ≡ ok o t
      → IsSound links t
      → OnlyLapsed links s t
  ran-OnlyLapsed o t run sound = record {
    sound = sound;
    lapsed = λ b. elim (Bool-cases (b == i.account_id)) [
      | inr other ↦
          let moved =
            run-Edge expire_membership rt i d u b h.sound
              (λ same. cc (other, (eq_iff b i.account_id).1 same)) run in
          rw moved.0 (h.lapsed b)
      | inl same ↦
          let (c, apart) = another i.account_id in
          let moved = run-Edge expire_membership rt i d u c h.sound apart run in
          rw ((eq_iff b i.account_id).0 same) (elim moved.1 [
            | inl (done, row, edge) ↦ Lapsed-lapse (h.lapsed i.account_id) edge
            | inr (undone, rows) ↦ rw rows (h.lapsed i.account_id)
          ])
    ];
  }

  run-OnlyLapsed :
      OnlyLapsed links s
        (store_after (run_transition_in_transaction rt i (logic_of expire_membership) d u))
  run-OnlyLapsed =
      by_outcome (run_transition_in_transaction rt i (logic_of expire_membership) d u) refl
        (run-IsSound expire_membership rt i d u h.sound)
    where
      by_outcome :
          (o : Outcome TransitionOutcome)
          → run_transition_in_transaction rt i (logic_of expire_membership) d u ≡ o
          → IsSound links (store_after o)
          → OnlyLapsed links s (store_after o)
      by_outcome (ok o t) run sound = ran-OnlyLapsed o t run sound
      by_outcome (throw e t) run sound =
          let rows = run-throw expire_membership rt i d u run in
          OnlyLapsed-same s u t sound (λ b. rw rows) h

-- No other session commits anything; PostgreSQL may still raise errors.
abbrev pub IsQuiet : Sky → Type 0
IsQuiet sky =
    ((n : ℕ) (s : Store) → (sky.attempt n).others s ≡ s) × ((s : Store) → sky.recovery.others s ≡ s)

quiet-IsKeptBy : (P : Store → Type 0) (sky : Sky) → IsQuiet sky → IsKeptBy P sky
quiet-IsKeptBy P sky quiet = ((λ n s h. rw (quiet.0 n s) h), (λ s h. rw (quiet.1 s) h))

-- While no other session commits, the job leaves the status of every account `b` as it was, or moves it
-- from active or cancelling to expired, whatever errors PostgreSQL raises and however the job ends.
pub reconcile-Lapsed :
    {links : String → ℕ} (skies : ℕ → Sky) (rt : Runtime) (i : ReconcileInput)
    (locked : Entitlement → Bool) (w : Weather) (s : Store) (b : String)
    → ((n : ℕ) → IsQuiet (skies n))
    → ((u : Store) → w.others u ≡ u)
    → IsSound links s
    → Lapsed
        (status_of b s)
        (status_of b (store_after (reconcile_expired_memberships skies rt i locked w s)))
reconcile-Lapsed {links} skies rt i locked w s b quiet calm h =
    (reconcile-keeps (OnlyLapsed links s)
        (λ t u k kept.
          OnlyLapsed-same s t u
            (IsSound-same t u k.entitlements (λ a. rw k.source_events) kept.sound)
            (λ c. rw k.entitlements) kept)
        skies rt i (λ n. quiet-IsKeptBy (OnlyLapsed links s) (skies n) (quiet n))
        (λ rt' input d u kept. run-OnlyLapsed s rt' input d u kept) locked w s
        (λ u kept. rw (calm u) kept) (record { sound = h; lapsed = λ c. inl refl })).lapsed
      b
