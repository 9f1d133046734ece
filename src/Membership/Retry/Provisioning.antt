-- ===== src/Membership/Retry/Provisioning.antt =====
-- What the retry loop of `provisionGooglePlayPaidPendingBinding` guarantees under any interference.
use town_api.Common.{
  String, ℕ, ◌≤◌, Option, none, some, ◌≡◌, refl, arith, inl, inr, Bool-cases, Option-cases,
}
use town_api.Membership.Rows.{google_play}
use town_api.Membership.Store.{Store, Error, Outcome, ok, throw, transaction}
use town_api.Membership.Repositories.{
  event_of, find_google_play_purchase_link_by_token, find_entitlement_by_account_id,
}
use town_api.Membership.Invariant.{IsSound}
use town_api.Membership.Run.{Runtime, Deps, session}
use town_api.Membership.Run.Laws.{store_after, IsSound-same, transaction-cases}
use town_api.Membership.Provision.{
  Purchase, ProvisionOutcome, run_provision_in_transaction, to_transition_payload,
}
use town_api.Membership.Provision.Effect.{existing-Provisioned}
use town_api.Membership.Provision.Theorems.{provision-Advanced, provision-IsSound}
use town_api.Membership.Retry.{
  under, Sky, max_retries, find_and_compare_provision, find_committed_token_conflict,
  conflict_or_throw, recover_provision, is_source_event_unique_violation,
  is_purchase_token_unique_violation, provision_google_play_paid_pending_binding, at_time,
}
use town_api.Membership.Retry.Laws.{
  IsFair, under-keeps, attempts-keeps, attempts-clear, ClearsAfter, tables_after,
}

-- The provisioner survives up to five transient conflicts: if the attempt after them meets no error and
-- its transaction returns on the tables and at the time that it finds, that is the answer and the
-- effect of the whole call.
pub provision_google_play_paid_pending_binding-returns :
    (sky : Sky) (rt : Runtime) (p : Purchase) (d : Deps) (k : ℕ) (s t : Store)
    (o : ProvisionOutcome)
    → k ≤ max_retries
    → ClearsAfter sky 0 k
    → run_provision_in_transaction (at_time rt (sky.attempt k).now) p d (tables_after sky 0 k s)
      ≡ ok o t
    → provision_google_play_paid_pending_binding sky rt p d s ≡ ok o t
unfolding provision_google_play_paid_pending_binding
provision_google_play_paid_pending_binding-returns sky rt p d k s t o fits calm run =
    attempts-clear sky k max_retries
      (λ n. run_provision_in_transaction (at_time rt (sky.attempt n).now) p d)
      (recover_provision sky (session (at_time rt sky.recovery.now) (to_transition_payload p) d) p)
      s fits calm run

compare-IsSound :
    {links : String → ℕ} (rt : Runtime) (p : Purchase) (d : Deps) (s : Store)
    → IsSound links s
    → IsSound links (
        store_after
          (transaction (find_and_compare_provision (session rt (to_transition_payload p) d) p) s))
unfolding find_and_compare_provision session to_transition_payload
compare-IsSound {links} rt p d s h =
    let j = session rt (to_transition_payload p) d in
    transaction-cases (λ o. IsSound links (store_after o)) (find_and_compare_provision j p) s
      (λ o t ran. elim (Option-cases (event_of google_play p.source_event_id s)) [
        | inl missing ↦ absurd (ground arith)
        | inr (ev, found) ↦
            (provision-Advanced p s j o t refl h
              (existing-Provisioned j p ev s found (ground arith))).sound
      ])
      (λ e n. IsSound-same s (record s { drawn = n }) refl (λ a. refl) h)

conflict_same :
    (p : Purchase) (s : Store) {o : Option ProvisionOutcome} {t : Store}
    → find_committed_token_conflict p s ≡ ok o t
    → s ≡ t
unfolding find_committed_token_conflict find_google_play_purchase_link_by_token
    find_entitlement_by_account_id
conflict_same p s h = ground arith

conflict-IsSound :
    {links : String → ℕ} (p : Purchase) (s : Store)
    → IsSound links s
    → IsSound links (store_after (transaction (find_committed_token_conflict p) s))
conflict-IsSound {links} p s h =
    transaction-cases (λ o. IsSound links (store_after o)) (find_committed_token_conflict p) s
      (λ o t ran. rw (← conflict_same p s ran) h)
      (λ e n. IsSound-same s (record s { drawn = n }) refl (λ a. refl) h)

answer-IsSound :
    {links : String → ℕ} (e : Error) (o : Outcome (Option ProvisionOutcome))
    → IsSound links (store_after o)
    → IsSound links
        (store_after (elim o [ ok a t ↦ conflict_or_throw e a t | throw x t ↦ throw x t ]))
answer-IsSound {links} e (ok none t) h = h
answer-IsSound {links} e (ok (some a) t) h = h
answer-IsSound {links} e (throw x t) h = h

recover-IsSound :
    {links : String → ℕ} (sky : Sky) (rt : Runtime) (p : Purchase) (d : Deps) (e : Error)
    (s : Store)
    → IsFair links sky
    → IsSound links s
    → IsSound links
        (store_after (recover_provision sky (session rt (to_transition_payload p) d) p e s))
unfolding recover_provision
recover-IsSound {links} sky rt p d e s fair h =
    let j = session rt (to_transition_payload p) d in
    elim (Bool-cases (is_source_event_unique_violation e)) [
      | inl race ↦ rw race (
          under-keeps (IsSound links) sky.recovery (transaction (find_and_compare_provision j p)) s
            fair.1 (compare-IsSound rt p d) h)
      | inr first ↦ elim (Bool-cases (is_purchase_token_unique_violation e)) [
        | inl taken ↦
            rw (first, taken)
              (answer-IsSound e
                (under sky.recovery (transaction (find_committed_token_conflict p)) s)
                (under-keeps (IsSound links) sky.recovery
                  (transaction (find_committed_token_conflict p)) s fair.1 (conflict-IsSound p) h))
        | inr other ↦ rw (first, other) h
      ]
    ]

-- The provisioner keeps sound tables sound through all its attempts, its recoveries from a race for the
-- event or the purchase token, and its errors, if the other sessions do.
pub provision_google_play_paid_pending_binding-IsSound :
    {links : String → ℕ} (sky : Sky) (rt : Runtime) (p : Purchase) (d : Deps) (s : Store)
    → IsFair links sky
    → IsSound links s
    → IsSound links (store_after (provision_google_play_paid_pending_binding sky rt p d s))
unfolding provision_google_play_paid_pending_binding
provision_google_play_paid_pending_binding-IsSound {links} sky rt p d s fair h =
    attempts-keeps (IsSound links) max_retries 0 sky
      (λ n. run_provision_in_transaction (at_time rt (sky.attempt n).now) p d)
      (recover_provision sky (session (at_time rt sky.recovery.now) (to_transition_payload p) d) p)
      s fair (λ n u k. provision-IsSound (at_time rt (sky.attempt n).now) p d u k)
      (λ e u k. recover-IsSound sky (at_time rt sky.recovery.now) p d e u fair k) h
