-- ===== src/Membership/Provision/Theorems.antt =====
-- The guarantees of `runProvisionInTransaction`.
use town_api.Common.{
  ℕ, ◌+◌, String, Option, none, some, ◌≡◌, ◌≢◌, refl, sym, ap, arith, ◌⊎◌, inl, inr, ◌∙◌,
  Bool-cases, ◌==◌, if◌then◌else◌, str_eq_self,
}
use town_api.Common.Time.{Timestamp}
use town_api.Membership.Rows.{
  Account, applied, replayed, rejected, inactive, expired, paid_pending_binding, Entitlement,
  PurchaseLink, google_play,
}
use town_api.Membership.Store.{Store, ok}
use town_api.Membership.Repositories.{entitlement_of, link_of, rewritten}
use town_api.Membership.Payload.{source_allowed}
use town_api.Membership.Transitions.Input.{version_or_zero}
use town_api.Membership.Invariant.{IsSound, IsLegal, status_of, version_of}
use town_api.Membership.Run.{Runtime, Deps, Session, session, resolve_node_env}
use town_api.Membership.Run.Soundness.{Written-Replaced, Written-columns, Written-IsLegal}
use town_api.Membership.Run.Laws.{
  store_after, IsSound-same, IsSound-applied, count-unapplied, transaction-cases, committed,
}
use town_api.Membership.Provision.{
  Purchase, ProvisionOutcome, provision, provision_mutation, provision_refusal,
  run_provision_in_transaction, to_transition_payload,
}
use town_api.Membership.Provision.Effect.{
  Provisioned, repeated, refused, done, provision-Provisioned,
}

provision_mutation-IsLegal :
    (p : Purchase) (o : Option Entitlement) (at : Timestamp) (row : Entitlement)
    → IsLegal (rewritten (provision_mutation p o) at row)
unfolding rewritten
provision_mutation-IsLegal p o at row = record { checked = refl; was_activated = λ h. absurd (cc) }

free-status :
    (a : Account) (p : Purchase) (s : Store)
    → provision_refusal a p (link_of p.purchase_token s) (entitlement_of p.account_id s) ≡ none
    → ((status_of p.account_id s ≡ inactive) ⊎ (status_of p.account_id s ≡ expired))
      × (link_of p.purchase_token s ≡ none)
unfolding provision_refusal
free-status a p s h = (ground arith, ground arith)

module _ (p : Purchase) (s : Store) where
  -- What a committed run did for the purchase's account.
  pub record Granted (t : Store) : Type 0 where
    pub entitlement : Entitlement
    pub link : PurchaseLink
    pub before : (status_of p.account_id s ≡ inactive) ⊎ (status_of p.account_id s ≡ expired)
    pub uncorrelated : link_of p.purchase_token s ≡ none
    pub row : entitlement_of p.account_id t ≡ some entitlement
    pub pending : entitlement.status ≡ paid_pending_binding
    pub until : entitlement.access_until ≡ some p.access_until
    pub source : entitlement.source ≡ google_play
    pub correlated : link_of p.purchase_token t ≡ some link
    pub owner : link.account_id ≡ p.account_id
    pub target : link.entitlement_id ≡ entitlement.id

  pub record Advanced (links : String → ℕ) (o : ProvisionOutcome) (t : Store) : Type 0 where
    pub sound : IsSound links t
    pub others : (b : String) → b ≢ p.account_id → entitlement_of b t ≡ entitlement_of b s
    pub effect :
        ((o.result ≡ applied) × Granted t)
        ⊎ ((o.result ≢ applied)
            × (t.entitlements ≡ s.entitlements)
            × (t.purchase_links ≡ s.purchase_links))

  pub provision-Advanced :
      {links : String → ℕ} (j : Session) (o : ProvisionOutcome) (t : Store)
      → j.input.account_id ≡ p.account_id
      → IsSound links s
      → Provisioned j p s o t
      → Advanced links o t
  provision-Advanced j o t same h (repeated ev found k result) = record {
    sound = IsSound-same s t k.entitlements (λ a. rw k.source_events) h;
    others = λ b other. rw k.entitlements;
    effect = inr (
      elim (Bool-cases (ev.payload_hash == j.payload_hash)) [
        | inl one ↦ λ q. cc (result, ap (λ b. if b then replayed else rejected) one)
        | inr two ↦ λ q. cc (result, ap (λ b. if b then replayed else rejected) two)
      ],
      k.entitlements,
      k.purchase_links,
    );
  }
  provision-Advanced j o t same h (refused account reason known why result w rows links) = record {
    sound = IsSound-same s t rows (λ a. count-unapplied j rejected s t a refl w) h;
    others = λ b other. rw rows;
    effect = inr ((λ q. cc), rows, links);
  }
  provision-Advanced j o t same h (done account e known free result answer w wrote linked) =
      let old = entitlement_of p.account_id s in
      let m = provision_mutation p old in
      let key : entitlement_of j.input.account_id s ≡ old = ap (λ a. entitlement_of a s) same in
      let put = Written-Replaced j m s t e old key wrote h.ids h.owners in
      let (status, version, until, source) = Written-columns j m s t e old wrote in
      let legal =
        Written-IsLegal j m s t e old wrote (provision_mutation-IsLegal p old j.processed_at) in
      let (before, uncorrelated) = free-status account p s free in
      let next : m.version ≡ version_of j.input.account_id s + 1 =
        ap (λ r. version_or_zero r + 1) (sym key) in
      record {
        sound = IsSound-applied j s t m e next version legal w put h;
        others = λ b other. put.others b (λ q. other (q ∙ same));
        effect = inl (
          result,
          record {
            entitlement = e;
            link = linked.link;
            before = before;
            uncorrelated = uncorrelated;
            row = rw (← same) put.here;
            pending = status;
            until = until;
            source = source;
            correlated = rw linked.links (rw (linked.token, str_eq_self p.purchase_token));
            owner = linked.owner;
            target = linked.target;
          },
        );
      }

module _ {links : String → ℕ} (rt : Runtime) (p : Purchase) (d : Deps) (s : Store) where
  -- Whatever the outcome, a thrown error included, provisioning keeps sound tables sound.
  pub provision-IsSound :
      IsSound links s → IsSound links (store_after (run_provision_in_transaction rt p d s))
  unfolding run_provision_in_transaction session to_transition_payload
  provision-IsSound h = elim (Bool-cases (source_allowed google_play (resolve_node_env rt d))) [
    | inr banned ↦ rw banned h
    | inl allowed ↦
        let j = session rt (to_transition_payload p) d in
        rw allowed (
          transaction-cases (λ o. IsSound links (store_after o)) (provision j p) s
            (λ o t run.
              (provision-Advanced p s j o t refl h (provision-Provisioned j p s run)).sound)
            (λ e n. IsSound-same s (record s { drawn = n }) refl (λ a. refl) h))
  ]

  -- If provisioning commits on sound tables, the entitlement of every other account `b` is as before.
  -- If it was applied, the account had no membership in force (inactive, expired or no row) and no link
  -- held the purchase token; now the account's row is paid and pending its binding, with the access of
  -- the purchase, and the token's link names this account and this row. If it was not applied, neither
  -- the entitlements nor the links changed.
  pub provision-Granted :
      (b : String) {o : ProvisionOutcome} {t : Store}
      → IsSound links s
      → b ≢ p.account_id
      → run_provision_in_transaction rt p d s ≡ ok o t
      → (entitlement_of b t ≡ entitlement_of b s)
        × (((o.result ≡ applied) × Granted p s t)
            ⊎ ((o.result ≢ applied)
                × (t.entitlements ≡ s.entitlements)
                × (t.purchase_links ≡ s.purchase_links)))
  unfolding run_provision_in_transaction session to_transition_payload
  provision-Granted b {o} {t} h other run =
      elim (Bool-cases (source_allowed google_play (resolve_node_env rt d))) [
        | inr banned ↦ absurd (cc (rw banned at run))
        | inl allowed ↦
            let j = session rt (to_transition_payload p) d in
            let did = committed (provision j p) s (rw allowed at run) in
            let moved = provision-Advanced p s j o t refl h (provision-Provisioned j p s did) in
            (moved.others b other, moved.effect)
      ]
