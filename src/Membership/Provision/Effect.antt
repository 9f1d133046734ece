-- ===== src/Membership/Provision/Effect.antt =====
-- What one provisioning transaction did.
use town_api.Common.{
  String, true, false, none, some, ◌∷◌, ◌≡◌, ap, arith, inl, inr, ◌∙◌, Option-cases, Bool-cases,
  ◌==◌, if◌then◌else◌,
}
use town_api.Membership.Rows.{
  Account, applied, replayed, rejected, Entitlement, SourceEvent, PurchaseLink, google_play,
  membership_event_replayed, membership_event_rejected, membership_paid_pending_binding_provisioned,
}
use town_api.Membership.Store.{Store, ok, is_none}
use town_api.Membership.Repositories.{
  event_of, entitlement_of, link_of, insert_google_play_purchase_link,
}
use town_api.Membership.Run.{
  Session, account_of, audit_if, audit_creation, record_event, write_entitlement, unchanged,
  changed,
}
use town_api.Membership.Run.Effects.{
  after, SameTables, audit_if-SameTables, audit_creation-SameTables, Recorded,
  record_event-Recorded, Recorded-SameTables, Recorded-earlier, Written, Written-later,
  write_entitlement-Written,
}
use town_api.Membership.Provision.{
  Purchase, ProvisionOutcome, replay_provision, refuse_mismatch, read_existing_provision_outcome,
  provision_refusal, reject_purchase, provision_mutation, link_purchase, accept_purchase,
  decide_purchase, provision_new, provision,
}

-- A new link of the purchase to the entitlement `e`.
pub record Linked (p : Purchase) (e : Entitlement) (s t : Store) : Type 0 where
  pub link : PurchaseLink
  pub links : t.purchase_links ≡ link ∷ s.purchase_links
  pub token : link.purchase_token ≡ p.purchase_token
  pub owner : link.account_id ≡ p.account_id
  pub target : link.entitlement_id ≡ e.id

link_purchase-Linked :
    (j : Session) (p : Purchase) (e : Entitlement) (s : Store) {a : PurchaseLink} {t : Store}
    → link_purchase j p e s ≡ ok a t
    → Linked p e s t
      × (t.entitlements ≡ s.entitlements)
      × (t.source_events ≡ s.source_events)
      × (t.accounts ≡ s.accounts)
unfolding link_purchase insert_google_play_purchase_link
link_purchase-Linked j p e s {a} {t} h = (
  record {
    link = a;
    links = ground arith;
    token = ground arith;
    owner = ground arith;
    target = ground arith;
  },
  ground arith,
  ground arith,
  ground arith,
)

pub data Provisioned (j : Session) (p : Purchase) (s : Store) (o : ProvisionOutcome) (t : Store)
    : Type 0 where
  repeated :
      (ev : SourceEvent)
      → event_of google_play p.source_event_id s ≡ some ev
      → SameTables s t
      → o.result ≡ (if ev.payload_hash == j.payload_hash then replayed else rejected)
      → Provisioned j p s o t
  refused :
      (account : Account) (reason : String)
      → account_of p.account_id s ≡ some account
      → provision_refusal account p (link_of p.purchase_token s) (entitlement_of p.account_id s)
        ≡ some reason
      → o.result ≡ rejected
      → Recorded j rejected s t
      → t.entitlements ≡ s.entitlements
      → t.purchase_links ≡ s.purchase_links
      → Provisioned j p s o t
  done :
      (account : Account) (e : Entitlement)
      → account_of p.account_id s ≡ some account
      → provision_refusal account p (link_of p.purchase_token s) (entitlement_of p.account_id s)
        ≡ none
      → o.result ≡ applied
      → o.entitlement ≡ some e
      → Recorded j applied s t
      → Written j
          (provision_mutation p (entitlement_of p.account_id s))
          s
          t
          e
          (entitlement_of p.account_id s)
      → Linked p e s t
      → Provisioned j p s o t

module _ (j : Session) (p : Purchase) where
  accept-Provisioned :
      (account : Account) (s : Store) {o : ProvisionOutcome} {t : Store}
      → account_of p.account_id s ≡ some account
      → provision_refusal account p (link_of p.purchase_token s) (entitlement_of p.account_id s)
        ≡ none
      → accept_purchase j p (entitlement_of p.account_id s) s ≡ ok o t
      → Provisioned j p s o t
  unfolding accept_purchase
  accept-Provisioned account s {o} {t} known free h =
      let old = entitlement_of p.account_id s in
      let m = provision_mutation p old in
      after (write_entitlement j old m) _ s h λ e s1 wrote h1.
        after (link_purchase j p e) _ s1 h1 λ l s2 linked h2.
          after (record_event j applied) _ s2 h2 λ ev s3 recorded h3.
            after (audit_creation j (is_none old) (changed j old e)) _ s3 h3 λ _ s4 first h4.
              after
                (audit_if j (some membership_paid_pending_binding_provisioned) (changed j old e)) _
                s4 h4
                λ _ s5 second h5.
                  let (written, events, accounts, links) =
                    write_entitlement-Written j old m s wrote in
                  let (link, rows2, events2, accounts2) = link_purchase-Linked j p e s1 linked in
                  let (entry, rows3, links3) = record_event-Recorded j applied s2 recorded in
                  let k1 = audit_creation-SameTables j _ _ s3 first in
                  let k2 = audit_if-SameTables j _ _ s4 second in
                  let last : s5 ≡ t = ground arith in
                  let chain : s5.purchase_links ≡ link.link ∷ s.purchase_links =
                    k2.purchase_links
                    ∙ k1.purchase_links
                    ∙ links3
                    ∙ link.links
                    ∙ ap (λ ls. link.link ∷ ls) links in
                  rw (← last) (
                    done account e known free (ground arith) (ground arith)
                      (Recorded-SameTables
                        (Recorded-SameTables
                          (Recorded-earlier (events2 ∙ events) (accounts2 ∙ accounts) entry) k1)
                        k2)
                      (Written-later written (k2.entitlements ∙ k1.entitlements ∙ rows3 ∙ rows2))
                      (record {
                        link = link.link;
                        links = chain;
                        token = link.token;
                        owner = link.owner;
                        target = link.target;
                      }))

  reject-Provisioned :
      (account : Account) (reason : String) (s : Store) {o : ProvisionOutcome} {t : Store}
      → account_of p.account_id s ≡ some account
      → provision_refusal account p (link_of p.purchase_token s) (entitlement_of p.account_id s)
        ≡ some reason
      → reject_purchase j (entitlement_of p.account_id s) (link_of p.purchase_token s) reason s
        ≡ ok o t
      → Provisioned j p s o t
  unfolding reject_purchase
  reject-Provisioned account reason s {o} {t} known why h =
      after (record_event j rejected) _ s h λ ev s1 recorded h1.
        after
          (audit_if j (some membership_event_rejected)
            (unchanged j (entitlement_of p.account_id s)))
          _ s1 h1
          λ _ s2 logged h2.
            let (entry, rows, links) = record_event-Recorded j rejected s recorded in
            let k = audit_if-SameTables j _ _ s1 logged in
            let last : s2 ≡ t = ground arith in
            rw (← last) (
              refused account reason known why (ground arith) (Recorded-SameTables entry k)
                (k.entitlements ∙ rows) (k.purchase_links ∙ links))

  replay-Provisioned :
      (ev : SourceEvent) (s : Store) {o : ProvisionOutcome} {t : Store}
      → event_of google_play p.source_event_id s ≡ some ev
      → (ev.payload_hash == j.payload_hash) ≡ true
      → replay_provision j (entitlement_of p.account_id s) (link_of p.purchase_token s) s ≡ ok o t
      → Provisioned j p s o t
  unfolding replay_provision
  replay-Provisioned ev s {o} {t} found same h =
      after
        (audit_if j (some membership_event_replayed) (unchanged j (entitlement_of p.account_id s)))
        _ s h
        λ u s1 logged h1.
          let k = audit_if-SameTables j _ _ s logged in
          let last : s1 ≡ t = ground arith in rw (← last) (repeated ev found k (ground arith))

  mismatch-Provisioned :
      (ev : SourceEvent) (s : Store) {o : ProvisionOutcome} {t : Store}
      → event_of google_play p.source_event_id s ≡ some ev
      → (ev.payload_hash == j.payload_hash) ≡ false
      → refuse_mismatch j (entitlement_of p.account_id s) (link_of p.purchase_token s) s ≡ ok o t
      → Provisioned j p s o t
  unfolding refuse_mismatch
  mismatch-Provisioned ev s {o} {t} found other h =
      after
        (audit_if j (some membership_event_rejected) (unchanged j (entitlement_of p.account_id s)))
        _ s h
        λ u s1 logged h1.
          let k = audit_if-SameTables j _ _ s logged in
          let last : s1 ≡ t = ground arith in rw (← last) (repeated ev found k (ground arith))

  pub existing-Provisioned :
      (ev : SourceEvent) (s : Store) {o : ProvisionOutcome} {t : Store}
      → event_of google_play p.source_event_id s ≡ some ev
      → read_existing_provision_outcome j p ev s ≡ ok o t
      → Provisioned j p s o t
  unfolding read_existing_provision_outcome
  existing-Provisioned ev s {o} {t} found h =
      elim (Bool-cases (ev.payload_hash == j.payload_hash)) [
        | inl same ↦ replay-Provisioned ev s found same (rw same at h)
        | inr other ↦ mismatch-Provisioned ev s found other (rw other at h)
      ]

  new-Provisioned :
      (s : Store) {o : ProvisionOutcome} {t : Store}
      → provision_new j p s ≡ ok o t
      → Provisioned j p s o t
  unfolding provision_new decide_purchase
  new-Provisioned s {o} {t} h = elim (Option-cases (account_of p.account_id s)) [
    | inl unknown ↦ absurd (ground arith)
    | inr (account, known) ↦
        elim (Option-cases (
          provision_refusal account p (link_of p.purchase_token s)
            (entitlement_of p.account_id s))) [
              | inl free ↦ accept-Provisioned account s known free (ground arith)
              | inr (reason, why) ↦ reject-Provisioned account reason s known why (ground arith)
            ]
  ]

  -- A committed provisioning transaction did one of the things that `Provisioned` lists.
  pub provision-Provisioned :
      (s : Store) {o : ProvisionOutcome} {t : Store}
      → provision j p s ≡ ok o t
      → Provisioned j p s o t
  unfolding provision
  provision-Provisioned s {o} {t} h =
      elim (Option-cases (event_of google_play p.source_event_id s)) [
        | inl missing ↦ new-Provisioned s (ground arith)
        | inr (ev, found) ↦ existing-Provisioned ev s found (ground arith)
      ]
