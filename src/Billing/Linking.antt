-- ===== src/Billing/Linking.antt =====
-- What linking a subscription to an entitlement changes (`handleCheckoutSessionCompleted` of
-- billing/webhook-processor.ts): it writes the row without an event of the ledger.
use town_api.Common.{
  ℕ, ◌+◌, ◌≤◌, String, Option, some, ◌≡◌, ◌≢◌, refl, sym, ap, arith, inl, inr, ◌∙◌, Bool-cases,
  Option-cases, ◌==◌, if◌then◌else◌, eq_iff, eq_of_str_eq,
}
use town_api.Common.Tables.{find?}
use town_api.Common.Time.{Timestamp}
use town_api.Membership.Rows.{Status, Entitlement}
use town_api.Membership.Store.{invariants_of, Store, ok}
use town_api.Membership.Repositories.{entitlement_of, rewritten, update_membership_entitlement}
use town_api.Membership.Invariant.{IsSound, IsLegal, version_of, applied_count}
use town_api.Membership.Transitions.Input.{version_or_zero}
use town_api.Membership.Run.Soundness.{Replaced, updated-Replaced}
use town_api.Billing.Handlers.{linked}

-- One more write to the row of the account.
abbrev pub one_more : String → (String → ℕ) → String → ℕ
one_more a links b = if b == a then links b + 1 else links b

-- Sound tables, with at least `links` writes that no event accounts for.
pub record IsSoundFrom (links : String → ℕ) (s : Store) : Type 0 where
  pub total : String → ℕ
  pub more : (a : String) → links a ≤ total a
  pub sound : IsSound total s

module _ (e row : Entitlement) (customer_id : Option String) (id : String) (now : Timestamp) where
  -- Linking keeps the columns that the state constraint reads.
  linked-invariants :
      (st : Status)
      → invariants_of st (rewritten (linked e customer_id id) now row) ≡ invariants_of st e
  unfolding rewritten
  linked-invariants Status.inactive = refl
  linked-invariants _ = refl

  linked-IsLegal : IsLegal e → IsLegal (rewritten (linked e customer_id id) now row)
  unfolding rewritten
  linked-IsLegal legal = record {
    checked = linked-invariants e.status ∙ legal.checked;
    was_activated = legal.was_activated;
  }

  linked-version : (rewritten (linked e customer_id id) now row).version ≡ e.version + 1
  unfolding rewritten
  linked-version = refl

module _ {links : String → ℕ} (a : String) (e row' : Entitlement) (customer_id : Option String)
    (id : String) (now : Timestamp) (s t : Store) (owned : entitlement_of a s ≡ some e)
    (run : update_membership_entitlement e.id (linked e customer_id id) now s ≡ ok row' t)
    (h : IsSound links s) where
  pub linked-Replaced :
      Replaced a s t row'
      × (t.source_events ≡ s.source_events)
      × (row'.version ≡ e.version + 1)
      × IsLegal row'
  unfolding update_membership_entitlement
  linked-Replaced = elim (Option-cases (find? (λ r. r.id == e.id) s.entitlements)) [
    | inl missing ↦ absurd (ground arith)
    | inr (row, found) ↦
        let made : row' ≡ rewritten (linked e customer_id id) now row = ground arith in
        (
          updated-Replaced a now (linked e customer_id id) s t row' e row owned found made
              (ground arith) h.ids h.owners,
          ground arith,
          ap (λ r. r.version) made ∙ linked-version e row customer_id id now,
          rw made (linked-IsLegal e row customer_id id now (h.legal a e owned)),
        )
  ]

  balanced-linked :
      (put : Replaced a s t row')
      → t.source_events ≡ s.source_events
      → row'.version ≡ e.version + 1
      → (b : String) → version_of b t ≡ applied_count b t + one_more a links b
  balanced-linked put ledger next b = elim (Bool-cases (b == a)) [
    | inl one ↦
        let here : b ≡ a = eq_of_str_eq _ _ one in
        let now : version_of a t ≡ row'.version = ap version_or_zero put.here in
        let old : version_of a s ≡ e.version = ap version_or_zero owned in
        rw (one, here, ledger) (omega (arith, now, old, next, h.balanced a))
    | inr other ↦
        let apart : b ≢ a = λ q. ground (arith, eq_iff b a) in
        rw (other, ledger) (ap version_or_zero (put.others b apart) ∙ h.balanced b)
  ]

  IsLegal-linked :
      Replaced a s t row'
      → IsLegal row'
      → (b : String) (r : Entitlement) → entitlement_of b t ≡ some r
      → IsLegal r
  IsLegal-linked put legal b r found = elim (Bool-cases (b == a)) [
    | inl one ↦
        let here : b ≡ a = eq_of_str_eq _ _ one in
        let same : row' ≡ r = cc (put.here, ap (λ c. entitlement_of c t) here) in rw (← same) legal
    | inr other ↦
        let apart : b ≢ a = λ q. ground (arith, eq_iff b a) in
        h.legal b r (sym (put.others b apart) ∙ found)
  ]

  -- Sound tables stay sound, with one more such write.
  pub linked-IsSound : IsSound (one_more a links) t
  linked-IsSound =
      let (put, ledger, next, legal) = linked-Replaced in
      record {
        ids = put.ids;
        owners = put.owners;
        legal = IsLegal-linked put legal;
        balanced = balanced-linked put ledger next;
      }

pub one_more-more : (a : String) (links : String → ℕ) (b : String) → links b ≤ one_more a links b
one_more-more a links b = elim (Bool-cases (b == a)) [
  | inl here ↦ rw here (omega arith)
  | inr other ↦ rw other (omega arith)
]
