-- ===== src/Membership/Run/Soundness.antt =====
-- A transition keeps the membership tables sound.
use mathlib.Core.Option
use town_api.Common.{
  String, false, Option, none, some, List, ◌∷◌, ◌≡◌, ◌≢◌, refl, sym, ap, arith, inl, inr, ◌∙◌,
  Option-cases, Bool-cases, ◌==◌, if◌then◌else◌, eq_iff, str_eq_self, eq_of_str_eq,
}
use town_api.Common.Tables.{
  find?, any, update_where, find?-update_where, find?-sound, find?-unique, Distinct,
  Distinct-update_where,
}
use town_api.Common.Time.{Timestamp}
use town_api.Membership.Rows.{Entitlement}
use town_api.Membership.Store.{Store, entitlement_checks}
use town_api.Membership.Repositories.{Mutation, rewritten, entitlement_of, insert_violation}
use town_api.Membership.Run.{Session, created}
use town_api.Membership.Run.Effects.{Written, inserted, updated}
use town_api.Membership.Invariant.{IsLegal}

-- What was written for the account: its row is `e` now, and the others are as before.
pub record Replaced (account_id : String) (s t : Store) (e : Entitlement) : Type 0 where
  pub here : entitlement_of account_id t ≡ some e
  pub others : (b : String) → b ≢ account_id → entitlement_of b t ≡ entitlement_of b s
  pub ids : Distinct (λ r. r.id) t.entitlements
  pub owners : Distinct (λ r. r.account_id) t.entitlements

ne-false : (a b : String) → a ≢ b → (b == a) ≡ false
ne-false a b h = ground (arith, eq_iff b a)

update-finds :
    (m : Mutation) (at : Timestamp) (b id : String) (xs : List Entitlement)
    → find? (λ e. e.account_id == b) (update_where (λ r. r.id == id) (rewritten m at) xs)
      ≡ Option.map
          (λ y. if y.id == id then rewritten m at y else y)
          (find? (λ e. e.account_id == b) xs)
unfolding rewritten
update-finds m at b id xs =
    find?-update_where (λ e. e.account_id == b) (λ r. r.id == id) (rewritten m at) xs (λ x. refl)

update-finds_self :
    (m : Mutation) (at : Timestamp) (a : String) (p : Entitlement) (xs : List Entitlement)
    → find? (λ e. e.account_id == a) xs ≡ some p
    → find? (λ e. e.account_id == a) (update_where (λ r. r.id == p.id) (rewritten m at) xs)
      ≡ some (rewritten m at p)
update-finds_self m at a p xs found =
    rw (update-finds m at a p.id xs, found) (rw (str_eq_self p.id))

update-finds_other :
    (m : Mutation) (at : Timestamp) (a b : String) (p : Entitlement) (xs : List Entitlement)
    → Distinct (λ r. r.id) xs
    → find? (λ e. e.account_id == a) xs ≡ some p
    → b ≢ a
    → find? (λ e. e.account_id == b) (update_where (λ r. r.id == p.id) (rewritten m at) xs)
      ≡ find? (λ e. e.account_id == b) xs
update-finds_other m at a b p xs ids found other =
    rw (update-finds m at b p.id xs) (elim (Option-cases (find? (λ e. e.account_id == b) xs)) [
      | inl missing ↦ rw missing
      | inr (y, present) ↦ rw present (elim (Bool-cases (y.id == p.id)) [
        | inr apart ↦ rw apart
        | inl one ↦
            let same : y ≡ p =
              find?-unique (λ r. r.id) (λ e. e.account_id == b) (λ e. e.account_id == a) xs ids
                present found (eq_of_str_eq y.id p.id one) in
            let at_b =
              eq_of_str_eq y.account_id b (find?-sound (λ e. e.account_id == b) xs present) in
            let at_a =
              eq_of_str_eq p.account_id a (find?-sound (λ e. e.account_id == a) xs found) in
            absurd (other (sym at_b ∙ ap (λ r. r.account_id) same ∙ at_a))
      ])
    ])

fresh_of_insert :
    (e : Entitlement) (s : Store)
    → insert_violation e s ≡ none
    → (any (λ r. r.id == e.id) s.entitlements ≡ false)
      × (any (λ r. r.account_id == e.account_id) s.entitlements ≡ false)
unfolding insert_violation entitlement_checks
fresh_of_insert e s h = (ground arith, ground arith)

-- The update of an account's row by its identifier.
pub updated-Replaced :
    (a : String) (at : Timestamp) (m : Mutation) (s t : Store) (e previous row : Entitlement)
    → entitlement_of a s ≡ some previous
    → find? (λ r. r.id == previous.id) s.entitlements ≡ some row
    → e ≡ rewritten m at row
    → t.entitlements ≡ update_where (λ r. r.id == previous.id) (rewritten m at) s.entitlements
    → Distinct (λ r. r.id) s.entitlements
    → Distinct (λ r. r.account_id) s.entitlements
    → Replaced a s t e
unfolding rewritten
updated-Replaced a at m s t e previous row owned found made rows ids owners =
    let same_id : row.id ≡ previous.id =
      eq_of_str_eq row.id previous.id
        (find?-sound (λ r. r.id == previous.id) s.entitlements found) in
    let same : row ≡ previous =
      find?-unique (λ r. r.id) (λ r. r.id == previous.id) (λ r. r.account_id == a) s.entitlements
        ids found owned same_id in
    record {
      here = rw rows (rw (made, same) (update-finds_self m at a previous s.entitlements owned));
      others =
          λ b other. rw rows (update-finds_other m at a b previous s.entitlements ids owned other);
      ids = rw rows (
          Distinct-update_where (λ r. r.id) (λ r. r.id == previous.id) (rewritten m at)
            s.entitlements (λ x. refl) ids);
      owners = rw rows (
          Distinct-update_where (λ r. r.account_id) (λ r. r.id == previous.id) (rewritten m at)
            s.entitlements (λ x. refl) owners);
    }

module _ (j : Session) (m : Mutation) (s t : Store) (e : Entitlement) where
  inserted-Replaced :
      (id : String)
      → e ≡ created j id m
      → t.entitlements ≡ e ∷ s.entitlements
      → insert_violation e s ≡ none
      → Distinct (λ r. r.id) s.entitlements
      → Distinct (λ r. r.account_id) s.entitlements
      → Replaced j.input.account_id s t e
  inserted-Replaced id made rows fine ids owners =
      let (new_id, new_owner) = fresh_of_insert e s fine in
      let owner : e.account_id ≡ j.input.account_id = ap (λ r. r.account_id) made in
      record {
        here = rw rows (rw (owner, str_eq_self j.input.account_id));
        others = λ b other. rw rows (rw owner (rw (ne-false b j.input.account_id other)));
        ids = rw rows (new_id, ids);
        owners = rw rows (new_owner, owners);
      }

  pub Written-Replaced :
      (previous : Option Entitlement)
      → entitlement_of j.input.account_id s ≡ previous
      → Written j m s t e previous
      → Distinct (λ r. r.id) s.entitlements
      → Distinct (λ r. r.account_id) s.entitlements
      → Replaced j.input.account_id s t e
  Written-Replaced previous owned (inserted id made rows fine) ids owners =
      inserted-Replaced id made rows fine ids owners
  Written-Replaced previous owned (updated p row found made rows fine) ids owners =
      updated-Replaced j.input.account_id j.processed_at m s t e p row owned found made rows ids
        owners

  -- The columns of a written row are those of the mutation.
  pub Written-columns :
      (previous : Option Entitlement)
      → Written j m s t e previous
      → (e.status ≡ m.status)
        × (e.version ≡ m.version)
        × (e.access_until ≡ m.access_until)
        × (e.source ≡ m.source)
  unfolding rewritten
  Written-columns previous (inserted id made rows fine) =
      (ground arith, ground arith, ground arith, ground arith)
  Written-columns previous (updated p row found made rows fine) =
      (ground arith, ground arith, ground arith, ground arith)

  pub Written-IsLegal :
      (previous : Option Entitlement)
      → Written j m s t e previous
      → ((row : Entitlement) → IsLegal (rewritten m j.processed_at row))
      → IsLegal e
  unfolding rewritten
  Written-IsLegal previous (inserted id made rows fine) legal = rw made (record {
    checked = (legal (created j id m)).checked;
    was_activated = (legal (created j id m)).was_activated;
  })
  Written-IsLegal previous (updated p row found made rows fine) legal = rw made (legal row)
