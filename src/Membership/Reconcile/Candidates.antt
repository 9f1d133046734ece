-- ===== src/Membership/Reconcile/Candidates.antt =====
-- The SQL filter of the candidates agrees with the validation of the expire transition.
use town_api.Common.{
  String, ℕ, ◌≤◌, ◌<◌, ◌/◌, Bool, ltb, leb, Bool-cases, true, false, none, some, ◌≡◌, sym, ◌∙◌,
  arith, ◌↔◌, inl, inr, ◌==◌, Option-cases, List,
}
use town_api.Common.Tables.{filter, length}
use town_api.Common.Rows.{
  take, order_by, Contains, Contains-filter, Contains-order_by, length-order_by, take_all,
  Contains-find?, find?-Contains,
}
use town_api.Common.Time.{Timestamp, before, instant_not_after}
use town_api.Membership.Rows.{Entitlement}
use town_api.Membership.Store.{Store, ok}
use town_api.Membership.Repositories.{entitlement_of}
use town_api.Membership.Transitions.Input.{Context, accept}
use town_api.Membership.Transitions.Active.{active_or_cancelling}
use town_api.Membership.Transitions.Ending.{expire_validate}
use town_api.Membership.Invariant.{IsLegal, IsSound}
use town_api.Membership.Reconcile.{
  is_due, is_candidate, ends_before, find_expired_membership_candidates,
}

-- A text that is not empty and that both read: `Date` drops the microseconds.
abbrev pub IsReadable : Timestamp → Type 0
IsReadable t =
    ((t.text == "") ≡ false) × ((n : ℕ) × (t.instant ≡ some n) × (t.time ≡ some (n / 1000)))

-- The access ends after `now`, but within the same millisecond.
abbrev pub EndsWithin : Timestamp → Entitlement → Type 0
EndsWithin now e =
    (until : Timestamp) × (n : ℕ) × (k : ℕ) × (e.access_until ≡ some until)
    × (until.instant ≡ some n)
    × (now.instant ≡ some k)
    × (k < n)
    × (n / 1000 ≡ k / 1000)

legal-unexpired :
    (e : Entitlement) → IsLegal e → active_or_cancelling e.status ≡ true → e.expired_at ≡ none
legal-unexpired e legal running = let h = legal.checked in ground arith

-- What the query finds ended, the transition finds ended.
ended-before :
    (until now : Timestamp)
    → IsReadable until
    → IsReadable now
    → instant_not_after until now ≡ true
    → before now until ≡ false
ended-before until now (real, (n, read, timed)) (real', (k, read', timed')) h = ground arith

-- What the transition finds ended, the query finds ended, but for the rest of the millisecond.
before-ended :
    (until now : Timestamp) (e : Entitlement)
    → IsReadable until
    → IsReadable now
    → e.access_until ≡ some until
    → before now until ≡ false
    → ¬ EndsWithin now e
    → instant_not_after until now ≡ true
before-ended until now e (real, (n, read, timed)) (real', (k, read', timed')) set h apart =
    elim (Bool-cases (leb n k)) [
      | inl ended ↦ rw (read, read') ended
      | inr later ↦
          let ms : ltb (k / 1000) (n / 1000) ≡ false = rw (timed, timed') at h in
          absurd (apart (until, n, k, set, read, read', ground arith, ground arith))
    ]

not_within :
    (until now : Timestamp) (e : Entitlement)
    → e.access_until ≡ some until
    → instant_not_after until now ≡ true
    → ¬ EndsWithin now e
not_within until now e set ended (other, n, k, set', read, read', later, same) =
    let one : until ≡ other = ground arith in
    let due = rw (one, read, read') at ended in ground arith

module _ (now : Timestamp) (e : Entitlement) (ctx : Context) (known : ctx.entitlement ≡ some e)
    (at : ctx.input.effective_at ≡ now) (legal : IsLegal e) where
  due-accepted :
      (until : Timestamp)
      → e.access_until ≡ some until
      → (until.text == "") ≡ false
      → (instant_not_after until now ≡ true → before now until ≡ false)
      → is_due now e ≡ true
      → expire_validate ctx ≡ accept
  unfolding is_due expire_validate
  due-accepted until set real times due =
      let unexpired : e.expired_at ≡ none = legal-unexpired e legal (ground arith) in
      let ended : instant_not_after until now ≡ true = ground arith in
      let late = times ended in rw known (ground arith)

  accepted-ended :
      (until : Timestamp)
      → e.access_until ≡ some until
      → (until.text == "") ≡ false
      → expire_validate ctx ≡ accept
      → before now until ≡ false
  unfolding expire_validate
  accepted-ended until set real accepted = ground arith

  accepted-due :
      (until : Timestamp)
      → e.access_until ≡ some until
      → instant_not_after until now ≡ true
      → expire_validate ctx ≡ accept
      → is_due now e ≡ true
  unfolding is_due expire_validate
  accepted-due until set ended accepted = ground arith

  pub due-accept :
      IsReadable now
      → ((until : Timestamp) → e.access_until ≡ some until → IsReadable until)
      → (is_due now e ≡ true) ↔ ((expire_validate ctx ≡ accept) × ¬ EndsWithin now e)
  unfolding is_due expire_validate
  due-accept clear readable = elim (Option-cases e.access_until) [
    | inl unset ↦ ((λ due. absurd (ground arith)), (λ (accepted, apart). absurd (ground arith)))
    | inr (until, set) ↦
        let r = readable until set in
        (
          λ due. (
            due-accepted until set r.0 (ended-before until now r clear) due,
            not_within until now e set (ground arith),
          ),
          λ (accepted, apart).
              accepted-due until set
                (before-ended until now e r clear set (accepted-ended until set r.0 accepted) apart)
                accepted,
        )
  ]

candidate_iff :
    (locked : Entitlement → Bool) (now : Timestamp) (e : Entitlement)
    → (is_candidate locked now e ≡ true) ↔ ((is_due now e ≡ true) × (locked e ≡ false))
unfolding is_candidate
candidate_iff locked now e = ((λ h. (ground arith, ground arith)), (λ (due, free). ground arith))

returned :
    (locked : Entitlement → Bool) (now : Timestamp) (batch_size : ℕ) (s t : Store)
    (rows : List Entitlement)
    → find_expired_membership_candidates locked now batch_size s ≡ ok rows t
    → take (order_by ends_before (filter (is_candidate locked now) s.entitlements)) batch_size
      ≡ rows
unfolding find_expired_membership_candidates
returned locked now batch_size s t rows h = elim (Option-cases now.instant) [
  | inl unread ↦ absurd (cc (rw (find_expired_membership_candidates, unread) at h))
  | inr (instant, read) ↦ answered (rw (find_expired_membership_candidates, read) at h)
]
  where
    answered : {A : Type 0} {a b : A} {u v : Store} → ok a u ≡ ok b v → a ≡ b
    answered q = ground arith

-- Where no more rows are due and unlocked than the batch takes, a row `e` is a candidate on sound tables
-- exactly when it is the entitlement of its account, no other session has locked it, and the expire
-- transition accepts it at that time, unless its access ends later within the very millisecond of that
-- time. (The time and the row's access are texts that `Date` and PostgreSQL read as the same date, up
-- to the microseconds that `Date` drops.)
pub find_expired_membership_candidates_iff :
    {links : String → ℕ} (locked : Entitlement → Bool) (now : Timestamp) (batch_size : ℕ)
    (s t : Store) (rows : List Entitlement) (e : Entitlement) (ctx : Context)
    → IsSound links s
    → length (filter (is_candidate locked now) s.entitlements) ≤ batch_size
    → IsReadable now
    → ((until : Timestamp) → e.access_until ≡ some until → IsReadable until)
    → ctx.entitlement ≡ some e
    → ctx.input.effective_at ≡ now
    → find_expired_membership_candidates locked now batch_size s ≡ ok rows t
    → Contains e rows ↔ (
        (entitlement_of e.account_id s ≡ some e)
        × (locked e ≡ false)
        × (expire_validate ctx ≡ accept)
        × ¬ EndsWithin now e)
find_expired_membership_candidates_iff locked now batch_size s t rows e ctx h fits clear readable
      known at run =
    let due = filter (is_candidate locked now) s.entitlements in
    let all : order_by ends_before due ≡ rows =
      sym
        (take_all (order_by ends_before due) batch_size (rw (length-order_by ends_before due) fits))
      ∙ returned locked now batch_size s t rows run in
    let ordered = Contains-order_by ends_before due e in
    let filtered = Contains-filter (is_candidate locked now) s.entitlements e in
    let free = candidate_iff locked now e in
    (
      λ there.
          let (listed, chosen) = filtered.0 (ordered.0 (rw all there)) in
          let (is_it_due, unlocked) = free.0 chosen in
          let row = find?-Contains (λ r. r.account_id) s.entitlements e h.owners listed in
          let (accepted, apart) =
            (due-accept now e ctx known at (h.legal e.account_id e row) clear readable).0
              is_it_due in
          (row, unlocked, accepted, apart),
      λ (row, unlocked, accepted, apart). rw (← all) (
          ordered.1 (
            filtered.1 (
              Contains-find? (λ r. r.account_id == e.account_id) s.entitlements e row,
              free.1 (
                (due-accept now e ctx known at (h.legal e.account_id e row) clear readable).1
                    (accepted, apart),
                unlocked,
              ),
            ))),
    )
