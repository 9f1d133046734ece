-- ===== src/Membership/Binding/Laws.antt =====
-- What the binding of an actor guarantees.
use town_api.Common.{
  String, Bool, true, false, Option, none, some, List, ◌≡◌, ◌≢◌, refl, sym, ap, ◌∙◌, arith, ◌⊎◌,
  inl, inr, ◌==◌, eq_iff, str_eq_self, Bool-cases, Option-cases, if◌then◌else◌,
}
use mathlib.Core.Option
use town_api.Common.Tables.{
  find?, update_where, Distinct, find?-update_where, find?-unique, find?-sound,
}
use town_api.Common.Time.{Timestamp}
use town_api.Membership.Rows.{Account}
use town_api.Membership.Access.{Actor, eligible, unavailable, default_local_eligibility}
use town_api.Membership.Binding.{
  ActorRow, is_actor_of, find_active_civic_actor_by_account_id, BindInput, BindResult, bound,
  bind_row, has_id, bind_actor_local_eligibility, bind_result, bind_now, keep_binding, bind_actor,
  bind_local_eligibility_in_transaction,
}

abbrev pub actor_of : String → List ActorRow → Option Actor
actor_of account_id rows =
    Option.map (λ r. r.actor) (find_active_civic_actor_by_account_id account_id rows)

abbrev pub account_with : String → List Account → Option Account
account_with account_id accounts = find? (λ a. a.id == account_id) accounts

-- What a binding that succeeds did.
data Bound (i : BindInput) (locked : Account) (r : ActorRow) (rows rows' : List ActorRow)
    : Timestamp → Type 0 where
  kept :
      (v : Timestamp)
      → r.actor.community_id ≡ some i.community.id
      → r.actor.local_eligibility_verified_at ≡ some v
      → rows' ≡ rows
      → Bound i locked r rows rows' v
  written :
      (r.actor.community_id ≡ none) ⊎ (locked.is_owner ≡ true)
      → rows' ≡ update_where (has_id r.actor.id) (bind_row i.community.id i.now) rows
      → Bound i locked r rows rows' i.now

module _ (to_iso_timestamp : Timestamp → String) where
  now-Bound :
      (i : BindInput) (locked : Account) (r : ActorRow) (rows rows' : List ActorRow)
      (b : BindResult)
      → ((r.actor.community_id ≡ none) ⊎ (locked.is_owner ≡ true))
      → bind_now to_iso_timestamp i r rows ≡ bound b rows'
      → (v : Timestamp) × Bound i locked r rows rows' v
        × (b ≡ bind_result to_iso_timestamp i.community v)
  unfolding bind_now bind_actor_local_eligibility
  now-Bound i locked r rows rows' b free h = (i.now, written free (ground arith), ground arith)

  bind_actor-Bound :
      (i : BindInput) (locked : Account) (r : ActorRow) (rows rows' : List ActorRow)
      (b : BindResult)
      → bind_actor to_iso_timestamp i locked r rows ≡ bound b rows'
      → (v : Timestamp) × Bound i locked r rows rows' v
        × (b ≡ bind_result to_iso_timestamp i.community v)
  unfolding bind_actor keep_binding
  bind_actor-Bound i locked r rows rows' b h = elim (Option-cases r.actor.community_id) [
    | inl unbound ↦ now-Bound i locked r rows rows' b (inl unbound) (rw unbound at h)
    | inr (c, chosen) ↦ elim (Bool-cases (c == i.community.id)) [
      | inl here ↦ elim (Option-cases r.actor.local_eligibility_verified_at) [
        | inl missing ↦ absurd (ground arith)
        | inr (v, verified) ↦ (
          v,
          kept v (chosen ∙ ap some ((eq_iff c i.community.id).0 here)) verified (ground arith),
          ground arith,
        )
      ]
      | inr elsewhere ↦ elim (Bool-cases locked.is_owner) [
        | inl owner ↦
            now-Bound i locked r rows rows' b (inr owner) (rw (chosen, elsewhere, owner) at h)
        | inr member ↦ absurd (ground arith)
      ]
    ]
  ]

  bind-Bound :
      (accounts : List Account) (i : BindInput) (rows rows' : List ActorRow) (b : BindResult)
      → bind_local_eligibility_in_transaction to_iso_timestamp accounts i rows ≡ bound b rows'
      → (locked : Account) × (r : ActorRow) × (v : Timestamp) × (account_with i.account_id accounts
          ≡ some locked)
        × (find_active_civic_actor_by_account_id i.account_id rows ≡ some r)
        × Bound i locked r rows rows' v
        × (b ≡ bind_result to_iso_timestamp i.community v)
  unfolding bind_local_eligibility_in_transaction
  bind-Bound accounts i rows rows' b h = elim (Option-cases (account_with i.account_id accounts)) [
    | inl unknown ↦ absurd (ground arith)
    | inr (locked, known) ↦
        elim (Option-cases (find_active_civic_actor_by_account_id i.account_id rows)) [
          | inl unlinked ↦ absurd (ground arith)
          | inr (r, linked) ↦
              let (v, done, answer) = bind_actor-Bound i locked r rows rows' b (ground arith) in
              (locked, r, v, known, linked, done, answer)
        ]
  ]

keeps_account :
    (account_id community_id : String) (now : Timestamp) (r : ActorRow)
    → is_actor_of account_id (bind_row community_id now r) ≡ is_actor_of account_id r
keeps_account account_id community_id now r = refl

-- The actor of an account after the row of `r` was bound.
found-written :
    (i : BindInput) (r : ActorRow) (rows : List ActorRow) (b : String)
    → find_active_civic_actor_by_account_id b
        (update_where (has_id r.actor.id) (bind_row i.community.id i.now) rows)
      ≡ Option.map
          (λ x. if has_id r.actor.id x then bind_row i.community.id i.now x else x)
          (find_active_civic_actor_by_account_id b rows)
found-written i r rows b =
    find?-update_where (is_actor_of b) (has_id r.actor.id) (bind_row i.community.id i.now) rows
      (λ x. refl)

found_here :
    (i : BindInput) (r : ActorRow) (rows : List ActorRow)
    → find_active_civic_actor_by_account_id i.account_id rows ≡ some r
    → find_active_civic_actor_by_account_id i.account_id
        (update_where (has_id r.actor.id) (bind_row i.community.id i.now) rows)
      ≡ some (bind_row i.community.id i.now r)
found_here i r rows linked =
    rw (found-written i r rows i.account_id, linked, str_eq_self r.actor.id) refl

owner_of_found :
    (a : String) (rows : List ActorRow) (r : ActorRow)
    → find_active_civic_actor_by_account_id a rows ≡ some r
    → r.actor.account_id ≡ some a
owner_of_found a rows r linked =
    let passes = find?-sound (is_actor_of a) rows linked in
    elim (Option-cases r.actor.account_id) [
      | inl none_set ↦ absurd (ground arith)
      | inr (t, set) ↦
          let same : (t == a) ≡ true = ground arith in set ∙ ap some ((eq_iff t a).0 same)
    ]

found_elsewhere :
    (i : BindInput) (r : ActorRow) (rows : List ActorRow) (b : String)
    → Distinct (λ x. x.actor.id) rows
    → find_active_civic_actor_by_account_id i.account_id rows ≡ some r
    → b ≢ i.account_id
    → find_active_civic_actor_by_account_id b
        (update_where (has_id r.actor.id) (bind_row i.community.id i.now) rows)
      ≡ find_active_civic_actor_by_account_id b rows
found_elsewhere i r rows b d linked other =
    elim (Option-cases (find_active_civic_actor_by_account_id b rows)) [
      | inl missing ↦ rw (found-written i r rows b, missing) refl
      | inr (x, found) ↦ elim (Bool-cases (x.actor.id == r.actor.id)) [
        | inr apart ↦ rw (found-written i r rows b, found, apart) refl
        | inl clash ↦
            let one : x ≡ r =
              find?-unique (λ y. y.actor.id) (is_actor_of b) (is_actor_of i.account_id) rows d found
                linked ((eq_iff x.actor.id r.actor.id).0 clash) in
            absurd (
              other (
                some_injective (
                  sym (owner_of_found b rows x found)
                  ∙ ap (λ y. y.actor.account_id) one
                  ∙ owner_of_found i.account_id rows r linked)))
      ]
    ]
  where
    some_injective : {a b : String} → some a ≡ some b → a ≡ b
    some_injective h = cc

eligible_now :
    (i : BindInput) (r : ActorRow) (rows : List ActorRow)
    → find_active_civic_actor_by_account_id i.account_id rows ≡ some r
    → r.actor.community_id ≡ some i.community.id
    → r.actor.local_eligibility_verified_at ≢ none
    → default_local_eligibility true (actor_of i.account_id rows) i.community.id ≡ eligible
unfolding default_local_eligibility
eligible_now i r rows linked chosen verified =
    rw linked (ground (arith, str_eq_self i.community.id))

-- What a binding did makes the actor eligible and leaves the others.
Bound-eligible :
    (i : BindInput) (locked : Account) (r : ActorRow) (rows rows' : List ActorRow) (v : Timestamp)
    (a : String)
    → Distinct (λ x. x.actor.id) rows
    → a ≢ i.account_id
    → find_active_civic_actor_by_account_id i.account_id rows ≡ some r
    → Bound i locked r rows rows' v
    → (default_local_eligibility true (actor_of i.account_id rows') i.community.id ≡ eligible)
      × (actor_of a rows' ≡ actor_of a rows)
Bound-eligible i locked r rows rows' v a d other linked (kept v' chosen verified same) =
    (rw same (eligible_now i r rows linked chosen (λ q. cc (q, verified))), rw same refl)
Bound-eligible i locked r rows rows' v a d other linked (written free update) = (
  rw update (
      eligible_now i (bind_row i.community.id i.now r)
        (update_where (has_id r.actor.id) (bind_row i.community.id i.now) rows)
        (found_here i r rows linked) refl (λ q. cc (q))),
  rw update (ap (λ o. Option.map (λ x. x.actor) o) (found_elsewhere i r rows a d linked other)),
)

Bound-set_once :
    (i : BindInput) (locked : Account) (r : ActorRow) (rows rows' : List ActorRow) (v : Timestamp)
    (c : String)
    → locked.is_owner ≡ false
    → r.actor.community_id ≡ some c
    → Bound i locked r rows rows' v
    → (c ≡ i.community.id) × (rows' ≡ rows)
Bound-set_once i locked r rows rows' v c member chosen (kept v' chosen' verified same) =
    (cc (chosen, chosen'), same)
Bound-set_once i locked r rows rows' v c member chosen (written (inl unbound) update) =
    absurd (cc (unbound, chosen))
Bound-set_once i locked r rows rows' v c member chosen (written (inr owner) update) =
    absurd (cc (owner, member))

module _ (to_iso_timestamp : Timestamp → String) (accounts : List Account) (i : BindInput)
    (rows rows' : List ActorRow) (b : BindResult) where
  -- After a binding that succeeds, the default resolver finds the account's actor eligible in that
  -- community where local eligibility is enabled, and answers `unavailable` where it is not; and the
  -- actor of every other account `a` is as before. (No two actors share an identifier.)
  pub bind-eligible :
      (enabled : Bool) (a : String)
      → Distinct (λ r. r.actor.id) rows
      → a ≢ i.account_id
      → bind_local_eligibility_in_transaction to_iso_timestamp accounts i rows ≡ bound b rows'
      → (default_local_eligibility enabled (actor_of i.account_id rows') i.community.id
          ≡ (if enabled then eligible else unavailable))
        × (actor_of a rows' ≡ actor_of a rows)
  unfolding default_local_eligibility
  bind-eligible enabled a d other h =
      let (locked, r, v, known, linked, done, answer) =
        bind-Bound to_iso_timestamp accounts i rows rows' b h in
      let (now_eligible, others) = Bound-eligible i locked r rows rows' v a d other linked done in
      (elim (Bool-cases enabled) [ inl on ↦ rw on now_eligible | inr off ↦ rw off refl ], others)

  -- The community is set once: where the actor of an account that is not an owner is in the community
  -- `c`, a binding succeeds only if it asks for `c`, and changes nothing.
  pub bind-set_once :
      (locked : Account) (r : ActorRow) (c : String)
      → account_with i.account_id accounts ≡ some locked
      → locked.is_owner ≡ false
      → find_active_civic_actor_by_account_id i.account_id rows ≡ some r
      → r.actor.community_id ≡ some c
      → bind_local_eligibility_in_transaction to_iso_timestamp accounts i rows ≡ bound b rows'
      → (c ≡ i.community.id) × (rows' ≡ rows)
  bind-set_once locked r c known member linked chosen h =
      let (locked', r', v, known', linked', done, answer) =
        bind-Bound to_iso_timestamp accounts i rows rows' b h in
      let one : locked' ≡ locked = injective (sym known' ∙ known) in
      let two : r' ≡ r = injective (sym linked' ∙ linked) in
      Bound-set_once i locked' r' rows rows' v c (ap (λ x. x.is_owner) one ∙ member)
        (ap (λ x. x.actor.community_id) two ∙ chosen) done
    where
      injective : {A : Type 0} {x y : A} → some x ≡ some y → x ≡ y
      injective q = ground arith
