-- ===== src/Ceremony/RateLimits/Reserving.antt =====
-- The atomic reservation of an attempt never passes its limit.
use town_api.Common.{
  or_else, subst, subst, ℕ, suc, ◌+◌, ◌≤◌, ◌<◌, String, true, Option, none, some, ◌∷◌, ◌≡◌, refl,
  arith, inl, inr, ◌∙◌, Bool-cases, Option-cases, ◌==◌, str_eq_self, leb, ltb,
}
use town_api.Common.Tables.{update_where, find?-update_where}
use town_api.Common.Time.{Timestamp, not_after}
use town_api.Membership.Rows.{RateLimit}
use town_api.Membership.Store.{Store, Outcome, ok, throw}
use town_api.Membership.Audit.{append_identity_security_event}
use town_api.Membership.Run.Effects.{after}
use town_api.Membership.Run.Laws.{store_after}
use town_api.Membership.Store.{Error}
use town_api.Ceremony.RateLimits.Windows.{fail_closed, reserve_bucket}
use town_api.Ceremony.RateLimits.{
  BucketInput, is_bucket, bucket_of, created_bucket, insert_bucket, bucket_violation, incremented,
  same_time,
}
use town_api.Ceremony.RateLimits.Windows.{
  Limiter, Rule, Alarm, Reservation, reserved, throttled, window_of, bucket_input, append_alarm,
  alarm_if, upsert_attempt, settle_reservation, reserve_attempt,
}
use town_api.Ceremony.RateLimits.Counting.{count_of}
use town_api.Ceremony.RateLimits.Laws.{alarm_if-rate_limits}

-- What the statement did.
pub data Upserted (r : Rule) (i : BucketInput) (s : Store) : Option ℕ → Store → Type 0 where
  counted :
      {t : Store}
      → count_of (bucket_of i s) < r.limit
      → count_of (bucket_of i t) ≡ suc (count_of (bucket_of i s))
      → Upserted r i s (some (suc (count_of (bucket_of i s)))) t
  full : {t : Store} → t.rate_limits ≡ s.rate_limits → Upserted r i s none t

inserted-Upserted :
    (r : Rule) (i : BucketInput) (s : Store) (o : Option ℕ) (t : Store) (ms : ℕ)
    → 1 ≤ r.limit
    → i.window_started_at.time ≡ some ms
    → bucket_of i s ≡ none
    → upsert_attempt r i s ≡ ok o t
    → Upserted r i s o t
unfolding upsert_attempt insert_bucket
inserted-Upserted r i s o t ms some_room starts missing run =
    elim (Option-cases (bucket_violation (created_bucket i 1) s)) [
      | inr (c, broken) ↦ absurd (ground arith)
      | inl fine ↦
          let rows : t.rate_limits ≡ created_bucket i 1 ∷ s.rate_limits = ground arith in
          let same : same_time i.window_started_at i.window_started_at ≡ true = ground arith in
          let found : bucket_of i t ≡ some (created_bucket i 1) =
            rw (rows, str_eq_self i.scope, str_eq_self i.subject_hash, same) in
          let empty : count_of (bucket_of i s) ≡ 0 = rw missing in
          let answer : some (suc (count_of (bucket_of i s))) ≡ o = rw missing (ground arith) in
          subst (λ x. Upserted r i s x t) answer
            (counted (omega (arith, empty)) (rw found (omega (arith, empty))))
    ]

updated-Upserted :
    (r : Rule) (i : BucketInput) (s : Store) (b : RateLimit) (o : Option ℕ) (t : Store)
    → bucket_of i s ≡ some b
    → upsert_attempt r i s ≡ ok o t
    → Upserted r i s o t
unfolding upsert_attempt
updated-Upserted r i s b o t found run = elim (Bool-cases (ltb b.attempt_count r.limit)) [
  | inr taken ↦
      let answer : none ≡ o = ground arith in
      subst (λ x. Upserted r i s x t) answer (full (ground arith))
  | inl room ↦ elim (Bool-cases (not_after b.created_at i.created_at)) [
    | inr early ↦ absurd (ground arith)
    | inl later ↦
        let rows : t.rate_limits
            ≡ update_where (λ o. o.id == b.id) (incremented i.created_at) s.rate_limits =
          ground arith in
        let now : bucket_of i t ≡ some (incremented i.created_at b) = rw rows (
          rw (
            find?-update_where (is_bucket i.scope i.subject_hash i.window_started_at)
                (λ o. o.id == b.id) (incremented i.created_at) s.rate_limits (λ x. refl),
            found,
            str_eq_self b.id,
          )) in
        let count : count_of (bucket_of i s) ≡ b.attempt_count = rw found in
        let answer : some (suc (count_of (bucket_of i s))) ≡ o = rw found (ground arith) in
        subst (λ x. Upserted r i s x t) answer
          (counted (ground (arith, count)) (rw now (omega (arith, count))))
  ]
]

-- A reserved attempt is the next one and within the limit, and the bucket counts it; a throttled one
-- is told the limit and changes no bucket.
abbrev pub Reserves : Rule → BucketInput → Store → Reservation → Store → Type 0
Reserves r i s (reserved n) t =
    (n ≤ r.limit) × (n ≡ suc (count_of (bucket_of i s))) × (count_of (bucket_of i t) ≡ n)
Reserves r i s (throttled n) t = (n ≡ r.limit) × (t.rate_limits ≡ s.rate_limits)

append_alarm-rate_limits :
    (l : Limiter) (a : Alarm) (s : Store)
    → (store_after (append_alarm l a s)).rate_limits ≡ s.rate_limits
unfolding append_alarm append_identity_security_event
append_alarm-rate_limits l a s = ground arith

counted-Reserves :
    (l : Limiter) (r : Rule) (alarm : Option String → Alarm) (category : Option String)
    (i : BucketInput) (s t u : Store) (res : Reservation)
    → count_of (bucket_of i s) < r.limit
    → count_of (bucket_of i t) ≡ suc (count_of (bucket_of i s))
    → settle_reservation l r alarm category (some (suc (count_of (bucket_of i s)))) t ≡ ok res u
    → Reserves r i s res u
unfolding settle_reservation
counted-Reserves l r alarm category i s t u res room next run =
    after (alarm_if l (leb r.limit (suc (count_of (bucket_of i s)))) (alarm category)) _ t run
      λ x v alarmed last.
        let rows : v.rate_limits ≡ t.rate_limits =
          alarm_if-rate_limits l _ (alarm category) t alarmed in
        let here : v ≡ u = ground arith in
        let told : reserved (suc (count_of (bucket_of i s))) ≡ res = ground arith in
        subst (λ y. Reserves r i s y u) told (omega (arith, room), refl, rw (← here) (rw rows next))

full-Reserves :
    (l : Limiter) (r : Rule) (alarm : Option String → Alarm) (category : Option String)
    (i : BucketInput) (s t u : Store) (res : Reservation)
    → t.rate_limits ≡ s.rate_limits
    → settle_reservation l r alarm category none t ≡ ok res u
    → Reserves r i s res u
unfolding settle_reservation
full-Reserves l r alarm category i s t u res same run =
    after (append_alarm l (alarm (some (or_else category "rate_limited")))) _ t run
      λ x v alarmed last.
        let rows : v.rate_limits ≡ t.rate_limits =
          rw (store_after, alarmed) at
            (append_alarm-rate_limits l (alarm (some (or_else category "rate_limited"))) t) in
        let here : v ≡ u = ground arith in
        let told : throttled r.limit ≡ res = ground arith in
        subst (λ y. Reserves r i s y u) told (refl, rw (← here) (rows ∙ same))

settle-Reserves :
    (l : Limiter) (r : Rule) (alarm : Option String → Alarm) (category : Option String)
    (i : BucketInput) (s t u : Store) (o : Option ℕ) (res : Reservation)
    → Upserted r i s o t
    → settle_reservation l r alarm category o t ≡ ok res u
    → Reserves r i s res u
settle-Reserves l r alarm category i s t u o res (counted room next) run =
    counted-Reserves l r alarm category i s t u res room next run
settle-Reserves l r alarm category i s t u o res (full same) run =
    full-Reserves l r alarm category i s t u res same run

upsert-Upserted :
    (r : Rule) (i : BucketInput) (s : Store) (o : Option ℕ) (t : Store) (ms : ℕ)
    → 1 ≤ r.limit
    → i.window_started_at.time ≡ some ms
    → upsert_attempt r i s ≡ ok o t
    → Upserted r i s o t
upsert-Upserted r i s o t ms some_room starts run = elim (Option-cases (bucket_of i s)) [
  | inl missing ↦ inserted-Upserted r i s o t ms some_room starts missing run
  | inr (b, found) ↦ updated-Upserted r i s b o t found run
]

-- A statement that raises an error leaves the tables.
upsert-throw :
    (r : Rule) (i : BucketInput) (s : Store) {e : Error} {t : Store}
    → upsert_attempt r i s ≡ throw e t
    → t.rate_limits ≡ s.rate_limits
unfolding upsert_attempt insert_bucket
upsert-throw r i s h = ground arith

closed-Reserves :
    (l : Limiter) (r : Rule) (alarm : Option String → Alarm) (category : Option String)
    (i : BucketInput) (s t u : Store) (res : Reservation)
    → t.rate_limits ≡ s.rate_limits
    → fail_closed l r alarm category t ≡ ok res u
    → Reserves r i s res u
closed-Reserves l r alarm category i s t u res same run =
    by_outcome (append_alarm l (alarm (some (or_else category "rate_limited"))) t)
      (append_alarm-rate_limits l (alarm (some (or_else category "rate_limited"))) t) run
  where
    by_outcome :
        (o : Outcome (Unit {0}))
        → (store_after o).rate_limits ≡ t.rate_limits
        → (elim o [ ok x v ↦ ok (throttled r.limit) v | throw e v ↦ ok (throttled r.limit) v ])
          ≡ ok res u
        → Reserves r i s res u
    by_outcome (ok x v) rows q =
        let here : v ≡ u = ground arith in
        let told : throttled r.limit ≡ res = ground arith in
        subst (λ y. Reserves r i s y u) told (refl, rw (← here) (rows ∙ same))
    by_outcome (throw e v) rows q =
        let here : v ≡ u = ground arith in
        let told : throttled r.limit ≡ res = ground arith in
        subst (λ y. Reserves r i s y u) told (refl, rw (← here) (rows ∙ same))

reserve_bucket-Reserves :
    (l : Limiter) (r : Rule) (i : BucketInput) (alarm : Option String → Alarm)
    (category : Option String) (s u : Store) (res : Reservation) (ms : ℕ)
    → 1 ≤ r.limit
    → i.window_started_at.time ≡ some ms
    → reserve_bucket l r i alarm category s ≡ ok res u
    → Reserves r i s res u
reserve_bucket-Reserves l r i alarm category s u res ms some_room starts run =
    by_outcome (upsert_attempt r i s) refl run
  where
    by_outcome :
        (o : Outcome (Option ℕ))
        → upsert_attempt r i s ≡ o
        → (elim o [
          | ok n t ↦ settle_reservation l r alarm category n t
          | throw e t ↦ fail_closed l r alarm category t
        ])
          ≡ ok res u
        → Reserves r i s res u
    by_outcome (ok n t) ran q =
        settle-Reserves l r alarm category i s t u n res
          (upsert-Upserted r i s n t ms some_room starts ran) q
    by_outcome (throw e t) ran q =
        closed-Reserves l r alarm category i s t u res (upsert-throw r i s ran) q

-- Reservations keep within the limit. Where the limit is not zero, a reservation that returns either
-- was reserved, as the next attempt of its window after those that its bucket counted, within the
-- limit, and the bucket counts it afterwards; or it was throttled, is told the limit, and changed no
-- bucket, also where the statement or its alarm raised an error.
pub reserve_attempt-Reserves :
    (l : Limiter) (r : Rule) (now start end : Timestamp) (alarm : Option String → Alarm)
    (category : Option String) (s u : Store) (res : Reservation) (ms : ℕ)
    → 1 ≤ r.limit
    → window_of l r now ≡ some (start, end)
    → start.time ≡ some ms
    → reserve_attempt l r now alarm category s ≡ ok res u
    → Reserves r (bucket_input l r now (l.random_uuid s.drawn) (start, end)) s res u
unfolding reserve_attempt
reserve_attempt-Reserves l r now start end alarm category s u res ms some_room window starts run =
    reserve_bucket-Reserves l r (bucket_input l r now (l.random_uuid s.drawn) (start, end)) alarm
      category (record s { drawn = s.drawn + 1 }) u res ms some_room starts
      (rw (reserve_attempt, window) at run)
