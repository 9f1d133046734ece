-- ===== src/Ceremony/RateLimits/Buckets.antt =====
-- The repository of the buckets (ceremony/repositories/ceremony-rate-limits.ts).
use town_api.Common.{
  ℕ, ◌<◌, String, Bool, true, Option, none, some, ◌∷◌, ◌≡◌, ◌↔◌, refl, ap, arith, inl, inr, ◌∙◌,
  Option-cases, Bool-cases, ◌==◌, str_eq_self,
}
use town_api.Common.Tables.{update_where, find?-update_where, find?-sound}
use town_api.Common.Time.{Timestamp, not_after}
use town_api.Membership.Rows.{RateLimit}
use town_api.Membership.Store.{Store, ok}
use town_api.Ceremony.RateLimits.{
  BucketInput, bucket_of, created_bucket, insert_bucket, bucket_violation, input_error, same_time,
  get_or_create_ceremony_rate_limit_bucket, find_bucket, update_bucket,
  set_ceremony_rate_limit_blocked_until, is_ceremony_rate_limit_blocked, before_end, blocked,
}

inserted-found :
    (i : BucketInput) (s t : Store) (b : RateLimit) (ms : ℕ)
    → i.window_started_at.time ≡ some ms
    → insert_bucket (created_bucket i 0) s ≡ ok b t
    → bucket_of i t ≡ some b
unfolding insert_bucket
inserted-found i s t b ms starts run =
    let made : b ≡ created_bucket i 0 = ground arith in
    let rows : t.rate_limits ≡ created_bucket i 0 ∷ s.rate_limits = ground arith in
    let same : same_time i.window_started_at i.window_started_at ≡ true = ground arith in
    rw (rows, made, str_eq_self i.scope, str_eq_self i.subject_hash, same)

-- The bucket that the call answers stands in the table.
get_or_create-found :
    (between : Store → Store) (i : BucketInput) (s t : Store) (b : RateLimit) (ms : ℕ)
    → i.window_started_at.time ≡ some ms
    → get_or_create_ceremony_rate_limit_bucket between i s ≡ ok b t
    → (input_error i ≡ none) × (bucket_of i t ≡ some b)
unfolding get_or_create_ceremony_rate_limit_bucket insert_bucket
get_or_create-found between i s t b ms starts run = elim (Option-cases (input_error i)) [
  | inr (message, wrong) ↦ absurd (ground arith)
  | inl valid ↦ elim (Option-cases (bucket_of i s)) [
    | inr (r, found) ↦
        let here : s ≡ t = ground arith in
        let same : r ≡ b = ground arith in (valid, rw (← here) (found ∙ ap some same))
    | inl missing ↦ elim (Option-cases (bucket_violation (created_bucket i 0) (between s))) [
      | inl fine ↦ (valid, inserted-found i (between s) t b ms starts (ground arith))
      | inr (c, broken) ↦ elim (Option-cases (bucket_of i (between s))) [
        | inl none_there ↦ absurd (ground arith)
        | inr (r, found) ↦
            let here : between s ≡ t = ground arith in
            let same : r ≡ b = ground arith in (valid, rw (← here) (found ∙ ap some same))
      ]
    ]
  ]
]

-- A bucket is created once: after a call that answered a bucket, whether it found it, created it or
-- lost the race for it, the same call answers that bucket again and changes nothing, whatever other
-- sessions would commit in it. The window's start is to be a valid date.
pub get_or_create-get_or_create :
    (between later : Store → Store) (i : BucketInput) (s t : Store) (b : RateLimit) (ms : ℕ)
    → i.window_started_at.time ≡ some ms
    → get_or_create_ceremony_rate_limit_bucket between i s ≡ ok b t
    → get_or_create_ceremony_rate_limit_bucket later i t ≡ ok b t
unfolding get_or_create_ceremony_rate_limit_bucket
get_or_create-get_or_create between later i s t b ms starts run =
    let (valid, found) = get_or_create-found between i s t b ms starts run in ground arith

-- The bucket is blocked beyond the time `later`: `until` is set, and both are dates, `later` the
-- earlier one.
abbrev pub IsBlockedAt : Option Timestamp → Timestamp → Type 0
IsBlockedAt until later =
    (u : Timestamp) × (m : ℕ) × (n : ℕ) × (until ≡ some u)
    × (later.time ≡ some m)
    × (u.time ≡ some n)
    × (m < n)

before_end_iff :
    (later : Timestamp) (until : Option Timestamp)
    → (before_end later until ≡ true) ↔ IsBlockedAt until later
before_end_iff later none = ((λ h. cc), (λ h. absurd (cc (h.3))))
before_end_iff later (some u) = (blocks u, λ (v, m, n, set, now, end, lt). ground arith)
  where
    blocks : (u : Timestamp) → before_end later (some u) ≡ true → IsBlockedAt (some u) later
    blocks u h = elim (Option-cases later.time) [
      | inl unread ↦ absurd (ground arith)
      | inr (m, now) ↦ elim (Option-cases u.time) [
        | inl unread ↦ absurd (ground arith)
        | inr (n, end) ↦ (u, m, n, refl, now, end, ground arith)
      ]
    ]

-- A block is read back: after the time until which a bucket is blocked was set, the test returns and
-- changes nothing, and it answers that the bucket is blocked exactly when such a time was given and
-- the time asked about is strictly before it, both of them valid dates.
pub set_blocked_until-is_blocked :
    (id : String) (until : Option Timestamp) (now later : Timestamp) (s t : Store) (b : RateLimit)
    → set_ceremony_rate_limit_blocked_until id until now s ≡ ok b t
    → (answer : Bool) × (is_ceremony_rate_limit_blocked id later t ≡ ok answer t)
      × ((answer ≡ true) ↔ IsBlockedAt until later)
unfolding set_ceremony_rate_limit_blocked_until update_bucket is_ceremony_rate_limit_blocked
set_blocked_until-is_blocked id until now later s t b run = elim (Option-cases (find_bucket id s)) [
  | inl missing ↦ absurd (ground arith)
  | inr (r, found) ↦ elim (Bool-cases (not_after r.created_at now)) [
    | inr early ↦ absurd (ground arith)
    | inl fine ↦
        let rows : t.rate_limits
            ≡ update_where (λ o. o.id == id) (blocked until now) s.rate_limits =
          ground arith in
        let own : (r.id == id) ≡ true = find?-sound (λ o. o.id == id) s.rate_limits found in
        let there : find_bucket id t ≡ some (blocked until now r) = rw rows (
          rw (
            find?-update_where (λ o. o.id == id) (λ o. o.id == id) (blocked until now) s.rate_limits
                (λ x. refl),
            found,
            own,
          )) in
        (
          before_end later until,
          rw (is_ceremony_rate_limit_blocked, there) refl,
          before_end_iff later until,
        )
  ]
]
