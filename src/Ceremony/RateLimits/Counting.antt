-- ===== src/Ceremony/RateLimits/Counting.antt =====
-- The limits count: what one attempt does to the bucket of its window.
use town_api.Common.{
  ℕ, ◌+◌, String, Bool, true, false, Option, none, some, List, [], ◌∷◌, ◌≡◌, refl, ap, arith, inl,
  inr, ◌∙◌, Bool-cases, Option-cases, ◌==◌, eq_iff, str_eq_self,
}
use town_api.Common.Tables.{
  find?-fails, any, find?, update_where, find?-update_where, Distinct, Distinct-update_where,
}
use town_api.Common.Time.{Timestamp}
use town_api.Membership.Rows.{RateLimit}
use town_api.Membership.Store.{Store, ok}
use town_api.Ceremony.RateLimits.{
  same_time, BucketInput, is_bucket, bucket_of, created_bucket, insert_bucket, bucket_violation,
  input_error, get_or_create_ceremony_rate_limit_bucket, increment_ceremony_rate_limit, incremented,
  find_bucket, update_bucket,
}
use town_api.Ceremony.RateLimits.Windows.{Limiter, Rule, window_of, bucket_input, count_in_window}

-- The attempts that a bucket counts, none where there is no bucket.
abbrev pub count_of : Option RateLimit → ℕ
count_of none = 0
count_of (some r) = r.attempt_count

-- A row that is found is found by its own key.
find?-own :
    {A : Type 0} (key : A → String) (p : A → Bool) (xs : List A) {x : A}
    → Distinct key xs
    → find? p xs ≡ some x
    → find? (λ y. key y == key x) xs ≡ some x
find?-own key p [] d h = absurd (cc)
find?-own key p (y ∷ ys) {x} (fresh, d) h = elim (Bool-cases (p y)) [
  | inl here ↦ let same : y ≡ x = ground arith in rw (same, str_eq_self (key x))
  | inr there ↦
      let found : find? p ys ≡ some x = rw there at h in
      let other : (key x == key y) ≡ false = find?-fails p (λ z. key z == key y) ys fresh found in
      let apart : (key y == key x) ≡ false =
        ground (arith, eq_iff (key x) (key y), eq_iff (key y) (key x)) in
      rw apart (find?-own key p ys d found)
]

-- The bucket that a call found or created.
pub record Opened (i : BucketInput) (s : Store) (b : RateLimit) (t : Store) : Type 0 where
  pub found : bucket_of i t ≡ some b
  pub own : find_bucket b.id t ≡ some b
  pub ids : Distinct (λ r. r.id) t.rate_limits
  pub count : b.attempt_count ≡ count_of (bucket_of i s)
  pub valid : input_error i ≡ none

pub existing-Opened :
    (i : BucketInput) (s : Store) (b : RateLimit)
    → Distinct (λ r. r.id) s.rate_limits
    → bucket_of i s ≡ some b
    → input_error i ≡ none
    → Opened i s b s
existing-Opened i s b ids found valid = record {
  valid = valid;
  found = found;
  own =
      find?-own (λ r. r.id) (is_bucket i.scope i.subject_hash i.window_started_at) s.rate_limits ids
        found;
  ids = ids;
  count = rw found;
}

new-Opened :
    (i : BucketInput) (s : Store) (b : RateLimit) (t : Store) (ms : ℕ)
    → i.window_started_at.time ≡ some ms
    → Distinct (λ r. r.id) s.rate_limits
    → bucket_of i s ≡ none
    → input_error i ≡ none
    → insert_bucket (created_bucket i 0) s ≡ ok b t
    → Opened i s b t
unfolding insert_bucket bucket_violation
new-Opened i s b t ms starts ids missing valid run =
    let made : b ≡ created_bucket i 0 = ground arith in
    let rows : t.rate_limits ≡ created_bucket i 0 ∷ s.rate_limits = ground arith in
    let fresh : any (λ o. o.id == i.id) s.rate_limits ≡ false = ground arith in
    let same : same_time i.window_started_at i.window_started_at ≡ true = ground arith in
    record {
      found = rw (rows, made, str_eq_self i.scope, str_eq_self i.subject_hash, same);
      own = rw (rows, made, str_eq_self i.id);
      ids = rw rows (fresh, ids);
      count = rw (made, missing);
      valid = valid;
    }

-- The bucket is there afterwards, with the count that it had.
pub get_or_create-Opened :
    (between : Store → Store) (i : BucketInput) (s : Store) (b : RateLimit) (t : Store) (ms : ℕ)
    → ((u : Store) → between u ≡ u)
    → i.window_started_at.time ≡ some ms
    → Distinct (λ r. r.id) s.rate_limits
    → get_or_create_ceremony_rate_limit_bucket between i s ≡ ok b t
    → Opened i s b t
unfolding get_or_create_ceremony_rate_limit_bucket insert_bucket
get_or_create-Opened between i s b t ms alone starts ids run = elim (Option-cases (input_error i)) [
  | inr (message, wrong) ↦ absurd (ground arith)
  | inl valid ↦ elim (Option-cases (bucket_of i s)) [
    | inr (r, found) ↦
        let same : r ≡ b = ground arith in
        let kept : s ≡ t = ground arith in
        rw (← kept) (existing-Opened i s b ids (found ∙ ap some same) valid)
    | inl missing ↦ elim (Option-cases (bucket_violation (created_bucket i 0) s)) [
      | inl fine ↦ new-Opened i s b t ms starts ids missing valid (ground (arith, alone s))
      | inr (c, broken) ↦ absurd (ground (arith, alone s))
    ]
  ]
]

pub count_in_window-Opened :
    (l : Limiter) (r : Rule) (now start end : Timestamp) (s : Store) (b : RateLimit) (t : Store)
    (ms : ℕ)
    → ((u : Store) → l.between u ≡ u)
    → window_of l r now ≡ some (start, end)
    → start.time ≡ some ms
    → Distinct (λ o. o.id) s.rate_limits
    → count_in_window l r now s ≡ ok b t
    → Opened (bucket_input l r now (l.random_uuid s.drawn) (start, end)) s b t
unfolding count_in_window
count_in_window-Opened l r now start end s b t ms alone window starts ids run =
    let o =
      get_or_create-Opened l.between (bucket_input l r now (l.random_uuid s.drawn) (start, end))
        (record s { drawn = s.drawn + 1 }) b t ms alone starts ids
        (rw (count_in_window, window) at run) in
    record { found = o.found; own = o.own; ids = o.ids; count = o.count; valid = o.valid }

-- What an increment did: the bucket has one more attempt.
pub increment-counts :
    (i : BucketInput) (now : Timestamp) (s : Store) (b b' : RateLimit) (t u : Store)
    → Opened i s b t
    → increment_ceremony_rate_limit b.id now t ≡ ok b' u
    → Distinct (λ r. r.id) u.rate_limits
      × (bucket_of i u ≡ some (incremented now b))
      × (b' ≡ incremented now b)
unfolding increment_ceremony_rate_limit update_bucket
increment-counts i now s b b' t u opened run =
    let rows : u.rate_limits ≡ update_where (λ o. o.id == b.id) (incremented now) t.rate_limits =
      ground (arith, opened.own) in
    (
      rw rows (
          Distinct-update_where (λ r. r.id) (λ o. o.id == b.id) (incremented now) t.rate_limits
            (λ x. refl) opened.ids),
      rw rows (
          rw (
            find?-update_where (is_bucket i.scope i.subject_hash i.window_started_at)
                (λ o. o.id == b.id) (incremented now) t.rate_limits (λ x. refl),
            opened.found,
            str_eq_self b.id,
          )),
      ground (arith, opened.own),
    )
