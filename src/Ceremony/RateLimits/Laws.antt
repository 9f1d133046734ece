-- ===== src/Ceremony/RateLimits/Laws.antt =====
-- The limits refine a counter: an attempt adds one, and the test compares the count with the limit.
use town_api.Common.{
  ℕ, zero, suc, ◌+◌, Bool, true, false, Option, none, some, [], ◌∷◌, ◌≡◌, refl, sym, ap, arith, inl,
  inr, ◌∙◌, Bool-cases, leb, ◌||◌,
}
use town_api.Common.Tables.{Distinct}
use town_api.Common.Time.{Timestamp}
use town_api.Membership.Rows.{RateLimit}
use town_api.Membership.Store.{Store, ok}
use town_api.Membership.Audit.{append_identity_security_event}
use town_api.Membership.Run.Effects.{after}
use town_api.Ceremony.RateLimits.{
  bucket_of, incremented, input_error, get_or_create_ceremony_rate_limit_bucket,
  increment_ceremony_rate_limit,
}
use town_api.Ceremony.RateLimits.Windows.{
  Limiter, Rule, Alarm, window_of, bucket_input, count_in_window, increment_window, is_throttled,
  append_alarm, alarm_if, reached, record_attempt,
}
use town_api.Ceremony.RateLimits.Counting.{count_of, count_in_window-Opened, increment-counts}

pub alarm_if-rate_limits :
    (l : Limiter) (b : Bool) (a : Alarm) (s : Store) {x : Unit {0}} {t : Store}
    → alarm_if l b a s ≡ ok x t
    → t.rate_limits ≡ s.rate_limits
unfolding alarm_if append_alarm append_identity_security_event
alarm_if-rate_limits l true a s h = ground arith
alarm_if-rate_limits l false a s h = ground arith

-- The bucket of the window, for any time within it.
abbrev pub window_bucket : Limiter → Rule → Timestamp → Timestamp → Store → Option RateLimit
window_bucket l r start end s = bucket_of (bucket_input l r start "" (start, end)) s

-- The limiter of one rule, in one window, undisturbed by other sessions.
module _ (l : Limiter) (r : Rule) (start end : Timestamp) (ms : ℕ)
    (alone : (u : Store) → l.between u ≡ u) (starts : start.time ≡ some ms) where
  -- The bucket of the window counts `n` attempts.
  pub record Counts (n : ℕ) (s : Store) : Type 0 where
    pub bucket : RateLimit
    pub found : window_bucket l r start end s ≡ some bucket
    pub count : bucket.attempt_count ≡ n
    pub ids : Distinct (λ o. o.id) s.rate_limits
    pub valid : input_error (bucket_input l r start "" (start, end)) ≡ none

  increment-Counts :
      (now : Timestamp) (s t u : Store) (b b' : RateLimit)
      → window_of l r now ≡ some (start, end)
      → Distinct (λ o. o.id) s.rate_limits
      → count_in_window l r now s ≡ ok b t
      → increment_ceremony_rate_limit b.id now t ≡ ok b' u
      → Counts (suc (count_of (window_bucket l r start end s))) u
        × (b'.attempt_count ≡ suc (count_of (window_bucket l r start end s)))
  unfolding input_error
  increment-Counts now s t u b b' window ids opened ran =
      let o = count_in_window-Opened l r now start end s b t ms alone window starts ids opened in
      let (ids', found, same) =
        increment-counts (bucket_input l r now (l.random_uuid s.drawn) (start, end)) now s b b' t u
          o ran in
      (
        record {
          bucket = incremented now b;
          found = found;
          count = omega (arith, o.count);
          ids = ids';
          valid = o.valid;
        },
        ap (λ x. x.attempt_count) same ∙ omega (arith, o.count),
      )

  increment_window-Counts :
      (now : Timestamp) (s u : Store) (n : ℕ)
      → window_of l r now ≡ some (start, end)
      → Distinct (λ o. o.id) s.rate_limits
      → increment_window l r now s ≡ ok n u
      → Counts n u × (n ≡ suc (count_of (window_bucket l r start end s)))
  unfolding increment_window
  increment_window-Counts now s u n window ids run =
      after (count_in_window l r now) _ s run λ b t opened rest.
        after (increment_ceremony_rate_limit b.id now) _ t rest λ b' u' ran last.
          let (counts, answer) = increment-Counts now s t u' b b' window ids opened ran in
          let here : u' ≡ u = ground arith in
          let told : b'.attempt_count ≡ n = ground arith in
          let total : n ≡ suc (count_of (window_bucket l r start end s)) = sym told ∙ answer in
          (rw total (rw (← here) counts), total)

  Counts-later : {n : ℕ} {s t : Store} → t.rate_limits ≡ s.rate_limits → Counts n s → Counts n t
  Counts-later {n} {s} {t} same c = record {
    bucket = c.bucket;
    found = rw same c.found;
    count = c.count;
    ids = rw same c.ids;
    valid = c.valid;
  }

  -- One attempt adds one to the count, and answers it.
  pub record_attempt-Counts :
      (now : Timestamp) (was_throttled : Bool) (alarm : Alarm) (s u : Store) (n : ℕ)
      → window_of l r now ≡ some (start, end)
      → Distinct (λ o. o.id) s.rate_limits
      → record_attempt l r now was_throttled alarm s ≡ ok n u
      → Counts n u × (n ≡ suc (count_of (window_bucket l r start end s)))
  unfolding record_attempt
  record_attempt-Counts now was_throttled alarm s u n window ids run =
      after (increment_window l r now) _ s run λ m t counted rest.
        after (alarm_if l (was_throttled || reached r m) alarm) _ t rest λ x v alarmed last.
          let (counts, total) = increment_window-Counts now s t m window ids counted in
          let rows = alarm_if-rate_limits l (was_throttled || reached r m) alarm t alarmed in
          let here : v ≡ u = ground arith in
          let told : m ≡ n = ground arith in
          (rw (← told) (rw (← here) (Counts-later rows counts)), sym told ∙ total)

  -- The tables after some attempts within the window, each of which returned.
  pub data Attempted (s : Store) : ℕ → Store → Type 0 where
    unattempted : Attempted s zero s
    attempted :
        {k n : ℕ} {t u : Store} (now : Timestamp) (was_throttled : Bool) (alarm : Alarm)
        → Attempted s k t
        → window_of l r now ≡ some (start, end)
        → record_attempt l r now was_throttled alarm t ≡ ok n u
        → Attempted s (suc k) u

  Attempted-counted :
      {s : Store} {k : ℕ} {t : Store}
      → Distinct (λ o. o.id) s.rate_limits
      → window_bucket l r start end s ≡ none
      → Attempted s k t
      → Distinct (λ o. o.id) t.rate_limits × (count_of (window_bucket l r start end t) ≡ k)
  Attempted-counted ids empty unattempted = (ids, rw empty)
  Attempted-counted ids empty
        (attempted {n = n} {t = t} {u = u} now was_throttled alarm before window run) =
      let (ids', counted) = Attempted-counted ids empty before in
      let (counts, total) = record_attempt-Counts now was_throttled alarm t u n window ids' run in
      (counts.ids, rw counts.found (counts.count ∙ total ∙ ap suc counted))

  Attempted-Counts :
      {s t : Store} (k : ℕ)
      → Distinct (λ o. o.id) s.rate_limits
      → window_bucket l r start end s ≡ none
      → Attempted s (suc k) t
      → Counts (suc k) t
  Attempted-Counts k ids empty
        (attempted {n = n} {t = t} {u = u} now was_throttled alarm before window run) =
      let (ids', counted) = Attempted-counted ids empty before in
      let (counts, total) = record_attempt-Counts now was_throttled alarm t u n window ids' run in
      let all : n ≡ suc k = total ∙ ap suc counted in rw (← all) counts

  Counts-opens :
      (now : Timestamp) (n : ℕ) (s : Store) (c : Counts n s)
      → window_of l r now ≡ some (start, end)
      → count_in_window l r now s ≡ ok c.bucket (record s { drawn = s.drawn + 1 })
  unfolding count_in_window get_or_create_ceremony_rate_limit_bucket input_error
  Counts-opens now n s c window =
      let valid : input_error (bucket_input l r now (l.random_uuid s.drawn) (start, end)) ≡ none =
        c.valid in
      let found : bucket_of (bucket_input l r now (l.random_uuid s.drawn) (start, end)) s
          ≡ some c.bucket =
        c.found in
      rw (count_in_window, window)
        (rw (get_or_create_ceremony_rate_limit_bucket, valid)
          (rw (get_or_create_ceremony_rate_limit_bucket, found) refl))

  -- The limiter refines a counter. Where no two buckets share an identifier and the window has no bucket
  -- yet, after one or more attempts within the window that all returned, the test for this rule returns,
  -- answers whether the number of those attempts has reached the limit, and changes no table. No other
  -- session is to commit between a search for a bucket and its insertion.
  pub is_throttled-refines :
      (now : Timestamp) (k : ℕ) (s t : Store)
      → Distinct (λ o. o.id) s.rate_limits
      → window_bucket l r start end s ≡ none
      → Attempted s (suc k) t
      → window_of l r now ≡ some (start, end)
      → is_throttled l (r ∷ []) now t ≡ ok (leb r.limit (suc k)) (record t { drawn = t.drawn + 1 })
  unfolding is_throttled
  is_throttled-refines now k s t ids empty attempts window =
      let c = Attempted-Counts k ids empty attempts in
      let opened = Counts-opens now (suc k) t c window in
      elim (Bool-cases (leb r.limit (suc k))) [
        | inl full ↦ rw full (ground (arith, c.count))
        | inr room ↦ rw room (ground (arith, c.count))
      ]
