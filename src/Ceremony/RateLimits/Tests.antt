-- ===== src/Ceremony/RateLimits/Tests.antt =====
-- Concrete attempts: two password sign-ins for one e-mail address, and a reservation for an address.
use town_api.Common.{
  ◌+◌, ◌*◌, ℕ, zero, Bool, true, false, none, some, [], ◌∷◌, ◌≡◌, ◌↔◌, refl, arith, leb,
}
use town_api.Common.Time.{Timestamp}
use town_api.Membership.Store.{Store, ok}
use town_api.Membership.Run.Laws.{store_after}
use town_api.Membership.Tests.{first_of_march, first_of_april, new_town, runtime}
use town_api.Ceremony.RateLimits.{
  BucketInput, created_bucket, bucket_violation, blocked, get_or_create_ceremony_rate_limit_bucket,
  set_ceremony_rate_limit_blocked_until, is_ceremony_rate_limit_blocked,
}
use town_api.Ceremony.RateLimits.Windows.{
  Limiter, Alarm, reserved, window_of, bucket_input, is_throttled, record_attempt, reserve_attempt,
}
use town_api.Ceremony.RateLimits.Passwords.{
  password_sign_in_email, password_sign_in_ip, password_sign_in_alarm,
}
use town_api.Ceremony.RateLimits.Buckets.{
  IsBlockedAt, get_or_create-get_or_create, set_blocked_until-is_blocked,
}
use town_api.Ceremony.RateLimits.Laws.{unattempted, attempted, is_throttled-refines}
use town_api.Ceremony.RateLimits.Reserving.{Reserves, reserve_attempt-Reserves}

abbrev march_window : ℕ → Timestamp
march_window zero = record { text = "2026-03-01T00:00:00.000Z"; time = some 0; instant = some 0 }
march_window n = record {
  text = "2026-03-01T00:30:00.000Z";
  time = some n;
  instant = some (n * 1000);
}

abbrev limiter : Limiter
limiter = record {
  random_uuid = runtime.random_uuid;
  hash_rate_limit_subject = λ scope subject. "hash";
  to_iso_string = λ n. some (march_window n);
  between = λ s. s;
}

abbrev window_input : BucketInput
window_input =
    bucket_input limiter (password_sign_in_email "ana") first_of_march "id-0"
      (march_window 0, march_window 1800000)

abbrev opened_town : Store
opened_town = store_after (get_or_create_ceremony_rate_limit_bucket (λ s. s) window_input new_town)

opening_runs :
    get_or_create_ceremony_rate_limit_bucket (λ s. s) window_input new_town
    ≡ ok (created_bucket window_input 0) opened_town
unfolding get_or_create_ceremony_rate_limit_bucket bucket_violation
opening_runs = refl

get_or_create-get_or_create_example :
    get_or_create_ceremony_rate_limit_bucket (λ s. new_town) window_input opened_town
    ≡ ok (created_bucket window_input 0) opened_town
get_or_create-get_or_create_example =
    get_or_create-get_or_create (λ s. s) (λ s. new_town) window_input new_town opened_town
      (created_bucket window_input 0) 0 refl opening_runs

abbrev blocked_town : Store
blocked_town =
    store_after (
      set_ceremony_rate_limit_blocked_until "id-0" (some first_of_april) first_of_march opened_town)

blocking_runs :
    set_ceremony_rate_limit_blocked_until "id-0" (some first_of_april) first_of_march opened_town
    ≡ ok (blocked (some first_of_april) first_of_march (created_bucket window_input 0)) blocked_town
unfolding set_ceremony_rate_limit_blocked_until get_or_create_ceremony_rate_limit_bucket
    bucket_violation
blocking_runs = refl

set_blocked_until-is_blocked_example :
    (answer : Bool) × (is_ceremony_rate_limit_blocked "id-0" first_of_march blocked_town
      ≡ ok answer blocked_town)
    × ((answer ≡ true) ↔ IsBlockedAt (some first_of_april) first_of_march)
set_blocked_until-is_blocked_example =
    set_blocked_until-is_blocked "id-0" (some first_of_april) first_of_march first_of_march
      opened_town blocked_town
      (blocked (some first_of_april) first_of_march (created_bucket window_input 0)) blocking_runs

abbrev sign_in : Alarm
sign_in = password_sign_in_alarm none first_of_march none none

abbrev attempted_town : Store
attempted_town =
    store_after
      (record_attempt limiter (password_sign_in_email "ana") first_of_march false sign_in new_town)

attempt_runs :
    record_attempt limiter (password_sign_in_email "ana") first_of_march false sign_in new_town
    ≡ ok 1 attempted_town
unfolding record_attempt bucket_violation
attempt_runs = refl

sign_in_window :
    window_of limiter (password_sign_in_email "ana") first_of_march
    ≡ some (march_window 0, march_window 1800000)
unfolding window_of
sign_in_window = refl

is_throttled-refines_example :
    is_throttled limiter (password_sign_in_email "ana" ∷ []) first_of_march attempted_town
    ≡ ok (leb 10 1) (record attempted_town { drawn = attempted_town.drawn + 1 })
is_throttled-refines_example =
    is_throttled-refines limiter (password_sign_in_email "ana") (march_window 0)
      (march_window 1800000) 0 (λ u. refl) refl first_of_march 0 new_town attempted_town tt refl
      (attempted first_of_march false sign_in unattempted sign_in_window attempt_runs)
      sign_in_window

abbrev reserving_town : Store
reserving_town = store_after (
    reserve_attempt limiter (password_sign_in_ip "::1") first_of_march
      (password_sign_in_alarm none first_of_march none) none new_town)

reservation_runs :
    reserve_attempt limiter
      (password_sign_in_ip "::1")
      first_of_march
      (password_sign_in_alarm none first_of_march none)
      none
      new_town
    ≡ ok (reserved 1) reserving_town
unfolding reserve_attempt bucket_violation
reservation_runs = refl

address_window :
    window_of limiter (password_sign_in_ip "::1") first_of_march
    ≡ some (march_window 0, march_window 1800000)
unfolding window_of
address_window = refl

reserve_attempt-Reserves_example :
    Reserves
      (password_sign_in_ip "::1")
      (bucket_input limiter
        (password_sign_in_ip "::1")
        first_of_march
        "id-0"
        (march_window 0, march_window 1800000))
      new_town
      (reserved 1)
      reserving_town
reserve_attempt-Reserves_example =
    reserve_attempt-Reserves limiter (password_sign_in_ip "::1") first_of_march (march_window 0)
      (march_window 1800000) (password_sign_in_alarm none first_of_march none) none new_town
      reserving_town (reserved 1) 0 (omega arith) address_window refl reservation_runs
