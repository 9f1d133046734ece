-- ===== src/Common/Time.antt =====
-- Timestamps as the source handles them: texts that `new Date(text).getTime()` reads.
use Prim.Native.Nat.{ℕ}
use Prim.Native.String.{String}
use mathlib.Core.Bool.{Bool, false, not}
use mathlib.Core.Option.{Option, none, some}
use text.Mathlib.Text.{◌==◌}
use town_api.Common.Tests.{ltb, leb, nat_eq, if◌then◌else◌}

-- `time` is what `new Date(text).getTime()` answers, counted from the earliest date that JavaScript
-- represents, so it is a natural number; `none` stands for NaN. `instant` is the `timestamptz` that
-- PostgreSQL reads from the text, in microseconds from the same date, if it can read it. The check
-- constraints and the windows of the rate limits compare times that the program makes itself by
-- `toISOString`, in whole milliseconds, so `time` serves there; an end of access comes from a payment
-- provider and may be finer.
pub record Timestamp : Type 0 where
  pub text : String
  pub time : Option ℕ
  pub instant : Option ℕ

-- A comparison with NaN is false.
abbrev pub compare_times : (ℕ → ℕ → Bool) → Option ℕ → Option ℕ → Bool
compare_times test none b = false
compare_times test (some a) none = false
compare_times test (some a) (some b) = test a b

abbrev pub before : Timestamp → Timestamp → Bool
before a b = compare_times ltb a.time b.time

abbrev pub not_after : Timestamp → Timestamp → Bool
not_after a b = compare_times leb a.time b.time

-- `a <= b` on `timestamptz`.
abbrev pub instant_not_after : Timestamp → Timestamp → Bool
instant_not_after a b = compare_times leb a.instant b.instant

-- `a !== b` on the two times, true where one of them is NaN.
abbrev pub times_differ : Timestamp → Timestamp → Bool
times_differ a b = not (compare_times nat_eq a.time b.time)

-- The test `if (x)` on a nullable text: null and the empty text fail it.
abbrev pub given : Option Timestamp → Option Timestamp
given none = none
given (some t) = if t.text == "" then none else some t
