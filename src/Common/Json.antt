-- ===== src/Common/Json.antt =====
-- JSON values as `JSON.parse` returns them, and the tests that the source makes on an `unknown`.
use Prim.Native.Nat.{ℕ}
use Prim.Native.String.{String}
use Prim.Native.Char.{code}
use mathlib.Core.Bool.{Bool}
use mathlib.Core.Option.{Option, none, some}
use mathlib.Core.List.{List, [], ◌∷◌}
use text.Mathlib.Text.{◌==◌}
use town_api.Common.Tests.{if◌then◌else◌}

-- Numbers are kept as far as the source tests them: a non-negative integer, or any other number.
mutual
  pub data Json : Type 0 where
    undefined : Json
    null : Json
    boolean : Bool → Json
    integer : ℕ → Json
    negative_integer : ℕ → Json
    fraction : Json
    string : String → Json
    array : Items → Json
    object : Members → Json

  pub data Items : Type 0 where
    nil : Items
    cons : Json → Items → Items

  pub data Members : Type 0 where
    end : Members
    member : String → Json → Members → Members

-- The later of two members with one key counts.
abbrev defined_or : Json → Json → Json
defined_or undefined v = v
defined_or w v = w

-- `record.key`; a missing key is undefined.
abbrev pub get : String → Members → Json
get key end = undefined
get key (member k v ms) = defined_or (get key ms) (if k == key then v else undefined)

-- `isRecord`.
abbrev pub record_members : Json → Option Members
record_members (object ms) = some ms
record_members _ = none

-- `typeof value !== 'string' || value.length === 0`, negated, with the text.
abbrev pub non_empty_string : Json → Option String
non_empty_string (string s) = if s == "" then none else some s
non_empty_string _ = none

-- The UTF-16 units of a text that lie below 0x10000 are its code points.
abbrev pub codes : String → List ℕ
codes String.[] = []
codes (String.◌∷◌ c s) = code c ∷ codes s
