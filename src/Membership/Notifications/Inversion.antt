-- ===== src/Membership/Notifications/Inversion.antt =====
-- What a step of the parser that went through says of the JSON value that it read.
use town_api.Common.{
  String, ℕ, Bool, true, false, Option, none, some, ◌≡◌, ◌≢◌, ◌&&◌, refl, arith, eq_iff,
}
use town_api.Common.Json.{
  Json, Members, undefined, integer, string, object, record_members, non_empty_string,
}
use town_api.Membership.Notifications.{
  ◌>>=◌, guarded, is_text, text_of, require_notification_type, optional_id,
}

pub bind-some :
    {A B : Type 0} (m : Option A) (f : A → Option B) {b : B}
    → m >>= f ≡ some b
    → (a : A) × (m ≡ some a) × (f a ≡ some b)
bind-some none f h = absurd (cc)
bind-some (some a) f h = (a, refl, h)

pub same_some : {A : Type 0} {a b : A} → some a ≡ some b → a ≡ b
same_some h = cc

pub both : (a b : Bool) → (a && b) ≡ true → (a ≡ true) × (b ≡ true)
both true b h = (refl, h)
both false b h = absurd (cc)

pub guarded-some :
    {A : Type 0} (test : Bool) (m : Option A) {a : A}
    → guarded test m ≡ some a
    → (test ≡ true) × (m ≡ some a)
guarded-some false m h = absurd (cc)
guarded-some true m h = (refl, h)

pub is_text-string : (s : String) (j : Json) → is_text s j ≡ true → j ≡ string s
is_text-string s (string t) h = ground (arith, eq_iff t s)
is_text-string s _ h = absurd (cc)

pub text_of-string : (j : Json) {s : String} → text_of j ≡ some s → j ≡ string s
text_of-string (string t) h = cc
text_of-string _ h = absurd (cc)

pub record_members-object : (j : Json) {ms : Members} → record_members j ≡ some ms → j ≡ object ms
record_members-object (object ms) h = cc
record_members-object _ h = absurd (cc)

pub non_empty_string-string :
    (j : Json) {s : String} → non_empty_string j ≡ some s → (j ≡ string s) × (s ≢ "")
non_empty_string-string (string t) h = ground (arith, eq_iff t "")
non_empty_string-string _ h = absurd (cc)

pub require_notification_type-integer :
    (j : Json) {n : ℕ} → require_notification_type j ≡ some n → j ≡ integer n
require_notification_type-integer (integer m) h = cc
require_notification_type-integer _ h = absurd (cc)

-- An identifier of a subscription that is missing, or a text that is not empty.
abbrev pub IsOptionalId : Option String → Json → Type 0
IsOptionalId none j = j ≡ undefined
IsOptionalId (some id) j = (j ≡ string id) × (id ≢ "")

pub optional_id-IsOptionalId :
    (j : Json) (o : Option String) → optional_id j ≡ some o → IsOptionalId o j
optional_id-IsOptionalId undefined none h = refl
optional_id-IsOptionalId undefined (some id) h = absurd (cc)
optional_id-IsOptionalId (string t) none h = absurd (ground arith)
optional_id-IsOptionalId (string t) (some id) h = ground (arith, eq_iff t "")
optional_id-IsOptionalId _ _ h = absurd (cc)
