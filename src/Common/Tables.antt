-- ===== src/Common/Tables.antt =====
-- Tables as lists of rows: search by a test, rewriting of rows, and rows that differ by key.
use mathlib.Core.Bool.{Bool, true, false, ◌||◌}
use mathlib.Core.Option.{Option, none, some}
use mathlib.Core.List.{List, [], ◌∷◌}
use Prim.Native.Nat.{ℕ, suc, ◌+◌}
use mathlib.Core.Option
use native.Mathlib.Omega.{arith}
use mathlib.Core.Logic.{inl, inr}
use mathlib.Core.Path.{◌≡◌, refl, sym, ap, ◌∙◌}
use Prim.Native.String.{String}
use text.Mathlib.Text.{◌==◌}
use text.Mathlib.TextEquality.{eq_iff}
use town_api.Common.Tests.{if◌then◌else◌, Bool-cases}

module _ {ℓ} {A : Type ℓ} where
  abbrev pub find? : (A → Bool) → List A → Option A
  find? p [] = none
  find? p (x ∷ xs) = if p x then some x else find? p xs

  abbrev pub any : (A → Bool) → List A → Bool
  any p [] = false
  any p (x ∷ xs) = p x || any p xs

  abbrev pub filter : (A → Bool) → List A → List A
  filter p [] = []
  filter p (x ∷ xs) = let rest = filter p xs in if p x then x ∷ rest else rest

  -- `UPDATE … SET … WHERE p`.
  abbrev pub update_where : (A → Bool) → (A → A) → List A → List A
  update_where p f [] = []
  update_where p f (x ∷ xs) = (if p x then f x else x) ∷ update_where p f xs

  abbrev pub count_where : (A → Bool) → List A → ℕ
  count_where p [] = 0
  count_where p (x ∷ xs) = (if p x then 1 else 0) + count_where p xs

  abbrev pub length : List A → ℕ
  length [] = 0
  length (x ∷ xs) = suc (length xs)

-- A row that is found passes the test.
pub find?-sound {ℓ} :
    {A : Type ℓ} (p : A → Bool) (xs : List A) {x : A} → find? p xs ≡ some x → p x ≡ true
find?-sound p [] h = cc
find?-sound p (y ∷ ys) {x} h = elim (Bool-cases (p y)) [
  | inl here ↦ let same : y ≡ x = ground arith in rw (← same) here
  | inr there ↦ find?-sound p ys (rw there at h)
]

-- A search by a key that the update keeps finds the updated row.
pub find?-update_where {ℓ} :
    {A : Type ℓ} (p q : A → Bool) (f : A → A) (xs : List A)
    → ((x : A) → p (f x) ≡ p x)
    → find? p (update_where q f xs) ≡ Option.map (λ x. if q x then f x else x) (find? p xs)
find?-update_where p q f [] keeps = refl
find?-update_where p q f (x ∷ xs) keeps = ground (arith, keeps x, find?-update_where p q f xs keeps)

-- A row found by one test fails every test that all rows fail.
pub find?-fails {ℓ} :
    {A : Type ℓ} (p q : A → Bool) (xs : List A) {x : A}
    → any q xs ≡ false
    → find? p xs ≡ some x
    → q x ≡ false
find?-fails p q [] h found = cc
find?-fails p q (y ∷ ys) {x} h found = elim (Bool-cases (p y)) [
  | inl here ↦ let same : y ≡ x = ground arith in rw (← same) (ground arith)
  | inr there ↦ find?-fails p q ys (ground arith) (rw there at found)
]

pub any-update_where {ℓ} :
    {A : Type ℓ} (p q : A → Bool) (f : A → A) (xs : List A)
    → ((x : A) → p (f x) ≡ p x)
    → any p (update_where q f xs) ≡ any p xs
any-update_where p q f [] keeps = refl
any-update_where p q f (x ∷ xs) keeps = ground (arith, keeps x, any-update_where p q f xs keeps)

-- No two rows have the same key.
abbrev pub Distinct {ℓ} : {A : Type ℓ} → (A → String) → List A → Type 0
Distinct key [] = Unit
Distinct key (x ∷ xs) = (any (λ y. key y == key x) xs ≡ false) × Distinct key xs

pub Distinct-update_where {ℓ} :
    {A : Type ℓ} (key : A → String) (q : A → Bool) (f : A → A) (xs : List A)
    → ((x : A) → key (f x) ≡ key x)
    → Distinct key xs
    → Distinct key (update_where q f xs)
Distinct-update_where key q f [] keeps d = tt
Distinct-update_where key q f (x ∷ xs) keeps (fresh, d) = (
  elim (Bool-cases (q x)) [
    | inl hit ↦
        rw (hit, keeps x, any-update_where (λ y. key y == key x) q f xs (λ y. rw (keeps y))) fresh
    | inr miss ↦ rw (miss, any-update_where (λ y. key y == key x) q f xs (λ y. rw (keeps y))) fresh
  ],
  Distinct-update_where key q f xs keeps d,
)

-- Two rows that are found and have one key are one row.
pub find?-unique {ℓ} :
    {A : Type ℓ} (key : A → String) (p q : A → Bool) (xs : List A) {x y : A}
    → Distinct key xs
    → find? p xs ≡ some x
    → find? q xs ≡ some y
    → key x ≡ key y
    → x ≡ y
find?-unique key p q [] d h k e = cc
find?-unique key p q (z ∷ zs) {x} {y} (fresh, d) h k e = elim (Bool-cases (p z)) [
  | inl pz ↦ elim (Bool-cases (q z)) [
    | inl qz ↦ ground arith
    | inr not_q ↦
        let found : find? q zs ≡ some y = rw not_q at k in
        let other = find?-fails q (λ w. key w == key z) zs fresh found in
        let same : z ≡ x = ground arith in
        absurd (clash (key y) (key z) other (sym e ∙ ap key (sym same)))
  ]
  | inr not_p ↦
      let found : find? p zs ≡ some x = rw not_p at h in
      elim (Bool-cases (q z)) [
        | inl qz ↦
            let other = find?-fails p (λ w. key w == key z) zs fresh found in
            let same : z ≡ y = ground arith in
            absurd (clash (key x) (key z) other (e ∙ ap key (sym same)))
        | inr not_q ↦ find?-unique key p q zs d found (rw not_q at k) e
      ]
]
  where
    clash : (a b : String) → (a == b) ≡ false → a ≡ b → ⊥
    clash a b other eq = ground (arith, eq_iff a b)

-- A test that finds a row holds of some row.
pub find?-any {ℓ} :
    {A : Type ℓ} (p : A → Bool) (xs : List A) {x : A} → find? p xs ≡ some x → any p xs ≡ true
find?-any p [] h = absurd (cc)
find?-any p (y ∷ ys) h = elim (Bool-cases (p y)) [
  | inl here ↦ rw here refl
  | inr there ↦ let rest = find?-any p ys (rw there at h) in ground (arith, rest)
]
