-- ===== src/Common/Rows.antt =====
-- Which rows a query returns: membership in filtered, sorted and limited lists of rows.
use Prim.Native.Nat.{ℕ, zero, suc, ◌≤◌}
use Prim.Native.String.{String}
use mathlib.Core.Path.{◌≡◌, refl, sym, ap, ◌∙◌}
use mathlib.Core.Logic.{◌⊎◌, ◌↔◌, inl, inr}
use mathlib.Core.Bool.{Bool, true}
use mathlib.Core.Option.{some}
use mathlib.Core.List.{List, [], ◌∷◌}
use native.Mathlib.Omega.{arith}
use text.Mathlib.Text.{◌==◌}
use text.Mathlib.TextEquality.{eq_iff}
use town_api.Common.Tests.{if◌then◌else◌, Bool-cases, str_eq_self}
use town_api.Common.Tables.{find?, filter, length, any, Distinct}

module _ {A : Type 0} where
  -- `LIMIT n`.
  abbrev pub take : List A → ℕ → List A
  take xs zero = []
  take [] (suc n) = []
  take (x ∷ xs) (suc n) = x ∷ take xs n

  -- `ORDER BY`, for a test of whether a row may stand before another.
  abbrev insert : (A → A → Bool) → A → List A → List A
  insert fits x [] = x ∷ []
  insert fits x (y ∷ ys) = let rest = insert fits x ys in if fits x y then x ∷ y ∷ ys else y ∷ rest

  abbrev pub order_by : (A → A → Bool) → List A → List A
  order_by fits [] = []
  order_by fits (x ∷ xs) = insert fits x (order_by fits xs)

  abbrev pub Contains : A → List A → Type 0
  Contains x [] = ⊥
  Contains x (y ∷ ys) = (y ≡ x) ⊎ Contains x ys

  pub Contains-filter :
      (p : A → Bool) (xs : List A) (x : A)
      → Contains x (filter p xs) ↔ (Contains x xs × (p x ≡ true))
  Contains-filter p [] x = ((λ h. absurd h), (λ h. absurd h.0))
  Contains-filter p (y ∷ ys) x =
      let ih = Contains-filter p ys x in
      elim (Bool-cases (p y)) [
        | inl passes ↦ rw passes (
          λ h. elim h [
            | inl same ↦ (inl same, ap p (sym same) ∙ passes)
            | inr later ↦ (inr (ih.0 later).0, (ih.0 later).1)
          ],
          λ h. elim h.0 [ inl same ↦ inl same | inr later ↦ inr (ih.1 (later, h.1)) ],
        )
        | inr fails ↦ rw fails (
          λ h. (inr (ih.0 h).0, (ih.0 h).1),
          λ h. elim h.0 [
            | inl same ↦ absurd (cc (ap p same, fails, h.1))
            | inr later ↦ ih.1 (later, h.1)
          ],
        )
      ]

  Contains-insert :
      (fits : A → A → Bool) (y : A) (ys : List A) (x : A)
      → Contains x (insert fits y ys) ↔ ((y ≡ x) ⊎ Contains x ys)
  Contains-insert fits y [] x = ((λ h. h), (λ h. h))
  Contains-insert fits y (z ∷ zs) x =
      let ih = Contains-insert fits y zs x in
      elim (Bool-cases (fits y z)) [
        | inl first ↦ rw first ((λ h. h), (λ h. h))
        | inr not_yet ↦ rw not_yet (
          λ h. elim h [
            | inl here ↦ inr (inl here)
            | inr later ↦ elim (ih.0 later) [ inl new ↦ inl new | inr old ↦ inr (inr old) ]
          ],
          λ h. elim h [
            | inl new ↦ inr (ih.1 (inl new))
            | inr (inl here) ↦ inl here
            | inr (inr old) ↦ inr (ih.1 (inr old))
          ],
        )
      ]

  pub Contains-order_by :
      (fits : A → A → Bool) (xs : List A) (x : A) → Contains x (order_by fits xs) ↔ Contains x xs
  Contains-order_by fits [] x = ((λ h. h), (λ h. h))
  Contains-order_by fits (y ∷ ys) x = (
    λ h. elim ((Contains-insert fits y (order_by fits ys) x).0 h) [
      | inl new ↦ inl new
      | inr old ↦ inr ((Contains-order_by fits ys x).0 old)
    ],
    λ h.
        (Contains-insert fits y (order_by fits ys) x).1
          (elim h [ inl new ↦ inl new | inr old ↦ inr ((Contains-order_by fits ys x).1 old) ]),
  )

  length-insert :
      (fits : A → A → Bool) (y : A) (ys : List A) → length (insert fits y ys) ≡ suc (length ys)
  length-insert fits y [] = refl
  length-insert fits y (z ∷ zs) = ground (arith, length-insert fits y zs)

  pub length-order_by : (fits : A → A → Bool) (xs : List A) → length (order_by fits xs) ≡ length xs
  length-order_by fits [] = refl
  length-order_by fits (x ∷ xs) =
      length-insert fits x (order_by fits xs) ∙ ap suc (length-order_by fits xs)

  pub take_all : (xs : List A) (n : ℕ) → length xs ≤ n → take xs n ≡ xs
  take_all [] zero h = refl
  take_all [] (suc n) h = refl
  take_all (x ∷ xs) zero h = absurd (omega arith)
  take_all (x ∷ xs) (suc n) h = ap (λ r. x ∷ r) (take_all xs n (omega arith))

  pub Contains-find? : (p : A → Bool) (xs : List A) (x : A) → find? p xs ≡ some x → Contains x xs
  Contains-find? p [] x h = absurd (cc)
  Contains-find? p (y ∷ ys) x h = elim (Bool-cases (p y)) [
    | inl here ↦ inl (ground arith)
    | inr there ↦ inr (Contains-find? p ys x (rw there at h))
  ]

  any-Contains : (p : A → Bool) (xs : List A) (x : A) → Contains x xs → p x ≡ true → any p xs ≡ true
  any-Contains p [] x h q = absurd h
  any-Contains p (y ∷ ys) x (inl same) q = rw same (rw q refl)
  any-Contains p (y ∷ ys) x (inr later) q = ground (arith, any-Contains p ys x later q)

  -- A row is found by its key where keys are distinct.
  pub find?-Contains :
      (key : A → String) (xs : List A) (x : A)
      → Distinct key xs
      → Contains x xs
      → find? (λ y. key y == key x) xs ≡ some x
  find?-Contains key [] x d h = absurd h
  find?-Contains key (y ∷ ys) x d (inl same) = rw same (rw (str_eq_self (key x)) refl)
  find?-Contains key (y ∷ ys) x (fresh, d) (inr later) = elim (Bool-cases (key y == key x)) [
    | inl clash ↦ absurd (meets clash)
    | inr other ↦ rw other (find?-Contains key ys x d later)
  ]
    where
      meets : (key y == key x) ≡ true → ⊥
      meets clash =
          let same : (key x == key y) ≡ true =
            ground (arith, eq_iff (key y) (key x), eq_iff (key x) (key y)) in
          cc (fresh, any-Contains (λ z. key z == key y) ys x later same)
