-- ===== src/Billing/Periods.antt =====
-- The end of a subscription's period (`extractCurrentPeriodEnd` of billing/webhook-processor.ts).
use town_api.Common.{
  ℕ, ◌≤◌, Option, none, some, List, [], ◌∷◌, ◌≡◌, refl, ap, ◌∙◌, arith, ◌⊎◌, ◌↔◌, inl, inr,
  Option-cases, Bool-cases, ltb,
}
use town_api.Common.Rows.{Contains}
use town_api.Billing.Stripe.{Item, Subscription, latest, period_ends, extract_current_period_end}

-- One of the items, or the subscription itself, gives this end.
abbrev pub GivenBy : List Item → Option ℕ → ℕ → Type 0
GivenBy items top t =
    (top ≡ some t) ⊎ ((item : Item) × Contains item items × (item.current_period_end ≡ some t))

abbrev pub Gives : Subscription → ℕ → Type 0
Gives s t = GivenBy s.items s.current_period_end t

-- `m` is one of the ends that are given, and none of them is later.
pub record IsGreatest (m : ℕ) (s : Subscription) : Type 0 where
  pub given : Gives s m
  pub bound : (t : ℕ) → Gives s t → t ≤ m

latest-none : (ts : List ℕ) → latest ts ≡ none → ts ≡ []
unfolding latest
latest-none [] h = ground arith
latest-none (t ∷ ts) h = elim (Option-cases (latest ts)) [
  | inl empty ↦ absurd (ground arith)
  | inr (u, found) ↦ absurd (ground arith)
]

latest-bound : (ts : List ℕ) (m t : ℕ) → latest ts ≡ some m → Contains t ts → t ≤ m
unfolding latest
latest-bound [] m t h there = absurd there
latest-bound (u ∷ ts) m t h there = elim (Option-cases (latest ts)) [
  | inl empty ↦ elim there [
    | inl same ↦ ground arith
    | inr later ↦
        let done = latest-none ts empty in absurd (let none_there = rw done at later in none_there)
  ]
  | inr (v, found) ↦ elim there [
    | inl same ↦ ground arith
    | inr later ↦ ground (arith, latest-bound ts v t found later)
  ]
]

latest-Contains : (ts : List ℕ) (m : ℕ) → latest ts ≡ some m → Contains m ts
unfolding latest
latest-Contains [] m h = absurd (ground arith)
latest-Contains (u ∷ ts) m h = elim (Option-cases (latest ts)) [
  | inl empty ↦ inl (ground arith)
  | inr (v, found) ↦ elim (Bool-cases (ltb v u)) [
    | inl above ↦ inl (ground arith)
    | inr below ↦ let old : v ≡ m = ground arith in inr (latest-Contains ts m (rw old at found))
  ]
]

-- The list of ends holds those that are given.
period_ends_iff :
    (items : List Item) (top : Option ℕ) (t : ℕ)
    → Contains t (period_ends items top) ↔ GivenBy items top t
period_ends_iff [] none t = ((λ h. absurd h), λ h. elim h [ inl e ↦ cc | inr (i, c, e) ↦ absurd c ])
period_ends_iff [] (some u) t = (
  λ h. elim h [ inl same ↦ inl (cc) | inr later ↦ absurd later ],
  λ h. elim h [ inl same ↦ inl (ground arith) | inr (i, c, e) ↦ absurd c ],
)
period_ends_iff (x ∷ items) top t =
    let ih = period_ends_iff items top t in
    elim (Option-cases x.current_period_end) [
      | inl unset ↦
          let ends : period_ends (x ∷ items) top ≡ period_ends items top = rw unset refl in
          (
            λ h. further (ih.0 (rw ends at h)),
            λ h. rw ends (elim h [
              | inl same ↦ ih.1 (inl same)
              | inr (i, inl here, e) ↦ absurd (ground arith)
              | inr (i, inr later, e) ↦ ih.1 (inr (i, later, e))
            ]),
          )
      | inr (u, set) ↦
          let ends : period_ends (x ∷ items) top ≡ u ∷ period_ends items top = rw set refl in
          (
            λ h. own u set (rw ends at h) ih,
            λ h. rw ends (elim h [
              | inl same ↦ inr (ih.1 (inl same))
              | inr (i, inl here, e) ↦ inl (ground arith)
              | inr (i, inr later, e) ↦ inr (ih.1 (inr (i, later, e)))
            ]),
          )
    ]
  where
    further : GivenBy items top t → GivenBy (x ∷ items) top t
    further (inl same) = inl same
    further (inr (i, c, e)) = inr (i, inr c, e)

    own :
        (u : ℕ)
        → x.current_period_end ≡ some u
        → (u ≡ t) ⊎ Contains t (period_ends items top)
        → Contains t (period_ends items top) ↔ GivenBy items top t
        → GivenBy (x ∷ items) top t
    own u set (inl same) ih = inr (x, inl refl, cc (set, same))
    own u set (inr later) ih = further (ih.0 later)

found-IsGreatest :
    (s : Subscription) (m : ℕ) → extract_current_period_end s ≡ some m → IsGreatest m s
found-IsGreatest s m h = record {
  given =
      (period_ends_iff s.items s.current_period_end m).0
        (latest-Contains (period_ends s.items s.current_period_end) m h);
  bound = λ t gives.
      latest-bound (period_ends s.items s.current_period_end) m t h
        ((period_ends_iff s.items s.current_period_end t).1 gives);
}

none-given : (s : Subscription) (t : ℕ) → extract_current_period_end s ≡ none → ¬ Gives s t
none-given s t h given =
    let no_ends = latest-none (period_ends s.items s.current_period_end) h in
    let nowhere = rw no_ends at ((period_ends_iff s.items s.current_period_end t).1 given) in
    nowhere

-- The end of a subscription's period is `m` exactly when `m` is the latest of the ends that its items
-- and the subscription itself give; there is none exactly when none of them gives one.
pub extract_current_period_end-IsGreatest :
    (s : Subscription) (m : ℕ)
    → ((extract_current_period_end s ≡ some m) ↔ IsGreatest m s)
      × ((extract_current_period_end s ≡ none) ↔ ((t : ℕ) → ¬ Gives s t))
extract_current_period_end-IsGreatest s m = (
  (
    found-IsGreatest s m,
    λ g. elim (Option-cases (extract_current_period_end s)) [
      | inl missing ↦ absurd (none-given s m missing g.given)
      | inr (n, found) ↦
          let greatest = found-IsGreatest s n found in
          let same : n ≡ m = omega (arith, greatest.bound m g.given, g.bound n greatest.given) in
          found ∙ ap some same
    ],
  ),
  (
    λ h t. none-given s t h,
    λ nothing. elim (Option-cases (extract_current_period_end s)) [
      | inl missing ↦ missing
      | inr (m, found) ↦ absurd (nothing m (found-IsGreatest s m found).given)
    ],
  ),
)
