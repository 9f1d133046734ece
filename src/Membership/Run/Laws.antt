-- ===== src/Membership/Run/Laws.antt =====
-- What a transition guarantees of the membership tables.
use town_api.Common.{
  ℕ, ◌+◌, String, false, ◌&&◌, some, ◌≡◌, ◌≢◌, refl, sym, ap, arith, ◌⊎◌, inl, inr, ◌∙◌, Bool-cases,
  ◌==◌, if◌then◌else◌, eq_iff, str_eq_self, eq_of_str_eq,
}
use town_api.Membership.Rows.{
  EventResult, applied, replayed, rejected, stale, Entitlement, same_result,
}
use town_api.Membership.Store.{Store, Outcome, Error, ok, throw, transaction}
use town_api.Membership.Repositories.{entitlement_of, Mutation}
use town_api.Membership.Transitions.Input.{version_or_zero, Context, accept, writes}
use town_api.Membership.Operations.{Operation, logic_of}
use town_api.Membership.Invariant.{IsSound, IsLegal, applied_count, version_of, status_of}
use town_api.Membership.Steps.{Edge, accept-Edge, apply-version, writes-IsLegal}
use town_api.Membership.Run.{◌>>=◌, Query, Session, Job, TransitionOutcome, process, context}
use town_api.Membership.Run.Effects.{Recorded}
use town_api.Membership.Run.Process.{
  Processed, repeated, settled, Settled, refused, late, done, process-Processed,
}
use town_api.Membership.Run.Soundness.{Replaced, Written-Replaced, Written-columns, Written-IsLegal}

abbrev pub store_after : {A : Type 0} → Outcome A → Store
store_after (ok a s) = s
store_after (throw e s) = s

-- The ledger's count of applied events after an event was recorded.
count-Recorded :
    (j : Session) (r : EventResult) (s t : Store) (a : String)
    → Recorded j r s t
    → applied_count a t
      ≡ (if j.input.account_id == a && same_result r applied then 1 else 0) + applied_count a s
count-Recorded j r s t a w = rw (w.ledger, w.account_id, w.result)

ne-false : (a b : String) → a ≢ b → (b == a) ≡ false
ne-false a b h = ground (arith, eq_iff b a)

-- Rows and ledger as they were.
pub IsSound-same :
    {links : String → ℕ} (s t : Store)
    → t.entitlements ≡ s.entitlements
    → ((a : String) → applied_count a t ≡ applied_count a s)
    → IsSound links s
    → IsSound links t
IsSound-same {links} s t rows counts h = record {
  ids = rw rows h.ids;
  owners = rw rows h.owners;
  legal = λ a e found. h.legal a e (rw rows at found);
  balanced = λ a. rw rows (h.balanced a ∙ ap (λ (n : ℕ). n + links a) (sym (counts a)));
}

count-here :
    (j : Session) (s t : Store)
    → Recorded j applied s t
    → applied_count j.input.account_id t ≡ 1 + applied_count j.input.account_id s
count-here j s t w =
    rw (count-Recorded j applied s t j.input.account_id w) (rw (str_eq_self j.input.account_id))

count-elsewhere :
    (j : Session) (r : EventResult) (s t : Store) (a : String)
    → a ≢ j.input.account_id
    → Recorded j r s t
    → applied_count a t ≡ applied_count a s
count-elsewhere j r s t a other w =
    rw (count-Recorded j r s t a w) (rw (ne-false a j.input.account_id other) (omega arith))

pub count-unapplied :
    (j : Session) (r : EventResult) (s t : Store) (a : String)
    → same_result r applied ≡ false
    → Recorded j r s t
    → applied_count a t ≡ applied_count a s
count-unapplied j r s t a other w = rw (count-Recorded j r s t a w) (rw other (ground arith))

-- One new row, one more applied event.
module _ {links : String → ℕ} (j : Session) (s t : Store) (m : Mutation) (e : Entitlement)
    (next : m.version ≡ version_of j.input.account_id s + 1) (same : e.version ≡ m.version)
    (legal : IsLegal e) (w : Recorded j applied s t) (put : Replaced j.input.account_id s t e)
    (h : IsSound links s) where
  balanced-applied : (a : String) → version_of a t ≡ applied_count a t + links a
  balanced-applied a = elim (Bool-cases (a == j.input.account_id)) [
    | inl one ↦
        let here : a ≡ j.input.account_id = eq_of_str_eq _ _ one in
        let now : version_of j.input.account_id t ≡ e.version = ap version_or_zero put.here in
        rw here (omega (arith, now, count-here j s t w, h.balanced j.input.account_id))
    | inr other ↦
        let apart : a ≢ j.input.account_id = λ q. ground (arith, eq_iff a j.input.account_id) in
        ap version_or_zero (put.others a apart)
        ∙ h.balanced a
        ∙ ap (λ (n : ℕ). n + links a) (sym (count-elsewhere j applied s t a apart w))
  ]

  IsLegal-applied : (a : String) (r : Entitlement) → entitlement_of a t ≡ some r → IsLegal r
  IsLegal-applied a r found = elim (Bool-cases (a == j.input.account_id)) [
    | inl one ↦
        let here : a ≡ j.input.account_id = eq_of_str_eq _ _ one in
        let r_is_e : e ≡ r = cc (put.here, ap (λ b. entitlement_of b t) here) in rw (← r_is_e) legal
    | inr other ↦
        let apart : a ≢ j.input.account_id = λ q. ground (arith, eq_iff a j.input.account_id) in
        h.legal a r (sym (put.others a apart) ∙ found)
  ]

  pub IsSound-applied : IsSound links t
  IsSound-applied = record {
    ids = put.ids;
    owners = put.owners;
    legal = IsLegal-applied;
    balanced = balanced-applied;
  }

module _ (op : Operation) (j : Job) (logic : j.logic ≡ logic_of op) (s : Store) where
  -- What a committed transaction did to the rows and to the status of the event's account.
  pub record Moved (links : String → ℕ) (o : TransitionOutcome) (t : Store) : Type 0 where
    pub sound : IsSound links t
    pub others : (b : String) → b ≢ j.input.account_id → entitlement_of b t ≡ entitlement_of b s
    pub edge :
        ((o.result ≡ applied)
          × (o.entitlement ≡ entitlement_of j.input.account_id t)
          × Edge op (status_of j.input.account_id s) (status_of j.input.account_id t))
        ⊎ ((o.result ≢ applied) × (t.entitlements ≡ s.entitlements))

  Settled-Moved :
      {links : String → ℕ} (ctx : Context) (o : TransitionOutcome) (t : Store)
      → ctx.entitlement ≡ entitlement_of j.input.account_id s
      → IsSound links s
      → Settled j ctx s o t
      → Moved links o t
  Settled-Moved ctx o t known h (refused reason v answer w rows) = record {
    sound = IsSound-same s t rows (λ a. count-unapplied j.session rejected s t a refl w) h;
    others = λ b other. rw rows;
    edge = inr ((λ q. cc), rows);
  }
  Settled-Moved ctx o t known h (late reason v answer w rows) = record {
    sound = IsSound-same s t rows (λ a. count-unapplied j.session stale s t a refl w) h;
    others = λ b other. rw rows;
    edge = inr ((λ q. cc), rows);
  }
  Settled-Moved ctx o t known h (done m e v a answer w wrote) =
      let put =
        Written-Replaced j.session m s t e ctx.entitlement (sym known) wrote h.ids h.owners in
      let (status, version, until, source) =
        Written-columns j.session m s t e ctx.entitlement wrote in
      let v' : (logic_of op).validate ctx ≡ accept = rw (← logic) v in
      let a' : (logic_of op).apply ctx ≡ writes m = rw (← logic) a in
      let legal = Written-IsLegal j.session m s t e ctx.entitlement wrote (λ row.
        writes-IsLegal ctx m j.processed_at row op (λ r q. h.legal _ r (sym known ∙ q)) v' a') in
      let next : m.version ≡ version_of j.input.account_id s + 1 =
        rw (← known) (apply-version op ctx m a') in
      record {
        sound = IsSound-applied j.session s t m e next version legal w put h;
        others = put.others;
        edge = inl (
          ground arith,
          ground arith,
          rw (put.here, ← known, status) (accept-Edge op ctx m v' a'),
        );
      }

  pub process-Moved :
      {links : String → ℕ} {o : TransitionOutcome} {t : Store}
      → IsSound links s
      → process j s ≡ ok o t
      → Moved links o t
  process-Moved {links} {o} {t} h run = by_case (process-Processed j s run)
    where
      by_case : Processed j s o t → Moved links o t
      by_case (settled account missing known w) =
          Settled-Moved (context j account (entitlement_of j.input.account_id s)) o t
            (unfold context in refl) h w
      by_case (repeated ev found k row result reason) = record {
        sound = IsSound-same s t k.entitlements (λ a. rw k.source_events) h;
        others = λ b other. rw k.entitlements;
        edge = inr (
          elim (Bool-cases (ev.payload_hash == j.payload_hash)) [
            | inl one ↦ λ q. cc (result, ap (λ b. if b then replayed else rejected) one)
            | inr two ↦ λ q. cc (result, ap (λ b. if b then replayed else rejected) two)
          ],
          k.entitlements,
        );
      }

-- A committed transaction, or one that threw and left the tables.
pub transaction-cases :
    {A : Type 0} (P : Outcome A → Type 0) (m : Store → Outcome A) (s : Store)
    → ((a : A) (t : Store) → m s ≡ ok a t → P (ok a t))
    → ((e : Error) (n : ℕ) → P (throw e (record s { drawn = n })))
    → P (transaction m s)
transaction-cases {A} P m s returns throws = by_outcome (m s) refl
  where
    by_outcome :
        (o : Outcome A)
        → m s ≡ o
        → P (elim o [ ok a t ↦ ok a t | throw e t ↦ throw e (record s { drawn = t.drawn }) ])
    by_outcome (ok a t) e = returns a t e
    by_outcome (throw e t) q = throws e t.drawn

-- What a transaction returned, its body returned.
pub committed :
    {A : Type 0} (m : Store → Outcome A) (s : Store) {a : A} {t : Store}
    → transaction m s ≡ ok a t
    → m s ≡ ok a t
committed m s h = ground arith

-- A sequence keeps what its parts keep, whether it returns or throws.
pub bind-keeps :
    {A B : Type 0} (P : Store → Type 0) (m : Query A) (f : A → Query B) (s : Store)
    → P (store_after (m s))
    → ((a : A) (t : Store) → P t → P (store_after (f a t)))
    → P (store_after (◌>>=◌ m f s))
bind-keeps {A} {B} P m f s first rest = by_outcome (m s) first
  where
    by_outcome :
        (o : Outcome A)
        → P (store_after o)
        → P (store_after (elim o [ ok a t ↦ f a t | throw e t ↦ throw e t ]))
    by_outcome (ok a t) h = rest a t h
    by_outcome (throw e t) h = h
