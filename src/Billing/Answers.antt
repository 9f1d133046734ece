-- ===== src/Billing/Answers.antt =====
-- What the answer to a webhook event says of the entitlements, where no other session writes one
-- meanwhile (billing/webhook-processor.ts).
use town_api.Common.{List, ℕ, String, some, ◌≡◌, ◌≢◌, refl, arith, inl, inr, ◌∙◌}
use town_api.Membership.Rows.{AuditType, MetadataValue, EventResult}
use town_api.Membership.Store.{◌>>◌, pure, transaction, Store, Outcome, ok}
use town_api.Membership.Invariant.{IsSound}
use town_api.Membership.Transitions.Input.{Input}
use town_api.Membership.Operations.{Operation}
use town_api.Membership.Run.{Runtime, TransitionOutcome}
use town_api.Membership.Run.Effects.{SameTables, after}
use town_api.Membership.Run.Laws.{IsSound-same}
use town_api.Membership.Retry.{under, membership_operation}
use town_api.Membership.Retry.Laws.{IsKeptBy}
use town_api.Membership.Retry.Effect.{Did-later, IsQuiet, Did, membership_operation-Did}
use town_api.Billing.Stripe.{CheckoutSession, Event}
use town_api.Billing.Webhook.{
  WebhookResult, WebhookDeps, Surroundings, transition_deps, audit_outcome, transition_and_answer,
  transition_outcome_to_webhook_result,
}
use town_api.Billing.Handlers.{link_checkout}
use town_api.Billing.Process.{process_stripe_webhook_event}
use town_api.Billing.Paths.{webhook-leads, audited-SameTables}

-- What other sessions commit keeps the tables sound and writes no entitlement.
abbrev pub Leaves : (String → ℕ) → (Store → Store) → Type 0
Leaves links f =
    (u : Store) → IsSound links u → IsSound links (f u) × ((f u).entitlements ≡ u.entitlements)

pub record IsStill (links : String → ℕ) (w : Surroundings) : Type 0 where
  pub lookup : Leaves links w.lookup.others
  pub own : Leaves links w.own.others
  pub attempt : (n : ℕ) → Leaves links (w.sky.attempt n).others
  pub recovery : Leaves links w.sky.recovery.others

Leaves-IsQuiet :
    {links : String → ℕ} (f : Store → Store) (s u : Store)
    → Leaves links f
    → IsQuiet links s u
    → IsQuiet links s (f u)
Leaves-IsQuiet f s u leaves h =
    let (sound, rows) = leaves u h.sound in record { sound = sound; rows = rows ∙ h.rows }

still-IsKeptBy :
    {links : String → ℕ} (w : Surroundings) (s : Store)
    → IsStill links w
    → IsKeptBy (IsQuiet links s) w.sky
still-IsKeptBy w s still = (
  (λ n u h. Leaves-IsQuiet (w.sky.attempt n).others s u (still.attempt n) h),
  λ u h. Leaves-IsQuiet w.sky.recovery.others s u still.recovery h,
)

IsQuiet-same :
    {links : String → ℕ} (s t u : Store) → SameTables t u → IsQuiet links s t → IsQuiet links s u
IsQuiet-same s t u k h = record {
  sound = IsSound-same t u k.entitlements (λ a. rw k.source_events) h.sound;
  rows = k.entitlements ∙ h.rows;
}

module _ {links : String → ℕ} (w : Surroundings) (rt : Runtime) (d : WebhookDeps)
    (still : IsStill links w) where
  audit_outcome-entitlements :
      (a type : String) (event_type : AuditType) (metadata : List (String × MetadataValue))
      (r : EventResult) (u : Store) {x : Unit {0}} {t : Store}
      → audit_outcome rt d a type event_type metadata r u ≡ ok x t
      → t.entitlements ≡ u.entitlements
  unfolding audit_outcome
  audit_outcome-entitlements a type event_type metadata EventResult.applied u h =
      (audited-SameTables rt d (some a) event_type metadata u h).entitlements
  audit_outcome-entitlements a type event_type metadata EventResult.replayed u h =
      (audited-SameTables rt d (some a) _ _ u h).entitlements
  audit_outcome-entitlements a type event_type metadata EventResult.stale u h = ground arith
  audit_outcome-entitlements a type event_type metadata EventResult.rejected u h = ground arith

  -- The entitlements as the transition left them, and the answer by its outcome.
  pub transition-Did :
      (op : Operation) (i : Input) (type : String) (event_type : AuditType)
      (metadata : List (String × MetadataValue)) (u : Store) {r : WebhookResult} {t : Store}
      → IsSound links u
      → transition_and_answer op w rt d i type event_type metadata u ≡ ok r t
      → (o : TransitionOutcome) × Did op i.account_id u o t
        × (r ≡ transition_outcome_to_webhook_result o type)
  unfolding transition_and_answer
  transition-Did op i type event_type metadata u {r} {t} sound run =
      after (membership_operation op w.sky rt i (transition_deps d)) _ u run λ o v did run1.
        after (audit_outcome rt d i.account_id type event_type metadata o.result) _ v run1
          λ x v' logged run2.
            let done =
              membership_operation-Did op (transition_deps d) u rt w.sky i o v
                (still-IsKeptBy w u still) sound did in
            let rows =
              audit_outcome-entitlements i.account_id type event_type metadata o.result v logged in
            let last : v' ≡ t = ground arith in (o, Did-later (rw (← last) rows) done, ground arith)

  -- An answer other than `applied` says that the entitlements are those of `s`.
  abbrev Unapplied : Store → Outcome WebhookResult → Type 0
  Unapplied s o =
      (r : WebhookResult) (t : Store)
      → o ≡ ok r t
      → ((type : String) → r ≢ WebhookResult.applied type)
      → t.entitlements ≡ s.entitlements

  transition-Unapplied :
      (s : Store) (op : Operation) (i : Input) (type : String) (event_type : AuditType)
      (metadata : List (String × MetadataValue)) (u : Store)
      → IsQuiet links s u
      → Unapplied s (transition_and_answer op w rt d i type event_type metadata u)
  unfolding transition_outcome_to_webhook_result
  transition-Unapplied s op i type event_type metadata u quiet r t run unapplied =
      let (o, did, answer) = transition-Did op i type event_type metadata u quiet.sound run in
      elim did.edge [
        | inl (applied, row, edge) ↦ absurd (unapplied type (ground arith))
        | inr (other, rows) ↦ rows ∙ quiet.rows
      ]

  -- An event that is rejected, ignored or answered as a replay changes no entitlement: where the tables
  -- are sound, the processing returns any answer but `applied`, and other sessions write no entitlement
  -- meanwhile and keep the tables sound, the table of entitlements is as before.
  pub webhook-unapplied :
      (ev : Event) (s : Store) (r : WebhookResult) (t : Store)
      → IsSound links s
      → process_stripe_webhook_event w rt d ev s ≡ ok r t
      → ((type : String) → r ≢ WebhookResult.applied type)
      → t.entitlements ≡ s.entitlements
  webhook-unapplied ev s r t h run unapplied =
      webhook-leads (IsQuiet links s) (Unapplied s) (λ a. Unit {0}) (λ e. Unit {0}) w rt d
        (λ u v k l. IsQuiet-same s u v k l)
        (λ u k. Leaves-IsQuiet w.lookup.others s u still.lookup k)
        (λ u k. Leaves-IsQuiet w.own.others s u still.own k)
        (λ a u k r t same un. ground (arith, k.rows)) (λ e u k r t same un. absurd (cc))
        (λ op i type event_type metadata u q k.
          transition-Unapplied s op i type event_type metadata u k)
        (λ ev c a u which done q k r t ran un. absurd (linked-applied ev c a u r t ran un)) ev s tt
        (λ u same a v ran. tt) (record { sound = h; rows = refl }) r t run unapplied
    where
      linked-applied :
          (ev : Event) (c : CheckoutSession) (a : String) (u : Store) (r : WebhookResult)
          (t : Store)
          → (under w.own (transaction (link_checkout w rt d c a))
                >> pure (WebhookResult.applied ev.type))
              u
            ≡ ok r t
          → ((type : String) → r ≢ WebhookResult.applied type)
          → ⊥
      linked-applied ev c a u r t ran un =
          after (under w.own (transaction (link_checkout w rt d c a)))
            (λ x. pure (WebhookResult.applied ev.type)) u ran
            (λ x v did rest. un ev.type (ground arith))
