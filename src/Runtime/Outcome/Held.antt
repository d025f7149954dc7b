-- ===== src/Runtime/Outcome/Held.antt =====
-- An action that meets a hold rule is not executed: `submit_action` of
-- crates/punkgo-kernel/src/runtime/kernel.rs.
use punkgo_kernel.Prelude.{
  ℕ, suc, ◌≡◌, ◌≢◌, ◌∙◌, ap, refl, sym, true, false, Option, none, some, List, String, arith,
  Bool-cases, Option-cases, inl, inr,
}
use punkgo_kernel.Core.Errors.{ok, ok-inj, Result-cases, chain-ok}
use punkgo_kernel.Core.Action.{
  Action, ActionType, observe, create, mutate, execute, is_state_changing, as_str,
}
use punkgo_kernel.Core.Actor.{agent, ActorRecord}
use punkgo_kernel.Core.Policy.{validate_action}
use punkgo_kernel.Core.Boundary.{GlobSet, glob_match}
use punkgo_kernel.Core.Boundary.Access.{
  Some, Some-map, word_of, as_str_lem, any_iff, any-eq_iff, and_iff,
}
use punkgo_kernel.Core.Json.{Json}
use punkgo_kernel.Core.Consent.{
  HoldRule, EnvelopeRecord, expired, check_hold_trigger, is_envelope_expired,
  determine_authorization_mode, require_active, check_authorization,
}
use punkgo_kernel.State.ActorStore
use punkgo_kernel.State.ActorStore.{ActorTable, is_agent}
use punkgo_kernel.State.EnvelopeStore.{EnvelopeTable, get_active_for_actor, set_status_in_tx}
use punkgo_kernel.Runtime.Admission.{
  drop_if_expired, check_standing, authorize, authorize_with_envelope, check_actor, admit,
}
use punkgo_kernel.Runtime.Charge.{is_agent_row}
use punkgo_kernel.Runtime.World.{Externals, World, KernelM, read}
use punkgo_kernel.Runtime.Holds.Requests.{hold_approved, check_holds}
use punkgo_kernel.Runtime.Submit.{SubmitReceipt, admit_action, acting_envelope, submit_action}
use punkgo_kernel.Runtime.Evolution.Rules.{bind-ok, Returns, Returns-bind}
use punkgo_kernel.Runtime.Depth.Enough.{trigger_hold-Returns}

module _ {V : Type 0} (j : Json V) (glob : GlobSet) where
  refused_without :
      (actor : ActorRecord) (action : Action V)
      → is_agent actor.actor_type ≡ true
      → authorize j glob actor none action ≢ ok tt
  unfolding authorize check_authorization determine_authorization_mode require_active
  refused_without actor action agent_ h = ground (arith, agent_, h)

  authorize-same :
      (actor : ActorRecord) (action : Action V) (now : ℕ) (envelopes : EnvelopeTable)
      (env : EnvelopeRecord)
      → is_agent actor.actor_type ≡ true
      → get_active_for_actor action.actor_id envelopes ≡ some env
      → (authorize_with_envelope j glob actor action now envelopes).1 ≡ ok tt
      → (authorize_with_envelope j glob actor action now envelopes).0 ≡ envelopes
  unfolding authorize_with_envelope drop_if_expired
  authorize-same actor action now envelopes env agent_ e h =
      elim (Bool-cases (is_envelope_expired env now)) [
        | inr c ↦ rw (authorize_with_envelope, e, drop_if_expired, c) refl
        | inl c ↦ elim (Result-cases (set_status_in_tx env.envelope_id expired now envelopes)) [
          | inl (x, d) ↦ rw (authorize_with_envelope, e, drop_if_expired, c, d) refl
          | inr (t, d) ↦ absurd (
              refused_without actor action agent_
                (rw (authorize_with_envelope, e, drop_if_expired, c, d) at h))
        ]
      ]

  check_actor-found :
      (actors : ActorTable) (action : Action V) (actor : ActorRecord)
      → check_actor j glob actors action ≡ ok actor
      → ActorStore.get action.actor_id actors ≡ some actor
  unfolding check_actor
  check_actor-found actors action actor h =
      elim (Option-cases (ActorStore.get action.actor_id actors)) [
        | inl e ↦ (let (u, a, h1) = chain-ok (validate_action j action) _ h in cc (rw e at h1))
        | inr (found, e) ↦
            (let (u, a, h1) = chain-ok (validate_action j action) _ h in
              let (u', b, h2) =
                chain-ok (check_standing j glob actors found action) _ (rw e at h1) in
              e ∙ ap (λ a. some a) (ok-inj h2))
      ]

  -- Where an agent is let through, its envelope is in force, and nothing has been written.
  admit-same :
      (actors : ActorTable) (action : Action V) (now : ℕ) (envelopes : EnvelopeTable)
      (env : EnvelopeRecord)
      → is_state_changing action.action_type ≡ true
      → is_agent_row (ActorStore.get action.actor_id actors) ≡ true
      → get_active_for_actor action.actor_id envelopes ≡ some env
      → (admit j glob actors action now envelopes).1 ≡ ok tt
      → (admit j glob actors action now envelopes).0 ≡ envelopes
  unfolding admit
  admit-same actors action now envelopes env changing agent_ e h =
      elim (Result-cases (check_actor j glob actors action)) [
        | inl (x, a) ↦ rw (admit, a) refl
        | inr (actor, a) ↦
            (let found = check_actor-found actors action actor a in
              rw (admit, a, changing)
                (authorize-same actor action now envelopes env (rw found at agent_) e
                  (rw (admit, a, changing) at h)))
      ]

module _ {V : Type 0} (x : Externals V) (now : ℕ) where
  check_holds-held :
      (action : Action V) (env : EnvelopeRecord)
      → hold_approved x now action ≡ false
      → check_hold_trigger x.glob env.hold_on action.target (as_str action.action_type) ≡ true
      → Returns (λ _. ⊥) (check_holds x now action (some env))
  unfolding check_holds
  check_holds-held action env open_ rule =
      Returns-bind _ _ _ λ u. rw (open_, rule) (trigger_hold-Returns x now action env)

  changes_state : (t : ActionType) → t ≢ observe → is_state_changing t ≡ true
  unfolding is_state_changing
  changes_state observe ne = absurd (ne refl)
  changes_state create ne = refl
  changes_state mutate ne = refl
  changes_state execute ne = refl

  agent_row :
      (o : Option ActorRecord) (actor : ActorRecord)
      → o ≡ some actor
      → actor.actor_type ≡ agent
      → is_agent_row o ≡ true
  agent_row o actor e a = rw (e, a) refl

  -- A rule names the action, by a pattern that matches its target and by the word of its type.
  abbrev pub Meets : String → ActionType → HoldRule → Type 0
  Meets target t rule =
      (glob_match x.glob rule.target target ≡ true) × Some (λ a. a ≡ word_of t) rule.actions

  check_hold_trigger-Meets :
      (rules : List HoldRule) (target : String) (t : ActionType)
      → Some (Meets target t) rules
      → check_hold_trigger x.glob rules target (as_str t) ≡ true
  unfolding check_hold_trigger
  check_hold_trigger-Meets rules target t m = rw (as_str_lem t) (
      (any_iff _ rules).1 (
        Some-map rules
          (λ rule r. (and_iff _ _).1 (r.0, (any-eq_iff (word_of t) rule.actions).1 r.1)) m))

  -- A creation, mutation or execution by an agent that meets a hold rule of the agent's active
  -- envelope, and does not say that it has been approved, never succeeds.
  pub submit_action-held :
      (exhausted : KernelM V SubmitReceipt) (fuel : ℕ) (action : Action V) (env : EnvelopeRecord)
      (w : World V) (r : SubmitReceipt)
      → action.action_type ≢ observe
      → (actor : ActorRecord) → ActorStore.get action.actor_id w.db.actors ≡ some actor
      → actor.actor_type ≡ agent
      → get_active_for_actor action.actor_id w.db.envelopes ≡ some env
      → Some (Meets action.target action.action_type) env.hold_on
      → hold_approved x now action ≡ false
      → (submit_action x now exhausted (suc fuel) action w).0 ≢ ok r
  unfolding submit_action admit_action read
  submit_action-held exhausted fuel action env w r ne actor known is_agent_ e meets open_ h =
      let changing = changes_state action.action_type ne in
      let agent_ = agent_row (ActorStore.get action.actor_id w.db.actors) actor known is_agent_ in
      let rule = check_hold_trigger-Meets env.hold_on action.target action.action_type meets in
      let (u, admitted, h1, w1) = bind-ok (admit_action x now action) _ w r h in
      let (envelope, same, h2, w2) = bind-ok (read (acting_envelope x now action)) _ _ r h1 in
      let (u', held, h3, w3) = bind-ok (check_holds x now action envelope) _ _ r h2 in
      let kept =
        admit-same x.json x.glob w.db.actors action now w.db.envelopes env changing agent_ e
          admitted in
      let acting : envelope ≡ some env =
        sym (ok-inj same) ∙ rw (acting_envelope, changing, agent_, kept) e in
      (check_holds-held action env open_ rule).value _ u' (rw acting at held)
