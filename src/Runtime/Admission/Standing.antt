-- ===== src/Runtime/Admission/Standing.antt =====
-- The two halves of the first step of `submit_action` of crates/punkgo-kernel/src/runtime/kernel.rs:
-- the checks of the actor, and those of its envelope.
use punkgo_kernel.Prelude.{
  ℕ, ◌≡◌, ◌≢◌, ◌↔◌, ◌∙◌, sym, refl, true, false, Option, none, some, All, arith, Bool-cases,
  Option-cases, ◌⊎◌, inl, inr,
}
use punkgo_kernel.Core.Errors.{KernelResult, ok}
use punkgo_kernel.Core.Json.{Json}
use punkgo_kernel.Core.Action.{Action, is_state_changing, as_str}
use punkgo_kernel.Core.Actor.{ActorType, human, agent, ActorRecord}
use punkgo_kernel.Core.Boundary.{GlobSet}
use punkgo_kernel.Core.Boundary.Access.{MayWrite, check_writable_boundary_iff}
use punkgo_kernel.Core.Consent.{
  EnvelopeRecord, is_active, is_envelope_expired, check_authorization, require_active,
  determine_authorization_mode, check_envelope_covers,
}
use punkgo_kernel.State.ActorStore
use punkgo_kernel.State.ActorStore.{ActorTable, is_agent, is_active_status}
use punkgo_kernel.State.EnvelopeStore.{EnvelopeTable, get_active_for_actor}
use punkgo_kernel.Runtime.Lifecycle.Parse.{check_lineage_active-All}
use punkgo_kernel.Runtime.Admission.{
  drop_if_expired, check_standing, authorize, authorize_with_envelope,
}
use punkgo_kernel.Runtime.Admission.Envelope.{get_active_for_actor-IsActiveFor, drop_if_expired-due}

type-cases : (t : ActorType) → (t ≡ human) ⊎ (t ≡ agent)
type-cases human = inl refl
type-cases agent = inr refl

module _ {V : Type 0} (j : Json V) (glob : GlobSet) where
  -- The checks of the actor alone.
  pub record Stands (actors : ActorTable) (action : Action V) (actor : ActorRecord) : Type 0 where
    pub thawed : is_active_status actor.status ≡ true
    pub writes : MayWrite glob actor action.target action.action_type
    pub lineage :
        (is_agent actor.actor_type ≡ false)
        ⊎ All (λ a. ActorStore.is_active a actors ≡ true) actor.lineage

  pub standing_iff :
      (actors : ActorTable) (actor : ActorRecord) (action : Action V)
      → is_state_changing action.action_type ≡ true
      → (check_standing j glob actors actor action ≡ ok tt) ↔ Stands actors action actor
  unfolding check_standing
  standing_iff actors actor action changing = (sound, complete)
    where
      sound : check_standing j glob actors actor action ≡ ok tt → Stands actors action actor
      sound h = record {
        thawed = ground arith;
        writes =
            (check_writable_boundary_iff glob actor action.target action.action_type).0
              (ground arith);
        lineage = elim (Bool-cases (is_agent actor.actor_type)) [
          | inl a ↦ inr ((check_lineage_active-All actors actor.lineage).0 (ground arith))
          | inr a ↦ inl a
        ];
      }

      complete : Stands actors action actor → check_standing j glob actors actor action ≡ ok tt
      complete s =
          let w =
            (check_writable_boundary_iff glob actor action.target action.action_type).1 s.writes in
          elim s.lineage [
            | inl a ↦ rw (s.thawed, w, a) refl
            | inr all ↦
                (let l = (check_lineage_active-All actors actor.lineage).1 all in
                  ground (arith, s.thawed, w, l))
          ]

  -- A human needs no envelope, and an agent one that covers the action.
  authorize-human :
      (actor : ActorRecord) (envelope : Option EnvelopeRecord) (action : Action V)
      → is_agent actor.actor_type ≡ false
      → authorize j glob actor envelope action ≡ ok tt
  unfolding authorize check_authorization determine_authorization_mode
  authorize-human actor envelope action h = elim (type-cases actor.actor_type) [
    | inl e ↦ rw e refl
    | inr e ↦ ground (arith, h, e)
  ]

  authorize-agent :
      (actor : ActorRecord) (env : EnvelopeRecord) (action : Action V)
      → is_agent actor.actor_type ≡ true
      → is_active env.status ≡ true
      → authorize j glob actor (some env) action
        ≡ check_envelope_covers glob env action.target (as_str action.action_type)
  unfolding authorize check_authorization determine_authorization_mode require_active
  authorize-agent actor env action h a = elim (type-cases actor.actor_type) [
    | inl e ↦ ground (arith, h, e)
    | inr e ↦ rw (e, a) refl
  ]

  authorize-none :
      (actor : ActorRecord) (action : Action V)
      → is_agent actor.actor_type ≡ true
      → authorize j glob actor none action ≢ ok tt
  unfolding authorize check_authorization determine_authorization_mode require_active
  authorize-none actor action h run = elim (type-cases actor.actor_type) [
    | inl e ↦ ground (arith, h, e)
    | inr e ↦ (let run' = rw e at run in cc)
  ]

  module _ (actor : ActorRecord) (action : Action V) (now : ℕ) (envelopes : EnvelopeTable) where
    abbrev outcome : KernelResult (Unit {0})
    outcome = (authorize_with_envelope j glob actor action now envelopes).1

    outcome-none :
        get_active_for_actor action.actor_id envelopes ≡ none
        → outcome ≡ authorize j glob actor none action
    unfolding authorize_with_envelope drop_if_expired
    outcome-none e = rw (outcome, e) refl

    outcome-live :
        (env : EnvelopeRecord)
        → get_active_for_actor action.actor_id envelopes ≡ some env
        → is_envelope_expired env now ≡ false
        → outcome ≡ authorize j glob actor (some env) action
    unfolding authorize_with_envelope drop_if_expired
    outcome-live env e live = rw (outcome, e, live) refl

    outcome-due :
        (env : EnvelopeRecord)
        → get_active_for_actor action.actor_id envelopes ≡ some env
        → is_envelope_expired env now ≡ true
        → outcome ≡ authorize j glob actor none action
    unfolding authorize_with_envelope
    outcome-due env e due =
        let found = get_active_for_actor-IsActiveFor action.actor_id envelopes env e in
        let dropped = drop_if_expired-due env now envelopes found.stored due in
        rw (outcome, e, dropped.2) refl

    -- A covering envelope in force.
    unfoldable pub HasEnvelope : Type 0
    HasEnvelope =
        (env : EnvelopeRecord) × (get_active_for_actor action.actor_id envelopes ≡ some env)
        × (is_envelope_expired env now ≡ false)
        × (check_envelope_covers glob env action.target (as_str action.action_type) ≡ ok tt)

    pub outcome-human : is_agent actor.actor_type ≡ false → outcome ≡ ok tt
    outcome-human h = elim (Option-cases (get_active_for_actor action.actor_id envelopes)) [
      | inl e ↦ outcome-none e ∙ authorize-human actor none action h
      | inr (env, e) ↦ elim (Bool-cases (is_envelope_expired env now)) [
        | inl due ↦ outcome-due env e due ∙ authorize-human actor none action h
        | inr live ↦ outcome-live env e live ∙ authorize-human actor (some env) action h
      ]
    ]

    pub outcome-agent : is_agent actor.actor_type ≡ true → (outcome ≡ ok tt) ↔ HasEnvelope
    unfolding HasEnvelope
    outcome-agent a = (sound, complete)
      where
        covers :
            (env : EnvelopeRecord)
            → get_active_for_actor action.actor_id envelopes ≡ some env
            → is_envelope_expired env now ≡ false
            → outcome ≡ check_envelope_covers glob env action.target (as_str action.action_type)
        covers env e live =
            outcome-live env e live
            ∙ authorize-agent actor env action a
                (get_active_for_actor-IsActiveFor action.actor_id envelopes env e).active

        sound : outcome ≡ ok tt → HasEnvelope
        sound run = elim (Option-cases (get_active_for_actor action.actor_id envelopes)) [
          | inl e ↦ absurd (authorize-none actor action a (sym (outcome-none e) ∙ run))
          | inr (env, e) ↦ elim (Bool-cases (is_envelope_expired env now)) [
            | inl due ↦ absurd (authorize-none actor action a (sym (outcome-due env e due) ∙ run))
            | inr live ↦ (env, e, live, sym (covers env e live) ∙ run)
          ]
        ]

        complete : HasEnvelope → outcome ≡ ok tt
        complete (env, e, live, c) = covers env e live ∙ c
