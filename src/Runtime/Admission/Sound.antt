-- ===== src/Runtime/Admission/Sound.antt =====
-- Who gets past the first step of `submit_action` of crates/punkgo-kernel/src/runtime/kernel.rs.
use punkgo_kernel.Prelude.{
  ℕ, ◌≡◌, ◌↔◌, ◌∙◌, sym, refl, true, false, some, All, if◌then◌else◌, arith, Bool-cases,
  Option-cases, inl, inr,
}
use punkgo_kernel.Core.Errors.{KernelError, ok, err, Result-cases}
use punkgo_kernel.Core.Json.{Json, HasSizes}
use punkgo_kernel.Core.Action.{
  ActionType, observe, create, mutate, execute, Action, is_state_changing, as_str,
}
use punkgo_kernel.Core.Policy.{is_blank, validate_action, validate_action_iff}
use punkgo_kernel.Core.Actor.{ActorRecord}
use punkgo_kernel.Core.Boundary.{GlobSet, check_writable_boundary}
use punkgo_kernel.Core.Boundary.Access.{MayWrite}
use punkgo_kernel.Core.Consent.{EnvelopeRecord, is_envelope_expired, check_envelope_covers}
use punkgo_kernel.State.ActorStore
use punkgo_kernel.State.ActorStore.{ActorTable, is_agent, is_active_status}
use punkgo_kernel.State.EnvelopeStore.{EnvelopeTable, get_active_for_actor}
use punkgo_kernel.Runtime.Admission.{check_standing, authorize_with_envelope, check_actor, admit}
use punkgo_kernel.Runtime.Admission.Standing.{
  Stands, standing_iff, HasEnvelope, outcome-human, outcome-agent,
}

observe_of : (t : ActionType) → is_state_changing t ≡ false → t ≡ observe
unfolding is_state_changing
observe_of observe h = refl
observe_of create h = cc
observe_of mutate h = cc
observe_of execute h = cc

module _ {V : Type 0} (j : Json V) (glob : GlobSet) where
  -- Who may do what, in the words of PIP-001: anybody observes; a human who is not frozen writes
  -- inside its boundary; an agent needs besides an active line of creators and an envelope, in force
  -- and covering the action.
  pub data MayAct (actors : ActorTable) (envelopes : EnvelopeTable) (now : ℕ) (action : Action V)
      (actor : ActorRecord) : Type 0 where
    by_anyone : action.action_type ≡ observe → MayAct actors envelopes now action actor
    as_human :
        is_state_changing action.action_type ≡ true
        → is_agent actor.actor_type ≡ false
        → is_active_status actor.status ≡ true
        → MayWrite glob actor action.target action.action_type
        → MayAct actors envelopes now action actor
    as_agent :
        (env : EnvelopeRecord)
        → is_state_changing action.action_type ≡ true
        → is_agent actor.actor_type ≡ true
        → is_active_status actor.status ≡ true
        → MayWrite glob actor action.target action.action_type
        → All (λ a. ActorStore.is_active a actors ≡ true) actor.lineage
        → get_active_for_actor action.actor_id envelopes ≡ some env
        → is_envelope_expired env now ≡ false
        → check_envelope_covers glob env action.target (as_str action.action_type) ≡ ok tt
        → MayAct actors envelopes now action actor

  lineage_of :
      (actors : ActorTable) (action : Action V) (actor : ActorRecord)
      → is_agent actor.actor_type ≡ true
      → Stands j glob actors action actor
      → All (λ a. ActorStore.is_active a actors ≡ true) actor.lineage
  lineage_of actors action actor agent s = elim s.lineage [ inl human ↦ cc | inr all ↦ all ]

  -- Past the checks of names, presence and standing, `admit` is the check of the envelope for an action
  -- that changes state, and nothing for an observation.
  module _ (actors : ActorTable) (action : Action V) (now : ℕ) (envelopes : EnvelopeTable) where
    abbrev IsNamed : Type 0
    IsNamed = (is_blank action.actor_id ≡ false) × (is_blank action.target ≡ false)

    check_actor_iff :
        HasSizes j
        → (actor : ActorRecord)
        → (check_actor j glob actors action ≡ ok actor) ↔ (
            IsNamed
            × (ActorStore.get action.actor_id actors ≡ some actor)
            × (check_standing j glob actors actor action ≡ ok tt))
    unfolding check_actor
    check_actor_iff sizes actor = (
      λ h. elim (Option-cases (ActorStore.get action.actor_id actors)) [
        | inl e ↦ ground (arith, h, e, validate_action_iff j sizes action)
        | inr (found, e) ↦ elim (Result-cases (check_standing j glob actors found action)) [
          | inl (x, c) ↦ ground (arith, h, e, c, validate_action_iff j sizes action)
          | inr (u, c) ↦
              (let same : found ≡ actor =
                  ground (arith, h, e, c, validate_action_iff j sizes action) in
                (
                  (
                    ground (arith, h, validate_action_iff j sizes action),
                    ground (arith, h, validate_action_iff j sizes action),
                  ),
                  rw (← same) e,
                  rw (← same) c,
                ))
        ]
      ],
      λ ((n, t), e, c).
          (let v : validate_action j action ≡ ok tt =
              validate_action_iff j sizes action ∙ rw (n, t) refl in
            rw (v, e, c) refl),
    )

    admit-err :
        (x : KernelError)
        → check_actor j glob actors action ≡ err x
        → (admit j glob actors action now envelopes).1 ≡ err x
    unfolding admit
    admit-err x h = rw (admit, h) refl

    admit-ok :
        (actor : ActorRecord)
        → check_actor j glob actors action ≡ ok actor
        → (admit j glob actors action now envelopes).1 ≡ (
            if is_state_changing action.action_type
            then (authorize_with_envelope j glob actor action now envelopes).1
            else ok tt)
    unfolding admit
    admit-ok actor h = elim (Bool-cases (is_state_changing action.action_type)) [
      | inl c ↦ rw (admit, h, c) refl
      | inr c ↦ rw (admit, h, c) refl
    ]

    standing-observe :
        (actor : ActorRecord)
        → action.action_type ≡ observe
        → check_standing j glob actors actor action ≡ ok tt
    unfolding check_standing check_writable_boundary is_state_changing
    standing-observe actor h = elim (Bool-cases (is_active_status actor.status)) [
      | inl a ↦ elim (Bool-cases (is_agent actor.actor_type)) [
        | inl b ↦ rw (h, a, b) refl
        | inr b ↦ rw (h, a, b) refl
      ]
      | inr a ↦ elim (Bool-cases (is_agent actor.actor_type)) [
        | inl b ↦ rw (h, a, b) refl
        | inr b ↦ rw (h, a, b) refl
      ]
    ]

    -- The checks behind `check_actor`.
    act_sound :
        (actor : ActorRecord)
        → check_standing j glob actors actor action ≡ ok tt
        → (if is_state_changing action.action_type
            then (authorize_with_envelope j glob actor action now envelopes).1
            else ok tt)
          ≡ ok tt
        → MayAct actors envelopes now action actor
    unfolding HasEnvelope
    act_sound actor stands run = elim (Bool-cases (is_state_changing action.action_type)) [
      | inr c ↦ by_anyone (observe_of action.action_type c)
      | inl c ↦
          (let s = (standing_iff j glob actors actor action c).0 stands in
            let run' = rw c at run in
            elim (Bool-cases (is_agent actor.actor_type)) [
              | inr human ↦ as_human c human s.thawed s.writes
              | inl agent ↦
                  (let (env, e, live, covers) =
                      (outcome-agent j glob actor action now envelopes agent).0 run' in
                    as_agent env c agent s.thawed s.writes (lineage_of actors action actor agent s)
                      e live covers)
            ])
    ]

    act_complete :
        (actor : ActorRecord)
        → MayAct actors envelopes now action actor
        → (check_standing j glob actors actor action ≡ ok tt)
          × ((if is_state_changing action.action_type
                then (authorize_with_envelope j glob actor action now envelopes).1
                else ok tt)
              ≡ ok tt)
    unfolding HasEnvelope is_state_changing
    act_complete actor (by_anyone o) = (standing-observe actor o, rw o refl)
    act_complete actor (as_human c human thawed writes) = (
      (standing_iff j glob actors actor action c).1
          (record { thawed = thawed; writes = writes; lineage = inl human }),
      rw c (outcome-human j glob actor action now envelopes human),
    )
    act_complete actor (as_agent env c agent thawed writes lineage e live covers) = (
      (standing_iff j glob actors actor action c).1
          (record { thawed = thawed; writes = writes; lineage = inr lineage }),
      rw c ((outcome-agent j glob actor action now envelopes agent).1 (env, e, live, covers)),
    )

    -- The first step of a submission lets an action through exactly if its names are not blank, its
    -- actor is in the table, and the actor may act: it observes, or it is a human inside its boundary
    -- who is not frozen, or an agent inside its boundary who is not frozen, whose creators are all
    -- active and whose active envelope is in force and covers the action.
    pub admit_iff :
        HasSizes j
        → ((admit j glob actors action now envelopes).1 ≡ ok tt) ↔ (
            IsNamed
            × ((actor : ActorRecord) × (ActorStore.get action.actor_id actors ≡ some actor)
                × MayAct actors envelopes now action actor))
    admit_iff sizes = (
      λ h. elim (Result-cases (check_actor j glob actors action)) [
        | inl (x, c) ↦ (let failed = admit-err x c in cc)
        | inr (actor, c) ↦
            (let (named, found, stands) = (check_actor_iff sizes actor).0 c in
              (named, (actor, found, act_sound actor stands (sym (admit-ok actor c) ∙ h))))
      ],
      λ (named, (actor, found, may)).
          (let (stands, run) = act_complete actor may in
            admit-ok actor ((check_actor_iff sizes actor).1 (named, found, stands)) ∙ run),
    )
