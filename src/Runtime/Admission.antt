-- ===== src/Runtime/Admission.antt =====
-- crates/punkgo-kernel/src/runtime/kernel.rs: the first step of `submit_action`, up to the check of
-- the hold rules. Marking an envelope as expired is committed at once: it stays also where a later
-- check fails, so that the step returns the table of envelopes beside its result.
pub mod Envelope
pub mod Standing
pub mod Sound
use punkgo_kernel.Prelude.{
  ℕ, ◌≡◌, Bool, true, false, not, ◌&&◌, Option, none, some, List, String, if◌then◌else◌,
}
use punkgo_kernel.Core.Errors.{
  KernelError, actor_not_found, actor_frozen, KernelResult, ok, err, raise_if, ok_or, ◌>>=◌, ◌>>◌,
}
use punkgo_kernel.Core.Json.{Json}
use punkgo_kernel.Core.Action.{Action, is_state_changing, as_str}
use punkgo_kernel.Core.Policy.{validate_action}
use punkgo_kernel.Core.Actor.{ActorRecord}
use punkgo_kernel.Core.Boundary.{GlobSet, check_writable_boundary}
use punkgo_kernel.Core.Consent.{
  EnvelopeRecord, EnvelopeStatus, expired, AuthorizationMode, man_in_the_loop, man_on_the_loop,
  is_envelope_expired, check_authorization, check_envelope_covers,
}
use punkgo_kernel.State.ActorStore
use punkgo_kernel.State.ActorStore.{ActorTable, is_agent, is_active_status}
use punkgo_kernel.State.EnvelopeStore.{EnvelopeTable, get_active_for_actor, set_status_in_tx}
use punkgo_kernel.Runtime.Lifecycle.{check_lineage_active}

-- The active envelope, unless its time is over: then it is marked, and there is none.
unfoldable pub drop_if_expired :
    Option EnvelopeRecord → ℕ → EnvelopeTable → KernelResult (Option EnvelopeRecord × EnvelopeTable)
drop_if_expired none now envelopes = ok (none, envelopes)
drop_if_expired (some env) now envelopes =
    let marked = set_status_in_tx env.envelope_id expired now envelopes in
    if is_envelope_expired env now then (marked >>= λ t. ok (none, t)) else ok (some env, envelopes)

module _ {V : Type 0} (j : Json V) (glob : GlobSet) where
  -- Frozen status, writable boundary, lineage.
  unfoldable pub check_standing : ActorTable → ActorRecord → Action V → KernelResult (Unit {0})
  check_standing actors actor action = do
    raise_if (not (is_active_status actor.status) && is_state_changing action.action_type)
        (actor_frozen "actor is frozen and cannot perform state-changing actions")
    check_writable_boundary glob actor action.target action.action_type
    if is_agent actor.actor_type && is_state_changing action.action_type
        then check_lineage_active actors actor.lineage
        else ok tt

  abbrev pub check_covers_if :
      AuthorizationMode → Option EnvelopeRecord → String → String → KernelResult (Unit {0})
  check_covers_if man_in_the_loop envelope target action = ok tt
  check_covers_if man_on_the_loop none target action = ok tt
  check_covers_if man_on_the_loop (some env) target action =
      check_envelope_covers glob env target action

  unfoldable pub authorize :
      ActorRecord → Option EnvelopeRecord → Action V → KernelResult (Unit {0})
  authorize actor envelope action = do
    auth_mode ← check_authorization actor envelope
    check_covers_if auth_mode envelope action.target (as_str action.action_type)

  unfoldable pub authorize_with_envelope :
      ActorRecord → Action V → ℕ → EnvelopeTable → EnvelopeTable × KernelResult (Unit {0})
  authorize_with_envelope actor action now envelopes =
      elim (drop_if_expired (get_active_for_actor action.actor_id envelopes) now envelopes) [
        | err e ↦ (envelopes, err e)
        | ok r ↦ (r.1, authorize actor r.0 action)
      ]

  unfoldable pub check_actor : ActorTable → Action V → KernelResult ActorRecord
  check_actor actors action = do
    validate_action j action
    actor ← ok_or (ActorStore.get action.actor_id actors) (actor_not_found action.actor_id)
    check_standing actors actor action
    ok actor

  unfoldable pub admit :
      ActorTable → Action V → ℕ → EnvelopeTable → EnvelopeTable × KernelResult (Unit {0})
  admit actors action now envelopes = elim (check_actor actors action) [
    | err e ↦ (envelopes, err e)
    | ok actor ↦
        if is_state_changing action.action_type
        then authorize_with_envelope actor action now envelopes
        else (envelopes, ok tt)
  ]
