-- ===== src/Runtime/Charge.antt =====
-- crates/punkgo-kernel/src/runtime/kernel.rs: what `submit_action` does to the envelope after an
-- event is committed. A failing consumption is logged, and its transaction rolled back.
pub mod Budget
use punkgo_kernel.Prelude.{
  ℕ, ◌≡◌, Bool, true, false, not, ◌&&◌, Option, none, some, String, if◌then◌else◌,
}
use punkgo_kernel.Prelude.Int.{ℤ, pos, ltb_ℤ}
use punkgo_kernel.Core.Errors.{KernelError, KernelResult, ok, err}
use punkgo_kernel.Core.Action.{ActionType, is_state_changing}
use punkgo_kernel.Core.Actor.{ActorRecord}
use punkgo_kernel.Core.Consent.{
  EnvelopeRecord, expired, CheckpointLevel, report, halt, check_checkpoint,
}
use punkgo_kernel.State.ActorStore
use punkgo_kernel.State.ActorStore.{ActorTable, is_agent}
use punkgo_kernel.State.EnvelopeStore.{
  EnvelopeTable, get_active_for_actor, consume_budget_in_tx, set_status_in_tx,
}

-- The level of the checkpoint, after the consumption.
unfoldable pub apply_checkpoint :
    Option CheckpointLevel → String → ℕ → EnvelopeTable → KernelResult EnvelopeTable
apply_checkpoint none envelope_id now envelopes = ok envelopes
apply_checkpoint (some report) envelope_id now envelopes = ok envelopes
apply_checkpoint (some halt) envelope_id now envelopes =
    set_status_in_tx envelope_id expired now envelopes

unfoldable pub charge_envelope : EnvelopeRecord → ℤ → ℕ → EnvelopeTable → KernelResult EnvelopeTable
charge_envelope envelope settled_cost now envelopes =
    elim (consume_budget_in_tx envelope.envelope_id settled_cost now envelopes) [
      | err e ↦ ok envelopes
      | ok r ↦
          apply_checkpoint (check_checkpoint envelope settled_cost) envelope.envelope_id now r.1
    ]

abbrev pub is_agent_row : Option ActorRecord → Bool
is_agent_row none = false
is_agent_row (some actor) = is_agent actor.actor_type

unfoldable pub charge_after_commit :
    ActorTable → ActionType → String → ℤ → ℕ → EnvelopeTable → KernelResult EnvelopeTable
charge_after_commit actors action_type actor_id settled_cost now envelopes =
    if is_state_changing action_type
      && ltb_ℤ (pos 0) settled_cost
      && is_agent_row (ActorStore.get actor_id actors)
    then (elim (get_active_for_actor actor_id envelopes) [
      | none ↦ ok envelopes
      | some envelope ↦ charge_envelope envelope settled_cost now envelopes
    ])
    else ok envelopes
