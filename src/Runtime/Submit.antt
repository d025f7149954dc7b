-- ===== src/Runtime/Submit.antt =====
-- crates/punkgo-kernel/src/runtime/kernel.rs: `submit_action` and `execute_hold_response`.
-- The two call each other: an approved action is submitted again. `fuel` bounds the depth.
pub mod Stages
pub mod Responses
use punkgo_kernel.Prelude.{ℕ, zero, suc, Option, none, some, String, if◌then◌else◌, ◌==◌}
use punkgo_kernel.Core.Action.{Action}
use punkgo_kernel.State.EnvelopeStore
use punkgo_kernel.Runtime.Payload.{parse_policy_version}
use punkgo_kernel.Runtime.Commit.{finalize_energy_and_event}
use punkgo_kernel.Runtime.World.{Externals, KernelM, pure, check, read, transact, draw, ◌>>=◌, ◌>>◌}
use punkgo_kernel.Runtime.Holds.{hash_of}
use punkgo_kernel.Runtime.Holds.Requests.{check_holds}
use punkgo_kernel.Runtime.Creation.{parse_create_actor_spec, parse_create_envelope_spec}
pub use punkgo_kernel.Runtime.Submit.Stages.{SubmitReceipt}
unfoldable pub use punkgo_kernel.Runtime.Submit.Stages.{
  receipt_of, is_mutate, is_execute, action_type_of, acting_envelope, admit_action,
  hold_response_of, lifecycle_op_of, check_lifecycle, name_envelope, reserving, phantom,
  reserve_cost, reserve_energy, artifact_of, event_of, record_policy, charging, apply_lifecycle,
  logging_errors, run_lifecycle,
}
unfoldable pub use punkgo_kernel.Runtime.Submit.Responses.{
  overdue_under, overdue, refuse_overdue, find_hold, text_or_null, response_payload,
  with_instruction, approved_payload, pending_action, write_decision,
}

module _ {V : Type 0} (x : Externals V) (now : ℕ) where
  -- All of `submit_action` behind the decision that the action is no answer to a hold.
  unfoldable pub perform : Action V → KernelM V SubmitReceipt
  perform action = do
    let lifecycle_op = lifecycle_op_of x now action
    actors ← read (λ db. db.actors)
    check (check_lifecycle x now action lifecycle_op actors)
    create_actor ← check (parse_create_actor_spec x action actors)
    envelopes ← read (λ db. db.envelopes)
    granted ← check (parse_create_envelope_spec x action envelopes)
    create_envelope ← name_envelope x now granted
    reserved ← reserve_energy x now action
    artifact_hash ← check (artifact_of x now action)
    id ← draw x.uuid
    payload_hash ← check (hash_of x now action)
    event ← transact (
        finalize_energy_and_event x.hashing x.tlog reserved.1 reserved.0 create_actor
          create_envelope (event_of x now action id payload_hash artifact_hash reserved.0) now)
    record_policy x now (parse_policy_version x.json action)
    transact (charging x now action reserved.0)
    run_lifecycle x now lifecycle_op
    pure (receipt_of event)

  unfoldable pub execute_hold_response :
      (Action V → KernelM V SubmitReceipt)
      → Action V
      → String
      → String
      → Option String
      → KernelM V SubmitReceipt
  execute_hold_response resubmit human_action hold_id decision instruction = do
    actors ← read (λ db. db.actors)
    holds ← read (λ db. db.holds)
    hold ← check (find_hold x now human_action hold_id actors holds)
    envelope ← read (λ db. EnvelopeStore.get hold.envelope_id db.envelopes)
    refuse_overdue x now hold (overdue x now hold envelope)
    event ← write_decision x now human_action hold decision instruction
    if decision == "approve"
        then resubmit (pending_action x now hold instruction)
        else pure (receipt_of event)

  -- An answer to a hold, or any other action.
  unfoldable pub respond :
      (Action V → KernelM V SubmitReceipt)
      → Action V
      → Option (String × String × Option String)
      → KernelM V SubmitReceipt
  respond resubmit action none = perform action
  respond resubmit action (some (hold_id, decision, instruction)) =
      execute_hold_response resubmit action hold_id decision instruction

  -- `exhausted` is what a submission does at a depth that `fuel` does not allow.
  unfoldable pub submit_action : KernelM V SubmitReceipt → ℕ → Action V → KernelM V SubmitReceipt
  submit_action exhausted zero action = exhausted
  submit_action exhausted (suc fuel) action = do
    admit_action x now action
    envelope ← read (acting_envelope x now action)
    check_holds x now action envelope
    respond (submit_action exhausted fuel) action (hold_response_of x now action)
