-- ===== src/Runtime/Submit/Responses.antt =====
-- crates/punkgo-kernel/src/runtime/kernel.rs: the steps of `execute_hold_response`.
use punkgo_kernel.Prelude.{
  ℕ, true, ◌&&◌, Option, none, some, List, [], ◌∷◌, String, if◌then◌else◌, ◌==◌, unwrap_or,
}
use punkgo_kernel.Prelude.Int.{ℤ, pos, ltb_ℤ}
use punkgo_kernel.Prelude.Texts.{decimal}
use punkgo_kernel.Core.Errors.{policy_violation, actor_not_found, KernelResult, ok, err}
use punkgo_kernel.Core.Json.{get_str}
use punkgo_kernel.Core.Action.{Action}
use punkgo_kernel.Core.Consent.{EnvelopeRecord}
use punkgo_kernel.State.EventLog.{EventRecord}
use punkgo_kernel.State.ActorStore
use punkgo_kernel.State.ActorStore.{ActorTable, is_agent}
use punkgo_kernel.State.EnvelopeStore.{HoldRequest, get_hold_request, is_pending}
use punkgo_kernel.Runtime.World.{Externals, KernelM, pure, fail, check, transact, draw, ◌>>=◌, ◌>>◌}
use punkgo_kernel.Runtime.Holds.{
  object, trigger_object, hold_event, hold_action, hash_of, is_timed_out, resolve_tx,
  reserved_cost_of, commitment_cost_of,
}
use punkgo_kernel.Runtime.Holds.Requests.{expire_timed_out_holds}
use punkgo_kernel.Runtime.Submit.Stages.{action_type_of}

module _ {V : Type 0} (x : Externals V) (now : ℕ) where
  -- The check of `execute_hold_response` on the time of the hold.
  abbrev pub overdue_under : HoldRequest V → Option ℤ → Option ℤ
  overdue_under hold none = none
  overdue_under hold (some timeout_secs) =
      if ltb_ℤ (pos 0) timeout_secs && is_timed_out timeout_secs hold.triggered_at now
      then some timeout_secs
      else none

  abbrev pub overdue : HoldRequest V → Option EnvelopeRecord → Option ℤ
  overdue hold none = none
  overdue hold (some env) = overdue_under hold env.hold_timeout_secs

  unfoldable pub refuse_overdue : HoldRequest V → Option ℤ → KernelM V (Unit {0})
  refuse_overdue hold none = pure tt
  refuse_overdue hold (some timeout_secs) = do
    expire_timed_out_holds x now hold.envelope_id timeout_secs
    fail (policy_violation "hold_request has timed out and was auto-rejected")

  -- The checks before the decision is written.
  unfoldable pub find_hold :
      Action V → String → ActorTable → List (HoldRequest V) → KernelResult (HoldRequest V)
  find_hold human_action hold_id actors holds = elim (ActorStore.get human_action.actor_id actors) [
    | none ↦ err (actor_not_found human_action.actor_id)
    | some caller ↦
        if is_agent caller.actor_type
        then err (policy_violation "only Human actors can resolve holds")
        else elim (get_hold_request hold_id holds) [
          | none ↦ err (policy_violation "hold_request not found")
          | some hold ↦
              if is_pending hold.status
              then ok hold
              else err (policy_violation "hold_request is already resolved")
        ]
  ]

  abbrev pub text_or_null : Option String → V
  text_or_null none = x.json.null
  text_or_null (some s) = x.json.of_str s

  abbrev pub response_payload : Action V → HoldRequest V → String → Option String → V
  response_payload human_action hold decision instruction = object x now (
      ("hold_id", x.json.of_str hold.hold_id)
      ∷ ("agent_id", x.json.of_str hold.agent_id)
      ∷ ("decision", x.json.of_str decision)
      ∷ ("instruction", text_or_null instruction)
      ∷ ("trigger", trigger_object x now hold.trigger_target hold.trigger_action)
      ∷ ("resolved_by", x.json.of_str human_action.actor_id)
      ∷ ("resolved_at", x.json.of_str (decimal now))
      ∷ [])

  abbrev pub with_instruction : Option String → V → V
  with_instruction none payload = payload
  with_instruction (some instr) payload =
      x.json.insert payload "_hold_instruction" (x.json.of_str instr)

  abbrev pub approved_payload : V → ℤ → Option String → V
  approved_payload payload reserved_cost instruction = with_instruction instruction (
      x.json.insert (x.json.insert payload "_hold_approved" (x.json.of_bool true))
        "_hold_reserved_cost" (x.json.of_i64 reserved_cost))

  -- The action that was held, marked as approved; a payload that is no object is replaced by one.
  unfoldable pub pending_action : HoldRequest V → Option String → Action V
  pending_action hold instruction =
      let held = unwrap_or (x.json.get hold.pending_payload "payload") x.json.null in
      record {
        actor_id = hold.agent_id;
        action_type =
            action_type_of
              (unwrap_or (get_str x.json hold.pending_payload "action_type") hold.trigger_action);
        target = unwrap_or (get_str x.json hold.pending_payload "target") hold.trigger_target;
        payload =
            approved_payload (if x.json.is_object held then held else x.json.empty_object)
              (reserved_cost_of x now hold) instruction;
        timestamp = none;
      }

  -- The transaction that writes the decision, and its event.
  unfoldable pub write_decision :
      Action V → HoldRequest V → String → Option String → KernelM V (EventRecord V)
  write_decision human_action hold decision instruction = do
    let reserved_cost = reserved_cost_of x now hold
    let settles = decision == "reject" && ltb_ℤ (pos 0) reserved_cost
    let commitment_cost = commitment_cost_of x now settles reserved_cost
    let payload = response_payload human_action hold decision instruction
    id ← draw x.uuid
    payload_hash ←
        check (hash_of x now (hold_action x now human_action.actor_id hold.hold_id payload))
    transact (
        resolve_tx x now hold.hold_id decision instruction settles hold.agent_id reserved_cost
          commitment_cost
          (hold_event x now id human_action.actor_id "hold_response" hold.hold_id payload
            payload_hash reserved_cost commitment_cost))
