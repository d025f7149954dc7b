-- ===== src/Runtime/Holds/Requests.antt =====
-- crates/punkgo-kernel/src/runtime/kernel.rs: the hold trigger of `submit_action`, and
-- `expire_timed_out_holds`.
use punkgo_kernel.Prelude.{
  ℕ, Bool, true, false, not, ◌&&◌, Option, none, some, List, [], ◌∷◌, String, if◌then◌else◌,
  unwrap_or,
}
use punkgo_kernel.Prelude.Int.{ℤ, pos, ltb_ℤ, as_i64, u64_mod}
use Prim.Native.Nat.{◌%◌}
use punkgo_kernel.Prelude.Texts.{decimal}
use punkgo_kernel.Core.Errors.{hold_triggered}
use punkgo_kernel.Core.Json.{get_bool}
use punkgo_kernel.Core.Action.{Action, as_str, quote_cost}
use punkgo_kernel.Core.Consent.{EnvelopeRecord, check_hold_trigger}
use punkgo_kernel.State.EventLog.{EventRecord}
use punkgo_kernel.State.EnvelopeStore.{
  HoldRequest, NewHoldRequest, list_pending_holds_for_envelope, parse_u64,
}
use punkgo_kernel.Runtime.World.{
  Externals, KernelM, pure, fail, check, read, transact, draw, ◌>>=◌, ◌>>◌,
}
use punkgo_kernel.Runtime.Holds.{
  object, trigger_object, hold_event, hold_action, hash_of, is_timed_out, trigger_tx, resolve_tx,
  reserved_cost_of, commitment_cost_of,
}

module _ {V : Type 0} (x : Externals V) (now : ℕ) where
  abbrev pub action_object : Action V → List (String × V)
  action_object action =
      ("target", x.json.of_str action.target)
      ∷ ("action_type", x.json.of_str (as_str action.action_type))
      ∷ ("payload", action.payload)
      ∷ []

  abbrev pub hold_payload : Action V → String → ℤ → V
  hold_payload action hold_id reserved_cost = object x now (
      ("hold_id", x.json.of_str hold_id)
      ∷ ("agent_id", x.json.of_str action.actor_id)
      ∷ ("trigger", trigger_object x now action.target (as_str action.action_type))
      ∷ ("pending_action", object x now (action_object action))
      ∷ ("reserved_cost", x.json.of_i64 reserved_cost)
      ∷ ("triggered_at", x.json.of_str (decimal now))
      ∷ [])

  abbrev pub hold_request : Action V → String → String → ℤ → NewHoldRequest V
  hold_request action envelope_id hold_id reserved_cost = record {
    hold_id = hold_id;
    envelope_id = envelope_id;
    agent_id = action.actor_id;
    trigger_target = action.target;
    trigger_action = as_str action.action_type;
    pending_payload =
        x.json.insert (object x now (action_object action)) "reserved_cost"
          (x.json.of_i64 reserved_cost);
  }

  -- The action is not executed: it is stored, its energy reserved, and the caller told so.
  unfoldable pub trigger_hold : Action V → EnvelopeRecord → KernelM V (Unit {0})
  trigger_hold action env = do
    hold_id ← draw x.uuid
    let reserved_cost = as_i64 (quote_cost x.json action)
    let payload = hold_payload action hold_id reserved_cost
    id ← draw x.uuid
    payload_hash ← check (hash_of x now (hold_action x now action.actor_id hold_id payload))
    transact (
        trigger_tx x now action.actor_id reserved_cost
          (hold_event x now id action.actor_id "hold_request" hold_id payload payload_hash
            reserved_cost (pos 0))
          (hold_request action env.envelope_id hold_id reserved_cost))
    fail (hold_triggered hold_id action.actor_id)

  abbrev pub timeout_payload : HoldRequest V → ℤ → ℤ → V
  timeout_payload hold reserved_cost commitment_cost = object x now (
      ("hold_id", x.json.of_str hold.hold_id)
      ∷ ("agent_id", x.json.of_str hold.agent_id)
      ∷ ("decision", x.json.of_str "timed_out")
      ∷ ("reserved_cost", x.json.of_i64 reserved_cost)
      ∷ ("commitment_cost", x.json.of_i64 commitment_cost)
      ∷ ("triggered_at", x.json.of_str (decimal (parse_u64 hold.triggered_at)))
      ∷ ("expired_at", x.json.of_str (decimal (now % u64_mod)))
      ∷ [])

  -- The body of the loop, for a hold whose time is over.
  unfoldable pub expire_hold : HoldRequest V → KernelM V (EventRecord V)
  expire_hold hold = do
    let reserved_cost = reserved_cost_of x now hold
    let commitment_cost = commitment_cost_of x now true reserved_cost
    let payload = timeout_payload hold reserved_cost commitment_cost
    id ← draw x.uuid
    payload_hash ← check (hash_of x now (hold_action x now hold.agent_id hold.hold_id payload))
    transact (
        resolve_tx x now hold.hold_id "timed_out" none (ltb_ℤ (pos 0) reserved_cost) hold.agent_id
          reserved_cost commitment_cost
          (hold_event x now id hold.agent_id "hold_timeout" hold.hold_id payload payload_hash
            reserved_cost commitment_cost))

  unfoldable pub expire_each : ℤ → List (HoldRequest V) → KernelM V (Unit {0})
  expire_each timeout_secs [] = pure tt
  expire_each timeout_secs (hold ∷ holds) =
      (if is_timed_out timeout_secs hold.triggered_at now
        then (expire_hold hold >> pure tt)
        else pure tt)
      >> expire_each timeout_secs holds

  unfoldable pub expire_timed_out_holds : String → ℤ → KernelM V (Unit {0})
  expire_timed_out_holds envelope_id timeout_secs = do
    holds ← read (λ db. list_pending_holds_for_envelope envelope_id db.holds)
    expire_each timeout_secs holds

  abbrev pub is_nil : {A : Type 0} → List A → Bool
  is_nil [] = true
  is_nil (_ ∷ _) = false

  unfoldable pub expire_after : String → Option ℤ → KernelM V (Unit {0})
  expire_after envelope_id none = pure tt
  expire_after envelope_id (some timeout_secs) =
      if ltb_ℤ (pos 0) timeout_secs
      then expire_timed_out_holds envelope_id timeout_secs
      else pure tt

  unfoldable pub expire_if_due : EnvelopeRecord → KernelM V (Unit {0})
  expire_if_due env =
      if is_nil env.hold_on then pure tt else expire_after env.envelope_id env.hold_timeout_secs

  -- Whether the payload says that a human has approved the action.
  abbrev pub hold_approved : Action V → Bool
  hold_approved action = unwrap_or (get_bool x.json action.payload "_hold_approved") false

  -- The last part of the first step of `submit_action`, under the envelope that covers the action.
  unfoldable pub check_holds : Action V → Option EnvelopeRecord → KernelM V (Unit {0})
  check_holds action none = pure tt
  check_holds action (some env) = do
    expire_if_due env
    if not (hold_approved action)
          && check_hold_trigger x.glob env.hold_on action.target (as_str action.action_type)
        then trigger_hold action env
        else pure tt
