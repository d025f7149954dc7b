-- ===== src/Runtime/Submit/Stages.antt =====
-- crates/punkgo-kernel/src/runtime/kernel.rs: the steps of `submit_action` for an action that is no
-- answer to a hold, in their order.
use punkgo_kernel.Prelude.{
  ℕ, Bool, true, false, ◌&&◌, Option, none, some, List, [], String, if◌then◌else◌, ◌==◌,
}
use punkgo_kernel.Prelude.Int.{ℤ, pos, ltb_ℤ, as_i64}
use punkgo_kernel.Core.Errors.{actor_not_found, KernelResult, ok, err}
use punkgo_kernel.Core.Json.{get_i64}
use punkgo_kernel.Core.Action.{
  Action, ActionType, observe, create, mutate, execute, is_state_changing, as_str, quote_cost,
}
use punkgo_kernel.Core.Actor.{LifecycleOp, freeze, unfreeze, terminate, update_energy_share}
use punkgo_kernel.Core.Consent.{EnvelopeSpec, EnvelopeRecord}
use punkgo_kernel.State.Ledger.{EnergyReservation, reserve_in_tx}
use punkgo_kernel.State.EventLog.{EventRecord}
use punkgo_kernel.State.ActorStore
use punkgo_kernel.State.ActorStore.{ActorTable, is_agent}
use punkgo_kernel.State.EnvelopeStore
use punkgo_kernel.State.EnvelopeStore.{EnvelopeTable, HoldRequest, get_hold_request, is_pending}
use punkgo_kernel.State.Store.{set_policy_version}
use punkgo_kernel.Runtime.Lifecycle.{
  parse_lifecycle_op, validate_lifecycle_authorization, execute_freeze, execute_unfreeze,
  execute_update_energy_share,
}
use punkgo_kernel.Runtime.Admission.{admit}
use punkgo_kernel.Runtime.Payload.{validate_execute_payload, parse_hold_response}
use punkgo_kernel.Runtime.Charge.{charge_after_commit, is_agent_row}
use punkgo_kernel.Runtime.Commit.{Db}
use punkgo_kernel.Runtime.World.{Externals, KernelM, pure, transact, draw, write_meta, ◌>>=◌, ◌>>◌}

pub record SubmitReceipt : Type 0 where
  pub event_id : String
  pub log_index : ℕ
  pub event_hash : List ℕ
  pub reserved_cost : ℤ
  pub settled_cost : ℤ
  pub artifact_hash : Option String

module _ {V : Type 0} where
  abbrev pub receipt_of : EventRecord V → SubmitReceipt
  receipt_of event = record {
    event_id = event.id;
    log_index = event.log_index;
    event_hash = event.event_hash;
    reserved_cost = event.reserved_energy;
    settled_cost = event.settled_energy;
    artifact_hash = event.artifact_hash;
  }

abbrev pub is_mutate : ActionType → Bool
is_mutate mutate = true
is_mutate _ = false

abbrev pub is_execute : ActionType → Bool
is_execute execute = true
is_execute _ = false

-- `match orig_action_type_str.as_str()`
unfoldable pub action_type_of : String → ActionType
action_type_of s =
    if s == "observe"
    then observe
    else if s == "create"
    then create
    else if s == "mutate"
    then mutate
    else execute

module _ {V : Type 0} (x : Externals V) (now : ℕ) where
  -- The first step up to the hold rules, with the envelope under which the action is let through: it
  -- is the one that `admit` has looked up, since nothing is written between the two.
  abbrev pub acting_envelope : Action V → Db V → Option EnvelopeRecord
  acting_envelope action db =
      if is_state_changing action.action_type
        && is_agent_row (ActorStore.get action.actor_id db.actors)
      then EnvelopeStore.get_active_for_actor action.actor_id db.envelopes
      else none

  unfoldable pub admit_action : Action V → KernelM V (Unit {0})
  admit_action action w =
      let r = admit x.json x.glob w.db.actors action now w.db.envelopes in
      (r.1, record w { db = record w.db { envelopes = r.0 } })

  abbrev pub hold_response_of : Action V → Option (String × String × Option String)
  hold_response_of action =
      if is_mutate action.action_type
      then parse_hold_response x.json action.target action.payload
      else none

  abbrev pub lifecycle_op_of : Action V → Option (String × LifecycleOp)
  lifecycle_op_of action =
      if is_mutate action.action_type
      then parse_lifecycle_op x.json action.target action.payload
      else none

  unfoldable pub check_lifecycle :
      Action V → Option (String × LifecycleOp) → ActorTable → KernelResult (Unit {0})
  check_lifecycle action none actors = ok tt
  check_lifecycle action (some (target_actor_id, op)) actors =
      elim (ActorStore.get action.actor_id actors) [
        | none ↦ err (actor_not_found action.actor_id)
        | some initiator ↦ elim (ActorStore.get target_actor_id actors) [
          | none ↦ err (actor_not_found target_actor_id)
          | some target_actor ↦ validate_lifecycle_authorization initiator target_actor op
        ]
      ]

  -- The id of a new envelope.
  unfoldable pub name_envelope :
      Option (EnvelopeSpec × Option String)
      → KernelM V (Option (String × EnvelopeSpec × Option String))
  name_envelope none = pure none
  name_envelope (some (spec, parent)) = do
    envelope_id ← draw x.uuid
    pure (some (envelope_id, spec, parent))

  abbrev pub reserving : String → ℤ → Db V → KernelResult (Unit {0} × Db V)
  reserving actor_id cost db = elim (reserve_in_tx actor_id cost now db.ledger) [
    | err e ↦ err e
    | ok ledger ↦ ok (tt, record db { ledger = ledger })
  ]

  abbrev pub phantom : String → ℤ → Option EnergyReservation
  phantom actor_id cost =
      if ltb_ℤ (pos 0) cost then some (record { actor_id = actor_id; reserved = cost }) else none

  -- The second and the third step: the quoted cost is reserved, unless the payload says that a cost
  -- has been reserved when the action was held.
  unfoldable pub reserve_cost : Action V → Option ℤ → KernelM V (ℤ × Option EnergyReservation)
  reserve_cost action (some hold_reserved) =
      pure (hold_reserved, phantom action.actor_id hold_reserved)
  reserve_cost action none =
      let cost = as_i64 (quote_cost x.json action) in
      if ltb_ℤ (pos 0) cost
      then (transact (reserving action.actor_id cost) >> pure (cost, phantom action.actor_id cost))
      else pure (cost, none)

  unfoldable pub reserve_energy : Action V → KernelM V (ℤ × Option EnergyReservation)
  reserve_energy action = reserve_cost action (get_i64 x.json action.payload "_hold_reserved_cost")

  abbrev pub artifact_of : Action V → KernelResult (Option String)
  artifact_of action =
      if is_execute action.action_type
      then (elim (validate_execute_payload x.json action.payload) [
        | err e ↦ err e
        | ok artifact_hash ↦ ok (some artifact_hash)
      ])
      else ok none

  abbrev pub event_of : Action V → String → List ℕ → Option String → ℤ → EventRecord V
  event_of action id payload_hash artifact_hash cost = record {
    id = id;
    log_index = 0;
    event_hash = [];
    actor_id = action.actor_id;
    action_type = as_str action.action_type;
    target = action.target;
    payload = action.payload;
    payload_hash = payload_hash;
    artifact_hash = artifact_hash;
    reserved_energy = cost;
    settled_energy = cost;
    timestamp = now;
  }

  unfoldable pub record_policy : Option String → KernelM V (Unit {0})
  record_policy none = pure tt
  record_policy (some version) = write_meta (set_policy_version version)

  abbrev pub charging : Action V → ℤ → Db V → KernelResult (Unit {0} × Db V)
  charging action cost db =
      elim (charge_after_commit db.actors action.action_type action.actor_id cost now
        db.envelopes) [
          | err e ↦ err e
          | ok envelopes ↦ ok (tt, record db { envelopes = envelopes })
        ]

  unfoldable pub apply_lifecycle : String → LifecycleOp → ActorTable → KernelResult ActorTable
  apply_lifecycle target (freeze reason) actors = elim (execute_freeze x.like target now actors) [
    | err e ↦ err e
    | ok r ↦ ok r.1
  ]
  apply_lifecycle target unfreeze actors = execute_unfreeze target now actors
  apply_lifecycle target (terminate reason) actors =
      elim (execute_freeze x.like target now actors) [ err e ↦ err e | ok r ↦ ok r.1 ]
  apply_lifecycle target (update_energy_share energy_share) actors =
      execute_update_energy_share target energy_share now actors

  -- An error is only logged, and its transaction rolled back.
  abbrev pub logging_errors : KernelResult ActorTable → Db V → KernelResult (Unit {0} × Db V)
  logging_errors (err e) db = ok (tt, db)
  logging_errors (ok actors) db = ok (tt, record db { actors = actors })

  unfoldable pub run_lifecycle : Option (String × LifecycleOp) → KernelM V (Unit {0})
  run_lifecycle none = pure tt
  run_lifecycle (some (target, op)) =
      transact (λ db. logging_errors (apply_lifecycle target op db.actors) db)
