-- ===== src/Runtime/Lifecycle.antt =====
-- crates/punkgo-kernel/src/runtime/lifecycle.rs: freezing, unfreezing and terminating agents.
pub mod Parse
pub mod Freeze
use punkgo_kernel.Prelude.{
  ℕ, ◌≡◌, Bool, true, false, not, Option, none, some, List, [], ◌∷◌, map, any, String,
  if◌then◌else◌, ◌==◌,
}
use punkgo_kernel.Prelude.Texts.{strip_prefix, is_empty}
use punkgo_kernel.Core.Errors.{
  KernelError, policy_violation, KernelResult, ok, err, raise_if, ◌>>=◌, ◌>>◌,
}
use punkgo_kernel.Core.Json.{Json, F64, get_str, get_f64}
use punkgo_kernel.Core.Actor.{
  ActorType, human, agent, active, frozen, ActorRecord, LifecycleOp, freeze, unfreeze, terminate,
  update_energy_share,
}
use punkgo_kernel.State.ActorStore.{
  ActorTable, Like, is_agent, is_active, set_status_in_tx, update_energy_share_in_tx,
  list_descendants,
}

abbrev pub share_op : Option F64 → Option LifecycleOp
share_op none = none
share_op (some energy_share) = some (update_energy_share energy_share)

module _ {V : Type 0} (j : Json V) where
  -- The operation that `payload.op` names.
  unfoldable pub named_op : String → V → Option LifecycleOp
  named_op op_str payload =
      let reason = get_str j payload "reason" in
      if op_str == "freeze"
      then some (freeze reason)
      else if op_str == "unfreeze"
      then some unfreeze
      else if op_str == "terminate"
      then some (terminate reason)
      else if op_str == "update_energy_share"
      then share_op (get_f64 j payload "energy_share")
      else none

  abbrev pub with_actor : String → Option LifecycleOp → Option (String × LifecycleOp)
  with_actor actor_id none = none
  with_actor actor_id (some op) = some (actor_id, op)

  unfoldable pub parse_lifecycle_op : String → V → Option (String × LifecycleOp)
  parse_lifecycle_op target payload = elim (strip_prefix "actor/" target) [
    | none ↦ none
    | some actor_id ↦ if is_empty actor_id then none else elim (get_str j payload "op") [
      | none ↦ none
      | some op_str ↦ with_actor actor_id (named_op op_str payload)
    ]
  ]

unfoldable pub validate_lifecycle_authorization :
    ActorRecord → ActorRecord → LifecycleOp → KernelResult (Unit {0})
validate_lifecycle_authorization initiator target _ = do
  raise_if (not (is_agent target.actor_type))
      (policy_violation "cannot perform lifecycle operations on human actors")
  raise_if (is_agent initiator.actor_type)
      (policy_violation "agent cannot perform lifecycle operations")
  raise_if (not (any (λ a. a == initiator.actor_id) target.lineage))
      (policy_violation "human cannot manage actor (not in lineage)")
  ok tt

-- The loop over the descendants.
unfoldable pub freeze_each : List ActorRecord → ℕ → ActorTable → KernelResult ActorTable
freeze_each [] now actors = ok actors
freeze_each (d ∷ ds) now actors =
    set_status_in_tx d.actor_id frozen now actors >>= freeze_each ds now

module _ (l : Like) where
  -- The ids frozen, and the table. The descendants are read outside the transaction, from the table
  -- before it.
  unfoldable pub execute_freeze : String → ℕ → ActorTable → KernelResult (List String × ActorTable)
  execute_freeze target_id now actors = do
    frozen_target ← set_status_in_tx target_id frozen now actors
    let descendants = list_descendants l target_id actors
    actors' ← freeze_each descendants now frozen_target
    ok (target_id ∷ map (λ d. d.actor_id) descendants, actors')

unfoldable pub execute_unfreeze : String → ℕ → ActorTable → KernelResult ActorTable
execute_unfreeze target_id now actors = set_status_in_tx target_id active now actors

unfoldable pub execute_update_energy_share : String → F64 → ℕ → ActorTable → KernelResult ActorTable
execute_update_energy_share target_id energy_share now actors =
    update_energy_share_in_tx target_id energy_share now actors

unfoldable pub check_lineage_active : ActorTable → List String → KernelResult (Unit {0})
check_lineage_active actors [] = ok tt
check_lineage_active actors (ancestor_id ∷ lineage) = do
  raise_if (not (is_active ancestor_id actors)) (policy_violation "lineage ancestor is not active")
  check_lineage_active actors lineage
