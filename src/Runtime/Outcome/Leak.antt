-- ===== src/Runtime/Outcome/Leak.antt =====
-- The reservation of `submit_action` of crates/punkgo-kernel/src/runtime/kernel.rs is committed on
-- its own, before the payload of an execution is checked.
use punkgo_kernel.Prelude.{ℕ, ◌≡◌, refl, true, Option, none, String}
use punkgo_kernel.Prelude.Int.{ℤ, pos, ltb_ℤ, as_i64}
use punkgo_kernel.Core.Errors.{KernelError, ok, err}
use punkgo_kernel.Core.Json.{get_i64}
use punkgo_kernel.Core.Action.{Action, execute, quote_cost}
use punkgo_kernel.State.Ledger.{EnergyLedger, reserve_in_tx}
use punkgo_kernel.Runtime.Payload.{validate_execute_payload}
use punkgo_kernel.Runtime.Creation.{parse_create_actor_spec, parse_create_envelope_spec}
use punkgo_kernel.Runtime.World.{Externals, World, pure, check, read, transact, ◌>>=◌}
use punkgo_kernel.Runtime.Submit.{
  artifact_of, reserving, check_lifecycle, name_envelope, reserve_cost, reserve_energy, perform,
}

abbrev pub execution : {V : Type 0} → String → String → V → Option String → Action V
execution actor_id target payload timestamp = record {
  actor_id = actor_id;
  action_type = execute;
  target = target;
  payload = payload;
  timestamp = timestamp;
}

module _ {V : Type 0} (x : Externals V) (now : ℕ) where
  -- An execution whose payload is refused fails with that error, but the quoted cost, if it is
  -- positive and no other cost is named, stays reserved: the ledger afterwards is the one after the
  -- reservation, and nothing else has changed.
  pub perform-keeps_reservation :
      (actor_id target : String) (payload : V) (timestamp : Option String) (w : World V)
      (ledger : EnergyLedger) (cost : ℤ) (e : KernelError)
      → as_i64 (quote_cost x.json (execution actor_id target payload timestamp)) ≡ cost
      → get_i64 x.json payload "_hold_reserved_cost" ≡ none
      → ltb_ℤ (pos 0) cost ≡ true
      → reserve_in_tx actor_id cost now w.db.ledger ≡ ok ledger
      → validate_execute_payload x.json payload ≡ err e
      → perform x now (execution actor_id target payload timestamp) w
        ≡ (err e, record w { db = record w.db { ledger = ledger } })
  unfolding perform reserve_energy reserve_cost read check transact pure ◌>>=◌ check_lifecycle
      parse_create_actor_spec parse_create_envelope_spec name_envelope
  perform-keeps_reservation actor_id target payload timestamp w ledger cost e quoted named positive
        reserved refused =
      rw (named, quoted, positive, ◌>>=◌, transact, reserving, reserved, artifact_of, refused) refl
