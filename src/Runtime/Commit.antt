-- ===== src/Runtime/Commit.antt =====
-- crates/punkgo-kernel/src/runtime/kernel.rs: `finalize_energy_and_event`, the transaction that
-- settles the energy of an action, creates the actor or the envelope that it asks for, and appends
-- its event to the log and to the Merkle tree.
pub mod Keeps
use punkgo_kernel.Prelude.{ℕ, ◌≡◌, Option, none, some, List, [], ◌∷◌, String}
use punkgo_kernel.Prelude.Int.{ℤ}
use punkgo_kernel.Core.Errors.{KernelError, KernelResult, ok, err, ◌>>=◌, ◌>>◌}
use punkgo_kernel.Core.Actor.{CreateActorSpec}
use punkgo_kernel.Core.Consent.{EnvelopeSpec}
use punkgo_kernel.State.Ledger.{EnergyLedger, EnergyReservation, settle_in_tx, create_actor_in_tx}
use punkgo_kernel.State.EventLog.{EventRecord, Hashing, assign_and_insert}
use punkgo_kernel.State.ActorStore
use punkgo_kernel.State.ActorStore.{ActorTable}
use punkgo_kernel.State.EnvelopeStore
use punkgo_kernel.State.EnvelopeStore.{EnvelopeTable, HoldRequest}
use punkgo_kernel.State.AuditLog.{Tlog, HashTable, append_leaf_in_tx}

-- The tables that actions write, but for `system_meta` and the checkpoints of the tree.
pub record Db (V : Type 0) : Type 0 where
  pub ledger : EnergyLedger
  pub events : List (EventRecord V)
  pub actors : ActorTable
  pub envelopes : EnvelopeTable
  pub holds : List (HoldRequest V)
  pub audit_hashes : HashTable

-- The energy settlement, if there is a reservation.
unfoldable pub settle_if :
    Option EnergyReservation → ℤ → ℕ → EnergyLedger → KernelResult EnergyLedger
settle_if none settled_cost now ledger = ok ledger
settle_if (some res) settled_cost now ledger =
    settle_in_tx res.actor_id res.reserved settled_cost now ledger

-- The new actor, if there is one: its account, and its row.
unfoldable pub create_actor_if :
    Option CreateActorSpec
    → ℕ
    → EnergyLedger
    → ActorTable
    → KernelResult (EnergyLedger × ActorTable)
create_actor_if none now ledger actors = ok (ledger, actors)
create_actor_if (some spec) now ledger actors = do
  ledger' ← create_actor_in_tx spec.actor_id spec.energy_balance now ledger
  actors' ← ActorStore.create_in_tx spec now actors
  ok (ledger', actors')

unfoldable pub create_envelope_if :
    Option (String × EnvelopeSpec × Option String) → ℕ → EnvelopeTable → KernelResult EnvelopeTable
create_envelope_if none now envelopes = ok envelopes
create_envelope_if (some (envelope_id, spec, parent_id)) now envelopes =
    EnvelopeStore.create_in_tx now envelope_id spec parent_id envelopes

module _ {V : Type 0} (hashing : Hashing) (t : Tlog) where
  -- The event as it is written, and the tables after the commit. An error rolls all of it back.
  unfoldable pub finalize_energy_and_event :
      Option EnergyReservation
      → ℤ
      → Option CreateActorSpec
      → Option (String × EnvelopeSpec × Option String)
      → EventRecord V
      → ℕ
      → Db V
      → KernelResult (EventRecord V × Db V)
  finalize_energy_and_event reservation settled_cost create_actor create_envelope event now db = do
    settled ← settle_if reservation settled_cost now db.ledger
    created ← create_actor_if create_actor now settled db.actors
    envelopes ← create_envelope_if create_envelope now db.envelopes
    appended ← assign_and_insert hashing event db.events
    audit_hashes ← append_leaf_in_tx t appended.0.log_index appended.0.event_hash db.audit_hashes
    ok (
      appended.0,
      record db {
        ledger = created.0;
        actors = created.1;
        envelopes = envelopes;
        events = appended.1;
        audit_hashes = audit_hashes;
      },
    )
