-- ===== src/Tests/Commit.antt =====
-- The transaction that finalizes an action, at a concrete input.
use punkgo_kernel.Prelude.{
  ℕ, zero, suc, ◌+◌, ◌*◌, ◌≡◌, refl, none, some, List, [], ◌∷◌, String, arith,
}
use punkgo_kernel.Prelude.Int.{ℤ, pos, ◌+ℤ◌, ◌-ℤ◌, ◌<ℤ◌, wrap_i64, as_i64, i64_mod}
use punkgo_kernel.Core.Errors.{ok}
use punkgo_kernel.Core.Action.{bytes_to_hex, lut}
use punkgo_kernel.Core.Policy.{is_blank, is_whitespace}
use punkgo_kernel.Core.Actor.{agent, CreateActorSpec}
use punkgo_kernel.State.Ledger.{EnergyRow, EnergyReservation, settle_in_tx, create_actor_in_tx}
use punkgo_kernel.State.Ledger.Steps.{total}
use punkgo_kernel.State.EventLog.{
  EventRecord, Hashing, canonical, compute_event_hash, next_idx, assign_and_insert,
}
use punkgo_kernel.State.EventLog.Append.{Appended}
use punkgo_kernel.State.ActorStore
use punkgo_kernel.State.ActorStore.{new_actor}
use punkgo_kernel.State.AuditLog.{
  Tlog, hex_to_hash, bytes_of, byte_of, put_hash, put_hashes, climb, append_leaf_in_tx,
}
use punkgo_kernel.Runtime.Commit.{
  Db, settle_if, create_actor_if, create_envelope_if, finalize_energy_and_event,
}
use punkgo_kernel.Runtime.Commit.Keeps.{IsConsistent, finalize_energy_and_event-IsConsistent}
use punkgo_kernel.Tests.Fixtures.{Value, null, alice, budgeted}

abbrev repeat : ℕ → ℕ → List ℕ
repeat zero x = []
repeat (suc n) x = x ∷ repeat n x

-- A hash that is always 32 zero bytes, and a tree that keeps the left child.
abbrev hashing : Hashing
hashing = record { to_vec = λ c. some []; sha256 = λ bytes. repeat 32 0 }

abbrev tlog : Tlog
tlog = record { stored_hash_index = λ level n. level * 1000 + n; node_hash = λ left right. left }

abbrev account : String → ℤ → ℤ → ℕ → EnergyRow
account id balance reserved now = record {
  actor_id = id;
  energy_balance = balance;
  reserved_energy = reserved;
  updated_at = now;
}

abbrev creation : EventRecord Value
creation = record {
  id = "ev";
  log_index = 0;
  event_hash = [];
  actor_id = "alice";
  action_type = "create";
  target = "ledger/actor";
  payload = null;
  payload_hash = [];
  artifact_hash = none;
  reserved_energy = pos 11;
  settled_energy = pos 11;
  timestamp = 4;
}

abbrev db : Db Value
db = record {
  ledger = account "alice" (pos 100) (pos 11) 1 ∷ [];
  events = [];
  actors = alice ∷ [];
  envelopes = budgeted ∷ [];
  holds = [];
  audit_hashes = [];
}

abbrev spec : CreateActorSpec
spec = record {
  actor_id = "alice/bot/2";
  actor_type = agent;
  creator_id = "alice";
  lineage = "alice" ∷ [];
  purpose = some "bot";
  writable_targets = [];
  energy_balance = pos 50;
  energy_share = 0;
  reduction_policy = "none";
}

abbrev reservation : EnergyReservation
reservation = record { actor_id = "alice"; reserved = pos 11 }

abbrev committed_event : EventRecord Value
committed_event = record creation { event_hash = repeat 64 b'0' }

abbrev committed : Db Value
committed = record {
  ledger = account "alice" (pos 89) (pos 0) 9 ∷ account "alice/bot/2" (pos 50) (pos 0) 9 ∷ [];
  events = committed_event ∷ [];
  actors = alice ∷ new_actor 9 spec ∷ [];
  envelopes = budgeted ∷ [];
  holds = [];
  audit_hashes = (0, repeat 32 0) ∷ [];
}

commits :
    finalize_energy_and_event hashing tlog
      (some reservation)
      (pos 11)
      (some spec)
      none
      creation
      9
      db
    ≡ ok (committed_event, committed)
unfolding finalize_energy_and_event settle_if create_actor_if create_envelope_if settle_in_tx
    create_actor_in_tx ActorStore.create_in_tx ActorStore.get is_blank is_whitespace
    assign_and_insert compute_event_hash canonical next_idx bytes_to_hex lut append_leaf_in_tx
    hex_to_hash bytes_of byte_of climb put_hash put_hashes wrap_i64 as_i64 ◌-ℤ◌ ◌+ℤ◌
commits = refl

db-IsConsistent : IsConsistent hashing tlog db
db-IsConsistent = record {
  sound =
      (record { reserved_nonneg = omega arith; covered = omega arith; small = omega arith }, tt);
  indexed = tt;
  funded = (record { nonneg = omega arith; within = omega arith; small = omega arith }, tt);
}

db-fits : total db.ledger +ℤ pos 50 <ℤ pos i64_mod
unfolding ◌+ℤ◌
db-fits = omega arith

finalize_energy_and_event-IsConsistent_example :
    IsConsistent hashing tlog committed
    × Appended hashing creation [] committed_event committed.events
    × (total committed.ledger +ℤ pos 11 ≡ total db.ledger +ℤ pos 50)
    × (committed.holds ≡ db.holds)
finalize_energy_and_event-IsConsistent_example =
    finalize_energy_and_event-IsConsistent hashing tlog (some reservation) (pos 11) (some spec) none
      creation 9 db committed_event committed db-IsConsistent (omega arith) (omega arith)
      (omega arith) tt db-fits commits
