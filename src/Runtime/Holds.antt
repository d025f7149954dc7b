-- ===== src/Runtime/Holds.antt =====
-- crates/punkgo-kernel/src/runtime/kernel.rs: the transactions on actions that wait for a human, and
-- the events that they append. A transaction is a function from the tables to an error or new ones.
pub mod Requests
use punkgo_kernel.Prelude.{
  ℕ, ◌+◌, ◌-◌, ◌*◌, ◌%◌, ◌≡◌, Bool, true, false, not, ◌&&◌, ◌||◌, Option, none, some, List, [], ◌∷◌,
  String, if◌then◌else◌, ◌==◌, ltb, unwrap_or,
}
use Prim.Native.String.{◌++◌}
use punkgo_kernel.Prelude.Int.{ℤ, pos, ltb_ℤ, as_i64, as_u64, u64_mod}
use punkgo_kernel.Prelude.Texts.{decimal}
use punkgo_kernel.Core.Errors.{KernelError, KernelResult, ok, err, ◌>>=◌, ◌>>◌}
use punkgo_kernel.Core.Json.{Json, get_i64, get_bool}
use punkgo_kernel.Core.Action.{Action, mutate, as_str, quote_cost, payload_hash_hex}
use punkgo_kernel.Core.Consent.{EnvelopeRecord, HoldRule, check_hold_trigger}
use punkgo_kernel.State.Ledger.{EnergyLedger, reserve_in_tx, settle_in_tx}
use punkgo_kernel.State.EventLog.{EventRecord, assign_and_insert}
use punkgo_kernel.State.EnvelopeStore.{
  HoldRequest, NewHoldRequest, create_hold_request_in_tx, resolve_hold_request_in_tx,
  list_pending_holds_for_envelope, parse_u64,
}
use punkgo_kernel.State.AuditLog.{append_leaf_in_tx}
use punkgo_kernel.Runtime.Commit.{Db}
use punkgo_kernel.Runtime.World.{Externals}

-- `if reserved_cost > 0 { reserve }`, and the same for a settlement that is made or not.
unfoldable pub reserve_if : String → ℤ → ℕ → EnergyLedger → KernelResult EnergyLedger
reserve_if agent_id cost now ledger =
    if ltb_ℤ (pos 0) cost then reserve_in_tx agent_id cost now ledger else ok ledger

unfoldable pub settle_when : Bool → String → ℤ → ℤ → ℕ → EnergyLedger → KernelResult EnergyLedger
settle_when false agent_id reserved_cost cost now ledger = ok ledger
settle_when true agent_id reserved_cost cost now ledger =
    settle_in_tx agent_id reserved_cost cost now ledger

-- `now.saturating_sub(triggered_at) > (timeout_secs as u64) * 1000`
unfoldable pub is_timed_out : ℤ → ℕ → ℕ → Bool
is_timed_out timeout_secs triggered_at now =
    ltb (as_u64 timeout_secs * 1000 % u64_mod) (now % u64_mod - parse_u64 triggered_at)

module _ {V : Type 0} (x : Externals V) (now : ℕ) where
  abbrev put_all : V → List (String × V) → V
  put_all v [] = v
  put_all v (f ∷ fs) = put_all (x.json.insert v f.0 f.1) fs

  -- `json!({ … })`
  abbrev pub object : List (String × V) → V
  object fields = put_all x.json.empty_object fields

  abbrev pub trigger_object : String → String → V
  trigger_object target action_type =
      object (("target", x.json.of_str target) ∷ ("action_type", x.json.of_str action_type) ∷ [])

  abbrev pub hold_target : String → String
  hold_target hold_id = "ledger/hold/" ++ hold_id

  -- An event of the kernel on a hold, before it has an index and a hash.
  abbrev pub hold_event : String → String → String → String → V → List ℕ → ℤ → ℤ → EventRecord V
  hold_event id actor_id action_type hold_id payload payload_hash reserved settled = record {
    id = id;
    log_index = 0;
    event_hash = [];
    actor_id = actor_id;
    action_type = action_type;
    target = hold_target hold_id;
    payload = payload;
    payload_hash = payload_hash;
    artifact_hash = none;
    reserved_energy = reserved;
    settled_energy = settled;
    timestamp = now;
  }

  -- The action whose payload is hashed for such an event.
  abbrev pub hold_action : String → String → V → Action V
  hold_action actor_id hold_id payload = record {
    actor_id = actor_id;
    action_type = mutate;
    target = hold_target hold_id;
    payload = payload;
    timestamp = none;
  }

  abbrev pub hash_of : Action V → KernelResult (List ℕ)
  hash_of action = payload_hash_hex x.json x.hashing.sha256 action

  -- The transaction of the hold trigger: reserve, append the event, store the request.
  unfoldable pub trigger_tx :
      String → ℤ → EventRecord V → NewHoldRequest V → Db V → KernelResult (EventRecord V × Db V)
  trigger_tx agent_id cost event req db = do
    ledger ← reserve_if agent_id cost now db.ledger
    appended ← assign_and_insert x.hashing event db.events
    holds ← create_hold_request_in_tx req now db.envelopes db.holds
    audit_hashes ←
        append_leaf_in_tx x.tlog appended.0.log_index appended.0.event_hash db.audit_hashes
    ok (
      appended.0,
      record db {
        ledger = ledger;
        events = appended.1;
        holds = holds;
        audit_hashes = audit_hashes;
      },
    )

  -- The transaction that decides a hold: resolve it, settle its energy, append the event.
  unfoldable pub resolve_tx :
      String
      → String
      → Option String
      → Bool
      → String
      → ℤ
      → ℤ
      → EventRecord V
      → Db V
      → KernelResult (EventRecord V × Db V)
  resolve_tx hold_id decision instruction settles agent_id reserved_cost cost event db = do
    holds ← resolve_hold_request_in_tx hold_id decision instruction now db.holds
    ledger ← settle_when settles agent_id reserved_cost cost now db.ledger
    appended ← assign_and_insert x.hashing event db.events
    audit_hashes ←
        append_leaf_in_tx x.tlog appended.0.log_index appended.0.event_hash db.audit_hashes
    ok (
      appended.0,
      record db {
        ledger = ledger;
        events = appended.1;
        holds = holds;
        audit_hashes = audit_hashes;
      },
    )

  -- `pending_payload.get("reserved_cost").and_then(|v| v.as_i64()).unwrap_or(0)`
  abbrev pub reserved_cost_of : HoldRequest V → ℤ
  reserved_cost_of hold = unwrap_or (get_i64 x.json hold.pending_payload "reserved_cost") (pos 0)

  -- What a hold costs that is not approved: a fifth of the reservation, rounded up.
  abbrev pub commitment_cost_of : Bool → ℤ → ℤ
  commitment_cost_of settles reserved_cost =
      if settles && ltb_ℤ (pos 0) reserved_cost then x.ceil_fifth reserved_cost else pos 0
