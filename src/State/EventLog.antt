-- ===== src/State/EventLog.antt =====
-- crates/punkgo-kernel/src/state/event_log.rs: the table `events`, its rows in insertion order.
-- Hashes are texts of hexadecimal digits, as lists of character codes. SHA-256 and the serializer of
-- `CanonicalEvent` are parameters.
pub mod Append
pub mod Query
use punkgo_kernel.Prelude.{
  ℕ, ◌+◌, ◌≡◌, Bool, true, false, ◌&&◌, Option, none, some, List, [], ◌∷◌, ◌++◌, String, length,
  any, take, keep_if, if◌then◌else◌, ◌==◌, ltb, leb,
}
use punkgo_kernel.Prelude.Int.{ℤ, pos, negsuc, ltb_ℤ}
use punkgo_kernel.Core.Errors.{
  KernelError, json, db, KernelResult, ok, raise_if, ok_or, ◌>>=◌, ◌>>◌,
}
use punkgo_kernel.Core.Action.{bytes_to_hex}

pub record EventRecord (V : Type 0) : Type 0 where
  pub id : String
  pub log_index : ℕ
  pub event_hash : List ℕ
  pub actor_id : String
  pub action_type : String
  pub target : String
  pub payload : V
  pub payload_hash : List ℕ
  pub artifact_hash : Option String
  pub reserved_energy : ℤ
  pub settled_energy : ℤ
  pub timestamp : ℕ

pub record CanonicalEvent : Type 0 where
  pub action_type : String
  pub actor_id : String
  pub artifact_hash : Option String
  pub event_id : String
  pub log_index : ℕ
  pub payload_hash : List ℕ
  pub reserved_energy : ℤ
  pub settled_energy : ℤ
  pub timestamp : ℕ
  pub v : String

-- `serde_json::to_vec` on canonical events, and SHA-256.
pub record Hashing : Type 0 where
  pub to_vec : CanonicalEvent → Option (List ℕ)
  pub sha256 : List ℕ → List ℕ

module _ {V : Type 0} where
  unfoldable pub canonical : EventRecord V → CanonicalEvent
  canonical event = record {
    action_type = event.action_type;
    actor_id = event.actor_id;
    artifact_hash = event.artifact_hash;
    event_id = event.id;
    log_index = event.log_index;
    payload_hash = event.payload_hash;
    reserved_energy = event.reserved_energy;
    settled_energy = event.settled_energy;
    timestamp = event.timestamp;
    v = "punkgo-event-v1";
  }

  unfoldable pub compute_event_hash : Hashing → EventRecord V → KernelResult (List ℕ)
  unfolding canonical
  compute_event_hash hashing event = do
    json_bytes ← ok_or (hashing.to_vec (canonical event)) (json "to_vec")
    ok (bytes_to_hex (hashing.sha256 (0 ∷ json_bytes)))

  -- SELECT COALESCE(MAX(log_index), -1) + 1 FROM events
  unfoldable pub next_idx : List (EventRecord V) → ℕ
  next_idx [] = 0
  next_idx (e ∷ es) =
      let rest = next_idx es in if ltb e.log_index rest then rest else e.log_index + 1

  -- The event with its index and its hash, and the table with it at the end. `id` is the primary
  -- key; the index is new, so that its own constraint never fails.
  unfoldable pub assign_and_insert :
      Hashing
      → EventRecord V
      → List (EventRecord V)
      → KernelResult (EventRecord V × List (EventRecord V))
  assign_and_insert hashing event events = do
    let indexed = record event { log_index = next_idx events }
    event_hash ← compute_event_hash hashing indexed
    let hashed = record indexed { event_hash = event_hash }
    raise_if (any (λ e. e.id == event.id) events) (db "UNIQUE constraint failed")
    ok (hashed, events ++ hashed ∷ [])

  -- ORDER BY log_index DESC
  unfoldable pub insert_desc : EventRecord V → List (EventRecord V) → List (EventRecord V)
  insert_desc e [] = e ∷ []
  insert_desc e (f ∷ fs) =
      let rest = insert_desc e fs in if leb f.log_index e.log_index then e ∷ f ∷ fs else f ∷ rest

  unfoldable pub order_desc : List (EventRecord V) → List (EventRecord V)
  unfolding insert_desc
  order_desc [] = []
  order_desc (e ∷ es) = insert_desc e (order_desc es)

  -- LIMIT ?: a negative bound is no bound.
  unfoldable pub limit_to : ℤ → List (EventRecord V) → List (EventRecord V)
  limit_to (pos n) es = take n es
  limit_to (negsuc _) es = es

  unfoldable pub list_recent : ℤ → List (EventRecord V) → List (EventRecord V)
  list_recent limit events = limit_to limit (order_desc events)

  unfoldable pub list_by_actor : String → ℤ → List (EventRecord V) → List (EventRecord V)
  list_by_actor actor_id limit events =
      limit_to limit (order_desc (keep_if (λ e. e.actor_id == actor_id) events))

  -- The conditions of `query`, each absent or a test.
  abbrev pub by_actor : Option String → EventRecord V → Bool
  by_actor none e = true
  by_actor (some a) e = e.actor_id == a

  abbrev pub before : Option ℤ → EventRecord V → Bool
  before none e = true
  before (some b) e = ltb_ℤ (pos e.log_index) b

  abbrev pub after : Option ℤ → EventRecord V → Bool
  after none e = true
  after (some a) e = ltb_ℤ a (pos e.log_index)

  abbrev pub selects : Option String → Option ℤ → Option ℤ → EventRecord V → Bool
  selects actor_id before_index after_index e =
      by_actor actor_id e && before before_index e && after after_index e

  unfoldable pub query :
      Option String → Option ℤ → Option ℤ → ℤ → List (EventRecord V) → List (EventRecord V)
  query actor_id before_index after_index limit events =
      limit_to limit (order_desc (keep_if (selects actor_id before_index after_index) events))

  unfoldable pub count : List (EventRecord V) → ℕ
  count events = length events
