-- ===== src/State/Store.antt =====
-- crates/punkgo-kernel/src/state/store.rs: the rows that a new database holds, the table
-- `system_meta`, and the checks at startup. The audit coverage only warns, so that the latest tree
-- size is not an argument of the checks.
pub mod Startup
use punkgo_kernel.Prelude.{
  ℕ, ◌≡◌, Bool, true, false, not, ◌&&◌, ◌||◌, Option, none, some, List, [], ◌∷◌, ◌++◌, String, any,
  if◌then◌else◌, ◌==◌, is_some,
}
use punkgo_kernel.Prelude.Int.{ℤ, pos, ltb_ℤ, leb_ℤ}
use punkgo_kernel.Core.Errors.{
  KernelError, policy_violation, KernelResult, ok, err, raise_if, ◌>>=◌, ◌>>◌,
}
use punkgo_kernel.Core.Actor.{ActorType, human, ActorStatus, active, ActorRecord}
use punkgo_kernel.State.Ledger.{EnergyRow, EnergyLedger, find_account}
use punkgo_kernel.State.EventLog.{EventRecord}
use punkgo_kernel.State.ActorStore
use punkgo_kernel.State.ActorStore.{ActorTable}

abbrev pub MetaTable : Type 0
MetaTable = List (String × String)

-- INSERT … ON CONFLICT(key) DO UPDATE
unfoldable pub set_meta : String → String → MetaTable → MetaTable
set_meta key value [] = (key, value) ∷ []
set_meta key value (r ∷ rs) = if r.0 == key then (key, value) ∷ rs else r ∷ set_meta key value rs

unfoldable pub set_policy_version : String → MetaTable → MetaTable
set_policy_version version = set_meta "policy_version" version

unfoldable pub get_meta : String → MetaTable → Option String
get_meta key [] = none
get_meta key (r ∷ rs) = if r.0 == key then some r.1 else get_meta key rs

-- The three statements of `seed_defaults`, each with ON CONFLICT DO NOTHING.
unfoldable pub seed_meta : MetaTable → MetaTable
unfolding get_meta
seed_meta meta =
    if is_some (get_meta "schema_version" meta) then meta else meta ++ ("schema_version", "v1") ∷ []

abbrev pub root_account : ℕ → EnergyRow
root_account now = record {
  actor_id = "root";
  energy_balance = pos 1000000;
  reserved_energy = pos 0;
  updated_at = now;
}

unfoldable pub seed_ledger : ℕ → EnergyLedger → EnergyLedger
seed_ledger now ledger =
    if is_some (find_account "root" ledger) then ledger else ledger ++ root_account now ∷ []

abbrev pub root_actor : ℕ → ActorRecord
root_actor now = record {
  actor_id = "root";
  actor_type = human;
  creator_id = none;
  lineage = [];
  purpose = none;
  status = active;
  writable_targets = record { target = "**"; actions = "create" ∷ "mutate" ∷ "execute" ∷ [] } ∷ [];
  energy_share = 0;
  reduction_policy = "none";
  created_at = now;
  updated_at = now;
}

unfoldable pub seed_actors : ℕ → ActorTable → ActorTable
seed_actors now actors =
    if is_some (ActorStore.get "root" actors) then actors else actors ++ root_actor now ∷ []

abbrev pub violates : EnergyRow → Bool
violates r =
    ltb_ℤ r.reserved_energy (pos 0)
    || ltb_ℤ r.energy_balance (pos 0)
    || ltb_ℤ r.energy_balance r.reserved_energy

abbrev pub action_types : List String
action_types =
    "observe" ∷ "create" ∷ "mutate" ∷ "execute" ∷ "circuit_breaker" ∷ "hold_request"
    ∷ "hold_response" ∷ "hold_timeout" ∷ []

module _ {V : Type 0} where
  abbrev pub invalid_action : EventRecord V → Bool
  invalid_action e = not (any (λ t. t == e.action_type) action_types)

  abbrev pub invalid_energy_event : EventRecord V → Bool
  invalid_energy_event e =
      (e.action_type == "mutate" || e.action_type == "execute")
        && (leb_ℤ e.reserved_energy (pos 0) || leb_ℤ e.settled_energy (pos 0))
      || ltb_ℤ e.reserved_energy (pos 0)
      || ltb_ℤ e.settled_energy (pos 0)

  unfoldable pub run_startup_integrity_checks :
      EnergyLedger → List (EventRecord V) → KernelResult (Unit {0})
  run_startup_integrity_checks ledger events = do
    raise_if (any violates ledger)
        (policy_violation "energy ledger consistency violation for actor")
    raise_if (any invalid_action events)
        (policy_violation "action integrity violation: unsupported action_type")
    raise_if (any invalid_energy_event events)
        (policy_violation "energy integrity violation in event")
    ok tt
