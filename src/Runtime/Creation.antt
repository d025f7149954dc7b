-- ===== src/Runtime/Creation.antt =====
-- crates/punkgo-kernel/src/runtime/kernel.rs: the actor or the envelope that an action asks for,
-- `parse_create_actor_spec` and `parse_create_envelope_spec`.
use punkgo_kernel.Prelude.{
  ℕ, not, ◌&&◌, ◌||◌, Option, none, some, List, [], ◌∷◌, String, if◌then◌else◌, ◌==◌, unwrap_or,
}
use punkgo_kernel.Prelude.Int.{pos, leb_ℤ}
use punkgo_kernel.Prelude.Texts.{codes, of_codes, decimal}
use punkgo_kernel.Core.Errors.{
  invalid_request, policy_violation, KernelResult, ok, err, raise_if, ok_or, ◌>>=◌, ◌>>◌,
}
use punkgo_kernel.Core.Json.{get_str, get_i64, get_f64}
use punkgo_kernel.Core.Action.{Action}
use punkgo_kernel.Core.Actor.{
  ActorType, human, WritableTarget, ActorRecord, CreateActorSpec, build_lineage, derive_agent_id,
}
use punkgo_kernel.Core.Actor.Names.{parse_type}
use punkgo_kernel.Core.Boundary.{validate_child_targets}
use punkgo_kernel.Core.Consent.{EnvelopeRecord, EnvelopeSpec, validate_envelope_reduction}
use punkgo_kernel.State.ActorStore
use punkgo_kernel.State.ActorStore.{ActorTable, is_agent, next_sequence}
use punkgo_kernel.State.EnvelopeStore.{EnvelopeTable, get_active_for_actor}
use punkgo_kernel.Runtime.Payload.{is_create}
use punkgo_kernel.Runtime.World.{Externals}

module _ {V : Type 0} (x : Externals V) where
  -- A field that may be missing, read as a list.
  abbrev pub list_or_empty :
      {A : Type 0} → (V → Option (List A)) → Option V → String → KernelResult (List A)
  list_or_empty reader none message = ok []
  list_or_empty reader (some v) message = ok_or (reader v) (invalid_request message)

  abbrev pub require_list :
      {A : Type 0} → (V → Option (List A)) → Option V → String → String → KernelResult (List A)
  require_list reader none missing message = err (invalid_request missing)
  require_list reader (some v) missing message = ok_or (reader v) (invalid_request message)

  -- `derive_agent_id` on texts.
  abbrev pub derived_id : String → String → ℕ → String
  derived_id creator_id purpose seq =
      of_codes (derive_agent_id (codes creator_id) (codes purpose) (codes (decimal seq)))

  unfoldable pub choose_id : Option String → String → String → ActorTable → KernelResult String
  choose_id (some id) creator_id purpose actors = ok id
  choose_id none creator_id purpose actors = do
    raise_if (purpose == "legacy")
        (invalid_request "actor_id or purpose is required to create an actor")
    ok (derived_id creator_id purpose (next_sequence x.like creator_id purpose actors))

  abbrev pub creator_type : Option ActorRecord → ActorType
  creator_type none = human
  creator_type (some row) = row.actor_type

  abbrev pub creator_lineage : Option ActorRecord → List String
  creator_lineage none = []
  creator_lineage (some row) = row.lineage

  -- The check on the targets, for a creator that has a row.
  unfoldable pub check_targets : Option ActorRecord → List WritableTarget → KernelResult (Unit {0})
  check_targets none targets = ok tt
  check_targets (some creator) [] = ok tt
  check_targets (some creator) (t ∷ ts) = validate_child_targets x.glob creator (t ∷ ts)

  unfoldable pub read_actor_spec : Action V → ActorTable → KernelResult CreateActorSpec
  read_actor_spec action actors = do
    raise_if (not (x.json.is_object action.payload))
        (invalid_request "seed actor payload must be an object")
    let purpose = unwrap_or (get_str x.json action.payload "purpose") "legacy"
    actor_type ←
        ok_or (parse_type (unwrap_or (get_str x.json action.payload "actor_type") "agent"))
          (invalid_request "invalid actor_type")
    actor_id ← choose_id (get_str x.json action.payload "actor_id") action.actor_id purpose actors
    let creator = ActorStore.get action.actor_id actors
    raise_if (is_agent (creator_type creator) && is_agent actor_type)
        (policy_violation "agents cannot create agents")
    writable_targets ←
        list_or_empty x.writable_targets_of (x.json.get action.payload "writable_targets")
          "invalid writable_targets"
    check_targets creator writable_targets
    ok record {
      actor_id = actor_id;
      actor_type = actor_type;
      creator_id = action.actor_id;
      lineage = build_lineage (creator_type creator) action.actor_id (creator_lineage creator);
      purpose = some purpose;
      writable_targets = writable_targets;
      energy_balance = unwrap_or (get_i64 x.json action.payload "energy_balance") (pos 1000);
      energy_share = unwrap_or (get_f64 x.json action.payload "energy_share") 0;
      reduction_policy = unwrap_or (get_str x.json action.payload "reduction_policy") "none";
    }

  unfoldable pub parse_create_actor_spec :
      Action V → ActorTable → KernelResult (Option CreateActorSpec)
  parse_create_actor_spec action actors =
      if not (is_create action.action_type) || not (action.target == "ledger/actor")
      then ok none
      else (read_actor_spec action actors >>= λ spec. ok (some spec))

  unfoldable pub read_envelope_spec : Action V → KernelResult EnvelopeSpec
  read_envelope_spec action = do
    raise_if (not (x.json.is_object action.payload))
        (invalid_request "envelope payload must be an object")
    actor_id ←
        ok_or (get_str x.json action.payload "actor_id")
          (invalid_request "actor_id is required to create an envelope")
    budget ←
        ok_or (get_i64 x.json action.payload "budget")
          (invalid_request "budget is required to create an envelope")
    raise_if (leb_ℤ budget (pos 0)) (invalid_request "envelope budget must be positive")
    targets ←
        require_list x.strings_of (x.json.get action.payload "targets")
          "targets are required to create an envelope" "invalid envelope targets"
    actions ←
        require_list x.strings_of (x.json.get action.payload "actions")
          "actions are required to create an envelope" "invalid envelope actions"
    hold_on ←
        list_or_empty x.hold_rules_of (x.json.get action.payload "hold_on") "invalid hold_on rules"
    ok record {
      actor_id = actor_id;
      grantor_id = action.actor_id;
      budget = budget;
      targets = targets;
      actions = actions;
      duration_secs = get_i64 x.json action.payload "duration_secs";
      report_every = get_i64 x.json action.payload "report_every";
      hold_on = hold_on;
      hold_timeout_secs = get_i64 x.json action.payload "hold_timeout_secs";
    }

  -- The parent, if the grantor has an active envelope: then the new one must lie within it.
  unfoldable pub reduce_from : Option EnvelopeRecord → EnvelopeSpec → KernelResult (Option String)
  reduce_from none spec = ok none
  reduce_from (some grantor_envelope) spec = do
    validate_envelope_reduction x.glob grantor_envelope spec
    ok (some grantor_envelope.envelope_id)

  unfoldable pub granted_spec :
      Action V → EnvelopeTable → KernelResult (EnvelopeSpec × Option String)
  granted_spec action envelopes = do
    spec ← read_envelope_spec action
    parent ← reduce_from (get_active_for_actor action.actor_id envelopes) spec
    ok (spec, parent)

  -- All of `parse_create_envelope_spec` but the new id, for which a UUID is drawn on success.
  unfoldable pub parse_create_envelope_spec :
      Action V → EnvelopeTable → KernelResult (Option (EnvelopeSpec × Option String))
  parse_create_envelope_spec action envelopes =
      if not (is_create action.action_type) || not (action.target == "ledger/envelope")
      then ok none
      else (granted_spec action envelopes >>= λ granted. ok (some granted))
