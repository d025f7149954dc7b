-- ===== src/Runtime/Payload.antt =====
-- crates/punkgo-kernel/src/runtime/kernel.rs: what the kernel reads from the payload of an action.
pub mod Accepts
use Prim.Native.String.{len}
use punkgo_kernel.Prelude.{
  ℕ, ◌≡◌, Bool, true, false, not, ◌&&◌, ◌||◌, Option, none, some, String, if◌then◌else◌, ◌==◌, eqb,
  is_some,
}
use punkgo_kernel.Prelude.Texts.{
  strip_prefix, is_empty, contains_char, all_chars, is_ascii_hexdigit,
}
use punkgo_kernel.Core.Errors.{
  KernelError, execute_payload_invalid, KernelResult, ok, err, raise_if, ok_or, ◌>>=◌, ◌>>◌,
}
use punkgo_kernel.Core.Json.{Json, get_str, get_i64}
use punkgo_kernel.Core.Action.{Action, ActionType, create}

abbrev pub is_create : ActionType → Bool
is_create create = true
is_create _ = false

abbrev pub is_decision : String → Bool
is_decision decision = decision == "approve" || decision == "reject"

module _ {V : Type 0} (j : Json V) where
  -- `starts_with("sha256:")` and the slice `[7..]` behind it are `strip_prefix`; `len` counts bytes.
  unfoldable pub require_valid_oid : V → String → KernelResult String
  require_valid_oid payload field = do
    val ← ok_or (get_str j payload field) (execute_payload_invalid "missing field")
    hex_part ←
        ok_or (strip_prefix "sha256:" val)
          (execute_payload_invalid "field must be sha256:<64 hex chars>")
    raise_if (not (eqb (len val) 71))
        (execute_payload_invalid "field must be sha256:<64 hex chars>")
    raise_if (not (all_chars is_ascii_hexdigit hex_part))
        (execute_payload_invalid "field contains non-hex characters")
    ok val

  unfoldable pub validate_execute_payload : V → KernelResult String
  validate_execute_payload payload = do
    input_oid ← require_valid_oid payload "input_oid"
    output_oid ← require_valid_oid payload "output_oid"
    raise_if (not (is_some (get_i64 j payload "exit_code")))
        (execute_payload_invalid "missing or invalid exit_code (must be integer)")
    require_valid_oid payload "artifact_hash"

  unfoldable pub parse_policy_version : Action V → Option String
  parse_policy_version action =
      if not (is_create action.action_type) || not (action.target == "system/policy")
      then none
      else get_str j action.payload "version"

  -- A decision with its instruction, where it is one of the two words.
  abbrev pub with_decision : String → V → Option String → Option (String × String × Option String)
  with_decision hold_id payload none = none
  with_decision hold_id payload (some decision) =
      if is_decision decision
      then some (hold_id, decision, get_str j payload "instruction")
      else none

  unfoldable pub parse_hold_response : String → V → Option (String × String × Option String)
  parse_hold_response target payload = elim (strip_prefix "ledger/hold/" target) [
    | none ↦ none
    | some rest ↦
        if is_empty rest || contains_char b'/' rest
        then none
        else with_decision rest payload (get_str j payload "decision")
  ]
