-- ===== src/Core/Action.antt =====
-- crates/punkgo-core/src/action.rs: the action types, actions, and what an action costs.
pub mod Cost
use punkgo_kernel.Prelude.{
  ℕ, zero, suc, ◌+◌, ◌/◌, ◌%◌, ◌≡◌, refl, Bool, true, false, Option, none, some, List, [], ◌∷◌,
  ◌++◌, String, length, unwrap_or, get_or,
}
use punkgo_kernel.Prelude.Int.{u64_mod}
use punkgo_kernel.Prelude.Table.{map_option}
use punkgo_kernel.Core.Errors.{KernelError, json, KernelResult, ok, ok_or, ◌>>=◌}
use punkgo_kernel.Core.Json.{Json, get_u64}

pub data ActionType : Type 0 where
  observe create mutate execute : ActionType

unfoldable pub is_state_changing : ActionType → Bool
is_state_changing observe = false
is_state_changing _ = true

unfoldable pub as_str : ActionType → String
as_str observe = "observe"
as_str create = "create"
as_str mutate = "mutate"
as_str execute = "execute"

pub record Action (V : Type 0) : Type 0 where
  pub actor_id : String
  pub action_type : ActionType
  pub target : String
  pub payload : V
  pub timestamp : Option String

module _ {V : Type 0} (j : Json V) where
  -- `v.len() as u64`, and 0 where the value cannot be written
  pub payload_bytes : V → ℕ
  payload_bytes payload = unwrap_or (map_option length (j.to_vec payload)) 0

  unfoldable pub append_cost : V → ℕ
  unfolding payload_bytes
  append_cost payload = (1 + payload_bytes payload / 1024) % u64_mod

  unfoldable pub action_cost : ActionType → V → ℕ
  action_cost observe payload = 0
  action_cost create payload = 10
  action_cost mutate payload = 15
  action_cost execute payload =
      (25 + unwrap_or (get_u64 j payload "output_bytes") 0 / 256) % u64_mod

  unfoldable pub quote_cost : Action V → ℕ
  quote_cost a = (action_cost a.action_type a.payload + append_cost a.payload) % u64_mod

-- `LUT[i] as char`
unfoldable pub lut : List ℕ
lut =
    b'0' ∷ b'1' ∷ b'2' ∷ b'3' ∷ b'4' ∷ b'5' ∷ b'6' ∷ b'7' ∷ b'8' ∷ b'9' ∷ b'a' ∷ b'b' ∷ b'c' ∷ b'd'
    ∷ b'e' ∷ b'f' ∷ []

-- Texts that are built byte by byte are lists of character codes. `b >> 4` and `b & 0x0f`.
unfoldable pub bytes_to_hex : List ℕ → List ℕ
bytes_to_hex [] = []
bytes_to_hex (b ∷ bs) = get_or lut (b / 16) 0 ∷ get_or lut (b % 16) 0 ∷ bytes_to_hex bs

-- SHA-256 is a parameter.
unfoldable pub payload_hash_hex :
    {V : Type 0} → Json V → (List ℕ → List ℕ) → Action V → KernelResult (List ℕ)
unfolding bytes_to_hex
payload_hash_hex j sha256 a = do
  payload_bytes ← ok_or (j.to_vec a.payload) (json "to_vec")
  ok (bytes_to_hex (sha256 payload_bytes))
