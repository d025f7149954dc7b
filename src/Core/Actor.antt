-- ===== src/Core/Actor.antt =====
-- crates/punkgo-core/src/actor.rs: actor types, records, lifecycle operations, and how an agent's id
-- is derived. A text that is built character by character is a list of character codes.
pub mod Names
pub mod Sanitize
use punkgo_kernel.Prelude.{
  ℕ, ◌+◌, ◌/◌, ◌%◌, ◌≡◌, refl, Bool, true, false, ◌&&◌, ◌||◌, Option, none, some, List, [], ◌∷◌,
  ◌++◌, map, String, leb, eqb, if◌then◌else◌, ◌==◌,
}
use punkgo_kernel.Prelude.Int.{ℤ}
use punkgo_kernel.Core.Json.{F64}

pub data ActorType : Type 0 where
  human agent : ActorType

pub data ActorStatus : Type 0 where
  active frozen : ActorStatus

pub record WritableTarget : Type 0 where
  pub target : String
  pub actions : List String

pub record ActorRecord : Type 0 where
  pub actor_id : String
  pub actor_type : ActorType
  pub creator_id : Option String
  pub lineage : List String
  pub purpose : Option String
  pub status : ActorStatus
  pub writable_targets : List WritableTarget
  pub energy_share : F64
  pub reduction_policy : String
  pub created_at : ℕ
  pub updated_at : ℕ

pub record CreateActorSpec : Type 0 where
  pub actor_id : String
  pub actor_type : ActorType
  pub creator_id : String
  pub lineage : List String
  pub purpose : Option String
  pub writable_targets : List WritableTarget
  pub energy_balance : ℤ
  pub energy_share : F64
  pub reduction_policy : String

pub data LifecycleOp : Type 0 where
  freeze : Option String → LifecycleOp
  unfreeze : LifecycleOp
  terminate : Option String → LifecycleOp
  update_energy_share : F64 → LifecycleOp

unfoldable pub build_lineage : ActorType → String → List String → List String
build_lineage human creator_id _ = creator_id ∷ []
build_lineage agent creator_id _ = creator_id ∷ []

abbrev pub hyphen : ℕ
hyphen = b'-'

-- `c.is_ascii_alphanumeric()`
abbrev pub is_ascii_alphanumeric : ℕ → Bool
is_ascii_alphanumeric c =
    (leb b'0' c && leb c b'9') || (leb b'A' c && leb c b'Z') || (leb b'a' c && leb c b'z')

abbrev pub to_ascii_lowercase : ℕ → ℕ
to_ascii_lowercase c = if leb b'A' c && leb c b'Z' then c + 32 else c

-- The first pass of `sanitize_purpose`, on one character.
unfoldable pub sanitize_char : ℕ → ℕ
sanitize_char c = if is_ascii_alphanumeric c || eqb c hyphen then to_ascii_lowercase c else hyphen

-- The second pass, from the flag `prev_hyphen`.
unfoldable pub collapse : Bool → List ℕ → List ℕ
collapse prev_hyphen [] = []
collapse prev_hyphen (c ∷ cs) =
    let rest = collapse (eqb c hyphen) cs in if eqb c hyphen && prev_hyphen then rest else c ∷ rest

-- `trim_matches('-')`
unfoldable pub trim_start : List ℕ → List ℕ
trim_start [] = []
trim_start (c ∷ cs) = if eqb c hyphen then trim_start cs else c ∷ cs

abbrev pub is_nil : List ℕ → Bool
is_nil [] = true
is_nil (_ ∷ _) = false

unfoldable pub trim_end : List ℕ → List ℕ
trim_end [] = []
trim_end (c ∷ cs) = let rest = trim_end cs in if eqb c hyphen && is_nil rest then [] else c ∷ rest

unfoldable pub sanitize_purpose : List ℕ → List ℕ
sanitize_purpose purpose = trim_end (trim_start (collapse false (map sanitize_char purpose)))

-- `format!("{creator_id}/{sanitized}/{seq}")`, with the decimal digits of `seq` given.
unfoldable pub derive_agent_id : List ℕ → List ℕ → List ℕ → List ℕ
unfolding sanitize_purpose
derive_agent_id creator_id purpose seq = creator_id ++ b'/' ∷ sanitize_purpose purpose ++ b'/' ∷ seq
