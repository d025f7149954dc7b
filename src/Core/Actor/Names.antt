-- ===== src/Core/Actor/Names.antt =====
-- The texts of the actor types and statuses in crates/punkgo-core/src/actor.rs, as they are stored
-- in the database.
use punkgo_kernel.Prelude.{◌↔◌, ◌≡◌, Option, none, some, String, ◌==◌, if◌then◌else◌, arith, eq_iff}
use punkgo_kernel.Core.Actor.{ActorType, human, agent, ActorStatus, active, frozen}

unfoldable pub type_as_str : ActorType → String
type_as_str human = "human"
type_as_str agent = "agent"

unfoldable pub parse_type : String → Option ActorType
parse_type s = if s == "human" then some human else if s == "agent" then some agent else none

unfoldable pub status_as_str : ActorStatus → String
status_as_str active = "active"
status_as_str frozen = "frozen"

unfoldable pub parse_status : String → Option ActorStatus
parse_status s = if s == "active" then some active else if s == "frozen" then some frozen else none

-- The text written for an actor type is read back as that type, and no other text is.
parse_type_iff :
    (s : String) (t : ActorType)
    → (parse_type s ≡ some t → s ≡ type_as_str t) × (s ≡ type_as_str t → parse_type s ≡ some t)
unfolding parse_type type_as_str
parse_type_iff s human = ((λ h. ground (arith, eq_iff s "human", eq_iff s "agent")), λ h. rw h)
parse_type_iff s agent = ((λ h. ground (arith, eq_iff s "human", eq_iff s "agent")), λ h. rw h)

-- The text written for an actor status is read back as that status, and no other text is.
parse_status_iff :
    (s : String) (t : ActorStatus)
    → (parse_status s ≡ some t → s ≡ status_as_str t)
      × (s ≡ status_as_str t → parse_status s ≡ some t)
unfolding parse_status status_as_str
parse_status_iff s active = ((λ h. ground (arith, eq_iff s "active", eq_iff s "frozen")), λ h. rw h)
parse_status_iff s frozen = ((λ h. ground (arith, eq_iff s "active", eq_iff s "frozen")), λ h. rw h)

-- The text written for the type and for the status of an actor is read back as that type and that
-- status, and no other text is.
pub parse_iff :
    (s t : String) (actor_type : ActorType) (status : ActorStatus)
    → ((parse_type s ≡ some actor_type) ↔ (s ≡ type_as_str actor_type))
      × ((parse_status t ≡ some status) ↔ (t ≡ status_as_str status))
parse_iff s t actor_type status = (parse_type_iff s actor_type, parse_status_iff t status)
