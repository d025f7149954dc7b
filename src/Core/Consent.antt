-- ===== src/Core/Consent.antt =====
-- crates/punkgo-core/src/consent.rs: envelopes, and what they authorize.
-- Times are milliseconds since the epoch; the database holds their decimal texts.
pub mod Checks
pub mod Reduction
use punkgo_kernel.Prelude.{
  ℕ, zero, suc, ◌+◌, ◌/◌, ◌≡◌, refl, Bool, true, false, not, ◌&&◌, ◌||◌, Option, none, some, List,
  [], ◌∷◌, String, any, all, if◌then◌else◌, ◌==◌, leb,
}
use punkgo_kernel.Prelude.Int.{ℤ, pos, negsuc, ◌+ℤ◌, ◌-ℤ◌, ltb_ℤ, leb_ℤ, wrap_i64, div_i64}
use punkgo_kernel.Core.Errors.{
  KernelError, authorization_required, KernelResult, ok, err, raise_if, ok_or, ◌>>=◌, ◌>>◌,
}
use punkgo_kernel.Core.Actor.{ActorType, human, agent, ActorRecord}
use punkgo_kernel.Core.Boundary.{GlobSet, glob_match}

pub data AuthorizationMode : Type 0 where
  man_in_the_loop man_on_the_loop : AuthorizationMode

pub data EnvelopeStatus : Type 0 where
  active expired revoked : EnvelopeStatus

pub data CheckpointLevel : Type 0 where
  report halt : CheckpointLevel

pub record HoldRule : Type 0 where
  pub target : String
  pub actions : List String

pub record EnvelopeSpec : Type 0 where
  pub actor_id : String
  pub grantor_id : String
  pub budget : ℤ
  pub targets : List String
  pub actions : List String
  pub duration_secs : Option ℤ
  pub report_every : Option ℤ
  pub hold_on : List HoldRule
  pub hold_timeout_secs : Option ℤ

pub record EnvelopeRecord : Type 0 where
  pub envelope_id : String
  pub actor_id : String
  pub grantor_id : String
  pub parent_envelope_id : Option String
  pub budget : ℤ
  pub budget_consumed : ℤ
  pub targets : List String
  pub actions : List String
  pub duration_secs : Option ℤ
  pub report_every : Option ℤ
  pub hold_on : List HoldRule
  pub hold_timeout_secs : Option ℤ
  pub status : EnvelopeStatus
  pub last_report_at : ℤ
  pub created_at : ℕ
  pub expires_at : Option ℕ
  pub updated_at : ℕ

unfoldable pub status_as_str : EnvelopeStatus → String
status_as_str active = "active"
status_as_str expired = "expired"
status_as_str revoked = "revoked"

unfoldable pub parse_status : String → Option EnvelopeStatus
parse_status s =
    if s == "active"
    then some active
    else if s == "expired"
    then some expired
    else if s == "revoked"
    then some revoked
    else none

unfoldable pub determine_authorization_mode : ActorRecord → AuthorizationMode
determine_authorization_mode actor = elim actor.actor_type [
  | human ↦ man_in_the_loop
  | agent ↦ man_on_the_loop
]

abbrev pub is_active : EnvelopeStatus → Bool
is_active active = true
is_active expired = false
is_active revoked = false

-- The branch of `check_authorization` for agents.
unfoldable pub require_active : Option EnvelopeRecord → KernelResult AuthorizationMode
require_active envelope = do
  env ←
      ok_or envelope (
        authorization_required
          "agent requires an active envelope to perform state-changing actions")
  raise_if (not (is_active env.status)) (authorization_required "agent envelope is not active")
  ok man_on_the_loop

unfoldable pub check_authorization :
    ActorRecord → Option EnvelopeRecord → KernelResult AuthorizationMode
unfolding determine_authorization_mode
check_authorization actor envelope = elim (determine_authorization_mode actor) [
  | man_in_the_loop ↦ ok man_in_the_loop
  | man_on_the_loop ↦ require_active envelope
]

-- `budget - budget_consumed`
unfoldable pub remaining : EnvelopeRecord → ℤ
remaining env = wrap_i64 (env.budget -ℤ env.budget_consumed)

-- The second half of `check_checkpoint`: whether the total has crossed a report threshold.
unfoldable pub check_report : Option ℤ → ℤ → ℤ → Option CheckpointLevel
check_report none budget_consumed total_consumed = none
check_report (some report_interval) budget_consumed total_consumed =
    if ltb_ℤ (pos 0) report_interval
    then (let prev_report_count = div_i64 budget_consumed report_interval in
        let new_report_count = div_i64 total_consumed report_interval in
        if ltb_ℤ prev_report_count new_report_count then some report else none)
    else none

unfoldable pub check_checkpoint : EnvelopeRecord → ℤ → Option CheckpointLevel
check_checkpoint env new_consumed =
    let total_consumed = wrap_i64 (env.budget_consumed +ℤ new_consumed) in
    if leb_ℤ env.budget total_consumed
    then some halt
    else check_report env.report_every env.budget_consumed total_consumed

module _ (glob : GlobSet) where
  unfoldable pub check_hold_trigger : List HoldRule → String → String → Bool
  check_hold_trigger hold_on target action_type =
      any (λ rule. glob_match glob rule.target target && any (λ a. a == action_type) rule.actions)
        hold_on

  unfoldable pub check_envelope_covers : EnvelopeRecord → String → String → KernelResult (Unit {0})
  check_envelope_covers env target action = do
    raise_if (not (any (λ a. a == action) env.actions))
        (authorization_required "envelope does not permit action")
    raise_if (not (any (λ pattern. glob_match glob pattern target) env.targets))
        (authorization_required "envelope does not cover target")
    raise_if (leb_ℤ (remaining env) (pos 0)) (authorization_required "envelope budget exhausted")
    ok tt

  unfoldable pub target_covered : List String → String → Bool
  target_covered parent_targets child_target =
      any
        (λ parent_target.
          glob_match glob parent_target child_target
          || parent_target == "**"
          || parent_target == child_target)
        parent_targets

  unfoldable pub validate_envelope_reduction :
      EnvelopeRecord → EnvelopeSpec → KernelResult (Unit {0})
  validate_envelope_reduction parent child = do
    raise_if (ltb_ℤ (remaining parent) child.budget)
        (authorization_required "child envelope budget exceeds parent remaining")
    raise_if
        (not (all (λ child_action. any (λ pa. pa == child_action) parent.actions) child.actions))
        (authorization_required "child envelope action not in parent actions")
    raise_if (not (all (target_covered parent.targets) child.targets))
        (authorization_required "child envelope target not covered by parent targets")
    ok tt

unfoldable pub is_envelope_expired : EnvelopeRecord → ℕ → Bool
is_envelope_expired env now_millis = elim env.expires_at [
  | none ↦ false
  | some expires_ms ↦ leb expires_ms now_millis
]
