-- ===== src/Core/Boundary.antt =====
-- crates/punkgo-core/src/boundary.rs: which targets an actor may write, and what it may hand on.
pub mod Access
pub mod Delegation
use punkgo_kernel.Prelude.{
  ◌≡◌, refl, Bool, true, false, ◌&&◌, ◌||◌, Option, none, some, List, [], ◌∷◌, String, any, all,
  if◌then◌else◌, ◌==◌,
}
use text.Mathlib.Text.{starts_with}
use punkgo_kernel.Core.Errors.{KernelError, boundary_violation, KernelResult, ok, err}
use punkgo_kernel.Core.Action.{ActionType, observe, as_str}
use punkgo_kernel.Core.Actor.{ActorRecord, WritableTarget}

-- The `globset` crate is a parameter: `GlobBuilder::new(pattern).literal_separator(true).build()`,
-- and the `is_match` of the matcher that it gives.
abbrev pub GlobSet : Type 0
GlobSet = String → Option (String → Bool)

unfoldable pub is_privileged_target : String → Bool
is_privileged_target target = any (λ prefix. starts_with target prefix) ("system/" ∷ "ledger/" ∷ [])

-- The loop of `check_privileged_access`, over the targets that are left.
unfoldable pub find_wildcard : List WritableTarget → KernelResult (Unit {0})
find_wildcard [] = err (boundary_violation "actor denied access to privileged target")
find_wildcard (wt ∷ wts) = if wt.target == "**" then ok tt else find_wildcard wts

unfoldable pub check_privileged_access : ActorRecord → String → KernelResult (Unit {0})
check_privileged_access actor target = find_wildcard actor.writable_targets

module _ (glob : GlobSet) where
  unfoldable pub glob_match : String → String → Bool
  glob_match pattern target = elim (glob pattern) [ none ↦ false | some is_match ↦ is_match target ]

  -- The loop of `check_writable_boundary`.
  unfoldable pub find_grant : String → String → List WritableTarget → KernelResult (Unit {0})
  find_grant action_str target [] = err (boundary_violation "actor has no writable_target granting")
  find_grant action_str target (wt ∷ wts) =
      if glob_match wt.target target && any (λ a. a == action_str) wt.actions
      then ok tt
      else find_grant action_str target wts

  unfoldable pub check_writable_boundary :
      ActorRecord → String → ActionType → KernelResult (Unit {0})
  check_writable_boundary actor target observe = ok tt
  check_writable_boundary actor target t =
      if is_privileged_target target
      then check_privileged_access actor target
      else find_grant (as_str t) target actor.writable_targets

  unfoldable pub pattern_covers : String → String → Bool
  pattern_covers parent_pattern child_pattern =
      if parent_pattern == "**"
      then true
      else if parent_pattern == child_pattern
      then true
      else glob_match parent_pattern child_pattern

  -- `parent_wt` covers `child_wt`: its pattern, and every action.
  unfoldable pub covers : WritableTarget → WritableTarget → Bool
  covers child_wt parent_wt =
      pattern_covers parent_wt.target child_wt.target
      && all (λ child_action. any (λ pa. pa == child_action) parent_wt.actions) child_wt.actions

  unfoldable pub validate_child_targets :
      ActorRecord → List WritableTarget → KernelResult (Unit {0})
  validate_child_targets parent [] = ok tt
  validate_child_targets parent (child_wt ∷ rest) =
      let others = validate_child_targets parent rest in
      if any (λ parent_wt. covers child_wt parent_wt) parent.writable_targets
      then others
      else err (boundary_violation "child writable_target exceeds parent boundary")
