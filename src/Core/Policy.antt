-- ===== src/Core/Policy.antt =====
-- crates/punkgo-core/src/policy.rs: the first check of every action, and the two gates that are
-- open in the current policy.
use Prim.Native.Char.{code}
use punkgo_kernel.Prelude.{ℕ, ◌≡◌, Bool, true, ◌&&◌, ◌||◌, String, arith, leb, eqb, if◌then◌else◌}
use punkgo_kernel.Core.Errors.{policy_violation, KernelResult, ok, err, raise_if, ◌>>◌}
use punkgo_kernel.Core.Json.{Json, HasSizes}
use punkgo_kernel.Core.Action.{observe, Action, is_state_changing, quote_cost}
use punkgo_kernel.Core.Action.Cost.{quote_cost-exact}

-- `char::is_whitespace`: Unicode's White_Space.
unfoldable pub is_whitespace : ℕ → Bool
is_whitespace c =
    (leb 9 c && leb c 13)
    || eqb c 32
    || eqb c 133
    || eqb c 160
    || eqb c 5760
    || (leb 8192 c && leb c 8202)
    || (leb 8232 c && leb c 8233)
    || eqb c 8239
    || eqb c 8287
    || eqb c 12288

-- `s.trim().is_empty()`
unfoldable pub is_blank : String → Bool
unfolding is_whitespace
is_blank String.[] = true
is_blank (String.◌∷◌ c s) = is_whitespace (code c) && is_blank s

unfoldable pub check_visibility : String → String → KernelResult (Unit {0})
check_visibility _ _ = ok tt

unfoldable pub check_read_access : String → String → KernelResult (Unit {0})
check_read_access _ _ = ok tt

module _ {V : Type 0} (j : Json V) where
  unfoldable pub validate_action : Action V → KernelResult (Unit {0})
  unfolding check_visibility
  validate_action a = do
    raise_if (is_blank a.actor_id) (policy_violation "actor_id cannot be empty")
    raise_if (is_blank a.target) (policy_violation "target cannot be empty")
    raise_if (is_state_changing a.action_type && eqb (quote_cost j a) 0)
        (policy_violation "state-changing action must have positive cost")
    elim a.action_type [ observe ↦ check_visibility a.actor_id a.target | _ ↦ ok tt ]

  -- An action passes the policy exactly when its actor and its target are not blank: with the price
  -- list as it is, the check of the cost never fires.
  pub validate_action_iff :
      HasSizes j
      → (a : Action V)
      → validate_action a ≡ (
          if is_blank a.actor_id
          then err (policy_violation "actor_id cannot be empty")
          else if is_blank a.target
          then err (policy_violation "target cannot be empty")
          else ok tt)
  unfolding validate_action
  validate_action_iff sizes a = ground (arith, (quote_cost-exact j sizes a).1)
