-- ===== src/Core/Action/Cost.antt =====
-- The price list of crates/punkgo-core/src/action.rs, and why no step of it wraps around.
use punkgo_kernel.Prelude.{
  ℕ, ◌+◌, ◌/◌, ◌≤◌, ◌<◌, ◌≡◌, String, unwrap_or, arith, Option-cases, inl, inr,
}
use punkgo_kernel.Prelude.Int.{pos, as_i64, as_i64_small, u64_mod, i64_mod}
use punkgo_kernel.Core.Json.{Json, HasSizes, get_u64}
use punkgo_kernel.Core.Action.{
  ActionType, observe, create, mutate, execute, Action, payload_bytes, append_cost, action_cost,
  quote_cost,
}

-- The base price of each type.
abbrev pub base_cost : ActionType → ℕ
base_cost observe = 0
base_cost create = 10
base_cost mutate = 15
base_cost execute = 25

-- The bytes that an execution is charged for; the other types ignore the field.
abbrev pub output_bytes : {V : Type 0} → Json V → ActionType → V → ℕ
output_bytes j execute payload = unwrap_or (get_u64 j payload "output_bytes") 0
output_bytes j _ payload = 0

module _ {V : Type 0} (j : Json V) (sizes : HasSizes j) where
  payload_bytes-lt : (v : V) → payload_bytes j v < i64_mod
  unfolding payload_bytes
  payload_bytes-lt v = elim (Option-cases (j.to_vec v)) [
    | inl e ↦ rw e (omega arith)
    | inr (b, e) ↦ rw e (sizes.to_vec_lt v b e)
  ]

  get_u64-lt : (v : V) (k : String) → unwrap_or (get_u64 j v k) 0 < u64_mod
  get_u64-lt v k = elim (Option-cases (j.get v k)) [
    | inl missing ↦ ground arith
    | inr (w, found) ↦ elim (Option-cases (j.as_u64 w)) [
      | inl other ↦ ground arith
      | inr (n, e) ↦ ground (arith, sizes.as_u64_lt w n e)
    ]
  ]

  output_bytes-lt : (t : ActionType) (v : V) → output_bytes j t v < u64_mod
  output_bytes-lt execute v = get_u64-lt v "output_bytes"
  output_bytes-lt _ v = omega arith

  action_cost-exact :
      (t : ActionType) (v : V) → action_cost j t v ≡ base_cost t + output_bytes j t v / 256
  unfolding action_cost
  action_cost-exact observe v = omega arith
  action_cost-exact execute v = omega (arith, output_bytes-lt execute v)
  action_cost-exact _ v = omega arith

  append_cost-exact : (v : V) → append_cost j v ≡ 1 + payload_bytes j v / 1024
  unfolding append_cost
  append_cost-exact v = omega (arith, payload_bytes-lt v)

  base_cost-le : (t : ActionType) → base_cost t ≤ 25
  base_cost-le observe = omega arith
  base_cost-le _ = omega arith

  quote_cost-sum :
      (a : Action V)
      → quote_cost j a
        ≡ base_cost a.action_type
          + output_bytes j a.action_type a.payload / 256
          + (1 + payload_bytes j a.payload / 1024)
  unfolding quote_cost
  quote_cost-sum a = omega (
    arith,
    action_cost-exact a.action_type a.payload,
    append_cost-exact a.payload,
    base_cost-le a.action_type,
    payload_bytes-lt a.payload,
    output_bytes-lt a.action_type a.payload,
  )

  pub quote_cost-lt : (a : Action V) → quote_cost j a < i64_mod
  quote_cost-lt a = omega (
    arith,
    quote_cost-sum a,
    base_cost-le a.action_type,
    payload_bytes-lt a.payload,
    output_bytes-lt a.action_type a.payload,
  )

  -- The price is the base price, a unit for each 256 bytes of output, and the cost of the append:
  -- no addition of the code wraps around. It is positive, and so small that the cast to `i64` keeps
  -- it.
  pub quote_cost-exact :
      (a : Action V)
      → (quote_cost j a
          ≡ base_cost a.action_type
            + output_bytes j a.action_type a.payload / 256
            + (1 + payload_bytes j a.payload / 1024))
        × (0 < quote_cost j a)
        × (as_i64 (quote_cost j a) ≡ pos (quote_cost j a))
  quote_cost-exact a = (
    quote_cost-sum a,
    omega (arith, quote_cost-sum a),
    as_i64_small (quote_cost j a) (quote_cost-lt a),
  )
