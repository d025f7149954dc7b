-- ===== src/Core/Json.antt =====
-- What the kernel uses of `serde_json::Value`, which is not part of the repository: an interface
-- over an abstract type of values, and the documented behaviour that the theorems rely on.
use punkgo_kernel.Prelude.{ℕ, ◌<◌, ◌≡◌, ◌≢◌, Bool, Option, none, some, List, String, length}
use punkgo_kernel.Prelude.Int.{ℤ, i64_mod, u64_mod}

-- An `f64` is its bit pattern.
abbrev pub F64 : Type 0
F64 = ℕ

pub record Json (Value : Type 0) : Type 0 where
  -- `v.get(key)`
  pub get : Value → String → Option Value
  pub as_str : Value → Option String
  pub as_i64 : Value → Option ℤ
  pub as_u64 : Value → Option ℕ
  pub as_f64 : Value → Option F64
  pub as_bool : Value → Option Bool
  pub is_object : Value → Bool
  -- `Value::Null`, `Value::Bool`, `Value::Number`, `Value::String`, `Value::Object(Map::new())`
  pub null : Value
  pub of_bool : Bool → Value
  pub of_i64 : ℤ → Value
  pub of_str : String → Value
  pub empty_object : Value
  -- `obj.insert(key, v)`
  pub insert : Value → String → Value → Value
  -- `serde_json::to_vec(v)`
  pub to_vec : Value → Option (List ℕ)

module _ {V : Type 0} (j : Json V) where
  -- `v.get(key).and_then(Value::as_str)`, and the same for the other types.
  abbrev pub get_str : V → String → Option String
  get_str v key = elim (j.get v key) [ none ↦ none | some x ↦ j.as_str x ]

  abbrev pub get_i64 : V → String → Option ℤ
  get_i64 v key = elim (j.get v key) [ none ↦ none | some x ↦ j.as_i64 x ]

  abbrev pub get_u64 : V → String → Option ℕ
  get_u64 v key = elim (j.get v key) [ none ↦ none | some x ↦ j.as_u64 x ]

  abbrev pub get_f64 : V → String → Option F64
  get_f64 v key = elim (j.get v key) [ none ↦ none | some x ↦ j.as_f64 x ]

  abbrev pub get_bool : V → String → Option Bool
  get_bool v key = elim (j.get v key) [ none ↦ none | some x ↦ j.as_bool x ]

-- The sizes of what Rust holds: a `u64` has 64 bits, and a vector at most `isize::MAX` bytes.
pub record HasSizes {V : Type 0} (j : Json V) : Type 0 where
  pub as_u64_lt : (v : V) (n : ℕ) → j.as_u64 v ≡ some n → n < u64_mod
  pub to_vec_lt : (v : V) (b : List ℕ) → j.to_vec v ≡ some b → length b < i64_mod

-- A map returns what was inserted last under a key, and keeps the other keys.
pub record HasMaps {V : Type 0} (j : Json V) : Type 0 where
  pub get-insert_self : (v w : V) (k : String) → j.get (j.insert v k w) k ≡ some w
  pub get-insert_ne : (v w : V) (k l : String) → k ≢ l → j.get (j.insert v k w) l ≡ j.get v l
  pub as_bool-of_bool : (b : Bool) → j.as_bool (j.of_bool b) ≡ some b
  pub as_i64-of_i64 : (z : ℤ) → j.as_i64 (j.of_i64 z) ≡ some z
