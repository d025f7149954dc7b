-- ===== src/Runtime/EnergyProducer.antt =====
-- crates/punkgo-kernel/src/runtime/energy_producer.rs: a tick of the production of energy, and from
-- crates/punkgo-core/src/stellar.rs how much a tick produces. The arithmetic of `f64` is a parameter,
-- and an error stays the error of the ledger, where the source keeps its text.
pub mod Shares
pub mod Neutral
pub mod Minimum
use punkgo_kernel.Prelude.{
  ℕ, zero, suc, ◌+◌, ◌%◌, ◌≡◌, Bool, true, false, Option, none, some, List, [], ◌∷◌, map, String,
  length, if◌then◌else◌,
}
use punkgo_kernel.Prelude.Int.{ℤ, pos, pos_part, ◌+ℤ◌, ◌-ℤ◌, ltb_ℤ, leb_ℤ, wrap_i64}
use punkgo_kernel.Core.Errors.{
  KernelError, policy_violation, KernelResult, ok, err, raise_if, ◌>>=◌, ◌>>◌,
}
use punkgo_kernel.Core.Json.{F64}
use punkgo_kernel.State.Ledger.{EnergyLedger, credit_energy_in_tx}
use punkgo_kernel.State.ActorStore.{ActorTable, list_active_with_shares}

-- `iter().sum()`, `x <= 0.0`, `(e as f64 * (share / total)).floor() as i64`, and
-- `(tops * 1.0).round() as i64` with the factor of the source.
pub record Floats : Type 0 where
  pub sum : List F64 → F64
  pub le_zero : F64 → Bool
  pub credit : ℤ → F64 → F64 → ℤ
  pub scaled : F64 → ℤ

pub record TickResult : Type 0 where
  pub total_energy_produced : ℤ
  pub actors_credited : ℕ
  pub total_shares : F64

-- MIN_ENERGY_PER_TICK
abbrev pub min_energy_per_tick : ℤ
min_energy_per_tick = pos 26

unfoldable pub compute_energy_per_tick : Floats → F64 → ℤ
compute_energy_per_tick fl int8_tops =
    if ltb_ℤ (fl.scaled int8_tops) min_energy_per_tick
    then min_energy_per_tick
    else fl.scaled int8_tops

unfoldable pub effective_energy_per_tick : Floats → Option ℤ → F64 → ℤ
effective_energy_per_tick fl none int8_tops = compute_energy_per_tick fl int8_tops
effective_energy_per_tick fl (some energy_per_tick) int8_tops = energy_per_tick

abbrev below_minimum : Option ℤ → Bool
below_minimum none = false
below_minimum (some energy_per_tick) = ltb_ℤ energy_per_tick min_energy_per_tick

-- The checks of `load_stellar_config` on a configuration that was read.
unfoldable pub check_stellar_config : Floats → Option ℤ → F64 → KernelResult (Unit {0})
check_stellar_config fl energy_per_tick int8_tops = do
  raise_if (below_minimum energy_per_tick)
      (policy_violation "stellar config: energy_per_tick is below minimum")
  raise_if (fl.le_zero int8_tops) (policy_violation "stellar config: int8_tops must be positive")
  ok tt

abbrev pub Allocations : Type 0
Allocations = List (String × ℤ)

unfoldable pub allocate : Floats → ℤ → F64 → List (String × F64) → Allocations
allocate fl energy_per_tick total_shares shares =
    map (λ s. (s.0, fl.credit energy_per_tick s.1 total_shares)) shares

-- `allocated_total`, summed up in the loop.
unfoldable pub add_up : Allocations → ℤ → ℤ
add_up [] acc = acc
add_up (a ∷ as_) acc = add_up as_ (wrap_i64 (acc +ℤ a.1))

-- `allocations[idx].1 += 1`
unfoldable pub bump : ℕ → Allocations → Allocations
bump idx [] = []
bump zero (a ∷ as_) = (a.0, wrap_i64 (a.1 +ℤ pos 1)) ∷ as_
bump (suc idx) (a ∷ as_) = a ∷ bump idx as_

-- The loop over the remainder, one unit at a time, in turn.
unfoldable pub distribute : ℕ → ℕ → Allocations → Allocations
distribute zero idx allocations = allocations
distribute (suc remainder) idx allocations =
    distribute remainder ((idx + 1) % length allocations) (bump idx allocations)

unfoldable pub credit_each :
    Allocations → ℕ → EnergyLedger → ℕ → ℤ → KernelResult (EnergyLedger × ℕ × ℤ)
credit_each [] now ledger credited total_credited = ok (ledger, credited, total_credited)
credit_each (a ∷ as_) now ledger credited total_credited = elim (leb_ℤ a.1 (pos 0)) [
  | true ↦ credit_each as_ now ledger credited total_credited
  | false ↦
      (credit_energy_in_tx a.0 a.1 now ledger >>= λ ledger'.
      credit_each as_ now ledger' (credited + 1) (wrap_i64 (total_credited +ℤ a.1)))
]

abbrev pub nothing : TickResult
nothing = record { total_energy_produced = pos 0; actors_credited = 0; total_shares = 0 }

-- The allocations of a tick: the floors, and the remainder handed out.
unfoldable pub allocations_of : Floats → ℤ → F64 → List (String × F64) → Allocations
allocations_of fl energy_per_tick total_shares shares =
    let allocations = allocate fl energy_per_tick total_shares shares in
    let remainder = wrap_i64 (energy_per_tick -ℤ add_up allocations (pos 0)) in
    distribute (pos_part remainder) 0 allocations

unfoldable pub credit_tick :
    F64 → Allocations → ℕ → EnergyLedger → KernelResult (TickResult × EnergyLedger)
credit_tick total_shares allocations now ledger = do
  r ← credit_each allocations now ledger 0 (pos 0)
  ok (
    record { total_energy_produced = r.2; actors_credited = r.1; total_shares = total_shares },
    r.0,
  )

abbrev pub is_empty_list : {A : Type 0} → List A → Bool
is_empty_list [] = true
is_empty_list (_ ∷ _) = false

unfoldable pub produce_tick :
    Floats → ℤ → ℕ → ActorTable → EnergyLedger → KernelResult (TickResult × EnergyLedger)
produce_tick fl energy_per_tick now actors ledger =
    let shares = list_active_with_shares actors in
    let total_shares = fl.sum (map (λ s. s.1) shares) in
    if is_empty_list shares
    then ok (nothing, ledger)
    else if fl.le_zero total_shares
    then ok (nothing, ledger)
    else credit_tick total_shares (allocations_of fl energy_per_tick total_shares shares) now ledger
