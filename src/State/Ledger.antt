-- ===== src/State/Ledger.antt =====
-- crates/punkgo-kernel/src/state/energy_ledger.rs: the table `energy_ledger`.
-- An operation works inside a transaction: it returns the table that it leaves, or an error, after
-- which the transaction is rolled back. `now` is the time that it reads. SQL adds exactly; the
-- subtractions in Rust wrap around at 64 bits.
pub mod Invariant
pub mod Preserve
pub mod Steps
use punkgo_kernel.Prelude.{
  ℕ, ◌≡◌, refl, Bool, true, false, not, ◌&&◌, ◌||◌, Option, none, some, List, [], ◌∷◌, ◌++◌, String,
  if◌then◌else◌, is_some,
}
use punkgo_kernel.Prelude.Int.{ℤ, pos, ◌+ℤ◌, ◌-ℤ◌, ltb_ℤ, leb_ℤ, wrap_i64}
use punkgo_kernel.Prelude.Table.{find_row, update_row}
use punkgo_kernel.Core.Errors.{
  KernelError, policy_violation, actor_not_found, insufficient_energy, KernelResult, ok, err,
  raise_if, ok_or, ◌>>=◌, ◌>>◌,
}
use punkgo_kernel.Core.Policy.{is_blank}

pub record EnergyRow : Type 0 where
  pub actor_id : String
  pub energy_balance : ℤ
  pub reserved_energy : ℤ
  pub updated_at : ℕ

abbrev pub EnergyLedger : Type 0
EnergyLedger = List EnergyRow

pub record EnergyReservation : Type 0 where
  pub actor_id : String
  pub reserved : ℤ

abbrev pub row_key : EnergyRow → String
row_key r = r.actor_id

-- SELECT energy_balance, reserved_energy FROM energy_ledger WHERE actor_id = ?1
abbrev pub find_account : String → EnergyLedger → Option EnergyRow
find_account = find_row row_key

abbrev pub update_account : String → (EnergyRow → EnergyRow) → EnergyLedger → EnergyLedger
update_account = update_row row_key

abbrev pub add_reserved : ℤ → ℕ → EnergyRow → EnergyRow
add_reserved cost now r = record r { reserved_energy = r.reserved_energy +ℤ cost; updated_at = now }

abbrev pub set_energy : ℤ → ℤ → ℕ → EnergyRow → EnergyRow
set_energy balance reserved now r = record r {
  energy_balance = balance;
  reserved_energy = reserved;
  updated_at = now;
}

abbrev pub add_balance : ℤ → ℕ → EnergyRow → EnergyRow
add_balance amount now r = record r {
  energy_balance = r.energy_balance +ℤ amount;
  updated_at = now;
}

unfoldable pub reserve_in_tx : String → ℤ → ℕ → EnergyLedger → KernelResult EnergyLedger
reserve_in_tx actor_id cost now ledger = do
  raise_if (leb_ℤ cost (pos 0)) (policy_violation "reserve cost must be positive")
  row ← ok_or (find_account actor_id ledger) (actor_not_found actor_id)
  let available = wrap_i64 (row.energy_balance -ℤ row.reserved_energy)
  raise_if (ltb_ℤ available cost) (insufficient_energy actor_id cost available)
  ok (update_account actor_id (add_reserved cost now) ledger)

abbrev pub max_ℤ : ℤ → ℤ → ℤ
max_ℤ a b = if ltb_ℤ a b then b else a

unfoldable pub settle_in_tx : String → ℤ → ℤ → ℕ → EnergyLedger → KernelResult EnergyLedger
settle_in_tx actor_id reserved_cost actual_cost now ledger = do
  raise_if (ltb_ℤ reserved_cost (pos 0) || ltb_ℤ actual_cost (pos 0))
      (policy_violation "settle values cannot be negative")
  row ← ok_or (find_account actor_id ledger) (actor_not_found actor_id)
  raise_if (ltb_ℤ row.reserved_energy reserved_cost)
      (policy_violation "reserved mismatch for actor")
  let extra_needed = max_ℤ (wrap_i64 (actual_cost -ℤ reserved_cost)) (pos 0)
  let available_unreserved = wrap_i64 (row.energy_balance -ℤ row.reserved_energy)
  raise_if (ltb_ℤ available_unreserved extra_needed)
      (insufficient_energy actor_id extra_needed available_unreserved)
  let new_balance = wrap_i64 (row.energy_balance -ℤ actual_cost)
  raise_if (ltb_ℤ new_balance (pos 0)) (insufficient_energy actor_id actual_cost row.energy_balance)
  let new_reserved = wrap_i64 (row.reserved_energy -ℤ reserved_cost)
  ok (update_account actor_id (set_energy new_balance new_reserved now) ledger)

unfoldable pub balance_view : String → EnergyLedger → KernelResult (ℤ × ℤ)
balance_view actor_id ledger = do
  row ← ok_or (find_account actor_id ledger) (actor_not_found actor_id)
  ok (row.energy_balance, row.reserved_energy)

unfoldable pub credit_energy_in_tx : String → ℤ → ℕ → EnergyLedger → KernelResult EnergyLedger
credit_energy_in_tx actor_id amount now ledger = do
  raise_if (leb_ℤ amount (pos 0)) (policy_violation "credit amount must be positive")
  raise_if (not (is_some (find_account actor_id ledger))) (actor_not_found actor_id)
  ok (update_account actor_id (add_balance amount now) ledger)

unfoldable pub create_actor_in_tx : String → ℤ → ℕ → EnergyLedger → KernelResult EnergyLedger
create_actor_in_tx actor_id energy_balance now ledger = do
  raise_if (is_blank actor_id) (policy_violation "seed actor_id cannot be empty")
  raise_if (ltb_ℤ energy_balance (pos 0))
      (policy_violation "seed energy_balance cannot be negative")
  raise_if (is_some (find_account actor_id ledger)) (policy_violation "actor already exists")
  ok (
      ledger
      ++ record {
        actor_id = actor_id;
        energy_balance = energy_balance;
        reserved_energy = pos 0;
        updated_at = now;
      }
        ∷ [])
