-- ===== src/Tests/Energy.antt =====
-- A tick of the production of energy at concrete inputs.
use punkgo_kernel.Prelude.{◌≡◌, refl, false, some, [], ◌∷◌, String, arith}
use punkgo_kernel.Prelude.Int.{ℤ, pos, ◌+ℤ◌, ◌-ℤ◌, ◌≤ℤ◌, wrap_i64, as_i64}
use punkgo_kernel.Core.Errors.{ok}
use punkgo_kernel.State.Ledger.{EnergyLedger, EnergyRow, credit_energy_in_tx}
use punkgo_kernel.State.Ledger.Invariant.{IsSound}
use punkgo_kernel.State.Ledger.Steps.{total}
use punkgo_kernel.State.ActorStore.{ActorTable, list_active_with_shares, f64_gt_zero}
use punkgo_kernel.Runtime.EnergyProducer.{
  Floats, TickResult, min_energy_per_tick, allocate, add_up, bump, distribute, credit_each,
  allocations_of, credit_tick, produce_tick, effective_energy_per_tick, check_stellar_config,
}
use punkgo_kernel.Runtime.EnergyProducer.Neutral.{produce_tick-neutral}
use punkgo_kernel.Runtime.EnergyProducer.Minimum.{effective_energy_per_tick-enough}
use punkgo_kernel.Tests.Fixtures.{bot}

-- Each share gives twelve units.
abbrev floats : Floats
floats = record {
  sum = λ shares. 2;
  le_zero = λ x. false;
  credit = λ energy share total_shares. pos 12;
  scaled = λ x. pos x;
}

abbrev agents : ActorTable
agents =
    record bot { energy_share = 1 } ∷ record bot { actor_id = "alice/bot/2"; energy_share = 1 } ∷ []

abbrev account : String → ℤ → EnergyRow
account id balance = record {
  actor_id = id;
  energy_balance = balance;
  reserved_energy = pos 0;
  updated_at = 1;
}

abbrev accounts : EnergyLedger
accounts = account "alice/bot/1" (pos 100) ∷ account "alice/bot/2" (pos 10) ∷ []

abbrev after : EnergyLedger
after =
    record (account "alice/bot/1" (pos 113)) { updated_at = 9 }
    ∷ record (account "alice/bot/2" (pos 23)) { updated_at = 9 }
    ∷ []

abbrev reported : TickResult
reported = record { total_energy_produced = pos 26; actors_credited = 2; total_shares = 2 }

ticked : produce_tick floats (pos 26) 9 agents accounts ≡ ok (reported, after)
unfolding f64_gt_zero produce_tick credit_tick allocations_of allocate add_up bump distribute
    credit_each credit_energy_in_tx list_active_with_shares wrap_i64 as_i64 ◌+ℤ◌ ◌-ℤ◌
ticked = refl

sound : IsSound accounts
sound = (
  record { reserved_nonneg = omega arith; covered = omega arith; small = omega arith },
  (record { reserved_nonneg = omega arith; covered = omega arith; small = omega arith }, tt),
)

produce_tick-neutral_example :
    IsSound after
    × (total after ≡ total accounts +ℤ pos 26)
    × (reported.total_energy_produced ≡ pos 26)
unfolding f64_gt_zero list_active_with_shares allocate ◌+ℤ◌
produce_tick-neutral_example =
    produce_tick-neutral floats (pos 26) 9 agents accounts (reported, after) refl refl
      (omega arith, (omega arith, tt)) (omega arith) (omega arith) sound (omega arith) ticked

configured : check_stellar_config floats (some (pos 30)) 100 ≡ ok tt
unfolding check_stellar_config
configured = refl

effective_energy_per_tick-enough_example :
    min_energy_per_tick ≤ℤ effective_energy_per_tick floats (some (pos 30)) 100
effective_energy_per_tick-enough_example =
    effective_energy_per_tick-enough floats (some (pos 30)) 100 configured
