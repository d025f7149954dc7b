-- ===== src/Runtime/EnergyProducer/Minimum.antt =====
-- No starvation: how much the configuration of crates/punkgo-core/src/stellar.rs produces per tick.
use punkgo_kernel.Prelude.{◌≡◌, Option, none, some, arith}
use punkgo_kernel.Prelude.Int.{ℤ, ◌≤ℤ◌}
use punkgo_kernel.Core.Errors.{ok}
use punkgo_kernel.Core.Json.{F64}
use punkgo_kernel.Runtime.EnergyProducer.{
  Floats, min_energy_per_tick, compute_energy_per_tick, effective_energy_per_tick,
  check_stellar_config,
}

-- A configuration that passes the checks of `load_stellar_config` produces at least the minimum of a
-- tick, whether it names the energy of a tick or leaves it to the speed of the hardware, whatever the
-- arithmetic of f64 gives for that.
pub effective_energy_per_tick-enough :
    (fl : Floats) (energy_per_tick : Option ℤ) (int8_tops : F64)
    → check_stellar_config fl energy_per_tick int8_tops ≡ ok tt
    → min_energy_per_tick ≤ℤ effective_energy_per_tick fl energy_per_tick int8_tops
unfolding check_stellar_config effective_energy_per_tick compute_energy_per_tick
effective_energy_per_tick-enough fl none int8_tops h = ground arith
effective_energy_per_tick-enough fl (some e) int8_tops h = ground (arith, h)
