-- ===== src/Runtime/EnergyProducer/Neutral.antt =====
-- A tick hands out what it produces, no more and no less: `produce_tick` of
-- crates/punkgo-kernel/src/runtime/energy_producer.rs.
use punkgo_kernel.Prelude.{
  ℕ, ◌+◌, ◌≡◌, ◌∙◌, ap, false, [], ◌∷◌, map, String, arith, Bool-cases, inl, inr,
}
use punkgo_kernel.Prelude.Int
use punkgo_kernel.Prelude.Int.{
  ℤ, pos, negsuc, pos_part, ◌+ℤ◌, ◌-ℤ◌, ◌≤ℤ◌, ◌<ℤ◌, leb_ℤ, wrap_i64, wrap_i64_id, i64_mod, int_laws,
}
use punkgo_kernel.Core.Errors.{ok, ok-inj, chain-ok}
use punkgo_kernel.State.Ledger.{EnergyLedger, credit_energy_in_tx}
use punkgo_kernel.State.Ledger.Invariant.{IsSound}
use punkgo_kernel.State.Ledger.Steps.{credit, post, total, post-Conserves}
use punkgo_kernel.State.ActorStore.{ActorTable, list_active_with_shares}
use punkgo_kernel.Runtime.EnergyProducer.{
  Floats, TickResult, Allocations, allocate, credit_each, allocations_of, credit_tick,
  is_empty_list, produce_tick,
}
use punkgo_kernel.Runtime.EnergyProducer.Shares.{
  sum_of, HasNoDebt, sum_of-nonneg, small_id, allocations_of-exact,
}

-- A credit of an amount that is no debt.
posting :
    (k : String) (amount : ℤ) (now : ℕ) (ledger ledger' : EnergyLedger)
    → amount <ℤ pos i64_mod
    → IsSound ledger
    → pos 0 ≤ℤ amount
    → total ledger +ℤ amount <ℤ pos i64_mod
    → credit_energy_in_tx k amount now ledger ≡ ok ledger'
    → IsSound ledger' × (total ledger' ≡ total ledger +ℤ amount)
unfolding post
posting k (negsuc n) now ledger ledger' small sound nonneg fits h = absurd (omega (arith, nonneg))
posting k (pos n) now ledger ledger' small sound nonneg fits h =
    let (sound', moved, out) =
      post-Conserves (credit k (pos n) now) ledger ledger' small sound fits h in
    (
      sound',
      omega (int_laws, Int.parts_of_eq (total ledger' +ℤ pos 0) (total ledger +ℤ pos n) moved),
    )

-- What the loop over the credits does to the table and to its counter.
credit_each-neutral :
    (as_ : Allocations) (now : ℕ) (ledger : EnergyLedger) (credited : ℕ) (acc : ℤ)
    (r : EnergyLedger × ℕ × ℤ)
    → HasNoDebt as_
    → IsSound ledger
    → pos 0 ≤ℤ acc
    → acc +ℤ sum_of as_ <ℤ pos i64_mod
    → total ledger +ℤ sum_of as_ <ℤ pos i64_mod
    → credit_each as_ now ledger credited acc ≡ ok r
    → IsSound r.0 × (total r.0 ≡ total ledger +ℤ sum_of as_) × (r.2 ≡ acc +ℤ sum_of as_)
unfolding credit_each
credit_each-neutral [] now ledger credited acc r h sound n small fits run =
    rw (← ok-inj run) (sound, omega int_laws, omega int_laws)
credit_each-neutral (a ∷ as_) now ledger credited acc r h sound n small fits run =
    let rest = sum_of-nonneg as_ h.1 in
    elim (Bool-cases (leb_ℤ a.1 (pos 0))) [
      | inl c ↦
          (let none_ = Int.leb_ℤ_true a.1 (pos 0) c in
            let (sound', entered, counted) =
              credit_each-neutral as_ now ledger credited acc r h.1 sound n
                (omega (int_laws, h.0, none_, small)) (omega (int_laws, h.0, none_, fits))
                (rw (credit_each, c) at run) in
            (
              sound',
              omega (
                int_laws,
                h.0,
                none_,
                Int.parts_of_eq (total r.0) (total ledger +ℤ sum_of as_) entered,
              ),
              omega (int_laws, h.0, none_, Int.parts_of_eq r.2 (acc +ℤ sum_of as_) counted),
            ))
      | inr c ↦
          (let (ledger', b, run') =
              chain-ok (credit_energy_in_tx a.0 a.1 now ledger) _ (rw (credit_each, c) at run) in
            let step =
              small_id (acc +ℤ a.1) (omega (int_laws, h.0, n))
                (omega (int_laws, h.0, n, rest, small)) in
            let (sound', moved) =
              posting a.0 a.1 now ledger ledger' (omega (int_laws, h.0, n, rest, small)) sound h.0
                (omega (int_laws, h.0, rest, fits)) b in
            let entered' = Int.parts_of_eq (total ledger') (total ledger +ℤ a.1) moved in
            let (sound2, entered, counted) =
              credit_each-neutral as_ now ledger' (credited + 1) (acc +ℤ a.1) r h.1 sound'
                (omega (int_laws, h.0, n)) (omega (int_laws, small))
                (omega (int_laws, entered', fits)) (rw step at run') in
            (
              sound2,
              omega (
                int_laws,
                entered',
                Int.parts_of_eq (total r.0) (total ledger' +ℤ sum_of as_) entered,
              ),
              omega (int_laws, Int.parts_of_eq r.2 (acc +ℤ a.1 +ℤ sum_of as_) counted),
            ))
    ]

-- Where some agent has a share and the shares are positive, a tick that succeeds leaves solvent
-- accounts solvent, and brings in exactly the energy of the tick, which is what it reports; if the
-- floors of the shares are no debts and add up to at most that energy, and an i64 holds all of it.
pub produce_tick-neutral :
    (fl : Floats) (energy : ℤ) (now : ℕ) (actors : ActorTable) (ledger : EnergyLedger)
    (r : TickResult × EnergyLedger)
    → is_empty_list (list_active_with_shares actors) ≡ false
    → fl.le_zero (fl.sum (map (λ s. s.1) (list_active_with_shares actors))) ≡ false
    → HasNoDebt (
        allocate fl energy
          (fl.sum (map (λ s. s.1) (list_active_with_shares actors)))
          (list_active_with_shares actors))
    → sum_of (
        allocate fl energy
          (fl.sum (map (λ s. s.1) (list_active_with_shares actors)))
          (list_active_with_shares actors))
      ≤ℤ energy
    → energy <ℤ pos i64_mod
    → IsSound ledger
    → total ledger +ℤ energy <ℤ pos i64_mod
    → produce_tick fl energy now actors ledger ≡ ok r
    → IsSound r.1 × (total r.1 ≡ total ledger +ℤ energy) × (r.0.total_energy_produced ≡ energy)
unfolding produce_tick credit_tick
produce_tick-neutral fl energy now actors ledger r some_ positive nonneg below small sound fits
      run =
    let shares = list_active_with_shares actors in
    let total_shares = fl.sum (map (λ s. s.1) shares) in
    let as_ = allocations_of fl energy total_shares shares in
    let (exact, paying) =
      allocations_of-exact fl energy total_shares shares some_ nonneg below small in
    let (c, credited, run') =
      chain-ok (credit_each as_ now ledger 0 (pos 0)) _
        (rw (some_, positive, credit_tick) at run) in
    let (sound', entered, counted) =
      credit_each-neutral as_ now ledger 0 (pos 0) c paying sound (omega arith)
        (rw exact (omega (int_laws, small))) (rw exact fits) credited in
    rw (← ok-inj run') (
      sound',
      entered ∙ ap (λ z. total ledger +ℤ z) exact,
      counted ∙ ap (λ z. pos 0 +ℤ z) exact ∙ omega int_laws,
    )
