-- ===== src/State/Ledger/Preserve.antt =====
-- Every operation on the table `energy_ledger` keeps every account solvent; and a reservation that
-- was made can be settled.
use punkgo_kernel.Prelude.{
  ℕ, ◌≡◌, ◌∙◌, refl, some, [], ◌∷◌, ◌++◌, String, if◌then◌else◌, ◌==◌, eq_iff, arith, Option-cases,
  inl, inr,
}
use punkgo_kernel.Prelude.Int
use punkgo_kernel.Prelude.Int.{
  ℤ, pos, ◌+ℤ◌, ◌-ℤ◌, ◌≤ℤ◌, ◌<ℤ◌, ltb_ℤ, leb_ℤ, wrap_i64, i64_mod, IsCount, int_laws,
}
use punkgo_kernel.Prelude.Table.{All-update_row, All-append, find_row-update_row}
use punkgo_kernel.Core.Errors.{ok, if_ok}
use punkgo_kernel.State.Ledger.{
  EnergyRow, EnergyLedger, find_account, update_account, row_key, add_reserved, set_energy,
  add_balance, reserve_in_tx, settle_in_tx, credit_energy_in_tx, create_actor_in_tx, max_ℤ,
}
use punkgo_kernel.State.Ledger.Invariant.{
  IsSolvent, IsSound, Reserved, solvent, reserve_in_tx-Reserved, settle_in_tx-Settled,
  settle_in_tx-exact,
}

module _ (ledger : EnergyLedger) (sound : IsSound ledger) (k : String) (now : ℕ) where
  pub reserve_in_tx-IsSound :
      (cost : ℤ) (ledger' : EnergyLedger)
      → reserve_in_tx k cost now ledger ≡ ok ledger'
      → IsSound ledger'
  reserve_in_tx-IsSound cost ledger' h =
      let (row, r) = reserve_in_tx-Reserved ledger sound k cost now ledger' h in
      let s = solvent ledger sound k row r.found in
      rw r.result (
        All-update_row row_key IsSolvent k (add_reserved cost now) row ledger r.found
          (omega (int_laws, s.reserved_nonneg, s.small, r.positive, r.affordable)) sound)

  pub settle_in_tx-IsSound :
      (rc ac : ℤ) (ledger' : EnergyLedger)
      → ac <ℤ pos i64_mod
      → settle_in_tx k rc ac now ledger ≡ ok ledger'
      → IsSound ledger'
  settle_in_tx-IsSound rc ac ledger' small h =
      let (row, r) = settle_in_tx-Settled ledger sound k rc ac now ledger' small h in
      let s = solvent ledger sound k row r.found in
      rw r.result (
        All-update_row row_key IsSolvent k _ row ledger r.found
          (omega (int_laws, s.covered, s.small, r.actual_nonneg, r.held, r.affordable)) sound)

  -- A credit keeps the table sound as long as the new balance is in range.
  pub credit_energy_in_tx-IsSound :
      (amount : ℤ) (ledger' : EnergyLedger)
      → ((row : EnergyRow)
          → find_account k ledger ≡ some row
          → row.energy_balance +ℤ amount <ℤ pos i64_mod)
      → credit_energy_in_tx k amount now ledger ≡ ok ledger'
      → IsSound ledger'
  unfolding credit_energy_in_tx
  credit_energy_in_tx-IsSound amount ledger' fits h = elim (Option-cases (find_account k ledger)) [
    | inl e ↦ ground arith
    | inr (row, e) ↦
        let s = solvent ledger sound k row e in
        let positive : pos 0 <ℤ amount = Int.leb_ℤ_false amount (pos 0) (ground arith) in
        let result : ledger' ≡ update_account k (add_balance amount now) ledger = ground arith in
        rw result (
          All-update_row row_key IsSolvent k (add_balance amount now) row ledger e
            (omega (int_laws, s.reserved_nonneg, s.covered, positive, fits row e)) sound)
  ]

  pub create_actor_in_tx-IsSound :
      (balance : ℤ) (ledger' : EnergyLedger)
      → balance <ℤ pos i64_mod
      → create_actor_in_tx k balance now ledger ≡ ok ledger'
      → IsSound ledger'
  unfolding create_actor_in_tx
  create_actor_in_tx-IsSound balance ledger' small h =
      let nonneg : pos 0 ≤ℤ balance = Int.ltb_ℤ_false balance (pos 0) (ground arith) in
      let result : ledger'
          ≡ ledger
            ++ record {
              actor_id = k;
              energy_balance = balance;
              reserved_energy = pos 0;
              updated_at = now;
            }
              ∷ [] =
        ground arith in
      rw result (All-append IsSolvent ledger _ sound (omega arith, tt))

max_ℤ-below : (a c : ℤ) → a ≤ℤ pos 0 → pos 0 ≤ℤ c → max_ℤ a (pos 0) ≤ℤ c
max_ℤ-below a c h k = ground arith

-- The account that a reservation and then a settlement leave.
abbrev pub settled_row : ℤ → ℕ → EnergyRow → EnergyRow
settled_row actual now row = set_energy (row.energy_balance -ℤ actual) row.reserved_energy now row

module _ (ledger : EnergyLedger) (sound : IsSound ledger) (k : String) (cost ac : ℤ) (now later : ℕ)
    (reserved : EnergyLedger) where
  -- The account of the actor in the reserved table.
  find-reserved :
      (row : EnergyRow)
      → Reserved k cost now ledger reserved row
      → (j : String)
      → find_account j reserved
        ≡ (if k == j then some (add_reserved cost now row) else find_account j ledger)
  find-reserved row r j =
      rw (r.result, find_row-update_row row_key k j (add_reserved cost now) ledger (λ x. refl))
        (ground (arith, r.found, eq_iff k j))

  -- The settlement after the reservation, on the account that the reservation found.
  settle-reserved :
      pos 0 ≤ℤ ac
      → ac ≤ℤ cost
      → (row : EnergyRow) → Reserved k cost now ledger reserved row
      → IsSound reserved
      → settle_in_tx k cost ac later reserved
        ≡ ok (
            update_account k
              (set_energy (row.energy_balance -ℤ ac) (row.reserved_energy +ℤ cost -ℤ cost) later)
              reserved)
  settle-reserved ac0 fits row r sound' =
      let s = solvent ledger sound k row r.found in
      let here : find_account k reserved ≡ some (add_reserved cost now row) =
        rw (find-reserved row r k, (eq_iff k k).1 refl) refl in
      settle_in_tx-exact reserved sound' k cost ac later (add_reserved cost now row) here
        (omega (arith, r.positive)) ac0
        (omega (int_laws, fits, r.affordable, s.small, s.reserved_nonneg))
        (omega (int_laws, s.reserved_nonneg))
      ∙ if_ok _ _ _ (
          Int.ltb_ℤ_of_le (row.energy_balance -ℤ (row.reserved_energy +ℤ cost))
            (max_ℤ (ac -ℤ cost) (pos 0))
            (max_ℤ-below (ac -ℤ cost) (row.energy_balance -ℤ (row.reserved_energy +ℤ cost))
              (omega (int_laws, fits)) (omega (int_laws, r.affordable))))

  -- What was reserved can be settled, for any cost up to the reservation. The account then has paid
  -- the cost, and reserves what it did before; no other account changes.
  pub reserve_then_settle :
      pos 0 ≤ℤ ac
      → ac ≤ℤ cost
      → reserve_in_tx k cost now ledger ≡ ok reserved
      → (row : EnergyRow) × (settled : EnergyLedger) × (find_account k ledger ≡ some row)
        × (settle_in_tx k cost ac later reserved ≡ ok settled)
        × ((j : String)
            → find_account j settled
              ≡ (if k == j then some (settled_row ac later row) else find_account j ledger))
  reserve_then_settle ac0 fits h =
      let (row, r) = reserve_in_tx-Reserved ledger sound k cost now reserved h in
      let sound' = reserve_in_tx-IsSound ledger sound k now cost reserved h in
      let back : row.reserved_energy +ℤ cost -ℤ cost ≡ row.reserved_energy = omega int_laws in
      (
        row,
        update_account k (set_energy (row.energy_balance -ℤ ac) row.reserved_energy later) reserved,
        r.found,
        rw (settle-reserved ac0 fits row r sound', back) refl,
        λ j.
            rw
              (
                find_row-update_row row_key k j
                    (set_energy (row.energy_balance -ℤ ac) row.reserved_energy later) reserved
                    (λ x. refl),
                find-reserved row r j,
              )
              (ground arith),
      )
