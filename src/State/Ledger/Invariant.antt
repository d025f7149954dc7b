-- ===== src/State/Ledger/Invariant.antt =====
-- The invariant of the table `energy_ledger`, which is the condition that
-- `run_startup_integrity_checks` of crates/punkgo-kernel/src/state/store.rs tests on every row, within
-- the range of an `i64`; and every operation on the effect that it has.
use punkgo_kernel.Prelude.{
  ℕ, ◌≡◌, refl, false, some, String, All, if◌then◌else◌, arith, Bool-cases, Option-cases, inl, inr,
}
use punkgo_kernel.Prelude.Int
use punkgo_kernel.Prelude.Int.{
  ℤ, pos, ◌+ℤ◌, ◌-ℤ◌, ◌≤ℤ◌, ◌<ℤ◌, ltb_ℤ, leb_ℤ, wrap_i64, i64_mod, IsCount, int_laws,
}
use punkgo_kernel.Prelude.Table.{All-find_row}
use punkgo_kernel.Core.Errors.{insufficient_energy, ok, err, if_err-eq-ok}
use punkgo_kernel.State.Ledger.{
  EnergyRow, EnergyLedger, find_account, update_account, row_key, add_reserved, set_energy,
  reserve_in_tx, settle_in_tx, max_ℤ,
}

-- What an account holds: it reserves no more than its balance.
pub record IsSolvent (r : EnergyRow) : Type 0 where
  pub reserved_nonneg : pos 0 ≤ℤ r.reserved_energy
  pub covered : r.reserved_energy ≤ℤ r.energy_balance
  pub small : r.energy_balance <ℤ pos i64_mod

abbrev pub IsSound : EnergyLedger → Type 0
IsSound = All IsSolvent

-- What a successful reservation found and did.
pub record Reserved (actor_id : String) (cost : ℤ) (now : ℕ) (ledger ledger' : EnergyLedger)
    (row : EnergyRow) : Type 0 where
  pub positive : pos 0 <ℤ cost
  pub found : find_account actor_id ledger ≡ some row
  pub affordable : row.reserved_energy +ℤ cost ≤ℤ row.energy_balance
  pub result : ledger' ≡ update_account actor_id (add_reserved cost now) ledger

-- What a successful settlement found and did.
pub record Settled (actor_id : String) (reserved_cost actual_cost : ℤ) (now : ℕ)
    (ledger ledger' : EnergyLedger) (row : EnergyRow) : Type 0 where
  pub reserved_nonneg : pos 0 ≤ℤ reserved_cost
  pub actual_nonneg : pos 0 ≤ℤ actual_cost
  pub found : find_account actor_id ledger ≡ some row
  pub held : reserved_cost ≤ℤ row.reserved_energy
  pub affordable : actual_cost +ℤ row.reserved_energy ≤ℤ row.energy_balance +ℤ reserved_cost
  pub result :
      ledger'
      ≡ update_account actor_id
          (set_energy
            (row.energy_balance -ℤ actual_cost)
            (row.reserved_energy -ℤ reserved_cost)
            now)
          ledger

max_ℤ_le : (a b c : ℤ) → max_ℤ a b ≤ℤ c → (a ≤ℤ c) × (b ≤ℤ c)
max_ℤ_le a b c h = ground arith

spendable :
    (row : EnergyRow) (ac rc : ℤ)
    → ltb_ℤ (row.energy_balance -ℤ row.reserved_energy) (max_ℤ (ac -ℤ rc) (pos 0)) ≡ false
    → ac +ℤ row.reserved_energy ≤ℤ row.energy_balance +ℤ rc
spendable row ac rc e =
    let m =
      max_ℤ_le (ac -ℤ rc) (pos 0) (row.energy_balance -ℤ row.reserved_energy) (
        Int.ltb_ℤ_false (row.energy_balance -ℤ row.reserved_energy) (max_ℤ (ac -ℤ rc) (pos 0)) e) in
    omega (int_laws, m.0)

new_balance_nonneg :
    (row : EnergyRow) (ac rc : ℤ)
    → rc ≤ℤ row.reserved_energy
    → ltb_ℤ (row.energy_balance -ℤ row.reserved_energy) (max_ℤ (ac -ℤ rc) (pos 0)) ≡ false
    → pos 0 ≤ℤ row.energy_balance -ℤ ac
new_balance_nonneg row ac rc held e = omega (int_laws, spendable row ac rc e)

settle_in_tx-guards :
    (ledger : EnergyLedger) (k : String) (rc ac : ℤ) (now : ℕ) (ledger' : EnergyLedger)
    → settle_in_tx k rc ac now ledger ≡ ok ledger'
    → (row : EnergyRow) × (find_account k ledger ≡ some row)
      × (pos 0 ≤ℤ rc)
      × (pos 0 ≤ℤ ac)
      × (rc ≤ℤ row.reserved_energy)
unfolding settle_in_tx
settle_in_tx-guards ledger k rc ac now ledger' h = elim (Option-cases (find_account k ledger)) [
  | inl e ↦ ground arith
  | inr (row, e) ↦ (
    row,
    e,
    Int.ltb_ℤ_false rc (pos 0) (ground arith),
    Int.ltb_ℤ_false ac (pos 0) (ground arith),
    Int.ltb_ℤ_false row.reserved_energy rc (ground arith),
  )
]

module _ (ledger : EnergyLedger) (sound : IsSound ledger) where
  -- The row that an operation finds.
  pub solvent : (k : String) (row : EnergyRow) → find_account k ledger ≡ some row → IsSolvent row
  solvent k row e = All-find_row row_key IsSolvent k row ledger e sound

  available-exact :
      (k : String) (row : EnergyRow)
      → find_account k ledger ≡ some row
      → wrap_i64 (row.energy_balance -ℤ row.reserved_energy)
        ≡ row.energy_balance -ℤ row.reserved_energy
  available-exact k row e =
      let s = solvent k row e in
      Int.wrap_i64-sub _ _ (omega (arith, s.reserved_nonneg, s.covered, s.small))
        (omega (arith, s.reserved_nonneg, s.covered, s.small))

  pub reserve_in_tx-Reserved :
      (k : String) (cost : ℤ) (now : ℕ) (ledger' : EnergyLedger)
      → reserve_in_tx k cost now ledger ≡ ok ledger'
      → (row : EnergyRow) × Reserved k cost now ledger ledger' row
  unfolding reserve_in_tx
  reserve_in_tx-Reserved k cost now ledger' h = elim (Option-cases (find_account k ledger)) [
    | inl e ↦ ground arith
    | inr (row, e) ↦ (
      row,
      record {
        positive = Int.leb_ℤ_false cost (pos 0) (ground arith);
        found = e;
        affordable = omega (
          int_laws,
          Int.ltb_ℤ_false (row.energy_balance -ℤ row.reserved_energy) cost
              (rw (← available-exact k row e) (ground arith)),
        );
        result = ground arith;
      },
    )
  ]

  -- Where the reservation is held and the values are no debts, only the second test decides: nothing
  -- wraps around, and the test of the new balance never fires.
  pub settle_in_tx-exact :
      (k : String) (rc ac : ℤ) (now : ℕ) (row : EnergyRow)
      → find_account k ledger ≡ some row
      → pos 0 ≤ℤ rc
      → pos 0 ≤ℤ ac
      → ac <ℤ pos i64_mod
      → rc ≤ℤ row.reserved_energy
      → settle_in_tx k rc ac now ledger ≡ (
          if ltb_ℤ (row.energy_balance -ℤ row.reserved_energy) (max_ℤ (ac -ℤ rc) (pos 0))
          then err (
              insufficient_energy k
                (max_ℤ (ac -ℤ rc) (pos 0))
                (row.energy_balance -ℤ row.reserved_energy))
          else ok (
              update_account k
                (set_energy (row.energy_balance -ℤ ac) (row.reserved_energy -ℤ rc) now)
                ledger))
  unfolding settle_in_tx
  settle_in_tx-exact k rc ac now row e rc0 ac0 small held =
      let s = solvent k row e in
      let reserved : IsCount row.reserved_energy =
        omega (arith, s.reserved_nonneg, s.covered, s.small) in
      let balance : IsCount row.energy_balance =
        omega (arith, s.reserved_nonneg, s.covered, s.small) in
      let rc_count : IsCount rc = omega (arith, s.covered, s.small) in
      let ac_count : IsCount ac = omega arith in
      rw
        (
          Int.ltb_ℤ_of_le rc (pos 0) rc0,
          Int.ltb_ℤ_of_le ac (pos 0) ac0,
          e,
          Int.ltb_ℤ_of_le row.reserved_energy rc held,
          available-exact k row e,
          Int.wrap_i64-sub ac rc ac_count rc_count,
          Int.wrap_i64-sub row.energy_balance ac balance ac_count,
          Int.wrap_i64-sub row.reserved_energy rc reserved rc_count,
        )
        (elim (Bool-cases
          (ltb_ℤ (row.energy_balance -ℤ row.reserved_energy) (max_ℤ (ac -ℤ rc) (pos 0)))) [
            | inl short ↦ rw short refl
            | inr enough ↦
                rw
                  (
                    enough,
                    Int.ltb_ℤ_of_le (row.energy_balance -ℤ ac) (pos 0)
                        (new_balance_nonneg row ac rc held enough),
                  )
                  refl
          ])

  -- A settlement succeeds only where the reservation is held and the cost is covered.
  pub settle_in_tx-Settled :
      (k : String) (rc ac : ℤ) (now : ℕ) (ledger' : EnergyLedger)
      → ac <ℤ pos i64_mod
      → settle_in_tx k rc ac now ledger ≡ ok ledger'
      → (row : EnergyRow) × Settled k rc ac now ledger ledger' row
  settle_in_tx-Settled k rc ac now ledger' small h =
      let (row, e, rc0, ac0, held) = settle_in_tx-guards ledger k rc ac now ledger' h in
      let (enough, result) =
        if_err-eq-ok (ltb_ℤ (row.energy_balance -ℤ row.reserved_energy) (max_ℤ (ac -ℤ rc) (pos 0)))
          _ _ (rw (settle_in_tx-exact k rc ac now row e rc0 ac0 small held) at h) in
      (
        row,
        record {
          reserved_nonneg = rc0;
          actual_nonneg = ac0;
          found = e;
          held = held;
          affordable = spendable row ac rc enough;
          result = result;
        },
      )
