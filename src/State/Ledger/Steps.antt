-- ===== src/State/Ledger/Steps.antt =====
-- Energy is conserved: any sequence of operations on the table `energy_ledger`
-- (crates/punkgo-kernel/src/state/energy_ledger.rs), each in a transaction of its own, which is
-- rolled back if the operation fails.
use punkgo_kernel.Prelude.{
  ℕ, ◌+◌, ◌≡◌, refl, some, List, [], ◌∷◌, ◌++◌, String, All, ◌==◌, arith, Bool-cases, Option-cases,
  inl, inr,
}
use punkgo_kernel.Prelude.Int
use punkgo_kernel.Prelude.Int.{
  ℤ, pos, negsuc, pos_part, ◌+ℤ◌, ◌-ℤ◌, ◌≤ℤ◌, ◌<ℤ◌, ltb_ℤ, leb_ℤ, i64_mod, int_laws,
}
use punkgo_kernel.Core.Errors.{KernelResult, ok, err}
use punkgo_kernel.State.Ledger.{
  EnergyRow, EnergyLedger, find_account, update_account, add_reserved, set_energy, add_balance,
  reserve_in_tx, settle_in_tx, credit_energy_in_tx, create_actor_in_tx,
}
use punkgo_kernel.State.Ledger.Invariant.{IsSound, reserve_in_tx-Reserved, settle_in_tx-Settled}
use punkgo_kernel.State.Ledger.Preserve.{
  reserve_in_tx-IsSound, settle_in_tx-IsSound, credit_energy_in_tx-IsSound,
  create_actor_in_tx-IsSound,
}

pub data Posting : Type 0 where
  reserve : String → ℤ → ℕ → Posting
  settle : String → ℤ → ℤ → ℕ → Posting
  credit : String → ℤ → ℕ → Posting
  seed : String → ℤ → ℕ → Posting

unfoldable pub post : Posting → EnergyLedger → KernelResult EnergyLedger
post (reserve k cost now) = reserve_in_tx k cost now
post (settle k rc ac now) = settle_in_tx k rc ac now
post (credit k amount now) = credit_energy_in_tx k amount now
post (seed k balance now) = create_actor_in_tx k balance now

-- The energy that an operation brings in, and what it spends, if it succeeds.
abbrev pub produced : Posting → ℤ
produced (credit _ amount _) = amount
produced (seed _ balance _) = balance
produced _ = pos 0

abbrev pub spent : Posting → ℤ
spent (settle _ _ ac _) = ac
spent _ = pos 0

-- The energy in the table.
abbrev pub total : EnergyLedger → ℤ
total [] = pos 0
total (r ∷ rs) = r.energy_balance +ℤ total rs

total-update :
    (k : String) (f : EnergyRow → EnergyRow) (r : EnergyRow) (ledger : EnergyLedger)
    → find_account k ledger ≡ some r
    → total (update_account k f ledger) +ℤ r.energy_balance ≡ total ledger +ℤ (f r).energy_balance
total-update k f r [] e = cc
total-update k f r (x ∷ xs) e = elim (Bool-cases (x.actor_id == k)) [
  | inl here ↦ (let same : x ≡ r = ground arith in rw (here, same) (omega int_laws))
  | inr there ↦ rw (there, Int.+ℤ_assoc, total-update k f r xs (rw there at e)) (omega int_laws)
]

total-update_by :
    (k : String) (f : EnergyRow → EnergyRow) (r : EnergyRow) (ledger : EnergyLedger) (change : ℤ)
    → find_account k ledger ≡ some r
    → (f r).energy_balance ≡ r.energy_balance +ℤ change
    → total (update_account k f ledger) ≡ total ledger +ℤ change
total-update_by k f r ledger change e d = omega (
  int_laws,
  Int.parts_of_eq (total (update_account k f ledger) +ℤ r.energy_balance)
      (total ledger +ℤ (f r).energy_balance) (total-update k f r ledger e),
  Int.parts_of_eq (f r).energy_balance (r.energy_balance +ℤ change) d,
)

total-append :
    (ledger : EnergyLedger) (r : EnergyRow)
    → total (ledger ++ r ∷ []) ≡ total ledger +ℤ r.energy_balance
total-append [] r = omega int_laws
total-append (x ∷ xs) r = rw (total-append xs r) (omega int_laws)

total_nonneg : (ledger : EnergyLedger) → IsSound ledger → pos 0 ≤ℤ total ledger
total_nonneg [] h = omega arith
total_nonneg (x ∷ xs) h = omega (int_laws, h.0.reserved_nonneg, h.0.covered, total_nonneg xs h.1)

balance-le-total :
    (k : String) (r : EnergyRow) (ledger : EnergyLedger)
    → IsSound ledger
    → find_account k ledger ≡ some r
    → r.energy_balance ≤ℤ total ledger
balance-le-total k r [] h e = cc
balance-le-total k r (x ∷ xs) h e = elim (Bool-cases (x.actor_id == k)) [
  | inl here ↦ (let same : x ≡ r = ground arith in rw same (omega (int_laws, total_nonneg xs h.1)))
  | inr there ↦
      omega
        (int_laws, h.0.reserved_nonneg, h.0.covered, balance-le-total k r xs h.1 (rw there at e))
]

-- What an operation may bring in at most, if it succeeds or not.
abbrev pub inflow : List Posting → ℕ
inflow [] = 0
inflow (p ∷ ps) = pos_part (produced p) + inflow ps

-- The numbers of an operation are `i64`s.
abbrev pub IsPosting : Posting → Type 0
IsPosting (reserve _ cost _) = cost <ℤ pos i64_mod
IsPosting (settle _ rc ac _) = (rc <ℤ pos i64_mod) × (ac <ℤ pos i64_mod)
IsPosting (credit _ amount _) = amount <ℤ pos i64_mod
IsPosting (seed _ balance _) = balance <ℤ pos i64_mod

abbrev pub Conserves : Posting → EnergyLedger → EnergyLedger → Type 0
Conserves p ledger ledger' =
    IsSound ledger' × (total ledger' +ℤ spent p ≡ total ledger +ℤ produced p) × (pos 0 ≤ℤ spent p)

credit-found :
    (ledger : EnergyLedger) (k : String) (amount : ℤ) (now : ℕ) (ledger' : EnergyLedger)
    → credit_energy_in_tx k amount now ledger ≡ ok ledger'
    → (row : EnergyRow) × (find_account k ledger ≡ some row)
      × (pos 0 <ℤ amount)
      × (ledger' ≡ update_account k (add_balance amount now) ledger)
unfolding credit_energy_in_tx
credit-found ledger k amount now ledger' h = elim (Option-cases (find_account k ledger)) [
  | inl e ↦ ground arith
  | inr (row, e) ↦ (row, e, Int.leb_ℤ_false amount (pos 0) (ground arith), ground arith)
]

abbrev seed_row : String → ℤ → ℕ → EnergyRow
seed_row k balance now = record {
  actor_id = k;
  energy_balance = balance;
  reserved_energy = pos 0;
  updated_at = now;
}

seed-result :
    (ledger : EnergyLedger) (k : String) (balance : ℤ) (now : ℕ) (ledger' : EnergyLedger)
    → create_actor_in_tx k balance now ledger ≡ ok ledger'
    → ledger' ≡ ledger ++ seed_row k balance now ∷ []
unfolding create_actor_in_tx
seed-result ledger k balance now ledger' h = ground arith

pub post-Conserves :
    (p : Posting) (ledger ledger' : EnergyLedger)
    → IsPosting p
    → IsSound ledger
    → total ledger +ℤ pos (pos_part (produced p)) <ℤ pos i64_mod
    → post p ledger ≡ ok ledger'
    → Conserves p ledger ledger'
unfolding post
post-Conserves (reserve k cost now) ledger ledger' ip sound fits h =
    let (row, r) = reserve_in_tx-Reserved ledger sound k cost now ledger' h in
    (
      reserve_in_tx-IsSound ledger sound k now cost ledger' h,
      rw
          (
            r.result,
            total-update_by k (add_reserved cost now) row ledger (pos 0) r.found (omega int_laws),
          )
          (omega int_laws),
      omega arith,
    )
post-Conserves (settle k rc ac now) ledger ledger' ip sound fits h =
    let (row, r) = settle_in_tx-Settled ledger sound k rc ac now ledger' ip.1 h in
    (
      settle_in_tx-IsSound ledger sound k now rc ac ledger' ip.1 h,
      rw
          (
            r.result,
            total-update_by k
                (set_energy (row.energy_balance -ℤ ac) (row.reserved_energy -ℤ rc) now) row ledger
                (pos 0 -ℤ ac) r.found (omega int_laws),
          )
          (omega int_laws),
      r.actual_nonneg,
    )
post-Conserves (credit k amount now) ledger ledger' ip sound fits h =
    let (row, e, positive, result) = credit-found ledger k amount now ledger' h in
    (
      credit_energy_in_tx-IsSound ledger sound k now amount ledger'
          (λ r found. omega (int_laws, fits, positive, balance-le-total k r ledger sound found)) h,
      rw (result, total-update_by k (add_balance amount now) row ledger amount e refl)
          (omega int_laws),
      omega arith,
    )
post-Conserves (seed k balance now) ledger ledger' ip sound fits h = (
  create_actor_in_tx-IsSound ledger sound k now balance ledger' ip h,
  rw (seed-result ledger k balance now ledger' h, total-append ledger (seed_row k balance now))
      (omega int_laws),
  omega arith,
)

-- The table and the sums of what the operations that succeeded brought in and spent.
pub record Books : Type 0 where
  pub ledger : EnergyLedger
  pub in_sum : ℤ
  pub out_sum : ℤ

abbrev pub enter : Posting → Books → KernelResult EnergyLedger → Books
enter p b (ok ledger') = record {
  ledger = ledger';
  in_sum = b.in_sum +ℤ produced p;
  out_sum = b.out_sum +ℤ spent p;
}
enter p b (err _) = b

pub run : List Posting → Books → Books
run [] b = b
run (p ∷ ps) b = run ps (enter p b (post p b.ledger))

-- The balance of the books against the energy that was there at the start.
abbrev pub IsBalanced : ℤ → Books → Type 0
IsBalanced start b = IsSound b.ledger × (total b.ledger +ℤ b.out_sum ≡ start +ℤ b.in_sum)

enter-IsBalanced :
    (start : ℤ) (p : Posting) (b : Books) (r : KernelResult EnergyLedger)
    → ((ledger' : EnergyLedger) → r ≡ ok ledger' → Conserves p b.ledger ledger')
    → IsBalanced start b
    → IsBalanced start (enter p b r)
enter-IsBalanced start p b (err e) c h = h
enter-IsBalanced start p b (ok ledger') c h =
    let (sound, moved, _) = c ledger' refl in
    (
      sound,
      omega (
        int_laws,
        Int.parts_of_eq (total ledger' +ℤ spent p) (total b.ledger +ℤ produced p) moved,
        Int.parts_of_eq (total b.ledger +ℤ b.out_sum) (start +ℤ b.in_sum) h.1,
      ),
    )

enter-fits :
    (p : Posting) (b : Books) (r : KernelResult EnergyLedger) (more : ℕ)
    → ((ledger' : EnergyLedger) → r ≡ ok ledger' → Conserves p b.ledger ledger')
    → total b.ledger +ℤ pos (pos_part (produced p) + more) <ℤ pos i64_mod
    → total (enter p b r).ledger +ℤ pos more <ℤ pos i64_mod
enter-fits p b (err e) more c h = omega (int_laws, h)
enter-fits p b (ok ledger') more c h =
    let (_, moved, out) = c ledger' refl in
    omega (
      int_laws,
      h,
      out,
      Int.parts_of_eq (total ledger' +ℤ spent p) (total b.ledger +ℤ produced p) moved,
    )

run-IsBalanced :
    (start : ℤ) (ps : List Posting) (b : Books)
    → All IsPosting ps
    → total b.ledger +ℤ pos (inflow ps) <ℤ pos i64_mod
    → IsBalanced start b
    → IsBalanced start (run ps b)
unfolding run
run-IsBalanced start [] b ip fits h = h
run-IsBalanced start (p ∷ ps) b ip fits h =
    let step : (ledger' : EnergyLedger)
        → post p b.ledger ≡ ok ledger'
        → Conserves p b.ledger ledger' =
      λ ledger' e. post-Conserves p b.ledger ledger' ip.0 h.0 (omega (int_laws, fits)) e in
    run-IsBalanced start ps (enter p b (post p b.ledger)) ip.1
      (enter-fits p b (post p b.ledger) (inflow ps) step fits)
      (enter-IsBalanced start p b (post p b.ledger) step h)

abbrev pub open_books : EnergyLedger → Books
open_books ledger = record { ledger = ledger; in_sum = pos 0; out_sum = pos 0 }

-- From a sound table, whatever operations are run and whichever of them fail, every account stays
-- solvent, and the energy in the table is what was there, and what was credited or seeded, less what
-- was settled. The one condition is that no more energy is handed out than an `i64` holds.
pub run_conserves :
    (ledger : EnergyLedger) (ps : List Posting)
    → IsSound ledger
    → All IsPosting ps
    → total ledger +ℤ pos (inflow ps) <ℤ pos i64_mod
    → IsSound (run ps (open_books ledger)).ledger
      × (total (run ps (open_books ledger)).ledger +ℤ (run ps (open_books ledger)).out_sum
          ≡ total ledger +ℤ (run ps (open_books ledger)).in_sum)
run_conserves ledger ps sound ip fits =
    run-IsBalanced (total ledger) ps (open_books ledger) ip fits (sound, refl)
