-- ===== src/State/EnvelopeStore/Budget.antt =====
-- Envelopes never overspend: `create_in_tx` and `consume_budget_in_tx` of
-- crates/punkgo-kernel/src/state/envelope_store.rs.
use punkgo_kernel.Prelude.{
  ℕ, ◌≡◌, ◌⊎◌, refl, Option, some, [], ◌∷◌, ◌++◌, String, All, if◌then◌else◌, ◌==◌, eq_iff, arith,
  Bool-cases, inl, inr,
}
use punkgo_kernel.Prelude.Int
use punkgo_kernel.Prelude.Int.{ℤ, pos, ◌+ℤ◌, ◌-ℤ◌, ◌≤ℤ◌, ◌<ℤ◌, ltb_ℤ, wrap_i64, i64_mod, int_laws}
use punkgo_kernel.Prelude.Table.{
  update_row, map_option, find_row-update_row, All-find_row, All-update_row, All-append,
}
use punkgo_kernel.Core.Errors.{authorization_required, ok, err}
use punkgo_kernel.Core.Consent.{EnvelopeSpec, EnvelopeRecord}
use punkgo_kernel.Core.Consent.Checks.{IsFunded}
use punkgo_kernel.State.EnvelopeStore.{
  EnvelopeTable, envelope_key, get, new_envelope, create_in_tx, set_consumed, consume_budget_in_tx,
}

abbrev pub IsFundedTable : EnvelopeTable → Type 0
IsFundedTable envelopes = All IsFunded envelopes

pub get-update :
    (k j : String) (total : ℤ) (now : ℕ) (envelopes : EnvelopeTable)
    → get j (update_row envelope_key k (set_consumed total now) envelopes)
      ≡ (if k == j then map_option (set_consumed total now) (get j envelopes) else get j envelopes)
unfolding get
get-update k j total now envelopes =
    find_row-update_row envelope_key k j (set_consumed total now) envelopes (λ r. refl)

module _ (envelopes : EnvelopeTable) (funded : IsFundedTable envelopes) where
  pub IsFunded-row : (k : String) (row : EnvelopeRecord) → get k envelopes ≡ some row → IsFunded row
  unfolding get
  IsFunded-row k row e = All-find_row envelope_key IsFunded k row envelopes e funded

  pub total_exact :
      (row : EnvelopeRecord) (amount : ℤ)
      → IsFunded row
      → pos 0 ≤ℤ amount
      → row.budget_consumed +ℤ amount <ℤ pos i64_mod
      → wrap_i64 (row.budget_consumed +ℤ amount) ≡ row.budget_consumed +ℤ amount
  total_exact row amount f nonneg small =
      Int.wrap_i64-add row.budget_consumed amount
        (record { nonneg = omega (int_laws, f.nonneg, nonneg); small = small })

  -- Consuming a total that is within the budget, and one that is not.
  pub consume_within :
      (envelope_id : String) (amount : ℤ) (now : ℕ) (row : EnvelopeRecord)
      → get envelope_id envelopes ≡ some row
      → pos 0 ≤ℤ amount
      → row.budget_consumed +ℤ amount <ℤ pos i64_mod
      → row.budget_consumed +ℤ amount ≤ℤ row.budget
      → consume_budget_in_tx envelope_id amount now envelopes
        ≡ ok (
          row.budget_consumed +ℤ amount,
          update_row envelope_key envelope_id
              (set_consumed (row.budget_consumed +ℤ amount) now)
              envelopes,
        )
  unfolding consume_budget_in_tx
  consume_within envelope_id amount now row e nonneg small le =
      rw
        (
          e,
          total_exact row amount (IsFunded-row envelope_id row e) nonneg small,
          Int.ltb_ℤ_of_le row.budget (row.budget_consumed +ℤ amount) le,
        )
        refl

  pub consume_over :
      (envelope_id : String) (amount : ℤ) (now : ℕ) (row : EnvelopeRecord)
      → get envelope_id envelopes ≡ some row
      → pos 0 ≤ℤ amount
      → row.budget_consumed +ℤ amount <ℤ pos i64_mod
      → row.budget <ℤ row.budget_consumed +ℤ amount
      → consume_budget_in_tx envelope_id amount now envelopes
        ≡ err (authorization_required "envelope budget exceeded")
  unfolding consume_budget_in_tx
  consume_over envelope_id amount now row e nonneg small lt =
      rw
        (
          e,
          total_exact row amount (IsFunded-row envelope_id row e) nonneg small,
          Int.ltb_ℤ_of_lt row.budget (row.budget_consumed +ℤ amount) lt,
        )
        refl

  -- With a table of funded envelopes, an amount that is no debt and whose sum with the consumed budget
  -- is an `i64` is consumed exactly if the budget covers it. Then the row of the envelope has the new
  -- total, any other row `j` is as before, and every envelope of the table is funded again. Otherwise
  -- the call fails.
  pub consume_budget_lem :
      (envelope_id : String) (amount : ℤ) (now : ℕ) (row : EnvelopeRecord) (j : String)
      → get envelope_id envelopes ≡ some row
      → pos 0 ≤ℤ amount
      → row.budget_consumed +ℤ amount <ℤ pos i64_mod
      → ((row.budget_consumed +ℤ amount ≤ℤ row.budget)
          × ((envelopes' : EnvelopeTable) × (consume_budget_in_tx envelope_id amount now envelopes
                ≡ ok (row.budget_consumed +ℤ amount, envelopes'))
              × (get j envelopes' ≡ (
                  if envelope_id == j
                  then some (set_consumed (row.budget_consumed +ℤ amount) now row)
                  else get j envelopes))
              × IsFundedTable envelopes'))
        ⊎ ((row.budget <ℤ row.budget_consumed +ℤ amount)
            × (consume_budget_in_tx envelope_id amount now envelopes
                ≡ err (authorization_required "envelope budget exceeded")))
  unfolding get
  consume_budget_lem envelope_id amount now row j e nonneg small =
      let total = row.budget_consumed +ℤ amount in
      elim (Bool-cases (ltb_ℤ row.budget total)) [
        | inl over ↦
            (let lt = Int.ltb_ℤ_true row.budget total over in
              inr (lt, consume_over envelope_id amount now row e nonneg small lt))
        | inr within ↦
            (let le = Int.ltb_ℤ_false row.budget total within in
              let f = IsFunded-row envelope_id row e in
              inl (
                le,
                (
                  update_row envelope_key envelope_id (set_consumed total now) envelopes,
                  consume_within envelope_id amount now row e nonneg small le,
                  ground (
                    arith,
                    eq_iff envelope_id j,
                    e,
                    get-update envelope_id j total now envelopes,
                  ),
                  All-update_row envelope_key IsFunded envelope_id (set_consumed total now) row
                      envelopes e
                      (record {
                        nonneg = omega (int_laws, f.nonneg, nonneg);
                        within = le;
                        small = f.small;
                      })
                      funded,
                ),
              ))
      ]

  -- Where it is created, a new envelope with a budget that is a nonnegative `i64` leaves the table
  -- funded.
  pub create_in_tx-IsFundedTable :
      (now : ℕ) (envelope_id : String) (spec : EnvelopeSpec) (parent : Option String)
      (envelopes' : EnvelopeTable)
      → create_in_tx now envelope_id spec parent envelopes ≡ ok envelopes'
      → pos 0 ≤ℤ spec.budget
      → spec.budget <ℤ pos i64_mod
      → IsFundedTable envelopes'
  unfolding create_in_tx new_envelope
  create_in_tx-IsFundedTable now envelope_id spec parent envelopes' h nonneg small =
      let result : envelopes' ≡ envelopes ++ new_envelope now envelope_id spec parent ∷ [] =
        ground arith in
      rw result (
        All-append IsFunded envelopes (new_envelope now envelope_id spec parent ∷ []) funded
          (record { nonneg = omega arith; within = nonneg; small = small }, tt))
