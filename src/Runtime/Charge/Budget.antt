-- ===== src/Runtime/Charge/Budget.antt =====
-- What a committed action costs its envelope: the budget consumption of `submit_action` in
-- crates/punkgo-kernel/src/runtime/kernel.rs.
use punkgo_kernel.Prelude.{
  ℕ, ◌≡◌, ◌⊎◌, ◌∙◌, refl, ap, Option, none, some, String, eq_iff, arith, Bool-cases, Option-cases,
  inl, inr,
}
use punkgo_kernel.Prelude.Int
use punkgo_kernel.Prelude.Int.{ℤ, pos, ◌+ℤ◌, ◌≤ℤ◌, ◌<ℤ◌, ltb_ℤ, leb_ℤ, i64_mod, int_laws, wrap_i64}
use punkgo_kernel.Prelude.Table.{update_row, map_option, find_row-update_row}
use punkgo_kernel.Core.Errors.{ok}
use punkgo_kernel.Core.Consent.{
  EnvelopeRecord, EnvelopeStatus, expired, CheckpointLevel, report, halt, check_report,
  check_checkpoint,
}
use punkgo_kernel.State.EnvelopeStore.{
  EnvelopeTable, envelope_key, get, set_consumed, set_envelope_status, set_status_in_tx,
}
use punkgo_kernel.State.EnvelopeStore.Budget.{
  IsFundedTable, IsFunded-row, consume_within, consume_over, total_exact, get-update,
}
use punkgo_kernel.Runtime.Charge.{apply_checkpoint, charge_envelope}

get-update_status :
    (k : String) (status : EnvelopeStatus) (now : ℕ) (envelopes : EnvelopeTable)
    → get k (update_row envelope_key k (set_envelope_status status now) envelopes)
      ≡ map_option (set_envelope_status status now) (get k envelopes)
unfolding get
get-update_status k status now envelopes = ground (
  arith,
  eq_iff k k,
  find_row-update_row envelope_key k k (set_envelope_status status now) envelopes (λ r. refl),
)

-- Below the budget the status stays, whatever the report says.
below-keeps :
    (level : Option CheckpointLevel) (k : String) (now : ℕ) (envelopes : EnvelopeTable)
    → ((level ≡ none) ⊎ (level ≡ some report))
    → apply_checkpoint level k now envelopes ≡ ok envelopes
unfolding apply_checkpoint
below-keeps level k now envelopes (inl e) = rw e refl
below-keeps level k now envelopes (inr e) = rw e refl

report-cases :
    (report_every : Option ℤ) (a b : ℤ)
    → (check_report report_every a b ≡ none) ⊎ (check_report report_every a b ≡ some report)
unfolding check_report
report-cases none a b = inl refl
report-cases (some n) a b = elim (Option-cases (check_report (some n) a b)) [
  | inl e ↦ inl e
  | inr (level, e) ↦ inr (ground (arith, e))
]

module _ (envelopes : EnvelopeTable) (funded : IsFundedTable envelopes) (env : EnvelopeRecord)
    (cost : ℤ) (now : ℕ) where
  abbrev total : ℤ
  total = env.budget_consumed +ℤ cost

  abbrev consumed_rows : EnvelopeTable
  consumed_rows = update_row envelope_key env.envelope_id (set_consumed total now) envelopes

  consumed_row :
      get env.envelope_id envelopes ≡ some env
      → get env.envelope_id consumed_rows ≡ some (set_consumed total now env)
  consumed_row stored = ground (
    arith,
    stored,
    eq_iff env.envelope_id env.envelope_id,
    get-update env.envelope_id env.envelope_id total now envelopes,
  )

  -- The checkpoint, computed from the row before the consumption.
  checkpoint-below :
      wrap_i64 total ≡ total
      → total <ℤ env.budget
      → (check_checkpoint env cost ≡ none) ⊎ (check_checkpoint env cost ≡ some report)
  unfolding check_checkpoint
  checkpoint-below exact lt =
      rw (exact, Int.leb_ℤ_of_lt env.budget total lt)
        (report-cases env.report_every env.budget_consumed total)

  checkpoint-full :
      wrap_i64 total ≡ total → env.budget ≤ℤ total → check_checkpoint env cost ≡ some halt
  unfolding check_checkpoint
  checkpoint-full exact le = rw (exact, Int.leb_ℤ_of_le env.budget total le) refl

  charge-within :
      (level : Option CheckpointLevel)
      → get env.envelope_id envelopes ≡ some env
      → pos 0 ≤ℤ cost
      → total <ℤ pos i64_mod
      → total ≤ℤ env.budget
      → check_checkpoint env cost ≡ level
      → charge_envelope env cost now envelopes
        ≡ apply_checkpoint level env.envelope_id now consumed_rows
  unfolding charge_envelope
  charge-within level stored nonneg small le e =
      let consumed =
        consume_within envelopes funded env.envelope_id cost now env stored nonneg small le in
      rw (charge_envelope, consumed, e) refl

  halted :
      get env.envelope_id envelopes ≡ some env
      → (envelopes' : EnvelopeTable) × (apply_checkpoint
            (some halt)
            env.envelope_id
            now
            consumed_rows
          ≡ ok envelopes')
        × (get env.envelope_id envelopes'
            ≡ some (set_envelope_status expired now (set_consumed total now env)))
  unfolding apply_checkpoint set_status_in_tx
  halted stored =
      let row = consumed_row stored in
      (
        update_row envelope_key env.envelope_id (set_envelope_status expired now) consumed_rows,
        rw row refl,
        get-update_status env.envelope_id expired now consumed_rows
            ∙ ap (map_option (set_envelope_status expired now)) row,
      )

  -- A committed cost that is positive and whose sum with the consumed budget is an `i64` is charged to
  -- a funded envelope of the table like this: below the budget, the new total is recorded and the
  -- envelope keeps its status; where it reaches the budget exactly, the envelope has besides expired;
  -- above the budget, nothing at all is recorded, and the envelope stays as it was.
  pub charge_envelope_lem :
      get env.envelope_id envelopes ≡ some env
      → pos 0 <ℤ cost
      → total <ℤ pos i64_mod
      → ((total <ℤ env.budget)
          × ((envelopes' : EnvelopeTable) × (charge_envelope env cost now envelopes ≡ ok envelopes')
              × (get env.envelope_id envelopes' ≡ some (set_consumed total now env))))
        ⊎ (((total ≡ env.budget)
              × ((envelopes' : EnvelopeTable) × (charge_envelope env cost now envelopes
                    ≡ ok envelopes')
                  × (get env.envelope_id envelopes'
                      ≡ some (set_envelope_status expired now (set_consumed total now env)))))
            ⊎ ((env.budget <ℤ total) × (charge_envelope env cost now envelopes ≡ ok envelopes)))
  unfolding charge_envelope
  charge_envelope_lem stored positive small = elim (Bool-cases (ltb_ℤ total env.budget)) [
    | inl b ↦ inl (Int.ltb_ℤ_true total env.budget b, below (Int.ltb_ℤ_true total env.budget b))
    | inr b ↦ elim (Bool-cases (ltb_ℤ env.budget total)) [
      | inl a ↦
          inr (inr (Int.ltb_ℤ_true env.budget total a, above (Int.ltb_ℤ_true env.budget total a)))
      | inr a ↦
          (let ge = Int.ltb_ℤ_false total env.budget b in
            let le = Int.ltb_ℤ_false env.budget total a in
            inr (inl (omega (int_laws, ge, le), at ge le)))
    ]
  ]
    where
      nonneg : pos 0 ≤ℤ cost
      nonneg = omega (arith, positive)

      exact : wrap_i64 total ≡ total
      exact =
          total_exact envelopes funded env cost
            (IsFunded-row envelopes funded env.envelope_id env stored) nonneg small

      below :
          total <ℤ env.budget
          → (envelopes' : EnvelopeTable) × (charge_envelope env cost now envelopes ≡ ok envelopes')
            × (get env.envelope_id envelopes' ≡ some (set_consumed total now env))
      below lt = (
        consumed_rows,
        charge-within (check_checkpoint env cost) stored nonneg small (omega (arith, lt)) refl
            ∙ below-keeps (check_checkpoint env cost) env.envelope_id now consumed_rows
                (checkpoint-below exact lt),
        consumed_row stored,
      )

      at :
          env.budget ≤ℤ total
          → total ≤ℤ env.budget
          → (envelopes' : EnvelopeTable) × (charge_envelope env cost now envelopes ≡ ok envelopes')
            × (get env.envelope_id envelopes'
                ≡ some (set_envelope_status expired now (set_consumed total now env)))
      at ge le =
          let (envelopes', run, row) = halted stored in
          (
            envelopes',
            charge-within (some halt) stored nonneg small le (checkpoint-full exact ge) ∙ run,
            row,
          )

      above : env.budget <ℤ total → charge_envelope env cost now envelopes ≡ ok envelopes
      above lt =
          let over =
            consume_over envelopes funded env.envelope_id cost now env stored nonneg small lt in
          rw (charge_envelope, over) refl
