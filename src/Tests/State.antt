-- ===== src/Tests/State.antt =====
-- crates/punkgo-kernel/src/state: the theorems at concrete inputs.
use punkgo_kernel.Prelude.{
  ◌≡◌, ◌≢◌, ◌↔◌, ◌⊎◌, refl, none, some, List, [], ◌∷◌, String, if◌then◌else◌, ◌==◌, arith,
}
use punkgo_kernel.Prelude.Int.{pos, ◌-ℤ◌, ◌+ℤ◌, ◌≤ℤ◌, ◌<ℤ◌, wrap_i64, as_i64, i64_mod}
use punkgo_kernel.Core.Errors.{ok, err, authorization_required}
use punkgo_kernel.Core.Action.{bytes_to_hex, lut}
use punkgo_kernel.Core.Consent.{EnvelopeSpec}
use punkgo_kernel.State.Ledger.{EnergyRow, EnergyLedger, find_account, reserve_in_tx, settle_in_tx}
use punkgo_kernel.State.Ledger.Invariant.{IsSound}
use punkgo_kernel.State.Ledger.Preserve.{settled_row, reserve_then_settle}
use punkgo_kernel.State.Ledger.Steps.{
  Posting, reserve, settle, credit, open_books, run, total, run_conserves,
}
use punkgo_kernel.State.EventLog.{
  EventRecord, Hashing, canonical, compute_event_hash, next_idx, assign_and_insert, query,
}
use punkgo_kernel.State.EventLog.Append.{Appended, assign_and_insert-Appended}
use punkgo_kernel.State.EventLog.Query.{
  newest_first, Picked, IsPage, IsSelected, query-newest_first,
}
use punkgo_kernel.State.EnvelopeStore.{
  EnvelopeTable, HoldRequest, HoldStatus, get, set_consumed, consume_budget_in_tx, get_hold_request,
  has_pending, resolved_status, set_resolved, resolve_hold_request_in_tx,
}
use punkgo_kernel.State.EnvelopeStore.Budget.{IsFundedTable, consume_budget_lem}
use punkgo_kernel.State.EnvelopeStore.Holds.{stop, resolve_once, resolve_iff}
use punkgo_kernel.Tests.Fixtures.{Value, null, budgeted, waiting}

abbrev purse : EnergyRow
purse = record {
  actor_id = "alice";
  energy_balance = pos 100;
  reserved_energy = pos 10;
  updated_at = 1;
}

abbrev purses : EnergyLedger
purses = purse ∷ []

purses-IsSound : IsSound purses
purses-IsSound =
    (record { reserved_nonneg = omega arith; covered = omega arith; small = omega arith }, tt)

abbrev postings : List Posting
postings =
    reserve "alice" (pos 30) 2
    ∷ settle "alice" (pos 30) (pos 25) 3
    ∷ reserve "bob" (pos 1) 4
    ∷ credit "alice" (pos 5) 5
    ∷ []

purses-fit : total purses +ℤ pos 5 <ℤ pos i64_mod
unfolding ◌+ℤ◌
purses-fit = omega arith

abbrev reserved_purses : EnergyLedger
reserved_purses = record purse { reserved_energy = pos 40; updated_at = 2 } ∷ []

reserved : reserve_in_tx "alice" (pos 30) 2 purses ≡ ok reserved_purses
unfolding reserve_in_tx wrap_i64 as_i64 ◌-ℤ◌ ◌+ℤ◌
reserved = refl

reserve_then_settle_example :
    (row : EnergyRow) × (settled : EnergyLedger) × (find_account "alice" purses ≡ some row)
    × (settle_in_tx "alice" (pos 30) (pos 25) 3 reserved_purses ≡ ok settled)
    × ((j : String)
        → find_account j settled
          ≡ (if "alice" == j then some (settled_row (pos 25) 3 row) else find_account j purses))
reserve_then_settle_example =
    reserve_then_settle purses purses-IsSound "alice" (pos 30) (pos 25) 2 3 reserved_purses
      (omega arith) (omega arith) reserved

run_conserves_example :
    IsSound (run postings (open_books purses)).ledger
    × (total (run postings (open_books purses)).ledger +ℤ (run postings (open_books purses)).out_sum
        ≡ total purses +ℤ (run postings (open_books purses)).in_sum)
run_conserves_example =
    run_conserves purses postings purses-IsSound
      (omega arith, ((omega arith, omega arith), (omega arith, (omega arith, tt)))) purses-fit

abbrev event : EventRecord Value
event = record {
  id = "ev";
  log_index = 0;
  event_hash = [];
  actor_id = "alice";
  action_type = "mutate";
  target = "a/x";
  payload = null;
  payload_hash = [];
  artifact_hash = none;
  reserved_energy = pos 3;
  settled_energy = pos 3;
  timestamp = 4;
}

-- A hash of one byte.
abbrev hashing : Hashing
hashing = record { to_vec = λ c. some (c.log_index ∷ []); sha256 = λ bytes. bytes }

abbrev first : EventRecord Value
first = record event { id = "ev0" }

abbrev written : EventRecord Value
written = record event { log_index = 1; event_hash = b'0' ∷ b'0' ∷ b'0' ∷ b'1' ∷ [] }

second : assign_and_insert hashing event (first ∷ []) ≡ ok (written, first ∷ written ∷ [])
unfolding assign_and_insert compute_event_hash canonical next_idx bytes_to_hex lut
second = refl

assign_and_insert-Appended_example :
    Appended hashing event (first ∷ []) written (first ∷ written ∷ [])
assign_and_insert-Appended_example =
    assign_and_insert-Appended hashing event (first ∷ []) written (first ∷ written ∷ []) (refl, tt)
      second

query-newest_first_example :
    (rows : List (EventRecord Value)) × Picked
      (IsSelected (some "alice") none (some (pos 0)))
      (first ∷ written ∷ [])
      rows
    × IsPage
        (pos 1)
        (newest_first rows)
        (query (some "alice") none (some (pos 0)) (pos 1) (first ∷ written ∷ []))
query-newest_first_example =
    query-newest_first (some "alice") none (some (pos 0)) (pos 1) (first ∷ written ∷ [])
      (refl, (refl, tt))

budgeted-stored : get "e1" (budgeted ∷ []) ≡ some budgeted
unfolding get
budgeted-stored = refl

budgeted-IsFundedTable : IsFundedTable (budgeted ∷ [])
budgeted-IsFundedTable =
    (record { nonneg = omega arith; within = omega arith; small = omega arith }, tt)

sixty : pos 40 +ℤ pos 20 <ℤ pos i64_mod
unfolding ◌+ℤ◌
sixty = omega arith

consume_budget_lem_example :
    ((pos 40 +ℤ pos 20 ≤ℤ pos 100)
      × ((envelopes' : EnvelopeTable) × (consume_budget_in_tx "e1" (pos 20) 9 (budgeted ∷ [])
            ≡ ok (pos 40 +ℤ pos 20, envelopes'))
          × (get "e2" envelopes' ≡ (
              if "e1" == "e2"
              then some (set_consumed (pos 40 +ℤ pos 20) 9 budgeted)
              else get "e2" (budgeted ∷ [])))
          × IsFundedTable envelopes'))
    ⊎ ((pos 100 <ℤ pos 40 +ℤ pos 20)
        × (consume_budget_in_tx "e1" (pos 20) 9 (budgeted ∷ [])
            ≡ err (authorization_required "envelope budget exceeded")))
consume_budget_lem_example =
    consume_budget_lem (budgeted ∷ []) budgeted-IsFundedTable "e1" (pos 20) 9 budgeted "e2"
      budgeted-stored (omega arith) sixty

abbrev grant : EnvelopeSpec
grant = record {
  actor_id = "alice/bot/1";
  grantor_id = "alice";
  budget = pos 30;
  targets = "a/x" ∷ [];
  actions = "mutate" ∷ [];
  duration_secs = none;
  report_every = none;
  hold_on = [];
  hold_timeout_secs = none;
}

abbrev answered : HoldRequest Value
answered = set_resolved HoldStatus.approved "approve" (some "go") 9 waiting

answer : resolve_hold_request_in_tx "h1" "approve" (some "go") 9 (waiting ∷ []) ≡ ok (answered ∷ [])
unfolding resolve_hold_request_in_tx resolved_status has_pending get_hold_request
answer = refl

resolve_once_example :
    (row : HoldRequest Value) × (get_hold_request "h1" (answered ∷ []) ≡ some row)
    × (row.decision ≡ some "approve")
    × (row.instruction ≡ some "go")
    × (resolved_status "approve" ≡ some row.status)
    × (resolve_hold_request_in_tx "h1" "reject" none 10 (answered ∷ []) ≢ ok (waiting ∷ []))
resolve_once_example =
    resolve_once "h1" "approve" (some "go") 9 (waiting ∷ []) (answered ∷ []) (answered ∷ [])
      "reject" none 10 (waiting ∷ []) answer stop

abbrev no : String
no = "reject"

resolve_iff_example :
    ((holds' : List (HoldRequest Value)) × (resolve_hold_request_in_tx "h1" no none 9 (waiting ∷ [])
        ≡ ok holds'))
    ↔ (((no ≡ "approve") ⊎ ((no ≡ "reject") ⊎ (no ≡ "timed_out")))
        × ((row : HoldRequest Value) × (get_hold_request "h1" (waiting ∷ []) ≡ some row)
            × (row.status ≡ HoldStatus.pending)))
resolve_iff_example = resolve_iff "h1" no none 9 (waiting ∷ [])
