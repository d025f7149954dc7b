-- ===== src/State/EnvelopeStore.antt =====
-- crates/punkgo-kernel/src/state/envelope_store.rs: the tables `envelopes` and `hold_requests`.
-- A write inside a transaction returns the table that it leaves. `now` is the time that it reads, in
-- milliseconds. Lists, rules and payloads are stored as JSON texts and parsed again when a row is
-- read; the tables here hold the values.
pub mod Holds
pub mod Budget
use punkgo_kernel.Prelude.{
  ℕ, ◌+◌, ◌*◌, ◌%◌, ◌≡◌, Bool, true, false, not, ◌&&◌, Option, none, some, List, [], ◌∷◌, ◌++◌,
  String, if◌then◌else◌, ◌==◌, ltb, leb, is_some, keep_if,
}
use punkgo_kernel.Prelude.Int.{ℤ, pos, ◌+ℤ◌, ltb_ℤ, wrap_i64, as_u64, u64_mod}
use punkgo_kernel.Prelude.Table.{find_row, update_row, map_option}
use punkgo_kernel.Core.Errors.{
  KernelError, policy_violation, authorization_required, db, KernelResult, ok, err, raise_if, ok_or,
  ◌>>=◌, ◌>>◌,
}
use punkgo_kernel.Core.Consent.{
  EnvelopeSpec, EnvelopeRecord, EnvelopeStatus, active, expired, is_active, is_envelope_expired,
}

abbrev pub envelope_key : EnvelopeRecord → String
envelope_key env = env.envelope_id

abbrev pub EnvelopeTable : Type 0
EnvelopeTable = List EnvelopeRecord

-- `now.parse().unwrap_or(0)` on the decimal text of `now`, as a u64.
abbrev pub parse_u64 : ℕ → ℕ
parse_u64 now = if ltb now u64_mod then now else 0

unfoldable pub expires_after : ℕ → ℤ → ℕ
expires_after now duration_secs = (parse_u64 now + as_u64 duration_secs * 1000 % u64_mod) % u64_mod

unfoldable pub new_envelope : ℕ → String → EnvelopeSpec → Option String → EnvelopeRecord
new_envelope now envelope_id spec parent_envelope_id = record {
  envelope_id = envelope_id;
  actor_id = spec.actor_id;
  grantor_id = spec.grantor_id;
  parent_envelope_id = parent_envelope_id;
  budget = spec.budget;
  budget_consumed = pos 0;
  targets = spec.targets;
  actions = spec.actions;
  duration_secs = spec.duration_secs;
  report_every = spec.report_every;
  hold_on = spec.hold_on;
  hold_timeout_secs = spec.hold_timeout_secs;
  status = active;
  last_report_at = pos 0;
  created_at = now;
  expires_at = map_option (expires_after now) spec.duration_secs;
  updated_at = now;
}

-- SELECT … FROM envelopes WHERE envelope_id = ?1
unfoldable pub get : String → EnvelopeTable → Option EnvelopeRecord
get envelope_id envelopes = find_row envelope_key envelope_id envelopes

unfoldable pub create_in_tx :
    ℕ → String → EnvelopeSpec → Option String → EnvelopeTable → KernelResult EnvelopeTable
unfolding get
create_in_tx now envelope_id spec parent_envelope_id envelopes = do
  raise_if (is_some (get envelope_id envelopes)) (db "UNIQUE constraint failed")
  ok (envelopes ++ new_envelope now envelope_id spec parent_envelope_id ∷ [])

-- WHERE actor_id = ?1 AND status = 'active' ORDER BY created_at DESC LIMIT 1; of two rows of the same
-- time, the one inserted first.
abbrev pub later : EnvelopeRecord → Option EnvelopeRecord → Option EnvelopeRecord
later env none = some env
later env (some other) = if ltb env.created_at other.created_at then some other else some env

unfoldable pub get_active_for_actor : String → EnvelopeTable → Option EnvelopeRecord
get_active_for_actor actor_id [] = none
get_active_for_actor actor_id (env ∷ envs) =
    let rest = get_active_for_actor actor_id envs in
    if env.actor_id == actor_id && is_active env.status then later env rest else rest

abbrev pub set_consumed : ℤ → ℕ → EnvelopeRecord → EnvelopeRecord
set_consumed new_consumed now env = record env { budget_consumed = new_consumed; updated_at = now }

abbrev pub set_envelope_status : EnvelopeStatus → ℕ → EnvelopeRecord → EnvelopeRecord
set_envelope_status status now env = record env { status = status; updated_at = now }

abbrev pub set_last_report : ℤ → ℕ → EnvelopeRecord → EnvelopeRecord
set_last_report last_report_at now env = record env {
  last_report_at = last_report_at;
  updated_at = now;
}

unfoldable pub consume_budget_in_tx :
    String → ℤ → ℕ → EnvelopeTable → KernelResult (ℤ × EnvelopeTable)
consume_budget_in_tx envelope_id amount now envelopes = do
  row ← ok_or (get envelope_id envelopes) (policy_violation "envelope not found")
  let new_consumed = wrap_i64 (row.budget_consumed +ℤ amount)
  raise_if (ltb_ℤ row.budget new_consumed) (authorization_required "envelope budget exceeded")
  ok (new_consumed, update_row envelope_key envelope_id (set_consumed new_consumed now) envelopes)

unfoldable pub set_status_in_tx :
    String → EnvelopeStatus → ℕ → EnvelopeTable → KernelResult EnvelopeTable
set_status_in_tx envelope_id status now envelopes = do
  raise_if (not (is_some (get envelope_id envelopes))) (policy_violation "envelope not found")
  ok (update_row envelope_key envelope_id (set_envelope_status status now) envelopes)

-- Whether the envelope has been marked as expired, and the table; `now` is the later of two readings.
unfoldable pub expire_found :
    Option EnvelopeRecord → String → ℕ → EnvelopeTable → KernelResult (Bool × EnvelopeTable)
expire_found none envelope_id now envelopes = ok (false, envelopes)
expire_found (some env) envelope_id now envelopes =
    let marked = set_status_in_tx envelope_id expired now envelopes in
    if not (is_active env.status)
    then ok (false, envelopes)
    else if is_envelope_expired env now
    then (marked >>= λ t. ok (true, t))
    else ok (false, envelopes)

unfoldable pub check_and_expire : String → ℕ → EnvelopeTable → KernelResult (Bool × EnvelopeTable)
check_and_expire envelope_id now envelopes =
    expire_found (get envelope_id envelopes) envelope_id now envelopes

unfoldable pub update_checkpoint_tracking : String → ℤ → ℕ → EnvelopeTable → EnvelopeTable
update_checkpoint_tracking envelope_id last_report_at now =
    update_row envelope_key envelope_id (set_last_report last_report_at now)

pub data HoldStatus : Type 0 where
  pending approved rejected timed_out : HoldStatus

pub record HoldRequest (V : Type 0) : Type 0 where
  pub hold_id : String
  pub envelope_id : String
  pub agent_id : String
  pub trigger_target : String
  pub trigger_action : String
  pub pending_payload : V
  pub status : HoldStatus
  pub decision : Option String
  pub instruction : Option String
  pub triggered_at : ℕ
  pub resolved_at : Option ℕ

pub record NewHoldRequest (V : Type 0) : Type 0 where
  pub hold_id : String
  pub envelope_id : String
  pub agent_id : String
  pub trigger_target : String
  pub trigger_action : String
  pub pending_payload : V

abbrev pub is_pending : HoldStatus → Bool
is_pending pending = true
is_pending approved = false
is_pending rejected = false
is_pending timed_out = false

-- The status that a decision leads to.
unfoldable pub resolved_status : String → Option HoldStatus
resolved_status decision =
    if decision == "approve"
    then some approved
    else if decision == "reject"
    then some rejected
    else if decision == "timed_out"
    then some timed_out
    else none

module _ {V : Type 0} where
  abbrev pub hold_key : HoldRequest V → String
  hold_key h = h.hold_id

  -- The row, where the source builds a JSON object of its columns.
  unfoldable pub get_hold_request : String → List (HoldRequest V) → Option (HoldRequest V)
  get_hold_request hold_id holds = find_row hold_key hold_id holds

  unfoldable pub insert_by_time : HoldRequest V → List (HoldRequest V) → List (HoldRequest V)
  insert_by_time h [] = h ∷ []
  insert_by_time h (x ∷ xs) =
      let rest = insert_by_time h xs in
      if leb h.triggered_at x.triggered_at then h ∷ x ∷ xs else x ∷ rest

  -- ORDER BY triggered_at ASC
  unfoldable pub oldest_first : List (HoldRequest V) → List (HoldRequest V)
  oldest_first [] = []
  oldest_first (h ∷ hs) = insert_by_time h (oldest_first hs)

  abbrev pub of_agent : Option String → HoldRequest V → Bool
  of_agent none h = true
  of_agent (some id) h = h.agent_id == id

  unfoldable pub list_pending_holds : Option String → List (HoldRequest V) → List (HoldRequest V)
  list_pending_holds agent_id holds =
      oldest_first (keep_if (λ h. is_pending h.status && of_agent agent_id h) holds)

  unfoldable pub list_pending_holds_for_envelope :
      String → List (HoldRequest V) → List (HoldRequest V)
  list_pending_holds_for_envelope envelope_id holds =
      oldest_first (keep_if (λ h. is_pending h.status && h.envelope_id == envelope_id) holds)

  abbrev pub new_hold : ℕ → NewHoldRequest V → HoldRequest V
  new_hold now req = record {
    hold_id = req.hold_id;
    envelope_id = req.envelope_id;
    agent_id = req.agent_id;
    trigger_target = req.trigger_target;
    trigger_action = req.trigger_action;
    pending_payload = req.pending_payload;
    status = pending;
    decision = none;
    instruction = none;
    triggered_at = now;
    resolved_at = none;
  }

  -- `hold_id` is the primary key, and `envelope_id` refers to the table `envelopes`.
  unfoldable pub create_hold_request_in_tx :
      NewHoldRequest V
      → ℕ
      → EnvelopeTable
      → List (HoldRequest V)
      → KernelResult (List (HoldRequest V))
  create_hold_request_in_tx req now envelopes holds = do
    raise_if (is_some (get_hold_request req.hold_id holds)) (db "UNIQUE constraint failed")
    raise_if (not (is_some (get req.envelope_id envelopes))) (db "FOREIGN KEY constraint failed")
    ok (holds ++ new_hold now req ∷ [])

  abbrev pub set_resolved : HoldStatus → String → Option String → ℕ → HoldRequest V → HoldRequest V
  set_resolved status decision instruction now h = record h {
    status = status;
    decision = some decision;
    instruction = instruction;
    resolved_at = some now;
  }

  -- Whether the UPDATE finds its row: WHERE hold_id = ?5 AND status = 'pending'.
  unfoldable pub has_pending : String → List (HoldRequest V) → Bool
  unfolding get_hold_request
  has_pending hold_id holds = elim (get_hold_request hold_id holds) [
    | none ↦ false
    | some h ↦ is_pending h.status
  ]

  unfoldable pub resolve_hold_request_in_tx :
      String
      → String
      → Option String
      → ℕ
      → List (HoldRequest V)
      → KernelResult (List (HoldRequest V))
  resolve_hold_request_in_tx hold_id decision instruction now holds = do
    status ← ok_or (resolved_status decision) (policy_violation "invalid hold decision")
    raise_if (not (has_pending hold_id holds))
        (policy_violation "hold_request not found or already resolved")
    ok (update_row hold_key hold_id (set_resolved status decision instruction now) holds)
