-- ===== src/Tests/Submit.antt =====
-- Submissions at concrete inputs.
use punkgo_kernel.Prelude.{
  ℕ, zero, suc, ◌+◌, ◌*◌, ◌<◌, ◌≡◌, ◌≢◌, refl, true, false, none, some, List, [], ◌∷◌, String,
  arith, ◌↔◌, inl, All,
}
use Prim.Native.String.{◌++◌}
use punkgo_kernel.Prelude.Int.{ℤ, pos, ◌+ℤ◌, ◌-ℤ◌, wrap_i64, as_i64}
use punkgo_kernel.Prelude.Texts.{decimal, strip_prefix}
use punkgo_kernel.Core.Errors.{ok, err, invalid_request, execute_payload_invalid}
use punkgo_kernel.Core.Action.{
  Action, mutate, bytes_to_hex, lut, quote_cost, action_cost, append_cost, payload_hash_hex,
  is_state_changing,
}
use punkgo_kernel.Core.Boundary.{glob_match}
use punkgo_kernel.Core.Boundary.Access.{Some}
use punkgo_kernel.Core.Consent.{EnvelopeRecord}
use punkgo_kernel.State.Ledger.{EnergyLedger, EnergyRow, reserve_in_tx, settle_in_tx}
use punkgo_kernel.State.EventLog.{
  EventRecord, canonical, compute_event_hash, next_idx, assign_and_insert,
}
use punkgo_kernel.State.ActorStore
use punkgo_kernel.State.EnvelopeStore.{get_active_for_actor}
use punkgo_kernel.State.AuditLog.{
  hex_to_hash, bytes_of, byte_of, put_hash, put_hashes, climb, append_leaf_in_tx,
}
use punkgo_kernel.State.Store.{run_startup_integrity_checks}
use punkgo_kernel.State.Store.Startup.{IsAccount, IsRecorded, run_startup_integrity_checks_iff}
use punkgo_kernel.Runtime.Payload.{
  parse_policy_version, validate_execute_payload, require_valid_oid,
}
use punkgo_kernel.Runtime.Lifecycle.{parse_lifecycle_op}
use punkgo_kernel.Runtime.Charge.{charge_after_commit}
use punkgo_kernel.Runtime.Commit.{
  settle_if, create_actor_if, create_envelope_if, finalize_energy_and_event,
}
use punkgo_kernel.Runtime.World.{Externals, World, pure, fail, check, read, transact, draw, ◌>>=◌}
use punkgo_kernel.Runtime.Creation.{parse_create_actor_spec, parse_create_envelope_spec}
use punkgo_kernel.Runtime.Submit.{
  SubmitReceipt, check_lifecycle, name_envelope, reserve_cost, reserve_energy, record_policy,
  run_lifecycle, perform, submit_action,
}
use punkgo_kernel.Runtime.Evolution.{Evolves}
use punkgo_kernel.Runtime.Evolution.Submission.{GivesI64}
use punkgo_kernel.Runtime.Depth
use punkgo_kernel.Runtime.Outcome.{Performed, perform-Performed}
use punkgo_kernel.Runtime.Outcome.Held.{Meets, submit_action-held}
use punkgo_kernel.Runtime.Outcome.Leak.{execution, perform-keeps_reservation}
use punkgo_kernel.Runtime.Outcome.Lockout.{perform-locks_out}
use punkgo_kernel.Runtime.History.{
  boot, submit, submit_all, submit-deep_enough, submit_all-Evolves, IsLawful, boot-IsLawful,
}
use punkgo_kernel.Tests.Fixtures.{
  Value, null, field, number, values, matcher, alice, bot, budgeted, waiting, number_of-lt,
}

abbrev repeat : ℕ → ℕ → List ℕ
repeat zero x = []
repeat (suc n) x = x ∷ repeat n x

-- UUIDs "u", "uu", …
abbrev name : ℕ → String
name zero = "u"
name (suc n) = "u" ++ name n

abbrev fifth : ℤ → ℤ
fifth z = pos 1

abbrev externals : Externals Value
externals = record {
  json = values;
  glob = matcher;
  like = record { id_like = λ c p i. false; lineage_like = λ i l. false };
  hashing = record { to_vec = λ c. some []; sha256 = λ bytes. repeat 32 0 };
  tlog = record { stored_hash_index = λ level n. level * 1000 + n; node_hash = λ left right. left };
  uuid = name;
  writable_targets_of = λ v. none;
  strings_of = λ v. none;
  hold_rules_of = λ v. none;
  ceil_fifth = fifth;
}

externals-GivesI64 : GivesI64 externals
externals-GivesI64 = record { as_i64_lt = number_of-lt; ceil_fifth_lt = λ z. omega arith }

abbrev account : String → ℤ → ℤ → ℕ → EnergyRow
account id balance reserved now = record {
  actor_id = id;
  energy_balance = balance;
  reserved_energy = reserved;
  updated_at = now;
}

-- An envelope of the bot that holds every mutation of `a/x`.
abbrev held : EnvelopeRecord
held = record budgeted { hold_on = record { target = "a/x"; actions = "mutate" ∷ [] } ∷ [] }

abbrev world : World Value
world = record {
  db = record {
    ledger = account "alice" (pos 100) (pos 0) 1 ∷ account "alice/bot/1" (pos 100) (pos 20) 1 ∷ [];
    events = [];
    actors = alice ∷ bot ∷ [];
    envelopes = held ∷ [];
    holds = waiting ∷ [];
    audit_hashes = [];
  };
  system_meta = [];
  drawn = 0;
}

abbrev writing : String → Value → Action Value
writing actor_id payload = record {
  actor_id = actor_id;
  action_type = mutate;
  target = "a/x";
  payload = payload;
  timestamp = none;
}

abbrev receipt : ℤ → SubmitReceipt
receipt cost = record {
  event_id = "u";
  log_index = 0;
  event_hash = repeat 64 b'0';
  reserved_cost = cost;
  settled_cost = cost;
  artifact_hash = none;
}

submit_all-Evolves_example :
    Evolves world.db
      (submit_all externals
        ((9, writing "alice" null) ∷ (10, writing "alice/bot/1" null) ∷ [])
        world).db
submit_all-Evolves_example =
    submit_all-Evolves externals externals-GivesI64
      ((9, writing "alice" null) ∷ (10, writing "alice/bot/1" null) ∷ []) world

any_path : (target : String) → glob_match matcher "**" target ≡ true
unfolding glob_match
any_path target = refl

boot-IsLawful_example :
    IsLawful externals externals-GivesI64
      (submit_all externals ((9, writing "root" null) ∷ []) (boot 1))
boot-IsLawful_example =
    boot-IsLawful externals externals-GivesI64 1 ((9, writing "root" null) ∷ []) any_path

one_waits : Depth.waiting world.db.holds < 3
unfolding Depth.waiting
one_waits = omega arith

submit-deep_enough_example :
    submit externals 9 (writing "alice" null) world
    ≡ submit_action externals 9 (fail (invalid_request "else")) 3 (writing "alice" null) world
submit-deep_enough_example =
    submit-deep_enough externals 9 (writing "alice" null) world (fail (invalid_request "else")) 3
      one_waits

bot_acts : get_active_for_actor "alice/bot/1" (held ∷ []) ≡ some held
unfolding get_active_for_actor
bot_acts = refl

bot_known : ActorStore.get "alice/bot/1" world.db.actors ≡ some bot
unfolding ActorStore.get
bot_known = refl

rule-Meets : Some (Meets externals 9 "a/x" mutate) held.hold_on
unfolding glob_match
rule-Meets = inl (refl, inl refl)

submit_action-held_example :
    (submit_action externals 9
      (fail (invalid_request "depth"))
      1
      (writing "alice/bot/1" null)
      world).0
    ≢ ok (receipt (pos 16))
submit_action-held_example =
    submit_action-held externals 9 (fail (invalid_request "depth")) 0 (writing "alice/bot/1" null)
      held world (receipt (pos 16)) (λ e. cc) bot bot_known refl bot_acts rule-Meets refl

performs : (perform externals 9 (writing "alice" null) world).0 ≡ ok (receipt (pos 16))
unfolding perform check_lifecycle parse_create_actor_spec parse_create_envelope_spec name_envelope
    reserve_energy reserve_cost quote_cost action_cost append_cost payload_hash_hex bytes_to_hex lut
    reserve_in_tx as_i64 wrap_i64 ◌-ℤ◌ ◌+ℤ◌ finalize_energy_and_event settle_if settle_in_tx
    create_actor_if create_envelope_if assign_and_insert compute_event_hash canonical next_idx
    append_leaf_in_tx hex_to_hash bytes_of byte_of climb put_hash put_hashes record_policy
    parse_policy_version charge_after_commit is_state_changing ActorStore.get run_lifecycle
    parse_lifecycle_op strip_prefix pure check read transact draw ◌>>=◌
performs = refl

perform-Performed_example :
    Performed externals
      (writing "alice" null)
      []
      (perform externals 9 (writing "alice" null) world).1.db.events
      (receipt (pos 16))
perform-Performed_example =
    perform-Performed externals 9 (writing "alice" null) world (receipt (pos 16)) performs

abbrev free : Value
free = field "_hold_reserved_cost" (number (pos 0)) null

performs_free : (perform externals 9 (writing "alice" free) world).0 ≡ ok (receipt (pos 0))
unfolding perform check_lifecycle parse_create_actor_spec parse_create_envelope_spec name_envelope
    reserve_energy reserve_cost quote_cost action_cost append_cost payload_hash_hex bytes_to_hex lut
    as_i64 wrap_i64 finalize_energy_and_event settle_if create_actor_if create_envelope_if
    assign_and_insert compute_event_hash canonical next_idx append_leaf_in_tx hex_to_hash bytes_of
    byte_of climb put_hash put_hashes record_policy parse_policy_version charge_after_commit
    is_state_changing ActorStore.get run_lifecycle parse_lifecycle_op strip_prefix pure check read
    transact draw ◌>>=◌
performs_free = refl

perform-locks_out_example :
    run_startup_integrity_checks [] (perform externals 9 (writing "alice" free) world).1.db.events
    ≢ ok tt
perform-locks_out_example =
    perform-locks_out externals 9 (writing "alice" free) world (receipt (pos 0)) (pos 0) [] refl
      refl (omega arith) performs_free

abbrev logged : EventRecord Value
logged = record {
  id = "ev";
  log_index = 0;
  event_hash = [];
  actor_id = "alice";
  action_type = "mutate";
  target = "a/x";
  payload = null;
  payload_hash = [];
  artifact_hash = none;
  reserved_energy = pos 3;
  settled_energy = pos 3;
  timestamp = 4;
}

-- A hold that timed out, at no cost, behind a mutation that was paid.
abbrev past : List (EventRecord Value)
past =
    record logged { action_type = "mutate"; reserved_energy = pos 16; settled_energy = pos 16 }
    ∷ record logged {
      log_index = 1;
      action_type = "hold_timeout";
      reserved_energy = pos 0;
      settled_energy = pos 0;
    }
    ∷ []

run_startup_integrity_checks_iff_example :
    (run_startup_integrity_checks (account "alice" (pos 5) (pos 2) 1 ∷ []) past ≡ ok tt)
    ↔ (All IsAccount (account "alice" (pos 5) (pos 2) 1 ∷ []) × All IsRecorded past)
run_startup_integrity_checks_iff_example =
    run_startup_integrity_checks_iff (account "alice" (pos 5) (pos 2) 1 ∷ []) past

abbrev reserved : EnergyLedger
reserved = account "alice" (pos 100) (pos 26) 9 ∷ account "alice/bot/1" (pos 100) (pos 20) 1 ∷ []

reserves : reserve_in_tx "alice" (pos 26) 9 world.db.ledger ≡ ok reserved
unfolding reserve_in_tx wrap_i64 as_i64 ◌-ℤ◌ ◌+ℤ◌
reserves = refl

costs : as_i64 (quote_cost values (execution "alice" "a/x" null none)) ≡ pos 26
unfolding quote_cost action_cost append_cost as_i64
costs = refl

refuses : validate_execute_payload values null ≡ err (execute_payload_invalid "missing field")
unfolding validate_execute_payload require_valid_oid
refuses = refl

perform-keeps_reservation_example :
    perform externals 9 (execution "alice" "a/x" null none) world ≡ (
      err (execute_payload_invalid "missing field"),
      record world { db = record world.db { ledger = reserved } },
    )
perform-keeps_reservation_example =
    perform-keeps_reservation externals 9 "alice" "a/x" null none world reserved (pos 26)
      (execute_payload_invalid "missing field") costs refl refl reserves refuses

decimal_digits : decimal 1203 ≡ "1203"
unfolding decimal
decimal_digits = refl
