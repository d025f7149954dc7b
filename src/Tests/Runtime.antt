-- ===== src/Tests/Runtime.antt =====
-- crates/punkgo-kernel/src/runtime: the theorems at concrete inputs.
use Prim.Native.String.{◌++◌}
use punkgo_kernel.Prelude.{
  ◌≡◌, ◌↔◌, ◌⊎◌, refl, true, false, none, some, List, [], ◌∷◌, String, All, any, ◌==◌, is_some,
  arith, inr,
}
use punkgo_kernel.Prelude.Texts.{is_empty, contains_char}
use punkgo_kernel.Prelude.Int.{pos, ◌+ℤ◌, ◌<ℤ◌, i64_mod}
use punkgo_kernel.Core.Errors.{ok}
use punkgo_kernel.Core.Json.{get_str, get_i64}
use punkgo_kernel.Core.Action.{Action, mutate}
use punkgo_kernel.Core.Policy.{is_blank}
use punkgo_kernel.Core.Actor.{human, agent, ActorRecord, LifecycleOp, freeze}
use punkgo_kernel.Core.Actor
use punkgo_kernel.Core.Consent.{expired}
use punkgo_kernel.State.ActorStore
use punkgo_kernel.State.ActorStore.{ActorTable, Like, is_active}
use punkgo_kernel.State.EnvelopeStore
use punkgo_kernel.State.EnvelopeStore.{EnvelopeTable, set_consumed, set_envelope_status}
use punkgo_kernel.State.EnvelopeStore.Budget.{IsFundedTable}
use punkgo_kernel.Runtime.Lifecycle.{
  parse_lifecycle_op, validate_lifecycle_authorization, check_lineage_active, execute_freeze,
}
use punkgo_kernel.Runtime.Lifecycle.Freeze.{FindsMembers, execute_freeze-cascades}
use punkgo_kernel.Runtime.Lifecycle.Parse.{
  validate_lifecycle_authorization_iff, check_lineage_active_iff, parse_lifecycle_op_iff,
  IsStanding, Names,
}
use punkgo_kernel.Runtime.Payload.{validate_execute_payload, parse_hold_response}
use punkgo_kernel.Runtime.Payload.Accepts.{
  IsOid, validate_execute_payload_iff, parse_hold_response_iff,
}
use punkgo_kernel.Runtime.Charge.{charge_envelope}
use punkgo_kernel.Runtime.Charge.Budget.{charge_envelope_lem}
use punkgo_kernel.Runtime.Admission.{admit}
use punkgo_kernel.Runtime.Admission.Sound.{MayAct, admit_iff}
use punkgo_kernel.Tests.Fixtures.{
  Value, null, empty, text, number, field, values, values-HasSizes, matcher, alice, bot, budgeted,
}

abbrev table : ActorTable
table = alice ∷ bot ∷ []

abbrev edit : Action Value
edit = record {
  actor_id = "alice/bot/1";
  action_type = mutate;
  target = "a/x";
  payload = null;
  timestamp = none;
}

admit_iff_example : ((admit values matcher table edit 20 (budgeted ∷ [])).1 ≡ ok tt) ↔ (
    ((is_blank "alice/bot/1" ≡ false) × (is_blank "a/x" ≡ false))
    × ((actor : ActorRecord) × (ActorStore.get "alice/bot/1" table ≡ some actor)
        × MayAct values matcher table (budgeted ∷ []) 20 edit actor))
admit_iff_example = admit_iff values matcher table edit 20 (budgeted ∷ []) values-HasSizes

validate_lifecycle_authorization_iff_example :
    (validate_lifecycle_authorization alice bot (freeze none) ≡ ok tt) ↔ (
      (alice.actor_type ≡ human)
      × (bot.actor_type ≡ agent)
      × (any (λ a. a == "alice") ("alice" ∷ []) ≡ true))
validate_lifecycle_authorization_iff_example =
    validate_lifecycle_authorization_iff alice bot (freeze none)

check_lineage_active_iff_example :
    (check_lineage_active table ("alice" ∷ []) ≡ ok tt) ↔ All (IsStanding table) ("alice" ∷ [])
check_lineage_active_iff_example = check_lineage_active_iff table ("alice" ∷ [])

abbrev freeze_request : Value
freeze_request = field "op" (text "freeze") empty

parse_lifecycle_op_iff_example :
    (parse_lifecycle_op values "actor/alice/bot/1" freeze_request
      ≡ some ("alice/bot/1", freeze none))
    ↔ (("actor/alice/bot/1" ≡ "actor/" ++ "alice/bot/1")
        × (is_empty "alice/bot/1" ≡ false)
        × ((word : String) × (get_str values freeze_request "op" ≡ some word)
            × Names values freeze_request word (freeze none)))
parse_lifecycle_op_iff_example =
    parse_lifecycle_op_iff values "actor/alice/bot/1" freeze_request "alice/bot/1" (freeze none)

-- A LIKE that finds exactly the members.
abbrev like : Like
like = record {
  id_like = λ creator purpose id. false;
  lineage_like = λ id lineage. any (λ a. a == id) lineage;
}

like-FindsMembers : FindsMembers like "alice"
like-FindsMembers lineage h = h

alice-found : ActorStore.get "alice" table ≡ some alice
unfolding ActorStore.get
alice-found = refl

bot-found : ActorStore.get "alice/bot/1" table ≡ some bot
unfolding ActorStore.get
bot-found = refl

execute_freeze-cascades_example :
    (ids : List String) × (actors' : ActorTable) × (r' : ActorRecord) × (execute_freeze like "alice"
        9 table
      ≡ ok (ids, actors'))
    × (ActorStore.get "alice/bot/1" actors' ≡ some r')
    × (r'.status ≡ Actor.frozen)
    × (r'.lineage ≡ bot.lineage)
execute_freeze-cascades_example =
    execute_freeze-cascades like "alice" 9 table alice "alice/bot/1" bot like-FindsMembers
      alice-found bot-found (inr refl)

abbrev oid : String
oid = "sha256:0123456789abcdef0123456789abcdef0123456789abcdef0123456789abcdef"

abbrev result : Value
result = field "input_oid" (text oid) (
    field "output_oid" (text oid)
      (field "exit_code" (number (pos 0)) (field "artifact_hash" (text oid) empty)))

validate_execute_payload_iff_example : (validate_execute_payload values result ≡ ok oid) ↔ (
    ((input_oid : String) × (get_str values result "input_oid" ≡ some input_oid) × IsOid input_oid)
    × ((output_oid : String) × (get_str values result "output_oid" ≡ some output_oid)
        × IsOid output_oid)
    × (is_some (get_i64 values result "exit_code") ≡ true)
    × (get_str values result "artifact_hash" ≡ some oid)
    × IsOid oid)
validate_execute_payload_iff_example = validate_execute_payload_iff values result oid

abbrev yes : String
yes = "approve"

abbrev hold_target : String
hold_target = "ledger/hold/h1"

abbrev approval : Value
approval = field "decision" (text "approve") empty

parse_hold_response_iff_example :
    (parse_hold_response values hold_target approval ≡ some ("h1", yes, none)) ↔ (
      (hold_target ≡ "ledger/hold/" ++ "h1")
      × (is_empty "h1" ≡ false)
      × (contains_char b'/' "h1" ≡ false)
      × (get_str values approval "decision" ≡ some yes)
      × ((yes ≡ "approve") ⊎ (yes ≡ "reject"))
      × (none ≡ get_str values approval "instruction"))
parse_hold_response_iff_example = parse_hold_response_iff values hold_target approval "h1" yes none

budgeted-stored : EnvelopeStore.get "e1" (budgeted ∷ []) ≡ some budgeted
unfolding EnvelopeStore.get
budgeted-stored = refl

budgeted-IsFundedTable : IsFundedTable (budgeted ∷ [])
budgeted-IsFundedTable =
    (record { nonneg = omega arith; within = omega arith; small = omega arith }, tt)

seventy-small : pos 40 +ℤ pos 70 <ℤ pos i64_mod
unfolding ◌+ℤ◌
seventy-small = omega arith

-- An action that costs more than what is left of the budget.
charge_envelope_lem_example :
    ((pos 40 +ℤ pos 70 <ℤ pos 100)
      × ((envelopes' : EnvelopeTable) × (charge_envelope budgeted (pos 70) 9 (budgeted ∷ [])
            ≡ ok envelopes')
          × (EnvelopeStore.get "e1" envelopes'
              ≡ some (set_consumed (pos 40 +ℤ pos 70) 9 budgeted))))
    ⊎ (((pos 40 +ℤ pos 70 ≡ pos 100)
          × ((envelopes' : EnvelopeTable) × (charge_envelope budgeted (pos 70) 9 (budgeted ∷ [])
                ≡ ok envelopes')
              × (EnvelopeStore.get "e1" envelopes'
                  ≡ some (
                      set_envelope_status expired 9 (set_consumed (pos 40 +ℤ pos 70) 9 budgeted)))))
        ⊎ ((pos 100 <ℤ pos 40 +ℤ pos 70)
            × (charge_envelope budgeted (pos 70) 9 (budgeted ∷ []) ≡ ok (budgeted ∷ []))))
charge_envelope_lem_example =
    charge_envelope_lem (budgeted ∷ []) budgeted-IsFundedTable budgeted (pos 70) 9 budgeted-stored
      (omega arith) seventy-small
