-- ===== src/Runtime/Evolution/Submission.antt =====
-- Every submission changes the tables only as they may change: `submit_action` and
-- `execute_hold_response` of crates/punkgo-kernel/src/runtime/kernel.rs, on every branch.
use punkgo_kernel.Prelude.{
  ℕ, zero, suc, ◌≡◌, refl, Bool, not, ◌||◌, Option, none, some, List, [], ◌∷◌, String, ◌==◌,
  unwrap_or, arith, Bool-cases, Option-cases, inl, inr,
}
use punkgo_kernel.Prelude.Int.{ℤ, pos, ◌<ℤ◌, as_i64, i64_mod}
use punkgo_kernel.Core.Errors.{ok, ok-inj, Yields, Yields-ok, Yields-bind, chain-ok, Result-cases}
use punkgo_kernel.Core.Json.{get_i64}
use punkgo_kernel.Core.Action.{Action, quote_cost}
use punkgo_kernel.Core.Actor.{CreateActorSpec, LifecycleOp}
use punkgo_kernel.Core.Consent.{EnvelopeRecord, EnvelopeSpec}
use punkgo_kernel.State.Ledger.{reserve_in_tx}
use punkgo_kernel.State.Ledger.Preserve.{reserve_in_tx-IsSound}
use punkgo_kernel.State.ActorStore.{ActorTable}
use punkgo_kernel.State.EnvelopeStore.{HoldRequest}
use punkgo_kernel.Runtime.Commit.{Db}
use punkgo_kernel.Runtime.Payload.{is_create}
use punkgo_kernel.Runtime.Charge.{charge_after_commit}
use punkgo_kernel.Runtime.World.{Externals, KernelM}
use punkgo_kernel.Runtime.Holds.{is_timed_out, commitment_cost_of}
use punkgo_kernel.Runtime.Holds.Requests.{
  trigger_hold, expire_hold, expire_each, expire_timed_out_holds, expire_after, expire_if_due,
  check_holds,
}
use punkgo_kernel.Runtime.Creation.{read_actor_spec, parse_create_actor_spec}
use punkgo_kernel.Runtime.Submit.{
  SubmitReceipt, admit_action, name_envelope, reserving, reserve_cost, reserve_energy,
  record_policy, charging, logging_errors, apply_lifecycle, run_lifecycle, perform, refuse_overdue,
  write_decision, execute_hold_response, hold_response_of, respond, submit_action,
}
use punkgo_kernel.Runtime.Evolution.{Evolves, Evolves-refl}
use punkgo_kernel.Runtime.Evolution.Tables.{
  charge_after_commit-Kept, admit-Kept, apply_lifecycle-Kept,
}
use punkgo_kernel.Runtime.Evolution.Transactions.{
  FitsSpec, trigger_tx-Evolves, resolve_tx-Evolves, finalize-Evolves,
}
use punkgo_kernel.Runtime.Evolution.Rules.{
  Moves, Returns, Moves-pure, Moves-fail, Moves-check, Moves-read, Moves-draw, Moves-transact,
  Moves-if, Moves-bind, Moves-bind_check, Moves-bind-Returns, Returns-pure, Returns-if,
  Returns-bind, moves_rules,
}

-- What is documented of numbers: `as_i64` gives an `i64`, and a cast of a float saturates.
pub record GivesI64 {V : Type 0} (x : Externals V) : Type 0 where
  pub as_i64_lt : (v : V) (z : ℤ) → x.json.as_i64 v ≡ some z → z <ℤ pos i64_mod
  pub ceil_fifth_lt : (z : ℤ) → x.ceil_fifth z <ℤ pos i64_mod

module _ {V : Type 0} (x : Externals V) (law : GivesI64 x) (now : ℕ) where
  trigger_hold-Moves :
      (action : Action V) (env : EnvelopeRecord) → Moves (trigger_hold x now action env)
  unfolding trigger_hold
  trigger_hold-Moves action env =
      search (moves_rules, Moves-transact, trigger_tx-Evolves x now) depth 12

  commitment_lt : (b : Bool) (rc : ℤ) → commitment_cost_of x now b rc <ℤ pos i64_mod
  commitment_lt b rc = ground (arith, law.ceil_fifth_lt rc)

  expire_hold-Moves : (hold : HoldRequest V) → Moves (expire_hold x now hold)
  unfolding expire_hold
  expire_hold-Moves hold =
      search (moves_rules, Moves-transact, resolve_tx-Evolves x now, commitment_lt)

  expire_each-Moves :
      (timeout : ℤ) (holds : List (HoldRequest V)) → Moves (expire_each x now timeout holds)
  unfolding expire_each
  expire_each-Moves timeout [] = Moves-pure tt
  expire_each-Moves timeout (h ∷ hs) =
      Moves-bind _ _
        (Moves-if (is_timed_out timeout h.triggered_at now) _ _
          (Moves-bind _ _ (expire_hold-Moves h) (λ e. Moves-pure tt)) (Moves-pure tt))
        (λ u. expire_each-Moves timeout hs)

  expire-Moves : (id : String) (timeout : ℤ) → Moves (expire_timed_out_holds x now id timeout)
  unfolding expire_timed_out_holds
  expire-Moves id timeout = search (moves_rules, expire_each-Moves)

  expire_after-Moves : (id : String) (timeout : Option ℤ) → Moves (expire_after x now id timeout)
  unfolding expire_after
  expire_after-Moves id none = Moves-pure tt
  expire_after-Moves id (some t) = Moves-if _ _ _ (expire-Moves id t) (Moves-pure tt)

  expire_if_due-Moves : (env : EnvelopeRecord) → Moves (expire_if_due x now env)
  unfolding expire_if_due
  expire_if_due-Moves env =
      Moves-if _ _ _ (Moves-pure tt) (expire_after-Moves env.envelope_id env.hold_timeout_secs)

  check_holds-Moves :
      (action : Action V) (env : Option EnvelopeRecord) → Moves (check_holds x now action env)
  unfolding check_holds
  check_holds-Moves action none = Moves-pure tt
  check_holds-Moves action (some env) =
      Moves-bind _ _ (expire_if_due-Moves env)
        (λ u. Moves-if _ _ _ (trigger_hold-Moves action env) (Moves-pure tt))

  admit_action-Moves : (action : Action V) → Moves (admit_action x now action)
  unfolding admit_action
  admit_action-Moves action = record {
    at = λ w.
        let same = Evolves-refl w.db in
        record {
          logged = same.logged;
          indexed = same.indexed;
          sound = same.sound;
          decided = same.decided;
          actors = same.actors;
          envelopes = admit-Kept x.json x.glob w.db.actors action now w.db.envelopes;
        };
  }

  name_envelope-Moves :
      (granted : Option (EnvelopeSpec × Option String)) → Moves (name_envelope x now granted)
  unfolding name_envelope
  name_envelope-Moves none = Moves-pure none
  name_envelope-Moves (some (spec, parent)) = search moves_rules

  reserving-Evolves :
      (k : String) (cost : ℤ) (db : Db V) (r : Unit {0} × Db V)
      → reserving x now k cost db ≡ ok r
      → Evolves db r.1
  reserving-Evolves k cost db r h = elim (Result-cases (reserve_in_tx k cost now db.ledger)) [
    | inl (e, a) ↦ cc (rw (reserving, a) at h)
    | inr (ledger, a) ↦
        (let same = Evolves-refl db in
          rw (← ok-inj (rw (reserving, a) at h)) record {
            logged = same.logged;
            indexed = same.indexed;
            sound = λ sound. reserve_in_tx-IsSound db.ledger sound k now cost ledger a;
            decided = same.decided;
            actors = same.actors;
            envelopes = same.envelopes;
          })
  ]

  charging-Evolves :
      (action : Action V) (cost : ℤ) (db : Db V) (r : Unit {0} × Db V)
      → charging x now action cost db ≡ ok r
      → Evolves db r.1
  charging-Evolves action cost db r h =
      elim (Result-cases
        (charge_after_commit db.actors action.action_type action.actor_id cost now db.envelopes)) [
          | inl (e, a) ↦ cc (rw (charging, a) at h)
          | inr (envelopes, a) ↦
              (let same = Evolves-refl db in
                rw (← ok-inj (rw (charging, a) at h)) record {
                  logged = same.logged;
                  indexed = same.indexed;
                  sound = same.sound;
                  decided = same.decided;
                  actors = same.actors;
                  envelopes =
                      charge_after_commit-Kept db.actors action.action_type action.actor_id cost now
                        db.envelopes envelopes a;
                })
        ]

  logging-Evolves :
      (target : String) (op : LifecycleOp) (db : Db V) (r : Unit {0} × Db V)
      → logging_errors x now (apply_lifecycle x now target op db.actors) db ≡ ok r
      → Evolves db r.1
  logging-Evolves target op db r h =
      let same = Evolves-refl db in
      elim (Result-cases (apply_lifecycle x now target op db.actors)) [
        | inl (e, a) ↦ rw (← ok-inj (rw (logging_errors, a) at h)) same
        | inr (actors, a) ↦ rw (← ok-inj (rw (logging_errors, a) at h)) record {
          logged = same.logged;
          indexed = same.indexed;
          sound = same.sound;
          decided = same.decided;
          actors = apply_lifecycle-Kept x now target op db.actors actors a;
          envelopes = same.envelopes;
        }
      ]

  run_lifecycle-Moves : (op : Option (String × LifecycleOp)) → Moves (run_lifecycle x now op)
  unfolding run_lifecycle
  run_lifecycle-Moves none = Moves-pure tt
  run_lifecycle-Moves (some (target, op)) = Moves-transact _ (logging-Evolves target op)

  record_policy-Moves : (version : Option String) → Moves (record_policy x now version)
  unfolding record_policy
  record_policy-Moves none = Moves-pure tt
  record_policy-Moves (some v) = search moves_rules

  reserve_cost-Moves :
      (action : Action V) (held : Option ℤ) → Moves (reserve_cost x now action held)
  unfolding reserve_cost
  reserve_cost-Moves action (some c) = Moves-pure _
  reserve_cost-Moves action none =
      Moves-if _ _ _
        (Moves-bind _ _ (Moves-transact _ (reserving-Evolves action.actor_id _))
          (λ u. Moves-pure _))
        (Moves-pure _)

  as_i64_lt : (n : ℕ) → as_i64 n <ℤ pos i64_mod
  unfolding as_i64
  as_i64_lt n = ground arith

  unwrap_or_lt :
      (o : Option ℤ) (d : ℤ)
      → ((z : ℤ) → o ≡ some z → z <ℤ pos i64_mod)
      → d <ℤ pos i64_mod
      → unwrap_or o d <ℤ pos i64_mod
  unwrap_or_lt none d p q = q
  unwrap_or_lt (some z) d p q = p z refl

  get_lt : (v : V) (key : String) (z : ℤ) → get_i64 x.json v key ≡ some z → z <ℤ pos i64_mod
  get_lt v key z h = elim (Option-cases (x.json.get v key)) [
    | inl e ↦ ground (arith, h, e)
    | inr (v', e) ↦ ground (arith, h, e, law.as_i64_lt v' z)
  ]

  get_i64_lt :
      (v : V) (key : String) (d : ℤ)
      → d <ℤ pos i64_mod
      → unwrap_or (get_i64 x.json v key) d <ℤ pos i64_mod
  get_i64_lt v key d = unwrap_or_lt (get_i64 x.json v key) d (get_lt v key)

  reserve_cost-Returns :
      (action : Action V) (held : Option ℤ)
      → ((z : ℤ) → held ≡ some z → z <ℤ pos i64_mod)
      → Returns (λ a. a.0 <ℤ pos i64_mod) (reserve_cost x now action held)
  unfolding reserve_cost
  reserve_cost-Returns action (some c) small = Returns-pure _ _ (small c refl)
  reserve_cost-Returns action none small =
      let small = as_i64_lt (quote_cost x.json action) in
      Returns-if _ _ _ _ (Returns-bind _ _ _ (λ u. Returns-pure _ _ small)) (Returns-pure _ _ small)

  read_actor_spec-fits :
      (action : Action V) (actors : ActorTable)
      → Yields (λ spec. spec.energy_balance <ℤ pos i64_mod) (read_actor_spec x action actors)
  unfolding read_actor_spec
  read_actor_spec-fits action actors =
      let small = get_i64_lt action.payload "energy_balance" (pos 1000) (omega arith) in
      search (Yields-bind, Yields-ok) depth 16

  parse_create_actor_spec-fits :
      (action : Action V) (actors : ActorTable) (create : Option CreateActorSpec)
      → parse_create_actor_spec x action actors ≡ ok create
      → FitsSpec create
  unfolding parse_create_actor_spec
  parse_create_actor_spec-fits action actors create h =
      elim (Bool-cases
        (not (is_create action.action_type) || not (action.target == "ledger/actor"))) [
          | inl c ↦ rw (← ok-inj (rw c at h)) tt
          | inr c ↦
              (let (spec, a, h1) = chain-ok (read_actor_spec x action actors) _ (rw c at h) in
                rw (← ok-inj h1) ((read_actor_spec-fits action actors).value spec a))
        ]

  refuse_overdue-Moves :
      (hold : HoldRequest V) (due : Option ℤ) → Moves (refuse_overdue x now hold due)
  unfolding refuse_overdue
  refuse_overdue-Moves hold none = Moves-pure tt
  refuse_overdue-Moves hold (some t) =
      Moves-bind _ _ (expire-Moves hold.envelope_id t) (λ u. Moves-fail _)

  write_decision-Moves :
      (action : Action V) (hold : HoldRequest V) (decision : String) (instruction : Option String)
      → Moves (write_decision x now action hold decision instruction)
  unfolding write_decision
  write_decision-Moves action hold decision instruction =
      search (moves_rules, Moves-transact, resolve_tx-Evolves x now, commitment_lt)

  perform-Moves : (action : Action V) → Moves (perform x now action)
  unfolding perform reserve_energy
  perform-Moves action = Moves-bind _ _ (Moves-read _) λ actors. Moves-bind _ _ (Moves-check _) λ u.
      Moves-bind_check (parse_create_actor_spec x action actors) _ λ create_actor fits.
        Moves-bind _ _ (Moves-read _) λ envelopes. Moves-bind _ _ (Moves-check _) λ granted.
          Moves-bind _ _ (name_envelope-Moves granted) λ create_envelope.
            Moves-bind-Returns (λ a. a.0 <ℤ pos i64_mod) (reserve_energy x now action) _
              (reserve_cost-Moves action _)
              (reserve_cost-Returns action _ (get_lt action.payload "_hold_reserved_cost"))
              λ reserved small. Moves-bind _ _ (Moves-check _) λ artifact_hash.
                Moves-bind _ _ (Moves-draw _) λ id. Moves-bind _ _ (Moves-check _) λ payload_hash.
                  Moves-bind _ _
                    (Moves-transact _ (λ db r h.
                      finalize-Evolves x now reserved.1 reserved.0 create_actor create_envelope _ db
                        r small (parse_create_actor_spec-fits action actors create_actor fits) h))
                    λ event. Moves-bind _ _ (record_policy-Moves _) λ u'.
                      Moves-bind _ _ (Moves-transact _ (charging-Evolves action reserved.0))
                        λ u''. Moves-bind _ _ (run_lifecycle-Moves _) λ u'''. Moves-pure _

  execute_hold_response-Moves :
      (resubmit : Action V → KernelM V SubmitReceipt) (action : Action V)
      (hold_id decision : String) (instruction : Option String)
      → ((a : Action V) → Moves (resubmit a))
      → Moves (execute_hold_response x now resubmit action hold_id decision instruction)
  unfolding execute_hold_response
  execute_hold_response-Moves resubmit action hold_id decision instruction again =
      Moves-bind _ _ (Moves-read _) λ actors. Moves-bind _ _ (Moves-read _) λ holds.
        Moves-bind _ _ (Moves-check _) λ hold. Moves-bind _ _ (Moves-read _) λ envelope.
          Moves-bind _ _ (refuse_overdue-Moves hold _) λ u.
            Moves-bind _ _ (write_decision-Moves action hold decision instruction)
              λ event. Moves-if _ _ _ (again _) (Moves-pure _)

  respond-Moves :
      (resubmit : Action V → KernelM V SubmitReceipt) (action : Action V)
      (response : Option (String × String × Option String))
      → ((a : Action V) → Moves (resubmit a))
      → Moves (respond x now resubmit action response)
  unfolding respond
  respond-Moves resubmit action none again = perform-Moves action
  respond-Moves resubmit action (some (hold_id, decision, instruction)) again =
      execute_hold_response-Moves resubmit action hold_id decision instruction again

  pub submit_action-Moves :
      (exhausted : KernelM V SubmitReceipt)
      → Moves exhausted
      → (fuel : ℕ) (action : Action V) → Moves (submit_action x now exhausted fuel action)
  unfolding submit_action
  submit_action-Moves exhausted stopped zero action = stopped
  submit_action-Moves exhausted stopped (suc fuel) action =
      Moves-bind _ _ (admit_action-Moves action) λ u. Moves-bind _ _ (Moves-read _) λ envelope.
        Moves-bind _ _ (check_holds-Moves action envelope) λ u'.
          respond-Moves (submit_action x now exhausted fuel) action (hold_response_of x now action)
            (submit_action-Moves exhausted stopped fuel)
