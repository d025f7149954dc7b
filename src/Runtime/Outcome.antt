-- ===== src/Runtime/Outcome.antt =====
-- What a submission that succeeds has done: `submit_action` of
-- crates/punkgo-kernel/src/runtime/kernel.rs, behind the decision that it is no answer to a hold.
pub mod Held
pub mod Leak
pub mod Lockout
pub mod Rules
use punkgo_kernel.Prelude.{
  ℕ, ◌≡◌, ◌∙◌, ap, refl, sym, Bool, true, false, Option, none, some, List, [], ◌∷◌, ◌++◌, String,
  if◌then◌else◌, unwrap_or, arith, Bool-cases, inl, inr,
}
use mathlib.Core.Path.{subst}
use punkgo_kernel.Prelude.Int.{ℤ, pos, ltb_ℤ, as_i64}
use punkgo_kernel.Core.Errors.{KernelResult, ok, err, ok-inj, Result-cases}
use punkgo_kernel.Core.Json.{get_i64}
use punkgo_kernel.Core.Action.{Action, as_str, quote_cost}
use punkgo_kernel.Core.Actor.{LifecycleOp, CreateActorSpec}
use punkgo_kernel.Core.Consent.{EnvelopeSpec}
use punkgo_kernel.State.Ledger.{EnergyReservation, reserve_in_tx}
use punkgo_kernel.State.EventLog.{EventRecord, Hashing, next_idx, assign_and_insert}
use punkgo_kernel.State.EventLog.Append.{assign_and_insert-ok, hashed_as}
use punkgo_kernel.Runtime.Charge.{charge_after_commit}
use punkgo_kernel.Runtime.Commit.{Db, finalize_energy_and_event}
use punkgo_kernel.Runtime.Commit.Keeps.{finalize-Steps}
use punkgo_kernel.Runtime.World.{
  Externals, World, KernelM, pure, check, read, commit, transact, draw, write_meta, continue, ◌>>=◌,
}
use punkgo_kernel.Runtime.Submit.{
  SubmitReceipt, receipt_of, name_envelope, reserving, phantom, reserve_cost, reserve_energy,
  event_of, record_policy, charging, logging_errors, apply_lifecycle, run_lifecycle, perform,
}
use punkgo_kernel.Runtime.Evolution.Rules.{bind-ok, Returns, Returns-pure, Returns-if, Returns-bind}
use punkgo_kernel.Runtime.Outcome.Rules.{
  IsQuiet, Ensures, IsQuiet-transact, IsQuiet-pure, IsQuiet-if, IsQuiet-bind, IsQuiet-read,
  IsQuiet-check, IsQuiet-draw, anything, Ensures-transact, Ensures-bind, Ensures-append,
}

-- The event of a submission is the last row of the log, says what the receipt says, and carries the
-- action and what it costs: the cost that the payload names, or else the quoted one.
pub record Performed {V : Type 0} (x : Externals V) (action : Action V)
    (events events' : List (EventRecord V)) (r : SubmitReceipt) : Type 0 where
  pub event : EventRecord V
  pub logged : events' ≡ events ++ event ∷ []
  pub receipt : r ≡ receipt_of event
  pub actor_id : event.actor_id ≡ action.actor_id
  pub action_type : event.action_type ≡ as_str action.action_type
  pub target : event.target ≡ action.target
  pub payload : event.payload ≡ action.payload
  pub cost :
      event.settled_energy
      ≡ unwrap_or
          (get_i64 x.json action.payload "_hold_reserved_cost")
          (as_i64 (quote_cost x.json action))
  pub reserved : event.reserved_energy ≡ event.settled_energy

module _ {V : Type 0} (x : Externals V) (now : ℕ) where
  name_envelope-IsQuiet :
      (granted : Option (EnvelopeSpec × Option String)) → IsQuiet (name_envelope x now granted)
  unfolding name_envelope ◌>>=◌
  name_envelope-IsQuiet none = record { at = λ w. refl }
  name_envelope-IsQuiet (some (spec, parent)) = record { at = λ w. refl }

  reserving-quiet :
      (k : String) (cost : ℤ) (db : Db V) (p : Unit {0} × Db V)
      → reserving x now k cost db ≡ ok p
      → p.1.events ≡ db.events
  reserving-quiet k cost db p h = elim (Result-cases (reserve_in_tx k cost now db.ledger)) [
    | inl (e, a) ↦ cc (rw (reserving, a) at h)
    | inr (ledger, a) ↦ rw (← ok-inj (rw (reserving, a) at h)) refl
  ]

  charging-quiet :
      (action : Action V) (cost : ℤ) (db : Db V) (p : Unit {0} × Db V)
      → charging x now action cost db ≡ ok p
      → p.1.events ≡ db.events
  charging-quiet action cost db p h =
      elim (Result-cases
        (charge_after_commit db.actors action.action_type action.actor_id cost now db.envelopes)) [
          | inl (e, a) ↦ cc (rw (charging, a) at h)
          | inr (envelopes, a) ↦ rw (← ok-inj (rw (charging, a) at h)) refl
        ]

  logging-quiet :
      (target : String) (op : LifecycleOp) (db : Db V) (p : Unit {0} × Db V)
      → logging_errors x now (apply_lifecycle x now target op db.actors) db ≡ ok p
      → p.1.events ≡ db.events
  logging-quiet target op db p h = elim (Result-cases (apply_lifecycle x now target op db.actors)) [
    | inl (e, a) ↦ rw (← ok-inj (rw (logging_errors, a) at h)) refl
    | inr (actors, a) ↦ rw (← ok-inj (rw (logging_errors, a) at h)) refl
  ]

  run_lifecycle-IsQuiet : (op : Option (String × LifecycleOp)) → IsQuiet (run_lifecycle x now op)
  unfolding run_lifecycle pure
  run_lifecycle-IsQuiet none = record { at = λ w. refl }
  run_lifecycle-IsQuiet (some (target, op)) = IsQuiet-transact _ (logging-quiet target op)

  record_policy-IsQuiet : (version : Option String) → IsQuiet (record_policy x now version)
  unfolding record_policy pure write_meta
  record_policy-IsQuiet none = record { at = λ w. refl }
  record_policy-IsQuiet (some v) = record { at = λ w. refl }

  reserve_cost-IsQuiet :
      (action : Action V) (held : Option ℤ) → IsQuiet (reserve_cost x now action held)
  unfolding reserve_cost
  reserve_cost-IsQuiet action (some c) = IsQuiet-pure _
  reserve_cost-IsQuiet action none =
      IsQuiet-if _ _ _
        (IsQuiet-bind _ _ (IsQuiet-transact _ (reserving-quiet action.actor_id _))
          (λ u. IsQuiet-pure _))
        (IsQuiet-pure _)

  -- The value of a reservation.
  reserve_cost-Returns :
      (action : Action V) (held : Option ℤ)
      → Returns
          (λ a. a.0 ≡ unwrap_or held (as_i64 (quote_cost x.json action)))
          (reserve_cost x now action held)
  unfolding reserve_cost
  reserve_cost-Returns action (some c) = Returns-pure _ _ refl
  reserve_cost-Returns action none =
      Returns-if _ _ _ _ (Returns-bind _ _ _ (λ u. Returns-pure _ _ refl)) (Returns-pure _ _ refl)

  -- The event that a commit appends.
  finalize-appends :
      (reservation : Option EnergyReservation) (cost : ℤ) (create_actor : Option CreateActorSpec)
      (create_envelope : Option (String × EnvelopeSpec × Option String)) (event : EventRecord V)
      (db : Db V) (e : EventRecord V) (db' : Db V)
      → finalize_energy_and_event x.hashing x.tlog reservation cost create_actor create_envelope
          event now db
        ≡ ok (e, db')
      → (n : ℕ) × (h : List ℕ) × (e ≡ hashed_as event n h) × (db'.events ≡ db.events ++ e ∷ [])
  finalize-appends reservation cost create_actor create_envelope event db e db' run =
      let s =
        finalize-Steps x.hashing x.tlog reservation cost create_actor create_envelope event now db e
          db' run in
      let (h, hashed, same, appended) =
        assign_and_insert-ok x.hashing event db.events e db'.events s.appending in
      (next_idx db.events, h, same, rw same appended)

  -- What the transaction and the steps behind it make of a receipt.
  Performing-Performed :
      (action : Action V) (id : String) (payload_hash : List ℕ) (artifact_hash : Option String)
      (cost : ℤ) (es es' : List (EventRecord V)) (e : EventRecord V)
      → cost
        ≡ unwrap_or
            (get_i64 x.json action.payload "_hold_reserved_cost")
            (as_i64 (quote_cost x.json action))
      → (n : ℕ) × (h : List ℕ) × (e
          ≡ hashed_as (event_of x now action id payload_hash artifact_hash cost) n h)
        × (es' ≡ es ++ e ∷ [])
      → Performed x action es es' (receipt_of e)
  Performing-Performed action id payload_hash artifact_hash cost es es' e paid (n, h, same, grown) =
      rw same record {
        event = hashed_as (event_of x now action id payload_hash artifact_hash cost) n h;
        logged = rw same at grown;
        receipt = refl;
        actor_id = refl;
        action_type = refl;
        target = refl;
        payload = refl;
        cost = paid;
        reserved = refl;
      }

  perform-Ensures : (action : Action V) → Ensures (Performed x action) (perform x now action)
  unfolding perform reserve_energy
  perform-Ensures action = Ensures-bind _ _ _ _ (IsQuiet-read _) (anything _) λ actors t1.
      Ensures-bind _ _ _ _ (IsQuiet-check _) (anything _) λ u t2.
        Ensures-bind _ _ _ _ (IsQuiet-check _) (anything _) λ create_actor t3.
          Ensures-bind _ _ _ _ (IsQuiet-read _) (anything _) λ envelopes t4.
            Ensures-bind _ _ _ _ (IsQuiet-check _) (anything _) λ granted t5.
              Ensures-bind _ _ _ _ (name_envelope-IsQuiet granted) (anything _)
                λ create_envelope t6.
                  Ensures-bind _ _ _ _ (reserve_cost-IsQuiet action _)
                    (reserve_cost-Returns action _)
                    λ reserved paid.
                      Ensures-bind _ _ _ _ (IsQuiet-check _) (anything _) λ artifact_hash t7.
                        Ensures-bind _ _ _ _ (IsQuiet-draw _) (anything _) λ id t8.
                          Ensures-bind _ _ _ _ (IsQuiet-check _) (anything _) λ payload_hash t9.
                            Ensures-append _ _ _ _
                              (Ensures-transact _ _ (λ db e db' run.
                                finalize-appends reserved.1 reserved.0 create_actor create_envelope
                                  (event_of x now action id payload_hash artifact_hash reserved.0)
                                  db e db' run))
                              (λ e. IsQuiet-bind _ _ (record_policy-IsQuiet _) λ u1.
                                IsQuiet-bind _ _
                                  (IsQuiet-transact _ (charging-quiet action reserved.0))
                                  λ u2.
                                    IsQuiet-bind _ _ (run_lifecycle-IsQuiet _) λ u3. IsQuiet-pure _)
                              (λ e es es' grown. Returns-bind _ _ _ λ u1. Returns-bind _ _ _ λ u2.
                                Returns-bind _ _ _ λ u3. Returns-pure _ _ (
                                  Performing-Performed action id payload_hash artifact_hash
                                    reserved.0 es es' e paid grown))

  -- The event of a performed action is the last row of the log: it carries the action, the receipt
  -- says what it says, and its cost is the one that the payload names, or else the quoted one.
  pub perform-Performed :
      (action : Action V) (w : World V) (r : SubmitReceipt)
      → (perform x now action w).0 ≡ ok r
      → Performed x action w.db.events (perform x now action w).1.db.events r
  perform-Performed action w r h = (perform-Ensures action).at w r h
