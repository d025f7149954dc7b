-- ===== src/Runtime/Depth/Enough.antt =====
-- The depth of `submit_action` of crates/punkgo-kernel/src/runtime/kernel.rs: each decision leaves
-- one hold less, so that the number of waiting holds bounds it.
use punkgo_kernel.Prelude.{
  ℕ, zero, suc, ◌+◌, ◌<◌, ◌≡◌, refl, Bool, Option, none, some, List, [], ◌∷◌, String, arith, ◌==◌,
  Bool-cases, inl, inr,
}
use punkgo_kernel.Prelude.Int.{ℤ}
use punkgo_kernel.Core.Errors.{ok, ok-inj, chain-ok}
use punkgo_kernel.Core.Action.{Action}
use punkgo_kernel.Core.Consent.{EnvelopeRecord}
use punkgo_kernel.State.EventLog.{EventRecord, assign_and_insert}
use punkgo_kernel.State.EnvelopeStore.{HoldRequest, resolve_hold_request_in_tx}
use punkgo_kernel.State.AuditLog.{append_leaf_in_tx}
use punkgo_kernel.Runtime.Commit.{Db}
use punkgo_kernel.Runtime.World.{Externals, World, KernelM, transact}
use punkgo_kernel.Runtime.Holds.{is_timed_out, settle_when, resolve_tx}
use punkgo_kernel.Runtime.Holds.Requests.{
  trigger_hold, expire_hold, expire_each, expire_timed_out_holds, expire_after, expire_if_due,
  check_holds,
}
use punkgo_kernel.Runtime.Submit.{
  SubmitReceipt, admit_action, refuse_overdue, write_decision, pending_action,
  execute_hold_response, respond, hold_response_of, submit_action,
}
use punkgo_kernel.Runtime.Evolution.Rules.{Returns, Returns-bind, Returns-fail}
use punkgo_kernel.Runtime.Depth.{
  waiting, resolve-waiting, Lowers, Lowers-pure, Lowers-check, Lowers-read, Lowers-fail,
  Lowers-transact, Lowers-if, Lowers-draw, Lowers-bind, bind-agrees,
}

module _ {V : Type 0} (x : Externals V) (now : ℕ) where
  resolve_tx-waiting :
      (hold_id decision : String) (instruction : Option String) (settles : Bool) (agent_id : String)
      (reserved_cost cost : ℤ) (event : EventRecord V) (db : Db V) (r : EventRecord V × Db V)
      → resolve_tx x now hold_id decision instruction settles agent_id reserved_cost cost event db
        ≡ ok r
      → waiting r.1.holds + 1 ≡ waiting db.holds
  unfolding resolve_tx
  resolve_tx-waiting hold_id decision instruction settles agent_id reserved_cost cost event db r h =
      let (holds, a, h1) =
        chain-ok (resolve_hold_request_in_tx hold_id decision instruction now db.holds) _ h in
      let (ledger, b, h2) =
        chain-ok (settle_when settles agent_id reserved_cost cost now db.ledger) _ h1 in
      let (appended, c, h3) = chain-ok (assign_and_insert x.hashing event db.events) _ h2 in
      let (hashes, d, h4) =
        chain-ok
          (append_leaf_in_tx x.tlog appended.0.log_index appended.0.event_hash db.audit_hashes) _
          h3 in
      rw (← ok-inj h4) (resolve-waiting hold_id decision instruction now db.holds holds a)

  resolving-Lowers :
      (n : ℕ) (hold_id decision : String) (instruction : Option String) (settles : Bool)
      (agent_id : String) (reserved_cost cost : ℤ) (event : EventRecord V)
      → n < 2
      → Lowers n (
          transact (
            resolve_tx x now hold_id decision instruction settles agent_id reserved_cost cost
              event))
  resolving-Lowers n hold_id decision instruction settles agent_id rc cost event small =
      Lowers-transact n _ (λ db r h. omega (
        arith,
        small,
        resolve_tx-waiting hold_id decision instruction settles agent_id rc cost event db r h,
      ))

  write_decision-Lowers :
      (action : Action V) (hold : HoldRequest V) (decision : String) (instruction : Option String)
      → Lowers 1 (write_decision x now action hold decision instruction)
  unfolding write_decision
  write_decision-Lowers action hold decision instruction = Lowers-bind 1 _ _ (Lowers-draw _) λ id.
      Lowers-bind 1 _ _ (Lowers-check _)
        λ payload_hash. resolving-Lowers 1 _ _ _ _ _ _ _ _ (omega arith)

  expire_hold-Lowers : (hold : HoldRequest V) → Lowers 0 (expire_hold x now hold)
  unfolding expire_hold
  expire_hold-Lowers hold = Lowers-bind 0 _ _ (Lowers-draw _) λ id.
      Lowers-bind 0 _ _ (Lowers-check _)
        λ payload_hash. resolving-Lowers 0 _ _ _ _ _ _ _ _ (omega arith)

  expire_each-Lowers :
      (timeout : ℤ) (holds : List (HoldRequest V)) → Lowers 0 (expire_each x now timeout holds)
  unfolding expire_each
  expire_each-Lowers timeout [] = Lowers-pure tt
  expire_each-Lowers timeout (h ∷ hs) =
      Lowers-bind 0 _ _
        (Lowers-if 0 (is_timed_out timeout h.triggered_at now) _ _
          (Lowers-bind 0 _ _ (expire_hold-Lowers h) (λ e. Lowers-pure tt)) (Lowers-pure tt))
        (λ u. expire_each-Lowers timeout hs)

  expire-Lowers : (id : String) (timeout : ℤ) → Lowers 0 (expire_timed_out_holds x now id timeout)
  unfolding expire_timed_out_holds
  expire-Lowers id timeout =
      Lowers-bind 0 _ _ (Lowers-read _) (λ holds. expire_each-Lowers timeout holds)

  expire_after-Lowers :
      (id : String) (timeout : Option ℤ) → Lowers 0 (expire_after x now id timeout)
  unfolding expire_after
  expire_after-Lowers id none = Lowers-pure tt
  expire_after-Lowers id (some t) = Lowers-if 0 _ _ _ (expire-Lowers id t) (Lowers-pure tt)

  expire_if_due-Lowers : (env : EnvelopeRecord) → Lowers 0 (expire_if_due x now env)
  unfolding expire_if_due
  expire_if_due-Lowers env =
      Lowers-if 0 _ _ _ (Lowers-pure tt) (expire_after-Lowers env.envelope_id env.hold_timeout_secs)

  -- An action that is held does not get any further.
  pub trigger_hold-Returns :
      (action : Action V) (env : EnvelopeRecord) → Returns (λ _. ⊥) (trigger_hold x now action env)
  unfolding trigger_hold
  trigger_hold-Returns action env = Returns-bind _ _ _ λ hold_id.
      Returns-bind _ _ _
        λ id. Returns-bind _ _ _ λ payload_hash. Returns-bind _ _ _ λ event. Returns-fail _ _

  trigger_hold-Lowers :
      (action : Action V) (env : EnvelopeRecord) → Lowers 0 (trigger_hold x now action env)
  trigger_hold-Lowers action env = record {
    at = λ w a h. absurd ((trigger_hold-Returns action env).value w a h);
  }

  check_holds-Lowers :
      (action : Action V) (env : Option EnvelopeRecord) → Lowers 0 (check_holds x now action env)
  unfolding check_holds
  check_holds-Lowers action none = Lowers-pure tt
  check_holds-Lowers action (some env) =
      Lowers-bind 0 _ _ (expire_if_due-Lowers env)
        (λ u. Lowers-if 0 _ _ _ (trigger_hold-Lowers action env) (Lowers-pure tt))

  admit_action-Lowers : (action : Action V) → Lowers 0 (admit_action x now action)
  unfolding admit_action
  admit_action-Lowers action = record { at = λ w a h. omega arith }

  refuse_overdue-Lowers :
      (hold : HoldRequest V) (due : Option ℤ) → Lowers 0 (refuse_overdue x now hold due)
  unfolding refuse_overdue
  refuse_overdue-Lowers hold none = Lowers-pure tt
  refuse_overdue-Lowers hold (some t) =
      Lowers-bind 0 _ _ (expire-Lowers hold.envelope_id t) (λ u. Lowers-fail 0 _)

  -- Two ways to submit again that agree where less holds are waiting.
  abbrev AgreesBelow :
      ℕ → (Action V → KernelM V SubmitReceipt) → (Action V → KernelM V SubmitReceipt) → Type 0
  AgreesBelow n again again' =
      (action : Action V) (w : World V) → waiting w.db.holds < n → again action w ≡ again' action w

  execute_hold_response-agrees :
      (again again' : Action V → KernelM V SubmitReceipt) (action : Action V)
      (hold_id decision : String) (instruction : Option String) (w : World V)
      → AgreesBelow (waiting w.db.holds) again again'
      → execute_hold_response x now again action hold_id decision instruction w
        ≡ execute_hold_response x now again' action hold_id decision instruction w
  unfolding execute_hold_response
  execute_hold_response-agrees again again' action hold_id decision instruction w same =
      bind-agrees 0 _ _ _ w (Lowers-read _) λ actors w1 h1.
        bind-agrees 0 _ _ _ w1 (Lowers-read _) λ holds w2 h2.
          bind-agrees 0 _ _ _ w2 (Lowers-check _) λ hold w3 h3.
            bind-agrees 0 _ _ _ w3 (Lowers-read _) λ envelope w4 h4.
              bind-agrees 0 _ _ _ w4 (refuse_overdue-Lowers hold _) λ u w5 h5.
                bind-agrees 1 _ _ _ w5 (write_decision-Lowers action hold decision instruction)
                  λ event w6 h6. elim (Bool-cases (decision == "approve")) [
                    | inl e ↦ rw e (same (pending_action x now hold instruction) w6 (omega arith))
                    | inr e ↦ rw e refl
                  ]

  respond-agrees :
      (again again' : Action V → KernelM V SubmitReceipt) (action : Action V)
      (response : Option (String × String × Option String)) (w : World V)
      → AgreesBelow (waiting w.db.holds) again again'
      → respond x now again action response w ≡ respond x now again' action response w
  unfolding respond
  respond-agrees again again' action none w same = refl
  respond-agrees again again' action (some (hold_id, decision, instruction)) w same =
      execute_hold_response-agrees again again' action hold_id decision instruction w same

  pub submit_action-enough :
      (exhausted exhausted' : KernelM V SubmitReceipt) (fuel fuel' : ℕ) (action : Action V)
      (w : World V)
      → waiting w.db.holds < fuel
      → waiting w.db.holds < fuel'
      → submit_action x now exhausted fuel action w ≡ submit_action x now exhausted' fuel' action w
  unfolding submit_action
  submit_action-enough exhausted exhausted' zero fuel' action w p q = absurd (omega arith)
  submit_action-enough exhausted exhausted' (suc fuel) zero action w p q = absurd (omega arith)
  submit_action-enough exhausted exhausted' (suc fuel) (suc fuel') action w p q =
      bind-agrees 0 _ _ _ w (admit_action-Lowers action) λ u w1 h1.
        bind-agrees 0 _ _ _ w1 (Lowers-read _) λ envelope w2 h2.
          bind-agrees 0 _ _ _ w2 (check_holds-Lowers action envelope) λ u' w3 h3.
            respond-agrees (submit_action x now exhausted fuel)
              (submit_action x now exhausted' fuel') action (hold_response_of x now action) w3
              (λ again w4 h4.
                submit_action-enough exhausted exhausted' fuel fuel' again w4 (omega arith)
                  (omega arith))
