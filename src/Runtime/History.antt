-- ===== src/Runtime/History.antt =====
-- A kernel from the start of its database on: `bootstrap` and every submission after it, of
-- crates/punkgo-kernel/src/runtime/kernel.rs, in the order in which they are served.
use punkgo_kernel.Prelude.{
  ℕ, suc, ◌<◌, ◌≡◌, ◌⊎◌, true, refl, some, List, [], ◌∷◌, String, Bool-cases, inl, inr, arith,
}
use punkgo_kernel.Core.Errors.{invalid_request, ok}
use punkgo_kernel.Core.Action.{Action, ActionType, observe, create, mutate, execute}
use punkgo_kernel.Core.Boundary.{GlobSet, glob_match, is_privileged_target, check_writable_boundary}
use punkgo_kernel.Core.Boundary.Access.{
  Some, word_of, observing, as_root, granted, is_privileged_target_iff, not-IsPrivileged,
  check_writable_boundary_iff,
}
use punkgo_kernel.Core.Actor.{human, ActorRecord}
use punkgo_kernel.State.Ledger.Invariant.{IsSound}
use punkgo_kernel.State.EventLog.Append.{IsIndexed}
use punkgo_kernel.State.ActorStore
use punkgo_kernel.State.ActorStore.{actor_key}
use punkgo_kernel.State.EnvelopeStore.Holds.{HoldRun}
use punkgo_kernel.State.Store.{seed_meta, seed_ledger, seed_actors, root_actor}
use punkgo_kernel.Runtime.World.{Externals, World, KernelM, fail}
use punkgo_kernel.Runtime.Submit.{SubmitReceipt, submit_action}
use punkgo_kernel.Runtime.Depth.{waiting}
use punkgo_kernel.Runtime.Depth.Enough.{submit_action-enough}
use punkgo_kernel.Runtime.Evolution.{Evolves, Evolves-refl, Evolves-trans}
use punkgo_kernel.Runtime.Evolution.Rules.{Moves-fail}
use punkgo_kernel.Runtime.Evolution.Submission.{GivesI64, submit_action-Moves}

names_change :
    (t : ActionType)
    → (t ≡ observe) ⊎ Some (λ a. a ≡ word_of t) ("create" ∷ "mutate" ∷ "execute" ∷ [])
names_change observe = inl refl
names_change create = inr (inl refl)
names_change mutate = inr (inr (inl refl))
names_change execute = inr (inr (inr (inl refl)))

-- An actor whose only row has the pattern ** and names the three ways to change state may do each of
-- them everywhere, and observe.
wildcard_opens :
    (glob : GlobSet) (actor : ActorRecord)
    → actor.writable_targets
      ≡ (record { target = "**"; actions = "create" ∷ "mutate" ∷ "execute" ∷ [] } ∷ [])
    → ((target : String) → glob_match glob "**" target ≡ true)
    → (target : String) (t : ActionType) → check_writable_boundary glob actor target t ≡ ok tt
wildcard_opens glob actor rows any_path target t =
    (check_writable_boundary_iff glob actor target t).1
      (elim (Bool-cases (is_privileged_target target)) [
        | inl p ↦ as_root ((is_privileged_target_iff target).0 p) (rw rows (inl refl))
        | inr p ↦ elim (names_change t) [
          | inl e ↦ observing e
          | inr named ↦ granted (not-IsPrivileged target p) (rw rows (inl (any_path target, named)))
        ]
      ])

-- The tables of a new database.
unfoldable pub boot : {V : Type 0} → ℕ → World V
unfolding seed_meta seed_ledger seed_actors
boot now = record {
  db = record {
    ledger = seed_ledger now [];
    events = [];
    actors = seed_actors now [];
    envelopes = [];
    holds = [];
    audit_hashes = [];
  };
  system_meta = seed_meta [];
  drawn = 0;
}

module _ {V : Type 0} (x : Externals V) where
  -- A submission at a time, with as much depth as it can need.
  unfoldable pub submit : ℕ → Action V → KernelM V SubmitReceipt
  submit now action w =
      submit_action x now (fail (invalid_request "depth")) (suc (waiting w.db.holds)) action w

  -- Whatever each of them returns, the next one finds the tables that it left.
  unfoldable pub submit_all : List (ℕ × Action V) → World V → World V
  submit_all [] w = w
  submit_all ((now, action) ∷ rest) w = submit_all rest (submit now action w).1

  -- No depth is reached at which a submission is cut short: any larger bound, and whatever happens
  -- at it, gives the same result and the same tables.
  pub submit-deep_enough :
      (now : ℕ) (action : Action V) (w : World V) (exhausted : KernelM V SubmitReceipt) (fuel : ℕ)
      → waiting w.db.holds < fuel
      → submit now action w ≡ submit_action x now exhausted fuel action w
  unfolding submit
  submit-deep_enough now action w exhausted fuel h =
      submit_action-enough x now (fail (invalid_request "depth")) exhausted
        (suc (waiting w.db.holds)) fuel action w (omega arith) h

  module _ (law : GivesI64 x) where
    submit-Evolves :
        (now : ℕ) (action : Action V) (w : World V) → Evolves w.db (submit now action w).1.db
    unfolding submit
    submit-Evolves now action w =
        (submit_action-Moves x law now (fail (invalid_request "depth"))
            (Moves-fail (invalid_request "depth")) (suc (waiting w.db.holds)) action).at
          w

    -- However many submissions are served, and whether they succeed or fail: the log is extended and
    -- keeps its rows, its indices stay without gaps, and accounts that are solvent stay solvent; holds
    -- are only created and, while they wait, decided; no actor is lost, and none changes its type, its
    -- creator, its lineage or its targets; no envelope is lost, none changes what it grants, and none
    -- that has ended becomes active again. The readers of numbers are assumed to give an i64.
    pub submit_all-Evolves :
        (requests : List (ℕ × Action V)) (w : World V) → Evolves w.db (submit_all requests w).db
    unfolding submit_all
    submit_all-Evolves [] w = Evolves-refl w.db
    submit_all-Evolves ((now, action) ∷ rest) w =
        let next = (submit now action w).1 in
        Evolves-trans w.db next.db (submit_all rest next).db (submit-Evolves now action w)
          (submit_all-Evolves rest next)

    -- The state that a kernel can come to.
    pub record IsLawful (w : World V) : Type 0 where
      pub sound : IsSound w.db.ledger
      pub indexed : IsIndexed 0 w.db.events
      pub decided : HoldRun w.db.holds []
      pub root : ActorRecord
      pub found : ActorStore.get "root" w.db.actors ≡ some root
      pub sovereign : root.actor_type ≡ human
      pub unbounded :
          (target : String) (t : ActionType) → check_writable_boundary x.glob root target t ≡ ok tt

    -- From a new database on, whatever is submitted: the accounts are solvent, the log is indexed
    -- without gaps, every hold was created and decided by the rules, and root is there, a human whose
    -- boundary lets every action on every target through. The readers of numbers are assumed to give
    -- an i64, and the pattern ** to match every text.
    pub boot-IsLawful :
        (start : ℕ) (requests : List (ℕ × Action V))
        → ((target : String) → glob_match x.glob "**" target ≡ true)
        → IsLawful (submit_all requests (boot start))
    unfolding boot ActorStore.get
    boot-IsLawful start requests any_path =
        let e = submit_all-Evolves requests (boot start) in
        let r = e.actors.survives "root" (root_actor start) refl in
        record {
          sound = e.sound (omega arith);
          indexed = e.indexed tt;
          decided = e.decided;
          root = r.row;
          found = r.found;
          sovereign = r.related.actor_type;
          unbounded =
              λ target t. wildcard_opens x.glob r.row r.related.writable_targets any_path target t;
        }
