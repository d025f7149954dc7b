-- ===== src/Runtime/Outcome/Lockout.antt =====
-- An action that names its own cost, and what the next start of the kernel makes of it: `perform` is
-- the pipeline of `submit_action` of crates/punkgo-kernel/src/runtime/kernel.rs, and the checks are
-- those of crates/punkgo-kernel/src/state/store.rs.
use punkgo_kernel.Prelude.{
  ◌≡◌, ◌≢◌, ◌∙◌, ap, refl, true, some, List, [], ◌∷◌, ◌++◌, All, ℕ, unwrap_or, arith,
}
use mathlib.Core.Path.{subst}
use punkgo_kernel.Prelude.Int.{ℤ, pos, ◌≤ℤ◌, ◌<ℤ◌, as_i64}
use punkgo_kernel.Core.Errors.{ok}
use punkgo_kernel.Core.Json.{get_i64}
use punkgo_kernel.Core.Action.{Action, mutate, as_str, quote_cost}
use punkgo_kernel.State.Ledger.{EnergyLedger}
use punkgo_kernel.State.Store.{run_startup_integrity_checks}
use punkgo_kernel.State.Store.Startup.{IsRecorded, is_paid_type, run_startup_integrity_checks_iff}
use punkgo_kernel.Runtime.World.{Externals, World}
use punkgo_kernel.Runtime.Submit.{SubmitReceipt, perform}
use punkgo_kernel.Runtime.Outcome.{perform-Performed}

All-last : {A : Type 0} (P : A → Type 0) (xs : List A) (x : A) → All P (xs ++ x ∷ []) → P x
All-last P [] x h = h.0
All-last P (y ∷ ys) x h = All-last P ys x h.1

mutate_paid : is_paid_type (as_str mutate) ≡ true
unfolding as_str
mutate_paid = refl

module _ {V : Type 0} (x : Externals V) (now : ℕ) where
  -- Once a mutation has been performed whose payload names a cost of 0 or less, the kernel does not
  -- start again: whatever the accounts are, the checks at startup refuse the log.
  pub perform-locks_out :
      (action : Action V) (w : World V) (r : SubmitReceipt) (cost : ℤ) (ledger : EnergyLedger)
      → action.action_type ≡ mutate
      → get_i64 x.json action.payload "_hold_reserved_cost" ≡ some cost
      → cost ≤ℤ pos 0
      → (perform x now action w).0 ≡ ok r
      → run_startup_integrity_checks ledger (perform x now action w).1.db.events ≢ ok tt
  perform-locks_out action w r cost ledger mutation named free h passed =
      let p = perform-Performed x now action w r h in
      let recorded = ((run_startup_integrity_checks_iff ledger _).0 passed).1 in
      let last =
        All-last IsRecorded w.db.events p.event (subst (All IsRecorded) p.logged recorded) in
      let paid : is_paid_type p.event.action_type ≡ true =
        ap is_paid_type (p.action_type ∙ ap as_str mutation) ∙ mutate_paid in
      let positive = last.settled_pos paid in
      let settled : p.event.settled_energy ≡ cost =
        p.cost ∙ ap (λ o. unwrap_or o (as_i64 (quote_cost x.json action))) named in
      absurd (omega (arith, subst (λ z. pos 0 <ℤ z) settled positive))
