-- ===== src/Core/Consent/Checks.antt =====
-- What the checks of crates/punkgo-core/src/consent.rs let through, on envelopes as the kernel keeps
-- them.
use native.Mathlib.Nat.{div-lt_iff_lt-mul, le-div_iff_mul-le, div-mul-le_self}
use punkgo_kernel.Prelude.{
  ℕ, ◌+◌, ◌*◌, ◌/◌, ◌≤◌, ◌<◌, ◌≡◌, ◌≢◌, refl, ◌↔◌, inl, inr, true, false, Option, none, some,
  String, if◌then◌else◌, arith, Bool-cases,
}
use punkgo_kernel.Prelude.Int.{
  ℤ, pos, negsuc, ◌+ℤ◌, ◌-ℤ◌, ◌≤ℤ◌, ◌<ℤ◌, leb_ℤ, leb_ℤ_true, leb_ℤ_of_le, pos-add, leb_ℤ_false,
  leb_ℤ_of_lt, wrap_i64, wrap_i64-sub, wrap_i64-add, div_i64, i64_mod, int_laws,
}
use punkgo_kernel.Core.Errors.{ok}
use punkgo_kernel.Core.Actor.{ActorType, human, agent, ActorRecord}
use punkgo_kernel.Core.Boundary.{GlobSet, glob_match}
use punkgo_kernel.Core.Boundary.Access.{Some, any_iff, any-eq_iff}
use punkgo_kernel.Core.Consent

-- The budget of an envelope and what is consumed of it, as the kernel keeps them.
pub record IsFunded (env : Consent.EnvelopeRecord) : Type 0 where
  pub nonneg : pos 0 ≤ℤ env.budget_consumed
  pub within : env.budget_consumed ≤ℤ env.budget
  pub small : env.budget <ℤ pos i64_mod

-- In a funded envelope the remaining budget is the difference: the subtraction does not wrap.
pub remaining-exact :
    (env : Consent.EnvelopeRecord)
    → IsFunded env
    → Consent.remaining env ≡ env.budget -ℤ env.budget_consumed
unfolding Consent.remaining
remaining-exact env h =
    wrap_i64-sub _ _ (omega (arith, h.nonneg, h.within, h.small))
      (omega (arith, h.nonneg, h.within, h.small))

-- The state in which an actor may change state, and the mode that it is then in.
pub data IsAuthorized (actor : ActorRecord) (envelope : Option Consent.EnvelopeRecord)
    (m : Consent.AuthorizationMode) : Type 0 where
  in_the_loop :
      actor.actor_type ≡ human → m ≡ Consent.man_in_the_loop → IsAuthorized actor envelope m
  on_the_loop :
      (env : Consent.EnvelopeRecord)
      → actor.actor_type ≡ agent
      → m ≡ Consent.man_on_the_loop
      → envelope ≡ some env
      → env.status ≡ Consent.EnvelopeStatus.active
      → IsAuthorized actor envelope m

require_active_sound :
    (envelope : Option Consent.EnvelopeRecord) (m : Consent.AuthorizationMode)
    → Consent.require_active envelope ≡ ok m
    → (env : Consent.EnvelopeRecord) × (envelope ≡ some env)
      × (env.status ≡ Consent.EnvelopeStatus.active)
      × (m ≡ Consent.man_on_the_loop)
unfolding Consent.require_active
require_active_sound none m h = cc
require_active_sound (some env) m h = (env, refl, ground arith, ground arith)

module _ (actor : ActorRecord) (envelope : Option Consent.EnvelopeRecord)
    (m : Consent.AuthorizationMode) where
  IsAuthorized-sound :
      (t : ActorType)
      → actor.actor_type ≡ t
      → Consent.check_authorization actor envelope ≡ ok m
      → IsAuthorized actor envelope m
  unfolding Consent.check_authorization
  IsAuthorized-sound human e h = in_the_loop e (ground arith)
  IsAuthorized-sound agent e h =
      let found = require_active_sound envelope m (ground arith) in
      on_the_loop found.0 e found.3 found.1 found.2

  IsAuthorized-complete :
      IsAuthorized actor envelope m → Consent.check_authorization actor envelope ≡ ok m
  unfolding Consent.check_authorization Consent.require_active
  IsAuthorized-complete (in_the_loop e f) = ground arith
  IsAuthorized-complete (on_the_loop env e f g a) = rw g (ground arith)

  -- `check_authorization` answers in the loop exactly for a human, and on the loop exactly for an agent
  -- with an envelope whose status is active; in any other case it is an error. It looks at nothing
  -- else: not at the status or the boundary of the actor, nor at the time the envelope ends.
  pub check_authorization_iff :
      (Consent.check_authorization actor envelope ≡ ok m) ↔ IsAuthorized actor envelope m
  check_authorization_iff = (IsAuthorized-sound actor.actor_type refl, IsAuthorized-complete)

module _ (glob : GlobSet) where
  -- An envelope covers an action exactly when it permits the type, one of its patterns matches the
  -- target, and its budget is not used up.
  pub check_envelope_covers_iff :
      (env : Consent.EnvelopeRecord) (target action : String)
      → IsFunded env
      → (Consent.check_envelope_covers glob env target action ≡ ok tt) ↔ (
          Some (λ a. a ≡ action) env.actions
          × Some (λ p. glob_match glob p target ≡ true) env.targets
          × (env.budget_consumed <ℤ env.budget))
  unfolding Consent.check_envelope_covers
  check_envelope_covers_iff env target action funded = (sound, complete)
    where
      spend : leb_ℤ (Consent.remaining env) (pos 0) ≡ false → env.budget_consumed <ℤ env.budget
      spend e = omega (
        int_laws,
        leb_ℤ_false (env.budget -ℤ env.budget_consumed) (pos 0)
            (rw (remaining-exact env funded) at e),
      )

      funds : env.budget_consumed <ℤ env.budget → leb_ℤ (Consent.remaining env) (pos 0) ≡ false
      funds l =
          rw (remaining-exact env funded)
            (leb_ℤ_of_lt (env.budget -ℤ env.budget_consumed) (pos 0) (omega (int_laws, l)))

      sound :
          Consent.check_envelope_covers glob env target action ≡ ok tt
          → Some (λ a. a ≡ action) env.actions
            × Some (λ p. glob_match glob p target ≡ true) env.targets
            × (env.budget_consumed <ℤ env.budget)
      sound h = (
        (any-eq_iff action env.actions).0 (ground arith),
        (any_iff _ env.targets).0 (ground arith),
        spend (ground arith),
      )

      complete :
          (Some (λ a. a ≡ action) env.actions
            × Some (λ p. glob_match glob p target ≡ true) env.targets
            × (env.budget_consumed <ℤ env.budget))
          → Consent.check_envelope_covers glob env target action ≡ ok tt
      complete h = ground (
        arith,
        (any-eq_iff action env.actions).1 h.0,
        (any_iff (λ p. glob_match glob p target) env.targets).1 h.1,
        funds h.2,
      )

-- Some multiple of the interval lies behind `a`, and at `b` or in front of it.
abbrev pub Crosses : ℕ → ℕ → ℕ → Type 0
Crosses r a b = (k : ℕ) × (a < k * r) × (k * r ≤ b)

Crosses-of-div : (r a b : ℕ) → 0 < r → a / r < b / r → Crosses r a b
Crosses-of-div r a b p h = (b / r, (div-lt_iff_lt-mul p).0 h, div-mul-le_self b r)

div-of-Crosses : (r a b : ℕ) → 0 < r → Crosses r a b → a / r < b / r
div-of-Crosses r a b p (k, lo, hi) = omega (
  arith,
  (div-lt_iff_lt-mul {k = r} {x = a} {y = k} p).1 lo,
  (le-div_iff_mul-le {k = r} {x = k} {y = b} p).1 hi,
)

check_report-ne-halt :
    (every : Option ℤ) (a b : ℤ) → Consent.check_report every a b ≢ some Consent.halt
unfolding Consent.check_report
check_report-ne-halt none a b = λ h. cc
check_report-ne-halt (some r) a b = ground arith

-- A report is due exactly when the total crosses a multiple of a positive interval.
check_report_iff :
    (every : Option ℤ) (a b : ℕ)
    → (Consent.check_report every (pos a) (pos b) ≡ some Consent.report)
      ↔ ((r : ℕ) × (every ≡ some (pos r)) × (0 < r) × Crosses r a b)
unfolding Consent.check_report div_i64
check_report_iff none a b = ((λ h. cc), λ h. cc (h.1))
check_report_iff (some (negsuc r)) a b = ((λ h. ground arith), λ h. cc (h.1))
check_report_iff (some (pos r)) a b = (sound, complete)
  where
    sound :
        Consent.check_report (some (pos r)) (pos a) (pos b) ≡ some Consent.report
        → (s : ℕ) × (some (pos r) ≡ some (pos s)) × (0 < s) × Crosses s a b
    sound h = let p : 0 < r = ground arith in (r, refl, p, Crosses-of-div r a b p (ground arith))

    complete :
        ((s : ℕ) × (some (pos r) ≡ some (pos s)) × (0 < s) × Crosses s a b)
        → Consent.check_report (some (pos r)) (pos a) (pos b) ≡ some Consent.report
    complete (s, e, p, x) =
        let q : a / s < b / s = div-of-Crosses s a b p x in
        let same : r ≡ s = ground arith in rw same (ground arith)

module _ (env : Consent.EnvelopeRecord) (a c : ℕ) (consumed : env.budget_consumed ≡ pos a)
    (small : a + c < i64_mod) where
  total-exact : wrap_i64 (env.budget_consumed +ℤ pos c) ≡ pos (a + c)
  total-exact =
      rw (consumed, wrap_i64-add (pos a) (pos c) (rw (pos-add a c) (omega arith))) (pos-add a c)

  check_checkpoint-exact : Consent.check_checkpoint env (pos c) ≡ (
      if leb_ℤ env.budget (pos (a + c))
      then some Consent.halt
      else Consent.check_report env.report_every (pos a) (pos (a + c)))
  unfolding Consent.check_checkpoint
  check_checkpoint-exact = rw (total-exact, consumed) refl

  -- Where the sum is below 2 ^ 63: consuming `c` on top of `a` halts the envelope exactly when the budget is then used up. Else it
  -- calls for a report exactly when the total crosses a multiple of the reporting interval.
  pub check_checkpoint_iff :
      ((Consent.check_checkpoint env (pos c) ≡ some Consent.halt) ↔ (env.budget ≤ℤ pos (a + c)))
      × ((Consent.check_checkpoint env (pos c) ≡ some Consent.report) ↔ (
          (pos (a + c) <ℤ env.budget)
          × ((r : ℕ) × (env.report_every ≡ some (pos r)) × (0 < r) × Crosses r a (a + c))))
  check_checkpoint_iff = elim (Bool-cases (leb_ℤ env.budget (pos (a + c)))) [
    | inl used ↦
        rw (check_checkpoint-exact, used)
          (
            ((λ _. leb_ℤ_true env.budget (pos (a + c)) used), λ _. refl),
            ((λ h. cc), λ h. cc (leb_ℤ_of_lt env.budget (pos (a + c)) h.0)),
          )
    | inr left ↦
        rw (check_checkpoint-exact, left)
          (
            (
              (λ h. absurd (check_report-ne-halt env.report_every (pos a) (pos (a + c)) h)),
              λ h. cc (leb_ℤ_of_le env.budget (pos (a + c)) h),
            ),
            (
              (λ h. (
                leb_ℤ_false env.budget (pos (a + c)) left,
                (check_report_iff env.report_every a (a + c)).0 h,
              )),
              λ h. (check_report_iff env.report_every a (a + c)).1 h.1,
            ),
          )
  ]
