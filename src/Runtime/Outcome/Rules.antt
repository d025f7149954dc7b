-- ===== src/Runtime/Outcome/Rules.antt =====
-- What the steps of a submission do to the log, by rules for the monad of the kernel: those that leave
-- it, and those of which a relation between the logs before and after is known.
use punkgo_kernel.Prelude.{ℕ, ◌≡◌, ◌∙◌, refl, sym, Bool, true, false, List, String, if◌then◌else◌}
use mathlib.Core.Path.{subst}
use punkgo_kernel.Core.Errors.{KernelResult, ok, err, ok-inj}
use punkgo_kernel.State.EventLog.{EventRecord}
use punkgo_kernel.Runtime.Commit.{Db}
use punkgo_kernel.Runtime.World.{
  World, KernelM, pure, check, read, commit, transact, draw, continue, ◌>>=◌,
}
use punkgo_kernel.Runtime.Evolution.Rules.{bind-ok, Returns}

-- The action leaves the log as it is.
pub record IsQuiet {V A : Type 0} (m : KernelM V A) : Type 0 where
  pub at : (w : World V) → (m w).1.db.events ≡ w.db.events

module _ {V A : Type 0} where
  commit-quiet :
      (r : KernelResult (A × Db V)) (w : World V)
      → ((p : A × Db V) → r ≡ ok p → p.1.events ≡ w.db.events)
      → (commit r w).1.db.events ≡ w.db.events
  commit-quiet (ok p) w h = h p refl
  commit-quiet (err e) w h = refl

  pub IsQuiet-transact :
      (tx : Db V → KernelResult (A × Db V))
      → ((db : Db V) (p : A × Db V) → tx db ≡ ok p → p.1.events ≡ db.events)
      → IsQuiet (transact tx)
  unfolding transact
  IsQuiet-transact tx h = record { at = λ w. commit-quiet (tx w.db) w (h w.db) }

  pub IsQuiet-pure : (a : A) → IsQuiet {V = V} (pure a)
  unfolding pure
  IsQuiet-pure a = record { at = λ w. refl }

  pub IsQuiet-if :
      (b : Bool) (m n : KernelM V A) → IsQuiet m → IsQuiet n → IsQuiet (if b then m else n)
  IsQuiet-if true m n p q = p
  IsQuiet-if false m n p q = q

module _ {V A B : Type 0} where
  continue-quiet :
      (r : KernelResult A) (k : A → KernelM V B) (w : World V)
      → ((a : A) → IsQuiet (k a))
      → (continue r k w).1.db.events ≡ w.db.events
  continue-quiet (ok a) k w h = (h a).at w
  continue-quiet (err e) k w h = refl

  pub IsQuiet-bind :
      (m : KernelM V A) (k : A → KernelM V B)
      → IsQuiet m
      → ((a : A) → IsQuiet (k a))
      → IsQuiet (m >>= k)
  unfolding ◌>>=◌
  IsQuiet-bind m k p q = record { at = λ w. continue-quiet (m w).0 k (m w).1 q ∙ p.at w }

-- How the log before and after are related with the value that was returned.
pub record Ensures {V A : Type 0} (Q : List (EventRecord V) → List (EventRecord V) → A → Type 0)
    (m : KernelM V A) : Type 0 where
  pub at : (w : World V) (a : A) → (m w).0 ≡ ok a → Q w.db.events (m w).1.db.events a

module _ {V A : Type 0} where
  pub IsQuiet-read : (f : Db V → A) → IsQuiet (read f)
  unfolding read
  IsQuiet-read f = record { at = λ w. refl }

  pub IsQuiet-check : (r : KernelResult A) → IsQuiet {V = V} (check r)
  unfolding check
  IsQuiet-check r = record { at = λ w. refl }

  pub anything : (m : KernelM V A) → Returns (λ _. Unit {0}) m
  anything m = record { value = λ w a h. tt }

  commit-relates :
      (Q : List (EventRecord V) → List (EventRecord V) → A → Type 0) (r : KernelResult (A × Db V))
      (w : World V) (a : A)
      → ((b : A) (db' : Db V) → r ≡ ok (b, db') → Q w.db.events db'.events b)
      → (commit r w).0 ≡ ok a
      → Q w.db.events (commit r w).1.db.events a
  commit-relates Q (ok p) w a h e = subst (Q w.db.events p.1.events) (ok-inj e) (h p.0 p.1 refl)
  commit-relates Q (err x) w a h e = cc

  pub Ensures-transact :
      (Q : List (EventRecord V) → List (EventRecord V) → A → Type 0)
      (tx : Db V → KernelResult (A × Db V))
      → ((db : Db V) (a : A) (db' : Db V) → tx db ≡ ok (a, db') → Q db.events db'.events a)
      → Ensures Q (transact tx)
  unfolding transact
  Ensures-transact Q tx h = record { at = λ w a e. commit-relates Q (tx w.db) w a (h w.db) e }

module _ {V : Type 0} where
  pub IsQuiet-draw : (uuid : ℕ → String) → IsQuiet {V = V} (draw uuid)
  unfolding draw
  IsQuiet-draw uuid = record { at = λ w. refl }

module _ {V A B : Type 0} (Q : List (EventRecord V) → List (EventRecord V) → B → Type 0) where
  -- A first step that leaves the log, and of whose value something is known.
  pub Ensures-bind :
      (R : A → Type 0) (m : KernelM V A) (k : A → KernelM V B)
      → IsQuiet m
      → Returns R m
      → ((a : A) → R a → Ensures Q (k a))
      → Ensures Q (m >>= k)
  Ensures-bind R m k quiet known rest = record {
    at = λ w b h.
        let (a, e, done, last) = bind-ok m k w b h in
        let later = (rest a (known.value w a e)).at (m w).1 b done in
        rw last (subst (λ es. Q es (k a (m w).1).1.db.events b) (quiet.at w) later);
  }

  -- A first step that changes the log, and later ones that do not.
  pub Ensures-append :
      (S : List (EventRecord V) → List (EventRecord V) → A → Type 0) (m : KernelM V A)
      (k : A → KernelM V B)
      → Ensures S m
      → ((a : A) → IsQuiet (k a))
      → ((a : A) (es es' : List (EventRecord V)) → S es es' a → Returns (Q es es') (k a))
      → Ensures Q (m >>= k)
  Ensures-append S m k first quiet rest = record {
    at = λ w b h.
        let (a, e, done, last) = bind-ok m k w b h in
        let known = (rest a w.db.events (m w).1.db.events (first.at w a e)).value (m w).1 b done in
        rw last (subst (λ es. Q w.db.events es b) (sym ((quiet a).at (m w).1)) known);
  }
