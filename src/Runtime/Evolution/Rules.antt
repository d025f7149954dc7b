-- ===== src/Runtime/Evolution/Rules.antt =====
-- How an action of the kernel changes the tables, one rule for each way to build an action.
use punkgo_kernel.Prelude.{ℕ, ◌≡◌, refl, Bool, true, false, String, if◌then◌else◌}
use mathlib.Core.Path.{subst}
use punkgo_kernel.Core.Errors.{KernelError, KernelResult, ok, err, ok-inj}
use punkgo_kernel.State.Store.{MetaTable}
use punkgo_kernel.Runtime.Commit.{Db}
use punkgo_kernel.Runtime.World.{
  World, KernelM, pure, fail, check, read, commit, transact, draw, write_meta, continue, ◌>>=◌,
}
use punkgo_kernel.Runtime.Evolution.{Evolves, Evolves-refl, Evolves-trans}

-- Whether it returns or fails, the tables have changed as they may.
pub record Moves {V A : Type 0} (m : KernelM V A) : Type 0 where
  pub at : (w : World V) → Evolves w.db (m w).1.db

-- What it returns, if it returns.
pub record Returns {V A : Type 0} (P : A → Type 0) (m : KernelM V A) : Type 0 where
  pub value : (w : World V) (a : A) → (m w).0 ≡ ok a → P a

module _ {V A : Type 0} where
  pub Moves-pure : (a : A) → Moves {V = V} (pure a)
  unfolding pure
  Moves-pure a = record { at = λ w. Evolves-refl w.db }

  pub Moves-fail : (e : KernelError) → Moves {V = V} {A = A} (fail e)
  unfolding fail
  Moves-fail e = record { at = λ w. Evolves-refl w.db }

  pub Moves-check : (r : KernelResult A) → Moves {V = V} (check r)
  unfolding check
  Moves-check r = record { at = λ w. Evolves-refl w.db }

  pub Moves-read : (f : Db V → A) → Moves (read f)
  unfolding read
  Moves-read f = record { at = λ w. Evolves-refl w.db }

  commit-Evolves :
      (r : KernelResult (A × Db V)) (w : World V)
      → ((p : A × Db V) → r ≡ ok p → Evolves w.db p.1)
      → Evolves w.db (commit r w).1.db
  commit-Evolves (ok p) w h = h p refl
  commit-Evolves (err e) w h = Evolves-refl w.db

  pub Moves-transact :
      (tx : Db V → KernelResult (A × Db V))
      → ((db : Db V) (r : A × Db V) → tx db ≡ ok r → Evolves db r.1)
      → Moves (transact tx)
  unfolding transact
  Moves-transact tx h = record { at = λ w. commit-Evolves (tx w.db) w (h w.db) }

  pub Moves-if : (b : Bool) (m n : KernelM V A) → Moves m → Moves n → Moves (if b then m else n)
  Moves-if true m n p q = p
  Moves-if false m n p q = q

  pub Returns-pure : (P : A → Type 0) (a : A) → P a → Returns {V = V} P (pure a)
  unfolding pure
  Returns-pure P a p = record { value = λ w b h. subst P (ok-inj h) p }

  pub Returns-fail : (P : A → Type 0) (e : KernelError) → Returns {V = V} P (fail e)
  unfolding fail
  Returns-fail P e = record { value = λ w b h. cc }

  pub Returns-if :
      (P : A → Type 0) (b : Bool) (m n : KernelM V A)
      → Returns P m
      → Returns P n
      → Returns P (if b then m else n)
  Returns-if P true m n p q = p
  Returns-if P false m n p q = q

module _ {V : Type 0} where
  pub Moves-draw : (uuid : ℕ → String) → Moves {V = V} (draw uuid)
  unfolding draw
  Moves-draw uuid = record { at = λ w. Evolves-refl w.db }

  pub Moves-write_meta : (f : MetaTable → MetaTable) → Moves {V = V} (write_meta f)
  unfolding write_meta
  Moves-write_meta f = record { at = λ w. Evolves-refl w.db }

module _ {V A B : Type 0} where
  continue-Evolves :
      (r : KernelResult A) (k : A → KernelM V B) (w : World V)
      → ((a : A) → r ≡ ok a → Moves (k a))
      → Evolves w.db (continue r k w).1.db
  continue-Evolves (ok a) k w h = (h a refl).at w
  continue-Evolves (err e) k w h = Evolves-refl w.db

  continue-value :
      (P : B → Type 0) (r : KernelResult A) (k : A → KernelM V B) (w : World V) (b : B)
      → ((a : A) → Returns P (k a))
      → (continue r k w).0 ≡ ok b
      → P b
  continue-value P (ok a) k w b post h = (post a).value w b h
  continue-value P (err e) k w b post h = cc

  pub Returns-bind :
      (P : B → Type 0) (m : KernelM V A) (k : A → KernelM V B)
      → ((a : A) → Returns P (k a))
      → Returns P (m >>= k)
  unfolding ◌>>=◌
  Returns-bind P m k post = record { value = λ w b h. continue-value P (m w).0 k (m w).1 b post h }

  -- The rest may use what is known of the value that was returned.
  pub Moves-bind-Returns :
      (P : A → Type 0) (m : KernelM V A) (k : A → KernelM V B)
      → Moves m
      → Returns P m
      → ((a : A) → P a → Moves (k a))
      → Moves (m >>= k)
  unfolding ◌>>=◌
  Moves-bind-Returns P m k mm post mk = record {
    at = λ w.
        Evolves-trans w.db (m w).1.db ((m >>= k) w).1.db (mm.at w)
          (continue-Evolves (m w).0 k (m w).1 (λ a e. mk a (post.value w a e)));
  }

  pub Moves-bind :
      (m : KernelM V A) (k : A → KernelM V B) → Moves m → ((a : A) → Moves (k a)) → Moves (m >>= k)
  Moves-bind m k mm mk =
      Moves-bind-Returns (λ a. Unit {0}) m k mm (record { value = λ w a e. tt }) (λ a u. mk a)

  pub Moves-bind_check :
      (r : KernelResult A) (k : A → KernelM V B)
      → ((a : A) → r ≡ ok a → Moves (k a))
      → Moves (check r >>= k)
  unfolding check
  Moves-bind_check r k mk =
      Moves-bind-Returns (λ a. r ≡ ok a) (check r) k (Moves-check r) (record { value = λ w a e. e })
        mk

  continue-ok :
      (r : KernelResult A) (k : A → KernelM V B) (w : World V) (b : B)
      → (continue r k w).0 ≡ ok b
      → (a : A) × (r ≡ ok a) × ((k a w).0 ≡ ok b) × ((continue r k w).1 ≡ (k a w).1)
  continue-ok (ok a) k w b h = (a, refl, h, refl)
  continue-ok (err e) k w b h = cc

  -- What a block that returned did first.
  pub bind-ok :
      (m : KernelM V A) (k : A → KernelM V B) (w : World V) (b : B)
      → ((m >>= k) w).0 ≡ ok b
      → (a : A) × ((m w).0 ≡ ok a) × ((k a (m w).1).0 ≡ ok b) × (((m >>= k) w).1 ≡ (k a (m w).1).1)
  unfolding ◌>>=◌
  bind-ok m k w b h = continue-ok (m w).0 k (m w).1 b h

pub ruleset moves_rules = (
  Moves-pure, Moves-fail, Moves-check, Moves-read, Moves-draw, Moves-write_meta, Moves-if,
  Moves-bind,
)
