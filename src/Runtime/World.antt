-- ===== src/Runtime/World.antt =====
-- The state of the kernel of crates/punkgo-kernel/src/runtime/kernel.rs, and its methods as actions
-- that change it and may fail. What was committed before an error stays, so that the state comes
-- back beside the error; `transact` is a transaction, which an error rolls back.
use punkgo_kernel.Prelude.{ℕ, ◌+◌, Option, List, String}
use punkgo_kernel.Core.Errors.{KernelError, KernelResult, ok, err}
use punkgo_kernel.Core.Json.{Json}
use punkgo_kernel.Core.Boundary.{GlobSet}
use punkgo_kernel.Core.Actor.{WritableTarget}
use punkgo_kernel.Core.Consent.{HoldRule}
use punkgo_kernel.Prelude.Int.{ℤ}
use punkgo_kernel.State.EventLog.{Hashing}
use punkgo_kernel.State.ActorStore.{Like}
use punkgo_kernel.State.AuditLog.{Tlog}
use punkgo_kernel.State.Store.{MetaTable}
use punkgo_kernel.Runtime.Commit.{Db}

-- The code outside the repository. `uuid n` is the `n`-th text that `Uuid::new_v4()` gives;
-- the three readers are `serde_json::from_value` at the types of the fields, and `ceil_fifth` is
-- `((x as f64) * 0.2).ceil() as i64`.
pub record Externals (V : Type 0) : Type 0 where
  pub json : Json V
  pub glob : GlobSet
  pub like : Like
  pub hashing : Hashing
  pub tlog : Tlog
  pub uuid : ℕ → String
  pub writable_targets_of : V → Option (List WritableTarget)
  pub strings_of : V → Option (List String)
  pub hold_rules_of : V → Option (List HoldRule)
  pub ceil_fifth : ℤ → ℤ

pub record World (V : Type 0) : Type 0 where
  pub db : Db V
  pub system_meta : MetaTable
  pub drawn : ℕ

abbrev pub KernelM : Type 0 → Type 0 → Type 0
KernelM V A = World V → KernelResult A × World V

module _ {V A : Type 0} where
  unfoldable pub pure : A → KernelM V A
  pure a w = (ok a, w)

  unfoldable pub fail : KernelError → KernelM V A
  fail e w = (err e, w)

  -- A check, or a call that writes nothing.
  unfoldable pub check : KernelResult A → KernelM V A
  check r w = (r, w)

  unfoldable pub read : (Db V → A) → KernelM V A
  read f w = (ok (f w.db), w)

  abbrev pub commit : KernelResult (A × Db V) → World V → KernelResult A × World V
  commit (ok (a, db)) w = (ok a, record w { db = db })
  commit (err e) w = (err e, w)

  unfoldable pub transact : (Db V → KernelResult (A × Db V)) → KernelM V A
  transact tx w = commit (tx w.db) w

module _ {V : Type 0} where
  unfoldable pub draw : (ℕ → String) → KernelM V String
  draw uuid w = (ok (uuid w.drawn), record w { drawn = w.drawn + 1 })

  unfoldable pub write_meta : (MetaTable → MetaTable) → KernelM V (Unit {0})
  write_meta f w = (ok tt, record w { system_meta = f w.system_meta })

module _ {V A B : Type 0} where
  abbrev pub continue : KernelResult A → (A → KernelM V B) → KernelM V B
  continue (ok a) k w = k a w
  continue (err e) k w = (err e, w)

  infixl 5 ◌>>=◌ ◌>>◌
  unfoldable pub ◌>>=◌ : KernelM V A → (A → KernelM V B) → KernelM V B
  unfolding pure fail check read transact draw write_meta
  ◌>>=◌ m k w = continue (m w).0 k (m w).1

  abbrev pub ◌>>◌ : KernelM V A → KernelM V B → KernelM V B
  m >> k = m >>= λ _. k
