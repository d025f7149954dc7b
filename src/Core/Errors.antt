-- ===== src/Core/Errors.antt =====
-- crates/punkgo-core/src/errors.rs: the errors, and results as a monad.
-- A message keeps its fixed words; what `format!` puts into it is left out, but for the fields that
-- an error carries as data.
use mathlib.Core.Path.{subst}
use punkgo_kernel.Prelude.{
  ◌≡◌, refl, ◌⊎◌, inl, inr, Bool, true, false, Option, none, some, String, if◌then◌else◌,
}
use punkgo_kernel.Prelude.Int.{ℤ}

pub data KernelError : Type 0 where
  invalid_request policy_violation actor_not_found actor_frozen : String → KernelError
  insufficient_energy : String → ℤ → ℤ → KernelError
  boundary_violation authorization_required execute_payload_invalid : String → KernelError
  hold_triggered : String → String → KernelError
  audit io db json : String → KernelError

pub data KernelResult {ℓ} (A : Type ℓ) : Type ℓ where
  ok : A → KernelResult A
  err : KernelError → KernelResult A

infixl 5 ◌>>=◌ ◌>>◌
abbrev pub ◌>>=◌ {ℓ κ} :
    {A : Type ℓ} {B : Type κ} → KernelResult A → (A → KernelResult B) → KernelResult B
ok a >>= f = f a
err e >>= f = err e

abbrev pub ◌>>◌ {ℓ} : {B : Type ℓ} → KernelResult (Unit {0}) → KernelResult B → KernelResult B
m >> k = m >>= λ _. k

-- `if bad { return Err(e) }`
abbrev pub raise_if : Bool → KernelError → KernelResult (Unit {0})
raise_if true e = err e
raise_if false e = ok tt

-- `o.ok_or_else(|| e)?`
abbrev pub ok_or {ℓ} : {A : Type ℓ} → Option A → KernelError → KernelResult A
ok_or none e = err e
ok_or (some a) e = ok a

-- A computed result, with the equation.
pub Result-cases {ℓ} :
    {A : Type ℓ} (r : KernelResult A) → ((e : KernelError) × (r ≡ err e)) ⊎ ((a : A) × (r ≡ ok a))
Result-cases (ok a) = inr (a, refl)
Result-cases (err e) = inl (e, refl)

module _ {ℓ} {A : Type 0} {B : Type ℓ} {last : B} where
  -- The first call of a chain that succeeded: what it gave, and that the rest succeeded on it.
  pub chain-ok :
      (first : KernelResult A) (rest : A → KernelResult B)
      → (first >>= rest) ≡ ok last
      → (given : A) × (first ≡ ok given) × (rest given ≡ ok last)
  chain-ok (err x) rest run = cc
  chain-ok (ok given) rest run = (given, refl, run)

pub ok-inj {ℓ} : {A : Type ℓ} {a b : A} → ok a ≡ ok b → a ≡ b
ok-inj h = cc

-- A call that was let through by its first test.
pub raise_if-eq-ok {ℓ} :
    {A : Type ℓ} (b : Bool) (e : KernelError) (k : KernelResult A) {a : A}
    → (raise_if b e >> k) ≡ ok a
    → (b ≡ false) × (k ≡ ok a)
raise_if-eq-ok true e k h = cc
raise_if-eq-ok false e k h = (refl, h)

pub if_err-eq-ok {ℓ} :
    {A : Type ℓ} (b : Bool) (e : KernelError) (x : A) {y : A}
    → (if b then err e else ok x) ≡ ok y
    → (b ≡ false) × (y ≡ x)
if_err-eq-ok true e x h = cc
if_err-eq-ok false e x h = (refl, cc)

pub if_ok {ℓ} :
    {A : Type ℓ} (b : Bool) (e : KernelError) (x : A)
    → b ≡ false
    → (if b then err e else ok x) ≡ ok x
if_ok b e x h = rw h refl

-- What holds of the value, if a call succeeds: rules for a chain of calls of which the last decides.
pub record Yields {A : Type 0} (P : A → Type 0) (r : KernelResult A) : Type 0 where
  pub value : (a : A) → r ≡ ok a → P a

pub Yields-ok : {A : Type 0} (P : A → Type 0) (a : A) → P a → Yields P (ok a)
Yields-ok P a p = record { value = λ b h. subst P (ok-inj h) p }

pub Yields-bind :
    {A B : Type 0} (P : B → Type 0) (m : KernelResult A) (k : A → KernelResult B)
    → ((a : A) → Yields P (k a))
    → Yields P (m >>= k)
Yields-bind P (ok a) k h = h a
Yields-bind P (err e) k h = record { value = λ b q. cc }
