-- ===== src/Runtime/Depth.antt =====
-- How deep submissions nest: `submit_action` and `execute_hold_response` of
-- crates/punkgo-kernel/src/runtime/kernel.rs call each other only after a hold has been decided.
pub mod Enough
use punkgo_kernel.Prelude.{
  ℕ, suc, ◌+◌, ◌≤◌, ◌≡◌, ◌∙◌, refl, Bool, true, false, Option, none, some, List, [], ◌∷◌, String,
  if◌then◌else◌, arith, ◌==◌, Bool-cases, inl, inr,
}
use punkgo_kernel.Prelude.Table.{find_row, update_row}
use punkgo_kernel.Core.Errors.{KernelError, KernelResult, ok, err}
use punkgo_kernel.State.Store.{MetaTable}
use punkgo_kernel.State.EnvelopeStore.{
  HoldRequest, is_pending, hold_key, get_hold_request, resolve_hold_request_in_tx, set_resolved,
}
use punkgo_kernel.State.EnvelopeStore.Holds.{resolve-Decided, resolved_not_pending}
use punkgo_kernel.Runtime.Commit.{Db}
use punkgo_kernel.Runtime.World.{
  World, KernelM, pure, fail, check, read, commit, transact, draw, write_meta, continue, ◌>>=◌,
}

module _ {V : Type 0} where
  -- The number of holds that wait for a decision.
  unfoldable pub waiting : List (HoldRequest V) → ℕ
  waiting [] = 0
  waiting (h ∷ hs) = let rest = waiting hs in if is_pending h.status then suc rest else rest

  waiting-update_row :
      (k : String) (f : HoldRequest V → HoldRequest V) (row : HoldRequest V)
      (holds : List (HoldRequest V))
      → ((h : HoldRequest V) → is_pending (f h).status ≡ false)
      → find_row hold_key k holds ≡ some row
      → is_pending row.status ≡ true
      → waiting (update_row hold_key k f holds) + 1 ≡ waiting holds
  unfolding waiting
  waiting-update_row k f row [] closed e p = cc
  waiting-update_row k f row (h ∷ hs) closed e p =
      ground (arith, closed h, waiting-update_row k f row hs closed)

  -- A decision leaves one less.
  pub resolve-waiting :
      (hold_id decision : String) (instruction : Option String) (now : ℕ)
      (holds holds' : List (HoldRequest V))
      → resolve_hold_request_in_tx hold_id decision instruction now holds ≡ ok holds'
      → waiting holds' + 1 ≡ waiting holds
  unfolding get_hold_request
  resolve-waiting hold_id decision instruction now holds holds' h =
      let d = resolve-Decided hold_id decision instruction now holds holds' h in
      rw d.result (
        waiting-update_row hold_id (set_resolved d.status decision instruction now) d.before holds
          (λ r. resolved_not_pending decision d.status d.named) d.found d.waiting)

-- Where it returns, at least `n` holds less are waiting.
pub record Lowers {V A : Type 0} (n : ℕ) (m : KernelM V A) : Type 0 where
  pub at :
      (w : World V) (a : A) → (m w).0 ≡ ok a → waiting (m w).1.db.holds + n ≤ waiting w.db.holds

module _ {V A : Type 0} where
  pub Lowers-pure : (a : A) → Lowers {V = V} 0 (pure a)
  unfolding pure
  Lowers-pure a = record { at = λ w b h. omega arith }

  pub Lowers-check : (r : KernelResult A) → Lowers {V = V} 0 (check r)
  unfolding check
  Lowers-check r = record { at = λ w b h. omega arith }

  pub Lowers-read : (f : Db V → A) → Lowers 0 (read f)
  unfolding read
  Lowers-read f = record { at = λ w b h. omega arith }

  pub Lowers-fail : (n : ℕ) (e : KernelError) → Lowers {V = V} {A = A} n (fail e)
  unfolding fail
  Lowers-fail n e = record { at = λ w b h. cc }

  commit-waiting :
      (n : ℕ) (r : KernelResult (A × Db V)) (w : World V) (a : A)
      → ((p : A × Db V) → r ≡ ok p → waiting p.1.holds + n ≤ waiting w.db.holds)
      → (commit r w).0 ≡ ok a
      → waiting (commit r w).1.db.holds + n ≤ waiting w.db.holds
  commit-waiting n (ok p) w a h e = h p refl
  commit-waiting n (err x) w a h e = cc

  pub Lowers-transact :
      (n : ℕ) (tx : Db V → KernelResult (A × Db V))
      → ((db : Db V) (r : A × Db V) → tx db ≡ ok r → waiting r.1.holds + n ≤ waiting db.holds)
      → Lowers n (transact tx)
  unfolding transact
  Lowers-transact n tx h = record { at = λ w a e. commit-waiting n (tx w.db) w a (h w.db) e }

  pub Lowers-if :
      (n : ℕ) (b : Bool) (m k : KernelM V A)
      → Lowers n m
      → Lowers n k
      → Lowers n (if b then m else k)
  Lowers-if n true m k p q = p
  Lowers-if n false m k p q = q

module _ {V : Type 0} where
  pub Lowers-draw : (uuid : ℕ → String) → Lowers {V = V} 0 (draw uuid)
  unfolding draw
  Lowers-draw uuid = record { at = λ w b h. omega arith }

module _ {V A B : Type 0} where
  continue-waiting :
      (n : ℕ) (r : KernelResult A) (k : A → KernelM V B) (w : World V) (b : B) (most : ℕ)
      → ((a : A) → Lowers n (k a))
      → ((a : A) → r ≡ ok a → waiting w.db.holds ≤ most)
      → (continue r k w).0 ≡ ok b
      → waiting (continue r k w).1.db.holds + n ≤ most
  continue-waiting n (ok a) k w b most low start h = omega (arith, (low a).at w b h, start a refl)
  continue-waiting n (err e) k w b most low start h = cc

  pub Lowers-bind :
      (n : ℕ) (m : KernelM V A) (k : A → KernelM V B)
      → Lowers 0 m
      → ((a : A) → Lowers n (k a))
      → Lowers n (m >>= k)
  unfolding ◌>>=◌
  Lowers-bind n m k low rest = record {
    at = λ w b h.
        continue-waiting n (m w).0 k (m w).1 b (waiting w.db.holds) rest
          (λ a e. omega (arith, low.at w a e)) h;
  }

  continue-agrees :
      (r : KernelResult A) (k l : A → KernelM V B) (w : World V)
      → ((a : A) → r ≡ ok a → k a w ≡ l a w)
      → continue r k w ≡ continue r l w
  continue-agrees (ok a) k l w h = h a refl
  continue-agrees (err e) k l w h = refl

  -- Two blocks with the same first step agree, if their rests do where that step returns.
  pub bind-agrees :
      (n : ℕ) (m : KernelM V A) (k l : A → KernelM V B) (w : World V)
      → Lowers n m
      → ((a : A) (w' : World V) → waiting w'.db.holds + n ≤ waiting w.db.holds → k a w' ≡ l a w')
      → (m >>= k) w ≡ (m >>= l) w
  unfolding ◌>>=◌
  bind-agrees n m k l w low same =
      continue-agrees (m w).0 k l (m w).1 (λ a e. same a (m w).1 (low.at w a e))
