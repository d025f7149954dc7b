-- ===== src/State/AuditLog/Loop.antt =====
-- The loop of `append_leaf_in_tx` of crates/punkgo-kernel/src/audit.rs comes to its end.
use punkgo_kernel.Prelude.{
  ℕ, zero, suc, ◌+◌, ◌-◌, ◌/◌, ◌%◌, ◌^◌, ◌<◌, ◌≤◌, ◌≡◌, refl, false, List, eqb, arith, Bool-cases,
  inl, inr,
}
use native.Mathlib.Nat.{div-eq_of_lt}
use native.Mathlib.Decide.{dec_lt}
use punkgo_kernel.Core.Errors.{Result-cases}
use punkgo_kernel.State.AuditLog.{Tlog, HashTable, shr_u64, read_hash_in_tx, climb}

pub top_bit : (n level : ℕ) → n < 2 ^ 63 → level ≡ 63 → eqb (shr_u64 n level % 2) 1 ≡ false
top_bit n level h e = let low : n / 2 ^ 63 ≡ 0 = div-eq_of_lt h in rw (e, low) refl

module _ (t : Tlog) (n : ℕ) (hashes : HashTable) (small : n < 2 ^ 63) where
  -- The loop over the levels is never cut short: for an index below 2 ^ 63, any two bounds on its steps
  -- that reach level 63 and the step there give the same nodes, or the same error.
  climb_enough :
      (a b level : ℕ) (current : List ℕ)
      → level < 64
      → 64 ≤ level + a
      → 64 ≤ level + b
      → climb t a n level current hashes ≡ climb t b n level current hashes
  unfolding climb
  climb_enough zero b level current low ha hb = absurd (omega (arith, low, ha))
  climb_enough (suc a) zero level current low ha hb = absurd (omega (arith, low, hb))
  climb_enough (suc a) (suc b) level current low ha hb =
      elim (Bool-cases (eqb (shr_u64 n level % 2) 1)) [
        | inr e ↦ rw (climb, e) refl
        | inl e ↦ elim (dec_lt level 63) [
          | no top ↦ cc (top_bit n level small (omega (arith, low, top)))
          | yes below ↦
              elim (Result-cases
                (read_hash_in_tx (t.stored_hash_index level (shr_u64 n level - 1)) hashes)) [
                  | inl (x, r) ↦ rw (climb, e, r) refl
                  | inr (left, r) ↦
                      (let rest =
                          climb_enough a b (level + 1) (t.node_hash left current)
                            (omega (arith, below)) (omega (arith, ha)) (omega (arith, hb)) in
                        rw (climb, e, r, rest) refl)
                ]
        ]
      ]
