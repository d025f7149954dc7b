-- ===== src/Runtime/EnergyProducer/Shares.antt =====
-- The shares of a tick add up: the allocations of `produce_tick` in
-- crates/punkgo-kernel/src/runtime/energy_producer.rs, with the remainder handed out.
use punkgo_kernel.Prelude.{
  ℕ, zero, suc, ◌+◌, ◌%◌, ◌<◌, ◌≡◌, ◌∙◌, refl, ap, false, List, [], ◌∷◌, String, length, All, arith,
}
use punkgo_kernel.Prelude.Int
use punkgo_kernel.Prelude.Int.{
  ℤ, pos, negsuc, pos_part, ◌+ℤ◌, ◌-ℤ◌, ◌≤ℤ◌, ◌<ℤ◌, leb_ℤ, wrap_i64, wrap_i64_id, i64_mod, int_laws,
}
use punkgo_kernel.Core.Json.{F64}
use punkgo_kernel.Runtime.EnergyProducer.{
  Floats, Allocations, allocate, add_up, bump, distribute, allocations_of, is_empty_list,
}

-- The sum of the allocations, and that none is a debt.
abbrev pub sum_of : Allocations → ℤ
sum_of [] = pos 0
sum_of (a ∷ as_) = a.1 +ℤ sum_of as_

abbrev pub HasNoDebt : Allocations → Type 0
HasNoDebt = All (λ a. pos 0 ≤ℤ a.1)

pub sum_of-nonneg : (as_ : Allocations) → HasNoDebt as_ → pos 0 ≤ℤ sum_of as_
sum_of-nonneg [] h = omega arith
sum_of-nonneg (a ∷ as_) h = omega (int_laws, h.0, sum_of-nonneg as_ h.1)

pub small_id : (a : ℤ) → pos 0 ≤ℤ a → a <ℤ pos i64_mod → wrap_i64 a ≡ a
small_id a nonneg small =
    wrap_i64_id a (record { low = ground (arith, nonneg); high = ground (arith, small) })

nonneg_pos : (a : ℤ) → pos 0 ≤ℤ a → pos (pos_part a) ≡ a
nonneg_pos (pos n) h = refl
nonneg_pos (negsuc n) h = absurd (omega (arith, h))

add_up-sum_of :
    (as_ : Allocations) (acc : ℤ)
    → HasNoDebt as_
    → pos 0 ≤ℤ acc
    → acc +ℤ sum_of as_ <ℤ pos i64_mod
    → add_up as_ acc ≡ acc +ℤ sum_of as_
unfolding add_up
add_up-sum_of [] acc h n fits = omega int_laws
add_up-sum_of (a ∷ as_) acc h n fits =
    let rest = sum_of-nonneg as_ h.1 in
    let step =
      small_id (acc +ℤ a.1) (omega (int_laws, h.0, n)) (omega (int_laws, h.0, n, rest, fits)) in
    rw step (
      add_up-sum_of as_ (acc +ℤ a.1) h.1 (omega (int_laws, h.0, n)) (omega (int_laws, fits))
      ∙ Int.+ℤ_assoc acc a.1 (sum_of as_))

-- One unit more for one of the allocations.
record Bumped (as_ bumped : Allocations) : Type 0 where
  more : sum_of bumped ≡ sum_of as_ +ℤ pos 1
  paying : HasNoDebt bumped
  long : length bumped ≡ length as_

bump-Bumped :
    (idx : ℕ) (as_ : Allocations)
    → idx < length as_
    → HasNoDebt as_
    → sum_of as_ +ℤ pos 1 <ℤ pos i64_mod
    → Bumped as_ (bump idx as_)
unfolding bump
bump-Bumped idx [] inside h fits = absurd (omega arith)
bump-Bumped zero (a ∷ as_) inside h fits =
    let rest = sum_of-nonneg as_ h.1 in
    let step =
      small_id (a.1 +ℤ pos 1) (omega (int_laws, h.0)) (omega (int_laws, h.0, rest, fits)) in
    rw step record { more = omega int_laws; paying = (omega (int_laws, h.0), h.1); long = refl }
bump-Bumped (suc idx) (a ∷ as_) inside h fits =
    let b = bump-Bumped idx as_ (omega (arith, inside)) h.1 (omega (int_laws, h.0, fits)) in
    record {
      more = omega (int_laws, Int.parts_of_eq (sum_of (bump idx as_)) (sum_of as_ +ℤ pos 1) b.more);
      paying = (h.0, b.paying);
      long = ap suc b.long;
    }

mod_lt : (a n : ℕ) → 0 < n → a % n < n
mod_lt a n h = grind arith

distribute-Bumped :
    (remainder idx : ℕ) (as_ : Allocations)
    → idx < length as_
    → HasNoDebt as_
    → sum_of as_ +ℤ pos remainder <ℤ pos i64_mod
    → (sum_of (distribute remainder idx as_) ≡ sum_of as_ +ℤ pos remainder)
      × HasNoDebt (distribute remainder idx as_)
unfolding distribute
distribute-Bumped zero idx as_ inside h fits = (omega int_laws, h)
distribute-Bumped (suc remainder) idx as_ inside h fits =
    let b = bump-Bumped idx as_ inside h (omega (int_laws, fits)) in
    let more = Int.parts_of_eq (sum_of (bump idx as_)) (sum_of as_ +ℤ pos 1) b.more in
    let next =
      distribute-Bumped remainder ((idx + 1) % length as_) (bump idx as_)
        (rw b.long (mod_lt (idx + 1) (length as_) (omega (arith, inside)))) b.paying
        (omega (int_laws, more, fits)) in
    let last = distribute remainder ((idx + 1) % length as_) (bump idx as_) in
    (
      omega (
        int_laws,
        more,
        Int.parts_of_eq (sum_of last) (sum_of (bump idx as_) +ℤ pos remainder) next.0,
      ),
      next.1,
    )

length-allocate :
    (fl : Floats) (energy : ℤ) (total_shares : F64) (shares : List (String × F64))
    → is_empty_list shares ≡ false
    → 0 < length (allocate fl energy total_shares shares)
unfolding allocate
length-allocate fl energy total_shares [] h = cc
length-allocate fl energy total_shares (s ∷ ss) h = omega arith

-- The allocations add up to the energy of the tick.
pub allocations_of-exact :
    (fl : Floats) (energy : ℤ) (total_shares : F64) (shares : List (String × F64))
    → is_empty_list shares ≡ false
    → HasNoDebt (allocate fl energy total_shares shares)
    → sum_of (allocate fl energy total_shares shares) ≤ℤ energy
    → energy <ℤ pos i64_mod
    → (sum_of (allocations_of fl energy total_shares shares) ≡ energy)
      × HasNoDebt (allocations_of fl energy total_shares shares)
unfolding allocations_of
allocations_of-exact fl energy total_shares shares some_ paying below small =
    let as_ = allocate fl energy total_shares shares in
    let lower = sum_of-nonneg as_ paying in
    let added = add_up-sum_of as_ (pos 0) paying (omega arith) (omega (int_laws, below, small)) in
    let summed : add_up as_ (pos 0) ≡ sum_of as_ = added ∙ omega int_laws in
    let left =
      small_id (energy -ℤ sum_of as_) (omega (int_laws, below)) (omega (int_laws, lower, small)) in
    let rest = energy -ℤ sum_of as_ in
    let whole = nonneg_pos rest (omega (int_laws, below)) in
    let d =
      distribute-Bumped (pos_part rest) 0 as_ (length-allocate fl energy total_shares shares some_)
        paying (rw whole (omega (int_laws, small))) in
    rw (summed, left) (d.0 ∙ rw whole (omega int_laws), d.1)
