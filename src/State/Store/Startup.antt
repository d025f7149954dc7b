-- ===== src/State/Store/Startup.antt =====
-- What the checks at startup demand: `run_startup_integrity_checks` of
-- crates/punkgo-kernel/src/state/store.rs.
use punkgo_kernel.Prelude.{
  ◌≡◌, ◌↔◌, refl, Bool, true, false, ◌||◌, List, [], ◌∷◌, String, any, All, All-imp, ◌==◌, arith,
  Bool-cases, inl, inr,
}
use punkgo_kernel.Prelude.Int.{pos, ◌≤ℤ◌, ◌<ℤ◌}
use punkgo_kernel.Core.Errors.{ok, raise_if-eq-ok}
use punkgo_kernel.Core.Boundary.Access.{Some, any-eq_iff}
use punkgo_kernel.State.Ledger.{EnergyRow, EnergyLedger}
use punkgo_kernel.State.EventLog.{EventRecord}
use punkgo_kernel.State.Store.{
  violates, action_types, invalid_action, invalid_energy_event, run_startup_integrity_checks,
}

any-false :
    {A : Type 0} (p : A → Bool) (xs : List A) → (any p xs ≡ false) ↔ All (λ a. p a ≡ false) xs
any-false p xs = (to xs, from xs)
  where
    to : (ys : List _) → any p ys ≡ false → All (λ a. p a ≡ false) ys
    to [] h = tt
    to (y ∷ ys) h = (ground (arith, h), to ys (ground (arith, h)))

    from : (ys : List _) → All (λ a. p a ≡ false) ys → any p ys ≡ false
    from [] h = refl
    from (y ∷ ys) h = ground (arith, h.0, from ys h.1)

-- An account that reserves no debt and no more than its balance.
pub record IsAccount (r : EnergyRow) : Type 0 where
  pub reserved_nonneg : pos 0 ≤ℤ r.reserved_energy
  pub covered : r.reserved_energy ≤ℤ r.energy_balance

violates_iff : (r : EnergyRow) → (violates r ≡ false) ↔ IsAccount r
violates_iff r = (
  λ h. record { reserved_nonneg = ground (arith, h); covered = ground (arith, h) },
  λ a. ground (arith, a.reserved_nonneg, a.covered),
)

abbrev pub is_paid_type : String → Bool
is_paid_type t = t == "mutate" || t == "execute"

-- The types that an event may have: the actions, the breaking of a circuit, and those of holds.
abbrev pub known_types : List String
known_types =
    "observe" ∷ "create" ∷ "mutate" ∷ "execute" ∷ "circuit_breaker" ∷ "hold_request"
    ∷ "hold_response" ∷ "hold_timeout" ∷ []

known_iff : (t : String) → (any (λ k. k == t) action_types ≡ true) ↔ Some (λ k. k ≡ t) known_types
known_iff t = any-eq_iff t action_types

module _ {V : Type 0} where
  -- An event of a known type with no negative energy, and with some where an actor changed state.
  pub record IsRecorded (e : EventRecord V) : Type 0 where
    pub known : Some (λ t. t ≡ e.action_type) known_types
    pub reserved_nonneg : pos 0 ≤ℤ e.reserved_energy
    pub settled_nonneg : pos 0 ≤ℤ e.settled_energy
    pub reserved_pos : is_paid_type e.action_type ≡ true → pos 0 <ℤ e.reserved_energy
    pub settled_pos : is_paid_type e.action_type ≡ true → pos 0 <ℤ e.settled_energy

  IsRecorded-of :
      (e : EventRecord V) → invalid_action e ≡ false → invalid_energy_event e ≡ false → IsRecorded e
  IsRecorded-of e a b = record {
    known = (known_iff e.action_type).0 (ground (arith, a));
    reserved_nonneg = ground (arith, b);
    settled_nonneg = ground (arith, b);
    reserved_pos = λ paid. ground (arith, b, paid);
    settled_pos = λ paid. ground (arith, b, paid);
  }

  invalid_of :
      (e : EventRecord V)
      → IsRecorded e
      → (invalid_action e ≡ false) × (invalid_energy_event e ≡ false)
  invalid_of e r = elim (Bool-cases (is_paid_type e.action_type)) [
    | inl p ↦ (
      rw ((known_iff e.action_type).1 r.known) refl,
      ground (arith, p, r.reserved_pos p, r.settled_pos p, r.reserved_nonneg, r.settled_nonneg),
    )
    | inr p ↦ (
      rw ((known_iff e.action_type).1 r.known) refl,
      ground (arith, p, r.reserved_nonneg, r.settled_nonneg),
    )
  ]

  IsRecorded-All :
      (es : List (EventRecord V))
      → All (λ e. invalid_action e ≡ false) es
      → All (λ e. invalid_energy_event e ≡ false) es
      → All IsRecorded es
  IsRecorded-All [] a b = tt
  IsRecorded-All (e ∷ es) a b = (IsRecorded-of e a.0 b.0, IsRecorded-All es a.1 b.1)

  -- The integrity checks at startup pass exactly if every account reserves no debt and no more than its
  -- balance, and every event has one of the types observe, create, mutate, execute, circuit_breaker,
  -- hold_request, hold_response and hold_timeout, no negative energy, and positive energy where it is a
  -- mutation or an execution.
  pub run_startup_integrity_checks_iff :
      (ledger : EnergyLedger) (events : List (EventRecord V))
      → (run_startup_integrity_checks ledger events ≡ ok tt)
        ↔ (All IsAccount ledger × All IsRecorded events)
  unfolding run_startup_integrity_checks
  run_startup_integrity_checks_iff ledger events =
      let (ledger_to, ledger_from) = any-false violates ledger in
      let (action_to, action_from) = any-false invalid_action events in
      let (energy_to, energy_from) = any-false invalid_energy_event events in
      (
        λ h.
            let (a, h1) = raise_if-eq-ok _ _ _ h in
            let (b, h2) = raise_if-eq-ok _ _ _ h1 in
            let (c, h3) = raise_if-eq-ok _ _ _ h2 in
            (
              All-imp (λ r. violates r ≡ false) IsAccount ledger (λ r. (violates_iff r).0)
                  (ledger_to a),
              IsRecorded-All events (action_to b) (energy_to c),
            ),
        λ p.
            rw
              (
                ledger_from (
                    All-imp IsAccount (λ r. violates r ≡ false) ledger (λ r. (violates_iff r).1)
                      p.0),
                action_from (
                    All-imp IsRecorded (λ e. invalid_action e ≡ false) events
                      (λ e r. (invalid_of e r).0) p.1),
                energy_from (
                    All-imp IsRecorded (λ e. invalid_energy_event e ≡ false) events
                      (λ e r. (invalid_of e r).1) p.1),
              )
              refl,
      )
