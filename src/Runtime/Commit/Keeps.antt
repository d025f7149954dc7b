-- ===== src/Runtime/Commit/Keeps.antt =====
-- What a commit keeps: `finalize_energy_and_event` of crates/punkgo-kernel/src/runtime/kernel.rs.
use punkgo_kernel.Prelude.{ℕ, ◌≡◌, ◌∙◌, sym, ap, Option, none, some, List, String, arith, inl, inr}
use mathlib.Core.Path.{subst}
use punkgo_kernel.Prelude.Int
use punkgo_kernel.Prelude.Int.{ℤ, pos, pos_part, ◌+ℤ◌, ◌-ℤ◌, ◌≤ℤ◌, ◌<ℤ◌, i64_mod, int_laws}
use punkgo_kernel.Core.Errors.{ok, Result-cases}
use punkgo_kernel.Core.Actor.{CreateActorSpec}
use punkgo_kernel.Core.Consent.{EnvelopeSpec}
use punkgo_kernel.State.Ledger.{EnergyLedger, EnergyReservation, create_actor_in_tx}
use punkgo_kernel.State.Ledger.Invariant.{IsSound}
use punkgo_kernel.State.Ledger.Steps.{settle, seed, post, total, post-Conserves}
use punkgo_kernel.State.EventLog.{EventRecord, Hashing, assign_and_insert}
use punkgo_kernel.State.EventLog.Append.{IsIndexed, Appended, assign_and_insert-Appended}
use punkgo_kernel.State.ActorStore
use punkgo_kernel.State.ActorStore.{ActorTable}
use punkgo_kernel.State.EnvelopeStore.{EnvelopeTable}
use punkgo_kernel.State.EnvelopeStore.Budget.{IsFundedTable, create_in_tx-IsFundedTable}
use punkgo_kernel.State.AuditLog.{Tlog, HashTable, append_leaf_in_tx}
use punkgo_kernel.Runtime.Commit.{
  Db, settle_if, create_actor_if, create_envelope_if, finalize_energy_and_event,
}

-- What a commit pays, and the energy of the actor that it creates.
abbrev pub paid : Option EnergyReservation → ℤ → ℤ
paid none settled_cost = pos 0
paid (some res) settled_cost = settled_cost

abbrev pub seeded : Option CreateActorSpec → ℤ
seeded none = pos 0
seeded (some spec) = spec.energy_balance

-- The numbers of a request are `i64`s, and the budget of a new envelope is no debt.
abbrev pub FitsReservation : Option EnergyReservation → Type 0
FitsReservation none = Unit
FitsReservation (some res) = res.reserved <ℤ pos i64_mod

abbrev pub FitsEnvelope : Option (String × EnvelopeSpec × Option String) → Type 0
FitsEnvelope none = Unit
FitsEnvelope (some (id, spec, parent)) = (pos 0 ≤ℤ spec.budget) × (spec.budget <ℤ pos i64_mod)

settle_if-keeps :
    (reservation : Option EnergyReservation) (cost : ℤ) (now : ℕ) (ledger ledger' : EnergyLedger)
    → FitsReservation reservation
    → cost <ℤ pos i64_mod
    → IsSound ledger
    → total ledger <ℤ pos i64_mod
    → settle_if reservation cost now ledger ≡ ok ledger'
    → IsSound ledger'
      × (total ledger' +ℤ paid reservation cost ≡ total ledger)
      × (pos 0 ≤ℤ paid reservation cost)
unfolding settle_if post
settle_if-keeps none cost now ledger ledger' f small sound fits h =
    let same : ledger ≡ ledger' = cc in rw (← same) (sound, omega int_laws, omega arith)
settle_if-keeps (some res) cost now ledger ledger' f small sound fits h =
    let (sound', moved, out) =
      post-Conserves (settle res.actor_id res.reserved cost now) ledger ledger' (f, small) sound
        (omega (int_laws, fits)) h in
    (
      sound',
      omega (int_laws, Int.parts_of_eq (total ledger' +ℤ cost) (total ledger +ℤ pos 0) moved),
      out,
    )

create_actor_if-keeps :
    (create : Option CreateActorSpec) (now : ℕ) (ledger : EnergyLedger) (actors : ActorTable)
    (r : EnergyLedger × ActorTable)
    → IsSound ledger
    → total ledger +ℤ pos (pos_part (seeded create)) <ℤ pos i64_mod
    → seeded create <ℤ pos i64_mod
    → create_actor_if create now ledger actors ≡ ok r
    → IsSound r.0 × (total r.0 ≡ total ledger +ℤ seeded create)
unfolding create_actor_if post
create_actor_if-keeps none now ledger actors r sound fits small h =
    let same : (ledger, actors) ≡ r = cc in rw (← same) (sound, omega int_laws)
create_actor_if-keeps (some spec) now ledger actors r sound fits small h =
    elim (Result-cases (create_actor_in_tx spec.actor_id spec.energy_balance now ledger)) [
      | inl (x, e) ↦ ground (arith, h, e)
      | inr (ledger', e) ↦ elim (Result-cases (ActorStore.create_in_tx spec now actors)) [
        | inl (x, c) ↦ ground (arith, h, e, c)
        | inr (actors', c) ↦
            (let same : (ledger', actors') ≡ r = ground (arith, h, e, c) in
              let (sound', moved, _) =
                post-Conserves (seed spec.actor_id spec.energy_balance now) ledger ledger' small
                  sound fits e in
              rw (← same) (
                sound',
                omega (
                  int_laws,
                  Int.parts_of_eq (total ledger' +ℤ pos 0) (total ledger +ℤ spec.energy_balance)
                      moved,
                ),
              ))
      ]
    ]

create_envelope_if-keeps :
    (create : Option (String × EnvelopeSpec × Option String)) (now : ℕ)
    (envelopes envelopes' : EnvelopeTable)
    → FitsEnvelope create
    → IsFundedTable envelopes
    → create_envelope_if create now envelopes ≡ ok envelopes'
    → IsFundedTable envelopes'
unfolding create_envelope_if
create_envelope_if-keeps none now envelopes envelopes' f funded h =
    let same : envelopes ≡ envelopes' = cc in rw (← same) funded
create_envelope_if-keeps (some (id, spec, parent)) now envelopes envelopes' f funded h =
    create_in_tx-IsFundedTable envelopes funded now id spec parent envelopes' h f.0 f.1

module _ {V : Type 0} (hashing : Hashing) (t : Tlog) where
  -- A consistent state: the accounts solvent, the log without gaps, the envelopes funded.
  pub record IsConsistent (db : Db V) : Type 0 where
    pub sound : IsSound db.ledger
    pub indexed : IsIndexed 0 db.events
    pub funded : IsFundedTable db.envelopes

  -- The steps of a commit that succeeded.
  pub record Steps (reservation : Option EnergyReservation) (cost : ℤ)
      (create_actor : Option CreateActorSpec)
      (create_envelope : Option (String × EnvelopeSpec × Option String)) (event : EventRecord V)
      (now : ℕ) (db : Db V) (e : EventRecord V) (db' : Db V) : Type 0 where
    pub settled : EnergyLedger
    pub settling : settle_if reservation cost now db.ledger ≡ ok settled
    pub creating : create_actor_if create_actor now settled db.actors ≡ ok (db'.ledger, db'.actors)
    pub granting : create_envelope_if create_envelope now db.envelopes ≡ ok db'.envelopes
    pub appending : assign_and_insert hashing event db.events ≡ ok (e, db'.events)
    pub hanging : append_leaf_in_tx t e.log_index e.event_hash db.audit_hashes ≡ ok db'.audit_hashes
    pub holding : db'.holds ≡ db.holds

  module _ (reservation : Option EnergyReservation) (cost : ℤ)
      (create_actor : Option CreateActorSpec)
      (create_envelope : Option (String × EnvelopeSpec × Option String)) (event : EventRecord V)
      (now : ℕ) (db : Db V) (e : EventRecord V) (db' : Db V) where
    abbrev written :
        EventRecord V × List (EventRecord V)
        → EnergyLedger × ActorTable
        → EnvelopeTable
        → HashTable
        → EventRecord V × Db V
    written appended created envelopes hashes = (
      appended.0,
      record db {
        ledger = created.0;
        actors = created.1;
        envelopes = envelopes;
        events = appended.1;
        audit_hashes = hashes;
      },
    )

    pub finalize-Steps :
        finalize_energy_and_event hashing t reservation cost create_actor create_envelope event now
            db
          ≡ ok (e, db')
        → Steps reservation cost create_actor create_envelope event now db e db'
    unfolding finalize_energy_and_event
    finalize-Steps h = elim (Result-cases (settle_if reservation cost now db.ledger)) [
      | inl (x, a) ↦ ground (arith, h, a)
      | inr (settled, a) ↦
          elim (Result-cases (create_actor_if create_actor now settled db.actors)) [
            | inl (x, b) ↦ ground (arith, h, a, b)
            | inr (created, b) ↦
                elim (Result-cases (create_envelope_if create_envelope now db.envelopes)) [
                  | inl (x, c) ↦ ground (arith, h, a, b, c)
                  | inr (envelopes, c) ↦
                      elim (Result-cases (assign_and_insert hashing event db.events)) [
                        | inl (x, d) ↦ ground (arith, h, a, b, c, d)
                        | inr (appended, d) ↦
                            elim (Result-cases (
                              append_leaf_in_tx t appended.0.log_index appended.0.event_hash
                                db.audit_hashes)) [
                                  | inl (x, f) ↦ ground (arith, h, a, b, c, d, f)
                                  | inr (hashes, f) ↦
                                      (let run =
                                          rw (finalize_energy_and_event, a, b, c, d, f) at h in
                                        let same : written appended created envelopes hashes
                                            ≡ (e, db') =
                                          cc in
                                        record {
                                          settled = settled;
                                          settling = a;
                                          creating =
                                              b
                                              ∙ ap
                                                  (λ (p : EventRecord V × Db V).
                                                    ok (p.1.ledger, p.1.actors))
                                                  same;
                                          granting =
                                              c
                                              ∙ ap (λ (p : EventRecord V × Db V). ok p.1.envelopes)
                                                  same;
                                          appending =
                                              d
                                              ∙ ap
                                                  (λ (p : EventRecord V × Db V).
                                                    ok (p.0, p.1.events))
                                                  same;
                                          hanging =
                                              subst
                                                (λ (p : EventRecord V × Db V).
                                                  append_leaf_in_tx t p.0.log_index p.0.event_hash
                                                    db.audit_hashes
                                                  ≡ ok p.1.audit_hashes)
                                                same f;
                                          holding =
                                              sym
                                                (ap (λ (p : EventRecord V × Db V). p.1.holds) same);
                                        })
                                ]
                      ]
                ]
          ]
    ]

    -- A commit keeps the state consistent, if the numbers of the request are `i64`s and no more energy
    -- is handed out than an `i64` holds. Exactly the one event is appended, what it paid and what it
    -- seeded accounts for all the energy that left and entered, and no hold changes.
    pub finalize_energy_and_event-IsConsistent :
        IsConsistent db
        → FitsReservation reservation
        → cost <ℤ pos i64_mod
        → seeded create_actor <ℤ pos i64_mod
        → FitsEnvelope create_envelope
        → total db.ledger +ℤ pos (pos_part (seeded create_actor)) <ℤ pos i64_mod
        → finalize_energy_and_event hashing t reservation cost create_actor create_envelope event
            now db
          ≡ ok (e, db')
        → IsConsistent db'
          × Appended hashing event db.events e db'.events
          × (total db'.ledger +ℤ paid reservation cost ≡ total db.ledger +ℤ seeded create_actor)
          × (db'.holds ≡ db.holds)
    finalize_energy_and_event-IsConsistent ok_db fr small seed_small fe fits h =
        let s = finalize-Steps h in
        let (sound, moved, out) =
          settle_if-keeps reservation cost now db.ledger s.settled fr small ok_db.sound
            (omega (int_laws, fits)) s.settling in
        let less =
          Int.parts_of_eq (total s.settled +ℤ paid reservation cost) (total db.ledger) moved in
        let (sound', entered) =
          create_actor_if-keeps create_actor now s.settled db.actors (db'.ledger, db'.actors) sound
            (omega (int_laws, less, out, fits)) seed_small s.creating in
        let appended =
          assign_and_insert-Appended hashing event db.events e db'.events ok_db.indexed
            s.appending in
        (
          record {
            sound = sound';
            indexed = appended.3;
            funded =
                create_envelope_if-keeps create_envelope now db.envelopes db'.envelopes fe
                  ok_db.funded s.granting;
          },
          appended,
          omega (
            int_laws,
            less,
            Int.parts_of_eq (total db'.ledger) (total s.settled +ℤ seeded create_actor) entered,
          ),
          s.holding,
        )
