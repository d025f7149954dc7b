-- ===== src/Runtime/Evolution/Transactions.antt =====
-- Each transaction of crates/punkgo-kernel/src/runtime/kernel.rs, as a change of the tables.
use punkgo_kernel.Prelude.{
  ℕ, ◌≡◌, sym, ap, Bool, true, false, Option, none, some, List, [], ◌∷◌, ◌++◌, String, any, arith,
  Bool-cases, inl, inr, ◌==◌,
}
use punkgo_kernel.Prelude.Int.{ℤ, pos, ◌<ℤ◌, ltb_ℤ, i64_mod}
use punkgo_kernel.Prelude.Table.Kept.{Kept, Kept-refl, Kept-append}
use punkgo_kernel.Core.Errors.{ok, raise_if, chain-ok, ok-inj}
use punkgo_kernel.Core.Actor.{CreateActorSpec}
use punkgo_kernel.Core.Consent.{EnvelopeSpec}
use punkgo_kernel.State.Ledger.{EnergyLedger, EnergyReservation, create_actor_in_tx}
use punkgo_kernel.State.Ledger.Invariant.{IsSound}
use punkgo_kernel.State.Ledger.Preserve.{
  reserve_in_tx-IsSound, settle_in_tx-IsSound, create_actor_in_tx-IsSound,
}
use punkgo_kernel.State.EventLog.{
  EventRecord, Hashing, compute_event_hash, next_idx, assign_and_insert,
}
use punkgo_kernel.State.EventLog.Append.{IsIndexed, assign_and_insert-Appended}
use punkgo_kernel.State.ActorStore
use punkgo_kernel.State.ActorStore.{ActorTable, actor_key, new_actor}
use punkgo_kernel.State.EnvelopeStore
use punkgo_kernel.State.EnvelopeStore.{
  EnvelopeTable, envelope_key, new_envelope, HoldRequest, NewHoldRequest, create_hold_request_in_tx,
  resolve_hold_request_in_tx,
}
use punkgo_kernel.State.EnvelopeStore.Holds.{stop, step, created, resolved}
use punkgo_kernel.State.AuditLog.{append_leaf_in_tx}
use punkgo_kernel.Runtime.Commit.{
  Db, settle_if, create_actor_if, create_envelope_if, finalize_energy_and_event,
}
use punkgo_kernel.Runtime.Commit.Keeps.{finalize-Steps}
use punkgo_kernel.Runtime.World.{Externals}
use punkgo_kernel.Runtime.Holds.{reserve_if, settle_when, trigger_tx, resolve_tx}
use punkgo_kernel.Runtime.Evolution.{
  SameActor, SameActor-refl, SameGrant, SameGrant-refl, Extends, Evolves,
}

module _ {V : Type 0} (hashing : Hashing) (event : EventRecord V) (events : List (EventRecord V))
    (r : EventRecord V × List (EventRecord V))
    (h : assign_and_insert hashing event events ≡ ok r) where
  pub assign_and_insert-Extends : Extends events r.1
  unfolding assign_and_insert
  assign_and_insert-Extends =
      let (event_hash, a, h1) =
        chain-ok (compute_event_hash hashing (record event { log_index = next_idx events })) _ h in
      let (u, b, h2) = chain-ok (raise_if (any (λ e. e.id == event.id) events) _) _ h1 in
      record {
        new = record event { log_index = next_idx events; event_hash = event_hash } ∷ [];
        extended = sym (ap (λ (p : EventRecord V × List (EventRecord V)). p.1) (ok-inj h2));
      }

  pub assign_and_insert-IsIndexed : IsIndexed 0 events → IsIndexed 0 r.1
  assign_and_insert-IsIndexed indexed =
      (assign_and_insert-Appended hashing event events r.0 r.1 indexed h).3

reserve_if-IsSound :
    (k : String) (cost : ℤ) (now : ℕ) (ledger ledger' : EnergyLedger)
    → reserve_if k cost now ledger ≡ ok ledger'
    → IsSound ledger
    → IsSound ledger'
unfolding reserve_if
reserve_if-IsSound k cost now ledger ledger' h sound = elim (Bool-cases (ltb_ℤ (pos 0) cost)) [
  | inl e ↦ reserve_in_tx-IsSound ledger sound k now cost ledger' (rw e at h)
  | inr e ↦ (let same : ledger ≡ ledger' = ok-inj (rw e at h) in rw (← same) sound)
]

settle_when-IsSound :
    (b : Bool) (k : String) (rc cost : ℤ) (now : ℕ) (ledger ledger' : EnergyLedger)
    → cost <ℤ pos i64_mod
    → settle_when b k rc cost now ledger ≡ ok ledger'
    → IsSound ledger
    → IsSound ledger'
unfolding settle_when
settle_when-IsSound true k rc cost now ledger ledger' small h sound =
    settle_in_tx-IsSound ledger sound k now rc cost ledger' small h
settle_when-IsSound false k rc cost now ledger ledger' small h sound =
    let same : ledger ≡ ledger' = ok-inj h in rw (← same) sound

module _ {V : Type 0} (x : Externals V) (now : ℕ) where
  pub trigger_tx-Evolves :
      (agent_id : String) (cost : ℤ) (event : EventRecord V) (req : NewHoldRequest V) (db : Db V)
      (r : EventRecord V × Db V)
      → trigger_tx x now agent_id cost event req db ≡ ok r
      → Evolves db r.1
  unfolding trigger_tx
  trigger_tx-Evolves agent_id cost event req db r h =
      let (ledger, a, h1) = chain-ok (reserve_if agent_id cost now db.ledger) _ h in
      let (appended, b, h2) = chain-ok (assign_and_insert x.hashing event db.events) _ h1 in
      let (holds, c, h3) =
        chain-ok (create_hold_request_in_tx req now db.envelopes db.holds) _ h2 in
      let (hashes, d, h4) =
        chain-ok
          (append_leaf_in_tx x.tlog appended.0.log_index appended.0.event_hash db.audit_hashes) _
          h3 in
      rw (← ok-inj h4) record {
        logged = assign_and_insert-Extends x.hashing event db.events appended b;
        indexed = assign_and_insert-IsIndexed x.hashing event db.events appended b;
        sound = reserve_if-IsSound agent_id cost now db.ledger ledger a;
        decided = step (created req now db.envelopes c) stop;
        actors = Kept-refl actor_key SameActor SameActor-refl db.actors;
        envelopes = Kept-refl envelope_key SameGrant SameGrant-refl db.envelopes;
      }

  pub resolve_tx-Evolves :
      (hold_id decision : String) (instruction : Option String) (settles : Bool) (agent_id : String)
      (reserved_cost cost : ℤ) (event : EventRecord V) (db : Db V) (r : EventRecord V × Db V)
      → cost <ℤ pos i64_mod
      → resolve_tx x now hold_id decision instruction settles agent_id reserved_cost cost event db
        ≡ ok r
      → Evolves db r.1
  unfolding resolve_tx
  resolve_tx-Evolves hold_id decision instruction settles agent_id reserved_cost cost event db r
        small h =
      let (holds, a, h1) =
        chain-ok (resolve_hold_request_in_tx hold_id decision instruction now db.holds) _ h in
      let (ledger, b, h2) =
        chain-ok (settle_when settles agent_id reserved_cost cost now db.ledger) _ h1 in
      let (appended, c, h3) = chain-ok (assign_and_insert x.hashing event db.events) _ h2 in
      let (hashes, d, h4) =
        chain-ok
          (append_leaf_in_tx x.tlog appended.0.log_index appended.0.event_hash db.audit_hashes) _
          h3 in
      rw (← ok-inj h4) record {
        logged = assign_and_insert-Extends x.hashing event db.events appended c;
        indexed = assign_and_insert-IsIndexed x.hashing event db.events appended c;
        sound =
            settle_when-IsSound settles agent_id reserved_cost cost now db.ledger ledger small b;
        decided = step (resolved hold_id decision instruction now a) stop;
        actors = Kept-refl actor_key SameActor SameActor-refl db.actors;
        envelopes = Kept-refl envelope_key SameGrant SameGrant-refl db.envelopes;
      }

settle_if-IsSound :
    (reservation : Option EnergyReservation) (cost : ℤ) (now : ℕ) (ledger ledger' : EnergyLedger)
    → cost <ℤ pos i64_mod
    → settle_if reservation cost now ledger ≡ ok ledger'
    → IsSound ledger
    → IsSound ledger'
unfolding settle_if
settle_if-IsSound none cost now ledger ledger' small h sound =
    let same : ledger ≡ ledger' = ok-inj h in rw (← same) sound
settle_if-IsSound (some res) cost now ledger ledger' small h sound =
    settle_in_tx-IsSound ledger sound res.actor_id now res.reserved cost ledger' small h

-- The balance of a new actor is an `i64`.
abbrev pub FitsSpec : Option CreateActorSpec → Type 0
FitsSpec none = Unit
FitsSpec (some spec) = spec.energy_balance <ℤ pos i64_mod

create_in_tx-Kept :
    (spec : CreateActorSpec) (now : ℕ) (actors actors' : ActorTable)
    → ActorStore.create_in_tx spec now actors ≡ ok actors'
    → Kept actor_key SameActor actors actors'
unfolding ActorStore.create_in_tx
create_in_tx-Kept spec now actors actors' h =
    let result : actors' ≡ actors ++ new_actor now spec ∷ [] = ground arith in
    rw result (Kept-append actor_key SameActor SameActor-refl actors (new_actor now spec ∷ []))

create_envelope-Kept :
    (now : ℕ) (id : String) (spec : EnvelopeSpec) (parent : Option String)
    (envelopes envelopes' : EnvelopeTable)
    → EnvelopeStore.create_in_tx now id spec parent envelopes ≡ ok envelopes'
    → Kept envelope_key SameGrant envelopes envelopes'
unfolding EnvelopeStore.create_in_tx
create_envelope-Kept now id spec parent envelopes envelopes' h =
    let made = new_envelope now id spec parent in
    let result : envelopes' ≡ envelopes ++ made ∷ [] = ground arith in
    rw result (Kept-append envelope_key SameGrant SameGrant-refl envelopes (made ∷ []))

create_actor_if-keeps :
    (create : Option CreateActorSpec) (now : ℕ) (ledger : EnergyLedger) (actors : ActorTable)
    (r : EnergyLedger × ActorTable)
    → FitsSpec create
    → create_actor_if create now ledger actors ≡ ok r
    → (IsSound ledger → IsSound r.0) × Kept actor_key SameActor actors r.1
unfolding create_actor_if
create_actor_if-keeps none now ledger actors r fits h =
    rw (← ok-inj h) (λ sound. sound, Kept-refl actor_key SameActor SameActor-refl actors)
create_actor_if-keeps (some spec) now ledger actors r fits h =
    let (ledger', a, h1) =
      chain-ok (create_actor_in_tx spec.actor_id spec.energy_balance now ledger) _ h in
    let (actors', b, h2) = chain-ok (ActorStore.create_in_tx spec now actors) _ h1 in
    rw (← ok-inj h2) (
      λ sound.
          create_actor_in_tx-IsSound ledger sound spec.actor_id now spec.energy_balance ledger' fits
            a,
      create_in_tx-Kept spec now actors actors' b,
    )

create_envelope_if-Kept :
    (create : Option (String × EnvelopeSpec × Option String)) (now : ℕ)
    (envelopes envelopes' : EnvelopeTable)
    → create_envelope_if create now envelopes ≡ ok envelopes'
    → Kept envelope_key SameGrant envelopes envelopes'
unfolding create_envelope_if
create_envelope_if-Kept none now envelopes envelopes' h =
    rw (← ok-inj h) (Kept-refl envelope_key SameGrant SameGrant-refl envelopes)
create_envelope_if-Kept (some (id, spec, parent)) now envelopes envelopes' h =
    create_envelope-Kept now id spec parent envelopes envelopes' h

module _ {V : Type 0} (x : Externals V) (now : ℕ) where
  pub finalize-Evolves :
      (reservation : Option EnergyReservation) (cost : ℤ) (create_actor : Option CreateActorSpec)
      (create_envelope : Option (String × EnvelopeSpec × Option String)) (event : EventRecord V)
      (db : Db V) (r : EventRecord V × Db V)
      → cost <ℤ pos i64_mod
      → FitsSpec create_actor
      → finalize_energy_and_event x.hashing x.tlog reservation cost create_actor create_envelope
          event now db
        ≡ ok r
      → Evolves db r.1
  finalize-Evolves reservation cost create_actor create_envelope event db r small fits h =
      let s =
        finalize-Steps x.hashing x.tlog reservation cost create_actor create_envelope event now db
          r.0 r.1 h in
      let made =
        create_actor_if-keeps create_actor now s.settled db.actors (r.1.ledger, r.1.actors) fits
          s.creating in
      record {
        logged = assign_and_insert-Extends x.hashing event db.events (r.0, r.1.events) s.appending;
        indexed =
            assign_and_insert-IsIndexed x.hashing event db.events (r.0, r.1.events) s.appending;
        sound = λ sound.
            made.0
              (settle_if-IsSound reservation cost now db.ledger s.settled small s.settling sound);
        decided = rw s.holding stop;
        actors = made.1;
        envelopes =
            create_envelope_if-Kept create_envelope now db.envelopes r.1.envelopes s.granting;
      }
