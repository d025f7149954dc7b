-- ===== src/Runtime/Evolution.antt =====
-- How the tables of the kernel of crates/punkgo-kernel/src/runtime/kernel.rs may change: the
-- relation between a state and a later one that every submission stays within.
pub mod Tables
pub mod Transactions
pub mod Rules
pub mod Submission
use punkgo_kernel.Prelude.{
  ℕ, ◌≡◌, ◌∙◌, refl, sym, ap, Bool, true, false, Option, List, [], ◌∷◌, ◌++◌, String,
}
use mathlib.Core.List.{append_assoc, append-nil}
use punkgo_kernel.Prelude.Int.{ℤ}
use punkgo_kernel.Prelude.Table.Kept.{Kept, Kept-refl, Kept-trans}
use punkgo_kernel.Core.Actor.{ActorRecord}
use punkgo_kernel.Core.Consent.{EnvelopeRecord, is_active}
use punkgo_kernel.State.Ledger.Invariant.{IsSound}
use punkgo_kernel.State.EventLog.{EventRecord}
use punkgo_kernel.State.EventLog.Append.{IsIndexed}
use punkgo_kernel.State.ActorStore.{actor_key}
use punkgo_kernel.State.EnvelopeStore.{envelope_key, HoldRequest}
use punkgo_kernel.State.EnvelopeStore.Holds.{HoldRun, stop, step}
use punkgo_kernel.Runtime.Commit.{Db}

-- All of an actor but its status and its share of the energy.
pub record SameActor (a b : ActorRecord) : Type 0 where
  pub actor_type : b.actor_type ≡ a.actor_type
  pub creator_id : b.creator_id ≡ a.creator_id
  pub lineage : b.lineage ≡ a.lineage
  pub writable_targets : b.writable_targets ≡ a.writable_targets

-- An envelope grants the same to the same actor, and one that has ended never becomes active again.
pub record SameGrant (a b : EnvelopeRecord) : Type 0 where
  pub actor_id : b.actor_id ≡ a.actor_id
  pub grantor_id : b.grantor_id ≡ a.grantor_id
  pub budget : b.budget ≡ a.budget
  pub targets : b.targets ≡ a.targets
  pub actions : b.actions ≡ a.actions
  pub hold_on : b.hold_on ≡ a.hold_on
  pub expires_at : b.expires_at ≡ a.expires_at
  pub ended : is_active a.status ≡ false → is_active b.status ≡ false

pub SameActor-refl : (a : ActorRecord) → SameActor a a
SameActor-refl a = record {
  actor_type = refl;
  creator_id = refl;
  lineage = refl;
  writable_targets = refl;
}

pub SameActor-trans : (a b c : ActorRecord) → SameActor a b → SameActor b c → SameActor a c
SameActor-trans a b c p q = record {
  actor_type = q.actor_type ∙ p.actor_type;
  creator_id = q.creator_id ∙ p.creator_id;
  lineage = q.lineage ∙ p.lineage;
  writable_targets = q.writable_targets ∙ p.writable_targets;
}

pub SameGrant-refl : (a : EnvelopeRecord) → SameGrant a a
SameGrant-refl a = record {
  actor_id = refl;
  grantor_id = refl;
  budget = refl;
  targets = refl;
  actions = refl;
  hold_on = refl;
  expires_at = refl;
  ended = λ h. h;
}

pub SameGrant-trans : (a b c : EnvelopeRecord) → SameGrant a b → SameGrant b c → SameGrant a c
SameGrant-trans a b c p q = record {
  actor_id = q.actor_id ∙ p.actor_id;
  grantor_id = q.grantor_id ∙ p.grantor_id;
  budget = q.budget ∙ p.budget;
  targets = q.targets ∙ p.targets;
  actions = q.actions ∙ p.actions;
  hold_on = q.hold_on ∙ p.hold_on;
  expires_at = q.expires_at ∙ p.expires_at;
  ended = λ h. q.ended (p.ended h);
}

module _ {V : Type 0} where
  -- The rows of the log are a prefix of the later ones.
  pub record Extends (events events' : List (EventRecord V)) : Type 0 where
    pub new : List (EventRecord V)
    pub extended : events' ≡ events ++ new

  pub HoldRun-trans :
      {last mid first : List (HoldRequest V)}
      → HoldRun mid first
      → HoldRun last mid
      → HoldRun last first
  HoldRun-trans stop q = q
  HoldRun-trans (step s p) q = step s (HoldRun-trans p q)

  pub record Evolves (db db' : Db V) : Type 0 where
    pub logged : Extends db.events db'.events
    pub indexed : IsIndexed 0 db.events → IsIndexed 0 db'.events
    pub sound : IsSound db.ledger → IsSound db'.ledger
    pub decided : HoldRun db'.holds db.holds
    pub actors : Kept actor_key SameActor db.actors db'.actors
    pub envelopes : Kept envelope_key SameGrant db.envelopes db'.envelopes

  pub Extends-refl : (events : List (EventRecord V)) → Extends events events
  Extends-refl events = record { new = []; extended = sym (append-nil events) }

  pub Evolves-refl : (db : Db V) → Evolves db db
  Evolves-refl db = record {
    logged = Extends-refl db.events;
    indexed = λ h. h;
    sound = λ h. h;
    decided = stop;
    actors = Kept-refl actor_key SameActor SameActor-refl db.actors;
    envelopes = Kept-refl envelope_key SameGrant SameGrant-refl db.envelopes;
  }

  Extends-trans : (xs ys zs : List (EventRecord V)) → Extends xs ys → Extends ys zs → Extends xs zs
  Extends-trans xs ys zs p q = record {
    new = p.new ++ q.new;
    extended = q.extended ∙ ap (λ es. es ++ q.new) p.extended ∙ append_assoc xs p.new q.new;
  }

  pub Evolves-trans : (a b c : Db V) → Evolves a b → Evolves b c → Evolves a c
  Evolves-trans a b c p q = record {
    logged = Extends-trans a.events b.events c.events p.logged q.logged;
    indexed = λ h. q.indexed (p.indexed h);
    sound = λ h. q.sound (p.sound h);
    decided = HoldRun-trans p.decided q.decided;
    actors =
        Kept-trans actor_key SameActor SameActor-trans a.actors b.actors c.actors p.actors q.actors;
    envelopes =
        Kept-trans envelope_key SameGrant SameGrant-trans a.envelopes b.envelopes c.envelopes
          p.envelopes q.envelopes;
  }
