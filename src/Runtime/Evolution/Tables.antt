-- ===== src/Runtime/Evolution/Tables.antt =====
-- The writes of crates/punkgo-kernel/src/runtime/kernel.rs to one table: what becomes of envelopes
-- when an action is let through and charged, and of actors when one is frozen or unfrozen.
use punkgo_kernel.Prelude.{
  ℕ, ◌≡◌, refl, ◌&&◌, Option, none, some, List, [], ◌∷◌, String, arith, Bool-cases, Option-cases,
  inl, inr,
}
use punkgo_kernel.Prelude.Int.{ℤ, pos, ltb_ℤ, wrap_i64, ◌+ℤ◌}
use punkgo_kernel.Prelude.Table.{update_row}
use punkgo_kernel.Prelude.Table.Kept.{Kept, Kept-refl, Kept-update_row, Kept-trans}
use punkgo_kernel.Core.Errors.{ok, ok_or, Result-cases, chain-ok, ok-inj}
use punkgo_kernel.Core.Json.{Json, F64}
use punkgo_kernel.Core.Action.{Action, ActionType, is_state_changing}
use punkgo_kernel.Core.Actor.{
  ActorRecord, ActorStatus, active, frozen, LifecycleOp, freeze, unfreeze, terminate,
  update_energy_share,
}
use punkgo_kernel.Core.Boundary.{GlobSet}
use punkgo_kernel.Core.Consent.{
  EnvelopeRecord, expired, report, halt, CheckpointLevel, check_checkpoint, is_envelope_expired,
}
use punkgo_kernel.State.ActorStore
use punkgo_kernel.State.ActorStore.{ActorTable, actor_key, set_status, set_share, list_descendants}
use punkgo_kernel.State.EnvelopeStore
use punkgo_kernel.State.EnvelopeStore.{
  EnvelopeTable, envelope_key, set_envelope_status, set_consumed, consume_budget_in_tx,
  get_active_for_actor,
}
use punkgo_kernel.Runtime.Lifecycle.{
  freeze_each, execute_freeze, execute_unfreeze, execute_update_energy_share,
}
use punkgo_kernel.Runtime.Admission.{drop_if_expired, authorize_with_envelope, check_actor, admit}
use punkgo_kernel.Runtime.Charge.{
  apply_checkpoint, charge_envelope, is_agent_row, charge_after_commit,
}
use punkgo_kernel.Runtime.World.{Externals}
use punkgo_kernel.Runtime.Submit.{apply_lifecycle}
use punkgo_kernel.Runtime.Evolution.{
  SameActor, SameActor-refl, SameActor-trans, SameGrant, SameGrant-refl, SameGrant-trans,
}

abbrev KeptEnvelopes : EnvelopeTable → EnvelopeTable → Type 0
KeptEnvelopes = Kept envelope_key SameGrant

abbrev KeptActors : ActorTable → ActorTable → Type 0
KeptActors = Kept actor_key SameActor

same_envelopes : (envelopes : EnvelopeTable) → KeptEnvelopes envelopes envelopes
same_envelopes = Kept-refl envelope_key SameGrant SameGrant-refl

expire-Kept :
    (id : String) (now : ℕ) (envelopes envelopes' : EnvelopeTable)
    → EnvelopeStore.set_status_in_tx id expired now envelopes ≡ ok envelopes'
    → KeptEnvelopes envelopes envelopes'
unfolding EnvelopeStore.set_status_in_tx
expire-Kept id now envelopes envelopes' h =
    let f = set_envelope_status expired now in
    let result : envelopes' ≡ update_row envelope_key id f envelopes = ground arith in
    rw result (
      Kept-update_row envelope_key SameGrant SameGrant-refl id f envelopes (λ r. refl)
        (λ r. record {
          actor_id = refl;
          grantor_id = refl;
          budget = refl;
          targets = refl;
          actions = refl;
          hold_on = refl;
          expires_at = refl;
          ended = λ h. refl;
        }))

consume-Kept :
    (id : String) (amount : ℤ) (now : ℕ) (envelopes : EnvelopeTable) (r : ℤ × EnvelopeTable)
    → consume_budget_in_tx id amount now envelopes ≡ ok r
    → KeptEnvelopes envelopes r.1
unfolding consume_budget_in_tx
consume-Kept id amount now envelopes r h =
    let (row, a, h1) = chain-ok (ok_or (EnvelopeStore.get id envelopes) _) _ h in
    let f = set_consumed (wrap_i64 (row.budget_consumed +ℤ amount)) now in
    let result : r.1 ≡ update_row envelope_key id f envelopes = ground arith in
    rw result (
      Kept-update_row envelope_key SameGrant SameGrant-refl id f envelopes (λ r. refl)
        (λ r. record {
          actor_id = refl;
          grantor_id = refl;
          budget = refl;
          targets = refl;
          actions = refl;
          hold_on = refl;
          expires_at = refl;
          ended = λ h. h;
        }))

apply_checkpoint-Kept :
    (level : Option CheckpointLevel) (id : String) (now : ℕ) (envelopes envelopes' : EnvelopeTable)
    → apply_checkpoint level id now envelopes ≡ ok envelopes'
    → KeptEnvelopes envelopes envelopes'
unfolding apply_checkpoint
apply_checkpoint-Kept none id now envelopes envelopes' h =
    rw (← ok-inj h) (same_envelopes envelopes)
apply_checkpoint-Kept (some report) id now envelopes envelopes' h =
    rw (← ok-inj h) (same_envelopes envelopes)
apply_checkpoint-Kept (some halt) id now envelopes envelopes' h =
    expire-Kept id now envelopes envelopes' h

charge_envelope-Kept :
    (env : EnvelopeRecord) (cost : ℤ) (now : ℕ) (envelopes envelopes' : EnvelopeTable)
    → charge_envelope env cost now envelopes ≡ ok envelopes'
    → KeptEnvelopes envelopes envelopes'
unfolding charge_envelope
charge_envelope-Kept env cost now envelopes envelopes' h =
    elim (Result-cases (consume_budget_in_tx env.envelope_id cost now envelopes)) [
      | inl (e, a) ↦ rw (← ok-inj (rw (charge_envelope, a) at h)) (same_envelopes envelopes)
      | inr (r, a) ↦
          Kept-trans envelope_key SameGrant SameGrant-trans envelopes r.1 envelopes'
            (consume-Kept env.envelope_id cost now envelopes r a)
            (apply_checkpoint-Kept (check_checkpoint env cost) env.envelope_id now r.1 envelopes'
              (rw (charge_envelope, a) at h))
    ]

pub charge_after_commit-Kept :
    (actors : ActorTable) (t : ActionType) (actor_id : String) (cost : ℤ) (now : ℕ)
    (envelopes envelopes' : EnvelopeTable)
    → charge_after_commit actors t actor_id cost now envelopes ≡ ok envelopes'
    → Kept envelope_key SameGrant envelopes envelopes'
unfolding charge_after_commit
charge_after_commit-Kept actors t actor_id cost now envelopes envelopes' h =
    elim (Bool-cases (
      is_state_changing t && ltb_ℤ (pos 0) cost && is_agent_row (ActorStore.get actor_id actors))) [
        | inr c ↦ rw (← ok-inj (rw c at h)) (same_envelopes envelopes)
        | inl c ↦ elim (Option-cases (get_active_for_actor actor_id envelopes)) [
          | inl e ↦ rw (← ok-inj (rw (c, e) at h)) (same_envelopes envelopes)
          | inr (env, e) ↦ charge_envelope-Kept env cost now envelopes envelopes' (rw (c, e) at h)
        ]
      ]

drop_if_expired-Kept :
    (env : Option EnvelopeRecord) (now : ℕ) (envelopes : EnvelopeTable)
    (r : Option EnvelopeRecord × EnvelopeTable)
    → drop_if_expired env now envelopes ≡ ok r
    → KeptEnvelopes envelopes r.1
unfolding drop_if_expired
drop_if_expired-Kept none now envelopes r h = rw (← ok-inj h) (same_envelopes envelopes)
drop_if_expired-Kept (some env) now envelopes r h =
    elim (Bool-cases (is_envelope_expired env now)) [
      | inr c ↦ rw (← ok-inj (rw c at h)) (same_envelopes envelopes)
      | inl c ↦
          (let (t, a, h1) =
              chain-ok (EnvelopeStore.set_status_in_tx env.envelope_id expired now envelopes) _
                (rw c at h) in
            rw (← ok-inj h1) (expire-Kept env.envelope_id now envelopes t a))
    ]

module _ {V : Type 0} (j : Json V) (glob : GlobSet) where
  authorize-Kept :
      (actor : ActorRecord) (action : Action V) (now : ℕ) (envelopes : EnvelopeTable)
      → KeptEnvelopes envelopes (authorize_with_envelope j glob actor action now envelopes).0
  unfolding authorize_with_envelope
  authorize-Kept actor action now envelopes =
      let env = get_active_for_actor action.actor_id envelopes in
      elim (Result-cases (drop_if_expired env now envelopes)) [
        | inl (e, d) ↦ rw (authorize_with_envelope, d) (same_envelopes envelopes)
        | inr (r, d) ↦ rw (authorize_with_envelope, d) (drop_if_expired-Kept env now envelopes r d)
      ]

  pub admit-Kept :
      (actors : ActorTable) (action : Action V) (now : ℕ) (envelopes : EnvelopeTable)
      → Kept envelope_key SameGrant envelopes (admit j glob actors action now envelopes).0
  unfolding admit
  admit-Kept actors action now envelopes = elim (Result-cases (check_actor j glob actors action)) [
    | inl (e, a) ↦ rw (admit, a) (same_envelopes envelopes)
    | inr (actor, a) ↦ elim (Bool-cases (is_state_changing action.action_type)) [
      | inr c ↦ rw (admit, a, c) (same_envelopes envelopes)
      | inl c ↦ rw (admit, a, c) (authorize-Kept actor action now envelopes)
    ]
  ]

set_status-Kept :
    (id : String) (status : ActorStatus) (now : ℕ) (actors actors' : ActorTable)
    → ActorStore.set_status_in_tx id status now actors ≡ ok actors'
    → KeptActors actors actors'
unfolding ActorStore.set_status_in_tx
set_status-Kept id status now actors actors' h =
    let f = set_status status now in
    let result : actors' ≡ update_row actor_key id f actors = ground arith in
    rw result (
      Kept-update_row actor_key SameActor SameActor-refl id f actors (λ r. refl)
        (λ r. record {
          actor_type = refl;
          creator_id = refl;
          lineage = refl;
          writable_targets = refl;
        }))

share-Kept :
    (id : String) (share : F64) (now : ℕ) (actors actors' : ActorTable)
    → execute_update_energy_share id share now actors ≡ ok actors'
    → KeptActors actors actors'
unfolding execute_update_energy_share ActorStore.update_energy_share_in_tx
share-Kept id share now actors actors' h =
    let f = set_share share now in
    let result : actors' ≡ update_row actor_key id f actors = ground arith in
    rw result (
      Kept-update_row actor_key SameActor SameActor-refl id f actors (λ r. refl)
        (λ r. record {
          actor_type = refl;
          creator_id = refl;
          lineage = refl;
          writable_targets = refl;
        }))

freeze_each-Kept :
    (ds : List ActorRecord) (now : ℕ) (actors actors' : ActorTable)
    → freeze_each ds now actors ≡ ok actors'
    → KeptActors actors actors'
unfolding freeze_each
freeze_each-Kept [] now actors actors' h =
    rw (← ok-inj h) (Kept-refl actor_key SameActor SameActor-refl actors)
freeze_each-Kept (d ∷ ds) now actors actors' h =
    let (mid, a, h1) =
      chain-ok (ActorStore.set_status_in_tx d.actor_id frozen now actors) (freeze_each ds now) h in
    Kept-trans actor_key SameActor SameActor-trans actors mid actors'
      (set_status-Kept d.actor_id frozen now actors mid a) (freeze_each-Kept ds now mid actors' h1)

module _ {V : Type 0} (x : Externals V) (now : ℕ) where
  execute_freeze-Kept :
      (target : String) (actors : ActorTable) (r : List String × ActorTable)
      → execute_freeze x.like target now actors ≡ ok r
      → KeptActors actors r.1
  unfolding execute_freeze
  execute_freeze-Kept target actors r h =
      let (first, a, h1) = chain-ok (ActorStore.set_status_in_tx target frozen now actors) _ h in
      let (last, b, h2) =
        chain-ok (freeze_each (list_descendants x.like target actors) now first) _ h1 in
      rw (← ok-inj h2) (
        Kept-trans actor_key SameActor SameActor-trans actors first last
          (set_status-Kept target frozen now actors first a)
          (freeze_each-Kept (list_descendants x.like target actors) now first last b))

  freezing-Kept :
      (target : String) (actors actors' : ActorTable)
      → apply_lifecycle x now target (freeze none) actors ≡ ok actors'
      → KeptActors actors actors'
  unfolding apply_lifecycle
  freezing-Kept target actors actors' h =
      elim (Result-cases (execute_freeze x.like target now actors)) [
        | inl (e, a) ↦ cc (rw (apply_lifecycle, a) at h)
        | inr (r, a) ↦
            rw (← ok-inj (rw (apply_lifecycle, a) at h)) (execute_freeze-Kept target actors r a)
      ]

  pub apply_lifecycle-Kept :
      (target : String) (op : LifecycleOp) (actors actors' : ActorTable)
      → apply_lifecycle x now target op actors ≡ ok actors'
      → Kept actor_key SameActor actors actors'
  unfolding apply_lifecycle execute_unfreeze
  apply_lifecycle-Kept target (freeze reason) actors actors' h =
      freezing-Kept target actors actors' h
  apply_lifecycle-Kept target unfreeze actors actors' h =
      set_status-Kept target active now actors actors' h
  apply_lifecycle-Kept target (terminate reason) actors actors' h =
      freezing-Kept target actors actors' h
  apply_lifecycle-Kept target (update_energy_share share) actors actors' h =
      share-Kept target share now actors actors' h
