-- ===== src/Runtime/Admission/Envelope.antt =====
-- The envelope that an agent acts under: `get_active_for_actor` of
-- crates/punkgo-kernel/src/state/envelope_store.rs and the lazy expiry of
-- crates/punkgo-kernel/src/runtime/kernel.rs.
use punkgo_kernel.Prelude.{
  ℕ, ◌≡◌, refl, true, ◌&&◌, Option, none, some, [], ◌∷◌, String, ◌==◌, eq_iff, is_some, ltb, arith,
  Bool-cases, ◌⊎◌, inl, inr,
}
use punkgo_kernel.Prelude.Table.{update_row}
use punkgo_kernel.Core.Errors.{ok}
use punkgo_kernel.Core.Consent.{EnvelopeRecord, expired, is_active, is_envelope_expired}
use punkgo_kernel.State.EnvelopeStore.{
  EnvelopeTable, envelope_key, later, set_envelope_status, get, get_active_for_actor,
  set_status_in_tx,
}
use punkgo_kernel.Runtime.Admission.{drop_if_expired}

-- What the query for the active envelope of an actor returns.
pub record IsActiveFor (actor_id : String) (envelopes : EnvelopeTable) (env : EnvelopeRecord)
    : Type 0 where
  pub owned : env.actor_id ≡ actor_id
  pub active : is_active env.status ≡ true
  pub stored : is_some (get env.envelope_id envelopes) ≡ true

later-cases :
    (env : EnvelopeRecord) (o : Option EnvelopeRecord) (r : EnvelopeRecord)
    → later env o ≡ some r
    → (r ≡ env) ⊎ (o ≡ some r)
later-cases env none r h = inl cc
later-cases env (some x) r h = elim (Bool-cases (ltb env.created_at x.created_at)) [
  | inl a ↦ inr (ground (arith, h, a))
  | inr a ↦ inl (ground (arith, h, a))
]

stored-cons :
    (k : String) (x : EnvelopeRecord) (xs : EnvelopeTable)
    → is_some (get k xs) ≡ true
    → is_some (get k (x ∷ xs)) ≡ true
unfolding get
stored-cons k x xs h = ground (arith, h)

stored-here :
    (x : EnvelopeRecord) (xs : EnvelopeTable) → is_some (get x.envelope_id (x ∷ xs)) ≡ true
unfolding get
stored-here x xs = ground (arith, eq_iff x.envelope_id x.envelope_id)

IsActiveFor-cons :
    (actor_id : String) (x : EnvelopeRecord) (xs : EnvelopeTable) (env : EnvelopeRecord)
    → IsActiveFor actor_id xs env
    → IsActiveFor actor_id (x ∷ xs) env
IsActiveFor-cons actor_id x xs env r = record {
  owned = r.owned;
  active = r.active;
  stored = stored-cons env.envelope_id x xs r.stored;
}

pub get_active_for_actor-IsActiveFor :
    (actor_id : String) (envelopes : EnvelopeTable) (env : EnvelopeRecord)
    → get_active_for_actor actor_id envelopes ≡ some env
    → IsActiveFor actor_id envelopes env
unfolding get_active_for_actor
get_active_for_actor-IsActiveFor actor_id [] env h = cc
get_active_for_actor-IsActiveFor actor_id (x ∷ xs) env h =
    elim (Bool-cases (x.actor_id == actor_id && is_active x.status)) [
      | inl here ↦
          elim (later-cases x (get_active_for_actor actor_id xs) env (ground (arith, h, here))) [
            | inl same ↦ rw same (record {
              owned = (eq_iff x.actor_id actor_id).0 (ground (arith, here));
              active = ground (arith, here);
              stored = stored-here x xs;
            })
            | inr below ↦
                IsActiveFor-cons actor_id x xs env
                  (get_active_for_actor-IsActiveFor actor_id xs env below)
          ]
      | inr there ↦
          IsActiveFor-cons actor_id x xs env
            (get_active_for_actor-IsActiveFor actor_id xs env (ground (arith, h, there)))
    ]

-- An envelope whose time is over is marked, and dropped.
pub drop_if_expired-due :
    (env : EnvelopeRecord) (now : ℕ) (envelopes : EnvelopeTable)
    → is_some (get env.envelope_id envelopes) ≡ true
    → is_envelope_expired env now ≡ true
    → (envelopes' : EnvelopeTable) × (set_status_in_tx env.envelope_id expired now envelopes
        ≡ ok envelopes')
      × (drop_if_expired (some env) now envelopes ≡ ok (none, envelopes'))
unfolding drop_if_expired set_status_in_tx
drop_if_expired-due env now envelopes stored due = (
  update_row envelope_key env.envelope_id (set_envelope_status expired now) envelopes,
  rw stored refl,
  rw (stored, due) refl,
)
