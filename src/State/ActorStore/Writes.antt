-- ===== src/State/ActorStore/Writes.antt =====
-- What the writes of crates/punkgo-kernel/src/state/actor_store.rs leave in the table, row by row.
use punkgo_kernel.Prelude.{
  ℕ, ◌≡◌, ◌∙◌, refl, Bool, true, some, [], ◌∷◌, String, All, All-imp, All-keep_if, any,
  any-keep_if_cons, keep_if, if◌then◌else◌, ◌==◌, eq_iff, is_some, arith, Bool-cases, inl, inr,
}
use punkgo_kernel.Prelude.Table.{update_row, map_option, find_row-update_row}
use punkgo_kernel.Core.Errors.{ok}
use punkgo_kernel.Core.Actor.{ActorStatus, ActorRecord}
use punkgo_kernel.State.ActorStore.{ActorTable, actor_key, get, set_status, set_status_in_tx}

pub set_status-lookup :
    (k : String) (status : ActorStatus) (now : ℕ) (actors actors' : ActorTable) (j : String)
    → set_status_in_tx k status now actors ≡ ok actors'
    → get j actors'
      ≡ (if k == j then map_option (set_status status now) (get j actors) else get j actors)
unfolding set_status_in_tx get
set_status-lookup k status now actors actors' j h =
    let result : actors' ≡ update_row actor_key k (set_status status now) actors = ground arith in
    rw result (find_row-update_row actor_key k j (set_status status now) actors (λ r. refl))

pub set_status-ok :
    (k : String) (status : ActorStatus) (now : ℕ) (actors : ActorTable)
    → is_some (get k actors) ≡ true
    → (actors' : ActorTable) × (set_status_in_tx k status now actors ≡ ok actors')
unfolding set_status_in_tx
set_status-ok k status now actors h =
    (update_row actor_key k (set_status status now) actors, rw h refl)

-- A selection of rows: each is in the table, and a row that is selected is found among them.
get-cons :
    (k : String) (r : ActorRecord) (rs : ActorTable)
    → is_some (get k rs) ≡ true
    → is_some (get k (r ∷ rs)) ≡ true
unfolding get
get-cons k r rs h = ground (arith, h)

present : (actors : ActorTable) → All (λ d. is_some (get d.actor_id actors) ≡ true) actors
unfolding get
present [] = tt
present (r ∷ rs) = (
  ground (arith, eq_iff r.actor_id r.actor_id),
  All-imp (λ d. is_some (get d.actor_id rs) ≡ true) (λ d. is_some (get d.actor_id (r ∷ rs)) ≡ true)
      rs (λ d h. get-cons d.actor_id r rs h) (present rs),
)

pub keep_if-present :
    (p : ActorRecord → Bool) (actors : ActorTable)
    → All (λ d. is_some (get d.actor_id actors) ≡ true) (keep_if p actors)
keep_if-present p actors =
    All-keep_if (λ d. is_some (get d.actor_id actors) ≡ true) p actors (present actors)

pub any-keep_if :
    (p : ActorRecord → Bool) (actors : ActorTable) (j : String) (r : ActorRecord)
    → get j actors ≡ some r
    → p r ≡ true
    → any (λ d. d.actor_id == j) (keep_if p actors) ≡ true
unfolding get
any-keep_if p [] j r e h = cc
any-keep_if p (x ∷ xs) j r e h =
    any-keep_if_cons p (λ d. d.actor_id == j) x xs ∙ elim (Bool-cases (x.actor_id == j)) [
      | inl here ↦
          (let same : x ≡ r = ground (arith, e, here) in
            let px : p x ≡ true = rw same h in rw (px, here) refl)
      | inr there ↦ rw (there, any-keep_if p xs j r (ground (arith, e, there)) h) ground arith
    ]
