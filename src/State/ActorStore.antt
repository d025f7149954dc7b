-- ===== src/State/ActorStore.antt =====
-- crates/punkgo-kernel/src/state/actor_store.rs: the table `actors`.
-- Lineages and targets are stored as JSON texts and parsed again when a row is read; the table here
-- holds the values, and SQL's LIKE on such a text is a parameter. `now` is the time a write reads.
pub mod Writes
use punkgo_kernel.Prelude.{
  ℕ, ◌+◌, ◌%◌, ◌≡◌, Bool, true, false, not, ◌&&◌, ◌||◌, Option, none, some, List, [], ◌∷◌, ◌++◌,
  map, String, if◌then◌else◌, ◌==◌, eqb, ltb, leb, is_some, keep_if, length,
}
use punkgo_kernel.Prelude.Int.{ℤ, pos, i64_mod}
use punkgo_kernel.Prelude.Table.{find_row, update_row}
use punkgo_kernel.Core.Errors.{
  KernelError, policy_violation, actor_not_found, KernelResult, ok, err, raise_if, ◌>>=◌, ◌>>◌,
}
use punkgo_kernel.Core.Json.{F64}
use punkgo_kernel.Core.Policy.{is_blank}
use punkgo_kernel.Core.Actor.{
  ActorType, human, agent, ActorStatus, active, frozen, ActorRecord, CreateActorSpec,
}

-- `actor_id LIKE '{creator_id}/{purpose}/%'`, on creator, purpose and id, and
-- `lineage LIKE '%"{id}"%'`, on the id and the lineage whose JSON text is matched.
pub record Like : Type 0 where
  pub id_like : String → String → String → Bool
  pub lineage_like : String → List String → Bool

abbrev pub ActorTable : Type 0
ActorTable = List ActorRecord

abbrev pub actor_key : ActorRecord → String
actor_key a = a.actor_id

abbrev pub is_active_status : ActorStatus → Bool
is_active_status active = true
is_active_status frozen = false

abbrev pub is_agent : ActorType → Bool
is_agent human = false
is_agent agent = true

unfoldable pub get : String → ActorTable → Option ActorRecord
get actor_id actors = find_row actor_key actor_id actors

unfoldable pub exists : String → ActorTable → Bool
unfolding get
exists actor_id actors = is_some (get actor_id actors)

unfoldable pub is_active : String → ActorTable → Bool
is_active actor_id actors = elim (get actor_id actors) [
  | none ↦ false
  | some row ↦ is_active_status row.status
]

abbrev pub new_actor : ℕ → CreateActorSpec → ActorRecord
new_actor now spec = record {
  actor_id = spec.actor_id;
  actor_type = spec.actor_type;
  creator_id = some spec.creator_id;
  lineage = spec.lineage;
  purpose = spec.purpose;
  status = active;
  writable_targets = spec.writable_targets;
  energy_share = spec.energy_share;
  reduction_policy = spec.reduction_policy;
  created_at = now;
  updated_at = now;
}

unfoldable pub create_in_tx : CreateActorSpec → ℕ → ActorTable → KernelResult ActorTable
create_in_tx spec now actors = do
  raise_if (is_blank spec.actor_id) (policy_violation "actor_id cannot be empty")
  raise_if (is_some (get spec.actor_id actors)) (policy_violation "actor already exists")
  ok (actors ++ new_actor now spec ∷ [])

abbrev pub set_status : ActorStatus → ℕ → ActorRecord → ActorRecord
set_status status now a = record a { status = status; updated_at = now }

unfoldable pub set_status_in_tx : String → ActorStatus → ℕ → ActorTable → KernelResult ActorTable
set_status_in_tx actor_id status now actors = do
  raise_if (not (is_some (get actor_id actors))) (actor_not_found actor_id)
  ok (update_row actor_key actor_id (set_status status now) actors)

-- The bit patterns of an `f64`: the exponent is not all ones, and the number is above or below 0.
abbrev infinity : ℕ
infinity = 9218868437227405312

unfoldable pub is_finite : F64 → Bool
is_finite x = ltb (x % i64_mod) infinity

unfoldable pub f64_gt_zero : F64 → Bool
f64_gt_zero x = ltb 0 x && leb x infinity

unfoldable pub f64_lt_zero : F64 → Bool
f64_lt_zero x = ltb i64_mod x && leb (x % i64_mod) infinity

abbrev pub set_share : F64 → ℕ → ActorRecord → ActorRecord
set_share energy_share now a = record a { energy_share = energy_share; updated_at = now }

unfoldable pub update_energy_share_in_tx : String → F64 → ℕ → ActorTable → KernelResult ActorTable
update_energy_share_in_tx actor_id energy_share now actors = do
  raise_if (not (is_finite energy_share) || f64_lt_zero energy_share)
      (policy_violation "energy_share must be a finite non-negative number")
  raise_if (not (is_some (get actor_id actors))) (actor_not_found actor_id)
  ok (update_row actor_key actor_id (set_share energy_share now) actors)

module _ (l : Like) where
  unfoldable pub next_sequence : String → String → ActorTable → ℕ
  next_sequence creator_id purpose actors =
      length (keep_if (λ a. l.id_like creator_id purpose a.actor_id) actors) + 1

  unfoldable pub list_descendants : String → ActorTable → List ActorRecord
  list_descendants ancestor_id actors =
      keep_if (λ a. l.lineage_like ancestor_id a.lineage && is_active_status a.status) actors

abbrev pub has_share : ActorRecord → Bool
has_share a = is_active_status a.status && f64_gt_zero a.energy_share && is_agent a.actor_type

unfoldable pub list_active_with_shares : ActorTable → List (String × F64)
list_active_with_shares actors = map (λ a. (a.actor_id, a.energy_share)) (keep_if has_share actors)

abbrev pub created_by : String → Option String → Bool
created_by parent_id none = false
created_by parent_id (some c) = c == parent_id

unfoldable pub list_children : String → ActorTable → List ActorRecord
list_children parent_id actors = keep_if (λ a. created_by parent_id a.creator_id) actors
