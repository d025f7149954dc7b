-- ===== src/Runtime/Lifecycle/Parse.antt =====
-- Who may do what to whom: `parse_lifecycle_op`, `validate_lifecycle_authorization` and
-- `check_lineage_active` of crates/punkgo-kernel/src/runtime/lifecycle.rs.
use Prim.Native.String.{◌++◌}
use punkgo_kernel.Prelude.{
  ◌≡◌, ◌↔◌, refl, true, false, not, Option, none, some, List, [], ◌∷◌, String, All, All-imp, any,
  ◌==◌, eq_iff, arith, Bool-cases, Option-cases, inl, inr,
}
use punkgo_kernel.Prelude.Table.{find_row}
use punkgo_kernel.Prelude.Texts.{strip_prefix, is_empty, strip_prefix_sound, strip_prefix-append}
use punkgo_kernel.Core.Errors.{ok}
use punkgo_kernel.Core.Json.{Json, F64, get_str, get_f64}
use punkgo_kernel.Core.Actor.{
  ActorType, human, agent, ActorStatus, active, frozen, ActorRecord, LifecycleOp, freeze, unfreeze,
  terminate, update_energy_share,
}
use punkgo_kernel.State.ActorStore.{
  ActorTable, actor_key, get, is_agent, is_active, is_active_status,
}
use punkgo_kernel.Runtime.Lifecycle.{
  named_op, share_op, with_actor, parse_lifecycle_op, validate_lifecycle_authorization,
  check_lineage_active,
}

human_iff : (t : ActorType) → is_agent t ≡ false → t ≡ human
human_iff human h = refl
human_iff agent h = cc

agent_iff : (t : ActorType) → not (is_agent t) ≡ false → t ≡ agent
agent_iff human h = cc
agent_iff agent h = refl

-- A lifecycle operation is let through exactly if a human asks for it, on an agent whose lineage
-- contains that human.
pub validate_lifecycle_authorization_iff :
    (initiator target : ActorRecord) (op : LifecycleOp)
    → (validate_lifecycle_authorization initiator target op ≡ ok tt) ↔ (
        (initiator.actor_type ≡ human)
        × (target.actor_type ≡ agent)
        × (any (λ a. a == initiator.actor_id) target.lineage ≡ true))
unfolding validate_lifecycle_authorization
validate_lifecycle_authorization_iff initiator target op = (
  λ h. (
    human_iff initiator.actor_type (ground arith),
    agent_iff target.actor_type (ground arith),
    ground arith,
  ),
  λ (i, t, m). rw (i, t, m) refl,
)

-- An actor of this id is in the table, and is not frozen.
abbrev pub IsStanding : ActorTable → String → Type 0
IsStanding actors id =
    (row : ActorRecord) × (get id actors ≡ some row) × (row.actor_id ≡ id) × (row.status ≡ active)

active_status : (s : ActorStatus) → is_active_status s ≡ true → s ≡ active
active_status active h = refl
active_status frozen h = cc

find_row-key :
    (id : String) (rows : ActorTable) (row : ActorRecord)
    → find_row actor_key id rows ≡ some row
    → row.actor_id ≡ id
find_row-key id [] row h = cc
find_row-key id (r ∷ rows) row h = elim (Bool-cases (actor_key r == id)) [
  | inl e ↦ (let same : r ≡ row = ground (arith, h, e) in rw (← same) ((eq_iff r.actor_id id).0 e))
  | inr e ↦ find_row-key id rows row (ground (arith, h, e))
]

get_key :
    (id : String) (rows : ActorTable) (row : ActorRecord)
    → get id rows ≡ some row
    → row.actor_id ≡ id
unfolding get
get_key id rows row h = find_row-key id rows row h

is_active_iff :
    (actors : ActorTable) (id : String) → (is_active id actors ≡ true) ↔ IsStanding actors id
unfolding is_active
is_active_iff actors id = (
  λ h. elim (Option-cases (get id actors)) [
    | inl e ↦ cc (rw (is_active, e) at h)
    | inr (row, e) ↦
        (row, e, get_key id actors row e, active_status row.status (rw (is_active, e) at h))
  ],
  λ (row, e, _, a). rw (is_active, e, a) refl,
)

-- Each ancestor passes the test of the loop.
pub check_lineage_active-All :
    (actors : ActorTable) (lineage : List String)
    → (check_lineage_active actors lineage ≡ ok tt) ↔ All (λ a. is_active a actors ≡ true) lineage
unfolding check_lineage_active
check_lineage_active-All actors [] = (λ h. tt, λ h. refl)
check_lineage_active-All actors (a ∷ rest) = (
  λ h. (ground arith, (check_lineage_active-All actors rest).0 (ground arith)),
  λ h. (let below = (check_lineage_active-All actors rest).1 h.1 in rw (h.0, below) refl),
)

-- A lineage passes exactly if each ancestor in it is in the table and its status is active.
pub check_lineage_active_iff :
    (actors : ActorTable) (lineage : List String)
    → (check_lineage_active actors lineage ≡ ok tt) ↔ All (IsStanding actors) lineage
check_lineage_active_iff actors lineage = (
  λ h.
      All-imp _ _ lineage (λ a. (is_active_iff actors a).0)
        ((check_lineage_active-All actors lineage).0 h),
  λ all.
      (check_lineage_active-All actors lineage).1
        (All-imp _ _ lineage (λ a. (is_active_iff actors a).1) all),
)

module _ {V : Type 0} (j : Json V) where
  -- The words of `payload.op`, and what each stands for.
  pub data Names (payload : V) : String → LifecycleOp → Type 0 where
    freezing : Names payload "freeze" (freeze (get_str j payload "reason"))
    unfreezing : Names payload "unfreeze" unfreeze
    terminating : Names payload "terminate" (terminate (get_str j payload "reason"))
    sharing :
        (share : F64)
        → get_f64 j payload "energy_share" ≡ some share
        → Names payload "update_energy_share" (update_energy_share share)

  share_op_lem :
      (o : Option F64) (op : LifecycleOp)
      → share_op o ≡ some op
      → (share : F64) × (o ≡ some share) × (update_energy_share share ≡ op)
  share_op_lem none op h = cc
  share_op_lem (some share) op h = (share, refl, cc)

  Names-sound :
      (word : String) (payload : V) (op : LifecycleOp)
      → named_op j word payload ≡ some op
      → Names payload word op
  unfolding named_op
  Names-sound word payload op h = elim (Bool-cases (word == "freeze")) [
    | inl e ↦
        (let same : freeze (get_str j payload "reason") ≡ op = ground (arith, h, e) in
          rw ((eq_iff word "freeze").0 e, ← same) freezing)
    | inr no_freeze ↦ elim (Bool-cases (word == "unfreeze")) [
      | inl e ↦
          (let same : unfreeze ≡ op = ground (arith, h, no_freeze, e) in
            rw ((eq_iff word "unfreeze").0 e, ← same) unfreezing)
      | inr no_unfreeze ↦ elim (Bool-cases (word == "terminate")) [
        | inl e ↦
            (let same : terminate (get_str j payload "reason") ≡ op =
                ground (arith, h, no_freeze, no_unfreeze, e) in
              rw ((eq_iff word "terminate").0 e, ← same) terminating)
        | inr no_terminate ↦ elim (Bool-cases (word == "update_energy_share")) [
          | inr e ↦ ground (arith, h, no_freeze, no_unfreeze, no_terminate, e)
          | inl e ↦
              (let (share, given, same) =
                  share_op_lem (get_f64 j payload "energy_share") op
                    (ground (arith, h, no_freeze, no_unfreeze, no_terminate, e)) in
                rw ((eq_iff word "update_energy_share").0 e, ← same) (sharing share given))
        ]
      ]
    ]
  ]

  Names-complete :
      (payload : V) {word : String} {op : LifecycleOp}
      → Names payload word op
      → named_op j word payload ≡ some op
  unfolding named_op
  Names-complete payload freezing = refl
  Names-complete payload unfreezing = refl
  Names-complete payload terminating = refl
  Names-complete payload (sharing share e) = rw e refl

  with_actor_lem :
      (id actor_id : String) (o : Option LifecycleOp) (op : LifecycleOp)
      → with_actor j id o ≡ some (actor_id, op)
      → (id ≡ actor_id) × (o ≡ some op)
  with_actor_lem id actor_id none op h = cc
  with_actor_lem id actor_id (some o) op h = (cc, cc)

  -- A submission is read as a lifecycle operation on an actor exactly if its target is actor/<id>, with
  -- an id, and its payload names the operation: freeze or terminate, with the reason if there is one,
  -- unfreeze, or update_energy_share with a share.
  pub parse_lifecycle_op_iff :
      (target : String) (payload : V) (actor_id : String) (op : LifecycleOp)
      → (parse_lifecycle_op j target payload ≡ some (actor_id, op)) ↔ (
          (target ≡ "actor/" ++ actor_id)
          × (is_empty actor_id ≡ false)
          × ((word : String) × (get_str j payload "op" ≡ some word) × Names payload word op))
  unfolding parse_lifecycle_op
  parse_lifecycle_op_iff target payload actor_id op = (
    λ h. elim (Option-cases (strip_prefix "actor/" target)) [
      | inl e ↦ ground arith
      | inr (id, e) ↦ elim (Bool-cases (is_empty id)) [
        | inl empty ↦ ground arith
        | inr full ↦ elim (Option-cases (get_str j payload "op")) [
          | inl g ↦ ground arith
          | inr (word, g) ↦
              (let (same, n) =
                  with_actor_lem id actor_id (named_op j word payload) op
                    (rw (parse_lifecycle_op, e, full, g) at h) in
                (
                  rw (← same) (strip_prefix_sound "actor/" target id e),
                  rw (← same) full,
                  (word, g, Names-sound word payload op n),
                ))
        ]
      ]
    ],
    λ (at_actor, full, (word, g, names)).
        (let behind : strip_prefix "actor/" target ≡ some actor_id =
            rw at_actor (strip_prefix-append "actor/" actor_id) in
          let n = Names-complete payload names in rw (parse_lifecycle_op, behind, full, g, n) refl),
  )
