-- ===== src/Runtime/Lifecycle/Freeze.antt =====
-- Freezing an actor freezes what it created: `execute_freeze` of
-- crates/punkgo-kernel/src/runtime/lifecycle.rs.
use punkgo_kernel.Prelude.{
  ℕ, ◌≡◌, ◌∙◌, refl, ap, Bool, true, false, ◌&&◌, ◌||◌, Option, none, some, List, [], ◌∷◌, map,
  String, All, any, if◌then◌else◌, ◌==◌, eq_iff, is_some, arith, ◌⊎◌, inl, inr,
}
use punkgo_kernel.Prelude.Table.{map_option}
use punkgo_kernel.Core.Errors.{ok}
use punkgo_kernel.Core.Actor.{ActorStatus, active, frozen, ActorRecord}
use punkgo_kernel.State.ActorStore.{
  ActorTable, Like, get, set_status, set_status_in_tx, is_active_status, list_descendants,
}
use punkgo_kernel.State.ActorStore.Writes.{
  set_status-lookup, set_status-ok, keep_if-present, any-keep_if,
}
use punkgo_kernel.Runtime.Lifecycle.{freeze_each, execute_freeze}

-- The row `j` after the rows of `ids` were frozen.
abbrev frozen_if : Bool → ℕ → Option ActorRecord → Option ActorRecord
frozen_if b now r = if b then map_option (set_status frozen now) r else r

frozen_if-present :
    (b : Bool) (now : ℕ) (r : Option ActorRecord) → is_some (frozen_if b now r) ≡ is_some r
frozen_if-present true now none = refl
frozen_if-present true now (some r) = refl
frozen_if-present false now r = refl

frozen_if-twice :
    (b c : Bool) (now : ℕ) (r : Option ActorRecord)
    → frozen_if c now (frozen_if b now r) ≡ frozen_if (b || c) now r
frozen_if-twice true true now none = refl
frozen_if-twice true true now (some r) = refl
frozen_if-twice true false now r = refl
frozen_if-twice false true now r = refl
frozen_if-twice false false now r = refl

abbrev names : String → List ActorRecord → Bool
names j ds = any (λ d. d.actor_id == j) ds

abbrev ArePresent : List ActorRecord → ActorTable → Type 0
ArePresent ds actors = All (λ d. is_some (get d.actor_id actors) ≡ true) ds

stay_present :
    (k : String) (now : ℕ) (actors actors' : ActorTable)
    → set_status_in_tx k frozen now actors ≡ ok actors'
    → (ds : List ActorRecord) → ArePresent ds actors
    → ArePresent ds actors'
stay_present k now actors actors' h [] p = tt
stay_present k now actors actors' h (d ∷ ds) p = (
  ap is_some (set_status-lookup k frozen now actors actors' d.actor_id h)
      ∙ frozen_if-present (k == d.actor_id) now (get d.actor_id actors)
      ∙ p.0,
  stay_present k now actors actors' h ds p.1,
)

-- The loop over rows of the table comes to its end, and has then frozen exactly these rows.
freeze_each-ok :
    (ds : List ActorRecord) (now : ℕ) (actors : ActorTable)
    → ArePresent ds actors
    → (actors' : ActorTable) × (freeze_each ds now actors ≡ ok actors')
      × ((j : String) → get j actors' ≡ frozen_if (names j ds) now (get j actors))
unfolding freeze_each
freeze_each-ok [] now actors p = (actors, refl, λ j. refl)
freeze_each-ok (d ∷ ds) now actors p =
    let (mid, first) = set_status-ok d.actor_id frozen now actors p.0 in
    let (actors', rest, rows) =
      freeze_each-ok ds now mid (stay_present d.actor_id now actors mid first ds p.1) in
    (
      actors',
      rw first rest,
      λ j.
          rows j
          ∙ ap (frozen_if (names j ds) now)
              (set_status-lookup d.actor_id frozen now actors mid j first)
          ∙ frozen_if-twice (d.actor_id == j) (names j ds) now (get j actors),
    )

-- For the id of the actor that is frozen, LIKE finds every lineage that has it: the case for an id
-- without quotation marks, backslashes and control characters, which JSON writes as they are.
abbrev pub FindsMembers : Like → String → Type 0
FindsMembers l id =
    (lineage : List String) → any (λ a. a == id) lineage ≡ true → l.lineage_like id lineage ≡ true

after :
    (b : Bool) (now : ℕ) (r : ActorRecord)
    → ((b ≡ true) ⊎ (r.status ≡ frozen))
    → (r' : ActorRecord) × (frozen_if b now (some r) ≡ some r')
      × (r'.status ≡ frozen)
      × (r'.lineage ≡ r.lineage)
after true now r h = (set_status frozen now r, refl, refl, refl)
after false now r (inl h) = cc
after false now r (inr h) = (r, refl, h, refl)

status-cases : (s : ActorStatus) → (is_active_status s ≡ true) ⊎ (s ≡ frozen)
status-cases active = inl refl
status-cases frozen = inr refl

module _ (l : Like) where
  -- A row below the actor is listed by the query, or frozen already.
  reached_or_frozen :
      (target_id : String) (actors : ActorTable) (j : String) (r : ActorRecord)
      → FindsMembers l target_id
      → get j actors ≡ some r
      → ((j ≡ target_id) ⊎ (any (λ a. a == target_id) r.lineage ≡ true))
      → ((target_id == j || names j (list_descendants l target_id actors)) ≡ true)
        ⊎ (r.status ≡ frozen)
  unfolding list_descendants
  reached_or_frozen target_id actors j r finds e (inl same) =
      inl (ground (arith, same, eq_iff target_id j))
  reached_or_frozen target_id actors j r finds e (inr below) = elim (status-cases r.status) [
    | inr f ↦ inr f
    | inl a ↦
        (let listed =
            any-keep_if (λ x. l.lineage_like target_id x.lineage && is_active_status x.status)
              actors j r e (rw (finds r.lineage below, a) refl) in
          inl (ground (arith, listed)))
  ]

  -- Freezing an actor of the table succeeds, and the row of any id `j` then is: frozen now, if it is the
  -- actor's or that of a descendant the query lists; and what it was, if not.
  pub execute_freeze-rows :
      (target_id : String) (now : ℕ) (actors : ActorTable) (row : ActorRecord) (j : String)
      → get target_id actors ≡ some row
      → (actors' : ActorTable) × (execute_freeze l target_id now actors
          ≡ ok (target_id ∷ map (λ d. d.actor_id) (list_descendants l target_id actors), actors'))
        × (get j actors'
            ≡ frozen_if
                (target_id == j || names j (list_descendants l target_id actors))
                now
                (get j actors))
  unfolding execute_freeze list_descendants
  execute_freeze-rows target_id now actors row j e =
      let (mid, first) = set_status-ok target_id frozen now actors (rw e refl) in
      let present =
        keep_if-present (λ a. l.lineage_like target_id a.lineage && is_active_status a.status)
          actors in
      let (actors', rest, rows) = freeze_each-ok (list_descendants l target_id actors) now mid (
        stay_present target_id now actors mid first (list_descendants l target_id actors)
          present) in
      (
        actors',
        rw (first, rest) refl,
        rows j
            ∙ ap (frozen_if (names j (list_descendants l target_id actors)) now)
                (set_status-lookup target_id frozen now actors mid j first)
            ∙ frozen_if-twice (target_id == j) (names j (list_descendants l target_id actors)) now
                (get j actors),
      )

  -- Freezing reaches everything the actor created: where the actor is in the table, freezing it
  -- succeeds, and afterwards it is frozen, and so is each actor whose lineage contains it.
  pub execute_freeze-cascades :
      (target_id : String) (now : ℕ) (actors : ActorTable) (row : ActorRecord) (j : String)
      (r : ActorRecord)
      → FindsMembers l target_id
      → get target_id actors ≡ some row
      → get j actors ≡ some r
      → ((j ≡ target_id) ⊎ (any (λ a. a == target_id) r.lineage ≡ true))
      → (ids : List String) × (actors' : ActorTable) × (r' : ActorRecord) × (execute_freeze l
            target_id now actors
          ≡ ok (ids, actors'))
        × (get j actors' ≡ some r')
        × (r'.status ≡ frozen)
        × (r'.lineage ≡ r.lineage)
  execute_freeze-cascades target_id now actors row j r finds e ej below =
      let (actors', run, rows) = execute_freeze-rows target_id now actors row j e in
      let reached = target_id == j || names j (list_descendants l target_id actors) in
      let (r', there, froze, kept) =
        after reached now r (reached_or_frozen target_id actors j r finds ej below) in
      (
        target_id ∷ map (λ d. d.actor_id) (list_descendants l target_id actors),
        actors',
        r',
        run,
        rows ∙ ap (frozen_if reached now) ej ∙ there,
        froze,
        kept,
      )
