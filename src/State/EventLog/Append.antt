-- ===== src/State/EventLog/Append.antt =====
-- The log is append-only and its indices have no gaps: `assign_and_insert` of
-- crates/punkgo-kernel/src/state/event_log.rs.
use punkgo_kernel.Prelude.{
  any, Bool-cases, ◌==◌, ℕ, ◌+◌, ◌≤◌, ◌≡◌, ◌∙◌, refl, ap, List, [], ◌∷◌, ◌++◌, length, arith, inl,
  inr,
}
use punkgo_kernel.Core.Errors.{ok, Result-cases}
use punkgo_kernel.State.EventLog.{
  EventRecord, Hashing, canonical, compute_event_hash, next_idx, assign_and_insert,
}

module _ {V : Type 0} where
  -- The rows carry the indices from `n` on, in order.
  abbrev pub IsIndexed : ℕ → List (EventRecord V) → Type 0
  IsIndexed n [] = Unit
  IsIndexed n (e ∷ es) = (e.log_index ≡ n) × IsIndexed (n + 1) es

  next_idx-cons :
      (e : EventRecord V) (es : List (EventRecord V))
      → e.log_index + 1 ≤ next_idx es
      → next_idx (e ∷ es) ≡ next_idx es
  unfolding next_idx
  next_idx-cons e es h = ground (arith, h)

  next_idx-from :
      (n : ℕ) (e : EventRecord V) (es : List (EventRecord V))
      → IsIndexed n (e ∷ es)
      → next_idx (e ∷ es) ≡ n + length (e ∷ es)
  unfolding next_idx
  next_idx-from n e [] h = ground (arith, h.0)
  next_idx-from n e (f ∷ es) h =
      let tail = next_idx-from (n + 1) f es h.1 in
      next_idx-cons e (f ∷ es) (omega (arith, tail, h.0)) ∙ omega (arith, tail)

  -- On an indexed log the next index is the number of rows.
  next_idx-length : (es : List (EventRecord V)) → IsIndexed 0 es → next_idx es ≡ length es
  unfolding next_idx
  next_idx-length [] h = refl
  next_idx-length (e ∷ es) h = next_idx-from 0 e es h ∙ omega arith

  IsIndexed-snoc :
      (n : ℕ) (es : List (EventRecord V)) (e : EventRecord V)
      → IsIndexed n es
      → e.log_index ≡ n + length es
      → IsIndexed n (es ++ e ∷ [])
  IsIndexed-snoc n [] e h i = (omega (arith, i), tt)
  IsIndexed-snoc n (x ∷ xs) e h i = (h.0, IsIndexed-snoc (n + 1) xs e h.1 (omega (arith, i)))

  abbrev pub indexed_at : EventRecord V → ℕ → EventRecord V
  indexed_at event n = record event { log_index = n }

  abbrev pub hashed_as : EventRecord V → ℕ → List ℕ → EventRecord V
  hashed_as event n event_hash = record event { log_index = n; event_hash = event_hash }

  -- The row `e` is `event` with an index and a hash, at the end of the table.
  abbrev pub Appended :
      Hashing → EventRecord V → List (EventRecord V) → EventRecord V → List (EventRecord V) → Type 0
  Appended hashing event events e events' =
      (events' ≡ events ++ e ∷ [])
      × (e ≡ record event { log_index = length events; event_hash = e.event_hash })
      × (compute_event_hash hashing e ≡ ok e.event_hash)
      × IsIndexed 0 events'

  compute-hashed_as :
      (hashing : Hashing) (event : EventRecord V) (n : ℕ) (h : List ℕ)
      → compute_event_hash hashing (hashed_as event n h)
        ≡ compute_event_hash hashing (indexed_at event n)
  unfolding compute_event_hash canonical
  compute-hashed_as hashing event n h = refl

  pub assign_and_insert-ok :
      (hashing : Hashing) (event : EventRecord V) (events : List (EventRecord V))
      (e : EventRecord V) (events' : List (EventRecord V))
      → assign_and_insert hashing event events ≡ ok (e, events')
      → (h : List ℕ) × (compute_event_hash hashing (indexed_at event (next_idx events)) ≡ ok h)
        × (e ≡ hashed_as event (next_idx events) h)
        × (events' ≡ events ++ hashed_as event (next_idx events) h ∷ [])
  unfolding assign_and_insert
  assign_and_insert-ok hashing event events e events' run =
      elim (Result-cases (compute_event_hash hashing (indexed_at event (next_idx events)))) [
        | inl (x, c) ↦ ground arith
        | inr (h, c) ↦ elim (Bool-cases (any (λ e. e.id == event.id) events)) [
          | inl used ↦ ground (arith, run, c, used)
          | inr new ↦ (h, c, ground (arith, run, c, new), ground (arith, run, c, new))
        ]
      ]

  Appended-hashed_as :
      (hashing : Hashing) (event : EventRecord V) (events : List (EventRecord V)) (n : ℕ)
      (h : List ℕ)
      → IsIndexed 0 events
      → n ≡ length events
      → compute_event_hash hashing (indexed_at event n) ≡ ok h
      → Appended hashing event events (hashed_as event n h) (events ++ hashed_as event n h ∷ [])
  Appended-hashed_as hashing event events n h indexed i c = (
    refl,
    ap (λ m. hashed_as event m h) i,
    compute-hashed_as hashing event n h ∙ c,
    IsIndexed-snoc 0 events (hashed_as event n h) indexed (omega (arith, i)),
  )

  -- On a log whose rows carry the indices 0, 1, 2, … in order, where the call succeeds, the row that is written is the given
  -- event with the number of rows as its index and with the hash of its canonical form, it stands at
  -- the end, all earlier rows are as before, and the indices have no gap again.
  pub assign_and_insert-Appended :
      (hashing : Hashing) (event : EventRecord V) (events : List (EventRecord V))
      (e : EventRecord V) (events' : List (EventRecord V))
      → IsIndexed 0 events
      → assign_and_insert hashing event events ≡ ok (e, events')
      → Appended hashing event events e events'
  assign_and_insert-Appended hashing event events e events' indexed run =
      let (h, c, row, rows) = assign_and_insert-ok hashing event events e events' run in
      rw (row, rows)
        (Appended-hashed_as hashing event events (next_idx events) h indexed
          (next_idx-length events indexed) c)
