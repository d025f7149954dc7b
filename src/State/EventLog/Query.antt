-- ===== src/State/EventLog/Query.antt =====
-- What the readers of the log return: `list_recent`, `list_by_actor` and `query` of
-- crates/punkgo-kernel/src/state/event_log.rs.
use punkgo_kernel.Prelude.{
  ℕ, ◌+◌, ◌<◌, ◌≤◌, ◌≡◌, ◌∙◌, ◌↔◌, zero, suc, refl, ap, Bool, true, false, Option, none, some, List,
  [], ◌∷◌, ◌++◌, String, All, keep_if, take, length, eq_iff, Bool-cases, inl, inr, arith,
}
use punkgo_kernel.Prelude.Int.{ℤ, pos, negsuc, ◌<ℤ◌, ◌≤ℤ◌, ltb_ℤ_true, ltb_ℤ_of_lt}
use punkgo_kernel.Prelude.Table.{All-append}
use punkgo_kernel.State.EventLog.{
  EventRecord, insert_desc, order_desc, limit_to, by_actor, before, after, selects, query,
}
use punkgo_kernel.State.EventLog.Append.{IsIndexed}

module _ {V : Type 0} where
  abbrev pub newest_first : List (EventRecord V) → List (EventRecord V)
  newest_first [] = []
  newest_first (e ∷ es) = newest_first es ++ e ∷ []

  -- The indices rise from `n` on.
  abbrev IsRising : ℕ → List (EventRecord V) → Type 0
  IsRising n [] = Unit
  IsRising n (e ∷ es) = (n ≤ e.log_index) × IsRising (e.log_index + 1) es

  IsRising-of_le : (m n : ℕ) (es : List (EventRecord V)) → m ≤ n → IsRising n es → IsRising m es
  IsRising-of_le m n [] l h = tt
  IsRising-of_le m n (e ∷ es) l h = (omega (arith, l, h.0), h.1)

  IsRising-of_IsIndexed : (n : ℕ) (es : List (EventRecord V)) → IsIndexed n es → IsRising n es
  IsRising-of_IsIndexed n [] h = tt
  IsRising-of_IsIndexed n (e ∷ es) h =
      (omega (arith, h.0), rw h.0 (IsRising-of_IsIndexed (n + 1) es h.1))

  keep_if-IsRising :
      (p : EventRecord V → Bool) (n : ℕ) (es : List (EventRecord V))
      → IsRising n es
      → IsRising n (keep_if p es)
  keep_if-IsRising p n [] h = tt
  keep_if-IsRising p n (e ∷ es) h =
      let rest = keep_if-IsRising p (e.log_index + 1) es h.1 in
      elim (p e)
        as (λ b. IsRising n (elim b as (λ _. List (EventRecord V)) [
          | true ↦ e ∷ keep_if p es
          | false ↦ keep_if p es
        ])) [
          | true ↦ (h.0, rest)
          | false ↦ IsRising-of_le n (e.log_index + 1) (keep_if p es) (omega (arith, h.0)) rest
        ]

  -- A row older than all others goes to the end.
  insert_desc-last :
      (e : EventRecord V) (fs : List (EventRecord V))
      → All (λ f. e.log_index < f.log_index) fs
      → insert_desc e fs ≡ fs ++ e ∷ []
  unfolding insert_desc
  insert_desc-last e [] h = refl
  insert_desc-last e (f ∷ fs) h = let rest = insert_desc-last e fs h.1 in ground (arith, h.0, rest)

  newest_first-later :
      (m n : ℕ) (es : List (EventRecord V))
      → m < n
      → IsRising n es
      → All (λ f. m < f.log_index) (newest_first es)
  newest_first-later m n [] l h = tt
  newest_first-later m n (e ∷ es) l h =
      All-append (λ f. m < f.log_index) (newest_first es) (e ∷ [])
        (newest_first-later m (e.log_index + 1) es (omega (arith, l, h.0)) h.1)
        (omega (arith, l, h.0), tt)

  -- On rows whose indices rise, the order by falling index is the reversal.
  order_desc-newest_first :
      (n : ℕ) (es : List (EventRecord V)) → IsRising n es → order_desc es ≡ newest_first es
  unfolding order_desc
  order_desc-newest_first n [] h = refl
  order_desc-newest_first n (e ∷ es) h =
      ap (insert_desc e) (order_desc-newest_first (e.log_index + 1) es h.1)
      ∙ insert_desc-last e (newest_first es)
          (newest_first-later e.log_index (e.log_index + 1) es (omega arith) h.1)

  -- What a caller asks for: the actor, where one is given, and an index on the right side of each
  -- bound that is given.
  abbrev HasActor : Option String → EventRecord V → Type 0
  HasActor none e = Unit
  HasActor (some actor_id) e = e.actor_id ≡ actor_id

  abbrev IsBefore : Option ℤ → EventRecord V → Type 0
  IsBefore none e = Unit
  IsBefore (some bound) e = pos e.log_index <ℤ bound

  abbrev IsAfter : Option ℤ → EventRecord V → Type 0
  IsAfter none e = Unit
  IsAfter (some bound) e = bound <ℤ pos e.log_index

  abbrev pub IsSelected : Option String → Option ℤ → Option ℤ → EventRecord V → Type 0
  IsSelected actor_id before_index after_index e =
      HasActor actor_id e × IsBefore before_index e × IsAfter after_index e

  -- The rows with a property, in their order.
  pub data Picked (P : EventRecord V → Type 0)
      : List (EventRecord V) → List (EventRecord V) → Type 0 where
    ended : Picked P [] []
    kept :
        {es fs : List (EventRecord V)} (e : EventRecord V)
        → P e
        → Picked P es fs
        → Picked P (e ∷ es) (e ∷ fs)
    skipped :
        {es fs : List (EventRecord V)} (e : EventRecord V)
        → ¬ P e
        → Picked P es fs
        → Picked P (e ∷ es) fs

  -- The first rows, up to a limit; a negative one is none.
  pub data IsPage (limit : ℤ) : List (EventRecord V) → List (EventRecord V) → Type 0 where
    unlimited : (es : List (EventRecord V)) → limit <ℤ pos 0 → IsPage limit es es
    whole : (es : List (EventRecord V)) → pos (length es) ≤ℤ limit → IsPage limit es es
    cut :
        (page rest : List (EventRecord V))
        → pos (length page) ≡ limit
        → IsPage limit (page ++ rest) page

  actor_iff : (o : Option String) (e : EventRecord V) → (by_actor o e ≡ true) ↔ HasActor o e
  actor_iff none e = ((λ h. tt), λ h. refl)
  actor_iff (some a) e = eq_iff e.actor_id a

  before_iff : (o : Option ℤ) (e : EventRecord V) → (before o e ≡ true) ↔ IsBefore o e
  before_iff none e = ((λ h. tt), λ h. refl)
  before_iff (some b) e = (ltb_ℤ_true (pos e.log_index) b, ltb_ℤ_of_lt (pos e.log_index) b)

  after_iff : (o : Option ℤ) (e : EventRecord V) → (after o e ≡ true) ↔ IsAfter o e
  after_iff none e = ((λ h. tt), λ h. refl)
  after_iff (some a) e = (ltb_ℤ_true a (pos e.log_index), ltb_ℤ_of_lt a (pos e.log_index))

  selects_iff :
      (actor_id : Option String) (before_index after_index : Option ℤ) (e : EventRecord V)
      → (selects actor_id before_index after_index e ≡ true)
        ↔ IsSelected actor_id before_index after_index e
  selects_iff actor_id before_index after_index e =
      let (a, a') = actor_iff actor_id e in
      let (b, b') = before_iff before_index e in
      let (c, c') = after_iff after_index e in
      (
        λ h. (a (ground (arith, h)), b (ground (arith, h)), c (ground (arith, h))),
        λ p. ground (arith, a' p.0, b' p.1, c' p.2),
      )

  keep_if-Picked :
      (P : EventRecord V → Type 0) (p : EventRecord V → Bool)
      → ((e : EventRecord V) → (p e ≡ true) ↔ P e)
      → (es : List (EventRecord V)) → Picked P es (keep_if p es)
  keep_if-Picked P p same [] = ended
  keep_if-Picked P p same (e ∷ es) =
      let rest = keep_if-Picked P p same es in
      elim (Bool-cases (p e)) [
        | inl h ↦ rw (keep_if, h) (kept e ((same e).0 h) rest)
        | inr h ↦ rw (keep_if, h) (skipped e (λ q. cc ((same e).1 q)) rest)
      ]

  take-IsPage : (n : ℕ) (es : List (EventRecord V)) → IsPage (pos n) es (take n es)
  take-IsPage zero es = cut [] es refl
  take-IsPage (suc n) [] = whole [] (omega arith)
  take-IsPage (suc n) (e ∷ es) = longer e (take-IsPage n es)
    where
      longer :
          (e : EventRecord V) {es page : List (EventRecord V)}
          → IsPage (pos n) es page
          → IsPage (pos (suc n)) (e ∷ es) (e ∷ page)
      longer e (unlimited es h) = absurd (omega (arith, h))
      longer e (whole es h) = whole (e ∷ es) (omega (arith, h))
      longer e (cut page rest h) = cut (e ∷ page) rest (cc)

  limit_to-IsPage : (limit : ℤ) (es : List (EventRecord V)) → IsPage limit es (limit_to limit es)
  unfolding limit_to
  limit_to-IsPage (pos n) es = take-IsPage n es
  limit_to-IsPage (negsuc n) es = unlimited es (omega arith)

  -- On a log with the indices 0, 1, 2, …, a query takes the rows of the log by the given actor, with an
  -- index below the one bound and above the other, where these are given, reads them newest first, and
  -- returns the first ones up to the limit, or all if the limit is negative.
  pub query-newest_first :
      (actor_id : Option String) (before_index after_index : Option ℤ) (limit : ℤ)
      (events : List (EventRecord V))
      → IsIndexed 0 events
      → (rows : List (EventRecord V)) × Picked
          (IsSelected actor_id before_index after_index)
          events
          rows
        × IsPage limit (newest_first rows) (query actor_id before_index after_index limit events)
  unfolding query
  query-newest_first actor_id before_index after_index limit events h =
      let rows = keep_if (selects actor_id before_index after_index) events in
      let ordered = order_desc-newest_first 0 rows (
        keep_if-IsRising (selects actor_id before_index after_index) 0 events
          (IsRising-of_IsIndexed 0 events h)) in
      (
        rows,
        keep_if-Picked _ _ (selects_iff actor_id before_index after_index) events,
        rw ordered (limit_to-IsPage limit (newest_first rows)),
      )
