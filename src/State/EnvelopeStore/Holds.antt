-- ===== src/State/EnvelopeStore/Holds.antt =====
-- A hold request is decided at most once: `create_hold_request_in_tx` and
-- `resolve_hold_request_in_tx` of crates/punkgo-kernel/src/state/envelope_store.rs.
use punkgo_kernel.Prelude.{
  ℕ, ◌≡◌, ◌≢◌, ◌↔◌, ◌⊎◌, refl, true, false, Option, none, some, List, [], ◌∷◌, ◌++◌, String,
  if◌then◌else◌, ◌==◌, eq_iff, arith, Bool-cases, Option-cases, inl, inr,
}
use punkgo_kernel.Prelude.Table.{
  find_row, update_row, map_option, find_row-update_row, find_row-insert,
}
use punkgo_kernel.Core.Errors.{ok}
use punkgo_kernel.State.EnvelopeStore.{
  EnvelopeTable, HoldStatus, pending, approved, rejected, timed_out, HoldRequest, NewHoldRequest,
  is_pending, resolved_status, hold_key, get_hold_request, new_hold, create_hold_request_in_tx,
  set_resolved, has_pending, resolve_hold_request_in_tx,
}

pub resolved_not_pending :
    (decision : String) (status : HoldStatus)
    → resolved_status decision ≡ some status
    → is_pending status ≡ false
unfolding resolved_status
resolved_not_pending decision status h = ground (arith, h)

abbrev IsWord : String → Type 0
IsWord decision = (decision ≡ "approve") ⊎ ((decision ≡ "reject") ⊎ (decision ≡ "timed_out"))

IsWord-of :
    (decision : String) (status : HoldStatus)
    → resolved_status decision ≡ some status
    → IsWord decision
unfolding resolved_status
IsWord-of decision status h = elim (Bool-cases (decision == "approve")) [
  | inl a ↦ inl ((eq_iff decision "approve").0 a)
  | inr a ↦ elim (Bool-cases (decision == "reject")) [
    | inl b ↦ inr (inl ((eq_iff decision "reject").0 b))
    | inr b ↦ elim (Bool-cases (decision == "timed_out")) [
      | inl c ↦ inr (inr ((eq_iff decision "timed_out").0 c))
      | inr c ↦ ground (arith, a, b, c, h)
    ]
  ]
]

status_of :
    (decision : String)
    → IsWord decision
    → (status : HoldStatus) × (resolved_status decision ≡ some status)
unfolding resolved_status
status_of decision (inl a) = (approved, rw a refl)
status_of decision (inr (inl b)) = (rejected, rw b refl)
status_of decision (inr (inr c)) = (timed_out, rw c refl)

pending_of : (status : HoldStatus) → is_pending status ≡ true → status ≡ pending
pending_of pending h = refl
pending_of approved h = cc
pending_of rejected h = cc
pending_of timed_out h = cc

module _ {V : Type 0} where
  -- The two writes to the table, and their sequences.
  pub data HoldStep (holds holds' : List (HoldRequest V)) : Type 0 where
    created :
        (req : NewHoldRequest V) (now : ℕ) (envelopes : EnvelopeTable)
        → create_hold_request_in_tx req now envelopes holds ≡ ok holds'
        → HoldStep holds holds'
    resolved :
        (hold_id decision : String) (instruction : Option String) (now : ℕ)
        → resolve_hold_request_in_tx hold_id decision instruction now holds ≡ ok holds'
        → HoldStep holds holds'

  pub data HoldRun (last : List (HoldRequest V)) : List (HoldRequest V) → Type 0 where
    stop : HoldRun last last
    step :
        {first mid : List (HoldRequest V)}
        → HoldStep first mid
        → HoldRun last mid
        → HoldRun last first

  -- What a successful decision did.
  pub record Decided (hold_id decision : String) (instruction : Option String) (now : ℕ)
      (holds holds' : List (HoldRequest V)) : Type 0 where
    pub status : HoldStatus
    pub before : HoldRequest V
    pub named : resolved_status decision ≡ some status
    pub found : get_hold_request hold_id holds ≡ some before
    pub waiting : is_pending before.status ≡ true
    pub result :
        holds' ≡ update_row hold_key hold_id (set_resolved status decision instruction now) holds

  pub resolve-Decided :
      (hold_id decision : String) (instruction : Option String) (now : ℕ)
      (holds holds' : List (HoldRequest V))
      → resolve_hold_request_in_tx hold_id decision instruction now holds ≡ ok holds'
      → Decided hold_id decision instruction now holds holds'
  unfolding resolve_hold_request_in_tx has_pending
  resolve-Decided hold_id decision instruction now holds holds' h =
      elim (Option-cases (get_hold_request hold_id holds)) [
        | inl e ↦ ground arith
        | inr (row, e) ↦ elim (Option-cases (resolved_status decision)) [
          | inl d ↦ ground arith
          | inr (st, d) ↦ record {
            status = st;
            before = row;
            named = d;
            found = e;
            waiting = ground arith;
            result = ground arith;
          }
        ]
      ]

  lookup-resolved :
      (hold_id decision : String) (instruction : Option String) (now : ℕ)
      (holds holds' : List (HoldRequest V))
      (d : Decided hold_id decision instruction now holds holds') (k : String)
      → get_hold_request k holds' ≡ (
          if hold_id == k
          then map_option
              (set_resolved d.status decision instruction now)
              (get_hold_request k holds)
          else get_hold_request k holds)
  unfolding get_hold_request
  lookup-resolved hold_id decision instruction now holds holds' d k = rw d.result (
      find_row-update_row hold_key hold_id k (set_resolved d.status decision instruction now) holds
        (λ r. refl))

  decided_stays-step :
      (holds holds' : List (HoldRequest V)) (k : String) (row : HoldRequest V)
      → HoldStep holds holds'
      → get_hold_request k holds ≡ some row
      → is_pending row.status ≡ false
      → get_hold_request k holds' ≡ some row
  unfolding get_hold_request create_hold_request_in_tx
  decided_stays-step holds holds' k row (created req now envelopes h) e p =
      let new : find_row hold_key req.hold_id holds ≡ none = ground arith in
      let result : holds' ≡ holds ++ new_hold now req ∷ [] = ground arith in
      rw result ground
        (arith, eq_iff req.hold_id k, e, new, find_row-insert hold_key k (new_hold now req) holds)
  decided_stays-step holds holds' k row (resolved hold_id decision instruction now h) e p =
      let d = resolve-Decided hold_id decision instruction now holds holds' h in
      ground (
        arith,
        eq_iff hold_id k,
        d.found,
        d.waiting,
        e,
        p,
        lookup-resolved hold_id decision instruction now holds holds' d k,
      )

  decided_stays :
      (holds' holds : List (HoldRequest V)) (k : String) (row : HoldRequest V)
      → HoldRun holds' holds
      → get_hold_request k holds ≡ some row
      → is_pending row.status ≡ false
      → get_hold_request k holds' ≡ some row
  decided_stays holds' holds k row stop e p = e
  decided_stays holds' holds k row (step {mid} s r) e p =
      decided_stays holds' mid k row r (decided_stays-step holds mid k row s e p) p

  resolve_pending :
      (hold_id decision : String) (instruction : Option String) (now : ℕ)
      (holds : List (HoldRequest V)) (status : HoldStatus) (row : HoldRequest V)
      → resolved_status decision ≡ some status
      → get_hold_request hold_id holds ≡ some row
      → is_pending row.status ≡ true
      → (holds' : List (HoldRequest V)) × (resolve_hold_request_in_tx hold_id decision instruction
            now holds
          ≡ ok holds')
  unfolding resolve_hold_request_in_tx has_pending
  resolve_pending hold_id decision instruction now holds status row named e p = (
    update_row hold_key hold_id (set_resolved status decision instruction now) holds,
    ground (arith, named, e, p),
  )

  -- A decided hold cannot be decided again.
  resolve_twice :
      (hold_id decision : String) (instruction : Option String) (now : ℕ)
      (holds holds' : List (HoldRequest V)) (row : HoldRequest V)
      → get_hold_request hold_id holds ≡ some row
      → is_pending row.status ≡ false
      → resolve_hold_request_in_tx hold_id decision instruction now holds ≢ ok holds'
  resolve_twice hold_id decision instruction now holds holds' row e p h =
      let d = resolve-Decided hold_id decision instruction now holds holds' h in
      ground (arith, d.found, d.waiting)

  -- When a decision on a hold was written, then whatever holds are created and decided afterwards, the
  -- row of that hold carries this decision, its instruction and the status the decision stands for,
  -- and no later decision on it, of any kind, succeeds.
  pub resolve_once :
      (hold_id decision : String) (instruction : Option String) (now : ℕ)
      (holds holds' last : List (HoldRequest V)) (decision2 : String) (instruction2 : Option String)
      (now2 : ℕ) (next : List (HoldRequest V))
      → resolve_hold_request_in_tx hold_id decision instruction now holds ≡ ok holds'
      → HoldRun last holds'
      → (row : HoldRequest V) × (get_hold_request hold_id last ≡ some row)
        × (row.decision ≡ some decision)
        × (row.instruction ≡ instruction)
        × (resolved_status decision ≡ some row.status)
        × (resolve_hold_request_in_tx hold_id decision2 instruction2 now2 last ≢ ok next)
  resolve_once hold_id decision instruction now holds holds' last decision2 instruction2 now2 next h
        r =
      let d = resolve-Decided hold_id decision instruction now holds holds' h in
      let row = set_resolved d.status decision instruction now d.before in
      let now_there : get_hold_request hold_id holds' ≡ some row = ground (
        arith,
        eq_iff hold_id hold_id,
        d.found,
        lookup-resolved hold_id decision instruction now holds holds' d hold_id,
      ) in
      let p = resolved_not_pending decision d.status d.named in
      let e = decided_stays last holds' hold_id row r now_there p in
      (
        row,
        e,
        refl,
        refl,
        d.named,
        resolve_twice hold_id decision2 instruction2 now2 last next row e p,
      )

  -- A decision succeeds exactly if it is one of the three words and the hold is there and pending.
  pub resolve_iff :
      (hold_id decision : String) (instruction : Option String) (now : ℕ)
      (holds : List (HoldRequest V))
      → ((holds' : List (HoldRequest V)) × (resolve_hold_request_in_tx hold_id decision instruction
              now holds
            ≡ ok holds'))
        ↔ (((decision ≡ "approve") ⊎ ((decision ≡ "reject") ⊎ (decision ≡ "timed_out")))
            × ((row : HoldRequest V) × (get_hold_request hold_id holds ≡ some row)
                × (row.status ≡ pending)))
  resolve_iff hold_id decision instruction now holds = (
    λ (holds', h).
        (let d = resolve-Decided hold_id decision instruction now holds holds' h in
          (
            IsWord-of decision d.status d.named,
            (d.before, d.found, pending_of d.before.status d.waiting),
          )),
    λ (w, (row, e, p)).
        (let (status, named) = status_of decision w in
          resolve_pending hold_id decision instruction now holds status row named e (rw p refl)),
  )
