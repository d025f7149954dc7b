-- ===== src/Runtime/Payload/Accepts.antt =====
-- Which payloads the kernel accepts: `validate_execute_payload` and `parse_hold_response` of
-- crates/punkgo-kernel/src/runtime/kernel.rs.
use Prim.Native.String.{len, ◌++◌}
use punkgo_kernel.Prelude.{
  ◌≡◌, ◌↔◌, ◌⊎◌, sym, refl, true, false, ◌||◌, Option, some, String, ◌==◌, eq_iff, is_some, arith,
  Bool-cases, Option-cases, inl, inr,
}
use punkgo_kernel.Prelude.Texts.{
  strip_prefix, is_empty, contains_char, all_chars, is_ascii_hexdigit, strip_prefix-append,
  strip_prefix_sound,
}
use punkgo_kernel.Core.Errors.{ok, Result-cases}
use punkgo_kernel.Core.Json.{Json, get_str, get_i64}
use punkgo_kernel.Runtime.Payload.{
  require_valid_oid, validate_execute_payload, is_decision, parse_hold_response,
}

-- The format of an object id: `sha256:` and hexadecimal digits, 71 bytes in all.
pub record IsOid (s : String) : Type 0 where
  pub digits : String
  pub split : s ≡ "sha256:" ++ digits
  pub bytes : len s ≡ 71
  pub hex : all_chars is_ascii_hexdigit digits ≡ true

IsDecision : String → Type 0
IsDecision d = (d ≡ "approve") ⊎ (d ≡ "reject")

IsDecision-iff : (d : String) → (is_decision d ≡ true) ↔ IsDecision d
unfolding IsDecision
IsDecision-iff d = (
  λ h. elim (Bool-cases (d == "approve")) [
    | inl a ↦ inl ((eq_iff d "approve").0 a)
    | inr a ↦ inr ((eq_iff d "reject").0 (ground (arith, h, a)))
  ],
  λ h. elim h [ inl a ↦ rw a refl | inr r ↦ rw r refl ],
)

module _ {V : Type 0} (j : Json V) where
  require_valid_oid_iff :
      (payload : V) (field val : String)
      → (require_valid_oid j payload field ≡ ok val)
        ↔ ((get_str j payload field ≡ some val) × IsOid val)
  unfolding require_valid_oid
  require_valid_oid_iff payload field val = (
    λ h. elim (Option-cases (get_str j payload field)) [
      | inl e ↦ ground arith
      | inr (s, e) ↦ elim (Option-cases (strip_prefix "sha256:" s)) [
        | inl p ↦ ground arith
        | inr (hex_part, p) ↦
            (let same : s ≡ val = ground arith in
              (
                rw (← same) e,
                rw (← same) (record {
                  digits = hex_part;
                  split = strip_prefix_sound "sha256:" s hex_part p;
                  bytes = ground arith;
                  hex = ground arith;
                }),
              ))
      ]
    ],
    λ (e, o).
        (let p : strip_prefix "sha256:" val ≡ some o.digits =
            rw o.split (strip_prefix-append "sha256:" o.digits) in
          ground (arith, e, p, o.bytes, o.hex)),
  )

  with-IsOid :
      (payload : V) (field val : String)
      → require_valid_oid j payload field ≡ ok val
      → (oid : String) × (get_str j payload field ≡ some oid) × IsOid oid
  with-IsOid payload field val e =
      let (g, o) = (require_valid_oid_iff payload field val).0 e in (val, g, o)

  -- An execution is accepted exactly if its payload has the three object ids, each in the format of one,
  -- and an integer exit code; and what is returned is the id of the artifact.
  pub validate_execute_payload_iff :
      (payload : V) (artifact_hash : String)
      → (validate_execute_payload j payload ≡ ok artifact_hash) ↔ (
          ((input_oid : String) × (get_str j payload "input_oid" ≡ some input_oid)
            × IsOid input_oid)
          × ((output_oid : String) × (get_str j payload "output_oid" ≡ some output_oid)
              × IsOid output_oid)
          × (is_some (get_i64 j payload "exit_code") ≡ true)
          × (get_str j payload "artifact_hash" ≡ some artifact_hash)
          × IsOid artifact_hash)
  unfolding validate_execute_payload
  validate_execute_payload_iff payload artifact_hash = (
    λ h. elim (Result-cases (require_valid_oid j payload "input_oid")) [
      | inl (x, e) ↦ ground (arith, h, e)
      | inr (i, e) ↦ elim (Result-cases (require_valid_oid j payload "output_oid")) [
        | inl (x, f) ↦ ground (arith, h, e, f)
        | inr (o, f) ↦ (
          with-IsOid payload "input_oid" i e,
          with-IsOid payload "output_oid" o f,
          ground (arith, h, e, f),
          (last h e f).0,
          (last h e f).1,
        )
      ]
    ],
    λ ((i, ei, oi), (o, eo, oo), exit, ea, oa).
        (let a = (require_valid_oid_iff payload "input_oid" i).1 (ei, oi) in
          let b = (require_valid_oid_iff payload "output_oid" o).1 (eo, oo) in
          let c = (require_valid_oid_iff payload "artifact_hash" artifact_hash).1 (ea, oa) in
          rw (a, b, exit, c) refl),
  )
    where
      last :
          {i o : String}
          → validate_execute_payload j payload ≡ ok artifact_hash
          → require_valid_oid j payload "input_oid" ≡ ok i
          → require_valid_oid j payload "output_oid" ≡ ok o
          → (get_str j payload "artifact_hash" ≡ some artifact_hash) × IsOid artifact_hash
      last h e f =
          (require_valid_oid_iff payload "artifact_hash" artifact_hash).0 (ground (arith, h, e, f))

  -- A mutation is read as the answer to a hold exactly if its target is `ledger/hold/<id>` with an id
  -- that is one segment, and its payload decides `approve` or `reject`.
  pub parse_hold_response_iff :
      (target : String) (payload : V) (hold_id decision : String) (instruction : Option String)
      → (parse_hold_response j target payload ≡ some (hold_id, decision, instruction)) ↔ (
          (target ≡ "ledger/hold/" ++ hold_id)
          × (is_empty hold_id ≡ false)
          × (contains_char b'/' hold_id ≡ false)
          × (get_str j payload "decision" ≡ some decision)
          × ((decision ≡ "approve") ⊎ (decision ≡ "reject"))
          × (instruction ≡ get_str j payload "instruction"))
  unfolding parse_hold_response IsDecision
  parse_hold_response_iff target payload hold_id decision instruction = (
    λ h. elim (Option-cases (strip_prefix "ledger/hold/" target)) [
      | inl e ↦ ground (arith, h, e)
      | inr (rest, e) ↦ elim (Bool-cases (is_empty rest || contains_char b'/' rest)) [
        | inl bad ↦ ground (arith, h, e, bad)
        | inr good ↦ elim (Option-cases (get_str j payload "decision")) [
          | inl d ↦ ground (arith, h, e, good, d)
          | inr (word, d) ↦ elim (Bool-cases (is_decision word)) [
            | inr w ↦ ground (arith, h, e, good, d, w)
            | inl w ↦
                (let (same, same_word, same_note) = read h e good d w in
                  (
                    rw (← same) (strip_prefix_sound "ledger/hold/" target rest e),
                    rw (← same) ground (arith, good),
                    rw (← same) ground (arith, good),
                    rw (← same_word) d,
                    rw (← same_word) ((IsDecision-iff word).0 w),
                    sym same_note,
                  ))
          ]
        ]
      ]
    ],
    λ (t, full, one, d, w, i).
        (let p : strip_prefix "ledger/hold/" target ≡ some hold_id =
            rw t (strip_prefix-append "ledger/hold/" hold_id) in
          let w' = (IsDecision-iff decision).1 w in
          rw (parse_hold_response, p, full, one, d, w', i) refl),
  )
    where
      read :
          {rest word : String}
          → parse_hold_response j target payload ≡ some (hold_id, decision, instruction)
          → strip_prefix "ledger/hold/" target ≡ some rest
          → (is_empty rest || contains_char b'/' rest) ≡ false
          → get_str j payload "decision" ≡ some word
          → is_decision word ≡ true
          → (rest ≡ hold_id) × (word ≡ decision) × (get_str j payload "instruction" ≡ instruction)
      read h e good d w = (
        ground (arith, h, e, good, d, w),
        ground (arith, h, e, good, d, w),
        ground (arith, h, e, good, d, w),
      )
