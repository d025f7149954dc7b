-- ===== src/State/AuditLog.antt =====
-- crates/punkgo-kernel/src/audit.rs: the table `audit_hashes`, which holds the nodes of a Merkle
-- tree over the hashes of the events. Two functions of the tlog crate are parameters. An error is
-- the one the kernel makes of it, `KernelError::Audit`.
pub mod Loop
pub mod Tree
use punkgo_kernel.Prelude.{
  ℕ, zero, suc, ◌+◌, ◌-◌, ◌*◌, ◌/◌, ◌%◌, ◌^◌, ◌≡◌, Bool, true, false, not, ◌&&◌, Option, none, some,
  List, [], ◌∷◌, ◌++◌, length, if◌then◌else◌, eqb, leb,
}
use punkgo_kernel.Prelude.Table.{map_option}
use punkgo_kernel.Core.Errors.{
  KernelError, audit, KernelResult, ok, err, raise_if, ok_or, ◌>>=◌, ◌>>◌,
}

-- A hash is its 32 bytes.
pub record Tlog : Type 0 where
  pub stored_hash_index : ℕ → ℕ → ℕ
  pub node_hash : List ℕ → List ℕ → List ℕ

abbrev pub HashTable : Type 0
HashTable = List (ℕ × List ℕ)

abbrev pub hex_digit : ℕ → Option ℕ
hex_digit c =
    if leb b'0' c && leb c b'9'
    then some (c - b'0')
    else if leb b'a' c && leb c b'f'
    then some (c - 87)
    else if leb b'A' c && leb c b'F'
    then some (c - 55)
    else none

abbrev pub join_digits : Option ℕ → Option ℕ → Option ℕ
join_digits none b = none
join_digits (some a) none = none
join_digits (some a) (some b) = some (a * 16 + b)

-- `u8::from_str_radix` on two characters: the first may be a plus sign.
unfoldable pub byte_of : ℕ → ℕ → Option ℕ
byte_of c d = if eqb c b'+' then hex_digit d else join_digits (hex_digit c) (hex_digit d)

abbrev pub cons_byte : Option ℕ → Option (List ℕ) → Option (List ℕ)
cons_byte none rest = none
cons_byte (some b) rest = map_option (λ bs. b ∷ bs) rest

-- The loop of `hex_to_hash`, on the characters that are left.
unfoldable pub bytes_of : List ℕ → Option (List ℕ)
bytes_of [] = some []
bytes_of (c ∷ []) = none
bytes_of (c ∷ d ∷ cs) = cons_byte (byte_of c d) (bytes_of cs)

unfoldable pub hex_to_hash : List ℕ → KernelResult (List ℕ)
hex_to_hash hex = do
  raise_if (not (eqb (length hex) 64)) (audit "invalid hex hash")
  ok_or (bytes_of hex) (audit "invalid hex hash")

-- SELECT hash FROM audit_hashes WHERE hash_index = ?1
unfoldable pub find_hash : ℕ → HashTable → Option (List ℕ)
find_hash idx [] = none
find_hash idx (r ∷ rs) = if eqb r.0 idx then some r.1 else find_hash idx rs

unfoldable pub read_hash_in_tx : ℕ → HashTable → KernelResult (List ℕ)
read_hash_in_tx idx hashes = do
  bytes ← ok_or (find_hash idx hashes) (audit "hash not found at index")
  raise_if (not (eqb (length bytes) 32)) (audit "hash not found at index")
  ok bytes

-- INSERT OR REPLACE INTO audit_hashes
unfoldable pub put_hash : ℕ → List ℕ → HashTable → HashTable
put_hash idx hash [] = (idx, hash) ∷ []
put_hash idx hash (r ∷ rs) = if eqb r.0 idx then (idx, hash) ∷ rs else r ∷ put_hash idx hash rs

unfoldable pub put_hashes : HashTable → HashTable → HashTable
put_hashes [] hashes = hashes
put_hashes (r ∷ rs) hashes = put_hashes rs (put_hash r.0 r.1 hashes)

-- `n >> level` on `u64`: the shift is masked to six bits, as in a release build.
abbrev pub shr_u64 : ℕ → ℕ → ℕ
shr_u64 n level = n / 2 ^ (level % 64)

module _ (t : Tlog) where
  -- The loop of `append_leaf_in_tx`, from a level on: the nodes to store above the given one. For an
  -- index below 2 ^ 63, as those of the log are, the bit at level 63 is 0, so that 64 steps reach the end;
  -- a loop that takes more steps than it is given is an error here.
  unfoldable pub climb : ℕ → ℕ → ℕ → List ℕ → HashTable → KernelResult HashTable
  climb zero n level current hashes = err (audit "more steps than a u64 has bits")
  climb (suc fuel) n level current hashes = elim (eqb (shr_u64 n level % 2) 1) [
    | false ↦ ok []
    | true ↦
        (read_hash_in_tx (t.stored_hash_index level (shr_u64 n level - 1)) hashes >>= λ left.
        climb fuel n (level + 1) (t.node_hash left current) hashes >>= λ rest.
        ok (
          (t.stored_hash_index (level + 1) (shr_u64 n level / 2), t.node_hash left current) ∷ rest))
  ]

  unfoldable pub append_leaf_in_tx : ℕ → List ℕ → HashTable → KernelResult HashTable
  append_leaf_in_tx log_index leaf_hash_hex hashes = do
    leaf ← hex_to_hash leaf_hash_hex
    above ← climb 64 log_index 0 leaf hashes
    ok (put_hashes ((t.stored_hash_index 0 log_index, leaf) ∷ above) hashes)
