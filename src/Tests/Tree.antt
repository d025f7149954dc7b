-- ===== src/Tests/Tree.antt =====
-- The second leaf of a Merkle tree is appended: its node is stored, and the node above both leaves.
use punkgo_kernel.Prelude.{ℕ, zero, suc, ◌+◌, ◌*◌, ◌≤◌, ◌≡◌, refl, List, [], ◌∷◌, get_or, arith}
use punkgo_kernel.Core.Errors.{ok}
use punkgo_kernel.State.AuditLog.{
  Tlog, HashTable, hex_to_hash, bytes_of, byte_of, find_hash, append_leaf_in_tx,
}
use punkgo_kernel.State.AuditLog.Tree.{
  IsTlog, ends, subtree, StoresTree, append_leaf_in_tx-StoresTree,
}

abbrev repeat : ℕ → ℕ → List ℕ
repeat zero x = []
repeat (suc n) x = x ∷ repeat n x

-- The hash of a node keeps the first byte of each side.
abbrev tlog : Tlog
tlog = record {
  stored_hash_index = λ level n. n * 64 + level;
  node_hash = λ left right. get_or left 0 0 ∷ get_or right 0 0 ∷ repeat 30 0;
}

tlog-IsTlog : IsTlog tlog
tlog-IsTlog = record {
  apart = λ l k l' k' a b e. (omega (arith, a, b, e), omega (arith, a, b, e));
  node_hash_len = λ a b. refl;
}

abbrev leaf : ℕ → List ℕ
leaf k = repeat 32 k

-- The characters `01`, again and again.
abbrev ones : ℕ → List ℕ
ones zero = []
ones (suc n) = b'0' ∷ b'1' ∷ ones n

abbrev hashes : HashTable
hashes = (0, leaf 0) ∷ []

ends_ge : (l k : ℕ) → k + 1 ≤ ends l k
ends_ge zero k = omega arith
ends_ge (suc l) k = omega (arith, ends_ge l (2 * k + 1))

one_leaf : StoresTree tlog leaf 1 hashes
unfolding subtree find_hash
one_leaf zero zero low filled = refl
one_leaf zero (suc k) low filled = absurd (omega (arith, filled))
one_leaf (suc l) k low filled = absurd (omega (arith, filled, ends_ge l (2 * k + 1)))

parsed : hex_to_hash (ones 32) ≡ ok (leaf 1)
unfolding hex_to_hash bytes_of byte_of
parsed = refl

append_leaf_in_tx-StoresTree_example :
    (hs' : HashTable) × (append_leaf_in_tx tlog 1 (ones 32) hashes ≡ ok hs')
    × StoresTree tlog leaf 2 hs'
append_leaf_in_tx-StoresTree_example =
    append_leaf_in_tx-StoresTree tlog leaf 1 (ones 32) hashes tlog-IsTlog (λ k. refl) (omega arith)
      parsed one_leaf
