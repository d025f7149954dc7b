-- ===== src/State/AuditLog/Tree.antt =====
-- The nodes that `append_leaf_in_tx` of crates/punkgo-kernel/src/audit.rs stores are those of the Merkle
-- tree over the leaves.
use punkgo_kernel.Prelude.{
  ℕ, zero, suc, ◌+◌, ◌-◌, ◌*◌, ◌/◌, ◌%◌, ◌^◌, ◌<◌, ◌≤◌, ◌≡◌, ◌∙◌, sym, refl, ap, true, false, some,
  List, [], ◌∷◌, length, All, eqb, if◌then◌else◌, arith, Bool-cases, inl, inr,
}
use native.Mathlib.Nat.{div-div-eq-div-mul, two-pow-succ}
use native.Mathlib.Decide.{dec_lt}
use punkgo_kernel.Core.Errors.{ok, ◌>>=◌}
use punkgo_kernel.Core.Boundary.Access.{Some}
use punkgo_kernel.State.AuditLog.{
  Tlog, HashTable, shr_u64, find_hash, read_hash_in_tx, put_hash, put_hashes, climb, hex_to_hash,
  append_leaf_in_tx,
}
use punkgo_kernel.State.AuditLog.Loop.{top_bit}

-- What is documented of tlog: each node has an index of its own, and a hash has 32 bytes. The levels are
-- those of a tree whose leaves a u64 counts.
pub record IsTlog (t : Tlog) : Type 0 where
  pub apart :
      (l k l' k' : ℕ)
      → l < 64
      → l' < 64
      → t.stored_hash_index l k ≡ t.stored_hash_index l' k'
      → (l ≡ l') × (k ≡ k')
  pub node_hash_len : (a b : List ℕ) → length (t.node_hash a b) ≡ 32

-- How many leaves there are up to the end of the `k`-th subtree of a level.
abbrev pub ends : ℕ → ℕ → ℕ
ends zero k = k + 1
ends (suc l) k = ends l (2 * k + 1)

ends_lt : (l a b : ℕ) → a < b → ends l a < ends l b
ends_lt zero a b h = omega (arith, h)
ends_lt (suc l) a b h = ends_lt l (2 * a + 1) (2 * b + 1) (omega (arith, h))

ends_inj : (l a b : ℕ) → ends l a ≡ ends l b → a ≡ b
ends_inj l a b e = elim (dec_lt a b) [
  | yes less ↦ (let p = ends_lt l a b less in absurd (omega (arith, p, e)))
  | no not_less ↦ elim (dec_lt b a) [
    | yes more ↦ (let p = ends_lt l b a more in absurd (omega (arith, p, e)))
    | no not_more ↦ omega (arith, not_less, not_more)
  ]
]

-- A subtree above a level ends where an odd one of the level does.
ends_above : (l m k : ℕ) → l < m → (j : ℕ) × (ends m k ≡ ends l (2 * j + 1))
ends_above l zero k h = absurd (omega (arith, h))
ends_above l (suc m) k h = elim (dec_lt l m) [
  | yes above ↦ ends_above l m (2 * k + 1) above
  | no next ↦ (let same : l ≡ m = omega (arith, h, next) in (k, rw same refl))
]

next_level : (l : ℕ) → l + 1 ≡ suc l
next_level l = omega arith

ends_next : (l h : ℕ) → ends (l + 1) h ≡ ends l (2 * h + 1)
ends_next l h = rw (next_level l) refl

shr-suc : (n l : ℕ) → l < 63 → shr_u64 n (suc l) ≡ shr_u64 n l / 2
shr-suc n l h =
    let same : suc l % 64 ≡ suc (l % 64) = omega (arith, h) in
    rw same (
      ap (λ p. n / p) (two-pow-succ (l % 64) ∙ omega arith)
      ∙ sym (div-div-eq-div-mul n (2 ^ (l % 64)) 2))

shr_next : (n l : ℕ) → l < 63 → shr_u64 n (l + 1) ≡ shr_u64 n l / 2
shr_next n l h = rw (next_level l) (shr-suc n l h)

find_hash-put_hash :
    (i j : ℕ) (h : List ℕ) (hs : HashTable)
    → find_hash j (put_hash i h hs) ≡ (if eqb i j then some h else find_hash j hs)
unfolding find_hash put_hash
find_hash-put_hash i j h [] = ground arith
find_hash-put_hash i j h (r ∷ rs) =
    let rest = find_hash-put_hash i j h rs in
    elim (Bool-cases (eqb r.0 i)) [ inl e ↦ ground (arith, e) | inr e ↦ ground (arith, e, rest) ]

module _ (t : Tlog) (leaf : ℕ → List ℕ) where
  -- The hash of the `k`-th subtree of a level, from the leaves.
  unfoldable pub subtree : ℕ → ℕ → List ℕ
  subtree zero k = leaf k
  subtree (suc l) k = t.node_hash (subtree l (2 * k)) (subtree l (2 * k + 1))

  subtree_next :
      (l h : ℕ) → subtree (l + 1) h ≡ t.node_hash (subtree l (2 * h)) (subtree l (2 * h + 1))
  unfolding subtree
  subtree_next l h = rw (next_level l) refl

  abbrev pub HasNode : HashTable → ℕ → ℕ → Type 0
  HasNode hs l k = find_hash (t.stored_hash_index l k) hs ≡ some (subtree l k)

  -- The table holds every subtree that the first `n` leaves fill.
  abbrev pub StoresTree : ℕ → HashTable → Type 0
  StoresTree n hs = (l k : ℕ) → l < 64 → ends l k ≤ n → HasNode hs l k

  -- Rows that are nodes of the tree.
  abbrev IsNode : ℕ × List ℕ → Type 0
  IsNode r = (l : ℕ) × (k : ℕ) × (l < 64) × (r ≡ (t.stored_hash_index l k, subtree l k))

  module _ (law : IsTlog t) where
    put_hash-same :
        (l k : ℕ) (hs : HashTable)
        → HasNode (put_hash (t.stored_hash_index l k) (subtree l k) hs) l k
    put_hash-same l k hs =
        find_hash-put_hash (t.stored_hash_index l k) (t.stored_hash_index l k) (subtree l k) hs
        ∙ ground arith

    put_hash-keeps :
        (r : ℕ × List ℕ) (hs : HashTable) (l k : ℕ)
        → l < 64
        → IsNode r
        → HasNode hs l k
        → HasNode (put_hash r.0 r.1 hs) l k
    put_hash-keeps r hs l k small (l', k', small', e) h = rw e (
        find_hash-put_hash (t.stored_hash_index l' k') (t.stored_hash_index l k) (subtree l' k') hs
        ∙ elim (Bool-cases (eqb (t.stored_hash_index l' k') (t.stored_hash_index l k))) [
          | inr other ↦ rw other h
          | inl same ↦
              (let (el, ek) = law.apart l' k' l k small' small (ground (arith, same)) in
                rw (same, el, ek) refl)
        ])

    put_hashes-keeps :
        (rows hs : HashTable) (l k : ℕ)
        → l < 64
        → All IsNode rows
        → HasNode hs l k
        → HasNode (put_hashes rows hs) l k
    unfolding put_hashes
    put_hashes-keeps [] hs l k small nodes h = h
    put_hashes-keeps (r ∷ rows) hs l k small nodes h =
        put_hashes-keeps rows (put_hash r.0 r.1 hs) l k small nodes.1
          (put_hash-keeps r hs l k small nodes.0 h)

    put_hashes-adds :
        (rows hs : HashTable) (l k : ℕ)
        → l < 64
        → All IsNode rows
        → Some (λ r. r ≡ (t.stored_hash_index l k, subtree l k)) rows
        → HasNode (put_hashes rows hs) l k
    unfolding put_hashes
    put_hashes-adds [] hs l k small nodes m = absurd m
    put_hashes-adds (r ∷ rows) hs l k small nodes (inl e) =
        put_hashes-keeps rows (put_hash r.0 r.1 hs) l k small nodes.1 (rw e (put_hash-same l k hs))
    put_hashes-adds (r ∷ rows) hs l k small nodes (inr m) =
        put_hashes-adds rows (put_hash r.0 r.1 hs) l k small nodes.1 m

    length-subtree : ((k : ℕ) → length (leaf k) ≡ 32) → (l k : ℕ) → length (subtree l k) ≡ 32
    unfolding subtree
    length-subtree leaves zero k = leaves k
    length-subtree leaves (suc l) k = law.node_hash_len (subtree l (2 * k)) (subtree l (2 * k + 1))

    read_node :
        (hs : HashTable) (l k : ℕ)
        → length (subtree l k) ≡ 32
        → HasNode hs l k
        → read_hash_in_tx (t.stored_hash_index l k) hs ≡ ok (subtree l k)
    unfolding read_hash_in_tx
    read_node hs l k long h = rw (h, long) refl

    module _ (leaves : (k : ℕ) → length (leaf k) ≡ 32) (n : ℕ) (small : n < 2 ^ 63) (hs : HashTable)
        (stored : StoresTree n hs) where
      -- From a level on, where the subtree of the level ends with the new leaf: the loop gives nodes, and
      -- each subtree above that ends with the new leaf is one of them.
      record Climbed (fuel l : ℕ) (current : List ℕ) : Type 0 where
        rows : HashTable
        run : climb t fuel n l current hs ≡ ok rows
        nodes : All IsNode rows
        complete :
            (m k : ℕ)
            → l < m
            → ends m k ≡ n + 1
            → Some (λ r. r ≡ (t.stored_hash_index m k, subtree m k)) rows

      climb_stops :
          (fuel l q : ℕ) (current : List ℕ)
          → shr_u64 n l ≡ q
          → ends l q ≡ n + 1
          → eqb (shr_u64 n l % 2) 1 ≡ false
          → Climbed (suc fuel) l current
      unfolding climb
      climb_stops fuel l q current at_q full even = record {
        rows = [];
        run = rw (climb, even) refl;
        nodes = tt;
        complete = λ m k above filled.
            (let (j, odd) = ends_above l m k above in
              let same = ends_inj l q (2 * j + 1) (full ∙ sym filled ∙ odd) in
              ground (arith, rw (at_q ∙ same) at even));
      }

      climb_goes :
          (fuel l h : ℕ) (current : List ℕ)
          → l < 63
          → shr_u64 n l ≡ 2 * h + 1
          → current ≡ subtree l (2 * h + 1)
          → ends l (2 * h + 1) ≡ n + 1
          → Climbed fuel (l + 1) (t.node_hash (subtree l (2 * h)) current)
          → Climbed (suc fuel) l current
      unfolding climb subtree
      climb_goes fuel l h current low at_q cur full c =
          let before = ends_lt l (2 * h) (2 * h + 1) (omega arith) in
          let left =
            read_node hs l (2 * h) (length-subtree leaves l (2 * h))
              (stored l (2 * h) (omega (arith, low)) (omega (arith, before, full))) in
          let half : (2 * h + 1) / 2 ≡ h = omega arith in
          let one_less : 2 * h + 1 - 1 ≡ 2 * h = omega arith in
          let odd : eqb (shr_u64 n l % 2) 1 ≡ true = rw at_q (ground arith) in
          let node : ◌≡◌ {A = ℕ × List ℕ}
              (t.stored_hash_index (l + 1) h, t.node_hash (subtree l (2 * h)) current)
              (t.stored_hash_index (l + 1) h, subtree (l + 1) h) =
            rw (cur, subtree_next l h) refl in
          record {
            rows =
                (t.stored_hash_index (l + 1) h, t.node_hash (subtree l (2 * h)) current) ∷ c.rows;
            run = rw (climb, odd, at_q, one_less, ◌>>=◌, left, c.run, half) refl;
            nodes = ((l + 1, h, omega (arith, low), node), c.nodes);
            complete = λ m k above filled. elim (dec_lt (l + 1) m) [
              | yes later ↦ inr (c.complete m k later filled)
              | no next ↦
                  (let level : l + 1 ≡ m = omega (arith, above, next) in
                    let place =
                      ends_inj (l + 1) h k (ends_next l h ∙ full ∙ sym (rw level filled)) in
                    inl (rw (← level, ← place) node))
            ];
          }

      climb-Climbed :
          (fuel l q : ℕ) (current : List ℕ)
          → l < 64
          → 64 ≤ l + fuel
          → shr_u64 n l ≡ q
          → current ≡ subtree l q
          → ends l q ≡ n + 1
          → Climbed fuel l current
      climb-Climbed zero l q current low enough at_q cur full = absurd (omega (arith, low, enough))
      climb-Climbed (suc fuel) l q current low enough at_q cur full =
          elim (Bool-cases (eqb (shr_u64 n l % 2) 1)) [
            | inr even ↦ climb_stops fuel l q current at_q full even
            | inl odd ↦ elim (dec_lt l 63) [
              | no top ↦ cc (top_bit n l small (omega (arith, low, top)))
              | yes below ↦
                  (let half : 2 * (q / 2) + 1 ≡ q = ground (arith, rw at_q at odd) in
                    let h = q / 2 in
                    let cur' : current ≡ subtree l (2 * h + 1) = rw half cur in
                    let full' : ends l (2 * h + 1) ≡ n + 1 = rw half full in
                    climb_goes fuel l h current below (at_q ∙ sym half) cur' full' (
                      climb-Climbed fuel (l + 1) h (t.node_hash (subtree l (2 * h)) current)
                        (omega (arith, below)) (omega (arith, enough))
                        (shr_next n l below ∙ ap (λ s. s / 2) at_q)
                        (rw (cur', subtree_next l h) refl) (ends_next l h ∙ full')))
            ]
          ]

      -- A subtree that ends with the new leaf is among the rows that are written.
      placed :
          (c : Climbed 64 0 (leaf n)) (l k : ℕ)
          → ends l k ≡ n + 1
          → Some
              (λ r. r ≡ (t.stored_hash_index l k, subtree l k))
              ((t.stored_hash_index 0 n, leaf n) ∷ c.rows)
      unfolding subtree
      placed c zero k filled = (let same : n ≡ k = omega (arith, filled) in inl (rw same refl))
      placed c (suc l) k filled = inr (c.complete (suc l) k (omega arith) filled)

  -- Where the table holds every subtree that the leaves before the `n`-th fill, appending the
  -- `n`-th in hexadecimal succeeds, and the table then holds every subtree that the leaves up to
  -- it fill; if the leaves have 32 bytes, tlog gives each node an index of its own and hashes of
  -- 32 bytes, and the index is below 2 ^ 63.
  pub append_leaf_in_tx-StoresTree :
      (n : ℕ) (leaf_hash_hex : List ℕ) (hs : HashTable)
      → IsTlog t
      → ((k : ℕ) → length (leaf k) ≡ 32)
      → n < 2 ^ 63
      → hex_to_hash leaf_hash_hex ≡ ok (leaf n)
      → StoresTree n hs
      → (hs' : HashTable) × (append_leaf_in_tx t n leaf_hash_hex hs ≡ ok hs')
        × StoresTree (n + 1) hs'
  unfolding append_leaf_in_tx subtree
  append_leaf_in_tx-StoresTree n leaf_hash_hex hs law leaves small read stored =
      let c =
        climb-Climbed law leaves n small hs stored 64 0 n (leaf n) (omega arith) (omega arith)
          (omega arith) refl refl in
      let rows = (t.stored_hash_index 0 n, leaf n) ∷ c.rows in
      let nodes : All IsNode rows = ((0, n, omega arith, refl), c.nodes) in
      (
        put_hashes rows hs,
        rw (read, ◌>>=◌, c.run) refl,
        λ l k low filled. elim (dec_lt n (ends l k)) [
          | no before ↦
              put_hashes-keeps law rows hs l k low nodes (stored l k low (omega (arith, before)))
          | yes ended ↦
              put_hashes-adds law rows hs l k low nodes
                (placed law leaves n small hs stored c l k (omega (arith, filled, ended)))
        ],
      )
