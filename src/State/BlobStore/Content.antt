-- ===== src/State/BlobStore/Content.antt =====
-- Blobs are found under the hash of their content: `put` and `get` of
-- crates/punkgo-kernel/src/state/blob_store.rs.
use Prim.Native.String.{◌++◌}
use Prim.Native.String.append
use punkgo_kernel.Prelude.{
  ℕ, ◌≡◌, refl, ◌∙◌, Bool, true, false, ◌&&◌, none, some, List, [], ◌∷◌, String, ◌==◌, eq_iff,
  arith, Bool-cases, Option-cases, inl, inr, is_some, if◌then◌else◌,
}
use punkgo_kernel.Prelude.Texts.{all_chars, is_ascii_hexdigit}
use punkgo_kernel.Core.Errors.{ok, ◌>>=◌}
use punkgo_kernel.State.BlobStore.{
  Path_, Files, same_path, read, remove, write, rename, in_directory, oid_to_path, sha256_hex, put,
  get, exists,
}
use punkgo_kernel.State.BlobStore.Addresses.{IsDigest, IsHex, sha256_hex-IsHex, parse_oid-IsHex}

same_path_refl : (p : Path_) → same_path p p ≡ true
same_path_refl [] = refl
same_path_refl (x ∷ xs) = rw ((eq_iff x x).1 refl) (same_path_refl xs)

same_path_eq : (p q : Path_) → same_path p q ≡ true → p ≡ q
same_path_eq [] [] h = refl
same_path_eq [] (y ∷ ys) h = cc
same_path_eq (x ∷ xs) [] h = cc
same_path_eq (x ∷ xs) (y ∷ ys) h = elim (Bool-cases (x == y)) [
  | inl e ↦
      (let first = (eq_iff x y).0 e in let rest = same_path_eq xs ys (ground (arith, h, e)) in cc)
  | inr e ↦ ground (arith, h, e)
]

read-remove : (p q : Path_) (fs : Files) → same_path q p ≡ false → read p (remove q fs) ≡ read p fs
unfolding read remove
read-remove p q [] h = refl
read-remove p q (f ∷ fs) h = elim (Bool-cases (same_path f.0 q)) [
  | inl e ↦
      (let other : same_path f.0 p ≡ false = rw (same_path_eq f.0 q e) h in
        rw (remove, e, read, other) (read-remove p q fs h))
  | inr e ↦ rw (remove, e, read, read-remove p q fs h) refl
]

read-write : (p : Path_) (bytes : List ℕ) (fs : Files) → read p (write p bytes fs) ≡ some bytes
unfolding read write
read-write p bytes fs = rw (same_path_refl p) refl

read-write_other :
    (p q : Path_) (bytes : List ℕ) (fs : Files)
    → same_path q p ≡ false
    → read p (write q bytes fs) ≡ read p fs
unfolding read write
read-write_other p q bytes fs h = rw h (read-remove p q fs h)

-- The place of a blob is that of no other, nor that of a file that is being written.
oid_to_path_other :
    (hex other : String)
    → (hex == other) ≡ false
    → same_path (oid_to_path hex) (oid_to_path other) ≡ false
unfolding oid_to_path
oid_to_path_other hex other h = ground (arith, h)

all_chars-append :
    (p : ℕ → Bool) (s t : String) → all_chars p (s ++ t) ≡ (all_chars p s && all_chars p t)
unfolding all_chars
all_chars-append p String.[] t = rw (append.nil t) refl
all_chars-append p (String.◌∷◌ c s) t =
    rw (append.cons c s t) ground (arith, all_chars-append p s t)

in_directory_other :
    (hex other : String)
    → all_chars is_ascii_hexdigit other ≡ true
    → same_path (in_directory hex (".tmp-" ++ hex)) (oid_to_path other) ≡ false
unfolding oid_to_path all_chars
in_directory_other hex other h = elim (Bool-cases ((".tmp-" ++ hex) == other)) [
  | inl e ↦
      (let same = (eq_iff (".tmp-" ++ hex) other).0 e in
        let parts = all_chars-append is_ascii_hexdigit ".tmp-" hex in
        (let hexes : all_chars is_ascii_hexdigit (".tmp-" ++ hex) ≡ true = rw same h in cc))
  | inr e ↦ ground (arith, e)
]

-- Every blob lies under the hash of its content.
abbrev pub IsAddressed : (List ℕ → List ℕ) → Files → Type 0
IsAddressed sha256 fs =
    (hex : String) (bytes : List ℕ)
    → all_chars is_ascii_hexdigit hex ≡ true
    → read (oid_to_path hex) fs ≡ some bytes
    → sha256_hex sha256 bytes ≡ hex

-- A blob was written: it is there, and other blobs are as before.
record Written (hex : String) (bytes : List ℕ) (fs fs' : Files) : Type 0 where
  there : read (oid_to_path hex) fs' ≡ some bytes
  others :
      (other : String)
      → all_chars is_ascii_hexdigit other ≡ true
      → (hex == other) ≡ false
      → read (oid_to_path other) fs' ≡ read (oid_to_path other) fs

put-Written :
    (sha256 : List ℕ → List ℕ) (bytes : List ℕ) (fs : Files)
    → read (oid_to_path (sha256_hex sha256 bytes)) fs ≡ none
    → (fs' : Files) × (put sha256 bytes fs ≡ ok ("sha256:" ++ sha256_hex sha256 bytes, fs'))
      × Written (sha256_hex sha256 bytes) bytes fs fs'
unfolding put rename
put-Written sha256 bytes fs h =
    let hex = sha256_hex sha256 bytes in
    let path = oid_to_path hex in
    let tmp_path = in_directory hex (".tmp-" ++ hex) in
    let begun = write tmp_path bytes fs in
    (
      write path bytes (remove tmp_path begun),
      rw (h, if◌then◌else◌, is_some, ◌>>=◌, rename, read-write tmp_path bytes fs) refl,
      record {
        there = read-write path bytes (remove tmp_path begun);
        others = λ other digits different.
            (let aside = in_directory_other hex other digits in
              read-write_other (oid_to_path other) path bytes (remove tmp_path begun)
                (oid_to_path_other hex other different)
              ∙ read-remove (oid_to_path other) tmp_path begun aside
              ∙ read-write_other (oid_to_path other) tmp_path bytes fs aside);
      },
    )

-- A blob of the address was stored: it is known and can be got, and has the hash of its address; every blob lies
-- under its hash, and those of other addresses are as before.
pub record Stored (sha256 : List ℕ → List ℕ) (hex : String) (fs fs' : Files) : Type 0 where
  pub found : List ℕ
  pub got : get ("sha256:" ++ hex) fs' ≡ ok found
  pub known : exists ("sha256:" ++ hex) fs' ≡ true
  pub hashed : sha256_hex sha256 found ≡ hex
  pub addressed : IsAddressed sha256 fs'
  pub others :
      (other : String)
      → all_chars is_ascii_hexdigit other ≡ true
      → (hex == other) ≡ false
      → read (oid_to_path other) fs' ≡ read (oid_to_path other) fs

get_hex :
    (hex : String) (bytes : List ℕ) (fs : Files)
    → IsHex hex
    → read (oid_to_path hex) fs ≡ some bytes
    → get ("sha256:" ++ hex) fs ≡ ok bytes
unfolding get
get_hex hex bytes fs h found = rw (parse_oid-IsHex hex h, ◌>>=◌, found) refl

exists_hex :
    (hex : String) (bytes : List ℕ) (fs : Files)
    → IsHex hex
    → read (oid_to_path hex) fs ≡ some bytes
    → exists ("sha256:" ++ hex) fs ≡ true
unfolding exists
exists_hex hex bytes fs h found = rw (exists, parse_oid-IsHex hex h, found) refl

Written-Stored :
    (sha256 : List ℕ → List ℕ) (bytes : List ℕ) (fs fs' : Files)
    → IsHex (sha256_hex sha256 bytes)
    → IsAddressed sha256 fs
    → Written (sha256_hex sha256 bytes) bytes fs fs'
    → Stored sha256 (sha256_hex sha256 bytes) fs fs'
Written-Stored sha256 bytes fs fs' h addressed w =
    let hex = sha256_hex sha256 bytes in
    record {
      found = bytes;
      got = get_hex hex bytes fs' h w.there;
      known = exists_hex hex bytes fs' h w.there;
      hashed = refl;
      addressed = λ other content digits here. elim (Bool-cases (hex == other)) [
        | inl e ↦
            (let same = (eq_iff hex other).0 e in
              let moved : read (oid_to_path hex) fs' ≡ some content = rw same here in
              let content_same : bytes ≡ content = cc in rw (← content_same) same)
        | inr e ↦ addressed other content digits (rw (← w.others other digits e) here)
      ];
      others = w.others;
    }

-- Where every blob lies under its hash, `put` succeeds with the address of its bytes, and stores them
-- or finds a blob of that address: the address is known and gives back bytes of the same hash, every blob still lies
-- under its hash, and blobs of other addresses are as before; if a hash has 32 bytes.
pub put-Stored :
    (sha256 : List ℕ → List ℕ) (bytes : List ℕ) (fs : Files)
    → ((data_ : List ℕ) → IsDigest (sha256 data_))
    → IsAddressed sha256 fs
    → (fs' : Files) × (put sha256 bytes fs ≡ ok ("sha256:" ++ sha256_hex sha256 bytes, fs'))
      × Stored sha256 (sha256_hex sha256 bytes) fs fs'
unfolding put
put-Stored sha256 bytes fs digests addressed =
    let hex = sha256_hex sha256 bytes in
    let h = sha256_hex-IsHex sha256 bytes (digests bytes) in
    elim (Option-cases (read (oid_to_path hex) fs)) [
      | inl missing ↦
          (let (fs', run, w) = put-Written sha256 bytes fs missing in
            (fs', run, Written-Stored sha256 bytes fs fs' h addressed w))
      | inr there ↦ (
        fs,
        rw there.1 refl,
        record {
          found = there.0;
          got = get_hex hex there.0 fs h there.1;
          known = exists_hex hex there.0 fs h there.1;
          hashed = addressed hex there.0 h.digits there.1;
          addressed = addressed;
          others = λ other digits different. refl;
        },
      )
    ]
