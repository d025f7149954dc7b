-- ===== src/State/BlobStore.antt =====
-- crates/punkgo-kernel/src/state/blob_store.rs: blobs under the hash of their content, on a file
-- system that is a list of files: a path is the list of its components below the root of the store,
-- and no read or write fails but for a missing file. SHA-256 is a parameter.
pub mod Addresses
pub mod Content
use Prim.Native.String.{◌++◌, len, slice}
use punkgo_kernel.Prelude.{
  ℕ, ◌≡◌, Bool, true, false, not, ◌&&◌, ◌||◌, Option, none, some, List, [], ◌∷◌, String, ◌==◌, eqb,
  is_some, if◌then◌else◌,
}
use punkgo_kernel.Prelude.Texts.{strip_prefix, all_chars, is_ascii_hexdigit, of_codes}
use punkgo_kernel.Core.Action.{bytes_to_hex}
use punkgo_kernel.Core.Errors.{
  policy_violation, io, KernelResult, ok, err, raise_if, ok_or, ◌>>=◌, ◌>>◌,
}

abbrev pub Path_ : Type 0
Path_ = List String

abbrev pub Files : Type 0
Files = List (Path_ × List ℕ)

abbrev pub same_path : Path_ → Path_ → Bool
same_path [] [] = true
same_path [] (y ∷ ys) = false
same_path (x ∷ xs) [] = false
same_path (x ∷ xs) (y ∷ ys) = x == y && same_path xs ys

-- `fs::read`, with `path.exists()` where it finds a file.
unfoldable pub read : Path_ → Files → Option (List ℕ)
read path [] = none
read path (f ∷ fs) = let rest = read path fs in if same_path f.0 path then some f.1 else rest

unfoldable pub remove : Path_ → Files → Files
remove path [] = []
remove path (f ∷ fs) = let rest = remove path fs in if same_path f.0 path then rest else f ∷ rest

-- `fs::write` and `fs::rename`
unfoldable pub write : Path_ → List ℕ → Files → Files
write path data_ fs = (path, data_) ∷ remove path fs

unfoldable pub rename : Path_ → Path_ → Files → KernelResult Files
rename from to fs = elim (read from fs) [
  | none ↦ err (io "rename")
  | some data_ ↦ ok (write to data_ (remove from fs))
]

-- The directory of a blob, and its path: `{root}/sha256/{hex[0:2]}/{hex[2:4]}/{full_hex}`.
abbrev pub in_directory : String → String → Path_
in_directory hex file = "sha256" ∷ slice hex 0 2 ∷ slice hex 2 4 ∷ file ∷ []

unfoldable pub oid_to_path : String → Path_
oid_to_path hex = in_directory hex hex

unfoldable pub parse_oid : String → KernelResult String
parse_oid oid = do
  hex ← ok_or (strip_prefix "sha256:" oid) (policy_violation "invalid OID format")
  raise_if (not (eqb (len hex) 64) || not (all_chars is_ascii_hexdigit hex))
      (policy_violation "invalid OID hex")
  ok hex

module _ (sha256 : List ℕ → List ℕ) where
  unfoldable pub sha256_hex : List ℕ → String
  unfolding bytes_to_hex of_codes
  sha256_hex data_ = of_codes (bytes_to_hex (sha256 data_))

  -- The file is written beside its place, and then moved.
  unfoldable pub put : List ℕ → Files → KernelResult (String × Files)
  put data_ fs =
      let hex = sha256_hex data_ in
      let path = oid_to_path hex in
      let tmp_path = in_directory hex (".tmp-" ++ hex) in
      if is_some (read path fs)
      then ok ("sha256:" ++ hex, fs)
      else (rename tmp_path path (write tmp_path data_ fs) >>= λ fs'. ok ("sha256:" ++ hex, fs'))

unfoldable pub get : String → Files → KernelResult (List ℕ)
get oid fs = do
  hex ← parse_oid oid
  ok_or (read (oid_to_path hex) fs) (policy_violation "blob not found")

unfoldable pub exists : String → Files → Bool
exists oid fs = elim (parse_oid oid) [
  | err e ↦ false
  | ok hex ↦ is_some (read (oid_to_path hex) fs)
]
