-- ===== src/State/BlobStore/Addresses.antt =====
-- The names of blobs: what `put` of crates/punkgo-kernel/src/state/blob_store.rs hands out, `parse_oid`
-- reads.
use Prim.Native.Char.{Char, code, len_utf8, len_utf8_def}
use Prim.Native.String.len
use Prim.Native.String.{◌++◌, len}
use punkgo_kernel.Prelude.{
  ℕ, zero, suc, ◌*◌, ◌/◌, ◌%◌, ◌<◌, ◌≡◌, refl, ◌∙◌, true, List, [], ◌∷◌, String, arith, length, All,
  get_or,
}
use punkgo_kernel.Prelude.Texts.{
  all_chars, is_ascii_hexdigit, of_codes, strip_prefix-append, of_codes_cons,
}
use punkgo_kernel.Core.Action.{bytes_to_hex, lut}
use punkgo_kernel.Core.Errors.{ok}
use punkgo_kernel.State.BlobStore.{parse_oid, sha256_hex}

-- What is documented of SHA-256: 32 bytes.
pub record IsDigest (bytes : List ℕ) : Type 0 where
  pub long : length bytes ≡ 32
  pub bytes_lt : All (λ b. b < 256) bytes

pub record IsHex (hex : String) : Type 0 where
  pub digits : all_chars is_ascii_hexdigit hex ≡ true
  pub long : len hex ≡ 64

HexCode : ℕ → Type 0
HexCode c = is_ascii_hexdigit c ≡ true

get_or-All : (P : ℕ → Type 0) (xs : List ℕ) (i d : ℕ) → All P xs → i < length xs → P (get_or xs i d)
get_or-All P [] i d h k = absurd (omega (arith, k))
get_or-All P (x ∷ xs) zero d h k = h.0
get_or-All P (x ∷ xs) (suc i) d h k = get_or-All P xs i d h.1 (omega (arith, k))

lut-HexCode : All HexCode lut
unfolding HexCode lut
lut-HexCode = (
  refl,
  (
    refl,
    (
      refl,
      (
        refl,
        (
          refl,
          (
            refl,
            (refl, (refl, (refl, (refl, (refl, (refl, (refl, (refl, (refl, (refl, tt)))))))))),
          ),
        ),
      ),
    ),
  ),
)

length-lut : length lut ≡ 16
unfolding lut
length-lut = refl

nibble : (i : ℕ) → i < 16 → HexCode (get_or lut i 0)
nibble i h = get_or-All HexCode lut i 0 lut-HexCode (rw length-lut h)

bytes_to_hex-HexCode : (bs : List ℕ) → All (λ b. b < 256) bs → All HexCode (bytes_to_hex bs)
unfolding bytes_to_hex
bytes_to_hex-HexCode [] h = tt
bytes_to_hex-HexCode (b ∷ bs) h = (
  nibble (b / 16) (omega (arith, h.0)),
  (nibble (b % 16) (omega arith), bytes_to_hex-HexCode bs h.1),
)

length-bytes_to_hex : (bs : List ℕ) → length (bytes_to_hex bs) ≡ 2 * length bs
unfolding bytes_to_hex
length-bytes_to_hex [] = refl
length-bytes_to_hex (b ∷ bs) = omega (arith, length-bytes_to_hex bs)

hex_below : (n : ℕ) → is_ascii_hexdigit n ≡ true → n < 128
hex_below n h = ground (arith, h)

one_byte : (c : Char) → code c < 128 → len_utf8 c ≡ 1
one_byte c h = rw (len_utf8_def c) ground (arith, h)

-- The text of hexadecimal digits has them as its characters, one byte each.
of_codes_hex :
    (ns : List ℕ)
    → All HexCode ns
    → (all_chars is_ascii_hexdigit (of_codes ns) ≡ true) × (len (of_codes ns) ≡ length ns)
unfolding of_codes all_chars HexCode
of_codes_hex [] h = (refl, Prim.Native.String.len.nil)
of_codes_hex (n ∷ ns) h =
    let rest = of_codes_hex ns h.1 in
    let below = hex_below n h.0 in
    let (c, same, e) = of_codes_cons n ns (omega (arith, below)) in
    let width = one_byte c (rw same below) in
    rw e (
      (let hex : is_ascii_hexdigit (code c) ≡ true = rw same h.0 in ground (arith, hex, rest.0)),
      Prim.Native.String.len.cons c (of_codes ns) ∙ omega (arith, width, rest.1),
    )

pub sha256_hex-IsHex :
    (sha256 : List ℕ → List ℕ) (bytes : List ℕ)
    → IsDigest (sha256 bytes)
    → IsHex (sha256_hex sha256 bytes)
unfolding sha256_hex
sha256_hex-IsHex sha256 bytes d =
    let read =
      of_codes_hex (bytes_to_hex (sha256 bytes)) (bytes_to_hex-HexCode (sha256 bytes) d.bytes_lt) in
    record {
      digits = read.0;
      long = read.1 ∙ omega (arith, length-bytes_to_hex (sha256 bytes), d.long);
    }

-- `parse_oid` accepts `sha256:` with 64 hexadecimal digits.
pub parse_oid-IsHex : (hex : String) → IsHex hex → parse_oid ("sha256:" ++ hex) ≡ ok hex
unfolding parse_oid
parse_oid-IsHex hex h = rw (strip_prefix-append "sha256:" hex, h.digits, h.long) refl
