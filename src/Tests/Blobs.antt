-- ===== src/Tests/Blobs.antt =====
-- A blob that is stored in an empty store.
use Prim.Native.String.{◌++◌}
use punkgo_kernel.Prelude.{ℕ, ◌<◌, ◌≡◌, refl, List, [], ◌∷◌, arith}
use punkgo_kernel.Core.Errors.{ok}
use punkgo_kernel.State.BlobStore.{Files, read, put, sha256_hex}
use punkgo_kernel.State.BlobStore.Addresses.{IsDigest}
use punkgo_kernel.State.BlobStore.Content.{Stored, IsAddressed, put-Stored}

-- A hash of 32 bytes.
abbrev hash : List ℕ → List ℕ
hash [] =
    0 ∷ 0 ∷ 0 ∷ 0 ∷ 0 ∷ 0 ∷ 0 ∷ 0 ∷ 0 ∷ 0 ∷ 0 ∷ 0 ∷ 0 ∷ 0 ∷ 0 ∷ 0 ∷ 0 ∷ 0 ∷ 0 ∷ 0 ∷ 0 ∷ 0 ∷ 0 ∷ 0
    ∷ 0 ∷ 0 ∷ 0 ∷ 0 ∷ 0 ∷ 0 ∷ 0 ∷ 0 ∷ []
hash (b ∷ bs) = hash bs

abbrev byte : 0 < 256
byte = omega arith

hash-IsDigest : (bytes : List ℕ) → IsDigest (hash bytes)
hash-IsDigest [] = record {
  long = refl;
  bytes_lt = (
    byte,
    (
      byte,
      (
        byte,
        (
          byte,
          (
            byte,
            (
              byte,
              (
                byte,
                (
                  byte,
                  (
                    byte,
                    (
                      byte,
                      (
                        byte,
                        (
                          byte,
                          (
                            byte,
                            (
                              byte,
                              (
                                byte,
                                (
                                  byte,
                                  (
                                    byte,
                                    (
                                      byte,
                                      (
                                        byte,
                                        (
                                          byte,
                                          (
                                            byte,
                                            (
                                              byte,
                                              (
                                                byte,
                                                (
                                                  byte,
                                                  (
                                                    byte,
                                                    (
                                                      byte,
                                                      (
                                                        byte,
                                                        (byte, (byte, (byte, (byte, (byte, tt))))),
                                                      ),
                                                    ),
                                                  ),
                                                ),
                                              ),
                                            ),
                                          ),
                                        ),
                                      ),
                                    ),
                                  ),
                                ),
                              ),
                            ),
                          ),
                        ),
                      ),
                    ),
                  ),
                ),
              ),
            ),
          ),
        ),
      ),
    ),
  );
}
hash-IsDigest (b ∷ bs) = hash-IsDigest bs

empty-IsAddressed : IsAddressed hash []
unfolding read
empty-IsAddressed hex bytes digits here = cc

put-Stored_example :
    (fs : Files) × (put hash (7 ∷ 8 ∷ []) [] ≡ ok ("sha256:" ++ sha256_hex hash (7 ∷ 8 ∷ []), fs))
    × Stored hash (sha256_hex hash (7 ∷ 8 ∷ [])) [] fs
put-Stored_example = put-Stored hash (7 ∷ 8 ∷ []) [] hash-IsDigest empty-IsAddressed
