-- ===== src/Crypto.antt =====
-- server/internal/baselineintegrity/crypto/crypto.go, over the primitives of Go's crypto packages
-- and over an encoder. Both are parameters: a record of functions, and a record of what their
-- documentation promises.
pub mod Signatures
use baseline_integrity.Base.{
  [], ◌∷◌, ◌+◌, ◌/◌, ◌%◌, ltb, ℕ, ◌≡◌, Bool, Option, none, some, is_nil, length, ◌==◌, Text,
  tabulate, if◌then◌else◌,
}
use baseline_integrity.Base.Result.{message, panicked, Result, ok, err}

-- `crypto/ed25519` and `crypto/sha256`.
pub record Primitives : Type 0 where
  -- `Public()` of a private key.
  pub public : Text → Text
  pub sign : Text → Text → Text
  pub verify : Text → Text → Text → Bool
  pub sha256 : Text → Text
  -- The private key of a pair that `GenerateKey` draws.
  pub generate : (ℕ → ℕ) → Text

abbrev pub private_key_size : ℕ
private_key_size = 64

abbrev pub public_key_size : ℕ
public_key_size = 32

-- A private key of 64 bytes is a seed and the public key behind it. Only of a key that was drawn is
-- it known that the two belong together, so that what it signs is verified.
pub record IsLawful (C : Primitives) : Type 0 where
  pub verify-sign :
      (bytes : ℕ → ℕ) (payload : Text)
      → let priv = C.generate bytes in
        C.verify (C.public priv) payload (C.sign priv payload) ≡ Bool.true
  pub length-sign : (priv payload : Text) → length priv ≡ 64 → length (C.sign priv payload) ≡ 64
  pub length-generate : (bytes : ℕ → ℕ) → length (C.generate bytes) ≡ 64
  pub length-public : (priv : Text) → length priv ≡ 64 → length (C.public priv) ≡ 32

-- An encoder of values (`proto.Marshal`, `json.Marshal`), which may refuse a value, and its decoder.
pub record Codec (A : Type 0) : Type 0 where
  pub encode : A → Option Text
  pub decode : Text → Option A

-- What was encoded decodes to itself.
pub record RoundTrips {A : Type 0} (P : Codec A) : Type 0 where
  pub decode-encode : (a : A) (b : Text) → P.encode a ≡ some b → P.decode b ≡ some a

-- One draw of `crypto/rand`: the bytes that it yields, or a failure.
abbrev pub Entropy : Type 0
Entropy = Option (ℕ → ℕ)

unfoldable pub new_nonce32 : Entropy → Result Text
new_nonce32 none = err (message "rand")
new_nonce32 (some bytes) = ok (tabulate 32 bytes)

pub record Signer : Type 0 where
  pub key_id : Text
  pub priv : Text
  pub pub_key : Text

-- Two hexadecimal digits to a byte (`hex.EncodeToString`).
abbrev pub hex_digit : ℕ → ℕ
hex_digit n = if ltb n 10 then 48 + n else 87 + n

unfoldable pub hex_encode : Text → Text
hex_encode [] = []
hex_encode (c ∷ s) = hex_digit (c / 16 % 16) ∷ hex_digit (c % 16) ∷ hex_encode s

module _ (C : Primitives) where
  abbrev pub sha256 : Text → Text
  sha256 b = C.sha256 b

  unfoldable pub hex_sha256 : Text → Text
  unfolding hex_encode
  hex_sha256 b = hex_encode (C.sha256 b)

  unfoldable pub new_ephemeral_signer : Text → Entropy → Result Signer
  new_ephemeral_signer key_id none = err (message "rand")
  new_ephemeral_signer key_id (some bytes) =
      let priv = C.generate bytes in
      ok (record { key_id = key_id; priv = priv; pub_key = C.public priv })

  -- `ed25519.Sign` panics on a key of another size.
  unfoldable pub sign : Option Signer → Text → Result Text
  sign none payload = err (message "signer not initialized")
  sign (some s) payload =
      if is_nil s.priv
      then err (message "signer not initialized")
      else if length s.priv == private_key_size
      then ok (C.sign s.priv payload)
      else err panicked

  -- `ed25519.Verify` panics on a key of another size.
  unfoldable pub verify : Text → Text → Text → Result Bool
  verify pub_key payload sig =
      if length pub_key == public_key_size then ok (C.verify pub_key payload sig) else err panicked

  -- A private key of the right size, with the public key that `Public()` reads out of it.
  pub record IsSized (s : Signer) : Type 0 where
    pub length-priv : length s.priv ≡ 64
    pub pub_key-eq : s.pub_key ≡ C.public s.priv

  -- A key pair that `GenerateKey` drew, of these bytes.
  pub record IsKeyPair (bytes : ℕ → ℕ) (s : Signer) : Type 0 where
    pub priv-eq : s.priv ≡ C.generate bytes
    pub pub_key-eq : s.pub_key ≡ C.public s.priv
