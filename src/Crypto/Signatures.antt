-- ===== src/Crypto/Signatures.antt =====
-- What a signer of crypto/crypto.go signs, it vouches for with its public key.
use baseline_integrity.Base.{
  ℕ, ◌≡◌, refl, false, true, some, none, is_nil, length, Text, arith, [], ◌∷◌,
}
use baseline_integrity.Base.Result.{ok}
use baseline_integrity.Crypto.{
  Primitives, IsLawful, Entropy, Signer, IsSized, IsKeyPair, new_ephemeral_signer, sign, verify,
}

is_nil_of_size : (s : Text) → length s ≡ 64 → is_nil s ≡ false
is_nil_of_size [] h = absurd (omega arith)
is_nil_of_size (c ∷ s) h = refl

module _ (C : Primitives) (L : IsLawful C) where
  -- An ephemeral signer is a key pair.
  new_ephemeral_signer-IsKeyPair :
      (key_id : Text) (entropy : Entropy) (s : Signer)
      → new_ephemeral_signer C key_id entropy ≡ ok s
      → (bytes : ℕ → ℕ) × IsKeyPair C bytes s
  unfolding new_ephemeral_signer
  new_ephemeral_signer-IsKeyPair key_id none s e = ground arith
  new_ephemeral_signer-IsKeyPair key_id (some bytes) s e =
      (bytes, record { priv-eq = ground arith; pub_key-eq = ground arith })

  pub IsKeyPair-IsSized : (bytes : ℕ → ℕ) (s : Signer) → IsKeyPair C bytes s → IsSized C s
  IsKeyPair-IsSized bytes s h = record {
    length-priv = rw h.priv-eq (L.length-generate bytes);
    pub_key-eq = h.pub_key-eq;
  }

  pub length-pub_key : (s : Signer) → IsSized C s → length s.pub_key ≡ 32
  length-pub_key s h = rw h.pub_key-eq (L.length-public s.priv h.length-priv)

  -- The public key of a key pair verifies what its private key signs.
  pub verify-sign_drawn :
      (bytes : ℕ → ℕ) (s : Signer) (payload : Text)
      → IsKeyPair C bytes s
      → C.verify s.pub_key payload (C.sign s.priv payload) ≡ true
  verify-sign_drawn bytes s payload h = rw (h.pub_key-eq, h.priv-eq) (L.verify-sign bytes payload)

  -- A key pair signs every payload, and its public key verifies the signature.
  verify-sign_key_pair :
      (bytes : ℕ → ℕ) (s : Signer) (payload : Text)
      → IsKeyPair C bytes s
      → (sig : Text) × (sign C (some s) payload ≡ ok sig)
        × (verify C s.pub_key payload sig ≡ ok true)
  unfolding sign verify
  verify-sign_key_pair bytes s payload h =
      let sized = IsKeyPair-IsSized bytes s h in
      (
        C.sign s.priv payload,
        ground (arith, sized.length-priv, is_nil_of_size s.priv sized.length-priv),
        ground (arith, length-pub_key s sized, verify-sign_drawn bytes s payload h),
      )

  -- Whatever is drawn, an ephemeral signer signs every payload, and its public key verifies it.
  pub new_ephemeral_signer-vouches :
      (key_id : Text) (entropy : Entropy) (s : Signer) (payload : Text)
      → new_ephemeral_signer C key_id entropy ≡ ok s
      → (sig : Text) × (sign C (some s) payload ≡ ok sig)
        × (verify C s.pub_key payload sig ≡ ok true)
  new_ephemeral_signer-vouches key_id entropy s payload e =
      let (bytes, h) = new_ephemeral_signer-IsKeyPair key_id entropy s e in
      verify-sign_key_pair bytes s payload h
