-- ===== src/Keystore/KeyPairs.antt =====
-- The signers that the key store of server/internal/baselineintegrity/crypto/keystore.go returns.
use baseline_integrity.Base.{
  ℕ, refl, ap, ◌≡◌, ◌⊎◌, none, some, Text, arith, Option-cases, Bool-cases, inl, inr,
}
use baseline_integrity.Base.Result.{Result, ok, err, wrap, is_not_exist}
use baseline_integrity.Crypto.{Primitives, IsLawful, Codec, Entropy, Signer, IsSized, IsKeyPair}
use baseline_integrity.Os.{FilePath, World, wrapping, mkdir_all, parent, read_file}
use baseline_integrity.Os.Appends.{continue_with-ok, rewrap-ok, IsFile, read_file-ok}
use baseline_integrity.Os.Yields.{Yields}
use baseline_integrity.Keystore.{
  DiskKeyFile, open_key, create_key, opened, load_or_create_ed25519, new_disk_signer,
}

-- The pair was drawn by this call.
abbrev pub IsDrawn : Primitives → Entropy → Signer → Type 0
IsDrawn C entropy s = (bytes : ℕ → ℕ) × (entropy ≡ some bytes) × IsKeyPair C bytes s

-- The private key stands in these bytes of a key file. Whether its two halves belong together, nobody
-- has checked.
abbrev pub IsStored : Codec DiskKeyFile → Codec Text → Text → Signer → Type 0
IsStored json base64 b s =
    (f : DiskKeyFile) × (json.decode b ≡ some f) × (base64.decode f.priv_b64 ≡ some s.priv)

-- What a signer is that the key store returns, for the files that it leaves.
abbrev pub IsDiskSigner :
    Primitives → Codec DiskKeyFile → Codec Text → FilePath → Entropy → Signer → World → Type 0
IsDiskSigner C json base64 path entropy s w =
    IsSized C s × (IsDrawn C entropy s ⊎ ((b : Text) × IsFile path b w × IsStored json base64 b s))

module _ (C : Primitives) (L : IsLawful C) (json : Codec DiskKeyFile) (base64 : Codec Text)
    (base64_url : Text → Text) where
  open_key-IsStored :
      (b : Text) (s : Signer)
      → open_key C json base64 base64_url b ≡ ok s
      → IsSized C s × IsStored json base64 b s
  unfolding open_key
  open_key-IsStored b s e = elim (Option-cases (json.decode b)) [
    | inl bad ↦ ground arith
    | inr (f, read) ↦ elim (Option-cases (base64.decode f.priv_b64)) [
      | inl bad ↦ ground arith
      | inr (priv, decoded) ↦ (
        record { length-priv = ground arith; pub_key-eq = ground arith },
        (f, read, ground (arith, decoded)),
      )
    ]
  ]

  create_key-Yields :
      (path : FilePath) (entropy : Entropy)
      → Yields
          (λ s. IsSized C s × IsDrawn C entropy s)
          (create_key C json base64 base64_url path entropy)
  unfolding create_key
  create_key-Yields path none = record { value_ok = λ w s e. cc }
  create_key-Yields path (some bytes) = record {
    value_ok = λ w s e. (
      record { length-priv = ground (arith, L.length-generate bytes); pub_key-eq = ground arith },
      (bytes, refl, record { priv-eq = ground arith; pub_key-eq = ground arith }),
    );
  }

  opened-IsDiskSigner :
      (path : FilePath) (entropy : Entropy) (s : Signer) (r : Result Text) (v x w' : World)
      → read_file path v ≡ (r, x)
      → opened C json base64 base64_url path entropy r x ≡ (ok s, w')
      → IsDiskSigner C json base64 path entropy s w'
  unfolding opened
  opened-IsDiskSigner path entropy s (ok b) v x w' read run =
      let (t, there) = read_file-ok path v x b read in
      let (sized, stored) = open_key-IsStored b s (ap (λ r. r.0) run) in
      (sized, inr (b, (t, ground (arith, run, there)), stored))
  opened-IsDiskSigner path entropy s (err y) v x w' read run = elim (Bool-cases (is_not_exist y)) [
    | inl new ↦
        let (sized, drawn) =
          (create_key-Yields path entropy).value_ok x s (ap (λ r. r.0) (rw new at run)) in
        (sized, inl drawn)
    | inr old ↦ ground (arith, old)
  ]

  -- A signer that was loaded or created, under whatever faults, has a private key of 64 bytes and
  -- the public key that `Public()` reads out of it, and either its pair was drawn by this call, or its
  -- private key is the one that the key file holds.
  pub new_disk_signer-IsDiskSigner :
      (path : FilePath) (entropy : Entropy) (w w' : World) (s : Signer)
      → new_disk_signer C json base64 base64_url path entropy w ≡ (ok s, w')
      → IsDiskSigner C json base64 path entropy s w'
  unfolding new_disk_signer load_or_create_ed25519
  new_disk_signer-IsDiskSigner path entropy w w' s e =
      let run =
        rewrap-ok (wrap "load/create signing key")
          (load_or_create_ed25519 C json base64 base64_url path entropy w) s w' e in
      let mkdir = wrapping (wrap "keystore mkdir") (mkdir_all (parent path)) in
      let (u, v, made, rest) = continue_with-ok _ (mkdir w) s w' run in
      opened-IsDiskSigner path entropy s (read_file path v).0 v (read_file path v).1 w' refl rest
