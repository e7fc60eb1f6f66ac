-- ===== src/Keystore.antt =====
-- server/internal/baselineintegrity/crypto/keystore.go, `NewDiskSigner` of crypto.go and `NewServer`
-- of trust/service.go. JSON and base64 are parameters.
pub mod KeyPairs
pub mod Reload
pub mod Atomic
use baseline_integrity.Base.{
  ℕ, zero, suc, ◌==◌, Bool, true, not, ◌||◌, Option, none, some, List, [], ◌∷◌, ◌++◌, is_nil,
  length, Text, codes, if◌then◌else◌,
}
use baseline_integrity.Base.Result.{Error, message, wrap, Result, ok, err, or_err, is_not_exist}
use baseline_integrity.Crypto.{Primitives, Codec, Entropy, Signer, private_key_size}
use baseline_integrity.Os.{
  FilePath, parent, Io, pure, raise, raise_if, of_result, wrapping, ◌>>=◌, ◌>>◌, attempt, mkdir_all,
  read_file, write_file, rename,
}
use baseline_integrity.Trust.{Server}

pub record DiskKeyFile : Type 0 where
  pub version : ℕ
  pub key_id : Text
  pub priv_b64 : Text

-- The first bytes of a list, `pub[:n]`.
unfoldable pub first_bytes : ℕ → Text → Text
first_bytes zero s = []
first_bytes (suc n) [] = []
first_bytes (suc n) (c ∷ s) = c ∷ first_bytes n s

-- A file beside another, with a suffix on its name.
abbrev pub with_suffix : FilePath → Text → FilePath
with_suffix [] suffix = suffix ∷ []
with_suffix (name ∷ d) suffix = (name ++ suffix) ∷ d

module _ (C : Primitives) (json : Codec DiskKeyFile) (base64 : Codec Text)
    (base64_url : Text → Text) where
  -- A key file that was read.
  unfoldable pub open_key : Text → Result Signer
  open_key b = elim (json.decode b) [
    | none ↦ err (wrap "keystore parse" (message "json"))
    | some f ↦
        if not (f.version == 1) || is_nil f.key_id || is_nil f.priv_b64
        then err (message "keystore invalid fields")
        else elim (base64.decode f.priv_b64) [
          | none ↦ err (wrap "keystore priv decode" (message "base64"))
          | some priv ↦
              if length priv == private_key_size
              then ok (record { key_id = f.key_id; priv = priv; pub_key = C.public priv })
              else err (message "wrong private key length")
        ]
  ]

  abbrev pub generated : Entropy → Result Text
  generated none = err (wrap "keystore generate" (message "rand"))
  generated (some bytes) = ok (C.generate bytes)

  -- `base64.EncodeToString` does not fail.
  abbrev pub encoded : Text → Text
  encoded priv = elim (base64.encode priv) [ none ↦ [] | some t ↦ t ]

  abbrev pub derived_key_id : Text → Text
  derived_key_id priv = codes "dev-" ++ base64_url (first_bytes 12 (C.public priv))

  unfoldable pub create_key : FilePath → Entropy → Io Signer
  create_key path entropy = do
    priv ← of_result (generated entropy)
    out ← of_result (
        or_err
          (json.encode
            (record { version = 1; key_id = derived_key_id priv; priv_b64 = encoded priv }))
          (wrap "keystore marshal" (message "json")))
    let tmp = with_suffix path (codes ".tmp")
    wrapping (wrap "keystore write tmp") (write_file tmp (out ++ (10 ∷ [])))
    wrapping (wrap "keystore rename") (rename tmp path)
    pure (record { key_id = derived_key_id priv; priv = priv; pub_key = C.public priv })

  -- What follows the attempt to read the file.
  unfoldable pub opened : FilePath → Entropy → Result Text → Io Signer
  opened path entropy (ok b) = of_result (open_key b)
  opened path entropy (err e) =
      if is_not_exist e then create_key path entropy else raise (wrap "keystore read" e)

  unfoldable pub load_or_create_ed25519 : FilePath → Entropy → Io Signer
  unfolding opened
  load_or_create_ed25519 path entropy = do
    wrapping (wrap "keystore mkdir") (mkdir_all (parent path))
    b ← attempt (read_file path)
    opened path entropy b

  unfoldable pub new_disk_signer : FilePath → Entropy → Io Signer
  new_disk_signer path entropy =
      wrapping (wrap "load/create signing key") (load_or_create_ed25519 path entropy)

  -- `trust.NewServer`, for the path of the key that its environment gives.
  unfoldable pub new_server : FilePath → Entropy → Io Server
  new_server path entropy = do
    signer ← new_disk_signer path entropy
    pure (record { signer = some signer })
