-- ===== src/Keystore/Reload.antt =====
-- A key file that was opened or created is opened again.
use baseline_integrity.Base.{
  ℕ, ◌≡◌, ◌∙◌, refl, ap, false, none, some, List, [], ◌∷◌, ◌++◌, is_nil, length, String, Text,
  codes, arith, inl, inr, Option-cases, Bool-cases,
}
use baseline_integrity.Base.Result.{Result, ok, err, wrap, is_not_exist}
use baseline_integrity.Crypto.{Primitives, IsLawful, Codec, Entropy, Signer}
use baseline_integrity.Os.{
  FilePath, parent, World, wrapping, mkdir_all, read_file, write_file, rename,
}
use baseline_integrity.Os.Appends.{
  continue_with-ok, rewrap-ok, IsFile, write_file-ok, read_file-ok, rename-ok,
}
use baseline_integrity.Os.Room.{IsRoom, mkdir_all-still}
use baseline_integrity.Os.Still.{still, read_file-still}
use baseline_integrity.Keystore.{
  DiskKeyFile, with_suffix, open_key, encoded, derived_key_id, create_key, opened,
  load_or_create_ed25519, new_disk_signer,
}

-- What a key file relies on: JSON reads what it printed, a line feed behind it included, and base64
-- takes every key and gives it back, the empty text for the empty key only.
pub record KeyFormats (json : Codec DiskKeyFile) (base64 : Codec Text) : Type 0 where
  pub json_line :
      (f : DiskKeyFile) (b : Text) → json.encode f ≡ some b → json.decode (b ++ 10 ∷ []) ≡ some f
  pub base64_key :
      (key : Text)
      → (t : Text) × (base64.encode key ≡ some t)
        × (base64.decode t ≡ some key)
        × (is_nil t ≡ is_nil key)

is_nil_of_size : (s : Text) → length s ≡ 64 → is_nil s ≡ false
is_nil_of_size [] h = absurd (omega arith)
is_nil_of_size (c ∷ s) h = refl

module _ (C : Primitives) (L : IsLawful C) (json : Codec DiskKeyFile) (base64 : Codec Text)
    (base64_url : Text → Text) (K : KeyFormats json base64) where
  -- The file has a key that is opened as this signer.
  abbrev pub Opens : FilePath → Signer → World → Type 0
  Opens path s w = (b : Text) × IsFile path b w × (open_key C json base64 base64_url b ≡ ok s)

  abbrev fresh_key : (ℕ → ℕ) → DiskKeyFile
  fresh_key bytes =
      let priv = C.generate bytes in
      record {
        version = 1;
        key_id = derived_key_id C json base64 base64_url priv;
        priv_b64 = encoded C json base64 base64_url priv;
      }

  open_key-created :
      (bytes : ℕ → ℕ) (out : Text)
      → let priv = C.generate bytes in
        json.encode (record {
          version = 1;
          key_id = derived_key_id C json base64 base64_url priv;
          priv_b64 = encoded C json base64 base64_url priv;
        })
          ≡ some out
        → open_key C json base64 base64_url (out ++ 10 ∷ [])
          ≡ ok (record {
            key_id = derived_key_id C json base64 base64_url priv;
            priv = priv;
            pub_key = C.public priv;
          })
  unfolding open_key
  open_key-created bytes out e =
      let priv = C.generate bytes in
      let (t, taken, back, size) = K.base64_key priv in
      ground (
        arith,
        K.json_line (fresh_key bytes) out e,
        taken,
        size,
        is_nil_of_size priv (L.length-generate bytes),
        back,
        L.length-generate bytes,
      )

  create_key-Opens :
      (path : FilePath) (entropy : Entropy) (s : Signer) (w w' : World)
      → create_key C json base64 base64_url path entropy w ≡ (ok s, w')
      → Opens path s w'
  unfolding create_key
  create_key-Opens path none s w w' e = ground arith
  create_key-Opens path (some bytes) s w w' e =
      elim (Option-cases (json.encode (fresh_key bytes))) [
        | inl bad ↦ ground (arith, bad)
        | inr (out, good) ↦
            let tmp = with_suffix path (codes ".tmp") in
            let write = wrapping (wrap "keystore write tmp") (write_file tmp (out ++ (10 ∷ []))) in
            let move = wrapping (wrap "keystore rename") (rename tmp path) in
            let (u, v, wrote, run) = continue_with-ok _ (write w) s w' (rw good at e) in
            let (u', v', moved, end) = continue_with-ok _ (move v) s w' run in
            let here =
              write_file-ok tmp w v (out ++ (10 ∷ []))
                (rewrap-ok _ (write_file tmp (out ++ (10 ∷ [])) w) tt v wrote) in
            let (t, there) =
              rename-ok tmp path v v' (out ++ (10 ∷ [])) here
                (rewrap-ok _ (rename tmp path v) tt v' moved) in
            (
              out ++ 10 ∷ [],
              (t, ground (arith, end, there)),
              open_key-created bytes out good ∙ ap (λ r. r.0) end,
            )
      ]

  opened-Opens :
      (path : FilePath) (entropy : Entropy) (s : Signer) (r : Result Text) (v x w' : World)
      → read_file path v ≡ (r, x)
      → opened C json base64 base64_url path entropy r x ≡ (ok s, w')
      → Opens path s w'
  unfolding opened
  opened-Opens path entropy s (ok b) v x w' read run =
      let (t, there) = read_file-ok path v x b read in
      (b, (t, ground (arith, run, there)), ap (λ r. r.0) run)
  opened-Opens path entropy s (err y) v x w' read run = elim (Bool-cases (is_not_exist y)) [
    | inl new ↦ create_key-Opens path entropy s x w' (rw new at run)
    | inr old ↦ ground (arith, old)
  ]

  load_or_create-Opens :
      (path : FilePath) (entropy : Entropy) (s : Signer) (w w' : World)
      → load_or_create_ed25519 C json base64 base64_url path entropy w ≡ (ok s, w')
      → Opens path s w'
  unfolding load_or_create_ed25519
  load_or_create-Opens path entropy s w w' e =
      let mkdir = wrapping (wrap "keystore mkdir") (mkdir_all (parent path)) in
      let (u, v, made, run) = continue_with-ok _ (mkdir w) s w' e in
      opened-Opens path entropy s (read_file path v).0 v (read_file path v).1 w' refl run

  -- A signer that was loaded or created, under any faults, is loaded again, whatever randomness is
  -- offered, when no fault is scheduled and the directories of its file are still there.
  pub new_disk_signer-again :
      (path : FilePath) (entropy entropy' : Entropy) (s : Signer) (w w' : World) (c : ℕ → ℕ) (n : ℕ)
      (l : List String)
      → new_disk_signer C json base64 base64_url path entropy w ≡ (ok s, w')
      → IsRoom (parent path) w'.files
      → new_disk_signer C json base64 base64_url path entropy' (still w'.files c n l)
        ≡ (ok s, still w'.files c n l)
  unfolding new_disk_signer load_or_create_ed25519 opened
  new_disk_signer-again path entropy entropy' s w w' c n l e room =
      let run =
        rewrap-ok (wrap "load/create signing key")
          (load_or_create_ed25519 C json base64 base64_url path entropy w) s w' e in
      let (b, (t, there), key) = load_or_create-Opens path entropy s w w' run in
      rw (
        mkdir_all-still c n l (parent path) w'.files room,
        read_file-still c n l w'.files path b t there,
        key,
      )
