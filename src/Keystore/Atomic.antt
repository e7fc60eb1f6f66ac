-- ===== src/Keystore/Atomic.antt =====
-- What making a key can leave at the key's path, whatever faults are scheduled.
use baseline_integrity.Base.{
  ◌<◌, ◌≡◌, ◌⊎◌, ◌∙◌, refl, ap, sym, some, [], ◌∷◌, ◌++◌, length, length-append, Text, codes,
  text_eq_of_length, arith, inl, inr, Bool-cases, Option-cases,
}
use baseline_integrity.Base.Result.{Error, message, wrap, is_not_exist, Result, ok, err, or_err}
use baseline_integrity.Crypto.{Primitives, Codec, Entropy, Signer}
use baseline_integrity.Os.{
  FilePath, path_eq-cons, lookup, World, mkdir_all, read_file, write_file, rename, wrapping, rewrap,
  of_result, ◌>>◌, pure,
}
use baseline_integrity.Os.Appends.{IsFile, write_file-ok, rename-ok, rewrap-ok}
use baseline_integrity.Os.Reads.{read_file-Reads}
use baseline_integrity.Os.Spares.{IsNot, mkdir_all-Spares, write_file-Spares}
use baseline_integrity.Outbox.Atomic.{continue_with-after, rename-err}
use baseline_integrity.Keystore.{
  DiskKeyFile, generated, encoded, derived_key_id, create_key, opened, load_or_create_ed25519,
  new_disk_signer,
}

-- Wrapping an error changes no file.
rewrap-world : {A : Type 0} (f : Error → Error) (r : Result A × World) → (rewrap f r).1 ≡ r.1
rewrap-world f (ok a, w) = refl
rewrap-world f (err e, w) = refl

module _ (C : Primitives) (json : Codec DiskKeyFile) (base64 : Codec Text)
    (base64_url : Text → Text) (name : Text) (d : FilePath) (entropy : Entropy) where
  abbrev key_path : FilePath
  key_path = name ∷ d

  abbrev temporary : FilePath
  temporary = (name ++ codes ".tmp") ∷ d

  -- The whole file of a key that was made from the given randomness.
  abbrev pub IsKeyText : Text → Type 0
  IsKeyText b =
      (priv : Text) × (out : Text) × (generated C json base64 base64_url entropy ≡ ok priv)
      × (json.encode (record {
        version = 1;
        key_id = derived_key_id C json base64 base64_url priv;
        priv_b64 = encoded C json base64 base64_url priv;
      })
          ≡ some out)
      × (b ≡ out ++ (10 ∷ []))

  -- The key's path holds what it held before, or a whole new key.
  abbrev pub IsWholeKey : World → World → Type 0
  IsWholeKey w v =
      (lookup key_path v.files ≡ lookup key_path w.files)
      ⊎ ((b : Text) × IsKeyText b × IsFile key_path b v)

  temporary-IsNot : IsNot temporary key_path
  temporary-IsNot =
      let long : length name < length (name ++ codes ".tmp") =
        omega (arith, length-append name (codes ".tmp")) in
      rw (path_eq-cons, text_eq_of_length (name ++ codes ".tmp") name long) refl

  moved-IsWholeKey :
      (w u : World) (b : Text) (r : Result (Unit {0}) × World)
      → IsKeyText b
      → IsFile temporary b u
      → lookup key_path u.files ≡ lookup key_path w.files
      → rename temporary key_path u ≡ r
      → IsWholeKey w r.1
  moved-IsWholeKey w u b (ok tt, v) key tmp before e =
      inr (b, key, rename-ok temporary key_path u v b tmp e)
  moved-IsWholeKey w u b (err x, v) key tmp before e =
      inl (ap (lookup key_path) (rename-err temporary key_path u x v e) ∙ before)

  encoded-out :
      (priv out : Text) (u v : World)
      → of_result
          (or_err
            (json.encode (record {
              version = 1;
              key_id = derived_key_id C json base64 base64_url priv;
              priv_b64 = encoded C json base64 base64_url priv;
            }))
            (wrap "keystore marshal" (message "json")))
          u
        ≡ (ok out, v)
      → json.encode (record {
        version = 1;
        key_id = derived_key_id C json base64 base64_url priv;
        priv_b64 = encoded C json base64 base64_url priv;
      })
        ≡ some out
  encoded-out priv out u v e =
      elim (Option-cases (
        json.encode (record {
          version = 1;
          key_id = derived_key_id C json base64 base64_url priv;
          priv_b64 = encoded C json base64 base64_url priv;
        }))) [ inl bad ↦ ground (arith, bad) | inr (found, good) ↦ ground (arith, good) ]

  written-IsWholeKey :
      (w u : World) (b : Text) (s : Signer)
      → IsKeyText b
      → lookup key_path u.files ≡ lookup key_path w.files
      → IsWholeKey w
          ((wrapping (wrap "keystore write tmp") (write_file temporary b)
              >> (wrapping (wrap "keystore rename") (rename temporary key_path) >> pure s))
            u).1
  written-IsWholeKey w u b s key before =
      let write = write_file temporary b in
      let move = rename temporary key_path in
      let half = (write_file-Spares temporary b).spares u key_path temporary-IsNot ∙ before in
      continue_with-after (IsWholeKey w) _ (rewrap (wrap "keystore write tmp") (write u))
        (inl (ap (λ v. lookup key_path v.files) (rewrap-world _ (write u)) ∙ half))
        λ x v ran.
          let wrote = rewrap-ok (wrap "keystore write tmp") (write u) x v ran in
          let still_there : lookup key_path v.files ≡ lookup key_path w.files = rw wrote at half in
          let moved =
            moved-IsWholeKey w v b (move v) key (write_file-ok temporary u v b wrote) still_there
              refl in
          let whole : IsWholeKey w (rewrap (wrap "keystore rename") (move v)).1 =
            rw (rewrap-world (wrap "keystore rename") (move v)) moved in
          continue_with-after (IsWholeKey w) _ (rewrap (wrap "keystore rename") (move v)) whole
            (λ y v' done. rw done at whole)

  create_key-IsWholeKey :
      (w u : World)
      → lookup key_path u.files ≡ lookup key_path w.files
      → IsWholeKey w (create_key C json base64 base64_url key_path entropy u).1
  unfolding create_key
  create_key-IsWholeKey w u before =
      continue_with-after (IsWholeKey w) _ _ (inl before) λ priv v made.
        let first = sym (ap (λ r. lookup key_path r.1.files) made) ∙ before in
        continue_with-after (IsWholeKey w) _ _ (inl first) λ out v' printed.
          written-IsWholeKey w v' (out ++ (10 ∷ [])) _
            (priv, out, ap (λ r. r.0) made, encoded-out priv out v v' printed, refl)
            (sym (ap (λ r. lookup key_path r.1.files) printed) ∙ first)

  opened-IsWholeKey :
      (w u : World) (r : Result Text)
      → lookup key_path u.files ≡ lookup key_path w.files
      → IsWholeKey w (opened C json base64 base64_url key_path entropy r u).1
  unfolding opened
  opened-IsWholeKey w u (ok b) before = inl before
  opened-IsWholeKey w u (err e) before = elim (Bool-cases (is_not_exist e)) [
    | inl new ↦ rw new (create_key-IsWholeKey w u before)
    | inr old ↦ rw old (inl before)
  ]

  load_or_create-IsWholeKey :
      (w : World)
      → IsWholeKey w (load_or_create_ed25519 C json base64 base64_url key_path entropy w).1
  unfolding load_or_create_ed25519
  load_or_create-IsWholeKey w =
      let made = mkdir_all d w in
      let spared = (mkdir_all-Spares d).spares w key_path (omega arith) in
      let wrapped : lookup key_path (rewrap (wrap "keystore mkdir") made).1.files
          ≡ lookup key_path w.files =
        ap (λ v. lookup key_path v.files) (rewrap-world _ made) ∙ spared in
      continue_with-after (IsWholeKey w) _ (rewrap (wrap "keystore mkdir") made) (inl wrapped)
        λ x v ran.
          let before = sym (ap (λ r. lookup key_path r.1.files) ran) ∙ wrapped in
          opened-IsWholeKey w (read_file key_path v).1 (read_file key_path v).0
            (ap (lookup key_path) ((read_file-Reads key_path).keeps v) ∙ before)

  -- The key's path never shows a part of a key: after a service has loaded or made its signing key,
  -- under any faults and whatever came of it, the path holds what it held before, or it holds a file
  -- with the whole text of the key that the given randomness makes, and a line feed.
  pub new_disk_signer-IsWholeKey :
      (w : World) → IsWholeKey w (new_disk_signer C json base64 base64_url key_path entropy w).1
  unfolding new_disk_signer
  new_disk_signer-IsWholeKey w =
      rw
        (rewrap-world (wrap "load/create signing key")
          (load_or_create_ed25519 C json base64 base64_url key_path entropy w))
        (load_or_create-IsWholeKey w)
