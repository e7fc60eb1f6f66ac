-- ===== src/Trust/Agreement.antt =====
-- `StartSession`, `IntrospectTierToken` and `VerifyTierTokenOffline` together.
use baseline_integrity.Base.{
  ℕ, ◌+◌, ◌≤◌, ◌≡◌, ◌↔◌, refl, true, false, ◌||◌, some, List, [], ◌∷◌, is_nil, length, Text,
  text_eq_iff, arith, inl, inr, Option-cases,
}
use baseline_integrity.Base.Result.{is_ok-some, Result, ok, err}
use baseline_integrity.Proto.{
  TierToken, SignedEnvelope, PublicKey, StartSessionRequest, StartSessionResponse,
  GetPublicKeysResponse, tier_eq, tier_open, tier_verified, unix_epoch,
}
use baseline_integrity.Crypto.{Primitives, IsLawful, Codec, RoundTrips, Entropy, Signer, IsKeyPair}
use baseline_integrity.Crypto.Signatures.{IsKeyPair-IsSized, length-pub_key}
use baseline_integrity.Token.{IsGenuine}
use baseline_integrity.Verify.{PublicKeySet, key_of, verify_tier_token_offline}
use baseline_integrity.Verify.Soundness.{
  verify_tier_token_offline_sound, verify_tier_token_offline_complete,
}
use baseline_integrity.Trust.{
  Server, session_lifetime, session_id_of, match_id_of, session_for, start_session,
  introspect_tier_token, get_public_keys,
}
use baseline_integrity.Trust.Introspection.{
  granted, introspect_tier_token_sound, introspect_tier_token_complete,
}
use baseline_integrity.Trust.Sessions.{
  Encodes, opened-IsOpenSession, open_session-is_ok, IsOpenSession-IsGenuine,
}

abbrev pub server_of : Signer → Server
server_of s = record { signer = some s }

-- The loop with which a game server turns the response of `GetPublicKeys` into its key set.
abbrev pub key_set : List PublicKey → PublicKeySet
key_set [] = []
key_set (k ∷ keys) = (k.key_id, k.ed25519) ∷ key_set keys

abbrev pub published : Result GetPublicKeysResponse → PublicKeySet
published (ok r) = key_set r.keys
published (err e) = []

module _ (C : Primitives) (P : Codec TierToken) (s : Signer) where
  key_of-published_self :
      (asked : ℕ) (id : Text)
      → id ≡ s.key_id
      → key_of id (published (get_public_keys (server_of s) asked)) ≡ s.pub_key
  unfolding key_of get_public_keys
  key_of-published_self asked id e = ground (arith, text_eq_iff id s.key_id)

  key_of-published_some :
      (asked : ℕ) (id : Text)
      → is_nil (key_of id (published (get_public_keys (server_of s) asked))) ≡ false
      → id ≡ s.key_id
  unfolding key_of get_public_keys
  key_of-published_some asked id e = ground (arith, text_eq_iff id s.key_id)

  abbrev keys : ℕ → PublicKeySet
  keys asked = published (get_public_keys (server_of s) asked)

  sound :
      (tok : TierToken) (now : ℕ)
      → introspect_tier_token C P s (some tok) now ≡ ok (granted tok)
      → (granted tok ≡ granted tok)
        × (env : SignedEnvelope) × (tok.signature ≡ some env)
        × (env.key_id ≡ s.key_id)
        × IsGenuine C P s.pub_key env tok now
  sound tok now valid =
      let (full, (env, found, id, genuine)) =
        introspect_tier_token_sound C P s tok now (granted tok) valid refl in
      (full, env, found, id, genuine)

  -- With an encoder that round-trips and a public key of 32 bytes, a token passes offline against
  -- the published keys exactly when the server introspects it as valid, at every time.
  pub offline_iff_online :
      RoundTrips P
      → length s.pub_key ≡ 32
      → (tok : TierToken) (asked now : ℕ)
      → (verify_tier_token_offline C P
            (some tok)
            (published (get_public_keys (server_of s) asked))
            now
          ≡ ok tt)
        ↔ (introspect_tier_token C P s (some tok) now ≡ ok (granted tok))
  offline_iff_online R size tok asked now = (
    λ passed.
        let (env, found, known, genuine) =
          verify_tier_token_offline_sound C P tok (keys asked) now passed in
        let id = key_of-published_some asked env.key_id known in
        introspect_tier_token_complete C P s tok now R size env found id
          (rw (key_of-published_self asked env.key_id id) at genuine),
    λ valid.
        let (full, env, found, id, genuine) = sound tok now valid in
        let known = key_of-published_self asked env.key_id id in
        verify_tier_token_offline_complete C P tok (keys asked) now R env found (rw known size)
          (rw known genuine),
  )

  -- For a server with a key pair that was drawn, an encoder that takes the unsigned tokens of the
  -- session, a request with both ids for the tier OPEN or VERIFIED and a random source that works, a
  -- session is opened.
  pub start_session-total :
      IsLawful C
      → (drawn : ℕ → ℕ) → IsKeyPair C drawn s
      → (q : StartSessionRequest) (now : ℕ) (bytes : ℕ → ℕ) → Encodes P q
      → is_nil (session_id_of q.ref) ≡ false
      → is_nil (match_id_of q.ref) ≡ false
      → (tier_eq q.requested_tier tier_verified || tier_eq q.requested_tier tier_open) ≡ true
      → (r : StartSessionResponse) × (start_session C P
            (some (server_of s))
            (some q)
            now
            (some bytes)
          ≡ ok r)
  unfolding start_session session_for
  start_session-total L drawn K q now bytes total session match tiers =
      let (r, e) = is_ok-some _ (open_session-is_ok C P L drawn s K q now bytes total tiers) in
      (r, ground (arith, e))

  -- For a server with a key pair that was drawn, and an encoder that round-trips and takes the unsigned
  -- tokens of the session, the token of a session that was opened since 1970 is accepted until the
  -- session expires, by the server and, against the published keys, offline.
  pub start_session-accepted :
      IsLawful C
      → RoundTrips P
      → (drawn : ℕ → ℕ) → IsKeyPair C drawn s
      → (q : StartSessionRequest) (now t asked : ℕ) (entropy : Entropy) (r : StartSessionResponse)
      → Encodes P q
      → unix_epoch ≤ now
      → t ≤ now + session_lifetime
      → start_session C P (some (server_of s)) (some q) now entropy ≡ ok r
      → let token = r.open_tier_token in
        (introspect_tier_token C P s (some token) t ≡ ok (granted token))
        × (verify_tier_token_offline C P
              (some token)
              (published (get_public_keys (server_of s) asked))
              t
            ≡ ok tt)
  start_session-accepted L R drawn K q now t asked entropy r total epoch before opened =
      let o = opened-IsOpenSession C P s q now entropy r opened in
      let size = length-pub_key C L s (IsKeyPair-IsSized C L drawn s K) in
      elim (Option-cases r.open_tier_token.signature) [
        | inl missing ↦ absurd (rw missing at o.sealed)
        | inr (env, found) ↦
            let (id, genuine) =
              IsOpenSession-IsGenuine C P L drawn s K q now t r env total epoch o found before in
            let valid =
              introspect_tier_token_complete C P s r.open_tier_token t R size env found id
                genuine in
            (valid, (offline_iff_online R size r.open_tier_token asked t).1 valid)
      ]
