-- ===== src/Trust/Introspection.antt =====
-- `IntrospectTierToken` against the specification of a genuine token.
use baseline_integrity.Base.{
  ℕ, ◌≡◌, refl, true, none, some, length, text_eq, text_eq_iff, option_eq_iff, arith, inl, inr,
  Option-cases,
}
use baseline_integrity.Base.Result.{ok}
use baseline_integrity.Proto.{
  TierToken, SignedEnvelope, ref_eq, ref_eq_iff, tier_eq_iff, timestamp_eq, timestamp_eq_iff,
}
use baseline_integrity.Crypto.{Primitives, Codec, RoundTrips, Signer, verify}
use baseline_integrity.Token.{unsigned, IsLive, IsGenuine}
use baseline_integrity.Trust.{
  IntrospectTierTokenResponse, introspect_payload, introspect_envelope, introspect_tier_token,
}

-- The response that a valid token gets.
abbrev pub granted : TierToken → IntrospectTierTokenResponse
granted tok = record {
  valid = true;
  reason = "ok";
  tier = tok.tier;
  ref = tok.ref;
  expires_at = tok.expires_at;
}

module _ (C : Primitives) (P : Codec TierToken) (s : Signer) (tok : TierToken)
    (env : SignedEnvelope) (now : ℕ) where
  payload-granted :
      (signed : TierToken) (r : IntrospectTierTokenResponse)
      → signed.signature ≡ none
      → introspect_payload C P s tok env signed now ≡ ok r
      → r.valid ≡ true
      → (r ≡ granted tok)
        × (unsigned tok ≡ signed)
        × IsLive tok.expires_at now
        × (C.verify s.pub_key env.payload env.signature ≡ true)
  unfolding introspect_payload verify
  payload-granted signed r h e v = ground (
    arith,
    option_eq_iff ref_eq ref_eq_iff tok.ref signed.ref,
    tier_eq_iff tok.tier signed.tier,
    text_eq_iff tok.nonce_hash signed.nonce_hash,
    option_eq_iff timestamp_eq timestamp_eq_iff tok.issued_at signed.issued_at,
    option_eq_iff timestamp_eq timestamp_eq_iff tok.expires_at signed.expires_at,
  )

  payload-grants :
      (signed : TierToken)
      → length s.pub_key ≡ 32
      → unsigned tok ≡ signed
      → IsLive tok.expires_at now
      → C.verify s.pub_key env.payload env.signature ≡ true
      → introspect_payload C P s tok env signed now ≡ ok (granted tok)
  unfolding introspect_payload verify
  payload-grants signed size same live good = ground (
    arith,
    option_eq_iff ref_eq ref_eq_iff tok.ref signed.ref,
    tier_eq_iff tok.tier signed.tier,
    text_eq_iff tok.nonce_hash signed.nonce_hash,
    option_eq_iff timestamp_eq timestamp_eq_iff tok.issued_at signed.issued_at,
    option_eq_iff timestamp_eq timestamp_eq_iff tok.expires_at signed.expires_at,
  )

  envelope-granted :
      (r : IntrospectTierTokenResponse)
      → introspect_envelope C P s tok env now ≡ ok r
      → r.valid ≡ true
      → (r ≡ granted tok) × (env.key_id ≡ s.key_id) × IsGenuine C P s.pub_key env tok now
  unfolding introspect_envelope
  envelope-granted r e v = elim (Option-cases (P.decode env.payload)) [
    | inl bad ↦ ground (arith, bad)
    | inr (signed, d) ↦ ground (
      arith,
      text_eq_iff env.key_id s.key_id,
      option_eq_iff text_eq text_eq_iff (P.encode signed) (some env.payload),
      payload-granted signed r,
    )
  ]

  envelope-grants :
      RoundTrips P
      → length s.pub_key ≡ 32
      → env.key_id ≡ s.key_id
      → IsGenuine C P s.pub_key env tok now
      → introspect_envelope C P s tok env now ≡ ok (granted tok)
  unfolding introspect_envelope
  envelope-grants R size key g = ground (
    arith,
    R.decode-encode (unsigned tok) env.payload g.payload-eq,
    text_eq_iff env.key_id s.key_id,
    option_eq_iff text_eq text_eq_iff (P.encode (unsigned tok)) (some env.payload),
    payload-grants (unsigned tok) size refl g.live g.signed,
  )

module _ (C : Primitives) (P : Codec TierToken) (s : Signer) (tok : TierToken) (now : ℕ) where
  -- A response that calls a token valid is the full grant of that token, and it is given only if
  -- the token carries an envelope under the server's key that vouches for it: the payload is the
  -- canonical encoding of the token itself, the signature verifies and the token has not expired.
  pub introspect_tier_token_sound :
      (r : IntrospectTierTokenResponse)
      → introspect_tier_token C P s (some tok) now ≡ ok r
      → r.valid ≡ true
      → (r ≡ granted tok)
        × ((env : SignedEnvelope) × (tok.signature ≡ some env)
            × (env.key_id ≡ s.key_id)
            × IsGenuine C P s.pub_key env tok now)
  unfolding introspect_tier_token
  introspect_tier_token_sound r e v = elim (Option-cases tok.signature) [
    | inl missing ↦ ground arith
    | inr (env, found) ↦
        let (full, key, genuine) = envelope-granted C P s tok env now r (rw found at e) v in
        (full, (env, found, key, genuine))
  ]

  -- With a public key of 32 bytes and an encoder that round-trips, a token is granted if it carries
  -- an envelope under the server's key that vouches for it.
  pub introspect_tier_token_complete :
      RoundTrips P
      → length s.pub_key ≡ 32
      → (env : SignedEnvelope) → tok.signature ≡ some env
      → env.key_id ≡ s.key_id
      → IsGenuine C P s.pub_key env tok now
      → introspect_tier_token C P s (some tok) now ≡ ok (granted tok)
  unfolding introspect_tier_token
  introspect_tier_token_complete R size env found key g =
      ground (arith, envelope-grants C P s tok env now R size key g)
