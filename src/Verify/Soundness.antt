-- ===== src/Verify/Soundness.antt =====
-- `VerifyTierTokenOffline` against the specification of a genuine token.
use baseline_integrity.Base.{
  ℕ, ◌≡◌, refl, Bool, false, Option, some, is_nil, length, Text, text_eq, text_eq_iff,
  option_eq_iff, arith, inl, inr, Option-cases,
}
use baseline_integrity.Base.Result.{ok}
use baseline_integrity.Proto.{
  TierToken, SignedEnvelope, ref_eq, ref_eq_iff, tier_eq_iff, timestamp_eq, timestamp_eq_iff,
}
use baseline_integrity.Crypto.{Primitives, Codec, RoundTrips, verify}
use baseline_integrity.Token.{unsigned, IsLive, IsGenuine}
use baseline_integrity.Verify.{
  PublicKeySet, key_of, verify_payload, verify_envelope, verify_tier_token_offline,
}

module _ (C : Primitives) (P : Codec TierToken) (pub_key : Text) (tok : TierToken)
    (env : SignedEnvelope) (now : ℕ) where
  verify_payload-ok :
      (signed : TierToken)
      → signed.signature ≡ Option.none
      → verify_payload C P pub_key tok env signed now ≡ ok tt
      → (unsigned tok ≡ signed)
        × IsLive tok.expires_at now
        × (C.verify pub_key env.payload env.signature ≡ Bool.true)
  unfolding verify_payload verify
  verify_payload-ok signed h e = ground (
    arith,
    option_eq_iff ref_eq ref_eq_iff tok.ref signed.ref,
    tier_eq_iff tok.tier signed.tier,
    text_eq_iff tok.nonce_hash signed.nonce_hash,
    option_eq_iff timestamp_eq timestamp_eq_iff tok.issued_at signed.issued_at,
    option_eq_iff timestamp_eq timestamp_eq_iff tok.expires_at signed.expires_at,
  )

  verify_payload-accepts :
      (signed : TierToken)
      → length pub_key ≡ 32
      → unsigned tok ≡ signed
      → IsLive tok.expires_at now
      → C.verify pub_key env.payload env.signature ≡ Bool.true
      → verify_payload C P pub_key tok env signed now ≡ ok tt
  unfolding verify_payload verify
  verify_payload-accepts signed size same live good = ground (
    arith,
    option_eq_iff ref_eq ref_eq_iff tok.ref signed.ref,
    tier_eq_iff tok.tier signed.tier,
    text_eq_iff tok.nonce_hash signed.nonce_hash,
    option_eq_iff timestamp_eq timestamp_eq_iff tok.issued_at signed.issued_at,
    option_eq_iff timestamp_eq timestamp_eq_iff tok.expires_at signed.expires_at,
  )

  verify_envelope-ok :
      verify_envelope C P pub_key tok env now ≡ ok tt
      → is_nil env.payload ≡ false
      → is_nil env.signature ≡ false
      → (is_nil pub_key ≡ false) × IsGenuine C P pub_key env tok now
  unfolding verify_envelope
  verify_envelope-ok e p q = elim (Option-cases (P.decode env.payload)) [
    | inl bad ↦ ground (arith, bad)
    | inr (signed, d) ↦ ground (
      arith,
      option_eq_iff text_eq text_eq_iff (P.encode signed) (some env.payload),
      verify_payload-ok signed,
    )
  ]

  verify_envelope-accepts :
      RoundTrips P
      → length pub_key ≡ 32
      → IsGenuine C P pub_key env tok now
      → verify_envelope C P pub_key tok env now ≡ ok tt
  unfolding verify_envelope
  verify_envelope-accepts R size g = ground (
    arith,
    R.decode-encode (unsigned tok) env.payload g.payload-eq,
    option_eq_iff text_eq text_eq_iff (P.encode (unsigned tok)) (some env.payload),
    verify_payload-accepts (unsigned tok) size refl g.live g.signed,
  )

module _ (C : Primitives) (P : Codec TierToken) (tok : TierToken) (keys : PublicKeySet)
    (now : ℕ) where
  -- A token that passes offline carries an envelope whose key is in the set and that vouches for it:
  -- the payload is the canonical encoding of the token itself, the signature verifies under that
  -- key and the token has not expired.
  pub verify_tier_token_offline_sound :
      verify_tier_token_offline C P (some tok) keys now ≡ ok tt
      → (env : SignedEnvelope) × (tok.signature ≡ some env)
        × (is_nil (key_of env.key_id keys) ≡ false)
        × IsGenuine C P (key_of env.key_id keys) env tok now
  unfolding verify_tier_token_offline
  verify_tier_token_offline_sound e = elim (Option-cases tok.signature) [
    | inl missing ↦ ground arith
    | inr (env, found) ↦ ground (arith, verify_envelope-ok C P (key_of env.key_id keys) tok env now)
  ]

  -- With an encoder that round-trips, every token passes whose envelope vouches for it under a key
  -- of 32 bytes of the set.
  pub verify_tier_token_offline_complete :
      RoundTrips P
      → (env : SignedEnvelope) → tok.signature ≡ some env
      → length (key_of env.key_id keys) ≡ 32
      → IsGenuine C P (key_of env.key_id keys) env tok now
      → verify_tier_token_offline C P (some tok) keys now ≡ ok tt
  unfolding verify_tier_token_offline
  verify_tier_token_offline_complete R env found size g =
      ground (arith, verify_envelope-accepts C P (key_of env.key_id keys) tok env now R size g)
