-- ===== src/Verify.antt =====
-- server/internal/baselineintegrity/verify/tier_token.go: `PublicKeySet` and
-- `VerifyTierTokenOffline`.
pub mod Soundness
use baseline_integrity.Base.{
  ℕ, Bool, true, not, ◌||◌, Option, none, some, List, [], ◌∷◌, is_nil, is_some, ltb, Text, text_eq,
  option_eq, if◌then◌else◌,
}
use baseline_integrity.Base.Result.{Error, message, Result, ok, err, ◌>>=◌, ◌>>◌, fail_if, or_err}
use baseline_integrity.Proto.{
  Timestamp, SignedEnvelope, TierToken, as_time, tier_eq, ref_eq, timestamp_eq,
}
use baseline_integrity.Crypto.{Primitives, Codec, verify}

-- A map from key ids to public keys; a missing id reads as the empty key.
abbrev pub PublicKeySet : Type 0
PublicKeySet = List (Text × Text)

unfoldable pub key_of : Text → PublicKeySet → Text
key_of id [] = []
key_of id ((k, v) ∷ keys) = let rest = key_of id keys in if text_eq id k then v else rest

abbrev pub err_missing_token : Error
err_missing_token = message "missing token"

abbrev pub err_missing_signature : Error
err_missing_signature = message "missing signature"

abbrev pub err_unknown_key_id : Error
err_unknown_key_id = message "unknown key_id"

abbrev pub err_bad_payload : Error
err_bad_payload = message "bad payload"

abbrev pub err_not_canonical : Error
err_not_canonical = message "payload not canonical"

abbrev pub err_wrapper_mismatch : Error
err_wrapper_mismatch = message "wrapper mismatch"

abbrev pub err_expired : Error
err_expired = message "expired"

abbrev pub err_bad_signature : Error
err_bad_signature = message "bad signature"

-- `tok.ExpiresAt == nil || now.After(tok.ExpiresAt.AsTime())`
abbrev pub is_expired : Option Timestamp → ℕ → Bool
is_expired none now = true
is_expired (some exp) now = ltb (as_time exp) now

module _ (C : Primitives) (P : Codec TierToken) where
  -- From the comparison with the signed payload on.
  unfoldable pub verify_payload :
      Text → TierToken → SignedEnvelope → TierToken → ℕ → Result (Unit {0})
  verify_payload pub_key tok env signed now = do
    fail_if
        (not (option_eq ref_eq tok.ref signed.ref)
          || not (tier_eq tok.tier signed.tier)
          || not (text_eq tok.nonce_hash signed.nonce_hash)
          || not (option_eq timestamp_eq tok.issued_at signed.issued_at)
          || not (option_eq timestamp_eq tok.expires_at signed.expires_at))
        err_wrapper_mismatch
    fail_if (is_expired tok.expires_at now) err_expired
    good ← verify C pub_key env.payload env.signature
    fail_if (not good) err_bad_signature

  unfoldable pub verify_envelope : Text → TierToken → SignedEnvelope → ℕ → Result (Unit {0})
  verify_envelope pub_key tok env now = do
    fail_if (is_nil pub_key) err_unknown_key_id
    signed ← or_err (P.decode env.payload) err_bad_payload
    fail_if (is_some signed.signature) err_not_canonical
    fail_if (not (option_eq text_eq (P.encode signed) (some env.payload))) err_not_canonical
    verify_payload pub_key tok env signed now

  unfoldable pub verify_tier_token_offline : Option TierToken → PublicKeySet → ℕ → Result (Unit {0})
  unfolding verify_payload verify_envelope
  verify_tier_token_offline none keys now = err err_missing_token
  verify_tier_token_offline (some tok) keys now = elim tok.signature [
    | none ↦ err err_missing_signature
    | some env ↦
        if is_nil env.payload || is_nil env.signature
        then err err_missing_signature
        else verify_envelope (key_of env.key_id keys) tok env now
  ]
