-- ===== src/Trust.antt =====
-- server/internal/baselineintegrity/trust/service.go: `Server`, `StartSession`, `GetPublicKeys` and
-- `IntrospectTierToken`. The clock and the random source are arguments.
pub mod Introspection
pub mod Sessions
pub mod Agreement
use baseline_integrity.Base.{
  ℕ, ◌+◌, ◌*◌, String, Bool, true, false, not, ◌||◌, Option, none, some, List, [], ◌∷◌, is_nil,
  is_none, is_some, length, ltb, ◌==◌, Text, text_eq, option_eq, codes, if◌then◌else◌,
}
use baseline_integrity.Base.Result.{
  Code, internal, invalid_argument, Error, message, status, panicked, Result, ok, err, ◌>>=◌, ◌>>◌,
  fail_if, or_err, on_err,
}
use baseline_integrity.Proto.{
  TrustTier, tier_unspecified, tier_open, tier_verified, SessionRef, Timestamp, SignedEnvelope,
  TierToken, PublicKey, Policy, StartSessionRequest, StartSessionResponse, GetPublicKeysResponse,
  second, new_timestamp, as_time, tier_eq, ref_eq, timestamp_eq,
}
use baseline_integrity.Crypto.{Primitives, Codec, Entropy, Signer, new_nonce32, sign, verify}

pub record Server : Type 0 where
  pub signer : Option Signer

pub record IntrospectTierTokenResponse : Type 0 where
  pub valid : Bool
  pub reason : String
  pub tier : TrustTier
  pub ref : Option SessionRef
  pub expires_at : Option Timestamp

abbrev pub session_lifetime : ℕ
session_lifetime = 600 * second

abbrev pub cache_lifetime : ℕ
cache_lifetime = 86_400 * second

-- `GetSessionId` and `GetMatchId` of a nil reference are empty.
abbrev pub session_id_of : Option SessionRef → Text
session_id_of none = []
session_id_of (some r) = r.session_id

abbrev pub match_id_of : Option SessionRef → Text
match_id_of none = []
match_id_of (some r) = r.match_id

-- The public policy of a session.
abbrev pub v1_policy : Policy
v1_policy = record {
  max_tier_supported = tier_verified;
  telemetry_schema_id = codes "baselineintegrity.telemetry.v1";
  verified_requires_companion = true;
  allowlisted_game_paths = [];
}

-- The refusal with a reason and no other field.
abbrev pub invalid : String → IntrospectTierTokenResponse
invalid reason = record {
  valid = false;
  reason = reason;
  tier = tier_unspecified;
  ref = none;
  expires_at = none;
}

module _ (C : Primitives) (P : Codec TierToken) where
  -- The part of `StartSession` that builds and signs the token.
  unfoldable pub open_session :
      Signer → StartSessionRequest → ℕ → Entropy → Result StartSessionResponse
  open_session signer req now entropy = do
    nonce ← on_err (λ e. status internal "nonce generation failed") (new_nonce32 entropy)
    let exp = now + session_lifetime
    let open_unsigned : TierToken = record {
      ref = req.ref;
      tier = tier_open;
      nonce_hash = C.sha256 nonce;
      issued_at = some (new_timestamp now);
      expires_at = some (new_timestamp exp);
      signature = none;
    }
    payload ← or_err (P.encode open_unsigned) (status internal "token marshal failed")
    sig ← on_err (λ e. status internal "token sign failed") (sign C (some signer) payload)
    fail_if (is_nil sig) (status internal "token sign returned empty signature")
    let open_token : TierToken = record open_unsigned {
      signature = some (record {
        key_id = signer.key_id;
        payload = payload;
        signature = sig;
        signed_at = some (new_timestamp now);
      });
    }
    fail_if (not (tier_eq req.requested_tier tier_verified || tier_eq req.requested_tier tier_open))
        (status invalid_argument "requested_tier must be OPEN or VERIFIED")
    fail_if (is_none open_token.signature) (status internal "missing token signature")
    fail_if (not (length nonce == 32)) (message "nonce length is not 32 bytes")
    ok (record {
      ref = req.ref;
      nonce = nonce;
      policy = v1_policy;
      open_tier_token = open_token;
      verified_available = true;
      expires_at = some (new_timestamp exp);
    })

  -- The checks on the request, for a signer that may be missing.
  unfoldable pub session_for :
      Option Signer → Option StartSessionRequest → ℕ → Entropy → Result StartSessionResponse
  session_for none req now entropy = err (status internal "trust server not initialized")
  session_for (some signer) none now entropy = err (status invalid_argument "request is nil")
  session_for (some signer) (some req) now entropy =
      if is_nil (session_id_of req.ref) || is_nil (match_id_of req.ref)
      then err (status invalid_argument "ref.session_id and ref.match_id are required")
      else open_session signer req now entropy

  unfoldable pub start_session :
      Option Server → Option StartSessionRequest → ℕ → Entropy → Result StartSessionResponse
  unfolding session_for open_session
  start_session none req now entropy = err (status internal "trust server not initialized")
  start_session (some s) req now entropy = session_for s.signer req now entropy

  -- The comparison of the wrapper with the signed payload, the expiry and the signature.
  unfoldable pub introspect_payload :
      Signer → TierToken → SignedEnvelope → TierToken → ℕ → Result IntrospectTierTokenResponse
  introspect_payload signer tok env signed now =
      if not (option_eq ref_eq tok.ref signed.ref)
      then ok (invalid "ref_mismatch")
      else if not (tier_eq tok.tier signed.tier)
      then ok (invalid "tier_mismatch")
      else if not (text_eq tok.nonce_hash signed.nonce_hash)
      then ok (invalid "nonce_hash_mismatch")
      else if not (option_eq timestamp_eq tok.issued_at signed.issued_at)
      then ok (invalid "issued_at_mismatch")
      else if not (option_eq timestamp_eq tok.expires_at signed.expires_at)
      then ok (invalid "expires_at_mismatch")
      else elim tok.expires_at [
        | none ↦ ok (invalid "missing_expires_at")
        | some exp ↦
            if ltb (as_time exp) now
            then ok (record {
              valid = false;
              reason = "expired";
              tier = tok.tier;
              ref = tok.ref;
              expires_at = some exp;
            })
            else do
              good ← verify C signer.pub_key env.payload env.signature
              ok (
                  if good
                  then record {
                    valid = true;
                    reason = "ok";
                    tier = tok.tier;
                    ref = tok.ref;
                    expires_at = some exp;
                  }
                  else invalid "bad_signature")
      ]

  -- The decoding of the payload and the checks that it is canonical.
  unfoldable pub introspect_envelope :
      Signer → TierToken → SignedEnvelope → ℕ → Result IntrospectTierTokenResponse
  introspect_envelope signer tok env now =
      if is_nil env.payload || is_nil env.signature
      then ok (invalid "missing_signature_bytes")
      else if not (text_eq env.key_id signer.key_id)
      then ok (invalid "unknown_key_id")
      else elim (P.decode env.payload) [
        | none ↦ ok (invalid "bad_payload")
        | some signed ↦
            if is_some signed.signature
            then ok (invalid "payload_not_canonical")
            else if not (option_eq text_eq (P.encode signed) (some env.payload))
            then ok (invalid "payload_not_canonical")
            else introspect_payload signer tok env signed now
      ]

  -- The request's token is `none` where the request or its token is nil.
  unfoldable pub introspect_tier_token :
      Signer → Option TierToken → ℕ → Result IntrospectTierTokenResponse
  unfolding introspect_payload introspect_envelope
  introspect_tier_token signer none now = ok (invalid "missing_token")
  introspect_tier_token signer (some tok) now = elim tok.signature [
    | none ↦ ok (invalid "missing_signature")
    | some env ↦ introspect_envelope signer tok env now
  ]

-- The active key, and until when it may be cached. A nil signer is a nil dereference.
unfoldable pub get_public_keys : Server → ℕ → Result GetPublicKeysResponse
get_public_keys s now = do
  signer ← or_err s.signer panicked
  ok (record {
    keys = record { key_id = signer.key_id; ed25519 = signer.pub_key } ∷ [];
    cache_until = new_timestamp (now + cache_lifetime);
  })
