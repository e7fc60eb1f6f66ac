-- ===== src/Trust/Sessions.antt =====
-- `StartSession`: what it refuses, and that the token which it issues passes both checks.
use baseline_integrity.Base.{
  ℕ, ◌+◌, ◌≤◌, ◌≡◌, refl, true, false, ◌||◌, Option, none, some, is_nil, length, length-tabulate,
  tabulate, is_nil_of_pos, Text, arith,
}
use baseline_integrity.Base.Result.{is_ok, ok}
use baseline_integrity.Proto.{
  TierToken, SignedEnvelope, StartSessionRequest, StartSessionResponse, tier_eq, tier_open,
  tier_verified, new_timestamp, as_time-new_timestamp, unix_epoch,
}
use baseline_integrity.Crypto.{
  Primitives, IsLawful, Codec, Entropy, Signer, IsKeyPair, new_nonce32, sign,
}
use baseline_integrity.Crypto.Signatures.{IsKeyPair-IsSized, verify-sign_drawn}
use baseline_integrity.Token.{unsigned, IsGenuine}
use baseline_integrity.Trust.{
  Server, session_lifetime, session_id_of, match_id_of, open_session, session_for, start_session,
}

-- The envelope is under the server's key and holds a signature of the token's own encoding.
abbrev pub IsSealed :
    Primitives → Codec TierToken → Signer → TierToken → Option SignedEnvelope → Type 0
IsSealed C P signer tok none = ⊥
IsSealed C P signer tok (some env) =
    (env.key_id ≡ signer.key_id)
    × (P.encode (unsigned tok) ≡ some env.payload)
    × (env.signature ≡ C.sign signer.priv env.payload)

-- What a response to `StartSession` promises its caller: the token names the request's session, its
-- tier is OPEN, it commits to the nonce of 32 bytes, it expires with the session, and its envelope
-- under the server's key holds a signature of its own encoding.
pub record IsOpenSession (C : Primitives) (P : Codec TierToken) (signer : Signer)
    (req : StartSessionRequest) (now : ℕ) (r : StartSessionResponse) : Type 0 where
  pub ref-eq : r.ref ≡ req.ref
  pub token_ref-eq : r.open_tier_token.ref ≡ req.ref
  pub tier-eq : r.open_tier_token.tier ≡ tier_open
  pub length-nonce : length r.nonce ≡ 32
  pub nonce_hash-eq : r.open_tier_token.nonce_hash ≡ C.sha256 r.nonce
  pub expires_at-eq : r.expires_at ≡ some (new_timestamp (now + session_lifetime))
  pub token_expires_at-eq : r.open_tier_token.expires_at ≡ r.expires_at
  pub sealed : IsSealed C P signer r.open_tier_token r.open_tier_token.signature

module _ (C : Primitives) (P : Codec TierToken) where
  open_session-IsOpenSession :
      (signer : Signer) (req : StartSessionRequest) (now : ℕ) (entropy : Entropy)
      (r : StartSessionResponse)
      → open_session C P signer req now entropy ≡ ok r
      → IsOpenSession C P signer req now r
  unfolding open_session new_nonce32 sign
  open_session-IsOpenSession signer req now none r e = ground arith
  open_session-IsOpenSession signer req now (some bytes) r e =
      ground (arith, length-tabulate 32 bytes)

  session_for-IsOpenSession :
      (signer : Option Signer) (req : Option StartSessionRequest) (now : ℕ) (entropy : Entropy)
      (r : StartSessionResponse)
      → session_for C P signer req now entropy ≡ ok r
      → (s : Signer) × (signer ≡ some s)
        × (q : StartSessionRequest) × (req ≡ some q)
        × (is_nil (session_id_of q.ref) ≡ false)
        × (is_nil (match_id_of q.ref) ≡ false)
        × IsOpenSession C P s q now r
  unfolding session_for
  session_for-IsOpenSession none req now entropy r e = ground arith
  session_for-IsOpenSession (some s) none now entropy r e = ground arith
  session_for-IsOpenSession (some s) (some q) now entropy r e = (
    s,
    refl,
    q,
    refl,
    ground arith,
    ground arith,
    open_session-IsOpenSession s q now entropy r (ground arith),
  )

-- The encoder takes every token for this session that is not signed yet, and none of them has an
-- empty encoding.
abbrev pub Encodes : Codec TierToken → StartSessionRequest → Type 0
Encodes P req =
    (t : TierToken)
    → t.ref ≡ req.ref
    → t.signature ≡ none
    → (b : Text) × (P.encode t ≡ some b) × (is_nil b ≡ false)

module _ (C : Primitives) (P : Codec TierToken) where
  -- A session that is opened has a request with both ids, and its response is as `IsOpenSession`
  -- says, for the server's own signer.
  pub start_session_sound :
      (server : Option Server) (req : Option StartSessionRequest) (now : ℕ) (entropy : Entropy)
      (r : StartSessionResponse)
      → start_session C P server req now entropy ≡ ok r
      → (s : Signer) × (server ≡ some (record { signer = some s }))
        × (q : StartSessionRequest) × (req ≡ some q)
        × (is_nil (session_id_of q.ref) ≡ false)
        × (is_nil (match_id_of q.ref) ≡ false)
        × IsOpenSession C P s q now r
  unfolding start_session
  start_session_sound none req now entropy r e = ground arith
  start_session_sound (some server) req now entropy r e =
      let (s, owns, q, asks, session, match, o) =
        session_for-IsOpenSession C P server.signer req now entropy r e in
      (s, ground arith, q, asks, session, match, o)

  pub opened-IsOpenSession :
      (s : Signer) (q : StartSessionRequest) (now : ℕ) (entropy : Entropy)
      (r : StartSessionResponse)
      → start_session C P (some (record { signer = some s })) (some q) now entropy ≡ ok r
      → IsOpenSession C P s q now r
  unfolding start_session session_for
  opened-IsOpenSession s q now entropy r e =
      open_session-IsOpenSession C P s q now entropy r (ground arith)

  module _ (L : IsLawful C) (drawn : ℕ → ℕ) (s : Signer) (K : IsKeyPair C drawn s) where
    pub IsOpenSession-IsGenuine :
        (q : StartSessionRequest) (now t : ℕ) (r : StartSessionResponse) (env : SignedEnvelope)
        → Encodes P q
        → unix_epoch ≤ now
        → IsOpenSession C P s q now r
        → r.open_tier_token.signature ≡ some env
        → t ≤ now + session_lifetime
        → (env.key_id ≡ s.key_id) × IsGenuine C P s.pub_key env r.open_tier_token t
    IsOpenSession-IsGenuine q now t r env total epoch o found before =
        let token = r.open_tier_token in
        let sealed : IsSealed C P s token (some env) = rw found at o.sealed in
        let (b, encoded, full) = total (unsigned token) o.token_ref-eq refl in
        ground (
          arith,
          sealed,
          encoded,
          full,
          verify-sign_drawn C L drawn s env.payload K,
          is_nil_of_pos env.signature,
          L.length-sign s.priv env.payload (IsKeyPair-IsSized C L drawn s K).length-priv,
          as_time-new_timestamp (now + session_lifetime),
        )

    pub open_session-is_ok :
        (q : StartSessionRequest) (now : ℕ) (bytes : ℕ → ℕ)
        → Encodes P q
        → (tier_eq q.requested_tier tier_verified || tier_eq q.requested_tier tier_open) ≡ true
        → is_ok (open_session C P s q now (some bytes)) ≡ true
    unfolding open_session new_nonce32 sign
    open_session-is_ok q now bytes total tiers =
        let token : TierToken = record {
          ref = q.ref;
          tier = tier_open;
          nonce_hash = C.sha256 (tabulate 32 bytes);
          issued_at = some (new_timestamp now);
          expires_at = some (new_timestamp (now + session_lifetime));
          signature = none;
        } in
        let (b, encoded, full) = total token refl refl in
        ground (
          arith,
          encoded,
          (IsKeyPair-IsSized C L drawn s K).length-priv,
          is_nil_of_pos s.priv,
          is_nil_of_pos (C.sign s.priv b),
          L.length-sign s.priv b (IsKeyPair-IsSized C L drawn s K).length-priv,
          length-tabulate 32 bytes,
        )
