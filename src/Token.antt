-- ===== src/Token.antt =====
-- What a tier token stands for, apart from the two routines that check one: the specification that
-- server/internal/baselineintegrity/trust/service.go and verify/tier_token.go implement.
use baseline_integrity.Base.{ℕ, ◌≤◌, ◌≡◌, true, false, Option, none, some, is_nil, Text}
use baseline_integrity.Proto.{Timestamp, SignedEnvelope, TierToken, as_time}
use baseline_integrity.Crypto.{Primitives, Codec}

-- A token without its signature.
abbrev pub unsigned : TierToken → TierToken
unsigned t = record t { signature = none }

-- The token has an expiry that has not passed.
abbrev pub IsLive : Option Timestamp → ℕ → Type 0
IsLive none now = ⊥
IsLive (some exp) now = now ≤ as_time exp

-- The envelope vouches for the token: its payload is the token's own encoding, the owner of the key
-- signed it, and the token has not expired.
pub record IsGenuine (C : Primitives) (P : Codec TierToken) (pub_key : Text) (env : SignedEnvelope)
    (tok : TierToken) (now : ℕ) : Type 0 where
  pub payload-eq : P.encode (unsigned tok) ≡ some env.payload
  pub has_payload : is_nil env.payload ≡ false
  pub has_signature : is_nil env.signature ≡ false
  pub live : IsLive tok.expires_at now
  pub signed : C.verify pub_key env.payload env.signature ≡ true
