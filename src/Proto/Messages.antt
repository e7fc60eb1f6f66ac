-- ===== src/Proto/Messages.antt =====
-- The messages as records.
use baseline_integrity.Base.{ℕ, Bool, Option, List, Text, ◌+◌, ◌*◌, ◌/◌, ◌%◌, ◌-◌, ◌≤◌, ◌≡◌, arith}

-- proto3 enums are open: a number without a name is kept.
pub data TrustTier : Type 0 where
  tier_unspecified tier_open tier_verified tier_tournament : TrustTier
  tier_unrecognized : ℕ → TrustTier

pub record SessionRef : Type 0 where
  pub session_id : Text
  pub match_id : Text
  pub player_id : Text

-- `google.protobuf.Timestamp`; dates before 1970 are left out.
pub record Timestamp : Type 0 where
  pub seconds : ℕ
  pub nanos : ℕ

pub record SignedEnvelope : Type 0 where
  pub key_id : Text
  pub payload : Text
  pub signature : Text
  pub signed_at : Option Timestamp

pub record TierToken : Type 0 where
  pub ref : Option SessionRef
  pub tier : TrustTier
  pub nonce_hash : Text
  pub issued_at : Option Timestamp
  pub expires_at : Option Timestamp
  pub signature : Option SignedEnvelope

pub record PublicKey : Type 0 where
  pub key_id : Text
  pub ed25519 : Text

pub record Policy : Type 0 where
  pub max_tier_supported : TrustTier
  pub telemetry_schema_id : Text
  pub verified_requires_companion : Bool
  pub allowlisted_game_paths : List Text

pub record StartSessionRequest : Type 0 where
  pub ref : Option SessionRef
  pub game_build_id : Text
  pub requested_tier : TrustTier

pub record StartSessionResponse : Type 0 where
  pub ref : Option SessionRef
  pub nonce : Text
  pub policy : Policy
  pub open_tier_token : TierToken
  pub verified_available : Bool
  pub expires_at : Option Timestamp

pub record GetPublicKeysResponse : Type 0 where
  pub keys : List PublicKey
  pub cache_until : Timestamp

pub record Counter : Type 0 where
  pub name : Text
  pub value : ℕ

pub record Histogram : Type 0 where
  pub name : Text
  pub bucket_count : ℕ
  pub buckets : List ℕ

-- Instants of Go's `time.Time`: nanoseconds since its zero value, January 1 of year 1, UTC.
abbrev pub second : ℕ
second = 1_000_000_000

-- January 1, 1970.
abbrev pub unix_epoch : ℕ
unix_epoch = 62_135_596_800 * second

-- `timestamppb.New` and `AsTime`.
unfoldable pub new_timestamp : ℕ → Timestamp
new_timestamp t = record { seconds = (t - unix_epoch) / second; nanos = (t - unix_epoch) % second }

unfoldable pub as_time : Timestamp → ℕ
as_time ts = unix_epoch + ts.seconds * second + ts.nanos

-- An instant since 1970 survives the message.
pub as_time-new_timestamp : (t : ℕ) → unix_epoch ≤ t → as_time (new_timestamp t) ≡ t
unfolding as_time new_timestamp
as_time-new_timestamp t h = omega arith
