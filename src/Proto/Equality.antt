-- ===== src/Proto/Equality.antt =====
-- `proto.Equal` on session references and timestamps, and `==` on tiers.
use baseline_integrity.Base.{◌≡◌, ◌↔◌, Bool, true, false, ◌&&◌, ◌==◌, text_eq, text_eq_iff, arith}
use baseline_integrity.Proto.Messages.{
  TrustTier, tier_unspecified, tier_open, tier_verified, tier_tournament, tier_unrecognized,
  SessionRef, Timestamp,
}

unfoldable pub tier_eq : TrustTier → TrustTier → Bool
tier_eq tier_unspecified tier_unspecified = true
tier_eq tier_open tier_open = true
tier_eq tier_verified tier_verified = true
tier_eq tier_tournament tier_tournament = true
tier_eq (tier_unrecognized n) (tier_unrecognized m) = n == m
tier_eq _ _ = false

pub tier_eq_iff : (a b : TrustTier) → (tier_eq a b ≡ true) ↔ (a ≡ b)
unfolding tier_eq
tier_eq_iff tier_unspecified b = ground arith
tier_eq_iff tier_open b = ground arith
tier_eq_iff tier_verified b = ground arith
tier_eq_iff tier_tournament b = ground arith
tier_eq_iff (tier_unrecognized n) b = ground arith

unfoldable pub ref_eq : SessionRef → SessionRef → Bool
ref_eq a b =
    text_eq a.session_id b.session_id
    && text_eq a.match_id b.match_id
    && text_eq a.player_id b.player_id

pub ref_eq_iff : (a b : SessionRef) → (ref_eq a b ≡ true) ↔ (a ≡ b)
unfolding ref_eq
ref_eq_iff a b = ground (
  arith,
  text_eq_iff a.session_id b.session_id,
  text_eq_iff a.match_id b.match_id,
  text_eq_iff a.player_id b.player_id,
)

unfoldable pub timestamp_eq : Timestamp → Timestamp → Bool
timestamp_eq a b = a.seconds == b.seconds && a.nanos == b.nanos

pub timestamp_eq_iff : (a b : Timestamp) → (timestamp_eq a b ≡ true) ↔ (a ≡ b)
unfolding timestamp_eq
timestamp_eq_iff a b = ground arith
