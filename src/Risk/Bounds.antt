-- ===== src/Risk/Bounds.antt =====
-- The bounds of the longitudinal risk, and what decay does to it.
use baseline_integrity.Base.{ℕ, ◌≡◌, ◌⊎◌, true, false, arith, inl, inr, if◌then◌else◌}
use baseline_integrity.Base.Int.{ℤ, pos, negsuc, time_sub}
use baseline_integrity.Float.{Float, IsOrdered, IsRounded}
use baseline_integrity.Risk.{
  RiskState, MatchRisk, ScoreConfig, clamp, elapsed_hours, apply_match_risk, soft_score,
}

module _ {F : Type 0} (R : Float F) where
  -- The total is neither negative nor above the cap, for any inputs, NaN included, and any cap that
  -- is not negative; the player keeps the id and the state gets the time of the update.
  pub apply_match_risk-bounds :
      IsOrdered R
      → (prev : RiskState F) (match : MatchRisk F) (cfg : ScoreConfig F) (now : ℕ)
      → R.lt cfg.risk_cap R.zero ≡ false
      → let next = apply_match_risk R prev match cfg now in
        (R.lt next.total_risk R.zero ≡ false)
        × (R.lt cfg.risk_cap next.total_risk ≡ false)
        × (next.player_id ≡ prev.player_id)
        × (next.last_update ≡ now)
  unfolding apply_match_risk clamp
  apply_match_risk-bounds O prev match cfg now h =
      ground (arith, O.lt_irrefl R.zero, O.lt_irrefl cfg.risk_cap)

  module _ (O : IsOrdered R) (M : IsRounded R) where
    floor-nonneg :
        (z : ℤ) → R.le R.zero (if R.lt (R.hours z) R.zero then R.zero else R.hours z) ≡ true
    floor-nonneg (pos n) = ground (arith, O.le-zero_zero, M.hours_pos n)
    floor-nonneg (negsuc n) = ground (arith, O.le-zero_zero, M.hours_negsuc n)

    elapsed-nonneg : (now last : ℕ) → R.le R.zero (elapsed_hours R now last) ≡ true
    unfolding elapsed_hours
    elapsed-nonneg now last = floor-nonneg (time_sub now last)

    -- The sum that `ApplyMatchRisk` clamps, if the match adds nothing.
    decayed_range :
        (d t total : F)
        → R.lt R.zero d ≡ true
        → R.le d R.one ≡ true
        → R.le R.zero t ≡ true
        → R.is_finite total ≡ true
        → R.le R.zero total ≡ true
        → (R.le R.zero (R.add (R.mul total (R.pow d t)) R.zero) ≡ true)
          × (R.le (R.add (R.mul total (R.pow d t)) R.zero) total ≡ true)
    decayed_range d t total p q r f n =
        let decay = M.pow_range d t p q r in
        let product = M.mul_range total (R.pow d t) f n decay.0 decay.1 in
        let sum = M.add-zero_range (R.mul total (R.pow d t)) product.0 in
        (sum.0, M.le_trans _ _ _ sum.1 product.1)

    clamp-le :
        (cap next total : F)
        → R.le R.zero next ≡ true
        → R.le next total ≡ true
        → R.le total cap ≡ true
        → R.le (clamp R cap next) total ≡ true
    unfolding clamp
    clamp-le cap next total p q r = ground (
      arith,
      M.not-lt_of_le R.zero next p,
      M.not-lt_of_le next cap (M.le_trans next total cap q r),
    )

    -- With a decay factor in (0, 1] and a finite total between 0 and the cap, a match without risk
    -- does not raise the total, however much time has passed and also if the clock went back.
    pub apply_match_risk_clean :
        (prev : RiskState F) (match : MatchRisk F) (cfg : ScoreConfig F) (now : ℕ)
        → match.value ≡ R.zero
        → R.lt R.zero cfg.decay_factor ≡ true
        → R.le cfg.decay_factor R.one ≡ true
        → R.is_finite prev.total_risk ≡ true
        → R.le R.zero prev.total_risk ≡ true
        → R.le prev.total_risk cfg.risk_cap ≡ true
        → let next = apply_match_risk R prev match cfg now in
          R.le next.total_risk prev.total_risk ≡ true
    unfolding apply_match_risk
    apply_match_risk_clean prev match cfg now clean p q f n below =
        let range =
          decayed_range cfg.decay_factor (elapsed_hours R now prev.last_update) prev.total_risk p q
            (elapsed-nonneg now prev.last_update) f n in
        rw clean (clamp-le cfg.risk_cap _ prev.total_risk range.0 range.1 below)

    -- For a finite positive cap and an input that is not NaN, the score lies between 0 and the cap.
    pub soft_score-range :
        (x cap : F)
        → R.is_finite cap ≡ true
        → R.lt R.zero cap ≡ true
        → (R.le x R.zero ≡ true) ⊎ (R.lt R.zero x ≡ true)
        → (R.le R.zero (soft_score R x cap) ≡ true) × (R.le (soft_score R x cap) cap ≡ true)
    unfolding soft_score
    soft_score-range x cap f p (inl low) = ground (arith, O.le-zero_zero, M.le_of_lt R.zero cap p)
    soft_score-range x cap f p (inr high) =
        let curve = M.curve_range x high in
        let product = M.mul_range cap _ f (M.le_of_lt R.zero cap p) curve.0 curve.1 in
        ground (arith, O.le-zero_zero, M.le_of_lt R.zero cap p, product)
