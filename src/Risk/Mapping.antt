-- ===== src/Risk/Mapping.antt =====
-- When a player's aggregates map to a risk.
use baseline_integrity.Base.{
  ℕ, ◌≡◌, ◌⊎◌, inl, inr, refl, true, false, Option, some, List, [], ◌∷◌, is_nil, All, Text,
  text_eq_iff, codes, arith, Option-cases,
}
use baseline_integrity.Base.Result.{ok, is_ok, is_ok-some}
use baseline_integrity.Proto.{SessionRef}
use baseline_integrity.Float.{Float}
use baseline_integrity.Risk.{
  PlayerAggregates, Quantiles, MatchRisk, MappingConfig, QuantileRule, quantile_contribution,
  add_quantiles, add_counters, get_quantiles, cap_of, map_aggregates_to_match_risk,
}

-- The percentiles that a rule may name.
abbrev pub IsPercentile : Text → Type 0
IsPercentile t =
    (t ≡ codes "p50")
    ⊎ (t ≡ codes "p75")
    ⊎ (t ≡ codes "p90")
    ⊎ (t ≡ codes "p95")
    ⊎ (t ≡ codes "p99")

abbrev pub HasPercentile : {F : Type 0} → Text × QuantileRule F → Type 0
HasPercentile r = IsPercentile r.1.pctl

module _ {F : Type 0} (R : Float F) where
  quantile_contribution-is_ok :
      (q : Quantiles F) (cap : F) (rule : QuantileRule F)
      → IsPercentile rule.pctl
      → is_ok (quantile_contribution R q cap rule) ≡ true
  unfolding quantile_contribution
  quantile_contribution-is_ok q cap rule h = ground (
    arith,
    text_eq_iff rule.pctl (codes "p50"),
    text_eq_iff rule.pctl (codes "p75"),
    text_eq_iff rule.pctl (codes "p90"),
    text_eq_iff rule.pctl (codes "p95"),
    text_eq_iff rule.pctl (codes "p99"),
  )

  add_quantiles-is_ok :
      (p : Option (PlayerAggregates F)) (cap : F) (rules : List (Text × QuantileRule F)) (total : F)
      → All HasPercentile rules
      → is_ok (add_quantiles R p cap rules total) ≡ true
  unfolding add_quantiles
  add_quantiles-is_ok p cap [] total h = refl
  add_quantiles-is_ok p cap ((name, rule) ∷ rules) total (h, hs) =
      elim (Option-cases (get_quantiles p name)) [
        | inl absent ↦ ground (arith, add_quantiles-is_ok p cap rules total hs)
        | inr (q, found) ↦
            let (c, known) = is_ok-some _ (quantile_contribution-is_ok q cap rule h) in
            ground (arith, known, add_quantiles-is_ok p cap rules (R.add total c) hs)
      ]

  -- A risk is found for every player with an id and the expected schema, if each quantile rule
  -- names one of the five percentiles.
  pub map_aggregates-total :
      (p : PlayerAggregates F) (ref : SessionRef) (cfg : MappingConfig F) (at : ℕ)
      → p.ref ≡ some ref
      → is_nil ref.player_id ≡ false
      → p.telemetry_schema_id ≡ cfg.expected_schema_id
      → All HasPercentile cfg.quantiles
      → (mr : MatchRisk F) × (map_aggregates_to_match_risk R (some p) cfg at ≡ ok mr)
  unfolding map_aggregates_to_match_risk
  map_aggregates-total p ref cfg at found named schema rules =
      let (v, known) = is_ok-some _ (
        add_quantiles-is_ok (some p) (cap_of R cfg) cfg.quantiles
          (add_counters R (some p) (cap_of R cfg) cfg.counters R.zero) rules) in
      (
        record { player_id = ref.player_id; value = v; at = at },
        ground (arith, known, text_eq_iff p.telemetry_schema_id cfg.expected_schema_id),
      )

  -- A risk is that of the player whose session the aggregates name, at the time of the line, and
  -- the aggregates have the schema that the configuration expects, if it expects one.
  pub map_aggregates_sound :
      (p : PlayerAggregates F) (cfg : MappingConfig F) (at : ℕ) (mr : MatchRisk F)
      → map_aggregates_to_match_risk R (some p) cfg at ≡ ok mr
      → (ref : SessionRef) × (p.ref ≡ some ref)
        × (is_nil ref.player_id ≡ false)
        × (mr.player_id ≡ ref.player_id)
        × (mr.at ≡ at)
        × ((is_nil cfg.expected_schema_id ≡ true)
            ⊎ (p.telemetry_schema_id ≡ cfg.expected_schema_id))
  unfolding map_aggregates_to_match_risk
  map_aggregates_sound p cfg at mr h = elim (Option-cases p.ref) [
    | inl missing ↦ ground arith
    | inr (ref, found) ↦ (
      ref,
      found,
      ground arith,
      ground arith,
      ground arith,
      ground (arith, text_eq_iff p.telemetry_schema_id cfg.expected_schema_id),
    )
  ]
