-- ===== src/Risk.antt =====
-- server/internal/baselineintegrity/risk: model.go, scoring.go, mapping_config.go, features.go and
-- mapper.go. Floating-point arithmetic is a parameter. The maps of rules are lists, ranged over in one
-- order at every call, where Go takes a random one.
pub mod Store
pub mod Reload
pub mod Bounds
pub mod Mapping
use baseline_integrity.Base.{
  ℕ, zero, String, Bool, true, false, not, ◌&&◌, Option, none, some, List, [], ◌∷◌, is_nil, is_none,
  Text, text_eq, codes, if◌then◌else◌,
}
use baseline_integrity.Base.Int.{time_sub}
use baseline_integrity.Base.Result.{Error, message, Result, ok, err, ◌>>=◌, ◌>>◌, fail_if, or_err}
use baseline_integrity.Proto.{SessionRef, TrustTier, Counter, Histogram}
use baseline_integrity.Float.{Float}

pub record Quantiles (F : Type 0) : Type 0 where
  pub name : Text
  pub p50 : F
  pub p75 : F
  pub p90 : F
  pub p95 : F
  pub p99 : F

-- `PlayerAggregates` of telemetry.proto; no element of its lists is nil.
pub record PlayerAggregates (F : Type 0) : Type 0 where
  pub ref : Option SessionRef
  pub telemetry_schema_id : Text
  pub counters : List Counter
  pub histograms : List Histogram
  pub quantiles : List (Quantiles F)

pub record RiskState (F : Type 0) : Type 0 where
  pub player_id : Text
  pub total_risk : F
  pub last_update : ℕ

pub record MatchRisk (F : Type 0) : Type 0 where
  pub player_id : Text
  pub value : F
  pub at : ℕ

pub record ScoreConfig (F : Type 0) : Type 0 where
  pub decay_factor : F
  pub risk_cap : F

pub record CounterRule (F : Type 0) : Type 0 where
  pub weight : F
  pub normalization : F

pub record QuantileRule (F : Type 0) : Type 0 where
  pub weight : F
  pub pctl : Text
  pub mean : F
  pub std : F

-- The maps of rules are lists in the order in which `range` visits them.
pub record MappingConfig (F : Type 0) : Type 0 where
  pub expected_schema_id : Text
  pub per_signal_cap : F
  pub counters : List (Text × CounterRule F)
  pub quantiles : List (Text × QuantileRule F)

abbrev pub err_nil_player_aggs : Error
err_nil_player_aggs = message "nil player aggregates"

abbrev pub err_schema_mismatch : Error
err_schema_mismatch = message "telemetry schema mismatch"

abbrev pub err_missing_player_id : Error
err_missing_player_id = message "missing player_id"

abbrev pub err_missing_session_ref : Error
err_missing_session_ref = message "missing session ref"

abbrev pub err_unsupported_pctl_key : Error
err_unsupported_pctl_key = message "unsupported percentile key"

unfoldable pub counter_value : List Counter → Text → ℕ
counter_value [] name = zero
counter_value (c ∷ cs) name =
    let rest = counter_value cs name in if text_eq c.name name then c.value else rest

module _ {F : Type 0} where
  unfoldable pub get_counter : Option (PlayerAggregates F) → Text → ℕ
  unfolding counter_value
  get_counter none name = zero
  get_counter (some p) name = counter_value p.counters name

  unfoldable pub quantiles_named : List (Quantiles F) → Text → Option (Quantiles F)
  quantiles_named [] name = none
  quantiles_named (q ∷ qs) name =
      let rest = quantiles_named qs name in if text_eq q.name name then some q else rest

  unfoldable pub get_quantiles : Option (PlayerAggregates F) → Text → Option (Quantiles F)
  unfolding quantiles_named
  get_quantiles none name = none
  get_quantiles (some p) name = quantiles_named p.quantiles name

  unfoldable pub pick_percentile : Quantiles F → Text → Result F
  pick_percentile q pctl =
      if text_eq pctl (codes "p50")
      then ok q.p50
      else if text_eq pctl (codes "p75")
      then ok q.p75
      else if text_eq pctl (codes "p90")
      then ok q.p90
      else if text_eq pctl (codes "p95")
      then ok q.p95
      else if text_eq pctl (codes "p99")
      then ok q.p99
      else err err_unsupported_pctl_key

module _ {F : Type 0} (R : Float F) where
  unfoldable pub soft_score : F → F → F
  soft_score x cap =
      if R.le cap R.zero
      then R.zero
      else if R.le x R.zero
      then R.zero
      else R.mul cap (R.sub R.one (R.exp (R.neg x)))

  unfoldable pub z_score : F → F → F → F
  z_score v mean std = if R.le std R.zero then R.zero else R.div (R.sub v mean) std

  -- The hours since the last update, or none of them if the clock went back.
  unfoldable pub elapsed_hours : ℕ → ℕ → F
  unfolding time_sub
  elapsed_hours now last =
      let elapsed = R.hours (time_sub now last) in if R.lt elapsed R.zero then R.zero else elapsed

  -- The two bounds on the new total.
  unfoldable pub clamp : F → F → F
  clamp cap next =
      let floor = if R.lt next R.zero then R.zero else next in if R.lt cap floor then cap else floor

  unfoldable pub apply_match_risk : RiskState F → MatchRisk F → ScoreConfig F → ℕ → RiskState F
  unfolding elapsed_hours clamp
  apply_match_risk prev match cfg now =
      let decay = R.pow cfg.decay_factor (elapsed_hours now prev.last_update) in
      let decayed = R.mul prev.total_risk decay in
      let next = R.add decayed match.value in
      record { player_id = prev.player_id; total_risk = clamp cfg.risk_cap next; last_update = now }

  -- One counter rule, and all of them, onto the running total.
  unfoldable pub counter_contribution : Option (PlayerAggregates F) → F → Text → CounterRule F → F
  unfolding get_counter soft_score
  counter_contribution p cap name rule =
      let raw = R.of_uint64 (get_counter p name) in
      let normal = if R.lt R.zero rule.normalization then R.div raw rule.normalization else raw in
      soft_score (R.mul normal rule.weight) cap

  unfoldable pub add_counters :
      Option (PlayerAggregates F) → F → List (Text × CounterRule F) → F → F
  unfolding counter_contribution
  add_counters p cap [] total = total
  add_counters p cap ((name, rule) ∷ rules) total =
      add_counters p cap rules (R.add total (counter_contribution p cap name rule))

  unfoldable pub quantile_contribution : Quantiles F → F → QuantileRule F → Result F
  unfolding pick_percentile z_score soft_score
  quantile_contribution q cap rule = do
    v ← pick_percentile q rule.pctl
    ok (soft_score (R.mul (z_score v rule.mean rule.std) rule.weight) cap)

  -- A rule for a signal that the player lacks is passed over.
  unfoldable pub add_quantiles :
      Option (PlayerAggregates F) → F → List (Text × QuantileRule F) → F → Result F
  unfolding quantile_contribution get_quantiles
  add_quantiles p cap [] total = ok total
  add_quantiles p cap ((name, rule) ∷ rules) total = elim (get_quantiles p name) [
    | none ↦ add_quantiles p cap rules total
    | some q ↦ do
      contrib ← quantile_contribution q cap rule
      add_quantiles p cap rules (R.add total contrib)
  ]

  abbrev pub cap_of : MappingConfig F → F
  cap_of cfg = if R.le cfg.per_signal_cap R.zero then R.one else cfg.per_signal_cap

  unfoldable pub map_aggregates_to_match_risk :
      Option (PlayerAggregates F) → MappingConfig F → ℕ → Result (MatchRisk F)
  unfolding add_counters
  map_aggregates_to_match_risk none cfg at = err err_nil_player_aggs
  map_aggregates_to_match_risk (some p) cfg at = do
    ref ← or_err p.ref err_missing_session_ref
    fail_if (is_nil ref.player_id) err_missing_player_id
    fail_if
        (not (is_nil cfg.expected_schema_id)
          && not (text_eq p.telemetry_schema_id cfg.expected_schema_id))
        err_schema_mismatch
    let counted = add_counters (some p) (cap_of cfg) cfg.counters R.zero
    total ← add_quantiles (some p) (cap_of cfg) cfg.quantiles counted
    ok (record { player_id = ref.player_id; value = total; at = at })
