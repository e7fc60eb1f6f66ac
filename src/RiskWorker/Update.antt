-- ===== src/RiskWorker/Update.antt =====
-- What scoring a player leaves in the player's file.
use baseline_integrity.Base.{
  if◌then◌else◌, ℕ, ◌≡◌, ap, false, Option, some, List, Text, String, is_nil, arith, inl, inr,
  Option-cases,
}
use baseline_integrity.Base.Result.{ok}
use baseline_integrity.Crypto.{Codec, RoundTrips}
use baseline_integrity.Float.{Float, IsOrdered}
use baseline_integrity.Os.{FilePath, World, of_result, write_file}
use baseline_integrity.Os.Appends.{continue_with-ok, IsFile, write_file-ok}
use baseline_integrity.Os.Still.{still}
use baseline_integrity.Risk.{
  PlayerAggregates, RiskState, MatchRisk, apply_match_risk, map_aggregates_to_match_risk,
}
use baseline_integrity.Risk.Bounds.{apply_match_risk-bounds}
use baseline_integrity.Risk.Reload.{load-IsFile}
use baseline_integrity.Risk.Store.{MatchLine, state_path, load, save}
use baseline_integrity.Telemetry.{SubmitMatchAggregatesRequest}
use baseline_integrity.RiskWorker.{Setup, players_dir, fill_state, score_player}

module _ {F : Type 0} (R : Float F) (states : Codec (RiskState F)) where
  save-IsFile :
      (d : FilePath) (s : RiskState F) (w w' : World)
      → save R states d s w ≡ (ok tt, w')
      → (b : Text) × (states.encode s ≡ some b) × IsFile (state_path d s.player_id) b w'
  unfolding save
  save-IsFile d s w w' e = elim (Option-cases (states.encode s)) [
    | inl bad ↦ ground (arith, bad)
    | inr (b, good) ↦
        let written : write_file (state_path d s.player_id) b w ≡ (ok tt, w') = rw good at e in
        (b, good, write_file-ok (state_path d s.player_id) w w' b written)
  ]

module _ {F : Type 0} (R : Float F) (O : IsOrdered R)
    (json : Codec (SubmitMatchAggregatesRequest F)) (parse_time : Text → Option ℕ)
    (states : Codec (RiskState F)) (P : RoundTrips states) (lines : Codec (MatchLine F))
    (day : ℕ → Text) (setup : Setup F) where
  -- Scoring a player with success, under any faults: the aggregates map to a risk, a state was loaded
  -- for its player, and what is loaded afterwards, with no fault scheduled, is the state that the
  -- scoring gives, whose total is neither negative nor above a cap that is not negative; it has
  -- the id of the loaded state, or that of the risk where the state had none.
  pub score_player-load :
      (at : ℕ) (p : Option (PlayerAggregates F)) (before after : List (Text × F)) (w w' : World)
      (c : ℕ → ℕ) (n : ℕ) (l : List String)
      → R.lt setup.score_cfg.risk_cap R.zero ≡ false
      → score_player R json parse_time states lines day setup at p before w ≡ (ok after, w')
      → (mr : MatchRisk F) × (prev : RiskState F) × (map_aggregates_to_match_risk R p setup.map_cfg
            at
          ≡ ok mr)
        × ((load R states (players_dir setup.risk_dir) mr.player_id w).0 ≡ ok prev)
        × (let next = apply_match_risk R (fill_state prev mr) mr setup.score_cfg mr.at in
            ((load R states (players_dir setup.risk_dir) next.player_id (still w'.files c n l)).0
              ≡ ok next)
            × (R.lt next.total_risk R.zero ≡ false)
            × (R.lt setup.score_cfg.risk_cap next.total_risk ≡ false)
            × (next.player_id ≡ (if is_nil prev.player_id then mr.player_id else prev.player_id)))
  unfolding score_player fill_state
  score_player-load at p before after w w' c n l cap e =
      let d = players_dir setup.risk_dir in
      let (mr, u, mapped, run) =
        continue_with-ok _ (of_result (map_aggregates_to_match_risk R p setup.map_cfg at) w) after
          w' e in
      let (prev, v, found, run') =
        continue_with-ok _ (load R states d mr.player_id u) after w' run in
      let filled = fill_state prev mr in
      let next = apply_match_risk R filled mr setup.score_cfg mr.at in
      let (x, y, saved, run'') = continue_with-ok _ (save R states d next v) after w' run' in
      let same : w ≡ u = ap (λ r. r.1) mapped in
      let (b, good, there) = save-IsFile R states d next v y saved in
      let (floor, top, kept, time) =
        apply_match_risk-bounds R O filled mr setup.score_cfg mr.at cap in
      let files : y.files ≡ w'.files = ap (λ r. r.1.files) run'' in
      let stored : IsFile (state_path d next.player_id) b w' = rw files at there in
      (
        mr,
        prev,
        ap (λ r. r.0) mapped,
        rw same (ap (λ r. r.0) found),
        (
          load-IsFile R states P d next.player_id b next w' c n l stored
              (P.decode-encode next b good),
          floor,
          top,
          kept,
        ),
      )
