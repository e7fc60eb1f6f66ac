-- ===== src/RiskWorker/Scoring.antt =====
-- Which files the scoring of a match changes: those whose names end in `.json`.
use baseline_integrity.Base.{ℕ, ◌≡◌, refl, false, Option, List, [], ◌∷◌, Text, has_suffix, arith}
use baseline_integrity.Base.Result.{message, or_err}
use baseline_integrity.Crypto.{Codec}
use baseline_integrity.Float.{Float}
use baseline_integrity.Os.{FilePath, has_no_slash}
use baseline_integrity.Os.Reads.{pure-Reads, of_result-Reads, log-Reads}
use baseline_integrity.Os.Spares.{
  Spares, Spares-mono, Reads-Spares, >>=-Spares, >>-Spares, IsNot, write_file-Spares,
}
use baseline_integrity.Outbox.{json_suffix}
use baseline_integrity.Outbox.Foreign.{ending-IsNot}
use baseline_integrity.Risk.{PlayerAggregates, RiskState, map_aggregates_to_match_risk}
use baseline_integrity.Risk.Store.{MatchLine, state_path, save}
use baseline_integrity.Telemetry.{SubmitMatchAggregatesRequest}
use baseline_integrity.Telemetry.Lines.{MatchRequestLine}
use baseline_integrity.RiskWorker.Reading.{load-Reads}
use baseline_integrity.RiskWorker.{Setup, players_dir, score_player, score_players, score_lines}

-- A path whose name does not end as those of the players' states.
abbrev pub IsNoState : FilePath → Type 0
IsNoState k = (x : Text) × (q : FilePath) × (k ≡ x ∷ q) × (has_suffix x json_suffix ≡ false)

module _ {F : Type 0} (R : Float F) (json : Codec (SubmitMatchAggregatesRequest F))
    (parse_time : Text → Option ℕ) (states : Codec (RiskState F)) (lines : Codec (MatchLine F))
    (day : ℕ → Text) where
  save-Spares : (d : FilePath) (s : RiskState F) → Spares IsNoState (save R states d s)
  unfolding save has_no_slash
  save-Spares d s =
      >>=-Spares IsNoState _ _
        (Reads-Spares IsNoState _ (of_result-Reads (or_err (states.encode s) (message "json"))))
        (λ b.
          Spares-mono (IsNot (state_path d s.player_id)) IsNoState _
            (λ k i.
              rw (i.2) (ending-IsNot i.0 i.1 json_suffix d s.player_id refl (omega arith) i.3))
            (write_file-Spares (state_path d s.player_id) b))

  module _ (setup : Setup F) where
    score_player-Spares :
        (at : ℕ) (p : Option (PlayerAggregates F)) (players : List (Text × F))
        → Spares IsNoState (score_player R json parse_time states lines day setup at p players)
    unfolding score_player
    score_player-Spares at p players =
        let d = players_dir setup.risk_dir in
        >>=-Spares IsNoState _ _
          (Reads-Spares IsNoState _
            (of_result-Reads (map_aggregates_to_match_risk R p setup.map_cfg at)))
          λ mr.
            >>=-Spares IsNoState _ _ (Reads-Spares IsNoState _ (load-Reads R states d mr.player_id))
              λ prev. >>-Spares IsNoState _ _ (save-Spares d _) (
                >>-Spares IsNoState _ _
                  (Reads-Spares IsNoState _ (log-Reads "match_risk total_risk"))
                  (Reads-Spares IsNoState _ (pure-Reads _)))

    score_players-Spares :
        (at : ℕ) (ps : List (Option (PlayerAggregates F))) (players : List (Text × F))
        → Spares IsNoState (score_players R json parse_time states lines day setup at ps players)
    unfolding score_players
    score_players-Spares at [] players = Reads-Spares IsNoState _ (pure-Reads players)
    score_players-Spares at (p ∷ ps) players =
        >>=-Spares IsNoState _ _ (score_player-Spares at p players) (score_players-Spares at ps)

    pub score_lines-Spares :
        (ls : List (MatchRequestLine F)) (players : List (Text × F))
        → Spares IsNoState (score_lines R json parse_time states lines day setup ls players)
    unfolding score_lines
    score_lines-Spares [] players = Reads-Spares IsNoState _ (pure-Reads players)
    score_lines-Spares (l ∷ ls) players =
        >>=-Spares IsNoState _ _ (score_players-Spares l.at l.req.players players)
          (score_lines-Spares ls)
