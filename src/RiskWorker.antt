-- ===== src/RiskWorker.antt =====
-- server/cmd/risk-worker/main.go: the handler that scores the players of a finalized match. Its
-- child Command has the flags, `run` and `main`.
pub mod Once
pub mod Command
pub mod Exit
pub mod Reading
pub mod Scoring
pub mod Players
pub mod Ledger
pub mod Update
pub mod Delivery
pub mod Submitted
pub mod Foreign
pub mod Untouched
use baseline_integrity.Base.{
  ℕ, zero, suc, ◌+◌, String, Bool, true, false, not, ◌&&◌, ◌||◌, Option, none, some, List, [], ◌∷◌,
  is_nil, ltb, ◌==◌, Text, text_eq, codes, if◌then◌else◌,
}
use baseline_integrity.Base.Result.{Error, message, wrap, retry_later, Result, ok, err}
use baseline_integrity.Crypto.{Codec}
use baseline_integrity.Os.{
  FilePath, join, Io, pure, raise, of_result, wrapping, ◌>>=◌, ◌>>◌, attempt, log, time_now,
  mkdir_all, stat,
}
use baseline_integrity.Float.{Float}
use baseline_integrity.Outbox.{Event, EventType, match_finalized, unsupported}
use baseline_integrity.Worker.{Claimed, Handler, Worker, new_worker}
use baseline_integrity.Risk.{
  PlayerAggregates, RiskState, MatchRisk, ScoreConfig, MappingConfig, apply_match_risk,
  map_aggregates_to_match_risk,
}
use baseline_integrity.Risk.Store.{
  load, save, is_applied, mark_applied, MatchLine, append_match_line, load_mapping_config,
}
use baseline_integrity.Telemetry.{SubmitMatchAggregatesRequest}
use baseline_integrity.Telemetry.Lines.{MatchRequestLine, load_match_requests}

-- What the handler closes over.
pub record Setup (F : Type 0) : Type 0 where
  pub telemetry_dir : FilePath
  pub risk_dir : FilePath
  pub finalize_grace : ℕ
  pub map_cfg : MappingConfig F
  pub score_cfg : ScoreConfig F

abbrev pub players_dir : FilePath → FilePath
players_dir risk_dir = codes "players" ∷ risk_dir

abbrev pub applied_dir : FilePath → FilePath
applied_dir risk_dir = codes "applied" ∷ risk_dir

-- `players[id] = v`
unfoldable pub set_player {ℓ} : {F : Type ℓ} → Text → F → List (Text × F) → List (Text × F)
set_player id v [] = (id, v) ∷ []
set_player id v ((k, w) ∷ ps) =
    let rest = set_player id v ps in if text_eq k id then (id, v) ∷ ps else (k, w) ∷ rest

-- A state that was stored without an id or a time gets those of the match.
unfoldable pub fill_state : {F : Type 0} → RiskState F → MatchRisk F → RiskState F
fill_state prev mr = record prev {
  player_id = if is_nil prev.player_id then mr.player_id else prev.player_id;
  last_update = if prev.last_update == 0 then mr.at else prev.last_update;
}

-- The time of the last line.
unfoldable pub last_at : {F : Type 0} → ℕ → List (MatchRequestLine F) → ℕ
last_at at [] = at
last_at at (l ∷ ls) = last_at l.at ls

-- The time that the ledger's line gets.
abbrev pub line_at : ℕ → Io ℕ
line_at last = if last == 0 then time_now else pure last

module _ {F : Type 0} (R : Float F) (json : Codec (SubmitMatchAggregatesRequest F))
    (parse_time : Text → Option ℕ) (states : Codec (RiskState F)) (lines : Codec (MatchLine F))
    (day : ℕ → Text) where
  -- The body of the inner loop: the score of one player, on the map of the match's risks.
  unfoldable pub score_player :
      Setup F → ℕ → Option (PlayerAggregates F) → List (Text × F) → Io (List (Text × F))
  unfolding fill_state set_player
  score_player setup at p players = do
    mr ← of_result (map_aggregates_to_match_risk R p setup.map_cfg at)
    prev ← load R states (players_dir setup.risk_dir) mr.player_id
    save R states (players_dir setup.risk_dir)
        (apply_match_risk R (fill_state prev mr) mr setup.score_cfg mr.at)
    log "match_risk total_risk"
    pure (set_player mr.player_id mr.value players)

  unfoldable pub score_players :
      Setup F → ℕ → List (Option (PlayerAggregates F)) → List (Text × F) → Io (List (Text × F))
  unfolding score_player
  score_players setup at [] players = pure players
  score_players setup at (p ∷ ps) players = do
    scored ← score_player setup at p players
    score_players setup at ps scored

  unfoldable pub score_lines :
      Setup F → List (MatchRequestLine F) → List (Text × F) → Io (List (Text × F))
  unfolding score_players
  score_lines setup [] players = pure players
  score_lines setup (l ∷ ls) players = do
    scored ← score_players setup l.at l.req.players players
    score_lines setup ls scored

  -- From the loaded lines on.
  unfoldable pub process_lines : Setup F → Text → List (MatchRequestLine F) → Io (Unit {0})
  unfolding score_lines last_at
  process_lines setup match_id [] = log "loaded telemetry lines=0"
  process_lines setup match_id (l ∷ ls) = do
    players ← score_lines setup (l ∷ ls) []
    let last = last_at 0 (l ∷ ls)
    at ← line_at last
    append_match_line lines day setup.risk_dir
        (record { match_id = match_id; at = at; players = players })
    mark_applied (applied_dir setup.risk_dir) match_id
    log "SUCCESS event=match_finalized"

  -- A match that is not yet applied.
  unfoldable pub process_match : Setup F → Text → Io (Unit {0})
  unfolding process_lines
  process_match setup match_id = do
    log "processing match_finalized"
    loaded ←
        wrapping (wrap "FAIL event=match_finalized reason=telemetry_missing")
          (load_match_requests json parse_time setup.telemetry_dir match_id)
    process_lines setup match_id loaded

  unfoldable pub apply_once : Setup F → Text → Io (Unit {0})
  unfolding process_match
  apply_once setup match_id = do
    already ← is_applied (applied_dir setup.risk_dir) match_id
    if already
        then log "SKIP event=match_finalized reason=already_applied"
        else process_match setup match_id

  -- Whether the event is younger than the grace window; the clock is read only if there is one.
  unfoldable pub in_grace : Setup F → Event → Io Bool
  in_grace setup ev =
      if ltb 0 setup.finalize_grace
      then (do now ← time_now; pure (ltb now (ev.created_at + setup.finalize_grace)))
      else pure false

  unfoldable pub handler : Setup F → Handler
  unfolding in_grace apply_once
  handler setup claimed = elim claimed.event.type [
    | unsupported t ↦ log "SKIP reason=unsupported_type"
    | match_finalized ↦ do
      early ← in_grace setup claimed.event
      if early
          then (do log "RETRY reason=grace_window"; raise retry_later)
          else apply_once setup claimed.event.match_id
  ]
