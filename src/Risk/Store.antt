-- ===== src/Risk/Store.antt =====
-- server/internal/baselineintegrity/risk: store.go, store_file.go, applied_file.go and
-- mapping_config_load.go, and ledger/append.go. `encoding/json` is a parameter.
use baseline_integrity.Base.{
  ℕ, Bool, true, false, List, [], ◌∷◌, ◌++◌, is_nil, Text, codes, if◌then◌else◌,
}
use baseline_integrity.Base.Result.{message, wrap, Result, ok, err, or_err, is_not_exist}
use baseline_integrity.Crypto.{Codec}
use baseline_integrity.Os.{
  FilePath, join, Io, pure, raise, raise_if, of_result, ◌>>=◌, ◌>>◌, attempt, time_now, mkdir_all,
  read_file, write_file, open_append, write_end, stat,
}
use baseline_integrity.Float.{Float}
use baseline_integrity.Risk.{RiskState, MappingConfig}

abbrev pub state_path : FilePath → Text → FilePath
state_path d player_id = join d (player_id ++ codes ".json")

module _ {F : Type 0} (R : Float F) (J : Codec (RiskState F)) where
  -- What `Load` makes of its read: any failure is a player without history.
  unfoldable pub loaded : Text → Result Text → Io (RiskState F)
  loaded player_id (err e) = do
    now ← time_now
    pure (record { player_id = player_id; total_risk = R.zero; last_update = now })
  loaded player_id (ok b) = of_result (or_err (J.decode b) (message "json"))

  -- `FileStore.Load` and `FileStore.Save`
  unfoldable pub load : FilePath → Text → Io (RiskState F)
  unfolding loaded
  load d player_id = do b ← attempt (read_file (state_path d player_id)); loaded player_id b

  unfoldable pub save : FilePath → RiskState F → Io (Unit {0})
  save d state = do
    b ← of_result (or_err (J.encode state) (message "json"))
    write_file (state_path d state.player_id) b

-- `AppliedStore`
abbrev pub applied_path : FilePath → Text → FilePath
applied_path d match_id = join d (match_id ++ codes ".ok")

unfoldable pub stated : Result ℕ → Io Bool
stated (ok t) = pure true
stated (err e) = if is_not_exist e then pure false else raise e

unfoldable pub is_applied : FilePath → Text → Io Bool
unfolding stated
is_applied d match_id = do s ← attempt (stat (applied_path d match_id)); stated s

unfoldable pub mark_applied : FilePath → Text → Io (Unit {0})
mark_applied d match_id = do
  mkdir_all d
  write_file (applied_path d match_id) (codes "ok" ++ (10 ∷ []))

-- `ledger.MatchLine` and `ledger.AppendMatchLine`
pub record MatchLine (F : Type 0) : Type 0 where
  pub match_id : Text
  pub at : ℕ
  pub players : List (Text × F)

-- The day of an instant as `2006-01-02` in UTC (`time.Format`) is a parameter.
module _ {F : Type 0} (J : Codec (MatchLine F)) (day : ℕ → Text) where
  abbrev pub ledger_dir : FilePath → ℕ → FilePath
  ledger_dir risk_root at = join (codes "ledger" ∷ risk_root) (day at)

  unfoldable pub append_match_line : FilePath → MatchLine F → Io (Unit {0})
  append_match_line risk_root line = do
    let d = ledger_dir risk_root line.at
    mkdir_all d
    open_append (codes "ledger.jsonl" ∷ d)
    b ← of_result (or_err (J.encode line) (message "json"))
    write_end (codes "ledger.jsonl" ∷ d) (b ++ (10 ∷ []))

-- `LoadMappingConfigFromFile`. A missing map decodes to the empty list.
module _ {F : Type 0} (R : Float F) (J : Codec (MappingConfig F)) where
  unfoldable pub load_mapping_config : FilePath → Io (MappingConfig F)
  load_mapping_config path = do
    raise_if (is_nil path) (message "mapping config path is required (--mapping-config)")
    b ← read_file path
    cfg ← of_result (or_err (J.decode b) (wrap "parse mapping config" (message "json")))
    pure (if R.le cfg.per_signal_cap R.zero then record cfg { per_signal_cap = R.one } else cfg)
