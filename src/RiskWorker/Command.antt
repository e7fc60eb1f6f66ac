-- ===== src/RiskWorker/Command.antt =====
-- server/cmd/risk-worker/main.go: the configuration, `run` and `main`. What `flag.Parse` gives and
-- the working directory are arguments.
use baseline_integrity.Base.{
  ℕ, Bool, true, false, not, ◌&&◌, ◌||◌, Option, none, some, is_none, [], ◌∷◌, is_nil, Text, codes,
  if◌then◌else◌,
}
use baseline_integrity.Base.Int.{ℤ, pos, negsuc}
use baseline_integrity.Base.Result.{Error, Result, ok, err}
use baseline_integrity.Crypto.{Codec}
use baseline_integrity.Os.{FilePath, Io, pure, ◌>>=◌, ◌>>◌, attempt, log, mkdir_all, stat}
use baseline_integrity.Float.{Float}
use baseline_integrity.Outbox.{Event}
use baseline_integrity.Worker.{new_worker, run as run_worker}
use baseline_integrity.Risk.{RiskState, MappingConfig}
use baseline_integrity.Risk.Store.{MatchLine, load_mapping_config}
use baseline_integrity.Telemetry.{SubmitMatchAggregatesRequest, expected_telemetry_schema_id}
use baseline_integrity.RiskWorker.{Setup, players_dir, handler}

-- The flags of the command. A path that is the empty string is nothing.
pub record Flags (F : Type 0) : Type 0 where
  pub root_dir : Option FilePath
  pub outbox_dir : Option FilePath
  pub telemetry_dir : Option FilePath
  pub risk_dir : Option FilePath
  pub mapping_config_path : Option FilePath
  pub decay_factor : F
  pub risk_cap : F
  pub finalize_grace : ℤ
  pub poll_interval : ℤ
  pub once : Bool

abbrev pub is_negative : ℤ → Bool
is_negative (pos n) = false
is_negative (negsuc n) = true

-- A duration, of which only the part above 0 matters.
abbrev pub above_zero : ℤ → ℕ
above_zero (pos n) = n
above_zero (negsuc n) = 0

abbrev pub lacks_paths : {F : Type 0} → Flags F → Bool
lacks_paths cfg =
    is_none cfg.outbox_dir
    || is_none cfg.telemetry_dir
    || is_none cfg.risk_dir
    || is_none cfg.mapping_config_path

-- What `main` asks of a configuration before it runs.
unfoldable pub flags_accepted : {F : Type 0} → Float F → Flags F → Bool
flags_accepted R cfg =
    not (lacks_paths cfg)
    && not (R.le cfg.decay_factor R.zero || R.lt R.one cfg.decay_factor)
    && not (R.le cfg.risk_cap R.zero)
    && not (is_negative cfg.finalize_grace)

abbrev pub or_default : Option FilePath → FilePath → FilePath
or_default none d = d
or_default (some p) d = p

abbrev pub dev_or_example : FilePath → Result ℕ → FilePath
dev_or_example root (ok t) = codes "risk_mapping.dev.json" ∷ root
dev_or_example root (err e) = codes "risk_mapping.example.json" ∷ root

abbrev pub root_or_none : FilePath → Result ℕ → Option FilePath
root_or_none candidate (ok t) = some candidate
root_or_none candidate (err e) = none

-- `defaultRootIfPresent`, for what `os.Getwd` gives.
unfoldable pub default_root_if_present : Result FilePath → Option FilePath → Io (Option FilePath)
default_root_if_present cwd (some p) = pure (some p)
default_root_if_present (err x) none = pure none
default_root_if_present (ok d) none = do
  there ← attempt (stat (codes ".baselineintegrity" ∷ d))
  pure (root_or_none (codes ".baselineintegrity" ∷ d) there)

-- The part of `parseFlags` that derives the paths from a root that is given.
unfoldable pub derive_mapping : FilePath → Option FilePath → Io FilePath
derive_mapping root (some p) = pure p
derive_mapping root none = do
  dev ← attempt (stat (codes "risk_mapping.dev.json" ∷ root))
  pure (dev_or_example root dev)

unfoldable pub derive_paths : {F : Type 0} → Option FilePath → Flags F → Io (Flags F)
unfolding derive_mapping
derive_paths none cfg = pure cfg
derive_paths (some root) cfg = do
  mapping ← derive_mapping root cfg.mapping_config_path
  pure (record cfg {
    root_dir = some root;
    outbox_dir = some (or_default cfg.outbox_dir (codes "outbox" ∷ root));
    telemetry_dir = some (or_default cfg.telemetry_dir (codes "telemetry" ∷ root));
    risk_dir = some (or_default cfg.risk_dir (codes "risk" ∷ root));
    mapping_config_path = some mapping;
  })

-- `parseFlags` behind `flag.Parse`.
unfoldable pub parse_flags : {F : Type 0} → Result FilePath → Flags F → Io (Flags F)
unfolding default_root_if_present derive_paths
parse_flags cwd cfg = do root ← default_root_if_present cwd cfg.root_dir; derive_paths root cfg

module _ {F : Type 0} (R : Float F) (json : Codec (SubmitMatchAggregatesRequest F))
    (parse_time : Text → Option ℕ) (states : Codec (RiskState F)) (lines : Codec (MatchLine F))
    (day : ℕ → Text) (mappings : Codec (MappingConfig F)) (events : Codec Event)
    (describe : Error → Text) where
  abbrev pub with_schema : MappingConfig F → MappingConfig F
  with_schema cfg =
      if is_nil cfg.expected_schema_id
      then record cfg { expected_schema_id = expected_telemetry_schema_id }
      else cfg

  abbrev pub setup_of : Flags F → MappingConfig F → Setup F
  setup_of cfg map_cfg = record {
    telemetry_dir = or_default cfg.telemetry_dir [];
    risk_dir = or_default cfg.risk_dir [];
    finalize_grace = above_zero cfg.finalize_grace;
    map_cfg = with_schema map_cfg;
    score_cfg = record { decay_factor = cfg.decay_factor; risk_cap = cfg.risk_cap };
  }

  -- `run`, for a context that is cancelled after this many rounds.
  unfoldable pub run_command : ℕ → Flags F → Io (Unit {0})
  run_command n cfg = do
    w ← new_worker (record {
      outbox_dir = cfg.outbox_dir;
      poll_interval = above_zero cfg.poll_interval;
      once = cfg.once;
    })
    map_cfg ← load_mapping_config R mappings (or_default cfg.mapping_config_path [])
    mkdir_all (players_dir (or_default cfg.risk_dir []))
    run_worker events describe n w
        (some (handler R json parse_time states lines day (setup_of cfg map_cfg)))

  abbrev pub report_exit : Result (Unit {0}) → Io ℕ
  report_exit (ok u) = do log "exiting cleanly"; pure 0
  report_exit (err e) = do log "fatal"; pure 1

  -- `main`: the status that the process exits with.
  unfoldable pub worker_main : ℕ → Result FilePath → Flags F → Io ℕ
  unfolding run_command flags_accepted parse_flags
  worker_main n cwd flags = do
    cfg ← parse_flags cwd flags
    if flags_accepted R cfg
        then (do log "starting"; r ← attempt (run_command n cfg); report_exit r)
        else pure 2
