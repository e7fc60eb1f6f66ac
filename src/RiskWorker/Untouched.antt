-- ===== src/RiskWorker/Untouched.antt =====
-- The risk-worker command and the files of the telemetry service, in one tree of files.
use baseline_integrity.Base.{
  ℕ, ◌≡◌, refl, false, true, Option, none, some, List, [], ◌∷◌, Text, String, codes, is_nil, arith,
  last_or, last_or-append, text_eq, list_eq, other_last, inl, inr, Bool-cases,
}
use baseline_integrity.Base.Result.{Error, message}
use baseline_integrity.Crypto.{Codec}
use baseline_integrity.Float.{Float}
use baseline_integrity.Os.{FilePath, World, Files, file, lookup, has_no_slash}
use baseline_integrity.Os.Still.{still, read_file-still}
use baseline_integrity.Os.Reads.{pure-Reads, raise-Reads}
use baseline_integrity.Os.Keeps.{Keeps, Reads-Keeps, >>=-Keeps, >>-Keeps, mkdir_all-Keeps}
use baseline_integrity.Outbox.{Event, json_suffix}
use baseline_integrity.Outbox.Frame.{ensure-Keeps}
use baseline_integrity.Outbox.Foreign.{sidecar_suffix}
use baseline_integrity.Worker.{Config, new_worker, new_worker_at}
use baseline_integrity.Worker.Foreign.{run-Keeps}
use baseline_integrity.Risk.{RiskState, MappingConfig}
use baseline_integrity.Risk.Store.{MatchLine}
use baseline_integrity.RiskWorker.{players_dir}
use baseline_integrity.RiskWorker.Command.{Flags, or_default, setup_of, run_command}
use baseline_integrity.RiskWorker.Reading.{load_mapping_config-Reads}
use baseline_integrity.RiskWorker.Foreign.{is_worker_name, handler-Keeps}
use baseline_integrity.Telemetry.{SubmitMatchAggregatesRequest}
use baseline_integrity.Telemetry.Places.{load_path-plain}
use baseline_integrity.Telemetry.Sanitize.{match_name}
use baseline_integrity.Telemetry.Lines.{load_match_requests, load_path}

sink_name-foreign : (m : Text) → is_worker_name (match_name m) ≡ false
unfolding text_eq list_eq
sink_name-foreign m =
    let ends : last_or 0 (match_name m) ≡ 108 = last_or-append 95 46 m (codes "jsonl") in
    rw
      (
        other_last (match_name m) json_suffix refl (rw ends refl),
        other_last (match_name m) sidecar_suffix refl (rw ends refl),
        other_last (match_name m) (codes ".ok") refl (rw ends refl),
      )
      refl

new_worker_at-Keeps :
    (p : FilePath) (cfg : Config) (d : Option FilePath) → Keeps p (new_worker_at cfg d)
unfolding new_worker_at
new_worker_at-Keeps p cfg none = Reads-Keeps p _ (raise-Reads _ (message "OutboxDir is required"))
new_worker_at-Keeps p cfg (some d) =
    >>-Keeps p _ _ (ensure-Keeps p d) (Reads-Keeps p _ (pure-Reads _))

new_worker-Keeps : (p : FilePath) (cfg : Config) → Keeps p (new_worker cfg)
unfolding new_worker
new_worker-Keeps p cfg = new_worker_at-Keeps p cfg cfg.outbox_dir

-- What is loaded for a match is determined by the bytes of its file.
load-same :
    {F : Type 0} (json : Codec (SubmitMatchAggregatesRequest F)) (parse_time : Text → Option ℕ)
    (d : FilePath) (m b : Text) (t : ℕ) (c : ℕ → ℕ) (k : ℕ) (l : List String) (fs gs : Files)
    → lookup (load_path d m) fs ≡ some (file b t)
    → lookup (load_path d m) gs ≡ some (file b t)
    → (load_match_requests json parse_time d m (still fs c k l)).0
      ≡ (load_match_requests json parse_time d m (still gs c k l)).0
unfolding load_match_requests
load-same json parse_time d m b t c k l fs gs h e =
    let one = read_file-still c k l fs (load_path d m) b t h in
    let other = read_file-still c k l gs (load_path d m) b t e in
    elim (Bool-cases (is_nil d)) [
      | inl missing ↦ rw missing refl
      | inr given ↦ elim (Bool-cases (is_nil m)) [
        | inl missing ↦ rw (given, missing) refl
        | inr named ↦ rw (given, named, one, other) refl
      ]
    ]

module _ {F : Type 0} (R : Float F) (json : Codec (SubmitMatchAggregatesRequest F))
    (parse_time : Text → Option ℕ) (states : Codec (RiskState F)) (lines : Codec (MatchLine F))
    (day : ℕ → Text) (mappings : Codec (MappingConfig F)) (events : Codec Event)
    (describe : Error → Text) where
  -- Whatever ids and bytes the risk worker meets, under any faults, for any number of rounds, in
  -- either mode: a file whose name does not end in `.json`, `.err.txt` or `.ok` and is not
  -- `ledger.jsonl` is afterwards there with the same bytes and the same time.
  pub run_command-Keeps :
      (n : ℕ) (cfg : Flags F) (x : Text) (q : FilePath)
      → is_worker_name x ≡ false
      → Keeps
          (x ∷ q)
          (run_command R json parse_time states lines day mappings events describe n cfg)
  unfolding run_command
  run_command-Keeps n cfg x q foreign = >>=-Keeps (x ∷ q) _ _ (new_worker-Keeps (x ∷ q) _) λ w.
      >>=-Keeps (x ∷ q) _ _
        (Reads-Keeps (x ∷ q) _
          (load_mapping_config-Reads R mappings (or_default cfg.mapping_config_path [])))
        λ map_cfg.
          >>-Keeps (x ∷ q) _ _ (mkdir_all-Keeps (x ∷ q) (players_dir (or_default cfg.risk_dir [])))
            (run-Keeps events describe x q (ground arith) (ground arith) w _
              (handler-Keeps R json parse_time states lines day
                (setup_of R json parse_time states lines day mappings events describe cfg map_cfg) x
                q foreign)
              n)

  -- What the telemetry service stored for a match is loaded in the same way after the risk worker
  -- has run, whatever it met, under any faults and for any number of rounds: a match whose id has no
  -- separator and whose file is there.
  pub run_command-load :
      (n : ℕ) (cfg : Flags F) (w : World) (d : FilePath) (m b : Text) (t : ℕ) (c : ℕ → ℕ) (k : ℕ)
      (l : List String)
      → has_no_slash m ≡ true
      → lookup (load_path d m) w.files ≡ some (file b t)
      → let after =
          (run_command R json parse_time states lines day mappings events describe n cfg w).1 in
        (load_match_requests json parse_time d m (still after.files c k l)).0
        ≡ (load_match_requests json parse_time d m (still w.files c k l)).0
  run_command-load n cfg w d m b t c k l plain there =
      let after =
        (run_command R json parse_time states lines day mappings events describe n cfg w).1 in
      let p = match_name m ∷ d in
      let at_name : lookup p w.files ≡ some (file b t) = rw (load_path-plain d m plain) at there in
      let kept : lookup p after.files ≡ some (file b t) =
        (run_command-Keeps n cfg (match_name m) d (sink_name-foreign m)).keeps_file w b t at_name in
      load-same json parse_time d m b t c k l after.files w.files
        (rw (load_path-plain d m plain) kept) there
