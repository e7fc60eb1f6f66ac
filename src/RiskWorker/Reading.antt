-- ===== src/RiskWorker/Reading.antt =====
-- What the risk worker only reads: player states, marks and the lines of a match.
use baseline_integrity.Base.{ℕ, ltb, ◌==◌, ◌≡◌, ◌∙◌, refl, Bool, true, false, Option, Text, is_nil}
use baseline_integrity.Base.Result.{Error, message, is_not_exist, Result, ok, err, or_err}
use baseline_integrity.Crypto.{Codec}
use baseline_integrity.Float.{Float}
use baseline_integrity.Os.{FilePath, World, Io, raise_if, wrapping, rewrap}
use baseline_integrity.Os.Reads.{
  Reads, pure-Reads, raise-Reads, of_result-Reads, attempt-Reads, if-Reads, >>=-Reads, >>-Reads,
  time_now-Reads, read_file-Reads, stat-Reads,
}
use baseline_integrity.Risk.{RiskState, MappingConfig}
use baseline_integrity.Risk.Store.{
  MatchLine, state_path, loaded, load, stated, is_applied, applied_path, load_mapping_config,
}
use baseline_integrity.RiskWorker.{Setup, line_at, in_grace}
use baseline_integrity.Outbox.{Event}
use baseline_integrity.Telemetry.{SubmitMatchAggregatesRequest}
use baseline_integrity.Telemetry.Lines.{load_path, load_buffer, parse_file, load_match_requests}

module _ {F : Type 0} (R : Float F) (states : Codec (RiskState F)) where
  loaded-Reads : (id : Text) (r : Result Text) → Reads (loaded R states id r)
  unfolding loaded
  loaded-Reads id (err e) = >>=-Reads _ _ time_now-Reads (λ now. pure-Reads _)
  loaded-Reads id (ok b) = of_result-Reads (or_err (states.decode b) (message "json"))

  pub load-Reads : (d : FilePath) (id : Text) → Reads (load R states d id)
  unfolding load
  load-Reads d id =
      >>=-Reads _ _ (attempt-Reads _ (read_file-Reads (state_path d id))) (loaded-Reads id)

stated-Reads : (r : Result ℕ) → Reads (stated r)
unfolding stated
stated-Reads (ok t) = pure-Reads true
stated-Reads (err e) = if-Reads (is_not_exist e) _ _ (pure-Reads false) (raise-Reads Bool e)

pub is_applied-Reads : (d : FilePath) (id : Text) → Reads (is_applied d id)
unfolding is_applied
is_applied-Reads d id =
    >>=-Reads _ _ (attempt-Reads _ (stat-Reads (applied_path d id))) stated-Reads

pub raise_if-Reads : (b : Bool) (e : Error) → Reads (raise_if b e)
raise_if-Reads true e = record { keeps = λ w. refl }
raise_if-Reads false e = record { keeps = λ w. refl }

pub wrapping-Reads : {A : Type 0} (f : Error → Error) (m : Io A) → Reads m → Reads (wrapping f m)
wrapping-Reads {A} f m h = record { keeps = λ w. rewrap-files (m w) ∙ h.keeps w }
  where
    rewrap-files : (r : Result A × World) → (rewrap f r).1.files ≡ r.1.files
    rewrap-files (ok a, w) = refl
    rewrap-files (err e, w) = refl

pub load_match_requests-Reads :
    {F : Type 0} (json : Codec (SubmitMatchAggregatesRequest F)) (parse_time : Text → Option ℕ)
    (d : FilePath) (id : Text)
    → Reads (load_match_requests json parse_time d id)
unfolding load_match_requests
load_match_requests-Reads json parse_time d id =
    >>-Reads _ _ (raise_if-Reads (is_nil d) (message "telemetryDir is required")) (
      >>-Reads _ _ (raise_if-Reads (is_nil id) (message "matchID is required")) (
        >>=-Reads _ _ (read_file-Reads (load_path d id))
          (λ b. of_result-Reads (parse_file json parse_time load_buffer b))))

pub line_at-Reads : (last : ℕ) → Reads (line_at last)
line_at-Reads last = if-Reads (last == 0) _ _ time_now-Reads (pure-Reads last)

module _ {F : Type 0} (R : Float F) (J : Codec (MappingConfig F)) where
  pub load_mapping_config-Reads : (p : FilePath) → Reads (load_mapping_config R J p)
  unfolding load_mapping_config
  load_mapping_config-Reads p = >>-Reads _ _ (raise_if-Reads (is_nil p) _) (
      >>=-Reads _ _ (read_file-Reads p)
        (λ b. >>=-Reads _ _ (of_result-Reads _) (λ cfg. pure-Reads _)))

module _ {F : Type 0} (R : Float F) (json : Codec (SubmitMatchAggregatesRequest F))
    (parse_time : Text → Option ℕ) (states : Codec (RiskState F)) (lines : Codec (MatchLine F))
    (day : ℕ → Text) (setup : Setup F) where
  pub in_grace-Reads : (ev : Event) → Reads (in_grace R json parse_time states lines day setup ev)
  unfolding in_grace
  in_grace-Reads ev =
      if-Reads (ltb 0 setup.finalize_grace) _ _ (>>=-Reads _ _ time_now-Reads (λ now. pure-Reads _))
        (pure-Reads false)
