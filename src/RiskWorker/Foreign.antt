-- ===== src/RiskWorker/Foreign.antt =====
-- What the risk worker leaves alone, whatever ids and bytes it meets.
use baseline_integrity.Base.{
  ℕ, ◌≡◌, refl, Bool, false, ◌||◌, Option, List, [], ◌∷◌, ◌++◌, Text, codes, text_eq, has_suffix,
  arith, if◌then◌else◌,
}
use baseline_integrity.Base.Result.{message, retry_later, or_err}
use baseline_integrity.Crypto.{Codec}
use baseline_integrity.Float.{Float}
use baseline_integrity.Os.{FilePath, raise, ◌>>=◌, ◌>>◌, log, path_eq-cons, has_no_slash}
use baseline_integrity.Os.Reads.{raise-Reads, of_result-Reads, >>-Reads, log-Reads}
use baseline_integrity.Os.Spares.{IsNot, write_file-Spares, open_append-Spares, write_end-Spares}
use baseline_integrity.Os.Keeps.{
  Keeps, Spares-Keeps, Reads-Keeps, if-Keeps, >>=-Keeps, >>-Keeps, mkdir_all-Keeps,
}
use baseline_integrity.Outbox.{EventType, match_finalized, unsupported, json_suffix}
use baseline_integrity.Outbox.Foreign.{sidecar_suffix, ending-IsNot}
use baseline_integrity.Worker.{Claimed}
use baseline_integrity.Risk.{RiskState}
use baseline_integrity.Risk.Store.{
  MatchLine, mark_applied, applied_path, ledger_dir, append_match_line,
}
use baseline_integrity.Telemetry.{SubmitMatchAggregatesRequest}
use baseline_integrity.Telemetry.Lines.{MatchRequestLine}
use baseline_integrity.RiskWorker.Reading.{
  in_grace-Reads, is_applied-Reads, wrapping-Reads, load_match_requests-Reads, line_at-Reads,
}
use baseline_integrity.RiskWorker.Scoring.{IsNoState, score_lines-Spares}
use baseline_integrity.RiskWorker.{
  Setup, applied_dir, last_at, process_lines, process_match, apply_once, in_grace, handler,
}

-- The names that the risk worker writes: an event's or a player's, the mark of an applied match, the
-- sidecar of a failed event, and the ledger's.
abbrev pub is_worker_name : Text → Bool
is_worker_name x =
    has_suffix x json_suffix
    || has_suffix x sidecar_suffix
    || has_suffix x (codes ".ok")
    || text_eq (codes "ledger.jsonl") x

module _ {F : Type 0} (states : Codec (RiskState F)) (lines : Codec (MatchLine F)) (day : ℕ → Text)
    (x : Text) (q : FilePath) (foreign : is_worker_name x ≡ false) where
  mark_applied-Keeps : (d : FilePath) (id : Text) → Keeps (x ∷ q) (mark_applied d id)
  unfolding mark_applied has_no_slash
  mark_applied-Keeps d id = >>-Keeps (x ∷ q) _ _ (mkdir_all-Keeps (x ∷ q) d) (
      Spares-Keeps (x ∷ q) (IsNot (applied_path d id)) _
        (ending-IsNot x q (codes ".ok") d id refl (omega arith) (ground arith))
        (write_file-Spares (applied_path d id) (codes "ok" ++ (10 ∷ []))))

  append_match_line-Keeps :
      (risk_root : FilePath) (l : MatchLine F)
      → Keeps (x ∷ q) (append_match_line lines day risk_root l)
  unfolding append_match_line
  append_match_line-Keeps risk_root l =
      let d = ledger_dir lines day risk_root l.at in
      let other : IsNot (codes "ledger.jsonl" ∷ d) (x ∷ q) = rw path_eq-cons (ground arith) in
      >>-Keeps (x ∷ q) _ _ (mkdir_all-Keeps (x ∷ q) d) (
        >>-Keeps (x ∷ q) _ _
          (Spares-Keeps (x ∷ q) (IsNot (codes "ledger.jsonl" ∷ d)) _ other
            (open_append-Spares (codes "ledger.jsonl" ∷ d)))
          (>>=-Keeps (x ∷ q) _ _
            (Reads-Keeps (x ∷ q) _ (of_result-Reads (or_err (lines.encode l) (message "json"))))
            (λ b.
              Spares-Keeps (x ∷ q) (IsNot (codes "ledger.jsonl" ∷ d)) _ other
                (write_end-Spares (codes "ledger.jsonl" ∷ d) (b ++ (10 ∷ []))))))

module _ {F : Type 0} (R : Float F) (json : Codec (SubmitMatchAggregatesRequest F))
    (parse_time : Text → Option ℕ) (states : Codec (RiskState F)) (lines : Codec (MatchLine F))
    (day : ℕ → Text) (setup : Setup F) (x : Text) (q : FilePath)
    (foreign : is_worker_name x ≡ false) where
  process_lines-Keeps :
      (id : Text) (ls : List (MatchRequestLine F))
      → Keeps (x ∷ q) (process_lines R json parse_time states lines day setup id ls)
  unfolding process_lines
  process_lines-Keeps id [] = Reads-Keeps (x ∷ q) _ (log-Reads "loaded telemetry lines=0")
  process_lines-Keeps id (l ∷ ls) =
      >>=-Keeps (x ∷ q) _ _
        (Spares-Keeps (x ∷ q) IsNoState _ (x, q, refl, ground arith)
          (score_lines-Spares R json parse_time states lines day setup (l ∷ ls) []))
        λ players.
          >>=-Keeps (x ∷ q) _ _ (Reads-Keeps (x ∷ q) _ (line_at-Reads (last_at 0 (l ∷ ls)))) λ at.
            >>-Keeps (x ∷ q) _ _
              (append_match_line-Keeps states lines day x q foreign setup.risk_dir _)
              (>>-Keeps (x ∷ q) _ _
                (mark_applied-Keeps states lines day x q foreign (applied_dir setup.risk_dir) id)
                (Reads-Keeps (x ∷ q) _ (log-Reads "SUCCESS event=match_finalized")))

  process_match-Keeps :
      (id : Text) → Keeps (x ∷ q) (process_match R json parse_time states lines day setup id)
  unfolding process_match
  process_match-Keeps id =
      >>-Keeps (x ∷ q) _ _ (Reads-Keeps (x ∷ q) _ (log-Reads "processing match_finalized")) (
        >>=-Keeps (x ∷ q) _ _
          (Reads-Keeps (x ∷ q) _
            (wrapping-Reads _ _ (load_match_requests-Reads json parse_time setup.telemetry_dir id)))
          (process_lines-Keeps id))

  apply_once-Keeps :
      (id : Text) → Keeps (x ∷ q) (apply_once R json parse_time states lines day setup id)
  unfolding apply_once
  apply_once-Keeps id =
      >>=-Keeps (x ∷ q) _ _
        (Reads-Keeps (x ∷ q) _ (is_applied-Reads (applied_dir setup.risk_dir) id))
        λ already.
          if-Keeps (x ∷ q) already _ _
            (Reads-Keeps (x ∷ q) _ (log-Reads "SKIP event=match_finalized reason=already_applied"))
            (process_match-Keeps id)

  pub handler-Keeps :
      (c : Claimed) → Keeps (x ∷ q) (handler R json parse_time states lines day setup c)
  unfolding handler
  handler-Keeps c = by_type c.event.type
    where
      by_type :
          (t : EventType)
          → Keeps (x ∷ q) (elim t [
            | unsupported t ↦ log "SKIP reason=unsupported_type"
            | match_finalized ↦
                in_grace R json parse_time states lines day setup c.event >>= λ early.
                if early
                then log "RETRY reason=grace_window" >> raise retry_later
                else apply_once R json parse_time states lines day setup c.event.match_id
          ])
      by_type (unsupported t) = Reads-Keeps (x ∷ q) _ (log-Reads "SKIP reason=unsupported_type")
      by_type match_finalized =
          >>=-Keeps (x ∷ q) _ _
            (Reads-Keeps (x ∷ q) _
              (in_grace-Reads R json parse_time states lines day setup c.event))
            λ early.
              if-Keeps (x ∷ q) early _ _
                (Reads-Keeps (x ∷ q) _ (
                  >>-Reads _ _ (log-Reads "RETRY reason=grace_window")
                    (raise-Reads Unit retry_later)))
                (apply_once-Keeps c.event.match_id)
