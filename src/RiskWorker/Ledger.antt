-- ===== src/RiskWorker/Ledger.antt =====
-- What a match that is processed with success adds to the ledger.
use baseline_integrity.Base.{
  ℕ, ◌≡◌, ◌∙◌, refl, sym, ap, false, Option, some, List, [], ◌∷◌, ◌++◌, Text, codes, text_eq,
  list_eq, has_suffix, ◌==◌, arith, inl, inr, Option-cases,
}
use baseline_integrity.Base.Result.{ok}
use baseline_integrity.Crypto.{Codec}
use baseline_integrity.Float.{Float}
use baseline_integrity.Os.{FilePath, World, lookup, has_no_slash, mkdir_all, open_append}
use baseline_integrity.Os.Appends.{continue_with-ok, bytes_of, IsFile}
use baseline_integrity.Os.Keeps.{Keeps, Spares-Keeps, Reads-Keeps, >>-Keeps, mkdir_all-Keeps}
use baseline_integrity.Os.Reads.{log-Reads}
use baseline_integrity.Os.Spares.{IsNot, write_file-Spares}
use baseline_integrity.Outbox.{json_suffix}
use baseline_integrity.Outbox.Foreign.{ending-IsNot}
use baseline_integrity.Risk.{RiskState}
use baseline_integrity.Risk.Reload.{append_match_line_appends}
use baseline_integrity.Risk.Store.{
  MatchLine, ledger_dir, applied_path, append_match_line, mark_applied,
}
use baseline_integrity.Telemetry.{SubmitMatchAggregatesRequest}
use baseline_integrity.Telemetry.Lines.{MatchRequestLine}
use baseline_integrity.RiskWorker.Players.{IsScores, score_lines-IsScores}
use baseline_integrity.RiskWorker.Reading.{line_at-Reads}
use baseline_integrity.RiskWorker.Scoring.{score_lines-Spares}
use baseline_integrity.RiskWorker.{Setup, applied_dir, last_at, line_at, score_lines, process_lines}

abbrev ledger_name : Text
ledger_name = codes "ledger.jsonl"

ledger-ne-state : has_suffix ledger_name json_suffix ≡ false
unfolding has_suffix text_eq list_eq
ledger-ne-state = refl

ledger-ne-mark : has_suffix ledger_name (codes ".ok") ≡ false
unfolding has_suffix text_eq list_eq
ledger-ne-mark = refl

mark_applied-Keeps_ledger :
    (q d : FilePath) (id : Text) → Keeps (ledger_name ∷ q) (mark_applied d id)
unfolding mark_applied has_no_slash
mark_applied-Keeps_ledger q d id =
    >>-Keeps (ledger_name ∷ q) _ _ (mkdir_all-Keeps (ledger_name ∷ q) d) (
      Spares-Keeps (ledger_name ∷ q) (IsNot (applied_path d id)) _
        (ending-IsNot ledger_name q (codes ".ok") d id refl (omega arith) ledger-ne-mark)
        (write_file-Spares (applied_path d id) (codes "ok" ++ (10 ∷ []))))

-- The time of a line is that of the match's last line, or a reading of the clock in place of 0.
line_at-last :
    (last at : ℕ) (w v : World) → line_at last w ≡ (ok at, v) → (last == 0) ≡ false → at ≡ last
line_at-last last at w v e h = ground arith

module _ {F : Type 0} (lines : Codec (MatchLine F)) (day : ℕ → Text) where
  -- A line is appended with success only if it is encoded.
  append_match_line-encoded :
      (d : FilePath) (line : MatchLine F) (w v : World)
      → append_match_line lines day d line w ≡ (ok tt, v)
      → (b : Text) × (lines.encode line ≡ some b)
  unfolding append_match_line
  append_match_line-encoded d line w v e = elim (Option-cases (lines.encode line)) [
    | inr found ↦ found
    | inl bad ↦
        let p = codes "ledger.jsonl" ∷ ledger_dir lines day d line.at in
        let made = continue_with-ok _ (mkdir_all (ledger_dir lines day d line.at) w) tt v e in
        let opened = continue_with-ok _ (open_append p made.1) tt v made.3 in
        let failed = opened.3 in absurd (ground (arith, bad, failed))
  ]

module _ {F : Type 0} (R : Float F) (json : Codec (SubmitMatchAggregatesRequest F))
    (parse_time : Text → Option ℕ) (states : Codec (RiskState F)) (lines : Codec (MatchLine F))
    (day : ℕ → Text) (setup : Setup F) where
  -- Processing the lines of a match with success, under any faults, adds one line to the ledger, to
  -- the file of the day of the line's time, whose earlier bytes stay as they are: the encoding of the
  -- match's id, of a time, which is that of the last line of telemetry if this is not 0, and of a map
  -- that has each player once, with the last of the risks that the lines map to, which all do.
  pub process_lines-ledger :
      (id : Text) (first : MatchRequestLine F) (rest : List (MatchRequestLine F)) (w w' : World)
      → process_lines R json parse_time states lines day setup id (first ∷ rest) w ≡ (ok tt, w')
      → (players : List (Text × F)) × (at : ℕ) × (b : Text) × IsScores R setup.map_cfg
          (first ∷ rest)
          players
        × ((last_at 0 (first ∷ rest) == 0) ≡ false → at ≡ last_at 0 (first ∷ rest))
        × (lines.encode (record { match_id = id; at = at; players = players }) ≡ some b)
        × (let p = codes "ledger.jsonl" ∷ ledger_dir lines day setup.risk_dir at in
            IsFile p (bytes_of (lookup p w.files) ++ (b ++ (10 ∷ []))) w')
  unfolding process_lines
  process_lines-ledger id first rest w w' e =
      let ls = first ∷ rest in
      let score = score_lines R json parse_time states lines day setup ls [] in
      let (players, u, scored, run) = continue_with-ok _ (score w) tt w' e in
      let (at, u', timed, run') = continue_with-ok _ (line_at (last_at 0 ls) u) tt w' run in
      let line : MatchLine F = record { match_id = id; at = at; players = players } in
      let (x, v, appended, run'') =
        continue_with-ok _ (append_match_line lines day setup.risk_dir line u') tt w' run' in
      let (b, good) = append_match_line-encoded lines day setup.risk_dir line u' v appended in
      let q = ledger_dir lines day setup.risk_dir at in
      let p = codes "ledger.jsonl" ∷ q in
      let same : lookup p u'.files ≡ lookup p w.files =
        sym (ap (λ r. lookup p r.1.files) timed)
        ∙ ap (lookup p) ((line_at-Reads (last_at 0 ls)).keeps u)
        ∙ sym (ap (λ r. lookup p r.1.files) scored)
        ∙ (score_lines-Spares R json parse_time states lines day setup ls []).spares w p
            (ledger_name, q, refl, ledger-ne-state) in
      let (t, there) =
        append_match_line_appends lines day setup.risk_dir line b u' v good appended in
      let last =
        (>>-Keeps p _ _ (mark_applied-Keeps_ledger q (applied_dir setup.risk_dir) id)
            (Reads-Keeps p _ (log-Reads "SUCCESS event=match_finalized"))).keeps_file
          v _ t there in
      let whole : IsFile p (bytes_of (lookup p u'.files) ++ (b ++ (10 ∷ []))) w' =
        (t, rw run'' at last) in
      (
        players,
        at,
        b,
        (score_lines-IsScores R json parse_time states lines day setup ls).value_ok w players
            (ap (λ r. r.0) scored),
        line_at-last (last_at 0 ls) at u u' timed,
        good,
        rw same at whole,
      )
