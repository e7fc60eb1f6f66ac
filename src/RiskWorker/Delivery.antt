-- ===== src/RiskWorker/Delivery.antt =====
-- From the sink to the ledger: what the handler makes of the submissions that a match's file holds.
use baseline_integrity.Base.{
  ℕ, ◌≡◌, ◌∙◌, refl, sym, ap, Bool, true, false, Option, none, some, List, [], ◌∷◌, ◌++◌, Text,
  codes, is_nil, ◌==◌, arith, inl, inr, Bool-cases,
}
use baseline_integrity.Base.Result.{Error, Result, ok, err, is_not_exist, wrap}
use baseline_integrity.Crypto.{Codec}
use baseline_integrity.Float.{Float}
use baseline_integrity.Os.{FilePath, World, file, lookup, stat, read_file, raise_if, wrapping}
use baseline_integrity.Os.Appends.{
  continue_with-ok, rewrap-ok, gate-ok, read_file-ok, bytes_of, IsFile,
}
use baseline_integrity.Os.Reads.{read_file-Reads}
use baseline_integrity.Outbox.{match_finalized}
use baseline_integrity.Worker.{Claimed}
use baseline_integrity.Risk.{RiskState}
use baseline_integrity.Risk.Store.{stated, is_applied, applied_path, MatchLine, ledger_dir}
use baseline_integrity.Telemetry.{SubmitMatchAggregatesRequest}
use baseline_integrity.Telemetry.Lines.{
  MatchRequestLine, load_path, load_buffer, parse_file, load_match_requests,
}
use baseline_integrity.Telemetry.Durability.{Holds}
use baseline_integrity.RiskWorker.{
  Setup, applied_dir, last_at, in_grace, apply_once, process_match, process_lines, handler,
}
use baseline_integrity.RiskWorker.Ledger.{process_lines-ledger}
use baseline_integrity.RiskWorker.Players.{IsScores}
use baseline_integrity.RiskWorker.Reading.{
  in_grace-Reads, is_applied-Reads, load_match_requests-Reads,
}

stat-missing :
    (p : FilePath) (w v : World) (t : ℕ) → lookup p w.files ≡ none → stat p w ≡ (ok t, v) → ⊥
unfolding stat
stat-missing p w v t gone e =
    let (u, same, run) = gate-ok w.faults _ w t v e in
    let missing : lookup p u.files ≡ none = ap (lookup p) same.0 ∙ gone in
    ground (arith, missing, run)

stated-unmarked : (e : Error) (u v : World) (a : Bool) → stated (err e) u ≡ (ok a, v) → a ≡ false
unfolding stated
stated-unmarked e u v a h = elim (Bool-cases (is_not_exist e)) [
  | inl absent ↦ ground arith
  | inr other ↦ ground arith
]

raised-files :
    (b : Bool) (e : Error) (w v : World) → raise_if b e w ≡ (ok tt, v) → w.files ≡ v.files
raised-files true e w v h = ground arith
raised-files false e w v h = ground arith

-- A match without a mark is never taken for applied.
is_applied-unmarked :
    (d : FilePath) (id : Text) (w v : World) (a : Bool)
    → lookup (applied_path d id) w.files ≡ none
    → is_applied d id w ≡ (ok a, v)
    → a ≡ false
unfolding is_applied
is_applied-unmarked d id w v a gone e = by_outcome (stat (applied_path d id) w) refl e
  where
    by_outcome :
        (r : Result ℕ × World)
        → stat (applied_path d id) w ≡ r
        → stated r.0 r.1 ≡ (ok a, v)
        → a ≡ false
    by_outcome (ok t, u) found h = absurd (stat-missing (applied_path d id) w u t gone found)
    by_outcome (err x, u) found h = stated-unmarked x u v a h

module _ {F : Type 0} (json : Codec (SubmitMatchAggregatesRequest F))
    (parse_time : Text → Option ℕ) where
  -- A load that succeeds gives what the file holds.
  load-held :
      (d : FilePath) (m : Text) (w v : World) (ls loaded : List (MatchRequestLine F))
      → Holds json parse_time (load_path d m) w ls
      → load_match_requests json parse_time d m w ≡ (ok loaded, v)
      → loaded ≡ ls
  unfolding load_match_requests
  load-held d m w v ls loaded held e =
      let p = load_path d m in
      let (x, u, with_dir, run) = continue_with-ok _ (raise_if (is_nil d) _ w) loaded v e in
      let (y, u', with_id, run') = continue_with-ok _ (raise_if (is_nil m) _ u) loaded v run in
      let (b, u'', read, parsed) = continue_with-ok _ (read_file p u') loaded v run' in
      let (t, there) = read_file-ok p u' u'' b read in
      let same : lookup p w.files ≡ some (file b t) =
        ap (lookup p) (raised-files (is_nil d) _ w u with_dir)
        ∙ ap (lookup p) (raised-files (is_nil m) _ u u' with_id)
        ∙ sym (ap (lookup p) ((read_file-Reads p).keeps u'))
        ∙ ap (λ r. lookup p r.1.files) read
        ∙ there in
      let bytes : bytes_of (lookup p w.files) ≡ b = ap bytes_of same in
      let reads : parse_file json parse_time load_buffer b ≡ ok ls = rw bytes at held.reads_back in
      let found : parse_file json parse_time load_buffer b ≡ ok loaded = ap (λ r. r.0) parsed in
      ground (arith, reads, found)

module _ {F : Type 0} (R : Float F) (json : Codec (SubmitMatchAggregatesRequest F))
    (parse_time : Text → Option ℕ) (states : Codec (RiskState F)) (lines : Codec (MatchLine F))
    (day : ℕ → Text) (setup : Setup F) where
  -- A handler of a finalized match that succeeds was not in the grace window.
  handler-applies :
      (claimed : Claimed) (w w' : World)
      → claimed.event.type ≡ match_finalized
      → handler R json parse_time states lines day setup claimed w ≡ (ok tt, w')
      → (u : World) × (u.files ≡ w.files)
        × (apply_once R json parse_time states lines day setup claimed.event.match_id u
            ≡ (ok tt, w'))
  unfolding handler
  handler-applies claimed w w' finalized e =
      let check = in_grace R json parse_time states lines day setup claimed.event in
      let (early, u, graced, run) = continue_with-ok _ (check w) tt w' (rw finalized at e) in
      let files =
        sym (ap (λ r. r.1.files) graced)
        ∙ (in_grace-Reads R json parse_time states lines day setup claimed.event).keeps w in
      elim (Bool-cases early) [
        | inl yet ↦ absurd (ground (arith, yet, run))
        | inr due ↦ (u, files, rw due at run)
      ]

  apply_once-processes :
      (m : Text) (w w' : World)
      → lookup (applied_path (applied_dir setup.risk_dir) m) w.files ≡ none
      → apply_once R json parse_time states lines day setup m w ≡ (ok tt, w')
      → (u : World) × (u.files ≡ w.files)
        × (process_match R json parse_time states lines day setup m u ≡ (ok tt, w'))
  unfolding apply_once
  apply_once-processes m w w' unmarked e =
      let d = applied_dir setup.risk_dir in
      let (already, u, looked, run) = continue_with-ok _ (is_applied d m w) tt w' e in
      let files = sym (ap (λ r. r.1.files) looked) ∙ (is_applied-Reads d m).keeps w in
      (u, files, rw (is_applied-unmarked d m w u already unmarked looked) at run)

  process_match-loads :
      (m : Text) (w w' : World) (ls : List (MatchRequestLine F))
      → Holds json parse_time (load_path setup.telemetry_dir m) w ls
      → process_match R json parse_time states lines day setup m w ≡ (ok tt, w')
      → (u : World) × (u.files ≡ w.files)
        × (process_lines R json parse_time states lines day setup m ls u ≡ (ok tt, w'))
  unfolding process_match
  process_match-loads m w w' ls held e =
      let started = record w { printed = "processing match_finalized" ∷ w.printed } in
      let load = load_match_requests json parse_time setup.telemetry_dir m in
      let failing = wrap "FAIL event=match_finalized reason=telemetry_missing" in
      let (loaded, u, got, run) = continue_with-ok _ (wrapping failing load started) tt w' e in
      let plain = rewrap-ok failing (load started) loaded u got in
      let same = load-held json parse_time setup.telemetry_dir m started u ls loaded held plain in
      let files =
        sym (ap (λ r. r.1.files) plain)
        ∙ (load_match_requests-Reads json parse_time setup.telemetry_dir m).keeps started in
      (u, files, rw same at run)

  -- What was submitted is what the ledger gets: if the file of a match holds some requests, the match
  -- has no mark yet and the handler of its event succeeds, under any faults, then one line is added to
  -- the ledger, to the file of the day of the line's time, whose earlier bytes stay as they are: the
  -- encoding of the match's id, of a time, which is that of the last request if this is not 0, and of
  -- a map that has each player of these requests once, with the last of the player's risks.
  pub handler-ledger :
      (claimed : Claimed) (first : MatchRequestLine F) (rest : List (MatchRequestLine F))
      (w w' : World)
      → claimed.event.type ≡ match_finalized
      → Holds json parse_time
          (load_path setup.telemetry_dir claimed.event.match_id)
          w
          (first ∷ rest)
      → lookup (applied_path (applied_dir setup.risk_dir) claimed.event.match_id) w.files ≡ none
      → handler R json parse_time states lines day setup claimed w ≡ (ok tt, w')
      → (players : List (Text × F)) × (at : ℕ) × (b : Text) × IsScores R setup.map_cfg
          (first ∷ rest)
          players
        × ((last_at 0 (first ∷ rest) == 0) ≡ false → at ≡ last_at 0 (first ∷ rest))
        × (lines.encode (record { match_id = claimed.event.match_id; at = at; players = players })
            ≡ some b)
        × (let p = codes "ledger.jsonl" ∷ ledger_dir lines day setup.risk_dir at in
            IsFile p (bytes_of (lookup p w.files) ++ (b ++ (10 ∷ []))) w')
  handler-ledger claimed first rest w w' finalized held unmarked e =
      let m = claimed.event.match_id in
      let (u, graced, applies) = handler-applies claimed w w' finalized e in
      let (v, looked, processes) =
        apply_once-processes m u w'
          (ap (lookup (applied_path (applied_dir setup.risk_dir) m)) graced ∙ unmarked) applies in
      let before : v.files ≡ w.files = looked ∙ graced in
      let held' : Holds json parse_time (load_path setup.telemetry_dir m) v (first ∷ rest) =
        rw before held in
      let (x, loaded, lines_done) = process_match-loads m v w' (first ∷ rest) held' processes in
      let same : x.files ≡ w.files = loaded ∙ before in
      rw same at
        (process_lines-ledger R json parse_time states lines day setup m first rest x w' lines_done)
