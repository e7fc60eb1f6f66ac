-- ===== src/RiskWorker/Submitted.antt =====
-- From a submission to the ledger: the telemetry service and the risk worker on one tree of files.
use baseline_integrity.Base.{
  ℕ, ◌<◌, ◌≡◌, ◌∙◌, refl, sym, ap, true, false, Option, none, some, List, [], ◌∷◌, ◌++◌, length,
  is_nil, all, Text, codes, ◌==◌,
}
use baseline_integrity.Base.Result.{ok}
use baseline_integrity.Crypto.{Primitives, Codec}
use baseline_integrity.Float.{Float}
use baseline_integrity.Os.{World, lookup}
use baseline_integrity.Os.Appends.{bytes_of, IsFile}
use baseline_integrity.Outbox.{Event, match_finalized}
use baseline_integrity.Worker.{Claimed}
use baseline_integrity.Risk.{RiskState}
use baseline_integrity.Risk.Store.{applied_path, MatchLine, ledger_dir}
use baseline_integrity.RiskWorker.{Setup, applied_dir, last_at, handler}
use baseline_integrity.RiskWorker.Delivery.{handler-ledger}
use baseline_integrity.RiskWorker.Players.{IsScores}
use baseline_integrity.Telemetry.{
  SubmitMatchAggregatesRequest, SubmitMatchAggregatesResponse, Server, Settings, is_safe,
}
use baseline_integrity.Telemetry.Durability.{Printing, Holds, submit-load, sink_path-load_path}
use baseline_integrity.Telemetry.Lines.{MatchRequestLine, load_buffer, load_path}
use baseline_integrity.Telemetry.Outcome.{submit-accepted}
use baseline_integrity.Telemetry.RoundTrip.{sink_line}
use baseline_integrity.Telemetry.Submission.{sink_path, submit_match_aggregates}

last_at-append :
    {F : Type 0} (at : ℕ) (ls : List (MatchRequestLine F)) (l : MatchRequestLine F)
    → last_at at (ls ++ l ∷ []) ≡ l.at
unfolding last_at
last_at-append at [] l = refl
last_at-append at (m ∷ ls) l = last_at-append m.at ls l

append-cons : {A : Type 0} (ls : List A) (l : A) → (x : A) × (xs : List A) × (ls ++ l ∷ [] ≡ x ∷ xs)
append-cons [] l = (l, [], refl)
append-cons (m ∷ ls) l = (m, ls ++ l ∷ [], refl)

module _ {F : Type 0} (R : Float F) (lines : Codec (MatchLine F)) (day : ℕ → Text) where
  -- What the ledger's file of a day gets for a match: one more line behind bytes that stay as they
  -- are, of a map that has each player of these requests once, with the last of the player's risks.
  abbrev pub IsEntered : Setup F → Text → ℕ → List (MatchRequestLine F) → World → World → Type 0
  IsEntered setup m at ls w w' =
      (players : List (Text × F)) × (b : Text) × IsScores R setup.map_cfg ls players
      × (lines.encode (record { match_id = m; at = at; players = players }) ≡ some b)
      × (let p = codes "ledger.jsonl" ∷ ledger_dir lines day setup.risk_dir at in
          IsFile p (bytes_of (lookup p w.files) ++ (b ++ (10 ∷ []))) w')

module _ {F : Type 0} (R : Float F) (C : Primitives)
    (wire json : Codec (SubmitMatchAggregatesRequest F)) (events : Codec Event)
    (format_time : ℕ → Text) (parse_time : Text → Option ℕ)
    (P : Printing json format_time parse_time) (states : Codec (RiskState F))
    (lines : Codec (MatchLine F)) (day : ℕ → Text) where
  entered :
      (setup : Setup F) (claimed : Claimed) (ls : List (MatchRequestLine F))
      (l : MatchRequestLine F) (w w' : World)
      → claimed.event.type ≡ match_finalized
      → Holds json parse_time
          (load_path setup.telemetry_dir claimed.event.match_id)
          w
          (ls ++ l ∷ [])
      → lookup (applied_path (applied_dir setup.risk_dir) claimed.event.match_id) w.files ≡ none
      → (l.at == 0) ≡ false
      → handler R json parse_time states lines day setup claimed w ≡ (ok tt, w')
      → IsEntered R lines day setup claimed.event.match_id l.at (ls ++ l ∷ []) w w'
  entered setup claimed ls l w w' finalized held unmarked timed e =
      let (first, rest, same) = append-cons ls l in
      let held' : Holds json parse_time (load_path setup.telemetry_dir claimed.event.match_id) w
          (first ∷ rest) =
        rw same at held in
      let (players, at, b, scores, last, good, there) =
        handler-ledger R json parse_time states lines day setup claimed first rest w w' finalized
          held' unmarked e in
      let end : last_at 0 (first ∷ rest) ≡ l.at =
        ap (last_at 0) (sym same) ∙ last_at-append 0 ls l in
      let now : at ≡ l.at = last (rw end timed) ∙ end in
      (players, b, rw same scores, rw now at good, rw now at there)

  -- An accepted submission reaches the ledger: once it was accepted, under any faults, and the handler
  -- of an event of its match succeeds, under any faults, in a world where the match's file is as the
  -- submission left it and the match has no mark, the ledger's file of the day of the submission has
  -- one more line behind its earlier bytes: the match's id, the instant of the submission, and each
  -- player of all requests that the sink holds for the match, this one being the last, once, with the
  -- last of the player's risks. The sink is the handler's, and has a directory, the match's id is of
  -- safe bytes, the line fits into the buffer of the loader, and the instant is not 0.
  pub submit-ledger :
      (s : Server) (settings : Settings) (req : SubmitMatchAggregatesRequest F) (b : Text)
      (w w' : World) (resp : SubmitMatchAggregatesResponse) (ls : List (MatchRequestLine F))
      (setup : Setup F) (claimed : Claimed) (v v' : World)
      → is_nil s.sink_dir ≡ false
      → all is_safe req.match_id ≡ true
      → json.encode req ≡ some b
      → length (sink_line (format_time (w.clock w.reads)) b) < load_buffer
      → (w.clock w.reads == 0) ≡ false
      → Holds json parse_time (sink_path s.sink_dir req.match_id) w ls
      → submit_match_aggregates C wire json events format_time s settings (some req) w
        ≡ (ok resp, w')
      → resp.accepted ≡ true
      → setup.telemetry_dir ≡ s.sink_dir
      → claimed.event.type ≡ match_finalized
      → claimed.event.match_id ≡ req.match_id
      → lookup (sink_path s.sink_dir req.match_id) v.files
        ≡ lookup (sink_path s.sink_dir req.match_id) w'.files
      → lookup (applied_path (applied_dir setup.risk_dir) claimed.event.match_id) v.files ≡ none
      → handler R json parse_time states lines day setup claimed v ≡ (ok tt, v')
      → IsEntered R lines day setup claimed.event.match_id
          (w.clock w.reads)
          (ls ++ record { at = w.clock w.reads; req = req } ∷ [])
          v
          v'
  submit-ledger s settings req b w w' resp ls setup claimed v v' has_dir safe good fits timed held
        submitted accepted dirs finalized named left unmarked handled =
      let line : MatchRequestLine F = record { at = w.clock w.reads; req = req } in
      let p = sink_path s.sink_dir req.match_id in
      let full =
        (submit-accepted C wire json events format_time s settings req w w' resp submitted
          accepted).has_match_id in
      let stored =
        (submit-load C wire json events format_time parse_time P s settings req b w w' resp ls
          w.clock 0 [] has_dir safe good fits held submitted accepted).0 in
      let place : load_path setup.telemetry_dir claimed.event.match_id ≡ p =
        rw (dirs, named) (sink_path-load_path json parse_time s.sink_dir req.match_id full safe) in
      let there : Holds json parse_time (load_path setup.telemetry_dir claimed.event.match_id) v
          (ls ++ line ∷ []) =
        rw (place, left) stored in
      entered setup claimed ls line v v' finalized there unmarked timed handled
