-- ===== src/Telemetry/Durability.antt =====
-- What an accepted submission leaves in the sink, whatever faults are scheduled, and what loading
-- the match reads there.
use mathlib.Core.List.{append_assoc}
use baseline_integrity.Base.{
  ℕ, ◌<◌, ◌≡◌, ◌∙◌, true, false, Option, some, List, [], ◌∷◌, ◌++◌, is_nil, length, all, String,
  Text, ap, sym,
}
use baseline_integrity.Base.Result.{ok}
use baseline_integrity.Crypto.{Primitives, Codec, RoundTrips}
use baseline_integrity.Os.{World, FilePath, lookup}
use baseline_integrity.Os.Appends.{bytes_of, IsFile}
use baseline_integrity.Os.Still.{still, read_file-still}
use baseline_integrity.Outbox.{Event}
use baseline_integrity.Telemetry.{
  SubmitMatchAggregatesRequest, SubmitMatchAggregatesResponse, Server, Settings, is_safe,
}
use baseline_integrity.Telemetry.Lines.{
  MatchRequestLine, load_path, parse_file, load_match_requests, load_buffer,
}
use baseline_integrity.Telemetry.Outcome.{submit-accepted}
use baseline_integrity.Telemetry.RoundTrip.{
  IsStamp, IsObjectText, sink_line, IsSink, sink_line-IsSink,
}
use baseline_integrity.Telemetry.Sanitize.{sanitize_fixed}
use baseline_integrity.Telemetry.Submission.{sink_path, submit_match_aggregates}
use baseline_integrity.Telemetry.Storage.{store_request-ok, respond-ok}

-- The two writes make one line.
pub two_writes :
    (x stamp b : Text)
    → (x ++ (stamp ++ 32 ∷ [])) ++ (b ++ 10 ∷ []) ≡ x ++ (sink_line stamp b ++ 10 ∷ [])
two_writes x stamp b =
    append_assoc x (stamp ++ 32 ∷ []) (b ++ 10 ∷ [])
    ∙ ap (λ t. x ++ t)
        (append_assoc stamp (32 ∷ []) (b ++ 10 ∷ []) ∙ sym (append_assoc stamp (32 ∷ b) (10 ∷ [])))

-- What the sink relies on: a stamp has no white space and parses to its instant, and a request is
-- printed as an object on one line, which decodes to it.
pub record Printing {F : Type 0} (json : Codec (SubmitMatchAggregatesRequest F))
    (format_time : ℕ → Text) (parse_time : Text → Option ℕ) : Type 0 where
  pub stamp : (now : ℕ) → IsStamp (format_time now)
  pub parse-format : (now : ℕ) → parse_time (format_time now) ≡ some now
  pub object :
      (req : SubmitMatchAggregatesRequest F) (b : Text) → json.encode req ≡ some b → IsObjectText b
  pub round_trips : RoundTrips json

module _ {F : Type 0} (json : Codec (SubmitMatchAggregatesRequest F))
    (parse_time : Text → Option ℕ) where
  -- The file of a match holds these requests; a file that is not there holds none.
  abbrev pub Holds : FilePath → World → List (MatchRequestLine F) → Type 0
  Holds p w ls = IsSink json parse_time load_buffer (bytes_of (lookup p w.files)) ls

  pub sink_path-load_path :
      (d : FilePath) (match_id : Text)
      → is_nil match_id ≡ false
      → all is_safe match_id ≡ true
      → load_path d match_id ≡ sink_path d match_id
  sink_path-load_path d match_id full safe = rw (sanitize_fixed match_id full safe)

  -- What a file holds is what loading the match gives.
  load-Holds :
      (c : ℕ → ℕ) (n : ℕ) (l : List String) (d : FilePath) (match_id b : Text) (w : World)
      (ls : List (MatchRequestLine F))
      → is_nil d ≡ false
      → is_nil match_id ≡ false
      → all is_safe match_id ≡ true
      → IsFile (sink_path d match_id) b w
      → Holds (sink_path d match_id) w ls
      → (load_match_requests json parse_time d match_id (still w.files c n l)).0 ≡ ok ls
  unfolding load_match_requests
  load-Holds c n l d match_id b w ls has_dir full safe (t, there) h =
      let held : parse_file json parse_time load_buffer b ≡ ok ls = rw there at h.reads_back in
      rw (
        has_dir,
        full,
        sink_path-load_path d match_id full safe,
        read_file-still c n l w.files (sink_path d match_id) b t there,
        held,
      )

module _ {F : Type 0} (C : Primitives) (wire json : Codec (SubmitMatchAggregatesRequest F))
    (events : Codec Event) (format_time : ℕ → Text) (parse_time : Text → Option ℕ)
    (P : Printing json format_time parse_time) where
  -- An accepted submission is durable, whatever faults are scheduled while it runs: the file of the
  -- match, which held some requests or was not there, holds this one behind them, at the instant
  -- that was read for it, and loading the match later, with no fault scheduled, gives them all. The
  -- sink has a directory, the match's id is of safe bytes, and the line fits into the buffer of the
  -- loader.
  pub submit-load :
      (s : Server) (settings : Settings) (req : SubmitMatchAggregatesRequest F) (b : Text)
      (w w' : World) (resp : SubmitMatchAggregatesResponse) (ls : List (MatchRequestLine F))
      (c : ℕ → ℕ) (n : ℕ) (l : List String)
      → is_nil s.sink_dir ≡ false
      → all is_safe req.match_id ≡ true
      → json.encode req ≡ some b
      → length (sink_line (format_time (w.clock w.reads)) b) < load_buffer
      → Holds json parse_time (sink_path s.sink_dir req.match_id) w ls
      → submit_match_aggregates C wire json events format_time s settings (some req) w
        ≡ (ok resp, w')
      → resp.accepted ≡ true
      → Holds json parse_time
          (sink_path s.sink_dir req.match_id)
          w'
          (ls ++ record { at = w.clock w.reads; req = req } ∷ [])
        × ((load_match_requests json parse_time s.sink_dir req.match_id (still w'.files c n l)).0
            ≡ ok (ls ++ record { at = w.clock w.reads; req = req } ∷ []))
  submit-load s settings req b w w' resp ls c n l has_dir safe good fits h e accepted =
      let p = sink_path s.sink_dir req.match_id in
      let stamp = format_time (w.clock w.reads) in
      let full =
        (submit-accepted C wire json events format_time s settings req w w' resp e
          accepted).has_match_id in
      let stored = respond-ok C wire json events format_time s settings req w w' resp e accepted in
      let (t, there) =
        store_request-ok C wire json events format_time s settings req b w w' resp good stored in
      let next =
        sink_line-IsSink json parse_time load_buffer (bytes_of (lookup p w.files)) stamp b
          (w.clock w.reads) req ls (P.stamp (w.clock w.reads)) (P.object req b good)
          (P.parse-format (w.clock w.reads)) (P.round_trips.decode-encode req b good) fits h in
      let held : Holds json parse_time p w'
          (ls ++ record { at = w.clock w.reads; req = req } ∷ []) =
        rw (there, two_writes (bytes_of (lookup p w.files)) stamp b) next in
      (
        held,
        load-Holds json parse_time c n l s.sink_dir req.match_id _ w' _ has_dir full safe (t, there)
            held,
      )
