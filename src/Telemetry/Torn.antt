-- ===== src/Telemetry/Torn.antt =====
-- A submission whose second write fails, and the submission after it.
use mathlib.Core.List.{append_assoc}
use baseline_integrity.Base.{
  ℕ, suc, ◌<◌, ◌≡◌, ◌∙◌, refl, ap, sym, true, false, Option, none, some, List, [], ◌∷◌, ◌++◌,
  is_nil, length, all, String, Text, arith,
}
use baseline_integrity.Base.Result.{Error, status, internal, Result, ok, err}
use baseline_integrity.Crypto.{Primitives, Codec}
use baseline_integrity.Os.{
  World, Io, continue_with, FilePath, file, lookup, insert, open_append, write_end, time_now,
}
use baseline_integrity.Os.Appends.{IsFile}
use baseline_integrity.Os.Still.{still, read_file-still, lookup-insert_self}
use baseline_integrity.Outbox.{Event}
use baseline_integrity.Telemetry.{
  SubmitMatchAggregatesRequest, SubmitMatchAggregatesResponse, Server, Settings, is_safe,
}
use baseline_integrity.Telemetry.Lines.{MatchRequestLine, load_match_requests, load_buffer}
use baseline_integrity.Telemetry.Durability.{Printing, sink_path-load_path, two_writes}
use baseline_integrity.Telemetry.Outcome.{submit-accepted}
use baseline_integrity.Telemetry.RoundTrip.{IsSink, sink_line}
use baseline_integrity.Telemetry.Storage.{store_request-ok, respond-ok}
use baseline_integrity.Telemetry.Submission.{
  sink_path, append_line, store_request, check_request, submit_match_aggregates,
}
use baseline_integrity.Telemetry.Refusal.{err_bad_json, parse_file-refused, sink_line-IsObjectText}

-- What a failure leaves is what the whole sequence leaves.
stopped :
    {A : Type 0} (f : Unit {0} → Io A) (r : Result (Unit {0}) × World) (e : Error) (p : FilePath)
    (b : Text)
    → r.0 ≡ err e
    → IsFile p b r.1
    → ((continue_with f r).0 ≡ err e) × IsFile p b (continue_with f r).1
stopped f (ok u, v) e p b h k = ground arith
stopped f (err x, v) e p b h k = (ground arith, k)

module _ {F : Type 0} (C : Primitives) (wire json : Codec (SubmitMatchAggregatesRequest F))
    (events : Codec Event) (format_time : ℕ → Text) where
  -- The third call of the append fails.
  append_line-torn :
      (s : Server) (req : SubmitMatchAggregatesRequest F) (b x : Text) (t : ℕ) (w : World)
      (e : Error) (rest : List (Option Error))
      → json.encode req ≡ some b
      → w.faults ≡ none ∷ none ∷ some e ∷ rest
      → lookup (sink_path s.sink_dir req.match_id) w.files ≡ some (file x t)
      → let r = append_line C wire json events format_time s req w in
        (r.0 ≡ err (status internal "write telemetry sink"))
        × IsFile
            (sink_path s.sink_dir req.match_id)
            (x ++ (format_time (w.clock w.reads) ++ 32 ∷ []))
            r.1
  unfolding append_line open_append write_end time_now
  append_line-torn s req b x t w e rest good scheduled there =
      let p = sink_path s.sink_dir req.match_id in
      let opened = insert p (file x t) w.files in
      let here = lookup-insert_self p (file x t) w.files in
      let half = file (x ++ (format_time (w.clock w.reads) ++ 32 ∷ [])) (w.clock (suc w.reads)) in
      (
        rw (good, scheduled, there, here) refl,
        (
          w.clock (suc w.reads),
          rw (good, scheduled, there, here) (lookup-insert_self p half opened),
        ),
      )

  submit-torn :
      (s : Server) (settings : Settings) (req : SubmitMatchAggregatesRequest F) (b x : Text) (t : ℕ)
      (w : World) (e : Error) (rest : List (Option Error))
      → check_request C wire s req ≡ ok none
      → json.encode req ≡ some b
      → w.faults ≡ none ∷ none ∷ some e ∷ rest
      → lookup (sink_path s.sink_dir req.match_id) w.files ≡ some (file x t)
      → let r = submit_match_aggregates C wire json events format_time s settings (some req) w in
        (r.0 ≡ err (status internal "write telemetry sink"))
        × IsFile
            (sink_path s.sink_dir req.match_id)
            (x ++ (format_time (w.clock w.reads) ++ 32 ∷ []))
            r.1
  unfolding submit_match_aggregates store_request
  submit-torn s settings req b x t w e rest passed good scheduled there =
      let r = append_line C wire json events format_time s req w in
      let (failed, torn) = append_line-torn s req b x t w e rest good scheduled there in
      rw passed (stopped _ r _ _ _ failed torn)

  module _ (parse_time : Text → Option ℕ) (P : Printing json format_time parse_time) where
    -- If the second write of a submission fails, then after a later submission for the same match
    -- that is accepted, under any faults, the match is not loaded any more, with no fault scheduled,
    -- and what was stored for it before is lost to the loader too: the first submission returns an
    -- error and leaves a stamp without a line feed, behind which the second one writes its line. The
    -- sink has a directory, the id is of safe bytes, the joined line fits into the buffer of the
    -- loader, and a stamp in front of an object is not JSON.
    pub submit-torn-load :
        (s : Server) (settings : Settings) (req req' : SubmitMatchAggregatesRequest F)
        (b b' x : Text) (t : ℕ) (w w' : World) (e : Error) (rest : List (Option Error))
        (resp : SubmitMatchAggregatesResponse) (ls : List (MatchRequestLine F)) (c : ℕ → ℕ) (n : ℕ)
        (l : List String)
        → is_nil s.sink_dir ≡ false
        → all is_safe req.match_id ≡ true
        → req'.match_id ≡ req.match_id
        → check_request C wire s req ≡ ok none
        → json.encode req ≡ some b
        → json.encode req' ≡ some b'
        → w.faults ≡ none ∷ none ∷ some e ∷ rest
        → lookup (sink_path s.sink_dir req.match_id) w.files ≡ some (file x t)
        → IsSink json parse_time load_buffer x ls
        → let first =
            submit_match_aggregates C wire json events format_time s settings (some req) w in
          let line = sink_line (format_time (first.1.clock first.1.reads)) b' in
          json.decode line ≡ none
          → length (sink_line (format_time (w.clock w.reads)) line) < load_buffer
          → submit_match_aggregates C wire json events format_time s settings (some req') first.1
            ≡ (ok resp, w')
          → resp.accepted ≡ true
          → (first.0 ≡ err (status internal "write telemetry sink"))
            × ((load_match_requests json parse_time s.sink_dir req.match_id
                  (still w'.files c n l)).0
                ≡ err err_bad_json)
    unfolding load_match_requests
    submit-torn-load s settings req req' b b' x t w w' e rest resp ls c n l has_dir safe same passed
          good good' scheduled there sink refused fits ran accepted =
        let first =
          submit_match_aggregates C wire json events format_time s settings (some req) w in
        let p = sink_path s.sink_dir req.match_id in
        let stamp = format_time (w.clock w.reads) in
        let stamp' = format_time (first.1.clock first.1.reads) in
        let (failed, (u, torn)) =
          submit-torn s settings req b x t w e rest passed good scheduled there in
        let full =
          (submit-accepted C wire json events format_time s settings req' first.1 w' resp ran
            accepted).has_match_id in
        let stored =
          store_request-ok C wire json events format_time s settings req' b' first.1 w' resp good' (
            respond-ok C wire json events format_time s settings req' first.1 w' resp ran
              accepted) in
        let (u', written) = rw (same, torn) at stored in
        let body =
          sink_line-IsObjectText stamp' b' (P.stamp (first.1.clock first.1.reads))
            (P.object req' b' good') in
        let bytes : ((x ++ (stamp ++ 32 ∷ [])) ++ (stamp' ++ 32 ∷ [])) ++ (b' ++ 10 ∷ [])
            ≡ x ++ (sink_line stamp (sink_line stamp' b') ++ 10 ∷ []) =
          two_writes (x ++ (stamp ++ 32 ∷ [])) stamp' b'
          ∙ append_assoc x (stamp ++ 32 ∷ []) (sink_line stamp' b' ++ 10 ∷ [])
          ∙ ap (λ z. x ++ z)
              (append_assoc stamp (32 ∷ []) (sink_line stamp' b' ++ 10 ∷ [])
                ∙ sym (append_assoc stamp (32 ∷ sink_line stamp' b') (10 ∷ []))) in
        let here : lookup p w'.files
            ≡ some (file (x ++ (sink_line stamp (sink_line stamp' b') ++ 10 ∷ [])) u') =
          rw bytes at written in
        (
          failed,
          rw
              (
                has_dir,
                rw same at full,
                sink_path-load_path json parse_time s.sink_dir req.match_id (rw same at full) safe,
                read_file-still c n l w'.files p _ u' here,
                parse_file-refused json parse_time load_buffer x stamp (sink_line stamp' b')
                    (w.clock w.reads) ls sink (P.stamp (w.clock w.reads)) body
                    (P.parse-format (w.clock w.reads)) refused fits,
              )
              refl,
        )
