-- ===== src/Telemetry/Storage.antt =====
-- What `SubmitMatchAggregates` leaves in the file of a match when it accepts, whatever faults are
-- scheduled: the append, and the push of the event behind it.
use baseline_integrity.Base.{
  ℕ, suc, ◌<◌, ◌≡◌, refl, ◌∙◌, true, false, some, [], ◌∷◌, ◌++◌, length, last_or, last_or-append,
  other_last, is_nil, Text, codes, arith, ap, sym, if◌then◌else◌, ◌==◌,
}
use baseline_integrity.Base.Result.{Result, ok, err, status, internal}
use baseline_integrity.Crypto.{Primitives, Codec}
use baseline_integrity.Os.{World, FilePath, pure, join, has_no_slash, lookup, time_now}
use baseline_integrity.Os.Appends.{continue_with-ok, bytes_of, IsFile, append-ok}
use baseline_integrity.Os.Keeps.{Keeps, Reads-Keeps, >>=-Keeps, if-Keeps, attempt-Keeps}
use baseline_integrity.Os.Reads.{pure-Reads, log-Reads}
use baseline_integrity.Os.Spares.{IsNot}
use baseline_integrity.Outbox.{Event, pending, json_suffix, new_event_id, enqueue}
use baseline_integrity.Outbox.Foreign.{ending-IsNot}
use baseline_integrity.Outbox.Frame.{enqueue-Keeps}
use baseline_integrity.Telemetry.{
  SubmitMatchAggregatesRequest, SubmitMatchAggregatesResponse, Server, Settings, sanitize,
}
use baseline_integrity.Telemetry.Outcome.{respond-accepted}
use baseline_integrity.Telemetry.Sanitize.{sink_path-in_sink, match_name}
use baseline_integrity.Telemetry.Submission.{
  sink_path, check_request, append_line, report, push_event, store_request, submit_match_aggregates,
}

-- A file whose name has another last byte is never the sink's, whatever the rest of its name is.
pub outbox-ne-sink :
    (q d : FilePath) (match_id x ending : Text)
    → has_no_slash ending ≡ true
    → 2 < length ending
    → is_nil ending ≡ false
    → (108 == last_or 0 ending) ≡ false
    → IsNot (join q (x ++ ending)) (sink_path d match_id)
outbox-ne-sink q d match_id x ending plain long full other =
    let name = match_name (sanitize match_id) in
    let ends : last_or 0 name ≡ 108 = last_or-append 95 46 (sanitize match_id) (codes "jsonl") in
    rw ((sink_path-in_sink d match_id).0)
      (ending-IsNot name d ending q x plain long (other_last name ending full (rw ends other)))

module _ {F : Type 0} (C : Primitives) (wire json : Codec (SubmitMatchAggregatesRequest F))
    (events : Codec Event) (format_time : ℕ → Text) where
  pub append_line-ok :
      (s : Server) (req : SubmitMatchAggregatesRequest F) (b : Text) (w w' : World)
      → json.encode req ≡ some b
      → append_line C wire json events format_time s req w ≡ (ok tt, w')
      → IsFile
          (sink_path s.sink_dir req.match_id)
          ((bytes_of (lookup (sink_path s.sink_dir req.match_id) w.files)
              ++ (format_time (w.clock w.reads) ++ 32 ∷ []))
            ++ (b ++ 10 ∷ []))
          w'
  unfolding append_line
  append_line-ok s req b w w' good e =
      append-ok (sink_path s.sink_dir req.match_id) (λ x. status internal "open telemetry sink")
        (λ x. status internal "write telemetry sink") (λ x. status internal "write telemetry sink")
        (λ now. format_time now ++ 32 ∷ []) (b ++ 10 ∷ []) w w' (rw good at e)

  report-Keeps :
      (p : FilePath) (r : Result (Unit {0})) → Keeps p (report C wire json events format_time r)
  report-Keeps p (ok u) = Reads-Keeps p _ (pure-Reads tt)
  report-Keeps p (err x) = Reads-Keeps p _ (log-Reads "outbox enqueue failed")

  enqueue_event-Keeps :
      (d o : FilePath) (match_id : Text) (ev : Event)
      → Keeps (sink_path d match_id) (enqueue events o ev)
  unfolding has_no_slash
  enqueue_event-Keeps d o match_id ev =
      enqueue-Keeps (sink_path d match_id) events o ev
        (outbox-ne-sink (pending o) d match_id ev.id (codes ".tmp") refl (omega arith) refl refl)
        (outbox-ne-sink (pending o) d match_id ev.id json_suffix refl (omega arith) refl refl)

  pub push_event-Keeps :
      (d : FilePath) (settings : Settings) (req : SubmitMatchAggregatesRequest F)
      → Keeps (sink_path d req.match_id) (push_event C wire json events format_time settings req)
  unfolding push_event new_event_id time_now
  push_event-Keeps d settings req = record {
    keeps_file = λ w b t there.
        let p = sink_path d req.match_id in
        (>>=-Keeps p _ (report C wire json events format_time)
            (attempt-Keeps p _ (enqueue_event-Keeps d settings.outbox_dir req.match_id _))
            (report-Keeps p)).keeps_file
          (record w { reads = suc (suc w.reads) }) b t there;
  }

  -- The push behind an append leaves the sink as the append did.
  pub store_request-ok :
      (s : Server) (settings : Settings) (req : SubmitMatchAggregatesRequest F) (b : Text)
      (w w' : World) (resp : SubmitMatchAggregatesResponse)
      → json.encode req ≡ some b
      → store_request C wire json events format_time s settings req w ≡ (ok resp, w')
      → IsFile
          (sink_path s.sink_dir req.match_id)
          ((bytes_of (lookup (sink_path s.sink_dir req.match_id) w.files)
              ++ (format_time (w.clock w.reads) ++ 32 ∷ []))
            ++ (b ++ 10 ∷ []))
          w'
  unfolding store_request
  store_request-ok s settings req b w w' resp good e =
      let p = sink_path s.sink_dir req.match_id in
      let (u, v, appended, run) =
        continue_with-ok _ (append_line C wire json events format_time s req w) resp w' e in
      let (t, there) = append_line-ok s req b w v good appended in
      let (u', v', pushed, end) =
        continue_with-ok _
          ((if settings.on_finalize_only
              then pure tt
              else push_event C wire json events format_time settings req)
            v)
          resp w' run in
      let kept =
        (if-Keeps p settings.on_finalize_only (pure tt)
            (push_event C wire json events format_time settings req)
            (Reads-Keeps p _ (pure-Reads tt)) (push_event-Keeps s.sink_dir settings req)).keeps_file
          v _ t there in
      (t, sym (ap (λ r. lookup p r.1.files) end) ∙ sym (ap (λ r. lookup p r.1.files) pushed) ∙ kept)

  pub respond-ok :
      (s : Server) (settings : Settings) (req : SubmitMatchAggregatesRequest F) (w w' : World)
      (resp : SubmitMatchAggregatesResponse)
      → submit_match_aggregates C wire json events format_time s settings (some req) w
        ≡ (ok resp, w')
      → resp.accepted ≡ true
      → store_request C wire json events format_time s settings req w ≡ (ok resp, w')
  unfolding submit_match_aggregates
  respond-ok s settings req w w' resp e accepted =
      let passed =
        respond-accepted C wire json events format_time s settings req (check_request C wire s req)
          w w' resp e accepted in
      rw passed at e
