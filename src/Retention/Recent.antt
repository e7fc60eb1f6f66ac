-- ===== src/Retention/Recent.antt =====
-- The pruning of telemetry against what `SubmitMatchAggregates` wrote.
use baseline_integrity.Base.{
  ℕ, ◌≤◌, ◌≡◌, ◌≢◌, refl, sym, Bool, true, false, not, ◌||◌, Option, none, some, List, [], ◌∷◌,
  ◌++◌, Text, codes, has_prefix, has_suffix, arith, inl, inr, Bool-cases,
}
use baseline_integrity.Base.Result.{Result, ok, err}
use baseline_integrity.Os.{
  FilePath, Node, file, lookup, World, continue_with, read_file, join, is_directory,
}
use baseline_integrity.Os.Yields.{read_file-Holds}
use baseline_integrity.Retention.{drop}
use baseline_integrity.Retention.Rules.{
  line_time, or_else_time, last_time, scanned_time, if_last_before, telemetry_file_last_timestamp,
  telemetry_rule,
}
use baseline_integrity.Telemetry.Lines.{drop_cr, raw_lines, scan, default_buffer}
use baseline_integrity.Telemetry.Scanning.{IsComplete, raw_lines-append, raw_lines-line, cut-append}
use baseline_integrity.Telemetry.RoundTrip.{
  IsStamp, IsObjectText, sink_line, sink_line-drop_cr, sink_line-one_line, solid-ne-blank,
}

scan-append_short :
    (size : ℕ) (xs : List Text) (l : Text)
    → (scan size (xs ++ l ∷ [])).1 ≡ false
    → (scan size (xs ++ l ∷ [])).0 ≡ (scan size xs).0 ++ drop_cr l ∷ []
unfolding scan
scan-append_short size [] l h = ground arith
scan-append_short size (x ∷ xs) l h = ground (arith, scan-append_short size xs l)

module _ (parse_time : Text → Option ℕ) where
  last_time-append :
      (found : Option ℕ) (xs : List Text) (l : Text) (now : ℕ)
      → line_time parse_time l ≡ some now
      → last_time parse_time found (xs ++ l ∷ []) ≡ some now
  unfolding last_time
  last_time-append found [] l now e = rw e refl
  last_time-append found (x ∷ xs) l now e =
      last_time-append (or_else_time parse_time (line_time parse_time x) found) xs l now e

  line_time-sink_line :
      (stamp body : Text) (now : ℕ)
      → IsStamp stamp
      → parse_time stamp ≡ some now
      → line_time parse_time (sink_line stamp body) ≡ some now
  unfolding line_time
  line_time-sink_line stamp body now st timed =
      ground (arith, cut-append 32 stamp body (solid-ne-blank stamp st.1), st.0, timed)

  -- The bytes of a sink whose last line has this stamp.
  abbrev pub sink_bytes : Text → Text → Text → Text
  sink_bytes b stamp body = b ++ (sink_line stamp body ++ 10 ∷ [])

  module _ (b stamp body : Text) (now : ℕ) (complete : IsComplete b) (st : IsStamp stamp)
      (ob : IsObjectText body) (timed : parse_time stamp ≡ some now) where
    sink_bytes-lines :
        raw_lines (sink_bytes b stamp body) ≡ raw_lines b ++ sink_line stamp body ∷ []
    sink_bytes-lines =
        rw
          (
            raw_lines-append b (sink_line stamp body ++ 10 ∷ []) complete,
            raw_lines-line (sink_line stamp body) (sink_line-one_line stamp body st ob),
          )
          refl

    last_time-sink :
        (scan default_buffer (raw_lines (sink_bytes b stamp body))).1 ≡ false
        → last_time parse_time none (scan default_buffer (raw_lines (sink_bytes b stamp body))).0
          ≡ some now
    last_time-sink short =
        let line = sink_line stamp body in
        let fits : (scan default_buffer (raw_lines b ++ line ∷ [])).1 ≡ false =
          rw sink_bytes-lines at short in
        rw
          (
            sink_bytes-lines,
            scan-append_short default_buffer (raw_lines b) line fits,
            sink_line-drop_cr stamp body ob,
          )
          (last_time-append none (scan default_buffer (raw_lines b)).0 line now
            (line_time-sink_line stamp body now st timed))

    scanned-sink :
        (r : List Text × Bool) (w : World) (o : Option ℕ)
        → (r.1 ≡ false → last_time parse_time none r.0 ≡ some now)
        → (scanned_time parse_time r w).0 ≡ ok o
        → o ≡ some now
    scanned-sink (lines, true) w o h e = ground arith
    scanned-sink (lines, false) w o h e = ground (arith, h refl)

    read-sink :
        (r : Result Text × World) (o : Option ℕ)
        → ((c : Text) → r.0 ≡ ok c → c ≡ sink_bytes b stamp body)
        → (continue_with (λ c. scanned_time parse_time (scan default_buffer (raw_lines c))) r).0
          ≡ ok o
        → o ≡ some now
    read-sink (err x, w) o same e = cc
    read-sink (ok c, w) o same e =
        let bytes = same c refl in
        scanned-sink (scan default_buffer (raw_lines (sink_bytes b stamp body))) w o last_time-sink
          (rw bytes at e)

    module _ (p : FilePath) (w : World) (t : ℕ)
        (there : lookup p w.files ≡ some (file (sink_bytes b stamp body) t)) where
      last_timestamp-sink :
          (o : Option ℕ) → (telemetry_file_last_timestamp parse_time p w).0 ≡ ok o → o ≡ some now
      unfolding telemetry_file_last_timestamp
      last_timestamp-sink o e =
          read-sink (read_file p w) o (λ c h. sym (rw there at (read_file-Holds p w c h))) e

  decided-keep :
      (cutoff now : ℕ) (r : Result (Option ℕ) × World)
      → cutoff ≤ now
      → ((o : Option ℕ) → r.0 ≡ ok o → o ≡ some now)
      → (continue_with (if_last_before parse_time cutoff) r).0 ≢ ok drop
  decided-keep cutoff now (err x, w) recent h = λ e. cc e
  decided-keep cutoff now (ok o, w) recent h =
      let found = h o refl in λ e. absurd (ground (arith, found, e))

  -- A file of telemetry whose last line has a stamp that is not before the cutoff, as a submission
  -- leaves it, is never chosen for deletion, whatever faults are scheduled.
  pub telemetry_rule_recent :
      (d : FilePath) (cutoff : ℕ) (name : Text) (node : Node) (b stamp body : Text) (now t : ℕ)
      (w : World)
      → IsComplete b
      → IsStamp stamp
      → IsObjectText body
      → parse_time stamp ≡ some now
      → cutoff ≤ now
      → lookup (join d name) w.files ≡ some (file (sink_bytes b stamp body) t)
      → ((telemetry_rule parse_time d cutoff).examine (name, node) w).0 ≢ ok drop
  telemetry_rule_recent d cutoff name node b stamp body now t w complete st ob timed recent there =
      elim (Bool-cases (
        is_directory (some node)
        || not (has_prefix name (codes "match_"))
        || not (has_suffix name (codes ".jsonl")))) [
          | inl other ↦ λ e. absurd (ground (arith, other, e))
          | inr telemetry ↦ rw telemetry (
              decided-keep cutoff now (telemetry_file_last_timestamp parse_time (join d name) w)
                recent
                (last_timestamp-sink b stamp body now complete st ob timed (join d name) w t there))
        ]
