-- ===== src/Telemetry/Refusal.antt =====
-- Loading a file whose last line is not JSON behind its stamp.
use baseline_integrity.Base.{
  ℕ, ◌<◌, ◌≡◌, refl, false, Option, none, some, List, [], ◌∷◌, ◌++◌, is_nil, length, Text,
  trim_space, arith, inl, inr, Bool-cases,
}
use baseline_integrity.Base.Result.{Error, message, wrap, ok, err, Result-cases}
use baseline_integrity.Crypto.{Codec}
use baseline_integrity.Telemetry.{SubmitMatchAggregatesRequest}
use baseline_integrity.Telemetry.Lines.{
  raw_lines, scan, MatchRequestLine, parse_line, parse_lines, parse_file,
}
use baseline_integrity.Telemetry.RoundTrip.{
  IsStamp, IsObjectText, IsSink, sink_line, sink_line-ends, sink_line-trim, sink_line-drop_cr,
  sink_line-one_line, solid-ne-blank, is_nil-append, parse_lines-long,
}
use baseline_integrity.Telemetry.Scanning.{
  cut-append, raw_lines-append, raw_lines-line, scan-append,
}

abbrev pub err_bad_json : Error
err_bad_json = wrap "invalid telemetry json" (message "json")

module _ {F : Type 0} (json : Codec (SubmitMatchAggregatesRequest F))
    (parse_time : Text → Option ℕ) where
  -- One line that is refused at the end of lines that are read.
  parse_lines-refused :
      (xs : List Text) (l : Text) (x : Error) (ls : List (MatchRequestLine F))
      → parse_lines json parse_time xs false ≡ ok ls
      → is_nil l ≡ false
      → trim_space l ≡ l
      → parse_line json parse_time l ≡ err x
      → parse_lines json parse_time (xs ++ l ∷ []) false ≡ err x
  unfolding parse_lines
  parse_lines-refused [] l x ls e full trimmed parsed = ground (arith, trimmed, parsed)
  parse_lines-refused (y ∷ xs) l x ls e full trimmed parsed =
      elim (Bool-cases (is_nil (trim_space y))) [
        | inl blank ↦ ground (arith, blank, parse_lines-refused xs l x ls)
        | inr some_text ↦ elim (Result-cases (parse_line json parse_time (trim_space y))) [
          | inl (line, good) ↦ elim (Result-cases (parse_lines json parse_time xs false)) [
            | inl (rest, fine) ↦ ground (arith, parse_lines-refused xs l x rest)
            | inr (bad, fails) ↦ ground arith
          ]
          | inr (bad, fails) ↦ ground arith
        ]
      ]

  -- What follows a stamp is not JSON if it begins with another stamp.
  twice_stamped-refused :
      (stamp body : Text) (now : ℕ)
      → IsStamp stamp
      → IsObjectText body
      → parse_time stamp ≡ some now
      → json.decode body ≡ none
      → parse_line json parse_time (sink_line stamp body) ≡ err err_bad_json
  unfolding parse_line
  twice_stamped-refused stamp body now (h, k) (inside, e, one) timed refused =
      let some_body : is_nil body ≡ false = rw e (is_nil-append inside [] 125) in
      rw (cut-append 32 stamp body (solid-ne-blank stamp k), h, some_body, timed, refused) refl

  pub parse_file-refused :
      (size : ℕ) (b stamp body : Text) (now : ℕ) (ls : List (MatchRequestLine F))
      → IsSink json parse_time size b ls
      → IsStamp stamp
      → IsObjectText body
      → parse_time stamp ≡ some now
      → json.decode body ≡ none
      → length (sink_line stamp body) < size
      → parse_file json parse_time size (b ++ (sink_line stamp body ++ 10 ∷ [])) ≡ err err_bad_json
  unfolding parse_file
  parse_file-refused size b stamp body now ls h st ob timed refused fits =
      let line = sink_line stamp body in
      elim (Bool-cases (scan size (raw_lines b)).1) [
        | inl long ↦ absurd (
            parse_lines-long json parse_time (scan size (raw_lines b)).0 ls
              (rw long at h.reads_back))
        | inr short ↦ rw (
          raw_lines-append b (line ++ 10 ∷ []) h.complete,
          raw_lines-line line (sink_line-one_line stamp body st ob),
          scan-append size (raw_lines b) line short fits,
          sink_line-drop_cr stamp body ob,
          parse_lines-refused (scan size (raw_lines b)).0 line err_bad_json ls
              (rw short at h.reads_back) (is_nil-append stamp body 32)
              (sink_line-trim stamp body st ob)
              (twice_stamped-refused stamp body now st ob timed refused),
        )
      ]

-- A line of the sink ends as the object in it does.
pub sink_line-IsObjectText :
    (stamp body : Text) → IsStamp stamp → IsObjectText body → IsObjectText (sink_line stamp body)
sink_line-IsObjectText stamp body st (inside, e, one) = (
  stamp ++ 32 ∷ inside,
  rw e (sink_line-ends stamp inside),
  sink_line-one_line stamp body st (inside, e, one),
)
