-- ===== src/Telemetry/Lines.antt =====
-- server/internal/baselineintegrity/telemetry/store: `LoadMatchRequestsJSONL` and
-- `LoadMatchAggregatesJSONL`, and the scanner that they and the pruning of telemetry read lines with.
use baseline_integrity.Base.{
  ℕ, ◌*◌, Bool, true, false, ◌||◌, Option, List, [], ◌∷◌, ◌++◌, is_nil, length, ltb, ◌==◌, Text,
  codes, trim_space, cut, if◌then◌else◌,
}
use baseline_integrity.Base.Result.{Error, message, wrap, Result, ok, err, ◌>>=◌ as ◌>>=ᵣ◌, or_err}
use baseline_integrity.Crypto.{Codec}
use baseline_integrity.Os.{FilePath, join, Io, raise_if, of_result, ◌>>=◌, ◌>>◌, read_file}
use baseline_integrity.Telemetry.{SubmitMatchAggregatesRequest}

-- A line without the carriage return at its end (`bufio.ScanLines`).
unfoldable pub drop_cr : Text → Text
drop_cr [] = []
drop_cr (c ∷ []) = if c == 13 then [] else c ∷ []
drop_cr (c ∷ d ∷ s) = c ∷ drop_cr (d ∷ s)

abbrev pub onto_line : ℕ → List Text → List Text
onto_line c [] = (c ∷ []) ∷ []
onto_line c (l ∷ ls) = (c ∷ l) ∷ ls

-- The lines of a file; what follows the last line feed is a line if it is not empty.
unfoldable pub raw_lines : Text → List Text
raw_lines [] = []
raw_lines (c ∷ s) = let rest = raw_lines s in if c == 10 then [] ∷ rest else onto_line c rest

-- `bufio.Scanner` with a buffer of this size: the lines up to the first that does not fit, and
-- whether there was one (`ErrTooLong`).
unfoldable pub scan : ℕ → List Text → List Text × Bool
scan size [] = ([], false)
scan size (l ∷ ls) =
    let (rest, long) = scan size ls in
    if ltb (length l) size then (drop_cr l ∷ rest, long) else ([], true)

-- The size that the loaders set, and the default of `bufio`.
abbrev pub load_buffer : ℕ
load_buffer = 8 * 1024 * 1024

abbrev pub default_buffer : ℕ
default_buffer = 64 * 1024

abbrev pub err_too_long : Error
err_too_long = message "bufio.Scanner: token too long"

-- The file that a match is loaded from.
abbrev pub load_path : FilePath → Text → FilePath
load_path d match_id = join d (codes "match_" ++ (match_id ++ codes ".jsonl"))

pub record MatchRequestLine (F : Type 0) : Type 0 where
  pub at : ℕ
  pub req : SubmitMatchAggregatesRequest F

-- `protojson` and the parsing of times are parameters.
module _ {F : Type 0} (json : Codec (SubmitMatchAggregatesRequest F))
    (parse_time : Text → Option ℕ) where
  -- A line that is not blank: a time stamp, a space and a request.
  unfoldable pub parse_line : Text → Result (MatchRequestLine F)
  parse_line line =
      or_err (cut 32 line) (message "invalid telemetry line (missing timestamp prefix)")
      >>=ᵣ λ parts.
          if is_nil parts.0 || is_nil parts.1
          then err (message "invalid telemetry line (missing timestamp prefix)")
          else or_err (parse_time parts.0) (wrap "invalid telemetry timestamp" (message "time"))
            >>=ᵣ λ at.
                or_err (json.decode parts.1) (wrap "invalid telemetry json" (message "json"))
                >>=ᵣ λ req. ok (record { at = at; req = req })

  abbrev pub cons_line :
      Result (MatchRequestLine F)
      → Result (List (MatchRequestLine F))
      → Result (List (MatchRequestLine F))
  cons_line r rest = r >>=ᵣ λ line. rest >>=ᵣ λ lines. ok (line ∷ lines)

  -- The loop over the scanner, and `s.Err()` behind it.
  unfoldable pub parse_lines : List Text → Bool → Result (List (MatchRequestLine F))
  unfolding parse_line
  parse_lines [] long = if long then err err_too_long else ok []
  parse_lines (l ∷ ls) long =
      let rest = parse_lines ls long in
      let line = trim_space l in if is_nil line then rest else cons_line (parse_line line) rest

  unfoldable pub parse_file : ℕ → Text → Result (List (MatchRequestLine F))
  unfolding parse_lines raw_lines scan
  parse_file size b = let (lines, long) = scan size (raw_lines b) in parse_lines lines long

  unfoldable pub load_match_requests : FilePath → Text → Io (List (MatchRequestLine F))
  load_match_requests d match_id = do
    raise_if (is_nil d) (message "telemetryDir is required")
    raise_if (is_nil match_id) (message "matchID is required")
    b ← read_file (load_path d match_id)
    of_result (parse_file load_buffer b)

-- `LoadMatchAggregatesJSONL`: each line that is not empty is a JSON object, with no time stamp.
module _ {A : Type 0} (json : Text → Option A) where
  unfoldable pub decode_lines : List Text → Bool → Result (List A)
  decode_lines [] long = if long then err err_too_long else ok []
  decode_lines (l ∷ ls) long =
      let rest = decode_lines ls long in
      let here = or_err (json l) (wrap "invalid jsonl line" (message "json")) >>=ᵣ λ a.
      rest >>=ᵣ λ more. ok (a ∷ more) in
      if is_nil l then rest else here

  unfoldable pub load_match_aggregates : FilePath → Text → Io (List A)
  unfolding decode_lines scan raw_lines
  load_match_aggregates d match_id = do
    raise_if (is_nil d) (message "telemetryDir is required")
    raise_if (is_nil match_id) (message "matchID is required")
    b ← read_file (load_path d match_id)
    let (lines, long) = scan load_buffer (raw_lines b)
    of_result (decode_lines lines long)
