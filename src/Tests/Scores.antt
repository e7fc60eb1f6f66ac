-- ===== src/Tests/Scores.antt =====
-- The scoring of a match, and its repetition.
use baseline_integrity.Base.{◌≡◌, refl, none, some, [], ◌∷◌, codes, text_eq}
use baseline_integrity.Base.Int.{ℤ, pos}
use baseline_integrity.Base.Result.{ok}
use baseline_integrity.Crypto.{Codec}
use baseline_integrity.Os.{
  open_append, path_eq, time_now, write_end, insert, path_lt, mkdir_all, read_file, write_file, dir,
  World, lookup, join,
}
use baseline_integrity.Os.Still.{still}
use baseline_integrity.Outbox.{match_finalized}
use baseline_integrity.Worker.{Claimed}
use baseline_integrity.Risk.{
  RiskState, apply_match_risk, map_aggregates_to_match_risk, add_quantiles,
}
use baseline_integrity.Risk.Store.{MatchLine, load, save, append_match_line, mark_applied}
use baseline_integrity.Telemetry.{SubmitMatchAggregatesRequest, expected_telemetry_schema_id}
use baseline_integrity.Telemetry.Lines.{MatchRequestLine}
use baseline_integrity.RiskWorker.{Setup, process_lines, handler}
use baseline_integrity.RiskWorker.Once.{handler-process_lines}
use baseline_integrity.Tests.Numbers.{whole}

abbrev pub requests : Codec (SubmitMatchAggregatesRequest ℤ)
requests = record { encode = λ r. some r.match_id; decode = λ b. none }

abbrev pub totals : Codec (RiskState ℤ)
totals = record { encode = λ r. some r.player_id; decode = λ b. none }

abbrev pub match_ids : Codec (MatchLine ℤ)
match_ids = record { encode = λ l. some l.match_id; decode = λ b. none }

abbrev pub setup : Setup ℤ
setup = record {
  telemetry_dir = codes "t" ∷ [];
  risk_dir = codes "r" ∷ [];
  finalize_grace = 10;
  map_cfg = record {
    expected_schema_id = [];
    per_signal_cap = pos 10;
    counters = [];
    quantiles = [];
  };
  score_cfg = record { decay_factor = pos 1; risk_cap = pos 100 };
}

abbrev pub line : MatchRequestLine ℤ
line = record {
  at = 5;
  req = record {
    match_id = codes "m1";
    game_build_id = codes "b";
    match_started_at = none;
    match_ended_at = none;
    players =
        some (record {
          ref =
              some
                (record { session_id = codes "s"; match_id = codes "m1"; player_id = codes "p" });
          telemetry_schema_id = expected_telemetry_schema_id;
          counters = [];
          histograms = [];
          quantiles = [];
        })
        ∷ [];
    server_signature = none;
  };
}

abbrev pub finalized : Claimed
finalized = record {
  event = record { id = codes "e"; type = match_finalized; match_id = codes "m1"; created_at = 3 };
  processing_path = codes "e.json" ∷ codes "processing" ∷ [];
}

abbrev pub fresh : World
fresh = record {
  files = (codes "r" ∷ [], dir) ∷ (codes "players" ∷ codes "r" ∷ [], dir) ∷ [];
  faults = [];
  clock = λ n. n;
  reads = 0;
  printed = [];
}

abbrev pub scored : World
scored =
    (process_lines whole requests (λ t. none) totals match_ids (λ t. codes "d") setup (codes "m1")
      (line ∷ []) fresh).1

pub scores :
    process_lines whole requests
      (λ t. none)
      totals
      match_ids
      (λ t. codes "d")
      setup
      (codes "m1")
      (line ∷ [])
      fresh
    ≡ (ok tt, scored)
unfolding process_lines map_aggregates_to_match_risk add_quantiles load save append_match_line
    mark_applied read_file write_file mkdir_all lookup insert join path_eq path_lt open_append
    write_end text_eq time_now apply_match_risk
scores = refl

handler-process_lines_example :
    (handler whole requests
      (λ t. none)
      totals
      match_ids
      (λ t. codes "d")
      setup
      finalized
      (still scored.files (λ n. 90) 0 [])).1.files
    ≡ scored.files
handler-process_lines_example =
    handler-process_lines whole requests (λ t. none) totals match_ids (λ t. codes "d") setup
      finalized line [] fresh scored (λ n. 90) 0 [] scores
