-- ===== src/Tests/Services.antt =====
-- Submissions and the allowed keys at concrete inputs.
use baseline_integrity.Base.{
  List, All, trim_space, split_at, cut, trim_left, ◌≡◌, refl, true, none, some, [], ◌∷◌, ◌++◌, Text,
  codes, all, tabulate, text_eq,
}
use baseline_integrity.Base.Int.{ℤ, pos}
use baseline_integrity.Base.Result.{ok}
use baseline_integrity.Crypto.{verify, Codec}
use baseline_integrity.Os.{
  open_append, path_eq, time_now, write_end, insert, path_lt, dir, World, lookup, join,
}
use baseline_integrity.Outbox.{Event}
use baseline_integrity.Risk.{PlayerAggregates}
use baseline_integrity.Telemetry.{
  parse_allowed_server_keys, parse_keys, parse_key, set_key, SubmitMatchAggregatesRequest, Server,
  Settings, expected_telemetry_schema_id, missing_match_id, allowed_key, sanitize, is_safe,
}
use baseline_integrity.Telemetry.AllowedKeys.{HasKeySize, parse_allowed_server_keys-ok}
use baseline_integrity.Telemetry.Submission.{
  accepted_response, refused, submit_match_aggregates, sink_path,
}
use baseline_integrity.Telemetry.Acceptance.{IsAcceptable}
use baseline_integrity.Telemetry.Outcome.{submit-accepted, submit-refused}
use baseline_integrity.Telemetry.Sanitize.{sink_path-in_sink}
use baseline_integrity.Tests.Wire.{pad, toy_crypto}

-- An encoding of requests by their ids alone.
abbrev ids : Codec (SubmitMatchAggregatesRequest ℤ)
ids = record { encode = λ r. some (r.match_id ++ r.game_build_id); decode = λ b. none }

abbrev pub event_ids : Codec Event
event_ids = record { encode = λ e. some e.id; decode = λ b. none }

abbrev server_key : Text
server_key = pad 32 (tabulate 64 (λ i. i))

abbrev telemetry_server : Server
telemetry_server = record {
  sink_dir = codes "telemetry" ∷ [];
  require_sig = true;
  allowed_keys = (codes "k1", server_key) ∷ [];
}

abbrev pub settings : Settings
settings = record {
  outbox_dir = codes "outbox" ∷ [];
  on_finalize_only = true;
  instance_id = codes "i";
}

abbrev pub player : PlayerAggregates ℤ
player = record {
  ref = some (record { session_id = codes "s"; match_id = codes "m1"; player_id = codes "p" });
  telemetry_schema_id = expected_telemetry_schema_id;
  counters = [];
  histograms = record { name = codes "h"; bucket_count = 2; buckets = 4 ∷ 5 ∷ [] } ∷ [];
  quantiles =
      record { name = codes "q"; p50 = pos 1; p75 = pos 2; p90 = pos 3; p95 = pos 4; p99 = pos 9 }
      ∷ [];
}

abbrev submission : SubmitMatchAggregatesRequest ℤ
submission = record {
  match_id = codes "m1";
  game_build_id = codes "b";
  match_started_at = none;
  match_ended_at = none;
  players = some player ∷ [];
  server_signature = some (record {
    key_id = codes "k1";
    payload = codes "m1b";
    signature = pad 64 (server_key ++ codes "m1b");
    signed_at = none;
  });
}

abbrev nameless : SubmitMatchAggregatesRequest ℤ
nameless = record submission { match_id = [] }

abbrev pub calm : World
calm = record {
  files = (codes "telemetry" ∷ [], dir) ∷ [];
  faults = [];
  clock = λ n. n;
  reads = 0;
  printed = [];
}

abbrev after_submission : World
after_submission =
    (submit_match_aggregates toy_crypto ids ids event_ids (λ t. t ∷ []) telemetry_server settings
      (some submission) calm).1

submits :
    submit_match_aggregates toy_crypto ids ids event_ids
      (λ t. t ∷ [])
      telemetry_server
      settings
      (some submission)
      calm
    ≡ (ok accepted_response, after_submission)
unfolding submit_match_aggregates pad tabulate allowed_key text_eq verify open_append lookup path_eq
    join sanitize is_safe time_now write_end insert path_lt
submits = refl

abbrev after_refusal : World
after_refusal =
    (submit_match_aggregates toy_crypto ids ids event_ids (λ t. t ∷ []) telemetry_server settings
      (some nameless) calm).1

refuses :
    submit_match_aggregates toy_crypto ids ids event_ids
      (λ t. t ∷ [])
      telemetry_server
      settings
      (some nameless)
      calm
    ≡ (ok (refused missing_match_id), after_refusal)
unfolding submit_match_aggregates
refuses = refl

submit-accepted_example : IsAcceptable toy_crypto ids telemetry_server submission
submit-accepted_example =
    submit-accepted toy_crypto ids ids event_ids (λ t. t ∷ []) telemetry_server settings submission
      calm after_submission accepted_response submits refl

submit-refused_example : after_refusal ≡ calm
submit-refused_example =
    submit-refused toy_crypto ids ids event_ids (λ t. t ∷ []) telemetry_server settings nameless
      calm after_refusal (refused missing_match_id) refuses refl

sink_path-in_sink_example :
    (sink_path (codes "telemetry" ∷ []) (codes "../x")
      ≡ (codes "match_" ++ (sanitize (codes "../x") ++ codes ".jsonl")) ∷ codes "telemetry" ∷ [])
    × (all is_safe (sanitize (codes "../x")) ≡ true)
sink_path-in_sink_example = sink_path-in_sink (codes "telemetry" ∷ []) (codes "../x")

abbrev decoded_keys : List (Text × Text)
decoded_keys = (codes "a", tabulate 32 (λ i. 7)) ∷ []

-- Two entries, of which the second is blank, and a decoder that yields sevens.
parses :
    parse_allowed_server_keys (λ b. some (tabulate 32 (λ i. 7))) (codes " a:x, ") ≡ ok decoded_keys
unfolding parse_allowed_server_keys parse_keys parse_key set_key trim_space split_at cut trim_left
    tabulate
parses = refl

parse_allowed_server_keys-ok_example : All HasKeySize decoded_keys
parse_allowed_server_keys-ok_example =
    parse_allowed_server_keys-ok (λ b. some (tabulate 32 (λ i. 7))) (codes " a:x, ") decoded_keys
      parses
