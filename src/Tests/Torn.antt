-- ===== src/Tests/Torn.antt =====
-- A submission whose second write fails, and the next one, at a concrete input.
use baseline_integrity.Base.{◌+◌, ◌≡◌, refl, none, some, [], ◌∷◌, codes, all, arith, text_eq}
use baseline_integrity.Base.Result.{ok, err, not_exist, status, internal}
use baseline_integrity.Os.{
  World, path_eq, path_lt, lookup, insert, join, file, dir, open_append, write_end, time_now,
}
use baseline_integrity.Os.Still.{still}
use baseline_integrity.Telemetry.{sanitize, is_safe}
use baseline_integrity.Telemetry.Lines.{load_buffer, load_match_requests}
use baseline_integrity.Telemetry.Refusal.{err_bad_json}
use baseline_integrity.Telemetry.RoundTrip.{empty-IsSink}
use baseline_integrity.Telemetry.Submission.{
  submit_match_aggregates, accepted_response, check_request,
}
use baseline_integrity.Telemetry.Torn.{submit-torn-load}
use baseline_integrity.Tests.Wire.{toy_crypto, flatten, words}
use baseline_integrity.Tests.Services.{event_ids, settings, calm}
use baseline_integrity.Tests.Sink.{
  json, print_time, read_time, json-Printing, open_server, quiet, quiet_text, fields_words,
  player_words, prints,
}

-- The match's file is there and empty, and the third call fails.
abbrev torn_world : World
torn_world = record calm {
  files =
      (codes "telemetry" ∷ [], dir)
      ∷ (codes "match_m1.jsonl" ∷ codes "telemetry" ∷ [], file [] 4)
      ∷ [];
  faults = none ∷ none ∷ some not_exist ∷ [];
  clock = λ n. 1000 + n;
}

abbrev half_stored : World
half_stored =
    (submit_match_aggregates toy_crypto json json event_ids print_time open_server settings
      (some quiet) torn_world).1

abbrev stored_behind : World
stored_behind =
    (submit_match_aggregates toy_crypto json json event_ids print_time open_server settings
      (some quiet) half_stored).1

submits_behind :
    submit_match_aggregates toy_crypto json json event_ids print_time open_server settings
      (some quiet)
      half_stored
    ≡ (ok accepted_response, stored_behind)
unfolding submit_match_aggregates fields_words player_words flatten all text_eq open_append lookup
    path_eq join sanitize is_safe time_now write_end insert path_lt
submits_behind = refl

submit-torn-load_example :
    ((submit_match_aggregates toy_crypto json json event_ids print_time open_server settings
        (some quiet)
        torn_world).0
      ≡ err (status internal "write telemetry sink"))
    × ((load_match_requests json read_time
          (codes "telemetry" ∷ [])
          (codes "m1")
          (still stored_behind.files (λ n. n) 0 [])).0
        ≡ err err_bad_json)
unfolding submit_match_aggregates fields_words player_words flatten all text_eq open_append lookup
    path_eq join sanitize is_safe time_now write_end insert path_lt check_request words
submit-torn-load_example =
    submit-torn-load toy_crypto json json event_ids print_time read_time json-Printing open_server
      settings quiet quiet quiet_text quiet_text [] 4 torn_world stored_behind not_exist []
      accepted_response [] (λ n. n) 0 [] refl refl refl refl prints prints refl refl
      (empty-IsSink json read_time load_buffer) refl (omega arith) submits_behind refl
